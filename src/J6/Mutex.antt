-- ===== src/J6/Mutex.antt =====
-- mutex of src/libraries/j6/mutex.cpp: a word that threads change by atomic operations, and the futex
-- system calls of src/kernel/syscalls/futex.cpp. `j6_futex_wait` is two steps, as there: it compares the
-- word, and then joins the queue of the futex and sleeps, without another look at the word.
-- `j6_futex_wake` with a count of 1 wakes one thread that sleeps, if there is one. Between two
-- steps of a thread any other thread may run.
pub mod Race
pub mod Exclusion
mod Tests
use jsix.Prelude.{ℕ, zero, suc, ◌+◌, ◌-◌, ◌==◌, ◌≡◌, Bool, true, false, if◌then◌else◌, ◌%◌, u32_mod}

-- Where a thread stands in `lock` and `unlock`.
pub data Phase : Type 0 where
  outside : Phase
  locking : Phase
  marking : Phase
  waiting : Phase
  queuing : Phase
  sleeping : Phase
  holding : Phase
  storing : Phase
  waking : Phase

-- `m_state` and the threads
pub record Mutex : Type 0 where
  pub word : ℕ
  pub phases : ℕ → Phase

abbrev pub new_mutex : Mutex
new_mutex = record { word = 0; phases = λ t. outside }

abbrev pub put_phase : (ℕ → Phase) → ℕ → Phase → ℕ → Phase
put_phase f t p i = if i == t then p else f i

-- the compare-and-swap of `lock`
abbrev pub try_lock : ℕ → ℕ × Phase
try_lock word =
    if word == 0 then (1, holding) else (if word == 2 then (word, waiting) else (word, marking))

-- the exchange, before the loop and in it
abbrev pub mark : ℕ → ℕ × Phase
mark word = if word == 0 then (2, holding) else (2, waiting)

-- the comparison of `j6_futex_wait`, which returns at once when the word is no longer 2
abbrev pub compare : ℕ → ℕ × Phase
compare word = if word == 2 then (word, queuing) else (word, marking)

abbrev pub minus_one : ℕ → ℕ
minus_one word = (word + (u32_mod - 1)) % u32_mod

-- the fetch-and-subtract of `unlock`
abbrev pub begin_unlock : ℕ → ℕ × Phase
begin_unlock word = if word == 1 then (minus_one word, outside) else (minus_one word, storing)

-- What the next atomic step of a thread makes of the word and of itself; a thread that sleeps, and
-- one at its wake call, have none of their own.
abbrev pub act_in : Phase → ℕ → ℕ × Phase
act_in outside word = (word, locking)
act_in locking word = try_lock word
act_in marking word = mark word
act_in waiting word = compare word
act_in queuing word = (word, sleeping)
act_in sleeping word = (word, sleeping)
act_in holding word = begin_unlock word
act_in storing word = (0, waking)
act_in waking word = (word, waking)

unfoldable pub act : Mutex → ℕ → Mutex
act m t =
    let (word, phase) = act_in (m.phases t) m.word in
    record { word = word; phases = put_phase m.phases t phase }

-- `j6_futex_wake` by `t`, which wakes `u`
abbrev pub wake_one : Mutex → ℕ → ℕ → Mutex
wake_one m t u = record m { phases = put_phase (put_phase m.phases t outside) u marking }

abbrev pub is_sleeping : Phase → Bool
is_sleeping sleeping = true
is_sleeping _ = false

pub data Step (m : Mutex) : Mutex → Type 0 where
  acts : (t : ℕ) → Step m (act m t)
  wakes : (t u : ℕ) → m.phases t ≡ waking → m.phases u ≡ sleeping → Step m (wake_one m t u)
  wakes_nobody :
      (t : ℕ)
      → m.phases t ≡ waking
      → ((u : ℕ) → is_sleeping (m.phases u) ≡ false)
      → Step m (record m { phases = put_phase m.phases t outside })

-- The states that any number of steps of any threads lead to.
pub data Reached : Mutex → Type 0 where
  start : Reached new_mutex
  next : (m n : Mutex) → Reached m → Step m n → Reached n
