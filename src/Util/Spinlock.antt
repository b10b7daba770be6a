-- ===== src/Util/Spinlock.antt =====
-- src/libraries/util/spinlock.cpp and spinlock.h: a queue of waiters (an MCS lock). A thread has one
-- waiter and both are named by the same number; memory is sequentially consistent. A step is what one
-- thread does up to its next access that another thread can see.
pub mod Chain
pub mod Queue
pub mod Exclusion
mod Tests
use jsix.Prelude.{ℕ, ◌≡◌, Bool, true, false, Option, none, some, ◌==◌, if◌then◌else◌}

-- Where a thread stands in `acquire` and `release`.
pub data Phase : Type 0 where
  outside : Phase
  starting : Phase
  linking : ℕ → Phase
  waiting : Phase
  clearing : Phase
  holding : Phase
  handing : Phase
  trying : Phase

-- `m_lock` and, of each waiter, `next` and `blocked`
pub record Spinlock : Type 0 where
  pub lock : Option ℕ
  pub next : ℕ → Option ℕ
  pub blocked : ℕ → Bool
  pub phases : ℕ → Phase

abbrev pub new_spinlock : Spinlock
new_spinlock = record { lock = none; next = λ w. none; blocked = λ w. false; phases = λ t. outside }

abbrev pub put {ℓ} : {A : Type ℓ} → (ℕ → A) → ℕ → A → ℕ → A
put f k x i = if i == k then x else f i

abbrev pub with_phase : Spinlock → ℕ → Phase → Spinlock
with_phase s t p = record s { phases = put s.phases t p }

-- the exchange of `acquire`, given what the lock pointed at
abbrev pub exchanged : Spinlock → ℕ → Option ℕ → Spinlock
exchanged s t none = record (with_phase s t clearing) { lock = some t }
exchanged s t (some prev) = record (with_phase s t (linking prev)) { lock = some t }

-- the compare-and-swap of `try_acquire`
abbrev pub try_exchange : Spinlock → ℕ → Option ℕ → Spinlock
try_exchange s t none = record (with_phase s t holding) { lock = some t }
try_exchange s t (some w) = with_phase s t outside

abbrev pub is_waiter : Option ℕ → ℕ → Bool
is_waiter none t = false
is_waiter (some w) t = w == t

-- the end of `release`, once `next` is set
abbrev pub hand_to : Spinlock → ℕ → Option ℕ → Spinlock
hand_to s t none = s
hand_to s t (some n) = record (with_phase s t outside) { blocked = put s.blocked n false }

-- The next step of a thread that is in `acquire` or `release`.
abbrev pub act_in : Spinlock → ℕ → Phase → Spinlock
act_in s t outside = s
act_in s t starting = exchanged s t s.lock
act_in s t (linking prev) = record (with_phase s t waiting) { next = put s.next prev (some t) }
act_in s t waiting = if s.blocked t then s else with_phase s t holding
act_in s t clearing = record (with_phase s t holding) { blocked = put s.blocked t false }
act_in s t holding =
    if is_waiter s.lock t
    then record (with_phase s t outside) { lock = none }
    else with_phase s t handing
act_in s t handing = hand_to s t (s.next t)
act_in s t trying = try_exchange s t s.lock

unfoldable pub act : Spinlock → ℕ → Spinlock
act s t = act_in s t (s.phases t)

-- The calls: `acquire` and `try_acquire` first write to the waiter of the thread.
abbrev pub call_acquire : Spinlock → ℕ → Spinlock
call_acquire s t = record (with_phase s t starting) {
  next = put s.next t none;
  blocked = put s.blocked t true;
}

abbrev pub call_try_acquire : Spinlock → ℕ → Spinlock
call_try_acquire s t = record (with_phase s t trying) {
  next = put s.next t none;
  blocked = put s.blocked t false;
}

pub data Step (s : Spinlock) : Spinlock → Type 0 where
  acts : (t : ℕ) → Step s (act s t)
  calls_acquire : (t : ℕ) → s.phases t ≡ outside → Step s (call_acquire s t)
  calls_try_acquire : (t : ℕ) → s.phases t ≡ outside → Step s (call_try_acquire s t)

-- The states that any number of steps of any threads lead to.
pub data Reached : Spinlock → Type 0 where
  start : Reached new_spinlock
  step : (s t : Spinlock) → Reached s → Step s t → Reached t
