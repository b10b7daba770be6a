-- ===== src/Kernel/WaitQueue/Order.antt =====
-- Whom `pop_next` and `clear` pick, and what they leave of the threads.
use jsix.Prelude.{
  ℕ, zero, suc, ◌<◌, ◌≡◌, refl, ap, ◌∙◌, sym, inl, inr, Bool, Bool-cases, true, false, Option, none,
  some, List, [], ◌∷◌, ◌++◌, length, if◌then◌else◌, arith, ◌==◌, ◌||◌, ◌&&◌,
}
use jsix.Kernel.Threads.{Thread, Threads, handle_release, wake, is_waiting}
use jsix.Kernel.WaitQueue.{WaitQueue, pop_exited, pop_next, wake_popped, clear_rounds, clear}

-- Two threads alike but for their handles.
pub record IsAlike (a b : Thread) : Type 0 where
  pub ready : a.ready ≡ b.ready
  pub exited : a.exited ≡ b.exited
  pub wake_value : a.wake_value ≡ b.wake_value
  pub wake_timeout : a.wake_timeout ≡ b.wake_timeout
  pub message : a.message ≡ b.message

abbrev pub AllAlike : Threads → Threads → Type 0
AllAlike ts us = (i : ℕ) → IsAlike (ts i) (us i)

pub AllAlike-refl : (ts : Threads) → AllAlike ts ts
AllAlike-refl ts i = record {
  ready = refl;
  exited = refl;
  wake_value = refl;
  wake_timeout = refl;
  message = refl;
}

handle_release-AllAlike : (ts : Threads) (t : ℕ) → AllAlike (handle_release ts t) ts
unfolding handle_release
handle_release-AllAlike ts t i = ground arith

abbrev NoneWaits : Threads → List ℕ → Type 0
NoneWaits ts [] = Unit {0}
NoneWaits ts (t ∷ q) = (is_waiting (ts t) ≡ false) × NoneWaits ts q

-- `pre` are the threads that were skipped: none of them waits.
pub data Picks (ts : Threads) (q : WaitQueue) : Option ℕ → WaitQueue → Type 0 where
  nobody : NoneWaits ts q → Picks ts q none []
  first :
      (pre : List ℕ) (t : ℕ) (post : List ℕ)
      → q ≡ pre ++ t ∷ post
      → NoneWaits ts pre
      → is_waiting (ts t) ≡ true
      → Picks ts q (some t) post

is_waiting-alike : {a b : Thread} → IsAlike a b → is_waiting a ≡ is_waiting b
is_waiting-alike h = ground arith

NoneWaits-alike : {ts us : Threads} (q : List ℕ) → AllAlike ts us → NoneWaits ts q → NoneWaits us q
NoneWaits-alike [] h n = tt
NoneWaits-alike (t ∷ q) h n = (sym (is_waiting-alike (h t)) ∙ n.0, NoneWaits-alike q h n.1)

pub pop_next_skip :
    (ts : Threads) (t : ℕ) (q : WaitQueue)
    → is_waiting (ts t) ≡ false
    → pop_next ts (t ∷ q) ≡ pop_next (handle_release ts t) q
unfolding pop_next
pop_next_skip ts t q e = rw (e, pop_exited)

pub pop_next_take :
    (ts : Threads) (t : ℕ) (q : WaitQueue)
    → is_waiting (ts t) ≡ true
    → pop_next ts (t ∷ q) ≡ (some t, handle_release ts t, q)
unfolding pop_next
pop_next_take ts t q e = rw (e, pop_exited)

pub pop_next_nil : (ts : Threads) → pop_next ts [] ≡ (none, ts, [])
unfolding pop_next
pop_next_nil ts = refl

abbrev pub Popped : Threads → WaitQueue → Option ℕ × Threads × WaitQueue → Type 0
Popped ts q (o, us, r) = Picks ts q o r × AllAlike us ts

pub AllAlike-trans : {ts us vs : Threads} → AllAlike ts us → AllAlike us vs → AllAlike ts vs
AllAlike-trans h k i = ground (arith, h i, k i)

Picks-skip :
    {ts us : Threads} {t : ℕ} {q : WaitQueue} {o : Option ℕ} {r : WaitQueue}
    → AllAlike us ts
    → is_waiting (ts t) ≡ false
    → Picks us q o r
    → Picks ts (t ∷ q) o r
Picks-skip {q = q} a e (nobody n) = nobody (e, NoneWaits-alike q a n)
Picks-skip {t = t} a e (first pre u post split n w) =
    first (t ∷ pre) u post (ap (◌∷◌ t) split) (e, NoneWaits-alike pre a n)
      (sym (is_waiting-alike (a u)) ∙ w)

-- `pop_next` returns the first thread of the queue that waits and leaves those behind it; without
-- one it empties the queue. But for handle counts it changes no thread.
pub pop_next-Popped : (ts : Threads) (q : WaitQueue) → Popped ts q (pop_next ts q)
pop_next-Popped ts [] = rw (pop_next_nil ts) (nobody tt, AllAlike-refl ts)
pop_next-Popped ts (t ∷ q) = elim (Bool-cases (is_waiting (ts t))) [
  | inl e ↦ rw (pop_next_take ts t q e) (first [] t q refl tt e, handle_release-AllAlike ts t)
  | inr e ↦ rw (pop_next_skip ts t q e) (
      let (p, a) = pop_next-Popped (handle_release ts t) q in
      (
        Picks-skip (handle_release-AllAlike ts t) e p,
        AllAlike-trans a (handle_release-AllAlike ts t),
      ))
]

abbrev pub queued : ℕ → WaitQueue → Bool
queued i [] = false
queued i (t ∷ q) = i == t || queued i q

-- What waking the waiting threads of a queue makes of thread `i`.
abbrev pub woken : Threads → WaitQueue → ℕ → ℕ → Thread
woken ts q value i =
    if queued i q && is_waiting (ts i)
    then record (ts i) { ready = true; wake_value = value; wake_timeout = 0 }
    else ts i

clear_rounds_nil :
    (fuel : ℕ) (ts : Threads) (value : ℕ) → clear_rounds (suc fuel) ts [] value ≡ (ts, [])
unfolding clear_rounds
clear_rounds_nil fuel ts value =
    ap (wake_popped (λ us r. clear_rounds fuel us r value) value) (pop_next_nil ts)

clear_rounds_skip :
    (fuel : ℕ) (ts : Threads) (t : ℕ) (q : WaitQueue) (value : ℕ)
    → is_waiting (ts t) ≡ false
    → clear_rounds (suc fuel) ts (t ∷ q) value
      ≡ clear_rounds (suc fuel) (handle_release ts t) q value
unfolding clear_rounds
clear_rounds_skip fuel ts t q value e =
    ap (wake_popped (λ us r. clear_rounds fuel us r value) value) (pop_next_skip ts t q e)

clear_rounds_take :
    (fuel : ℕ) (ts : Threads) (t : ℕ) (q : WaitQueue) (value : ℕ)
    → is_waiting (ts t) ≡ true
    → clear_rounds (suc fuel) ts (t ∷ q) value
      ≡ clear_rounds fuel (wake (handle_release ts t) t value) q value
unfolding clear_rounds
clear_rounds_take fuel ts t q value e =
    ap (wake_popped (λ us r. clear_rounds fuel us r value) value) (pop_next_take ts t q e)

woken_skip :
    (ts : Threads) (t : ℕ) (q : WaitQueue) (value : ℕ)
    → is_waiting (ts t) ≡ false
    → AllAlike (woken (handle_release ts t) q value) (woken ts (t ∷ q) value)
unfolding handle_release
woken_skip ts t q value e i = ground arith

pub woken_take :
    (ts : Threads) (t : ℕ) (q : WaitQueue) (value : ℕ)
    → is_waiting (ts t) ≡ true
    → AllAlike (woken (wake (handle_release ts t) t value) q value) (woken ts (t ∷ q) value)
unfolding handle_release wake
woken_take ts t q value e i = ground arith

clear_rounds-woken :
    (fuel : ℕ) (ts : Threads) (q : WaitQueue) (value : ℕ)
    → length q < fuel
    → AllAlike (clear_rounds fuel ts q value).0 (woken ts q value)
      × ((clear_rounds fuel ts q value).1 ≡ [])
clear_rounds-woken zero ts q value h = absurd (omega arith)
clear_rounds-woken (suc fuel) ts [] value h =
    rw (clear_rounds_nil fuel ts value) (AllAlike-refl ts, refl)
clear_rounds-woken (suc fuel) ts (t ∷ q) value h = elim (Bool-cases (is_waiting (ts t))) [
  | inl e ↦ rw (clear_rounds_take fuel ts t q value e) (
      let (a, empty) =
        clear_rounds-woken fuel (wake (handle_release ts t) t value) q value (omega arith) in
      (AllAlike-trans a (woken_take ts t q value e), empty))
  | inr e ↦ rw (clear_rounds_skip fuel ts t q value e) (
      let (a, empty) = clear_rounds-woken (suc fuel) (handle_release ts t) q value (omega arith) in
      (AllAlike-trans a (woken_skip ts t q value e), empty))
]

-- `clear` ends with an empty queue, wakes each waiting thread of it with the value, and changes
-- no other thread but for handle counts.
pub clear-woken :
    (ts : Threads) (q : WaitQueue) (value : ℕ)
    → AllAlike (clear ts q value).0 (woken ts q value) × ((clear ts q value).1 ≡ [])
unfolding clear
clear-woken ts q value = clear_rounds-woken (suc (length q)) ts q value (omega arith)
