-- ===== src/Kernel/Futex/Wake.antt =====
-- futex_wake of src/kernel/syscalls/futex.cpp.
use jsix.Prelude.{
  ℕ, zero, suc, ◌≡◌, ◌≢◌, ◌∙◌, ◌⊎◌, inl, inr, refl, sym, ap, subst, true, false, Option, none, some,
  [], ◌∷◌, length, take, drop, arith, Option-cases,
}
use jsix.Prelude.Assoc.{Assoc, find, KeysBelow, find-erase_self, find-erase_ne}
use jsix.Kernel.Threads.{Threads, wake, handle_release, is_waiting}
use jsix.Kernel.WaitQueue.{WaitQueue, wake_popped, clear}
use jsix.Kernel.WaitQueue.Order.{
  AllAlike, AllAlike-refl, AllAlike-trans, queued, woken, woken_take, pop_next_take, pop_next_nil,
  clear-woken,
}
use jsix.Kernel.Futex.{
  Futexes, queue_at, put_queue, left_queue, wake_rounds, wake_queue, wake_found, futex_wake,
}
use jsix.Kernel.Status.{status_ok}

-- The threads of a queue are distinct and wait.
abbrev pub AreWaiting : Threads → WaitQueue → Type 0
AreWaiting ts [] = Unit {0}
AreWaiting ts (t ∷ q) = (is_waiting (ts t) ≡ true) × (queued t q ≡ false) × AreWaiting ts q

waking-AreWaiting :
    (ts : Threads) (t : ℕ) (q : WaitQueue)
    → queued t q ≡ false
    → AreWaiting ts q
    → AreWaiting (wake (handle_release ts t) t 0) q
unfolding wake handle_release
waking-AreWaiting ts t [] n w = tt
waking-AreWaiting ts t (u ∷ q) n w =
    (ground (arith, n, w.0), w.1, waking-AreWaiting ts t q (ground (arith, n)) w.2)

wake_rounds_zero : (ts : Threads) (q : WaitQueue) → wake_rounds 0 ts q ≡ (ts, q)
unfolding wake_rounds
wake_rounds_zero ts q = refl

wake_rounds_nil : (count : ℕ) (ts : Threads) → wake_rounds (suc count) ts [] ≡ (ts, [])
unfolding wake_rounds
wake_rounds_nil count ts = ap (wake_popped (λ us r. wake_rounds count us r) 0) (pop_next_nil ts)

wake_rounds_take :
    (count : ℕ) (ts : Threads) (t : ℕ) (q : WaitQueue)
    → is_waiting (ts t) ≡ true
    → wake_rounds (suc count) ts (t ∷ q) ≡ wake_rounds count (wake (handle_release ts t) t 0) q
unfolding wake_rounds
wake_rounds_take count ts t q e =
    ap (wake_popped (λ us r. wake_rounds count us r) 0) (pop_next_take ts t q e)

wake_rounds-woken :
    (count : ℕ) (ts : Threads) (q : WaitQueue)
    → AreWaiting ts q
    → AllAlike (wake_rounds count ts q).0 (woken ts (take count q) 0)
      × ((wake_rounds count ts q).1 ≡ drop count q)
wake_rounds-woken zero ts q w = rw (wake_rounds_zero ts q) (AllAlike-refl ts, refl)
wake_rounds-woken (suc count) ts [] w = rw (wake_rounds_nil count ts) (AllAlike-refl ts, refl)
wake_rounds-woken (suc count) ts (t ∷ q) w = rw (wake_rounds_take count ts t q w.0) (
    let (a, left) =
      wake_rounds-woken count (wake (handle_release ts t) t 0) q
        (waking-AreWaiting ts t q w.1 w.2) in
    (AllAlike-trans a (woken_take ts t (take count q) 0 w.0), left))

-- How many threads a count stands for: 0 is all of them.
abbrev pub how_many : ℕ → WaitQueue → ℕ
how_many zero q = length q
how_many (suc count) q = suc count

take_all : (q : WaitQueue) → take (length q) q ≡ q
take_all [] = refl
take_all (t ∷ q) = ap (λ r. t ∷ r) (take_all q)

drop_all : (q : WaitQueue) → drop (length q) q ≡ []
drop_all [] = refl
drop_all (t ∷ q) = drop_all q

wake_queue-woken :
    (count : ℕ) (ts : Threads) (q : WaitQueue)
    → AreWaiting ts q
    → AllAlike (wake_queue count ts q).0 (woken ts (take (how_many count q) q) 0)
      × ((wake_queue count ts q).1 ≡ drop (how_many count q) q)
unfolding wake_queue
wake_queue-woken zero ts q w =
    let (a, left) = clear-woken ts q 0 in
    (
      subst (λ r. AllAlike (clear ts q 0).0 (woken ts r 0)) (sym (take_all q)) a,
      left ∙ sym (drop_all q),
    )
wake_queue-woken (suc count) ts q w = wake_rounds-woken (suc count) ts q w

-- What a lookup says when no thread is left: there is no futex.
abbrev pub unless_empty : WaitQueue → Option WaitQueue
unless_empty [] = none
unless_empty (t ∷ q) = some (t ∷ q)

find-put_queue_self :
    (m : Assoc WaitQueue) (k : ℕ) (q r : WaitQueue)
    → find m k ≡ some q
    → find (put_queue m k r) k ≡ some r
find-put_queue_self [] k q r e = ground arith
find-put_queue_self ((j, s) ∷ m) k q r e = ground (arith, find-put_queue_self m k q r)

pub find-put_queue_ne :
    (m : Assoc WaitQueue) (j k : ℕ) (r : WaitQueue) → j ≢ k → find (put_queue m j r) k ≡ find m k
find-put_queue_ne [] j k r h = refl
find-put_queue_ne ((i, s) ∷ m) j k r h = ground (arith, find-put_queue_ne m j k r h)

find-left_queue_self :
    (b k : ℕ) (m : Assoc WaitQueue) (q r : WaitQueue)
    → KeysBelow b m
    → find m k ≡ some q
    → find (left_queue m k r) k ≡ unless_empty r
find-left_queue_self b k m q [] below e = find-erase_self b k m below
find-left_queue_self b k m q (t ∷ r) below e = find-put_queue_self m k q (t ∷ r) e

find-left_queue_ne :
    (j k : ℕ) (m : Assoc WaitQueue) (r : WaitQueue) → j ≢ k → find (left_queue m j r) k ≡ find m k
find-left_queue_ne j k m [] h = find-erase_ne j k m h
find-left_queue_ne j k m (t ∷ r) h = find-put_queue_ne m j k (t ∷ r) h

-- What `futex_wake` leaves of a futex.
pub record IsWoken (s t : Futexes) (phys count : ℕ) (q : WaitQueue) : Type 0 where
  pub threads : AllAlike t.threads (woken s.threads (take (how_many count q) q) 0)
  pub queue : find t.queues phys ≡ unless_empty (drop (how_many count q) q)
  pub others : (k : ℕ) → phys ≢ k → find t.queues k ≡ find s.queues k

wake_found-IsWoken :
    (s : Futexes) (phys count b : ℕ) (q : WaitQueue)
    → KeysBelow b s.queues
    → find s.queues phys ≡ some q
    → AreWaiting s.threads q
    → IsWoken s (wake_found s phys count (some q)) phys count q
wake_found-IsWoken s phys count b q below e w =
    let (a, left) = wake_queue-woken count s.threads q w in
    let r = (wake_queue count s.threads q).1 in
    record {
      threads = a;
      queue = find-left_queue_self b phys s.queues q r below e ∙ ap unless_empty left;
      others = λ k h. find-left_queue_ne phys k s.queues r h;
    }

-- On a futex whose threads are distinct and wait, `futex_wake` succeeds and wakes the first ones in
-- the order of the queue, as many as the count says, or all of them if it is 0. The others stay in
-- the queue in their order, the futex goes when none is left, and neither other threads, but for
-- handle counts, nor other futexes change. The keys of the map must be distinct. Where there is no
-- futex nothing changes.
pub futex_wake-outcome :
    (s : Futexes) (phys count b : ℕ)
    → KeysBelow b s.queues
    → AreWaiting s.threads (queue_at (find s.queues phys))
    → ((find s.queues phys ≡ none) × (futex_wake s phys count ≡ (status_ok, s)))
      ⊎ ((q : WaitQueue) × (find s.queues phys ≡ some q)
          × ((futex_wake s phys count).0 ≡ status_ok)
          × IsWoken s (futex_wake s phys count).1 phys count q)
unfolding futex_wake
futex_wake-outcome s phys count b below w = elim (Option-cases (find s.queues phys)) [
  | inl e ↦ inl (e, ap (λ o. (status_ok, wake_found s phys count o)) e)
  | inr (q, e) ↦ inr (
    q,
    e,
    refl,
    subst (λ o. IsWoken s (wake_found s phys count o) phys count q) (sym e)
        (wake_found-IsWoken s phys count b q below e
          (subst (λ o. AreWaiting s.threads (queue_at o)) e w)),
  )
]
