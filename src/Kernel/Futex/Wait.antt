-- ===== src/Kernel/Futex/Wait.antt =====
-- futex_wait of src/kernel/syscalls/futex.cpp.
use jsix.Prelude.{
  ℕ, ◌≤◌, ◌==◌, ◌≡◌, ◌≢◌, ◌∙◌, ◌⊎◌, inl, inr, refl, sym, ap, subst, true, false, ◌||◌, Option, none,
  some, [], ◌∷◌, ◌++◌, if◌then◌else◌, arith, Option-cases, Bool-cases, add64,
}
use jsix.Prelude.Assoc.{Assoc, find, KeysBelow}
use jsix.Kernel.Threads.{Thread, Threads, handle_retain, block, set_wake_timeout, is_waiting}
use jsix.Kernel.WaitQueue.{WaitQueue, wait}
use jsix.Kernel.WaitQueue.Order.{queued}
use jsix.Kernel.Futex.{
  Futexes, put_queue, queue_at, with_futex, with_timeout, futex_block, futex_wait,
}
use jsix.Kernel.Futex.Wake.{AreWaiting, find-put_queue_ne}
use jsix.Kernel.Status.{status_ok, status_futex_changed}

-- A thread that runs stands in no queue of waiting threads.
running-queued :
    (ts : Threads) (t : ℕ) (q : WaitQueue)
    → AreWaiting ts q
    → (ts t).ready ≡ true
    → queued t q ≡ false
running-queued ts t [] w r = refl
running-queued ts t (u ∷ q) w r = ground (arith, running-queued ts t q w.2 r, w.0, ap ts)

queued-append : (t u : ℕ) (q : WaitQueue) → queued u (q ++ t ∷ []) ≡ queued u q || u == t
queued-append t u [] = ground arith
queued-append t u (v ∷ q) = ground (arith, queued-append t u q)

append-AreWaiting :
    (ts us : Threads) (t : ℕ) (q : WaitQueue)
    → ((i : ℕ) → i ≢ t → us i ≡ ts i)
    → is_waiting (us t) ≡ true
    → queued t q ≡ false
    → AreWaiting ts q
    → AreWaiting us (q ++ t ∷ [])
append-AreWaiting ts us t [] same w n a = (w, refl, tt)
append-AreWaiting ts us t (v ∷ q) same w n a = (
  ground (arith, n, a.0, same v),
  queued-append t v q ∙ ground (arith, n, a.1),
  append-AreWaiting ts us t q same w (ground (arith, n)) a.2,
)

blocked_others :
    (ts : Threads) (t timeout now i : ℕ)
    → i ≢ t
    → block (handle_retain (with_timeout ts t timeout now) t) t i ≡ ts i
unfolding block handle_retain set_wake_timeout
blocked_others ts t timeout now i h = ground arith

abbrev HasBlocked : Thread → Thread → ℕ → ℕ → Type 0
HasBlocked old new timeout now =
    (new.ready ≡ false)
    × (new.exited ≡ old.exited)
    × (new.wake_timeout ≡ (if timeout == 0 then old.wake_timeout else add64 timeout now))

blocked_self :
    (ts : Threads) (t timeout now : ℕ)
    → HasBlocked (ts t) (block (handle_retain (with_timeout ts t timeout now) t) t t) timeout now
unfolding block handle_retain set_wake_timeout
blocked_self ts t timeout now = (ground arith, ground arith, ground arith)

find-put_with_futex :
    (m : Assoc WaitQueue) (k : ℕ) (q : WaitQueue)
    → find (put_queue (with_futex m k (find m k)) k q) k ≡ some q
find-put_with_futex [] k q = ground arith
find-put_with_futex ((j, r) ∷ m) k q = ground (arith, find-put_with_futex m k q)

find-put_with_futex_ne :
    (m : Assoc WaitQueue) (k j : ℕ) (q : WaitQueue)
    → k ≢ j
    → find (put_queue (with_futex m k (find m k)) k q) j ≡ find m j
find-put_with_futex_ne m k j q h =
    find-put_queue_ne (with_futex m k (find m k)) k j q h ∙ unchanged (find m k)
  where
    unchanged : (o : Option WaitQueue) → find (with_futex m k o) j ≡ find m j
    unchanged none = ground arith
    unchanged (some r) = refl

find-put_queue-none :
    (m : Assoc WaitQueue) (k j : ℕ) (q : WaitQueue)
    → find m j ≡ none
    → find (put_queue m k q) j ≡ none
find-put_queue-none [] k j q e = e
find-put_queue-none ((i, r) ∷ m) k j q e = ground (arith, find-put_queue-none m k j q, e)

put_queue-KeysBelow :
    (b : ℕ) (m : Assoc WaitQueue) (k : ℕ) (q : WaitQueue)
    → KeysBelow b m
    → KeysBelow b (put_queue m k q)
put_queue-KeysBelow b [] k q v = tt
put_queue-KeysBelow b ((i, r) ∷ m) k q v = elim (Bool-cases (i == k)) [
  | inl e ↦ rw e v
  | inr e ↦ rw e (v.0, find-put_queue-none m k i q v.1, put_queue-KeysBelow b m k q v.2)
]

with_futex-KeysBelow :
    (b : ℕ) (m : Assoc WaitQueue) (k : ℕ)
    → KeysBelow b m
    → k ≤ b
    → KeysBelow b (with_futex m k (find m k))
with_futex-KeysBelow b m k v h = elim (Option-cases (find m k)) [
  | inl e ↦ subst (λ o. KeysBelow b (with_futex m k o)) (sym e) (h, e, v)
  | inr (q, e) ↦ subst (λ o. KeysBelow b (with_futex m k o)) (sym e) v
]

-- What `futex_wait` leaves when the thread has to wait.
pub record IsBlocked (s t : Futexes) (current phys timeout now b : ℕ) : Type 0 where
  pub blocked : HasBlocked (s.threads current) (t.threads current) timeout now
  pub threads : (i : ℕ) → i ≢ current → t.threads i ≡ s.threads i
  pub queue : find t.queues phys ≡ some (queue_at (find s.queues phys) ++ current ∷ [])
  pub waiting : AreWaiting t.threads (queue_at (find t.queues phys))
  pub others : (k : ℕ) → phys ≢ k → find t.queues k ≡ find s.queues k
  pub keys : KeysBelow b t.queues

futex_block-IsBlocked :
    (s : Futexes) (current phys timeout now b : ℕ)
    → KeysBelow b s.queues
    → phys ≤ b
    → AreWaiting s.threads (queue_at (find s.queues phys))
    → (s.threads current).ready ≡ true
    → (s.threads current).exited ≡ false
    → IsBlocked s (futex_block s current phys timeout now) current phys timeout now b
unfolding futex_block wait
futex_block-IsBlocked s current phys timeout now b below range w ready alive =
    let q = queue_at (find s.queues phys) in
    let us = block (handle_retain (with_timeout s.threads current timeout now) current) current in
    let self = blocked_self s.threads current timeout now in
    let joined = find-put_with_futex s.queues phys (q ++ current ∷ []) in
    record {
      blocked = self;
      threads = blocked_others s.threads current timeout now;
      queue = joined;
      waiting =
          subst (λ o. AreWaiting us (queue_at o)) (sym joined)
            (append-AreWaiting s.threads us current q (blocked_others s.threads current timeout now)
              (ground (arith, self, alive)) (running-queued s.threads current q w ready) w);
      others = λ k h. find-put_with_futex_ne s.queues phys k (q ++ current ∷ []) h;
      keys =
          put_queue-KeysBelow b (with_futex s.queues phys (find s.queues phys)) phys
            (q ++ current ∷ []) (with_futex-KeysBelow b s.queues phys below range);
    }

-- `futex_wait` of a running thread: if the value is not the expected one it says so and changes
-- nothing. Otherwise it reports success, and leaves the thread blocked at the end of the queue of
-- the address, which is made if there is none, with the time `timeout` from now, if that is not 0,
-- to wake it. The threads of that queue are still distinct and wait, the keys of the map are still
-- distinct, and no other thread and no other futex changes.
pub futex_wait-outcome :
    (s : Futexes) (current value expected phys timeout now b : ℕ)
    → KeysBelow b s.queues
    → phys ≤ b
    → AreWaiting s.threads (queue_at (find s.queues phys))
    → (s.threads current).ready ≡ true
    → (s.threads current).exited ≡ false
    → let (status, t) = futex_wait s current value expected phys timeout now in
      ((value ≢ expected) × (status ≡ status_futex_changed) × (t ≡ s))
      ⊎ ((value ≡ expected) × (status ≡ status_ok) × IsBlocked s t current phys timeout now b)
unfolding futex_wait
futex_wait-outcome s current value expected phys timeout now b below range w ready alive =
    elim (Bool-cases (value == expected)) [
      | inl e ↦ rw e (
          inr (
            ground (arith, e),
            refl,
            futex_block-IsBlocked s current phys timeout now b below range w ready alive,
          ))
      | inr e ↦ rw e (inl (ground (arith, e), refl, refl))
    ]
