-- ===== src/Kernel/Scheduler/Placed.antt =====
-- The ready lists of src/kernel/scheduler.cpp hold each thread in the list of its priority: what each
-- part of `schedule` does to that, and to a thread that stands in the lists only once.
use jsix.Prelude.{
  ℕ, zero, suc, ◌+◌, ◌≤◌, ◌<◌, ◌≡◌, ◌≢◌, ◌==◌, ap, List, [], ◌∷◌, arith, inl, inr, Bool-cases,
  ==→eq,
}
use jsix.Prelude.Occur.{count, count-append}
use jsix.Kernel.Threads.{handle_release}
use jsix.Kernel.Scheduler.{
  Tcb, RunQueue, State, push_ready, charge, requeue, wake_if_due, prune_blocked, prune,
}
use jsix.Kernel.Scheduler.Lists.{InRange, count_ready, count_queue, count-push_ready}

-- No list holds a thread of another priority.
abbrev pub IsPlaced : (ℕ → Tcb) → RunQueue → Type 0
IsPlaced tcbs q = (i p : ℕ) → p < 8 → (tcbs i).priority ≢ p → count i (q.ready p) ≡ 0

pub count_ready-bound :
    (i : ℕ) (lists : ℕ → List ℕ) (p n : ℕ) → p < n → count i (lists p) ≤ count_ready i lists n
count_ready-bound i lists p zero h = absurd (omega arith)
count_ready-bound i lists p (suc n) h = elim (Bool-cases (p == n)) [
  | inl e ↦ omega (arith, ap (λ k. count i (lists k)) (==→eq p n e))
  | inr e ↦ omega (arith, count_ready-bound i lists p n (ground (arith, e)))
]

pub push_ready-IsPlaced :
    (tcbs : ℕ → Tcb) (q : RunQueue) (t : ℕ)
    → IsPlaced tcbs q
    → IsPlaced tcbs (push_ready q (tcbs t).priority t)
push_ready-IsPlaced tcbs q t h i p bound ne =
    ground (arith, h i p bound ne, ne, count-append i (q.ready (tcbs t).priority) (t ∷ []))

-- The current thread stands in no ready list when it is charged.
pub charge-IsPlaced :
    (s : State) (remaining : ℕ)
    → IsPlaced s.tcbs s.queue
    → count_ready s.queue.current s.queue.ready 8 ≡ 0
    → IsPlaced (charge s remaining).tcbs (charge s remaining).queue
unfolding charge
charge-IsPlaced s remaining h absent i p bound ne =
    ground
      (arith, h i p bound, ne, absent, count_ready-bound s.queue.current s.queue.ready p 8 bound)

pub requeue-IsPlaced : (s : State) → IsPlaced s.tcbs s.queue → IsPlaced s.tcbs (requeue s).queue
unfolding requeue
requeue-IsPlaced s h i p bound ne =
    ground
      (arith, h i p bound ne, push_ready-IsPlaced s.tcbs s.queue s.queue.current h i p bound ne)

prune_blocked-IsPlaced :
    (s : State) (now : ℕ) (rest : List ℕ)
    → IsPlaced s.tcbs s.queue
    → IsPlaced s.tcbs (prune_blocked s now rest).queue
unfolding prune_blocked
prune_blocked-IsPlaced s now [] h i p bound ne = h i p bound ne
prune_blocked-IsPlaced s now (t ∷ rest) h i p bound ne =
    let ts = wake_if_due s.threads now t in
    let pushed = push_ready s.queue (s.tcbs t).priority t in
    ground (
      arith,
      prune_blocked-IsPlaced (record s { threads = ts }) now rest h i p bound ne,
      prune_blocked-IsPlaced (record s { threads = handle_release ts t }) now rest h i p bound ne,
      prune_blocked-IsPlaced (record s { threads = ts; queue = pushed }) now rest
          (push_ready-IsPlaced s.tcbs s.queue t h) i p bound ne,
    )

pub prune-IsPlaced :
    (s : State) (now : ℕ) → IsPlaced s.tcbs s.queue → IsPlaced s.tcbs (prune s now).queue
unfolding prune
prune-IsPlaced s now h = prune_blocked-IsPlaced s now s.queue.blocked h

-- Pruning repeats no thread.
prune_blocked_adds_none :
    (i : ℕ) (s : State) (now : ℕ) (rest : List ℕ)
    → InRange s.tcbs
    → count_queue i (prune_blocked s now rest).queue ≤ count_ready i s.queue.ready 8 + count i rest
unfolding prune_blocked
prune_blocked_adds_none i s now [] r = omega arith
prune_blocked_adds_none i s now (t ∷ rest) r =
    let ts = wake_if_due s.threads now t in
    ground (
      arith,
      count-push_ready i s.queue (s.tcbs t).priority t (r t),
      prune_blocked_adds_none i (record s { threads = ts }) now rest r,
      prune_blocked_adds_none i (record s { threads = handle_release ts t }) now rest r,
      prune_blocked_adds_none i
          (record s { threads = ts; queue = push_ready s.queue (s.tcbs t).priority t }) now rest r,
    )

pub prune_adds_none :
    (i : ℕ) (s : State) (now : ℕ)
    → InRange s.tcbs
    → count_queue i (prune s now).queue ≤ count_queue i s.queue
unfolding prune
prune_adds_none i s now r = prune_blocked_adds_none i s now s.queue.blocked r
