-- ===== src/Kernel/Scheduler/Lists.antt =====
-- How often a thread stands in the lists of a run queue, and what each part of `schedule` does to
-- that number.
use jsix.Prelude.{
  one_if, ℕ, zero, suc, ◌+◌, ◌≤◌, ◌<◌, ◌≡◌, refl, Bool-cases, false, List, [], ◌∷◌, ◌++◌, ◌==◌,
  arith, inl, inr, ◌⊎◌,
}
use jsix.Prelude.Occur.{count, count-append}
use jsix.Kernel.Threads.{Threads, handle_release, wake_only}
use jsix.Kernel.Scheduler.{
  Tcb, RunQueue, State, put_list, push_ready, requeue, wake_if_due, prune_blocked, prune,
}

-- how often `i` stands in the lists of the first `k` priorities
abbrev pub count_ready : ℕ → (ℕ → List ℕ) → ℕ → ℕ
count_ready i lists zero = 0
count_ready i lists (suc k) = count i (lists k) + count_ready i lists k

pub count_ready-above :
    (i : ℕ) (lists : ℕ → List ℕ) (p k : ℕ) (q : List ℕ)
    → k ≤ p
    → count_ready i (put_list lists p q) k ≡ count_ready i lists k
count_ready-above i lists p zero q h = refl
count_ready-above i lists p (suc k) q h = ground (arith, count_ready-above i lists p k q)

pub count_ready-put_list :
    (i : ℕ) (lists : ℕ → List ℕ) (p k : ℕ) (q : List ℕ)
    → p < k
    → count_ready i (put_list lists p q) k + count i (lists p) ≡ count_ready i lists k + count i q
count_ready-put_list i lists p zero q h = absurd (omega arith)
count_ready-put_list i lists p (suc k) q h =
    ground (arith, count_ready-above i lists p k q, count_ready-put_list i lists p k q)

-- how often `i` stands in a run queue
abbrev pub count_queue : ℕ → RunQueue → ℕ
count_queue i q = count_ready i q.ready 8 + count i q.blocked

pub count-push_ready :
    (i : ℕ) (q : RunQueue) (p t : ℕ)
    → p < 8
    → count_ready i (push_ready q p t).ready 8 ≡ count_ready i q.ready 8 + one_if (i == t)
count-push_ready i q p t h = omega (
  arith,
  count_ready-put_list i q.ready p 8 (q.ready p ++ t ∷ []) h,
  count-append i (q.ready p) (t ∷ []),
)

-- `requeue` adds the current thread.
pub count-requeue :
    (i : ℕ) (s : State)
    → (s.tcbs s.queue.current).priority < 8
    → count_queue i (requeue s).queue ≡ count_queue i s.queue + one_if (i == s.queue.current)
unfolding requeue
count-requeue i s h = elim (Bool-cases (s.threads s.queue.current).ready) [
  | inl e ↦ rw e (
      omega (arith, count-push_ready i s.queue (s.tcbs s.queue.current).priority s.queue.current h))
  | inr e ↦ rw e (omega (arith, count-append i s.queue.blocked (s.queue.current ∷ [])))
]

-- Every TCB has one of the eight priorities.
abbrev pub InRange : (ℕ → Tcb) → Type 0
InRange tcbs = (t : ℕ) → (tcbs t).priority < 8

-- A thread that `prune` must not drop.
abbrev pub Stays : State → ℕ → Type 0
Stays s i = ((s.threads i).exited ≡ false) ⊎ (i ≡ s.queue.current)

exited-wake_if_due : (ts : Threads) (now t i : ℕ) → (wake_if_due ts now t i).exited ≡ (ts i).exited
unfolding wake_only
exited-wake_if_due ts now t i = ground arith

exited-handle_release : (ts : Threads) (t i : ℕ) → (handle_release ts t i).exited ≡ (ts i).exited
unfolding handle_release
exited-handle_release ts t i = ground arith

-- `prune` moves threads between the lists, and drops only exited ones other than the current.
count-prune_blocked :
    (i : ℕ) (s : State) (now : ℕ) (rest : List ℕ)
    → InRange s.tcbs
    → Stays s i
    → count_queue i (prune_blocked s now rest).queue ≡ count_ready i s.queue.ready 8 + count i rest
unfolding prune_blocked
count-prune_blocked i s now [] r h = omega arith
count-prune_blocked i s now (t ∷ rest) r h =
    let ts = wake_if_due s.threads now t in
    ground (
      arith,
      h,
      exited-wake_if_due s.threads now t i,
      exited-handle_release ts t i,
      count-push_ready i s.queue (s.tcbs t).priority t (r t),
      count-prune_blocked i (record s { threads = ts }) now rest r,
      count-prune_blocked i (record s { threads = handle_release ts t }) now rest r,
      count-prune_blocked i
          (record s { threads = ts; queue = push_ready s.queue (s.tcbs t).priority t }) now rest r,
    )

-- Pruning keeps the number of times a thread stands in the lists of the run queue, if the thread has
-- not exited or is the current one, and every priority is below 8.
pub count-prune :
    (i : ℕ) (s : State) (now : ℕ)
    → InRange s.tcbs
    → Stays s i
    → count_queue i (prune s now).queue ≡ count_queue i s.queue
unfolding prune
count-prune i s now r h = count-prune_blocked i s now s.queue.blocked r h
