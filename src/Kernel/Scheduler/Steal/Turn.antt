-- ===== src/Kernel/Scheduler/Steal/Turn.antt =====
-- `schedule` with its turn to steal, on one of several processors: src/kernel/scheduler.cpp.
use jsix.Prelude.{
  ℕ, ◌+◌, suc, zero, ◌≤◌, one_if, ◌<◌, ◌≡◌, ◌∙◌, ◌==◌, refl, sym, ap, subst, true, some, inl, inr,
  arith, Bool-cases, ==→eq,
}
use jsix.Kernel.Scheduler.{State, prepare, RunQueue}
use jsix.Kernel.Scheduler.Lists.{InRange, Stays, count_queue}
use jsix.Kernel.Scheduler.Kept.{IsSound, count-prepare}
use jsix.Kernel.Scheduler.Steal.Placed.{ArePlaced}
use jsix.Kernel.Scheduler.Choice.{Runs, schedule-Runs}
use jsix.Kernel.Scheduler.Steal.{Scheduler, put_queue, steal_if_due, view, with_state, schedule_on}
use jsix.Kernel.Scheduler.Steal.Conserved.{count_all, count_all-put}
use jsix.Kernel.Scheduler.Steal.Due.{IsTurned, steal_if_due-IsTurned, steal_if_due-ArePlaced}

-- What `schedule` on a processor relies on: the turn to steal is that of a processor, the priorities
-- are in range, each ready thread stands in a list of its priority, and no thread stands twice in
-- the lists of all queues, or in them and as the current one of this processor.
pub record IsSchedulable (cpu : ℕ) (s : Scheduler) : Type 0 where
  pub processor : cpu < s.queue_count
  pub turn : s.steal_turn < s.queue_count
  pub range : InRange s.tcbs
  pub placed : ArePlaced s
  pub once : (i : ℕ) → count_all i s.queues s.queue_count + one_if (i == (s.queues cpu).current) ≤ 1

count_all-bound :
    (i : ℕ) (queues : ℕ → RunQueue) (k n : ℕ)
    → k < n
    → count_queue i (queues k) ≤ count_all i queues n
count_all-bound i queues k zero h = absurd (omega arith)
count_all-bound i queues k (suc n) h = elim (Bool-cases (k == n)) [
  | inl e ↦ omega (arith, ap (λ x. count_queue i (queues x)) (==→eq k n e))
  | inr e ↦ omega (arith, count_all-bound i queues k n (ground (arith, e)))
]

stolen-IsSound :
    (cpu now : ℕ) (s : Scheduler)
    → IsSchedulable cpu s
    → IsSound (view (steal_if_due cpu now s) cpu)
stolen-IsSound cpu now s v =
    let r = steal_if_due cpu now s in
    let c = (steal_if_due-IsTurned cpu now s v.processor v.turn).conserved in
    let bound = subst (λ n. cpu < n) (sym c.same_count) v.processor in
    record {
      range = λ t. subst (λ n. n < 8) (sym (c.priority t)) (v.range t);
      placed = steal_if_due-ArePlaced cpu now s v.processor v.placed cpu bound;
      once = λ i. omega (
        arith,
        c.threads i,
        count_all-bound i r.queues cpu r.queue_count bound,
        ap (λ t. one_if (i == t)) (c.current cpu),
        v.once i,
      );
    }

view-Stays :
    (a b : State) (i : ℕ)
    → a.threads ≡ b.threads
    → a.queue.current ≡ b.queue.current
    → Stays b i
    → Stays a i
view-Stays a b i same current (inl e) = inl (ap (λ ts. (ts i).exited) same ∙ e)
view-Stays a b i same current (inr e) = inr (e ∙ sym current)

-- The queues of all processors when `schedule` on one of them has left it with queue `q`.
abbrev pub queues_after : ℕ → ℕ → Scheduler → RunQueue → ℕ → RunQueue
queues_after cpu now s q = put_queue (steal_if_due cpu now s).queues cpu q

count-after :
    (cpu remaining now i : ℕ) (s : Scheduler) (q : RunQueue) (t : ℕ)
    → IsSchedulable cpu s
    → Stays (view s cpu) i
    → count_queue i q + one_if (i == t)
      ≡ count_queue i (prepare (view (steal_if_due cpu now s) cpu) remaining now).queue
    → count_all i (queues_after cpu now s q) s.queue_count + one_if (i == t)
      ≡ count_all i s.queues s.queue_count + one_if (i == (s.queues cpu).current)
count-after cpu remaining now i s q t v stays taken =
    let r = steal_if_due cpu now s in
    let c = (steal_if_due-IsTurned cpu now s v.processor v.turn).conserved in
    let stolen_stays =
      view-Stays (view r cpu) (view s cpu) i c.same_threads (c.current cpu) stays in
    omega (
      arith,
      taken,
      count-prepare i (view r cpu) remaining now (stolen-IsSound cpu now s v) stolen_stays,
      count_all-put i cpu s.queue_count r.queues q v.processor,
      c.threads i,
      ap (count_all i r.queues) c.same_count,
      ap (λ t. one_if (i == t)) (c.current cpu),
    )

-- How `schedule` ends on one of several processors.
pub record RunsOn (cpu remaining now : ℕ) (s : Scheduler) : Type 0 where
  pub turned : IsTurned cpu s (steal_if_due cpu now s)
  pub after : State
  pub runs : Runs (prepare (view (steal_if_due cpu now s) cpu) remaining now) now (some after)
  pub result :
      schedule_on cpu remaining now s
      ≡ some (record (steal_if_due cpu now s) {
        queues = queues_after cpu now s after.queue;
        tcbs = after.tcbs;
        threads = after.threads;
      })
  pub kept :
      (i : ℕ)
      → Stays (view s cpu) i
      → count_all i (queues_after cpu now s after.queue) s.queue_count
          + one_if (i == after.queue.current)
        ≡ count_all i s.queues s.queue_count + one_if (i == (s.queues cpu).current)

-- When the current thread of a processor is ready, the turn to steal is that of a processor, every
-- priority is below 8, each ready thread stands in a list of its priority, and no thread stands twice
-- in the lists of all queues or in them and as the current one of this processor, then `schedule`
-- on this processor, with what it may steal, does not fail. The stealing changes no current thread,
-- moves no idle thread and leaves the turn with a processor. The thread that `schedule` makes current
-- is the first of the most urgent list of the queue that is not empty once the stealing is done, the
-- thread that ran is back in a list, the blocked list is pruned and stale threads are promoted. The
-- whole `schedule` loses and repeats no thread: one that has not exited, or that was the current one,
-- stands as often as before in the lists of all queues and as the current thread of this processor.
pub schedule_on-RunsOn :
    (cpu remaining now : ℕ) (s : Scheduler)
    → IsSchedulable cpu s
    → (s.threads (s.queues cpu).current).ready ≡ true
    → RunsOn cpu remaining now s
unfolding schedule_on
schedule_on-RunsOn cpu remaining now s v ready =
    let r = steal_if_due cpu now s in
    let turned = steal_if_due-IsTurned cpu now s v.processor v.turn in
    let c = turned.conserved in
    let (p, t, rest, u, urgent, e, current, taken, ran, counts) =
      schedule-Runs (view r cpu) remaining now (stolen-IsSound cpu now s v).range (
        ap (λ ts. (ts (r.queues cpu).current).ready) c.same_threads
        ∙ ap (λ i. (s.threads i).ready) (c.current cpu)
        ∙ ready) in
    record {
      turned = turned;
      after = u;
      runs = (p, t, rest, u, urgent, refl, current, taken, ran, counts);
      result = ap (with_state r cpu) e;
      kept = λ i stays.
          subst
            (λ x.
              count_all i (queues_after cpu now s u.queue) s.queue_count + one_if (i == x)
              ≡ count_all i s.queues s.queue_count + one_if (i == (s.queues cpu).current))
            (sym current) (count-after cpu remaining now i s u.queue t v stays (counts i));
    }
