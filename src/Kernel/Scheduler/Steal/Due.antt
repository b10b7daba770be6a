-- ===== src/Kernel/Scheduler/Steal/Due.antt =====
-- The part of `schedule` in src/kernel/scheduler.cpp that may steal.
use jsix.Prelude.{
  ℕ, ◌+◌, ◌%◌, ◌<◌, ◌≡◌, ◌∙◌, ◌==◌, ◌&&◌, ltb, sub64, refl, sym, ap, subst, inl, inr, arith,
  Bool-cases, ==→eq,
}
use jsix.Kernel.Scheduler.{steal_frequency, idle_priority, RunQueue}
use jsix.Prelude.Occur.{count}
use jsix.Kernel.Scheduler.Steal.Placed.{ArePlaced, steal_work-ArePlaced}
use jsix.Kernel.Scheduler.Steal.{Scheduler, put_queue, steal_work, steal_if_due}
use jsix.Kernel.Scheduler.Steal.Conserved.{
  count_all-put, IsConserved, IsConserved-trans, steal_work-IsConserved,
}

-- What the part of `schedule` that may steal leaves.
pub record IsTurned (cpu : ℕ) (s r : Scheduler) : Type 0 where
  pub conserved : IsConserved s r
  pub turn : r.steal_turn < s.queue_count

put_one :
    {A : Type 0} (f : RunQueue → A) (queues : ℕ → RunQueue) (k : ℕ) (r : RunQueue)
    → f r ≡ f (queues k)
    → (j : ℕ) → f (put_queue queues k r j) ≡ f (queues j)
put_one f queues k r e j = elim (Bool-cases (j == k)) [
  | inl h ↦ rw h (e ∙ ap (λ x. f (queues x)) (sym (==→eq j k h)))
  | inr h ↦ rw h refl
]

-- Setting the time of the last steal moves nothing.
noted-IsConserved :
    (cpu now turn : ℕ) (s : Scheduler)
    → cpu < s.queue_count
    → IsConserved s (record s {
      queues = put_queue s.queues cpu (record (s.queues cpu) { last_steal = now });
      steal_turn = turn;
    })
noted-IsConserved cpu now turn s h =
    let q = record (s.queues cpu) { last_steal = now } in
    record {
      same_count = refl;
      threads = λ t. omega (arith, count_all-put t cpu s.queue_count s.queues q h);
      current = put_one (λ q. q.current) s.queues cpu q refl;
      idle = put_one (λ q. q.ready idle_priority) s.queues cpu q refl;
      priority = λ t. refl;
      same_threads = refl;
    }

pub steal_if_due-IsTurned :
    (cpu now : ℕ) (s : Scheduler)
    → cpu < s.queue_count
    → s.steal_turn < s.queue_count
    → IsTurned cpu s (steal_if_due cpu now s)
unfolding steal_if_due
steal_if_due-IsTurned cpu now s h turn =
    let r = steal_work cpu s in
    let c = steal_work-IsConserved cpu s h in
    let next = (s.steal_turn + 1) % s.queue_count in
    let noted = record r {
      queues = put_queue r.queues cpu (record (r.queues cpu) { last_steal = now });
      steal_turn = next;
    } in
    elim (Bool-cases
      (s.steal_turn == cpu && ltb steal_frequency (sub64 now (s.queues cpu).last_steal))) [
        | inl e ↦ rw e (record {
          conserved =
              IsConserved-trans s r noted c
                (noted-IsConserved cpu now next r (omega (arith, h, c.same_count)));
          turn = omega (arith, turn);
        })
        | inr e ↦ rw e (record {
          conserved = record {
            same_count = refl;
            threads = λ t. refl;
            current = λ k. refl;
            idle = λ k. refl;
            priority = λ t. refl;
            same_threads = refl;
          };
          turn = turn;
        })
      ]

pub steal_if_due-ArePlaced :
    (cpu now : ℕ) (s : Scheduler)
    → cpu < s.queue_count
    → ArePlaced s
    → ArePlaced (steal_if_due cpu now s)
unfolding steal_if_due
steal_if_due-ArePlaced cpu now s h placed =
    let r = steal_work cpu s in
    let q = record (r.queues cpu) { last_steal = now } in
    let noted = record r {
      queues = put_queue r.queues cpu q;
      steal_turn = (s.steal_turn + 1) % s.queue_count;
    } in
    let after : ArePlaced noted = λ k bound i p le ne.
      put_one (λ q. count i (q.ready p)) r.queues cpu q refl k
      ∙ steal_work-ArePlaced cpu s h placed k bound i p le ne in
    elim (Bool-cases
      (s.steal_turn == cpu && ltb steal_frequency (sub64 now (s.queues cpu).last_steal))) [
        | inl e ↦
            let due : steal_if_due cpu now s ≡ noted = rw e refl in subst ArePlaced (sym due) after
        | inr e ↦
            let not_due : steal_if_due cpu now s ≡ s = rw e refl in
            subst ArePlaced (sym not_due) placed
      ]
