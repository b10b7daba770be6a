-- ===== src/Kernel/Scheduler/Steal/Tests.antt =====
-- Two processors, the first with three ready threads and the second with none, whose turn it is.
use jsix.Prelude.{
  ℕ, ◌≡◌, ◌==◌, ◌≤◌, ◌+◌, one_if, refl, true, false, none, List, [], ◌∷◌, if◌then◌else◌, arith,
}
use jsix.Kernel.Threads.{Thread}
use jsix.Kernel.Scheduler.{RunQueue, balance_lists}
use jsix.Kernel.Scheduler.Lists.{InRange}
use jsix.Kernel.Scheduler.Steal.{Scheduler, steal_work}
use jsix.Kernel.Scheduler.Steal.Conserved.{count_all}
use jsix.Kernel.Scheduler.Steal.Placed.{ArePlaced}
use jsix.Kernel.Scheduler.Steal.Turn.{IsSchedulable, RunsOn, schedule_on-RunsOn}

abbrev ready_thread : Thread
ready_thread = record {
  ready = true;
  exited = false;
  constant = false;
  wake_value = 0;
  wake_timeout = 0;
  message = none;
  handle_count = 2;
  deleted = false;
}

abbrev queue : ℕ → List ℕ → RunQueue
queue t ready = record {
  current = t;
  prev = 0;
  ready = λ p. if p == 2 then ready else [];
  blocked = [];
  last_promotion = 0;
  last_steal = 0;
}

abbrev two_processors : Scheduler
two_processors = record {
  queues = λ k. if k == 0 then queue 1 (3 ∷ 4 ∷ 5 ∷ []) else queue 2 [];
  queue_count = 2;
  add_index = 0;
  steal_turn = 1;
  tcbs = λ t. record { priority = 2; time_left = 100; last_ran = 0; cpu = if t == 2 then 1 else 0 };
  threads = λ t. ready_thread;
}

two_processors-steal : ((steal_work 1 two_processors).queues 1).ready 2 ≡ 3 ∷ []
unfolding steal_work balance_lists
two_processors-steal = refl

two_processors-InRange : InRange two_processors.tcbs
two_processors-InRange t = omega arith

placed : ArePlaced two_processors
placed k bound i p le ne = ground (arith, ne)

once :
    (i : ℕ)
    → count_all i two_processors.queues 2 + one_if (i == (two_processors.queues 1).current) ≤ 1
once i = ground arith

two_processors-IsSchedulable : IsSchedulable 1 two_processors
two_processors-IsSchedulable = record {
  processor = omega arith;
  turn = omega arith;
  range = two_processors-InRange;
  placed = placed;
  once = once;
}

schedule_on-RunsOn_example : RunsOn 1 0 60 two_processors
schedule_on-RunsOn_example =
    schedule_on-RunsOn 1 0 60 two_processors two_processors-IsSchedulable refl
