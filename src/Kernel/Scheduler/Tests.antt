-- ===== src/Kernel/Scheduler/Tests.antt =====
-- A run queue with thread 1 running, thread 2 ready and threads 3 and 4 blocked.
use jsix.Prelude.{
  ℕ, ◌+◌, ◌≤◌, ◌==◌, ◌≡◌, ◌⊎◌, inl, refl, true, false, none, List, [], ◌∷◌, length, if◌then◌else◌,
  arith,
}
use jsix.Prelude.Occur.{count}
use jsix.Kernel.Threads.{Thread, Threads}
use jsix.Kernel.Scheduler.{Tcb, State, prune, balance_lists}
use jsix.Kernel.Scheduler.Lists.{InRange, count_queue, count-prune}
use jsix.Kernel.Scheduler.Balance.{balance_lists-outcome}

abbrev running : Thread
running = record {
  ready = true;
  exited = false;
  constant = false;
  wake_value = 9;
  wake_timeout = 0;
  message = none;
  handle_count = 2;
  deleted = false;
}

-- thread 3 wakes up at time 50
abbrev table : Threads
table i =
    if i == 3
    then record running { ready = false; wake_timeout = 50 }
    else (if i == 4 then record running { ready = false } else running)

abbrev tcb : Tcb
tcb = record { priority = 2; time_left = 100; last_ran = 0; cpu = 0 }

abbrev small : State
small = record {
  queue = record {
    current = 1;
    prev = 0;
    ready = λ p. if p == 2 then 2 ∷ [] else [];
    blocked = 3 ∷ 4 ∷ [];
    last_promotion = 40;
    last_steal = 0;
  };
  tcbs = λ t. tcb;
  threads = table;
}

small-InRange : InRange small.tcbs
small-InRange t = omega arith

count-prune_example : count_queue 3 (prune small 60).queue ≡ count_queue 3 small.queue
count-prune_example = count-prune 3 small 60 small-InRange (inl refl)

abbrev rich : List ℕ
rich = 6 ∷ 7 ∷ 8 ∷ 9 ∷ []

abbrev poor : List ℕ
poor = 5 ∷ []

balance_lists-outcome_example :
    let balanced = balance_lists poor rich small.tcbs 1 in
    (count 8 balanced.0.0 + count 8 balanced.0.1 ≡ count 8 poor + count 8 rich)
    × (((length rich ≤ length poor) × (balanced ≡ ((poor, rich, small.tcbs), 0)))
        ⊎ ((length balanced.0.0 ≤ length balanced.0.1)
            × (length balanced.0.1 ≤ length balanced.0.0 + 1)))
balance_lists-outcome_example = balance_lists-outcome 8 poor rich small.tcbs 1
