-- ===== src/Kernel/Scheduler/Steal.antt =====
-- The run queues of all processors in src/kernel/scheduler.cpp: `add_thread`, `steal_work` and
-- `maybe_schedule`. A processor and its index are one number.
mod Conserved
mod Placed
mod Due
mod Turn
mod Tests
use jsix.Prelude.{
  ℕ, zero, suc, ◌+◌, ◌-◌, ◌*◌, ◌%◌, ◌^◌, ◌==◌, Bool, true, false, not, ◌&&◌, ltb, sub64, Option,
  none, some, List, [], ◌∷◌, ◌++◌, leb, if◌then◌else◌, u32_mod,
}
use jsix.Kernel.Threads.{Threads, handle_retain}
use jsix.Kernel.Scheduler.{
  Tcb, RunQueue, put_tcb, put_list, quantum, balance_lists, idle_priority, State, schedule,
  steal_frequency,
}

-- `m_run_queues`, `m_add_index` and `m_steal_turn` of `scheduler`, and all TCBs and threads
pub record Scheduler : Type 0 where
  pub queues : ℕ → RunQueue
  pub queue_count : ℕ
  pub add_index : ℕ
  pub steal_turn : ℕ
  pub tcbs : ℕ → Tcb
  pub threads : Threads

abbrev pub put_queue : (ℕ → RunQueue) → ℕ → RunQueue → ℕ → RunQueue
put_queue queues k q i = if i == k then q else queues i

pub add_thread : Scheduler → ℕ → Scheduler
add_thread s t =
    let cpu = s.add_index % s.queue_count in
    let q = s.queues cpu in
    record s {
      queues = put_queue s.queues cpu (record q { blocked = q.blocked ++ t ∷ [] });
      add_index = (s.add_index + 1) % u32_mod;
      tcbs =
          put_tcb s.tcbs t
            (record (s.tcbs t) { cpu = cpu; time_left = quantum (s.tcbs t).priority });
      threads = handle_retain s.threads t;
    }

-- a queue that takes threads, and the one that they are taken from
pub record Pair : Type 0 where
  pub mine : RunQueue
  pub other : RunQueue
  pub tcbs : ℕ → Tcb

abbrev pub steal_ready : ℕ → ℕ → Pair → Pair
steal_ready cpu p s =
    let ((to, from, tcbs), stolen) = balance_lists (s.mine.ready p) (s.other.ready p) s.tcbs cpu in
    record {
      mine = record s.mine { ready = put_list s.mine.ready p to };
      other = record s.other { ready = put_list s.other.ready p from };
      tcbs = tcbs;
    }

abbrev pub steal_blocked : ℕ → Pair → Pair
steal_blocked cpu s =
    let ((to, from, tcbs), stolen) = balance_lists s.mine.blocked s.other.blocked s.tcbs cpu in
    record {
      mine = record s.mine { blocked = to };
      other = record s.other { blocked = from };
      tcbs = tcbs;
    }

-- the loop over the priorities below `idle_priority`, with `left` to go
pub steal_priorities : ℕ → ℕ → Pair → Pair
steal_priorities cpu zero s = s
steal_priorities cpu (suc left) s =
    steal_priorities cpu left (steal_ready cpu (idle_priority - suc left) s)

pub steal_from : ℕ → Pair → Pair
unfolding steal_priorities
steal_from cpu s = steal_blocked cpu (steal_priorities cpu idle_priority s)

abbrev pub steal_between : ℕ → ℕ → Scheduler → Scheduler
steal_between cpu i s =
    let r = steal_from cpu (record { mine = s.queues cpu; other = s.queues i; tcbs = s.tcbs }) in
    record s { queues = put_queue (put_queue s.queues i r.other) cpu r.mine; tcbs = r.tcbs }

-- The loop of `steal_work` over the other processors, with `left` to go.
pub steal_rest : ℕ → ℕ → Scheduler → Scheduler
unfolding steal_from
steal_rest cpu zero s = s
steal_rest cpu (suc left) s =
    let i = s.queue_count - suc left in
    steal_rest cpu left (if i == cpu then s else steal_between cpu i s)

pub steal_work : ℕ → Scheduler → Scheduler
unfolding steal_rest
steal_work cpu s = steal_rest cpu s.queue_count s

-- Does `maybe_schedule` interrupt the processor of a thread?
abbrev pub maybe_schedule : Scheduler → ℕ → Bool
maybe_schedule s t =
    let q = s.queues (s.tcbs t).cpu in not (leb (s.tcbs q.current).priority (s.tcbs t).priority)

-- the part of `schedule` that may steal, on a processor whose turn it may be
pub steal_if_due : ℕ → ℕ → Scheduler → Scheduler
unfolding steal_work
steal_if_due cpu now s =
    if s.steal_turn == cpu && ltb steal_frequency (sub64 now (s.queues cpu).last_steal)
    then (let r = steal_work cpu s in
        record r {
          queues = put_queue r.queues cpu (record (r.queues cpu) { last_steal = now });
          steal_turn = (s.steal_turn + 1) % s.queue_count;
        })
    else s

abbrev pub with_state : Scheduler → ℕ → Option State → Option Scheduler
with_state s cpu none = none
with_state s cpu (some r) =
    some (record s { queues = put_queue s.queues cpu r.queue; tcbs = r.tcbs; threads = r.threads })

-- what a processor sees
abbrev pub view : Scheduler → ℕ → State
view s cpu = record { queue = s.queues cpu; tcbs = s.tcbs; threads = s.threads }

-- the whole `schedule` on one of the processors
pub schedule_on : ℕ → ℕ → ℕ → Scheduler → Option Scheduler
unfolding steal_if_due
schedule_on cpu remaining now s =
    let r = steal_if_due cpu now s in with_state r cpu (schedule (view r cpu) remaining now)
