-- ===== src/Kernel/Scheduler.antt =====
-- src/kernel/scheduler.cpp: the run queues of the processors. Lists of TCBs (`tcb_list`) are lists,
-- front first. The lock of a queue is held through each operation. The remaining time of the timer
-- and the clock are arguments of `schedule`; resetting the timer and `task_switch` are its effects
-- outside, left out, as are `send_ipi` and logging. `none` is a failed `kassert`.
pub mod Lists
pub mod Total
pub mod Choice
pub mod Placed
pub mod Kept
pub mod Balance
pub mod Steal
mod Tests
use jsix.Prelude.{
  ℕ, zero, suc, ◌+◌, ◌-◌, ◌*◌, ◌/◌, ◌%◌, ◌^◌, Bool, true, false, ◌&&◌, ◌||◌, not, not_zero, Option,
  none, some, List, [], ◌∷◌, ◌++◌, length, ltb, leb, ◌==◌, if◌then◌else◌, add64, sub64, u32_mod,
}
use jsix.Prelude.Occur.{remove}
use jsix.Kernel.Threads.{Threads, handle_release, wake_only}

abbrev pub num_priorities : ℕ
num_priorities = 8

abbrev pub idle_priority : ℕ
idle_priority = 7

abbrev pub max_priority : ℕ
max_priority = 6

abbrev pub promote_limit : ℕ
promote_limit = 1

abbrev pub promote_frequency : ℕ
promote_frequency = 100

abbrev pub steal_frequency : ℕ
steal_frequency = 10

-- The fields of `TCB` that the scheduler uses.
pub record Tcb : Type 0 where
  pub priority : ℕ
  pub time_left : ℕ
  pub last_ran : ℕ
  pub cpu : ℕ

-- `run_queue`. `ready` takes a priority to its list.
pub record RunQueue : Type 0 where
  pub current : ℕ
  pub prev : ℕ
  pub ready : ℕ → List ℕ
  pub blocked : List ℕ
  pub last_promotion : ℕ
  pub last_steal : ℕ

-- One processor's view: its queue, and all TCBs and threads, which share their numbers.
pub record State : Type 0 where
  pub queue : RunQueue
  pub tcbs : ℕ → Tcb
  pub threads : Threads

abbrev pub put_tcb : (ℕ → Tcb) → ℕ → Tcb → ℕ → Tcb
put_tcb tcbs t b i = if i == t then b else tcbs i

abbrev pub put_list : (ℕ → List ℕ) → ℕ → List ℕ → ℕ → List ℕ
put_list lists p q i = if i == p then q else lists i

-- `quantum_micros << priority`, as a `uint32_t`
abbrev pub quantum : ℕ → ℕ
quantum priority = (500 * 2 ^ priority) % u32_mod

-- `ready[p].push_back(t)`
abbrev pub push_ready : RunQueue → ℕ → ℕ → RunQueue
push_ready q p t = record q { ready = put_list q.ready p (q.ready p ++ t ∷ []) }

-- The first part of `schedule`: the current thread is charged for its time. One that used all of it
-- is demoted, another one gets a bonus.
pub charge : State → ℕ → State
charge s remaining =
    let t = s.queue.current in
    let b = s.tcbs t in
    if remaining == 0
    then (let p =
          if ltb b.priority max_priority && not (s.threads t).constant
          then b.priority + 1
          else b.priority in
        record s { tcbs = put_tcb s.tcbs t (record b { priority = p; time_left = quantum p }) })
    else record s {
      tcbs =
          put_tcb s.tcbs t
            (record b { time_left = (remaining + quantum b.priority / 16) % u32_mod });
    }

-- The current thread goes to the list of its state.
pub requeue : State → State
requeue s =
    let t = s.queue.current in
    if (s.threads t).ready
    then record s { queue = push_ready s.queue (s.tcbs t).priority t }
    else record s { queue = record s.queue { blocked = s.queue.blocked ++ t ∷ [] } }

-- `th->wake_only()` if the wake time has come
abbrev pub wake_if_due : Threads → ℕ → ℕ → Threads
wake_if_due ts now t =
    if not_zero (ts t).wake_timeout && leb (ts t).wake_timeout now then wake_only ts t else ts

-- The loop of `prune` over the blocked list. What it keeps comes before the rest of the list.
pub prune_blocked : State → ℕ → List ℕ → State
prune_blocked s now [] = record s { queue = record s.queue { blocked = [] } }
prune_blocked s now (t ∷ rest) =
    let ts = wake_if_due s.threads now t in
    let kept = prune_blocked (record s { threads = ts }) now rest in
    let dropped = prune_blocked (record s { threads = handle_release ts t }) now rest in
    let readied =
      prune_blocked (record s { threads = ts; queue = push_ready s.queue (s.tcbs t).priority t })
        now rest in
    let kept_here : State = record kept {
      queue = record kept.queue { blocked = t ∷ kept.queue.blocked };
    } in
    if (ts t).exited
    then (if t == s.queue.current then kept_here else dropped)
    else (if (ts t).ready then readied else kept_here)

pub prune : State → ℕ → State
unfolding prune_blocked
prune s now = prune_blocked s now s.queue.blocked

abbrev pub is_stale : State → ℕ → ℕ → Bool
is_stale s now t =
    not (s.threads t).constant
    && (ltb (quantum (s.tcbs t).priority * 2) (sub64 now (s.tcbs t).last_ran)
        && ltb promote_limit (s.tcbs t).priority)

-- The first stale TCB of a list, if any.
pub first_stale : State → ℕ → List ℕ → Option ℕ
first_stale s now [] = none
first_stale s now (t ∷ q) =
    let rest = first_stale s now q in if is_stale s now t then some t else rest

-- A stale TCB moves to the list of the next more urgent priority.
abbrev pub promote : State → ℕ → State
promote s t =
    let p = (s.tcbs t).priority in
    let q : RunQueue = record s.queue {
      ready = put_list s.queue.ready p (remove t (s.queue.ready p));
    } in
    record s {
      tcbs = put_tcb s.tcbs t (record (s.tcbs t) { priority = p - 1; time_left = quantum (p - 1) });
      queue = push_ready q (p - 1) t;
    }

abbrev pub promote_found : State → Option ℕ → State
promote_found s none = s
promote_found s (some t) = promote s t

-- The loops of `check_promotions`, with `left` priorities to go. The walk along a list ends at the
-- first TCB that it promotes, whose `next` is null once it stands at the end of another list.
pub check_lists : State → ℕ → ℕ → ℕ → State
unfolding first_stale
check_lists s now p zero = s
check_lists s now p (suc left) =
    check_lists (promote_found s (first_stale s now (s.queue.ready p))) now (p + 1) left

pub check_promotions : State → ℕ → State
unfolding check_lists
check_promotions s now =
    let t = check_lists s now 0 num_priorities in
    record t { queue = record t.queue { last_promotion = now } }

-- What a round of the loop below finds, given what comes later.
abbrev pub front_or : Option (ℕ × ℕ × List ℕ) → ℕ → List ℕ → Option (ℕ × ℕ × List ℕ)
front_or later p [] = later
front_or later p (t ∷ rest) = some (p, t, rest)

-- `while (queue.ready[priority].empty())`, with `left` priorities to go
pub first_ready : RunQueue → ℕ → ℕ → Option (ℕ × ℕ × List ℕ)
first_ready q p zero = none
first_ready q p (suc left) = front_or (first_ready q (p + 1) left) p (q.ready p)

abbrev pub ran_at : (ℕ → Tcb) → ℕ → ℕ → ℕ → Tcb
ran_at tcbs t now = put_tcb tcbs t (record (tcbs t) { last_ran = now })

-- The rest of `schedule`: `next`, the front of list `p`, becomes current.
pub switched : State → ℕ → ℕ → ℕ → List ℕ → State
switched s now p next rest =
    let t = s.queue.current in
    let q : RunQueue = record s.queue { ready = put_list s.queue.ready p rest } in
    let done : State = record s { queue = q; tcbs = ran_at (ran_at s.tcbs t now) next now } in
    if next == t then done else record done { queue = record q { current = next; prev = t } }

pub switch_to : State → ℕ → Option (ℕ × ℕ × List ℕ) → Option State
unfolding switched
switch_to s now none = none
switch_to s now (some (p, next, rest)) = some (switched s now p next rest)

-- `schedule` from the end of `steal_work` to the choice of the next thread
pub prepare : State → ℕ → ℕ → State
unfolding charge requeue prune check_promotions
prepare s remaining now =
    let pruned = prune (requeue (charge s remaining)) now in
    if ltb promote_frequency (sub64 now pruned.queue.last_promotion)
    then check_promotions pruned now
    else pruned

-- `schedule`, after `steal_work`
pub schedule : State → ℕ → ℕ → Option State
unfolding prepare first_ready switch_to
schedule s remaining now =
    let t = prepare s remaining now in switch_to t now (first_ready t.queue 0 num_priorities)

-- `balance_lists`: the lists and the TCBs after the loop, with `steal` rounds to go
pub steal_rounds : List ℕ → List ℕ → (ℕ → Tcb) → ℕ → ℕ → List ℕ × List ℕ × (ℕ → Tcb)
steal_rounds to [] tcbs cpu steal = (to, [], tcbs)
steal_rounds to (t ∷ from) tcbs cpu zero = (to, t ∷ from, tcbs)
steal_rounds to (t ∷ from) tcbs cpu (suc steal) =
    steal_rounds (t ∷ to) from (put_tcb tcbs t (record (tcbs t) { cpu = cpu })) cpu steal

pub balance_lists : List ℕ → List ℕ → (ℕ → Tcb) → ℕ → (List ℕ × List ℕ × (ℕ → Tcb)) × ℕ
unfolding steal_rounds
balance_lists to from tcbs cpu =
    if leb (length from) (length to)
    then ((to, from, tcbs), 0)
    else (let steal = (length from - length to) / 2 in (steal_rounds to from tcbs cpu steal, steal))
