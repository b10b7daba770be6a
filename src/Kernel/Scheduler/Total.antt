-- ===== src/Kernel/Scheduler/Total.antt =====
-- What `schedule` of src/kernel/scheduler.cpp does before it chooses the next thread leaves some thread in
-- the ready lists.
use jsix.Prelude.{
  ℕ, zero, suc, ◌+◌, ◌-◌, ◌≤◌, ◌<◌, ◌≡◌, sym, refl, true, Option, none, some, List, [], ◌∷◌, ◌++◌,
  length, arith, subst,
}
use jsix.Prelude.Occur.{remove}
use jsix.Kernel.Threads.{handle_release}
use jsix.Kernel.Scheduler.{
  RunQueue, State, put_list, push_ready, charge, requeue, wake_if_due, prune_blocked, prune,
  first_stale, promote, promote_found, check_lists, check_promotions, prepare,
}
use jsix.Kernel.Scheduler.Lists.{InRange}

-- the number of threads in the lists of the first `k` priorities
abbrev pub total_ready : (ℕ → List ℕ) → ℕ → ℕ
total_ready lists zero = 0
total_ready lists (suc k) = length (lists k) + total_ready lists k

total-above :
    (lists : ℕ → List ℕ) (p k : ℕ) (q : List ℕ)
    → k ≤ p
    → total_ready (put_list lists p q) k ≡ total_ready lists k
total-above lists p zero q h = refl
total-above lists p (suc k) q h = ground (arith, total-above lists p k q)

total-put_list :
    (lists : ℕ → List ℕ) (p k : ℕ) (q : List ℕ)
    → p < k
    → total_ready (put_list lists p q) k + length (lists p) ≡ total_ready lists k + length q
total-put_list lists p zero q h = absurd (omega arith)
total-put_list lists p (suc k) q h =
    ground (arith, total-above lists p k q, total-put_list lists p k q)

length-push : (q : List ℕ) (t : ℕ) → length (q ++ t ∷ []) ≡ length q + 1
length-push [] t = refl
length-push (u ∷ q) t = omega (arith, length-push q t)

total-push_ready :
    (q : RunQueue) (p t : ℕ)
    → p < 8
    → total_ready (push_ready q p t).ready 8 ≡ total_ready q.ready 8 + 1
total-push_ready q p t h =
    omega (arith, total-put_list q.ready p 8 (q.ready p ++ t ∷ []) h, length-push (q.ready p) t)

-- The loop over the blocked list takes nothing out of the ready lists.
total-prune_blocked :
    (s : State) (now : ℕ) (rest : List ℕ)
    → InRange s.tcbs
    → total_ready s.queue.ready 8 ≤ total_ready (prune_blocked s now rest).queue.ready 8
unfolding prune_blocked
total-prune_blocked s now [] r = omega arith
total-prune_blocked s now (t ∷ rest) r =
    let ts = wake_if_due s.threads now t in
    ground (
      arith,
      total-push_ready s.queue (s.tcbs t).priority t (r t),
      total-prune_blocked (record s { threads = ts }) now rest r,
      total-prune_blocked (record s { threads = handle_release ts t }) now rest r,
      total-prune_blocked
          (record s { threads = ts; queue = push_ready s.queue (s.tcbs t).priority t }) now rest r,
    )

pub tcbs-prune_blocked :
    (s : State) (now : ℕ) (rest : List ℕ) → (prune_blocked s now rest).tcbs ≡ s.tcbs
unfolding prune_blocked
tcbs-prune_blocked s now [] = refl
tcbs-prune_blocked s now (t ∷ rest) =
    let ts = wake_if_due s.threads now t in
    ground (
      arith,
      tcbs-prune_blocked (record s { threads = ts }) now rest,
      tcbs-prune_blocked (record s { threads = handle_release ts t }) now rest,
      tcbs-prune_blocked
          (record s { threads = ts; queue = push_ready s.queue (s.tcbs t).priority t }) now rest,
    )

-- Charging a thread keeps the queue, the threads and the range of the priorities.
pub queue-charge : (s : State) (remaining : ℕ) → (charge s remaining).queue ≡ s.queue
unfolding charge
queue-charge s remaining = ground arith

pub charge-InRange :
    (s : State) (remaining : ℕ) → InRange s.tcbs → InRange (charge s remaining).tcbs
unfolding charge
charge-InRange s remaining r t = ground (arith, r t, r s.queue.current)

requeue-total :
    (s : State)
    → InRange s.tcbs
    → (s.threads s.queue.current).ready ≡ true
    → 0 < total_ready (requeue s).queue.ready 8
unfolding requeue
requeue-total s r e =
    rw e (omega (arith, total-push_ready s.queue _ s.queue.current (r s.queue.current)))

pub tcbs-requeue : (s : State) → (requeue s).tcbs ≡ s.tcbs
unfolding requeue
tcbs-requeue s = ground arith

-- Promotions keep the range of the priorities, and leave some list nonempty.
pub promote-InRange : (s : State) (t : ℕ) → InRange s.tcbs → InRange (promote s t).tcbs
promote-InRange s t r i = ground (arith, r t, r i)

promote_found-InRange :
    (s : State) (found : Option ℕ) → InRange s.tcbs → InRange (promote_found s found).tcbs
promote_found-InRange s none r = r
promote_found-InRange s (some t) r = promote-InRange s t r

promote_found-total :
    (s : State) (found : Option ℕ)
    → InRange s.tcbs
    → 0 < total_ready s.queue.ready 8
    → 0 < total_ready (promote_found s found).queue.ready 8
promote_found-total s none r h = h
promote_found-total s (some t) r h =
    let p = (s.tcbs t).priority in
    let removed = put_list s.queue.ready p (remove t (s.queue.ready p)) in
    omega (arith, r t, total-push_ready (record s.queue { ready = removed }) (p - 1) t)

check_lists-total :
    (s : State) (now p n : ℕ)
    → InRange s.tcbs
    → 0 < total_ready s.queue.ready 8
    → 0 < total_ready (check_lists s now p n).queue.ready 8
unfolding check_lists
check_lists-total s now p zero r h = h
check_lists-total s now p (suc n) r h =
    let found = first_stale s now (s.queue.ready p) in
    check_lists-total (promote_found s found) now (p + 1) n (promote_found-InRange s found r)
      (promote_found-total s found r h)

-- The lists after the current thread has been put back and the blocked list pruned.
pruned-total :
    (s : State) (now : ℕ)
    → InRange s.tcbs
    → (s.threads s.queue.current).ready ≡ true
    → (0 < total_ready (prune (requeue s) now).queue.ready 8) × InRange (prune (requeue s) now).tcbs
unfolding prune
pruned-total s now r e =
    let same = tcbs-requeue s in
    let range = subst InRange (sym same) r in
    (
      omega (
        arith,
        requeue-total s r e,
        total-prune_blocked (requeue s) now (requeue s).queue.blocked range,
      ),
      subst InRange (sym (tcbs-prune_blocked (requeue s) now (requeue s).queue.blocked)) range,
    )

charge-ready :
    (s : State) (remaining : ℕ)
    → (s.threads s.queue.current).ready ≡ true
    → ((charge s remaining).threads (charge s remaining).queue.current).ready ≡ true
unfolding charge
charge-ready s remaining e = ground arith

pub prepare-total :
    (s : State) (remaining now : ℕ)
    → InRange s.tcbs
    → (s.threads s.queue.current).ready ≡ true
    → 0 < total_ready (prepare s remaining now).queue.ready 8
unfolding prepare check_promotions
prepare-total s remaining now r e =
    let (h, g) =
      pruned-total (charge s remaining) now (charge-InRange s remaining r)
        (charge-ready s remaining e) in
    ground (arith, check_lists-total (prune (requeue (charge s remaining)) now) now 0 8 g h)
