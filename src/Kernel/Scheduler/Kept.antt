-- ===== src/Kernel/Scheduler/Kept.antt =====
-- scheduler::schedule in src/kernel/scheduler.cpp loses no thread: the lists of the queue and its current
-- thread hold a thread as often after it as before.
use jsix.Prelude.{
  ℕ, zero, suc, ◌+◌, ◌-◌, ◌≤◌, ◌<◌, ◌≡◌, ◌==◌, ◌∙◌, refl, sym, subst, List, [], ◌∷◌, Option, none,
  some, arith, one_if, inl, inr, Bool-cases, ==→eq,
}
use jsix.Prelude.Occur.{count, count-append, remove, count-remove_self, count-remove_ne}
use jsix.Kernel.Scheduler.{
  RunQueue, State, put_list, charge, requeue, prune, is_stale, first_stale, promote, promote_found,
  check_lists, check_promotions, prepare,
}
use jsix.Kernel.Scheduler.Lists.{
  InRange, Stays, count_queue, count-push_ready, count_ready-put_list, count-requeue, count-prune,
}
use jsix.Kernel.Scheduler.Placed.{
  IsPlaced, count_ready-bound, charge-IsPlaced, requeue-IsPlaced, prune-IsPlaced, prune_adds_none,
}
use jsix.Kernel.Scheduler.Total.{
  promote-InRange, charge-InRange, queue-charge, tcbs-requeue, tcbs-prune_blocked,
}

first_stale-count :
    (s : State) (now : ℕ) (q : List ℕ) (t : ℕ) → first_stale s now q ≡ some t → 1 ≤ count t q
unfolding first_stale
first_stale-count s now [] t e = absurd (none_some e)
  where
    none_some : ¬ (none ≡ some t)
    none_some e = ground (arith, e)
first_stale-count s now (u ∷ q) t e = elim (Bool-cases (is_stale s now u)) [
  | inl f ↦ ground (arith, e, f)
  | inr f ↦ ground (arith, e, f, first_stale-count s now q t)
]

count-remove_one :
    (i t : ℕ) (q : List ℕ) → 1 ≤ count t q → count i (remove t q) + one_if (i == t) ≡ count i q
count-remove_one i t q h = elim (Bool-cases (i == t)) [
  | inl e ↦ rw (==→eq i t e) (ground (arith, count-remove_self t q h))
  | inr e ↦ ground (arith, e, count-remove_ne i t q (ground (arith, e)))
]

-- A promotion moves a thread that stands in the list of its priority.
count-promote :
    (i : ℕ) (s : State) (t : ℕ)
    → (s.tcbs t).priority < 8
    → 1 ≤ count t (s.queue.ready (s.tcbs t).priority)
    → count_queue i (promote s t).queue ≡ count_queue i s.queue
count-promote i s t bound h =
    let p = (s.tcbs t).priority in
    let removed : RunQueue = record s.queue {
      ready = put_list s.queue.ready p (remove t (s.queue.ready p));
    } in
    omega (
      arith,
      count_ready-put_list i s.queue.ready p 8 (remove t (s.queue.ready p)) bound,
      count-remove_one i t (s.queue.ready p) h,
      count-push_ready i removed (p - 1) t (omega (arith, bound)),
    )

promote-IsPlaced :
    (s : State) (t : ℕ)
    → (s.tcbs t).priority < 8
    → 1 ≤ count t (s.queue.ready (s.tcbs t).priority)
    → count_queue t s.queue ≤ 1
    → IsPlaced s.tcbs s.queue
    → IsPlaced (promote s t).tcbs (promote s t).queue
promote-IsPlaced s t bound h once placed i p le ne =
    let r = (s.tcbs t).priority in
    ground (
      arith,
      ne,
      placed i p le,
      count-remove_one i t (s.queue.ready r) h,
      count_ready-bound t s.queue.ready r 8 bound,
      count-append i (s.queue.ready (r - 1)) (t ∷ []),
      count-append i (remove t (s.queue.ready r)) (t ∷ []),
    )

-- What a round of promotions needs and keeps.
record IsReady (s : State) : Type 0 where
  range : InRange s.tcbs
  placed : IsPlaced s.tcbs s.queue
  once : (i : ℕ) → count_queue i s.queue ≤ 1

stands :
    (s : State) (p t : ℕ)
    → p < 8
    → IsReady s
    → 1 ≤ count t (s.queue.ready p)
    → (s.tcbs t).priority ≡ p
stands s p t bound v h = elim (Bool-cases ((s.tcbs t).priority == p)) [
  | inl e ↦ ==→eq _ _ e
  | inr e ↦ absurd (misplaced (v.placed t p bound (ground (arith, e))))
]
  where
    misplaced : ¬ (count t (s.queue.ready p) ≡ 0)
    misplaced e = omega (arith, e, h)

promote-IsReady :
    (s : State) (t : ℕ)
    → IsReady s
    → 1 ≤ count t (s.queue.ready (s.tcbs t).priority)
    → IsReady (promote s t)
promote-IsReady s t v h = record {
  range = promote-InRange s t v.range;
  placed = promote-IsPlaced s t (v.range t) h (v.once t) v.placed;
  once = λ i. omega (arith, count-promote i s t (v.range t) h, v.once i);
}

record IsKept (s r : State) : Type 0 where
  ready : IsReady r
  same : (i : ℕ) → count_queue i r.queue ≡ count_queue i s.queue
  current : r.queue.current ≡ s.queue.current

promote_found-IsKept :
    (s : State) (now p : ℕ)
    → p < 8
    → IsReady s
    → IsKept s (promote_found s (first_stale s now (s.queue.ready p)))
promote_found-IsKept s now p bound v = split (first_stale s now (s.queue.ready p)) refl
  where
    split :
        (found : Option ℕ)
        → first_stale s now (s.queue.ready p) ≡ found
        → IsKept s (promote_found s found)
    split none e = record { ready = v; same = λ i. refl; current = refl }
    split (some t) e =
        let h = first_stale-count s now (s.queue.ready p) t e in
        let k : 1 ≤ count t (s.queue.ready (s.tcbs t).priority) =
          subst (λ x. 1 ≤ count t (s.queue.ready x)) (sym (stands s p t bound v h)) h in
        record {
          ready = promote-IsReady s t v k;
          same = λ i. count-promote i s t (v.range t) k;
          current = refl;
        }

check_lists-IsKept :
    (s : State) (now p left : ℕ) → p + left ≤ 8 → IsReady s → IsKept s (check_lists s now p left)
unfolding check_lists
check_lists-IsKept s now p zero h v = record { ready = v; same = λ i. refl; current = refl }
check_lists-IsKept s now p (suc left) h v =
    let a = promote_found-IsKept s now p (omega (arith, h)) v in
    let b =
      check_lists-IsKept (promote_found s (first_stale s now (s.queue.ready p))) now (p + 1) left
        (omega (arith, h)) a.ready in
    record { ready = b.ready; same = λ i. b.same i ∙ a.same i; current = b.current ∙ a.current }

-- Each thread is current or stands in one of the lists, and that once; those that are ready stand in
-- the list of their priority.
pub record IsSound (s : State) : Type 0 where
  pub range : InRange s.tcbs
  pub placed : IsPlaced s.tcbs s.queue
  pub once : (i : ℕ) → count_queue i s.queue + one_if (i == s.queue.current) ≤ 1

charge-IsSound : (s : State) (remaining : ℕ) → IsSound s → IsSound (charge s remaining)
charge-IsSound s remaining v = record {
  range = charge-InRange s remaining v.range;
  placed = charge-IsPlaced s remaining v.placed (ground (arith, v.once s.queue.current));
  once = λ i. rw (queue-charge s remaining) (v.once i);
}

requeue-Stays : (s : State) (i : ℕ) → Stays s i → Stays (requeue s) i
unfolding requeue
requeue-Stays s i h = ground (arith, h)

charge-Stays : (s : State) (remaining i : ℕ) → Stays s i → Stays (charge s remaining) i
unfolding charge
charge-Stays s remaining i h = ground (arith, h)

tcbs-prune : (s : State) (now : ℕ) → (prune s now).tcbs ≡ s.tcbs
unfolding prune
tcbs-prune s now = tcbs-prune_blocked s now s.queue.blocked

count-pruned :
    (i : ℕ) (s : State) (now : ℕ)
    → InRange s.tcbs
    → Stays s i
    → count_queue i (prune (requeue s) now).queue
      ≡ count_queue i s.queue + one_if (i == s.queue.current)
count-pruned i s now range stays =
    count-prune i (requeue s) now (subst InRange (sym (tcbs-requeue s)) range)
      (requeue-Stays s i stays)
    ∙ count-requeue i s (range s.queue.current)

pruned-IsReady : (s : State) (now : ℕ) → IsSound s → IsReady (prune (requeue s) now)
pruned-IsReady s now v =
    let range = subst InRange (sym (tcbs-requeue s)) v.range in
    let kept = tcbs-prune (requeue s) now in
    record {
      range = subst InRange (sym kept) range;
      placed =
          subst (λ x. IsPlaced x (prune (requeue s) now).queue) (sym kept)
            (prune-IsPlaced (requeue s) now (
              subst (λ x. IsPlaced x (requeue s).queue) (sym (tcbs-requeue s))
                (requeue-IsPlaced s v.placed)));
      once = λ i. omega (
        arith,
        prune_adds_none i (requeue s) now range,
        count-requeue i s (v.range s.queue.current),
        v.once i,
      );
    }

count-prepare_charged :
    (i : ℕ) (s : State) (now : ℕ)
    → IsSound s
    → Stays s i
    → (count_queue i (check_promotions (prune (requeue s) now) now).queue
        ≡ count_queue i s.queue + one_if (i == s.queue.current))
      × (count_queue i (prune (requeue s) now).queue
          ≡ count_queue i s.queue + one_if (i == s.queue.current))
unfolding check_promotions
count-prepare_charged i s now v stays =
    let e = count-pruned i s now v.range stays in
    (
      (check_lists-IsKept (prune (requeue s) now) now 0 8 (omega arith)
              (pruned-IsReady s now v)).same
            i
          ∙ e,
      e,
    )

-- What `schedule` has done before it chooses the next thread loses and repeats no thread.
pub count-prepare :
    (i : ℕ) (s : State) (remaining now : ℕ)
    → IsSound s
    → Stays s i
    → count_queue i (prepare s remaining now).queue
      ≡ count_queue i s.queue + one_if (i == s.queue.current)
unfolding prepare
count-prepare i s remaining now v stays =
    let c = charge s remaining in
    let (a, b) =
      count-prepare_charged i c now (charge-IsSound s remaining v)
        (charge-Stays s remaining i stays) in
    ground (arith, a, b, queue-charge s remaining)
