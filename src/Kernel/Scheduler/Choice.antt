-- ===== src/Kernel/Scheduler/Choice.antt =====
-- scheduler::schedule in src/kernel/scheduler.cpp: which thread runs next, and that there is one.
use jsix.Prelude.{
  one_if, ◌==◌, ℕ, zero, suc, ◌+◌, ◌<◌, ◌≡◌, ap, sym, refl, true, Option, some, List, [], ◌∷◌,
  length, arith, inl, inr, ◌⊎◌, subst,
}
use jsix.Prelude.Occur.{count}
use jsix.Kernel.Scheduler.{
  RunQueue, State, front_or, first_ready, switched, switch_to, prepare, schedule,
}
use jsix.Kernel.Scheduler.Lists.{InRange, count_queue, count_ready-put_list}
use jsix.Kernel.Scheduler.Total.{total_ready, prepare-total}

-- `t` is the first thread of list `p`, `rest` comes after it, and all lists before `p` are empty;
-- `p` is one of the eight priorities.
abbrev pub IsMostUrgent : RunQueue → ℕ → ℕ → List ℕ → Type 0
IsMostUrgent q p t rest = (q.ready p ≡ t ∷ rest) × (total_ready q.ready p ≡ 0) × (p < 8)

-- How `schedule` ends: the most urgent thread is taken off its list and is now the current one, and
-- every other thread stands in the lists as often as before.
abbrev pub Runs : State → ℕ → Option State → Type 0
Runs s now result =
    (p : ℕ) × (t : ℕ) × (rest : List ℕ) × (u : State) × IsMostUrgent s.queue p t rest
    × (result ≡ some u)
    × (u.queue.current ≡ t)
    × (u.queue.ready p ≡ rest)
    × ((u.tcbs t).last_ran ≡ now)
    × ((i : ℕ) → count_queue i u.queue + one_if (i == t) ≡ count_queue i s.queue)

abbrev Found : RunQueue → Option (ℕ × ℕ × List ℕ) → Type 0
Found q r = (p : ℕ) × (t : ℕ) × (rest : List ℕ) × (r ≡ some (p, t, rest)) × IsMostUrgent q p t rest

list_cases : (q : List ℕ) → (q ≡ []) ⊎ ((a : ℕ) × (r : List ℕ) × (q ≡ a ∷ r))
list_cases [] = inl refl
list_cases (a ∷ r) = inr (a, r, refl)

plus_one : (p : ℕ) → p + 1 ≡ suc p
plus_one p = omega arith

at_end : {p : ℕ} → p + 0 ≡ 8 → p ≡ 8
at_end h = omega arith

first_ready-Found :
    (q : RunQueue) (p n : ℕ)
    → total_ready q.ready p ≡ 0
    → p + n ≡ 8
    → 0 < total_ready q.ready 8
    → Found q (first_ready q p n)
unfolding first_ready
first_ready-Found q p zero below h pos =
    absurd (omega (arith, below, pos, ap (total_ready q.ready) (at_end h)))
first_ready-Found q p (suc n) below h pos =
    let later = first_ready q (p + 1) n in
    elim (list_cases (q.ready p)) [
      | inr (t, rest, e) ↦ (p, t, rest, ap (front_or later p) e, (e, below, omega (arith, h)))
      | inl e ↦ subst (Found q) (sym (ap (front_or later p) e)) (
          first_ready-Found q (p + 1) n
            (omega (arith, ap length e, ap (total_ready q.ready) (plus_one p))) (omega arith) pos)
    ]

switched-current :
    (s : State) (now p t : ℕ) (rest : List ℕ)
    → ((switched s now p t rest).queue.current ≡ t)
      × ((switched s now p t rest).queue.ready p ≡ rest)
      × (((switched s now p t rest).tcbs t).last_ran ≡ now)
unfolding switched
switched-current s now p t rest = ground arith

count-switched :
    (i : ℕ) (s : State) (now p t : ℕ) (rest : List ℕ)
    → IsMostUrgent s.queue p t rest
    → count_queue i (switched s now p t rest).queue + one_if (i == t) ≡ count_queue i s.queue
unfolding switched
count-switched i s now p t rest (e, below, bound) =
    ground (arith, count_ready-put_list i s.queue.ready p 8 rest bound, ap (count i) e)

switch_to-Runs :
    (s : State) (now : ℕ) (found : Option (ℕ × ℕ × List ℕ))
    → Found s.queue found
    → Runs s now (switch_to s now found)
unfolding switch_to
switch_to-Runs s now found (p, t, rest, e, urgent) =
    let (current, taken, ran) = switched-current s now p t rest in
    (
      p,
      t,
      rest,
      switched s now p t rest,
      urgent,
      ap (switch_to s now) e,
      current,
      taken,
      ran,
      λ i. count-switched i s now p t rest urgent,
    )

-- When the current thread is ready and every priority is below 8, `schedule` does not fail. The
-- thread it makes current is the first of the most urgent list that is not empty once the current
-- thread is back in its list, the blocked list is pruned and stale threads are promoted, and it is
-- taken off that list.
pub schedule-Runs :
    (s : State) (remaining now : ℕ)
    → InRange s.tcbs
    → (s.threads s.queue.current).ready ≡ true
    → Runs (prepare s remaining now) now (schedule s remaining now)
unfolding schedule
schedule-Runs s remaining now r e =
    let t = prepare s remaining now in
    switch_to-Runs t now (first_ready t.queue 0 8)
      (first_ready-Found t.queue 0 8 refl refl (prepare-total s remaining now r e))
