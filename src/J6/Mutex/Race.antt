-- ===== src/J6/Mutex/Race.antt =====
-- The race of src/libraries/j6/mutex.cpp with src/kernel/syscalls/futex.cpp: the mutex is unlocked between
-- the comparison of a `futex_wait` and its joining the queue.
use jsix.Prelude.{
  ℕ, ◌==◌, ◌≡◌, ◌≢◌, ◌∙◌, ap, sym, subst, refl, false, Bool-cases, ==→eq, inl, inr, arith,
}
use jsix.J6.Mutex.{
  Mutex, outside, locking, queuing, sleeping, holding, storing, waking, Phase, put_phase, act,
  is_sleeping, act_in, acts, wakes_nobody, Reached, next,
}

-- The mutex is free, `u` sleeps, and no other thread is in `lock` or `unlock`.
pub record IsStranded (m : Mutex) (u : ℕ) : Type 0 where
  pub free : m.word ≡ 0
  pub asleep : m.phases u ≡ sleeping
  pub others : (i : ℕ) → i ≢ u → m.phases i ≡ outside

abbrev wake_nobody : Mutex → ℕ → Mutex
wake_nobody m t = record m { phases = put_phase m.phases t outside }

-- `h` unlocks, with a wake call that finds nobody; then `u` joins the queue.
abbrev pub raced : Mutex → ℕ → ℕ → Mutex
raced m h u = act (wake_nobody (act (act m h) h) h) u

-- One thread holds the mutex and another has compared the marked word; no other thread takes part.
pub record IsRacing (m : Mutex) (h u : ℕ) : Type 0 where
  pub marked : m.word ≡ 2
  pub holder : m.phases h ≡ holding
  pub compared : m.phases u ≡ queuing
  pub others : (i : ℕ) → i ≢ h → i ≢ u → m.phases i ≡ outside

act-in :
    (m : Mutex) (t : ℕ) (p : Phase) (w : ℕ)
    → m.phases t ≡ p
    → m.word ≡ w
    → act m t ≡ record { word = (act_in p w).0; phases = put_phase m.phases t (act_in p w).1 }
unfolding act
act-in m t p w e f = rw e (rw f refl)

-- the states of the race, by what is known of them
abbrev stored : Mutex → ℕ → Mutex
stored m h = record { word = 0; phases = put_phase (put_phase m.phases h storing) h waking }

stored-act : (m : Mutex) (h : ℕ) → m.word ≡ 2 → m.phases h ≡ holding → act (act m h) h ≡ stored m h
stored-act m h w e =
    let begun : Mutex = record { word = 1; phases = put_phase m.phases h storing } in
    ap (λ x. act x h) (act-in m h holding 2 e w) ∙ act-in begun h storing 1 (ground arith) refl

none_sleeps :
    (m : Mutex) (h u : ℕ) → IsRacing m h u → (i : ℕ) → is_sleeping ((stored m h).phases i) ≡ false
none_sleeps m h u r i = elim (Bool-cases (i == h)) [
  | inl e ↦ rw e refl
  | inr e ↦ elim (Bool-cases (i == u)) [
    | inl f ↦ rw e (rw (==→eq i u f) (rw r.compared refl))
    | inr f ↦ rw e (rw (r.others i (ground (arith, e)) (ground (arith, f))) refl)
  ]
]

abbrev slept : Mutex → ℕ → ℕ → Mutex
slept m h u = record {
  word = 0;
  phases = put_phase (put_phase (stored m h).phases h outside) u sleeping;
}

slept-IsStranded : (m : Mutex) (h u : ℕ) → h ≢ u → IsRacing m h u → IsStranded (slept m h u) u
slept-IsStranded m h u ne r = record {
  free = refl;
  asleep = ground arith;
  others = λ i d. ground (arith, d, r.others i);
}

raced-slept : (m : Mutex) (h u : ℕ) → h ≢ u → IsRacing m h u → raced m h u ≡ slept m h u
raced-slept m h u ne r =
    ap (λ x. act (wake_nobody x h) u) (stored-act m h r.marked r.holder)
    ∙ act-in (wake_nobody (stored m h) h) u queuing 0 (ground (arith, ne, r.compared)) refl

raced-Reached : (m : Mutex) (h u : ℕ) → Reached m → IsRacing m h u → Reached (raced m h u)
raced-Reached m h u reached r =
    let e = stored-act m h r.marked r.holder in
    let at_wake = next _ _ (next _ _ reached (acts h)) (acts h) in
    let at_wake = subst Reached e at_wake in
    let woke =
      next _ (wake_nobody (stored m h) h) at_wake
        (wakes_nobody h (ground arith) (none_sleeps m h u r)) in
    next _ _ (subst (λ x. Reached (wake_nobody x h)) (sym e) woke) (acts u)

-- A thread that locks the free mutex and unlocks it wakes nobody.
abbrev pub lock_and_unlock : Mutex → ℕ → Mutex
lock_and_unlock m k = act (act (act m k) k) k

locked_again-IsStranded :
    (m : Mutex) (u k : ℕ) → IsStranded m u → k ≢ u → IsStranded (lock_and_unlock m k) u
locked_again-IsStranded m u k v ne =
    let locks : Mutex = record { word = 0; phases = put_phase m.phases k locking } in
    let holds : Mutex = record { word = 1; phases = put_phase locks.phases k holding } in
    let done : Mutex = record { word = 0; phases = put_phase holds.phases k outside } in
    let e : lock_and_unlock m k ≡ done =
      ap (λ x. act (act x k) k) (act-in m k outside 0 (v.others k ne) v.free)
      ∙ ap (λ x. act x k) (act-in locks k locking 0 (ground arith) refl)
      ∙ act-in holds k holding 1 (ground arith) refl in
    let f : IsStranded done u = record {
      free = refl;
      asleep = ground (arith, ne, v.asleep);
      others = λ i d. ground (arith, d, v.others i);
    } in
    subst (λ x. IsStranded x u) (sym e) f

-- From every state that threads can reach in which one thread holds the marked mutex, another has
-- compared the word in its `futex_wait` and not yet joined the queue, and all others are outside,
-- these steps are possible: the holder unlocks and its wake call finds nobody, then the other thread
-- joins the queue. After them that thread sleeps although the mutex is free, with all others outside,
-- and this stays so when any other thread locks and unlocks the mutex alone.
pub unlock_race_strands_waiter :
    (m : Mutex) (h u : ℕ)
    → h ≢ u
    → Reached m
    → IsRacing m h u
    → Reached (raced m h u)
      × IsStranded (raced m h u) u
      × ((k : ℕ) → k ≢ u → IsStranded (lock_and_unlock (raced m h u) k) u)
unlock_race_strands_waiter m h u ne reached r =
    let stranded =
      subst (λ x. IsStranded x u) (sym (raced-slept m h u ne r)) (slept-IsStranded m h u ne r) in
    (
      raced-Reached m h u reached r,
      stranded,
      λ k d. locked_again-IsStranded (raced m h u) u k stranded d,
    )
