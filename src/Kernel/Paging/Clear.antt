-- ===== src/Kernel/Paging/Clear.antt =====
-- `clear` of src/kernel/vm_space.cpp: the entries that it leaves and the frames that it frees.
use jsix.Prelude.{
  ==→eq, ℕ, zero, suc, ◌+◌, ◌*◌, ◌/◌, ◌%◌, ◌^◌, ◌≤◌, ◌<◌, ◌≡◌, ◌∙◌, ◌⊎◌, ◌==◌, ◌&&◌, inl, inr, refl,
  sym, ap, subst, Bool, true, false, Option, none, some, List, [], ◌∷◌, ◌++◌, if◌then◌else◌, arith,
  Bool-cases, add64, u64_mod,
}
use mathlib.Core.List.{append-nil}
use jsix.Kernel.VmSpace.{VmSpace, find_vma}
use jsix.Kernel.Paging.{
  Iterator, iterator, position, Tables, Run, Freeing, flush, add_frame, clear_loop, clear, cleared,
}
use jsix.Kernel.Paging.Position.{IsIndex, iterator-IsIndex}
use jsix.Kernel.Paging.PageIn.{next_page, in_range}
use jsix.Kernel.Paging.Runs.{
  flush-total, handed, add_frame-handed, none_either, one_before, frames_of,
}

module _ (ts : Tables) where
  -- the frames of the present pages among `count` from `n` on
  abbrev pub present : ts.State → ℕ → ℕ → List ℕ
  present t n zero = []
  present t n (suc count) =
      let rest = present t (n + 1) count in
      if ts.entry t n % 2 == 1 then ts.entry t n / 4096 * 4096 ∷ rest else rest

  present-set :
      (t : ts.State) (p e n count : ℕ) → p < n → present (ts.set t p e) n count ≡ present t n count
  present-set t p e n zero h = refl
  present-set t p e n (suc count) h =
      rw
        (
          ts.entry-set_other t p n e (λ q. omega (arith, q)),
          present-set t p e (n + 1) count (omega arith),
        )
        refl

  -- The present pages of the range have entry 0 and their frames are freed; the others are as before.
  pub record IsCleared (tag : ℕ) (n count : ℕ) (t t' : ts.State) (before after : List ℕ)
      (free : Bool) : Type 0 where
    pub entries :
        (m : ℕ)
        → ts.entry t' m
          ≡ (if in_range n count m && ts.entry t m % 2 == 1 then tag else ts.entry t m)
    pub frames : after ≡ before ++ (if free then present t n count else [])

  pub IsCleared-none :
      (tag n : ℕ) (t : ts.State) (before : List ℕ) (free : Bool)
      → IsCleared tag n 0 t t before before free
  IsCleared-none tag n t before free = record {
    entries = λ m. ground arith;
    frames = sym (append-nil before) ∙ none_either free before;
  }

  pub IsCleared-absent :
      (tag n count : ℕ) (t t' : ts.State) (before after : List ℕ) (free : Bool)
      → (ts.entry t n % 2 == 1) ≡ false
      → IsCleared tag (n + 1) count t t' before after free
      → IsCleared tag n (suc count) t t' before after free
  IsCleared-absent tag n count t t' before after free e c = record {
    entries = λ m. elim (Bool-cases (m == n)) [
      | inl q ↦ ground (arith, q, e, c.entries m, ap (ts.entry t) (==→eq m n q))
      | inr q ↦ ground (arith, q, c.entries m)
    ];
    frames = rw e c.frames;
  }

  pub IsCleared-present :
      (tag n count : ℕ) (t t' : ts.State) (before after : List ℕ) (free : Bool)
      → (ts.entry t n % 2 == 1) ≡ true
      → IsCleared tag
          (n + 1)
          count
          (ts.set t n tag)
          t'
          (before ++ (if free then ts.entry t n / 4096 * 4096 ∷ [] else []))
          after
          free
      → IsCleared tag n (suc count) t t' before after free
  IsCleared-present tag n count t t' before after free e c = record {
    entries = λ m. elim (Bool-cases (m == n)) [
      | inl q ↦ ground (
        arith,
        q,
        e,
        c.entries m,
        ap (ts.entry t) (==→eq m n q),
        ap (ts.entry (ts.set t n tag)) (==→eq m n q),
        ts.entry-set_same t n tag,
      )
      | inr q ↦ ground (arith, q, c.entries m, ts.entry-set_other t n m tag)
    ];
    frames = rw e (
        c.frames
        ∙ ap
            (λ l.
              (before ++ (if free then ts.entry t n / 4096 * 4096 ∷ [] else []))
              ++ (if free then l else []))
            (present-set t n tag (n + 1) count (omega arith))
        ∙ one_before free (ts.entry t n / 4096 * 4096) before (present t (n + 1) count));
  }

  abbrev pub Ended : ℕ → ℕ → ts.State → Bool → Freeing → Option (ts.State × Freeing) → Type 0
  Ended n count t free f r =
      ((r ≡ none) × (512 ^ 4 ≤ n + count))
      ⊎ ((t' : ts.State) × (f' : Freeing) × (r ≡ some (t', f'))
          × IsCleared 0 n count t t' (handed free f) (handed free f') free)

  abbrev pub AreWords : ts.State → Type 0
  AreWords t = (n : ℕ) → ts.entry t n < u64_mod

  pub set-AreWords : (t : ts.State) (n e : ℕ) → e < u64_mod → AreWords t → AreWords (ts.set t n e)
  set-AreWords t n e h w m = elim (Bool-cases (m == n)) [
    | inl q ↦ rw (==→eq m n q, ts.entry-set_same t n e) h
    | inr q ↦ rw (ts.entry-set_other t n m e (λ z. ground (arith, q, z))) (w m)
  ]

  Ended-present :
      (n count : ℕ) (t : ts.State) (free : Bool) (f : Freeing) (r : Option (ts.State × Freeing))
      → AreWords t
      → (ts.entry t n % 2 == 1) ≡ true
      → Ended (n + 1) count (ts.set t n 0) free (add_frame free f (ts.entry t n / 4096 * 4096)) r
      → Ended n (suc count) t free f r
  Ended-present n count t free f r w p (inl (e, past)) = inl (e, omega arith)
  Ended-present n count t free f r w p (inr (t', f', e, c)) = inr (
    t',
    f',
    e,
    IsCleared-present 0 n count t t' (handed free f) (handed free f') free p (
        subst (λ b. IsCleared 0 (n + 1) count (ts.set t n 0) t' b (handed free f') free)
          (add_frame-handed free f (ts.entry t n / 4096 * 4096) (omega (arith, w n))) c),
  )

  Ended-absent :
      (n count : ℕ) (t : ts.State) (free : Bool) (f : Freeing) (r : Option (ts.State × Freeing))
      → (ts.entry t n % 2 == 1) ≡ false
      → Ended (n + 1) count t free f r
      → Ended n (suc count) t free f r
  Ended-absent n count t free f r p (inl (e, past)) = inl (e, omega arith)
  Ended-absent n count t free f r p (inr (t', f', e, c)) =
      inr (t', f', e, IsCleared-absent 0 n count t t' (handed free f) (handed free f') free p c)

  clear_loop-Ended :
      (free : Bool) (it : Iterator) (count : ℕ) (t : ts.State) (f : Freeing)
      → IsIndex it
      → AreWords t
      → Ended (position it) count t free f (clear_loop ts free it count t f)
  unfolding clear_loop
  clear_loop-Ended free it zero t f ok w =
      inr (t, f, refl, IsCleared-none 0 (position it) t (handed free f) free)
  clear_loop-Ended free it (suc count) t f ok w =
      let p = position it in
      let t' = ts.set t p 0 in
      let f' = add_frame free f (ts.entry t p / 4096 * 4096) in
      elim (next_page it ok) [
        | inl (e, past) ↦ rw (clear_loop, e) (inl (refl, omega arith))
        | inr (it', e, ok', here) ↦ elim (Bool-cases (ts.entry t (position it) % 2 == 1)) [
          | inl h ↦
              rw (clear_loop, e, h)
                (Ended-present p count t free f (clear_loop ts free it' count t' f') w h (
                  subst (λ q. Ended q count t' free f' (clear_loop ts free it' count t' f')) here
                    (clear_loop-Ended free it' count (ts.set t (position it) 0)
                      (add_frame free f (ts.entry t (position it) / 4096 * 4096)) ok'
                      (set-AreWords t p 0 (omega arith) w))))
          | inr h ↦
              rw (clear_loop, e, h)
                (Ended-absent p count t free f (clear_loop ts free it' count t f) h (
                  subst (λ q. Ended q count t free f (clear_loop ts free it' count t f)) here
                    (clear_loop-Ended free it' count t f ok' w)))
        ]
      ]

  -- What `clear` leaves of pages `n` to `n + count`.
  abbrev pub IsClear : ℕ → ℕ → ts.State → Bool → Option (ts.State × List Run) → Type 0
  IsClear n count t free r =
      ((r ≡ none) × (512 ^ 4 ≤ n + count))
      ⊎ ((t' : ts.State) × (runs : List Run) × (r ≡ some (t', runs))
          × IsCleared 0 n count t t' [] (frames_of runs) free)

  handed-flush : (free : Bool) (f : Freeing) → handed free f ≡ frames_of (flush free f)
  handed-flush true f = sym (flush-total f)
  handed-flush false f = refl

  cleared-IsClear :
      (n count : ℕ) (t : ts.State) (free : Bool) (f : Freeing) (r : Option (ts.State × Freeing))
      → handed free f ≡ []
      → Ended n count t free f r
      → IsClear n count t free (cleared ts free r)
  cleared-IsClear n count t free f r nothing (inl (e, past)) = rw e (inl (refl, past))
  cleared-IsClear n count t free f r nothing (inr (t', f', e, c)) = rw e (
      inr (
        t',
        flush free f',
        refl,
        subst (λ b. IsCleared 0 n count t t' b (frames_of (flush free f')) free) nothing
            (subst (λ a. IsCleared 0 n count t t' (handed free f) a free) (handed-flush free f') c),
      ))

  -- `clear` of `count` pages of an area that the space has at `base`, where all entries are 64-bit words:
  -- unless it runs into the end of the address space, the pages of the range that are present have the
  -- entry 0 and every other page has the entry that it had; and the runs that it frees are made up of
  -- the frames of those present pages, in their order and each once, or of none if it is not to free.
  pub clear-IsClear :
      (s : VmSpace) (v base offset count : ℕ) (free : Bool) (t : ts.State)
      → find_vma s.areas v ≡ some base
      → AreWords t
      → IsClear
          (position (iterator (add64 base offset)))
          count
          t
          free
          (clear ts s v offset count free t)
  unfolding clear
  clear-IsClear s v base offset count free t there w =
      let it = iterator (add64 base offset) in
      let f : Freeing = record { run = record { first = 0; count = 0 }; freed = [] } in
      rw (clear, there)
        (cleared-IsClear (position it) count t free f (clear_loop ts free it count t f)
          (nothing_yet free)
          (clear_loop-Ended free it count t f (iterator-IsIndex (add64 base offset)) w))
    where
      nothing_yet :
          (free : Bool)
          → handed free (record { run = record { first = 0; count = 0 }; freed = [] }) ≡ []
      nothing_yet true = refl
      nothing_yet false = refl
