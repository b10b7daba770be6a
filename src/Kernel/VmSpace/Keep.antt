-- ===== src/Kernel/VmSpace/Keep.antt =====
-- Areas that go in and out of a space of src/kernel/vm_space.cpp, and can_resize.
use jsix.Prelude.{
  ℕ, ◌+◌, ◌*◌, ◌^◌, ◌<◌, ◌≡◌, ◌⊎◌, ◌==◌, inl, inr, refl, sym, ap, subst, Bool, true, false, some,
  List, [], ◌∷◌, ◌++◌, leb, if◌then◌else◌, arith, u64_mod, Option-cases,
}
use jsix.Prelude.Occur.{count, remove_swap}
use jsix.Kernel.VmSpace.{
  Vma, Vmas, Area, VmSpace, find_base, sorted_insert, add_to, remove_from, handle_retain,
  handle_release, add_at, add, holds, remove_first, remove, space_end, can_resize_from, can_resize,
}

remove_swap-last : (n : ℕ) (xs : List ℕ) → count n xs ≡ 0 → remove_swap n (xs ++ n ∷ []) ≡ xs
remove_swap-last n [] e = ground arith
remove_swap-last n (x ∷ xs) e = ground (arith, remove_swap-last n xs, e)

holds-sorted_insert : (xs : List Area) (a : Area) → holds (sorted_insert xs a) a.area ≡ true
unfolding sorted_insert
holds-sorted_insert [] a = ground arith
holds-sorted_insert (b ∷ xs) a = ground (arith, holds-sorted_insert xs a)

remove_first-sorted_insert :
    (xs : List Area) (a : Area)
    → holds xs a.area ≡ false
    → remove_first (sorted_insert xs a) a.area ≡ xs
unfolding remove_first sorted_insert
remove_first-sorted_insert [] a e = ground arith
remove_first-sorted_insert (b ∷ xs) a e = ground (arith, remove_first-sorted_insert xs a, e)

-- What an area is after it was added and removed.
vma_restored :
    (a : Vma) (space : ℕ)
    → count space a.spaces ≡ 0
    → 0 < a.handle_count
    → a.handle_count + 1 < 2 ^ 16
    → handle_release (remove_from (handle_retain (add_to a space)) space) ≡ a
unfolding handle_release remove_from handle_retain add_to
vma_restored a space e some_handle room = ground (arith, remove_swap-last space a.spaces e)

-- `t` and `us` are `s` and `vs` again.
pub record IsRestored (s : VmSpace) (vs : Vmas) (r : Bool × VmSpace × Vmas) : Type 0 where
  pub removed : r.0 ≡ true
  pub space : r.1 ≡ s
  pub vmas : (i : ℕ) → r.2 i ≡ vs i

remove-add_at :
    (s : VmSpace) (vs : Vmas) (v at : ℕ)
    → holds s.areas v ≡ false
    → count s.name (vs v).spaces ≡ 0
    → 0 < (vs v).handle_count
    → (vs v).handle_count + 1 < 2 ^ 16
    → IsRestored s vs (remove (add_at s vs v (some at)).1 (add_at s vs v (some at)).2 v)
unfolding remove
remove-add_at s vs v at absent unmapped some_handle room =
    let a : Area = record { base = at; area = v } in
    let held = holds-sorted_insert s.areas a in
    let same = remove_first-sorted_insert s.areas a absent in
    let back = vma_restored (vs v) s.name unmapped some_handle room in
    rw held (record {
      removed = refl;
      space = ap (λ xs. record s { areas = xs }) same;
      vmas = λ i. ground (arith, back);
    })

-- Adding an area and removing it again: `add` finds no room and changes nothing, or `remove` finds
-- the area and leaves the space and every area as they were before. The area must not be in the space
-- before, and must have a handle and fewer than 65535 of them.
pub remove-add :
    (s : VmSpace) (vs : Vmas) (base v : ℕ) (exact : Bool)
    → holds s.areas v ≡ false
    → count s.name (vs v).spaces ≡ 0
    → 0 < (vs v).handle_count
    → (vs v).handle_count + 1 < 2 ^ 16
    → let (at, t, us) = add s vs base v exact in
      ((at ≡ 0) × (t ≡ s) × (us ≡ vs)) ⊎ IsRestored s vs (remove t us v)
unfolding add
remove-add s vs base v exact absent unmapped some_handle room =
    let start = if base == 0 then 16 * 1024 * 1024 else base in
    elim (Option-cases (find_base vs (vs v).size exact s.areas start)) [
      | inl e ↦
          subst
            (λ o.
              let (at, t, us) = add_at s vs v o in
              ((at ≡ 0) × (t ≡ s) × (us ≡ vs)) ⊎ IsRestored s vs (remove t us v))
            (sym e) (inl (refl, refl, refl))
      | inr (at, e) ↦
          subst
            (λ o.
              let (at, t, us) = add_at s vs v o in
              ((at ≡ 0) × (t ≡ s) × (us ≡ vs)) ⊎ IsRestored s vs (remove t us v))
            (sym e) (inr (remove-add_at s vs v at absent unmapped some_handle room))
    ]

-- In a space of two areas `can_resize` lets the first one, or any other, grow over the second one:
-- only the end of the space bounds the size.
can_resize_over_next :
    (s : VmSpace) (v size : ℕ) (a b : Area)
    → s.areas ≡ a ∷ b ∷ []
    → size < u64_mod
    → can_resize s v size ≡ some (leb size (space_end s.kernel))
unfolding can_resize can_resize_from
can_resize_over_next s v size a b e h = ground (arith, e)
