-- ===== src/Kernel/VmSpace/Get.antt =====
-- get after add, in src/kernel/vm_space.cpp.
use jsix.Prelude.{
  ℕ, ◌+◌, ◌≤◌, ◌<◌, ◌≡◌, ◌∙◌, ◌⊎◌, ◌==◌, ◌&&◌, inl, inr, refl, sym, subst, Bool, true, none, some,
  List, [], ◌∷◌, ltb, leb, if◌then◌else◌, arith, u64_mod, Option-cases,
}
use jsix.Kernel.VmSpace.{
  Vmas, put_vma, Area, VmSpace, find_base, sorted_insert, add_to, handle_retain, add_at, add,
  get_area, get, min_auto_address,
}
use jsix.Kernel.VmSpace.Disjoint.{
  AreApart, AreApart-sizes, Fits, IsFound, find_base-IsFound, find_base-none,
  sorted_insert-AreApart,
}

-- Is the address in the area?
abbrev pub is_in : Vmas → Area → ℕ → Bool
is_in vs a addr = leb a.base addr && ltb addr (a.base + (vs a.area).size)

get_area-below :
    (vs : Vmas) (low addr : ℕ) (xs : List Area)
    → AreApart vs low xs
    → addr < low
    → get_area vs xs addr ≡ none
unfolding get_area
get_area-below vs low addr [] v h = refl
get_area-below vs low addr (a ∷ xs) v h =
    ground
      (arith, v.0, get_area-below vs (a.base + (vs a.area).size) addr xs v.2 (omega (arith, v.0)))

get_area-sorted_insert :
    (vs : Vmas) (low addr : ℕ) (xs : List Area) (a : Area)
    → AreApart vs low xs
    → Fits vs (vs a.area).size a.base xs
    → 0 < (vs a.area).size
    → a.base + (vs a.area).size < u64_mod
    → get_area vs (sorted_insert xs a) addr
      ≡ (if is_in vs a addr then some a else get_area vs xs addr)
unfolding get_area sorted_insert
get_area-sorted_insert vs low addr [] a v f some_size room = ground arith
get_area-sorted_insert vs low addr (b ∷ xs) a v f some_size room = ground (
  arith,
  v.1,
  f.0,
  get_area-sorted_insert vs (b.base + (vs b.area).size) addr xs a v.2 f.1 some_size room,
)

get_area-sizes :
    (vs us : Vmas) (xs : List Area) (addr : ℕ)
    → ((i : ℕ) → (us i).size ≡ (vs i).size)
    → get_area us xs addr ≡ get_area vs xs addr
unfolding get_area
get_area-sizes vs us [] addr same = refl
get_area-sizes vs us (a ∷ xs) addr same =
    ground (arith, same a.area, get_area-sizes vs us xs addr same)

abbrev start_of : ℕ → ℕ
start_of base = if base == 0 then min_auto_address else base

-- What `add` leaves when it finds room at `at`.
pub record IsAdded (s t : VmSpace) (vs us : Vmas) (base v : ℕ) (exact : Bool) (at : ℕ)
    : Type 0 where
  pub above : (if base == 0 then min_auto_address else base) ≤ at
  pub exactly : exact ≡ true → at ≡ (if base == 0 then min_auto_address else base)
  pub apart : AreApart us 0 t.areas
  pub inside :
      (addr : ℕ)
      → at ≤ addr
      → addr < at + (vs v).size
      → get t us addr ≡ some (record { base = at; area = v })
  pub outside : (addr : ℕ) → (addr < at) ⊎ (at + (vs v).size ≤ addr) → get t us addr ≡ get s vs addr

added-sizes :
    (vs : Vmas) (v space i : ℕ)
    → (put_vma vs v (handle_retain (add_to (vs v) space)) i).size ≡ (vs i).size
unfolding add_to handle_retain
added-sizes vs v space i = ground arith

add_at-IsAdded :
    (s : VmSpace) (vs : Vmas) (base v at : ℕ) (exact : Bool)
    → AreApart vs 0 s.areas
    → 0 < (vs v).size
    → at + (vs v).size < u64_mod
    → IsFound vs (vs v).size exact s.areas (start_of base) at
    → IsAdded s (add_at s vs v (some at)).1 vs (add_at s vs v (some at)).2 base v exact at
unfolding get
add_at-IsAdded s vs base v at exact apart some_size room f =
    let a : Area = record { base = at; area = v } in
    let us = put_vma vs v (handle_retain (add_to (vs v) s.name)) in
    let same = added-sizes vs v s.name in
    let found = λ (addr : ℕ).
      get_area-sizes vs us (sorted_insert s.areas a) addr same
      ∙ get_area-sorted_insert vs 0 addr s.areas a apart f.fits some_size room in
    record {
      above = f.at_least;
      exactly = f.exactly;
      apart =
          AreApart-sizes vs us 0 (sorted_insert s.areas a) same
            (sorted_insert-AreApart vs 0 s.areas a apart f.fits (omega arith) some_size room);
      inside = λ addr low high. ground (arith, found addr);
      outside = λ addr out. ground (arith, found addr, out);
    }

-- What `add` leaves when it finds no room: nothing, and only for an area that must be exact.
pub record IsRefused (s t : VmSpace) (vs us : Vmas) (base v : ℕ) (exact : Bool) (at : ℕ)
    : Type 0 where
  pub result : at ≡ 0
  pub unchanged : (t ≡ s) × (us ≡ vs)
  pub must : exact ≡ true
  pub no_room : ¬ Fits vs (vs v).size (if base == 0 then min_auto_address else base) s.areas

-- `add` of an area that is not empty, to a space whose areas are in order and apart, where the new
-- area would not wrap around. It returns 0 and changes nothing just for an area that must be exact and
-- that overlaps another one at the base asked for (or 16 MiB, for 0). Otherwise it returns where the
-- area is now: not below that base, and equal to it if it must be exact; the areas are in order and
-- apart; and `get` gives the new area for its addresses, and what it gave before for all others.
pub add-outcome :
    (s : VmSpace) (vs : Vmas) (base v : ℕ) (exact : Bool)
    → AreApart vs 0 s.areas
    → 0 < (vs v).size
    → (add s vs base v exact).0 + (vs v).size < u64_mod
    → let (at, t, us) = add s vs base v exact in
      IsRefused s t vs us base v exact at ⊎ IsAdded s t vs us base v exact at
unfolding add
add-outcome s vs base v exact apart some_size room =
    elim (Option-cases (find_base vs (vs v).size exact s.areas (start_of base))) [
      | inl e ↦
          let (must, no_room) =
            find_base-none vs (vs v).size exact s.areas 0 (start_of base) apart e in
          subst
            (λ o.
              let (at, t, us) = add_at s vs v o in
              IsRefused s t vs us base v exact at ⊎ IsAdded s t vs us base v exact at)
            (sym e)
            (inl
              (record { result = refl; unchanged = (refl, refl); must = must; no_room = no_room }))
      | inr (at, e) ↦
          let fits : at + (vs v).size < u64_mod =
            subst (λ o. (add_at s vs v o).0 + (vs v).size < u64_mod) e room in
          subst
            (λ o.
              let (at, t, us) = add_at s vs v o in
              IsRefused s t vs us base v exact at ⊎ IsAdded s t vs us base v exact at)
            (sym e)
            (inr (
              add_at-IsAdded s vs base v at exact apart some_size fits
                (find_base-IsFound vs (vs v).size exact s.areas 0 (start_of base) at apart e fits)))
    ]
