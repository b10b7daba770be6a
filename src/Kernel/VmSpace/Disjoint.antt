-- ===== src/Kernel/VmSpace/Disjoint.antt =====
-- The areas of a space stay apart: add of src/kernel/vm_space.cpp.
use jsix.Prelude.{
  none-some, none, ℕ, ◌+◌, ◌≤◌, ◌<◌, ◌≡◌, ◌∙◌, ◌⊎◌, inl, inr, refl, sym, subst, Bool, true, false,
  some, List, [], ◌∷◌, ltb, leb, arith, u64_mod, add64, Bool-cases,
}
use jsix.Kernel.VmSpace.{Vmas, Area, end_of, find_base, sorted_insert}

-- The areas lie above `low`, in order, each below the next one, and none wraps around.
abbrev pub AreApart : Vmas → ℕ → List Area → Type 0
AreApart vs low [] = Unit {0}
AreApart vs low (a ∷ xs) =
    (low ≤ a.base)
    × (a.base + (vs a.area).size < u64_mod)
    × AreApart vs (a.base + (vs a.area).size) xs

-- An area fits at `base`: it ends before the next area starts, and starts where the ones before end.
abbrev pub Fits : Vmas → ℕ → ℕ → List Area → Type 0
Fits vs size base [] = Unit {0}
Fits vs size base (a ∷ xs) =
    ((a.base + (vs a.area).size ≤ base) ⊎ (base + size ≤ a.base)) × Fits vs size base xs

AreApart-lower :
    (vs : Vmas) (low high : ℕ) (xs : List Area)
    → low ≤ high
    → AreApart vs high xs
    → AreApart vs low xs
AreApart-lower vs low high [] h v = tt
AreApart-lower vs low high (a ∷ xs) h v = (omega (arith, v.0), v.1, v.2)

below-Fits :
    (vs : Vmas) (size base low : ℕ) (xs : List Area)
    → AreApart vs low xs
    → base + size ≤ low
    → Fits vs size base xs
below-Fits vs size base low [] v h = tt
below-Fits vs size base low (a ∷ xs) v h = (
  inr (omega (arith, v.0)),
  below-Fits vs size base (a.base + (vs a.area).size) xs v.2 (omega (arith, v.0)),
)

-- What the loop of `add` finds: a base that is not lower, and where the area fits.
pub record IsFound (vs : Vmas) (size : ℕ) (exact : Bool) (xs : List Area) (start base : ℕ)
    : Type 0 where
  pub at_least : start ≤ base
  pub fits : Fits vs size base xs
  pub exactly : exact ≡ true → base ≡ start

end_of-eq :
    (vs : Vmas) (a : Area)
    → a.base + (vs a.area).size < u64_mod
    → end_of vs a ≡ a.base + (vs a.area).size
end_of-eq vs a h = omega arith

-- The area before is no obstacle to what is found behind its end.
IsFound-behind :
    (vs : Vmas) (size : ℕ) (exact : Bool) (a : Area) (xs : List Area) (start next base : ℕ)
    → start ≤ next
    → a.base + (vs a.area).size ≤ next
    → (exact ≡ true → next ≡ start)
    → IsFound vs size exact xs next base
    → IsFound vs size exact (a ∷ xs) start base
IsFound-behind vs size exact a xs start next base le past same f = record {
  at_least = omega (arith, f.at_least);
  fits = (inl (omega (arith, f.at_least)), f.fits);
  exactly = λ e. f.exactly e ∙ same e;
}

IsFound-here :
    (vs : Vmas) (size : ℕ) (exact : Bool) (a : Area) (xs : List Area) (base : ℕ)
    → base + size ≤ a.base
    → AreApart vs (a.base + (vs a.area).size) xs
    → IsFound vs size exact (a ∷ xs) base base
IsFound-here vs size exact a xs base h v = record {
  at_least = omega arith;
  fits = (inr h, below-Fits vs size base (a.base + (vs a.area).size) xs v (omega arith));
  exactly = λ e. refl;
}

pub find_base-IsFound :
    (vs : Vmas) (size : ℕ) (exact : Bool) (xs : List Area) (low start base : ℕ)
    → AreApart vs low xs
    → find_base vs size exact xs start ≡ some base
    → base + size < u64_mod
    → IsFound vs size exact xs start base
unfolding find_base
find_base-IsFound vs size exact [] low start base v e room = record {
  at_least = ground (arith, e);
  fits = tt;
  exactly = λ x. ground (arith, e);
}
find_base-IsFound vs size exact (a ∷ xs) low start base v e room =
    let end = end_of-eq vs a v.1 in
    elim (Bool-cases (leb (end_of vs a) start)) [
      | inl past ↦
          let found : find_base vs size exact xs start ≡ some base = ground (arith, e, past) in
          IsFound-behind vs size exact a xs start start base (omega arith)
            (ground (arith, past, end)) (λ x. refl)
            (find_base-IsFound vs size exact xs (a.base + (vs a.area).size) start base v.2 found
              room)
      | inr overlaps ↦ elim (Bool-cases (leb (add64 start size) a.base)) [
        | inl fits ↦
            let here : start ≡ base = ground (arith, e, overlaps, fits) in
            subst (λ b. IsFound vs size exact (a ∷ xs) b base) (sym here)
              (IsFound-here vs size exact a xs base (ground (arith, fits, here, room)) v.2)
        | inr clashes ↦
            let moves : exact ≡ false = ground (arith, e, overlaps, clashes) in
            let found : find_base vs size exact xs (end_of vs a) ≡ some base =
              ground (arith, e, overlaps, clashes) in
            IsFound-behind vs size exact a xs start (end_of vs a) base (ground (arith, overlaps))
              (omega (arith, end)) (λ x. absurd (both exact x moves))
              (find_base-IsFound vs size exact xs (a.base + (vs a.area).size) (end_of vs a) base v.2
                found room)
      ]
    ]
  where
    both : (b : Bool) → b ≡ true → ¬ (b ≡ false)
    both b x y = ground (arith, x, y)

-- The loop of `add` gives up only for an area that must be exact and does not fit at its base.
pub find_base-none :
    (vs : Vmas) (size : ℕ) (exact : Bool) (xs : List Area) (low start : ℕ)
    → AreApart vs low xs
    → find_base vs size exact xs start ≡ none
    → (exact ≡ true) × ¬ Fits vs size start xs
unfolding find_base
find_base-none vs size exact [] low start v e = absurd (none-some (sym e))
find_base-none vs size exact (a ∷ xs) low start v e =
    let end = end_of-eq vs a v.1 in
    let next = a.base + (vs a.area).size in
    elim (Bool-cases (leb (end_of vs a) start)) [
      | inl past ↦
          let (is_exact, clash) =
            find_base-none vs size exact xs (a.base + (vs a.area).size) start v.2
              (ground (arith, e, past)) in
          (is_exact, λ f. clash f.1)
      | inr overlaps ↦ elim (Bool-cases (leb (add64 start size) a.base)) [
        | inl fits ↦
            absurd (let z : none ≡ some start = ground (arith, e, overlaps, fits) in none-some z)
        | inr clashes ↦ elim (Bool-cases exact) [
          | inl is_exact ↦ (is_exact, λ f. ground (arith, f.0, end, overlaps, clashes, v.1))
          | inr moves ↦
              let (is_exact, clash) =
                find_base-none vs size exact xs (a.base + (vs a.area).size) (end_of vs a) v.2
                  (ground (arith, e, overlaps, clashes, moves)) in
              absurd (both exact is_exact moves)
        ]
      ]
    ]
  where
    both : (b : Bool) → b ≡ true → ¬ (b ≡ false)
    both b x y = ground (arith, x, y)

-- The new area goes between those that end before it and those that start behind it.
pub sorted_insert-AreApart :
    (vs : Vmas) (low : ℕ) (xs : List Area) (a : Area)
    → AreApart vs low xs
    → Fits vs (vs a.area).size a.base xs
    → low ≤ a.base
    → 0 < (vs a.area).size
    → a.base + (vs a.area).size < u64_mod
    → AreApart vs low (sorted_insert xs a)
unfolding sorted_insert
sorted_insert-AreApart vs low [] a v f above some_size room = (above, room, tt)
sorted_insert-AreApart vs low (b ∷ xs) a v f above some_size room =
    elim (Bool-cases (ltb a.base b.base)) [
      | inl before ↦
          let apart : a.base + (vs a.area).size ≤ b.base = ground (arith, before, f.0) in
          rw before (above, room, (apart, v.1, v.2))
      | inr behind ↦
          let apart : b.base + (vs b.area).size ≤ a.base = ground (arith, behind, f.0, some_size) in
          rw behind (
            v.0,
            v.1,
            sorted_insert-AreApart vs (b.base + (vs b.area).size) xs a v.2 f.1 apart some_size room,
          )
    ]

-- Only the sizes matter.
pub AreApart-sizes :
    (vs us : Vmas) (low : ℕ) (xs : List Area)
    → ((i : ℕ) → (us i).size ≡ (vs i).size)
    → AreApart vs low xs
    → AreApart us low xs
AreApart-sizes vs us low [] same v = tt
AreApart-sizes vs us low (a ∷ xs) same v =
    let e = same a.area in
    (
      v.0,
      omega (arith, e, v.1),
      AreApart-lower us (a.base + (us a.area).size) (a.base + (vs a.area).size) xs
          (omega (arith, e)) (AreApart-sizes vs us (a.base + (vs a.area).size) xs same v.2),
    )
