-- ===== src/Util/Vector/Sorted.antt =====
-- sorted_insert of vector.h.
use jsix.Prelude.{
  ℕ, zero, suc, ◌+◌, ◌-◌, ◌/◌, ◌^◌, ◌≤◌, ◌<◌, ◌≡◌, ◌∙◌, ◌⊎◌, inl, inr, ap, ap₂, subst, arith, leb,
  min, Bool, true, false, Bool-cases,
}
use jsix.Util.Vector.{Vector, search_sorted, sorted_insert, insert}
use jsix.Util.Vector.Array.{IsInserted, insert-IsInserted}

-- What an order must satisfy: nothing comes before what it follows, and what does not come before
-- another stands after all that the other stands after.
pub record IsOrder {ℓ} {A : Type ℓ} (before : A → A → Bool) : Type ℓ where
  pub asym : (x y : A) → before x y ≡ true → before y x ≡ false
  pub weak : (x y z : A) → before x y ≡ true → before z y ≡ false → before x z ≡ true

module _ {ℓ} {A : Type ℓ} (before : A → A → Bool) where
  -- No element comes before an earlier one.
  abbrev pub IsSorted : (ℕ → A) → ℕ → Type 0
  IsSorted f size = (i j : ℕ) → i < j → j < size → before (f j) (f i) ≡ false

  -- `r` is where `x` belongs: after all that it does not come before.
  pub record Splits (f : ℕ → A) (size : ℕ) (x : A) (low high : ℕ) : Type 0 where
    pub below : (m : ℕ) → m < low → before x (f m) ≡ false
    pub above : (m : ℕ) → high ≤ m → m < size → before x (f m) ≡ true

  same_or_later : (k m : ℕ) → k ≤ m → (m ≡ k) ⊎ (k < m)
  same_or_later k m h = ground arith

  above_middle :
      (f : ℕ → A) (size : ℕ) (x : A) (k m : ℕ)
      → IsOrder before
      → IsSorted f size
      → before x (f k) ≡ true
      → k ≤ m
      → m < size
      → before x (f m) ≡ true
  above_middle f size x k m order sorted e h inside = elim (same_or_later k m h) [
    | inl same ↦ ap (λ i. before x (f i)) same ∙ e
    | inr later ↦ order.weak x (f k) (f m) e (sorted k m later inside)
  ]

  below_middle :
      (f : ℕ → A) (size : ℕ) (x : A) (k m : ℕ)
      → IsOrder before
      → IsSorted f size
      → before x (f k) ≡ false
      → m ≤ k
      → k < size
      → before x (f m) ≡ false
  below_middle f size x k m order sorted e h inside = elim (Bool-cases (before x (f m))) [
    | inl b ↦ absurd (clash (above_middle f size x m k order sorted b h inside))
    | inr b ↦ b
  ]
    where
      clash : ¬ (before x (f k) ≡ true)
      clash b = ground (arith, b, e)

  -- The search finds the place, in as many rounds as it has elements to look at.
  search_sorted-Splits :
      (fuel : ℕ) (f : ℕ → A) (size : ℕ) (x : A) (start end : ℕ)
      → IsOrder before
      → IsSorted f size
      → start ≤ end
      → end ≤ size
      → end ≤ start + fuel
      → Splits f size x start end
      → let r = search_sorted before fuel f x start end in (r ≤ size) × Splits f size x r r
  unfolding search_sorted
  search_sorted-Splits zero f size x start end order sorted low high enough s =
      let same : end ≡ start = omega arith in
      (omega arith, subst (λ e. Splits f size x start e) same s)
  search_sorted-Splits (suc fuel) f size x start end order sorted low high enough s =
      let m = start + (end - start) / 2 in
      elim (Bool-cases (leb end start)) [
        | inl e ↦
            let same : end ≡ start = ground (arith, e) in
            rw e (omega arith, subst (λ k. Splits f size x start k) same s)
        | inr e ↦
            let more : start < end = ground (arith, e) in
            elim (Bool-cases (before x (f m))) [
              | inl b ↦ rw e (
                  rw b (
                    search_sorted-Splits fuel f size x start m order sorted (omega arith)
                      (omega arith) (omega arith)
                      (record {
                        below = s.below;
                        above = λ k. above_middle f size x m k order sorted b;
                      })))
              | inr b ↦ rw e (
                  rw b (
                    search_sorted-Splits fuel f size x (m + 1) end order sorted (omega arith)
                      (omega arith) (omega arith)
                      (record {
                        below = λ k h.
                            below_middle f size x m k order sorted b (omega arith) (omega arith);
                        above = s.above;
                      })))
            ]
      ]

  three_way : (i r : ℕ) → (i < r) ⊎ (i ≡ r) ⊎ (r < i)
  three_way i r = ground arith

  compared : {a b x y : A} → a ≡ x → b ≡ y → before x y ≡ false → before a b ≡ false
  compared p q e = ap₂ before p q ∙ e

  -- A vector stays sorted when an element goes in where it belongs.
  inserted-IsSorted :
      (v w : Vector A) (r : ℕ) (x : A)
      → IsOrder before
      → IsSorted v.elements v.size
      → Splits v.elements v.size x r r
      → IsInserted v w r x
      → r ≤ v.size
      → (i j : ℕ) → i < j
      → j < w.size
      → before (w.elements j) (w.elements i) ≡ false
  inserted-IsSorted v w r x order sorted s a r_inside i j lt inside = elim (three_way i r) [
    | inl i_low ↦ elim (three_way j r) [
      | inl j_low ↦
          compared (a.below j j_low) (a.below i i_low) (sorted i j lt (omega (arith, r_inside)))
      | inr (inl j_here) ↦
          compared (ap w.elements j_here ∙ a.inserted) (a.below i i_low) (s.below i i_low)
      | inr (inr j_high) ↦
          compared (a.above j j_high (omega (arith, a.size))) (a.below i i_low)
            (sorted i (j - 1) (omega arith) (omega (arith, a.size)))
    ]
    | inr (inl i_here) ↦
        compared (a.above j (omega arith) (omega (arith, a.size)))
          (ap w.elements i_here ∙ a.inserted)
          (order.asym x (v.elements (j - 1))
            (s.above (j - 1) (omega arith) (omega (arith, a.size))))
    | inr (inr i_high) ↦
        compared (a.above j (omega arith) (omega (arith, a.size)))
          (a.above i i_high (omega (arith, a.size)))
          (sorted (i - 1) (j - 1) (omega arith) (omega (arith, a.size)))
  ]

  -- On a sorted vector of less than 2^30 elements, `sorted_insert` returns an index within the size,
  -- and inserts the element there, and the vector stays sorted. The order must be asymmetric and
  -- total up to equivalence.
  pub sorted_insert-outcome :
      (v : Vector A) (x : A)
      → IsOrder before
      → IsSorted v.elements v.size
      → v.size < 2 ^ 30
      → let (r, w) = sorted_insert before v x in
        (r ≤ v.size) × IsInserted v w r x × IsSorted w.elements w.size
  unfolding sorted_insert
  sorted_insert-outcome v x order sorted small =
      let r = search_sorted before v.size v.elements x 0 v.size in
      let w = insert v r x in
      let (inside, s) =
        search_sorted-Splits v.size v.elements v.size x 0 v.size order sorted (omega arith)
          (omega arith) (omega arith)
          (record {
            below = λ m h. absurd (omega arith);
            above = λ m low high. absurd (omega arith);
          }) in
      let here : min r v.size ≡ r = omega arith in
      let a = subst (λ j. IsInserted v w j x) here (insert-IsInserted v r x small) in
      (inside, a, inserted-IsSorted v w r x order sorted s a inside)
