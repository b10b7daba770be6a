-- ===== src/Util/Vector/Array.antt =====
-- Insertion into and removal from the array of vector.h.
use jsix.Prelude.{
  ℕ, ◌+◌, ◌-◌, ◌%◌, ◌^◌, ◌≤◌, ◌<◌, ◌≡◌, ◌∙◌, inl, inr, refl, sym, ap, subst, arith, if_eq_self,
  if_eq_other, ltb, leb, min, false, Bool-cases, u32_mod,
}
use jsix.Prelude.Powers.{pow_le}
use jsix.Util.Log.{log2, log2-bound, log2-le}
use jsix.Util.Vector.{
  Vector, unmarked, capacity, new_capacity, put_element, ensure_capacity, append, insert, remove_at,
  shift_up,
}
use jsix.Util.Vector.Shift.{
  shift_up-outside, shift_up-inside, shift_down-outside, shift_down-inside,
}

new_capacity-bounds :
    (n : ℕ) → n ≤ 2 ^ 30 → (n ≤ new_capacity n) × (unmarked (new_capacity n) ≡ new_capacity n)
new_capacity-bounds n h =
    let room = log2-bound n (omega arith) in
    let small = pow_le (log2 n) 30 (log2-le n 30 h) in
    (ground (arith, room, small), ground (arith, room, small))

module _ {ℓ} {A : Type ℓ} where
  -- There is room for the elements.
  pub record IsValid (v : Vector A) : Type 0 where
    pub room : v.size ≤ capacity v

  record HasRoom (v w : Vector A) (n : ℕ) : Type ℓ where
    size : w.size ≡ v.size
    elements : w.elements ≡ v.elements
    room : n ≤ capacity w

  ensure_capacity-HasRoom :
      (v : Vector A) (n : ℕ) → v.size ≤ n → n ≤ 2 ^ 30 → HasRoom v (ensure_capacity v n) n
  unfolding ensure_capacity
  ensure_capacity-HasRoom v n more small = elim (Bool-cases (leb n (capacity v))) [
    | inl e ↦ rw e (record { size = refl; elements = refl; room = ground (arith, e) })
    | inr e ↦
        let (room, plain) = new_capacity-bounds n small in
        rw e (record {
          size = ground (arith, room);
          elements = refl;
          room = omega (arith, room, plain);
        })
  ]

  -- `w` is `v` with `x` at index `j`.
  pub record IsInserted (v w : Vector A) (j : ℕ) (x : A) : Type ℓ where
    pub size : w.size ≡ v.size + 1
    pub valid : IsValid w
    pub below : (m : ℕ) → m < j → w.elements m ≡ v.elements m
    pub inserted : w.elements j ≡ x
    pub above : (m : ℕ) → j < m → m ≤ v.size → w.elements m ≡ v.elements (m - 1)

  append-IsInserted : (v : Vector A) (x : A) → v.size < 2 ^ 30 → IsInserted v (append v x) v.size x
  unfolding append
  append-IsInserted v x small =
      let n = (v.size + 1) % u32_mod in
      let plain : n ≡ v.size + 1 = omega arith in
      let w = ensure_capacity-HasRoom v n (omega arith) (omega arith) in
      let u = ensure_capacity v n in
      record {
        size = omega (arith, w.size);
        valid = record { room = omega (arith, w.size, w.room) };
        below = λ m h.
            if_eq_other m u.size x (u.elements m) (λ e. omega (arith, w.size))
            ∙ ap (λ f. f m) w.elements;
        inserted =
            ap (put_element u.elements u.size x) (sym w.size)
            ∙ if_eq_self u.size x (u.elements u.size);
        above = λ m low high. absurd (omega arith);
      }

  inserted_elements :
      (f : ℕ → A) (size i : ℕ) (x : A)
      → i < size
      → ((m : ℕ) → m < i → put_element (shift_up f i (size - i)) i x m ≡ f m)
        × ((m : ℕ) → i < m → m ≤ size → put_element (shift_up f i (size - i)) i x m ≡ f (m - 1))
  inserted_elements f size i x h = (
    λ m low.
        if_eq_other m i x (shift_up f i (size - i) m) (λ e. omega arith)
        ∙ shift_up-outside f i (size - i) m (inl (omega arith)),
    λ m low high.
        if_eq_other m i x (shift_up f i (size - i) m) (λ e. omega arith)
        ∙ shift_up-inside f i (size - i) m low (omega arith),
  )

  -- Inserting puts the element at the index, or at the end if the index is past it.
  pub insert-IsInserted :
      (v : Vector A) (i : ℕ) (x : A)
      → v.size < 2 ^ 30
      → IsInserted v (insert v i x) (min i v.size) x
  unfolding insert
  insert-IsInserted v i x small = elim (Bool-cases (leb v.size i)) [
    | inl e ↦
        let past : v.size ≡ min i v.size = ground (arith, e) in
        rw e (subst (λ j. IsInserted v (append v x) j x) past (append-IsInserted v x small))
    | inr e ↦
        let n = (v.size + 1) % u32_mod in
        let inside : i < v.size = ground (arith, e) in
        let here : i ≡ min i v.size = omega arith in
        let w = ensure_capacity-HasRoom v n (omega arith) (omega arith) in
        let u = ensure_capacity v n in
        let (before, behind) = inserted_elements u.elements u.size i x (omega (arith, w.size)) in
        let made = record u {
          size = (u.size + 1) % u32_mod;
          elements = put_element (shift_up u.elements i (u.size - i)) i x;
        } in
        rw e (
          subst (λ j. IsInserted v made j x) here
            (record {
              size = omega (arith, w.size);
              valid = record { room = omega (arith, w.size, w.room) };
              below = λ m h. before m h ∙ ap (λ f. f m) w.elements;
              inserted = if_eq_self i x (shift_up u.elements i (u.size - i) i);
              above = λ m low high.
                  behind m low (omega (arith, w.size)) ∙ ap (λ f. f (m - 1)) w.elements;
            }))
  ]

  -- `w` is `v` without the `n` elements from index `i` on.
  pub record IsRemoved (v w : Vector A) (i n : ℕ) : Type ℓ where
    pub size : w.size + n ≡ v.size
    pub valid : IsValid w
    pub below : (m : ℕ) → m < i → w.elements m ≡ v.elements m
    pub above : (m : ℕ) → i ≤ m → m < w.size → w.elements m ≡ v.elements (m + n)

  pub remove_at-IsRemoved :
      (v : Vector A) (i n : ℕ)
      → IsValid v
      → 0 < n
      → i + n ≤ v.size
      → IsRemoved v (remove_at v i n) i n
  unfolding remove_at
  remove_at-IsRemoved v i n valid pos h =
      let e : ltb v.size (i + n) ≡ false = ground arith in
      rw e (record {
        size = omega arith;
        valid = record { room = omega (arith, valid.room) };
        below = λ m low. shift_down-outside v.elements i n (v.size - n - i) m (inl low);
        above =
            λ m low high. shift_down-inside v.elements i n (v.size - n - i) m pos low (omega arith);
      })

  restored :
      (v w u : Vector A) (i : ℕ) (x : A) (m : ℕ)
      → IsInserted v w i x
      → IsRemoved w u i 1
      → m < v.size
      → u.elements m ≡ v.elements m
  restored v w u i x m a b h = elim (Bool-cases (ltb m i)) [
    | inl e ↦ b.below m (ground (arith, e)) ∙ a.below m (ground (arith, e))
    | inr e ↦
        let from : i ≤ m = ground (arith, e) in
        let back : m + 1 - 1 ≡ m = omega arith in
        b.above m from (omega (arith, a.size, b.size))
        ∙ a.above (m + 1) (omega arith) (omega arith)
        ∙ ap v.elements back
  ]

  -- Removing one element at the index where one was inserted brings back the size and the elements
  -- of a vector of less than 2^30 elements; the vector is valid in between and at the end.
  remove_at-insert :
      (v : Vector A) (i : ℕ) (x : A)
      → v.size < 2 ^ 30
      → i ≤ v.size
      → let w = insert v i x in
        IsValid w
        × (w.elements i ≡ x)
        × IsValid (remove_at w i 1)
        × ((remove_at w i 1).size ≡ v.size)
        × ((m : ℕ) → m < v.size → (remove_at w i 1).elements m ≡ v.elements m)
  remove_at-insert v i x small inside =
      let w = insert v i x in
      let here : min i v.size ≡ i = omega arith in
      let a = subst (λ j. IsInserted v w j x) here (insert-IsInserted v i x small) in
      let b = remove_at-IsRemoved w i 1 a.valid (omega arith) (omega (arith, a.size)) in
      (
        a.valid,
        a.inserted,
        b.valid,
        omega (arith, a.size, b.size),
        λ m low. restored v w (remove_at w i 1) i x m a b low,
      )
