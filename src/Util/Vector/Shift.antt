-- ===== src/Util/Vector/Shift.antt =====
-- The loops of vector.h that move elements, element by element.
use jsix.Prelude.{
  ℕ, zero, suc, ◌+◌, ◌-◌, ◌≤◌, ◌<◌, ◌≡◌, ◌∙◌, ◌⊎◌, inl, inr, refl, sym, ap, arith, if_eq_self,
  if_eq_other,
}
use jsix.Util.Vector.{put_element, shift_up, shift_down}

module _ {ℓ} {A : Type ℓ} where
  pub shift_up-outside : (f : ℕ → A) (i k m : ℕ) → (m ≤ i) ⊎ (i + k < m) → shift_up f i k m ≡ f m
  unfolding shift_up
  shift_up-outside f i zero m h = refl
  shift_up-outside f i (suc k) m h =
      shift_up-outside (put_element f (i + suc k) (f (i + k))) i k m (ground (arith, h))
      ∙ if_eq_other m (i + suc k) (f (i + k)) (f m) (ground (arith, h))

  pub shift_up-inside : (f : ℕ → A) (i k m : ℕ) → i < m → m ≤ i + k → shift_up f i k m ≡ f (m - 1)
  unfolding shift_up
  shift_up-inside f i zero m low high = absurd (omega arith)
  shift_up-inside f i (suc k) m low high = elim (last_or_not (omega arith)) [
    | inl e ↦
        let past : i + k ≡ m - 1 = omega arith in
        shift_up-outside (put_element f (i + suc k) (f (i + k))) i k m (inr (omega arith))
        ∙ ap (put_element f (i + suc k) (f (i + k))) e
        ∙ if_eq_self (i + suc k) (f (i + k)) (f (i + suc k))
        ∙ ap f past
    | inr near ↦
        shift_up-inside (put_element f (i + suc k) (f (i + k))) i k m low near
        ∙ if_eq_other (m - 1) (i + suc k) (f (i + k)) (f (m - 1)) (λ e. omega arith)
  ]
    where
      last_or_not : m ≤ i + suc k → (m ≡ i + suc k) ⊎ (m ≤ i + k)
      last_or_not h = ground arith

  pub shift_down-outside :
      (f : ℕ → A) (i n k m : ℕ) → (m < i) ⊎ (i + k ≤ m) → shift_down f i n k m ≡ f m
  unfolding shift_down
  shift_down-outside f i n zero m h = refl
  shift_down-outside f i n (suc k) m h =
      shift_down-outside (put_element f i (f (i + n))) (i + 1) n k m (ground (arith, h))
      ∙ if_eq_other m i (f (i + n)) (f m) (ground (arith, h))

  pub shift_down-inside :
      (f : ℕ → A) (i n k m : ℕ) → 0 < n → i ≤ m → m < i + k → shift_down f i n k m ≡ f (m + n)
  unfolding shift_down
  shift_down-inside f i n zero m pos low high = absurd (omega arith)
  shift_down-inside f i n (suc k) m pos low high = elim (first_or_not low) [
    | inl e ↦
        shift_down-outside (put_element f i (f (i + n))) (i + 1) n k m (inl (omega arith))
        ∙ ap (put_element f i (f (i + n))) e
        ∙ if_eq_self i (f (i + n)) (f i)
        ∙ ap (λ j. f (j + n)) (sym e)
    | inr near ↦
        shift_down-inside (put_element f i (f (i + n))) (i + 1) n k m pos near (omega arith)
        ∙ if_eq_other (m + n) i (f (i + n)) (f (m + n)) (λ e. omega arith)
  ]
    where
      first_or_not : i ≤ m → (m ≡ i) ⊎ (i + 1 ≤ m)
      first_or_not h = ground arith
