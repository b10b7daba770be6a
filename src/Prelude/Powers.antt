-- ===== src/Prelude/Powers.antt =====
-- Powers of two, and numbers aligned to them.
use Prim.Native.Nat.{ℕ, zero, suc, ◌+◌, ◌-◌, ◌*◌, ◌/◌, ◌%◌, ◌^◌, ◌≤◌, ◌<◌}
use mathlib.Core.Path.{◌≡◌, refl, sym, ap, ◌∙◌, subst}
use native.Mathlib.Omega.{arith}
use native.Mathlib.Nat.{
  div-add-mod, mul-mod_right, div-eq_of_eq-mul_right, pow-suc, add-mod_right, pow-le-pow_right,
}

plus_one : (o : ℕ) → o + 1 ≡ suc o
plus_one o = omega arith

pub pow_suc : (o : ℕ) → 2 ^ (o + 1) ≡ 2 * 2 ^ o
pow_suc o = omega (arith, ap (λ k. 2 ^ k) (plus_one o), pow-suc 2 o)

pub pow_pos : (o : ℕ) → 0 < 2 ^ o
pow_pos zero = omega arith
pow_pos (suc o) = omega (arith, pow-suc 2 o, pow_pos o)

above_5 : (n : ℕ) → 2 ^ (n + 5) % 32 ≡ 0
above_5 zero = refl
above_5 (suc n) = omega (arith, pow-suc 2 (n + 5), above_5 n, ap (λ k. 2 ^ k) (shift n))
  where
    shift : (m : ℕ) → suc m + 5 ≡ suc (m + 5)
    shift m = omega arith

pub pow_32 : (o : ℕ) → 5 ≤ o → 2 ^ o % 32 ≡ 0
pow_32 o h = subst (λ k. 2 ^ k % 32 ≡ 0) (back o h) (above_5 (o - 5))
  where
    back : (o : ℕ) → 5 ≤ o → o - 5 + 5 ≡ o
    back o h = omega arith

-- A multiple of `2 * k` is an even multiple of `k`.
multiple : (p k : ℕ) → p % k ≡ 0 → p ≡ k * (p / k)
multiple p k h = omega (arith, div-add-mod p k)

twice : (k q : ℕ) → 2 * k * q ≡ k * (2 * q)
twice k q = grind arith

even_quotient : (p k : ℕ) → 0 < k → p % (2 * k) ≡ 0 → p / k ≡ 2 * (p / (2 * k))
even_quotient p k pos h = div-eq_of_eq-mul_right pos (multiple p (2 * k) h ∙ twice k (p / (2 * k)))

pub even_of_aligned : (p o : ℕ) → p % 2 ^ (o + 1) ≡ 0 → p / 2 ^ o % 2 ≡ 0
even_of_aligned p o h =
    omega (arith, even_quotient p (2 ^ o) (pow_pos o) (subst (λ k. p % k ≡ 0) (pow_suc o) h))

-- the half of an aligned range
pub aligned_half : (p o : ℕ) → p % 2 ^ (o + 1) ≡ 0 → p % 2 ^ o ≡ 0
aligned_half p o h =
    let k = 2 ^ o in
    let q = p / (2 * k) in
    let e : p ≡ k * (2 * q) =
      multiple p (2 * k) (subst (λ k. p % k ≡ 0) (pow_suc o) h) ∙ twice k q in
    subst (λ x. x % k ≡ 0) (sym e) (mul-mod_right k (2 * q))

pub aligned_second : (p o : ℕ) → p % 2 ^ o ≡ 0 → (p + 2 ^ o) % 2 ^ o ≡ 0
aligned_second p o h = add-mod_right p (2 ^ o) ∙ h

pub aligned_even : (p o : ℕ) → p % 2 ^ o ≡ 0 → p / 2 ^ o % 2 ≡ 0 → p % 2 ^ (o + 1) ≡ 0
aligned_even p o h even =
    let k = 2 ^ o in
    let q = p / k / 2 in
    let half : p / k ≡ 2 * q = omega arith in
    let e : p ≡ 2 * k * q = multiple p k h ∙ ap (λ x. k * x) half ∙ sym (twice k q) in
    subst (λ m. p % m ≡ 0) (sym (pow_suc o))
      (subst (λ x. x % (2 * k) ≡ 0) (sym e) (mul-mod_right (2 * k) q))

-- An odd multiple lies one step after an even one.
odd_step : (k q : ℕ) → k * (2 * q + 1) ≡ 2 * k * q + k
odd_step k q = grind arith

odd_split : (p o : ℕ) → p % 2 ^ o ≡ 0 → p / 2 ^ o % 2 ≡ 1 → p ≡ 2 * 2 ^ o * (p / 2 ^ o / 2) + 2 ^ o
odd_split p o h odd =
    let k = 2 ^ o in
    let q = p / k / 2 in
    let half : p / k ≡ 2 * q + 1 = omega arith in
    multiple p k h ∙ ap (λ x. k * x) half ∙ odd_step k q

pub odd_le : (p o : ℕ) → p % 2 ^ o ≡ 0 → p / 2 ^ o % 2 ≡ 1 → 2 ^ o ≤ p
odd_le p o h odd = omega (arith, odd_split p o h odd)

pub aligned_odd : (p o : ℕ) → p % 2 ^ o ≡ 0 → p / 2 ^ o % 2 ≡ 1 → (p - 2 ^ o) % 2 ^ (o + 1) ≡ 0
aligned_odd p o h odd =
    let k = 2 ^ o in
    let q = p / k / 2 in
    let e : p - k ≡ 2 * k * q = omega (arith, odd_split p o h odd) in
    subst (λ m. (p - k) % m ≡ 0) (sym (pow_suc o))
      (subst (λ x. x % (2 * k) ≡ 0) (sym e) (mul-mod_right (2 * k) q))

odd_next : (k q : ℕ) → 2 * k * q + k + k ≡ 2 * k * (q + 1)
odd_next k q = grind arith

-- The next multiple after an odd one is even.
pub aligned_next : (p o : ℕ) → p % 2 ^ o ≡ 0 → p / 2 ^ o % 2 ≡ 1 → (p + 2 ^ o) % 2 ^ (o + 1) ≡ 0
aligned_next p o h odd =
    let k = 2 ^ o in
    let q = p / k / 2 in
    let e : p + k ≡ 2 * k * (q + 1) = ap (λ x. x + k) (odd_split p o h odd) ∙ odd_next k q in
    subst (λ m. (p + k) % m ≡ 0) (sym (pow_suc o))
      (subst (λ x. x % (2 * k) ≡ 0) (sym e) (mul-mod_right (2 * k) (q + 1)))

pub aligned_less : (p o d : ℕ) → p % 2 ^ (o + d) ≡ 0 → p % 2 ^ o ≡ 0
aligned_less p o zero h = subst (λ x. p % 2 ^ x ≡ 0) (same o) h
  where
    same : (o : ℕ) → o + 0 ≡ o
    same o = omega arith
aligned_less p o (suc d) h =
    aligned_less p o d (aligned_half p (o + d) (subst (λ x. p % 2 ^ x ≡ 0) (shift o d) h))
  where
    shift : (o d : ℕ) → o + suc d ≡ o + d + 1
    shift o d = omega arith

pub pow_le : (o n : ℕ) → o ≤ n → 2 ^ o ≤ 2 ^ n
pow_le o n h = pow-le-pow_right (two_pos) h
  where
    two_pos : 0 < 2
    two_pos = omega arith
