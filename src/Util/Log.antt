-- ===== src/Util/Log.antt =====
-- log2 of src/libraries/util/include/util/util.h, which rounds up.
use jsix.Prelude.{
  ℕ, zero, suc, ◌+◌, ◌-◌, ◌*◌, ◌/◌, ◌^◌, ◌≤◌, ◌<◌, ◌==◌, inl, inr, ltb, if◌then◌else◌, arith,
  Bool-cases,
}
use jsix.Prelude.Powers.{pow_suc}
use native.Mathlib.Nat.{pow-suc}

-- 64 - clz(n), the number of binary digits of `n`, of which at most `fuel` are counted
bit_length : ℕ → ℕ → ℕ
bit_length zero n = 0
bit_length (suc fuel) n = let rest = bit_length fuel (n / 2) in if n == 0 then 0 else rest + 1

digits : ℕ → ℕ
unfolding bit_length
digits n = bit_length 64 n

-- `util::log2`
unfoldable pub log2 : ℕ → ℕ
unfolding digits
log2 i = if ltb i 2 then 0 else digits (i - 1)

halve : (n k : ℕ) → n < 2 * k → n / 2 < k
halve n k h = omega arith

bit_length-bound : (fuel n : ℕ) → n < 2 ^ fuel → n < 2 ^ bit_length fuel n
unfolding bit_length
bit_length-bound zero n h = h
bit_length-bound (suc fuel) n h =
    let ih = bit_length-bound fuel (n / 2) (halve n (2 ^ fuel) (omega (arith, pow-suc 2 fuel))) in
    elim (Bool-cases (n == 0)) [
      | inl e ↦ rw e (ground (arith, e))
      | inr e ↦ rw e (omega (arith, ih, pow_suc (bit_length fuel (n / 2))))
    ]

bit_length-le : (fuel n k : ℕ) → n < 2 ^ k → bit_length fuel n ≤ k
unfolding bit_length
bit_length-le zero n k h = omega arith
bit_length-le (suc fuel) n zero h = ground arith
bit_length-le (suc fuel) n (suc k) h =
    ground (arith, bit_length-le fuel (n / 2) k (halve n (2 ^ k) (omega (arith, pow-suc 2 k))))

digits-bound : (n : ℕ) → n < 2 ^ 64 → n < 2 ^ digits n
unfolding digits
digits-bound n h = bit_length-bound 64 n h

digits-le : (n k : ℕ) → n < 2 ^ k → digits n ≤ k
unfolding digits
digits-le n k h = bit_length-le 64 n k h

-- `util::log2` rounds up.
pub log2-bound : (i : ℕ) → i ≤ 2 ^ 64 → i ≤ 2 ^ log2 i
unfolding log2
log2-bound i h = elim (Bool-cases (ltb i 2)) [
  | inl e ↦ rw e (ground (arith, e))
  | inr e ↦ rw e (ground (arith, e, digits-bound (i - 1)))
]

pub log2-le : (i k : ℕ) → i ≤ 2 ^ k → log2 i ≤ k
unfolding log2
log2-le i k h = elim (Bool-cases (ltb i 2)) [
  | inl e ↦ rw e (omega arith)
  | inr e ↦ rw e (digits-le (i - 1) k (ground (arith, e)))
]
