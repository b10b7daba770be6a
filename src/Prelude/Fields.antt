-- ===== src/Prelude/Fields.antt =====
-- `|` of a multiple of a power of two and a number below that power.
use Prim.Native.Nat.{
  ℕ, zero, suc, ◌+◌, ◌*◌, ◌/◌, ◌%◌, ◌^◌, ◌≤◌, ◌<◌, max, digits, bit_or, bit_or-bitwise,
}
use mathlib.Core.Path.{◌≡◌, ◌∙◌, ap}
use native.Mathlib.Omega.{arith}
use native.Mathlib.Nat.{pow-suc, le_refl, div-add-mod, mul-mod_right}

twice : (m q : ℕ) → m * 2 * q ≡ 2 * (m * q)
twice m q = grind arith

-- Half of a multiple of an even number.
half_aligned : (k a : ℕ) → a % 2 ^ suc k ≡ 0 → (a % 2 ≡ 0) × (a / 2 % 2 ^ k ≡ 0)
half_aligned k a h =
    let q = a / 2 ^ suc k in
    let e : a ≡ 2 * (2 ^ k * q) =
      omega (arith, h, div-add-mod a (2 ^ suc k), ap (λ m. m * q) (pow-suc 2 k), twice (2 ^ k) q) in
    let half : a / 2 ≡ 2 ^ k * q = omega (arith, e) in
    (omega (arith, e), ap (λ x. x % 2 ^ k) half ∙ mul-mod_right (2 ^ k) q)

digits-apart : (n k a r : ℕ) → a ≤ n → a % 2 ^ k ≡ 0 → r < 2 ^ k → digits (λ b. b) max n a r ≡ a + r
digits-apart zero k zero r le low h = omega arith
digits-apart zero k (suc a) r le low h = absurd (omega arith)
digits-apart (suc n) k zero r le low h = omega arith
digits-apart (suc n) zero (suc a) r le low h =
    omega (arith, digits-apart n 0 (suc a / 2) (r / 2) (omega arith) (omega arith) (omega arith))
digits-apart (suc n) (suc k) (suc a) r le low h =
    let half = half_aligned k (suc a) low in
    omega (
      arith,
      pow-suc 2 k,
      half.0,
      digits-apart n k (suc a / 2) (r / 2) (omega arith) half.1 (omega (arith, pow-suc 2 k, h)),
    )

pub bit_or-apart : (k a r : ℕ) → a % 2 ^ k ≡ 0 → r < 2 ^ k → bit_or a r ≡ a + r
bit_or-apart k a r low h = simp bit_or-bitwise (digits-apart a k a r (le_refl _) low h)
