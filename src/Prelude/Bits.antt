-- ===== src/Prelude/Bits.antt =====
-- A `uint64_t` by its bits: bit `i` is set when the function says so, for `i < 64`. Bits from 64 on
-- are not read by `tzcnt`, on which everything else stands.
use Prim.Native.Nat.{ℕ, zero, suc, ◌+◌, ◌-◌, ◌≤◌, ◌<◌}
use mathlib.Core.Path.{◌≡◌}
use mathlib.Core.Bool.{Bool, true, false, not, ◌&&◌, ◌||◌}
use native.Mathlib.Omega.{arith}
use jsix.Prelude.Tests.{ltb, leb, ◌==◌, if◌then◌else◌}

abbrev pub Word : Type 0
Word = ℕ → Bool

-- 1ull << k, for k < 64
abbrev pub bit : ℕ → Word
bit k i = i == k

abbrev pub word_or : Word → Word → Word
word_or a b i = a i || b i

abbrev pub word_and : Word → Word → Word
word_and a b i = a i && b i

abbrev pub word_not : Word → Word
word_not a i = not (a i)

abbrev pub shr : Word → ℕ → Word
shr a k i = ltb (i + k) 64 && a (i + k)

abbrev pub shl : Word → ℕ → Word
shl a k i = leb k i && a (i - k)

-- The first set bit of the `n` bits from `i` on, or `i + n`.
unfoldable pub first_set : ℕ → ℕ → Word → ℕ
first_set zero i w = i
first_set (suc n) i w = if w i then i else first_set n (i + 1) w

-- The instruction `tzcnt`: 64 for the word 0.
unfoldable pub tzcnt : Word → ℕ
unfolding first_set
tzcnt w = first_set 64 0 w

-- A word as a condition.
abbrev pub nonzero : Word → Bool
nonzero w = ltb (tzcnt w) 64

first_set-le : (n i : ℕ) (w : Word) → first_set n i w ≤ i + n
unfolding first_set
first_set-le zero i w = omega arith
first_set-le (suc n) i w = ground (arith, first_set-le n (i + 1) w)

first_set-set : (n i : ℕ) (w : Word) → first_set n i w < i + n → w (first_set n i w) ≡ true
unfolding first_set
first_set-set zero i w h = absurd (omega arith)
first_set-set (suc n) i w h = ground (arith, first_set-set n (i + 1) w)

first_set-below : (n i j : ℕ) (w : Word) → i ≤ j → j < first_set n i w → w j ≡ false
unfolding first_set
first_set-below zero i j w h k = absurd (omega arith)
first_set-below (suc n) i j w h k = ground (arith, first_set-below n (i + 1) j w)

first_set-above : (n i j : ℕ) (w : Word) → i ≤ j → w j ≡ true → first_set n i w ≤ j
unfolding first_set
first_set-above zero i j w h k = h
first_set-above (suc n) i j w h k = ground (arith, first_set-above n (i + 1) j w)

pub tzcnt-le : (w : Word) → tzcnt w ≤ 64
unfolding tzcnt
tzcnt-le w = first_set-le 64 0 w

pub tzcnt-set : (w : Word) → tzcnt w < 64 → w (tzcnt w) ≡ true
unfolding tzcnt
tzcnt-set w h = first_set-set 64 0 w h

pub tzcnt-below : (w : Word) (j : ℕ) → j < tzcnt w → w j ≡ false
unfolding tzcnt
tzcnt-below w j h = first_set-below 64 0 j w (omega arith) h

pub tzcnt-above : (w : Word) (j : ℕ) → w j ≡ true → tzcnt w ≤ j
unfolding tzcnt
tzcnt-above w j h = first_set-above 64 0 j w (omega arith) h
