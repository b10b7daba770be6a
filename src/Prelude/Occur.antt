-- ===== src/Prelude/Occur.antt =====
-- How often a number stands in a list, and lists without its first occurrence.
use Prim.Native.Nat.{ℕ, ◌+◌, ◌≤◌}
use mathlib.Core.Path.{◌≡◌, refl}
use mathlib.Core.Logic.{◌≢◌}
use mathlib.Core.List.{List, [], ◌∷◌, ◌++◌}
use native.Mathlib.Omega.{arith}
use jsix.Prelude.Tests.{◌==◌, if◌then◌else◌, one_if}

abbrev pub count : ℕ → List ℕ → ℕ
count i [] = 0
count i (t ∷ q) = one_if (i == t) + count i q

abbrev pub remove : ℕ → List ℕ → List ℕ
remove t [] = []
remove t (u ∷ q) = let rest = remove t q in if u == t then q else u ∷ rest

pub count-append : (i : ℕ) (q r : List ℕ) → count i (q ++ r) ≡ count i q + count i r
count-append i [] r = omega arith
count-append i (t ∷ q) r = omega (arith, count-append i q r)

pub count-remove_self : (t : ℕ) (q : List ℕ) → 1 ≤ count t q → count t (remove t q) + 1 ≡ count t q
count-remove_self t [] h = absurd (omega arith)
count-remove_self t (u ∷ q) h = ground (arith, count-remove_self t q)

pub count-remove_ne : (i t : ℕ) (q : List ℕ) → i ≢ t → count i (remove t q) ≡ count i q
count-remove_ne i t [] h = refl
count-remove_ne i t (u ∷ q) h = ground (arith, count-remove_ne i t q)

-- Removal as `vector::remove_swap` does it: the last element takes the place of the first one found.
abbrev pub put_second : ℕ → List ℕ → List ℕ
put_second x [] = x ∷ []
put_second x (z ∷ zs) = z ∷ x ∷ zs

abbrev pub last_first : List ℕ → List ℕ
last_first [] = []
last_first (x ∷ xs) = put_second x (last_first xs)

abbrev pub remove_swap : ℕ → List ℕ → List ℕ
remove_swap t [] = []
remove_swap t (u ∷ q) = let rest = remove_swap t q in if u == t then last_first q else u ∷ rest

count-put_second : (i x : ℕ) (q : List ℕ) → count i (put_second x q) ≡ one_if (i == x) + count i q
count-put_second i x [] = refl
count-put_second i x (z ∷ zs) = omega arith

count-last_first : (i : ℕ) (q : List ℕ) → count i (last_first q) ≡ count i q
count-last_first i [] = refl
count-last_first i (x ∷ xs) =
    omega (arith, count-put_second i x (last_first xs), count-last_first i xs)

-- But for the order it is `remove`.
pub count-remove_swap : (i t : ℕ) (q : List ℕ) → count i (remove_swap t q) ≡ count i (remove t q)
count-remove_swap i t [] = refl
count-remove_swap i t (u ∷ q) = ground (arith, count-remove_swap i t q, count-last_first i q)
