-- ===== src/Util/BipBuffer/Bytes.antt =====
-- Runs of bytes in the buffer's memory, and what writing to it changes.
use jsix.Prelude.{
  ℕ, zero, suc, ◌+◌, ◌≤◌, ◌<◌, ◌≡◌, refl, ap, ap₂, ◌⊎◌, inl, List, [], ◌∷◌, ◌++◌, length, arith,
  ◌∙◌,
}
use jsix.Util.BipBuffer.{put, write_at}

-- the `n` bytes from index `s` on
abbrev pub slice : (ℕ → ℕ) → ℕ → ℕ → List ℕ
slice bytes s zero = []
slice bytes s (suc n) = bytes s ∷ slice bytes (s + 1) n

pub length-slice : (bytes : ℕ → ℕ) (s n : ℕ) → length (slice bytes s n) ≡ n
length-slice bytes s zero = refl
length-slice bytes s (suc n) = ap suc (length-slice bytes (s + 1) n)

pub slice-add :
    (bytes : ℕ → ℕ) (s m n k : ℕ)
    → k ≡ m + n
    → slice bytes s k ≡ slice bytes s m ++ slice bytes (s + m) n
slice-add bytes s zero n k e = ap₂ (slice bytes) (omega arith) (omega arith)
slice-add bytes s (suc m) n zero e = absurd (omega arith)
slice-add bytes s (suc m) n (suc k) e = ap (◌∷◌ (bytes s)) (
    slice-add bytes (s + 1) m n k (omega arith)
    ∙ ap (λ (t : ℕ). slice bytes (s + 1) m ++ slice bytes t n) (omega arith))

-- Memory off the written run keeps its bytes.
write_at-off :
    (bytes : ℕ → ℕ) (p : ℕ) (xs : List ℕ) (i : ℕ)
    → (i < p) ⊎ (p + length xs ≤ i)
    → write_at bytes p xs i ≡ bytes i
unfolding write_at
write_at-off bytes p [] i h = refl
write_at-off bytes p (x ∷ xs) i h = ground (arith, write_at-off (put bytes p x) (p + 1) xs i)

pub slice-write_at_off :
    (bytes : ℕ → ℕ) (p : ℕ) (xs : List ℕ) (s n : ℕ)
    → (s + n ≤ p) ⊎ (p + length xs ≤ s)
    → slice (write_at bytes p xs) s n ≡ slice bytes s n
slice-write_at_off bytes p xs s zero h = refl
slice-write_at_off bytes p xs s (suc n) h =
    ap₂ ◌∷◌ (write_at-off bytes p xs s (ground arith))
      (slice-write_at_off bytes p xs (s + 1) n (ground arith))

pub slice-write_at_self :
    (bytes : ℕ → ℕ) (p : ℕ) (xs : List ℕ) → slice (write_at bytes p xs) p (length xs) ≡ xs
unfolding write_at
slice-write_at_self bytes p [] = refl
slice-write_at_self bytes p (x ∷ xs) =
    ap₂ ◌∷◌ (write_at-off (put bytes p x) (p + 1) xs p (inl (omega arith)) ∙ ground arith)
      (slice-write_at_self (put bytes p x) (p + 1) xs)
