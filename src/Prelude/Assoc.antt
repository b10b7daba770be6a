-- ===== src/Prelude/Assoc.antt =====
-- Association lists with numbers as keys, as a hash table with its nodes listed in some order. Like
-- `util::node_map`, `insert` does not look for the key first, and `find` and `erase` take one node.
use Prim.Native.Nat.{ℕ, ◌≤◌, ◌<◌}
use mathlib.Core.Path.{◌≡◌, refl}
use mathlib.Core.Logic.{◌≢◌}
use mathlib.Core.Option.{Option, none, some}
use mathlib.Core.List.{List, [], ◌∷◌}
use native.Mathlib.Omega.{arith}
use jsix.Prelude.Tests.{◌==◌, if◌then◌else◌}

abbrev pub Assoc {ℓ} : Type ℓ → Type ℓ
Assoc V = List (ℕ × V)

module _ {ℓ} {V : Type ℓ} where
  abbrev pub find : Assoc V → ℕ → Option V
  find [] k = none
  find ((j, v) ∷ m) k = if j == k then some v else find m k

  abbrev pub erase : Assoc V → ℕ → Assoc V
  erase [] k = []
  erase ((j, v) ∷ m) k = if j == k then m else (j, v) ∷ erase m k

  -- Every key lies in the range, and none stands twice.
  abbrev pub KeysBelow : ℕ → Assoc V → Type ℓ
  KeysBelow n [] = Unit {ℓ}
  KeysBelow n ((j, v) ∷ m) = (j ≤ n) × (find m j ≡ none) × KeysBelow n m

  pub KeysBelow-mono : {n k : ℕ} (m : Assoc V) → n ≤ k → KeysBelow n m → KeysBelow k m
  KeysBelow-mono [] h b = tt
  KeysBelow-mono ((j, v) ∷ m) h b = (omega arith, b.1, KeysBelow-mono m h b.2)

  pub find-above : (n k : ℕ) (m : Assoc V) → KeysBelow n m → n < k → find m k ≡ none
  find-above n k [] b h = refl
  find-above n k ((j, v) ∷ m) b h = ground (arith, find-above n k m b.2)

  pub find-erase_ne : (j k : ℕ) (m : Assoc V) → j ≢ k → find (erase m j) k ≡ find m k
  find-erase_ne j k [] h = refl
  find-erase_ne j k ((i, v) ∷ m) h = ground (arith, find-erase_ne j k m h)

  pub find-erase_self : (n k : ℕ) (m : Assoc V) → KeysBelow n m → find (erase m k) k ≡ none
  find-erase_self n k [] b = refl
  find-erase_self n k ((j, v) ∷ m) b = ground (arith, find-erase_self n k m b.2, b)

  pub find-erase-none : (j k : ℕ) (m : Assoc V) → find m k ≡ none → find (erase m j) k ≡ none
  find-erase-none j k [] e = refl
  find-erase-none j k ((i, v) ∷ m) e = ground (arith, find-erase-none j k m)

  pub erase-KeysBelow : (n k : ℕ) (m : Assoc V) → KeysBelow n m → KeysBelow n (erase m k)
  erase-KeysBelow n k [] b = tt
  erase-KeysBelow n k ((j, v) ∷ m) b =
      ground (arith, erase-KeysBelow n k m b.2, find-erase-none k j m b.1, b)
