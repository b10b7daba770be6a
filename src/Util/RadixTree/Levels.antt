-- ===== src/Util/RadixTree/Levels.antt =====
-- The part of a key above a level's bits, in src/libraries/util/include/util/radix_tree.h.
use jsix.Prelude.{ℕ, zero, suc, ◌+◌, ◌-◌, ◌*◌, ◌/◌, ◌^◌, ◌≤◌, ◌≡◌, ◌∙◌, sym, ap, subst, arith}
use jsix.Prelude.Powers.{pow_pos}
use jsix.Util.RadixTree.{level_shift, above, index_for, base_for}
use native.Mathlib.Nat.{div-div-eq-div-mul, pow-suc, mul-div_cancel}

shift-suc : (l : ℕ) → suc l * 6 + 12 ≡ suc (suc (suc (suc (suc (suc (l * 6 + 12))))))
shift-suc l = omega arith

times_64 : (n : ℕ) → 2 ^ suc (suc (suc (suc (suc (suc n))))) ≡ 2 ^ n * 64
times_64 n = omega (
  arith,
  pow-suc 2 n,
  pow-suc 2 (suc n),
  pow-suc 2 (suc (suc n)),
  pow-suc 2 (suc (suc (suc n))),
  pow-suc 2 (suc (suc (suc (suc n)))),
  pow-suc 2 (suc (suc (suc (suc (suc n))))),
)

pub above-suc : (key l : ℕ) → above key (suc l) ≡ above key l / 64
unfolding above
above-suc key l =
    ap (λ n. key / 2 ^ n) (shift-suc l)
    ∙ ap (λ n. key / n) (times_64 (l * 6 + 12))
    ∙ sym (div-div-eq-div-mul key (2 ^ (l * 6 + 12)) 64)

-- What agrees above a level agrees above the next one, and the index at the level makes up the difference.
pub above_up : (a b l : ℕ) → above a l ≡ above b l → above a (suc l) ≡ above b (suc l)
above_up a b l e = above-suc a l ∙ ap (λ n. n / 64) e ∙ sym (above-suc b l)

above_rise : (a b l d m : ℕ) → m ≡ d + l → above a l ≡ above b l → above a m ≡ above b m
above_rise a b l zero m h e = subst (λ n. above a n ≡ above b n) (omega (arith, h)) e
above_rise a b l (suc d) zero h e = omega (arith, h)
above_rise a b l (suc d) (suc m) h e = above_up a b m (above_rise a b l d m (omega (arith, h)) e)

pub above_at : (a b l m : ℕ) → l ≤ m → above a l ≡ above b l → above a m ≡ above b m
above_at a b l m h e = above_rise a b l (m - l) m (omega arith) e

pub above_down :
    (a b l : ℕ)
    → above a (suc l) ≡ above b (suc l)
    → index_for a l ≡ index_for b l
    → above a l ≡ above b l
above_down a b l e same = omega (arith, above-suc a l, above-suc b l)

plus_one : (l : ℕ) → l + 1 ≡ suc l
plus_one l = omega arith

above-base_for_next : (key l : ℕ) → above (base_for key l) (suc l) ≡ above key (suc l)
unfolding above base_for
above-base_for_next key l =
    ap (λ n. key / 2 ^ level_shift n * 2 ^ level_shift n / 2 ^ level_shift (suc l)) (plus_one l)
    ∙ mul-div_cancel (key / 2 ^ level_shift (suc l)) (pow_pos (level_shift (suc l)))

pub above-base_for : (key l m : ℕ) → suc l ≤ m → above (base_for key l) m ≡ above key m
above-base_for key l m h = above_at (base_for key l) key (suc l) m h (above-base_for_next key l)

pub base_for-same : (a b l : ℕ) → above a (suc l) ≡ above b (suc l) → base_for a l ≡ base_for b l
unfolding base_for
base_for-same a b l e =
    ap (λ n. n * 2 ^ level_shift (l + 1)) (subst (λ n. above a n ≡ above b n) (sym (plus_one l)) e)

pub base_for-above : (a b l : ℕ) → base_for a l ≡ base_for b l → above a (suc l) ≡ above b (suc l)
base_for-above a b l e =
    sym (above-base_for_next a l) ∙ ap (λ x. above x (suc l)) e ∙ above-base_for_next b l

pub base_for-again : (key l : ℕ) → base_for (base_for key l) l ≡ base_for key l
base_for-again key l = base_for-same (base_for key l) key l (above-base_for_next key l)
