-- ===== src/Util/RadixTree/Keep.antt =====
-- find_or_add and writes keep the tree well formed, in
-- src/libraries/util/include/util/radix_tree.h.
use jsix.Prelude.{
  ℕ, suc, ◌%◌, ◌≤◌, ◌<◌, ◌≡◌, ◌≢◌, ◌∙◌, ◌==◌, inl, inr, refl, sym, ap, subst, arith, Bool-cases,
  leb, leb→le,
}
use jsix.Util.RadixTree.{
  Tree, empty, leaf, inner, above, index_for, base_for, find_or_add, put_entry, new_leaf, put_child,
  split_level, split,
}
use jsix.Util.RadixTree.Levels.{above_at, above_down, above-base_for, base_for-again}
use jsix.Util.RadixTree.Split.{
  IsTree, IsUnder, IsPlaced, IsSplit, common, split_level-IsSplit, contains-above,
}

-- Where a node made for a key goes.
IsPlaced-base_for :
    (base level i key r : ℕ)
    → r < level
    → above key (suc level) ≡ above base (suc level)
    → index_for key level ≡ i
    → IsPlaced base level i (base_for key r) r
IsPlaced-base_for base level i key r h same at = (
  h,
  above-base_for key r (suc level) (omega arith) ∙ same,
  ap (λ n. n % 64) (above-base_for key r level (omega arith)) ∙ at,
)

new_leaf-IsTree : (key : ℕ) → above key 7 ≡ 0 → IsTree (new_leaf key)
new_leaf-IsTree key small = (base_for-again key 0, above-base_for key 0 7 (omega arith) ∙ small)

put_child-all :
    (P : ℕ → Tree → Type 0) (f : ℕ → Tree) (k : ℕ) (t : Tree)
    → ((i : ℕ) → P i (f i))
    → P k t
    → (i : ℕ) → P i (put_child f k t i)
put_child-all P f k t all here i = elim (Bool-cases (i == k)) [
  | inl e ↦ rw e (subst (λ j. P j t) (ground (arith, e)) here)
  | inr e ↦ rw e (all i)
]

-- The common parent of a node and a key, for a node with base `other` and level `m`.
module _ (node : Tree) (key other m : ℕ) (le : m ≤ 6) (top : above key 7 ≡ above other 7)
    (diff : above key (suc m) ≢ above other (suc m))
    (place : (b l i : ℕ) → IsPlaced b l i other m → IsUnder b l i node) where
  at-IsSplit : IsSplit key other m (split_level key other 6)
  at-IsSplit = split_level-IsSplit key other m 6 le (omega arith) top diff

  split_under : (b l r : ℕ) → IsSplit key other m r → above key l ≡ above other l → r < l
  split_under b l r s same = elim (Bool-cases (leb l r)) [
    | inl e ↦ absurd (s.differ (ap (λ n. n % 64) (above_at key other l r (leb→le l r e) same)))
    | inr e ↦ ground (arith, e)
  ]

  pub split-IsUnder :
      (b l i : ℕ)
      → IsPlaced b l i other m
      → above key (suc l) ≡ above b (suc l)
      → index_for key l ≡ i
      → IsUnder b l i (split node other key)
  unfolding split
  split-IsUnder b l i p same at =
      IsPlaced-base_for b l i key (split_level key other 6)
        (split_under b l (split_level key other 6) at-IsSplit
          (above_down key other l (same ∙ sym p.1) (at ∙ sym p.2)))
        same at

  common-IsUnder :
      (r : ℕ)
      → IsSplit key other m r
      → (i : ℕ) → IsUnder (base_for key r) r i (common node other key r i)
  common-IsUnder r s =
      let b = base_for key r in
      put_child-all (IsUnder b r) (put_child (λ i. empty) (index_for other r) node)
        (index_for key r) (new_leaf key)
        (put_child-all (IsUnder b r) (λ i. empty) (index_for other r) node (λ i. tt)
          (place b r (index_for other r)
            (s.over, sym s.agree ∙ sym (above-base_for key r (suc r) (omega arith)), refl)))
        (IsPlaced-base_for b r (index_for key r) key 0 (omega (arith, s.over))
          (sym (above-base_for key r (suc r) (omega arith))) refl)

  pub split-IsTree : above key 7 ≡ 0 → IsTree node → IsTree (split node other key)
  unfolding split
  split-IsTree small ok =
      let r = split_level key other 6 in
      (
        omega (arith, at-IsSplit.over),
        at-IsSplit.most,
        base_for-again key r,
        above-base_for key r 7 (omega (arith, at-IsSplit.most)) ∙ small,
        common-IsUnder r at-IsSplit,
        put_child-all (λ i. IsTree) (put_child (λ i. empty) (index_for other r) node)
            (index_for key r) (new_leaf key)
            (put_child-all (λ i. IsTree) (λ i. empty) (index_for other r) node (λ i. tt) ok)
            (new_leaf-IsTree key small),
      )

pub find_or_add-IsUnder :
    (t : Tree) (b l i key : ℕ)
    → 0 < l
    → IsTree t
    → IsUnder b l i t
    → above key 7 ≡ 0
    → above key (suc l) ≡ above b (suc l)
    → index_for key l ≡ i
    → IsUnder b l i (find_or_add t key)
unfolding find_or_add
find_or_add-IsUnder empty b l i key pos ok u small same at =
    IsPlaced-base_for b l i key 0 pos same at
find_or_add-IsUnder (leaf base entries) b l i key pos ok u small same at =
    elim (Bool-cases (above key 1 == above base 1)) [
      | inl e ↦ rw (contains-above key base 0 ok.0 ∙ e) u
      | inr e ↦ rw (contains-above key base 0 ok.0 ∙ e) (
          split-IsUnder (leaf base entries) key base 0 (omega arith) (small ∙ sym ok.1)
            (λ h. ground (arith, e, h)) (λ b l i p. p) b l i u same at)
    ]
find_or_add-IsUnder (inner base level children) b l i key pos ok u small same at =
    elim (Bool-cases (above key (suc level) == above base (suc level))) [
      | inl e ↦ rw (contains-above key base level ok.2 ∙ e) u
      | inr e ↦ rw (contains-above key base level ok.2 ∙ e) (
          split-IsUnder (inner base level children) key base level ok.1 (small ∙ sym ok.3)
            (λ h. ground (arith, e, h)) (λ b l i p. p) b l i u same at)
    ]

pub find_or_add-IsTree :
    (t : Tree) (key : ℕ) → IsTree t → above key 7 ≡ 0 → IsTree (find_or_add t key)
unfolding find_or_add
find_or_add-IsTree empty key ok small = new_leaf-IsTree key small
find_or_add-IsTree (leaf base entries) key ok small =
    elim (Bool-cases (above key 1 == above base 1)) [
      | inl e ↦ rw (contains-above key base 0 ok.0 ∙ e) ok
      | inr e ↦ rw (contains-above key base 0 ok.0 ∙ e) (
          split-IsTree (leaf base entries) key base 0 (omega arith) (small ∙ sym ok.1)
            (λ h. ground (arith, e, h)) (λ b l i p. p) small ok)
    ]
find_or_add-IsTree (inner base level children) key ok small =
    let at = index_for key level in
    let ih = find_or_add-IsTree (children (index_for key level)) key (ok.5 at) small in
    elim (Bool-cases (above key (suc level) == above base (suc level))) [
      | inl e ↦ rw (contains-above key base level ok.2 ∙ e) (
        ok.0,
        ok.1,
        ok.2,
        ok.3,
        put_child-all (IsUnder base level) children at (find_or_add (children at) key) ok.4 (
            find_or_add-IsUnder (children at) base level at key ok.0 (ok.5 at) (ok.4 at) small
              (ground (arith, e)) refl),
        put_child-all (λ i. IsTree) children at (find_or_add (children at) key) ok.5 ih,
      )
      | inr e ↦ rw (contains-above key base level ok.2 ∙ e) (
          split-IsTree (inner base level children) key base level ok.1 (small ∙ sym ok.3)
            (λ h. ground (arith, e, h)) (λ b l i p. p) small ok)
    ]

put_entry-IsUnder :
    (t : Tree) (b l i key v : ℕ) → IsUnder b l i t → IsUnder b l i (put_entry t key v)
unfolding put_entry
put_entry-IsUnder empty b l i key v u = tt
put_entry-IsUnder (leaf base entries) b l i key v u = u
put_entry-IsUnder (inner base level children) b l i key v u = u

pub put_entry-IsTree : (t : Tree) (key v : ℕ) → IsTree t → IsTree (put_entry t key v)
unfolding put_entry
put_entry-IsTree empty key v ok = tt
put_entry-IsTree (leaf base entries) key v ok = ok
put_entry-IsTree (inner base level children) key v ok =
    let at = index_for key level in
    let child = put_entry (children at) key v in
    (
      ok.0,
      ok.1,
      ok.2,
      ok.3,
      put_child-all (IsUnder base level) children at child ok.4
          (put_entry-IsUnder (children at) base level at key v (ok.4 at)),
      put_child-all (λ i. IsTree) children at child ok.5
          (put_entry-IsTree (children (index_for key level)) key v (ok.5 at)),
    )
