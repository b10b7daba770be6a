-- ===== src/Util/RadixTree/Find.antt =====
-- find after find_or_add and after a write through its reference, in
-- src/libraries/util/include/util/radix_tree.h.
use jsix.Prelude.{
  none-some, ℕ, suc, ◌<◌, ◌≡◌, ◌∙◌, ◌==◌, inl, inr, refl, sym, ap, none, some, if◌then◌else◌, arith,
  Bool-cases, if_eq_other,
}
use jsix.Util.RadixTree.{
  Tree, empty, leaf, inner, above, index_for, base_for, find, find_or_add, put_entry, put_value,
  put_child,
}
use jsix.Util.RadixTree.Levels.{above_at, above_down, base_for-same}
use jsix.Util.RadixTree.Split.{
  IsTree, or_zero, or_zero-false, contains-above, find-inner, find-new_leaf, find-split, other_leaf,
}

find-leaf :
    (base : ℕ) (entries : ℕ → ℕ) (k : ℕ)
    → base_for base 0 ≡ base
    → find (leaf base entries) k
      ≡ (if above k 1 == above base 1 then some (entries (index_for k 0)) else none)
unfolding find
find-leaf base entries k e =
    ap (λ c. if c then some (entries (index_for k 0)) else none) (contains-above k base 0 e)

leaf_kept :
    (base : ℕ) (entries : ℕ → ℕ) (key k : ℕ)
    → base_for base 0 ≡ base
    → above key 1 ≡ above base 1
    → find (leaf base entries) k ≡ or_zero (find (leaf base entries) k) (above k 1 == above key 1)
leaf_kept base entries key k e same = elim (Bool-cases (above k 1 == above base 1)) [
  | inl f ↦ ground (arith, find-leaf base entries k e, f)
  | inr f ↦ ground (arith, find-leaf base entries k e, f, same)
]

find-empty : (k : ℕ) → find empty k ≡ none
unfolding find
find-empty k = refl

module _ (base level : ℕ) (children : ℕ → Tree) (key : ℕ) (t : Tree)
    (aligned : base_for base level ≡ base) (some_level : 0 < level)
    (inside : above key (suc level) ≡ above base (suc level))
    (ih : (k : ℕ)
      → find t k
        ≡ or_zero (find (children (index_for key level)) k) (above k 1 == above key 1)) where
  find-child_added :
      (k : ℕ)
      → find (inner base level (put_child children (index_for key level) t)) k
        ≡ or_zero (find (inner base level children) k) (above k 1 == above key 1)
  find-child_added k =
      let new = find-inner base level (put_child children (index_for key level) t) k aligned in
      let old = find-inner base level children k aligned in
      elim (Bool-cases (above k (suc level) == above base (suc level))) [
        | inl e ↦ elim (Bool-cases (index_for k level == index_for key level)) [
          | inl f ↦ ground (arith, new, old, e, f, ih k)
          | inr f ↦ ground (
            arith,
            new,
            old,
            e,
            f,
            other_leaf k key level (omega arith) (λ h. ground (arith, f, h)),
            or_zero-false (find (children (index_for k level)) k),
          )
        ]
        | inr e ↦ ground (
          arith,
          new,
          old,
          e,
          other_leaf k key (suc level) (omega arith) (λ h. ground (arith, e, h, inside)),
        )
      ]

-- `find_or_add` keeps every entry, and adds the 64 entries of the key's leaf, zero, where there was none.
pub find-find_or_add :
    (t : Tree) (key k : ℕ)
    → IsTree t
    → above key 7 ≡ 0
    → find (find_or_add t key) k ≡ or_zero (find t k) (above k 1 == above key 1)
unfolding find_or_add
find-find_or_add empty key k v small =
    find-new_leaf key k ∙ ap (λ o. or_zero o (above k 1 == above key 1)) (sym (find-empty k))
find-find_or_add (leaf base entries) key k v small =
    elim (Bool-cases (above key 1 == above base 1)) [
      | inl e ↦
          rw (contains-above key base 0 v.0 ∙ e)
            (leaf_kept base entries key k v.0 (ground (arith, e)))
      | inr e ↦ rw (contains-above key base 0 v.0 ∙ e) (
          find-split (leaf base entries) key base 0 (omega arith) (small ∙ sym v.1)
            (λ h. ground (arith, e, h))
            (λ j d. find-leaf base entries j v.0 ∙ if_eq_other (above j 1) (above base 1) _ none d)
            k)
    ]
find-find_or_add (inner base level children) key k v small =
    let ih = find-find_or_add (children (index_for key level)) key in
    elim (Bool-cases (above key (suc level) == above base (suc level))) [
      | inl e ↦ rw (contains-above key base level v.2 ∙ e) (
          find-child_added base level children key
            (find_or_add (children (index_for key level)) key) v.2 v.0 (ground (arith, e))
            (λ j. ih j (v.5 (index_for key level)) small) k)
      | inr e ↦ rw (contains-above key base level v.2 ∙ e) (
          find-split (inner base level children) key base level v.1 (small ∙ sym v.3)
            (λ h. ground (arith, e, h))
            (λ j d.
              find-inner base level children j v.2
              ∙ if_eq_other (above j (suc level)) (above base (suc level)) _ none d)
            k)
    ]

put_leaf :
    (base : ℕ) (entries : ℕ → ℕ) (key v k : ℕ)
    → base_for base 0 ≡ base
    → above key 1 ≡ above base 1
    → find (leaf base (put_value entries (index_for key 0) v)) k
      ≡ (if above k 0 == above key 0 then some v else find (leaf base entries) k)
put_leaf base entries key v k e same =
    let new = find-leaf base (put_value entries (index_for key 0) v) k e in
    let old = find-leaf base entries k e in
    elim (Bool-cases (above k 1 == above base 1)) [
      | inl f ↦ elim (Bool-cases (index_for k 0 == index_for key 0)) [
        | inl g ↦ ground (arith, new, old, f, g, same, above_down k key 0)
        | inr g ↦ ground (arith, new, old, f, g)
      ]
      | inr f ↦ ground (arith, new, old, f, same, above_at k key 0 1 (omega arith))
    ]

find-child_put :
    (base level : ℕ) (children : ℕ → Tree) (key v k : ℕ) (t : Tree)
    → base_for base level ≡ base
    → above key (suc level) ≡ above base (suc level)
    → find t k
      ≡ (if above k 0 == above key 0 then some v else find (children (index_for key level)) k)
    → find (inner base level (put_child children (index_for key level) t)) k
      ≡ (if above k 0 == above key 0 then some v else find (inner base level children) k)
find-child_put base level children key v k t aligned inside here =
    let new = find-inner base level (put_child children (index_for key level) t) k aligned in
    let old = find-inner base level children k aligned in
    elim (Bool-cases (above k (suc level) == above base (suc level))) [
      | inl e ↦ elim (Bool-cases (index_for k level == index_for key level)) [
        | inl f ↦ ground (arith, new, old, e, f, here)
        | inr f ↦ ground (arith, new, old, e, f, above_at k key 0 level (omega arith))
      ]
      | inr e ↦ ground (arith, new, old, e, inside, above_at k key 0 (suc level) (omega arith))
    ]

-- A write through the reference changes the entry of that page and no other.
pub find-put_entry :
    (t : Tree) (key v k w : ℕ)
    → IsTree t
    → find t key ≡ some w
    → find (put_entry t key v) k ≡ (if above k 0 == above key 0 then some v else find t k)
unfolding put_entry
find-put_entry empty key v k w ok there = absurd (none-some (sym (find-empty key) ∙ there))
find-put_entry (leaf base entries) key v k w ok there =
    put_leaf base entries key v k ok.0 (ground (arith, find-leaf base entries key ok.0, there))
find-put_entry (inner base level children) key v k w ok there =
    let ih =
      find-put_entry (children (index_for key level)) key v k w (ok.5 (index_for key level)) in
    let at_key = find-inner base level children key ok.2 in
    elim (Bool-cases (above key (suc level) == above base (suc level))) [
      | inl e ↦
          find-child_put base level children key v k
            (put_entry (children (index_for key level)) key v) ok.2 (ground (arith, e))
            (ih (ground (arith, at_key, there, e)))
      | inr e ↦ ground (arith, at_key, there, e)
    ]

-- The addresses of one page have one entry.
pub find-same_page : (t : Tree) (key k : ℕ) → above k 0 ≡ above key 0 → find t k ≡ find t key
unfolding find
find-same_page empty key k same = refl
find-same_page (leaf base entries) key k same =
    ground (arith, same, base_for-same k key 0 (above_at k key 0 1 (omega arith) same))
find-same_page (inner base level children) key k same =
    let ih = find-same_page (children (index_for key level)) key k same in
    let at = above_at k key 0 level (omega arith) same in
    ground
      (arith, ih, at, base_for-same k key level (above_at k key 0 (suc level) (omega arith) same))
