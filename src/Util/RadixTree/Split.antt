-- ===== src/Util/RadixTree/Split.antt =====
-- The common parent of a node and a key that does not belong under it, in
-- src/libraries/util/include/util/radix_tree.h.
use jsix.Prelude.{
  ℕ, zero, suc, ◌≤◌, ◌<◌, ◌≡◌, ◌≢◌, ◌∙◌, ◌==◌, inl, inr, refl, sym, ap, Bool, true, false, Option,
  none, some, if◌then◌else◌, arith, Bool-cases,
}
use jsix.Util.RadixTree.{
  Tree, empty, leaf, inner, above, index_for, base_for, find, new_leaf, put_child, split_level,
  split,
}
use jsix.Util.RadixTree.Levels.{
  above_at, above_down, above-base_for, base_for-same, base_for-above, base_for-again,
}

-- A node with base `b` and level `l` belongs in slot `i` of one with `base` and `level`.
abbrev pub IsPlaced : ℕ → ℕ → ℕ → ℕ → ℕ → Type 0
IsPlaced base level i b l =
    (l < level) × (above b (suc level) ≡ above base (suc level)) × (index_for b level ≡ i)

abbrev pub IsUnder : ℕ → ℕ → ℕ → Tree → Type 0
IsUnder base level i empty = Unit {0}
IsUnder base level i (leaf b entries) = IsPlaced base level i b 0
IsUnder base level i (inner b l children) = IsPlaced base level i b l

-- The base of a node has no bits below its level, none at 2^54 and above, and its children are placed.
abbrev pub IsTree : Tree → Type 0
IsTree empty = Unit {0}
IsTree (leaf base entries) = (base_for base 0 ≡ base) × (above base 7 ≡ 0)
IsTree (inner base level children) =
    (0 < level)
    × (level ≤ 6)
    × (base_for base level ≡ base)
    × (above base 7 ≡ 0)
    × ((i : ℕ) → IsUnder base level i (children i))
    × ((i : ℕ) → IsTree (children i))

-- The level that the loop of `find_or_add` stops at, over a node of level `m`.
pub record IsSplit (key other m r : ℕ) : Type 0 where
  pub over : m < r
  pub most : r ≤ 6
  pub agree : above key (suc r) ≡ above other (suc r)
  pub differ : index_for key r ≢ index_for other r

split-over :
    (key other m level : ℕ)
    → m ≤ level
    → above key (suc level) ≡ above other (suc level)
    → above key (suc m) ≢ above other (suc m)
    → m < level
split-over key other m level le same diff = elim (Bool-cases (m == level)) [
  | inl e ↦ absurd (diff (above_at key other (suc level) (suc m) (ground (arith, e)) same))
  | inr e ↦ ground (arith, e)
]

pub split_level-IsSplit :
    (key other m level : ℕ)
    → m ≤ level
    → level ≤ 6
    → above key (suc level) ≡ above other (suc level)
    → above key (suc m) ≢ above other (suc m)
    → IsSplit key other m (split_level key other level)
unfolding split_level
split_level-IsSplit key other m zero le six same diff =
    absurd (diff (above_at key other 1 (suc m) (omega arith) same))
split_level-IsSplit key other m (suc level) le six same diff =
    let ih = split_level-IsSplit key other m level in
    let over = split-over key other m (suc level) le same diff in
    elim (Bool-cases (index_for key (suc level) == index_for other (suc level))) [
      | inl e ↦ rw e (
          ih (omega (arith, over)) (omega arith)
            (above_down key other (suc level) same (ground (arith, e))) diff)
      | inr e ↦ rw e (record { over = over; most = six; agree = same; differ = ground (arith, e) })
    ]

-- What a new leaf adds to an answer: the entries of its 64 pages.
abbrev pub or_zero : Option ℕ → Bool → Option ℕ
or_zero (some v) fresh = some v
or_zero none true = some 0
or_zero none false = none

pub or_zero-false : (o : Option ℕ) → or_zero o false ≡ o
or_zero-false none = refl
or_zero-false (some v) = refl

-- The test of `contains`, in terms of the part above the level.
pub contains-above :
    (key base l : ℕ)
    → base_for base l ≡ base
    → (base_for key l == base) ≡ (above key (suc l) == above base (suc l))
contains-above key base l e = elim (Bool-cases (above key (suc l) == above base (suc l))) [
  | inl h ↦ ground (arith, h, e, base_for-same key base l)
  | inr h ↦ ground (arith, h, e, base_for-above key base l)
]

pub contains-key :
    (k key l : ℕ) → (base_for k l == base_for key l) ≡ (above k (suc l) == above key (suc l))
contains-key k key l =
    contains-above k (base_for key l) l (base_for-again key l)
    ∙ ap (λ x. above k (suc l) == x) (above-base_for key l (suc l) (omega arith))

pub find-inner :
    (base level : ℕ) (children : ℕ → Tree) (k : ℕ)
    → base_for base level ≡ base
    → find (inner base level children) k ≡ (
        if above k (suc level) == above base (suc level)
        then find (children (index_for k level)) k
        else none)
unfolding find
find-inner base level children k e =
    ap (λ c. if c then find (children (index_for k level)) k else none)
      (contains-above k base level e)

pub find-inner_key :
    (key level : ℕ) (children : ℕ → Tree) (k : ℕ)
    → find (inner (base_for key level) level children) k ≡ (
        if above k (suc level) == above key (suc level)
        then find (children (index_for k level)) k
        else none)
unfolding find
find-inner_key key level children k =
    ap (λ c. if c then find (children (index_for k level)) k else none) (contains-key k key level)

pub find-new_leaf : (key k : ℕ) → find (new_leaf key) k ≡ or_zero none (above k 1 == above key 1)
unfolding find
find-new_leaf key k = elim (Bool-cases (above k 1 == above key 1)) [
  | inl e ↦ ground (arith, contains-key k key 0, e)
  | inr e ↦ ground (arith, contains-key k key 0, e)
]

pub other_leaf :
    (k key l : ℕ) → 1 ≤ l → above k l ≢ above key l → (above k 1 == above key 1) ≡ false
other_leaf k key l h diff = ground (arith, above_at k key 1 l h)

find-empty : (k : ℕ) → find empty k ≡ none
unfolding find
find-empty k = refl

-- the children of the common parent
abbrev pub common : Tree → ℕ → ℕ → ℕ → ℕ → Tree
common node other key r =
    put_child (put_child (λ i. empty) (index_for other r) node) (index_for key r) (new_leaf key)

module _ (node : Tree) (key other m r : ℕ) (split : IsSplit key other m r)
    (out : (k : ℕ) → above k (suc m) ≢ above other (suc m) → find node k ≡ none) where
  split-miss : (k : ℕ) → above k r ≢ above other r → find node k ≡ none
  split-miss k diff = out k (λ e. diff (above_at k other (suc m) r (omega (arith, split.over)) e))

  split-find_here :
      (k : ℕ)
      → above k (suc r) ≡ above key (suc r)
      → find (common node other key r (index_for k r)) k
        ≡ or_zero (find node k) (above k 1 == above key 1)
  split-find_here k same = elim (Bool-cases (index_for k r == index_for key r)) [
    | inl e ↦
        ground
          (arith, e, find-new_leaf key k, split-miss k (λ h. split.differ (ground (arith, e, h))))
    | inr e ↦
        let fresh = other_leaf k key r (omega (arith, split.over)) (λ h. ground (arith, e, h)) in
        elim (Bool-cases (index_for k r == index_for other r)) [
          | inl f ↦ ground (arith, e, f, fresh, or_zero-false (find node k))
          | inr f ↦
              ground (arith, e, f, fresh, split-miss k (λ h. ground (arith, f, h)), find-empty k)
        ]
  ]

  split-find_all :
      (k : ℕ)
      → find (inner (base_for key r) r (common node other key r)) k
        ≡ or_zero (find node k) (above k 1 == above key 1)
  split-find_all k = elim (Bool-cases (above k (suc r) == above key (suc r))) [
    | inl e ↦ ground (
      arith,
      e,
      find-inner_key key r (common node other key r) k,
      split-find_here k (ground (arith, e)),
    )
    | inr e ↦
        let apart : above k (suc r) ≢ above key (suc r) = λ h. ground (arith, e, h) in
        ground (
          arith,
          e,
          find-inner_key key r (common node other key r) k,
          other_leaf k key (suc r) (omega arith) apart,
          split-miss k (λ h. apart (above_at k other r (suc r) (omega arith) h ∙ sym split.agree)),
        )
  ]

-- The level `m` is that of the node, and the key does not belong under it.
pub find-split :
    (node : Tree) (key other m : ℕ)
    → m ≤ 6
    → above key 7 ≡ above other 7
    → above key (suc m) ≢ above other (suc m)
    → ((k : ℕ) → above k (suc m) ≢ above other (suc m) → find node k ≡ none)
    → (k : ℕ) → find (split node other key) k ≡ or_zero (find node k) (above k 1 == above key 1)
unfolding split
find-split node key other m le top diff out k =
    let s = split_level-IsSplit key other m 6 le (omega arith) top diff in
    split-find_all node key other m (split_level key other 6) s out k
