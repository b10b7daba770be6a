-- ===== src/Util/RadixTree.antt =====
-- src/libraries/util/include/util/radix_tree.h with the parameters of `page_tree`: 64 entries to a
-- node, levels 0 to 5, and 12 bits below the index of level 0. A key is 64 bits wide; masks and shifts
-- are written as products and quotients. A node is a tree with its base and level, a leaf has level 0,
-- and a null pointer is `empty`. A reference to an entry is written through by `put_entry`.
pub mod Levels
pub mod Split
pub mod Find
pub mod Keep
pub mod Entries
mod Tests
use jsix.Prelude.{
  ℕ, zero, suc, ◌+◌, ◌-◌, ◌*◌, ◌/◌, ◌%◌, ◌^◌, ◌==◌, Bool, true, false, Option, none, some,
  if◌then◌else◌,
}

abbrev pub max_level : ℕ
max_level = 5

abbrev pub level_shift : ℕ → ℕ
level_shift level = level * 6 + 12

-- `key >> level_shift(level)`
unfoldable pub above : ℕ → ℕ → ℕ
above key level = key / 2 ^ level_shift level

abbrev pub index_for : ℕ → ℕ → ℕ
index_for key level = above key level % 64

-- `key & level_mask(level + 1)`
unfoldable pub base_for : ℕ → ℕ → ℕ
unfolding above
base_for key level = above key (level + 1) * 2 ^ level_shift (level + 1)

pub data Tree : Type 0 where
  empty : Tree
  leaf : ℕ → (ℕ → ℕ) → Tree
  inner : ℕ → ℕ → (ℕ → Tree) → Tree

abbrev pub put_child : (ℕ → Tree) → ℕ → Tree → ℕ → Tree
put_child f k t i = if i == k then t else f i

abbrev pub put_value : (ℕ → ℕ) → ℕ → ℕ → ℕ → ℕ
put_value f k v i = if i == k then v else f i

-- The entry of a key, if there is a leaf for it.
unfoldable pub find : Tree → ℕ → Option ℕ
unfolding base_for above
find empty key = none
find (leaf base entries) key =
    if base_for key 0 == base then some (entries (index_for key 0)) else none
find (inner base level children) key =
    let rest = find (children (index_for key level)) key in
    if base_for key level == base then rest else none

-- `new node_type(key, 0)`
abbrev pub new_leaf : ℕ → Tree
new_leaf key = leaf (base_for key 0) (λ i. 0)

-- The loop that looks for the highest level at which the indices differ, from `level` down. It is entered
-- with keys that differ above some level; for others the counter of the source would run below 0.
pub split_level : ℕ → ℕ → ℕ → ℕ
unfolding above
split_level key other zero = 0
split_level key other (suc level) =
    let lower = split_level key other level in
    if index_for key (suc level) == index_for other (suc level) then lower else suc level

-- A node for a key that does not belong under `node`, whose base is `other`: their common parent.
unfoldable pub split : Tree → ℕ → ℕ → Tree
unfolding split_level base_for above
split node other key =
    let level = split_level key other (max_level + 1) in
    inner (base_for key level) level (
      put_child (put_child (λ i. empty) (index_for other level) node) (index_for key level)
        (new_leaf key))

-- `find_or_add`, up to the reference to the entry
unfoldable pub find_or_add : Tree → ℕ → Tree
unfolding split base_for above
find_or_add empty key = new_leaf key
find_or_add (leaf base entries) key =
    if base_for key 0 == base then leaf base entries else split (leaf base entries) base key
find_or_add (inner base level children) key =
    let child = find_or_add (children (index_for key level)) key in
    if base_for key level == base
    then inner base level (put_child children (index_for key level) child)
    else split (inner base level children) base key

-- a write through the reference that `find_or_add` returns
unfoldable pub put_entry : Tree → ℕ → ℕ → Tree
unfolding above
put_entry empty key v = empty
put_entry (leaf base entries) key v = leaf base (put_value entries (index_for key 0) v)
put_entry (inner base level children) key v =
    inner base level
      (put_child children (index_for key level) (put_entry (children (index_for key level)) key v))
