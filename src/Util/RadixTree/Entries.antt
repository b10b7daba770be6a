-- ===== src/Util/RadixTree/Entries.antt =====
-- A tree as a table of entries: find, find_or_add and a write through its reference, in
-- src/libraries/util/include/util/radix_tree.h.
use jsix.Prelude.{
  ℕ, ◌^◌, ◌<◌, ◌≡◌, ◌∙◌, ◌==◌, refl, ap, true, Option, none, some, if◌then◌else◌, arith,
}
use jsix.Util.RadixTree.{Tree, above, find, find_or_add, put_entry}
use jsix.Util.RadixTree.Split.{IsTree, or_zero}
use jsix.Util.RadixTree.Find.{find-find_or_add, find-put_entry}
use jsix.Util.RadixTree.Keep.{find_or_add-IsTree, put_entry-IsTree}
use native.Mathlib.Nat.{div-eq_of_lt}

pub above-small : (key : ℕ) → key < 2 ^ 54 → above key 7 ≡ 0
unfolding above
above-small key h = div-eq_of_lt h

or_zero-true : (o : Option ℕ) → (w : ℕ) × (or_zero o true ≡ some w)
or_zero-true none = (0, refl)
or_zero-true (some w) = (w, refl)

-- What `find_or_add` and then a write of `v` do to the answers of `find`.
pub record IsWritten (t : Tree) (key v : ℕ) : Type 0 where
  pub added_tree : IsTree (find_or_add t key)
  pub added : (k : ℕ) → find (find_or_add t key) k ≡ or_zero (find t k) (above k 1 == above key 1)
  pub written_tree : IsTree (put_entry (find_or_add t key) key v)
  pub written :
      (k : ℕ)
      → find (put_entry (find_or_add t key) key v) k ≡ (
          if above k 0 == above key 0
          then some v
          else or_zero (find t k) (above k 1 == above key 1))

-- For a well-formed tree and a key below 2^54, `find_or_add` keeps every entry and adds only the 64
-- entries of the leaf of the key, zero, where there was no leaf for it; a write through the reference
-- it returns then changes the entry of the key's page to the value and no other. Both trees are well
-- formed.
pub find_or_add-IsWritten : (t : Tree) (key v : ℕ) → IsTree t → key < 2 ^ 54 → IsWritten t key v
find_or_add-IsWritten t key v ok h =
    let small = above-small key h in
    let tree = find_or_add-IsTree t key ok small in
    let there = or_zero-true (find t key) in
    record {
      added_tree = tree;
      added = λ k. find-find_or_add t key k ok small;
      written_tree = put_entry-IsTree (find_or_add t key) key v tree;
      written = λ k.
          find-put_entry (find_or_add t key) key v k there.0 tree
            (find-find_or_add t key key ok small ∙ ground (arith, there.1))
          ∙ ap (λ o. if above k 0 == above key 0 then some v else o)
              (find-find_or_add t key k ok small);
    }
