-- ===== src/Util/RadixTree/Tests.antt =====
-- A tree of two pages whose keys first differ at level 2.
use jsix.Prelude.{◌≡◌, some, none, refl, arith}
use jsix.Util.RadixTree.{
  Tree, empty, above, base_for, find, find_or_add, put_entry, split, split_level,
}
use jsix.Util.RadixTree.Split.{IsTree}
use jsix.Util.RadixTree.Entries.{IsWritten, find_or_add-IsWritten}

abbrev one_page : Tree
unfolding find_or_add above base_for
one_page = put_entry (find_or_add empty 0x3000) 0x3000 77

one_page-IsTree : IsTree one_page
unfolding find_or_add above base_for
one_page-IsTree = (find_or_add-IsWritten empty 0x3000 77 tt (omega arith)).written_tree

two_pages-find :
    (find (put_entry (find_or_add one_page 0x20000000) 0x20000000 5) 0x3fff ≡ some 77)
    × (find (put_entry (find_or_add one_page 0x20000000) 0x20000000 5) 0x20000abc ≡ some 5)
    × (find (put_entry (find_or_add one_page 0x20000000) 0x20000000 5) 0x20040000 ≡ none)
unfolding find_or_add put_entry find above base_for split split_level
two_pages-find = (refl, refl, refl)

find_or_add-IsWritten_example : IsWritten one_page 0x20000000 5
find_or_add-IsWritten_example =
    find_or_add-IsWritten one_page 0x20000000 5 one_page-IsTree (omega arith)
