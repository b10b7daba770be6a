-- ===== src/Kernel/PageTree/Tests.antt =====
-- An allocator with two free frames, and a tree with one page.
use jsix.Prelude.{true, arith}
use jsix.Kernel.FrameAllocator.Tests.{frames, two_free, frames-IsConsistent, frames-aligned}
use jsix.Kernel.PageTree.{find_or_add, marked}
use jsix.Kernel.PageTree.Pages.{IsFound, find_or_add-IsFound}
use jsix.Util.RadixTree.{Tree, empty, above, put_entry}
use jsix.Util.RadixTree as Radix
use jsix.Util.RadixTree.Split.{IsTree}
use jsix.Util.RadixTree.Entries.{find_or_add-IsWritten}

abbrev added : Tree
unfolding Radix.find_or_add above
added = put_entry (Radix.find_or_add empty 0x5000) 0x5000 (marked 0x7000)

added-IsTree : IsTree added
unfolding Radix.find_or_add above
added-IsTree = (find_or_add-IsWritten empty 0x5000 (marked 0x7000) tt (omega arith)).written_tree

find_or_add-IsFound_example :
    let (s, t, r) = find_or_add (λ i. true) (frames two_free) added 0x20000000 in
    IsFound (frames two_free) s added t 0x20000000 r
find_or_add-IsFound_example =
    find_or_add-IsFound (λ i. true) (frames two_free) added 0x20000000 added-IsTree (omega arith)
      frames-IsConsistent frames-aligned
