-- ===== src/Kernel/PageTree.antt =====
-- src/kernel/page_tree.cpp: the pages mapped in an area, as a radix tree of entries whose low bit says
-- that there is a page.
pub mod Pages
pub mod Existing
mod Tests
use jsix.Prelude.{ℕ, ◌+◌, ◌*◌, ◌/◌, ◌%◌, ◌==◌, Option, none, some, if◌then◌else◌}
use jsix.Prelude.Bits.{Word}
use jsix.Kernel.FrameAllocator.{Frames, allocate}
use jsix.Util.RadixTree.{Tree, find, put_entry}
use jsix.Util.RadixTree as Radix

-- `ent | 1`
abbrev pub marked : ℕ → ℕ
marked ent = ent / 2 * 2 + 1

-- `ent & ~0xfffull`
abbrev pub page_of : ℕ → ℕ
page_of ent = ent / 4096 * 4096

abbrev pub entry : Option ℕ → ℕ
entry none = 0
entry (some ent) = ent

-- `if (!frame_allocator::get().allocate(1, &ent)) return false;` and what follows
abbrev pub set_page : Frames → Tree → ℕ → Option (Frames × ℕ × ℕ) → Frames × Tree × Option ℕ
set_page s t offset none = (s, t, none)
set_page s t offset (some (s', address, n)) =
    (s', put_entry t offset (marked address), some (page_of (marked address)))

-- The frame allocator, the tree, and the page if there is one.
pub find_or_add : Word → Frames → Tree → ℕ → Frames × Tree × Option ℕ
find_or_add wide s t offset =
    let t' = Radix.find_or_add t offset in
    let ent = entry (find t' offset) in
    if ent % 2 == 1 then (s, t', some (page_of ent)) else set_page s t' offset (allocate wide s 1)

-- None when the assertion fails.
pub add_existing : Tree → ℕ → ℕ → Option Tree
add_existing t offset page =
    let t' = Radix.find_or_add t offset in
    if entry (find t' offset) % 2 == 1 then none else some (put_entry t' offset (marked page))
