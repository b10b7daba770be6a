-- ===== src/Kernel/Heap.antt =====
-- src/kernel/heap_allocator.cpp and heap_allocator.h: the buddy allocator of the kernel heap, built
-- without `__debug_heap_allocation`. Each operation holds the lock. A pointer is its distance from
-- `m_start`, which is aligned to the largest block, so that the exclusive or of `buddy` and the
-- alignment of `m_end` are those of the distance. A header of a free block holds the order of its
-- list; the intrusive lists are lists, front first. `none` is a failed `kassert`.
pub mod Inv
pub mod Split
pub mod Orders
pub mod Grow
pub mod Merge
pub mod Merging
pub mod Free
pub mod Allocate
pub mod Reallocate
mod Tests
use jsix.Prelude.{
  ℕ, zero, suc, ◌+◌, ◌-◌, ◌*◌, ◌/◌, ◌%◌, ◌^◌, ◌==◌, Bool, true, false, ◌&&◌, not, Option, none,
  some, List, [], ◌∷◌, ltb, leb, if◌then◌else◌, u64_mod, u32_mod, add64, sub64,
}
use jsix.Prelude.Occur.{remove}
use jsix.Util.Log.{log2}

abbrev pub min_order : ℕ
min_order = 5

abbrev pub max_order : ℕ
max_order = 22

-- `block_info`, less its `offset`, which is its key
pub record BlockInfo : Type 0 where
  pub order : ℕ
  pub free : Bool

-- `heap_allocator`. `end` is `m_end`; `m_free` is indexed by the order itself.
pub record Heap : Type 0 where
  pub end : ℕ
  pub allocated_size : ℕ
  pub free_lists : ℕ → List ℕ
  pub map : ℕ → Option BlockInfo

-- the constructor with a heap range
abbrev pub new_heap : Heap
new_heap = record { end = 0; allocated_size = 0; free_lists = λ o. []; map = λ k. none }

abbrev pub map_key : ℕ → ℕ
map_key p = p / 32 % u32_mod

abbrev pub put_info : (ℕ → Option BlockInfo) → ℕ → Option BlockInfo → ℕ → Option BlockInfo
put_info map k i j = if j == k then i else map j

abbrev pub put_list : (ℕ → List ℕ) → ℕ → List ℕ → ℕ → List ℕ
put_list lists o q i = if i == o then q else lists i

-- `this ^ (1ull << order)`
abbrev pub buddy : ℕ → ℕ → ℕ
buddy p order = if p / 2 ^ order % 2 == 0 then p + 2 ^ order else p - 2 ^ order

-- the first of a block and its buddy
abbrev pub eldest : ℕ → ℕ → ℕ
eldest p order = if ltb p (buddy p order) then p else buddy p order

-- `tz > max_order ? max_order : tz`, from `max_order` down
pub aligned_order : ℕ → ℕ → ℕ
aligned_order zero p = 0
aligned_order (suc o) p = let less = aligned_order o p in if p % 2 ^ suc o == 0 then suc o else less

pub address_order : ℕ → ℕ
unfolding aligned_order
address_order p = aligned_order max_order p

abbrev pub set_info : Heap → ℕ → BlockInfo → Heap
set_info h p i = record h { map = put_info h.map (map_key p) (some i) }

pub register_free_block : Heap → ℕ → ℕ → Heap
register_free_block h p o =
    let marked = set_info h p (record { order = o; free = true }) in
    record marked { free_lists = put_list h.free_lists o (p ∷ h.free_lists o) }

-- The block at the head of a list, and the heap without it.
abbrev pub pop_list : Heap → ℕ → List ℕ → Option (ℕ × Heap)
pop_list h o [] = none
pop_list h o (p ∷ rest) = some (p, record h { free_lists = put_list h.free_lists o rest })

pub pop_free : Heap → ℕ → Option (ℕ × Heap)
pop_free h o = pop_list h o (h.free_lists o)

-- `m_map[key].order = order`, which makes an entry that is not free when there is none
abbrev pub with_order : Option BlockInfo → ℕ → BlockInfo
with_order none o = record { order = o; free = false }
with_order (some i) o = record i { order = o }

-- The end of `split_off`: a block of the next order becomes one of order `o` and its free buddy.
pub split_at : ℕ → ℕ × Heap → ℕ × Heap
unfolding register_free_block
split_at o (p, h) =
    let t = register_free_block h (buddy p o) o in
    (p, set_info t p (with_order (t.map (map_key p)) o))

abbrev pub split_found : ℕ → Option (ℕ × Heap) → Option (ℕ × Heap) → Option (ℕ × Heap)
split_found o none none = none
split_found o none (some found) = some (split_at o found)
split_found o (some found) later = some (split_at o found)

-- `split_off`, with `left` orders above `o`
pub split_off : Heap → ℕ → ℕ → Option (ℕ × Heap)
unfolding pop_free split_at
split_off h o zero = none
split_off h o (suc left) = split_found o (pop_free h (o + 1)) (split_off h (o + 1) left)

-- A round of the loop of `new_block`: a free block of order `o` at the end.
pub add_free : Heap → ℕ → Heap
unfolding register_free_block
add_free h o = record (register_free_block h h.end o) { end = h.end + 2 ^ o }

-- That loop, on fuel: each round raises the order that the end is aligned to.
pub align_end : ℕ → Heap → ℕ → Heap
unfolding address_order add_free
align_end zero h o = h
align_end (suc fuel) h o =
    let rest = align_end fuel (add_free h (address_order h.end)) o in
    if ltb (address_order h.end) o then rest else h

-- The rest of `new_block`: a block in use at the end.
pub add_used : Heap → ℕ → ℕ × Heap
add_used h o =
    (h.end, set_info (record h { end = h.end + 2 ^ o }) h.end (record { order = o; free = false }))

pub new_block : Heap → ℕ → ℕ × Heap
unfolding align_end add_used
new_block h o = add_used (align_end max_order h o) o

-- `m_map[key].free = false`, for a block with an entry
abbrev pub taken : Option BlockInfo → BlockInfo
taken none = record { order = 0; free = false }
taken (some i) = record i { free = false }

abbrev pub take_block : ℕ × Heap → ℕ × Heap
take_block (p, h) = (p, set_info h p (taken (h.map (map_key p))))

abbrev pub take_found : Option (ℕ × Heap) → Option (ℕ × Heap) → ℕ × Heap → ℕ × Heap
take_found (some found) split fresh = take_block found
take_found none (some found) fresh = take_block found
take_found none none fresh = fresh

-- The part of `allocate` that finds a block of an order.
pub allocate_order : Heap → ℕ → ℕ × Heap
unfolding pop_free split_off new_block
allocate_order h o =
    let t = record h { allocated_size = add64 h.allocated_size (2 ^ o) } in
    take_found (pop_free t o) (split_off t o (max_order - o)) (new_block t o)

pub order_of : ℕ → ℕ
unfolding log2
order_of length = if ltb (log2 length) min_order then min_order else log2 length

-- `kassert(order <= max_order)` and the block
abbrev pub block_if : Bool → ℕ × Heap → Option (Option ℕ × Heap)
block_if false made = none
block_if true (p, t) = some (some p, t)

-- The block is `none` for a null pointer.
pub allocate : Heap → ℕ → Option (Option ℕ × Heap)
unfolding allocate_order order_of
allocate h length =
    let o = order_of length in
    if length == 0 then some (none, h) else block_if (leb o max_order) (allocate_order h o)

-- May a buddy be merged with a block of this order?
abbrev pub mergeable : Option BlockInfo → ℕ → Bool
mergeable none o = false
mergeable (some i) o = i.free && i.order == o

-- A round of the loop of `merge_block`: the buddy leaves its list, and the first of the two takes
-- the room of both.
pub merge_once : Heap → ℕ → ℕ → Heap
merge_once h p o =
    let first = eldest p o in
    let lists = put_list h.free_lists o (remove (buddy p o) (h.free_lists o)) in
    let erased = put_info h.map (map_key (buddy first o)) none in
    set_info (record h { free_lists = lists; map = erased }) first
      (with_order (erased (map_key first)) (o + 1))

-- `merge_block`, with `left` orders to `max_order`: the block, its order and the heap
pub merge_block : Heap → ℕ → ℕ → ℕ → ℕ × ℕ × Heap
unfolding merge_once
merge_block h p o zero = (p, o, h)
merge_block h p o (suc left) =
    let rest = merge_block (merge_once h p o) (eldest p o) (o + 1) left in
    if mergeable (h.map (map_key (buddy p o))) o then rest else (p, o, h)

abbrev pub register_merged : ℕ × ℕ × Heap → Heap
register_merged (p, o, h) = register_free_block h p o

abbrev pub free_found : Heap → ℕ → Option BlockInfo → Option Heap
free_found h p none = none
free_found h p (some i) =
    let t = record h { allocated_size = sub64 h.allocated_size (2 ^ i.order) } in
    some (register_merged (merge_block t p i.order (max_order - i.order)))

-- `free(p)`, where `p` is `none` for a null pointer
pub free : Heap → Option ℕ → Option Heap
unfolding merge_block
free h none = some h
free h (some p) = if ltb p h.end then free_found h p (h.map (map_key p)) else none
