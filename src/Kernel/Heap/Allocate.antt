-- ===== src/Kernel/Heap/Allocate.antt =====
-- allocate of src/kernel/heap_allocator.cpp.
use jsix.Prelude.{
  ℕ, ◌+◌, ◌-◌, ◌*◌, ◌^◌, ◌≤◌, ◌<◌, ◌==◌, ◌≡◌, ◌⊎◌, ◌∙◌, inl, inr, ap, true, false, Option, none,
  some, ltb, leb, if◌then◌else◌, arith, Bool-cases, if_eq_self, add64,
}
use jsix.Prelude.Powers.{pow_le}
use jsix.Kernel.Heap.{
  Heap, map_key, taken, take_block, take_found, allocate_order, block_if, allocate, order_of,
  pop_free, split_off, new_block, max_order,
}
use jsix.Util.Log.{log2, log2-bound, log2-le}
use jsix.Kernel.Heap.Inv.{
  IsHeap, IsFrom, IsFound, pop_free-IsFound, take_block-IsHeap, counted-IsHeap,
}
use jsix.Kernel.Heap.Split.{split_off-IsFound, key_back}
use jsix.Kernel.Heap.Grow.{IsAllocated, new_block-IsAllocated}

take_block-IsAllocated :
    (h t : Heap) (p o : ℕ) → IsFrom h t p o → IsAllocated h (take_block (p, t)).1 p o
take_block-IsAllocated h t p o w =
    let v = w.held in
    let made : taken (t.map (map_key p)) ≡ record { order = o; free = false } = ap taken v.entry in
    record {
      heap = take_block-IsHeap t p o v;
      entry = if_eq_self (map_key p) _ _ ∙ ap some made;
      start = v.start;
      below = v.low;
      keeps = λ k r used. ground (arith, w.keeps k r used);
    }

abbrev Allocated : Heap → ℕ → ℕ × Heap → Type 0
Allocated h o (p, t) = IsAllocated h t p o

take_found-Allocated :
    (h : Heap) (o : ℕ) (popped split : Option (ℕ × Heap)) (fresh : ℕ × Heap)
    → IsFound h o popped
    → IsFound h o split
    → Allocated h o fresh
    → Allocated h o (take_found popped split fresh)
take_found-Allocated h o (some (p, t)) split fresh a b c = take_block-IsAllocated h t p o a
take_found-Allocated h o none (some (p, t)) fresh a b c = take_block-IsAllocated h t p o b
take_found-Allocated h o none none (p, t) a b c = c

recounted :
    (h t : Heap) (n p o : ℕ)
    → IsAllocated (record h { allocated_size = n }) t p o
    → IsAllocated h t p o
recounted h t n p o v = record {
  heap = v.heap;
  entry = v.entry;
  start = v.start;
  below = v.below;
  keeps = v.keeps;
}

pub allocate_order-IsAllocated :
    (h : Heap) (o : ℕ)
    → IsHeap h none
    → 5 ≤ o
    → o ≤ 22
    → h.end + 23 * 2 ^ 22 < 2 ^ 37
    → IsAllocated h (allocate_order h o).1 (allocate_order h o).0 o
unfolding allocate_order
allocate_order-IsAllocated h o v low high room =
    let n = add64 h.allocated_size (2 ^ o) in
    let t = record h { allocated_size = n } in
    let w = counted-IsHeap h n v in
    let r = take_found (pop_free t o) (split_off t o (max_order - o)) (new_block t o) in
    recounted h r.1 n r.0 o (
      take_found-Allocated t o (pop_free t o) (split_off t o (max_order - o)) (new_block t o)
        (pop_free-IsFound t o w) (split_off-IsFound t o (max_order - o) low w)
        (new_block-IsAllocated t o w low high room))

order_of-bounds :
    (length : ℕ) → length ≤ 2 ^ 64 → (length ≤ 2 ^ order_of length) × (5 ≤ order_of length)
unfolding order_of
order_of-bounds length h = elim (Bool-cases (ltb (log2 length) 5)) [
  | inl e ↦
      rw e (
        omega (arith, log2-bound length h, pow_le (log2 length) 5 (ground (arith, e))),
        omega arith,
      )
  | inr e ↦ rw e (log2-bound length h, ground (arith, e))
]

order_of-le : (length : ℕ) → length ≤ 2 ^ 22 → order_of length ≤ 22
unfolding order_of
order_of-le length h = ground (arith, log2-le length 22 h)

order_of-large : (length : ℕ) → length ≤ 2 ^ 64 → 2 ^ 22 < length → 22 < order_of length
order_of-large length small h = elim (Bool-cases (ltb 22 (order_of length))) [
  | inl e ↦ ground (arith, e)
  | inr e ↦ absurd (
      omega
        (arith, (order_of-bounds length small).0, pow_le (order_of length) 22 (ground (arith, e))))
]

sizes : (n : ℕ) → (n ≡ 0) ⊎ (2 ^ 22 < n) ⊎ ((0 < n) × (n ≤ 2 ^ 22))
sizes n = ground arith

not_null : (n : ℕ) → 0 < n → (n == 0) ≡ false
not_null n h = ground arith

too_large : (o : ℕ) → 22 < o → leb o 22 ≡ false
too_large o h = ground arith

small_enough : (o : ℕ) → o ≤ 22 → leb o 22 ≡ true
small_enough o h = ground arith

allocate_null : (h : Heap) (length : ℕ) → length ≡ 0 → allocate h length ≡ some (none, h)
unfolding allocate
allocate_null h length e = ground arith

allocate_large :
    (h : Heap) (length : ℕ) → 22 < order_of length → 2 ^ 22 < length → allocate h length ≡ none
unfolding allocate
allocate_large h length high large =
    let made = allocate_order h (order_of length) in
    ap (λ b. if b then some (none, h) else block_if (leb (order_of length) max_order) made)
      (not_null length (omega arith))
    ∙ ap (λ b. block_if b made) (too_large (order_of length) high)

allocate_fits :
    (h : Heap) (length : ℕ)
    → 0 < length
    → order_of length ≤ 22
    → allocate h length
      ≡ some (some (allocate_order h (order_of length)).0, (allocate_order h (order_of length)).1)
unfolding allocate
allocate_fits h length more fits =
    let made = allocate_order h (order_of length) in
    ap (λ b. if b then some (none, h) else block_if (leb (order_of length) max_order) made)
      (not_null length more)
    ∙ ap (λ b. block_if b made) (small_enough (order_of length) fits)

-- A block lies inside the heap, and off the blocks that were in use.
allocated_inside : (h t : Heap) (p o : ℕ) → IsAllocated h t p o → p + 2 ^ o ≤ t.end
allocated_inside h t p o v =
    ground (arith, v.heap.inside (map_key p), v.entry, key_back p v.start v.below)

allocated_apart :
    (h t : Heap) (p o k r : ℕ)
    → IsAllocated h t p o
    → h.map k ≡ some (record { order = r; free = false })
    → (k * 32 + 2 ^ r ≤ p) ⊎ (p + 2 ^ o ≤ k * 32)
allocated_apart h t p o k r v used = ground (
  arith,
  v.heap.apart k (map_key p),
  v.heap.apart (map_key p) k,
  v.keeps k r used,
  v.entry,
  key_back p v.start v.below,
)

-- The block that `allocate` gives has room for the length.
pub record Gives (h : Heap) (length : ℕ) (result : Option (Option ℕ × Heap)) : Type 0 where
  pub block : ℕ
  pub after : Heap
  pub returned : result ≡ some (some block, after)
  pub room : length ≤ 2 ^ order_of length
  pub allocated : IsAllocated h after block (order_of length)
  pub inside : block + 2 ^ order_of length ≤ after.end
  pub apart :
      (k r : ℕ)
      → h.map k ≡ some (record { order = r; free = false })
      → (k * 32 + 2 ^ r ≤ block) ⊎ (block + 2 ^ order_of length ≤ k * 32)

-- `allocate` on a valid heap that is 96 MB short of 128 GB: length 0 gives a null pointer, and a
-- length above 4 MB fails a `kassert`, with no other effect; any other length gives a block with room
-- for it, which lies inside the heap and apart from every block that was in use, and leaves the heap
-- valid. The block's entry says that it is in use, it was not in use before, and each block that was
-- in use still is, with the same order.
pub allocate-outcome :
    (h : Heap) (length : ℕ)
    → IsHeap h none
    → length ≤ 2 ^ 64
    → h.end + 23 * 2 ^ 22 < 2 ^ 37
    → ((length ≡ 0) × (allocate h length ≡ some (none, h)))
      ⊎ ((2 ^ 22 < length) × (allocate h length ≡ none))
      ⊎ Gives h length (allocate h length)
allocate-outcome h length v size room = elim (sizes length) [
  | inl zero_length ↦ inl (zero_length, allocate_null h length zero_length)
  | inr (inl large) ↦
      inr (inl (large, allocate_large h length (order_of-large length size large) large))
  | inr (inr (some_length, small)) ↦
      let o = order_of length in
      let (bound, low) = order_of-bounds length size in
      let high = order_of-le length small in
      let made = allocate_order-IsAllocated h o v low high room in
      let inside = allocated_inside h (allocate_order h o).1 (allocate_order h o).0 o made in
      inr (
        inr (record {
          block = (allocate_order h o).0;
          after = (allocate_order h o).1;
          returned = allocate_fits h length some_length high;
          room = bound;
          allocated = made;
          inside = inside;
          apart = λ k r used.
              allocated_apart h (allocate_order h o).1 (allocate_order h o).0 o k r made used;
        }))
]
