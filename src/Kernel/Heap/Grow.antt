-- ===== src/Kernel/Heap/Grow.antt =====
-- new_block of src/kernel/heap_allocator.cpp: the heap grows at its end.
use jsix.Prelude.{
  ℕ, zero, suc, ◌+◌, ◌*◌, ◌%◌, ◌^◌, ◌≤◌, ◌<◌, ◌≡◌, ◌⊎◌, inl, inr, refl, ap, Bool, true, false,
  Option, none, some, ltb, arith, Bool-cases, if_eq_self,
}
use jsix.Prelude.Powers.{pow_32, pow_pos, pow_le}
use jsix.Kernel.Heap.{
  Heap, BlockInfo, map_key, set_info, address_order, align_end, add_free, new_block, add_used,
  register_free_block,
}
use jsix.Kernel.Heap.Inv.{IsHeap, IsHeld, Keeps, used-IsHeap, size_of}
use jsix.Kernel.Heap.Split.{key_back}
use jsix.Kernel.Heap.Orders.{
  address_order-low, address_order-le, address_order-mod, address_order-rises, at_least,
}

sized : (m : Option BlockInfo) → (m ≡ none) ⊎ (0 < size_of m)
sized none = inl refl
sized (some i) = inr (pow_pos i.order)

-- A block of any order that the end is aligned to can be added there, in use and held by nobody.
module _ (h : Heap) (o : ℕ) (v : IsHeap h none) (low : 5 ≤ o) (high : o ≤ 22)
    (fits : h.end % 2 ^ o ≡ 0) (room : h.end + 2 ^ o < 2 ^ 37) where
  abbrev grown : Bool → Heap
  grown f = record (set_info h h.end (record { order = o; free = f })) { end = h.end + 2 ^ o }

  key_end : map_key h.end * 32 ≡ h.end
  key_end = key_back h.end v.aligned_end v.small

  no_end : h.map (map_key h.end) ≡ none
  no_end = ground (arith, v.inside (map_key h.end), sized (h.map (map_key h.end)), key_end)

  grown-IsHeld : (f : Bool) → IsHeld (grown f) h.end o
  grown-IsHeld f = record {
    heap = record {
      aligned_end = omega (arith, v.aligned_end, pow_32 o low);
      small = room;
      ranged = λ k. ground (arith, v.ranged k);
      aligned = λ k. ground (arith, v.aligned k, ap (λ x. x % 2 ^ o) key_end, fits);
      inside = λ k. ground (arith, v.inside k, key_end);
      apart = λ k j lt near.
          ground (arith, v.apart k j lt, v.inside k, v.inside j, key_end, no_end, pow_pos o);
      listed = λ q r. ground (arith, v.listed q r, no_end, key_end, v.aligned_end);
    };
    start = v.aligned_end;
    low = v.small;
    free = f;
    entry = if_eq_self (map_key h.end) _ _;
  }

add_free-IsHeap :
    (h : Heap) (o : ℕ)
    → IsHeap h none
    → 5 ≤ o
    → o ≤ 22
    → h.end % 2 ^ o ≡ 0
    → h.end + 2 ^ o < 2 ^ 37
    → IsHeap (add_free h o) none
unfolding add_free register_free_block
add_free-IsHeap h o v low high fits room =
    let w = (grown-IsHeld h o v low high fits room true).heap in
    let key = key_end h o v low high fits room in
    let new = no_end h o v low high fits room in
    record {
      aligned_end = w.aligned_end;
      small = w.small;
      ranged = w.ranged;
      aligned = w.aligned;
      inside = w.inside;
      apart = w.apart;
      listed = λ q r. ground (arith, v.listed q r, new, key, v.aligned_end, v.small);
    }

-- Growing changes no entry of the heap.
abbrev pub Extends : Heap → Heap → Type 0
Extends h t = (k : ℕ) → (h.map k ≡ none) ⊎ (t.map k ≡ h.map k)

-- Where `align_end` ends: the end is aligned to the order, or the fuel was not enough.
pub record IsAligned (h t : Heap) (o fuel : ℕ) : Type 0 where
  pub heap : IsHeap t none
  pub extends : Extends h t
  pub grows : h.end ≤ t.end
  pub near : t.end ≤ h.end + fuel * 2 ^ 22
  pub enough : (o ≤ address_order t.end) ⊎ (address_order h.end + fuel < o)

add_free_room :
    (h : Heap) (c fuel : ℕ)
    → h.end + 2 ^ c + fuel * 2 ^ 22 < 2 ^ 37
    → (add_free h c).end + fuel * 2 ^ 22 < 2 ^ 37
unfolding add_free
add_free_room h c fuel r = r

IsAligned-round :
    (h t : Heap) (o fuel : ℕ)
    → address_order h.end < o
    → o ≤ 22
    → h.map (map_key h.end) ≡ none
    → IsAligned (add_free h (address_order h.end)) t o fuel
    → IsAligned h t o (suc fuel)
unfolding add_free register_free_block
IsAligned-round h t o fuel less high new v =
    let c = address_order h.end in
    let step = pow_le c 22 (address_order-le h.end) in
    record {
      heap = v.heap;
      extends = λ k. ground (arith, v.extends k, new);
      grows = omega (arith, v.grows);
      near = omega (arith, v.near, step);
      enough = ground (arith, v.enough, address_order-rises h.end (omega arith));
    }

pub align_end-IsAligned :
    (fuel : ℕ) (h : Heap) (o : ℕ)
    → IsHeap h none
    → o ≤ 22
    → h.end + fuel * 2 ^ 22 < 2 ^ 37
    → IsAligned h (align_end fuel h o) o fuel
unfolding align_end
align_end-IsAligned zero h o v high room = record {
  heap = v;
  extends = λ k. inr refl;
  grows = omega arith;
  near = omega arith;
  enough = ground arith;
}
align_end-IsAligned (suc fuel) h o v high room =
    let c = address_order h.end in
    let low_c = address_order-low h.end v.aligned_end in
    let high_c = address_order-le h.end in
    let fits = address_order-mod h.end in
    let room_c : h.end + 2 ^ c < 2 ^ 37 = omega (arith, pow_le c 22 high_c) in
    let step = pow_le c 22 high_c in
    elim (Bool-cases (ltb c o)) [
      | inr e ↦ rw e (record {
        heap = v;
        extends = λ k. inr refl;
        grows = omega arith;
        near = omega arith;
        enough = inl (ground (arith, e));
      })
      | inl e ↦ rw e (
          IsAligned-round h (align_end fuel (add_free h c) o) o fuel (ground (arith, e)) high
            (no_end h c v low_c high_c fits room_c)
            (align_end-IsAligned fuel (add_free h c) o
              (add_free-IsHeap h c v low_c high_c fits room_c) high
              (add_free_room h c fuel (omega arith))))
    ]

-- What an allocation made of heap `h`.
pub record IsAllocated (h t : Heap) (p o : ℕ) : Type 0 where
  pub heap : IsHeap t none
  pub entry : t.map (map_key p) ≡ some (record { order = o; free = false })
  pub start : p % 32 ≡ 0
  pub below : p < 2 ^ 37
  pub keeps : Keeps h t p

-- A block in use at an aligned end.
add_used-IsAllocated :
    (h : Heap) (o : ℕ)
    → IsHeap h none
    → 5 ≤ o
    → o ≤ 22
    → h.end % 2 ^ o ≡ 0
    → h.end + 2 ^ o < 2 ^ 37
    → IsAllocated h (add_used h o).1 (add_used h o).0 o
unfolding add_used
add_used-IsAllocated h o v low high fits room =
    let w = grown-IsHeld h o v low high fits room false in
    let new = no_end h o v low high fits room in
    let entry : (grown h o v low high fits room false).map (map_key h.end)
        ≡ some (record { order = o; free = false }) =
      if_eq_self (map_key h.end) _ _ in
    record {
      heap = used-IsHeap (grown h o v low high fits room false) h.end o w.heap entry;
      entry = entry;
      start = v.aligned_end;
      below = v.small;
      keeps = λ k r used. (λ same. cc (ap h.map same, used, new), ground (arith, used, new));
    }

IsAllocated-extended :
    (h t u : Heap) (p o : ℕ) → Extends h t → IsAllocated t u p o → IsAllocated h u p o
IsAllocated-extended h t u p o more v = record {
  heap = v.heap;
  entry = v.entry;
  start = v.start;
  below = v.below;
  keeps = λ k r used. v.keeps k r (ground (arith, more k, used));
}

enough_fuel : (o c d : ℕ) → o ≤ 22 → (o ≤ d) ⊎ (c + 22 < o) → o ≤ d
enough_fuel o c d high h = ground arith

-- The loop of `new_block` ends: on a valid heap that is 96 MB short of 128 GB, and for an order of at
-- most `max_order`, its condition no longer holds after at most 22 rounds.
pub align_end_stops :
    (h : Heap) (o : ℕ)
    → IsHeap h none
    → o ≤ 22
    → h.end + 23 * 2 ^ 22 < 2 ^ 37
    → ltb (address_order (align_end 22 h o).end) o ≡ false
align_end_stops h o v high room =
    let t = align_end 22 h o in
    let w = align_end-IsAligned 22 h o v high (omega arith) in
    let stops = enough_fuel o (address_order h.end) (address_order t.end) high w.enough in
    ground arith

-- `new_block` gives a new block of the order asked for; the heap must be 96 MB short of 128 GB.
pub new_block-IsAllocated :
    (h : Heap) (o : ℕ)
    → IsHeap h none
    → 5 ≤ o
    → o ≤ 22
    → h.end + 23 * 2 ^ 22 < 2 ^ 37
    → IsAllocated h (new_block h o).1 (new_block h o).0 o
unfolding new_block
new_block-IsAllocated h o v low high room =
    let t = align_end 22 h o in
    let w = align_end-IsAligned 22 h o v high (omega arith) in
    let fits : t.end % 2 ^ o ≡ 0 =
      at_least t.end o (enough_fuel o (address_order h.end) (address_order t.end) high w.enough) in
    IsAllocated-extended h t (add_used t o).1 (add_used t o).0 o w.extends
      (add_used-IsAllocated t o w.heap low high fits (omega (arith, w.near, pow_le o 22 high)))
