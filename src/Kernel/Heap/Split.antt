-- ===== src/Kernel/Heap/Split.antt =====
-- split_off of src/kernel/heap_allocator.cpp: a larger block is cut in halves.
use jsix.Prelude.{
  ℕ, zero, suc, ◌+◌, ◌*◌, ◌%◌, ◌^◌, ◌≤◌, ◌<◌, ◌≡◌, ◌∙◌, sym, ap, subst, true, Option, none, some,
  ◌∷◌, if◌then◌else◌, arith, if_eq_self,
}
use jsix.Prelude.Occur.{count}
use jsix.Prelude.Powers.{pow_32, pow_pos, pow_suc, even_of_aligned, aligned_half, aligned_second}
use jsix.Kernel.Heap.{
  Heap, map_key, put_info, put_list, set_info, buddy, with_order, split_at, split_found, split_off,
  register_free_block, pop_free,
}
use jsix.Kernel.Heap.Inv.{
  IsHeap, IsHeld, IsFrom, IsFound, pop_free-IsFound, size_of, offset_in, listed_as, is_held,
  can_start,
}

-- the buddy of the first half of a block is the second half
pub buddy-first : (p o : ℕ) → p % 2 ^ (o + 1) ≡ 0 → buddy p o ≡ p + 2 ^ o
buddy-first p o h = ground (arith, even_of_aligned p o h)

pub held_aligned : (h : Heap) (p o : ℕ) → IsHeld h p o → p % 2 ^ o ≡ 0
held_aligned h p o v =
    let same : map_key p * 32 ≡ p = ground (arith, v.start, v.low) in
    ap (λ x. x % 2 ^ o) (sym same)
    ∙ ap (offset_in (map_key p * 32)) (sym v.entry)
    ∙ v.heap.aligned (map_key p)

pub held_bound : (h : Heap) (p o : ℕ) → IsHeld h p o → p + 2 ^ o ≤ h.end
held_bound h p o v = ground (arith, v.heap.inside (map_key p), v.entry, v.start, v.low)

-- An address of the heap and its key.
pub key_back : (p : ℕ) → p % 32 ≡ 0 → p < 2 ^ 37 → map_key p * 32 ≡ p
key_back p a b = omega arith

-- `split_at`, with the second half and its entry written out
module _ (h : Heap) (p o b : ℕ) (v : IsHeld h p (o + 1)) (big : 5 ≤ o)
    (second : b ≡ p + 2 ^ o) where
  abbrev halved : Heap
  halved = record h {
    free_lists = put_list h.free_lists o (b ∷ h.free_lists o);
    map =
        put_info (put_info h.map (map_key b) (some (record { order = o; free = true }))) (map_key p)
          (some (record { order = o; free = v.free }));
  }

  bound_b : b + 2 ^ o ≤ h.end
  bound_b = omega (arith, held_bound h p (o + 1) v, pow_suc o)

  start_b : b % 32 ≡ 0
  start_b = omega (arith, pow_32 o big, v.start)

  key_b : map_key b * 32 ≡ b
  key_b = key_back b start_b (omega (arith, bound_b, v.heap.small))

  key_p : map_key p * 32 ≡ p
  key_p = key_back p v.start v.low

  order_keys : map_key p < map_key b
  order_keys = omega (arith, key_b, key_p, second, pow_pos o)

  no_b : h.map (map_key b) ≡ none
  no_b =
      v.heap.apart (map_key p) (map_key b) order_keys
        (ground (arith, key_b, key_p, v.entry, pow_suc o, pow_pos o))

  halved-aligned : (k : ℕ) → offset_in (k * 32) (halved.map k) ≡ 0
  halved-aligned k =
      let half = aligned_half p o (held_aligned h p (o + 1) v) in
      let first : map_key p * 32 % 2 ^ o ≡ 0 = ap (λ x. x % 2 ^ o) key_p ∙ half in
      let other : map_key b * 32 % 2 ^ o ≡ 0 =
        ap (λ x. x % 2 ^ o) (key_b ∙ second) ∙ aligned_second p o half in
      ground (arith, v.heap.aligned k, first, other)

  halved-apart : (k j : ℕ) → k < j → j * 32 < k * 32 + size_of (halved.map k) → halved.map j ≡ none
  halved-apart k j lt near = ground (
    arith,
    v.heap.apart k j lt,
    v.heap.apart (map_key p) j,
    v.heap.apart k (map_key p),
    v.heap.apart (map_key p) k,
    v.entry,
    key_p,
    key_b,
    no_b,
    pow_suc o,
    order_keys,
  )

  halved-listed :
      (q r : ℕ)
      → count q (halved.free_lists r) ≡ (
          if is_held (some p) q
          then 0
          else (if can_start q then listed_as (halved.map (map_key q)) r else 0))
  halved-listed q r =
      ground
        (arith, v.heap.listed q r, v.entry, v.start, v.low, key_b, key_p, no_b, order_keys, start_b)

  halved-IsHeld : IsHeld halved p o
  halved-IsHeld = record {
    heap = record {
      aligned_end = v.heap.aligned_end;
      small = v.heap.small;
      ranged = λ k. ground (arith, v.heap.ranged k, v.heap.ranged (map_key p), v.entry);
      aligned = halved-aligned;
      inside = λ k. ground (arith, v.heap.inside k, bound_b, v.entry, key_p, key_b, second);
      apart = halved-apart;
      listed = halved-listed;
    };
    start = v.start;
    low = v.low;
    free = v.free;
    entry = if_eq_self (map_key p) _ _;
  }

-- Splitting a held block of the next order leaves its first half held.
pub split_at-IsFrom :
    (h t : Heap) (p o : ℕ) → IsFrom h t p (o + 1) → 5 ≤ o → IsFound h o (some (split_at o (p, t)))
unfolding split_at register_free_block
split_at-IsFrom h t p o w big =
    let v = w.held in
    let b = buddy p o in
    let second = buddy-first p o (held_aligned t p (o + 1) v) in
    let less = order_keys t p o b v big second in
    let new = no_b t p o b v big second in
    let kept : with_order
          (put_info t.map (map_key b) (some (record { order = o; free = true })) (map_key p)) o
        ≡ record { order = o; free = v.free } =
      ground (arith, less, v.entry) in
    subst (λ i. IsFrom h (set_info (register_free_block t b o) p i) p o) (sym kept)
      (record {
        held = halved-IsHeld t p o b v big second;
        keeps = λ k r used. ground (arith, w.keeps k r used, new);
      })

split_found-IsFound :
    (h : Heap) (o : ℕ) (popped later : Option (ℕ × Heap))
    → 5 ≤ o
    → IsFound h (o + 1) popped
    → IsFound h (o + 1) later
    → IsFound h o (split_found o popped later)
split_found-IsFound h o none none big a b = tt
split_found-IsFound h o none (some (p, t)) big a b = split_at-IsFrom h t p o b big
split_found-IsFound h o (some (p, t)) later big a b = split_at-IsFrom h t p o a big

-- `split_off` only finds blocks of the order asked for, and keeps the heap valid.
pub split_off-IsFound :
    (h : Heap) (o left : ℕ) → 5 ≤ o → IsHeap h none → IsFound h o (split_off h o left)
unfolding split_off
split_off-IsFound h o zero big v = tt
split_off-IsFound h o (suc left) big v =
    split_found-IsFound h o (pop_free h (o + 1)) (split_off h (o + 1) left) big
      (pop_free-IsFound h (o + 1) v) (split_off-IsFound h (o + 1) left (omega arith) v)
