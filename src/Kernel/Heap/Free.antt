-- ===== src/Kernel/Heap/Free.antt =====
-- free of src/kernel/heap_allocator.cpp, from the block of the caller to the merged free block.
use jsix.Prelude.{
  ℕ, zero, suc, ◌+◌, ◌-◌, ◌%◌, ◌^◌, ◌≤◌, ◌<◌, ◌≡◌, ◌≢◌, ◌⊎◌, ◌∙◌, inl, inr, refl, sym, subst, ◌/◌,
  ap, Bool, true, false, Option, none, some, ltb, if◌then◌else◌, arith, Bool-cases, sub64,
}
use jsix.Prelude.Powers.{pow_32, pow_pos, pow_suc, even_of_aligned}
use jsix.Kernel.Heap.{
  Heap, BlockInfo, map_key, buddy, eldest, mergeable, merge_once, merge_block, register_merged,
  register_free_block, free_found, free,
}
use jsix.Kernel.Heap.Inv.{IsHeap, register-IsHeap, counted-IsHeap}
use jsix.Kernel.Heap.Split.{buddy-first, key_back, held_aligned, held_bound}
use native.Mathlib.Nat.{add-div_right}
use jsix.Kernel.Heap.Merge.{buddy-AreHalves}
use jsix.Kernel.Heap.Merging.{
  KeepsOthers, is_used, IsMerging, merge_once-IsMerging, merge_block-IsMerging,
}

-- A block in use can be held.
held-used :
    (h : Heap) (p o : ℕ)
    → IsHeap h none
    → h.map (map_key p) ≡ some (record { order = o; free = false })
    → IsHeap h (some p)
held-used h p o v e = record {
  aligned_end = v.aligned_end;
  small = v.small;
  ranged = v.ranged;
  aligned = v.aligned;
  inside = v.inside;
  apart = v.apart;
  listed = λ q r. ground (arith, v.listed q r, e);
}

is_below : (a b : ℕ) → a < b → ltb a b ≡ true
is_below a b h = ground arith

-- Two blocks of order `r` that are the halves of an aligned block.
abbrev pub AreBuddies : ℕ → ℕ → ℕ → Type 0
AreBuddies r q b =
    ((q % 2 ^ (r + 1) ≡ 0) × (b ≡ q + 2 ^ r)) ⊎ ((b % 2 ^ (r + 1) ≡ 0) × (q ≡ b + 2 ^ r))

-- The block `p` of order `o` lies in a free block that is as large as it can be: it has the largest
-- order, or its buddy is not a free block of its order.
pub record IsJoined (p o : ℕ) (t : Heap) : Type 0 where
  pub first : ℕ
  pub order : ℕ
  pub entry : t.map (map_key first) ≡ some (record { order = order; free = true })
  pub starts : first ≤ p
  pub ends : p + 2 ^ o ≤ first + 2 ^ order
  pub alone :
      (order ≡ 22)
      ⊎ ((b : ℕ)
          → AreBuddies order first b
          → t.map (map_key b) ≢ some (record { order = order; free = true }))

-- What the loop of `merge_block` ends with, for the block `p0` of order `o0`.
record IsMaximal (p0 o0 : ℕ) (t : Heap) (q r : ℕ) : Type 0 where
  starts : q ≤ p0
  ends : p0 + 2 ^ o0 ≤ q + 2 ^ r
  stops : (r ≡ 22) ⊎ (mergeable (t.map (map_key (buddy q r))) r ≡ false)

eldest_covers :
    (p0 o0 p o : ℕ)
    → p % 2 ^ o ≡ 0
    → p ≤ p0
    → p0 + 2 ^ o0 ≤ p + 2 ^ o
    → (eldest p o ≤ p0) × (p0 + 2 ^ o0 ≤ eldest p o + 2 ^ (o + 1))
eldest_covers p0 o0 p o aligned starts ends =
    let a = buddy-AreHalves p o aligned in
    elim a.halves [
      | inl (x, y) ↦ (omega (arith, x, starts), omega (arith, x, ends, pow_suc o))
      | inr (x, y) ↦
          (omega (arith, x, a.second, starts), omega (arith, x, a.second, ends, pow_suc o))
    ]

merge_block-IsMaximal :
    (h t : Heap) (p0 o0 p o left : ℕ)
    → p0 % 32 ≡ 0
    → p0 < 2 ^ 37
    → IsMerging h p0 t p o
    → p ≤ p0
    → p0 + 2 ^ o0 ≤ p + 2 ^ o
    → o + left ≡ 22
    → let (q, r, u) = merge_block t p o left in IsMaximal p0 o0 u q r
unfolding merge_block
merge_block-IsMaximal h t p0 o0 p o zero start below v starts ends high = record {
  starts = starts;
  ends = ends;
  stops = inl (omega (arith, high));
}
merge_block-IsMaximal h t p0 o0 p o (suc left) start below v starts ends high =
    elim (Bool-cases (mergeable (t.map (map_key (buddy p o))) o)) [
      | inl e ↦
          let (starts', ends') = eldest_covers p0 o0 p o (held_aligned t p o v.held) starts ends in
          rw e (
            merge_block-IsMaximal h (merge_once t p o) p0 o0 (eldest p o) (o + 1) left start below
              (merge_once-IsMerging h t p0 p o start below v (omega arith) e) starts' ends'
              (omega arith))
      | inr e ↦ rw e (record { starts = starts; ends = ends; stops = inr e })
    ]

buddies-eq : (q b r : ℕ) → AreBuddies r q b → buddy q r ≡ b
buddies-eq q b r (inl (low, e)) = buddy-first q r low ∙ sym e
buddies-eq q b r (inr (low, e)) =
    let after : (b + 2 ^ r) / 2 ^ r ≡ b / 2 ^ r + 1 = add-div_right b (pow_pos r) in
    let odd : q / 2 ^ r % 2 ≡ 1 = rw (e, after) (omega (arith, even_of_aligned b r low)) in
    ground (arith, odd, e)

-- A block that is free is of one that can be merged.
free_mergeable :
    (m : Option BlockInfo) (r : ℕ)
    → m ≡ some (record { order = r; free = true })
    → mergeable m r ≡ true
free_mergeable m r e = rw e (ground arith)

registered_entry :
    (u : Heap) (q r : ℕ)
    → (register_free_block u q r).map (map_key q) ≡ some (record { order = r; free = true })
unfolding register_free_block
registered_entry u q r = ground arith

registered_other :
    (u : Heap) (q r k : ℕ) → k ≢ map_key q → (register_free_block u q r).map k ≡ u.map k
unfolding register_free_block
registered_other u q r k ne = ground (arith, ne)

registered-IsJoined :
    (h u : Heap) (p0 o0 q r : ℕ)
    → IsMerging h p0 u q r
    → IsMaximal p0 o0 u q r
    → IsJoined p0 o0 (register_free_block u q r)
registered-IsJoined h u p0 o0 q r v m = record {
  first = q;
  order = r;
  entry = registered_entry u q r;
  starts = m.starts;
  ends = m.ends;
  alone = elim m.stops [
    | inl top ↦ inl top
    | inr stops ↦ inr (λ b pair is_free.
        let bound = held_bound u q r v.held in
        let same = buddies-eq q b r pair in
        let start_b : b % 32 ≡ 0 = ground (arith, pair, pow_32 r v.low, v.held.start) in
        let below_b : b < 2 ^ 37 = ground (arith, pair, bound, v.held.heap.small, v.held.low) in
        let apart : map_key b ≢ map_key q = λ z. ground (
          arith,
          pair,
          z,
          key_back b start_b below_b,
          key_back q v.held.start v.held.low,
          pow_pos r,
        ) in
        let still = sym (registered_other u q r (map_key b) apart) ∙ is_free in
        let can = free_mergeable (u.map (map_key b)) r still in
        both (mergeable (u.map (map_key b)) r) can
          (subst (λ x. mergeable (u.map (map_key x)) r ≡ false) same stops))
  ];
}
  where
    both : (b : Bool) → b ≡ true → ¬ (b ≡ false)
    both b x y = ground (arith, x, y)

-- What `free` leaves: a valid heap, in which the block is not in use and the others are as before, and
-- in which the block is joined with its free buddies.
pub record IsFreed (h : Heap) (p o : ℕ) (t : Heap) : Type 0 where
  pub heap : IsHeap t none
  pub keeps : KeepsOthers h (map_key p) t
  pub gone : is_used (t.map (map_key p)) ≡ false
  pub merged : IsJoined p o t

abbrev Merged : Heap → ℕ → ℕ → ℕ × ℕ × Heap → Type 0
Merged h p o0 (q, o, t) = IsMerging h p t q o × IsMaximal p o0 t q o

register_merged-IsFreed :
    (h : Heap) (p o0 : ℕ)
    → p % 32 ≡ 0
    → p < 2 ^ 37
    → (m : ℕ × ℕ × Heap) → Merged h p o0 m
    → IsFreed h p o0 (register_merged m)
unfolding register_free_block
register_merged-IsFreed h p o0 start below (q, o, t) (v, w) = record {
  heap = register-IsHeap t q o v.held;
  keeps = λ k r ne used. ground (arith, v.keeps k r ne used, v.apart k r ne used);
  gone = ground (arith, v.gone, key_back p start below);
  merged = registered-IsJoined h t p o0 q o v w;
}

-- Freeing a block in use succeeds and leaves a valid heap, in which the block is no longer in use, by
-- itself or as part of a larger free one, and every other block that was in use still is, with the
-- same order. The free block that it is part of has the largest order, or its buddy, the other half of
-- the block of the next order, is not a free block of the same order.
pub free-outcome :
    (h : Heap) (p o : ℕ)
    → IsHeap h none
    → p % 32 ≡ 0
    → p < h.end
    → h.map (map_key p) ≡ some (record { order = o; free = false })
    → (t : Heap) × (free h (some p) ≡ some t) × IsFreed h p o t
unfolding free
free-outcome h p o v start inside e =
    let u = record h { allocated_size = sub64 h.allocated_size (2 ^ o) } in
    let w = counted-IsHeap h (sub64 h.allocated_size (2 ^ o)) v in
    let below : p < 2 ^ 37 = omega (arith, v.small) in
    let range : (5 ≤ o) × (o ≤ 22) =
      (ground (arith, v.ranged (map_key p), e), ground (arith, v.ranged (map_key p), e)) in
    let first : IsMerging h p u p o = record {
      held = record {
        heap = held-used u p o w e;
        start = start;
        low = below;
        free = false;
        entry = e;
      };
      low = range.0;
      keeps = λ k r ne used. used;
      apart = λ k r ne used. ne;
      gone = inl refl;
    } in
    (
      register_merged (merge_block u p o (22 - o)),
      ap (λ b. if b then free_found h p (h.map (map_key p)) else none) (is_below p h.end inside)
          ∙ ap (free_found h p) e,
      register_merged-IsFreed h p o start below (merge_block u p o (22 - o)) (
        merge_block-IsMerging h u p p o (22 - o) start below first (omega (arith, range.1)),
        merge_block-IsMaximal h u p o p o (22 - o) start below first (omega arith) (omega arith)
            (omega (arith, range.1)),
      ),
    )
