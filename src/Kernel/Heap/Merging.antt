-- ===== src/Kernel/Heap/Merging.antt =====
-- What the loop of merge_block in src/kernel/heap_allocator.cpp does to the blocks in use.
use jsix.Prelude.{
  ℕ, zero, suc, ◌+◌, ◌%◌, ◌^◌, ◌≤◌, ◌<◌, ◌≡◌, ◌≢◌, ◌⊎◌, inl, inr, ap, Bool, true, false, not,
  Option, none, some, arith, Bool-cases,
}
use jsix.Prelude.Powers.{pow_32, pow_pos}
use jsix.Kernel.Heap.{
  Heap, BlockInfo, map_key, put_info, buddy, eldest, with_order, mergeable, merge_once, merge_block,
}
use jsix.Kernel.Heap.Inv.{IsHeld}
use jsix.Kernel.Heap.Split.{key_back, held_aligned, held_bound}
use jsix.Kernel.Heap.Merge.{merge_once-IsHeld, mergeable-entry, AreHalves, buddy-AreHalves}

-- The blocks in use in `h`, except that of key `k0`, are in use in `t` as well.
abbrev pub KeepsOthers : Heap → ℕ → Heap → Type 0
KeepsOthers h k0 t =
    (k r : ℕ)
    → k ≢ k0
    → h.map k ≡ some (record { order = r; free = false })
    → t.map k ≡ some (record { order = r; free = false })

abbrev pub is_used : Option BlockInfo → Bool
is_used none = false
is_used (some i) = not i.free

-- `t` comes from `h` by freeing block `p0`, and `p`, of order `o`, is the merged block so far.
pub record IsMerging (h : Heap) (p0 : ℕ) (t : Heap) (p o : ℕ) : Type 0 where
  pub held : IsHeld t p o
  pub low : 5 ≤ o
  pub keeps : KeepsOthers h (map_key p0) t
  pub apart :
      (k r : ℕ)
      → k ≢ map_key p0
      → h.map k ≡ some (record { order = r; free = false })
      → k ≢ map_key p
  pub gone : (p0 ≡ p) ⊎ (is_used (t.map (map_key p0)) ≡ false)

-- The keys of two blocks are those of the halves.
abbrev Halves : ℕ → ℕ → ℕ → ℕ → Type 0
Halves p q e s = ((p ≡ e) × (q ≡ s)) ⊎ ((p ≡ s) × (q ≡ e))

not_first : (p q e s k : ℕ) → Halves p q e s → k ≢ p → k ≢ q → k ≢ e
not_first p q e s k halves a b = ground (arith, halves)

-- A merge changes no other entry.
merged_other :
    (t : Heap) (p q e s o k : ℕ) (m : Option BlockInfo)
    → Halves (map_key p) (map_key q) (map_key e) (map_key s)
    → k ≢ map_key p
    → k ≢ map_key q
    → t.map k ≡ m
    → put_info
        (put_info t.map (map_key s) none)
        (map_key e)
        (some (with_order (put_info t.map (map_key s) none (map_key e)) (o + 1)))
        k
      ≡ m
merged_other t p q e s o k m halves a b same = ground (arith, halves)

-- After a merge the freed block is not in use, or is the merged block.
gone_after :
    (t : Heap) (p0 p q e s o : ℕ)
    → p0 % 32 ≡ 0
    → p0 < 2 ^ 37
    → p % 32 ≡ 0
    → p < 2 ^ 37
    → q % 32 ≡ 0
    → q < 2 ^ 37
    → AreHalves p q e s o
    → t.map (map_key q) ≡ some (record { order = o; free = true })
    → Halves (map_key p) (map_key q) (map_key e) (map_key s)
    → (p0 ≡ p) ⊎ (is_used (t.map (map_key p0)) ≡ false)
    → (p0 ≡ e)
      ⊎ (is_used (
            put_info
              (put_info t.map (map_key s) none)
              (map_key e)
              (some (with_order (put_info t.map (map_key s) none (map_key e)) (o + 1)))
              (map_key p0))
          ≡ false)
gone_after t p0 p q e s o a b c d start_q below_q w free_q keys (inl same) = ground (
  arith,
  w.halves,
  w.second,
  pow_pos o,
  ap map_key same,
  key_back p c d,
  key_back q start_q below_q,
  keys,
)
gone_after t p0 p q e s o a b c d start_q below_q w free_q keys (inr unused) = ground (
  arith,
  w.halves,
  w.second,
  pow_pos o,
  key_back p0 a b,
  key_back p c d,
  key_back q start_q below_q,
  keys,
  free_q,
  unused,
)

pub merge_once-IsMerging :
    (h t : Heap) (p0 p o : ℕ)
    → p0 % 32 ≡ 0
    → p0 < 2 ^ 37
    → IsMerging h p0 t p o
    → o < 22
    → mergeable (t.map (map_key (buddy p o))) o ≡ true
    → IsMerging h p0 (merge_once t p o) (eldest p o) (o + 1)
unfolding merge_once
merge_once-IsMerging h t p0 p o start below v high m =
    let q = buddy p o in
    let e = eldest p o in
    let s = buddy e o in
    let a = buddy-AreHalves p o (held_aligned t p o v.held) in
    let free_q = mergeable-entry (t.map (map_key q)) o m in
    let keys : ((map_key p ≡ map_key e) × (map_key q ≡ map_key s))
        ⊎ ((map_key p ≡ map_key s) × (map_key q ≡ map_key e)) =
      elim a.halves [
        | inl (x, y) ↦ inl (ap map_key x, ap map_key y)
        | inr (x, y) ↦ inr (ap map_key x, ap map_key y)
      ] in
    let start_q : q % 32 ≡ 0 = ground (arith, a.halves, a.second, v.held.start, pow_32 o v.low) in
    let below_q : q < 2 ^ 37 =
      ground (arith, a.halves, a.second, held_bound t p o v.held, v.held.heap.small) in
    record {
      held = merge_once-IsHeld t p o v.held v.low high m;
      low = omega (arith, v.low);
      keeps = λ k r ne used.
          let still = v.keeps k r ne used in
          let other = v.apart k r ne used in
          merged_other t p q e s o k (some (record { order = r; free = false })) keys other
            (λ same. cc (ap t.map same, still)) still;
      apart = λ k r ne used.
          let still = v.keeps k r ne used in
          let other = v.apart k r ne used in
          not_first (map_key p) (map_key q) (map_key e) (map_key s) k keys other
            (λ same. cc (ap t.map same, still));
      gone =
          gone_after t p0 p q e s o start below v.held.start v.held.low start_q below_q a free_q
            keys v.gone;
    }

pub merge_block-IsMerging :
    (h t : Heap) (p0 p o left : ℕ)
    → p0 % 32 ≡ 0
    → p0 < 2 ^ 37
    → IsMerging h p0 t p o
    → o + left ≡ 22
    → let (q, r, u) = merge_block t p o left in IsMerging h p0 u q r
unfolding merge_block
merge_block-IsMerging h t p0 p o zero start below v high = v
merge_block-IsMerging h t p0 p o (suc left) start below v high =
    elim (Bool-cases (mergeable (t.map (map_key (buddy p o))) o)) [
      | inl e ↦ rw e (
          merge_block-IsMerging h (merge_once t p o) p0 (eldest p o) (o + 1) left start below
            (merge_once-IsMerging h t p0 p o start below v (omega arith) e) (omega arith))
      | inr e ↦ rw e v
    ]
