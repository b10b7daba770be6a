-- ===== src/Kernel/Heap/Reallocate.antt =====
-- reallocate of src/kernel/heap_allocator.cpp, over the bytes of the blocks in use. What the heap
-- writes into free blocks is not modelled.
use jsix.Prelude.{
  ℕ, ◌+◌, ◌-◌, ◌*◌, ◌%◌, ◌^◌, ◌≤◌, ◌<◌, ◌==◌, ◌≡◌, ◌≢◌, ◌⊎◌, ◌∙◌, inl, inr, refl, sym, ap, false,
  ◌&&◌, Option, none, some, ltb, leb, if◌then◌else◌, arith, Bool-cases,
}
use jsix.Prelude.Powers.{pow_pos}
use jsix.Kernel.Heap.{Heap, BlockInfo, map_key, allocate, free, order_of}
use jsix.Kernel.Heap.Inv.{IsHeap}
use jsix.Kernel.Heap.Split.{key_back}
use jsix.Kernel.Heap.Allocate.{Gives, allocate-outcome}
use jsix.Kernel.Heap.Free.{free-outcome}

-- `memcpy(q, p, n)`
abbrev pub copied : (ℕ → ℕ) → ℕ → ℕ → ℕ → ℕ → ℕ
copied mem q p n i = if leb q i && ltb i (q + n) then mem (p + (i - q)) else mem i

abbrev pub freed : ℕ → (ℕ → ℕ) → Option Heap → Option (Option ℕ × Heap × (ℕ → ℕ))
freed q mem none = none
freed q mem (some h) = some (some q, h, mem)

-- A null pointer cannot come back here, since the new length is not 0.
abbrev pub moved : (ℕ → ℕ) → ℕ → ℕ → Option (Option ℕ × Heap) → Option (Option ℕ × Heap × (ℕ → ℕ))
moved mem p old none = none
moved mem p old (some (none, h)) = none
moved mem p old (some (some q, h)) = freed q (copied mem q p old) (free h (some p))

abbrev pub reallocate_found :
    Heap → (ℕ → ℕ) → ℕ → ℕ → ℕ → Option BlockInfo → Option (Option ℕ × Heap × (ℕ → ℕ))
reallocate_found h mem p old new none = none
reallocate_found h mem p old new (some i) =
    if leb new (2 ^ i.order) then some (some p, h, mem) else moved mem p old (allocate h new)

abbrev pub with_bytes : (ℕ → ℕ) → Option (Option ℕ × Heap) → Option (Option ℕ × Heap × (ℕ → ℕ))
with_bytes mem none = none
with_bytes mem (some (q, h)) = some (q, h, mem)

pub reallocate : Heap → (ℕ → ℕ) → Option ℕ → ℕ → ℕ → Option (Option ℕ × Heap × (ℕ → ℕ))
reallocate h mem none old new = if old == 0 then with_bytes mem (allocate h new) else none
reallocate h mem (some p) old new = reallocate_found h mem p old new (h.map (map_key p))

abbrev used : ℕ → Option BlockInfo
used o = some (record { order = o; free = false })

-- What `reallocate` leaves of a block `p` with `old` bytes in it.
pub record IsMoved (h : Heap) (mem : ℕ → ℕ) (p old new : ℕ)
    (result : Option (Option ℕ × Heap × (ℕ → ℕ))) : Type 0 where
  pub block : ℕ
  pub order : ℕ
  pub after : Heap
  pub bytes : ℕ → ℕ
  pub returned : result ≡ some (some block, after, bytes)
  pub heap : IsHeap after none
  pub entry : after.map (map_key block) ≡ used order
  pub room : new ≤ 2 ^ order
  pub contents : (k : ℕ) → k < old → bytes (block + k) ≡ mem (p + k)
  pub keeps : (k r : ℕ) → k ≢ map_key p → h.map k ≡ used r → after.map k ≡ used r
  pub others :
      (k r i : ℕ)
      → k ≢ map_key p
      → h.map k ≡ used r
      → i < 2 ^ r
      → bytes (k * 32 + i) ≡ mem (k * 32 + i)

copied-inside : (mem : ℕ → ℕ) (q p n k : ℕ) → k < n → copied mem q p n (q + k) ≡ mem (p + k)
copied-inside mem q p n k h = let e : q + k - q ≡ k = omega arith in ground (arith, e)

copied-outside : (mem : ℕ → ℕ) (q p n i : ℕ) → (i < q) ⊎ (q + n ≤ i) → copied mem q p n i ≡ mem i
copied-outside mem q p n i h = ground (arith, h)

module _ (h : Heap) (mem : ℕ → ℕ) (p o old new : ℕ) (v : IsHeap h none) (start : p % 32 ≡ 0)
    (e : h.map (map_key p) ≡ used o) (fits : old ≤ 2 ^ o) where
  moved-IsMoved :
      p < 2 ^ 37
      → 2 ^ o < new
      → Gives h new (allocate h new)
      → IsMoved h mem p old new (moved mem p old (allocate h new))
  moved-IsMoved below more g =
      let q = g.block in
      let t = g.after in
      let (other, still) = g.allocated.keeps (map_key p) o e in
      let inside : p < t.end =
        ground
          (arith, g.allocated.heap.inside (map_key p), still, key_back p start below, pow_pos o) in
      let (u, freed_eq, w) = free-outcome t p o g.allocated.heap start inside still in
      record {
        block = q;
        order = order_of new;
        after = u;
        bytes = copied mem q p old;
        returned = ap (moved mem p old) g.returned ∙ ap (freed q (copied mem q p old)) freed_eq;
        heap = w.heap;
        entry = w.keeps (map_key q) (order_of new) (λ same. other (sym same)) g.allocated.entry;
        room = g.room;
        contents = λ k lt. copied-inside mem q p old k lt;
        keeps = λ k r ne is_used. w.keeps k r ne (g.allocated.keeps k r is_used).1;
        others = λ k r i ne is_used lt.
            copied-outside mem q p old (k * 32 + i) (ground (arith, g.apart k r is_used, g.room));
      }

-- Reallocating a block in use of a valid heap that is 96 MB short of 128 GB, to at most 4 MB, gives a
-- block in use with room for the new length, which begins with the first `old` bytes of the block;
-- these must be no more than the block has. The heap stays valid, and every other block that was in
-- use still is, with its order and its bytes.
pub reallocate-IsMoved :
    (h : Heap) (mem : ℕ → ℕ) (p o old new : ℕ)
    → IsHeap h none
    → p % 32 ≡ 0
    → p < h.end
    → h.map (map_key p) ≡ some (record { order = o; free = false })
    → old ≤ 2 ^ o
    → new ≤ 2 ^ 22
    → h.end + 23 * 2 ^ 22 < 2 ^ 37
    → IsMoved h mem p old new (reallocate h mem (some p) old new)
unfolding reallocate
reallocate-IsMoved h mem p o old new v start inside e fits small room =
    let found = ap (reallocate_found h mem p old new) e in
    elim (Bool-cases (leb new (2 ^ o))) [
      | inl stays ↦ record {
        block = p;
        order = o;
        after = h;
        bytes = mem;
        returned =
            found
            ∙ ap (λ b. if b then some (some p, h, mem) else moved mem p old (allocate h new)) stays;
        heap = v;
        entry = e;
        room = ground (arith, stays);
        contents = λ k lt. refl;
        keeps = λ k r ne is_used. is_used;
        others = λ k r i ne is_used lt. refl;
      }
      | inr moves ↦
          let more : 2 ^ o < new = ground (arith, moves) in
          elim (allocate-outcome h new v (omega arith) room) [
            | inl (nothing, a) ↦ absurd (omega arith)
            | inr (inl (large, a)) ↦ absurd (omega arith)
            | inr (inr g) ↦
                let w = moved-IsMoved h mem p o old new v start e fits (omega arith) more g in
                record {
                  block = w.block;
                  order = w.order;
                  after = w.after;
                  bytes = w.bytes;
                  returned =
                      found
                      ∙ ap
                          (λ b.
                            if b then some (some p, h, mem) else moved mem p old (allocate h new))
                          moves
                      ∙ w.returned;
                  heap = w.heap;
                  entry = w.entry;
                  room = w.room;
                  contents = w.contents;
                  keeps = w.keeps;
                  others = w.others;
                }
          ]
    ]
