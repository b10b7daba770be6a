-- ===== src/Kernel/Heap/Merge.antt =====
-- free and merge_block of src/kernel/heap_allocator.cpp: a freed block joins its free buddies.
use jsix.Prelude.{
  ℕ, ◌+◌, ◌-◌, ◌*◌, ◌/◌, ◌%◌, ◌^◌, ◌≤◌, ◌<◌, ◌==◌, ◌≡◌, ◌⊎◌, ◌∙◌, inl, inr, sym, ap, subst, Bool,
  true, Option, none, some, if◌then◌else◌, arith, Bool-cases, if_eq_self,
}
use jsix.Prelude.Occur.{count, remove, count-remove_self, count-remove_ne}
use jsix.Prelude.Powers.{pow_32, pow_pos, pow_suc, aligned_even, aligned_odd, odd_le}
use jsix.Kernel.Heap.{
  Heap, BlockInfo, map_key, put_info, put_list, set_info, buddy, eldest, with_order, mergeable,
  merge_once,
}
use jsix.Kernel.Heap.Inv.{IsHeld, size_of, listed_as, is_held, can_start}
use jsix.Kernel.Heap.Split.{key_back, held_aligned, held_bound, buddy-first}

-- A held block `p` and a free block `q` of its order, which are the halves `e` and `s` of a block.
module _ (h : Heap) (p q e s o : ℕ) (v : IsHeld h p o) (low : 5 ≤ o) (high : o < 22)
    (free_q : h.map (map_key q) ≡ some (record { order = o; free = true })) (start_q : q % 32 ≡ 0)
    (below_q : q < 2 ^ 37) (halves : ((p ≡ e) × (q ≡ s)) ⊎ ((p ≡ s) × (q ≡ e)))
    (second : s ≡ e + 2 ^ o) (fits : e % 2 ^ (o + 1) ≡ 0) where
  abbrev joined : Bool → Heap
  joined f = record h {
    free_lists = put_list h.free_lists o (remove q (h.free_lists o));
    map =
        put_info (put_info h.map (map_key s) none) (map_key e)
          (some (record { order = o + 1; free = f }));
  }

  key_p : map_key p * 32 ≡ p
  key_p = key_back p v.start v.low

  key_q : map_key q * 32 ≡ q
  key_q = key_back q start_q below_q

  start_e : e % 32 ≡ 0
  start_e = ground (arith, halves, start_q, v.start)

  low_e : e < 2 ^ 37
  low_e = ground (arith, halves, below_q, v.low)

  key_e : map_key e * 32 ≡ e
  key_e = key_back e start_e low_e

  key_s : map_key s * 32 ≡ s
  key_s =
      key_back s (ground (arith, halves, start_q, v.start)) (ground (arith, halves, below_q, v.low))

  order_keys : map_key e < map_key s
  order_keys = omega (arith, key_e, key_s, second, pow_pos o)

  sizes : (size_of (h.map (map_key e)) ≡ 2 ^ o) × (size_of (h.map (map_key s)) ≡ 2 ^ o)
  sizes =
      let at : ℕ → ℕ = λ x. size_of (h.map (map_key x)) in
      elim halves [
        | inl (a, b) ↦ (ap at (sym a) ∙ ap size_of v.entry, ap at (sym b) ∙ ap size_of free_q)
        | inr (a, b) ↦ (ap at (sym b) ∙ ap size_of free_q, ap at (sym a) ∙ ap size_of v.entry)
      ]

  joined-listed :
      (f : Bool) (x r : ℕ)
      → count x ((joined f).free_lists r) ≡ (
          if is_held (some e) x
          then 0
          else (if can_start x then listed_as ((joined f).map (map_key x)) r else 0))
  joined-listed f x r = ground (
    arith,
    halves,
    v.heap.listed x r,
    v.heap.listed q r,
    v.entry,
    free_q,
    key_back x,
    pow_pos o,
    order_keys,
    key_e,
    key_s,
    start_q,
    below_q,
    count-remove_self q (h.free_lists o),
    count-remove_ne x q (h.free_lists o),
  )

  joined-apart :
      (f : Bool) (k j : ℕ)
      → k < j
      → j * 32 < k * 32 + size_of ((joined f).map k)
      → (joined f).map j ≡ none
  joined-apart f k j lt near = ground (
    arith,
    v.heap.apart k j lt,
    v.heap.apart (map_key e) j,
    v.heap.apart (map_key s) j,
    v.heap.apart k (map_key e),
    sizes,
    key_e,
    key_s,
    pow_suc o,
    order_keys,
  )

  joined-IsHeld : (f : Bool) → IsHeld (joined f) e (o + 1)
  joined-IsHeld f = record {
    heap = record {
      aligned_end = v.heap.aligned_end;
      small = v.heap.small;
      ranged = λ k. ground (arith, v.heap.ranged k);
      aligned = λ k. ground (arith, v.heap.aligned k, ap (λ x. x % 2 ^ (o + 1)) key_e, fits);
      inside = λ k. ground (
        arith,
        v.heap.inside k,
        v.heap.inside (map_key s),
        sizes,
        key_e,
        key_s,
        second,
        pow_suc o,
        pow_pos o,
      );
      apart = joined-apart f;
      listed = joined-listed f;
    };
    start = start_e;
    low = low_e;
    free = f;
    entry = if_eq_self (map_key e) _ _;
  }

  -- Was the first half free?
  abbrev flag : ((p ≡ e) × (q ≡ s)) ⊎ ((p ≡ s) × (q ≡ e)) → Bool
  flag (inl x) = v.free
  flag (inr x) = true

  entry_e :
      (c : ((p ≡ e) × (q ≡ s)) ⊎ ((p ≡ s) × (q ≡ e)))
      → h.map (map_key e) ≡ some (record { order = o; free = flag c })
  entry_e (inl (a, b)) =
      subst (λ x. h.map (map_key x) ≡ some (record { order = o; free = v.free })) a v.entry
  entry_e (inr (a, b)) =
      subst (λ x. h.map (map_key x) ≡ some (record { order = o; free = true })) b free_q

  kept_e :
      with_order (put_info h.map (map_key s) none (map_key e)) (o + 1)
      ≡ record { order = o + 1; free = flag halves }
  kept_e = ground (arith, order_keys, entry_e halves)

pub mergeable-entry :
    (m : Option BlockInfo) (o : ℕ)
    → mergeable m o ≡ true
    → m ≡ some (record { order = o; free = true })
mergeable-entry none o h = cc
mergeable-entry (some i) o h = ground arith

-- Which half of a block the held one is.
pub record AreHalves (p q e s o : ℕ) : Type 0 where
  pub halves : ((p ≡ e) × (q ≡ s)) ⊎ ((p ≡ s) × (q ≡ e))
  pub second : s ≡ e + 2 ^ o
  pub fits : e % 2 ^ (o + 1) ≡ 0

pub buddy-AreHalves :
    (p o : ℕ) → p % 2 ^ o ≡ 0 → AreHalves p (buddy p o) (eldest p o) (buddy (eldest p o) o) o
buddy-AreHalves p o h = elim (Bool-cases (p / 2 ^ o % 2 == 0)) [
  | inl even ↦
      let b : buddy p o ≡ p + 2 ^ o = ground (arith, even) in
      let e : eldest p o ≡ p = ground (arith, b, pow_pos o) in
      let s : buddy (eldest p o) o ≡ p + 2 ^ o = ap (λ x. buddy x o) e ∙ b in
      record {
        halves = inl (sym e, b ∙ sym s);
        second = s ∙ ap (λ x. x + 2 ^ o) (sym e);
        fits = ap (λ x. x % 2 ^ (o + 1)) e ∙ aligned_even p o h (ground (arith, even));
      }
  | inr odd ↦
      let is_odd : p / 2 ^ o % 2 ≡ 1 = ground (arith, odd) in
      let b : buddy p o ≡ p - 2 ^ o = ground (arith, odd) in
      let less = odd_le p o h is_odd in
      let e : eldest p o ≡ p - 2 ^ o = ground (arith, b, pow_pos o) in
      let back : p - 2 ^ o + 2 ^ o ≡ p = omega (arith, less) in
      let fits = aligned_odd p o h is_odd in
      let s : buddy (eldest p o) o ≡ p =
        ap (λ x. buddy x o) e ∙ buddy-first (p - 2 ^ o) o fits ∙ back in
      record {
        halves = inr (sym s, b ∙ sym e);
        second = s ∙ sym back ∙ ap (λ x. x + 2 ^ o) (sym e);
        fits = ap (λ x. x % 2 ^ (o + 1)) e ∙ fits;
      }
]

-- A round of `merge_block` on a held block with a free buddy leaves the whole of the two held.
pub merge_once-IsHeld :
    (h : Heap) (p o : ℕ)
    → IsHeld h p o
    → 5 ≤ o
    → o < 22
    → mergeable (h.map (map_key (buddy p o))) o ≡ true
    → IsHeld (merge_once h p o) (eldest p o) (o + 1)
unfolding merge_once
merge_once-IsHeld h p o v low high m =
    let q = buddy p o in
    let e = eldest p o in
    let s = buddy e o in
    let a = buddy-AreHalves p o (held_aligned h p o v) in
    let free_q = mergeable-entry (h.map (map_key q)) o m in
    let start_q : q % 32 ≡ 0 = ground (arith, a.halves, a.second, v.start, pow_32 o low) in
    let below_q : q < 2 ^ 37 =
      ground (arith, a.halves, a.second, held_bound h p o v, v.heap.small) in
    let kept = kept_e h p q e s o v low high free_q start_q below_q a.halves a.second a.fits in
    let f = flag h p q e s o v low high free_q start_q below_q a.halves a.second a.fits a.halves in
    let t : Heap = record h {
      free_lists = put_list h.free_lists o (remove q (h.free_lists o));
      map = put_info h.map (map_key s) none;
    } in
    subst (λ i. IsHeld (set_info t e i) e (o + 1)) (sym kept)
      (joined-IsHeld h p q e s o v low high free_q start_q below_q a.halves a.second a.fits f)
