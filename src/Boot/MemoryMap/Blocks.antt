-- ===== src/Boot/MemoryMap/Blocks.antt =====
-- The frame blocks that build_frame_blocks of src/boot/memory_map.cpp makes, as the frame allocator
-- reads them.
use jsix.Prelude.{
  ℕ, ◌+◌, ◌*◌, ◌/◌, ◌%◌, ◌≤◌, ◌<◌, ◌≡◌, ◌∙◌, refl, ap, sym, true, false, ltb, if◌then◌else◌, arith,
  lt→ltb, subst, Bool-cases, inl, inr,
}
use jsix.Prelude.Bits.{Word, nonzero, tzcnt, tzcnt-set, tzcnt-le}
use jsix.Kernel.FrameAllocator.{FrameBlock, frames_per_block}
use jsix.Kernel.FrameAllocator.Inv.{IsConsistent, is_free, nonzero_of_set}
use jsix.Boot.MemoryMap.{
  build_block, partial_block, full_block, partial_map1, partial_map2, build_bitmap, set_bytes,
}

bitmap-at :
    (wide : Word) (count w i : ℕ) → i < 64 → build_bitmap wide count w i ≡ ltb (w * 64 + i) count
unfolding build_bitmap
bitmap-at wide count w i h = ground arith

map2-small :
    (wide : Word) (count w i : ℕ)
    → count ≤ 4032
    → i < 64
    → partial_map2 wide count w i ≡ ltb ((w * 64 + i) * 64) count
unfolding partial_map2
map2-small wide count w i h k = ground arith

map1-at :
    (wide : Word) (count w : ℕ) → count ≤ 258048 → partial_map1 wide count w ≡ ltb (w * 4096) count
unfolding partial_map1
map1-at wide count w h = ground arith

map2-lost :
    (wide : Word) (count w i : ℕ)
    → w < (count + 63) / 64 / 64
    → (count + 63) / 64 / 64 ≤ w * 8
    → partial_map2 wide count w i ≡ false
unfolding partial_map2
map2-lost wide count w i h k = ground arith

not_below : (a b : ℕ) → b ≤ a → ltb a b ≡ false
not_below a b h = ground arith

nonzero_none : (w : Word) → ((i : ℕ) → i < 64 → w i ≡ false) → nonzero w ≡ false
nonzero_none w h = ground (arith, tzcnt-set w, tzcnt-le w, h (tzcnt w))

-- A word whose bits stand for multiples of `k` from `a` on, set below `count`.
nonzero-ltb :
    (v : Word) (a k count : ℕ)
    → ((i : ℕ) → i < 64 → v i ≡ ltb (a + i * k) count)
    → nonzero v ≡ ltb a count
nonzero-ltb v a k count h = elim (Bool-cases (ltb a count)) [
  | inl e ↦ nonzero_of_set v 0 (omega arith) (ground (arith, h 0)) ∙ sym e
  | inr e ↦ nonzero_none v (λ i lt. h i lt ∙ ground arith) ∙ sym e
]

bitmap-nonzero :
    (wide : Word) (count w : ℕ) → nonzero (build_bitmap wide count w) ≡ ltb (w * 64) count
bitmap-nonzero wide count w =
    nonzero-ltb (build_bitmap wide count w) (w * 64) 1 count
      (λ i h. bitmap-at wide count w i h ∙ ground arith)

map2-nonzero :
    (wide : Word) (count w : ℕ)
    → count ≤ 4032
    → nonzero (partial_map2 wide count w) ≡ ltb (w * 4096) count
map2-nonzero wide count w h =
    nonzero-ltb (partial_map2 wide count w) (w * 4096) 64 count
      (λ i k. map2-small wide count w i h k ∙ ground arith)

full-nonzero : (w : ℕ) → w < 64 → nonzero (set_bytes 512 w) ≡ true
full-nonzero w h = nonzero_of_set (set_bytes 512 w) 0 (omega arith) (ground arith)

-- What `build_block` must make: consistent levels, with the frames below `n` free.
abbrev pub IsBuilt : ℕ → ℕ → FrameBlock → Type 0
IsBuilt n f b = IsConsistent b × (is_free b f ≡ ltb f n)

build_block_partial :
    (wide : Word) (base count : ℕ)
    → count < frames_per_block
    → build_block wide base count ≡ partial_block wide base count
unfolding build_block
build_block_partial wide base count h = rw (lt→ltb count frames_per_block h) refl

build_block_full :
    (wide : Word) (base count : ℕ)
    → frames_per_block ≤ count
    → build_block wide base count ≡ full_block wide base
unfolding build_block
build_block_full wide base count h =
    ap (λ b. if b then partial_block wide base count else full_block wide base)
      (not_below count frames_per_block h)

partial_block-IsBuilt :
    (wide : Word) (base count f : ℕ)
    → count ≤ 4032
    → IsBuilt count f (partial_block wide base count)
unfolding partial_block
partial_block-IsBuilt wide base count f h = (
  record {
    top = λ i lt. map1-at wide count i (omega arith) ∙ sym (map2-nonzero wide count i h);
    mid = λ i j lt k. map2-small wide count i j h k ∙ sym (bitmap-nonzero wide count (i * 64 + j));
  },
  bitmap-at wide count (f / 64) (f % 64) (omega arith) ∙ ap (λ x. ltb x count) (omega arith),
)

full_block-IsBuilt : (wide : Word) (base f : ℕ) → IsBuilt frames_per_block f (full_block wide base)
unfolding full_block
full_block-IsBuilt wide base f = (
  record {
    top = λ i lt. sym (full-nonzero i lt);
    mid = λ i j lt k. ground arith ∙ sym (bitmap-nonzero wide frames_per_block (i * 64 + j));
  },
  bitmap-at wide frames_per_block (f / 64) (f % 64) (omega arith)
      ∙ ap (λ x. ltb x frames_per_block) (omega arith),
)

-- The block for at most 4032 frames has consistent levels, and its free frames are those below the
-- number of frames.
build_block_small :
    (wide : Word) (base count f : ℕ) → count ≤ 4032 → IsBuilt count f (build_block wide base count)
build_block_small wide base count f h =
    subst (IsBuilt count f) (sym (build_block_partial wide base count (omega arith)))
      (partial_block-IsBuilt wide base count f h)

-- The block for 262144 frames or more has consistent levels, and its 262144 frames are free.
build_block_whole :
    (wide : Word) (base count f : ℕ)
    → frames_per_block ≤ count
    → IsBuilt frames_per_block f (build_block wide base count)
build_block_whole wide base count f h =
    subst (IsBuilt frames_per_block f) (sym (build_block_full wide base count h))
      (full_block-IsBuilt wide base f)

-- What is wrong with group `w` of a block: its bit in `map1` and its first frame say that it has free
-- frames, and its word in `map2` is 0.
abbrev pub IsLost : ℕ → FrameBlock → Type 0
IsLost w b = (b.map1 w ≡ true) × (nonzero (b.map2 w) ≡ false) × (is_free b (w * 4096) ≡ true)

partial_block-IsLost :
    (wide : Word) (base count w : ℕ)
    → count ≤ 258048
    → w < (count + 63) / 64 / 64
    → (count + 63) / 64 / 64 ≤ w * 8
    → IsLost w (partial_block wide base count)
unfolding partial_block
partial_block-IsLost wide base count w small inside past = (
  map1-at wide count w small ∙ lt→ltb (w * 4096) count (omega arith),
  nonzero_none (partial_map2 wide count w) (λ i h. map2-lost wide count w i inside past),
  bitmap-at wide count (w * 4096 / 64) (w * 4096 % 64) (omega arith) ∙ lt→ltb _ count (omega arith),
)

-- In a block of at most 258048 frames, the words of `map2` that are full are counted as bytes when
-- they are set: a word among them past these bytes is left 0, although its bit in `map1` is set and
-- its frames are free.
pub build_block_loses_groups :
    (wide : Word) (base count w : ℕ)
    → count ≤ 258048
    → w < (count + 63) / 64 / 64
    → (count + 63) / 64 / 64 ≤ w * 8
    → IsLost w (build_block wide base count)
build_block_loses_groups wide base count w small inside past =
    subst (IsLost w) (sym (build_block_partial wide base count (omega arith)))
      (partial_block-IsLost wide base count w small inside past)
