-- ===== src/Kernel/FrameAllocator/Allocate.antt =====
-- `frame_allocator::allocate`: a run of free frames from the last block that has any.
use native.Mathlib.Decide.{ℕ_discrete}
use jsix.Prelude.{
  subst, sym, if_eq_self, if_eq_other, ap₂, ◌∙◌, ℕ, ◌+◌, ◌-◌, ◌*◌, ◌/◌, ◌%◌, ◌≤◌, ◌<◌, ◌≡◌, ◌⊎◌,
  true, false, arith, zero, suc, inl, inr, none, some, Option, ◌≢◌, add64, refl, Bool-cases,
}
use jsix.Prelude.Bits.{
  Word, word_and, word_not, shr, shl, tzcnt, nonzero, tzcnt-le, tzcnt-set, tzcnt-below, tzcnt-above,
}
use jsix.Kernel.FrameAllocator.{
  FrameBlock, Frames, put_block, allocate_from, allocate, frame_size, low_ones, store_cleared,
  run_length, allocate_block, frames_per_block,
}
use jsix.Kernel.FrameAllocator.Inv.{
  IsConsistent, is_free, is_free-store_cleared, store_cleared-base, store_cleared-IsConsistent,
}

-- The bits that `allocate` takes from a word are set and lie in it, and there is at least one.
run_length_bounds :
    (m3 : Word) (count : ℕ)
    → 0 < count
    → tzcnt m3 < 64
    → (1 ≤ run_length m3 (tzcnt m3) count)
      × (run_length m3 (tzcnt m3) count ≤ count)
      × (tzcnt m3 + run_length m3 (tzcnt m3) count ≤ 64)
run_length_bounds m3 count h k = ground (
  arith,
  tzcnt-set m3 k,
  tzcnt-set (word_not (shr m3 (tzcnt m3))),
  tzcnt-le (word_not (shr m3 (tzcnt m3))),
  tzcnt-above (word_not (shr m3 (tzcnt m3))) (64 - tzcnt m3),
)

run_length-set :
    (m3 : Word) (count j : ℕ) → j < run_length m3 (tzcnt m3) count → m3 (j + tzcnt m3) ≡ true
run_length-set m3 count j h = ground (arith, tzcnt-below (word_not (shr m3 (tzcnt m3))) j)

-- The run that `allocate` takes from a block: where it is, and what it leaves.
pub record Took (b b' : FrameBlock) (count f n : ℕ) : Type 0 where
  pub some_frames : 1 ≤ n
  pub at_most : n ≤ count
  pub in_block : f + n ≤ frames_per_block
  pub were_free : (g : ℕ) → f ≤ g → g < f + n → is_free b g ≡ true
  pub now_used : (g : ℕ) → f ≤ g → g < f + n → is_free b' g ≡ false
  pub others : (g : ℕ) → (g < f) ⊎ (f + n ≤ g) → is_free b' g ≡ is_free b g
  pub consistent : IsConsistent b'
  pub same_base : b'.base ≡ b.base

module _ (wide : Word) (b : FrameBlock) (count : ℕ) (c : IsConsistent b)
    (some_free : nonzero b.map1 ≡ true) (h : 0 < count) (k : count < 64) where
  o1 : ℕ
  o1 = tzcnt b.map1

  o2 : ℕ
  unfolding o1
  o2 = tzcnt (b.map2 o1)

  m3 : Word
  unfolding o2
  m3 = b.bitmap (o1 * 64 + o2)

  walk : (o1 < 64) × (o2 < 64) × (tzcnt m3 < 64)
  unfolding m3
  walk = ground (arith, c.top o1, c.mid o1 o2, tzcnt-set b.map1, tzcnt-set (b.map2 o1))

  run_start : ℕ
  unfolding m3
  run_start = o1 * 4096 + o2 * 64 + tzcnt m3

  taken : ℕ
  unfolding m3
  taken = run_length m3 (tzcnt m3) count

  -- The frames of the run stand in the word that was found.
  in_word :
      (g : ℕ)
      → run_start ≤ g
      → g < run_start + taken
      → (g / 64 ≡ o1 * 64 + o2) × (g % 64 ≡ g - run_start + tzcnt m3)
  unfolding run_start taken
  in_word g lo hi = omega (arith, run_length_bounds m3 count h (walk.2), walk)

  were_free : (g : ℕ) → run_start ≤ g → g < run_start + taken → is_free b g ≡ true
  unfolding taken
  were_free g lo hi =
      let (word, place) = in_word g lo hi in
      ap₂ b.bitmap word place ∙ run_length-set m3 count (g - run_start) (omega arith)

  left : Word
  unfolding taken
  left = word_and m3 (word_not (shl (low_ones wide taken) (tzcnt m3)))

  now_used :
      (g : ℕ)
      → run_start ≤ g
      → g < run_start + taken
      → is_free (store_cleared b o1 o2 left) g ≡ false
  unfolding left
  now_used g lo hi =
      let (word, place) = in_word g lo hi in
      rw (is_free-store_cleared b o1 o2 g left, word, place)
        (ground (arith, run_length_bounds m3 count h (walk.2)))

  others :
      (g : ℕ)
      → (g < run_start) ⊎ (run_start + taken ≤ g)
      → is_free (store_cleared b o1 o2 left) g ≡ is_free b g
  unfolding left run_start
  others g off =
      rw (is_free-store_cleared b o1 o2 g left)
        (ground (arith, run_length_bounds m3 count h (walk.2), walk))

  -- `allocate` takes a nonempty run of at most `count` free frames of the block, and marks exactly
  -- those used.
  pub allocate_block-Took :
      Took b
        (allocate_block wide b count).0
        count
        (allocate_block wide b count).1
        (allocate_block wide b count).2
  unfolding allocate_block run_start left
  allocate_block-Took = record {
    some_frames = (run_length_bounds m3 count h (walk.2)).0;
    at_most = (run_length_bounds m3 count h (walk.2)).1;
    in_block = omega (arith, run_length_bounds m3 count h (walk.2), walk);
    were_free = were_free;
    now_used = now_used;
    others = others;
    consistent = store_cleared-IsConsistent b o1 o2 left c walk.0 walk.1 (ground (arith, walk));
    same_base = store_cleared-base b o1 o2 left;
  }

run_length_full :
    (m3 : Word) (count : ℕ)
    → 64 ≤ count
    → ((j : ℕ) → j < 64 → m3 j ≡ true)
    → (tzcnt m3 ≡ 0) × (run_length m3 (tzcnt m3) count ≡ 64)
run_length_full m3 count h full = ground (
  arith,
  tzcnt-above m3 0,
  full 0,
  tzcnt-le (word_not (shr m3 (tzcnt m3))),
  tzcnt-set (word_not (shr m3 (tzcnt m3))),
  full (tzcnt (word_not (shr m3 (tzcnt m3)))),
)

-- Where `1ull << 64` is 1, as a shift instruction of the machine has it, a request for 64 frames or
-- more that finds a word with all 64 frames free returns them and leaves every one of them free.
allocate_block_full_word :
    (b : FrameBlock) (count : ℕ)
    → 64 ≤ count
    → ((j : ℕ) → j < 64 → b.bitmap (tzcnt b.map1 * 64 + tzcnt (b.map2 (tzcnt b.map1))) j ≡ true)
    → ((allocate_block (λ i. false) b count).2 ≡ 64)
      × ((g : ℕ) → is_free (allocate_block (λ i. false) b count).0 g ≡ is_free b g)
unfolding allocate_block
allocate_block_full_word b count h full =
    let m3 : Word = b.bitmap (tzcnt b.map1 * 64 + tzcnt (b.map2 (tzcnt b.map1))) in
    let (start, n) = run_length_full m3 count h full in
    (n, λ g. is_free-store_cleared b _ _ g _ ∙ ground arith)

-- What `allocate` did to the allocator when it returned `n` frames at `address`.
pub record Allocated (s t : Frames) (count address n : ℕ) : Type 0 where
  pub index : ℕ
  pub frame : ℕ
  pub index_in : index < s.block_count
  pub last : (j : ℕ) → index < j → j < s.block_count → nonzero (s.blocks j).map1 ≡ false
  pub took : Took (s.blocks index) (t.blocks index) count frame n
  pub other_blocks : (j : ℕ) → j ≢ index → t.blocks j ≡ s.blocks j
  pub place : address ≡ add64 (s.blocks index).base (frame * frame_size)

-- What `allocate` returns when it looks at the blocks below `i`: nothing, if none of them has a free
-- frame, or a run.
abbrev pub Outcome : Frames → ℕ → ℕ → Option (Frames × ℕ × ℕ) → Type 0
Outcome s count i r =
    ((r ≡ none) × ((j : ℕ) → j < i → nonzero (s.blocks j).map1 ≡ false))
    ⊎ ((t : Frames) × (address : ℕ) × (n : ℕ) × (r ≡ some (t, address, n))
        × Allocated s t count address n)

module _ (wide : Word) (s : Frames) (count : ℕ) (h : 0 < count) (k : count < 64)
    (c : (j : ℕ) → j < s.block_count → IsConsistent (s.blocks j)) where
  taken_from :
      (i : ℕ)
      → i < s.block_count
      → ((j : ℕ) → i < j → j < s.block_count → nonzero (s.blocks j).map1 ≡ false)
      → nonzero (s.blocks i).map1 ≡ true
      → let (b, frame, n) = allocate_block wide (s.blocks i) count in
        Allocated s (put_block s i b) count (add64 (s.blocks i).base (frame * frame_size)) n
  taken_from i hi above some_free = record {
    index = i;
    frame = (allocate_block wide (s.blocks i) count).1;
    index_in = hi;
    last = above;
    took =
        subst
          (λ b.
            Took (s.blocks i) b count (allocate_block wide (s.blocks i) count).1
              (allocate_block wide (s.blocks i) count).2)
          (sym (if_eq_self i _ (s.blocks i)))
          (allocate_block-Took wide (s.blocks i) count (c i hi) some_free h k);
    other_blocks = λ j ne. if_eq_other j i _ _ ne;
    place = refl;
  }

  none_at :
      (i j : ℕ)
      → nonzero (s.blocks i).map1 ≡ false
      → (j ≢ i → nonzero (s.blocks j).map1 ≡ false)
      → nonzero (s.blocks j).map1 ≡ false
  none_at i j e rest = elim (ℕ_discrete j i) [ yes p ↦ rw p e | no q ↦ rest q ]

  allocate_from-Outcome :
      (i : ℕ)
      → i ≤ s.block_count
      → ((j : ℕ) → i ≤ j → j < s.block_count → nonzero (s.blocks j).map1 ≡ false)
      → Outcome s count i (allocate_from wide s count i)
  unfolding allocate_from
  allocate_from-Outcome zero hi above = inl (refl, λ j hj. absurd (omega arith))
  allocate_from-Outcome (suc i) hi above = elim (Bool-cases (nonzero (s.blocks i).map1)) [
    | inl e ↦ rw e (inr (_, _, _, refl, taken_from i hi above e))
    | inr e ↦
        rw e
          (elim (allocate_from-Outcome i (omega arith)
            (λ j lo hj. none_at i j e (λ ne. above j (omega arith) hj))) [
              | inl (fails, none_below) ↦
                  inl (fails, λ j hj. none_at i j e (λ ne. none_below j (omega arith)))
              | inr done ↦ inr done
            ])
  ]

  -- `allocate` with fewer than 64 frames asked for, over consistent blocks: it fails only when no
  -- block has a free frame; otherwise it takes a nonempty run of frames that were free, from the
  -- last block that has any, marks exactly those used, leaves every other frame and block alone,
  -- keeps the levels consistent, and returns the address of the run's first frame.
  pub allocate-Outcome : Outcome s count s.block_count (allocate wide s count)
  unfolding allocate
  allocate-Outcome =
      allocate_from-Outcome s.block_count (omega arith) (λ j lo hj. absurd (omega arith))
