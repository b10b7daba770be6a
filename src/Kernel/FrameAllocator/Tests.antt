-- ===== src/Kernel/FrameAllocator/Tests.antt =====
-- A block with three free frames.
use jsix.Prelude.{
  ℕ, ◌<◌, ◌%◌, ◌≡◌, ◌≢◌, zero, suc, some, refl, true, false, arith, ◌==◌, if◌then◌else◌,
}
use jsix.Prelude.Bits.{bit, tzcnt}
use jsix.Kernel.FrameAllocator.{
  FrameBlock, Frames, put_block, free_frame, contains, free, allocate, allocate_block,
}
use jsix.Kernel.FrameAllocator.Inv.{IsConsistent, is_free}
use jsix.Kernel.FrameAllocator.Allocate.{allocate-Outcome, Outcome}
use jsix.Kernel.FrameAllocator.Free.{free_frame-IsConsistent, free_wrong_frame}

-- 262144 frames from 16 MiB on, none free
abbrev used_block : FrameBlock
used_block = record {
  base = 0x100_0000;
  count = 262144;
  map1 = λ i. false;
  map2 = λ i j. false;
  bitmap = λ i j. false;
}

used_block-IsConsistent : IsConsistent used_block
unfolding tzcnt
used_block-IsConsistent = record { top = λ i h. refl; mid = λ i j h k. refl }

-- frames 70 and 71 free
abbrev pub two_free : FrameBlock
unfolding free_frame
two_free = free_frame (free_frame used_block 0 1 6) 0 1 7

two_free-IsConsistent : IsConsistent two_free
unfolding free_frame
two_free-IsConsistent =
    free_frame-IsConsistent (free_frame used_block 0 1 6) 1 7
      (free_frame-IsConsistent used_block 1 6 used_block-IsConsistent (omega arith) (omega arith))
      (omega arith) (omega arith)

abbrev pub frames : FrameBlock → Frames
frames b = record {
  blocks = λ i. if i == 0 then b else record used_block { count = 0 };
  block_count = 1;
}

pub frames-IsConsistent : (j : ℕ) → j < 1 → IsConsistent ((frames two_free).blocks j)
unfolding free_frame
frames-IsConsistent zero h = two_free-IsConsistent
frames-IsConsistent (suc j) h = absurd (omega arith)

suc-not_zero : (j : ℕ) → (suc j == 0) ≡ false
suc-not_zero j = ground arith

pub frames-aligned : (j : ℕ) → ((frames two_free).blocks j).base % 4096 ≡ 0
unfolding free_frame
frames-aligned zero = refl
frames-aligned (suc j) = rw (suc-not_zero j) refl

-- A request for three frames gets the two from 70 on.
two_taken : let (b, frame, n) = allocate_block (λ i. true) two_free 3 in (frame ≡ 70) × (n ≡ 2)
unfolding allocate_block free_frame tzcnt
two_taken = (refl, refl)

allocate-Outcome_example : Outcome (frames two_free) 3 1 (allocate (λ i. true) (frames two_free) 3)
unfolding free_frame
allocate-Outcome_example =
    allocate-Outcome (λ i. true) (frames two_free) 3 (omega arith) (omega arith) frames-IsConsistent

-- All 64 frames of the first word are free.
abbrev word_free : FrameBlock
word_free = record used_block {
  map1 = bit 0;
  map2 = λ i. if i == 0 then bit 0 else (λ j. false);
  bitmap = λ i j. i == 0;
}

only_block : (b : FrameBlock) (a : ℕ) (j : ℕ) → j ≢ 0 → contains ((frames b).blocks j) a ≡ false
only_block b a zero h = absurd (h refl)
only_block b a (suc j) h = ground arith

-- Freeing frame 4099 frees frame 3.
free_wrong_frame_example :
    (b : FrameBlock) × (free (frames used_block) 0x200_3000 1
      ≡ some (put_block (frames used_block) 0 b))
    × (is_free b 4099 ≡ false)
    × (is_free b 3 ≡ true)
free_wrong_frame_example =
    free_wrong_frame (frames used_block) 0x200_3000 0 (omega arith) refl
      (only_block used_block 0x200_3000) refl (omega arith) (omega arith)
