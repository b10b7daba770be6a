-- ===== src/Kernel/FrameAllocator.antt =====
-- src/kernel/frame_allocator.cpp over `bootproto::frame_block`: physical frames in a three-level
-- bitmap, where a set bit is a free frame, or a word below with a free frame. The lock is held
-- throughout, so each operation is one step; `none` is a failed `kassert` (a kernel panic).
pub mod Inv
pub mod Allocate
pub mod Free
pub mod Tests
use jsix.Prelude.{
  ℕ, zero, suc, ◌+◌, ◌-◌, ◌*◌, ◌/◌, ◌%◌, ◌^◌, Bool, true, false, ◌&&◌, ◌||◌, not, Option, none,
  some, ltb, leb, ◌==◌, if◌then◌else◌, add64, u64_mod,
}
use jsix.Prelude.Bits.{Word, bit, word_or, word_and, word_not, shr, shl, tzcnt, nonzero}

abbrev pub frame_size : ℕ
frame_size = 4096

abbrev pub frames_per_block : ℕ
frames_per_block = 262144

-- `frame_block`. The array behind `bitmap` is a function of the index.
pub record FrameBlock : Type 0 where
  pub base : ℕ
  pub count : ℕ
  pub map1 : Word
  pub map2 : ℕ → Word
  pub bitmap : ℕ → Word

abbrev pub put_word : (ℕ → Word) → ℕ → Word → ℕ → Word
put_word words k w i = if i == k then w else words i

-- `(1ull << n) - 1` for `n ≤ 64`. C++ leaves it undefined at 64, where it is `wide`.
abbrev pub low_ones : Word → ℕ → Word
low_ones wide n = if n == 64 then wide else (λ i. ltb i n)

-- How many frames `allocate` takes from a word `m3` at bit `o3`.
abbrev pub run_length : Word → ℕ → ℕ → ℕ
run_length m3 o3 count = let n = tzcnt (word_not (shr m3 o3)) in if ltb count n then count else n

-- `allocate` writes back the word `m3` at `o1`, `o2` and what follows from it above.
pub store_cleared : FrameBlock → ℕ → ℕ → Word → FrameBlock
store_cleared b o1 o2 m3 =
    let b' : FrameBlock = record b { bitmap = put_word b.bitmap (o1 * 64 + o2) m3 } in
    let m2 : Word = word_and (b.map2 o1) (word_not (bit o2)) in
    if nonzero m3
    then b'
    else (if nonzero m2
        then record b' { map2 = put_word b.map2 o1 m2 }
        else record b' { map2 = put_word b.map2 o1 m2; map1 = word_and b.map1 (word_not (bit o1)) })

-- The body of the loop of `allocate` for a block with free frames: the block, the first frame's
-- number and how many frames were taken.
pub allocate_block : Word → FrameBlock → ℕ → FrameBlock × ℕ × ℕ
unfolding store_cleared
allocate_block wide b count =
    let o1 = tzcnt b.map1 in
    let o2 = tzcnt (b.map2 o1) in
    let m3 : Word = b.bitmap (o1 * 64 + o2) in
    let o3 = tzcnt m3 in
    let n = run_length m3 o3 count in
    (
      store_cleared b o1 o2 (word_and m3 (word_not (shl (low_ones wide n) o3))),
      o1 * 4096 + o2 * 64 + o3,
      n,
    )

-- `frame_allocator`
pub record Frames : Type 0 where
  pub blocks : ℕ → FrameBlock
  pub block_count : ℕ

abbrev pub put_block : Frames → ℕ → FrameBlock → Frames
put_block s k b = record s { blocks = λ i. if i == k then b else s.blocks i }

-- `for (long i = m_count - 1; i >= 0; --i)`, with `i` blocks left. The result is the address and
-- the number of frames.
pub allocate_from : Word → Frames → ℕ → ℕ → Option (Frames × ℕ × ℕ)
allocate_from wide s count zero = none
allocate_from wide s count (suc i) =
    let rest = allocate_from wide s count i in
    if nonzero (s.blocks i).map1
    then (let (b, frame, n) = allocate_block wide (s.blocks i) count in
        some (put_block s i b, add64 (s.blocks i).base (frame * frame_size), n))
    else rest

pub allocate : Word → Frames → ℕ → Option (Frames × ℕ × ℕ)
unfolding allocate_from
allocate wide s count = allocate_from wide s count s.block_count

-- The body of the loop of `free` for frame `o1`, `o2`, `o3`. It sets the bit in `bitmap[o2]`,
-- whatever `o1` is.
pub free_frame : FrameBlock → ℕ → ℕ → ℕ → FrameBlock
free_frame b o1 o2 o3 = record b {
  map1 = word_or b.map1 (bit o1);
  map2 = put_word b.map2 o1 (word_or (b.map2 o1) (bit o2));
  bitmap = put_word b.bitmap o2 (word_or (b.bitmap o2) (bit o3));
}

-- `while (count--)` of `free` and of `used`, over what they do to a frame
pub each_frame :
    (FrameBlock → ℕ → ℕ → ℕ → FrameBlock) → FrameBlock → ℕ → ℕ → ℕ → ℕ → Option FrameBlock
each_frame mark b o1 o2 o3 zero = some b
each_frame mark b o1 o2 o3 (suc count) = elim (o3 + 1 == 64) [
  | false ↦ each_frame mark (mark b o1 o2 o3) o1 o2 (o3 + 1) count
  | true ↦ elim (o2 + 1 == 64) [
    | false ↦ each_frame mark (mark b o1 o2 o3) o1 (o2 + 1) 0 count
    | true ↦ elim (ltb (o1 + 1) 64) [
      | false ↦ none
      | true ↦ each_frame mark (mark b o1 o2 o3) (o1 + 1) 0 0 count
    ]
  ]
]

abbrev pub contains : FrameBlock → ℕ → Bool
contains b address = not (ltb address b.base || leb (add64 b.base (b.count * frame_size)) address)

-- The body of the loop of `used`. It clears the bit in `bitmap[o2]`, whatever `o1` is.
pub use_frame : FrameBlock → ℕ → ℕ → ℕ → FrameBlock
use_frame b o1 o2 o3 =
    let m3 : Word = word_and (b.bitmap o2) (word_not (bit o3)) in
    let m2 : Word = word_and (b.map2 o1) (word_not (bit o2)) in
    let b' : FrameBlock = record b { bitmap = put_word b.bitmap o2 m3 } in
    if nonzero m3
    then b'
    else (if nonzero m2
        then record b' { map2 = put_word b.map2 o1 m2 }
        else record b' { map2 = put_word b.map2 o1 m2; map1 = word_and b.map1 (word_not (bit o1)) })

-- The loop of `free` and of `used` over the blocks, with blocks `i ..` left. The counter of a
-- block's inner loop is used up at -1 when the next block is tried.
pub each_block : (FrameBlock → ℕ → ℕ → ℕ → FrameBlock) → Frames → ℕ → ℕ → ℕ → ℕ → Option Frames
unfolding each_frame
each_block mark s address count i zero = some s
each_block mark s address count i (suc left) = elim (contains (s.blocks i) address) [
  | false ↦ each_block mark s address count (i + 1) left
  | true ↦
      let frame = (address - (s.blocks i).base) / 4096 in
      elim (each_frame mark (s.blocks i) (frame / 4096 % 64) (frame / 64 % 64) (frame % 64) count) [
        | none ↦ none
        | some b ↦ each_block mark (put_block s i b) address (u64_mod - 1) (i + 1) left
      ]
]

pub free : Frames → ℕ → ℕ → Option Frames
unfolding each_block free_frame
free s address count =
    if address % frame_size == 0
    then (if count == 0 then some s else each_block free_frame s address count 0 s.block_count)
    else none

pub used : Frames → ℕ → ℕ → Option Frames
unfolding each_block use_frame
used s address count =
    if address % frame_size == 0
    then (if count == 0 then some s else each_block use_frame s address count 0 s.block_count)
    else none
