-- ===== src/Kernel/FrameAllocator/Inv.antt =====
-- What the three levels of a frame block say about each other, and which frames are free.
use jsix.Prelude.{ℕ, ◌+◌, ◌*◌, ◌/◌, ◌%◌, ◌<◌, ◌≡◌, Bool, true, ◌==◌, if◌then◌else◌, arith}
use jsix.Prelude.Bits.{Word, tzcnt, nonzero, tzcnt-set, tzcnt-above}
use jsix.Kernel.FrameAllocator.{FrameBlock, store_cleared}

-- Is the frame of this number free?
abbrev pub is_free : FrameBlock → ℕ → Bool
is_free b f = b.bitmap (f / 64) (f % 64)

-- A bit of an upper level says that there is a free frame below it.
pub record IsConsistent (b : FrameBlock) : Type 0 where
  pub top : (i : ℕ) → i < 64 → b.map1 i ≡ nonzero (b.map2 i)
  pub mid : (i j : ℕ) → i < 64 → j < 64 → b.map2 i j ≡ nonzero (b.bitmap (i * 64 + j))

-- A word with a set bit is not 0, and one that agrees with it elsewhere.
pub nonzero_of_set : (w : Word) (j : ℕ) → j < 64 → w j ≡ true → nonzero w ≡ true
nonzero_of_set w j h e = ground (arith, tzcnt-above w j e)

pub nonzero_agree : (v w : Word) → ((j : ℕ) → j < 64 → v j ≡ w j) → nonzero v ≡ nonzero w
nonzero_agree v w h = ground (
  arith,
  tzcnt-set v,
  tzcnt-set w,
  tzcnt-above v (tzcnt w),
  tzcnt-above w (tzcnt v),
  h (tzcnt v),
  h (tzcnt w),
)

-- Writing back a word and what follows from it keeps the levels consistent, if the word lost bits
-- only.
pub store_cleared-IsConsistent :
    (b : FrameBlock) (o1 o2 : ℕ) (m3 : Word)
    → IsConsistent b
    → o1 < 64
    → o2 < 64
    → nonzero (b.bitmap (o1 * 64 + o2)) ≡ true
    → IsConsistent (store_cleared b o1 o2 m3)
unfolding store_cleared
store_cleared-IsConsistent b o1 o2 m3 c h1 h2 e = record {
  top = λ i hi. ground (arith, c.top i, c.top o1, c.mid o1 o2, nonzero_of_set (b.map2 o1) o2);
  mid = λ i j hi hj. ground (arith, c.mid i j, c.mid o1 o2);
}

pub is_free-store_cleared :
    (b : FrameBlock) (o1 o2 f : ℕ) (m3 : Word)
    → is_free (store_cleared b o1 o2 m3) f
      ≡ (if f / 64 == o1 * 64 + o2 then m3 (f % 64) else is_free b f)
unfolding store_cleared
is_free-store_cleared b o1 o2 f m3 = ground arith

pub store_cleared-base :
    (b : FrameBlock) (o1 o2 : ℕ) (m3 : Word) → (store_cleared b o1 o2 m3).base ≡ b.base
unfolding store_cleared
store_cleared-base b o1 o2 m3 = ground arith
