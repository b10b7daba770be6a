-- ===== src/Kernel/FrameAllocator/Free.antt =====
-- `frame_allocator::free`, where it marks the right frames and where it does not.
use native.Mathlib.Decide.{ℕ_discrete, dec_lt}
use jsix.Prelude.{
  subst, sym, if_eq_other, ap₂, ◌∙◌, ℕ, ◌+◌, ◌-◌, ◌*◌, ◌/◌, ◌%◌, ◌≤◌, ◌<◌, ◌≡◌, ◌≢◌, ◌⊎◌, zero, suc,
  inl, some, Option, refl, true, false, arith, ◌==◌, ◌||◌,
}
use jsix.Prelude.Bits.{bit, word_or}
use jsix.Kernel.FrameAllocator.{
  FrameBlock, Frames, put_block, free_frame, each_frame, each_block, contains, free, frame_size,
}
use jsix.Kernel.FrameAllocator.Inv.{IsConsistent, is_free, nonzero_of_set}

-- What freeing one frame of the first 4096 does.
pub free_frame-IsConsistent :
    (b : FrameBlock) (o2 o3 : ℕ)
    → IsConsistent b
    → o2 < 64
    → o3 < 64
    → IsConsistent (free_frame b 0 o2 o3)
unfolding free_frame
free_frame-IsConsistent b o2 o3 c h2 h3 = record {
  top = λ i hi. ground (arith, c.top i, nonzero_of_set (word_or (b.map2 0) (bit o2)) o2);
  mid = λ i j hi hj. ground (arith, c.mid i j, nonzero_of_set (word_or (b.bitmap o2) (bit o3)) o3);
}

is_free-free_frame :
    (b : FrameBlock) (o1 o2 o3 f : ℕ)
    → o3 < 64
    → is_free (free_frame b o1 o2 o3) f ≡ (f == o2 * 64 + o3 || is_free b f)
unfolding free_frame
is_free-free_frame b o1 o2 o3 f h = ground arith

-- Freeing frames `p ..` below 4096 frees exactly those.
pub record Freed (b b' : FrameBlock) (p n : ℕ) : Type 0 where
  pub freed : (g : ℕ) → p ≤ g → g < p + n → is_free b' g ≡ true
  pub others : (g : ℕ) → (g < p) ⊎ (p + n ≤ g) → is_free b' g ≡ is_free b g
  pub consistent : IsConsistent b'

Freed-step :
    (b b' : FrameBlock) (o2 o3 n p : ℕ)
    → o3 < 64
    → p ≡ o2 * 64 + o3 + 1
    → Freed (free_frame b 0 o2 o3) b' p n
    → Freed b b' (o2 * 64 + o3) (suc n)
Freed-step b b' o2 o3 n p h e r = record {
  freed = λ g lo hi. elim (ℕ_discrete g (o2 * 64 + o3)) [
    | yes here ↦ r.others g (inl (omega arith)) ∙ ground (arith, is_free-free_frame b 0 o2 o3 g h)
    | no later ↦ r.freed g (omega arith) (omega arith)
  ];
  others = λ g off. r.others g (omega arith) ∙ ground (arith, is_free-free_frame b 0 o2 o3 g h);
  consistent = r.consistent;
}

Freed-nothing : (b : FrameBlock) (n p : ℕ) → IsConsistent b → n ≡ 0 → Freed b b p n
Freed-nothing b n p c e = record {
  freed = λ g lo hi. absurd (omega arith);
  others = λ g off. refl;
  consistent = c;
}

each_frame_nothing :
    (mark : FrameBlock → ℕ → ℕ → ℕ → FrameBlock) (b : FrameBlock) (o1 o2 o3 n : ℕ)
    → n ≡ 0
    → each_frame mark b o1 o2 o3 n ≡ some b
unfolding each_frame
each_frame_nothing mark b o1 o2 o3 zero e = refl
each_frame_nothing mark b o1 o2 o3 (suc n) e = absurd (omega arith)

module _ (mark : FrameBlock → ℕ → ℕ → ℕ → FrameBlock) (b : FrameBlock) (o1 o2 o3 n : ℕ) where
  each_frame_in_word :
      o3 + 1 < 64
      → each_frame mark b o1 o2 o3 (suc n) ≡ each_frame mark (mark b o1 o2 o3) o1 o2 (o3 + 1) n
  unfolding each_frame
  each_frame_in_word h = ground arith

  each_frame_next_word :
      o3 ≡ 63
      → o2 + 1 < 64
      → each_frame mark b o1 o2 o3 (suc n) ≡ each_frame mark (mark b o1 o2 o3) o1 (o2 + 1) 0 n
  unfolding each_frame
  each_frame_next_word e h = ground arith

  each_frame_next_group :
      o3 ≡ 63
      → o2 ≡ 63
      → o1 + 1 < 64
      → each_frame mark b o1 o2 o3 (suc n) ≡ each_frame mark (mark b o1 o2 o3) (o1 + 1) 0 0 n
  unfolding each_frame
  each_frame_next_group e f h = ground arith

-- The loop of `free` over frames that lie below 4096.
each_frame-Freed :
    (b : FrameBlock) (o2 o3 n : ℕ)
    → IsConsistent b
    → o2 < 64
    → o3 < 64
    → o2 * 64 + o3 + n ≤ 4096
    → (b' : FrameBlock) × (each_frame free_frame b 0 o2 o3 n ≡ some b')
      × Freed b b' (o2 * 64 + o3) n
unfolding each_frame
each_frame-Freed b o2 o3 zero c h2 h3 h = (b, refl, Freed-nothing b 0 _ c refl)
each_frame-Freed b o2 o3 (suc n) c h2 h3 h = elim (dec_lt (o3 + 1) 64) [
  | yes q ↦
      step 0 o2 (o3 + 1) (each_frame_in_word free_frame b 0 o2 o3 n q)
        (each_frame-Freed b₁ o2 (o3 + 1) n c₁ h2 (omega arith) (omega arith)) (omega arith)
  | no q ↦ elim (dec_lt (o2 + 1) 64) [
    | yes r ↦
        step 0 (o2 + 1) 0 (each_frame_next_word free_frame b 0 o2 o3 n (omega arith) r)
          (each_frame-Freed b₁ (o2 + 1) 0 n c₁ (omega arith) (omega arith) (omega arith))
          (omega arith)
    | no r ↦ (
      b₁,
      each_frame_next_group free_frame b 0 o2 o3 n (omega arith) (omega arith) (omega arith)
          ∙ each_frame_nothing free_frame b₁ 1 0 0 n (omega arith),
      Freed-step b b₁ o2 o3 n (o2 * 64 + o3 + 1) h3 refl (Freed-nothing b₁ n _ c₁ (omega arith)),
    )
  ]
]
  where
    b₁ : FrameBlock
    b₁ = free_frame b 0 o2 o3

    c₁ : IsConsistent b₁
    c₁ = free_frame-IsConsistent b o2 o3 c h2 h3

    step :
        (o1' o2' o3' : ℕ)
        → each_frame free_frame b 0 o2 o3 (suc n) ≡ each_frame free_frame b₁ o1' o2' o3' n
        → ((b' : FrameBlock) × (each_frame free_frame b₁ o1' o2' o3' n ≡ some b')
            × Freed b₁ b' (o2' * 64 + o3') n)
        → o2' * 64 + o3' ≡ o2 * 64 + o3 + 1
        → (b' : FrameBlock) × (each_frame free_frame b 0 o2 o3 (suc n) ≡ some b')
          × Freed b b' (o2 * 64 + o3) (suc n)
    step o1' o2' o3' f (b', e, r) same = (b', f ∙ e, Freed-step b b' o2 o3 n _ h3 same r)

module _ (mark : FrameBlock → ℕ → ℕ → ℕ → FrameBlock) (address : ℕ) where
  each_block_elsewhere :
      (s : Frames) (count i left : ℕ)
      → ((j : ℕ) → i ≤ j → contains (s.blocks j) address ≡ false)
      → each_block mark s address count i left ≡ some s
  unfolding each_block
  each_block_elsewhere s count i zero h = refl
  each_block_elsewhere s count i (suc left) h =
      rw (h i (omega arith), each_block)
        (each_block_elsewhere s count (i + 1) left (λ j lo. h j (omega arith)))

  put_block-elsewhere :
      (s : Frames) (i : ℕ) (b : FrameBlock)
      → ((j : ℕ) → j ≢ i → contains (s.blocks j) address ≡ false)
      → (j : ℕ) → i < j
      → contains ((put_block s i b).blocks j) address ≡ false
  put_block-elsewhere s i b others j lo =
      subst (λ c. contains c address ≡ false) (sym (if_eq_other j i b (s.blocks j) (omega arith)))
        (others j (omega arith))

  abbrev marked : Frames → ℕ → ℕ → Option FrameBlock
  marked s count k =
      let frame = (address - (s.blocks k).base) / 4096 in
      each_frame mark (s.blocks k) (frame / 4096 % 64) (frame / 64 % 64) (frame % 64) count

  each_block_here :
      (s : Frames) (count i left : ℕ) (b : FrameBlock)
      → contains (s.blocks i) address ≡ true
      → ((j : ℕ) → j ≢ i → contains (s.blocks j) address ≡ false)
      → marked s count i ≡ some b
      → each_block mark s address count i (suc left) ≡ some (put_block s i b)
  unfolding each_block
  each_block_here s count i left b inside others e =
      rw (inside, each_block, e)
        (each_block_elsewhere (put_block s i b) _ (i + 1) left
          (λ j lo. put_block-elsewhere s i b others j (omega arith)))

  -- The loop over the blocks changes the one block that contains the address.
  each_block_at :
      (s : Frames) (count i left k : ℕ) (b : FrameBlock)
      → i ≤ k
      → k < i + left
      → contains (s.blocks k) address ≡ true
      → ((j : ℕ) → j ≢ k → contains (s.blocks j) address ≡ false)
      → marked s count k ≡ some b
      → each_block mark s address count i left ≡ some (put_block s k b)
  unfolding each_block
  each_block_at s count i zero k b lo hi inside others e = absurd (omega arith)
  each_block_at s count i (suc left) k b lo hi inside others e = elim (ℕ_discrete k i) [
    | yes here ↦
        subst (λ t. each_block mark s address count t (suc left) ≡ some (put_block s k b)) here
          (each_block_here s count k left b inside others e)
    | no later ↦
        rw (others i (λ q. later (sym q)), each_block)
          (each_block_at s count (i + 1) left k b (omega arith) (omega arith) inside others e)
  ]

module _ (s : Frames) (address k : ℕ) (hk : k < s.block_count)
    (inside : contains (s.blocks k) address ≡ true)
    (others : (j : ℕ) → j ≢ k → contains (s.blocks j) address ≡ false)
    (aligned : address % frame_size ≡ 0) where
  -- The number in block `k` of the frame at the address.
  abbrev pub frame_number : ℕ
  frame_number = (address - (s.blocks k).base) / frame_size

  free_at :
      (count : ℕ) (b : FrameBlock)
      → 0 < count
      → marked free_frame address s count k ≡ some b
      → free s address count ≡ some (put_block s k b)
  unfolding free
  free_at count b some_count e = ground (
    arith,
    each_block_at free_frame address s count 0 s.block_count k b (omega arith) (omega arith) inside
        others e,
  )

  -- `free` of frames among the first 4096 of the one block that contains the address frees exactly
  -- those frames, keeps the levels consistent and leaves the other blocks alone.
  free_frees :
      (count : ℕ)
      → 0 < count
      → frame_number + count ≤ 4096
      → IsConsistent (s.blocks k)
      → (b : FrameBlock) × (free s address count ≡ some (put_block s k b))
        × Freed (s.blocks k) b frame_number count
  free_frees count some_count low c = done (
      each_frame-Freed (s.blocks k) (frame_number / 64) (frame_number % 64) count c (omega arith)
        (omega arith) (omega arith))
    where
      done :
          ((b : FrameBlock) × (each_frame free_frame
                (s.blocks k)
                0
                (frame_number / 64)
                (frame_number % 64)
                count
              ≡ some b)
            × Freed (s.blocks k) b (frame_number / 64 * 64 + frame_number % 64) count)
          → (b : FrameBlock) × (free s address count ≡ some (put_block s k b))
            × Freed (s.blocks k) b frame_number count
      done (b, e, r) = (
        b,
        free_at count b some_count (
            ap₂ (λ x y. each_frame free_frame (s.blocks k) x y (frame_number % 64) count)
              (omega arith) (omega arith)
            ∙ e),
        subst (λ p. Freed (s.blocks k) b p count) (omega arith) r,
      )

  -- `free` of one frame from number 4096 on (but not the block's last possible one, where it
  -- panics) does not free it: it frees the frame of number `frame_number % 4096` instead.
  pub free_wrong_frame :
      4096 ≤ frame_number
      → frame_number < 262143
      → (b : FrameBlock) × (free s address 1 ≡ some (put_block s k b))
        × (is_free b frame_number ≡ is_free (s.blocks k) frame_number)
        × (is_free b (frame_number % 4096) ≡ true)
  unfolding each_frame
  free_wrong_frame low high = (
    free_frame (s.blocks k) (frame_number / 4096 % 64) (frame_number / 64 % 64) (frame_number % 64),
    free_at 1 _ (omega arith) (ground arith),
    is_free-free_frame (s.blocks k) _ _ _ frame_number (omega arith) ∙ ground arith,
    is_free-free_frame (s.blocks k) _ _ _ (frame_number % 4096) (omega arith) ∙ ground arith,
  )
