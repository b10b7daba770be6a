-- ===== src/Kernel/Paging/Lock.antt =====
-- `lock` of src/kernel/vm_space.cpp, and `clear` after it.
use jsix.Prelude.{
  ℕ, zero, suc, ◌+◌, ◌*◌, ◌/◌, ◌%◌, ◌^◌, ◌≤◌, ◌<◌, ◌≡◌, ◌∙◌, ◌⊎◌, ◌==◌, ◌&&◌, inl, inr, refl, ap,
  subst, true, false, Option, none, some, List, [], ◌∷◌, ◌++◌, if◌then◌else◌, arith, Bool-cases,
  add64, u64_mod,
}
use jsix.Kernel.VmSpace.{VmSpace, find_vma}
use jsix.Kernel.Paging.{
  Iterator, iterator, position, Tables, Run, clear, lock_loop, lock, locked_page_tag,
}
use jsix.Kernel.Paging.Position.{IsIndex, iterator-IsIndex}
use jsix.Kernel.Paging.PageIn.{next_page, in_range}
use jsix.Kernel.Paging.Runs.{frames_of, frames_of-append, at_zero}
use jsix.Kernel.Paging.Clear.{
  present, AreWords, IsCleared, IsCleared-none, IsCleared-absent, IsCleared-present, set-AreWords,
  clear-IsClear,
}

-- a run of one frame
abbrev single : ℕ → Run
single phys = record { first = phys; count = 1 }

frames_of-single :
    (rs : List Run) (phys : ℕ)
    → phys < u64_mod
    → frames_of (rs ++ single phys ∷ []) ≡ frames_of rs ++ phys ∷ []
frames_of-single rs phys h =
    frames_of-append rs (single phys) ∙ ap (λ a. frames_of rs ++ a ∷ []) (at_zero phys h)

module _ (ts : Tables) where
  -- What `lock` leaves of pages `n` to `n + count`.
  abbrev pub IsLocked : ℕ → ℕ → ts.State → List Run → Option (ts.State × List Run) → Type 0
  IsLocked n count t freed r =
      ((r ≡ none) × (512 ^ 4 ≤ n + count))
      ⊎ ((t' : ts.State) × (runs : List Run) × (r ≡ some (t', runs))
          × IsCleared ts locked_page_tag n count t t' (frames_of freed) (frames_of runs) true)

  IsLocked-present :
      (n count : ℕ) (t : ts.State) (freed : List Run) (r : Option (ts.State × List Run))
      → AreWords ts t
      → (ts.entry t n % 2 == 1) ≡ true
      → IsLocked
          (n + 1)
          count
          (ts.set t n locked_page_tag)
          (freed ++ single (ts.entry t n / 4096 * 4096) ∷ [])
          r
      → IsLocked n (suc count) t freed r
  IsLocked-present n count t freed r w p (inl (e, past)) = inl (e, omega arith)
  IsLocked-present n count t freed r w p (inr (t', runs, e, c)) = inr (
    t',
    runs,
    e,
    IsCleared-present ts locked_page_tag n count t t' (frames_of freed) (frames_of runs) true p (
        subst
          (λ b.
            IsCleared ts locked_page_tag (n + 1) count (ts.set t n locked_page_tag) t' b
              (frames_of runs) true)
          (frames_of-single freed (ts.entry t n / 4096 * 4096) (omega (arith, w n))) c),
  )

  IsLocked-absent :
      (n count : ℕ) (t : ts.State) (freed : List Run) (r : Option (ts.State × List Run))
      → (ts.entry t n % 2 == 1) ≡ false
      → IsLocked (n + 1) count t freed r
      → IsLocked n (suc count) t freed r
  IsLocked-absent n count t freed r p (inl (e, past)) = inl (e, omega arith)
  IsLocked-absent n count t freed r p (inr (t', runs, e, c)) = inr (
    t',
    runs,
    e,
    IsCleared-absent ts locked_page_tag n count t t' (frames_of freed) (frames_of runs) true p c,
  )

  lock_loop-IsLocked :
      (it : Iterator) (count : ℕ) (t : ts.State) (freed : List Run)
      → IsIndex it
      → AreWords ts t
      → IsLocked (position it) count t freed (lock_loop ts it count t freed)
  unfolding lock_loop
  lock_loop-IsLocked it zero t freed ok w =
      inr (t, freed, refl, IsCleared-none ts locked_page_tag (position it) t (frames_of freed) true)
  lock_loop-IsLocked it (suc count) t freed ok w =
      let p = position it in
      let t' = ts.set t p locked_page_tag in
      let freed' = freed ++ single (ts.entry t p / 4096 * 4096) ∷ [] in
      elim (next_page it ok) [
        | inl (e, past) ↦ rw (lock_loop, e) (inl (refl, omega arith))
        | inr (it', e, ok', here) ↦ elim (Bool-cases (ts.entry t (position it) % 2 == 1)) [
          | inl h ↦
              rw (lock_loop, e, h)
                (IsLocked-present p count t freed (lock_loop ts it' count t' freed') w h (
                  subst (λ q. IsLocked q count t' freed' (lock_loop ts it' count t' freed')) here
                    (lock_loop-IsLocked it' count (ts.set t (position it) locked_page_tag)
                      (freed ++ single (ts.entry t (position it) / 4096 * 4096) ∷ []) ok'
                      (set-AreWords ts t p locked_page_tag (omega arith) w))))
          | inr h ↦
              rw (lock_loop, e, h)
                (IsLocked-absent p count t freed (lock_loop ts it' count t freed) h (
                  subst (λ q. IsLocked q count t freed (lock_loop ts it' count t freed)) here
                    (lock_loop-IsLocked it' count t freed ok' w)))
        ]
      ]

  lock-IsLocked :
      (s : VmSpace) (v base offset count : ℕ) (t : ts.State)
      → find_vma s.areas v ≡ some base
      → AreWords ts t
      → IsLocked (position (iterator (add64 base offset))) count t [] (lock ts s v offset count t)
  unfolding lock
  lock-IsLocked s v base offset count t there w =
      let it = iterator (add64 base offset) in
      rw (lock, there) (lock_loop-IsLocked it count t [] (iterator-IsIndex (add64 base offset)) w)

  -- no page of a range that was locked is present
  locked-present_none :
      (n first count rounds : ℕ) (t t' : ts.State)
      → ((m : ℕ)
          → ts.entry t' m ≡ (
              if in_range first count m && ts.entry t m % 2 == 1
              then locked_page_tag
              else ts.entry t m))
      → first ≤ n
      → n + rounds ≤ first + count
      → present ts t' n rounds ≡ []
  locked-present_none n first count zero t t' entries lo hi = refl
  locked-present_none n first count (suc rounds) t t' entries lo hi = ground (
    arith,
    entries n,
    locked-present_none (n + 1) first count rounds t t' entries (omega arith) (omega arith),
  )

  -- `lock` and then `clear` of the same pages
  pub record IsFreedOnce (s : VmSpace) (v offset count n : ℕ) (t : ts.State) : Type 0 where
    pub locked : ts.State
    pub runs : List Run
    pub locks : lock ts s v offset count t ≡ some (locked, runs)
    pub frees_present : frames_of runs ≡ present ts t n count
    pub tagged :
        (m : ℕ)
        → ts.entry locked m
          ≡ (if in_range n count m && ts.entry t m % 2 == 1 then locked_page_tag else ts.entry t m)
    pub left : ts.State
    pub again : List Run
    pub clears : clear ts s v offset count true locked ≡ some (left, again)
    pub frees_none : frames_of again ≡ []

  locked-AreWords :
      (n count : ℕ) (t t' : ts.State)
      → AreWords ts t
      → ((m : ℕ)
          → ts.entry t' m ≡ (
              if in_range n count m && ts.entry t m % 2 == 1
              then locked_page_tag
              else ts.entry t m))
      → AreWords ts t'
  locked-AreWords n count t t' w entries m = ground (arith, entries m, w m)

  -- `lock` of pages of an area that the space has at `base`, which end below the end of the address
  -- space and whose entries are 64-bit words, succeeds: it frees the frames of the pages that are
  -- present, in their order and each once, and leaves the tag of a locked page there and every other
  -- entry as it was. A `clear` of the same pages after it succeeds and frees no frame again.
  pub lock-clear :
      (s : VmSpace) (v base offset count : ℕ) (t : ts.State)
      → find_vma s.areas v ≡ some base
      → AreWords ts t
      → position (iterator (add64 base offset)) + count < 512 ^ 4
      → IsFreedOnce s v offset count (position (iterator (add64 base offset))) t
  lock-clear s v base offset count t there w room =
      let n = position (iterator (add64 base offset)) in
      elim (lock-IsLocked s v base offset count t there w) [
        | inl (e, past) ↦ absurd (omega (arith, past, room))
        | inr (t', runs, e, c) ↦
            elim (clear-IsClear ts s v base offset count true t' there
              (locked-AreWords n count t t' w c.entries)) [
                | inl (e', past) ↦ absurd (omega (arith, past, room))
                | inr (t'', runs', e', c') ↦ record {
                  locked = t';
                  runs = runs;
                  locks = e;
                  frees_present = c.frames;
                  tagged = c.entries;
                  left = t'';
                  again = runs';
                  clears = e';
                  frees_none =
                      c'.frames
                      ∙ locked-present_none n n count count t t' c.entries (omega arith)
                          (omega arith);
                }
              ]
      ]
