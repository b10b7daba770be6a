-- ===== src/Kernel/Paging/PageIn.antt =====
-- `page_in` of src/kernel/vm_space.cpp.
use jsix.Prelude.{
  ℕ, zero, suc, ◌+◌, ◌-◌, ◌*◌, ◌/◌, ◌^◌, ◌≤◌, ◌≡◌, ◌∙◌, ◌⊎◌, ◌==◌, ◌&&◌, inl, inr, refl, ap, subst,
  Bool, Option, none, some, ltb, leb, if◌then◌else◌, arith, Bool-cases, add64, ◌<◌, ◌%◌, true,
  false,
}
use jsix.Kernel.VmSpace.{VmSpace, find_vma}
use jsix.Kernel.Paging.{
  Iterator, iterator, next, position, Tables, page_flags, page_in_loop, page_in,
}
use jsix.Kernel.Paging.Position.{IsIndex, Moved, next-Moved, iterator-IsIndex, position-iterator}
use jsix.Prelude.Fields.{bit_or-apart}
use Prim.Native.Nat.{bit_or}

pub next_page : (it : Iterator) → IsIndex it → Moved (position it + 1) (next it 4)
next_page it ok =
    subst (λ n. Moved n (next it 4)) (whole (position it))
      (next-Moved it 4 ok (omega arith) (omega arith))
  where
    whole : (p : ℕ) → p / 1 * 1 + 1 ≡ p + 1
    whole p = omega arith

abbrev pub in_range : ℕ → ℕ → ℕ → Bool
in_range first count n = leb first n && ltb n (first + count)

-- The entry of the page that is `j` pages behind the first.
abbrev pub page_entry : ℕ → ℕ → ℕ → ℕ
page_entry phys flags j = bit_or (add64 phys (j * 4096)) flags

index_of : (first p i : ℕ) → p ≡ first + i → p - first ≡ i
index_of first p i h = omega arith

-- The bits of an entry, by what they say.
abbrev pub entry_bits : Bool → Bool → Bool → ℕ
entry_bits true false false = 1
entry_bits true true false = 1 + 2
entry_bits true false true = 1 + 8 + 16 + 128
entry_bits true true true = 1 + 2 + 8 + 16 + 128
entry_bits false false false = 1 + 4
entry_bits false true false = 1 + 2 + 4
entry_bits false false true = 1 + 4 + 8 + 16 + 128
entry_bits false true true = 1 + 2 + 4 + 8 + 16 + 128

page_flags-bits :
    (kernel write write_combine : Bool)
    → page_flags kernel write write_combine ≡ entry_bits kernel write write_combine
page_flags-bits true true true = refl
page_flags-bits true true false = refl
page_flags-bits true false true = refl
page_flags-bits true false false = refl
page_flags-bits false true true = refl
page_flags-bits false true false = refl
page_flags-bits false false true = refl
page_flags-bits false false false = refl

entry_bits-below :
    (kernel write write_combine : Bool) → entry_bits kernel write write_combine < 2 ^ 12
entry_bits-below true true true = omega arith
entry_bits-below true true false = omega arith
entry_bits-below true false true = omega arith
entry_bits-below true false false = omega arith
entry_bits-below false true true = omega arith
entry_bits-below false true false = omega arith
entry_bits-below false false true = omega arith
entry_bits-below false false false = omega arith

page_entry-sum :
    (kernel write write_combine : Bool) (phys j : ℕ)
    → phys % 4096 ≡ 0
    → page_entry phys (page_flags kernel write write_combine) j
      ≡ (phys + j * 4096) % 2 ^ 64 + entry_bits kernel write write_combine
page_entry-sum kernel write write_combine phys j whole =
    ap (bit_or (add64 phys (j * 4096))) (page_flags-bits kernel write write_combine)
    ∙ bit_or-apart 12 (add64 phys (j * 4096)) (entry_bits kernel write write_combine)
        (omega (arith, whole)) (entry_bits-below kernel write write_combine)

within : (first count j : ℕ) → j < count → in_range first count (first + j) ≡ true
within first count j h = ground arith

behind : (first j : ℕ) → first + j - first ≡ j
behind first j = omega arith

module _ (ts : Tables) where
  -- Pages from `first` on have the entries that they were given, the others are as before.
  abbrev pub IsPagedIn : ℕ → ℕ → (ℕ → ℕ) → ts.State → Option ts.State → Type 0
  IsPagedIn first count given t r =
      ((r ≡ none) × (512 ^ 4 ≤ first + count))
      ⊎ ((t' : ts.State) × (r ≡ some t')
          × ((n : ℕ) → ts.entry t' n ≡ (if in_range first count n then given n else ts.entry t n)))

  range_step :
      (first p q i count : ℕ) (given : ℕ → ℕ) (t : ts.State)
      → q ≡ p + 1
      → p ≡ first + i
      → (n : ℕ)
      → (if in_range q count n then given (n - first) else ts.entry (ts.set t p (given i)) n)
        ≡ (if in_range p (suc count) n then given (n - first) else ts.entry t n)
  range_step first p q i count given t next at n = elim (Bool-cases (n == p)) [
    | inl e ↦
        let here : n ≡ p = ground (arith, e) in
        rw (here, ts.entry-set_same t p (given i))
          (ground (arith, next, ap given (index_of first p i at)))
    | inr e ↦ ground (arith, e, ts.entry-set_other t p n (given i))
  ]

  page_in_loop-IsPagedIn :
      (it : Iterator) (phys flags i first count : ℕ) (t : ts.State)
      → IsIndex it
      → position it ≡ first + i
      → IsPagedIn
          (position it)
          count
          (λ n. page_entry phys flags (n - first))
          t
          (page_in_loop ts it phys flags i count t)
  unfolding page_in_loop
  page_in_loop-IsPagedIn it phys flags i first zero t ok at = inr (t, refl, λ n. ground arith)
  page_in_loop-IsPagedIn it phys flags i first (suc count) t ok at =
      let t' = ts.set t (position it) (bit_or (add64 phys (i * 4096)) flags) in
      elim (next_page it ok) [
        | inl (e, past) ↦ rw (page_in_loop, e) (inl (refl, omega arith))
        | inr (it', e, ok', here) ↦
            rw (page_in_loop, e)
              (elim (page_in_loop-IsPagedIn it' phys flags (i + 1) first count
                (ts.set t (position it) (bit_or (add64 phys (i * 4096)) flags)) ok' (omega arith)) [
                  | inl (fails, past) ↦ inl (fails, omega arith)
                  | inr (t'', done, entries) ↦ inr (
                    t'',
                    done,
                    λ n.
                        entries n
                        ∙ range_step first (position it) (position it') i count
                            (λ j. page_entry phys flags j) t here at n,
                  )
                ])
      ]

  -- What the entries from page `first` on are, for an area of these flags.
  abbrev pub IsMapped : Bool → Bool → Bool → ℕ → ℕ → ℕ → ts.State → Option ts.State → Type 0
  IsMapped kernel write write_combine first count phys t r =
      ((r ≡ none) × (512 ^ 4 ≤ first + count))
      ⊎ ((t' : ts.State) × (r ≡ some t')
          × ((j : ℕ)
              → j < count
              → ts.entry t' (first + j)
                ≡ (phys + j * 4096) % 2 ^ 64 + entry_bits kernel write write_combine)
          × ((n : ℕ) → (n < first) ⊎ (first + count ≤ n) → ts.entry t' n ≡ ts.entry t n))

  paged-IsMapped :
      (kernel write write_combine : Bool) (first count phys : ℕ) (t : ts.State)
      (r : Option ts.State)
      → phys % 4096 ≡ 0
      → IsPagedIn first count
          (λ n. page_entry phys (page_flags kernel write write_combine) (n - first))
          t
          r
      → IsMapped kernel write write_combine first count phys t r
  paged-IsMapped kernel write write_combine first count phys t r whole (inl past) = inl past
  paged-IsMapped kernel write write_combine first count phys t r whole (inr (t', e, entries)) =
      inr (
        t',
        e,
        (λ j h.
            entries (first + j)
            ∙ ground (arith, within first count j h)
            ∙ ap (page_entry phys (page_flags kernel write write_combine)) (behind first j)
            ∙ page_entry-sum kernel write write_combine phys j whole),
        (λ n h. entries n ∙ ground (arith, h)),
      )

  -- `page_in` of an area that the space has at `base`, with page-aligned memory: unless it runs into the
  -- end of the address space, the entry of the page that is `j` pages behind the address
  -- `base + offset`, for each `j` below the count, is the address of the frame that is `j` frames behind
  -- the first, with the bit 1 (present); with 4 (user) just for a space that is not the kernel's; with 2
  -- (write) just for an area that may be written; and with 8, 16 and 128 just for one that combines
  -- writes. The entries of all other pages are as before.
  pub page_in-IsMapped :
      (s : VmSpace) (write write_combine : Bool) (v base offset phys count : ℕ) (t : ts.State)
      → find_vma s.areas v ≡ some base
      → phys % 4096 ≡ 0
      → IsMapped s.kernel write write_combine
          (add64 base offset / 4096 % 2 ^ 36)
          count
          phys
          t
          (page_in ts s write write_combine v offset phys count t)
  unfolding page_in
  page_in-IsMapped s write write_combine v base offset phys count t there whole =
      let it = iterator (add64 base offset) in
      let first = position it in
      let r = page_in_loop ts it phys (page_flags s.kernel write write_combine) 0 count t in
      rw (page_in, there)
        (subst (λ n. IsMapped s.kernel write write_combine n count phys t r)
          (position-iterator (add64 base offset))
          (paged-IsMapped s.kernel write write_combine first count phys t r whole (
            page_in_loop-IsPagedIn it phys (page_flags s.kernel write write_combine) 0 first count t
              (iterator-IsIndex (add64 base offset)) (omega arith))))
