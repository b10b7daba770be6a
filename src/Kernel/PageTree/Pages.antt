-- ===== src/Kernel/PageTree/Pages.antt =====
-- The pages of a tree, with the frame allocator below: src/kernel/page_tree.cpp.
use jsix.Prelude.{
  ℕ, ◌%◌, ◌^◌, ◌<◌, ◌≡◌, ◌∙◌, ◌⊎◌, ◌==◌, inl, inr, refl, sym, ap, Bool, true, false, Option, none,
  some, if◌then◌else◌, arith, Bool-cases,
}
use jsix.Prelude.Bits.{Word, nonzero}
use jsix.Kernel.FrameAllocator.{Frames, allocate}
use jsix.Kernel.FrameAllocator.Inv.{IsConsistent}
use jsix.Kernel.FrameAllocator.Allocate.{Allocated, Outcome, allocate-Outcome}
use jsix.Kernel.PageTree.{marked, page_of, entry, set_page, find_or_add}
use jsix.Util.RadixTree.{Tree, above, find, put_entry}
use jsix.Util.RadixTree as Radix
use jsix.Util.RadixTree.Split.{IsTree, or_zero}
use jsix.Util.RadixTree.Find.{find-same_page}
use jsix.Util.RadixTree.Entries.{find_or_add-IsWritten}

-- The page of an entry, if it has one.
abbrev pub page_if : ℕ → Option ℕ
page_if ent = if ent % 2 == 1 then some (page_of ent) else none

-- The page mapped at an offset.
abbrev pub mapped : Tree → ℕ → Option ℕ
mapped t offset = page_if (entry (find t offset))

fresh_page : (o : Option ℕ) (b : Bool) → page_if (entry (or_zero o b)) ≡ page_if (entry o)
fresh_page none true = refl
fresh_page none false = refl
fresh_page (some v) b = refl

page_if-marked : (v : ℕ) → page_if (marked v) ≡ some (page_of (marked v))
page_if-marked v = ground (arith, marked-odd v)
  where
    marked-odd : (v : ℕ) → marked v % 2 ≡ 1
    marked-odd v = omega arith

pub page_of-marked : (a : ℕ) → a % 4096 ≡ 0 → page_of (marked a) ≡ a
page_of-marked a h = omega arith

module _ (t : Tree) (offset : ℕ) (ok : IsTree t) (small : offset < 2 ^ 54) where
  pub mapped-added : (k : ℕ) → mapped (Radix.find_or_add t offset) k ≡ mapped t k
  mapped-added k =
      ap (λ o. page_if (entry o)) ((find_or_add-IsWritten t offset 0 ok small).added k)
      ∙ fresh_page (find t k) (above k 1 == above offset 1)

  pub mapped-written :
      (v k : ℕ)
      → mapped (put_entry (Radix.find_or_add t offset) offset (marked v)) k
        ≡ (if above k 0 == above offset 0 then some (page_of (marked v)) else mapped t k)
  mapped-written v k =
      ap (λ o. page_if (entry o)) ((find_or_add-IsWritten t offset (marked v) ok small).written k)
      ∙ written_page (above k 0 == above offset 0) (above k 1 == above offset 1)
    where
      written_page :
          (b c : Bool)
          → page_if (entry (if b then some (marked v) else or_zero (find t k) c))
            ≡ (if b then some (page_of (marked v)) else mapped t k)
      written_page true c = page_if-marked v
      written_page false c = fresh_page (find t k) c

  pub mapped-same :
      (k : ℕ) → mapped t k ≡ (if above k 0 == above offset 0 then mapped t offset else mapped t k)
  mapped-same k = elim (Bool-cases (above k 0 == above offset 0)) [
    | inl e ↦ rw e (ap (λ o. page_if (entry o)) (find-same_page t offset k (ground (arith, e))))
    | inr e ↦ rw e refl
  ]

  pub was_mapped :
      (entry (find (Radix.find_or_add t offset) offset) % 2 == 1) ≡ true
      → mapped t offset ≡ some (page_of (entry (find (Radix.find_or_add t offset) offset)))
  was_mapped e = sym (mapped-added offset) ∙ rw e refl

  pub not_mapped :
      (entry (find (Radix.find_or_add t offset) offset) % 2 == 1) ≡ false → mapped t offset ≡ none
  not_mapped e = sym (mapped-added offset) ∙ rw e refl

-- Where the page at an offset comes from: it was there; or it is a frame that the allocator took; or
-- there is none.
abbrev pub IsFrom : Frames → Frames → Option ℕ → Option ℕ → Type 0
IsFrom s s' old r =
    ((p : ℕ) × (old ≡ some p) × (r ≡ some p) × (s' ≡ s))
    ⊎ (((p : ℕ) × (n : ℕ) × (old ≡ none) × (r ≡ some p) × Allocated s s' 1 p n)
        ⊎ ((old ≡ none)
            × (r ≡ none)
            × (s' ≡ s)
            × ((j : ℕ) → j < s.block_count → nonzero (s.blocks j).map1 ≡ false)))

pub record IsFound (s s' : Frames) (t t' : Tree) (offset : ℕ) (r : Option ℕ) : Type 0 where
  pub tree : IsTree t'
  pub pages : (k : ℕ) → mapped t' k ≡ (if above k 0 == above offset 0 then r else mapped t k)
  pub source : IsFrom s s' (mapped t offset) r

module _ (wide : Word) (s : Frames) (t : Tree) (offset : ℕ) (ok : IsTree t)
    (small : offset < 2 ^ 54) (blocks : (j : ℕ) → j < s.block_count → IsConsistent (s.blocks j))
    (aligned : (j : ℕ) → (s.blocks j).base % 4096 ≡ 0) where
  page-address : (address n : ℕ) (s' : Frames) → Allocated s s' 1 address n → address % 4096 ≡ 0
  page-address address n s' taken = omega (arith, taken.place, aligned taken.index)

  unchanged :
      {r : Option ℕ}
      → mapped t offset ≡ r
      → IsFrom s s (mapped t offset) r
      → IsFound s s t (Radix.find_or_add t offset) offset r
  unchanged same from = record {
    tree = (find_or_add-IsWritten t offset 0 ok small).added_tree;
    pages = λ k.
        mapped-added t offset ok small k
        ∙ mapped-same t offset ok small k
        ∙ ap (λ o. if above k 0 == above offset 0 then o else mapped t k) same;
    source = from;
  }

  set_page-IsFound :
      mapped t offset ≡ none
      → Outcome s 1 s.block_count (allocate wide s 1)
      → let (s', t', r) = set_page s (Radix.find_or_add t offset) offset (allocate wide s 1) in
        IsFound s s' t t' offset r
  set_page-IsFound missing (inl (e, full)) =
      rw e (unchanged missing (inr (inr (missing, refl, refl, full))))
  set_page-IsFound missing (inr (s', address, n, e, taken)) =
      let same = page_of-marked address (page-address address n s' taken) in
      rw (e, same)
        (record {
          tree = (find_or_add-IsWritten t offset (marked address) ok small).written_tree;
          pages = λ k. mapped-written t offset ok small address k ∙ rw same refl;
          source = inr (inl (address, n, missing, refl, taken));
        })

  -- For a well-formed tree, an offset below 2^54 and an allocator whose blocks are consistent and
  -- aligned to pages: `find_or_add` returns the page mapped at the offset and leaves the allocator
  -- alone; or, when none is mapped, a frame that was free and that the allocator took; or nothing,
  -- when no block has a free frame. The tree it leaves is well formed, maps every address of that page
  -- to the result, and every other address as before.
  pub find_or_add-IsFound :
      let (s', t', r) = find_or_add wide s t offset in IsFound s s' t t' offset r
  unfolding find_or_add
  find_or_add-IsFound =
      elim (Bool-cases (entry (find (Radix.find_or_add t offset) offset) % 2 == 1)) [
        | inl e ↦ rw e (
            unchanged (was_mapped t offset ok small e) (
              inl (
                page_of (entry (find (Radix.find_or_add t offset) offset)),
                was_mapped t offset ok small e,
                refl,
                refl,
              )))
        | inr e ↦ rw e (
            set_page-IsFound (not_mapped t offset ok small e)
              (allocate-Outcome wide s 1 (omega arith) (omega arith) blocks))
      ]
