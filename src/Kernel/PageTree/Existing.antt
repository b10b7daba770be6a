-- ===== src/Kernel/PageTree/Existing.antt =====
-- add_existing of src/kernel/page_tree.cpp, and find_or_add after it.
use jsix.Prelude.{
  none-some, ℕ, ◌%◌, ◌^◌, ◌<◌, ◌≡◌, ◌∙◌, ◌⊎◌, ◌==◌, inl, inr, refl, sym, ap, subst, Option, none,
  some, if◌then◌else◌, arith, Bool-cases,
}
use jsix.Prelude.Bits.{Word}
use jsix.Kernel.FrameAllocator.{Frames}
use jsix.Kernel.PageTree.{marked, entry, find_or_add, add_existing}
use jsix.Kernel.PageTree.Pages.{mapped, page_of-marked, mapped-written, was_mapped, not_mapped}
use jsix.Util.RadixTree.{Tree, above, find, put_entry}
use jsix.Util.RadixTree as Radix
use jsix.Util.RadixTree.Split.{IsTree}
use jsix.Util.RadixTree.Entries.{find_or_add-IsWritten}

-- What `add_existing` leaves: it fails on a page that is there, and otherwise maps the page.
abbrev pub IsAdded : Tree → ℕ → ℕ → Option Tree → Type 0
IsAdded t offset page r =
    ((p : ℕ) × (mapped t offset ≡ some p) × (r ≡ none))
    ⊎ ((t' : Tree) × (mapped t offset ≡ none)
        × (r ≡ some t')
        × IsTree t'
        × ((k : ℕ) → mapped t' k ≡ (if above k 0 == above offset 0 then some page else mapped t k)))

some_inj : {A : Type 0} {a b : A} → some a ≡ some b → a ≡ b
some_inj e = cc

-- An entry with a page is returned as it is.
found_mapped :
    (wide : Word) (s : Frames) (t : Tree) (offset p : ℕ)
    → IsTree t
    → offset < 2 ^ 54
    → mapped t offset ≡ some p
    → find_or_add wide s t offset ≡ (s, Radix.find_or_add t offset, some p)
unfolding find_or_add
found_mapped wide s t offset p ok small there =
    elim (Bool-cases (entry (find (Radix.find_or_add t offset) offset) % 2 == 1)) [
      | inl e ↦ rw e (
          ap (λ o. (s, Radix.find_or_add t offset, o))
            (sym (was_mapped t offset ok small e) ∙ there))
      | inr e ↦ absurd (none-some (sym (not_mapped t offset ok small e) ∙ there))
    ]

module _ (t : Tree) (offset page : ℕ) (ok : IsTree t) (small : offset < 2 ^ 54)
    (aligned : page % 4096 ≡ 0) where
  pub add_existing-IsAdded : IsAdded t offset page (add_existing t offset page)
  unfolding add_existing
  add_existing-IsAdded =
      elim (Bool-cases (entry (find (Radix.find_or_add t offset) offset) % 2 == 1)) [
        | inl e ↦ rw e (inl (_, was_mapped t offset ok small e, refl))
        | inr e ↦ rw e (
            inr (
              put_entry (Radix.find_or_add t offset) offset (marked page),
              not_mapped t offset ok small e,
              refl,
              (find_or_add-IsWritten t offset (marked page) ok small).written_tree,
              λ k.
                  mapped-written t offset ok small page k
                  ∙ ap (λ p. if above k 0 == above offset 0 then some p else mapped t k)
                      (page_of-marked page aligned),
            ))
      ]

  -- For a well-formed tree, an offset below 2^54 and a page-aligned page: when `add_existing` succeeds,
  -- `find_or_add` of any address of the offset's page, below 2^54, returns that page and takes no frame.
  find_or_add-add_existing :
      (wide : Word) (s : Frames) (t' : Tree) (k : ℕ)
      → add_existing t offset page ≡ some t'
      → k < 2 ^ 54
      → above k 0 ≡ above offset 0
      → find_or_add wide s t' k ≡ (s, Radix.find_or_add t' k, some page)
  find_or_add-add_existing wide s t' k e low same = elim add_existing-IsAdded [
    | inl (p, there, fails) ↦ absurd (none-some (sym fails ∙ e))
    | inr (u, missing, done, tree, pages) ↦
        let at : u ≡ t' = some_inj (sym done ∙ e) in
        found_mapped wide s t' k page (subst IsTree at tree) low
          (subst (λ x. mapped x k ≡ some page) at (pages k ∙ ground (arith, same)))
  ]
