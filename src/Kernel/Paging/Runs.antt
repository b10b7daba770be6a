-- ===== src/Kernel/Paging/Runs.antt =====
-- The runs of frames that `clear` of src/kernel/vm_space.cpp frees, as lists of frames.
use jsix.Prelude.{
  ℕ, zero, suc, ◌+◌, ◌*◌, ◌<◌, ◌≡◌, ◌∙◌, ◌==◌, ◌&&◌, not, inl, inr, refl, sym, ap, Bool, true,
  false, List, [], ◌∷◌, ◌++◌, if◌then◌else◌, arith, Bool-cases, add64, u64_mod,
}
use mathlib.Core.List.{append-nil, append_assoc}
use jsix.Kernel.Paging.{Run, Freeing, flush, add_frame}

-- The frames of a run, and of several.
abbrev pub frames_from : ℕ → ℕ → List ℕ
frames_from first zero = []
frames_from first (suc n) = frames_from first n ++ add64 first (n * 4096) ∷ []

abbrev pub frames_of : List Run → List ℕ
frames_of [] = []
frames_of (r ∷ rs) = frames_from r.first r.count ++ frames_of rs

pub frames_of-append :
    (rs : List Run) (r : Run)
    → frames_of (rs ++ r ∷ []) ≡ frames_of rs ++ frames_from r.first r.count
frames_of-append [] r = append-nil (frames_from r.first r.count)
frames_of-append (q ∷ rs) r =
    ap (λ l. frames_from q.first q.count ++ l) (frames_of-append rs r)
    ∙ sym (append_assoc (frames_from q.first q.count) (frames_of rs) (frames_from r.first r.count))

-- All frames so far: those freed, and those of the run that is still open.
abbrev pub total : Freeing → List ℕ
total f = frames_of f.freed ++ frames_from f.run.first f.run.count

zero_count : (f : Freeing) → (f.run.count == 0) ≡ true → 0 ≡ f.run.count
zero_count f e = ground (arith, e)

joined :
    (f : Freeing) (phys : ℕ)
    → (not (f.run.count == 0) && phys == add64 f.run.first (f.run.count * 4096)) ≡ true
    → phys ≡ add64 f.run.first (f.run.count * 4096)
joined f phys e = ground (arith, e)

plus_one : (n : ℕ) → n + 1 ≡ suc n
plus_one n = omega arith

pub at_zero : (phys : ℕ) → phys < u64_mod → add64 phys 0 ≡ phys
at_zero phys h = omega arith

pub flush-total : (f : Freeing) → frames_of (flush true f) ≡ total f
flush-total f = elim (Bool-cases (f.run.count == 0)) [
  | inl e ↦ rw e (
      sym (append-nil (frames_of f.freed))
      ∙ ap (λ n. frames_of f.freed ++ frames_from f.run.first n) (zero_count f e))
  | inr e ↦ rw e (frames_of-append f.freed f.run)
]

add_frame-total :
    (f : Freeing) (phys : ℕ) → phys < u64_mod → total (add_frame true f phys) ≡ total f ++ phys ∷ []
unfolding add_frame
add_frame-total f phys small =
    elim (Bool-cases (not (f.run.count == 0) && phys == add64 f.run.first (f.run.count * 4096))) [
      | inl e ↦ rw e (
          ap (λ l. frames_of f.freed ++ l)
            (ap (frames_from f.run.first) (plus_one f.run.count)
              ∙ ap (λ a. frames_from f.run.first f.run.count ++ a ∷ []) (sym (joined f phys e)))
          ∙ sym
              (append_assoc (frames_of f.freed) (frames_from f.run.first f.run.count) (phys ∷ [])))
      | inr e ↦ rw e (
          ap (λ l. l ++ add64 phys 0 ∷ []) (flush-total f)
          ∙ ap (λ a. total f ++ a ∷ []) (at_zero phys small))
    ]

-- What `clear` hands to the allocator: without `free`, nothing.
abbrev pub handed : Bool → Freeing → List ℕ
handed free f = if free then total f else frames_of f.freed

pub add_frame-handed :
    (free : Bool) (f : Freeing) (phys : ℕ)
    → phys < u64_mod
    → handed free (add_frame free f phys) ≡ handed free f ++ (if free then phys ∷ [] else [])
unfolding add_frame
add_frame-handed true f phys small = add_frame-total f phys small
add_frame-handed false f phys small =
    elim (Bool-cases (not (f.run.count == 0) && phys == add64 f.run.first (f.run.count * 4096))) [
      | inl e ↦ rw e (sym (append-nil (frames_of f.freed)))
      | inr e ↦ rw e (sym (append-nil (frames_of f.freed)))
    ]

pub none_either : (free : Bool) (l : List ℕ) → l ++ [] ≡ l ++ (if free then [] else [])
none_either true l = refl
none_either false l = refl

pub one_before :
    (free : Bool) (x : ℕ) (before rest : List ℕ)
    → (before ++ (if free then x ∷ [] else [])) ++ (if free then rest else [])
      ≡ before ++ (if free then x ∷ rest else [])
one_before true x before rest = append_assoc before (x ∷ []) rest
one_before false x before rest = append-nil (before ++ [])
