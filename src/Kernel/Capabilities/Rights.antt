-- ===== src/Kernel/Capabilities/Rights.antt =====
-- The rights of capabilities: deriving one never adds a right.
use jsix.Prelude.{
  ℕ, ◌+◌, ◌-◌, ◌%◌, ◌≤◌, ◌<◌, ◌==◌, ◌≡◌, ◌∙◌, refl, sym, subst, Bool, true, false, Option, none,
  some, [], ◌∷◌, if◌then◌else◌, u64_mod, u32_mod, arith, inl, inr, ◌⊎◌, Bool-cases, ◌&&◌,
}
use jsix.Prelude.Bits.{Word, word_and}
use jsix.Prelude.Assoc.{Assoc, find, erase, find-erase_ne, find-erase_self}
use jsix.Kernel.Capabilities.{
  Capability, CapTable, State, insert, create, derive, derive_from, set_holders, retain,
  retain_found, release, release_found,
}
use jsix.Kernel.Capabilities.Table.{
  Op, creates, derives, retains, releases, step, relabel, find-set_holders, ParentsBelow, IsTable,
  KeysBelow-find,
}

-- Every right of `a` is one of `b`.
abbrev pub IsWithin : Word → Word → Type 0
IsWithin a b = (i : ℕ) → (a i && b i) ≡ a i

-- A capability whose parent is still in the table has no right that the parent lacks, and refers to
-- the same object.
abbrev pub IsAttenuated : Assoc Capability → Type 0
IsAttenuated m =
    (k : ℕ) (c d : Capability)
    → find m k ≡ some c
    → find m c.parent ≡ some d
    → IsWithin c.caps d.caps × (c.object ≡ d.object)

parent-below :
    (n : ℕ) (m : Assoc Capability) (k : ℕ) (c : Capability)
    → ParentsBelow n m
    → find m k ≡ some c
    → c.parent ≤ n
parent-below n [] k c b e = cc
parent-below n ((j, d) ∷ m) k c b e = ground (arith, b, parent-below n m k c b.1)

find-erase :
    (id k : ℕ) (t : CapTable)
    → IsTable t
    → find (erase t.entries id) k ≡ (if id == k then none else find t.entries k)
find-erase id k t v =
    ground (arith, find-erase_ne id k t.entries, find-erase_self t.count id t.entries v.below)

find_cons :
    (m : Assoc Capability) (h k : ℕ) (c0 c : Capability)
    → find ((h, c0) ∷ m) k ≡ some c
    → ((h ≡ k) × (c0 ≡ c)) ⊎ (find m k ≡ some c)
find_cons m h k c0 c e = ground arith

-- What a parent's capability must be.
abbrev pub Attenuates : Assoc Capability → Capability → Type 0
Attenuates m c =
    (d : Capability) → find m c.parent ≡ some d → IsWithin c.caps d.caps × (c.object ≡ d.object)

pub cons-IsAttenuated :
    (m : Assoc Capability) (n h : ℕ) (c0 : Capability)
    → ParentsBelow n m
    → n < h
    → c0.parent ≤ n
    → Attenuates m c0
    → IsAttenuated m
    → IsAttenuated ((h, c0) ∷ m)
cons-IsAttenuated m n h c0 below lt p here old k c d e f =
    let inside : c.parent ≤ n → find m c.parent ≡ some d = λ q.
      elim (find_cons m h c.parent c0 d f) [
        | inl (same, x) ↦ absurd (omega arith)
        | inr found ↦ found
      ] in
    elim (find_cons m h k c0 c e) [
      | inl (x, same) ↦ subst (Attenuates m) same here d (inside (subst (λ x. x.parent ≤ n) same p))
      | inr found ↦ old k c d found (inside (parent-below n m k c below found))
    ]

insert-IsAttenuated :
    (s : State) (c0 : Capability)
    → IsTable s.table
    → s.table.count + 1 < u64_mod
    → c0.parent ≤ s.table.count
    → Attenuates s.table.entries c0
    → IsAttenuated s.table.entries
    → IsAttenuated (insert s c0).0.table.entries
insert-IsAttenuated s c0 v room p here old =
    cons-IsAttenuated s.table.entries s.table.count ((s.table.count + 1) % u64_mod) c0 v.parents
      (omega arith) p here old

and_twice : (a b : Bool) → ((a && b) && b) ≡ (a && b)
and_twice true b = ground arith
and_twice false b = refl

derived-IsWithin :
    (rights : Word) (c d : Capability)
    → c ≡ d
    → IsWithin (word_and rights c.caps) d.caps × (c.object ≡ d.object)
derived-IsWithin rights c d same =
    subst (λ x. IsWithin (word_and rights c.caps) x.caps × (c.object ≡ x.object)) same
      (λ i. and_twice (rights i) (c.caps i), refl)

derive_from-IsAttenuated :
    (s : State) (base : ℕ) (rights : Word) (o : Option Capability)
    → IsTable s.table
    → s.table.count + 1 < u64_mod
    → find s.table.entries base ≡ o
    → IsAttenuated s.table.entries
    → IsAttenuated (derive_from s base rights o).0.table.entries
unfolding derive_from
derive_from-IsAttenuated s base rights none v room e old = old
derive_from-IsAttenuated s base rights (some c) v room e old =
    insert-IsAttenuated s _ v room (KeysBelow-find s.table.count s.table.entries base v.below e)
      (λ d f. derived-IsWithin rights c d (cc (e, f))) old

relabel-inv :
    (b : Bool) (n : ℕ) (o : Option Capability) (c : Capability)
    → relabel b n o ≡ some c
    → (c' : Capability) × (o ≡ some c')
      × (c.caps ≡ c'.caps)
      × (c.object ≡ c'.object)
      × (c.parent ≡ c'.parent)
relabel-inv b n none c e = cc
relabel-inv true n (some c') c e = (c', refl, cc, cc, cc)
relabel-inv false n (some c') c e = (c', refl, cc, cc, cc)

set_holders-IsAttenuated :
    (m : Assoc Capability) (id n : ℕ) → IsAttenuated m → IsAttenuated (set_holders m id n)
set_holders-IsAttenuated m id n old k c d e f =
    let (c', ec, caps_c, object_c, parent_c) =
      relabel-inv (k == id) n (find m k) c (sym (find-set_holders m id n k) ∙ e) in
    let (d', ed, caps_d, object_d, parent_d) =
      relabel-inv (c.parent == id) n (find m c.parent) d
        (sym (find-set_holders m id n c.parent) ∙ f) in
    let (within, same) = old k c' d' ec (subst (λ p. find m p ≡ some d') parent_c ed) in
    (
      subst (λ w. IsWithin w d.caps) (sym caps_c)
          (subst (λ w. IsWithin c'.caps w) (sym caps_d) within),
      object_c ∙ same ∙ sym object_d,
    )

erase-IsAttenuated :
    (t : CapTable) (id : ℕ) → IsTable t → IsAttenuated t.entries → IsAttenuated (erase t.entries id)
erase-IsAttenuated t id v old k c d e f =
    old k c d (ground (arith, find-erase id k t v)) (ground (arith, find-erase id c.parent t v))

retain_found-IsAttenuated :
    (s : State) (id : ℕ) (o : Option Capability)
    → IsAttenuated s.table.entries
    → IsAttenuated (retain_found s id o).0.table.entries
unfolding retain_found
retain_found-IsAttenuated s id none old = old
retain_found-IsAttenuated s id (some c) old = set_holders-IsAttenuated s.table.entries id _ old

release_found-IsAttenuated :
    (s : State) (id : ℕ) (o : Option Capability)
    → IsTable s.table
    → IsAttenuated s.table.entries
    → IsAttenuated (release_found s id o).table.entries
unfolding release_found
release_found-IsAttenuated s id none v old = old
release_found-IsAttenuated s id (some c) v old =
    let left = (c.holders + (u32_mod - 1)) % u32_mod in
    elim (Bool-cases (left == 0)) [
      | inl e ↦ rw e (erase-IsAttenuated s.table id v old)
      | inr e ↦ rw e (set_holders-IsAttenuated s.table.entries id left old)
    ]

-- Every operation on a table with distinct handles keeps this, up to the last handle of 64 bits: a
-- capability whose parent is still in the table has no right that the parent lacks, and refers to
-- the same object.
pub step-IsAttenuated :
    (s : State) (o : Op)
    → IsTable s.table
    → IsAttenuated s.table.entries
    → s.table.count + 1 < u64_mod
    → IsAttenuated (step s o).table.entries
unfolding step create derive retain release
step-IsAttenuated s (creates target rights) v old room =
    insert-IsAttenuated s _ v room (omega arith) (λ d f. absurd (cc (v.no_zero, f))) old
step-IsAttenuated s (derives base rights) v old room =
    derive_from-IsAttenuated s base rights (find s.table.entries base) v room refl old
step-IsAttenuated s (retains id) v old room =
    retain_found-IsAttenuated s id (find s.table.entries id) old
step-IsAttenuated s (releases id) v old room =
    release_found-IsAttenuated s id (find s.table.entries id) v old
