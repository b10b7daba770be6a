-- ===== src/Kernel/Process/Listing.antt =====
-- `list_handles`, and a handle that is added twice, in src/kernel/objects/process.cpp.
use jsix.Prelude.{
  none-some, ℕ, zero, suc, ◌+◌, ◌≤◌, ◌<◌, ◌≡◌, ◌≢◌, ◌∙◌, ◌==◌, inl, inr, refl, sym, ap, true, false,
  Option, some, List, [], ◌∷◌, arith, u32_mod,
}
use jsix.Prelude.Occur.{count}
use jsix.Prelude.Assoc.{find}
use jsix.Kernel.Capabilities.{State, Capability, handle_invalid, find_without_retain}
use jsix.Kernel.Process.{
  Processes, contains, add_handle, remove_handle, list_from, list_handles, size, HandleDescriptor,
  describe,
}
use jsix.Kernel.Process.Removal.{remove_handle-IsRemoved, cap_of_held}
use jsix.Kernel.Process.Handles.{AreHeld, holders_of, add_handle-IsAdded}

-- the handles of the descriptors
abbrev pub handles_in : List HandleDescriptor → List ℕ
handles_in [] = []
handles_in (d ∷ ds) = d.handle ∷ handles_in ds

-- What `list_handles` writes: as many as there is room for, or all of them for room 0.
abbrev pub take : ℕ → List ℕ → List ℕ
take zero hs = []
take (suc n) [] = []
take (suc n) (h ∷ hs) = h ∷ take n hs

abbrev pub listed : ℕ → List ℕ → List ℕ
listed zero hs = hs
listed (suc len) hs = take (suc len) hs

abbrev AllFound : State → List ℕ → Type 0
AllFound caps [] = Unit {0}
AllFound caps (k ∷ hs) =
    ((c : Capability) × (find caps.table.entries k ≡ some c)) × AllFound caps hs

all-AllFound :
    (caps : State) (hs : List ℕ)
    → ((k : ℕ) → 1 ≤ count k hs → (c : Capability) × (find caps.table.entries k ≡ some c))
    → AllFound caps hs
all-AllFound caps [] all = tt
all-AllFound caps (k ∷ hs) all =
    (all k (ground arith), all-AllFound caps hs (λ j h. all j (omega (arith, h))))

-- What the loop writes, with room for `r` more.
abbrev Lists : List ℕ → Option (List HandleDescriptor) → Type 0
Lists hs r = (ds : List HandleDescriptor) × (r ≡ some ds) × (handles_in ds ≡ hs)

describe-Lists :
    (k : ℕ) (o : Option Capability) (hs : List ℕ) (r : Option (List HandleDescriptor))
    {c : Capability}
    → o ≡ some c
    → Lists hs r
    → Lists (k ∷ hs) (describe k o r)
describe-Lists k o hs r {c} e (ds, e', same) =
    rw (e, e')
      (record { handle = k; caps = c.caps; kind = c.kind } ∷ ds, refl, ap (λ l. k ∷ l) same)

list_from-all :
    (caps : State) (filled : ℕ) (hs : List ℕ)
    → AllFound caps hs
    → Lists hs (list_from caps 0 filled hs)
unfolding list_from find_without_retain
list_from-all caps filled [] all = ([], refl, refl)
list_from-all caps filled (k ∷ hs) ((c, e), all) = rw (never filled) (
    describe-Lists k (find_without_retain caps k) hs (list_from caps 0 (filled + 1) hs) e
      (list_from-all caps (filled + 1) hs all))
  where
    never : (n : ℕ) → (n + 1 == 0) ≡ false
    never n = ground arith

list_from-room :
    (caps : State) (filled room len : ℕ) (hs : List ℕ)
    → AllFound caps hs
    → len ≡ filled + suc room
    → Lists (take (suc room) hs) (list_from caps len filled hs)
unfolding list_from find_without_retain
list_from-room caps filled room len [] all e = ([], refl, refl)
list_from-room caps filled zero len (k ∷ hs) ((c, e'), all) e =
    rw (last filled len e)
      (describe-Lists k (find_without_retain caps k) [] (some []) e' ([], refl, refl))
  where
    last : (filled len : ℕ) → len ≡ filled + suc 0 → (filled + 1 == len) ≡ true
    last filled len e = ground arith
list_from-room caps filled (suc room) len (k ∷ hs) ((c, e'), all) e = rw (more filled len room e) (
    describe-Lists k (find_without_retain caps k) (take (suc room) hs)
      (list_from caps len (filled + 1) hs) e'
      (list_from-room caps (filled + 1) room len hs all (omega (arith, e))))
  where
    more : (filled len room : ℕ) → len ≡ filled + suc (suc room) → (filled + 1 == len) ≡ false
    more filled len room e = ground arith

list_from-Lists :
    (caps : State) (len : ℕ) (hs : List ℕ)
    → AllFound caps hs
    → Lists (listed len hs) (list_from caps len 0 hs)
list_from-Lists caps zero hs all = list_from-all caps 0 hs all
list_from-Lists caps (suc room) hs all = list_from-room caps 0 room (suc room) hs all (omega arith)

module _ (n : ℕ) (s : Processes) (p : ℕ) (ok : AreHeld n s) (h : p < n) where
  -- For one of the first `n` processes, under the condition on holders, no assertion of `list_handles`
  -- fails: it gives the number of handles that the process has, and writes the first of them, as many
  -- as there is room for; but all of them when it is given room for none.
  pub list_handles-outcome :
      (len : ℕ)
      → (ds : List HandleDescriptor) × (list_handles s p len ≡ some (ds, size (s.handles p)))
        × (handles_in ds ≡ listed len (s.handles p))
  unfolding list_handles
  list_handles-outcome len =
      let all =
        all-AllFound s.caps (s.handles p)
          (λ k has. let (c, e, pos) = cap_of_held n s p k ok h k has in (c, e)) in
      let (ds, e, same) = list_from-Lists s.caps len (s.handles p) all in
      (ds, rw (list_handles, e) refl, same)

  some_count : (handle : ℕ) → contains (s.handles p) handle ≡ true → 1 ≤ count handle (s.handles p)
  some_count handle has = ground (arith, has)

  -- Under the condition on holders, with room for one more holder, when a process that has a handle is
  -- given it again and then removes it, it has the handle no more, and the capability has as many holders
  -- as before: one of them stands for no process.
  pub add_again_leaks :
      (handle : ℕ)
      → contains (s.handles p) handle ≡ true
      → handle ≢ handle_invalid
      → holders_of (find s.caps.table.entries handle) + 1 < u32_mod
      → (t : Processes) × (add_handle s p handle ≡ some t)
        × (contains ((remove_handle t p handle).1.handles p) handle ≡ false)
        × (holders_of (find (remove_handle t p handle).1.caps.table.entries handle)
            ≡ holders_of (find s.caps.table.entries handle))
  add_again_leaks handle has valid room = elim (add_handle-IsAdded n s p handle ok h room) [
    | inl (z, e) ↦ absurd (valid z)
    | inr (inl (missing, e)) ↦
        let (c, there, pos) = cap_of_held n s p handle ok h handle (some_count handle has) in
        absurd (none-some (sym missing ∙ there))
    | inr (inr (t, e, kept, has', more)) ↦
        let r = remove_handle-IsRemoved n t p handle kept h in
        (t, e, r.gone, r.holders ∙ rw (r.held_before, has') (omega (arith, more)))
  ]
