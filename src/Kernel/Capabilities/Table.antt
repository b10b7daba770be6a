-- ===== src/Kernel/Capabilities/Table.antt =====
-- What the operations of the capability table do to its entries: handles stay distinct.
use jsix.Prelude.{
  ℕ, ◌+◌, ◌-◌, ◌%◌, ◌≤◌, ◌<◌, ◌==◌, ◌≡◌, ◌∙◌, refl, ap, Bool, Option, none, some, [], ◌∷◌,
  if◌then◌else◌, u64_mod, u32_mod, arith,
}
use jsix.Prelude.Bits.{Word}
use jsix.Prelude.Assoc.{
  Assoc, find, erase, KeysBelow, KeysBelow-mono, find-above, find-erase-none, erase-KeysBelow,
}
use jsix.Kernel.Capabilities.{
  Capability, CapTable, State, insert, create, derive, derive_from, set_holders, retain,
  retain_found, release, release_found,
}

-- An operation on the table.
pub data Op : Type 0 where
  creates : ℕ → Word → Op
  derives : ℕ → Word → Op
  retains releases : ℕ → Op

unfoldable pub step : State → Op → State
step s (creates target rights) = (create s target rights).0
step s (derives base rights) = (derive s base rights).0
step s (retains id) = (retain s id).0
step s (releases id) = release s id

-- What `set_holders` makes of what is found.
abbrev pub relabel : Bool → ℕ → Option Capability → Option Capability
relabel b n none = none
relabel b n (some c) = some (if b then record c { holders = n } else c)

pub find-set_holders :
    (m : Assoc Capability) (id n k : ℕ)
    → find (set_holders m id n) k ≡ relabel (k == id) n (find m k)
find-set_holders [] id n k = refl
find-set_holders ((j, c) ∷ m) id n k = ground (arith, find-set_holders m id n k)

pub set_holders-KeysBelow :
    (m : Assoc Capability) (id n k : ℕ) → KeysBelow k m → KeysBelow k (set_holders m id n)
set_holders-KeysBelow [] id n k b = b
set_holders-KeysBelow ((j, c) ∷ m) id n k b =
    ground (arith, b, set_holders-KeysBelow m id n k b.2, find-set_holders m id n j)

abbrev pub ParentsBelow : ℕ → Assoc Capability → Type 0
ParentsBelow n [] = Unit {0}
ParentsBelow n ((j, c) ∷ m) = (c.parent ≤ n) × ParentsBelow n m

pub ParentsBelow-mono :
    {n k : ℕ} (m : Assoc Capability) → n ≤ k → ParentsBelow n m → ParentsBelow k m
ParentsBelow-mono [] h b = tt
ParentsBelow-mono ((j, c) ∷ m) h b = (omega arith, ParentsBelow-mono m h b.1)

set_holders-ParentsBelow :
    (m : Assoc Capability) (id n k : ℕ) → ParentsBelow k m → ParentsBelow k (set_holders m id n)
set_holders-ParentsBelow [] id n k b = b
set_holders-ParentsBelow ((j, c) ∷ m) id n k b =
    ground (arith, b, set_holders-ParentsBelow m id n k b.1)

erase-ParentsBelow :
    (m : Assoc Capability) (id k : ℕ) → ParentsBelow k m → ParentsBelow k (erase m id)
erase-ParentsBelow [] id k b = b
erase-ParentsBelow ((j, c) ∷ m) id k b = ground (arith, b, erase-ParentsBelow m id k b.1)

-- Handles in use are distinct, not 0 and were given out, and so were those of the parents.
pub record IsTable (t : CapTable) : Type 0 where
  pub below : KeysBelow t.count t.entries
  pub no_zero : find t.entries 0 ≡ none
  pub parents : ParentsBelow t.count t.entries

insert-IsTable :
    (s : State) (c : Capability)
    → IsTable s.table
    → s.table.count + 1 < u64_mod
    → c.parent ≤ s.table.count
    → IsTable (insert s c).0.table
insert-IsTable s c v room p = ground (
  arith,
  v,
  KeysBelow-mono {n = s.table.count} {k = s.table.count + 1} s.table.entries,
  find-above s.table.count (s.table.count + 1) s.table.entries,
  ParentsBelow-mono {n = s.table.count} {k = s.table.count + 1} s.table.entries,
)

pub KeysBelow-find :
    (n : ℕ) (m : Assoc Capability) (k : ℕ) {c : Capability}
    → KeysBelow n m
    → find m k ≡ some c
    → k ≤ n
KeysBelow-find n [] k {c} b e = cc
KeysBelow-find n ((j, d) ∷ m) k {c} b e = ground (arith, b, KeysBelow-find n m k {c = c} b.2)

derive_from-IsTable :
    (s : State) (base : ℕ) (rights : Word) (o : Option Capability)
    → IsTable s.table
    → s.table.count + 1 < u64_mod
    → find s.table.entries base ≡ o
    → IsTable (derive_from s base rights o).0.table
unfolding derive_from
derive_from-IsTable s base rights none v room e = v
derive_from-IsTable s base rights (some c) v room e =
    insert-IsTable s _ v room (KeysBelow-find s.table.count s.table.entries base v.below e)

set-IsTable :
    (t : CapTable) (id n : ℕ)
    → IsTable t
    → IsTable (record t { entries = set_holders t.entries id n })
set-IsTable t id n v = record {
  below = set_holders-KeysBelow t.entries id n t.count v.below;
  no_zero = find-set_holders t.entries id n 0 ∙ ap (relabel (0 == id) n) v.no_zero;
  parents = set_holders-ParentsBelow t.entries id n t.count v.parents;
}

retain_found-IsTable :
    (s : State) (id : ℕ) (o : Option Capability)
    → IsTable s.table
    → IsTable (retain_found s id o).0.table
unfolding retain_found
retain_found-IsTable s id none v = v
retain_found-IsTable s id (some c) v = set-IsTable s.table id _ v

erase-IsTable :
    (t : CapTable) (id : ℕ) → IsTable t → IsTable (record t { entries = erase t.entries id })
erase-IsTable t id v = record {
  below = erase-KeysBelow t.count id t.entries v.below;
  no_zero = find-erase-none id 0 t.entries v.no_zero;
  parents = erase-ParentsBelow t.entries id t.count v.parents;
}

release_found-IsTable :
    (s : State) (id : ℕ) (o : Option Capability)
    → IsTable s.table
    → IsTable (release_found s id o).table
unfolding release_found
release_found-IsTable s id none v = v
release_found-IsTable s id (some c) v = ground (
  arith,
  erase-IsTable s.table id v,
  set-IsTable s.table id ((c.holders + (u32_mod - 1)) % u32_mod) v,
)

-- Every operation keeps the handles distinct and nonzero, up to the last handle of 64 bits.
step-IsTable :
    (s : State) (o : Op) → IsTable s.table → s.table.count + 1 < u64_mod → IsTable (step s o).table
unfolding step create derive retain release
step-IsTable s (creates target rights) v room = insert-IsTable s _ v room (omega arith)
step-IsTable s (derives base rights) v room =
    derive_from-IsTable s base rights (find s.table.entries base) v room refl
step-IsTable s (retains id) v room = retain_found-IsTable s id (find s.table.entries id) v
step-IsTable s (releases id) v room = release_found-IsTable s id (find s.table.entries id) v
