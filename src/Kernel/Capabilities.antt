-- ===== src/Kernel/Capabilities.antt =====
-- src/kernel/capabilities.cpp and capabilities.h: the table of capabilities. Each operation takes the
-- lock and is one step, although `create` counts its handle before. The table is an association
-- list. `create` reads the type of its target first, so that no object is null.
pub mod Table
pub mod Objects
pub mod Rights
pub mod Holders
mod Tests
use jsix.Prelude.{
  ℕ, ◌+◌, ◌-◌, ◌%◌, ◌^◌, ◌==◌, Bool, true, false, ◌||◌, Option, none, some, List, [], ◌∷◌,
  if◌then◌else◌, u64_mod, u32_mod,
}
use jsix.Prelude.Bits.{Word, word_and}
use jsix.Prelude.Assoc.{Assoc, find, erase}

-- The part of `obj::kobject` that the table uses. Releasing the last handle deletes the object.
pub record Kobject : Type 0 where
  pub kind : ℕ
  pub handle_count : ℕ
  pub deleted : Bool

-- `capability`, less its `id`, which is its key
pub record Capability : Type 0 where
  pub parent : ℕ
  pub holders : ℕ
  pub caps : Word
  pub kind : ℕ
  pub object : ℕ

pub record CapTable : Type 0 where
  pub entries : Assoc Capability
  pub count : ℕ

pub record State : Type 0 where
  pub table : CapTable
  pub objects : ℕ → Kobject

abbrev pub handle_invalid : ℕ
handle_invalid = 0

abbrev pub make_handle : ℕ → ℕ
make_handle count = (count + 1) % u64_mod

abbrev pub put_object : (ℕ → Kobject) → ℕ → Kobject → ℕ → Kobject
put_object objects o k i = if i == o then k else objects i

-- `handle_retain` and `handle_release` of `kobject`; the count is a `uint16_t`.
abbrev pub retain_object : (ℕ → Kobject) → ℕ → ℕ → Kobject
retain_object objects o =
    put_object objects o
      (record (objects o) { handle_count = ((objects o).handle_count + 1) % 2 ^ 16 })

abbrev pub release_object : (ℕ → Kobject) → ℕ → ℕ → Kobject
release_object objects o =
    let left = ((objects o).handle_count + (2 ^ 16 - 1)) % 2 ^ 16 in
    put_object objects o
      (record (objects o) { handle_count = left; deleted = (objects o).deleted || left == 0 })

-- `m_caps.insert` of a new capability, and `handle_retain` on its object
abbrev pub insert : State → Capability → State × ℕ
insert s c =
    let id = make_handle s.table.count in
    (
      record {
        table = record { entries = (id, c) ∷ s.table.entries; count = id };
        objects = retain_object s.objects c.object;
      },
      id,
    )

-- The state and the new handle.
pub create : State → ℕ → Word → State × ℕ
create s target rights = insert s (record {
  parent = handle_invalid;
  holders = 0;
  caps = rights;
  kind = (s.objects target).kind;
  object = target;
})

pub derive_from : State → ℕ → Word → Option Capability → State × ℕ
derive_from s base rights none = (s, handle_invalid)
derive_from s base rights (some existing) = insert s (record {
  parent = base;
  holders = 0;
  caps = word_and rights existing.caps;
  kind = existing.kind;
  object = existing.object;
})

pub derive : State → ℕ → Word → State × ℕ
unfolding derive_from
derive s base rights = derive_from s base rights (find s.table.entries base)

unfoldable pub find_without_retain : State → ℕ → Option Capability
find_without_retain s id = find s.table.entries id

-- Writing through the pointer that `find` returned.
abbrev pub set_holders : Assoc Capability → ℕ → ℕ → Assoc Capability
set_holders [] id n = []
set_holders ((k, c) ∷ m) id n =
    if k == id then (k, record c { holders = n }) ∷ m else (k, c) ∷ set_holders m id n

-- `++cap->holders`, a `uint32_t`, and the capability as it is then
unfoldable pub retain_found : State → ℕ → Option Capability → State × Option Capability
retain_found s id none = (s, none)
retain_found s id (some c) =
    let n = (c.holders + 1) % u32_mod in
    (
      record s { table = record s.table { entries = set_holders s.table.entries id n } },
      some (record c { holders = n }),
    )

unfoldable pub retain : State → ℕ → State × Option Capability
unfolding retain_found
retain s id = retain_found s id (find s.table.entries id)

unfoldable pub release_found : State → ℕ → Option Capability → State
release_found s id none = s
release_found s id (some c) =
    let n = (c.holders + (u32_mod - 1)) % u32_mod in
    if n == 0
    then record {
      table = record s.table { entries = erase s.table.entries id };
      objects = release_object s.objects c.object;
    }
    else record s { table = record s.table { entries = set_holders s.table.entries id n } }

unfoldable pub release : State → ℕ → State
unfolding release_found
release s id = release_found s id (find s.table.entries id)
