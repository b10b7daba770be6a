-- ===== src/Kernel/Process.antt =====
-- The handles of processes, in src/kernel/objects/process.cpp, over the table of capabilities. Processes
-- are named by numbers below `count`, and the set `m_handles` is a list without repetition in the order
-- that its iterator gives.
pub mod Handles
pub mod Removal
pub mod Listing
mod Tests
use jsix.Prelude.{
  ℕ, zero, suc, ◌+◌, ◌-◌, ◌==◌, Bool, true, false, not, Option, none, some, List, [], ◌∷◌,
  if◌then◌else◌,
}
use jsix.Prelude.Bits.{Word}
use jsix.Prelude.Occur.{count, remove}
use jsix.Kernel.Capabilities.{
  State, Capability, handle_invalid, retain, release, find_without_retain,
}

pub record Processes : Type 0 where
  pub caps : State
  pub handles : ℕ → List ℕ

abbrev pub put_handles : (ℕ → List ℕ) → ℕ → List ℕ → ℕ → List ℕ
put_handles f p hs i = if i == p then hs else f i

-- `contains` of the set, for handles other than the invalid one, 0. The empty slots of the set's array
-- have key 0, so that a search for 0 finds one; `get_handle` of the system calls refuses 0 before.
abbrev pub contains : List ℕ → ℕ → Bool
contains hs handle = not (count handle hs == 0)

abbrev pub add_to_set : List ℕ → ℕ → List ℕ
add_to_set hs handle = if contains hs handle then hs else handle ∷ hs

-- what `add_handle` does with what `retain` returned; `none` is its failed assertion
abbrev pub add_retained : Processes → ℕ → ℕ → State × Option Capability → Option Processes
add_retained s p handle (caps, none) = none
add_retained s p handle (caps, some c) =
    some
      (record { caps = caps; handles = put_handles s.handles p (add_to_set (s.handles p) handle) })

pub add_handle : Processes → ℕ → ℕ → Option Processes
add_handle s p handle =
    if handle == handle_invalid then some s else add_retained s p handle (retain s.caps handle)

pub remove_handle : Processes → ℕ → ℕ → Bool × Processes
remove_handle s p handle =
    if contains (s.handles p) handle
    then (
      true,
      record {
        caps = release s.caps handle;
        handles = put_handles s.handles p (remove handle (s.handles p));
      },
    )
    else (false, s)

abbrev pub has_handle : Processes → ℕ → ℕ → Bool
has_handle s p handle = contains (s.handles p) handle

-- `j6_handle_descriptor`
pub record HandleDescriptor : Type 0 where
  pub handle : ℕ
  pub caps : Word
  pub kind : ℕ

abbrev pub describe :
    ℕ → Option Capability → Option (List HandleDescriptor) → Option (List HandleDescriptor)
describe handle none rest = none
describe handle (some c) none = none
describe handle (some c) (some ds) =
    some (record { handle = handle; caps = c.caps; kind = c.kind } ∷ ds)

-- The loop of `list_handles`, which has filled `filled` descriptors and ends when there are `len`. The
-- descriptors are those that it writes, also past the end of the array.
pub list_from : State → ℕ → ℕ → List ℕ → Option (List HandleDescriptor)
list_from caps len filled [] = some []
list_from caps len filled (handle ∷ hs) =
    let rest = list_from caps len (filled + 1) hs in
    describe handle (find_without_retain caps handle) (if filled + 1 == len then some [] else rest)

abbrev pub size : List ℕ → ℕ
size [] = 0
size (h ∷ hs) = size hs + 1

-- The descriptors and the number of handles; `none` is a failed assertion.
pub list_handles : Processes → ℕ → ℕ → Option (List HandleDescriptor × ℕ)
unfolding list_from
list_handles s p len = elim (list_from s.caps len 0 (s.handles p)) [
  | none ↦ none
  | some ds ↦ some (ds, size (s.handles p))
]
