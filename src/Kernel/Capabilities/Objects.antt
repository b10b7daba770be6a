-- ===== src/Kernel/Capabilities/Objects.antt =====
-- The objects behind the capabilities: an object lives while a capability refers to it.
use jsix.Prelude.{
  one_if, ℕ, ◌+◌, ◌^◌, ◌≤◌, ◌<◌, ◌==◌, ◌≡◌, true, false, Option, none, some, [], ◌∷◌,
}
use jsix.Prelude.Assoc.{Assoc}
use jsix.Kernel.Capabilities.{Capability, State}
use jsix.Kernel.Capabilities.Table.{Op, creates, derives, retains, releases}

-- how many capabilities refer to an object
abbrev pub refs : ℕ → Assoc Capability → ℕ
refs o [] = 0
refs o ((k, c) ∷ m) = one_if (o == c.object) + refs o m

abbrev refs_found : ℕ → Option Capability → ℕ
refs_found o none = 0
refs_found o (some c) = one_if (o == c.object)

-- Every capability counts in the handle count of its object, and no deleted object has one.
pub record IsBacked (s : State) : Type 0 where
  pub counted : (o : ℕ) → refs o s.table.entries ≤ (s.objects o).handle_count
  pub small : (o : ℕ) → (s.objects o).handle_count < 2 ^ 16
  pub alive : (o : ℕ) → (s.objects o).deleted ≡ true → refs o s.table.entries ≡ 0

-- A capability is created only for an object that is not deleted.
abbrev pub IsAllowed : State → Op → Type 0
IsAllowed s (creates target rights) = (s.objects target).deleted ≡ false
IsAllowed s (derives base rights) = Unit {0}
IsAllowed s (retains id) = Unit {0}
IsAllowed s (releases id) = Unit {0}
