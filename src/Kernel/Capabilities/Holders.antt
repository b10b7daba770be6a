-- ===== src/Kernel/Capabilities/Holders.antt =====
-- The holders of a capability, from its creation to its last release.
use jsix.Prelude.{ℕ, ◌+◌, ◌-◌, ◌^◌, ◌<◌, ◌==◌, ◌≡◌, refl, ap, some, [], ◌∷◌, u32_mod, arith, ◌||◌}
use jsix.Prelude.Bits.{Word}
use jsix.Prelude.Assoc.{Assoc, find}
use jsix.Kernel.Capabilities.{
  Capability, State, create, set_holders, retain, retain_found, release, release_found,
}
use jsix.Kernel.Capabilities.Table.{find-set_holders}

set_holders-undo :
    (m : Assoc Capability) (id n : ℕ) (c : Capability)
    → find m id ≡ some c
    → set_holders (set_holders m id n) id c.holders ≡ m
set_holders-undo [] id n c e = refl
set_holders-undo ((k, d) ∷ m) id n c e = ground (arith, set_holders-undo m id n c)

retain-some :
    (s : State) (id : ℕ) (c : Capability)
    → find s.table.entries id ≡ some c
    → (retain s id).0 ≡ (retain_found s id (some c)).0
unfolding retain
retain-some s id c e = ap (λ o. (retain_found s id o).0) e

-- Releasing a capability right after retaining it restores the state, if it was held before and is
-- held less than 2^32 - 1 times.
release-retain :
    (s : State) (id : ℕ) {c : Capability}
    → find s.table.entries id ≡ some c
    → 0 < c.holders
    → c.holders + 1 < u32_mod
    → release (retain s id).0 id ≡ s
unfolding release retain retain_found release_found
release-retain s id {c} e held room = ground (
  arith,
  set_holders-undo s.table.entries id (c.holders + 1) c e,
  find-set_holders s.table.entries id (c.holders + 1) id,
)

-- A capability that is created, retained and released is gone: the table holds what it held before,
-- the object's handle count is as before, and the object is deleted if that count is 0.
create_lifecycle :
    (s : State) (target : ℕ) (rights : Word)
    → (s.objects target).handle_count + 1 < 2 ^ 16
    → let (made, id) = create s target rights in
      let done = release (retain made id).0 id in
      (done.table.entries ≡ s.table.entries)
      × ((done.objects target).handle_count ≡ (s.objects target).handle_count)
      × ((done.objects target).deleted
          ≡ ((s.objects target).deleted || (s.objects target).handle_count == 0))
unfolding create retain retain_found release release_found
create_lifecycle s target rights room = ground arith

-- A capability that was never retained is not removed by a release: its holders wrap around.
release_unheld :
    (s : State) (id : ℕ) {c : Capability}
    → find s.table.entries id ≡ some c
    → c.holders ≡ 0
    → find (release s id).table.entries id ≡ some (record c { holders = u32_mod - 1 })
unfolding release release_found
release_unheld s id {c} e h = ground (arith, find-set_holders s.table.entries id (u32_mod - 1) id)
