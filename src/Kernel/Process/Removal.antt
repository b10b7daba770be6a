-- ===== src/Kernel/Process/Removal.antt =====
-- `remove_handle` of src/kernel/objects/process.cpp, and the capabilities of the handles that are left.
use jsix.Prelude.{
  ==→eq, ℕ, ◌+◌, ◌-◌, ◌%◌, ◌≤◌, ◌<◌, ◌≡◌, ◌∙◌, ◌==◌, inl, inr, refl, sym, ap, subst, Bool, false,
  some, if◌then◌else◌, arith, Bool-cases, Option-cases, u32_mod,
}
use jsix.Prelude.Occur.{count, remove, count-remove_self, count-remove_ne}
use jsix.Prelude.Assoc.{find, KeysBelow, erase-KeysBelow}
use jsix.Kernel.Capabilities.{State, Capability, release, release_found}
use jsix.Kernel.Capabilities.Table.{set_holders-KeysBelow}
use jsix.Kernel.Process.{Processes, put_handles, contains, remove_handle}
use jsix.Kernel.Process.Handles.{
  held, held-put, held-above, holders_of, holders-set_holders, holders-erase, put_handles-once,
  AreHeld,
}

-- the holders that `release` leaves
holders-released :
    (s : State) (handle k : ℕ) (c : Capability)
    → KeysBelow s.table.count s.table.entries
    → find s.table.entries handle ≡ some c
    → 0 < c.holders
    → c.holders < u32_mod
    → holders_of (find (release s handle).table.entries k)
      ≡ (if k == handle then c.holders - 1 else holders_of (find s.table.entries k))
unfolding release release_found
holders-released s handle k c keys e pos small =
    let m = s.table.entries in
    let left : (c.holders + (u32_mod - 1)) % u32_mod ≡ c.holders - 1 = omega arith in
    rw (e, left)
      (elim (Bool-cases (c.holders - 1 == 0)) [
        | inl z ↦ rw z (
            holders-erase m handle k s.table.count keys
            ∙ ap (λ x. if k == handle then x else holders_of (find m k))
                (sym (==→eq (c.holders - 1) 0 z)))
        | inr z ↦ rw z (holders-set_holders m handle k (c.holders - 1) c e)
      ])

released-KeysBelow :
    (s : State) (handle : ℕ) (c : Capability)
    → KeysBelow s.table.count s.table.entries
    → find s.table.entries handle ≡ some c
    → KeysBelow (release s handle).table.count (release s handle).table.entries
unfolding release release_found
released-KeysBelow s handle c keys e =
    rw e (elim (Bool-cases ((c.holders + (u32_mod - 1)) % u32_mod == 0)) [
      | inl z ↦ rw z (erase-KeysBelow s.table.count handle s.table.entries keys)
      | inr z ↦ rw z (
          set_holders-KeysBelow s.table.entries handle ((c.holders + (u32_mod - 1)) % u32_mod)
            s.table.count keys)
    ])

-- What `remove_handle` returns.
pub record IsRemoved (n : ℕ) (s : Processes) (p handle : ℕ) (r : Bool × Processes) : Type 0 where
  pub held_before : r.0 ≡ contains (s.handles p) handle
  pub gone : contains (r.1.handles p) handle ≡ false
  pub kept : AreHeld n r.1
  pub holders : holders_of (find r.1.caps.table.entries handle) ≡ (
      if r.0
      then holders_of (find s.caps.table.entries handle) - 1
      else holders_of (find s.caps.table.entries handle))

module _ (n : ℕ) (s : Processes) (p handle : ℕ) (ok : AreHeld n s) (h : p < n) where
  -- A handle of a process has a capability.
  pub cap_of_held :
      (k : ℕ)
      → 1 ≤ count k (s.handles p)
      → (c : Capability) × (find s.caps.table.entries k ≡ some c) × (0 < c.holders)
  cap_of_held k has =
      let holders : 1 ≤ holders_of (find s.caps.table.entries k) =
        omega (arith, held-above s.handles p k n h, ok.enough k, has) in
      elim (Option-cases (find s.caps.table.entries k)) [
        | inl e ↦
            absurd (let z : 1 ≤ 0 = subst (λ o. 1 ≤ holders_of o) e holders in omega (arith, z))
        | inr (c, e) ↦ (c, e, subst (λ o. 1 ≤ holders_of o) e holders)
      ]

  abbrev removed : Processes
  removed = record {
    caps = release s.caps handle;
    handles = put_handles s.handles p (remove handle (s.handles p));
  }

  removed_gone : 1 ≤ count handle (s.handles p) → contains (removed.handles p) handle ≡ false
  removed_gone has = ground (arith, count-remove_self handle (s.handles p) has, ok.once p handle)

  removed_holders :
      (c : Capability)
      → find s.caps.table.entries handle ≡ some c
      → 0 < c.holders
      → holders_of (find (release s.caps handle).table.entries handle)
        ≡ holders_of (find s.caps.table.entries handle) - 1
  removed_holders c e pos =
      let less : c.holders < u32_mod = subst (λ o. holders_of o < u32_mod) e (ok.small handle) in
      let here : holders_of (find s.caps.table.entries handle) ≡ c.holders = rw e refl in
      ground (arith, holders-released s.caps handle handle c ok.keys e pos less, here)

  removed-AreHeld :
      (c : Capability)
      → 1 ≤ count handle (s.handles p)
      → find s.caps.table.entries handle ≡ some c
      → 0 < c.holders
      → AreHeld n removed
  removed-AreHeld c has e pos =
      let less : c.holders < u32_mod = subst (λ o. holders_of o < u32_mod) e (ok.small handle) in
      let after = λ (k : ℕ). holders-released s.caps handle k c ok.keys e pos less in
      let moved = λ (k : ℕ). held-put s.handles p k n (remove handle (s.handles p)) h in
      record {
        keys = released-KeysBelow s.caps handle c ok.keys e;
        enough = λ k. elim (Bool-cases (k == handle)) [
          | inl q ↦ rw (==→eq k handle q) (
              ground (
                arith,
                after handle,
                moved handle,
                count-remove_self handle (s.handles p) has,
                subst (λ o. held s.handles handle n ≤ holders_of o) e (ok.enough handle),
              ))
          | inr q ↦
              ground
                (arith, q, after k, moved k, count-remove_ne k handle (s.handles p), ok.enough k)
        ];
        small = λ k. ground (arith, after k, ok.small k, less);
        once = put_handles-once s.handles p (remove handle (s.handles p)) ok.once (λ k.
            elim (Bool-cases (k == handle)) [
              | inl q ↦
                  rw (==→eq k handle q)
                    (ground (arith, count-remove_self handle (s.handles p) has, ok.once p handle))
              | inr q ↦ ground (arith, q, count-remove_ne k handle (s.handles p), ok.once p k)
            ]);
      }

  -- `remove_handle` of one of the first `n` processes, under the condition on holders: the process no
  -- longer has the handle, the condition still holds, and if it had the handle, which the result says,
  -- its capability has one holder less, or is gone with the last one.
  pub remove_handle-IsRemoved : IsRemoved n s p handle (remove_handle s p handle)
  unfolding remove_handle
  remove_handle-IsRemoved = elim (Bool-cases (contains (s.handles p) handle)) [
    | inl has ↦
        let some_count : 1 ≤ count handle (s.handles p) = ground (arith, has) in
        let (c, e, pos) = cap_of_held handle some_count in
        rw has (record {
          held_before = sym has;
          gone = removed_gone some_count;
          kept = removed-AreHeld c some_count e pos;
          holders = removed_holders c e pos;
        })
    | inr hasnt ↦
        rw hasnt (record { held_before = sym hasnt; gone = hasnt; kept = ok; holders = refl })
  ]
