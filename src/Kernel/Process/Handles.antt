-- ===== src/Kernel/Process/Handles.antt =====
-- The handles of processes keep their capabilities: src/kernel/objects/process.cpp.
use jsix.Prelude.{
  ==→eq, ℕ, zero, suc, ◌+◌, ◌%◌, ◌≤◌, ◌<◌, ◌≡◌, ◌⊎◌, ◌==◌, inl, inr, refl, ap, subst, true, false,
  Option, none, some, List, [], if◌then◌else◌, arith, Bool-cases, Option-cases, u32_mod,
}
use jsix.Prelude.Occur.{count}
use jsix.Prelude.Assoc.{Assoc, find, erase, KeysBelow, find-erase_ne, find-erase_self}
use jsix.Kernel.Capabilities.{State, Capability, handle_invalid, retain, retain_found, set_holders}
use jsix.Kernel.Capabilities.Table.{find-set_holders, set_holders-KeysBelow, relabel}
use jsix.Kernel.Process.{Processes, put_handles, contains, add_to_set, add_handle}

-- How many of the first `n` processes have a handle.
abbrev pub held : (ℕ → List ℕ) → ℕ → ℕ → ℕ
held f handle zero = 0
held f handle (suc n) = count handle (f n) + held f handle n

abbrev pub holders_of : Option Capability → ℕ
holders_of none = 0
holders_of (some c) = c.holders

-- No capability has fewer holders than there are processes with its handle, and no process has a handle
-- twice.
pub record AreHeld (n : ℕ) (s : Processes) : Type 0 where
  pub keys : KeysBelow s.caps.table.count s.caps.table.entries
  pub enough :
      (handle : ℕ) → held s.handles handle n ≤ holders_of (find s.caps.table.entries handle)
  pub small : (handle : ℕ) → holders_of (find s.caps.table.entries handle) < u32_mod
  pub once : (p handle : ℕ) → count handle (s.handles p) ≤ 1

held-put_other :
    (f : ℕ → List ℕ) (p handle n : ℕ) (hs : List ℕ)
    → n ≤ p
    → held (put_handles f p hs) handle n ≡ held f handle n
held-put_other f p handle zero hs h = refl
held-put_other f p handle (suc n) hs h =
    ground (arith, held-put_other f p handle n hs (omega arith))

pub held-put :
    (f : ℕ → List ℕ) (p handle n : ℕ) (hs : List ℕ)
    → p < n
    → held (put_handles f p hs) handle n + count handle (f p) ≡ held f handle n + count handle hs
held-put f p handle zero hs h = absurd (omega arith)
held-put f p handle (suc n) hs h = elim (Bool-cases (n == p)) [
  | inl e ↦
      let here : n ≡ p = ground (arith, e) in
      rw e (
        omega
          (arith, held-put_other f p handle n hs (omega arith), ap (λ i. count handle (f i)) here))
  | inr e ↦ rw e (omega (arith, held-put f p handle n hs (ground (arith, e))))
]

pub held-above : (f : ℕ → List ℕ) (p handle n : ℕ) → p < n → count handle (f p) ≤ held f handle n
held-above f p handle n h = omega (arith, held-put f p handle n [] h)

count-add_to_set :
    (hs : List ℕ) (handle k : ℕ)
    → count k (add_to_set hs handle)
      ≡ (if k == handle then (if contains hs handle then count k hs else 1) else count k hs)
count-add_to_set hs handle k = elim (Bool-cases (count handle hs == 0)) [
  | inl e ↦ rw e (ground (arith, e))
  | inr e ↦ rw e (ground arith)
]

pub holders-set_holders :
    (m : Assoc Capability) (handle k x : ℕ) (c : Capability)
    → find m handle ≡ some c
    → holders_of (find (set_holders m handle x) k)
      ≡ (if k == handle then x else holders_of (find m k))
holders-set_holders m handle k x c e = elim (Bool-cases (k == handle)) [
  | inl q ↦ rw (find-set_holders m handle x k, q, ==→eq k handle q, e) refl
  | inr q ↦ rw (find-set_holders m handle x k, q) (unchanged (find m k))
]
  where
    unchanged : (o : Option Capability) → holders_of (relabel false x o) ≡ holders_of o
    unchanged none = refl
    unchanged (some d) = refl

pub holders-erase :
    (m : Assoc Capability) (handle k n : ℕ)
    → KeysBelow n m
    → holders_of (find (erase m handle) k) ≡ (if k == handle then 0 else holders_of (find m k))
holders-erase m handle k n keys = elim (Bool-cases (k == handle)) [
  | inl q ↦ rw (q, ==→eq k handle q, find-erase_self n handle m keys) refl
  | inr q ↦ rw (q, find-erase_ne handle k m (λ z. ground (arith, q, z))) refl
]

-- What `add_handle` returns: nothing was to be done, or there is no such capability, or the process has
-- the handle.
abbrev pub IsAdded : ℕ → Processes → ℕ → ℕ → Option Processes → Type 0
IsAdded n s p handle r =
    ((handle ≡ handle_invalid) × (r ≡ some s))
    ⊎ (((find s.caps.table.entries handle ≡ none) × (r ≡ none))
        ⊎ ((t : Processes) × (r ≡ some t)
            × AreHeld n t
            × (contains (t.handles p) handle ≡ true)
            × (holders_of (find t.caps.table.entries handle)
                ≡ holders_of (find s.caps.table.entries handle) + 1)))

pub put_handles-once :
    (f : ℕ → List ℕ) (p : ℕ) (hs : List ℕ)
    → ((q k : ℕ) → count k (f q) ≤ 1)
    → ((k : ℕ) → count k hs ≤ 1)
    → (q k : ℕ) → count k (put_handles f p hs q) ≤ 1
put_handles-once f p hs all here q k = elim (Bool-cases (q == p)) [
  | inl e ↦ rw e (here k)
  | inr e ↦ rw e (all q k)
]

retain-none :
    (s : State) (handle : ℕ) → find s.table.entries handle ≡ none → retain s handle ≡ (s, none)
unfolding retain retain_found
retain-none s handle e = rw e refl

retain-some :
    (s : State) (handle : ℕ) (c : Capability)
    → find s.table.entries handle ≡ some c
    → c.holders + 1 < u32_mod
    → retain s handle ≡ (
      record s {
        table = record s.table { entries = set_holders s.table.entries handle (c.holders + 1) };
      },
      some (record c { holders = c.holders + 1 }),
    )
unfolding retain retain_found
retain-some s handle c e room = rw (e, whole (c.holders + 1) room) refl
  where
    whole : (k : ℕ) → k < u32_mod → k % u32_mod ≡ k
    whole k h = omega arith

module _ (n : ℕ) (s : Processes) (p handle : ℕ) (ok : AreHeld n s) (h : p < n) where
  abbrev retained : Capability → Processes
  retained c = record {
    caps = record s.caps {
      table = record s.caps.table {
        entries = set_holders s.caps.table.entries handle (c.holders + 1);
      };
    };
    handles = put_handles s.handles p (add_to_set (s.handles p) handle);
  }

  enough_here :
      (c : Capability)
      → find s.caps.table.entries handle ≡ some c
      → held (put_handles s.handles p (add_to_set (s.handles p) handle)) handle n
        ≤ holders_of (find (set_holders s.caps.table.entries handle (c.holders + 1)) handle)
  enough_here c e =
      let there : holders_of (find s.caps.table.entries handle) ≡ c.holders = rw e refl in
      ground (
        arith,
        holders-set_holders s.caps.table.entries handle handle (c.holders + 1) c e,
        held-put s.handles p handle n (add_to_set (s.handles p) handle) h,
        count-add_to_set (s.handles p) handle handle,
        ok.enough handle,
        there,
      )

  retained-AreHeld :
      (c : Capability)
      → find s.caps.table.entries handle ≡ some c
      → c.holders + 1 < u32_mod
      → AreHeld n (retained c)
  retained-AreHeld c e room =
      let m = s.caps.table.entries in
      let there : holders_of (find m handle) ≡ c.holders = rw e refl in
      record {
        keys = set_holders-KeysBelow m handle (c.holders + 1) s.caps.table.count ok.keys;
        enough = λ k. elim (Bool-cases (k == handle)) [
          | inl q ↦ rw (==→eq k handle q) (enough_here c e)
          | inr q ↦ ground (
            arith,
            q,
            holders-set_holders m handle k (c.holders + 1) c e,
            held-put s.handles p k n (add_to_set (s.handles p) handle) h,
            count-add_to_set (s.handles p) handle k,
            ok.enough k,
          )
        ];
        small = λ k. ground (arith, holders-set_holders m handle k (c.holders + 1) c e, ok.small k);
        once =
            put_handles-once s.handles p (add_to_set (s.handles p) handle) ok.once
              (λ k. ground (arith, count-add_to_set (s.handles p) handle k, ok.once p k));
      }

  has_it : contains (put_handles s.handles p (add_to_set (s.handles p) handle) p) handle ≡ true
  has_it = ground (arith, count-add_to_set (s.handles p) handle handle)

  held_by :
      (c : Capability)
      → find s.caps.table.entries handle ≡ some c
      → holders_of (find s.caps.table.entries handle) ≡ c.holders
  held_by c e = rw e refl

  -- `add_handle` for one of the first `n` processes, when each capability has at least as many holders
  -- as there are processes with its handle and there is room for one more holder: the invalid handle is
  -- ignored, the assertion fails when there is no such capability, and otherwise the process has the
  -- handle, its capability has one more holder, and the condition on holders still holds.
  pub add_handle-IsAdded :
      holders_of (find s.caps.table.entries handle) + 1 < u32_mod
      → IsAdded n s p handle (add_handle s p handle)
  unfolding add_handle
  add_handle-IsAdded room = elim (Bool-cases (handle == handle_invalid)) [
    | inl z ↦ rw z (inl (==→eq handle handle_invalid z, refl))
    | inr z ↦ elim (Option-cases (find s.caps.table.entries handle)) [
      | inl e ↦ rw (z, retain-none s.caps handle e) (inr (inl (e, refl)))
      | inr (c, e) ↦
          let fits : c.holders + 1 < u32_mod = subst (λ o. holders_of o + 1 < u32_mod) e room in
          rw (z, retain-some s.caps handle c e fits)
            (inr (
              inr (
                retained c,
                refl,
                retained-AreHeld c e fits,
                has_it,
                ground (
                  arith,
                  holders-set_holders s.caps.table.entries handle handle (c.holders + 1) c e,
                  held_by c e,
                ),
              )))
    ]
  ]
