-- ===== src/Util/Spinlock/Exclusion.antt =====
-- What holds of src/libraries/util/spinlock.cpp in every state that threads can reach.
use jsix.Prelude.{ℕ, ◌≡◌, ◌∙◌, refl, sym, Bool, true, false, List, [], ◌∷◌, arith, one_if}
use jsix.Util.Spinlock.{
  Phase, waiting, holding, handing, Spinlock, act, Step, acts, calls_acquire, calls_try_acquire,
  Reached, start, step,
}
use jsix.Util.Spinlock.Queue.{
  in_queue, at_head, IsQueue, HasQueue, act_in-HasQueue, call_acquire-IsQueue,
  call_try_acquire-IsQueue, first_of, past_wait, not_waiting,
}

act-HasQueue : (s : Spinlock) (t : ℕ) (q : List ℕ) → IsQueue s q → HasQueue (act s t)
unfolding act
act-HasQueue s t q v = act_in-HasQueue s t q (s.phases t) refl v

Step-HasQueue : (s t : Spinlock) (q : List ℕ) → Step s t → IsQueue s q → HasQueue t
Step-HasQueue s _ q (acts t) v = act-HasQueue s t q v
Step-HasQueue s _ q (calls_acquire t e) v = (q, call_acquire-IsQueue s t q e v)
Step-HasQueue s _ q (calls_try_acquire t e) v = (q, call_try_acquire-IsQueue s t q e v)

Reached-HasQueue : (s : Spinlock) → Reached s → HasQueue s
Reached-HasQueue _ start = ([], record { shape = refl; members = λ i. refl; fresh = λ i. tt })
Reached-HasQueue _ (step s t r k) = let (q, v) = Reached-HasQueue s r in Step-HasQueue s t q k v

-- A thread that holds the lock: from the return of `acquire` to the last access of `release`.
abbrev pub owns : Phase → Bool
owns holding = true
owns handing = true
owns _ = false

owner_first :
    (s : Spinlock) (t : ℕ) (q : List ℕ)
    → IsQueue s q
    → owns (s.phases t) ≡ true
    → (r : List ℕ) × (q ≡ t ∷ r)
owner_first s t q v o =
    first_of s t q v (owner_in (s.phases t) o) (not_waiting s t (owner_past (s.phases t) o))
  where
    owner_in : (p : Phase) → owns p ≡ true → in_queue p ≡ true
    owner_in p e = ground (arith, e)

    owner_past : (p : Phase) → owns p ≡ true → past_wait p ≡ true
    owner_past p e = ground (arith, e)

same_first : (t u : ℕ) (q r : List ℕ) → t ∷ q ≡ u ∷ r → t ≡ u
same_first t u q r e = ground (arith, e)

-- In no state that threads can reach do two threads own the spinlock, whichever of `acquire` and
-- `try_acquire` they used; a thread owns it until `release` has told the next one.
pub single_owner :
    (s : Spinlock) (t u : ℕ)
    → Reached s
    → owns (s.phases t) ≡ true
    → owns (s.phases u) ≡ true
    → t ≡ u
single_owner s t u r a b =
    let (q, v) = Reached-HasQueue s r in
    let (x, e) = owner_first s t q v a in
    let (y, f) = owner_first s u q v b in same_first t u x y (sym e ∙ f)

-- In every state that threads can reach in which a thread waits, some thread owns the spinlock, is
-- about to, or has been told that it does.
pub waiter-first :
    (s : Spinlock) (t : ℕ)
    → Reached s
    → s.phases t ≡ waiting
    → (h : ℕ) × (at_head (s.phases h) (s.blocked h) ≡ true)
waiter-first s t r e = let (q, v) = Reached-HasQueue s r in first_found q v
  where
    first_found : (q : List ℕ) → IsQueue s q → (h : ℕ) × (at_head (s.phases h) (s.blocked h) ≡ true)
    first_found [] v = absurd (nobody (v.members t))
      where
        nobody : ¬ (0 ≡ one_if (in_queue (s.phases t)))
        nobody c = ground (arith, c, e)
    first_found (h ∷ q) v = (h, v.shape.0)
