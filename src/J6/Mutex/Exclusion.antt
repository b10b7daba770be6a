-- ===== src/J6/Mutex/Exclusion.antt =====
-- What holds of src/libraries/j6/mutex.cpp in every state that threads can reach.
use jsix.Prelude.{ℕ, ◌≤◌, ◌==◌, ◌≡◌, refl, Bool, true, false, not, ◌&&◌, if◌then◌else◌, arith}
use jsix.J6.Mutex.{
  Phase, outside, locking, marking, waiting, queuing, sleeping, holding, storing, waking, Mutex,
  put_phase, act_in, act, Step, acts, wakes, wakes_nobody, Reached, start, next,
}

-- A thread that has locked the mutex, up to the store that releases it.
abbrev owns : Phase → Bool
owns holding = true
owns storing = true
owns _ = false

-- The word is not 0 just while one thread owns the mutex.
record IsOwned (word : ℕ) (f : ℕ → Phase) : Type 0 where
  owner : ℕ
  bound : word ≤ 2
  owned : (i : ℕ) → owns (f i) ≡ not (word == 0) && i == owner

act_in-IsOwned :
    (word : ℕ) (f : ℕ → Phase) (t : ℕ) (p : Phase)
    → f t ≡ p
    → IsOwned word f
    → IsOwned (act_in p word).0 (put_phase f t (act_in p word).1)
act_in-IsOwned word f t outside e v = record {
  owner = v.owner;
  bound = v.bound;
  owned = λ i. ground (arith, v.owned i, v.owned t, e);
}
act_in-IsOwned word f t locking e v = record {
  owner = if word == 0 then t else v.owner;
  bound = ground (arith, v.bound);
  owned = λ i. ground (arith, v.owned i, v.owned t, e);
}
act_in-IsOwned word f t marking e v = record {
  owner = if word == 0 then t else v.owner;
  bound = ground (arith, v.bound);
  owned = λ i. ground (arith, v.owned i, v.owned t, e);
}
act_in-IsOwned word f t waiting e v = record {
  owner = v.owner;
  bound = ground (arith, v.bound);
  owned = λ i. ground (arith, v.owned i, v.owned t, e);
}
act_in-IsOwned word f t queuing e v = record {
  owner = v.owner;
  bound = v.bound;
  owned = λ i. ground (arith, v.owned i, v.owned t, e);
}
act_in-IsOwned word f t sleeping e v = record {
  owner = v.owner;
  bound = v.bound;
  owned = λ i. ground (arith, v.owned i, v.owned t, e);
}
act_in-IsOwned word f t holding e v = record {
  owner = v.owner;
  bound = ground (arith, v.bound, v.owned t, e);
  owned = λ i. ground (arith, v.owned i, v.owned t, e, v.bound);
}
act_in-IsOwned word f t storing e v = record {
  owner = v.owner;
  bound = omega arith;
  owned = λ i. ground (arith, v.owned i, v.owned t, e);
}
act_in-IsOwned word f t waking e v = record {
  owner = v.owner;
  bound = v.bound;
  owned = λ i. ground (arith, v.owned i, v.owned t, e);
}

act-IsOwned :
    (m : Mutex) (t : ℕ) → IsOwned m.word m.phases → IsOwned (act m t).word (act m t).phases
unfolding act
act-IsOwned m t v = act_in-IsOwned m.word m.phases t (m.phases t) refl v

Step-IsOwned : (m n : Mutex) → Step m n → IsOwned m.word m.phases → IsOwned n.word n.phases
Step-IsOwned m _ (acts t) v = act-IsOwned m t v
Step-IsOwned m _ (wakes t u e a) v = record {
  owner = v.owner;
  bound = v.bound;
  owned = λ i. ground (arith, v.owned i, e, a);
}
Step-IsOwned m _ (wakes_nobody t e none_sleeps) v = record {
  owner = v.owner;
  bound = v.bound;
  owned = λ i. ground (arith, v.owned i, e);
}

reached-IsOwned : (m : Mutex) → Reached m → IsOwned m.word m.phases
reached-IsOwned _ start = record { owner = 0; bound = omega arith; owned = λ i. refl }
reached-IsOwned _ (next m n r s) = Step-IsOwned m n s (reached-IsOwned m r)

-- In no state that threads can reach do two threads hold the mutex.
pub mutual_exclusion :
    (m : Mutex) (t u : ℕ) → Reached m → m.phases t ≡ holding → m.phases u ≡ holding → t ≡ u
mutual_exclusion m t u r a b =
    let v = reached-IsOwned m r in ground (arith, v.owned t, v.owned u, a, b)
