-- ===== src/Util/Deque/Refine.antt =====
-- Histories of operations on deque.h, against the same on a list.
use jsix.Prelude.{
  Bool-cases, inl, inr, ℕ, ◌<◌, ◌≡◌, refl, subst, Option, none, some, List, [], ◌∷◌, ◌++◌,
}
use jsix.Util.Deque.{
  Deque, push_front, push_back, pop_front, pop_back, first_item, last_item, empty, clear,
}
use jsix.Util.Deque.View.{view, IsValid}
use jsix.Util.Deque.Ends.{Holds, push_front-Holds, push_back-Holds}
use jsix.Util.Deque.Pops.{
  nothing, item, list_pop_front, list_pop_back, Yields, pop_front-Yields, pop_back-Yields,
}

pub data Op {ℓ} (A : Type ℓ) : Type ℓ where
  pushes_front : A → Op A
  pushes_back : A → Op A
  pops_front : Op A
  pops_back : Op A
  clears : Op A
  reads_first : Op A
  reads_last : Op A

-- The items that came out, and the state after; `none` is a failed `assert`.
module _ {ℓ} {A S : Type ℓ} where
  abbrev pub popped : Option (A × S) → Option (List A × S)
  popped none = none
  popped (some (x, s)) = some (x ∷ [], s)

  -- an item that is only read
  abbrev pub seen : Option A → S → Option (List A × S)
  seen none s = none
  seen (some x) s = some (x ∷ [], s)

  abbrev pub item_of : Option (A × S) → Option A
  item_of none = none
  item_of (some (x, s)) = some x

  abbrev pub after : List A → Option (List A × S) → Option (List A × S)
  after xs none = none
  after xs (some (ys, s)) = some (xs ++ ys, s)

  abbrev pub chain : (S → Option (List A × S)) → Option (List A × S) → Option (List A × S)
  chain rest none = none
  chain rest (some (xs, s)) = after xs (rest s)

module _ {ℓ} {A : Type ℓ} where
  abbrev pub list_step : List A → Op A → Option (List A × List A)
  list_step xs (pushes_front x) = some ([], x ∷ xs)
  list_step xs (pushes_back x) = some ([], xs ++ x ∷ [])
  list_step xs pops_front = popped (list_pop_front xs)
  list_step xs pops_back = popped (list_pop_back xs)
  list_step xs clears = some ([], [])
  list_step xs reads_first = seen (item_of (list_pop_front xs)) xs
  list_step xs reads_last = seen (item_of (list_pop_back xs)) xs

  unfoldable pub list_run : List A → List (Op A) → Option (List A × List A)
  list_run xs [] = some ([], xs)
  list_run xs (o ∷ os) = chain (λ ys. list_run ys os) (list_step xs o)

module _ {ℓ} {A : Type ℓ} (n : ℕ) (blank : A) where
  unfoldable pub step : Deque A → Op A → Option (List A × Deque A)
  step d (pushes_front x) = some ([], push_front n blank d x)
  step d (pushes_back x) = some ([], push_back n blank d x)
  step d pops_front = popped (pop_front n blank d)
  step d pops_back = popped (pop_back n blank d)
  step d clears = some ([], clear n blank d)
  step d reads_first = seen (first_item n blank d) d
  step d reads_last = seen (last_item n blank d) d

  unfoldable pub run : Deque A → List (Op A) → Option (List A × Deque A)
  run d [] = some ([], d)
  run d (o ∷ os) = chain (λ e. run e os) (step d o)

-- Both fail, or the same items came out and the deque is valid and holds the list.
pub data Agrees {ℓ} {A : Type ℓ} (n : ℕ)
    : Option (List A × Deque A) → Option (List A × List A) → Type ℓ where
  both_fail : Agrees n none none
  both_run :
      (out : List A) (d : Deque A) (xs : List A)
      → Holds n d xs
      → Agrees n (some (out, d)) (some (out, xs))

module _ {ℓ} {A : Type ℓ} (n : ℕ) where
  Agrees-popped :
      (r : Option (A × Deque A)) (s : Option (A × List A))
      → Yields n r s
      → Agrees n (popped r) (popped s)
  Agrees-popped _ _ nothing = both_fail
  Agrees-popped _ _ (item x d xs h) = both_run (x ∷ []) d xs h

  Agrees-seen :
      (r : Option (A × Deque A)) (s : Option (A × List A)) (d : Deque A)
      → Yields n r s
      → IsValid n d
      → Agrees n (seen (item_of r) d) (seen (item_of s) (view n d))
  Agrees-seen _ _ d nothing v = both_fail
  Agrees-seen _ _ d (item x e xs h) v =
      both_run (x ∷ []) d (view n d) (record { valid = v; same = refl })

  first_item-pop_front :
      (blank : A) (d : Deque A) → item_of (pop_front n blank d) ≡ first_item n blank d
  unfolding pop_front first_item
  first_item-pop_front blank d = elim (Bool-cases (empty n blank d)) [
    | inl e ↦ rw e refl
    | inr e ↦ rw e refl
  ]

  last_item-pop_back :
      (blank : A) (d : Deque A) → item_of (pop_back n blank d) ≡ last_item n blank d
  unfolding pop_back last_item
  last_item-pop_back blank d = elim (Bool-cases (empty n blank d)) [
    | inl e ↦ rw e refl
    | inr e ↦ rw e refl
  ]

  Agrees-after :
      (out : List A) (r : Option (List A × Deque A)) (s : Option (List A × List A))
      → Agrees n r s
      → Agrees n (after out r) (after out s)
  Agrees-after out _ _ both_fail = both_fail
  Agrees-after out _ _ (both_run more d xs h) = both_run (out ++ more) d xs h

  step-Agrees :
      (blank : A) (d : Deque A) (o : Op A)
      → 0 < n
      → IsValid n d
      → Agrees n (step n blank d o) (list_step (view n d) o)
  unfolding step clear
  step-Agrees blank d (pushes_front x) pos v = both_run [] _ _ (push_front-Holds n blank x d pos v)
  step-Agrees blank d (pushes_back x) pos v = both_run [] _ _ (push_back-Holds n blank x d pos v)
  step-Agrees blank d pops_front pos v = Agrees-popped _ _ (pop_front-Yields n blank d v)
  step-Agrees blank d pops_back pos v = Agrees-popped _ _ (pop_back-Yields n blank d v)
  step-Agrees blank d clears pos v = both_run [] _ _ (record { valid = (refl, refl); same = refl })
  step-Agrees blank d reads_first pos v =
      subst (λ o. Agrees n (seen o d) (list_step (view n d) reads_first))
        (first_item-pop_front blank d)
        (Agrees-seen (pop_front n blank d) (list_pop_front (view n d)) d
          (pop_front-Yields n blank d v) v)
  step-Agrees blank d reads_last pos v =
      subst (λ o. Agrees n (seen o d) (list_step (view n d) reads_last))
        (last_item-pop_back blank d)
        (Agrees-seen (pop_back n blank d) (list_pop_back (view n d)) d (pop_back-Yields n blank d v)
          v)

  chain-Agrees :
      (f : Deque A → Option (List A × Deque A)) (g : List A → Option (List A × List A))
      → ((d : Deque A) → IsValid n d → Agrees n (f d) (g (view n d)))
      → (r : Option (List A × Deque A)) (s : Option (List A × List A)) → Agrees n r s
      → Agrees n (chain f r) (chain g s)
  chain-Agrees f g same _ _ both_fail = both_fail
  chain-Agrees f g same _ _ (both_run out d xs h) =
      Agrees-after out (f d) (g xs) (subst (λ ys. Agrees n (f d) (g ys)) h.same (same d h.valid))

  -- Any history of pushes, pops, reads of an end and clears on a valid deque, with nodes of at least one item, gives
  -- the items that it gives on a list, and leaves a valid deque that holds what the list holds; it
  -- fails an `assert` just where the list is popped or read while it is empty.
  pub run-Agrees :
      (blank : A) (d : Deque A) (os : List (Op A))
      → 0 < n
      → IsValid n d
      → Agrees n (run n blank d os) (list_run (view n d) os)
  unfolding run list_run
  run-Agrees blank d [] pos v = both_run [] d (view n d) (record { valid = v; same = refl })
  run-Agrees blank d (o ∷ os) pos v =
      chain-Agrees (λ e. run n blank e os) (λ ys. list_run ys os)
        (λ e w. run-Agrees blank e os pos w) (step n blank d o) (list_step (view n d) o)
        (step-Agrees blank d o pos v)
