-- ===== src/Util/Deque/Pops.antt =====
-- pop_front and pop_back of deque.h on a valid deque.
use jsix.Prelude.{
  ℕ, suc, ◌+◌, ◌-◌, ◌<◌, ◌==◌, ◌≡◌, ◌≢◌, inl, inr, ◌∙◌, refl, sym, ap, subst, true, false, ◌&&◌,
  ◌||◌, Option, none, some, List, [], ◌∷◌, ◌++◌, if◌then◌else◌, arith, Bool-cases,
}
use jsix.Util.Deque.{
  Node, Deque, back_item, front_item, drop_back, is_nil, is_single, leave_front, leave_back,
  pop_front, pop_back, empty,
}
use jsix.Util.Deque.View.{range, items, view, HasBounds, IsValid, items-back, items-drop_back}
use jsix.Util.Deque.Ends.{Holds, deque_of, first_below}

module _ {ℓ} {A : Type ℓ} where
  abbrev pub list_pop_front : List A → Option (A × List A)
  list_pop_front [] = none
  list_pop_front (x ∷ xs) = some (x, xs)

  abbrev pub under : A → Option (A × List A) → Option (A × List A)
  under x none = some (x, [])
  under x (some (y, ys)) = some (y, x ∷ ys)

  abbrev pub list_pop_back : List A → Option (A × List A)
  list_pop_back [] = none
  list_pop_back (x ∷ xs) = under x (list_pop_back xs)

  list_pop_back-append : (xs : List A) (x : A) → list_pop_back (xs ++ x ∷ []) ≡ some (x, xs)
  list_pop_back-append [] x = refl
  list_pop_back-append (y ∷ ys) x = ap (under y) (list_pop_back-append ys x)

module _ {ℓ} {A : Type ℓ} (n : ℕ) where
  -- The same item, and a valid deque of the same items.
  pub data Yields : Option (A × Deque A) → Option (A × List A) → Type ℓ where
    nothing : Yields none none
    item : (x : A) (d : Deque A) (xs : List A) → Holds n d xs → Yields (some (x, d)) (some (x, xs))

  empty-nil :
      (first next : ℕ) (fs : List (Node A))
      → is_nil fs || is_single fs && first == next ≡ true
      → items n first next fs ≡ []
  empty-nil first next [] e = refl
  empty-nil first next (f ∷ []) e =
      let none_left : next - first ≡ 0 = ground (arith, e) in ap (range f first) none_left
  empty-nil first next (f ∷ g ∷ fs) e = ground arith

  -- A deque that is not empty has a node, with an item in it if it is the only one.
  data Full (first next : ℕ) : List (Node A) → Type ℓ where
    full : (f : Node A) (fs : List (Node A)) → (fs ≡ [] → first < next) → Full first next (f ∷ fs)

  not_empty-Full :
      (first next : ℕ) (fs : List (Node A))
      → HasBounds n first next fs
      → is_nil fs || is_single fs && first == next ≡ false
      → Full first next fs
  not_empty-Full first next [] v e = ground arith
  not_empty-Full first next (f ∷ []) v e = full f [] (λ z. ground (arith, e, v.1))
  not_empty-Full first next (f ∷ g ∷ fs) v e = full f (g ∷ fs) (λ z. ground arith)

  items-front :
      (first next : ℕ) (f : Node A) (fs : List (Node A))
      → first < n
      → (fs ≡ [] → first < next)
      → items n first next (f ∷ fs) ≡ f first ∷ items n (first + 1) next (f ∷ fs)
  items-front first next f [] h near =
      let e : next - first ≡ suc (next - (first + 1)) = omega (arith, near refl) in
      ap (range f first) e
  items-front first next f (g ∷ fs) h near =
      let e : n - first ≡ suc (n - (first + 1)) = omega arith in
      ap (λ c. range f first c ++ items n 0 next (g ∷ fs)) e

  used_up-Holds :
      (first next : ℕ) (f : Node A) (fs : List (Node A))
      → first + 1 ≡ n
      → (fs ≡ [] → first < next)
      → HasBounds n first next (f ∷ fs)
      → Holds n
          (deque_of n 0 (if is_nil fs then n else next) fs)
          (items n (first + 1) next (f ∷ fs))
  used_up-Holds first next f [] e near v =
      let none_left : next - (first + 1) ≡ 0 = omega (arith, v.3) in
      record { valid = (refl, refl); same = sym (ap (range f (first + 1)) none_left) }
  used_up-Holds first next f (g ∷ []) e near v =
      let none_left : n - (first + 1) ≡ 0 = omega arith in
      record {
        valid = (omega arith, omega arith, v.1, v.2);
        same = sym (ap (λ c. range f (first + 1) c ++ items n 0 next (g ∷ [])) none_left);
      }
  used_up-Holds first next f (g ∷ h ∷ fs) e near v =
      let none_left : n - (first + 1) ≡ 0 = omega arith in
      record {
        valid = (omega arith, v.1, v.2);
        same = sym (ap (λ c. range f (first + 1) c ++ items n 0 next (g ∷ h ∷ fs)) none_left);
      }

  bounds-next :
      (first next : ℕ) (f : Node A) (fs : List (Node A))
      → first + 1 ≢ n
      → (fs ≡ [] → first < next)
      → HasBounds n first next (f ∷ fs)
      → HasBounds n (first + 1) next (f ∷ fs)
  bounds-next first next f [] ne near v =
      (omega (arith, v.0, ne), omega (arith, near refl), v.2, v.3)
  bounds-next first next f (g ∷ fs) ne near v = (omega (arith, v.0, ne), v.1, v.2)

  leave_front-Holds :
      (first next : ℕ) (fs : List (Node A))
      → HasBounds n first next fs
      → Full first next fs
      → (blank : A)
      → Yields
          (some (front_item fs first blank, leave_front n blank (deque_of n first next fs)))
          (list_pop_front (items n first next fs))
  leave_front-Holds first next _ v (full f fs near) blank = elim (Bool-cases (first + 1 == n)) [
    | inl e ↦ rw e (
        subst
          (λ xs.
            Yields (some (f first, deque_of n 0 (if is_nil fs then n else next) fs))
              (list_pop_front xs))
          (sym (items-front first next f fs (first_below n first next f fs v).0 near))
          (item (f first) (deque_of n 0 (if is_nil fs then n else next) fs)
            (items n (first + 1) next (f ∷ fs))
            (used_up-Holds first next f fs (ground (arith, e)) near v)))
    | inr e ↦ rw e (
        subst
          (λ xs. Yields (some (f first, deque_of n (first + 1) next (f ∷ fs))) (list_pop_front xs))
          (sym (items-front first next f fs (first_below n first next f fs v).0 near))
          (item (f first) (deque_of n (first + 1) next (f ∷ fs)) (items n (first + 1) next (f ∷ fs))
            (record {
              valid = bounds-next first next f fs (ground (arith, e)) near v;
              same = refl;
            })))
  ]

  -- `pop_front` takes the first item, and fails on a deque of none.
  pub pop_front-Yields :
      (blank : A) (d : Deque A)
      → IsValid n d
      → Yields (pop_front n blank d) (list_pop_front (view n d))
  unfolding pop_front empty
  pop_front-Yields blank d v =
      elim (Bool-cases (is_nil d.nodes || is_single d.nodes && d.first == d.next)) [
        | inl e ↦ rw e (rw (empty-nil d.first d.next d.nodes e) nothing)
        | inr e ↦ rw e (
            leave_front-Holds d.first d.next d.nodes v (not_empty-Full d.first d.next d.nodes v e)
              blank)
      ]

  bounds-drop_back :
      (first next : ℕ) (f : Node A) (fs : List (Node A))
      → HasBounds n first next (f ∷ fs)
      → HasBounds n (if is_nil (drop_back (f ∷ fs)) then 0 else first) n (drop_back (f ∷ fs))
  bounds-drop_back first next f [] v = (refl, refl)
  bounds-drop_back first next f (g ∷ []) v =
      (v.0, omega (arith, v.0), omega (arith, v.0), omega arith)
  bounds-drop_back first next f (g ∷ h ∷ []) v = (v.0, omega (arith, v.0), omega arith)
  bounds-drop_back first next f (g ∷ h ∷ k ∷ fs) v = (v.0, omega (arith, v.0), omega arith)

  items-from_nil :
      (first next : ℕ) (fs : List (Node A))
      → items n (if is_nil fs then 0 else first) next fs ≡ items n first next fs
  items-from_nil first next [] = refl
  items-from_nil first next (f ∷ fs) = refl

  bounds-previous :
      (first next : ℕ) (f : Node A) (fs : List (Node A))
      → 0 < next - 1
      → (fs ≡ [] → first < next)
      → HasBounds n first next (f ∷ fs)
      → HasBounds n first (next - 1) (f ∷ fs)
  bounds-previous first next f [] pos near v =
      (v.0, omega (arith, near refl), pos, omega (arith, v.3))
  bounds-previous first next f (g ∷ fs) pos near v = (v.0, pos, omega (arith, v.2))

  items-used_up :
      (first : ℕ) (f : Node A) (fs : List (Node A))
      → items n (if is_nil (drop_back (f ∷ fs)) then 0 else first) n (drop_back (f ∷ fs))
        ≡ items n first 0 (f ∷ fs)
  items-used_up first f fs =
      items-from_nil first n (drop_back (f ∷ fs)) ∙ sym (items-drop_back n first f fs)

  leave_back-Holds :
      (blank : A) (first next : ℕ) (fs : List (Node A))
      → HasBounds n first next fs
      → Full first next fs
      → Holds n (leave_back n blank (deque_of n first next fs)) (items n first (next - 1) fs)
  leave_back-Holds blank first next _ v (full f fs near) = elim (Bool-cases (next - 1 == 0)) [
    | inl e ↦
        let used_up : 0 ≡ next - 1 = ground (arith, e) in
        rw e (record {
          valid = bounds-drop_back first next f fs v;
          same = items-used_up first f fs ∙ ap (λ k. items n first k (f ∷ fs)) used_up;
        })
    | inr e ↦
        rw e (record {
          valid = bounds-previous first next f fs (ground (arith, e)) near v;
          same = refl;
        })
  ]

  leave_back-Yields :
      (blank : A) (first next : ℕ) (fs : List (Node A))
      → HasBounds n first next fs
      → Full first next fs
      → Yields
          (some (back_item fs (next - 1) blank, leave_back n blank (deque_of n first next fs)))
          (list_pop_back (items n first next fs))
  leave_back-Yields blank first next _ v (full f fs near) =
      let last = back_item (f ∷ fs) (next - 1) blank in
      let rest = items n first (next - 1) (f ∷ fs) in
      let (low, some_item, high) = first_below n first next f fs v in
      let e : next ≡ next - 1 + 1 = omega arith in
      let split =
        ap (λ m. items n first m (f ∷ fs)) e
        ∙ items-back n first (next - 1) blank f fs (λ z. omega (arith, near z)) in
      subst (Yields (some (last, leave_back n blank (deque_of n first next (f ∷ fs)))))
        (sym (ap list_pop_back split ∙ list_pop_back-append rest last))
        (item last (leave_back n blank (deque_of n first next (f ∷ fs))) rest
          (leave_back-Holds blank first next (f ∷ fs) v (full f fs near)))

  -- `pop_back` takes the last item, and fails on a deque of none.
  pub pop_back-Yields :
      (blank : A) (d : Deque A)
      → IsValid n d
      → Yields (pop_back n blank d) (list_pop_back (view n d))
  unfolding pop_back empty
  pop_back-Yields blank d v =
      elim (Bool-cases (is_nil d.nodes || is_single d.nodes && d.first == d.next)) [
        | inl e ↦ rw e (rw (empty-nil d.first d.next d.nodes e) nothing)
        | inr e ↦ rw e (
            leave_back-Yields blank d.first d.next d.nodes v
              (not_empty-Full d.first d.next d.nodes v e))
      ]
