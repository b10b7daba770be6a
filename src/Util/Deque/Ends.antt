-- ===== src/Util/Deque/Ends.antt =====
-- The operations of deque.h at the two ends of a valid deque.
use jsix.Prelude.{
  ℕ, zero, suc, ◌+◌, ◌-◌, ◌≤◌, ◌<◌, ◌==◌, ◌≡◌, ◌≢◌, inl, inr, ◌∙◌, sym, ap, subst, false, List, [],
  ◌∷◌, ◌++◌, arith, Bool-cases,
}
use jsix.Util.Deque.{Node, Deque, put_item, put_back, blank_node, push_front, push_back}
use jsix.Util.Deque.View.{
  items, view, HasBounds, IsValid, items-put_front, items-room_front, items-put_back,
  items-room_back,
}

module _ {ℓ} {A : Type ℓ} (n : ℕ) where
  -- A valid deque that holds these items.
  pub record Holds (d : Deque A) (xs : List A) : Type ℓ where
    pub valid : IsValid n d
    pub same : view n d ≡ xs

  abbrev pub deque_of : ℕ → ℕ → List (Node A) → Deque A
  deque_of first next fs = record { first = first; next = next; nodes = fs }

  nil_next : (next : ℕ) (fs : List (Node A)) → HasBounds n 0 next fs → fs ≡ [] → next ≡ n
  nil_next next [] v e = v.1
  nil_next next (f ∷ fs) v e = ground arith

  bounds-new_front :
      (next : ℕ) (f : Node A) (fs : List (Node A))
      → 0 < n
      → HasBounds n 0 next fs
      → HasBounds n (n - 1) next (f ∷ fs)
  bounds-new_front next f [] pos v =
      (omega arith, omega (arith, v.1), omega (arith, v.1), omega (arith, v.1))
  bounds-new_front next f (g ∷ []) pos v = (omega arith, v.2, v.3)
  bounds-new_front next f (g ∷ k ∷ fs) pos v = (omega arith, v.1, v.2)

  push_front_new :
      (next : ℕ) (x : A) (f : Node A) (fs : List (Node A))
      → 0 < n
      → HasBounds n 0 next fs
      → Holds (deque_of (n - 1) next (put_item f (n - 1) x ∷ fs)) (x ∷ items n 0 next fs)
  push_front_new next x f fs pos v =
      let e : n - 1 + 1 ≡ n = omega arith in
      record {
        valid = bounds-new_front next (put_item f (n - 1) x) fs pos v;
        same =
            items-put_front n (n - 1) next x f fs (omega arith)
              (λ z. omega (arith, nil_next next fs v z))
            ∙ ap (λ k. x ∷ items n k next (f ∷ fs)) e
            ∙ ap (λ ys. x ∷ ys) (items-room_front n next f fs (nil_next next fs v));
      }

  bounds-lower :
      (first next : ℕ) (f g : Node A) (fs : List (Node A))
      → HasBounds n first next (f ∷ fs)
      → HasBounds n (first - 1) next (g ∷ fs)
  bounds-lower first next f g [] v = (omega (arith, v.0), omega (arith, v.1), v.2, v.3)
  bounds-lower first next f g (k ∷ fs) v = (omega (arith, v.0), v.1, v.2)

  pub first_below :
      (first next : ℕ) (f : Node A) (fs : List (Node A))
      → HasBounds n first next (f ∷ fs)
      → (first < n) × (0 < next) × (next ≤ n)
  first_below first next f [] v = (v.0, v.2, v.3)
  first_below first next f (k ∷ fs) v = v

  pub first_le :
      (first next : ℕ) (f : Node A) (fs : List (Node A))
      → HasBounds n first next (f ∷ fs)
      → fs ≡ []
      → first ≤ next
  first_le first next f [] v e = v.1
  first_le first next f (k ∷ fs) v e = ground arith

  push_front_old :
      (first next : ℕ) (x : A) (f : Node A) (fs : List (Node A))
      → 0 < first
      → HasBounds n first next (f ∷ fs)
      → Holds
          (deque_of (first - 1) next (put_item f (first - 1) x ∷ fs))
          (x ∷ items n first next (f ∷ fs))
  push_front_old first next x f fs pos v =
      let e : first - 1 + 1 ≡ first = omega arith in
      record {
        valid = bounds-lower first next f (put_item f (first - 1) x) fs v;
        same =
            items-put_front n (first - 1) next x f fs
              (omega (arith, (first_below first next f fs v).0))
              (λ z. omega (arith, first_le first next f fs v z))
            ∙ ap (λ k. x ∷ items n k next (f ∷ fs)) e;
      }

  push_front_at :
      (blank x : A) (first next : ℕ) (fs : List (Node A))
      → 0 < n
      → HasBounds n first next fs
      → Holds (push_front n blank (deque_of first next fs) x) (x ∷ items n first next fs)
  unfolding push_front
  push_front_at blank x zero next fs pos v = push_front_new next x (blank_node n blank) fs pos v
  push_front_at blank x (suc k) next [] pos v = absurd (omega (arith, v.0))
  push_front_at blank x (suc k) next (f ∷ fs) pos v =
      let e : (suc k == 0) ≡ false = ground arith in
      rw e (push_front_old (suc k) next x f fs (omega arith) v)

  -- `push_front` puts an item before the others.
  pub push_front-Holds :
      (blank x : A) (d : Deque A)
      → 0 < n
      → IsValid n d
      → Holds (push_front n blank d x) (x ∷ view n d)
  push_front-Holds blank x d pos v = push_front_at blank x d.first d.next d.nodes pos v

  bounds-put_back :
      (first next k : ℕ) (x : A) (fs : List (Node A))
      → HasBounds n first next fs
      → HasBounds n first next (put_back fs k x)
  bounds-put_back first next k x [] v = v
  bounds-put_back first next k x (f ∷ []) v = v
  bounds-put_back first next k x (f ∷ g ∷ []) v = v
  bounds-put_back first next k x (f ∷ g ∷ h ∷ fs) v = v

  bounds-new_back :
      (first : ℕ) (g : Node A) (fs : List (Node A))
      → 0 < n
      → HasBounds n first n fs
      → HasBounds n first 1 (fs ++ g ∷ [])
  bounds-new_back first g [] pos v =
      (omega (arith, v.0), omega (arith, v.0), omega arith, omega arith)
  bounds-new_back first g (f ∷ []) pos v = (v.0, omega arith, omega arith)
  bounds-new_back first g (f ∷ h ∷ fs) pos v = (v.0, omega arith, omega arith)

  items-new_back :
      (first : ℕ) (x : A) (g : Node A) (fs : List (Node A))
      → HasBounds n first n fs
      → items n first 1 (put_back (fs ++ g ∷ []) 0 x) ≡ items n first 0 (fs ++ g ∷ []) ++ x ∷ []
  items-new_back first x g [] v = items-put_back n first 0 x g [] (λ e. omega (arith, v.0))
  items-new_back first x g (f ∷ fs) v =
      items-put_back n first 0 x f (fs ++ g ∷ []) (λ e. absurd (append_cons fs e))
    where
      append_cons : (hs : List (Node A)) → ¬ (hs ++ g ∷ [] ≡ [])
      append_cons [] e = ground arith
      append_cons (h ∷ hs) e = ground arith

  push_back_new :
      (first : ℕ) (x : A) (g : Node A) (fs : List (Node A))
      → 0 < n
      → HasBounds n first n fs
      → Holds (deque_of first 1 (put_back (fs ++ g ∷ []) 0 x)) (items n first n fs ++ x ∷ [])
  push_back_new first x g fs pos v = record {
    valid = bounds-put_back first 1 0 x (fs ++ g ∷ []) (bounds-new_back first g fs pos v);
    same = items-new_back first x g fs v ∙ ap (λ ys. ys ++ x ∷ []) (items-room_back n first g fs);
  }

  bounds-raise :
      (first next : ℕ) (f : Node A) (fs : List (Node A))
      → next < n
      → HasBounds n first next (f ∷ fs)
      → HasBounds n first (next + 1) (f ∷ fs)
  bounds-raise first next f [] h v = (v.0, omega (arith, v.1), omega arith, omega arith)
  bounds-raise first next f (g ∷ fs) h v = (v.0, omega arith, omega arith)

  push_back_old :
      (first next : ℕ) (x : A) (fs : List (Node A))
      → next ≢ n
      → HasBounds n first next fs
      → Holds (deque_of first (next + 1) (put_back fs next x)) (items n first next fs ++ x ∷ [])
  push_back_old first next x [] ne v = absurd (ne v.1)
  push_back_old first next x (f ∷ fs) ne v = record {
    valid =
        bounds-put_back first (next + 1) next x (f ∷ fs)
          (bounds-raise first next f fs (omega (arith, ne, (first_below first next f fs v).2)) v);
    same = items-put_back n first next x f fs (first_le first next f fs v);
  }

  -- `push_back` puts an item after the others.
  pub push_back-Holds :
      (blank x : A) (d : Deque A)
      → 0 < n
      → IsValid n d
      → Holds (push_back n blank d x) (view n d ++ x ∷ [])
  unfolding push_back
  push_back-Holds blank x d pos v = elim (Bool-cases (d.next == n)) [
    | inl e ↦
        let full : n ≡ d.next = ground (arith, e) in
        rw e (
          subst
            (λ m.
              Holds (deque_of d.first 1 (put_back (d.nodes ++ blank_node n blank ∷ []) 0 x))
                (items n d.first m d.nodes ++ x ∷ []))
            full
            (push_back_new d.first x (blank_node n blank) d.nodes pos
              (subst (λ m. HasBounds n d.first m d.nodes) (sym full) v)))
    | inr e ↦ rw e (push_back_old d.first d.next x d.nodes (ground (arith, e)) v)
  ]
