-- ===== src/Util/Deque/View.antt =====
-- What a deque holds, as a list, and which deques are valid.
use jsix.Prelude.{
  ℕ, zero, suc, ◌+◌, ◌-◌, ◌≤◌, ◌<◌, ◌≡◌, ◌∙◌, refl, sym, ap, ap₂, List, [], ◌∷◌, ◌++◌, arith,
  if_eq_self, if_eq_other,
}
use mathlib.Core.List.{append-nil, append_assoc}
use jsix.Util.Deque.{Node, Deque, put_item, put_back, back_item, drop_back}

module _ {ℓ} {A : Type ℓ} where
  -- `count` items of a node from index `i` on
  abbrev pub range : Node A → ℕ → ℕ → List A
  range f i zero = []
  range f i (suc count) = f i ∷ range f (i + 1) count

  pub range-put_below :
      (f : Node A) (k : ℕ) (x : A) (i c : ℕ) → k < i → range (put_item f k x) i c ≡ range f i c
  range-put_below f k x i zero h = refl
  range-put_below f k x i (suc c) h =
      ap₂ (λ y ys. y ∷ ys) (if_eq_other i k x (f i) (omega arith))
        (range-put_below f k x (i + 1) c (omega arith))

  pub range-put_above :
      (f : Node A) (k : ℕ) (x : A) (i c : ℕ) → i + c ≤ k → range (put_item f k x) i c ≡ range f i c
  range-put_above f k x i zero h = refl
  range-put_above f k x i (suc c) h =
      ap₂ (λ y ys. y ∷ ys) (if_eq_other i k x (f i) (omega arith))
        (range-put_above f k x (i + 1) c (omega arith))

  pub range-snoc : (f : Node A) (i c : ℕ) → range f i (suc c) ≡ range f i c ++ f (i + c) ∷ []
  range-snoc f i zero = let e : i ≡ i + 0 = omega arith in ap (λ k. f k ∷ []) e
  range-snoc f i (suc c) =
      let e : i + 1 + c ≡ i + suc c = omega arith in
      ap (λ ys. f i ∷ ys) (range-snoc f (i + 1) c)
      ∙ ap (λ k. f i ∷ (range f (i + 1) c ++ f k ∷ [])) e

module _ {ℓ} {A : Type ℓ} (n : ℕ) where
  -- the items of all the nodes
  abbrev pub items : ℕ → ℕ → List (Node A) → List A
  items first next [] = []
  items first next (f ∷ []) = range f first (next - first)
  items first next (f ∷ g ∷ fs) = range f first (n - first) ++ items 0 next (g ∷ fs)

  abbrev pub view : Deque A → List A
  view d = items d.first d.next d.nodes

  -- The indices are in range, and no node is kept without need.
  abbrev pub HasBounds : ℕ → ℕ → List (Node A) → Type 0
  HasBounds first next [] = (first ≡ 0) × (next ≡ n)
  HasBounds first next (f ∷ []) = (first < n) × (first ≤ next) × (0 < next) × (next ≤ n)
  HasBounds first next (f ∷ g ∷ fs) = (first < n) × (0 < next) × (next ≤ n)

  abbrev pub IsValid : Deque A → Type 0
  IsValid d = HasBounds d.first d.next d.nodes

  -- What `push_front` adds to the view.
  pub items-put_front :
      (k next : ℕ) (x : A) (f : Node A) (fs : List (Node A))
      → k < n
      → (fs ≡ [] → k < next)
      → items k next (put_item f k x ∷ fs) ≡ x ∷ items (k + 1) next (f ∷ fs)
  items-put_front k next x f [] h near =
      let e0 : next - k ≡ suc (next - (k + 1)) = omega (arith, near refl) in
      ap (λ c. range (put_item f k x) k c) e0
      ∙ ap₂ (λ y ys. y ∷ ys) (if_eq_self k x (f k))
          (range-put_below f k x (k + 1) (next - (k + 1)) (omega arith))
  items-put_front k next x f (g ∷ fs) h near =
      let e0 : n - k ≡ suc (n - (k + 1)) = omega arith in
      ap (λ c. range (put_item f k x) k c ++ items 0 next (g ∷ fs)) e0
      ∙ ap₂ (λ y ys. y ∷ ys ++ items 0 next (g ∷ fs)) (if_eq_self k x (f k))
          (range-put_below f k x (k + 1) (n - (k + 1)) (omega arith))

  pub items-room_front :
      (next : ℕ) (f : Node A) (fs : List (Node A))
      → (fs ≡ [] → next ≡ n)
      → items n next (f ∷ fs) ≡ items 0 next fs
  items-room_front next f [] full =
      let e0 : next - n ≡ 0 = omega (arith, full refl) in ap (range f n) e0
  items-room_front next f (g ∷ fs) full =
      let e0 : n - n ≡ 0 = omega arith in ap (λ c. range f n c ++ items 0 next (g ∷ fs)) e0

  -- What `push_back` adds.
  pub items-put_back :
      (first next : ℕ) (x : A) (f : Node A) (fs : List (Node A))
      → (fs ≡ [] → first ≤ next)
      → items first (next + 1) (put_back (f ∷ fs) next x) ≡ items first next (f ∷ fs) ++ x ∷ []
  items-put_back first next x f [] h =
      let e0 : next + 1 - first ≡ suc (next - first) = omega (arith, h refl) in
      let e1 : first + (next - first) ≡ next = omega (arith, h refl) in
      ap (range (put_item f next x) first) e0
      ∙ range-snoc (put_item f next x) first (next - first)
      ∙ ap₂ (λ ys y. ys ++ y ∷ [])
          (range-put_above f next x first (next - first) (omega (arith, h refl)))
          (ap (put_item f next x) e1 ∙ if_eq_self next x (f next))
  items-put_back first next x f (g ∷ []) h =
      ap (λ ys. range f first (n - first) ++ ys) (items-put_back 0 next x g [] (λ e. omega arith))
      ∙ sym (append_assoc (range f first (n - first)) (items 0 next (g ∷ [])) (x ∷ []))
  items-put_back first next x f (g ∷ k ∷ fs) h =
      ap (λ ys. range f first (n - first) ++ ys)
        (items-put_back 0 next x g (k ∷ fs) (λ e. omega arith))
      ∙ sym (append_assoc (range f first (n - first)) (items 0 next (g ∷ k ∷ fs)) (x ∷ []))

  pub items-room_back :
      (first : ℕ) (g : Node A) (fs : List (Node A))
      → items first 0 (fs ++ g ∷ []) ≡ items first n fs
  items-room_back first g [] = let e0 : 0 - first ≡ 0 = omega arith in ap (range g first) e0
  items-room_back first g (f ∷ []) = append-nil (range f first (n - first))
  items-room_back first g (f ∷ k ∷ fs) =
      ap (λ ys. range f first (n - first) ++ ys) (items-room_back 0 g (k ∷ fs))

  -- What `pop_back` takes off.
  pub items-back :
      (first next : ℕ) (x : A) (f : Node A) (fs : List (Node A))
      → (fs ≡ [] → first ≤ next)
      → items first (next + 1) (f ∷ fs)
        ≡ items first next (f ∷ fs) ++ back_item (f ∷ fs) next x ∷ []
  items-back first next x f [] h =
      let e0 : next + 1 - first ≡ suc (next - first) = omega (arith, h refl) in
      let e1 : first + (next - first) ≡ next = omega (arith, h refl) in
      ap (range f first) e0
      ∙ range-snoc f first (next - first)
      ∙ ap (λ k. range f first (next - first) ++ f k ∷ []) e1
  items-back first next x f (g ∷ fs) h =
      ap (λ ys. range f first (n - first) ++ ys) (items-back 0 next x g fs (λ e. omega arith))
      ∙ sym (
          append_assoc (range f first (n - first)) (items 0 next (g ∷ fs))
            (back_item (g ∷ fs) next x ∷ []))

  pub items-drop_back :
      (first : ℕ) (f : Node A) (fs : List (Node A))
      → items first 0 (f ∷ fs) ≡ items first n (drop_back (f ∷ fs))
  items-drop_back first f [] = let e0 : 0 - first ≡ 0 = omega arith in ap (range f first) e0
  items-drop_back first f (g ∷ []) = append-nil (range f first (n - first))
  items-drop_back first f (g ∷ k ∷ fs) =
      ap (λ ys. range f first (n - first) ++ ys) (items-drop_back 0 g (k ∷ fs))
