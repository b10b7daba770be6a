-- ===== src/Util/Spinlock/Chain.antt =====
-- The waiters of src/libraries/util/spinlock.cpp, from the owner to the last one that came.
use jsix.Prelude.{
  ℕ, ◌≤◌, ◌==◌, ◌≡◌, ◌≢◌, ◌⊎◌, ◌∙◌, inl, inr, refl, sym, subst, true, none, some, List, [], ◌∷◌,
  ◌++◌, arith, Bool-cases,
}
use jsix.Prelude.Occur.{count}
use jsix.Util.Spinlock.{linking, waiting, Spinlock, put, with_phase}

-- Waiter `b` comes after `a`, and has said so or is about to.
abbrev pub Behind : Spinlock → ℕ → ℕ → Type 0
Behind s a b =
    ((s.phases b ≡ linking a) × (s.next a ≡ none) × (s.blocked b ≡ true))
    ⊎ ((s.phases b ≡ waiting) × (s.next a ≡ some b) × (s.blocked b ≡ true))

-- The waiters after `a`, in order.
abbrev pub Chain : Spinlock → ℕ → List ℕ → Type 0
Chain s a [] = s.next a ≡ none
Chain s a (b ∷ q) = Behind s a b × Chain s b q

abbrev pub last : ℕ → List ℕ → ℕ
last a [] = a
last a (b ∷ q) = last b q

pub last-append : (a w : ℕ) (q : List ℕ) → last a (q ++ w ∷ []) ≡ w
last-append a w [] = refl
last-append a w (b ∷ q) = last-append b w q

-- No waiter stands twice.
abbrev pub AreDistinct : List ℕ → Type 0
AreDistinct [] = Unit {0}
AreDistinct (a ∷ q) = (count a q ≡ 0) × AreDistinct q

-- A change elsewhere leaves a chain as it is.
pub Chain-elsewhere :
    (s t : Spinlock) (a : ℕ) (q : List ℕ)
    → ((i : ℕ) → 1 ≤ count i q → (t.phases i ≡ s.phases i) × (t.blocked i ≡ s.blocked i))
    → ((i : ℕ) → 1 ≤ count i (a ∷ q) → t.next i ≡ s.next i)
    → Chain s a q
    → Chain t a q
Chain-elsewhere s t a [] same nexts c = nexts a (ground arith) ∙ c
Chain-elsewhere s t a (b ∷ q) same nexts c = (
  ground (arith, same b, nexts a, c.0),
  Chain-elsewhere s t b q (λ i h. same i (omega arith)) (λ i h. nexts i (omega arith)) c.1,
)

-- A thread comes to the end of a chain.
pub Chain-append :
    (s t : Spinlock) (a w : ℕ) (q : List ℕ)
    → ((i : ℕ) → i ≢ w → t.phases i ≡ s.phases i)
    → ((i : ℕ) → t.blocked i ≡ s.blocked i)
    → ((i : ℕ) → t.next i ≡ s.next i)
    → t.phases w ≡ linking (last a q)
    → s.next w ≡ none
    → s.blocked w ≡ true
    → count w (a ∷ q) ≡ 0
    → Chain s a q
    → Chain t a (q ++ w ∷ [])
Chain-append s t a w [] phases blocks nexts e n b out c =
    (inl (e, nexts a ∙ c, blocks w ∙ b), nexts w ∙ n)
Chain-append s t a w (b ∷ q) phases blocks nexts e n bl out c = (
  ground (arith, phases b, nexts a, blocks b, c.0, out),
  Chain-append s t b w q phases blocks nexts e n bl (omega (arith, out)) c.1,
)

-- Each waiter but the first is blocked, and waits or is about to.
pub Chain-blocked :
    (s : Spinlock) (a i : ℕ) (q : List ℕ)
    → Chain s a q
    → 1 ≤ count i q
    → (s.blocked i ≡ true) × ((s.phases i ≡ waiting) ⊎ ((p : ℕ) × (s.phases i ≡ linking p)))
Chain-blocked s a i [] c h = absurd (omega arith)
Chain-blocked s a i (b ∷ q) c h = elim (Bool-cases (i == b)) [
  | inl e ↦
      let same : b ≡ i = ground (arith, e) in
      subst
        (λ j.
          (s.blocked j ≡ true) × ((s.phases j ≡ waiting) ⊎ ((p : ℕ) × (s.phases j ≡ linking p))))
        same (blocked_behind s a b c.0)
  | inr e ↦ Chain-blocked s b i q c.1 (ground (arith, h, e))
]
  where
    blocked_behind :
        (s : Spinlock) (a b : ℕ)
        → Behind s a b
        → (s.blocked b ≡ true) × ((s.phases b ≡ waiting) ⊎ ((p : ℕ) × (s.phases b ≡ linking p)))
    blocked_behind s a b (inl (e, n, bl)) = (bl, inr (a, e))
    blocked_behind s a b (inr (e, n, bl)) = (bl, inl e)

-- What `linking` does: the waiter before learns of the thread.
abbrev pub linked : Spinlock → ℕ → ℕ → Spinlock
linked s t p = record (with_phase s t waiting) { next = put s.next p (some t) }

predecessor :
    (s : Spinlock) (a t p : ℕ)
    → Behind s a t
    → s.phases t ≡ linking p
    → (p ≡ a) × (s.next a ≡ none) × (s.blocked t ≡ true)
predecessor s a t p (inl (e, n, bl)) h = (ground (arith, e, h), n, bl)
predecessor s a t p (inr (e, n, bl)) h = absurd (clash (sym e ∙ h))
  where
    clash : ¬ (waiting ≡ linking p)
    clash c = ground (arith, c)

linked-here :
    (s : Spinlock) (a t : ℕ) (q : List ℕ)
    → count t q ≡ 0
    → count a (t ∷ q) ≡ 0
    → s.blocked t ≡ true
    → Chain s t q
    → Chain (linked s t a) a (t ∷ q)
linked-here s a t q out apart bl c = (
  inr (ground arith, ground arith, bl),
  Chain-elsewhere s (linked s t a) t q (λ i h. (ground (arith, h, out), refl))
      (λ i h. ground (arith, h, apart)) c,
)

-- It leaves the chain a chain, and the waiter before is in it.
pub Chain-linked :
    (s : Spinlock) (a t p : ℕ) (q : List ℕ)
    → AreDistinct (a ∷ q)
    → 1 ≤ count t q
    → s.phases t ≡ linking p
    → Chain s a q
    → (1 ≤ count p (a ∷ q)) × Chain (linked s t p) a q
Chain-linked s a t p [] d h e c = absurd (omega arith)
Chain-linked s a t p (b ∷ q) d h e c = elim (Bool-cases (t == b)) [
  | inl here ↦
      let same : t ≡ b = ground (arith, here) in
      let (before, n, bl) = predecessor s a t p (subst (Behind s a) (sym same) c.0) e in
      let chain =
        linked-here s a t q (subst (λ j. count j q ≡ 0) (sym same) d.1.0)
          (subst (λ j. count a (j ∷ q) ≡ 0) (sym same) d.0) bl
          (subst (λ j. Chain s j q) (sym same) c.1) in
      (
        ground (arith, before),
        subst (λ j. Chain (linked s t p) a (j ∷ q)) same
            (subst (λ j. Chain (linked s t j) a (t ∷ q)) (sym before) chain),
      )
  | inr later ↦
      let (inside, chain) = Chain-linked s b t p q d.1 (ground (arith, h, later)) e c.1 in
      (omega (arith, inside), (ground (arith, c.0, d.0, inside, later), chain))
]
