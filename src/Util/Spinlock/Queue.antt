-- ===== src/Util/Spinlock/Queue.antt =====
-- The queue of src/libraries/util/spinlock.cpp: each step of a thread leaves one, and no thread twice in it.
use jsix.Prelude.{
  ℕ, ◌≤◌, ◌==◌, ◌≡◌, ◌≢◌, ◌⊎◌, ◌∙◌, inl, inr, refl, sym, ap, subst, Bool, true, false, not, none,
  some, List, [], ◌∷◌, ◌++◌, if◌then◌else◌, arith, one_if, Bool-cases,
}
use jsix.Prelude.Occur.{count, count-append}
use jsix.Util.Spinlock.{
  Phase, outside, starting, linking, waiting, clearing, holding, handing, trying, Spinlock, put,
  with_phase, exchanged, try_exchange, is_waiter, hand_to, act_in, call_acquire, call_try_acquire,
}
use jsix.Util.Spinlock.Chain.{
  Behind, Chain, last, last-append, AreDistinct, Chain-elsewhere, Chain-append, Chain-blocked,
  Chain-linked,
}

-- Is a thread in this phase in the queue of waiters?
abbrev pub in_queue : Phase → Bool
in_queue outside = false
in_queue starting = false
in_queue trying = false
in_queue _ = true

-- May a thread be first of the queue?
abbrev pub at_head : Phase → Bool → Bool
at_head waiting blocked = not blocked
at_head clearing blocked = true
at_head holding blocked = true
at_head handing blocked = true
at_head _ blocked = false

abbrev pub Shape : Spinlock → List ℕ → Type 0
Shape s [] = s.lock ≡ none
Shape s (h ∷ q) =
    (at_head (s.phases h) (s.blocked h) ≡ true) × Chain s h q × (s.lock ≡ some (last h q))

-- A thread that is about to come in has a fresh waiter.
abbrev pub IsFresh : Spinlock → ℕ → Phase → Type 0
IsFresh s t starting = (s.next t ≡ none) × (s.blocked t ≡ true)
IsFresh s t trying = s.next t ≡ none
IsFresh s t _ = Unit {0}

-- The queue holds each thread in its phases once.
pub record IsQueue (s : Spinlock) (queue : List ℕ) : Type 0 where
  pub shape : Shape s queue
  pub members : (i : ℕ) → count i queue ≡ one_if (in_queue (s.phases i))
  pub fresh : (i : ℕ) → IsFresh s i (s.phases i)

distinct-members : (q : List ℕ) → ((i : ℕ) → count i q ≤ 1) → AreDistinct q
distinct-members [] h = tt
distinct-members (a ∷ q) h = (ground (arith, h a), distinct-members q (λ i. omega (arith, h i)))

queue-AreDistinct : (s : Spinlock) (q : List ℕ) → IsQueue s q → AreDistinct q
queue-AreDistinct s q v = distinct-members q (λ i. ground (arith, v.members i))

-- A thread outside the queue changes only its own waiter.
alone-Shape :
    (s t : Spinlock) (w : ℕ) (q : List ℕ)
    → count w q ≡ 0
    → t.lock ≡ s.lock
    → ((i : ℕ) → i ≢ w → (t.phases i ≡ s.phases i) × (t.blocked i ≡ s.blocked i))
    → ((i : ℕ) → i ≢ w → t.next i ≡ s.next i)
    → Shape s q
    → Shape t q
alone-Shape s t w [] out lock same nexts v = lock ∙ v
alone-Shape s t w (h ∷ q) out lock same nexts v = (
  ground (arith, same h, v.0, out),
  Chain-elsewhere s t h q (λ i k. same i (λ e. ground (arith, e, k, out)))
      (λ i k. nexts i (λ e. ground (arith, e, k, out))) v.1,
  lock ∙ v.2,
)

pub call_acquire-IsQueue :
    (s : Spinlock) (t : ℕ) (q : List ℕ)
    → s.phases t ≡ outside
    → IsQueue s q
    → IsQueue (call_acquire s t) q
call_acquire-IsQueue s t q e v = record {
  shape =
      alone-Shape s (call_acquire s t) t q (ground (arith, v.members t, e)) refl
        (λ i ne. (ground arith, ground arith)) (λ i ne. ground arith) v.shape;
  members = λ i. ground (arith, v.members i, e);
  fresh = λ i. ground (arith, v.fresh i);
}

pub call_try_acquire-IsQueue :
    (s : Spinlock) (t : ℕ) (q : List ℕ)
    → s.phases t ≡ outside
    → IsQueue s q
    → IsQueue (call_try_acquire s t) q
call_try_acquire-IsQueue s t q e v = record {
  shape =
      alone-Shape s (call_try_acquire s t) t q (ground (arith, v.members t, e)) refl
        (λ i ne. (ground arith, ground arith)) (λ i ne. ground arith) v.shape;
  members = λ i. ground (arith, v.members i, e);
  fresh = λ i. ground (arith, v.fresh i);
}

-- What a step makes of the queue.
abbrev pub HasQueue : Spinlock → Type 0
HasQueue s = (q : List ℕ) × IsQueue s q

fresh-starting :
    (s : Spinlock) (t : ℕ)
    → s.phases t ≡ starting
    → IsFresh s t (s.phases t)
    → (s.next t ≡ none) × (s.blocked t ≡ true)
fresh-starting s t e f = subst (IsFresh s t) e f

fresh-trying :
    (s : Spinlock) (t : ℕ) → s.phases t ≡ trying → IsFresh s t (s.phases t) → s.next t ≡ none
fresh-trying s t e f = subst (IsFresh s t) e f

exchanged-HasQueue :
    (s : Spinlock) (t : ℕ) (q : List ℕ)
    → s.phases t ≡ starting
    → IsQueue s q
    → HasQueue (exchanged s t s.lock)
exchanged-HasQueue s t [] e v =
    let f = fresh-starting s t e (v.fresh t) in
    subst (λ o. HasQueue (exchanged s t o)) (sym v.shape)
      (
        t ∷ [],
        record {
          shape = (ground arith, f.0, refl);
          members = λ i. ground (arith, v.members i);
          fresh = λ i. ground (arith, v.fresh i);
        },
      )
exchanged-HasQueue s t (h ∷ q) e v =
    let f = fresh-starting s t e (v.fresh t) in
    let u = exchanged s t (some (last h q)) in
    let out : count t (h ∷ q) ≡ 0 = ground (arith, v.members t, e) in
    subst (λ o. HasQueue (exchanged s t o)) (sym v.shape.2)
      (
        h ∷ q ++ t ∷ [],
        record {
          shape = (
            ground (arith, v.shape.0, out),
            Chain-append s u h t q (λ i ne. ground arith) (λ i. refl) (λ i. refl) (ground arith) f.0
                f.1 out v.shape.1,
            sym (ap some (last-append h t q)),
          );
          members = λ i. ground (arith, v.members i, count-append i q (t ∷ []), e);
          fresh = λ i. ground (arith, v.fresh i);
        },
      )

try_exchange-HasQueue :
    (s : Spinlock) (t : ℕ) (q : List ℕ)
    → s.phases t ≡ trying
    → IsQueue s q
    → HasQueue (try_exchange s t s.lock)
try_exchange-HasQueue s t [] e v =
    let f = fresh-trying s t e (v.fresh t) in
    subst (λ o. HasQueue (try_exchange s t o)) (sym v.shape)
      (
        t ∷ [],
        record {
          shape = (ground arith, f, refl);
          members = λ i. ground (arith, v.members i);
          fresh = λ i. ground (arith, v.fresh i);
        },
      )
try_exchange-HasQueue s t (h ∷ q) e v =
    subst (λ o. HasQueue (try_exchange s t o)) (sym v.shape.2)
      (
        h ∷ q,
        record {
          shape =
              alone-Shape s (with_phase s t outside) t (h ∷ q) (ground (arith, v.members t, e)) refl
                (λ i ne. (ground arith, refl)) (λ i ne. refl) v.shape;
          members = λ i. ground (arith, v.members i, e);
          fresh = λ i. ground (arith, v.fresh i);
        },
      )

-- A thread of the queue that is not blocked, or neither waits nor is about to, is the first.
pub first_of :
    (s : Spinlock) (t : ℕ) (q : List ℕ)
    → IsQueue s q
    → in_queue (s.phases t) ≡ true
    → ((s.blocked t ≡ true) × ((s.phases t ≡ waiting) ⊎ ((p : ℕ) × (s.phases t ≡ linking p))) → ⊥)
    → (r : List ℕ) × (q ≡ t ∷ r)
first_of s t [] v inside other = absurd (nobody (v.members t))
  where
    nobody : ¬ (0 ≡ one_if (in_queue (s.phases t)))
    nobody e = ground (arith, e, inside)
first_of s t (h ∷ q) v inside other = elim (Bool-cases (t == h)) [
  | inl e ↦ let same : h ≡ t = ground (arith, e) in (q, ap (λ k. k ∷ q) same)
  | inr e ↦
      absurd (other (Chain-blocked s h t q v.shape.1 (ground (arith, v.members t, inside, e))))
]

-- The first waiter stays first when it holds the lock or is about to hand it on.
advanced-IsQueue :
    (s : Spinlock) (t : ℕ) (r : List ℕ) (p : Phase) (b : ℕ → Bool)
    → ((i : ℕ) → i ≢ t → b i ≡ s.blocked i)
    → (p ≡ holding) ⊎ (p ≡ handing)
    → IsQueue s (t ∷ r)
    → IsQueue (record (with_phase s t p) { blocked = b }) (t ∷ r)
advanced-IsQueue s t r p b blocks owner v =
    let u : Spinlock = record (with_phase s t p) { blocked = b } in
    let out : count t r ≡ 0 = ground (arith, v.members t) in
    record {
      shape = (
        ground (arith, owner),
        Chain-elsewhere s u t r
            (λ i h. (ground (arith, h, out), blocks i (λ e. ground (arith, e, h, out))))
            (λ i h. refl) v.shape.1,
        v.shape.2,
      );
      members = λ i. ground (arith, v.members i, v.members t, owner);
      fresh = λ i. ground (arith, v.fresh i, blocks i, owner);
    }

-- The first waiter leaves a queue without others.
left-IsQueue :
    (s : Spinlock) (t : ℕ)
    → IsQueue s (t ∷ [])
    → IsQueue (record (with_phase s t outside) { lock = none }) []
left-IsQueue s t v = record {
  shape = refl;
  members = λ i. ground (arith, v.members i);
  fresh = λ i. ground (arith, v.fresh i);
}

-- It leaves one with others, of which the first is told.
handed-IsQueue :
    (s : Spinlock) (t n : ℕ) (r : List ℕ)
    → s.next t ≡ some n
    → IsQueue s (t ∷ n ∷ r)
    → IsQueue (record (with_phase s t outside) { blocked = put s.blocked n false }) (n ∷ r)
handed-IsQueue s t n r e v =
    let u : Spinlock = record (with_phase s t outside) { blocked = put s.blocked n false } in
    let out : count t (n ∷ r) ≡ 0 = ground (arith, v.members t) in
    let apart : count n r ≡ 0 = ground (arith, v.members n) in
    record {
      shape = (
        ground (arith, v.shape.1.0, e, out),
        Chain-elsewhere s u n r (λ i h. (ground (arith, h, out), ground (arith, h, apart)))
            (λ i h. refl) v.shape.1.1,
        v.shape.2,
      );
      members = λ i. ground (arith, v.members i, v.members t);
      fresh = λ i. ground (arith, v.fresh i, v.members n);
    }

linked-IsQueue :
    (s : Spinlock) (t p : ℕ) (q : List ℕ)
    → s.phases t ≡ linking p
    → IsQueue s q
    → IsQueue (record (with_phase s t waiting) { next = put s.next p (some t) }) q
linked-IsQueue s t p [] e v = absurd (nobody (v.members t))
  where
    nobody : ¬ (0 ≡ one_if (in_queue (s.phases t)))
    nobody c = ground (arith, c, e)
linked-IsQueue s t p (h ∷ q) e v =
    let inside : 1 ≤ count t q = ground (arith, v.members t, e, v.shape.0) in
    let (before, chain) =
      Chain-linked s h t p q (queue-AreDistinct s (h ∷ q) v) inside e v.shape.1 in
    record {
      shape = (ground (arith, v.shape.0, e), chain, v.shape.2);
      members = λ i. ground (arith, v.members i, e);
      fresh = λ i. ground (arith, v.fresh i, v.members p, before);
    }

not_blocked :
    (s : Spinlock) (t : ℕ)
    → s.blocked t ≡ false
    → ¬ ((s.blocked t ≡ true) × ((s.phases t ≡ waiting) ⊎ ((p : ℕ) × (s.phases t ≡ linking p))))
not_blocked s t b c = ground (arith, b, c.0)

-- Neither waits nor is about to.
abbrev pub past_wait : Phase → Bool
past_wait waiting = false
past_wait (linking p) = false
past_wait _ = true

pub not_waiting :
    (s : Spinlock) (t : ℕ)
    → past_wait (s.phases t) ≡ true
    → ¬ ((s.blocked t ≡ true) × ((s.phases t ≡ waiting) ⊎ ((p : ℕ) × (s.phases t ≡ linking p))))
not_waiting s t b (bl, inl e) = ground (arith, b, e)
not_waiting s t b (bl, inr (p, e)) = ground (arith, b, e)

released-HasQueue :
    (s : Spinlock) (t : ℕ) (r : List ℕ)
    → IsQueue s (t ∷ r)
    → HasQueue (
        if is_waiter s.lock t
        then record (with_phase s t outside) { lock = none }
        else with_phase s t handing)
released-HasQueue s t [] v =
    let e : is_waiter s.lock t ≡ true = ap (λ o. is_waiter o t) v.shape.2 ∙ ground arith in
    subst
      (λ b.
        HasQueue
          (if b then record (with_phase s t outside) { lock = none } else with_phase s t handing))
      (sym e) ([], left-IsQueue s t v)
released-HasQueue s t (n ∷ r) v =
    let apart : count t (n ∷ r) ≡ 0 = ground (arith, v.members t) in
    let e : is_waiter s.lock t ≡ false = ap (λ o. is_waiter o t) v.shape.2 ∙ other_last n r apart in
    subst
      (λ b.
        HasQueue
          (if b then record (with_phase s t outside) { lock = none } else with_phase s t handing))
      (sym e)
      (t ∷ n ∷ r, advanced-IsQueue s t (n ∷ r) handing s.blocked (λ i ne. refl) (inr refl) v)
  where
    other_last : (n : ℕ) (r : List ℕ) → count t (n ∷ r) ≡ 0 → (last n r == t) ≡ false
    other_last n [] c = ground (arith, c)
    other_last n (k ∷ r) c = other_last k r (omega (arith, c))

hand_to-HasQueue :
    (s : Spinlock) (t : ℕ) (r : List ℕ) → IsQueue s (t ∷ r) → HasQueue (hand_to s t (s.next t))
hand_to-HasQueue s t [] v = subst (λ o. HasQueue (hand_to s t o)) (sym v.shape.1) (t ∷ [], v)
hand_to-HasQueue s t (n ∷ r) v = told v.shape.1.0
  where
    told : Behind s t n → HasQueue (hand_to s t (s.next t))
    told (inl (p, e, b)) = subst (λ o. HasQueue (hand_to s t o)) (sym e) (t ∷ n ∷ r, v)
    told (inr (p, e, b)) =
        subst (λ o. HasQueue (hand_to s t o)) (sym e) (n ∷ r, handed-IsQueue s t n r e v)

waited-HasQueue :
    (s : Spinlock) (t : ℕ) (q : List ℕ)
    → s.phases t ≡ waiting
    → IsQueue s q
    → HasQueue (if s.blocked t then s else with_phase s t holding)
waited-HasQueue s t q e v = elim (Bool-cases (s.blocked t)) [
  | inl b ↦ rw b (q, v)
  | inr b ↦
      let (r, f) = first_of s t q v (ap in_queue e) (not_blocked s t b) in
      rw b (
        t ∷ r,
        advanced-IsQueue s t r holding s.blocked (λ i ne. refl) (inl refl) (subst (IsQueue s) f v),
      )
]

pub act_in-HasQueue :
    (s : Spinlock) (t : ℕ) (q : List ℕ) (p : Phase)
    → s.phases t ≡ p
    → IsQueue s q
    → HasQueue (act_in s t p)
act_in-HasQueue s t q outside e v = (q, v)
act_in-HasQueue s t q starting e v = exchanged-HasQueue s t q e v
act_in-HasQueue s t q (linking p) e v = (q, linked-IsQueue s t p q e v)
act_in-HasQueue s t q waiting e v = waited-HasQueue s t q e v
act_in-HasQueue s t q clearing e v =
    let (r, f) = first_of s t q v (ap in_queue e) (not_waiting s t (ap past_wait e)) in
    (
      t ∷ r,
      advanced-IsQueue s t r holding (put s.blocked t false) (λ i ne. ground arith) (inl refl)
          (subst (IsQueue s) f v),
    )
act_in-HasQueue s t q holding e v =
    let (r, f) = first_of s t q v (ap in_queue e) (not_waiting s t (ap past_wait e)) in
    released-HasQueue s t r (subst (IsQueue s) f v)
act_in-HasQueue s t q handing e v =
    let (r, f) = first_of s t q v (ap in_queue e) (not_waiting s t (ap past_wait e)) in
    hand_to-HasQueue s t r (subst (IsQueue s) f v)
act_in-HasQueue s t q trying e v = try_exchange-HasQueue s t q e v
