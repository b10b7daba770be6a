-- ===== src/Util/BipBuffer/Refine.antt =====
-- A valid `bip_buffer` holds a queue of bytes: those of A, then those of B.
use native.Mathlib.Decide.{dec_lt, dec_le}
use jsix.Prelude.{
  subst, ap, ℕ, zero, suc, ◌+◌, ◌-◌, ◌≤◌, ◌≡◌, refl, sym, ◌∙◌, inl, inr, Option, none, some, List,
  [], ◌∷◌, ◌++◌, length, drop, arith,
}
use mathlib.Core.List.{append-nil, append_assoc}
use jsix.Util.BipBuffer.{BipBuffer, write_at, reserve, commit, consume, fill}
use jsix.Util.BipBuffer.Bytes.{
  slice, slice-add, length-slice, slice-write_at_off, slice-write_at_self,
}
use jsix.Util.BipBuffer.Inv.{
  IsValid, commit-IsValid, consume-IsValid, fill-IsValid, reserve-IsValid,
}

abbrev pub contents : BipBuffer → List ℕ
contents b = slice b.buffer b.start_a b.size_a ++ slice b.buffer b.start_b b.size_b

-- `reserve` and the client's writes into its area leave the bytes held alone.
pub contents-reserve : (b : BipBuffer) (n : ℕ) → contents (reserve b n).0 ≡ contents b
unfolding reserve
contents-reserve b n = ground arith

module _ (b : BipBuffer) (v : IsValid b) (xs : List ℕ) (h : length xs ≤ b.size_r) where
  open b use {start_a, start_b, start_r, size_a, size_b, size_r, buffer}

  bytes : ℕ → ℕ
  bytes = write_at buffer start_r xs

  -- The state that `commit` leaves when the reservation follows A.
  grown_a : BipBuffer
  grown_a = record b { size_a = size_a + length xs; start_r = 0; size_r = 0; buffer = bytes }

  grown_b : BipBuffer
  grown_b = record b { size_b = size_b + length xs; start_r = 0; size_r = 0; buffer = bytes }

  contents-grown_a : size_b ≡ 0 → start_r ≡ start_a + size_a → contents grown_a ≡ contents b ++ xs
  unfolding grown_a bytes
  contents-grown_a eb er = ground (
    arith,
    slice-add bytes start_a size_a (length xs) (size_a + length xs) refl,
    slice-write_at_off buffer start_r xs start_a size_a,
    slice-write_at_self buffer start_r xs,
    append-nil (slice buffer start_a size_a ++ xs),
    append-nil (slice buffer start_a size_a),
  )

  contents-grown_b :
      start_r ≡ size_b → size_b + size_r ≤ start_a → contents grown_b ≡ contents b ++ xs
  unfolding grown_b bytes
  contents-grown_b er room = ground (
    arith,
    slice-add bytes start_b size_b (length xs) (size_b + length xs) refl,
    slice-write_at_off buffer start_r xs start_a size_a,
    slice-write_at_off buffer start_r xs start_b size_b,
    slice-write_at_self buffer start_r xs,
    v,
    append_assoc (slice buffer start_a size_a) (slice buffer start_b size_b) xs,
  )

commit_nothing :
    (b : BipBuffer) → IsValid b → commit (fill b []) 0 ≡ some (record b { start_r = 0; size_r = 0 })
unfolding commit fill write_at
commit_nothing b v = ground arith

-- Committing the bytes that a client wrote at the start of its area appends them to the queue.
pub commit_appends :
    (b : BipBuffer) (xs : List ℕ)
    → IsValid b
    → length xs ≤ b.size_r
    → (c : BipBuffer) × (commit (fill b xs) (length xs) ≡ some c) × (contents c ≡ contents b ++ xs)
unfolding commit fill grown_a grown_b bytes
commit_appends b [] v h =
    (record b { start_r = 0; size_r = 0 }, commit_nothing b v, sym (append-nil (contents b)))
commit_appends b (x ∷ xs) v h = elim v.r_at_end [
  | inl e ↦ absurd (omega arith)
  | inr (inl (eb, er, fits, some_r)) ↦
      (grown_a b v (x ∷ xs) h, ground arith, contents-grown_a b v (x ∷ xs) h eb er)
  | inr (inr (er, room, some_r)) ↦
      (grown_b b v (x ∷ xs) h, ground arith, contents-grown_b b v (x ∷ xs) h er room)
]

drop-append : (n : ℕ) (xs ys : List ℕ) → length xs ≡ n → drop n (xs ++ ys) ≡ ys
drop-append zero [] ys e = refl
drop-append zero (x ∷ xs) ys e = absurd (omega arith)
drop-append (suc n) [] ys e = absurd (omega arith)
drop-append (suc n) (x ∷ xs) ys e = drop-append n xs ys (omega arith)

drop-contents :
    (b : BipBuffer) (n m : ℕ)
    → b.size_a ≡ n + m
    → drop n (contents b) ≡ slice b.buffer (b.start_a + n) m ++ slice b.buffer b.start_b b.size_b
drop-contents b n m e =
    rw (slice-add b.buffer b.start_a n m b.size_a e, append_assoc)
      (drop-append n _ _ (length-slice b.buffer b.start_a n))

-- Consuming `n` bytes drops the first `n` of the queue, also while a reservation is open.
pub consume_drops :
    (b : BipBuffer) (n : ℕ)
    → IsValid b
    → n ≤ b.size_a
    → (c : BipBuffer) × (consume b n ≡ some c) × (contents c ≡ drop n (contents b))
unfolding consume
consume_drops b n v h = elim (dec_lt n b.size_a) [
  | yes less ↦ (
    record b { size_a = b.size_a - n; start_a = b.start_a + n },
    ground arith,
    sym (drop-contents b n (b.size_a - n) (omega arith)),
  )
  | no all ↦ elim v.r_at_end [
    | inl e ↦ (flipped, ground arith, contents-flipped (omega arith))
    | inr (inl (eb, er, fits, some_r)) ↦
        (record b { start_a = b.start_r; size_a = 0 }, ground arith, sym (dropped_a (omega arith)))
    | inr (inr (er, room, some_r)) ↦ (flipped, ground arith, contents-flipped (omega arith))
  ]
]
  where
    flipped : BipBuffer
    flipped = record b { size_a = b.size_b; start_a = b.start_b; size_b = 0; start_b = 0 }

    dropped_a : b.size_a ≡ n → drop n (contents b) ≡ slice b.buffer b.start_b b.size_b
    dropped_a e = drop-contents b n 0 (omega arith)

    contents-flipped : b.size_a ≡ n → contents flipped ≡ drop n (contents b)
    contents-flipped e = append-nil _ ∙ sym (dropped_a e)

-- What a writer and a reader do: reserve an area, commit bytes written to it, consume bytes.
pub data Op : Type 0 where
  reserves consumes : ℕ → Op
  commits : List ℕ → Op

unfoldable pub step : BipBuffer → Op → Option BipBuffer
step b (reserves n) = some (reserve b n).0
step b (consumes n) = consume b n
step b (commits xs) = commit (fill b xs) (length xs)

-- The same on the queue of bytes.
unfoldable pub queue_step : List ℕ → Op → List ℕ
queue_step q (reserves n) = q
queue_step q (consumes n) = drop n q
queue_step q (commits xs) = q ++ xs

-- An operation that asks for no more than the buffer granted it.
abbrev pub Allowed : BipBuffer → Op → Type 0
Allowed b (reserves n) = Unit {0}
Allowed b (consumes n) = n ≤ b.size_a
Allowed b (commits xs) = length xs ≤ b.size_r

allowed? : (b : BipBuffer) (o : Op) → Dec (Allowed b o)
allowed? b (reserves n) = yes tt
allowed? b (consumes n) = dec_le n b.size_a
allowed? b (commits xs) = dec_le (length xs) b.size_r

-- An allowed operation on a valid buffer succeeds, keeps it valid, and does to its bytes what it
-- does to the queue; any other one fails its `assert`.
step_refines :
    (b : BipBuffer) (o : Op)
    → IsValid b
    → Allowed b o
    → (c : BipBuffer) × (step b o ≡ some c) × IsValid c × (contents c ≡ queue_step (contents b) o)
unfolding step queue_step
step_refines b (reserves n) v h = (_, refl, reserve-IsValid n v, contents-reserve b n)
step_refines b (consumes n) v h =
    let (c, e, same) = consume_drops b n v h in (c, e, consume-IsValid n v e, same)
step_refines b (commits xs) v h =
    let (c, e, same) = commit_appends b xs v h in
    (c, e, commit-IsValid (length xs) (fill-IsValid xs v) e, same)

pub step-refused : (b : BipBuffer) (o : Op) → ¬ Allowed b o → step b o ≡ none
unfolding step commit consume fill
step-refused b (reserves n) h = absurd (h tt)
step-refused b (consumes n) h = ground arith
step-refused b (commits xs) h = ground arith

abbrev pub run_after : (BipBuffer → Option BipBuffer) → Option BipBuffer → Option BipBuffer
run_after rest none = none
run_after rest (some b) = rest b

unfoldable pub run : BipBuffer → List Op → Option BipBuffer
run b [] = some b
run b (o ∷ os) = run_after (λ c. run c os) (step b o)

abbrev pub AllowedAfter : (BipBuffer → Type 0) → Option BipBuffer → Type 0
AllowedAfter rest none = Unit {0}
AllowedAfter rest (some b) = rest b

-- Each operation of the history is allowed when its turn comes.
abbrev pub AllAllowed : BipBuffer → List Op → Type 0
AllAllowed b [] = Unit {0}
AllAllowed b (o ∷ os) = Allowed b o × AllowedAfter (λ c. AllAllowed c os) (step b o)

unfoldable pub queue_run : List ℕ → List Op → List ℕ
queue_run q [] = q
queue_run q (o ∷ os) = queue_run (queue_step q o) os

-- A history of operations on a valid buffer, each asking for no more than was granted when its turn
-- comes, runs to its end and leaves a valid buffer, which holds what the queue holds after the same
-- history.
pub run_refines :
    (b : BipBuffer) (os : List Op)
    → IsValid b
    → AllAllowed b os
    → (c : BipBuffer) × (run b os ≡ some c) × IsValid c × (contents c ≡ queue_run (contents b) os)
unfolding run queue_run
run_refines b [] v h = (b, refl, v, refl)
run_refines b (o ∷ os) v (h, hs) =
    let (d, f, w, same) = step_refines b o v h in
    let (c, g, x, y) = run_refines d os w (subst (AllowedAfter (λ e. AllAllowed e os)) f hs) in
    (c, ap (run_after (λ e. run e os)) f ∙ g, x, y ∙ ap (λ q. queue_run q os) same)
