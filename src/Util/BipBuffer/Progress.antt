-- ===== src/Util/BipBuffer/Progress.antt =====
-- When a reader of `bip_buffer` sees the bytes held: `get_block` shows A only.
use mathlib.Core.Option.{some-injective}
use jsix.Prelude.{
  ℕ, zero, suc, ◌+◌, ◌-◌, ◌≤◌, ◌<◌, ◌≡◌, subst, ◌≢◌, ◌⊎◌, some, List, length, take, ◌++◌, [], ◌∷◌,
  refl, ap, arith,
}
use jsix.Util.BipBuffer.{BipBuffer, size, reserve, commit, get_block, consume, fill, write_at}
use jsix.Util.BipBuffer.Bytes.{slice}
use jsix.Util.BipBuffer.Inv.{IsValid}
use jsix.Util.BipBuffer.Refine.{contents, Op, reserves, consumes, commits, step}

take-slice_append :
    (bytes : ℕ → ℕ) (s n : ℕ) (ys : List ℕ) → take n (slice bytes s n ++ ys) ≡ slice bytes s n
take-slice_append bytes s zero ys = refl
take-slice_append bytes s (suc n) ys = ap (◌∷◌ (bytes s)) (take-slice_append bytes (s + 1) n ys)

-- The block that `get_block` shows is the front of the queue.
pub get_block_front :
    (b : BipBuffer) {s k : ℕ} → get_block b ≡ (some s, k) → slice b.buffer s k ≡ take k (contents b)
unfolding get_block
get_block_front b {s} {k} e =
    ground
      (arith, take-slice_append b.buffer b.start_a b.size_a (slice b.buffer b.start_b b.size_b))

-- While A is empty so is B, and the next bytes go to A.
pub record IsServed (b : BipBuffer) : Type 0 where
  pub front : b.size_a ≡ 0 → b.size_b ≡ 0
  pub next : b.size_a ≡ 0 → (b.start_a ≡ 0) ⊎ ((0 < b.size_r) × (b.start_r ≡ b.start_a))

abbrev IsNonempty : Op → Type 0
IsNonempty (commits xs) = xs ≢ []
IsNonempty o = Unit {0}

reserve-IsServed : {b : BipBuffer} (n : ℕ) → IsValid b → IsServed b → IsServed (reserve b n).0
unfolding reserve
reserve-IsServed n v s = ground (arith, s.front, s.next)

consume-IsServed :
    {b c : BipBuffer} (n : ℕ) → IsValid b → IsServed b → consume b n ≡ some c → IsServed c
unfolding consume
consume-IsServed n v s e = ground (arith, s.front, s.next)

commit-IsServed :
    {b c : BipBuffer} (x : ℕ) (xs : List ℕ)
    → IsValid b
    → IsServed b
    → commit (fill b (x ∷ xs)) (length (x ∷ xs)) ≡ some c
    → IsServed c
unfolding commit fill
commit-IsServed x xs v s e = ground (arith, s.front, s.next)

served-contents : {b : BipBuffer} → IsServed b → b.size_a ≡ 0 → contents b ≡ []
served-contents s e = ground (arith, s.front e)

abbrev pub IsServing : BipBuffer → Type 0
IsServing b = IsServed b × ((get_block b).1 ≡ 0 → contents b ≡ [])

-- A valid buffer that serves its reader keeps doing so under every operation but an empty commit,
-- and then `get_block` shows no bytes only when none are held.
pub step-IsServed :
    (b c : BipBuffer) (o : Op)
    → IsValid b
    → IsServed b
    → IsNonempty o
    → step b o ≡ some c
    → IsServing c
unfolding step get_block
step-IsServed b c (reserves n) v s h e =
    subst IsServing (some-injective _ _ e)
      (let t = reserve-IsServed n v s in (t, served-contents t))
step-IsServed b c (consumes n) v s h e = let t = consume-IsServed n v s e in (t, served-contents t)
step-IsServed b c (commits []) v s h e = absurd (h refl)
step-IsServed b c (commits (x ∷ xs)) v s h e =
    let t = commit-IsServed x xs v s e in (t, served-contents t)

-- An empty commit after the last byte of A was consumed breaks this: whenever the reservation
-- followed A and A starts past the middle of the buffer, the next full reservation in front of A
-- goes to B, and the reader is shown nothing while the buffer holds bytes.
empty_commit_hides :
    (b : BipBuffer) (x : ℕ) (xs : List ℕ)
    → IsValid b
    → b.size_a ≡ 0
    → b.size_b ≡ 0
    → 0 < b.size_r
    → b.start_r ≡ b.start_a
    → b.buffer_size - b.start_a < length (x ∷ xs)
    → length (x ∷ xs) ≤ b.start_a
    → (c d : BipBuffer) × (commit b 0 ≡ some c)
      × (commit (fill (reserve c (length (x ∷ xs))).0 (x ∷ xs)) (length (x ∷ xs)) ≡ some d)
      × ((get_block d).1 ≡ 0)
      × (size d ≡ length (x ∷ xs))
unfolding commit reserve fill get_block size
empty_commit_hides b x xs v ea eb r er past fits = (
  record b { start_r = 0; size_r = 0 },
  record b {
    size_b = length (x ∷ xs);
    start_r = 0;
    size_r = 0;
    buffer = write_at b.buffer 0 (x ∷ xs);
  },
  ground arith,
  ground arith,
  ground arith,
  ground arith,
)
