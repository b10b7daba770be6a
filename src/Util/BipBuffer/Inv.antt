-- ===== src/Util/BipBuffer/Inv.antt =====
-- The layout invariant of `bip_buffer`, and what its operations return under it.
use jsix.Prelude.{ℕ, ◌+◌, ◌-◌, ◌≤◌, ◌<◌, ◌≡◌, ◌≢◌, ◌⊎◌, List, none, some, arith, u64_mod, min}
use jsix.Util.BipBuffer.{
  BipBuffer, init, size, free_space, write_available, reserve, commit, consume, fill,
}

-- B starts at 0 and ends before A; a reservation follows A while there is no B, or follows B.
pub record IsValid (b : BipBuffer) : Type 0 where
  pub small : b.buffer_size < u64_mod
  pub a_in : b.start_a + b.size_a ≤ b.buffer_size
  pub b_first : b.start_b ≡ 0
  pub b_before_a : b.size_b ≤ b.start_a
  pub r_at_end :
      (b.size_r ≡ 0)
      ⊎ ((b.size_b ≡ 0)
          × (b.start_r ≡ b.start_a + b.size_a)
          × (b.start_r + b.size_r ≤ b.buffer_size)
          × (0 < b.size_r))
      ⊎ ((b.start_r ≡ b.size_b) × (b.size_b + b.size_r ≤ b.start_a) × (0 < b.size_r))

-- A buffer over an area larger than its header is valid and empty, whatever the memory holds.
init-IsValid :
    (header n garbage : ℕ) (bytes : ℕ → ℕ)
    → header ≤ n
    → n < u64_mod
    → IsValid (init header n garbage bytes)
      × (size (init header n garbage bytes) ≡ 0)
      × (free_space (init header n garbage bytes) ≡ n - header)
unfolding init size free_space
init-IsValid header n garbage bytes h k = ground arith

-- `reserve` keeps the invariant.
pub reserve-IsValid : {b : BipBuffer} (n : ℕ) → IsValid b → IsValid (reserve b n).0
unfolding reserve
reserve-IsValid n v = ground arith

-- Writing into the memory moves no area.
pub fill-IsValid : {b : BipBuffer} (xs : List ℕ) → IsValid b → IsValid (fill b xs)
unfolding fill
fill-IsValid xs v = ground arith

-- `commit` keeps the invariant.
pub commit-IsValid : {b c : BipBuffer} (n : ℕ) → IsValid b → commit b n ≡ some c → IsValid c
unfolding commit
commit-IsValid n v e = ground arith

-- `consume` keeps the invariant, also while a reservation is open.
pub consume-IsValid : {b c : BipBuffer} (n : ℕ) → IsValid b → consume b n ≡ some c → IsValid c
unfolding consume
consume-IsValid n v e = ground arith

-- An area that `reserve` hands out lies in the buffer, off A and off B, and is at most as large as
-- asked; with none, the size is 0.
reserve-area :
    {b : BipBuffer} (n : ℕ) {s k : ℕ}
    → IsValid b
    → (reserve b n).1 ≡ some s
    → (reserve b n).2 ≡ k
    → (s + k ≤ b.buffer_size)
      × (k ≤ n)
      × ((s + k ≤ b.start_a) ⊎ (b.start_a + b.size_a ≤ s))
      × (b.start_b + b.size_b ≤ s)
unfolding reserve
reserve-area n v e f = ground arith

-- What `write_available` promises is what `reserve` grants: at most that many bytes are granted
-- in full, and a larger request gets at least that many.
pub reserve-write_available :
    {b : BipBuffer} (n : ℕ) → IsValid b → (reserve b n).2 ≡ min n (write_available b)
unfolding reserve write_available
reserve-write_available n v = ground arith

-- Under the invariant `commit` fails exactly when it is given more than was reserved, and
-- `consume` exactly when it is given more than A holds.
pub commit-total : {b : BipBuffer} (n : ℕ) → IsValid b → n ≤ b.size_r → commit b n ≢ none
unfolding commit
commit-total n v h = ground arith

pub consume-total : (b : BipBuffer) (n : ℕ) → n ≤ b.size_a → consume b n ≢ none
unfolding consume
consume-total b n h = ground arith

-- The bytes held and the free bytes make up the buffer.
pub size-add-free_space : {b : BipBuffer} → IsValid b → size b + free_space b ≡ b.buffer_size
unfolding size free_space
size-add-free_space v = ground arith
