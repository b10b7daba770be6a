-- ===== src/Util/BipBuffer.antt =====
-- src/libraries/util/bip_buffer.cpp and include/util/bip_buffer.h: a circular buffer that hands out
-- contiguous areas. `size_t` arithmetic wraps. Every operation holds `m_lock` to its end, so each
-- is one step. The bytes `m_buffer` are a function of the index; `none` is a failed `assert`.
pub mod Bytes
pub mod Inv
pub mod Refine
pub mod Progress
mod Tests
use jsix.Prelude.{
  ℕ, zero, suc, ◌+◌, ◌-◌, ◌%◌, ◌^◌, Bool, true, false, ◌&&◌, Option, none, some, List, [], ◌∷◌, ltb,
  leb, ◌==◌, if◌then◌else◌, not_zero, add64, sub64,
}

-- `bip_buffer`, without its lock
pub record BipBuffer : Type 0 where
  pub start_a : ℕ
  pub start_b : ℕ
  pub start_r : ℕ
  pub size_a : ℕ
  pub size_b : ℕ
  pub size_r : ℕ
  pub buffer_size : ℕ
  pub buffer : ℕ → ℕ

-- `bip_buffer(size)`. `m_start_r` and the bytes are not initialised; `header` is
-- `sizeof(bip_buffer)`.
pub init : ℕ → ℕ → ℕ → (ℕ → ℕ) → BipBuffer
init header size garbage bytes = record {
  start_a = 0;
  start_b = 0;
  start_r = garbage;
  size_a = 0;
  size_b = 0;
  size_r = 0;
  buffer_size = sub64 size header;
  buffer = bytes;
}

pub size : BipBuffer → ℕ
size b = add64 b.size_a b.size_b

pub free_space : BipBuffer → ℕ
unfolding size
free_space b = sub64 b.buffer_size (size b)

pub write_available : BipBuffer → ℕ
write_available b =
    if b.size_r == 0
    then (if b.size_b == 0
        then (let remaining = sub64 (sub64 b.buffer_size b.start_a) b.size_a in
            if ltb remaining b.start_a then b.start_a else remaining)
        else sub64 (sub64 b.start_a b.start_b) b.size_b)
    else 0

-- What `reserve` finds before it reserves: the room left and where it starts.
pub find_room : BipBuffer → ℕ → ℕ × ℕ
find_room b n =
    if b.size_b == 0
    then (let remaining = sub64 (sub64 b.buffer_size b.start_a) b.size_a in
        if ltb remaining n && ltb remaining b.start_a
        then (b.start_a, 0)
        else (remaining, add64 b.start_a b.size_a))
    else (sub64 (sub64 b.start_a b.start_b) b.size_b, add64 b.start_b b.size_b)

-- `reserve(size, &area)`: the new state, the area's index (`none` for a null area) and its size
pub reserve : BipBuffer → ℕ → BipBuffer × Option ℕ × ℕ
unfolding find_room
reserve b n =
    if b.size_r == 0
    then (let (remaining, start) = find_room b n in
        if remaining == 0
        then (record b { start_r = start }, none, 0)
        else (let reserved = if ltb remaining n then remaining else n in
            (record b { start_r = start; size_r = reserved }, some start, reserved)))
    else (b, none, 0)

-- The part of `commit` that moves bytes from the reservation to A or B.
pub commit_reserved : BipBuffer → ℕ → Option BipBuffer
commit_reserved b n =
    if b.size_r == 0
    then some b
    else (if b.start_r == add64 b.start_a b.size_a
        then some (record b { size_a = add64 b.size_a n })
        else (if b.start_r == add64 b.start_b b.size_b
            then some (record b { size_b = add64 b.size_b n })
            else none))

abbrev clear_reserved : Option BipBuffer → Option BipBuffer
clear_reserved none = none
clear_reserved (some b) = some (record b { start_r = 0; size_r = 0 })

pub commit : BipBuffer → ℕ → Option BipBuffer
unfolding commit_reserved
commit b n = if leb n b.size_r then clear_reserved (commit_reserved b n) else none

-- `get_block(&area)`: the area's index and its size
pub get_block : BipBuffer → Option ℕ × ℕ
get_block b = (if b.size_a == 0 then none else some b.start_a, b.size_a)

pub consume : BipBuffer → ℕ → Option BipBuffer
consume b n =
    if leb n b.size_a
    then some (
        if leb b.size_a n
        then (if not_zero b.size_r && b.start_r == add64 b.start_a b.size_a
            then record b { start_a = b.start_r; size_a = 0 }
            else record b { size_a = b.size_b; start_a = b.start_b; size_b = 0; start_b = 0 })
        else record b { size_a = sub64 b.size_a n; start_a = add64 b.start_a n })
    else none

abbrev pub put : (ℕ → ℕ) → ℕ → ℕ → ℕ → ℕ
put bytes p x i = if i == p then x else bytes i

-- A client writes bytes into memory from an index on.
pub write_at : (ℕ → ℕ) → ℕ → List ℕ → ℕ → ℕ
write_at bytes start [] = bytes
write_at bytes start (x ∷ xs) = write_at (put bytes start x) (start + 1) xs

-- A client fills the start of its reserved area.
pub fill : BipBuffer → List ℕ → BipBuffer
fill b xs = record b { buffer = write_at b.buffer b.start_r xs }
