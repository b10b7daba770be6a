-- ===== src/Kernel/Paging.antt =====
-- The iterator of src/kernel/page_table.cpp, and `page_in`, `clear` and `lock` of
-- src/kernel/vm_space.cpp over it. What an iterator's `entry(level::pt)` reads and writes is the
-- interface `Tables`: an entry for each page of the address space, by its number. A level is its
-- number, from 0 for pml4 to 4 for page. The flushes of cached translations are left out.
pub mod Position
pub mod PageIn
pub mod Runs
pub mod Clear
pub mod Lock
mod Tests
use jsix.Prelude.{
  ℕ, zero, suc, ◌+◌, ◌-◌, ◌*◌, ◌/◌, ◌%◌, ◌^◌, ◌≡◌, ◌≢◌, ◌==◌, Bool, true, false, not, ◌&&◌, ◌||◌,
  Option, none, some, List, [], ◌∷◌, ◌++◌, ltb, leb, if◌then◌else◌, add64,
}
use jsix.Kernel.VmSpace.{VmSpace, find_vma}
use Prim.Native.Nat.{bit_or}

-- `m_index` of `page_table::iterator`
abbrev pub Iterator : Type 0
Iterator = ℕ → ℕ

abbrev pub put_index : Iterator → ℕ → ℕ → Iterator
put_index it l n i = if i == l then n else it i

abbrev pub shift_of : ℕ → ℕ
shift_of i = 12 + 9 * (3 - i)

-- the constructor of an iterator
abbrev pub iterator : ℕ → Iterator
iterator virt i = virt / 2 ^ shift_of i % 512

abbrev pub canonical : ℕ → ℕ
canonical address = if address / 2 ^ 47 % 2 == 1 then address + 0xffff * 2 ^ 48 else address

-- The loop of `start`, over the levels up to the one given. The indices have 9 bits, so that the bits
-- it joins are apart.
abbrev pub start_bits : Iterator → ℕ → ℕ
start_bits it zero = it 0 * 2 ^ shift_of 0
start_bits it (suc l) = start_bits it l + it (suc l) * 2 ^ shift_of (suc l)

unfoldable pub start : Iterator → ℕ → ℕ
start it l = canonical (start_bits it l)

-- the loop of `next` that sets the indices from level `l` on to 0
abbrev pub clear_below : Iterator → ℕ → Iterator
clear_below it l i = if leb l i then 0 else it i

-- The loop of `next` that carries, from the level above `l` on. The assertion fails when there is none.
unfoldable pub carry : Iterator → ℕ → Option Iterator
carry it zero = none
carry it (suc l) =
    let up = carry (put_index it l 0) l in
    if it l + 1 == 512 then up else some (put_index it l (it l + 1))

unfoldable pub next : Iterator → ℕ → Option Iterator
unfolding carry
next it l = if l == 0 || ltb 4 l then none else carry (clear_below it l) l

-- the number of the page that an iterator stands at
abbrev pub position : Iterator → ℕ
position it = it 0 * 512 ^ 3 + it 1 * 512 ^ 2 + it 2 * 512 + it 3

-- The entries of the last level.
pub record Tables : Type 1 where
  pub State : Type 0
  pub entry : State → ℕ → ℕ
  pub set : State → ℕ → ℕ → State
  pub entry-set_same : (t : State) (n e : ℕ) → entry (set t n e) n ≡ e
  pub entry-set_other : (t : State) (n m e : ℕ) → m ≢ n → entry (set t n e) m ≡ entry t m

abbrev pub page_flags : Bool → Bool → Bool → ℕ
page_flags kernel write write_combine =
    1 + (if kernel then 0 else 4) + (if write then 2 else 0) + (if write_combine then 0x98 else 0)

abbrev pub locked_page_tag : ℕ
locked_page_tag = 0xbadfe11a

-- Frames that are freed together: the first and how many.
pub record Run : Type 0 where
  pub first : ℕ
  pub count : ℕ

-- `free_start` and `free_count` of `clear`, and the calls of the allocator's `free` so far
pub record Freeing : Type 0 where
  pub run : Run
  pub freed : List Run

abbrev pub flush : Bool → Freeing → List Run
flush free f = if free && not (f.run.count == 0) then f.freed ++ f.run ∷ [] else f.freed

unfoldable pub add_frame : Bool → Freeing → ℕ → Freeing
add_frame free f phys =
    if not (f.run.count == 0) && phys == add64 f.run.first (f.run.count * 4096)
    then record f { run = record { first = f.run.first; count = f.run.count + 1 } }
    else record { run = record { first = phys; count = 1 }; freed = flush free f }

module _ (ts : Tables) where
  -- the loop of `page_in`
  unfoldable pub page_in_loop : Iterator → ℕ → ℕ → ℕ → ℕ → ts.State → Option ts.State
  unfolding next
  page_in_loop it phys flags i zero t = some t
  page_in_loop it phys flags i (suc count) t =
      let t' = ts.set t (position it) (bit_or (add64 phys (i * 4096)) flags) in
      elim (next it 4) [ none ↦ none | some it' ↦ page_in_loop it' phys flags (i + 1) count t' ]

  unfoldable pub page_in : VmSpace → Bool → Bool → ℕ → ℕ → ℕ → ℕ → ts.State → Option ts.State
  unfolding page_in_loop
  page_in s write write_combine v offset phys count t = elim (find_vma s.areas v) [
    | none ↦ some t
    | some base ↦
        page_in_loop (iterator (add64 base offset)) phys (page_flags s.kernel write write_combine) 0
          count t
  ]

  -- the loop of `clear`
  unfoldable pub clear_loop : Bool → Iterator → ℕ → ts.State → Freeing → Option (ts.State × Freeing)
  unfolding next add_frame
  clear_loop free it zero t f = some (t, f)
  clear_loop free it (suc count) t f =
      let e = ts.entry t (position it) in
      elim (next it 4) [
        | none ↦ none
        | some it' ↦
            if e % 2 == 1
            then clear_loop free it' count (ts.set t (position it) 0)
                (add_frame free f (e / 4096 * 4096))
            else clear_loop free it' count t f
      ]

  abbrev pub cleared : Bool → Option (ts.State × Freeing) → Option (ts.State × List Run)
  cleared free none = none
  cleared free (some (t, f)) = some (t, flush free f)

  -- The entries that `clear` leaves and the runs of frames that it frees, in order.
  unfoldable pub clear : VmSpace → ℕ → ℕ → ℕ → Bool → ts.State → Option (ts.State × List Run)
  unfolding clear_loop
  clear s v offset count free t = elim (find_vma s.areas v) [
    | none ↦ some (t, [])
    | some base ↦ cleared free (
        clear_loop free (iterator (add64 base offset)) count t
          (record { run = record { first = 0; count = 0 }; freed = [] }))
  ]

  -- the loop of `lock`
  unfoldable pub lock_loop : Iterator → ℕ → ts.State → List Run → Option (ts.State × List Run)
  unfolding next
  lock_loop it zero t freed = some (t, freed)
  lock_loop it (suc count) t freed =
      let e = ts.entry t (position it) in
      elim (next it 4) [
        | none ↦ none
        | some it' ↦
            if e % 2 == 1
            then lock_loop it' count (ts.set t (position it) locked_page_tag)
                (freed ++ (record { first = e / 4096 * 4096; count = 1 }) ∷ [])
            else lock_loop it' count t freed
      ]

  unfoldable pub lock : VmSpace → ℕ → ℕ → ℕ → ts.State → Option (ts.State × List Run)
  unfolding lock_loop
  lock s v offset count t = elim (find_vma s.areas v) [
    | none ↦ some (t, [])
    | some base ↦ lock_loop (iterator (add64 base offset)) count t []
  ]
