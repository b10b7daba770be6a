-- ===== src/Kernel/Heap/Inv.antt =====
-- What a heap must be: its map and its free lists say the same, and its blocks lie apart.
use jsix.Prelude.{
  ℕ, ◌+◌, ◌*◌, ◌%◌, ◌^◌, ◌≤◌, ◌<◌, ◌==◌, ◌≡◌, ◌≢◌, ◌⊎◌, ◌∙◌, refl, ap, Bool, true, false, ◌&&◌,
  Option, none, some, List, [], ◌∷◌, ltb, leb, if◌then◌else◌, one_if, arith,
}
use jsix.Prelude.Occur.{count}
use jsix.Kernel.Heap.{
  Heap, BlockInfo, map_key, put_list, take_block, register_free_block, pop_list, pop_free,
}

-- the bytes that an entry of the map stands for
abbrev pub size_of : Option BlockInfo → ℕ
size_of none = 0
size_of (some i) = 2 ^ i.order

abbrev pub is_ranged : Option BlockInfo → Bool
is_ranged none = true
is_ranged (some i) = leb 5 i.order && leb i.order 22

-- the remainder of an address by the size of its block
abbrev pub offset_in : ℕ → Option BlockInfo → ℕ
offset_in p none = 0
offset_in p (some i) = p % 2 ^ i.order

-- How often a block must stand in the list of an order.
abbrev pub listed_as : Option BlockInfo → ℕ → ℕ
listed_as none o = 0
listed_as (some i) o = one_if (i.free && i.order == o)

-- `p` is the block that is held outside the lists, if any.
abbrev pub is_held : Option ℕ → ℕ → Bool
is_held none p = false
is_held (some q) p = p == q

abbrev pub can_start : ℕ → Bool
can_start p = p % 32 == 0 && ltb p (2 ^ 37)

pub record IsHeap (h : Heap) (held : Option ℕ) : Type 0 where
  pub aligned_end : h.end % 32 ≡ 0
  pub small : h.end < 2 ^ 37
  pub ranged : (k : ℕ) → is_ranged (h.map k) ≡ true
  pub aligned : (k : ℕ) → offset_in (k * 32) (h.map k) ≡ 0
  pub inside : (k : ℕ) → (h.map k ≡ none) ⊎ (k * 32 + size_of (h.map k) ≤ h.end)
  pub apart : (k j : ℕ) → k < j → j * 32 < k * 32 + size_of (h.map k) → h.map j ≡ none
  pub listed :
      (p o : ℕ)
      → count p (h.free_lists o) ≡ (
          if is_held held p
          then 0
          else (if can_start p then listed_as (h.map (map_key p)) o else 0))

-- A heap with a block of order `o` that is held outside the lists.
pub record IsHeld (h : Heap) (p o : ℕ) : Type 0 where
  pub heap : IsHeap h (some p)
  pub start : p % 32 ≡ 0
  pub low : p < 2 ^ 37
  pub free : Bool
  pub entry : h.map (map_key p) ≡ some (record { order = o; free = free })

-- Taking the held block for the caller closes the gap.
pub take_block-IsHeap : (h : Heap) (p o : ℕ) → IsHeld h p o → IsHeap (take_block (p, h)).1 none
take_block-IsHeap h p o v = record {
  aligned_end = v.heap.aligned_end;
  small = v.heap.small;
  ranged = λ k. ground (arith, v.heap.ranged k, v.entry);
  aligned = λ k. ground (arith, v.heap.aligned k, v.entry);
  inside = λ k. ground (arith, v.heap.inside k, v.entry);
  apart = λ k j lt near. ground (arith, v.heap.apart k j lt, v.entry);
  listed = λ q r. ground (arith, v.heap.listed q r, v.entry, v.start, v.low);
}

-- So does putting it into its list.
pub register-IsHeap : (h : Heap) (p o : ℕ) → IsHeld h p o → IsHeap (register_free_block h p o) none
unfolding register_free_block
register-IsHeap h p o v = record {
  aligned_end = v.heap.aligned_end;
  small = v.heap.small;
  ranged = λ k. ground (arith, v.heap.ranged k, v.entry);
  aligned = λ k. ground (arith, v.heap.aligned k, v.entry);
  inside = λ k. ground (arith, v.heap.inside k, v.entry);
  apart = λ k j lt near. ground (arith, v.heap.apart k j lt, v.entry);
  listed = λ q r. ground (arith, v.heap.listed q r, v.entry, v.start, v.low);
}

listed_once :
    (m : Option BlockInfo) (o : ℕ)
    → 1 ≤ listed_as m o
    → m ≡ some (record { order = o; free = true })
listed_once none o h = absurd (omega arith)
listed_once (some i) o h = ground arith

-- A block in a free list is a free block of that order.
pub listed_entry :
    (h : Heap) (p o : ℕ)
    → IsHeap h none
    → 1 ≤ count p (h.free_lists o)
    → (p % 32 ≡ 0) × (p < 2 ^ 37) × (h.map (map_key p) ≡ some (record { order = o; free = true }))
listed_entry h p o v l = (
  ground (arith, v.listed p o),
  ground (arith, v.listed p o),
  listed_once (h.map (map_key p)) o (ground (arith, v.listed p o)),
)

-- The head of a free list can be taken off.
pub pop_list-IsHeld :
    (h : Heap) (o p : ℕ) (rest : List ℕ)
    → IsHeap h none
    → h.free_lists o ≡ p ∷ rest
    → IsHeld (record h { free_lists = put_list h.free_lists o rest }) p o
pop_list-IsHeld h o p rest v e =
    let head : count p (h.free_lists o) ≡ 1 + count p rest = ap (count p) e ∙ ground arith in
    let (start, low, entry) = listed_entry h p o v (omega arith) in
    record {
      heap = record {
        aligned_end = v.aligned_end;
        small = v.small;
        ranged = v.ranged;
        aligned = v.aligned;
        inside = v.inside;
        apart = v.apart;
        listed = λ q r. ground (arith, v.listed q r, ap (count q) e, entry, start, low);
      };
      start = start;
      low = low;
      free = true;
      entry = entry;
    }

-- The blocks in use in `h` are in use in `t`, and `p` is none of them.
abbrev pub Keeps : Heap → Heap → ℕ → Type 0
Keeps h t p =
    (k o : ℕ)
    → h.map k ≡ some (record { order = o; free = false })
    → (k ≢ map_key p) × (t.map k ≡ some (record { order = o; free = false }))

-- `t` comes from `h`, and `p` is a block of order `o` that is held.
pub record IsFrom (h t : Heap) (p o : ℕ) : Type 0 where
  pub held : IsHeld t p o
  pub keeps : Keeps h t p

-- What `pop_free` and `split_off` find.
abbrev pub IsFound : Heap → ℕ → Option (ℕ × Heap) → Type 0
IsFound h o none = Unit {0}
IsFound h o (some (p, t)) = IsFrom h t p o

pop_list-IsFound :
    (h : Heap) (o : ℕ) (l : List ℕ)
    → IsHeap h none
    → h.free_lists o ≡ l
    → IsFound h o (pop_list h o l)
pop_list-IsFound h o [] v e = tt
pop_list-IsFound h o (p ∷ rest) v e =
    let head : count p (h.free_lists o) ≡ 1 + count p rest = ap (count p) e ∙ ground arith in
    let (start, low, entry) = listed_entry h p o v (omega arith) in
    record {
      held = pop_list-IsHeld h o p rest v e;
      keeps = λ k r used. (λ same. cc (ap h.map same, used, entry), used);
    }

pub pop_free-IsFound : (h : Heap) (o : ℕ) → IsHeap h none → IsFound h o (pop_free h o)
unfolding pop_free
pop_free-IsFound h o v = pop_list-IsFound h o (h.free_lists o) v refl

-- A held block that is in use needs no list.
pub used-IsHeap :
    (h : Heap) (p o : ℕ)
    → IsHeap h (some p)
    → h.map (map_key p) ≡ some (record { order = o; free = false })
    → IsHeap h none
used-IsHeap h p o v e = record {
  aligned_end = v.aligned_end;
  small = v.small;
  ranged = v.ranged;
  aligned = v.aligned;
  inside = v.inside;
  apart = v.apart;
  listed = λ q r. ground (arith, v.listed q r, e);
}

-- The statistics are no part of the invariant.
pub counted-IsHeap :
    (h : Heap) (n : ℕ) → IsHeap h none → IsHeap (record h { allocated_size = n }) none
counted-IsHeap h n v = record {
  aligned_end = v.aligned_end;
  small = v.small;
  ranged = v.ranged;
  aligned = v.aligned;
  inside = v.inside;
  apart = v.apart;
  listed = v.listed;
}
