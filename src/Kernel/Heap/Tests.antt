-- ===== src/Kernel/Heap/Tests.antt =====
-- A heap of one block of 32 bytes in use, and a new heap.
use jsix.Prelude.{
  ◌+◌, ltb, ℕ, ◌^◌, ◌<◌, ◌==◌, ◌≡◌, ◌⊎◌, inl, refl, false, none, some, [], if◌then◌else◌, arith,
}
use jsix.Kernel.Heap.{BlockInfo, Heap, new_heap, address_order, align_end, allocate, free}
use jsix.Kernel.Heap.Grow.{align_end_stops}
use jsix.Kernel.Heap.Inv.{IsHeap}
use jsix.Kernel.Heap.Allocate.{Gives, allocate-outcome}
use jsix.Kernel.Heap.Reallocate.{reallocate, IsMoved, reallocate-IsMoved}
use jsix.Kernel.Heap.Free.{IsFreed, free-outcome}

new_heap-IsHeap : IsHeap new_heap none
new_heap-IsHeap = record {
  aligned_end = refl;
  small = omega arith;
  ranged = λ k. refl;
  aligned = λ k. refl;
  inside = λ k. inl refl;
  apart = λ k j lt near. refl;
  listed = λ p o. ground arith;
}

abbrev used_block : BlockInfo
used_block = record { order = 5; free = false }

abbrev small_heap : Heap
small_heap = record {
  end = 32;
  allocated_size = 32;
  free_lists = λ o. [];
  map = λ k. if k == 0 then some used_block else none;
}

small_heap-IsHeap : IsHeap small_heap none
small_heap-IsHeap = record {
  aligned_end = refl;
  small = omega arith;
  ranged = λ k. ground arith;
  aligned = λ k. ground arith;
  inside = λ k. ground arith;
  apart = λ k j lt near. ground arith;
  listed = λ p o. ground arith;
}

abbrev forty : ℕ
forty = 40

allocate-outcome_example :
    ((forty ≡ 0) × (allocate small_heap forty ≡ some (none, small_heap)))
    ⊎ ((2 ^ 22 < forty) × (allocate small_heap forty ≡ none))
    ⊎ Gives small_heap forty (allocate small_heap forty)
allocate-outcome_example =
    allocate-outcome small_heap forty small_heap-IsHeap (omega arith) (omega arith)

free-outcome_example : (t : Heap) × (free small_heap (some 0) ≡ some t) × IsFreed small_heap 0 5 t
free-outcome_example = free-outcome small_heap 0 5 small_heap-IsHeap refl (omega arith) refl

align_end_stops_example : ltb (address_order (align_end 22 small_heap 7).end) 7 ≡ false
align_end_stops_example = align_end_stops small_heap 7 small_heap-IsHeap (omega arith) (omega arith)

abbrev bytes : ℕ → ℕ
bytes i = i + 7

reallocate-IsMoved_example :
    IsMoved small_heap bytes 0 20 100 (reallocate small_heap bytes (some 0) 20 100)
reallocate-IsMoved_example =
    reallocate-IsMoved small_heap bytes 0 5 20 100 small_heap-IsHeap refl (omega arith) refl
      (omega arith) (omega arith) (omega arith)
