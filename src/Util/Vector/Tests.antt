-- ===== src/Util/Vector/Tests.antt =====
-- Vectors of numbers in their usual order, one with a full array and one in static storage.
use jsix.Prelude.{ℕ, ◌+◌, ◌*◌, ◌^◌, ◌≤◌, arith, ltb}
use jsix.Util.Vector.{Vector, sorted_insert}
use jsix.Util.Vector.Array.{IsInserted}
use jsix.Util.Vector.Sorted.{IsOrder, IsSorted, sorted_insert-outcome}

abbrev evens : Vector ℕ
evens = record { size = 4; capacity = 4; elements = λ i. 2 * i }

abbrev static : Vector ℕ
static = record { size = 2; capacity = 2 ^ 31 + 8; elements = λ i. i }

ltb-IsOrder : IsOrder ltb
ltb-IsOrder = record { asym = λ x y h. ground arith; weak = λ x y z h k. ground arith }

evens-IsSorted : IsSorted ltb evens.elements evens.size
evens-IsSorted i j h k = ground arith

sorted_insert-outcome_example :
    let (r, w) = sorted_insert ltb evens 3 in
    (r ≤ evens.size) × IsInserted evens w r 3 × IsSorted ltb w.elements w.size
sorted_insert-outcome_example =
    sorted_insert-outcome ltb evens 3 ltb-IsOrder evens-IsSorted (omega arith)
