-- ===== src/Kernel/Scheduler/Balance.antt =====
-- balance_lists in src/kernel/scheduler.cpp: one processor takes threads from another one.
use jsix.Prelude.{ℕ, zero, suc, ◌+◌, ◌-◌, ◌/◌, ◌≤◌, ◌≡◌, refl, List, [], ◌∷◌, length, arith, ◌⊎◌}
use jsix.Kernel.Scheduler.{Tcb, put_tcb, steal_rounds, balance_lists}
use jsix.Prelude.Occur.{count}

-- Every round moves one thread, while the list it takes from is not empty.
length-steal_rounds :
    (to from : List ℕ) (tcbs : ℕ → Tcb) (cpu n : ℕ)
    → n ≤ length from
    → (length (steal_rounds to from tcbs cpu n).0 ≡ length to + n)
      × (length (steal_rounds to from tcbs cpu n).1 + n ≡ length from)
unfolding steal_rounds
length-steal_rounds to [] tcbs cpu n h = ground arith
length-steal_rounds to (t ∷ from) tcbs cpu zero h = ground arith
length-steal_rounds to (t ∷ from) tcbs cpu (suc n) h = ground (
  arith,
  length-steal_rounds (t ∷ to) from (put_tcb tcbs t (record (tcbs t) { cpu = cpu })) cpu n,
)

count-steal_rounds :
    (i : ℕ) (to from : List ℕ) (tcbs : ℕ → Tcb) (cpu n : ℕ)
    → count i (steal_rounds to from tcbs cpu n).0 + count i (steal_rounds to from tcbs cpu n).1
      ≡ count i to + count i from
unfolding steal_rounds
count-steal_rounds i to [] tcbs cpu n = refl
count-steal_rounds i to (t ∷ from) tcbs cpu zero = refl
count-steal_rounds i to (t ∷ from) tcbs cpu (suc n) = omega (
  arith,
  count-steal_rounds i (t ∷ to) from (put_tcb tcbs t (record (tcbs t) { cpu = cpu })) cpu n,
)

-- Balancing loses and repeats no thread.
balance_lists_conserves :
    (i : ℕ) (to from : List ℕ) (tcbs : ℕ → Tcb) (cpu : ℕ)
    → count i (balance_lists to from tcbs cpu).0.0 + count i (balance_lists to from tcbs cpu).0.1
      ≡ count i to + count i from
unfolding balance_lists
balance_lists_conserves i to from tcbs cpu =
    ground (arith, count-steal_rounds i to from tcbs cpu ((length from - length to) / 2))

-- Balancing moves nothing when the other list is not longer. Otherwise the two lists end with
-- lengths that differ by at most one, the other list still being the longer one if they differ.
balance_lists_evens :
    (to from : List ℕ) (tcbs : ℕ → Tcb) (cpu : ℕ)
    → ((length from ≤ length to) × (balance_lists to from tcbs cpu ≡ ((to, from, tcbs), 0)))
      ⊎ ((length (balance_lists to from tcbs cpu).0.0 ≤ length (balance_lists to from tcbs cpu).0.1)
          × (length (balance_lists to from tcbs cpu).0.1
              ≤ length (balance_lists to from tcbs cpu).0.0 + 1))
unfolding balance_lists
balance_lists_evens to from tcbs cpu =
    ground (arith, length-steal_rounds to from tcbs cpu ((length from - length to) / 2))

-- Balancing loses and repeats no thread. It moves nothing when the other list is not longer;
-- otherwise the two lists end with lengths that differ by at most one, the other list still being the
-- longer one if they differ.
pub balance_lists-outcome :
    (i : ℕ) (to from : List ℕ) (tcbs : ℕ → Tcb) (cpu : ℕ)
    → (count i (balance_lists to from tcbs cpu).0.0 + count i (balance_lists to from tcbs cpu).0.1
        ≡ count i to + count i from)
      × (((length from ≤ length to) × (balance_lists to from tcbs cpu ≡ ((to, from, tcbs), 0)))
          ⊎ ((length (balance_lists to from tcbs cpu).0.0
                ≤ length (balance_lists to from tcbs cpu).0.1)
              × (length (balance_lists to from tcbs cpu).0.1
                  ≤ length (balance_lists to from tcbs cpu).0.0 + 1)))
balance_lists-outcome i to from tcbs cpu =
    (balance_lists_conserves i to from tcbs cpu, balance_lists_evens to from tcbs cpu)
