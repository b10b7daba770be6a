-- ===== src/Util/Deque/Tests.antt =====
-- A deque in nodes of two numbers.
use jsix.Prelude.{ℕ, List, [], ◌∷◌, arith}
use jsix.Util.Deque.{Deque}
use jsix.Util.Deque.View.{view}
use jsix.Util.Deque.Refine.{
  Op, pushes_front, pushes_back, pops_front, pops_back, run, list_run, Agrees, run-Agrees,
}

abbrev start : Deque ℕ
start = record { first = 1; next = 1; nodes = (λ i. 5) ∷ (λ i. 6) ∷ [] }

abbrev history : List (Op ℕ)
history = pushes_front 3 ∷ pushes_back 7 ∷ pops_back ∷ pops_front ∷ pops_front ∷ []

run-Agrees_example : Agrees 2 (run 2 0 start history) (list_run (view 2 start) history)
run-Agrees_example =
    run-Agrees 2 0 start history (omega arith) (omega arith, omega arith, omega arith)
