-- ===== src/Kernel/Process/Tests.antt =====
-- Two processes that have the one capability of the table.
use jsix.Prelude.{◌≡◌, ◌==◌, false, some, List, [], ◌∷◌, refl, arith, if◌then◌else◌}
use jsix.Prelude.Assoc.{find}
use jsix.Kernel.Capabilities.{Capability}
use jsix.Kernel.Process.{
  Processes, contains, add_handle, remove_handle, list_handles, HandleDescriptor,
}
use jsix.Kernel.Process.Handles.{AreHeld, holders_of, IsAdded, add_handle-IsAdded}
use jsix.Kernel.Process.Listing.{handles_in, list_handles-outcome, add_again_leaks}

abbrev shared : Capability
shared = record { parent = 0; holders = 2; caps = λ i. i == 0; kind = 3; object = 4 }

abbrev two_processes : Processes
two_processes = record {
  caps = record {
    table = record { entries = (5, shared) ∷ []; count = 5 };
    objects = λ o. record { kind = 3; handle_count = 1; deleted = false };
  };
  handles = λ p. if p == 0 then 5 ∷ [] else (if p == 1 then 5 ∷ [] else []);
}

two_processes-AreHeld : AreHeld 2 two_processes
two_processes-AreHeld = record {
  keys = (omega arith, refl, tt);
  enough = λ k. ground arith;
  small = λ k. ground arith;
  once = λ p k. ground arith;
}

add_handle-IsAdded_example : IsAdded 2 two_processes 0 5 (add_handle two_processes 0 5)
add_handle-IsAdded_example =
    add_handle-IsAdded 2 two_processes 0 5 two_processes-AreHeld (omega arith) (omega arith)

list_handles-outcome_example :
    (ds : List HandleDescriptor) × (list_handles two_processes 0 0 ≡ some (ds, 1))
    × (handles_in ds ≡ 5 ∷ [])
list_handles-outcome_example =
    list_handles-outcome 2 two_processes 0 two_processes-AreHeld (omega arith) 0

add_again_leaks_example :
    (t : Processes) × (add_handle two_processes 0 5 ≡ some t)
    × (contains ((remove_handle t 0 5).1.handles 0) 5 ≡ false)
    × (holders_of (find (remove_handle t 0 5).1.caps.table.entries 5) ≡ 2)
add_again_leaks_example =
    add_again_leaks 2 two_processes 0 two_processes-AreHeld (omega arith) 5 refl (omega arith)
      (omega arith)
