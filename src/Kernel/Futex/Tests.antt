-- ===== src/Kernel/Futex/Tests.antt =====
-- Threads 1, 2 and 4 wait at address 4096; thread 3 runs.
use jsix.Prelude.{ℕ, ◌==◌, ◌≡◌, ◌≢◌, ◌⊎◌, false, none, some, [], ◌∷◌, refl, arith}
use jsix.Prelude.Assoc.{find}
use jsix.Kernel.Threads.{Threads}
use jsix.Kernel.WaitQueue.{WaitQueue}
use jsix.Kernel.Status.{status_ok, status_futex_changed}
use jsix.Kernel.Futex.{Futexes, futex_wait, futex_wake}
use jsix.Kernel.Futex.Wake.{IsWoken, futex_wake-outcome}
use jsix.Kernel.Futex.Wait.{IsBlocked, futex_wait-outcome}

abbrev threads : Threads
threads i = record {
  ready = i == 3;
  exited = false;
  constant = false;
  wake_value = 0;
  wake_timeout = 0;
  message = none;
  handle_count = 1;
  deleted = false;
}

abbrev three_wait : Futexes
three_wait = record { threads = threads; queues = (4096, 1 ∷ 2 ∷ 4 ∷ []) ∷ [] }

futex_wake-outcome_example :
    ((find three_wait.queues 4096 ≡ none)
      × (futex_wake three_wait 4096 2 ≡ (status_ok, three_wait)))
    ⊎ ((q : WaitQueue) × (find three_wait.queues 4096 ≡ some q)
        × ((futex_wake three_wait 4096 2).0 ≡ status_ok)
        × IsWoken three_wait (futex_wake three_wait 4096 2).1 4096 2 q)
futex_wake-outcome_example =
    futex_wake-outcome three_wait 4096 2 8192 (omega arith, refl, tt)
      (refl, refl, (refl, refl, (refl, refl, tt)))

abbrev seven : ℕ
seven = 7

futex_wait-outcome_example :
    let (status, t) = futex_wait three_wait 3 seven seven 4096 100 50 in
    ((seven ≢ seven) × (status ≡ status_futex_changed) × (t ≡ three_wait))
    ⊎ ((seven ≡ seven) × (status ≡ status_ok) × IsBlocked three_wait t 3 4096 100 50 8192)
futex_wait-outcome_example =
    futex_wait-outcome three_wait 3 seven seven 4096 100 50 8192 (omega arith, refl, tt)
      (omega arith) (refl, refl, (refl, refl, (refl, refl, tt))) refl refl
