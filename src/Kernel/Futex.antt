-- ===== src/Kernel/Futex.antt =====
-- src/kernel/syscalls/futex.cpp. The map of futexes is an association list by physical address.
-- `value` is what `*value` holds when `futex_wait` reads it, `phys` is what `find_physical` returned
-- for it, and `now` is the clock. `futex_wait` ends where the thread blocks.
pub mod Wake
pub mod Wait
mod Tests
use jsix.Prelude.{
  ℕ, zero, suc, ◌+◌, ◌-◌, ◌==◌, Bool, true, false, Option, none, some, List, [], ◌∷◌, if◌then◌else◌,
  add64,
}
use jsix.Prelude.Assoc.{Assoc, find, erase}
use jsix.Kernel.Threads.{Threads, wake, set_wake_timeout}
use jsix.Kernel.WaitQueue.{WaitQueue, wait, pop_next, clear, wake_popped}
use jsix.Kernel.Status.{status_ok, status_futex_changed}

pub record Futexes : Type 0 where
  pub threads : Threads
  pub queues : Assoc WaitQueue

-- A queue of the map changes in place.
abbrev pub put_queue : Assoc WaitQueue → ℕ → WaitQueue → Assoc WaitQueue
put_queue [] k q = []
put_queue ((j, r) ∷ m) k q = if j == k then (j, q) ∷ m else (j, r) ∷ put_queue m k q

-- `g_futexes[phys]`, which makes a futex if there is none
abbrev pub with_futex : Assoc WaitQueue → ℕ → Option WaitQueue → Assoc WaitQueue
with_futex m k none = (k, []) ∷ m
with_futex m k (some q) = m

abbrev pub queue_at : Option WaitQueue → WaitQueue
queue_at none = []
queue_at (some q) = q

abbrev pub with_timeout : Threads → ℕ → ℕ → ℕ → Threads
with_timeout ts t timeout now =
    if timeout == 0 then ts else set_wake_timeout ts t (add64 timeout now)

unfoldable pub futex_block : Futexes → ℕ → ℕ → ℕ → ℕ → Futexes
unfolding wait
futex_block s current phys timeout now =
    let (ts, q) =
      wait (with_timeout s.threads current timeout now) (queue_at (find s.queues phys)) current in
    record {
      threads = ts;
      queues = put_queue (with_futex s.queues phys (find s.queues phys)) phys q;
    }

unfoldable pub futex_wait : Futexes → ℕ → ℕ → ℕ → ℕ → ℕ → ℕ → ℕ × Futexes
unfolding futex_block
futex_wait s current value expected phys timeout now =
    if value == expected
    then (status_ok, futex_block s current phys timeout now)
    else (status_futex_changed, s)

-- the loop of `futex_wake` for a count
unfoldable pub wake_rounds : ℕ → Threads → WaitQueue → Threads × WaitQueue
unfolding pop_next
wake_rounds zero ts q = (ts, q)
wake_rounds (suc count) ts q = wake_popped (λ us r. wake_rounds count us r) 0 (pop_next ts q)

unfoldable pub wake_queue : ℕ → Threads → WaitQueue → Threads × WaitQueue
unfolding wake_rounds clear
wake_queue zero ts q = clear ts q 0
wake_queue (suc count) ts q = wake_rounds (suc count) ts q

-- `if (f->queue.empty()) g_futexes.erase(phys)`
abbrev pub left_queue : Assoc WaitQueue → ℕ → WaitQueue → Assoc WaitQueue
left_queue m k [] = erase m k
left_queue m k (t ∷ q) = put_queue m k (t ∷ q)

abbrev pub wake_found : Futexes → ℕ → ℕ → Option WaitQueue → Futexes
wake_found s phys count none = s
wake_found s phys count (some q) =
    let (ts, r) = wake_queue count s.threads q in
    record { threads = ts; queues = left_queue s.queues phys r }

unfoldable pub futex_wake : Futexes → ℕ → ℕ → ℕ × Futexes
unfolding wake_queue
futex_wake s phys count = (status_ok, wake_found s phys count (find s.queues phys))
