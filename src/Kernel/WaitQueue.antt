-- ===== src/Kernel/WaitQueue.antt =====
-- src/kernel/wait_queue.cpp and wait_queue.h: a queue of blocked threads. `m_threads`, a
-- `util::deque`, is a list, front first. Each operation is one step, although `pop_next` and
-- `pop_exited` do not take `m_lock`.
pub mod Order
mod Tests
use jsix.Prelude.{
  ℕ, zero, suc, Bool, true, false, Option, none, some, List, [], ◌∷◌, ◌++◌, length, if◌then◌else◌,
}
use jsix.Kernel.Threads.{Threads, handle_retain, handle_release, block, wake, is_waiting}

abbrev pub WaitQueue : Type 0
WaitQueue = List ℕ

unfoldable pub add_thread : Threads → WaitQueue → ℕ → Threads × WaitQueue
add_thread ts q t = (handle_retain ts t, q ++ t ∷ [])

-- `wait`, up to the switch to another thread
unfoldable pub wait : Threads → WaitQueue → ℕ → Threads × WaitQueue
wait ts q t = (block (handle_retain ts t) t, q ++ t ∷ [])

unfoldable pub pop_exited : Threads → WaitQueue → Threads × WaitQueue
pop_exited ts [] = (ts, [])
pop_exited ts (t ∷ q) =
    let rest = pop_exited (handle_release ts t) q in if is_waiting (ts t) then (ts, t ∷ q) else rest

-- `none` for a null thread
pop_front : Threads × WaitQueue → Option ℕ × Threads × WaitQueue
pop_front (ts, []) = (none, ts, [])
pop_front (ts, t ∷ q) = (some t, handle_release ts t, q)

unfoldable pub pop_next : Threads → WaitQueue → Option ℕ × Threads × WaitQueue
unfolding pop_exited pop_front
pop_next ts q = pop_front (pop_exited ts q)

-- A round of `clear`, given what `pop_next` returned and how to go on.
abbrev pub wake_popped :
    (Threads → WaitQueue → Threads × WaitQueue)
    → ℕ
    → Option ℕ × Threads × WaitQueue
    → Threads × WaitQueue
wake_popped again value (none, ts, q) = (ts, q)
wake_popped again value (some t, ts, q) = again (wake ts t value) q

-- The loop of `clear`, on fuel: each round takes at least one thread off the queue.
unfoldable pub clear_rounds : ℕ → Threads → WaitQueue → ℕ → Threads × WaitQueue
clear_rounds zero ts q value = (ts, q)
clear_rounds (suc fuel) ts q value =
    wake_popped (λ us r. clear_rounds fuel us r value) value (pop_next ts q)

unfoldable pub clear : Threads → WaitQueue → ℕ → Threads × WaitQueue
unfolding clear_rounds
clear ts q value = clear_rounds (suc (length q)) ts q value
