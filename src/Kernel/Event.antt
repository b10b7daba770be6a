-- ===== src/Kernel/Event.antt =====
-- src/kernel/objects/event.cpp and event.h: signals that a thread can wait for. `m_signals` is a
-- word of bits. `wait` is cut into its steps; each of them runs without interleaving.
pub mod Wakeup
mod Tests
use jsix.Prelude.{ℕ, Bool, true, false, Option, none, some, List, [], if◌then◌else◌}
use jsix.Prelude.Bits.{Word, word_or, nonzero}
use jsix.Kernel.Threads.{Threads, block, wake}
use jsix.Kernel.WaitQueue.{WaitQueue, add_thread, pop_next}

pub record State : Type 0 where
  pub threads : Threads
  pub queue : WaitQueue
  pub signals : Word

abbrev pub no_signals : Word
no_signals i = false

-- `read`: the signals, which are cleared
pub read : State → State × Word
read s = (record s { signals = no_signals }, s.signals)

abbrev pub wake_popped : Option ℕ × Threads × WaitQueue → Word → State
wake_popped (none, ts, q) signals = record { threads = ts; queue = q; signals = signals }
wake_popped (some t, ts, q) signals = record { threads = wake ts t 0; queue = q; signals = signals }

pub wake_observer : State → State
wake_observer s = wake_popped (pop_next s.threads s.queue) s.signals

pub signal : State → Word → State
unfolding wake_observer
signal s bits =
    let t : State = record s { signals = word_or s.signals bits } in
    if nonzero t.signals then wake_observer t else t

-- The steps of `wait` after a `read` that found nothing: join the queue, block, and read again when
-- the thread runs again.
pub wait_enqueue : State → ℕ → State
wait_enqueue s current =
    let (ts, q) = add_thread s.threads s.queue current in record s { threads = ts; queue = q }

pub wait_block : State → ℕ → State
wait_block s current = record s { threads = block s.threads current }

-- `wait`, up to the end of `current.block()`: what it returns, or `none` if it blocks
pub wait : State → ℕ → State × Option Word
unfolding read wait_enqueue wait_block
wait s current =
    let (t, value) = read s in
    if nonzero value then (t, some value) else (wait_block (wait_enqueue t current) current, none)
