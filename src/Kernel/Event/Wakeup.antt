-- ===== src/Kernel/Event/Wakeup.antt =====
-- Waiting for an event, and the signal that ends it.
use jsix.Prelude.{ℕ, ◌≡◌, true, false, none, [], arith}
use jsix.Prelude.Bits.{Word, word_or, nonzero}
use jsix.Kernel.Threads.{block, wake, handle_retain, handle_release}
use jsix.Kernel.WaitQueue.{add_thread, pop_next}
use jsix.Kernel.Event.{
  State, no_signals, read, wake_observer, signal, wait, wait_enqueue, wait_block,
}

-- On an event with no signals and nobody waiting, a thread that has not exited waits: it blocks, a
-- signal makes it ready again, and it then reads the signals, which are cleared.
pub signal-wait :
    (s : State) (c : ℕ) (bits : Word)
    → nonzero s.signals ≡ false
    → s.queue ≡ []
    → (s.threads c).exited ≡ false
    → nonzero (word_or no_signals bits) ≡ true
    → let blocked = wait s c in
      let signalled = signal blocked.0 bits in
      (blocked.1 ≡ none)
      × ((blocked.0.threads c).ready ≡ false)
      × ((signalled.threads c).ready ≡ true)
      × ((read signalled).1 ≡ word_or no_signals bits)
      × ((read signalled).0.signals ≡ no_signals)
unfolding wait read wait_enqueue wait_block signal wake_observer wake block pop_next add_thread
    handle_retain handle_release
signal-wait s c bits quiet nobody alive some_bit =
    (ground arith, ground arith, ground arith, ground arith, ground arith)

-- On two processors a signal can come between the steps of `wait`: after the thread has read no
-- signals and joined the queue, and before it blocks, the signal takes the thread, still ready, off
-- the queue and wakes nobody. The thread then blocks, although the event holds the signal, and is in
-- no queue.
pub signal_race_loses_waiter :
    (s : State) (c : ℕ) (bits : Word)
    → s.queue ≡ []
    → (s.threads c).ready ≡ true
    → nonzero (word_or no_signals bits) ≡ true
    → let lost = wait_block (signal (wait_enqueue (read s).0 c) bits) c in
      ((lost.threads c).ready ≡ false)
      × (lost.queue ≡ [])
      × (lost.signals ≡ word_or no_signals bits)
unfolding read wait_enqueue wait_block signal wake_observer wake block pop_next add_thread
    handle_retain handle_release
signal_race_loses_waiter s c bits nobody busy some_bit = (ground arith, ground arith, ground arith)
