-- ===== src/Kernel/Event/Tests.antt =====
-- Thread 1 waits for signal 3.
use jsix.Prelude.{◌≡◌, refl, true, false, none, []}
use jsix.Prelude.Bits.{bit, word_or, tzcnt}
use jsix.Kernel.Threads.{Thread}
use jsix.Kernel.Event.{State, no_signals, read, signal, wait, wait_enqueue, wait_block}
use jsix.Kernel.Event.Wakeup.{signal-wait, signal_race_loses_waiter}

abbrev running : Thread
running = record {
  ready = true;
  exited = false;
  constant = false;
  wake_value = 0;
  wake_timeout = 0;
  message = none;
  handle_count = 1;
  deleted = false;
}

abbrev quiet : State
quiet = record { threads = λ i. running; queue = []; signals = no_signals }

signal-wait_example :
    let blocked = wait quiet 1 in
    let signalled = signal blocked.0 (bit 3) in
    (blocked.1 ≡ none)
    × ((blocked.0.threads 1).ready ≡ false)
    × ((signalled.threads 1).ready ≡ true)
    × ((read signalled).1 ≡ word_or no_signals (bit 3))
    × ((read signalled).0.signals ≡ no_signals)
unfolding tzcnt
signal-wait_example = signal-wait quiet 1 (bit 3) refl refl refl refl

signal_race_loses_waiter_example :
    let lost = wait_block (signal (wait_enqueue (read quiet).0 1) (bit 3)) 1 in
    ((lost.threads 1).ready ≡ false)
    × (lost.queue ≡ [])
    × (lost.signals ≡ word_or no_signals (bit 3))
unfolding tzcnt
signal_race_loses_waiter_example = signal_race_loses_waiter quiet 1 (bit 3) refl refl refl
