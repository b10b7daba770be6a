-- ===== src/Kernel/Mailbox/Close.antt =====
-- Closing a mailbox.
use jsix.Prelude.{ℕ, ◌==◌, ◌≡◌, refl, Bool, true, false, Option, [], ◌∷◌, arith, ◌||◌}
use jsix.Prelude.Assoc.{Assoc}
use jsix.Kernel.Status.{status_closed}
use jsix.Kernel.Threads.{Threads, wake, is_waiting}
use jsix.Kernel.WaitQueue.{clear}
use jsix.Kernel.WaitQueue.Order.{queued, clear-woken}
use jsix.Kernel.Mailbox.{State, returns, call, receive, reply, wake_replies, close}

-- Is thread `i` behind a reply tag?
abbrev pub owed : ℕ → Assoc ℕ → Bool
owed i [] = false
owed i ((tag, t) ∷ m) = i == t || owed i m

wake_replies-ready :
    (ts : Threads) (m : Assoc ℕ) (i : ℕ) → (ts i).ready ≡ true → wake_replies ts m i ≡ ts i
unfolding wake_replies wake
wake_replies-ready ts [] i h = refl
wake_replies-ready ts ((tag, t) ∷ m) i h =
    ground (arith, wake_replies-ready (wake ts t status_closed) m i)

wake_replies-owed :
    (ts : Threads) (m : Assoc ℕ) (i : ℕ)
    → owed i m ≡ true
    → (ts i).ready ≡ false
    → ((wake_replies ts m i).ready ≡ true) × ((wake_replies ts m i).wake_value ≡ status_closed)
unfolding wake_replies wake
wake_replies-owed ts [] i h w = cc
wake_replies-owed ts ((tag, t) ∷ m) i h w = ground (
  arith,
  wake_replies-ready (wake ts t status_closed) m i,
  wake_replies-owed (wake ts t status_closed) m i,
)

-- Closing an open mailbox marks it closed and empties its queues, and every thread that waits in one
-- of its queues or for a reply becomes ready, with status `closed`.
pub close_wakes :
    (s : State) (i : ℕ)
    → s.mailbox.closed ≡ false
    → is_waiting (s.threads i) ≡ true
    → (queued i s.mailbox.callers || queued i s.mailbox.responders || owed i s.mailbox.replies)
      ≡ true
    → ((close s).mailbox.closed ≡ true)
      × ((close s).mailbox.callers ≡ [])
      × ((close s).mailbox.responders ≡ [])
      × (((close s).threads i).ready ≡ true)
      × (((close s).threads i).wake_value ≡ status_closed)
unfolding close
close_wakes s i opened w h =
    let ts = (clear s.threads s.mailbox.callers status_closed).0 in
    let us = (clear ts s.mailbox.responders status_closed).0 in
    let one = clear-woken s.threads s.mailbox.callers status_closed in
    let two = clear-woken ts s.mailbox.responders status_closed in
    let woken_all : ((close s).threads i).ready ≡ true
        × ((close s).threads i).wake_value ≡ status_closed =
      ground (
        arith,
        one.0 i,
        two.0 i,
        wake_replies-ready us s.mailbox.replies i,
        wake_replies-owed us s.mailbox.replies i,
      ) in
    (ground arith, ground (arith, one.1), ground (arith, two.1), woken_all.0, woken_all.1)

-- On a closed mailbox every function returns `closed` at once and changes nothing.
closed_refuses :
    (s : State) (current tag : ℕ) (blocking : Bool) (message : Option ℕ)
    → s.mailbox.closed ≡ true
    → (call s current ≡ (s, returns status_closed))
      × (receive s current blocking ≡ (s, returns status_closed))
      × (reply s tag message ≡ (s, returns status_closed))
      × (close s ≡ s)
unfolding call receive reply close
closed_refuses s current tag blocking message h = ground arith
