-- ===== src/Kernel/Mailbox/Rpc.antt =====
-- A call, from the caller's message to the reply that wakes it.
use jsix.Prelude.{
  ℕ, ◌+◌, ◌%◌, ◌==◌, ◌≡◌, ap, subst, sym, ◌∙◌, Bool, Bool-cases, true, false, Option, inl, inr,
  none, some, [], if◌then◌else◌, u64_mod, arith,
}
use jsix.Prelude.Assoc.{find}
use jsix.Kernel.Status.{status_ok, status_closed, status_would_block}
use jsix.Kernel.Threads.{
  Threads, handle_retain, handle_release, block, wake, set_message_data, get_message_data,
  is_waiting,
}
use jsix.Kernel.WaitQueue.{WaitQueue, add_thread, pop_next, clear}
use jsix.Kernel.WaitQueue.Order.{pop_next-Popped, Picks, first, AllAlike}
use jsix.Kernel.Mailbox.{
  State, returns, receives, call, call_enqueue, call_notify, call_block, receive, receive_popped,
  reply, reply_to, close,
}

-- What a finished `receive` did: the first waiting caller was taken off the queue.
pub record Received (s t : State) (tag : ℕ) (message : Option ℕ) : Type 0 where
  pub caller : ℕ
  pub picked : Picks s.threads s.mailbox.callers (some caller) t.mailbox.callers
  pub its_message : message ≡ (s.threads caller).message
  pub registered : find t.mailbox.replies tag ≡ some caller
  pub next_tag : t.mailbox.next_reply_tag ≡ tag
  pub still_waits : is_waiting (t.threads caller) ≡ true

Received-popped :
    (s : State) (current : ℕ) (p : Option ℕ × Threads × WaitQueue) (tag : ℕ) (message : Option ℕ)
    (blocking : Bool)
    → Picks s.threads s.mailbox.callers p.0 p.2
    → AllAlike p.1 s.threads
    → (receive_popped s.mailbox current blocking p).1 ≡ receives tag message
    → Received s (receive_popped s.mailbox current blocking p).0 tag message
unfolding receive_popped get_message_data
Received-popped s current (none, ts, q) tag message true k a e = cc
Received-popped s current (none, ts, q) tag message false k a e = cc
Received-popped s current (some t, ts, q) tag message blocking (first pre u post split n w) a e =
    record {
      caller = t;
      picked = first pre t q split n w;
      its_message = ground (arith, a t);
      registered = ground arith;
      next_tag = ground arith;
      still_waits = ground (arith, a t);
    }

receive_closed :
    (s : State) (current : ℕ) (blocking : Bool)
    → s.mailbox.closed ≡ true
    → receive s current blocking ≡ (s, returns status_closed)
unfolding receive
receive_closed s current blocking e = ground arith

receive_open :
    (s : State) (current : ℕ) (blocking : Bool)
    → s.mailbox.closed ≡ false
    → receive s current blocking
      ≡ receive_popped s.mailbox current blocking (pop_next s.threads s.mailbox.callers)
unfolding receive
receive_open s current blocking e = ground arith

-- A `receive` that gets a message took the first waiting caller off the queue; the message is that
-- caller's, and the tag, which is the one given out last, names that caller, who still waits.
receive-Received :
    (s : State) (current : ℕ) (blocking : Bool) {tag : ℕ} {message : Option ℕ}
    → (receive s current blocking).1 ≡ receives tag message
    → Received s (receive s current blocking).0 tag message
receive-Received s current blocking {tag} {message} e = elim (Bool-cases s.mailbox.closed) [
  | inl shut ↦ cc (receive_closed s current blocking shut)
  | inr opened ↦
      let same = receive_open s current blocking opened in
      let (picks, alike) = pop_next-Popped s.threads s.mailbox.callers in
      subst (λ p. Received s p.0 tag message) (sym same)
        (Received-popped s current (pop_next s.threads s.mailbox.callers) tag message blocking picks
          alike (ap (λ p. p.1) (sym same) ∙ e))
]

-- A reply on an open mailbox to a tag in use returns `ok` and, if the caller behind the tag waits,
-- wakes it with status `ok` and the reply's message, and changes no other thread.
reply_wakes :
    (s : State) (tag c i : ℕ) (message : Option ℕ)
    → s.mailbox.closed ≡ false
    → find s.mailbox.replies tag ≡ some c
    → is_waiting (s.threads c) ≡ true
    → let (t, out) = reply s tag message in
      (out ≡ returns status_ok)
      × (t.threads i ≡ (
          if i == c
          then record (s.threads c) {
            ready = true;
            wake_value = status_ok;
            wake_timeout = 0;
            message = message;
          }
          else s.threads i))
unfolding reply reply_to wake set_message_data
reply_wakes s tag c i message opened e w = ground arith

-- A call on an idle open mailbox: thread `c` calls with a message, `r` receives it, and `r`'s reply
-- under the tag that it was given makes `c` ready again, with status `ok` and the reply's message.
pub call_round_trip :
    (s : State) (c r : ℕ) (blocking : Bool) (question answer : Option ℕ)
    → s.mailbox.closed ≡ false
    → s.mailbox.callers ≡ []
    → s.mailbox.responders ≡ []
    → (s.threads c).exited ≡ false
    → (s.threads c).message ≡ question
    → let tag = (s.mailbox.next_reply_tag + 1) % u64_mod in
      let called = (call s c).0 in
      let got = receive called r blocking in
      let done = (reply got.0 tag answer).0 in
      (got.1 ≡ receives tag question)
      × ((got.0.threads c).ready ≡ false)
      × ((done.threads c).ready ≡ true)
      × ((done.threads c).wake_value ≡ status_ok)
      × ((done.threads c).message ≡ answer)
unfolding call receive receive_popped reply reply_to wake set_message_data get_message_data block
    pop_next add_thread handle_retain handle_release
call_round_trip s c r blocking question answer opened nc nr alive m = ground arith

-- On two processors the steps of `call` can interleave with `receive`: when another thread receives
-- between the caller's joining the queue and its blocking, the caller, still ready, is dropped from
-- the queue. The receiver gets nothing, and the caller then blocks where neither a responder nor
-- `close` finds it.
pub call_race_loses_caller :
    (s : State) (c r : ℕ)
    → s.mailbox.closed ≡ false
    → s.mailbox.callers ≡ []
    → s.mailbox.responders ≡ []
    → s.mailbox.replies ≡ []
    → (s.threads c).ready ≡ true
    → let got = receive (call_enqueue s c) r false in
      let lost = call_block (call_notify got.0) c in
      (got.1 ≡ returns status_would_block)
      × (lost.mailbox.callers ≡ [])
      × (((close lost).threads c).ready ≡ false)
unfolding receive receive_popped call_enqueue call_block call_notify wake block pop_next add_thread
    handle_retain handle_release close clear
call_race_loses_caller s c r opened nc nr np busy = (ground arith, ground arith, ground arith)
