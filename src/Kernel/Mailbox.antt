-- ===== src/Kernel/Mailbox.antt =====
-- src/kernel/objects/mailbox.cpp: synchronous calls between threads. A function that blocks the
-- current thread ends there, and what it does when the thread runs again is a function of its own.
-- The steps between two blocks run without interleaving, as on one processor.
pub mod Tags
pub mod Rpc
pub mod Close
mod Tests
use jsix.Prelude.{
  ℕ, ◌+◌, ◌%◌, ◌==◌, Bool, true, false, Option, none, some, List, [], ◌∷◌, if◌then◌else◌, u64_mod,
}
use jsix.Prelude.Assoc.{Assoc, find, erase}
use jsix.Kernel.Status.{status_ok, status_closed, status_would_block, err_invalid_arg}
use jsix.Kernel.Threads.{Threads, block, wake, set_message_data, get_message_data}
use jsix.Kernel.WaitQueue.{WaitQueue, add_thread, pop_next, clear}

-- `mailbox`. `m_reply_map` takes a reply tag to the thread that called.
pub record Mailbox : Type 0 where
  pub callers : WaitQueue
  pub responders : WaitQueue
  pub replies : Assoc ℕ
  pub closed : Bool
  pub next_reply_tag : ℕ

pub record State : Type 0 where
  pub threads : Threads
  pub mailbox : Mailbox

-- The constructor `mailbox()`.
abbrev pub fresh : Mailbox
fresh = record { callers = []; responders = []; replies = []; closed = false; next_reply_tag = 0 }

-- How far a function got: it returned a status, or blocked the current thread.
pub data Outcome : Type 0 where
  returns : ℕ → Outcome
  blocks : Outcome
  receives : ℕ → Option ℕ → Outcome

wake_replies : Threads → Assoc ℕ → Threads
wake_replies ts [] = ts
wake_replies ts ((tag, t) ∷ m) = wake_replies (wake ts t status_closed) m

pub close : State → State
unfolding wake_replies
close s =
    if s.mailbox.closed
    then s
    else (let (ts, callers) = clear s.threads s.mailbox.callers status_closed in
        let (us, responders) = clear ts s.mailbox.responders status_closed in
        record {
          threads = wake_replies us s.mailbox.replies;
          mailbox = record s.mailbox { closed = true; callers = callers; responders = responders };
        })

-- Waking the responder that `pop_next` returned, if any.
abbrev pub wake_responder : Option ℕ → Threads → Threads
wake_responder none ts = ts
wake_responder (some t) ts = wake ts t status_ok

-- The three steps of `call` on an open mailbox: the current thread joins the callers, a responder
-- is woken, and the current thread blocks.
pub call_enqueue : State → ℕ → State
call_enqueue s current =
    let (ts, callers) = add_thread s.threads s.mailbox.callers current in
    record { threads = ts; mailbox = record s.mailbox { callers = callers } }

pub call_notify : State → State
call_notify s =
    let (popped, ts, responders) = pop_next s.threads s.mailbox.responders in
    record {
      threads = wake_responder popped ts;
      mailbox = record s.mailbox { responders = responders };
    }

pub call_block : State → ℕ → State
call_block s current = record s { threads = block s.threads current }

-- `call`, up to the end of `current.block()`, whose result is the wake value
pub call : State → ℕ → State × Outcome
unfolding call_enqueue call_notify call_block
call s current =
    if s.mailbox.closed
    then (s, returns status_closed)
    else (call_block (call_notify (call_enqueue s current)) current, blocks)

-- A round of the loop of `receive`, given what `pop_next` returned.
pub receive_popped : Mailbox → ℕ → Bool → Option ℕ × Threads × WaitQueue → State × Outcome
receive_popped mb current blocking (some caller, ts, callers) =
    let tag = (mb.next_reply_tag + 1) % u64_mod in
    let (message, us) = get_message_data ts caller in
    (
      record {
        threads = us;
        mailbox = record mb {
          callers = callers;
          next_reply_tag = tag;
          replies = (tag, caller) ∷ mb.replies;
        };
      },
      receives tag message,
    )
receive_popped mb current blocking (none, ts, callers) =
    if blocking
    then (let (us, responders) = add_thread ts mb.responders current in
        (
          record {
            threads = block us current;
            mailbox = record mb { callers = callers; responders = responders };
          },
          blocks,
        ))
    else (
      record { threads = ts; mailbox = record mb { callers = callers } },
      returns status_would_block,
    )

pub receive : State → ℕ → Bool → State × Outcome
unfolding receive_popped
receive s current blocking =
    if s.mailbox.closed
    then (s, returns status_closed)
    else receive_popped s.mailbox current blocking (pop_next s.threads s.mailbox.callers)

-- `receive` when its thread runs again: another round, unless it was woken with a status.
pub receive_again : State → ℕ → State × Outcome
unfolding receive_popped
receive_again s current =
    if (s.threads current).wake_value == status_ok
    then receive_popped s.mailbox current true (pop_next s.threads s.mailbox.callers)
    else (s, returns (s.threads current).wake_value)

reply_to : State → ℕ → Option ℕ → Option ℕ → State × Outcome
reply_to s tag message none = (s, returns err_invalid_arg)
reply_to s tag message (some caller) = (
  record {
    threads = wake (set_message_data s.threads caller message) caller status_ok;
    mailbox = record s.mailbox { replies = erase s.mailbox.replies tag };
  },
  returns status_ok,
)

pub reply : State → ℕ → Option ℕ → State × Outcome
unfolding reply_to
reply s tag message =
    if s.mailbox.closed
    then (s, returns status_closed)
    else reply_to s tag message (find s.mailbox.replies tag)
