-- ===== src/Kernel/Mailbox/Tags.antt =====
-- Reply tags: each is given out once, and is good for one reply.
use jsix.Prelude.{
  ℕ, ◌+◌, ◌<◌, ◌==◌, ◌≡◌, Bool, true, false, Option, none, some, if◌then◌else◌, u64_mod, arith,
}
use jsix.Prelude.Assoc.{
  find, KeysBelow, KeysBelow-mono, find-above, find-erase_ne, find-erase_self, find-erase-none,
  erase-KeysBelow,
}
use jsix.Kernel.Status.{status_ok, err_invalid_arg}
use jsix.Kernel.Threads.{Threads}
use jsix.Kernel.WaitQueue.{WaitQueue, pop_next}
use jsix.Kernel.Mailbox.{
  Mailbox, State, Outcome, returns, call, receive, receive_again, receive_popped, reply, reply_to,
  close,
}

-- Tags in use are distinct, not 0 (which `mailbox_respond` reads as no tag) and were given out.
pub record HasTags (mb : Mailbox) : Type 0 where
  pub below : KeysBelow mb.next_reply_tag mb.replies
  pub no_zero : find mb.replies 0 ≡ none
  pub room : mb.next_reply_tag + 1 < u64_mod

receive_popped-HasTags :
    (mb : Mailbox) (current : ℕ) (blocking : Bool) (p : Option ℕ × Threads × WaitQueue)
    → HasTags mb
    → mb.next_reply_tag + 2 < u64_mod
    → HasTags (receive_popped mb current blocking p).0.mailbox
unfolding receive_popped
receive_popped-HasTags mb current blocking (some t, ts, q) v h = ground (
  arith,
  v,
  KeysBelow-mono {n = mb.next_reply_tag} {k = mb.next_reply_tag + 1} mb.replies,
  find-above mb.next_reply_tag (mb.next_reply_tag + 1) mb.replies,
)
receive_popped-HasTags mb current true (none, ts, q) v h = record {
  below = v.below;
  no_zero = v.no_zero;
  room = v.room;
}
receive_popped-HasTags mb current false (none, ts, q) v h = record {
  below = v.below;
  no_zero = v.no_zero;
  room = v.room;
}

-- A call of one of the functions of a mailbox, or a thread that runs again in `receive`.
pub data Op : Type 0 where
  calls resumes : ℕ → Op
  gets : ℕ → Bool → Op
  replies : ℕ → Option ℕ → Op
  closes : Op

unfoldable pub step : State → Op → State × Outcome
step s (calls current) = call s current
step s (resumes current) = receive_again s current
step s (gets current blocking) = receive s current blocking
step s (replies tag message) = reply s tag message
step s closes = (close s, returns status_ok)

call-HasTags : (s : State) (current : ℕ) → HasTags s.mailbox → HasTags (call s current).0.mailbox
unfolding call
call-HasTags s current v = ground arith

close-HasTags : (s : State) → HasTags s.mailbox → HasTags (close s).mailbox
unfolding close
close-HasTags s v = ground arith

reply_to-HasTags :
    (s : State) (tag : ℕ) (message o : Option ℕ)
    → HasTags s.mailbox
    → HasTags (reply_to s tag message o).0.mailbox
unfolding reply_to
reply_to-HasTags s tag message none v = v
reply_to-HasTags s tag message (some t) v = record {
  below = erase-KeysBelow s.mailbox.next_reply_tag tag s.mailbox.replies v.below;
  no_zero = find-erase-none tag 0 s.mailbox.replies v.no_zero;
  room = v.room;
}

-- Every operation keeps the tags distinct and nonzero, up to the last tag of 64 bits.
step-HasTags :
    (s : State) (o : Op)
    → HasTags s.mailbox
    → s.mailbox.next_reply_tag + 2 < u64_mod
    → HasTags (step s o).0.mailbox
unfolding step receive receive_again reply
step-HasTags s (calls current) v h = call-HasTags s current v
step-HasTags s (resumes current) v h = ground (
  arith,
  v,
  receive_popped-HasTags s.mailbox current true (pop_next s.threads s.mailbox.callers) v h,
)
step-HasTags s (gets current blocking) v h = ground (
  arith,
  v,
  receive_popped-HasTags s.mailbox current blocking (pop_next s.threads s.mailbox.callers) v h,
)
step-HasTags s (replies tag message) v h =
    ground (arith, v, reply_to-HasTags s tag message (find s.mailbox.replies tag) v)
step-HasTags s closes v h = close-HasTags s v

-- When the tags in use are distinct, a reply that succeeds uses its tag up: the next one with that
-- tag, whatever it carries, is refused and changes nothing. Every other tag keeps its caller.
reply_once :
    (s : State) (tag other : ℕ) (message again : Option ℕ)
    → HasTags s.mailbox
    → (reply s tag message).1 ≡ returns status_ok
    → let t = (reply s tag message).0 in
      (reply t tag again ≡ (t, returns err_invalid_arg))
      × (find t.mailbox.replies other
          ≡ (if tag == other then none else find s.mailbox.replies other))
unfolding reply reply_to
reply_once s tag other message again v e = (
  ground (arith, find-erase_self s.mailbox.next_reply_tag tag s.mailbox.replies v.below),
  ground (
    arith,
    find-erase_self s.mailbox.next_reply_tag tag s.mailbox.replies v.below,
    find-erase_ne tag other s.mailbox.replies,
  ),
)
