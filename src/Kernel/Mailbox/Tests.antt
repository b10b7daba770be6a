-- ===== src/Kernel/Mailbox/Tests.antt =====
-- Thread 1 calls and thread 2 answers.
use jsix.Prelude.{
  ◌+◌, ◌%◌, ◌==◌, ◌≡◌, refl, true, false, none, some, [], ◌∷◌, if◌then◌else◌, u64_mod, arith,
}
use jsix.Kernel.Status.{status_ok, status_closed, status_would_block}
use jsix.Kernel.Threads.{Thread}
use jsix.Kernel.Mailbox.{
  State, returns, receives, fresh, call, call_enqueue, call_notify, call_block, receive, reply,
  close,
}
use jsix.Kernel.Mailbox.Tags.{HasTags}
use jsix.Kernel.Mailbox.Rpc.{call_round_trip, call_race_loses_caller}
use jsix.Kernel.Mailbox.Close.{close_wakes}

abbrev running : Thread
running = record {
  ready = true;
  exited = false;
  constant = false;
  wake_value = 9;
  wake_timeout = 0;
  message = some 77;
  handle_count = 2;
  deleted = false;
}

abbrev idle : State
idle = record { threads = λ i. running; mailbox = fresh }

-- thread 1 waits in the queue of callers
abbrev called : State
called = record {
  threads = λ i. if i == 1 then record running { ready = false } else running;
  mailbox = record fresh { callers = 1 ∷ [] };
}

-- thread 1 waits for a reply under tag 1
abbrev answered : State
answered = record {
  threads = λ i. if i == 1 then record running { ready = false; message = none } else running;
  mailbox = record fresh { replies = (1, 1) ∷ []; next_reply_tag = 1 };
}

abbrev shut : State
shut = record idle { mailbox = record fresh { closed = true } }

answered-HasTags : HasTags answered.mailbox
answered-HasTags = record { below = (omega arith, refl, tt); no_zero = refl; room = omega arith }

call_round_trip_example :
    let tag = (idle.mailbox.next_reply_tag + 1) % u64_mod in
    let sent = (call idle 1).0 in
    let got = receive sent 2 true in
    let done = (reply got.0 tag (some 5)).0 in
    (got.1 ≡ receives tag (some 77))
    × ((got.0.threads 1).ready ≡ false)
    × ((done.threads 1).ready ≡ true)
    × ((done.threads 1).wake_value ≡ status_ok)
    × ((done.threads 1).message ≡ some 5)
call_round_trip_example = call_round_trip idle 1 2 true (some 77) (some 5) refl refl refl refl refl

call_race_loses_caller_example :
    let got = receive (call_enqueue idle 1) 2 false in
    let lost = call_block (call_notify got.0) 1 in
    (got.1 ≡ returns status_would_block)
    × (lost.mailbox.callers ≡ [])
    × (((close lost).threads 1).ready ≡ false)
call_race_loses_caller_example = call_race_loses_caller idle 1 2 refl refl refl refl refl

close_wakes_example :
    ((close called).mailbox.closed ≡ true)
    × ((close called).mailbox.callers ≡ [])
    × ((close called).mailbox.responders ≡ [])
    × (((close called).threads 1).ready ≡ true)
    × (((close called).threads 1).wake_value ≡ status_closed)
close_wakes_example = close_wakes called 1 refl refl refl
