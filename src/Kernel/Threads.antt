-- ===== src/Kernel/Threads.antt =====
-- The part of `obj::thread` (src/kernel/objects/thread.h and thread.cpp) and of `obj::kobject` that
-- blocking and waking use. A thread is named by a number, and all threads stand in a table. The
-- interrupt that `scheduler::maybe_schedule` may send to another processor is not modelled.
use jsix.Prelude.{
  ℕ, ◌+◌, ◌-◌, ◌%◌, ◌^◌, Bool, true, false, ◌&&◌, ◌||◌, not, Option, none, ◌==◌, if◌then◌else◌,
}

-- `m_state` by its bits. A message is only moved here, so it is any number.
pub record Thread : Type 0 where
  pub ready : Bool
  pub exited : Bool
  pub constant : Bool
  pub wake_value : ℕ
  pub wake_timeout : ℕ
  pub message : Option ℕ
  pub handle_count : ℕ
  pub deleted : Bool

abbrev pub Threads : Type 0
Threads = ℕ → Thread

abbrev pub put : Threads → ℕ → Thread → Threads
put ts t th i = if i == t then th else ts i

-- `m_handle_count` is a `uint16_t`.
unfoldable pub handle_retain : Threads → ℕ → Threads
handle_retain ts t = put ts t (record (ts t) { handle_count = ((ts t).handle_count + 1) % 2 ^ 16 })

-- At 0 handles `on_no_handles` deletes the object.
unfoldable pub handle_release : Threads → ℕ → Threads
handle_release ts t =
    let left = ((ts t).handle_count + (2 ^ 16 - 1)) % 2 ^ 16 in
    put ts t (record (ts t) { handle_count = left; deleted = (ts t).deleted || left == 0 })

-- `block` up to the switch to another thread; it returns the wake value when the thread runs again.
unfoldable pub block : Threads → ℕ → Threads
block ts t = put ts t (record (ts t) { ready = false })

unfoldable pub wake_only : Threads → ℕ → Threads
wake_only ts t = put ts t (record (ts t) { wake_timeout = 0; ready = true })

unfoldable pub wake : Threads → ℕ → ℕ → Threads
unfolding wake_only
wake ts t value =
    if (ts t).ready then ts else wake_only (put ts t (record (ts t) { wake_value = value })) t

unfoldable pub set_wake_timeout : Threads → ℕ → ℕ → Threads
set_wake_timeout ts t time = put ts t (record (ts t) { wake_timeout = time })

unfoldable pub set_message_data : Threads → ℕ → Option ℕ → Threads
set_message_data ts t m = put ts t (record (ts t) { message = m })

-- `get_message_data` moves the message out.
unfoldable pub get_message_data : Threads → ℕ → Option ℕ × Threads
get_message_data ts t = ((ts t).message, put ts t (record (ts t) { message = none }))

-- A thread that `pop_exited` leaves in a queue: blocked, and not exited.
abbrev pub is_waiting : Thread → Bool
is_waiting th = not th.exited && not th.ready
