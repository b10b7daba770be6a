-- ===== src/Kernel/Status.antt =====
-- The values of `j6_status_t` that the modelled code returns (src/libraries/j6/include/j6/errors.h).
use jsix.Prelude.{ℕ, ◌+◌, ◌^◌}

abbrev pub status_error : ℕ
status_error = 2 ^ 63

abbrev pub status_ok : ℕ
status_ok = 0

abbrev pub status_closed : ℕ
status_closed = 0x1000

abbrev pub status_would_block : ℕ
status_would_block = 0x1003

abbrev pub status_futex_changed : ℕ
status_futex_changed = 0x1004

abbrev pub err_invalid_arg : ℕ
err_invalid_arg = status_error + 3
