-- ===== src/J6.antt =====
-- src/libraries/j6: what user programs share.
pub mod Mutex
