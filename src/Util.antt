-- ===== src/Util.antt =====
-- src/libraries/util: the containers and helpers that the kernel and user programs share.
pub mod BipBuffer
pub mod Deque
pub mod Log
pub mod Vector
pub mod Spinlock
pub mod RadixTree
