-- ===== src/Kernel.antt =====
-- src/kernel: the jsix microkernel.
pub mod FrameAllocator
pub mod Threads
pub mod WaitQueue
pub mod Status
pub mod Mailbox
pub mod Scheduler
pub mod Event
pub mod Heap
pub mod Futex
pub mod VmSpace
pub mod Process
pub mod PageTree
pub mod Paging
pub mod Capabilities
