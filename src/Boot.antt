-- ===== src/Boot.antt =====
-- The boot loader (src/boot).
pub mod MemoryMap
