-- ===== src/Kern.antt =====
-- src/kernel/stdkern and the shared headers: status codes, memory and string routines.
pub mod Status
pub mod Mem
pub mod Str
