-- ===== src/Syscall.antt =====
-- The system calls, syscall/.
pub mod Fd
pub mod Process
pub mod Dispatch
pub mod Interrupt
