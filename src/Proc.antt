-- ===== src/Proc.antt =====
-- Processes (proc/proc.c): the process table, the round-robin scheduler and the life of a process.
pub mod Process
pub mod Sched
pub mod Life
pub mod Spaces
mod Tests
