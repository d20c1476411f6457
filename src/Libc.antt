-- ===== src/Libc.antt =====
-- The C library that the kernel is linked with (libc/libc.c).
pub mod Str
pub mod Fd
pub mod Num
pub mod Process
pub mod Print
pub mod Mem
pub mod Alloc
