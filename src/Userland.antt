-- ===== src/Userland.antt =====
-- The programs that are linked into the kernel (userland/).
pub mod Exec
pub mod Shell
pub mod Builtins
