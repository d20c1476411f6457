-- ===== src/Boot.antt =====
-- The descriptor tables that the kernel sets up first.
pub mod Gdt
pub mod Idt
pub mod Main
mod Tests
