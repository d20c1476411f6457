-- ===== src/Drivers.antt =====
-- The drivers, drivers/.
pub mod Keyboard
pub mod Screen
pub mod Irq
