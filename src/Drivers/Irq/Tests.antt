-- ===== src/Drivers/Irq/Tests.antt =====
-- What drivers/irq.c writes to the ports.
use mai_unix.Prelude.{◌≡◌, refl, [], ◌∷◌}
use mai_unix.Drivers.Irq.{pic_eoi, pit_init}

-- The second controller is acknowledged too for its interrupts.
second_controller : pic_eoi 8 ≡ (0xa0, 0x20) ∷ (0x20, 0x20) ∷ []
unfolding pic_eoi
second_controller = refl

-- The divisor 11931.
divisor_bytes : pit_init ≡ (0x43, 0x36) ∷ (0x40, 0x9b) ∷ (0x40, 0x2e) ∷ []
unfolding pit_init
divisor_bytes = refl
