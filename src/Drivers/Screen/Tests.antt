-- ===== src/Drivers/Screen/Tests.antt =====
-- The theorem on the cursor at a blank screen, at its last cell.
use mai_unix.Prelude.{ℕ, ◌≡◌, some, arith, replicate, length-replicate}
use mai_unix.Drivers.Screen.{blank, Screen, tty_putchar}
use mai_unix.Drivers.Screen.Cursor.{OnScreen, tty_putchar-OnScreen}

abbrev last_cell : Screen
last_cell = record { vga = replicate 2000 blank; cur_col = 79; cur_row = 24 }

last_cell-OnScreen : OnScreen last_cell
last_cell-OnScreen = record {
  size = length-replicate {A = ℕ} 2000 blank;
  col_in = omega arith;
  row_in = omega arith;
}

tty_putchar-OnScreen_example : (s' : Screen) × (tty_putchar last_cell b'x' ≡ some s') × OnScreen s'
tty_putchar-OnScreen_example =
    tty_putchar-OnScreen last_cell b'x' last_cell-OnScreen (λ q. absurd (omega arith))
