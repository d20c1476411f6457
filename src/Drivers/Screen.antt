-- ===== src/Drivers/Screen.antt =====
-- The screen of drivers/tty.c: the text memory `vga` and the cursor. `none` is a write outside the
-- memory. The bytes that also go to the serial port and the cursor registers are not modelled.
pub mod Cursor
mod Tests
use mai_unix.Prelude.{
  ℕ, zero, suc, ◌+◌, ◌-◌, ◌*◌, ◌/◌, Option, none, some, List, [], ◌∷◌, ◌++◌, ltb, leb, ◌==◌,
  if◌then◌else◌, length, set, drop, replicate,
}
use mai_unix.Prelude.Faults.{◌>>=◌}

-- VGA_COLS and VGA_ROWS, and a blank cell.
abbrev pub vga_cols : ℕ
vga_cols = 80

abbrev pub vga_rows : ℕ
vga_rows = 25

abbrev pub blank : ℕ
blank = 0x720

pub record Screen : Type 0 where
  pub vga : List ℕ
  pub cur_col : ℕ
  pub cur_row : ℕ

-- `vga[i] = cell`
unfoldable pub put_cell : Screen → ℕ → ℕ → Option Screen
put_cell s i cell =
    if ltb i (length s.vga) then some (record s { vga = set s.vga i cell }) else none

-- Every row moves up by one, and the last one is blank.
unfoldable pub vga_scroll : Screen → Screen
vga_scroll s = record s {
  vga = drop vga_cols s.vga ++ replicate vga_cols blank;
  cur_row = vga_rows - 1;
}

-- `if (++cur_row >= VGA_ROWS) vga_scroll();`
unfoldable pub next_row : Screen → Screen
unfolding vga_scroll
next_row s =
    let down = record s { cur_row = s.cur_row + 1 } in
    if leb vga_rows (s.cur_row + 1) then vga_scroll down else down

-- The loop of a tab: `n` blanks from the cursor on.
unfoldable pub blanks : ℕ → Screen → Option Screen
unfolding put_cell
blanks zero s = some s
blanks (suc n) s = put_cell s (s.cur_row * vga_cols + s.cur_col) blank >>= λ s'.
    blanks n (record s' { cur_col = s'.cur_col + 1 })

unfoldable pub put_printing : Screen → ℕ → Option Screen
unfolding put_cell next_row
put_printing s c = put_cell s (s.cur_row * vga_cols + s.cur_col) (c + 0x700) >>= λ s'. some (
    if leb vga_cols (s'.cur_col + 1)
    then next_row (record s' { cur_col = 0 })
    else record s' { cur_col = s'.cur_col + 1 })

unfoldable pub tty_putchar : Screen → ℕ → Option Screen
unfolding next_row blanks put_printing put_cell
tty_putchar s c =
    if c == 10
    then some (next_row (record s { cur_col = 0 }))
    else (if c == 13
        then some (record s { cur_col = 0 })
        else (if c == 8
            then (if ltb 0 s.cur_col
                then put_cell (record s { cur_col = s.cur_col - 1 })
                    (s.cur_row * vga_cols + (s.cur_col - 1)) blank
                else some s)
            else (if c == 9
                then blanks ((s.cur_col + 8) / 8 * 8 - s.cur_col) s
                else put_printing s c)))

unfoldable pub tty_puts : Screen → List ℕ → Option Screen
unfolding tty_putchar
tty_puts s [] = some s
tty_puts s (c ∷ cs) = tty_putchar s c >>= λ s'. tty_puts s' cs

unfoldable pub tty_clear : Screen → Screen
tty_clear s = record { vga = replicate (vga_cols * vga_rows) blank; cur_col = 0; cur_row = 0 }
