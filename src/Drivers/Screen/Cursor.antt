-- ===== src/Drivers/Screen/Cursor.antt =====
-- Where the cursor of drivers/tty.c can be.
use mai_unix.Prelude.{
  ℕ, zero, suc, ◌+◌, ◌-◌, ◌*◌, ◌/◌, ◌<◌, ◌≡◌, ◌∙◌, ◌≢◌, inl, inr, true, false, some, arith, ltb,
  leb, ◌==◌, Bool-cases, length, set, length-append, length-set, drop, replicate, length-drop,
  length-replicate,
}
use mai_unix.Drivers.Screen.{
  vga_cols, vga_rows, blank, Screen, put_cell, vga_scroll, next_row, blanks, put_printing,
  tty_putchar,
}

-- A whole text memory, and the cursor inside it.
pub record OnScreen (s : Screen) : Type 0 where
  pub size : length s.vga ≡ vga_cols * vga_rows
  pub col_in : s.cur_col < vga_cols
  pub row_in : s.cur_row < vga_rows

put_cell_lem :
    (s : Screen) (i cell : ℕ)
    → i < length s.vga
    → put_cell s i cell ≡ some (record s { vga = set s.vga i cell })
unfolding put_cell
put_cell_lem s i cell lt = let inside : ltb i (length s.vga) ≡ true = ground arith in rw inside

next_row-OnScreen : (s : Screen) → OnScreen s → OnScreen (next_row s)
unfolding next_row vga_scroll
next_row-OnScreen s o = elim (Bool-cases (leb vga_rows (s.cur_row + 1))) [
  | inl bottom ↦ rw bottom (record {
    size = omega (
      arith,
      length-append (drop vga_cols s.vga) (replicate vga_cols blank),
      length-drop vga_cols s.vga,
      length-replicate vga_cols blank,
      o.size,
    );
    col_in = o.col_in;
    row_in = omega arith;
  })
  | inr above ↦ rw above (record { size = o.size; col_in = o.col_in; row_in = ground arith })
]

back-OnScreen :
    (s : Screen)
    → OnScreen s
    → 0 < s.cur_col
    → let left = record s { cur_col = s.cur_col - 1 } in
      (s' : Screen) × (put_cell left (s.cur_row * vga_cols + (s.cur_col - 1)) blank ≡ some s')
      × OnScreen s'
back-OnScreen s o lt =
    let left = record s { cur_col = s.cur_col - 1 } in
    let i = s.cur_row * vga_cols + (s.cur_col - 1) in
    (
      record left { vga = set s.vga i blank },
      put_cell_lem left i blank (omega (arith, o.size, o.col_in, o.row_in)),
      record {
        size = length-set s.vga i blank ∙ o.size;
        col_in = omega (arith, o.col_in);
        row_in = o.row_in;
      },
    )

put_printing-OnScreen :
    (s : Screen) (c : ℕ) → OnScreen s → (s' : Screen) × (put_printing s c ≡ some s') × OnScreen s'
unfolding put_printing
put_printing-OnScreen s c o =
    let i = s.cur_row * vga_cols + s.cur_col in
    let shown = put_cell_lem s i (c + 0x700) (omega (arith, o.size, o.col_in, o.row_in)) in
    let size = length-set s.vga i (c + 0x700) ∙ o.size in
    let start = record s { vga = set s.vga i (c + 0x700); cur_col = 0 } in
    elim (Bool-cases (leb vga_cols (s.cur_col + 1))) [
      | inl wraps ↦ (
        next_row start,
        rw shown (rw wraps),
        next_row-OnScreen start (record { size = size; col_in = omega arith; row_in = o.row_in }),
      )
      | inr fits ↦ (
        record start { cur_col = s.cur_col + 1 },
        rw shown (rw fits),
        record { size = size; col_in = ground arith; row_in = o.row_in },
      )
    ]

-- `tty_putchar` of any byte but a tab, with the cursor on the screen, writes nothing outside the
-- text memory and leaves the cursor on the screen.
pub tty_putchar-OnScreen :
    (s : Screen) (c : ℕ)
    → OnScreen s
    → c ≢ 9
    → (s' : Screen) × (tty_putchar s c ≡ some s') × OnScreen s'
unfolding tty_putchar
tty_putchar-OnScreen s c o no_tab =
    let start = record s { cur_col = 0 } in
    let at_start : OnScreen start = record {
      size = o.size;
      col_in = omega arith;
      row_in = o.row_in;
    } in
    let other : (c == 9) ≡ false = ground arith in
    elim (Bool-cases (c == 10)) [
      | inl lf ↦ (next_row start, rw lf, next_row-OnScreen start at_start)
      | inr no_lf ↦ rw no_lf (elim (Bool-cases (c == 13)) [
        | inl cr ↦ (start, rw cr, at_start)
        | inr no_cr ↦ rw no_cr (elim (Bool-cases (c == 8)) [
          | inl bs ↦ rw bs (elim (Bool-cases (ltb 0 s.cur_col)) [
            | inl inside ↦ rw inside (back-OnScreen s o (ground arith))
            | inr edge ↦ (s, rw edge, o)
          ])
          | inr no_bs ↦ rw no_bs (rw other (put_printing-OnScreen s c o))
        ])
      ])
    ]

-- A tab in the last column leaves the cursor behind that column, off the screen.
tab_off_screen :
    (s : Screen)
    → OnScreen s
    → s.cur_col ≡ 79
    → (s' : Screen) × (tty_putchar s 9 ≡ some s') × (s'.cur_col ≡ 80)
unfolding tty_putchar blanks
tab_off_screen s o e =
    let one : (s.cur_col + 8) / 8 * 8 - s.cur_col ≡ suc zero = omega (arith, e) in
    let i = s.cur_row * vga_cols + s.cur_col in
    (
      record s { vga = set s.vga i blank; cur_col = s.cur_col + 1 },
      rw one (rw (put_cell_lem s i blank (omega (arith, o.size, o.col_in, o.row_in)))),
      omega (arith, e),
    )
