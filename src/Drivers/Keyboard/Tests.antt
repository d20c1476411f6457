-- ===== src/Drivers/Keyboard/Tests.antt =====
-- The theorems on the keyboard at a ring with one byte, just before its end.
use mai_unix.Prelude.{
  ℕ, ◌-◌, ◌≡◌, false, [], ◌∷◌, ◌++◌, arith, ltb, if◌then◌else◌, length, replicate, length-replicate,
}
use mai_unix.Drivers.Keyboard.{kb_buf_size, Keyboard, push, tty_readline}
use mai_unix.Drivers.Keyboard.Ring.{IsRing, pending, push_lem}
use mai_unix.Drivers.Keyboard.Edit.{GoodLine, tty_readline-GoodLine}

abbrev one_key : Keyboard
one_key = record {
  buf = replicate 256 b'x';
  head = 255;
  tail = 254;
  shift_held = false;
  ctrl_held = false;
}

one_key-IsRing : IsRing one_key
one_key-IsRing = record {
  size = length-replicate {A = ℕ} 256 b'x';
  head_in = omega arith;
  tail_in = omega arith;
}

push_lem_example :
    IsRing (push one_key b'y')
    × (pending (push one_key b'y') ≡ (
        if ltb (length (pending one_key)) (kb_buf_size - 1)
        then pending one_key ++ b'y' ∷ []
        else pending one_key))
push_lem_example = push_lem one_key b'y' one_key-IsRing

-- `ab`, a backspace and `c`, in a buffer of three bytes.
tty_readline-GoodLine_example : GoodLine 3 (tty_readline 3 [] (b'a' ∷ b'b' ∷ 8 ∷ b'c' ∷ 10 ∷ []))
tty_readline-GoodLine_example =
    tty_readline-GoodLine 3 [] (b'a' ∷ b'b' ∷ 8 ∷ b'c' ∷ 10 ∷ []) (tt, omega arith)
