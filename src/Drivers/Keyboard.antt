-- ===== src/Drivers/Keyboard.antt =====
-- The keyboard of drivers/tty.c: the ring `kb_buf` between the interrupt handler and the readers,
-- and the line editor `tty_readline`.
pub mod Ring
pub mod Edit
mod Tests
use mai_unix.Prelude.{
  ℕ, ◌+◌, ◌-◌, ◌%◌, Bool, true, false, ◌&&◌, ◌||◌, Option, none, some, List, [], ◌∷◌, ◌++◌, ltb,
  leb, ◌==◌, if◌then◌else◌, length, set, get_or, take,
}

-- KB_BUF_SIZE.
abbrev pub kb_buf_size : ℕ
kb_buf_size = 256

abbrev pub sc_normal : List ℕ
sc_normal =
    0 ∷ 27 ∷ 49 ∷ 50 ∷ 51 ∷ 52 ∷ 53 ∷ 54 ∷ 55 ∷ 56 ∷ 57 ∷ 48 ∷ 45 ∷ 61 ∷ 8 ∷ 9 ∷ 113 ∷ 119 ∷ 101
    ∷ 114 ∷ 116 ∷ 121 ∷ 117 ∷ 105 ∷ 111 ∷ 112 ∷ 91 ∷ 93 ∷ 10 ∷ 0 ∷ 97 ∷ 115 ∷ 100 ∷ 102 ∷ 103 ∷ 104
    ∷ 106 ∷ 107 ∷ 108 ∷ 59 ∷ 39 ∷ 96 ∷ 0 ∷ 92 ∷ 122 ∷ 120 ∷ 99 ∷ 118 ∷ 98 ∷ 110 ∷ 109 ∷ 44 ∷ 46 ∷ 47
    ∷ 0 ∷ 42 ∷ 0 ∷ 32 ∷ 0 ∷ []

abbrev pub sc_shift : List ℕ
sc_shift =
    0 ∷ 27 ∷ 33 ∷ 64 ∷ 35 ∷ 36 ∷ 37 ∷ 94 ∷ 38 ∷ 42 ∷ 40 ∷ 41 ∷ 95 ∷ 43 ∷ 8 ∷ 9 ∷ 81 ∷ 87 ∷ 69 ∷ 82
    ∷ 84 ∷ 89 ∷ 85 ∷ 73 ∷ 79 ∷ 80 ∷ 123 ∷ 125 ∷ 10 ∷ 0 ∷ 65 ∷ 83 ∷ 68 ∷ 70 ∷ 71 ∷ 72 ∷ 74 ∷ 75 ∷ 76
    ∷ 58 ∷ 34 ∷ 126 ∷ 0 ∷ 124 ∷ 90 ∷ 88 ∷ 67 ∷ 86 ∷ 66 ∷ 78 ∷ 77 ∷ 60 ∷ 62 ∷ 63 ∷ 0 ∷ 42 ∷ 0 ∷ 32
    ∷ 0 ∷ []

-- The static variables.
pub record Keyboard : Type 0 where
  pub buf : List ℕ
  pub head : ℕ
  pub tail : ℕ
  pub shift_held : Bool
  pub ctrl_held : Bool

-- The end of `keyboard_handler`: a full ring drops the byte.
unfoldable pub push : Keyboard → ℕ → Keyboard
push k c =
    let next = (k.head + 1) % kb_buf_size in
    if next == k.tail then k else record k { buf = set k.buf k.head c; head = next }

-- The byte for a key that was pressed, or 0.
unfoldable pub decode : Keyboard → ℕ → ℕ
decode k scancode =
    let c = get_or (if k.shift_held then sc_shift else sc_normal) scancode 0 in
    if k.ctrl_held && (c == b'c') then 3 else c

unfoldable pub keyboard_handler : Keyboard → ℕ → Keyboard
unfolding push decode
keyboard_handler k scancode =
    if scancode == 0x2a || scancode == 0x36
    then record k { shift_held = true }
    else (if scancode == 0xaa || scancode == 0xb6
        then record k { shift_held = false }
        else (if scancode == 0x1d
            then record k { ctrl_held = true }
            else (if scancode == 0x9d
                then record k { ctrl_held = false }
                else (if leb 0x80 scancode
                    then k
                    else (if decode k scancode == 0 then k else push k (decode k scancode))))))

-- `tty_getchar` waits, `none`, until there is a byte.
unfoldable pub tty_getchar : Keyboard → Option (ℕ × Keyboard)
tty_getchar k =
    if k.head == k.tail
    then none
    else some (get_or k.buf k.tail 0, record k { tail = (k.tail + 1) % kb_buf_size })

-- How `tty_readline` ends: with a line, by Ctrl-C, or not before the bytes run out.
pub data Line : Type 0 where
  line : List ℕ → Line
  interrupted : Line
  unfinished : List ℕ → Line

-- `tty_readline` on the bytes that `tty_getchar` returns; `text` is what it has in `buf`.
unfoldable pub tty_readline : ℕ → List ℕ → List ℕ → Line
tty_readline maxlen text [] = unfinished text
tty_readline maxlen text (c ∷ cs) =
    let erased = tty_readline maxlen (take (length text - 1) text) cs in
    let kept = tty_readline maxlen text cs in
    let longer = tty_readline maxlen (text ++ c ∷ []) cs in
    if c == 10 || c == 13
    then line text
    else (if (c == 8) && ltb 0 (length text)
        then erased
        else (if c == 3
            then interrupted
            else (if leb 32 c && ltb c 128 && ltb (length text) (maxlen - 1)
                then longer
                else kept)))
