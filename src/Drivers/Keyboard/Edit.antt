-- ===== src/Drivers/Keyboard/Edit.antt =====
-- The line editor `tty_readline` of drivers/tty.c.
use mai_unix.Prelude.{
  ℕ, zero, suc, ◌-◌, ◌≤◌, ◌<◌, inl, inr, ◌&&◌, ◌||◌, List, [], ◌∷◌, ◌++◌, arith, ltb, leb, ◌==◌,
  Bool-cases, length, length-append, take, length-take,
}
use mai_unix.Drivers.Keyboard.{Line, line, interrupted, unfinished, tty_readline}

-- Every byte is a printing one.
abbrev pub Printing : List ℕ → Type 0
Printing [] = Unit {0}
Printing (c ∷ cs) = (32 ≤ c) × (c < 128) × Printing cs

-- A text that fits a buffer of `maxlen` bytes with its NUL.
abbrev pub Fits : ℕ → List ℕ → Type 0
Fits maxlen text = Printing text × (length text < maxlen)

abbrev pub GoodLine : ℕ → Line → Type 0
GoodLine maxlen (line text) = Fits maxlen text
GoodLine maxlen interrupted = Unit {0}
GoodLine maxlen (unfinished text) = Fits maxlen text

Printing-take : (n : ℕ) (text : List ℕ) → Printing text → Printing (take n text)
Printing-take zero text p = tt
Printing-take (suc n) [] p = tt
Printing-take (suc n) (c ∷ cs) (p, q, ps) = (p, q, Printing-take n cs ps)

Printing-append :
    (text : List ℕ) (c : ℕ) → Printing text → 32 ≤ c → c < 128 → Printing (text ++ c ∷ [])
Printing-append [] c p h h' = (h, h', tt)
Printing-append (a ∷ text) c (p, q, ps) h h' = (p, q, Printing-append text c ps h h')

-- `tty_readline` never writes past a buffer of `maxlen` bytes, whatever is typed and erased, and
-- what it has in it are printing bytes only.
pub tty_readline-GoodLine :
    (maxlen : ℕ) (text cs : List ℕ)
    → Fits maxlen text
    → GoodLine maxlen (tty_readline maxlen text cs)
unfolding tty_readline
tty_readline-GoodLine maxlen text [] fits = fits
tty_readline-GoodLine maxlen text (c ∷ cs) (p, short) = elim (Bool-cases (c == 10 || c == 13)) [
  | inl ends ↦ rw ends (p, short)
  | inr go ↦ rw go (elim (Bool-cases ((c == 8) && ltb 0 (length text))) [
    | inl erase ↦ rw erase (
        tty_readline-GoodLine maxlen (take (length text - 1) text) cs (
          Printing-take (length text - 1) text p,
          omega (arith, length-take (length text - 1) text),
        ))
    | inr keep ↦ rw keep (elim (Bool-cases (c == 3)) [
      | inl stop ↦ rw stop tt
      | inr on ↦
          rw on (elim (Bool-cases (leb 32 c && ltb c 128 && ltb (length text) (maxlen - 1))) [
            | inl more ↦ rw more (
                tty_readline-GoodLine maxlen (text ++ c ∷ []) cs (
                  Printing-append text c p (ground arith) (ground arith),
                  ground (arith, length-append text (c ∷ [])),
                ))
            | inr other ↦ rw other (tty_readline-GoodLine maxlen text cs (p, short))
          ])
    ])
  ])
]
