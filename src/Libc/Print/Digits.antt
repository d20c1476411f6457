-- ===== src/Libc/Print/Digits.antt =====
-- The numerals of `itoa_buf` of libc/libc.c, and `atoi` on them.
use native.Mathlib.Nat.{pow-suc}
use mai_unix.Prelude.{
  ℕ, zero, suc, ◌+◌, ◌/◌, ◌%◌, ◌^◌, ◌≤◌, ◌<◌, ◌≡◌, refl, ap, ◌∙◌, subst, ◌⊎◌, inl, inr, Bool, true,
  false, some, List, [], ◌∷◌, arith, leb, ◌==◌, if◌then◌else◌, Bool-cases, length,
}
use mai_unix.Prelude.Words.{add32, sub32, mul32}
use mai_unix.Libc.Num.{isdigit, digits_value, signed_value, atoi}
use mai_unix.Libc.Print.{digit_of, itoa_loop, backwards, magnitude, itoa_buf}
use mai_unix.Prelude.Faults.{◌>>=◌}

abbrev pub IsDigit : ℕ → Type 0
IsDigit c = (48 ≤ c) × (c ≤ 57)

abbrev pub StartsWithDigit : List ℕ → Type 0
StartsWithDigit [] = ⊥
StartsWithDigit (c ∷ cs) = IsDigit c

-- What the loop has written for `u` with `n` bytes at most: digits that read as `u`, whatever follows.
pub record Digits (u n : ℕ) (tmp : List ℕ) : Type 0 where
  reads : (rest : List ℕ) → digits_value 0 (backwards tmp rest) ≡ digits_value u rest
  starts : (rest : List ℕ) → (0 < u) ⊎ StartsWithDigit rest → StartsWithDigit (backwards tmp rest)
  short : length tmp ≤ n

digit_of-IsDigit : (d : ℕ) → d < 10 → (digit_of d ≡ 48 + d) × IsDigit (digit_of d)
digit_of-IsDigit d small = (ground arith, (ground arith, ground arith))

-- A digit in front extends the value.
digits_value-digit :
    (n d : ℕ) (rest : List ℕ)
    → d < 10
    → digits_value n (digit_of d ∷ rest) ≡ digits_value (add32 (mul32 n 10) d) rest
unfolding digits_value isdigit
digits_value-digit n d rest small = ground arith

Digits-end : (n : ℕ) → Digits 0 n []
unfolding backwards
Digits-end n = record {
  reads = λ rest. refl;
  starts = λ rest h. elim h [ inl more ↦ absurd (omega arith) | inr s ↦ s ];
  short = omega arith;
}

Digits-more :
    (u n : ℕ) (tmp : List ℕ)
    → u < 2 ^ 32
    → Digits (u / 10) n tmp
    → Digits u (suc n) (digit_of (u % 10) ∷ tmp)
unfolding backwards
Digits-more u n tmp low d = record {
  reads = λ rest.
      d.reads (digit_of (u % 10) ∷ rest)
      ∙ digits_value-digit (u / 10) (u % 10) rest (omega arith)
      ∙ ap (λ v. digits_value v rest) (omega arith);
  starts = λ rest more.
      d.starts (digit_of (u % 10) ∷ rest) (inr (digit_of-IsDigit (u % 10) (omega arith)).1);
  short = omega (arith, d.short);
}

pub itoa_loop-end : (base room u : ℕ) → u == 0 ≡ true → itoa_loop room base u ≡ some []
unfolding itoa_loop
itoa_loop-end base zero u test = rw (itoa_loop, test)
itoa_loop-end base (suc room) u test = rw (itoa_loop, test)

pub itoa_loop-more :
    (base room u : ℕ)
    → u == 0 ≡ false
    → itoa_loop (suc room) base u
      ≡ (itoa_loop room base (u / base) >>= λ rest. some (digit_of (u % base) ∷ rest))
unfolding itoa_loop
itoa_loop-more base room u test = rw (itoa_loop, test)

itoa_loop-Digits :
    (n room u : ℕ)
    → u < 8 ^ n
    → u < 2 ^ 32
    → n ≤ room
    → (tmp : List ℕ) × (itoa_loop room 10 u ≡ some tmp) × Digits u n tmp
itoa_loop-Digits zero room u small low fits = (
  [],
  itoa_loop-end 10 room u (ground arith),
  subst (λ v. Digits v 0 []) (omega arith) (Digits-end 0),
)
itoa_loop-Digits (suc n) zero u small low fits = absurd (omega arith)
itoa_loop-Digits (suc n) (suc room) u small low fits = elim (Bool-cases (u == 0)) [
  | inl none_left ↦ (
    [],
    itoa_loop-end 10 (suc room) u none_left,
    subst (λ v. Digits v (suc n) []) (ground arith) (Digits-end (suc n)),
  )
  | inr more ↦
      let (tmp, got, d) =
        itoa_loop-Digits n room (u / 10) (omega (arith, pow-suc 8 n)) (omega arith) (omega arith) in
      (digit_of (u % 10) ∷ tmp, rw (itoa_loop-more 10 room u more, got), Digits-more u n tmp low d)
]

-- The absolute value of an `int` is a word.
magnitude-lt : (unsign : Bool) (val : ℕ) → val < 2 ^ 32 → magnitude unsign val < 2 ^ 32
unfolding magnitude
magnitude-lt true val low = low
magnitude-lt false val low = ground arith

-- The numeral of a word that is not negative as printed: digits, which `atoi` would read back as the
-- word, and room for them in `tmp`.
record Numeral (u : ℕ) (s : List ℕ) : Type 0 where
  value : digits_value 0 s ≡ u
  first : StartsWithDigit s

atoi-digit : (c : ℕ) (cs : List ℕ) → IsDigit c → atoi (c ∷ cs) ≡ digits_value 0 (c ∷ cs)
unfolding atoi signed_value
atoi-digit c cs d =
    let blank : (c == 32) ≡ false = ground (arith, d) in
    let minus : (c == 45) ≡ false = ground (arith, d) in rw (blank, minus)

atoi-Numeral : (u : ℕ) (s : List ℕ) → Numeral u s → atoi s ≡ u
atoi-Numeral u [] r = absurd r.first
atoi-Numeral u (c ∷ cs) r = atoi-digit c cs r.first ∙ r.value

atoi-minus : (u : ℕ) (s : List ℕ) → Numeral u s → atoi (b'-' ∷ s) ≡ sub32 0 u
unfolding atoi signed_value
atoi-minus u s r = ap (sub32 0) r.value

Numeral-zero : (u : ℕ) → u == 0 ≡ true → Numeral u (backwards (48 ∷ []) [])
unfolding backwards digits_value isdigit
Numeral-zero u none_left = record { value = ground arith; first = ground arith }

-- What `itoa_buf` writes to `tmp`, before the sign.
numeral :
    (u : ℕ)
    → u < 2 ^ 32
    → (tmp : List ℕ) × ((if u == 0 then some (48 ∷ []) else itoa_loop 32 10 u) ≡ some tmp)
      × Numeral u (backwards tmp [])
      × (length tmp ≤ 11)
unfolding digits_value
numeral u low = elim (Bool-cases (u == 0)) [
  | inl none_left ↦ (48 ∷ [], rw (none_left), Numeral-zero u none_left, omega arith)
  | inr more ↦
      let (tmp, got, d) = itoa_loop-Digits 11 32 u (omega arith) low (omega arith) in
      (
        tmp,
        rw (more, got),
        record { value = d.reads []; first = d.starts [] (inl (ground arith)) },
        d.short,
      )
]

itoa_buf-signed :
    (val : ℕ) (tmp : List ℕ)
    → (if magnitude false val == 0 then some (48 ∷ []) else itoa_loop 32 10 (magnitude false val))
      ≡ some tmp
    → length tmp ≤ 11
    → itoa_buf val 10 false
      ≡ some (if leb (2 ^ 31) val then b'-' ∷ backwards tmp [] else backwards tmp [])
unfolding itoa_buf
itoa_buf-signed val tmp got short =
    let room : leb 32 (length tmp) ≡ false = ground (arith, short) in
    elim (Bool-cases (leb (2 ^ 31) val)) [
      | inl minus ↦ rw (got, minus, room)
      | inr plus ↦ rw (got, plus)
    ]

atoi-signed :
    (val : ℕ) (s : List ℕ)
    → val < 2 ^ 32
    → Numeral (magnitude false val) s
    → atoi (if leb (2 ^ 31) val then b'-' ∷ s else s) ≡ val
unfolding magnitude
atoi-signed val s low r = elim (Bool-cases (leb (2 ^ 31) val)) [
  | inl minus ↦ rw (minus, atoi-minus (magnitude false val) s r) (ground arith)
  | inr plus ↦ rw (plus, atoi-Numeral (magnitude false val) s r) (ground arith)
]

-- `atoi` reads back what `itoa_buf` prints of an `int`, in the base of `%d`: every `int` is printed,
-- within the 32 bytes of its buffer, and reads as itself.
pub atoi-itoa_buf :
    (val : ℕ) → val < 2 ^ 32 → (s : List ℕ) × (itoa_buf val 10 false ≡ some s) × (atoi s ≡ val)
atoi-itoa_buf val low =
    let (tmp, got, r, short) = numeral (magnitude false val) (magnitude-lt false val low) in
    (
      (if leb (2 ^ 31) val then b'-' ∷ backwards tmp [] else backwards tmp []),
      itoa_buf-signed val tmp got short,
      atoi-signed val (backwards tmp []) low r,
    )
