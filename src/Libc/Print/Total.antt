-- ===== src/Libc/Print/Total.antt =====
-- Formats and arguments for which `vsnprintf` of libc/libc.c comes to the end of its loop.
use mai_unix.Prelude.{
  ℕ, zero, suc, ◌-◌, ◌/◌, ◌%◌, ◌^◌, ◌≤◌, ◌<◌, ◌≡◌, refl, ap, inl, inr, Bool, true, false, ◌||◌,
  Option, some, List, [], ◌∷◌, ◌++◌, arith, ◌==◌, if◌then◌else◌, Bool-cases, length, length-append,
  take, length-take,
}
use mai_unix.Prelude.Words.{add32, mul32}
use mai_unix.Libc.Num.{isdigit}
use mai_unix.Libc.Print.{
  digit_of, itoa_loop, backwards, magnitude, itoa_buf, Arg, word, string, Piece, padded, bare,
  string_or_null, convert_word, takes_word, convert, read_flag, read_width, vsnprintf, kputs_both,
  kprintf,
}
use native.Mathlib.Nat.{pow-suc}
use mai_unix.Libc.Print.Digits.{itoa_loop-end, itoa_loop-more, atoi-itoa_buf}
use mai_unix.Libc.Print.Bounds.{piece_text, text_of, vsnprintf-take}

abbrev pub AllDigits : List ℕ → Type 0
AllDigits [] = Unit {0}
AllDigits (c ∷ cs) = (isdigit c ≡ true) × AllDigits cs

-- The arguments that a conversion takes, before the others.
pub data Takes : ℕ → List Arg → List Arg → Type 0 where
  takes_number :
      {k v : ℕ} {args : List Arg} → takes_word k ≡ true → v < 2 ^ 32 → Takes k (word v ∷ args) args
  takes_string : {s : Option (List ℕ)} {args : List Arg} → Takes b's' (string s ∷ args) args
  takes_nothing :
      {k : ℕ} {args : List Arg} → takes_word k ≡ false → k == b's' ≡ false → Takes k args args

-- A format whose conversions, with an optional `0` and width, find their arguments.
pub data Conforms : List ℕ → List Arg → Type 0 where
  finished : {args : List Arg} → Conforms [] args
  plain :
      {c : ℕ} {cs : List ℕ} {args : List Arg}
      → c == b'%' ≡ false
      → Conforms cs args
      → Conforms (c ∷ cs) args
  conversion :
      {fmt : List ℕ} {args args' : List Arg} (ds : List ℕ) (k : ℕ) (rest : List ℕ)
      → fmt ≡ ds ++ (k ∷ rest)
      → AllDigits ds
      → isdigit k ≡ false
      → Takes k args args'
      → Conforms rest args'
      → Conforms (b'%' ∷ fmt) args

read_width-digits :
    (ds : List ℕ) (w k : ℕ) (rest : List ℕ)
    → AllDigits ds
    → isdigit k ≡ false
    → (read_width w (ds ++ (k ∷ rest))).1 ≡ k ∷ rest
unfolding read_width
read_width-digits [] w k rest all stop = rw (stop) refl
read_width-digits (d ∷ ds) w k rest all stop =
    rw (all.0) (read_width-digits ds (add32 (mul32 w 10) (d - 48)) k rest all.1 stop)

read_flag-digits :
    (ds : List ℕ) (w k : ℕ) (rest : List ℕ)
    → AllDigits ds
    → isdigit k ≡ false
    → (read_width w (read_flag (ds ++ (k ∷ rest))).1).1 ≡ k ∷ rest
unfolding read_flag isdigit
read_flag-digits [] w k rest all stop =
    let other : (k == 48) ≡ false = ground (arith, stop) in
    rw (other) (read_width-digits [] w k rest all stop)
read_flag-digits (d ∷ ds) w k rest all stop = elim (Bool-cases (d == 48)) [
  | inl flag ↦ rw (flag) (read_width-digits ds w k rest all.1 stop)
  | inr digit ↦ rw (digit) (read_width-digits (d ∷ ds) w k rest all stop)
]

-- The loop ends for any base from 8 on, and fits.
itoa_loop-some :
    (base : ℕ)
    → ((u : ℕ) → u / base ≤ u / 8)
    → (n room u : ℕ) → u < 8 ^ n
    → n ≤ room
    → (tmp : List ℕ) × (itoa_loop room base u ≡ some tmp)
itoa_loop-some base shrinks zero room u small fits = ([], itoa_loop-end base room u (ground arith))
itoa_loop-some base shrinks (suc n) zero u small fits = absurd (omega arith)
itoa_loop-some base shrinks (suc n) (suc room) u small fits = elim (Bool-cases (u == 0)) [
  | inl none_left ↦ ([], itoa_loop-end base (suc room) u none_left)
  | inr more ↦
      let (tmp, got) =
        itoa_loop-some base shrinks n room (u / base) (omega (arith, pow-suc 8 n, shrinks u))
          (omega arith) in
      (digit_of (u % base) ∷ tmp, rw (itoa_loop-more base room u more, got))
]

itoa_buf-unsigned :
    (base val : ℕ)
    → ((u : ℕ) → u / base ≤ u / 8)
    → val < 2 ^ 32
    → (s : List ℕ) × (itoa_buf val base true ≡ some s)
unfolding itoa_buf magnitude
itoa_buf-unsigned base val shrinks low = elim (Bool-cases (val == 0)) [
  | inl nought ↦ (48 ∷ [], rw (nought))
  | inr more ↦
      let (tmp, got) = itoa_loop-some base shrinks 11 32 val (omega arith) (omega arith) in
      (backwards tmp [], rw (more, got))
]

if-some {ℓ} :
    {A : Type ℓ} (b : Bool) (x y : Option A)
    → (b ≡ true → (a : A) × (x ≡ some a))
    → (b ≡ false → (a : A) × (y ≡ some a))
    → (a : A) × ((if b then x else y) ≡ some a)
if-some true x y on_true on_false = on_true refl
if-some false x y on_true on_false = on_false refl

convert_word-some :
    (k v : ℕ) → takes_word k ≡ true → v < 2 ^ 32 → (p : Piece) × (convert_word k v ≡ some p)
unfolding convert_word
convert_word-some k v takes low =
    let (d, got_d, _) = atoi-itoa_buf v low in
    let (u, got_u) = itoa_buf-unsigned 10 v (λ u. omega arith) low in
    let (x, got_x) = itoa_buf-unsigned 16 v (λ u. omega arith) low in
    if-some (k == b'd') _ _ (λ _. (padded d, rw (got_d)))
      (λ no_d.
        if-some (k == b'u') _ _ (λ _. (padded u, rw (got_u)))
          (λ no_u.
            if-some (k == b'x' || k == b'X') _ _ (λ _. (padded x, rw (got_x)))
              (λ no_x.
                if-some (k == b'p') _ _ (λ _. (padded (b'0' ∷ b'x' ∷ x), rw (got_x)))
                  (λ no_p.
                    if-some (k == b'c') _ _ (λ _. (bare ((v % 256) ∷ []), refl))
                      (λ no_c. absurd (ground (arith, takes, no_d, no_u, no_x, no_p, no_c)))))))

-- The piece of a conversion that takes no argument.
abbrev as_written : ℕ → Piece
as_written k = bare (if k == b'%' then b'%' ∷ [] else b'%' ∷ k ∷ [])

convert-Takes :
    (k : ℕ) (args args' : List Arg)
    → Takes k args args'
    → (p : Piece) × (convert k args ≡ some (p, args'))
unfolding convert
convert-Takes k args args' (takes_number {v = v} takes low) =
    let (p, got) = convert_word-some k v takes low in (p, rw (takes, got))
convert-Takes k args args' (takes_string {s = s}) = (padded (string_or_null s), refl)
convert-Takes k [] args' (takes_nothing no_word no_string) = (as_written k, rw (no_word, no_string))
convert-Takes k (word v ∷ args) args' (takes_nothing no_word no_string) =
    (as_written k, rw (no_word, no_string))
convert-Takes k (string s ∷ args) args' (takes_nothing no_word no_string) =
    (as_written k, rw (no_word, no_string))

text_of-Conforms :
    (fmt : List ℕ) (args : List Arg)
    → Conforms fmt args
    → (n : ℕ) → length fmt ≤ n
    → (t : List ℕ) × (text_of n fmt args ≡ some t)
unfolding text_of
text_of-Conforms fmt args finished n enough = ([], refl)
text_of-Conforms fmt args (plain no_conversion next) zero enough = absurd (omega arith)
text_of-Conforms fmt args (conversion ds k rest e all stop takes next) zero enough =
    absurd (omega arith)
text_of-Conforms fmt args (plain {c = c} {cs = cs} no_conversion next) (suc n) enough =
    let (t, got) = text_of-Conforms cs args next n (omega arith) in
    (c ∷ t, rw (text_of, no_conversion, got))
text_of-Conforms fmt args (conversion {fmt = fmt'} {args' = args'} ds k rest e all stop takes next)
      (suc n) enough =
    let (p, got_p) = convert-Takes k args args' takes in
    let shorter : length rest ≤ n = omega (arith, ap length e, length-append ds (k ∷ rest)) in
    let (t, got) = text_of-Conforms rest args' next n shorter in
    let left : (read_width 0 (read_flag fmt').1).1 ≡ k ∷ rest =
      rw e (read_flag-digits ds 0 k rest all stop) in
    (
      piece_text (read_flag fmt').0 (read_width 0 (read_flag fmt').1).0 p ++ t,
      rw (text_of, left, got_p, got),
    )

pub vsnprintf-Conforms :
    (size : ℕ) (fmt : List ℕ) (args : List Arg)
    → 0 < size
    → size < 2 ^ 32
    → Conforms fmt args
    → (t : List ℕ) × (vsnprintf size fmt args ≡ some t) × (length t < size)
vsnprintf-Conforms size fmt args some_room low conforms =
    let (t, got) = text_of-Conforms fmt args conforms (length fmt) (omega arith) in
    (
      take (size - 1) t,
      rw (vsnprintf-take size fmt args some_room low, got),
      omega (arith, length-take (size - 1) t),
    )

pub kprintf-Conforms :
    (fmt : List ℕ) (args : List Arg)
    → Conforms fmt args
    → (t : List ℕ) × (kprintf fmt args ≡ some t)
unfolding kprintf
kprintf-Conforms fmt args conforms =
    let (t, got, _) = vsnprintf-Conforms 512 fmt args (omega arith) (omega arith) conforms in
    (kputs_both t, rw (got))

-- To build a derivation: a run of plain bytes, and conversions with neither flag nor width.
abbrev pub all_plain : List ℕ → Bool
all_plain [] = true
all_plain (c ∷ cs) = if c == b'%' then false else all_plain cs

pub Conforms-plains :
    (cs : List ℕ) {rest : List ℕ} {args : List Arg}
    → all_plain cs ≡ true
    → Conforms rest args
    → Conforms (cs ++ rest) args
Conforms-plains [] e next = next
Conforms-plains (c ∷ cs) e next = elim (Bool-cases (c == b'%')) [
  | inl percent ↦ absurd (ground (arith, e, percent))
  | inr other ↦ plain other (Conforms-plains cs (ground (arith, e, other)) next)
]

pub Conforms-number :
    (k : ℕ) {v : ℕ} {rest : List ℕ} {args : List Arg}
    → takes_word k ≡ true
    → isdigit k ≡ false
    → v < 2 ^ 32
    → Conforms rest args
    → Conforms (b'%' ∷ k ∷ rest) (word v ∷ args)
Conforms-number k takes stop low next = conversion [] k _ refl tt stop (takes_number takes low) next
