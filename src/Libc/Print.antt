-- ===== src/Libc/Print.antt =====
-- The formatted output of libc/libc.c: `itoa_buf`, `vsnprintf` and what calls it. The text so far in
-- a buffer is a list, whose length is `pos`. `none` is a fault: a write past `tmp`, a buffer of no
-- bytes, a format that ends inside a conversion, or an argument that is fill_count or of another kind.
pub mod Bounds
pub mod Digits
pub mod Total
mod Tests
use mai_unix.Prelude.Faults.{◌>>=◌}
use mai_unix.Prelude.Words.{add32, sub32, mul32}
use mai_unix.Prelude.{
  ℕ, zero, suc, ◌+◌, ◌-◌, ◌/◌, ◌%◌, ◌^◌, Bool, true, false, not, ◌&&◌, ◌||◌, Option, none, some,
  List, [], ◌∷◌, ◌++◌, ltb, leb, ◌==◌, if◌then◌else◌, length,
}
use mai_unix.Libc.Num.{isdigit}

-- `digits[d]`
abbrev pub digit_of : ℕ → ℕ
digit_of d = if ltb d 10 then 48 + d else b'a' + d - 10

-- The bytes of `tmp` from its first one on, with room for `n` of them.
unfoldable pub itoa_loop : ℕ → ℕ → ℕ → Option (List ℕ)
itoa_loop zero base uval = if uval == 0 then some [] else none
itoa_loop (suc n) base uval = elim (uval == 0) [
  | true ↦ some []
  | false ↦ itoa_loop n base (uval / base) >>= λ rest. some (digit_of (uval % base) ∷ rest)
]

-- `while (i--) buf[j++] = tmp[i]`, behind what `buf` holds already.
unfoldable pub backwards : List ℕ → List ℕ → List ℕ
backwards [] buf = buf
backwards (c ∷ cs) buf = backwards cs (c ∷ buf)

-- The absolute value that `itoa_buf` prints; an `int32_t` is its word.
unfoldable pub magnitude : Bool → ℕ → ℕ
magnitude unsign val = if unsign then val else if leb (2 ^ 31) val then sub32 0 val else val

unfoldable pub itoa_buf : ℕ → ℕ → Bool → Option (List ℕ)
unfolding itoa_loop backwards magnitude
itoa_buf val base unsign = do
  tmp ←
      (if magnitude unsign val == 0
        then some (48 ∷ [])
        else itoa_loop 32 base (magnitude unsign val))
  let minus = not unsign && leb (2 ^ 31) val
  if minus && leb 32 (length tmp)
      then none
      else some (if minus then b'-' ∷ backwards tmp [] else backwards tmp [])

-- What a `va_list` holds: words, and pointers to strings or NULL.
pub data Arg : Type 0 where
  word : ℕ → Arg
  string : Option (List ℕ) → Arg

-- `PUT`
unfoldable pub put : ℕ → List ℕ → ℕ → List ℕ
put size out c = if ltb (length out) (sub32 size 1) then out ++ (c ∷ []) else out

unfoldable pub put_all : ℕ → List ℕ → List ℕ → List ℕ
unfolding put
put_all size out [] = out
put_all size out (c ∷ cs) = put_all size (put size out c) cs

-- `while (width > slen) { PUT(c); width--; }`, `n` rounds of it.
unfoldable pub pad : ℕ → ℕ → ℕ → List ℕ → List ℕ
unfolding put
pad zero size c out = out
pad (suc n) size c out = pad n size c (put size out c)

-- The text of a conversion: one that is filled up to the width, or one that is not.
pub data Piece : Type 0 where
  padded : List ℕ → Piece
  bare : List ℕ → Piece

-- `s` of `%s`
abbrev pub string_or_null : Option (List ℕ) → List ℕ
string_or_null none = b'(' ∷ b'n' ∷ b'u' ∷ b'l' ∷ b'l' ∷ b')' ∷ []
string_or_null (some s) = s

-- The conversions that take a word, and the string.
unfoldable pub convert_word : ℕ → ℕ → Option Piece
unfolding itoa_buf
convert_word c v =
    if c == b'd'
    then (itoa_buf v 10 false >>= λ s. some (padded s))
    else if c == b'u'
    then (itoa_buf v 10 true >>= λ s. some (padded s))
    else if c == b'x' || c == b'X'
    then (itoa_buf v 16 true >>= λ s. some (padded s))
    else if c == b'p'
    then (itoa_buf v 16 true >>= λ s. some (padded (b'0' ∷ b'x' ∷ s)))
    else if c == b'c'
    then some (bare ((v % 256) ∷ []))
    else none

abbrev pub takes_word : ℕ → Bool
takes_word c = c == b'd' || (c == b'u' || (c == b'x' || (c == b'X' || (c == b'p' || c == b'c'))))

unfoldable pub convert : ℕ → List Arg → Option (Piece × List Arg)
unfolding convert_word
convert c [] =
    if takes_word c || c == b's'
    then none
    else some (bare (if c == b'%' then b'%' ∷ [] else b'%' ∷ c ∷ []), [])
convert c (word v ∷ args) =
    if takes_word c
    then (convert_word c v >>= λ p. some (p, args))
    else if c == b's'
    then none
    else some (bare (if c == b'%' then b'%' ∷ [] else b'%' ∷ c ∷ []), word v ∷ args)
convert c (string s ∷ args) =
    if takes_word c
    then none
    else if c == b's'
    then some (padded (string_or_null s), args)
    else some (bare (if c == b'%' then b'%' ∷ [] else b'%' ∷ c ∷ []), string s ∷ args)

-- The rounds of padding: none for a width that has become negative.
abbrev pub fill_count : ℕ → ℕ → ℕ
fill_count width slen = if leb (2 ^ 31) width then 0 else width - slen

unfoldable pub emit : ℕ → Bool → ℕ → Piece → List ℕ → List ℕ
unfolding put_all pad
emit size zero_pad width (padded s) out =
    put_all size (pad (fill_count width (length s)) size (if zero_pad then 48 else 32) out) s
emit size zero_pad width (bare s) out = put_all size out s

-- `if (*fmt == '0') { zero_pad = 1; fmt++; }`
unfoldable pub read_flag : List ℕ → Bool × List ℕ
read_flag [] = (false, [])
read_flag (c ∷ cs) = if c == 48 then (true, cs) else (false, c ∷ cs)

-- The loop over the digits of the width, an `int`.
unfoldable pub read_width : ℕ → List ℕ → ℕ × List ℕ
unfolding isdigit
read_width width [] = (width, [])
read_width width (c ∷ cs) =
    let more = read_width (add32 (mul32 width 10) (c - 48)) cs in
    if isdigit c then more else (width, c ∷ cs)

-- The loop of `vsnprintf`; each round takes a byte of the format, so that its length is fuel enough.
unfoldable pub print_loop : ℕ → ℕ → List ℕ → List Arg → List ℕ → Option (List ℕ)
unfolding put convert emit read_flag read_width
print_loop fuel size [] args out = some out
print_loop zero size (c ∷ cs) args out = none
print_loop (suc n) size (c ∷ cs) args out = elim (c == b'%') [
  | false ↦ print_loop n size cs args (put size out c)
  | true ↦
      let (zero_pad, fmt) = read_flag cs in
      let (width, fmt') = read_width 0 fmt in
      elim fmt' [
        | [] ↦ none
        | (k ∷ rest) ↦
            convert k args >>= λ r. print_loop n size rest r.1 (emit size zero_pad width r.0 out)
      ]
]

-- The text in the buffer, whose length is the result.
unfoldable pub vsnprintf : ℕ → List ℕ → List Arg → Option (List ℕ)
unfolding print_loop
vsnprintf size fmt args = if size == 0 then none else print_loop (length fmt) size fmt args []

unfoldable pub snprintf : ℕ → List ℕ → List Arg → Option (List ℕ)
unfolding vsnprintf
snprintf size fmt args = vsnprintf size fmt args

-- The bytes up to the first NUL, which `%c` may have put.
unfoldable pub kputs_both : List ℕ → List ℕ
kputs_both [] = []
kputs_both (c ∷ cs) = if c == 0 then [] else c ∷ kputs_both cs

-- The bytes that go to the terminal.
unfoldable pub kprintf : List ℕ → List Arg → Option (List ℕ)
unfolding vsnprintf kputs_both
kprintf fmt args = vsnprintf 512 fmt args >>= λ buf. some (kputs_both buf)
