-- ===== src/Libc/Print/Tests.antt =====
-- The theorems on the formatted output of libc/libc.c at short texts.
use mathlib.Core.Option
use mai_unix.Prelude.{ℕ, ◌≡◌, refl, false, some, List, [], ◌∷◌, arith}
use mai_unix.Libc.Num.{atoi}
use mai_unix.Libc.Print.{itoa_buf, word, vsnprintf}
use mai_unix.Libc.Print.Digits.{atoi-itoa_buf}

-- `%04d!` and `%s: %x`.
abbrev padded_number : List ℕ
padded_number = b'%' ∷ b'0' ∷ b'4' ∷ b'd' ∷ b'!' ∷ []

abbrev named_word : List ℕ
named_word = b'%' ∷ b's' ∷ b':' ∷ b'%' ∷ b'x' ∷ []

prints_padded : vsnprintf 16 padded_number (word 42 ∷ []) ≡ some (48 ∷ 48 ∷ 52 ∷ 50 ∷ b'!' ∷ [])
unfolding vsnprintf
prints_padded = refl

-- Cut off to three bytes and the NUL.
prints_cut : vsnprintf 4 padded_number (word 42 ∷ []) ≡ some (48 ∷ 48 ∷ 52 ∷ [])
unfolding vsnprintf
prints_cut = refl

atoi-itoa_buf_example :
    (s : List ℕ) × (itoa_buf 4294967254 10 false ≡ some s) × (atoi s ≡ 4294967254)
atoi-itoa_buf_example = atoi-itoa_buf 4294967254 (omega arith)
