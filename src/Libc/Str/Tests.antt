-- ===== src/Libc/Str/Tests.antt =====
-- The theorems on the string functions of libc/libc.c at short strings.
use mai_unix.Prelude.{ℕ, List, [], ◌∷◌, arith}
use mai_unix.Libc.Str.{IsText}

-- `abc`, `ab` and `bc`.
abbrev abc : List ℕ
abc = b'a' ∷ b'b' ∷ b'c' ∷ []

abbrev ab : List ℕ
ab = b'a' ∷ b'b' ∷ []

abbrev bc : List ℕ
bc = b'b' ∷ b'c' ∷ []

abc-IsText : IsText abc
abc-IsText =
    (λ q. absurd (omega arith), (λ q. absurd (omega arith), (λ q. absurd (omega arith), tt)))

ab-IsText : IsText ab
ab-IsText = (λ q. absurd (omega arith), (λ q. absurd (omega arith), tt))

bc-IsText : IsText bc
bc-IsText = (λ q. absurd (omega arith), (λ q. absurd (omega arith), tt))
