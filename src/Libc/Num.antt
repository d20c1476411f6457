-- ===== src/Libc/Num.antt =====
-- The character tests and `atoi` of libc/libc.c. An `int` is the 32-bit word of its value.
use mai_unix.Prelude.Words.{add32, sub32, mul32}
use mai_unix.Prelude.{ℕ, ◌+◌, ◌-◌, Bool, ◌&&◌, ◌||◌, List, [], ◌∷◌, leb, ◌==◌, if◌then◌else◌}

unfoldable pub isspace : ℕ → Bool
isspace c = c == 32 || (c == 9 || (c == 10 || (c == 13 || (c == 12 || c == 11))))

unfoldable pub isdigit : ℕ → Bool
isdigit c = leb 48 c && leb c 57

unfoldable pub isalpha : ℕ → Bool
isalpha c = (leb b'a' c && leb c b'z') || (leb b'A' c && leb c b'Z')

unfoldable pub isalnum : ℕ → Bool
unfolding isalpha isdigit
isalnum c = isalpha c || isdigit c

unfoldable pub toupper : ℕ → ℕ
toupper c = if leb b'a' c && leb c b'z' then c - 32 else c

-- The last loop of `atoi`, from the value so far.
unfoldable pub digits_value : ℕ → List ℕ → ℕ
unfolding isdigit
digits_value n [] = n
digits_value n (c ∷ cs) =
    let more = digits_value (add32 (mul32 n 10) (c - 48)) cs in if isdigit c then more else n

unfoldable pub signed_value : List ℕ → ℕ
unfolding digits_value
signed_value [] = 0
signed_value (c ∷ cs) = if c == b'-' then sub32 0 (digits_value 0 cs) else digits_value 0 (c ∷ cs)

unfoldable pub atoi : List ℕ → ℕ
unfolding signed_value
atoi [] = 0
atoi (c ∷ cs) = let rest = atoi cs in if c == b' ' then rest else signed_value (c ∷ cs)

unfoldable pub tolower : ℕ → ℕ
tolower c = if leb b'A' c && leb c b'Z' then c + 32 else c
