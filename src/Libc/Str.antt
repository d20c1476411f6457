-- ===== src/Libc/Str.antt =====
-- The string functions of libc/libc.c. A C string is the list of its bytes up to the NUL, so none
-- of them is 0; a pointer into a string is the list from there on. The kernel's files keep copies
-- of these functions with a `k` before the name, and mean the same.
pub mod Compare
pub mod Search
mod Tests
use mai_unix.Prelude.Int.{ℤ, pos, neg}
use mai_unix.Prelude.{
  ℕ, zero, suc, ◌+◌, ◌-◌, ◌≢◌, Bool, true, false, Option, none, some, List, [], ◌∷◌, leb, ◌==◌,
  if◌then◌else◌,
}

-- No byte is NUL.
abbrev pub IsText : List ℕ → Type 0
IsText [] = Unit {0}
IsText (c ∷ cs) = (c ≢ 0) × IsText cs

pub strlen : List ℕ → ℕ
strlen [] = 0
strlen (c ∷ cs) = strlen cs + 1

-- The difference of two bytes, as an `int`.
abbrev pub byte_diff : ℕ → ℕ → ℤ
byte_diff a b = if leb b a then pos (a - b) else neg (b - a)

unfoldable pub strcmp : List ℕ → List ℕ → ℤ
strcmp [] [] = pos 0
strcmp [] (b ∷ bs) = byte_diff 0 b
strcmp (a ∷ as') [] = byte_diff a 0
strcmp (a ∷ as') (b ∷ bs) = let rest = strcmp as' bs in if a == b then rest else byte_diff a b

-- `n` counts the bytes that may still be compared.
pub strncmp : List ℕ → List ℕ → ℕ → ℤ
strncmp as' bs zero = pos 0
strncmp [] [] (suc n) = pos 0
strncmp [] (b ∷ bs) (suc n) = byte_diff 0 b
strncmp (a ∷ as') [] (suc n) = byte_diff a 0
strncmp (a ∷ as') (b ∷ bs) (suc n) =
    let rest = strncmp as' bs n in if a == b then rest else byte_diff a b

-- The string from the first `c` on, or NULL. For `c == 0` it is the empty end of the string.
pub strchr : List ℕ → ℕ → Option (List ℕ)
strchr [] c = if c == 0 then some [] else none
strchr (a ∷ as') c = let rest = strchr as' c in if a == c then some (a ∷ as') else rest

-- `last` is the last match so far.
pub strrchr_loop : List ℕ → ℕ → Option (List ℕ) → Option (List ℕ)
strrchr_loop [] c last = last
strrchr_loop (a ∷ as') c last = strrchr_loop as' c (if a == c then some (a ∷ as') else last)

unfoldable pub strrchr : List ℕ → ℕ → Option (List ℕ)
unfolding strrchr_loop
strrchr s c = strrchr_loop s c none

abbrev pub is_zero : ℤ → Bool
is_zero (pos zero) = true
is_zero _ = false

pub strstr : List ℕ → List ℕ → Option (List ℕ)
unfolding strncmp strlen
strstr [] needle = none
strstr (c ∷ cs) needle =
    let rest = strstr cs needle in
    if is_zero (strncmp (c ∷ cs) needle (strlen needle)) then some (c ∷ cs) else rest
