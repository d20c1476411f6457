-- ===== src/Userland/Shell/Words.antt =====
-- `parse_args` of userland/sh.c against the words of a line.
use mai_unix.Prelude.{
  ℕ, zero, suc, ◌<◌, min, ◌≡◌, refl, sym, ap, ◌∙◌, ◌≢◌, ◌⊎◌, inl, inr, Bool, false, not, List, [],
  ◌∷◌, arith, ℕ_discrete, ◌==◌, if◌then◌else◌, Bool-cases, length,
}
use mai_unix.Libc.Num.{isspace}
use mai_unix.Userland.Shell.{most_args, skip_blanks, take_word, after_word, parse_loop, parse_args}

-- The line begins with a byte that is not blank.
abbrev starts_word : List ℕ → Bool
starts_word [] = false
starts_word (c ∷ cs) = not (isspace c)

abbrev onto_first : ℕ → List (List ℕ) → List (List ℕ)
onto_first c [] = (c ∷ []) ∷ []
onto_first c (w ∷ ws) = (c ∷ w) ∷ ws

-- The words of a line, the longest runs of bytes that are not blank.
unfoldable pub words : List ℕ → List (List ℕ)
words [] = []
words (c ∷ cs) =
    let rest = words cs in
    if isspace c then rest else if starts_word cs then onto_first c rest else (c ∷ []) ∷ rest

skip_blanks-words : (p : List ℕ) → words (skip_blanks p) ≡ words p
unfolding words skip_blanks
skip_blanks-words [] = refl
skip_blanks-words (c ∷ cs) = elim (Bool-cases (isspace c)) [
  | inl blank ↦ rw blank (skip_blanks-words cs)
  | inr full ↦ rw (full, skip_blanks) (rw full refl)
]

skip_blanks-starts : (p : List ℕ) (c : ℕ) (cs : List ℕ) → skip_blanks p ≡ c ∷ cs → isspace c ≡ false
unfolding skip_blanks
skip_blanks-starts [] c cs eq = cc
skip_blanks-starts (x ∷ xs) c cs eq = elim (Bool-cases (isspace x)) [
  | inl blank ↦ skip_blanks-starts xs c cs (ground arith)
  | inr full ↦ let same : x ≡ c = ground arith in ap isspace (sym same) ∙ full
]

words-after_word :
    (c : ℕ) (cs : List ℕ)
    → isspace c ≡ false
    → words (c ∷ cs) ≡ take_word (c ∷ cs) ∷ words (after_word (c ∷ cs))
unfolding words take_word after_word
words-after_word c [] full = rw full refl
words-after_word c (d ∷ ds) full = elim (Bool-cases (isspace d)) [
  | inl blank ↦ rw full (rw blank refl)
  | inr more ↦
      let first : words (c ∷ d ∷ ds) ≡ onto_first c (words (d ∷ ds)) = rw (full, more) refl in
      first ∙ ap (onto_first c) (words-after_word d ds more) ∙ rw (full, more) refl
]

parse_loop_step :
    (n : ℕ) (p : List ℕ) (c : ℕ) (cs : List ℕ)
    → skip_blanks p ≡ c ∷ cs
    → n ≢ 0
    → parse_loop (suc n) p ≡ take_word (c ∷ cs) ∷ parse_loop n (after_word (c ∷ cs))
unfolding parse_loop
parse_loop_step n p c cs eq more =
    let test : (n == 0) ≡ false = ground arith in rw (parse_loop, eq, test) refl

parse_loop_last :
    (p : List ℕ) (c : ℕ) (cs : List ℕ) → skip_blanks p ≡ c ∷ cs → parse_loop 1 p ≡ (c ∷ cs) ∷ []
unfolding parse_loop
parse_loop_last p c cs eq = rw (parse_loop, eq) refl

parse_loop_end : (n : ℕ) (p : List ℕ) → skip_blanks p ≡ [] → parse_loop n p ≡ []
unfolding parse_loop
parse_loop_end zero p eq = refl
parse_loop_end (suc n) p eq = rw (parse_loop, eq) refl

list_cases : (p : List ℕ) → (p ≡ []) ⊎ ((c : ℕ) × (cs : List ℕ) × (p ≡ c ∷ cs))
list_cases [] = inl refl
list_cases (c ∷ cs) = inr (c, cs, refl)

-- The words of a line behind the first.
first_word :
    (p : List ℕ) (c : ℕ) (cs : List ℕ)
    → skip_blanks p ≡ c ∷ cs
    → words p ≡ take_word (c ∷ cs) ∷ words (after_word (c ∷ cs))
first_word p c cs eq =
    sym (skip_blanks-words p) ∙ ap words eq ∙ words-after_word c cs (skip_blanks-starts p c cs eq)

no_words : (p : List ℕ) → skip_blanks p ≡ [] → words p ≡ []
unfolding words
no_words p eq = sym (skip_blanks-words p) ∙ ap words eq

parse_loop_lem : (n : ℕ) (p : List ℕ) → length (words p) < n → parse_loop n p ≡ words p
parse_loop_lem zero p few = absurd (omega arith)
parse_loop_lem (suc n) p few = elim (list_cases (skip_blanks p)) [
  | inl e ↦ parse_loop_end (suc n) p e ∙ sym (no_words p e)
  | inr (c, cs, e) ↦
      let all = first_word p c cs e in
      let count = ap length all in
      parse_loop_step n p c cs e (omega (arith, count))
      ∙ ap (◌∷◌ (take_word (c ∷ cs)))
          (parse_loop_lem n (after_word (c ∷ cs)) (omega (arith, count)))
      ∙ sym all
]

length-parse_loop : (n : ℕ) (p : List ℕ) → length (parse_loop n p) ≡ min n (length (words p))
unfolding parse_loop
length-parse_loop zero p = omega arith
length-parse_loop (suc n) p = elim (list_cases (skip_blanks p)) [
  | inl e ↦ omega (arith, ap length (parse_loop_end (suc n) p e), ap length (no_words p e))
  | inr (c, cs, e) ↦
      let count = ap length (first_word p c cs e) in
      elim (ℕ_discrete n 0) [
        | yes last ↦ omega (
          arith,
          count,
          ap length (parse_loop_last p c cs e),
          ap (λ (k : ℕ). length (parse_loop (suc k) p)) last,
        )
        | no more ↦ omega (
          arith,
          count,
          ap length (parse_loop_step n p c cs e more),
          length-parse_loop n (after_word (c ∷ cs)),
        )
      ]
]

-- `parse_args` gives as many arguments as the line has words, but never more than 31, which leaves
-- room in `argv` for the NULL behind them.
parse_args_lem : (line : List ℕ) → length (parse_args line) ≡ min most_args (length (words line))
unfolding parse_args
parse_args_lem line = length-parse_loop most_args line

-- On a line of up to 30 words, the arguments that `parse_args` gives are exactly its words.
pub parse_args-words :
    (line : List ℕ) → length (words line) < most_args → parse_args line ≡ words line
unfolding parse_args
parse_args-words line few = parse_loop_lem most_args line few
