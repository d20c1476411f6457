-- ===== src/Libc/Str/Search.antt =====
-- What the searches of libc/libc.c find.
use mai_unix.Prelude.Int.{ℤ, pos}
use mai_unix.Prelude.{
  ℕ, suc, ◌≡◌, refl, sym, ap, ◌∙◌, subst, ◌≢◌, ◌↔◌, ◌⊎◌, inl, inr, true, false, Option, none, some,
  List, [], ◌∷◌, ◌++◌, arith, ℕ_discrete, ◌==◌, Bool-cases,
}
use mai_unix.Libc.Str.{
  IsText, strlen, byte_diff, strncmp, strchr, strrchr_loop, strrchr, is_zero, strstr,
}
use mathlib.Core.List.{append-nil}
use mai_unix.Libc.Str.Compare.{byte_diff-zero}

-- `c` does not occur.
abbrev pub Without : ℕ → List ℕ → Type 0
Without c [] = Unit {0}
Without c (a ∷ as') = (a ≢ c) × Without c as'

-- `strchr` for a byte that is not NUL finds its first occurrence, or returns NULL exactly when
-- there is none.
strchr_lem :
    (s : List ℕ) (c : ℕ)
    → c ≢ 0
    → ((before : List ℕ) × (behind : List ℕ) × (strchr s c ≡ some (c ∷ behind))
        × (s ≡ before ++ c ∷ behind)
        × Without c before)
      ⊎ ((strchr s c ≡ none) × Without c s)
unfolding strchr
strchr_lem [] c nonzero = inr (ground arith, tt)
strchr_lem (a ∷ as') c nonzero = elim (ℕ_discrete a c) [
  | yes q ↦ inl ([], as', ground arith, ap (λ (x : ℕ). x ∷ as') q, tt)
  | no other ↦ elim (strchr_lem as' c nonzero) [
    | inl (before, behind, got, split, free) ↦
        inl (a ∷ before, behind, ground (arith, got), ap (◌∷◌ a) split, (other, free))
    | inr (got, free) ↦ inr (ground (arith, got), (other, free))
  ]
]

strrchr_loop_lem :
    (s : List ℕ) (c : ℕ) (last : Option (List ℕ))
    → ((before : List ℕ) × (behind : List ℕ) × (strrchr_loop s c last ≡ some (c ∷ behind))
        × (s ≡ before ++ c ∷ behind)
        × Without c behind)
      ⊎ ((strrchr_loop s c last ≡ last) × Without c s)
unfolding strrchr_loop
strrchr_loop_lem [] c last = inr (refl, tt)
strrchr_loop_lem (a ∷ as') c last = elim (ℕ_discrete a c) [
  | yes q ↦
      let hit : (a == c) ≡ true = ground arith in
      elim (strrchr_loop_lem as' c (some (a ∷ as'))) [
        | inl (before, behind, got, split, free) ↦
            inl (a ∷ before, behind, rw hit got, ap (◌∷◌ a) split, free)
        | inr (got, free) ↦ inl (
          [],
          as',
          rw hit (got ∙ ap (λ (x : ℕ). some (x ∷ as')) q),
          ap (λ (x : ℕ). x ∷ as') q,
          free,
        )
      ]
  | no other ↦
      let miss : (a == c) ≡ false = ground arith in
      elim (strrchr_loop_lem as' c last) [
        | inl (before, behind, got, split, free) ↦
            inl (a ∷ before, behind, rw miss got, ap (◌∷◌ a) split, free)
        | inr (got, free) ↦ inr (rw miss got, (other, free))
      ]
]

-- `strrchr` finds the last occurrence of a byte, or returns NULL exactly when there is none.
strrchr_lem :
    (s : List ℕ) (c : ℕ)
    → ((before : List ℕ) × (behind : List ℕ) × (strrchr s c ≡ some (c ∷ behind))
        × (s ≡ before ++ c ∷ behind)
        × Without c behind)
      ⊎ ((strrchr s c ≡ none) × Without c s)
unfolding strrchr
strrchr_lem s c = strrchr_loop_lem s c none

strlen_cons : (b : ℕ) (bs : List ℕ) → strlen (b ∷ bs) ≡ suc (strlen bs)
unfolding strlen
strlen_cons b bs = omega arith

stop : (b : ℕ) (bs : List ℕ) → strncmp [] (b ∷ bs) (strlen (b ∷ bs)) ≡ byte_diff 0 b
unfolding strncmp
stop b bs = rw (strlen_cons b bs)

same :
    (a b : ℕ) (as' bs : List ℕ)
    → a ≡ b
    → strncmp (a ∷ as') (b ∷ bs) (strlen (b ∷ bs)) ≡ strncmp as' bs (strlen bs)
unfolding strncmp
same a b as' bs q = let hit : (a == b) ≡ true = ground arith in rw (strlen_cons b bs) (rw hit)

differ :
    (a b : ℕ) (as' bs : List ℕ)
    → a ≢ b
    → strncmp (a ∷ as') (b ∷ bs) (strlen (b ∷ bs)) ≡ byte_diff a b
unfolding strncmp
differ a b as' bs nq = let miss : (a == b) ≡ false = ground arith in rw (strlen_cons b bs) (rw miss)

none_left : (u : List ℕ) → strncmp u [] (strlen []) ≡ pos 0
unfolding strncmp strlen
none_left u = refl

prefix : (t behind : List ℕ) → strncmp (t ++ behind) t (strlen t) ≡ pos 0
prefix [] behind = none_left behind
prefix (b ∷ bs) behind = same b b (bs ++ behind) bs refl ∙ prefix bs behind

-- `strncmp` with the length of the second string decides whether it begins the first.
strncmp-eq-zero :
    (s t : List ℕ)
    → IsText t
    → (strncmp s t (strlen t) ≡ pos 0) ↔ ((behind : List ℕ) × (s ≡ t ++ behind))
strncmp-eq-zero s t ht = (sound s t ht, complete s t)
  where
    sound :
        (s t : List ℕ)
        → IsText t
        → strncmp s t (strlen t) ≡ pos 0
        → (behind : List ℕ) × (s ≡ t ++ behind)
    sound s [] ht e = (s, refl)
    sound [] (b ∷ bs) ht e = absurd (ht.0 (sym (byte_diff-zero 0 b (sym (stop b bs) ∙ e))))
    sound (a ∷ as') (b ∷ bs) ht e = elim (ℕ_discrete a b) [
      | yes q ↦
          let (behind, split) = sound as' bs ht.1 (sym (same a b as' bs q) ∙ e) in
          (behind, ap (◌∷◌ a) split ∙ ap (λ (x : ℕ). x ∷ (bs ++ behind)) q)
      | no nq ↦ absurd (nq (byte_diff-zero a b (sym (differ a b as' bs nq) ∙ e)))
    ]

    complete :
        (s t : List ℕ) → (behind : List ℕ) × (s ≡ t ++ behind) → strncmp s t (strlen t) ≡ pos 0
    complete s t (behind, split) =
        subst (λ (u : List ℕ). strncmp u t (strlen t) ≡ pos 0) (sym split) (prefix t behind)

abbrev pub Begins : List ℕ → List ℕ → Type 0
Begins needle s = (behind : List ℕ) × (s ≡ needle ++ behind)

-- Nothing that starts at a byte of `before` begins with the needle.
abbrev pub NoneBegins : List ℕ → List ℕ → List ℕ → Type 0
NoneBegins needle [] rest = Unit {0}
NoneBegins needle (c ∷ before) rest =
    (¬ Begins needle (c ∷ (before ++ rest))) × NoneBegins needle before rest

begins :
    (s needle : List ℕ)
    → IsText needle
    → is_zero (strncmp s needle (strlen needle)) ≡ true
    → Begins needle s
begins s needle t e = (strncmp-eq-zero s needle t).0 (zero_of (strncmp s needle (strlen needle)) e)
  where
    zero_of : (z : ℤ) → is_zero z ≡ true → z ≡ pos 0
    zero_of z e = ground arith

Begins-not :
    (s needle : List ℕ)
    → IsText needle
    → is_zero (strncmp s needle (strlen needle)) ≡ false
    → ¬ Begins needle s
Begins-not s needle t e b =
    let z = (strncmp-eq-zero s needle t).1 b in clash (subst (λ (x : ℤ). is_zero x ≡ false) z e)
  where
    clash : true ≡ false → ⊥
    clash q = cc

-- `strstr` in a string finds the first place where the needle stands, or returns NULL exactly when
-- no byte of the string starts it.
strstr_lem :
    (s needle : List ℕ)
    → IsText needle
    → ((before : List ℕ) × (rest : List ℕ) × (strstr s needle ≡ some rest)
        × (s ≡ before ++ rest)
        × Begins needle rest
        × NoneBegins needle before rest)
      ⊎ ((strstr s needle ≡ none) × NoneBegins needle s [])
unfolding strstr
strstr_lem [] needle t = inr (refl, tt)
strstr_lem (c ∷ cs) needle t =
    elim (Bool-cases (is_zero (strncmp (c ∷ cs) needle (strlen needle)))) [
      | inl hit ↦ inl ([], c ∷ cs, rw hit, refl, begins (c ∷ cs) needle t hit, tt)
      | inr miss ↦
          let not_here : ¬ Begins needle (c ∷ cs) = Begins-not (c ∷ cs) needle t miss in
          elim (strstr_lem cs needle t) [
            | inl (before, rest, got, split, found, free) ↦ inl (
              c ∷ before,
              rest,
              rw miss got,
              ap (◌∷◌ c) split,
              found,
              (subst (λ (u : List ℕ). ¬ Begins needle (c ∷ u)) split not_here, free),
            )
            | inr (got, free) ↦ inr (
              rw miss got,
              (
                subst (λ (u : List ℕ). ¬ Begins needle (c ∷ u)) (sym (append-nil cs)) not_here,
                free,
              ),
            )
          ]
    ]
