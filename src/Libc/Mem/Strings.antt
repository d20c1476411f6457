-- ===== src/Libc/Mem/Strings.antt =====
-- `strcpy` and `strcat` of libc/libc.c on the strings that memory holds.
use mai_unix.Prelude.{
  ℕ, zero, suc, ◌+◌, ◌^◌, ◌≤◌, ◌<◌, ◌≡◌, refl, ap, ◌∙◌, subst, ◌≢◌, ◌⊎◌, inl, inr, true, false,
  some, List, [], ◌∷◌, ◌++◌, arith, ◌==◌, length,
}
use mai_unix.Prelude.Memory.{Memory, poke}
use mai_unix.Libc.Mem.{strcpy_loop, string_end, strcat}

-- The string `cs`, its NUL behind it, at the address `p`.
abbrev pub StringAt : Memory → ℕ → List ℕ → Type 0
StringAt m p [] = m p ≡ 0
StringAt m p (c ∷ cs) = (c ≢ 0) × (m p ≡ c) × StringAt m (p + 1) cs

StringAt-same :
    (cs : List ℕ) (m m' : Memory) (p : ℕ)
    → ((q : ℕ) → p ≤ q → q ≤ p + length cs → m' q ≡ m q)
    → StringAt m p cs
    → StringAt m' p cs
StringAt-same [] m m' p same s = same p (omega arith) (omega arith) ∙ s
StringAt-same (c ∷ cs) m m' p same (some_byte, here, rest) = (
  some_byte,
  same p (omega arith) (omega arith) ∙ here,
  StringAt-same cs m m' (p + 1) (λ q le lt. same q (omega arith) (omega arith)) rest,
)

-- Two places for a string that share no byte.
abbrev pub Apart : ℕ → ℕ → ℕ → Type 0
Apart p q n = (p + n < q) ⊎ (q + n < p)

-- `m'` holds `cs` at `d`, and what `m` holds everywhere else.
pub record Copied (m : Memory) (d : ℕ) (cs : List ℕ) (m' : Memory) : Type 0 where
  pub copied : StringAt m' d cs
  pub elsewhere : (q : ℕ) → (q < d) ⊎ (d + length cs < q) → m' q ≡ m q

Copied-end : (m : Memory) (d : ℕ) → Copied m d [] (poke m d 0)
Copied-end m d = record { copied = ground arith; elsewhere = λ q out. ground (arith, out) }

Copied-more :
    (m : Memory) (d c : ℕ) (cs : List ℕ) (m' : Memory)
    → c ≢ 0
    → Copied (poke m d c) (d + 1) cs m'
    → Copied m d (c ∷ cs) m'
Copied-more m d c cs m' some_byte r = record {
  copied = (some_byte, r.elsewhere d (inl (omega arith)) ∙ ground arith, r.copied);
  elsewhere = λ q out. r.elsewhere q (beyond q out) ∙ unwritten q out;
}
  where
    beyond : (q : ℕ) → (q < d) ⊎ (d + length (c ∷ cs) < q) → (q < d + 1) ⊎ (d + 1 + length cs < q)
    beyond q (inl lt) = inl (omega arith)
    beyond q (inr lt) = inr (omega arith)

    unwritten : (q : ℕ) → (q < d) ⊎ (d + length (c ∷ cs) < q) → poke m d c q ≡ m q
    unwritten q out = ground (arith, out)

strcpy_loop-Copied :
    (cs : List ℕ) (n : ℕ) (m : Memory) (d src : ℕ)
    → length cs < n
    → StringAt m src cs
    → Apart d src (length cs)
    → (m' : Memory) × (strcpy_loop n m d src ≡ some m') × Copied m d cs m'
unfolding strcpy_loop
strcpy_loop-Copied cs zero m d src fuel s apart = absurd (omega arith)
strcpy_loop-Copied [] (suc n) m d src fuel s apart =
    let nul : (m src == 0) ≡ true = ground (arith, s) in
    (poke m d 0, rw (strcpy_loop, nul) refl, Copied-end m d)
strcpy_loop-Copied (c ∷ cs) (suc n) m d src fuel (some_byte, here, rest) apart =
    let more : (m src == 0) ≡ false = ground (arith, some_byte, here) in
    let (m', got, r) =
      strcpy_loop-Copied cs n (poke m d c) (d + 1) (src + 1) (omega arith)
        (StringAt-same cs m (poke m d c) (src + 1) (λ q le lt. unread q apart le lt) rest)
        (shifted apart) in
    (m', rw (strcpy_loop, more, here) got, Copied-more m d c cs m' some_byte r)
  where
    unread :
        (q : ℕ)
        → Apart d src (length (c ∷ cs))
        → src + 1 ≤ q
        → q ≤ src + 1 + length cs
        → poke m d c q ≡ m q
    unread q apart le lt = let ne : (q == d) ≡ false = ground (arith, apart, le, lt) in rw (ne) refl

    shifted : Apart d src (length (c ∷ cs)) → Apart (d + 1) (src + 1) (length cs)
    shifted (inl lt) = inl (omega arith)
    shifted (inr lt) = inr (omega arith)

string_end-lem :
    (cs : List ℕ) (n : ℕ) (m : Memory) (p : ℕ)
    → length cs < n
    → StringAt m p cs
    → string_end n m p ≡ some (p + length cs)
unfolding string_end
string_end-lem cs zero m p fuel s = absurd (omega arith)
string_end-lem [] (suc n) m p fuel s =
    let nul : (m p == 0) ≡ true = ground (arith, s) in rw (string_end, nul) (ap some (omega arith))
string_end-lem (c ∷ cs) (suc n) m p fuel (some_byte, here, rest) =
    let more : (m p == 0) ≡ false = ground (arith, some_byte, here) in
    rw (string_end, more) (string_end-lem cs n m (p + 1) (omega arith) rest ∙ ap some (omega arith))

-- A string behind the bytes of another.
StringAt-append :
    (as' bs : List ℕ) (m m' : Memory) (p : ℕ)
    → StringAt m p as'
    → ((q : ℕ) → q < p + length as' → m' q ≡ m q)
    → StringAt m' (p + length as') bs
    → StringAt m' p (as' ++ bs)
StringAt-append [] bs m m' p s same behind =
    let start : p + 0 ≡ p = omega arith in subst (λ (t : ℕ). StringAt m' t bs) start behind
StringAt-append (a ∷ as') bs m m' p (some_byte, here, rest) same behind =
    let shift : p + suc (length as') ≡ p + 1 + length as' = omega arith in
    (
      some_byte,
      same p (omega arith) ∙ here,
      StringAt-append as' bs m m' (p + 1) rest (λ q lt. same q (omega arith))
          (subst (λ (t : ℕ). StringAt m' t bs) shift behind),
    )

-- Where the destination holds a string and has room behind it that the source does not share, `strcat`
-- ends; then the destination holds the first string with the second one behind it, and memory is
-- changed nowhere else.
pub strcat_lem :
    (m : Memory) (dst src : ℕ) (as' bs : List ℕ)
    → StringAt m dst as'
    → StringAt m src bs
    → length as' < 2 ^ 32
    → length bs < 2 ^ 32
    → Apart (dst + length as') src (length bs)
    → (m' : Memory) × (strcat m dst src ≡ some m')
      × StringAt m' dst (as' ++ bs)
      × ((q : ℕ) → (q < dst + length as') ⊎ (dst + length as' + length bs < q) → m' q ≡ m q)
unfolding strcat
strcat_lem m dst src as' bs sa sb la lb apart =
    let (m', got, r) = strcpy_loop-Copied bs (2 ^ 32) m (dst + length as') src lb sb apart in
    (
      m',
      rw (strcat, string_end-lem as' (2 ^ 32) m dst la sa) got,
      StringAt-append as' bs m m' dst sa (λ q lt. r.elsewhere q (inl lt)) r.copied,
      r.elsewhere,
    )
