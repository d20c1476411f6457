-- ===== src/Libc/Mem/Copy.antt =====
-- What `memcpy` of libc/libc.c leaves in memory, and `memcmp` behind it.
use mai_unix.Prelude.Int.{pos}
use mai_unix.Prelude.{
  ℕ, zero, suc, ◌+◌, ◌-◌, ◌≤◌, ◌<◌, ◌≡◌, refl, sym, ap, ◌∙◌, subst, ◌≢◌, ◌⊎◌, inl, inr, true, false,
  ◌&&◌, arith, ltb, leb, ◌==◌, if◌then◌else◌, Bool-cases,
}
use mai_unix.Prelude.Memory.{Memory}
use mai_unix.Libc.Mem.{memcpy_loop, memcpy, memcmp_loop, memcmp}

-- A forward copy reads no byte that it has written.
abbrev pub CanCopy : ℕ → ℕ → ℕ → Type 0
CanCopy dst src n = (dst ≤ src) ⊎ (src + n ≤ dst)

memcpy_loop-outside :
    (n i dst src : ℕ) (m : Memory) (q : ℕ)
    → (q < dst + i) ⊎ (dst + (i + n) ≤ q)
    → memcpy_loop n i dst src m q ≡ m q
unfolding memcpy_loop
memcpy_loop-outside zero i dst src m q out = refl
memcpy_loop-outside (suc n) i dst src m q out =
    let apart : (q == dst + i) ≡ false = ground (arith, out) in
    memcpy_loop-outside n (i + 1) dst src _ q (shifted out) ∙ rw (apart) refl
  where
    shifted :
        (q < dst + i) ⊎ (dst + (i + suc n) ≤ q) → (q < dst + (i + 1)) ⊎ (dst + (i + 1 + n) ≤ q)
    shifted (inl lt) = inl (omega arith)
    shifted (inr le) = inr (omega arith)

memcpy_loop-inside :
    (n i dst src : ℕ) (m : Memory) (j : ℕ)
    → CanCopy dst src (i + n)
    → i ≤ j
    → j < i + n
    → memcpy_loop n i dst src m (dst + j) ≡ m (src + j)
unfolding memcpy_loop
memcpy_loop-inside zero i dst src m j can le lt = absurd (omega arith)
memcpy_loop-inside (suc n) i dst src m j can le lt = elim (Bool-cases (j == i)) [
  | inl same ↦
      let eq : j ≡ i = ground (arith, same) in
      let here : (dst + j == dst + i) ≡ true = ground (arith, eq) in
      memcpy_loop-outside n (i + 1) dst src _ (dst + j) (inl (omega (arith, eq)))
      ∙ rw (here) (ap (λ (t : ℕ). m (src + t)) (sym eq))
  | inr later ↦
      let ne : j ≢ i = ground (arith, later) in
      let unwritten : (src + j == dst + i) ≡ false = ground (arith, can, le, ne) in
      memcpy_loop-inside n (i + 1) dst src _ j (shifted can) (omega (arith, ne)) (omega arith)
      ∙ rw (unwritten) refl
]
  where
    shifted : CanCopy dst src (i + suc n) → CanCopy dst src (i + 1 + n)
    shifted (inl le) = inl le
    shifted (inr le) = inr (omega arith)

memcpy-inside :
    (m : Memory) (dst src n j : ℕ)
    → CanCopy dst src n
    → j < n
    → memcpy m dst src n (dst + j) ≡ m (src + j)
unfolding memcpy
memcpy-inside m dst src n j can lt =
    let start : n ≡ 0 + n = omega arith in
    memcpy_loop-inside n 0 dst src m j (subst (CanCopy dst src) start can) (omega arith)
      (omega arith)

memcpy-outside :
    (m : Memory) (dst src n q : ℕ) → (q < dst) ⊎ (dst + n ≤ q) → memcpy m dst src n q ≡ m q
unfolding memcpy
memcpy-outside m dst src n q out = memcpy_loop-outside n 0 dst src m q (from_start out)
  where
    from_start : (q < dst) ⊎ (dst + n ≤ q) → (q < dst + 0) ⊎ (dst + (0 + n) ≤ q)
    from_start (inl lt) = inl (omega arith)
    from_start (inr le) = inr (omega arith)

-- `memcpy` of `n` bytes to a place that does not begin inside the bytes that are copied: behind it the
-- `n` bytes are those of the source before, and every other byte is as before.
pub memcpy_lem :
    (m : Memory) (dst src n q : ℕ)
    → CanCopy dst src n
    → memcpy m dst src n q ≡ (if leb dst q && ltb q (dst + n) then m (src + (q - dst)) else m q)
memcpy_lem m dst src n q can = elim (Bool-cases (leb dst q && ltb q (dst + n))) [
  | inl inside ↦
      let le : dst ≤ q = ground (arith, inside) in
      let lt : q < dst + n = ground (arith, inside) in
      let at : dst + (q - dst) ≡ q = omega (arith, le) in
      rw (inside) (
        ap (λ (t : ℕ). memcpy m dst src n t) (sym at)
        ∙ memcpy-inside m dst src n (q - dst) can (omega (arith, le, lt)))
  | inr outside ↦ rw (outside) (memcpy-outside m dst src n q (ground (arith, outside)))
]

memcmp_loop-equal :
    (n i : ℕ) (m : Memory) (a b : ℕ)
    → ((j : ℕ) → i ≤ j → j < i + n → m (a + j) ≡ m (b + j))
    → memcmp_loop n i m a b ≡ pos 0
unfolding memcmp_loop
memcmp_loop-equal zero i m a b same = refl
memcmp_loop-equal (suc n) i m a b same =
    let here : (m (a + i) == m (b + i)) ≡ true =
      ground (arith, same i (omega arith) (omega arith)) in
    rw (here) (memcmp_loop-equal n (i + 1) m a b (λ j le lt. same j (omega arith) (omega arith)))

-- `memcmp` finds no difference between a source and its copy, where the two do not overlap.
memcmp-memcpy :
    (m : Memory) (dst src n : ℕ)
    → (dst + n ≤ src) ⊎ (src + n ≤ dst)
    → memcmp (memcpy m dst src n) dst src n ≡ pos 0
unfolding memcmp
memcmp-memcpy m dst src n apart = memcmp_loop-equal n 0 _ dst src (λ j le lt.
    memcpy-inside m dst src n j (can apart) (omega arith)
    ∙ sym (memcpy-outside m dst src n (src + j) (out j apart lt)))
  where
    can : (dst + n ≤ src) ⊎ (src + n ≤ dst) → CanCopy dst src n
    can (inl le) = inl (omega arith)
    can (inr le) = inr le

    out :
        (j : ℕ)
        → (dst + n ≤ src) ⊎ (src + n ≤ dst)
        → j < 0 + n
        → (src + j < dst) ⊎ (dst + n ≤ src + j)
    out j (inl le) lt = inr (omega arith)
    out j (inr le) lt = inl (omega arith)
