-- ===== src/Mm/Pmm/Alloc.antt =====
-- What `pmm_alloc` and `pmm_free` of mm/pmm.c do to the set of pages in use.
use mai_unix.Prelude.{
  ℕ, zero, suc, ◌+◌, ◌*◌, ◌/◌, ◌^◌, ◌≤◌, ◌<◌, ◌≡◌, refl, sym, ap, subst, ◌≢◌, ◌⊎◌, inl, inr, true,
  some, arith, ℕ_discrete, ◌==◌, if◌then◌else◌, Bool-cases, length,
}
use mai_unix.Prelude.Words.{add32, sub32, mul32}
use mai_unix.Mm.Pmm.{
  page_size, bitmap_len, Pmm, take_page, alloc_loop, pmm_alloc, release_page, pmm_free,
}
use mai_unix.Mm.Pmm.Bitmap.{
  bit_of, bit_of-le, test_bit-eq-bit_of, Written, set_bit-Written, clear_bit-Written,
}

-- `bitmap` has its declared size and a bit for each page, and page 0, whose address is NULL, is
-- never free.
pub record IsValid (m : Pmm) : Type 0 where
  pub size : length m.bitmap ≡ bitmap_len
  pub covered : m.total_pages ≤ 65536
  pub null_used : bit_of m.bitmap 0 ≡ 1

-- The pages from `i` on, up to but not including `p`, are all in use.
abbrev pub AllUsed : Pmm → ℕ → ℕ → Type 0
AllUsed m i p = (q : ℕ) → i ≤ q → q < p → bit_of m.bitmap q ≡ 1

-- `out` is what an allocation of page `p` returns: the address of `p`, and the state in which `p`
-- is in use, every other page is as it was, and the count of pages in use is one higher.
pub record Takes (m : Pmm) (p : ℕ) (out : ℕ × Pmm) : Type 0 where
  pub in_range : p < m.total_pages
  pub was_free : bit_of m.bitmap p ≡ 0
  pub address : out.0 ≡ p * page_size
  pub marked : Written m.bitmap p 1 out.1.bitmap
  pub total : out.1.total_pages ≡ m.total_pages
  pub counted : out.1.used_pages ≡ add32 m.used_pages 1

module _ (m : Pmm) (v : IsValid m) where
  take_page-Takes :
      (i : ℕ)
      → i < m.total_pages
      → bit_of m.bitmap i ≡ 0
      → (out : ℕ × Pmm) × (take_page m i ≡ some out) × Takes m i out
  unfolding take_page
  take_page-Takes i lt free =
      let (b, e, w) = set_bit-Written m.bitmap i (omega arith) in
      (
        (mul32 i page_size, record m { bitmap = b; used_pages = add32 m.used_pages 1 }),
        ground arith,
        record {
          in_range = lt;
          was_free = free;
          address = omega arith;
          marked = w;
          total = refl;
          counted = refl;
        },
      )

  -- The loop from page `i`: it takes the first free page, or there is none.
  alloc_loop_lem :
      (n i : ℕ)
      → i + n ≡ m.total_pages
      → ((p : ℕ) × (out : ℕ × Pmm) × (alloc_loop m n i ≡ some out) × Takes m p out × AllUsed m i p)
        ⊎ ((alloc_loop m n i ≡ some (0, m)) × AllUsed m i m.total_pages)
  unfolding alloc_loop
  alloc_loop_lem zero i e = inr (refl, λ q a b. absurd (omega arith))
  alloc_loop_lem (suc n) i e =
      let t = test_bit-eq-bit_of m.bitmap i (omega arith) in
      elim (Bool-cases (bit_of m.bitmap i == 0)) [
        | inl free ↦
            let (out, e', tk) = take_page-Takes i (omega arith) (ground arith) in
            inl (i, out, ground arith, tk, λ q a b. absurd (omega arith))
        | inr used ↦
            let here : bit_of m.bitmap i ≡ 1 = ground (arith, bit_of-le m.bitmap i) in
            elim (alloc_loop_lem n (i + 1) (omega arith)) [
              | inl (p, out, e', tk, all) ↦ inl (p, out, ground arith, tk, extend p here all)
              | inr (e', all) ↦ inr (ground arith, extend m.total_pages here all)
            ]
      ]
    where
      extend : (p : ℕ) → bit_of m.bitmap i ≡ 1 → AllUsed m (i + 1) p → AllUsed m i p
      extend p h all q a b = elim (ℕ_discrete q i) [
        | yes eq ↦ rw eq h
        | no ne ↦ all q (omega arith) b
      ]

-- From a valid state `pmm_alloc` never leaves the bitmap, and either takes the lowest free page or,
-- exactly when every page of the memory is in use, returns NULL and changes nothing.
pub pmm_alloc_lem :
    (m : Pmm)
    → IsValid m
    → ((p : ℕ) × (out : ℕ × Pmm) × (pmm_alloc m ≡ some out) × Takes m p out × AllUsed m 0 p)
      ⊎ ((pmm_alloc m ≡ some (0, m)) × AllUsed m 0 m.total_pages)
unfolding pmm_alloc
pmm_alloc_lem m v = alloc_loop_lem m v m.total_pages 0 (omega arith)

-- The state of an allocation is valid again, and its address is not NULL.
pub Takes-IsValid :
    {m : Pmm} {p : ℕ} {out : ℕ × Pmm} → IsValid m → Takes m p out → IsValid out.1 × (out.0 ≢ 0)
Takes-IsValid {m} {p} {out} v t = (
  record {
    size = omega (arith, t.marked.same_length, v.size);
    covered = omega (arith, v.covered, t.total);
    null_used = ground (arith, t.marked.bits 0, v.null_used);
  },
  λ e. zero_free (omega (arith, t.address)),
)
  where
    zero_free : p ≡ 0 → ⊥
    zero_free e =
        let same : bit_of m.bitmap 0 ≡ 0 = subst (λ k. bit_of m.bitmap k ≡ 0) e t.was_free in
        omega (arith, v.null_used)

-- What one call of `pmm_free` does to the page `p` of its address: afterwards `p` is free, every
-- other page is as it was, and the count falls by one if `p` was in use.
pub record Frees (m : Pmm) (p : ℕ) (m' : Pmm) : Type 0 where
  pub cleared : Written m.bitmap p 0 m'.bitmap
  pub total : m'.total_pages ≡ m.total_pages
  pub counted :
      m'.used_pages ≡ (if bit_of m.bitmap p == 0 then m.used_pages else sub32 m.used_pages 1)

-- `pmm_free` of an address of the first 256 megabytes, aligned or not, frees the page that holds
-- it, and the free of a page that is free already changes nothing.
pub pmm_free_lem :
    (m : Pmm) (addr : ℕ)
    → length m.bitmap ≡ bitmap_len
    → addr < 65536 * page_size
    → (m' : Pmm) × (pmm_free m addr ≡ some m')
      × Frees m (addr / page_size) m'
      × (bit_of m.bitmap (addr / page_size) ≡ 0 → m' ≡ m)
unfolding pmm_free
pmm_free_lem m addr size lt =
    let p = addr / page_size in
    let t = test_bit-eq-bit_of m.bitmap p (omega arith) in
    elim (Bool-cases (bit_of m.bitmap p == 0)) [
      | inl free ↦ (
        m,
        ground arith,
        record { cleared = same p free; total = refl; counted = rw free },
        λ _. refl,
      )
      | inr used ↦
          let (b, e, w) = clear_bit-Written m.bitmap p (omega arith) in
          (
            record m { bitmap = b; used_pages = sub32 m.used_pages 1 },
            unfold release_page in ground arith,
            record { cleared = w; total = refl; counted = rw used },
            λ z. ground arith,
          )
    ]
  where
    same : (p : ℕ) → (bit_of m.bitmap p == 0) ≡ true → Written m.bitmap p 0 m.bitmap
    same p free = record {
      same_length = refl;
      bits = λ q. elim (ℕ_discrete q p) [ yes e ↦ rw e (ground arith) | no ne ↦ ground arith ];
    }

Frees-Takes :
    (m : Pmm) (p : ℕ) (out : ℕ × Pmm)
    → IsValid m
    → m.used_pages < 2 ^ 32
    → Takes m p out
    → (m' : Pmm) × (pmm_free out.1 out.0 ≡ some m')
      × ((q : ℕ) → bit_of m'.bitmap q ≡ bit_of m.bitmap q)
      × (m'.used_pages ≡ m.used_pages)
Frees-Takes m p out v small t =
    let page : out.0 / page_size ≡ p = omega (arith, t.address) in
    let (m', e, f, _) =
      pmm_free_lem out.1 out.0 (Takes-IsValid v t).0.size
        (omega (arith, t.address, t.in_range, v.covered)) in
    let g : Frees out.1 p m' = subst (λ k. Frees out.1 k m') page f in
    (
      m',
      e,
      (λ q. elim (ℕ_discrete q p) [
        | yes e ↦ rw e (ground (arith, g.cleared.bits p, t.was_free))
        | no ne ↦ ground (arith, g.cleared.bits q, t.marked.bits q)
      ]),
      ground (arith, g.counted, t.counted, t.marked.bits p),
    )

-- Freeing the page that an allocation has just returned undoes it: the set of pages in use and
-- their count are what they were.
pmm_free-pmm_alloc :
    (m : Pmm) (out : ℕ × Pmm)
    → IsValid m
    → m.used_pages < 2 ^ 32
    → pmm_alloc m ≡ some out
    → out.0 ≢ 0
    → (m' : Pmm) × (pmm_free out.1 out.0 ≡ some m')
      × ((q : ℕ) → bit_of m'.bitmap q ≡ bit_of m.bitmap q)
      × (m'.used_pages ≡ m.used_pages)
pmm_free-pmm_alloc m out v small e ne = elim (pmm_alloc_lem m v) [
  | inl (p, out', e', t, all) ↦
      let same : out' ≡ out = cc in Frees-Takes m p out v small (subst (Takes m p) same t)
  | inr (e', all) ↦
      let same : ◌≡◌ {A = ℕ × Pmm} (0, m) out = cc in
      absurd (ne (ap (λ (o : ℕ × Pmm). o.0) (sym same)))
]
