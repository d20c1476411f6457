-- ===== src/Mm/Pmm/Count.antt =====
-- The counter `used_pages` of mm/pmm.c.
use mai_unix.Prelude.{
  ℕ, zero, suc, ◌+◌, ◌/◌, ◌≤◌, ◌<◌, ◌≡◌, ap, ◌≢◌, inl, inr, some, List, arith, ℕ_discrete, ltb,
  if◌then◌else◌,
}
use mai_unix.Mm.Pmm.{page_size, Pmm, pmm_alloc, pmm_free}
use mai_unix.Mm.Pmm.Bitmap.{bit_of, bit_of-le, Written}
use mai_unix.Mm.Pmm.Alloc.{IsValid, Takes, pmm_alloc_lem, Takes-IsValid, pmm_free_lem}

-- How many of the first `n` pages are in use.
abbrev pub count_used : List ℕ → ℕ → ℕ
count_used bitmap zero = 0
count_used bitmap (suc n) = count_used bitmap n + bit_of bitmap n

count_used-le : (bitmap : List ℕ) (n : ℕ) → count_used bitmap n ≤ n
count_used-le bitmap zero = omega arith
count_used-le bitmap (suc n) = omega (arith, count_used-le bitmap n, bit_of-le bitmap n)

-- A page that goes from `u` to `v` moves the count by as much.
count_used-Written :
    {b b' : List ℕ} {p v : ℕ} (n : ℕ)
    → Written b p v b'
    → count_used b' n + (if ltb p n then bit_of b p else 0)
      ≡ count_used b n + (if ltb p n then v else 0)
count_used-Written zero w = ground arith
count_used-Written {b} {p} (suc n) w = elim (ℕ_discrete n p) [
  | yes e ↦ ground (arith, count_used-Written n w, w.bits n, ap (bit_of b) e)
  | no ne ↦ ground (arith, count_used-Written n w, w.bits n)
]

-- The counter is the number of pages of the memory that are in use.
abbrev pub Counted : Pmm → Type 0
Counted m = m.used_pages ≡ count_used m.bitmap m.total_pages

Takes-one :
    {m : Pmm} {p : ℕ} {out : ℕ × Pmm}
    → Takes m p out
    → count_used out.1.bitmap out.1.total_pages ≡ count_used m.bitmap m.total_pages + 1
Takes-one {m} t =
    rw t.total (ground (arith, count_used-Written m.total_pages t.marked, t.in_range, t.was_free))

-- `pmm_alloc` never leaves the bitmap, and keeps the state valid and the counter exact.
pub pmm_alloc-Counted :
    (m : Pmm)
    → IsValid m
    → Counted m
    → (out : ℕ × Pmm) × (pmm_alloc m ≡ some out) × IsValid out.1 × Counted out.1
pmm_alloc-Counted m v c = elim (pmm_alloc_lem m v) [
  | inl (p, out, e, t, all) ↦ (
    out,
    e,
    (Takes-IsValid v t).0,
    omega (arith, t.counted, count_used-le m.bitmap m.total_pages, Takes-one t, v.covered),
  )
  | inr (e, all) ↦ ((0, m), e, v, c)
]

-- `pmm_free` of a page of the memory, in use or free already, keeps the state valid and the counter
-- exact, if it is not page 0.
pmm_free-Counted :
    (m : Pmm) (addr : ℕ)
    → IsValid m
    → Counted m
    → addr / page_size < m.total_pages
    → addr / page_size ≢ 0
    → (m' : Pmm) × (pmm_free m addr ≡ some m') × IsValid m' × Counted m'
pmm_free-Counted m addr v c lt ne =
    let p = addr / page_size in
    let (m', e, f, _) = pmm_free_lem m addr v.size (omega (arith, v.covered)) in
    (
      m',
      e,
      record {
        size = omega (arith, f.cleared.same_length, v.size);
        covered = omega (arith, f.total, v.covered);
        null_used = ground (arith, f.cleared.bits 0, v.null_used);
      },
      rw f.total (
          ground (
            arith,
            f.counted,
            count_used-Written m.total_pages f.cleared,
            bit_of-le m.bitmap p,
            count_used-le m.bitmap m.total_pages,
            v.covered,
          )),
    )
