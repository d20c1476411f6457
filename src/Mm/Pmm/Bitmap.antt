-- ===== src/Mm/Pmm/Bitmap.antt =====
-- The bitmap of mm/pmm.c as a function from pages to bits: what the three bit operations do to it.
use mai_unix.Prelude.{
  ℕ, ◌-◌, ◌/◌, ◌%◌, ◌^◌, ◌≤◌, ◌<◌, bit_and, bit_or, ◌≡◌, some, List, arith, ◌==◌, if◌then◌else◌,
  length, set, length-set, get_or, get_elem?-eq-get_or, get_or-set,
}
use mai_unix.Prelude.Bits.{
  bit_at, bit_at-le, bit_at-or, bit_at-and, bit_at-pow, bit_at-not, bit_at-shr, bit_and-one,
  two-pow-lt,
}
use mai_unix.Mm.Pmm.{set_bit, clear_bit, test_bit}

-- The bit of a page: 1 for a page in use.
unfoldable pub bit_of : List ℕ → ℕ → ℕ
bit_of bitmap page = bit_at (get_or bitmap (page / 32) 0) (page % 32)

-- The page's word lies in the bitmap.
abbrev pub InMap : List ℕ → ℕ → Type 0
InMap bitmap page = page / 32 < length bitmap

pub bit_of-le : (bitmap : List ℕ) (page : ℕ) → bit_of bitmap page ≤ 1
unfolding bit_of
bit_of-le bitmap page = bit_at-le (page % 32) _

pub test_bit-eq-bit_of :
    (bitmap : List ℕ) (page : ℕ)
    → InMap bitmap page
    → test_bit bitmap page ≡ some (bit_of bitmap page)
unfolding test_bit bit_of
test_bit-eq-bit_of bitmap page h = ground (
  arith,
  get_elem?-eq-get_or bitmap (page / 32) 0 h,
  bit_and-one (get_or bitmap (page / 32) 0 / 2 ^ (page % 32)),
  bit_at-shr (page % 32) (get_or bitmap (page / 32) 0),
)

-- `bitmap'` is `bitmap` with the bit of `page` replaced by `v`.
pub record Written (bitmap : List ℕ) (page v : ℕ) (bitmap' : List ℕ) : Type 0 where
  pub same_length : length bitmap' ≡ length bitmap
  pub bits : (q : ℕ) → bit_of bitmap' q ≡ (if q == page then v else bit_of bitmap q)

module _ (bitmap : List ℕ) (p w : ℕ) (h : InMap bitmap p) where
  -- A write of a word changes the bits of its 32 pages only.
  bit_of-set :
      (q : ℕ)
      → bit_of (set bitmap (p / 32) w) q
        ≡ (if q / 32 == p / 32 then bit_at w (q % 32) else bit_of bitmap q)
  unfolding bit_of
  bit_of-set q = ground (arith, get_or-set bitmap (p / 32) (q / 32) w 0)

  -- So a word that differs in the bit of `p` alone changes that page alone.
  Written-set :
      (v : ℕ)
      → ((j : ℕ)
          → j < 32
          → bit_at w j ≡ (if j == p % 32 then v else bit_at (get_or bitmap (p / 32) 0) j))
      → Written bitmap p v (set bitmap (p / 32) w)
  unfolding bit_of
  Written-set v same = record {
    same_length = length-set bitmap (p / 32) w;
    bits = λ q. ground (arith, bit_of-set q, same (q % 32));
  }

module _ (bitmap : List ℕ) (p : ℕ) (h : InMap bitmap p) where
  pub set_bit-Written :
      (bitmap' : List ℕ) × (set_bit bitmap p ≡ some bitmap') × Written bitmap p 1 bitmap'
  unfolding set_bit
  set_bit-Written =
      let w = get_or bitmap (p / 32) 0 in
      let w' = bit_or w (2 ^ (p % 32)) in
      (
        set bitmap (p / 32) w',
        ground (arith, get_elem?-eq-get_or bitmap (p / 32) 0 h),
        Written-set bitmap p w' h 1 λ j lt.
            ground (arith, bit_at-or j w (2 ^ (p % 32)), bit_at-pow (p % 32) j, bit_at-le j w),
      )

  pub clear_bit-Written :
      (bitmap' : List ℕ) × (clear_bit bitmap p ≡ some bitmap') × Written bitmap p 0 bitmap'
  unfolding clear_bit
  clear_bit-Written =
      let w = get_or bitmap (p / 32) 0 in
      let mask = 2 ^ 32 - 1 - 2 ^ (p % 32) in
      (
        set bitmap (p / 32) (bit_and w mask),
        ground (arith, get_elem?-eq-get_or bitmap (p / 32) 0 h),
        Written-set bitmap p (bit_and w mask) h 0 λ j lt. ground (
          arith,
          bit_at-and j w mask,
          bit_at-not 32 j (2 ^ (p % 32)) (two-pow-lt (p % 32) 32 (omega arith)) lt,
          bit_at-pow (p % 32) j,
          bit_at-le j w,
        ),
      )
