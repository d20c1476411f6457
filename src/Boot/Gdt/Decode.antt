-- ===== src/Boot/Gdt/Decode.antt =====
-- What the processor reads out of the entries of kernel/gdt.c.
use mai_unix.Prelude.Words.{add32}
use Prim.Native.Nat.{bit_or-bitwise}
use mai_unix.Prelude.{
  ℕ, ◌+◌, ◌*◌, ◌/◌, ◌%◌, ◌^◌, ◌<◌, bit_and, bit_or, ◌≡◌, refl, ap, ◌∙◌, true, false, [], ◌∷◌, map,
  arith, ℕ_discrete, ◌==◌, if◌then◌else◌, length, get_or, get_or-set,
}
use mai_unix.Prelude.Bits.{bit_and-low, bit_or-low, bit_and-one}
use mai_unix.Boot.Gdt.{
  GdtEntry, tss_size, Tables, encode_entry, gdt_set_entry, boot_tables, tss_setup, gdt_init,
}

-- The fields of a descriptor, put together as the processor does.
abbrev pub base_of : GdtEntry → ℕ
base_of e = e.base_low + 2 ^ 16 * e.base_middle + 2 ^ 24 * e.base_high

abbrev pub limit_of : GdtEntry → ℕ
limit_of e = e.limit_low + 2 ^ 16 * (e.granularity % 16)

abbrev pub flags_of : GdtEntry → ℕ
flags_of e = e.granularity / 16

odd_mask : (k a : ℕ) → bit_and a (2 * k + 1) ≡ a % 2 + 2 * bit_and (a / 2) k
odd_mask k a =
    let half : (2 * k + 1) / 2 ≡ k = omega arith in
    bit_and-low (2 * k + 1) a ∙ rw half (omega arith)

even_mask : (k a : ℕ) → bit_and a (2 * k) ≡ 2 * bit_and (a / 2) k
even_mask k a =
    let half : 2 * k / 2 ≡ k = omega arith in bit_and-low (2 * k) a ∙ rw half (omega arith)

or_even : (x y : ℕ) → y % 2 ≡ 0 → bit_or x y ≡ x % 2 + 2 * bit_or (x / 2) (y / 2)
or_even x y even = bit_or-low y x ∙ omega arith

-- Masks of half a byte, a byte, a word, and the upper half of a byte.
and_nibble : (a : ℕ) → bit_and a 0x0f ≡ a % 16
and_nibble a =
    let b₂ : bit_and (a / 2 / 2) 3 ≡ a / 2 / 2 % 4 =
      odd_mask 1 (a / 2 / 2) ∙ omega (arith, bit_and-one (a / 2 / 2 / 2)) in
    let b₁ : bit_and (a / 2) 7 ≡ a / 2 % 8 = odd_mask 3 (a / 2) ∙ omega (arith, b₂) in
    odd_mask 7 a ∙ omega (arith, b₁)

-- One more bit.
module _ (k n : ℕ) where
  mask_more :
      (a : ℕ) → bit_and (a / 2) k ≡ a / 2 % n → bit_and a (2 * k + 1) ≡ a % 2 + 2 * (a / 2 % n)
  mask_more a h = odd_mask k a ∙ omega (arith, h)

and_byte : (a : ℕ) → bit_and a 0xff ≡ a % 256
and_byte a =
    let b₃ : bit_and (a / 2 / 2 / 2) 31 ≡ a / 2 / 2 / 2 % 32 =
      mask_more 15 16 (a / 2 / 2 / 2) (and_nibble (a / 2 / 2 / 2 / 2)) ∙ omega arith in
    let b₂ : bit_and (a / 2 / 2) 63 ≡ a / 2 / 2 % 64 =
      mask_more 31 32 (a / 2 / 2) b₃ ∙ omega arith in
    let b₁ : bit_and (a / 2) 127 ≡ a / 2 % 128 = mask_more 63 64 (a / 2) b₂ ∙ omega arith in
    mask_more 127 128 a b₁ ∙ omega arith

and_twelve : (a : ℕ) → bit_and a 0x0fff ≡ a % 4096
and_twelve a =
    let b₃ : bit_and (a / 2 / 2 / 2) 511 ≡ a / 2 / 2 / 2 % 512 =
      mask_more 255 256 (a / 2 / 2 / 2) (and_byte (a / 2 / 2 / 2 / 2)) ∙ omega arith in
    let b₂ : bit_and (a / 2 / 2) 1023 ≡ a / 2 / 2 % 1024 =
      mask_more 511 512 (a / 2 / 2) b₃ ∙ omega arith in
    let b₁ : bit_and (a / 2) 2047 ≡ a / 2 % 2048 = mask_more 1023 1024 (a / 2) b₂ ∙ omega arith in
    mask_more 2047 2048 a b₁ ∙ omega arith

pub and_word : (a : ℕ) → bit_and a 0xffff ≡ a % 65536
and_word a =
    let b₃ : bit_and (a / 2 / 2 / 2) 8191 ≡ a / 2 / 2 / 2 % 8192 =
      mask_more 4095 4096 (a / 2 / 2 / 2) (and_twelve (a / 2 / 2 / 2 / 2)) ∙ omega arith in
    let b₂ : bit_and (a / 2 / 2) 16383 ≡ a / 2 / 2 % 16384 =
      mask_more 8191 8192 (a / 2 / 2) b₃ ∙ omega arith in
    let b₁ : bit_and (a / 2) 32767 ≡ a / 2 % 32768 =
      mask_more 16383 16384 (a / 2) b₂ ∙ omega arith in
    mask_more 32767 32768 a b₁ ∙ omega arith

and_upper : (a : ℕ) → bit_and a 0xf0 ≡ 16 * (a / 16 % 16)
and_upper a =
    let b₃ : bit_and (a / 2 / 2 / 2) 30 ≡ 2 * (a / 16 % 16) =
      even_mask 15 (a / 2 / 2 / 2) ∙ omega (arith, and_nibble (a / 2 / 2 / 2 / 2)) in
    let b₂ : bit_and (a / 2 / 2) 60 ≡ 4 * (a / 16 % 16) =
      even_mask 30 (a / 2 / 2) ∙ omega (arith, b₃) in
    let b₁ : bit_and (a / 2) 120 ≡ 8 * (a / 16 % 16) = even_mask 60 (a / 2) ∙ omega (arith, b₂) in
    even_mask 120 a ∙ omega (arith, b₁)

-- The lower half of a byte from one number, and the upper from another.
or_halves : (x y : ℕ) → x < 16 → y % 16 ≡ 0 → bit_or x y ≡ x + y
or_halves x y small even =
    let none : x / 2 / 2 / 2 / 2 ≡ 0 = omega arith in
    let b₄ : bit_or (x / 2 / 2 / 2 / 2) (y / 2 / 2 / 2 / 2) ≡ y / 2 / 2 / 2 / 2 =
      rw none (zero_or _) in
    let b₃ : bit_or (x / 2 / 2 / 2) (y / 2 / 2 / 2) ≡ x / 2 / 2 / 2 + y / 2 / 2 / 2 =
      or_even (x / 2 / 2 / 2) (y / 2 / 2 / 2) (omega arith) ∙ omega (arith, b₄) in
    let b₂ : bit_or (x / 2 / 2) (y / 2 / 2) ≡ x / 2 / 2 + y / 2 / 2 =
      or_even (x / 2 / 2) (y / 2 / 2) (omega arith) ∙ omega (arith, b₃) in
    let b₁ : bit_or (x / 2) (y / 2) ≡ x / 2 + y / 2 =
      or_even (x / 2) (y / 2) (omega arith) ∙ omega (arith, b₂) in
    or_even x y (omega arith) ∙ omega (arith, b₁)
  where
    zero_or : (b : ℕ) → bit_or 0 b ≡ b
    zero_or b = omega (arith, bit_or-bitwise 0 b)

-- What the processor reads out of an encoded entry.
encode_entry_lem :
    (base limit access gran : ℕ)
    → base < 2 ^ 32
    → gran < 256
    → let e = encode_entry base limit access gran in
      (base_of e ≡ base)
      × (limit_of e ≡ limit % 2 ^ 20)
      × (flags_of e ≡ gran / 16)
      × (e.access ≡ access)
unfolding encode_entry
encode_entry_lem base limit access gran small byte =
    let low = and_nibble (limit / 65536) in
    let high = and_upper gran in
    let g : bit_or (bit_and (limit / 65536) 15) (bit_and gran 240)
        ≡ limit / 65536 % 16 + 16 * (gran / 16) =
      or_halves (bit_and (limit / 65536) 15) (bit_and gran 240) (omega arith) (omega arith)
      ∙ omega arith in
    (
      omega (arith, and_word base, and_byte (base / 65536), and_byte (base / 16777216)),
      omega (arith, and_word limit, g),
      omega (arith, g),
      refl,
    )

-- `gdt_set_entry` writes one entry and no other, and the processor reads the base, the low 20 bits of
-- the limit, the access byte and the upper half of the flags back out of it.
pub gdt_set_entry_lem :
    (t : Tables) (n base limit access gran i : ℕ) (d : GdtEntry)
    → n < length t.gdt
    → base < 2 ^ 32
    → gran < 256
    → let e = get_or (gdt_set_entry t n base limit access gran).gdt i d in
      if i == n
      then (base_of e ≡ base)
        × (limit_of e ≡ limit % 2 ^ 20)
        × (flags_of e ≡ gran / 16)
        × (e.access ≡ access)
      else e ≡ get_or t.gdt i d
unfolding gdt_set_entry
gdt_set_entry_lem t n base limit access gran i d inside small byte = elim (ℕ_discrete i n) [
  | no ne ↦
      let differ : (i == n) ≡ false = ground arith in
      rw (differ, get_or-set t.gdt n i (encode_entry base limit access gran) d inside)
        (rw differ refl)
  | yes e ↦
      let same : (i == n) ≡ true = ground arith in
      rw (same, get_or-set t.gdt n i (encode_entry base limit access gran) d inside)
        (rw same (encode_entry_lem base limit access gran small byte))
]

-- Base, limit and privilege level.
abbrev pub describe : GdtEntry → ℕ × ℕ × ℕ
describe e = (base_of e, limit_of e, e.access / 32 % 4)

-- Behind `gdt_init` on the tables as they are at the start, the four segments of the kernel and the
-- user cover all of memory, at the privilege levels 0 and 3; the last entry leads to the task state
-- segment, but has the end of that segment as its limit, where the processor wants the size.
gdt_init_lem :
    (tss_at : ℕ)
    → tss_at < 2 ^ 32
    → map describe (gdt_init tss_at boot_tables).gdt
      ≡ (0, 0, 0)
        ∷ (0, 0xf_ffff, 0)
        ∷ (0, 0xf_ffff, 0)
        ∷ (0, 0xf_ffff, 3)
        ∷ (0, 0xf_ffff, 3)
        ∷ (tss_at, (tss_at + tss_size) % 2 ^ 20, 0)
        ∷ []
unfolding gdt_init gdt_set_entry tss_setup
gdt_init_lem tss_at small =
    let (base, limit, _, access) =
      encode_entry_lem tss_at (add32 tss_at tss_size) 0x89 0x00 small (omega arith) in
    let limit' : limit_of (encode_entry tss_at (add32 tss_at tss_size) 0x89 0x00)
        ≡ (tss_at + tss_size) % 2 ^ 20 =
      limit ∙ omega arith in
    let e = encode_entry tss_at (add32 tss_at tss_size) 0x89 0x00 in
    let tss : describe e ≡ (tss_at, (tss_at + tss_size) % 2 ^ 20, 0) =
      ap (λ (b : ℕ). (b, limit_of e, e.access / 32 % 4)) base
      ∙ ap (λ (l : ℕ). (tss_at, l, e.access / 32 % 4)) limit'
      ∙ ap (λ (a : ℕ). (tss_at, (tss_at + tss_size) % 2 ^ 20, a / 32 % 4)) access in
    ap
      (λ (d : ℕ × ℕ × ℕ).
        (0, 0, 0)
        ∷ (0, 0xf_ffff, 0)
        ∷ (0, 0xf_ffff, 0)
        ∷ (0, 0xf_ffff, 3)
        ∷ (0, 0xf_ffff, 3)
        ∷ d
        ∷ [])
      tss
