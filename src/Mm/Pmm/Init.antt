-- ===== src/Mm/Pmm/Init.antt =====
-- What `pmm_init` of mm/pmm.c leaves behind.
use mai_unix.Prelude.Bits.{bit_at-ones}
use mai_unix.Prelude.{
  ℕ, zero, suc, ◌+◌, ◌-◌, ◌*◌, ◌/◌, ◌%◌, ◌^◌, ◌≤◌, ◌<◌, ◌≡◌, refl, ◌⊎◌, ◌&&◌, some, List, arith,
  ltb, leb, if◌then◌else◌, length, length-replicate, get_or-replicate,
}
use mai_unix.Mm.Pmm.{page_size, bitmap_len, Pmm, full_bitmap, clear_loop, start_page, pmm_init}
use mai_unix.Mm.Pmm.Bitmap.{bit_of, clear_bit-Written}
use mai_unix.Mm.Pmm.Alloc.{IsValid}

-- The loop clears the bits of the pages from `i` up to `i + n`, and no other.
clear_loop_lem :
    (n i : ℕ) (bitmap : List ℕ)
    → (n ≡ 0) ⊎ ((i + n - 1) / 32 < length bitmap)
    → (b : List ℕ) × (clear_loop n i bitmap ≡ some b)
      × (length b ≡ length bitmap)
      × ((q : ℕ) → bit_of b q ≡ (if leb i q && ltb q (i + n) then 0 else bit_of bitmap q))
unfolding clear_loop
clear_loop_lem zero i bitmap h = (bitmap, refl, refl, λ q. ground arith)
clear_loop_lem (suc n) i bitmap h =
    let (b, e, w) = clear_bit-Written bitmap i (omega arith) in
    let (b', e', l, bits) = clear_loop_lem n (i + 1) b (omega (arith, w.same_length)) in
    (b', ground arith, omega (arith, w.same_length), λ q. ground (arith, bits q, w.bits q))

length-full_bitmap : length full_bitmap ≡ bitmap_len
unfolding full_bitmap
length-full_bitmap = length-replicate bitmap_len (2 ^ 32 - 1)

bit_of-full_bitmap : (q : ℕ) → q < 65536 → bit_of full_bitmap q ≡ 1
unfolding full_bitmap bit_of
bit_of-full_bitmap q h =
    rw (get_or-replicate bitmap_len (q / 32) (2 ^ 32 - 1) 0 (omega arith))
      (bit_at-ones 32 (q % 32) (omega arith))

-- `pmm_init` for a memory of at most 256 megabytes and a kernel that ends in it: it stays inside the
-- bitmap, and exactly the whole pages between the end of the kernel and the end of the memory are
-- free.
pub pmm_init_lem :
    (mem_size kernel_end : ℕ)
    → mem_size ≤ 65536 * page_size
    → 0 < kernel_end
    → kernel_end ≤ mem_size
    → (m : Pmm) × (pmm_init mem_size kernel_end ≡ some m)
      × IsValid m
      × (m.total_pages ≡ mem_size / page_size)
      × ((q : ℕ)
          → q < 65536
          → bit_of m.bitmap q ≡ (
              if leb kernel_end (q * page_size) && leb ((q + 1) * page_size) mem_size
              then 0
              else 1))
unfolding pmm_init
pmm_init_lem mem_size kernel_end fits loaded inside =
    let total = mem_size / page_size in
    let first = start_page kernel_end in
    let at : first ≡ (kernel_end + 4095) / 4096 = unfold start_page in omega arith in
    let (b, e, l, bits) =
      clear_loop_lem (total - first) first full_bitmap (omega (arith, length-full_bitmap)) in
    (
      record { bitmap = b; total_pages = total; used_pages = first },
      ground arith,
      record {
        size = omega (arith, length-full_bitmap);
        covered = omega arith;
        null_used = ground (arith, bits 0, bit_of-full_bitmap 0);
      },
      refl,
      λ q h. ground (arith, bits q, bit_of-full_bitmap q),
    )
