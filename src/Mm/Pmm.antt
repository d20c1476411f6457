-- ===== src/Mm/Pmm.antt =====
-- mm/pmm.c, the bitmap allocator of physical pages. A function that updates the static variables
-- returns the new state; `none` is an access outside `bitmap`.
pub mod Bitmap
pub mod Init
pub mod Alloc
pub mod Count
mod Tests
use mai_unix.Prelude.{
  ℕ, zero, suc, ◌+◌, ◌-◌, ◌*◌, ◌/◌, ◌%◌, ◌^◌, bit_and, bit_or, Option, none, some, List, ◌==◌,
  if◌then◌else◌, get_elem?, set, replicate,
}
use mai_unix.Prelude.Words.{add32, sub32, mul32, align_down}

-- PAGE_SIZE of mm.h, and BITMAP_LEN: one bit for each page of MAX_MEM_MB = 256 megabytes.
abbrev pub page_size : ℕ
page_size = 4096

abbrev pub bitmap_len : ℕ
bitmap_len = 2048

pub record Pmm : Type 0 where
  pub bitmap : List ℕ
  pub total_pages : ℕ
  pub used_pages : ℕ

-- `bitmap[page / 32] |= (1U << (page % 32))`
pub set_bit : List ℕ → ℕ → Option (List ℕ)
set_bit bitmap page = elim (get_elem? bitmap (page / 32)) [
  | none ↦ none
  | some w ↦ some (set bitmap (page / 32) (bit_or w (2 ^ (page % 32))))
]

-- `bitmap[page / 32] &= ~(1U << (page % 32))`
pub clear_bit : List ℕ → ℕ → Option (List ℕ)
clear_bit bitmap page = elim (get_elem? bitmap (page / 32)) [
  | none ↦ none
  | some w ↦ some (set bitmap (page / 32) (bit_and w (2 ^ 32 - 1 - 2 ^ (page % 32))))
]

-- `(bitmap[page / 32] >> (page % 32)) & 1`
pub test_bit : List ℕ → ℕ → Option ℕ
test_bit bitmap page = elim (get_elem? bitmap (page / 32)) [
  | none ↦ none
  | some w ↦ some (bit_and (w / 2 ^ (page % 32)) 1)
]

-- What the first loop of `pmm_init` stores: every page in use.
pub full_bitmap : List ℕ
full_bitmap = replicate bitmap_len (2 ^ 32 - 1)

-- The second loop of `pmm_init`, with `n` rounds left from page `i`.
pub clear_loop : ℕ → ℕ → List ℕ → Option (List ℕ)
clear_loop zero i bitmap = some bitmap
clear_loop (suc n) i bitmap = elim (clear_bit bitmap i) [
  | none ↦ none
  | some b ↦ clear_loop n (i + 1) b
]

-- The first page behind the kernel: `((kernel_end + PAGE_SIZE - 1) & ~(PAGE_SIZE - 1)) / PAGE_SIZE`.
pub start_page : ℕ → ℕ
start_page kernel_end = align_down (add32 kernel_end (page_size - 1)) 12 / page_size

pub pmm_init : ℕ → ℕ → Option Pmm
unfolding start_page full_bitmap clear_loop clear_bit
pmm_init mem_size kernel_end =
    let total = mem_size / page_size in
    let first = start_page kernel_end in
    elim (clear_loop (total - first) first full_bitmap) [
      | none ↦ none
      | some b ↦ some (record { bitmap = b; total_pages = total; used_pages = first })
    ]

-- What `pmm_alloc` does with the free page `i`.
pub take_page : Pmm → ℕ → Option (ℕ × Pmm)
unfolding set_bit
take_page m i = elim (set_bit m.bitmap i) [
  | none ↦ none
  | some b ↦ some (mul32 i page_size, record m { bitmap = b; used_pages = add32 m.used_pages 1 })
]

-- The loop of `pmm_alloc`, with `n` rounds left from page `i`. The address 0 is NULL.
pub alloc_loop : Pmm → ℕ → ℕ → Option (ℕ × Pmm)
unfolding test_bit take_page
alloc_loop m zero i = some (0, m)
alloc_loop m (suc n) i =
    let rest = alloc_loop m n (i + 1) in
    elim (test_bit m.bitmap i) [ none ↦ none | some b ↦ if b == 0 then take_page m i else rest ]

unfoldable pub pmm_alloc : Pmm → Option (ℕ × Pmm)
unfolding alloc_loop
pmm_alloc m = alloc_loop m m.total_pages 0

-- What `pmm_free` does with a page in use.
pub release_page : Pmm → ℕ → Option Pmm
unfolding clear_bit
release_page m page = elim (clear_bit m.bitmap page) [
  | none ↦ none
  | some b ↦ some (record m { bitmap = b; used_pages = sub32 m.used_pages 1 })
]

unfoldable pub pmm_free : Pmm → ℕ → Option Pmm
unfolding test_bit release_page
pmm_free m addr =
    let page = addr / page_size in
    elim (test_bit m.bitmap page) [
      | none ↦ none
      | some b ↦ if b == 0 then some m else release_page m page
    ]
