-- ===== src/Mm/Pmm/Tests.antt =====
-- Runs of mm/pmm.c on a memory of eight pages, and the theorems at that memory.
use mai_unix.Prelude.Bits.{bit_at}
use mai_unix.Prelude.{ℕ, ◌*◌, ◌≡◌, refl, ◌⊎◌, some, List, arith, set}
use mai_unix.Mm.Pmm.{page_size, Pmm, full_bitmap, pmm_init, pmm_alloc}
use mai_unix.Mm.Pmm.Bitmap.{bit_of}
use mai_unix.Mm.Pmm.Count.{Counted, pmm_alloc-Counted}
use mai_unix.Mm.Pmm.Alloc.{IsValid, AllUsed, Takes, pmm_alloc_lem}

-- Pages 0 to 3 are in use, and 4 to 7 are free.
small_map : List ℕ
unfolding full_bitmap
small_map = set full_bitmap 0 0xffff_ff0f

abbrev eight_pages : Pmm
eight_pages = record { bitmap = small_map; total_pages = 8; used_pages = 4 }

abbrev page_four : ℕ × Pmm
page_four =
    (0x4000, record { bitmap = set small_map 0 0xffff_ff1f; total_pages = 8; used_pages = 5 })

eight_pages-IsValid : IsValid eight_pages
unfolding small_map bit_of bit_at
eight_pages-IsValid = record { size = refl; covered = omega arith; null_used = refl }

eight_pages-Counted : Counted eight_pages
unfolding small_map bit_of bit_at
eight_pages-Counted = refl

init_small : pmm_init (8 * page_size) 0x3001 ≡ some eight_pages
unfolding pmm_init small_map
init_small = refl

alloc_first : pmm_alloc eight_pages ≡ some page_four
unfolding pmm_alloc small_map
alloc_first = refl

pmm_alloc_lem_example :
    ((p : ℕ) × (out : ℕ × Pmm) × (pmm_alloc eight_pages ≡ some out)
      × Takes eight_pages p out
      × AllUsed eight_pages 0 p)
    ⊎ ((pmm_alloc eight_pages ≡ some (0, eight_pages)) × AllUsed eight_pages 0 8)
pmm_alloc_lem_example = pmm_alloc_lem eight_pages eight_pages-IsValid

pmm_alloc-Counted_example :
    (out : ℕ × Pmm) × (pmm_alloc eight_pages ≡ some out) × IsValid out.1 × Counted out.1
pmm_alloc-Counted_example = pmm_alloc-Counted eight_pages eight_pages-IsValid eight_pages-Counted
