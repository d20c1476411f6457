-- ===== src/Mm/Vmm/Tests.antt =====
-- The theorems on page tables at a directory in page 1 with no tables, and pages 4 to 7 free.
use mai_unix.Prelude.Bits.{bit_at}
use mai_unix.Prelude.{
  ℕ, ◌+◌, ◌*◌, ◌/◌, ◌%◌, ◌≡◌, refl, inr, true, ◌&&◌, ◌||◌, some, List, ◌∷◌, arith, ◌==◌,
  if◌then◌else◌, replicate,
}
use mai_unix.Mm.Pmm.Alloc.{IsValid}
use mai_unix.Mm.Pmm.Bitmap.{bit_of}
use mai_unix.Mm.Vmm.{
  Vmm, entry, write_entry, is_present, pd_idx, vmm_map, vmm_get_physical, clone_table,
}
use mai_unix.Mm.Vmm.Space.{frame, IsSpace, page_entry, IsFree}
use mai_unix.Mm.Vmm.Tables.{Updated}
use mai_unix.Mm.Vmm.Map.{mapped, vmm_map_lem, vmm_get_physical-vmm_map}
use mai_unix.Mm.Vmm.Clone.{clone_table_lem}

-- Pages 0 to 3 are in use.
small_map : List ℕ
small_map = 0xffff_ff0f ∷ replicate 2047 0xffff_ffff

abbrev empty_space : Vmm
empty_space = record {
  mem = λ a. 0;
  pmm = record { bitmap = small_map; total_pages = 8; used_pages = 4 };
  kernel_dir = 0x1000;
  current_dir = 0x1000;
}

pmm-IsValid : IsValid empty_space.pmm
unfolding small_map bit_of bit_at
pmm-IsValid = record { size = refl; covered = omega arith; null_used = refl }

empty_space-IsSpace : IsSpace empty_space 0x1000
unfolding small_map bit_of bit_at
empty_space-IsSpace = record {
  aligned = refl;
  dir_used = refl;
  tables_used = λ i h q. cc;
  not_dir = λ i h q. cc;
  apart = λ i j hi hj q. cc;
}

empty_space-IsFree : IsFree empty_space
unfolding small_map bit_of bit_at
empty_space-IsFree = (4, omega arith, refl)

vmm_map_lem_example :
    (s' : Vmm) × (vmm_map empty_space 0x1000 0x8000_1234 0x7000 3 ≡ some s')
    × IsSpace s' 0x1000
    × IsValid s'.pmm
    × (is_present (entry s' 0x1000 (pd_idx 0x8000_1234)) ≡ true)
    × Updated
        (page_entry empty_space 0x1000)
        (0x8000_1234 / 4096)
        (mapped 0x7000 3)
        (page_entry s' 0x1000)
vmm_map_lem_example =
    vmm_map_lem empty_space 0x1000 0x8000_1234 0x7000 3 pmm-IsValid empty_space-IsSpace
      (omega arith) (inr empty_space-IsFree)

vmm_get_physical-vmm_map_example :
    (s' : Vmm) × (vmm_map empty_space 0x1000 0x8000_1234 0x7000 3 ≡ some s')
    × (vmm_get_physical s' 0x1000 0x8000_1fff ≡ 0x7000 / 4096 * 4096 + 0x8000_1fff % 4096)
vmm_get_physical-vmm_map_example =
    vmm_get_physical-vmm_map empty_space 0x1000 0x8000_1234 0x7000 3 0x8000_1fff pmm-IsValid
      empty_space-IsSpace (omega arith) (omega arith) (omega arith) (inr empty_space-IsFree)
      (omega arith)

-- A table in page 2 with one page that is present and writable.
abbrev one_page : Vmm
one_page = write_entry empty_space 0x2000 5 0x7007

clone_table_lem_example : bit_at (entry (clone_table 1024 0 0x2000 0x3000 one_page) 0x3000 5) 1 ≡ (
    if is_present (entry one_page 0x2000 5)
      && (frame 0x3000 == frame 0x2000 || frame 0x3000 == frame 0x3000)
    then (if 1 == 1 then 0 else if 1 == 9 then 1 else bit_at (entry one_page 0x2000 5) 1)
    else bit_at (entry one_page 0x3000 5) 1)
clone_table_lem_example =
    clone_table_lem one_page 0x2000 0x3000 0x3000 5 1 refl refl refl (omega arith) (omega arith)
