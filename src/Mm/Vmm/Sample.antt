-- ===== src/Mm/Vmm/Sample.antt =====
-- A small physical memory with page tables of mm/vmm.c, for the tests.
use mai_unix.Prelude.{◌≡◌, refl, none, some, ◌∷◌, ◌==◌, if◌then◌else◌, replicate}
use mai_unix.Mm.Pmm.{pmm_free}
use mai_unix.Mm.Vmm.{Vmm, free_frames, free_tables, vmm_destroy_directory}

-- The kernel directory in page 1, and an address space of one page: its directory in page 2, with a
-- table in page 3 that maps page 4. The pages from 5 to 15 are free.
abbrev pub paging : Vmm
paging = record {
  mem = λ a. if a == 0x800 then 0x3007 else (if a == 0xc05 then 0x4007 else 0);
  pmm = record {
    bitmap = 0xffff_001f ∷ replicate 2047 0xffff_ffff;
    total_pages = 16;
    used_pages = 5;
  };
  kernel_dir = 0x1000;
  current_dir = 0x2000;
}

-- Behind the end of the address space.
pub freed : Vmm
unfolding vmm_destroy_directory
freed = elim (vmm_destroy_directory paging 0x2000) [ none ↦ paging | some s ↦ s ]

pub destroys : vmm_destroy_directory paging 0x2000 ≡ some freed
unfolding freed vmm_destroy_directory free_tables free_frames pmm_free
destroys = refl

-- The frame, its table and the directory are freed.
freed_pages : freed.pmm.used_pages ≡ 2
unfolding freed vmm_destroy_directory free_tables free_frames pmm_free
freed_pages = refl
