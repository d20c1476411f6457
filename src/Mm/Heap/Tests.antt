-- ===== src/Mm/Heap/Tests.antt =====
-- The theorems on the kernel heap at a heap of one page, with 8 bytes handed out at its start.
use mai_unix.Prelude.{
  ℕ, ◌+◌, ◌-◌, ◌%◌, ◌≤◌, ◌<◌, bit_or, ◌≡◌, refl, ◌⊎◌, inl, true, false, none, some, List, [], ◌∷◌,
  ◌++◌, arith, ◌==◌, if◌then◌else◌, replicate,
}
use mai_unix.Mm.Pmm.{page_size, Pmm, pmm_alloc}
use mai_unix.Mm.Vmm.{page_present, page_write, Vmm, vmm_map}
use mai_unix.Mm.Heap.{
  heap_start, header_size, Heap, heap_init, align_size, kmalloc, kfree, krealloc,
}
use mai_unix.Mm.Heap.Chain.{Block, header}
use mai_unix.Mm.Heap.Used.{used, IsHeap}
use mai_unix.Mm.Heap.Alloc.{Allocates, heap_fuel, kmalloc_lem}
use mai_unix.Mm.Heap.Free.{kfree_lem}
use mai_unix.Mm.Heap.Init.{heap_init_lem}
use mai_unix.Mm.Heap.Resize.{Moves, krealloc_lem}
use mai_unix.Mm.Heap.Regions.{kfree-kmalloc}
use mai_unix.Mm.Heap.Apart.{Outside, kmalloc-Apart}

-- The kernel directory in page 1, with a table for the heap in page 2; page 4 is free.
tables : Vmm
tables = record {
  mem = λ a. if a == 0x404 then 0x2003 else 0;
  pmm = record {
    bitmap = 0xffff_ff0f ∷ replicate 2047 0xffff_ffff;
    total_pages = 8;
    used_pages = 4;
  };
  kernel_dir = 0x1000;
  current_dir = 0x1000;
}

abbrev first : Block
first = record { size = 8; free = false }

abbrev second : Block
second = record { size = 4048; free = true }

abbrev small_heap : Heap
small_heap = record {
  vm = tables;
  hdr =
      λ a. if a == heap_start then header first (heap_start + 28) 0 else header second 0 heap_start;
  bytes = λ a. a % 256;
  head = heap_start;
  brk = heap_start + 4096;
}

abbrev blocks : List Block
blocks = first ∷ second ∷ []

small_heap-IsHeap : IsHeap small_heap blocks
small_heap-IsHeap = record {
  head_first = refl;
  not_empty = omega arith;
  placed = record { linked = (refl, (refl, tt)); above_null = omega arith; below = omega arith };
  to_brk = refl;
}

kmalloc_lem_example :
    (p : ℕ) × (h' : Heap) × (kmalloc heap_fuel small_heap 100 ≡ some (p, h'))
    × Allocates small_heap.bytes (used heap_start blocks) (align_size 100) p h'
kmalloc_lem_example =
    kmalloc_lem heap_fuel small_heap blocks 100 small_heap-IsHeap (omega arith) (omega arith)
      (omega arith) (inl (first ∷ [], second, [], refl, refl))

kfree-kmalloc_example :
    (p : ℕ) × (h' : Heap) × (kmalloc heap_fuel small_heap 100 ≡ some (p, h'))
    × (cs : List Block) × IsHeap (kfree h' p) cs
    × (used heap_start cs ≡ used heap_start blocks)
kfree-kmalloc_example =
    kfree-kmalloc heap_fuel small_heap blocks 100 small_heap-IsHeap (omega arith) (omega arith)
      (omega arith) (inl (first ∷ [], second, [], refl, refl))

kfree_lem_example :
    (bs' : List Block) × IsHeap (kfree small_heap 0x0100_0014) bs'
    × (used heap_start bs' ≡ [] ++ [])
kfree_lem_example = kfree_lem small_heap blocks [] [] 0x0100_0014 8 small_heap-IsHeap refl

krealloc_lem_example :
    ((100 ≤ 8) × (krealloc heap_fuel small_heap 0x0100_0014 100 ≡ some (0x0100_0014, small_heap)))
    ⊎ ((p : ℕ) × (h' : Heap) × (krealloc heap_fuel small_heap 0x0100_0014 100 ≡ some (p, h'))
        × ((i : ℕ) → i < 8 → h'.bytes (p + i) ≡ small_heap.bytes (0x0100_0014 + i))
        × (k : ℕ) × (100 ≤ k)
        × Moves [] [] k p h')
krealloc_lem_example =
    krealloc_lem heap_fuel small_heap blocks [] [] 0x0100_0014 8 100 small_heap-IsHeap refl
      (omega arith) (omega arith) (omega arith) (inl (first ∷ [], second, [], refl, refl))

kmalloc-Apart_example :
    (p : ℕ) × (h' : Heap) × (kmalloc heap_fuel small_heap 100 ≡ some (p, h'))
    × Outside h' 100 p 8 0x0100_0014
kmalloc-Apart_example =
    kmalloc-Apart heap_fuel small_heap blocks [] [] 0x0100_0014 8 100 small_heap-IsHeap refl
      (omega arith) (omega arith) (omega arith) (inl (first ∷ [], second, [], refl, refl))

-- The tables without page 4, and what maps it at the start of the heap.
taken : Pmm
unfolding tables pmm_alloc
taken = elim (pmm_alloc tables.pmm) [ none ↦ tables.pmm | some (page, pmm) ↦ pmm ]

mapped_tables : Vmm
unfolding tables
mapped_tables =
    elim (vmm_map (record tables { pmm = taken }) 0x1000 heap_start 0x4000
      (bit_or page_present page_write)) [ none ↦ tables | some t ↦ t ]

heap_init_lem_example :
    (h' : Heap) × (heap_init (record small_heap { brk = heap_start }) ≡ some h')
    × IsHeap h' (record { size = page_size - header_size; free = true } ∷ [])
    × (used heap_start (record { size = page_size - header_size; free = true } ∷ []) ≡ [])
    × (h'.vm ≡ mapped_tables)
    × (h'.brk ≡ heap_start + page_size)
unfolding pmm_alloc vmm_map tables taken mapped_tables
heap_init_lem_example =
    heap_init_lem (record small_heap { brk = heap_start }) 0x4000 taken mapped_tables refl found
      (omega arith) maps
  where
    found : pmm_alloc tables.pmm ≡ some (0x4000, taken)
    found = refl

    maps :
        vmm_map
          (record tables { pmm = taken })
          0x1000
          heap_start
          0x4000
          (bit_or page_present page_write)
        ≡ some mapped_tables
    maps = refl
