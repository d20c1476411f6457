-- ===== src/Mm/Heap/Init.antt =====
-- The heap of mm/heap.c at the start.
use mai_unix.Prelude.{ℕ, ◌+◌, ◌-◌, bit_or, ◌≡◌, refl, ◌≢◌, true, some, [], ◌∷◌, arith}
use mai_unix.Mm.Pmm.{page_size, Pmm, pmm_alloc}
use mai_unix.Mm.Vmm.{page_present, page_write, Vmm, vmm_map, vmm_get_kernel_directory}
use mai_unix.Mm.Heap.{
  heap_start, header_size, Heap, put_header, expand_loop, heap_expand, heap_init,
}
use mai_unix.Mm.Heap.Chain.{Block, header}
use mai_unix.Mm.Heap.Steps.{put_header-here}
use mai_unix.Mm.Heap.Used.{used, IsHeap}

-- `heap_init`, where there is a free page and it can be mapped at the start of the heap, maps it there
-- and sets up a heap that is tiled by one free block, the rest of the page behind its header, with
-- nothing handed out.
pub heap_init_lem :
    (h : Heap) (page : ℕ) (pmm : Pmm) (tables : Vmm)
    → h.brk ≡ heap_start
    → pmm_alloc h.vm.pmm ≡ some (page, pmm)
    → page ≢ 0
    → vmm_map
        (record h.vm { pmm = pmm })
        h.vm.kernel_dir
        heap_start
        page
        (bit_or page_present page_write)
      ≡ some tables
    → (h' : Heap) × (heap_init h ≡ some h')
      × IsHeap h' (record { size = page_size - header_size; free = true } ∷ [])
      × (used heap_start (record { size = page_size - header_size; free = true } ∷ []) ≡ [])
      × (h'.vm ≡ tables)
      × (h'.brk ≡ heap_start + page_size)
unfolding heap_init heap_expand expand_loop vmm_get_kernel_directory
heap_init_lem h page pmm tables start got there maps =
    let b : Block = record { size = page_size - header_size; free = true } in
    let h' : Heap = record h {
      vm = tables;
      brk = heap_start + page_size;
      head = heap_start;
      hdr = put_header h.hdr heap_start (header b 0 0);
    } in
    (
      h',
      rw start (rw got (rw maps refl)),
      record {
        head_first = refl;
        not_empty = omega arith;
        placed = record {
          linked = (put_header-here h.hdr heap_start _, tt);
          above_null = omega arith;
          below = omega arith;
        };
        to_brk = refl;
      },
      refl,
      refl,
      refl,
    )
