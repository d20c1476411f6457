-- ===== src/Mm.antt =====
-- Memory management (mm/): the page allocator, the page tables and the kernel heap.
pub mod Pmm
pub mod Vmm
pub mod Heap
