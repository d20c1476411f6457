-- ===== src/Libc/Alloc.antt =====
-- `malloc`, `free` and `realloc` of libc/libc.c, on the kernel's heap; `fuel` is that of its walks.
use mai_unix.Prelude.{ℕ, Option}
use mai_unix.Mm.Heap.{Heap, kmalloc, kfree, krealloc}

unfoldable pub malloc : ℕ → Heap → ℕ → Option (ℕ × Heap)
unfolding kmalloc
malloc fuel h size = kmalloc fuel h size

unfoldable pub free : Heap → ℕ → Heap
unfolding kfree
free h ptr = kfree h ptr

unfoldable pub realloc : ℕ → Heap → ℕ → ℕ → Option (ℕ × Heap)
unfolding krealloc
realloc fuel h ptr size = krealloc fuel h ptr size
