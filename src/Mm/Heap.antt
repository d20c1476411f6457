-- ===== src/Mm/Heap.antt =====
-- The kernel heap of mm/heap.c. The block headers are a function from the address of a header to
-- the header, and the bytes of the blocks a function of their own; the `int` field `free`, which the
-- code sets to 0 or 1 and tests, is a Boolean. `none` is a fault while a page is mapped, or fuel
-- that is used up.
pub mod Chain
pub mod Replace
pub mod Steps
pub mod Used
pub mod Join
pub mod Free
pub mod Fit
pub mod Hand
pub mod Grow
pub mod Alloc
pub mod Regions
pub mod Init
pub mod Resize
pub mod Apart
mod Tests
use mai_unix.Prelude.Faults.{◌>>=◌}
use mai_unix.Prelude.Words.{add32, sub32, align_down}
use mai_unix.Prelude.{
  ℕ, zero, suc, ◌+◌, ◌-◌, ◌/◌, ◌^◌, bit_and, bit_or, Bool, true, false, not, ◌&&◌, Option, none,
  some, leb, ◌==◌, if◌then◌else◌,
}
use mai_unix.Mm.Pmm.{page_size, pmm_alloc}
use mai_unix.Mm.Vmm.{page_present, page_write, Vmm, vmm_map, vmm_get_kernel_directory}

abbrev pub heap_start : ℕ
heap_start = 0x0100_0000

abbrev pub heap_magic : ℕ
heap_magic = 0xcafe_babe

-- `sizeof(block_header_t)`, five words.
abbrev pub header_size : ℕ
header_size = 20

pub record Header : Type 0 where
  pub magic : ℕ
  pub size : ℕ
  pub free : Bool
  pub next : ℕ
  pub prev : ℕ

-- The page tables, the memory of the heap, and the static variables of mm/heap.c.
pub record Heap : Type 0 where
  pub vm : Vmm
  pub hdr : ℕ → Header
  pub bytes : ℕ → ℕ
  pub head : ℕ
  pub brk : ℕ

-- `*p = v`
abbrev pub put_header : (ℕ → Header) → ℕ → Header → ℕ → Header
put_header m p v a = if a == p then v else m a

-- The loop of `heap_expand`, with `n` pages left from `virt`. The NULL of a full memory is mapped
-- unchecked, as page 0.
unfoldable pub expand_loop : ℕ → ℕ → ℕ → Vmm → Option Vmm
expand_loop zero kd virt vm = some vm
expand_loop (suc n) kd virt vm = pmm_alloc vm.pmm >>= λ (page, pmm).
    vmm_map (record vm { pmm = pmm }) kd virt page (bit_or page_present page_write) >>= λ vm'.
    expand_loop n kd (add32 virt page_size) vm'

-- `(bytes + PAGE_SIZE - 1) & ~(PAGE_SIZE - 1)`
abbrev pub whole_pages : ℕ → ℕ
whole_pages bytes = align_down (sub32 (add32 bytes page_size) 1) 12

unfoldable pub heap_expand : Heap → ℕ → Option Heap
unfolding expand_loop vmm_get_kernel_directory
heap_expand h n = do
  vm ← expand_loop (whole_pages n / page_size) (vmm_get_kernel_directory h.vm) h.brk h.vm
  some (record h { vm = vm; brk = add32 h.brk (whole_pages n) })

unfoldable pub heap_init : Heap → Option Heap
unfolding heap_expand
heap_init h = do
  h' ← heap_expand h page_size
  some (record h' {
    head = heap_start;
    hdr = put_header h'.hdr heap_start (record {
      magic = heap_magic;
      size = page_size - header_size;
      free = true;
      next = 0;
      prev = 0;
    });
  })

-- `n->prev = p`, where there is a block at `n`.
unfoldable pub set_prev : (ℕ → Header) → ℕ → ℕ → ℕ → Header
set_prev m n p = if n == 0 then m else put_header m n (record (m n) { prev = p })

-- Block `c` takes in block `b` behind it: what both halves of `coalesce` do.
unfoldable pub absorb : (ℕ → Header) → ℕ → ℕ → ℕ → Header
unfolding set_prev
absorb m c b =
    let grown = record (m c) {
      size = add32 (m c).size (add32 header_size (m b).size);
      next = (m b).next;
    } in
    set_prev (put_header m c grown) (m b).next c

-- The test of `coalesce` on a neighbour.
abbrev pub is_free : (ℕ → Header) → ℕ → Bool
is_free m p = not (p == 0) && (m p).free

unfoldable pub coalesce : (ℕ → Header) → ℕ → ℕ → Header
unfolding absorb
coalesce m b =
    let m₁ = if is_free m (m b).next then absorb m b (m b).next else m in
    if is_free m₁ (m₁ b).prev then absorb m₁ (m₁ b).prev b else m₁

-- The walk of `kmalloc` along the list: the first free block that is large enough, or NULL.
unfoldable pub first_fit : ℕ → (ℕ → Header) → ℕ → ℕ → Option ℕ
first_fit zero m cur size = none
first_fit (suc n) m cur size = elim (cur == 0) [
  | true ↦ some 0
  | false ↦ elim ((m cur).free && leb size (m cur).size) [
    | true ↦ some cur
    | false ↦ first_fit n m (m cur).next size
  ]
]

-- The block behind the `size` bytes of `cur`.
unfoldable pub split_block : (ℕ → Header) → ℕ → ℕ → ℕ → Header
unfolding set_prev
split_block m cur size =
    let at = add32 (add32 cur header_size) size in
    let rest : Header = record {
      magic = heap_magic;
      size = sub32 (sub32 (m cur).size size) header_size;
      free = true;
      next = (m cur).next;
      prev = cur;
    } in
    let m' = set_prev (put_header m at rest) (m cur).next at in
    put_header m' cur (record (m' cur) { next = at; size = size })

-- What `kmalloc` does with the block it has found.
unfoldable pub use_block : (ℕ → Header) → ℕ → ℕ → ℕ → Header
unfolding split_block
use_block m cur size =
    let m' =
      if leb (add32 (add32 size header_size) 8) (m cur).size then split_block m cur size else m in
    put_header m' cur (record (m' cur) { free = false })

-- `while (last->next) last = last->next`
unfoldable pub last_block : ℕ → (ℕ → Header) → ℕ → Option ℕ
last_block zero m p = none
last_block (suc n) m p = elim ((m p).next == 0) [
  | true ↦ some p
  | false ↦ last_block n m (m p).next
]

-- The new block at the end of the heap, behind the block `last`.
unfoldable pub append_block : (ℕ → Header) → ℕ → ℕ → ℕ → ℕ → Header
unfolding coalesce
append_block m last at size =
    let m' =
      put_header m at
        (record { magic = heap_magic; size = size; free = true; next = 0; prev = 0 }) in
    let m₁ = put_header m' last (record (m' last) { next = at }) in
    coalesce (put_header m₁ at (record (m₁ at) { prev = last })) at

-- The end of `kmalloc`, but for its last call.
unfoldable pub grow_heap : ℕ → Heap → ℕ → Option Heap
unfolding heap_expand last_block append_block
grow_heap fuel h size = do
  h' ← heap_expand h (add32 (add32 size header_size) page_size)
  last ← last_block fuel h'.hdr h'.head
  some (record h' { hdr = append_block h'.hdr last h.brk (sub32 (sub32 h'.brk h.brk) header_size) })

-- `(size + 7) & ~7`
abbrev pub align_size : ℕ → ℕ
align_size size = align_down (add32 size 7) 3

unfoldable pub kmalloc : ℕ → Heap → ℕ → Option (ℕ × Heap)
unfolding first_fit use_block grow_heap
kmalloc zero h size = none
kmalloc (suc n) h size = elim (size == 0) [
  | true ↦ some (0, h)
  | false ↦
      let need = align_size size in
      (first_fit (suc n) h.hdr h.head need >>= λ cur. elim (cur == 0) [
        | false ↦ some (add32 cur header_size, record h { hdr = use_block h.hdr cur need })
        | true ↦ grow_heap (suc n) h need >>= λ h'. kmalloc n h' need
      ])
]

-- `align` is taken to be a power of two.
unfoldable pub kmalloc_aligned : ℕ → Heap → ℕ → ℕ → Option (ℕ × Heap)
unfolding kmalloc
kmalloc_aligned fuel h size align = do
  (ptr, h') ← kmalloc fuel h (add32 size align)
  some (bit_and (sub32 (add32 ptr align) 1) (2 ^ 32 - 1 - sub32 align 1), h')

unfoldable pub kfree : Heap → ℕ → Heap
unfolding coalesce
kfree h ptr =
    let b = sub32 ptr header_size in
    if ptr == 0
    then h
    else if not ((h.hdr b).magic == heap_magic)
    then h
    else record h { hdr = coalesce (put_header h.hdr b (record (h.hdr b) { free = true })) b }

-- The loop of `krealloc`, with `n` bytes left.
unfoldable pub copy_bytes : ℕ → ℕ → ℕ → (ℕ → ℕ) → ℕ → ℕ
copy_bytes zero s d m = m
copy_bytes (suc n) s d m = copy_bytes n (s + 1) (d + 1) (λ a. if a == d then m s else m a)

unfoldable pub krealloc : ℕ → Heap → ℕ → ℕ → Option (ℕ × Heap)
unfolding kmalloc copy_bytes kfree
krealloc fuel h ptr new_size =
    if ptr == 0
    then kmalloc fuel h new_size
    else if leb new_size (h.hdr (sub32 ptr header_size)).size
    then some (ptr, h)
    else (kmalloc fuel h new_size >>= λ r.
        let (newp, h') = r in
        if newp == 0
        then some (0, h')
        else some (
          newp,
          kfree
              (record h' {
                bytes = copy_bytes (h'.hdr (sub32 ptr header_size)).size ptr newp h'.bytes;
              })
              ptr,
        ))
