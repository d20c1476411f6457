-- ===== src/Mm/Heap/Regions.antt =====
-- The regions that mm/heap.c hands out do not overlap, and come back.
use mai_unix.Prelude.{ℕ, ◌+◌, ◌^◌, ◌≤◌, ◌<◌, ◌≡◌, sym, ap, ◌∙◌, ◌⊎◌, some, List, ◌∷◌, ◌++◌, arith}
use mai_unix.Mm.Heap.{heap_start, header_size, Heap, align_size, kmalloc, kfree}
use mai_unix.Mm.Heap.Chain.{Block, extent, extent-append, extent-le}
use mai_unix.Mm.Heap.Used.{used, IsHeap, used_block}
use mai_unix.Mm.Heap.Alloc.{heap_fuel, Room, kmalloc_lem}
use mai_unix.Mm.Heap.Free.{kfree_lem}
use mai_unix.Mm.Heap.Grow.{CanGrow}

-- Of two regions that the heap has handed out, the second begins behind the first, with its header
-- between them, and ends before the break.
pub used-Apart :
    (h : Heap) (bs : List Block) (l r t : List (ℕ × ℕ)) (p n q k : ℕ)
    → IsHeap h bs
    → used heap_start bs ≡ l ++ ((p, n) ∷ (r ++ ((q, k) ∷ t)))
    → (heap_start + header_size ≤ p) × (p + n + header_size ≤ q) × (q + k ≤ h.brk)
used-Apart h bs l r t p n q k g eq =
    let a = heap_start in
    let o = used_block a bs l (r ++ ((q, k) ∷ t)) p n eq in
    let e = extent a o.before + header_size + o.block.size in
    let o' = used_block e o.behind r t q k o.right in
    let e' = extent e o'.before + header_size + o'.block.size in
    let end : extent a bs ≡ extent e' o'.behind =
      ap (extent a) o.parts
      ∙ extent-append a o.before (o.block ∷ o.behind)
      ∙ ap (extent e) o'.parts
      ∙ extent-append e o'.before (o'.block ∷ o'.behind) in
    (
      omega (arith, o.address, extent-le a o.before),
      omega (arith, o.address, o.size, o'.address, extent-le e o'.before),
      omega (arith, o'.address, o'.size, extent-le e' o'.behind, end, g.to_brk),
    )

-- What `kmalloc` hands out, `kfree` takes back: the regions handed out are those from before, and
-- the heap is tiled by its blocks.
pub kfree-kmalloc :
    (fuel : ℕ) (h : Heap) (bs : List Block) (size : ℕ)
    → IsHeap h bs
    → 0 < size
    → size ≤ 2 ^ 30
    → heap_fuel ≤ fuel
    → Room bs (align_size size) ⊎ CanGrow h (align_size size)
    → (p : ℕ) × (h' : Heap) × (kmalloc fuel h size ≡ some (p, h'))
      × (cs : List Block) × IsHeap (kfree h' p) cs
      × (used heap_start cs ≡ used heap_start bs)
kfree-kmalloc fuel h bs size g some_size small enough room =
    let (p, h', got, a) = kmalloc_lem fuel h bs size g some_size small enough room in
    let (cs, g', same) = kfree_lem h' a.blocks a.left a.right p a.given a.still_heap a.new in
    (p, h', got, cs, g', same ∙ sym a.old)
