-- ===== src/Mm/Heap/Apart.antt =====
-- What `kmalloc` of mm/heap.c hands out, next to the regions that are in use.
use mai_unix.Prelude.{
  ℕ, ◌+◌, ◌^◌, ◌≤◌, ◌<◌, ◌≡◌, sym, ap, ◌∙◌, ◌⊎◌, inl, inr, some, List, ◌∷◌, ◌++◌, arith,
}
use mai_unix.Mm.Heap.{heap_start, header_size, Heap, align_size, kmalloc}
use mai_unix.Mm.Heap.Chain.{Block}
use mai_unix.Mm.Heap.Used.{used, IsHeap}
use mai_unix.Mm.Heap.Alloc.{heap_fuel, Room, kmalloc_lem}
use mai_unix.Mm.Heap.Grow.{CanGrow}
use mai_unix.Mm.Heap.Regions.{used-Apart}
use mai_unix.Mm.Heap.Resize.{cut_twice}
use mathlib.Core.List.{append_assoc}

-- The `size` bytes at `p` lie behind the first header of the heap and before its break, and outside
-- the region of `n` bytes at `q`.
abbrev pub Outside : Heap → ℕ → ℕ → ℕ → ℕ → Type 0
Outside h size p n q =
    (heap_start + header_size ≤ p) × (p + size ≤ h.brk) × ((q + n ≤ p) ⊎ (p + size ≤ q))

-- A region in use, and the new one.
apart_lem :
    (h : Heap) (bs : List Block) (xs ys l r : List (ℕ × ℕ)) (p k q n : ℕ)
    → IsHeap h bs
    → used heap_start bs ≡ xs ++ ((p, k) ∷ ys)
    → xs ++ ys ≡ l ++ ((q, n) ∷ r)
    → Outside h k p n q
apart_lem h bs xs ys l r p k q n g eq cut = elim (cut_twice xs ys l r (q, n) cut) [
  | inl (m, e, e') ↦
      let whole : used heap_start bs ≡ l ++ ((q, n) ∷ (m ++ ((p, k) ∷ ys))) =
        eq
        ∙ ap (λ (t : List (ℕ × ℕ)). t ++ ((p, k) ∷ ys)) e
        ∙ append_assoc l ((q, n) ∷ m) ((p, k) ∷ ys) in
      let (low, apart, high) = used-Apart h bs l m ys q n p k g whole in
      (omega arith, high, inl (omega arith))
  | inr (m, e, e') ↦
      let whole : used heap_start bs ≡ xs ++ ((p, k) ∷ (m ++ ((q, n) ∷ r))) =
        eq ∙ ap (λ (t : List (ℕ × ℕ)). xs ++ ((p, k) ∷ t)) e' in
      let (low, apart, high) = used-Apart h bs xs m r p k q n g whole in
      (low, omega arith, inr (omega arith))
]

smaller : (h : Heap) (size k p n q : ℕ) → size ≤ k → Outside h k p n q → Outside h size p n q
smaller h size k p n q le (low, high, inl before) = (low, omega arith, inl before)
smaller h size k p n q le (low, high, inr behind) = (low, omega arith, inr (omega arith))

-- `kmalloc`, with a free block for the size or room to grow, succeeds, and the bytes that it hands out
-- lie in the heap and overlap no region that was in use before.
pub kmalloc-Apart :
    (fuel : ℕ) (h : Heap) (bs : List Block) (l r : List (ℕ × ℕ)) (q n size : ℕ)
    → IsHeap h bs
    → used heap_start bs ≡ l ++ ((q, n) ∷ r)
    → 0 < size
    → size ≤ 2 ^ 30
    → heap_fuel ≤ fuel
    → Room bs (align_size size) ⊎ CanGrow h (align_size size)
    → (p : ℕ) × (h' : Heap) × (kmalloc fuel h size ≡ some (p, h')) × Outside h' size p n q
kmalloc-Apart fuel h bs l r q n size g eq some_size small enough room =
    let (p, h', got, a) = kmalloc_lem fuel h bs size g some_size small enough room in
    let least : size ≤ align_size size = omega arith in
    let apart =
      apart_lem h' a.blocks a.left a.right l r p a.given q n a.still_heap a.new (sym a.old ∙ eq) in
    (p, h', got, smaller h' size a.given p n q (omega (arith, a.enough)) apart)
