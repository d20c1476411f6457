-- ===== src/Mm/Heap/Alloc.antt =====
-- `kmalloc` of mm/heap.c on the regions that are handed out.
use mai_unix.Prelude.Faults.{◌>>=◌}
use mai_unix.Prelude.Words.{add32}
use mai_unix.Prelude.{
  ℕ, zero, suc, ◌+◌, ◌*◌, ◌^◌, ◌≤◌, ◌<◌, ◌≡◌, refl, sym, ap, ◌∙◌, subst, ◌⊎◌, inl, inr, true, false,
  ◌&&◌, some, List, [], ◌∷◌, ◌++◌, arith, leb, ◌==◌, length,
}
use mai_unix.Mm.Heap.{
  heap_start, header_size, Heap, first_fit, use_block, grow_heap, align_size, kmalloc,
}
use mai_unix.Mm.Heap.Chain.{Block, extent, first_of, extent-le}
use mai_unix.Mm.Heap.Steps.{Placed, header_at}
use mai_unix.Mm.Heap.Used.{used, IsHeap, used-append, used-free}
use mai_unix.Mm.Heap.Fit.{NoneFits, Fits, first_fit_lem}
use mai_unix.Mm.Heap.Hand.{use_block-Hands}
use mai_unix.Mm.Heap.Grow.{CanGrow, grow_heap_lem}

extent-length : (a : ℕ) (bs : List Block) → a + header_size * length bs ≤ extent a bs
extent-length a [] = omega arith
extent-length a (b ∷ bs) = omega (arith, extent-length (a + header_size + b.size) bs)

NoneFits-at :
    (xs : List Block) (b : Block) (ys : List Block) (size : ℕ)
    → NoneFits (xs ++ (b ∷ ys)) size
    → (b.free && leb size b.size) ≡ false
NoneFits-at [] b ys size (small, rest) = small
NoneFits-at (x ∷ xs) b ys size (small, rest) = NoneFits-at xs b ys size rest

-- A region of at least `size` bytes has been handed out at `p`, and no byte has been written.
pub record Allocates (memory : ℕ → ℕ) (regions : List (ℕ × ℕ)) (size p : ℕ) (h' : Heap)
    : Type 0 where
  pub blocks : List Block
  pub still_heap : IsHeap h' blocks
  pub left : List (ℕ × ℕ)
  pub right : List (ℕ × ℕ)
  pub given : ℕ
  pub old : regions ≡ left ++ right
  pub new : used heap_start blocks ≡ left ++ ((p, given) ∷ right)
  pub enough : size ≤ given
  pub same_bytes : h'.bytes ≡ memory

used_at :
    (bs : List Block) (size : ℕ) (f : Fits bs size)
    → used heap_start bs
      ≡ used heap_start f.before
        ++ used (extent heap_start f.before + header_size + f.block.size) f.behind
used_at bs size f =
    let s = extent heap_start f.before in
    let is_free : f.block.free ≡ true = ground arith in
    ap (used heap_start) f.parts
    ∙ used-append heap_start f.before (f.block ∷ f.behind)
    ∙ ap (λ (l : List (ℕ × ℕ)). used heap_start f.before ++ l)
        (used-free s f.block f.behind is_free)

hand_out :
    (h : Heap) (bs : List Block) (size : ℕ) (f : Fits bs size)
    → IsHeap h bs
    → size < 2 ^ 31
    → let s = extent heap_start f.before in
      Allocates h.bytes
        (used heap_start bs)
        size
        (add32 s header_size)
        (record h { hdr = use_block h.hdr s size })
hand_out h bs size f g small =
    let s = extent heap_start f.before in
    let placed : Placed h.hdr heap_start (f.before ++ (f.block ∷ f.behind)) =
      subst (Placed h.hdr heap_start) f.parts g.placed in
    let (_, _, below) = header_at h.hdr heap_start f.before f.block f.behind placed in
    let o =
      use_block-Hands h.hdr heap_start f.before f.block f.behind size placed (ground arith) small in
    let exact : add32 s header_size ≡ s + header_size = omega arith in
    record {
      blocks = o.blocks;
      still_heap = record {
        head_first = g.head_first;
        not_empty = o.not_empty;
        placed = o.placed;
        to_brk = o.same_end ∙ ap (extent heap_start) (sym f.parts) ∙ g.to_brk;
      };
      left = used heap_start f.before;
      right = used (s + header_size + f.block.size) f.behind;
      given = o.given;
      old = used_at bs size f;
      new = rw exact o.now_used;
      enough = o.enough;
      same_bytes = refl;
    }

module _ (n : ℕ) (h : Heap) (size : ℕ) (asked : (size == 0) ≡ false) where
  kmalloc_found :
      (cur : ℕ)
      → first_fit (suc n) h.hdr h.head (align_size size) ≡ some cur
      → (cur == 0) ≡ false
      → kmalloc (suc n) h size
        ≡ some (add32 cur header_size, record h { hdr = use_block h.hdr cur (align_size size) })
  unfolding kmalloc
  kmalloc_found cur eq there = rw (kmalloc, asked) (rw (eq, ◌>>=◌, there))

  kmalloc_grows :
      first_fit (suc n) h.hdr h.head (align_size size) ≡ some 0
      → (h' : Heap) → grow_heap (suc n) h (align_size size) ≡ some h'
      → kmalloc (suc n) h size ≡ kmalloc n h' (align_size size)
  unfolding kmalloc
  kmalloc_grows eq h' eq' = rw (kmalloc, asked) (rw (eq, ◌>>=◌, eq'))

-- Fuel for any heap below 4 GB.
abbrev pub heap_fuel : ℕ
heap_fuel = 2 ^ 28

-- A free block that is large enough.
abbrev pub Room : List Block → ℕ → Type 0
Room bs size =
    (xs : List Block) × (b : Block) × (ys : List Block) × (bs ≡ xs ++ (b ∷ ys))
    × ((b.free && leb size b.size) ≡ true)

first_of-head : (h : Heap) (bs : List Block) → IsHeap h bs → first_of heap_start bs 0 ≡ h.head
first_of-head h [] g = absurd (omega (arith, g.not_empty))
first_of-head h (b ∷ bs) g = sym g.head_first

kmalloc_fits :
    (n : ℕ) (h : Heap) (bs : List Block) (size : ℕ)
    → IsHeap h bs
    → 0 < size
    → size ≤ 2 ^ 30
    → length bs < suc n
    → Room bs (align_size size)
    → (p : ℕ) × (h' : Heap) × (kmalloc (suc n) h size ≡ some (p, h'))
      × Allocates h.bytes (used heap_start bs) (align_size size) p h'
kmalloc_fits n h bs size g some_size small enough (xs, b, ys, parts, fits) =
    let need = align_size size in
    let asked : (size == 0) ≡ false = ground arith in
    let start : first_of heap_start bs 0 ≡ h.head = first_of-head h bs g in
    elim (first_fit_lem (suc n) h.hdr 0 heap_start bs need g.placed.linked (omega arith) enough) [
      | inr (none_fits, _) ↦
          let unfit =
            NoneFits-at xs b ys need
              (subst (λ (k : List Block). NoneFits k need) parts none_fits) in
          absurd (cc (unfit, fits))
      | inl (f, eq) ↦
          let s = extent heap_start f.before in
          let there : (s == 0) ≡ false = ground (arith, extent-le heap_start f.before) in
          (
            add32 s header_size,
            record h { hdr = use_block h.hdr s need },
            kmalloc_found n h size asked s
                (ap (λ (k : ℕ). first_fit (suc n) h.hdr k need) (sym start) ∙ eq) there,
            hand_out h bs need f g (omega arith),
          )
    ]

-- `kmalloc` of up to 1 GB, on a heap with a free block that is large enough or with memory behind it
-- that can be mapped, returns a region of at least the size asked for. It is a new one among the
-- regions handed out, which all stay where they are, no byte is written, and the heap stays tiled by
-- its blocks.
pub kmalloc_lem :
    (fuel : ℕ) (h : Heap) (bs : List Block) (size : ℕ)
    → IsHeap h bs
    → 0 < size
    → size ≤ 2 ^ 30
    → heap_fuel ≤ fuel
    → Room bs (align_size size) ⊎ CanGrow h (align_size size)
    → (p : ℕ) × (h' : Heap) × (kmalloc fuel h size ≡ some (p, h'))
      × Allocates h.bytes (used heap_start bs) (align_size size) p h'
kmalloc_lem zero h bs size g some_size small enough room = absurd (omega arith)
kmalloc_lem (suc zero) h bs size g some_size small enough room = absurd (omega arith)
kmalloc_lem (suc (suc n)) h bs size g some_size small enough room =
    let need = align_size size in
    let short = extent-length heap_start bs in
    let fuel : length bs < suc n = omega (arith, short, g.placed.below) in
    elim room [
      | inl found ↦ kmalloc_fits (suc n) h bs size g some_size small (omega arith) found
      | inr c ↦
          elim (first_fit_lem (suc (suc n)) h.hdr 0 heap_start bs need g.placed.linked (omega arith)
            (omega arith)) [
              | inl (f, _) ↦
                  kmalloc_fits (suc n) h bs size g some_size small (omega arith)
                    (f.before, f.block, f.behind, f.parts, f.fits)
              | inr (none_fits, eq) ↦
                  let asked : (size == 0) ≡ false = ground arith in
                  let (h', cs, eq', g', same, same_bytes, xs, b, ys, parts, free, large) =
                    grow_heap_lem (suc (suc n)) h bs need g (omega arith) c in
                  let again : align_size need ≡ need = omega arith in
                  let longer = extent-length heap_start cs in
                  let (p, h'', got, a) =
                    kmalloc_fits n h' cs need g' (omega arith) (omega arith)
                      (omega (arith, longer, g'.placed.below)) (xs, b, ys, parts, ground arith) in
                  (
                    p,
                    h'',
                    kmalloc_grows (suc n) h size asked
                          (ap (λ (k : ℕ). first_fit (suc (suc n)) h.hdr k need)
                              (sym (first_of-head h bs g))
                            ∙ eq)
                          h' eq'
                        ∙ got,
                    subst (λ (k : ℕ). Allocates h.bytes (used heap_start bs) k p h'') again
                        (subst (λ (l : List (ℕ × ℕ)). Allocates h.bytes l (align_size need) p h'')
                          same
                          (subst
                            (λ (m : ℕ → ℕ).
                              Allocates m (used heap_start cs) (align_size need) p h'')
                            same_bytes a)),
                  )
            ]
    ]
