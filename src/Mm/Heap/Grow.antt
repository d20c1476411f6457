-- ===== src/Mm/Heap/Grow.antt =====
-- The heap of mm/heap.c with more memory at its end.
use mai_unix.Prelude.Words.{add32, sub32}
use mathlib.Core.List.{append_assoc, append-nil}
use mai_unix.Prelude.{
  ℕ, zero, suc, ◌+◌, ◌-◌, ◌*◌, ◌/◌, ◌^◌, ◌≤◌, ◌<◌, ◌≡◌, refl, sym, ap, ◌∙◌, subst, ◌≢◌, inl, inr,
  true, false, some, List, [], ◌∷◌, ◌++◌, arith, ◌==◌, length, length-append,
}
use mai_unix.Mm.Vmm.{Vmm, vmm_get_kernel_directory}
use mai_unix.Mm.Heap.{
  heap_start, header_size, Header, Heap, put_header, expand_loop, whole_pages, heap_expand,
  last_block, append_block, grow_heap,
}
use mai_unix.Mm.Heap.Chain.{
  Block, extent, last_of, header, Linked, extent-append, Linked-append, Linked-prefix, Linked-frame,
}
use mai_unix.Mm.Heap.Steps.{Placed, header_at, put_header-else, put_header-here}
use mai_unix.Mm.Heap.Used.{used, IsHeap, used-append}
use mai_unix.Mm.Heap.Join.{Joins, last_cases, last_of-snoc, coalesce-Joins}
use mai_unix.Mm.Pmm.{page_size}
use mai_unix.Mm.Vmm.{Vmm, vmm_get_kernel_directory}

module _ (n : ℕ) (m : ℕ → Header) (p : ℕ) where
  last_block_here : ((m p).next == 0) ≡ true → last_block (suc n) m p ≡ some p
  unfolding last_block
  last_block_here end = rw (last_block, end)

  last_block_next : ((m p).next == 0) ≡ false → last_block (suc n) m p ≡ last_block n m (m p).next
  unfolding last_block
  last_block_next more = rw (last_block, more)

last_block_lem :
    (fuel : ℕ) (m : ℕ → Header) (prev a : ℕ) (bs : List Block)
    → Linked m prev a bs 0
    → 0 < length bs
    → length bs ≤ fuel
    → last_block fuel m a ≡ some (last_of prev a bs)
last_block_lem fuel m prev a [] l some_block enough = absurd (omega arith)
last_block_lem zero m prev a (b ∷ bs) l some_block enough = absurd (omega arith)
last_block_lem (suc n) m prev a (b ∷ []) (h, l) some_block enough =
    last_block_here n m a (ap (λ (k : Header). k.next == 0) h)
last_block_lem (suc n) m prev a (b ∷ c ∷ bs) (h, l) some_block enough =
    let e = a + header_size + b.size in
    let differ : (e == 0) ≡ false = ground arith in
    last_block_next n m a (ap (λ (k : Header). k.next == 0) h ∙ differ)
    ∙ rw h (last_block_lem n m a e (c ∷ bs) l (omega arith) (omega arith))

-- The free block that `append_block` adds, before it is merged with the last one.
abbrev fresh : ℕ → Block
fresh size = record { size = size; free = true }

append_block-Joins :
    (m : ℕ → Header) (a : ℕ) (xs : List Block) (l : Block) (size : ℕ)
    → Placed m a (xs ++ (l ∷ []))
    → extent a (xs ++ (l ∷ [])) + header_size + size < 2 ^ 32
    → Joins a
        ((xs ++ (l ∷ [])) ++ (fresh size ∷ []))
        size
        (append_block m (extent a xs) (extent a (xs ++ (l ∷ []))) size)
unfolding append_block
append_block-Joins m a xs l size p fits =
    let bs = xs ++ (l ∷ []) in
    let s = extent a xs in
    let at = extent a bs in
    let (at_l, high, _) = header_at m a xs l [] p in
    let ends : at ≡ s + header_size + l.size = extent-append a xs (l ∷ []) in
    let new : Header = header (fresh size) 0 0 in
    let m' = put_header m at new in
    let m₁ = put_header m' s (record (m' s) { next = at }) in
    let m₂ = put_header m₁ at (record (m₁ at) { prev = s }) in
    let else : (x : ℕ) → x ≢ s → x ≢ at → m₂ x ≡ m x = λ x no no'.
      put_header-else m₁ at x _ no'
      ∙ put_header-else m' s x _ no
      ∙ put_header-else m at x new no' in
    let at_s : m₂ s ≡ header l at (last_of 0 a xs) =
      put_header-else m₁ at s _ (omega (arith, ends))
      ∙ put_header-here m' s _
      ∙ ap (λ (h : Header). record h { next = at })
          (put_header-else m at s new (omega (arith, ends)) ∙ at_l) in
    let at_new : m₂ at ≡ header (fresh size) 0 s =
      put_header-here m₁ at _
      ∙ ap (λ (h : Header). record h { prev = s })
          (put_header-else m' s at _ (omega (arith, ends)) ∙ put_header-here m at new) in
    let linked : Linked m₂ 0 a (xs ++ (l ∷ fresh size ∷ [])) 0 =
      Linked-append m₂ 0 a xs (l ∷ fresh size ∷ []) 0
        (Linked-frame m m₂ 0 a xs s (λ x lo hi. else x (omega arith) (omega (arith, ends)))
          (Linked-prefix m 0 a xs (l ∷ []) 0 p.linked))
        (
          at_s ∙ ap (λ (k : ℕ). header l k (last_of 0 a xs)) ends,
          (subst (λ (k : ℕ). m₂ k ≡ header (fresh size) 0 s) ends at_new, tt),
        ) in
    let list : xs ++ (l ∷ fresh size ∷ []) ≡ bs ++ (fresh size ∷ []) =
      sym (append_assoc xs (l ∷ []) (fresh size ∷ [])) in
    let placed : Placed m₂ a (bs ++ (fresh size ∷ [])) = record {
      linked = subst (λ (k : List Block). Linked m₂ 0 a k 0) list linked;
      above_null = p.above_null;
      below = omega (arith, extent-append a bs (fresh size ∷ []));
    } in
    coalesce-Joins m₂ a bs (fresh size) [] placed refl

-- What the kernel's page tables must allow for `grow_heap`: the pages behind the heap can be mapped, and
-- the heap stays below 4 GB.
pub record CanGrow (h : Heap) (size : ℕ) : Type 0 where
  pub tables : Vmm
  pub maps :
      expand_loop
        (whole_pages (size + header_size + page_size) / page_size)
        h.vm.kernel_dir
        h.brk
        h.vm
      ≡ some tables
  pub below : h.brk + size + 2 * page_size + header_size < 2 ^ 32

heap_expand_lem :
    (h : Heap) (size : ℕ) (c : CanGrow h size)
    → heap_expand h (add32 (add32 size header_size) page_size)
      ≡ some
          (record h { vm = c.tables; brk = h.brk + whole_pages (size + header_size + page_size) })
unfolding heap_expand vmm_get_kernel_directory
heap_expand_lem h size c =
    let n : add32 (add32 size header_size) page_size ≡ size + header_size + page_size =
      omega (arith, c.below) in
    let w = whole_pages (size + header_size + page_size) in
    let exact : add32 h.brk w ≡ h.brk + w = omega (arith, c.below) in rw n (rw c.maps (rw exact))

-- `grow_heap` adds a free block of the size asked for, and leaves the regions handed out as they are.
pub grow_heap_lem :
    (fuel : ℕ) (h : Heap) (bs : List Block) (size : ℕ)
    → IsHeap h bs
    → length bs ≤ fuel
    → (c : CanGrow h size)
    → (h' : Heap) × (cs : List Block) × (grow_heap fuel h size ≡ some h')
      × IsHeap h' cs
      × (used heap_start cs ≡ used heap_start bs)
      × (h'.bytes ≡ h.bytes)
      × (xs : List Block) × (b : Block) × (ys : List Block) × (cs ≡ xs ++ (b ∷ ys))
      × (b.free ≡ true)
      × (size ≤ b.size)
unfolding grow_heap
grow_heap_lem fuel h bs size g enough c = elim (last_cases bs) [
  | inl nothing ↦ absurd (omega (arith, g.not_empty, ap length nothing))
  | inr (xs, l, e) ↦
      let a = heap_start in
      let ws = xs ++ (l ∷ []) in
      let w = whole_pages (size + header_size + page_size) in
      let room : size + header_size + page_size ≤ w = omega (arith, c.below) in
      let few : w ≤ size + header_size + 2 * page_size = omega (arith, c.below) in
      let placed : Placed h.hdr a ws = subst (Placed h.hdr a) e g.placed in
      let brk : h.brk ≡ extent a ws = sym g.to_brk ∙ ap (extent a) e in
      let size' = w - header_size in
      let last : last_block fuel h.hdr h.head ≡ some (extent a xs) =
        ap (last_block fuel h.hdr) g.head_first
        ∙ last_block_lem fuel h.hdr 0 a bs g.placed.linked g.not_empty enough
        ∙ ap some (ap (last_of 0 a) e ∙ last_of-snoc 0 a xs l) in
      let new : sub32 (sub32 (h.brk + w) h.brk) header_size ≡ size' = omega (arith, c.below) in
      let j =
        subst
          (λ (k : ℕ).
            Joins a (ws ++ (fresh size' ∷ [])) size' (append_block h.hdr (extent a xs) k size'))
          (sym brk) (append_block-Joins h.hdr a xs l size' placed (omega (arith, c.below, brk))) in
      let h' = record h {
        vm = c.tables;
        brk = h.brk + w;
        hdr = append_block h.hdr (extent a xs) h.brk size';
      } in
      let end : extent a (ws ++ (fresh size' ∷ [])) ≡ h.brk + w =
        omega (arith, brk, extent-append a ws (fresh size' ∷ [])) in
      (
        h',
        j.before ++ (j.block ∷ j.behind),
        rw (heap_expand_lem h size c) (rw last (rw new)),
        record {
          head_first = g.head_first;
          not_empty = omega (arith, length-append j.before (j.block ∷ j.behind));
          placed = j.placed;
          to_brk = j.same_end ∙ end;
        },
        j.same_used
            ∙ used-append a ws (fresh size' ∷ [])
            ∙ append-nil (used a ws)
            ∙ ap (used a) (sym e),
        refl,
        j.before,
        j.block,
        j.behind,
        refl,
        j.block_free,
        omega (arith, j.large),
      )
]
