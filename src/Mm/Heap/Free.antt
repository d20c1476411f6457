-- ===== src/Mm/Heap/Free.antt =====
-- `kfree` of mm/heap.c on the regions that are handed out.
use mai_unix.Prelude.Words.{sub32}
use mai_unix.Prelude.{
  ℕ, ◌+◌, ◌≡◌, refl, sym, ap, ◌∙◌, subst, ◌≢◌, true, false, List, ◌∷◌, ◌++◌, arith, ◌==◌,
  length-append,
}
use mai_unix.Mm.Heap.{
  heap_start, heap_magic, header_size, Header, Heap, put_header, coalesce, kfree,
}
use mai_unix.Mm.Heap.Chain.{Block, extent, extent-append}
use mai_unix.Mm.Heap.Steps.{Placed, header_at, marked, mark-Placed}
use mai_unix.Mm.Heap.Used.{used, IsHeap, used-append, used-free, used_block}
use mai_unix.Mm.Heap.Join.{coalesce-Joins}

marked_same :
    (a : ℕ) (xs : List Block) (b : Block) (ys : List Block)
    → (used a (xs ++ (marked b true ∷ ys))
        ≡ used a xs ++ used (extent a xs + header_size + b.size) ys)
      × (extent a (xs ++ (marked b true ∷ ys)) ≡ extent a (xs ++ (b ∷ ys)))
marked_same a xs b ys = (
  used-append a xs (marked b true ∷ ys)
      ∙ ap (λ (l : List (ℕ × ℕ)). used a xs ++ l) (used-free (extent a xs) (marked b true) ys refl),
  extent-append a xs (marked b true ∷ ys) ∙ sym (extent-append a xs (b ∷ ys)),
)

kfree_at :
    (h : Heap) (p s : ℕ)
    → sub32 p header_size ≡ s
    → p ≢ 0
    → (h.hdr s).magic ≡ heap_magic
    → kfree h p
      ≡ record h { hdr = coalesce (put_header h.hdr s (record (h.hdr s) { free = true })) s }
unfolding kfree
kfree_at h p s at nonzero magic =
    let null : (p == 0) ≡ false = ground arith in
    let ours : ((h.hdr s).magic == heap_magic) ≡ true = ground arith in rw at (rw null (rw ours))

-- `kfree` of a region that is handed out takes that region out of the regions handed out, and no
-- other; the heap stays tiled by its blocks.
pub kfree_lem :
    (h : Heap) (bs : List Block) (l r : List (ℕ × ℕ)) (p n : ℕ)
    → IsHeap h bs
    → used heap_start bs ≡ l ++ ((p, n) ∷ r)
    → (bs' : List Block) × IsHeap (kfree h p) bs' × (used heap_start bs' ≡ l ++ r)
kfree_lem h bs l r p n g eq =
    let a = heap_start in
    let o = used_block a bs l r p n eq in
    let xs = o.before in
    let b = o.block in
    let ys = o.behind in
    let s = extent a xs in
    let placed : Placed h.hdr a (xs ++ (b ∷ ys)) = subst (Placed h.hdr a) o.parts g.placed in
    let (at_b, high, small) = header_at h.hdr a xs b ys placed in
    let address : sub32 p header_size ≡ s = omega (arith, o.address) in
    let nonzero : p ≢ 0 = omega (arith, o.address) in
    let m = put_header h.hdr s (record (h.hdr s) { free = true }) in
    let j =
      coalesce-Joins m a xs (marked b true) ys (mark-Placed h.hdr a xs b ys true placed) refl in
    let (same_used, same_end) = marked_same a xs b ys in
    let changed = kfree_at h p s address nonzero (ap (λ (k : Header). k.magic) at_b) in
    let bs' = j.before ++ (j.block ∷ j.behind) in
    (
      bs',
      rw changed (record {
        head_first = g.head_first;
        not_empty = omega (arith, length-append j.before (j.block ∷ j.behind));
        placed = j.placed;
        to_brk = j.same_end ∙ same_end ∙ ap (extent a) (sym o.parts) ∙ g.to_brk;
      }),
      j.same_used ∙ same_used ∙ cc (o.left, o.right),
    )
