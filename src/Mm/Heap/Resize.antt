-- ===== src/Mm/Heap/Resize.antt =====
-- `krealloc` of mm/heap.c.
use mathlib.Core.List.{append_assoc}
use mai_unix.Mm.Heap.Steps.{Placed, header_at}
use mai_unix.Prelude.Words.{sub32}
use mai_unix.Prelude.{
  ℕ, zero, suc, ◌+◌, ◌-◌, ◌^◌, ◌≤◌, ◌<◌, ◌≡◌, refl, sym, ap, ◌∙◌, subst, ◌≢◌, ◌⊎◌, inl, inr, true,
  false, ◌&&◌, some, List, [], ◌∷◌, ◌++◌, arith, ℕ_discrete, ltb, leb, ◌==◌, if◌then◌else◌,
  Bool-cases,
}
use mai_unix.Mm.Heap.{
  heap_start, header_size, Header, Heap, align_size, kmalloc, kfree, copy_bytes, krealloc,
}
use mai_unix.Mm.Heap.Chain.{Block, extent}
use mai_unix.Mm.Heap.Free.{kfree_lem}
use mai_unix.Mm.Heap.Regions.{used-Apart}
use mai_unix.Mm.Heap.Used.{used, IsHeap, used_block}
use mai_unix.Mm.Heap.Alloc.{heap_fuel, Room, kmalloc_lem}
use mai_unix.Mm.Heap.Grow.{CanGrow}

-- The bytes behind a copy to a place that the source does not overlap.
copied :
    (n s d : ℕ) (m : ℕ → ℕ) (i : ℕ)
    → (s + n ≤ d) ⊎ (d + n ≤ s)
    → copy_bytes n s d m i ≡ (if leb d i && ltb i (d + n) then m (s + (i - d)) else m i)
unfolding copy_bytes
copied zero s d m i apart = ground arith
copied (suc n) s d m i apart =
    let m' = λ (a : ℕ). if a == d then m s else m a in
    let apart' : (s + 1 + n ≤ d + 1) ⊎ (d + 1 + n ≤ s + 1) = elim apart [
      | inl lo ↦ inl (omega arith)
      | inr hi ↦ inr (omega arith)
    ] in
    copied n (s + 1) (d + 1) m' i apart' ∙ elim (ℕ_discrete i d) [
      | yes e ↦
          let past : (leb (d + 1) i && ltb i (d + 1 + n)) ≡ false = ground arith in
          let inside : (leb d i && ltb i (d + suc n)) ≡ true = ground arith in
          let here : s + (i - d) ≡ s = omega arith in rw past (rw inside (rw here (ground arith)))
      | no ne ↦
          let range : (leb (d + 1) i && ltb i (d + 1 + n)) ≡ (leb d i && ltb i (d + suc n)) =
            ground arith in
          elim (Bool-cases (leb d i && ltb i (d + suc n))) [
            | inr out ↦ rw range (rw out (ground arith))
            | inl within ↦
                let low : d < i = ground arith in
                let high : i < d + suc n = ground arith in
                let from : s + 1 + (i - (d + 1)) ≡ s + (i - d) = omega arith in
                let other : s + (i - d) ≢ d = omega arith in
                rw range (rw within (rw from (ground arith)))
          ]
    ]

-- One list cut in two ways.
pub cut_twice :
    (xs ys l r : List (ℕ × ℕ)) (z : ℕ × ℕ)
    → xs ++ ys ≡ l ++ (z ∷ r)
    → ((m : List (ℕ × ℕ)) × (xs ≡ l ++ (z ∷ m)) × (r ≡ m ++ ys))
      ⊎ ((m : List (ℕ × ℕ)) × (l ≡ xs ++ m) × (ys ≡ m ++ (z ∷ r)))
cut_twice [] ys l r z eq = inr (l, refl, eq)
cut_twice (x ∷ xs) ys [] r z eq = inl (xs, cc, cc)
cut_twice (x ∷ xs) ys (w ∷ l) r z eq = elim (cut_twice xs ys l r z cc) [
  | inl (m, e, e') ↦ inl (m, cc, e')
  | inr (m, e, e') ↦ inr (m, cc, e')
]

-- The header in front of a region that is handed out.
region_header :
    (h : Heap) (bs : List Block) (l r : List (ℕ × ℕ)) (p n : ℕ)
    → IsHeap h bs
    → used heap_start bs ≡ l ++ ((p, n) ∷ r)
    → ((h.hdr (sub32 p header_size)).size ≡ n) × ((p == 0) ≡ false)
region_header h bs l r p n g eq =
    let o = used_block heap_start bs l r p n eq in
    let placed : Placed h.hdr heap_start (o.before ++ (o.block ∷ o.behind)) =
      subst (Placed h.hdr heap_start) o.parts g.placed in
    let (at, _, below) = header_at h.hdr heap_start o.before o.block o.behind placed in
    let address : sub32 p header_size ≡ extent heap_start o.before = omega (arith, o.address) in
    (
      ap (λ (k : ℕ). (h.hdr k).size) address ∙ ap (λ (k : Header). k.size) at ∙ o.size,
      ground (arith, o.address),
    )

kfree-bytes : (h : Heap) (p : ℕ) → (kfree h p).bytes ≡ h.bytes
unfolding kfree
kfree-bytes h p = ground arith

module _ (fuel : ℕ) (h : Heap) (ptr size : ℕ) where
  krealloc_stays :
      (ptr == 0) ≡ false
      → leb size (h.hdr (sub32 ptr header_size)).size ≡ true
      → krealloc fuel h ptr size ≡ some (ptr, h)
  unfolding krealloc
  krealloc_stays there large = rw there (rw large)

  krealloc_moves :
      (p : ℕ) (h' : Heap)
      → (ptr == 0) ≡ false
      → leb size (h.hdr (sub32 ptr header_size)).size ≡ false
      → kmalloc fuel h size ≡ some (p, h')
      → (p == 0) ≡ false
      → krealloc fuel h ptr size
        ≡ some (
          p,
          kfree
              (record h' {
                bytes = copy_bytes (h'.hdr (sub32 ptr header_size)).size ptr p h'.bytes;
              })
              ptr,
        )
  unfolding krealloc
  krealloc_moves p h' there small got new = rw there (rw small (rw got (rw new)))

-- The regions behind a move: the region at `p` is new, and one is gone.
pub record Moves (l r : List (ℕ × ℕ)) (size p : ℕ) (h' : Heap) : Type 0 where
  pub blocks : List Block
  pub still_heap : IsHeap h' blocks
  pub left : List (ℕ × ℕ)
  pub right : List (ℕ × ℕ)
  pub given : ℕ
  pub others : left ++ right ≡ l ++ r
  pub new : used heap_start blocks ≡ left ++ ((p, given) ∷ right)
  pub enough : size ≤ given

-- A region is given back while another stays.
give_back :
    (h : Heap) (bs : List Block) (xs ys l r : List (ℕ × ℕ)) (p k ptr n : ℕ)
    → IsHeap h bs
    → used heap_start bs ≡ xs ++ ((p, k) ∷ ys)
    → xs ++ ys ≡ l ++ ((ptr, n) ∷ r)
    → Moves l r k p (kfree h ptr)
      × ((ptr + n ≤ p) ⊎ (p + k ≤ ptr))
      × ((p == 0) ≡ false)
      × ((h.hdr (sub32 ptr header_size)).size ≡ n)
give_back h bs xs ys l r p k ptr n g eq cut = elim (cut_twice xs ys l r (ptr, n) cut) [
  | inl (m, e, e') ↦
      let whole : used heap_start bs ≡ l ++ ((ptr, n) ∷ (m ++ ((p, k) ∷ ys))) =
        eq
        ∙ ap (λ (t : List (ℕ × ℕ)). t ++ ((p, k) ∷ ys)) e
        ∙ append_assoc l ((ptr, n) ∷ m) ((p, k) ∷ ys) in
      let (cs, g', same) = kfree_lem h bs l (m ++ ((p, k) ∷ ys)) ptr n g whole in
      let (_, apart, _) = used-Apart h bs l m ys ptr n p k g whole in
      (
        record {
          blocks = cs;
          still_heap = g';
          left = l ++ m;
          right = ys;
          given = k;
          others = append_assoc l m ys ∙ ap (λ (t : List (ℕ × ℕ)). l ++ t) (sym e');
          new = same ∙ sym (append_assoc l m ((p, k) ∷ ys));
          enough = omega arith;
        },
        inl (omega arith),
        (region_header h bs xs ys p k g eq).1,
        (region_header h bs l (m ++ ((p, k) ∷ ys)) ptr n g whole).0,
      )
  | inr (m, e, e') ↦
      let front = xs ++ ((p, k) ∷ m) in
      let whole' : used heap_start bs ≡ xs ++ ((p, k) ∷ (m ++ ((ptr, n) ∷ r))) =
        eq ∙ ap (λ (t : List (ℕ × ℕ)). xs ++ ((p, k) ∷ t)) e' in
      let whole : used heap_start bs ≡ front ++ ((ptr, n) ∷ r) =
        whole' ∙ sym (append_assoc xs ((p, k) ∷ m) ((ptr, n) ∷ r)) in
      let (cs, g', same) = kfree_lem h bs front r ptr n g whole in
      let (_, apart, _) = used-Apart h bs xs m r p k ptr n g whole' in
      (
        record {
          blocks = cs;
          still_heap = g';
          left = xs;
          right = m ++ r;
          given = k;
          others = sym (append_assoc xs m r) ∙ ap (λ (t : List (ℕ × ℕ)). t ++ r) (sym e);
          new = same ∙ append_assoc xs ((p, k) ∷ m) r;
          enough = omega arith;
        },
        inr (omega arith),
        (region_header h bs xs ys p k g eq).1,
        (region_header h bs front r ptr n g whole).0,
      )
]

-- `krealloc` of a region that is handed out leaves it where it is if it is large enough. If not, and
-- if `kmalloc` has room for the new size, it gives a region of that size at least, which holds the
-- bytes of the old one; the old one is no longer handed out, all others are, and the heap stays
-- tiled by its blocks.
pub krealloc_lem :
    (fuel : ℕ) (h : Heap) (bs : List Block) (l r : List (ℕ × ℕ)) (ptr n size : ℕ)
    → IsHeap h bs
    → used heap_start bs ≡ l ++ ((ptr, n) ∷ r)
    → 0 < size
    → size ≤ 2 ^ 30
    → heap_fuel ≤ fuel
    → Room bs (align_size size) ⊎ CanGrow h (align_size size)
    → ((size ≤ n) × (krealloc fuel h ptr size ≡ some (ptr, h)))
      ⊎ ((p : ℕ) × (h' : Heap) × (krealloc fuel h ptr size ≡ some (p, h'))
          × ((i : ℕ) → i < n → h'.bytes (p + i) ≡ h.bytes (ptr + i))
          × (k : ℕ) × (size ≤ k)
          × Moves l r k p h')
krealloc_lem fuel h bs l r ptr n size g eq some_size small enough room =
    let (old, there) = region_header h bs l r ptr n g eq in
    elim (Bool-cases (leb size (h.hdr (sub32 ptr header_size)).size)) [
      | inl stays ↦ inl (ground arith, krealloc_stays fuel h ptr size there stays)
      | inr short ↦
          let less : n < size = ground arith in
          let (p, h', got, a) = kmalloc_lem fuel h bs size g some_size small enough room in
          let g' = a.still_heap in
          let h₂ = record h' {
            bytes = copy_bytes (h'.hdr (sub32 ptr header_size)).size ptr p h'.bytes;
          } in
          let g₂ : IsHeap h₂ a.blocks = record {
            head_first = g'.head_first;
            not_empty = g'.not_empty;
            placed = g'.placed;
            to_brk = g'.to_brk;
          } in
          let (moves, apart, new, held) =
            give_back h₂ a.blocks a.left a.right l r p a.given ptr n g₂ a.new (sym a.old ∙ eq) in
          inr (
            p,
            kfree h₂ ptr,
            krealloc_moves fuel h ptr size p h' there short got new,
            λ i lt.
                let at : ptr + (p + i - p) ≡ ptr + i = omega arith in
                let inside : (leb p (p + i) && ltb (p + i) (p + n)) ≡ true = ground arith in
                ap (λ (m : ℕ → ℕ). m (p + i)) (kfree-bytes h₂ ptr)
                ∙ ap (λ (k : ℕ). copy_bytes k ptr p h'.bytes (p + i)) held
                ∙ copied n ptr p h'.bytes (p + i) (fits apart (omega (arith, a.enough)))
                ∙ rw inside (rw at (ap (λ (m : ℕ → ℕ). m (ptr + i)) a.same_bytes)),
            a.given,
            omega (arith, a.enough),
            moves,
          )
    ]
  where
    fits : {p k n ptr : ℕ} → (ptr + n ≤ p) ⊎ (p + k ≤ ptr) → n ≤ k → (ptr + n ≤ p) ⊎ (p + n ≤ ptr)
    fits (inl lo) le = inl lo
    fits (inr hi) le = inr (omega arith)
