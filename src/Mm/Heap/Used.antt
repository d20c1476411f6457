-- ===== src/Mm/Heap/Used.antt =====
-- What the rest of the kernel sees of the heap of mm/heap.c: the regions that are handed out, in the
-- order of their addresses.
use mai_unix.Prelude.{
  ℕ, ◌+◌, ◌<◌, ◌≡◌, refl, sym, ap, ◌∙◌, inl, inr, true, false, List, [], ◌∷◌, ◌++◌, if◌then◌else◌,
  Bool-cases, length,
}
use mai_unix.Mm.Heap.{heap_start, header_size, Heap}
use mai_unix.Mm.Heap.Chain.{Block, extent}
use mai_unix.Mm.Heap.Steps.{Placed}

-- The regions of the used blocks, each with its size.
abbrev pub used : ℕ → List Block → List (ℕ × ℕ)
used a [] = []
used a (b ∷ bs) =
    let rest = used (a + header_size + b.size) bs in
    if b.free then rest else (a + header_size, b.size) ∷ rest

-- The heap `h` is tiled by the blocks `bs`, from its start to its break.
pub record IsHeap (h : Heap) (bs : List Block) : Type 0 where
  pub head_first : h.head ≡ heap_start
  pub not_empty : 0 < length bs
  pub placed : Placed h.hdr heap_start bs
  pub to_brk : extent heap_start bs ≡ h.brk

pub used-append :
    (a : ℕ) (xs ys : List Block) → used a (xs ++ ys) ≡ used a xs ++ used (extent a xs) ys
used-append a [] ys = refl
used-append a (x ∷ xs) ys =
    let step = used-append (a + header_size + x.size) xs ys in
    elim (Bool-cases x.free) [ inl f ↦ rw f (rw step) | inr f ↦ rw f (rw step) ]

module _ (a : ℕ) (b : Block) (bs : List Block) where
  pub used-free : b.free ≡ true → used a (b ∷ bs) ≡ used (a + header_size + b.size) bs
  used-free f = rw f

  pub used-taken :
      b.free ≡ false
      → used a (b ∷ bs) ≡ (a + header_size, b.size) ∷ used (a + header_size + b.size) bs
  used-taken f = rw f

-- The block of a region that is handed out.
pub record Holds (a : ℕ) (bs : List Block) (l : List (ℕ × ℕ)) (p n : ℕ) (r : List (ℕ × ℕ))
    : Type 0 where
  pub before : List Block
  pub block : Block
  pub behind : List Block
  pub parts : bs ≡ before ++ (block ∷ behind)
  pub taken : block.free ≡ false
  pub size : block.size ≡ n
  pub address : p ≡ extent a before + header_size
  pub left : used a before ≡ l
  pub right : used (extent a before + header_size + block.size) behind ≡ r

-- The same block, behind one more.
Holds-behind :
    (a : ℕ) (b : Block) (bs : List Block) (l l' : List (ℕ × ℕ)) (p n : ℕ) (r : List (ℕ × ℕ))
    (h : Holds (a + header_size + b.size) bs l p n r)
    → used a (b ∷ h.before) ≡ l'
    → Holds a (b ∷ bs) l' p n r
Holds-behind a b bs l l' p n r h left = record {
  before = b ∷ h.before;
  block = h.block;
  behind = h.behind;
  parts = ap (◌∷◌ b) h.parts;
  taken = h.taken;
  size = h.size;
  address = h.address;
  left = left;
  right = h.right;
}

pub used_block :
    (a : ℕ) (bs : List Block) (l r : List (ℕ × ℕ)) (p n : ℕ)
    → used a bs ≡ l ++ ((p, n) ∷ r)
    → Holds a bs l p n r
used_block a [] [] r p n eq = cc
used_block a [] (x ∷ l) r p n eq = cc
used_block a (b ∷ bs) [] r p n eq = elim (Bool-cases b.free) [
  | inl f ↦
      let h = used_block (a + header_size + b.size) bs [] r p n (sym (used-free a b bs f) ∙ eq) in
      Holds-behind a b bs [] [] p n r h (used-free a b h.before f ∙ h.left)
  | inr f ↦
      let same = sym (used-taken a b bs f) ∙ eq in
      record {
        before = [];
        block = b;
        behind = bs;
        parts = refl;
        taken = f;
        size = cc same;
        address = cc same;
        left = refl;
        right = cc same;
      }
]
used_block a (b ∷ bs) (x ∷ l) r p n eq = elim (Bool-cases b.free) [
  | inl f ↦
      let h =
        used_block (a + header_size + b.size) bs (x ∷ l) r p n (sym (used-free a b bs f) ∙ eq) in
      Holds-behind a b bs (x ∷ l) (x ∷ l) p n r h (used-free a b h.before f ∙ h.left)
  | inr f ↦
      let same = sym (used-taken a b bs f) ∙ eq in
      let h = used_block (a + header_size + b.size) bs l r p n (cc same) in
      Holds-behind a b bs l (x ∷ l) p n r h (
        used-taken a b h.before f
        ∙ ap (◌∷◌ (a + header_size, b.size)) h.left
        ∙ ap (λ (y : ℕ × ℕ). y ∷ l) (cc same))
]
