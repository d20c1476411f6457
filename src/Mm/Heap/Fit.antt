-- ===== src/Mm/Heap/Fit.antt =====
-- The walk of `kmalloc` of mm/heap.c along the list.
use mai_unix.Prelude.{
  ℕ, zero, suc, ◌+◌, ◌<◌, ◌≡◌, refl, ap, ◌∙◌, ◌⊎◌, inl, inr, Bool, true, false, ◌&&◌, some, List,
  [], ◌∷◌, ◌++◌, arith, leb, ◌==◌, Bool-cases, length,
}
use mai_unix.Mm.Heap.{header_size, Header, first_fit}
use mai_unix.Mm.Heap.Chain.{Block, extent, first_of, Linked}

-- No free block is large enough.
abbrev pub NoneFits : List Block → ℕ → Type 0
NoneFits [] size = Unit {0}
NoneFits (b ∷ bs) size = ((b.free && leb size b.size) ≡ false) × NoneFits bs size

-- The first block that fits.
pub record Fits (bs : List Block) (size : ℕ) : Type 0 where
  pub before : List Block
  pub block : Block
  pub behind : List Block
  pub parts : bs ≡ before ++ (block ∷ behind)
  pub is_first : NoneFits before size
  pub fits : (block.free && leb size block.size) ≡ true

abbrev fits_behind :
    (b : Block) (bs : List Block) (size : ℕ)
    → (b.free && leb size b.size) ≡ false
    → Fits bs size
    → Fits (b ∷ bs) size
fits_behind b bs size small f = record {
  before = b ∷ f.before;
  block = f.block;
  behind = f.behind;
  parts = ap (◌∷◌ b) f.parts;
  is_first = (small, f.is_first);
  fits = f.fits;
}

module _ (n : ℕ) (m : ℕ → Header) (cur size : ℕ) (there : (cur == 0) ≡ false) where
  first_fit_here :
      ((m cur).free && leb size (m cur).size) ≡ true → first_fit (suc n) m cur size ≡ some cur
  unfolding first_fit
  first_fit_here large = rw (first_fit, there) (rw (first_fit, large))

  first_fit_next :
      ((m cur).free && leb size (m cur).size) ≡ false
      → first_fit (suc n) m cur size ≡ first_fit n m (m cur).next size
  unfolding first_fit
  first_fit_next small = rw (first_fit, there) (rw (first_fit, small))

-- `first_fit` on a list shorter than its fuel gives the first block that fits, or NULL.
pub first_fit_lem :
    (fuel : ℕ) (m : ℕ → Header) (prev a : ℕ) (bs : List Block) (size : ℕ)
    → Linked m prev a bs 0
    → 0 < a
    → length bs < fuel
    → ((f : Fits bs size) × (first_fit fuel m (first_of a bs 0) size ≡ some (extent a f.before)))
      ⊎ (NoneFits bs size × (first_fit fuel m (first_of a bs 0) size ≡ some 0))
unfolding first_fit
first_fit_lem zero m prev a bs size l high enough = absurd (omega arith)
first_fit_lem (suc n) m prev a [] size l high enough = inr (tt, refl)
first_fit_lem (suc n) m prev a (b ∷ bs) size (h, l) high enough =
    let e = a + header_size + b.size in
    let there : (a == 0) ≡ false = ground arith in
    let fits : Header → Bool = λ k. k.free && leb size k.size in
    elim (Bool-cases (b.free && leb size b.size)) [
      | inl large ↦ inl (
        record { before = []; block = b; behind = bs; parts = refl; is_first = tt; fits = large },
        first_fit_here n m a size there (ap fits h ∙ large),
      )
      | inr small ↦ elim (first_fit_lem n m a e bs size l (omega arith) (omega arith)) [
        | inl (f, eq) ↦ inl (
          fits_behind b bs size small f,
          first_fit_next n m a size there (ap fits h ∙ small) ∙ rw h eq,
        )
        | inr (none_fits, eq) ↦
            inr ((small, none_fits), first_fit_next n m a size there (ap fits h ∙ small) ∙ rw h eq)
      ]
    ]
