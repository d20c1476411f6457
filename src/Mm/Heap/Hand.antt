-- ===== src/Mm/Heap/Hand.antt =====
-- What `kmalloc` of mm/heap.c does with the block it has found.
use mai_unix.Prelude.Words.{add32}
use mai_unix.Prelude.{
  ℕ, ◌+◌, ◌^◌, ◌≤◌, ◌<◌, ◌≡◌, refl, sym, ap, ◌∙◌, inl, inr, true, false, List, ◌∷◌, ◌++◌, arith,
  leb, Bool-cases, length, length-append,
}
use mai_unix.Mm.Heap.{header_size, Header, put_header, split_block, use_block}
use mai_unix.Mm.Heap.Chain.{Block, extent, extent-append}
use mai_unix.Mm.Heap.Steps.{
  Placed, header_at, left_part, right_part, split_block-Placed, marked, mark-Placed,
}
use mai_unix.Mm.Heap.Used.{used, used-append, used-free, used-taken}

-- The block found, with its region handed out.
pub record Hands (a : ℕ) (xs : List Block) (b : Block) (ys : List Block) (size : ℕ)
    (m' : ℕ → Header) : Type 0 where
  pub blocks : List Block
  pub given : ℕ
  pub placed : Placed m' a blocks
  pub not_empty : 0 < length blocks
  pub now_used :
      used a blocks
      ≡ used a xs
        ++ ((extent a xs + header_size, given) ∷ used (extent a xs + header_size + b.size) ys)
  pub same_end : extent a blocks ≡ extent a (xs ++ (b ∷ ys))
  pub enough : size ≤ given

given_whole :
    (a : ℕ) (xs : List Block) (b : Block) (ys : List Block)
    → (used a (xs ++ (marked b false ∷ ys))
        ≡ used a xs
          ++ ((extent a xs + header_size, b.size) ∷ used (extent a xs + header_size + b.size) ys))
      × (extent a (xs ++ (marked b false ∷ ys)) ≡ extent a (xs ++ (b ∷ ys)))
given_whole a xs b ys = (
  used-append a xs (marked b false ∷ ys)
      ∙ ap (λ (l : List (ℕ × ℕ)). used a xs ++ l)
          (used-taken (extent a xs) (marked b false) ys refl),
  extent-append a xs (marked b false ∷ ys) ∙ sym (extent-append a xs (b ∷ ys)),
)

given_part :
    (a : ℕ) (xs : List Block) (b : Block) (ys : List Block) (size : ℕ)
    → size + header_size ≤ b.size
    → let bs = xs ++ (marked (left_part b size) false ∷ right_part b size ∷ ys) in
      (used a bs
        ≡ used a xs
          ++ ((extent a xs + header_size, size) ∷ used (extent a xs + header_size + b.size) ys))
      × (extent a bs ≡ extent a (xs ++ (b ∷ ys)))
given_part a xs b ys size fits =
    let s = extent a xs in
    let t = s + header_size + size in
    let l = left_part b size in
    let r = right_part b size in
    let ends : t + header_size + r.size ≡ s + header_size + b.size = omega arith in
    let (whole, _) = given_whole a xs l (r ∷ ys) in
    (
      whole
          ∙ ap (λ (k : List (ℕ × ℕ)). used a xs ++ ((s + header_size, size) ∷ k))
              (used-free t r ys refl ∙ ap (λ (k : ℕ). used k ys) ends),
      extent-append a xs (marked l false ∷ r ∷ ys)
          ∙ ap (λ (k : ℕ). extent k ys) ends
          ∙ sym (extent-append a xs (b ∷ ys)),
    )

module _ (m : ℕ → Header) (cur size : ℕ) where
  use_block-part :
      leb (add32 (add32 size header_size) 8) (m cur).size ≡ true
      → use_block m cur size
        ≡ put_header
            (split_block m cur size)
            cur
            (record (split_block m cur size cur) { free = false })
  unfolding use_block
  use_block-part large = rw large

  use_block-whole :
      leb (add32 (add32 size header_size) 8) (m cur).size ≡ false
      → use_block m cur size ≡ put_header m cur (record (m cur) { free = false })
  unfolding use_block
  use_block-whole small = rw small

-- A block that is large enough is handed out, whole or split.
pub use_block-Hands :
    (m : ℕ → Header) (a : ℕ) (xs : List Block) (b : Block) (ys : List Block) (size : ℕ)
    → Placed m a (xs ++ (b ∷ ys))
    → size ≤ b.size
    → size < 2 ^ 31
    → Hands a xs b ys size (use_block m (extent a xs) size)
use_block-Hands m a xs b ys size p fits small =
    let s = extent a xs in
    let at : (m s).size ≡ b.size = ap (λ (h : Header). h.size) (header_at m a xs b ys p).0 in
    elim (Bool-cases (leb (add32 (add32 size header_size) 8) (m s).size)) [
      | inl large ↦
          let l = left_part b size in
          let rest = right_part b size ∷ ys in
          let room : size + header_size ≤ b.size = ground arith in
          let (now_used, same_end) = given_part a xs b ys size room in
          let placed =
            mark-Placed (split_block m s size) a xs l rest false
              (split_block-Placed m a xs b ys size p room) in
          rw (use_block-part m s size large) (record {
            blocks = xs ++ (marked l false ∷ rest);
            given = size;
            placed = placed;
            not_empty = omega (arith, length-append xs (marked l false ∷ rest));
            now_used = now_used;
            same_end = same_end;
            enough = omega arith;
          })
      | inr few ↦
          let (now_used, same_end) = given_whole a xs b ys in
          rw (use_block-whole m s size few) (record {
            blocks = xs ++ (marked b false ∷ ys);
            given = b.size;
            placed = mark-Placed m a xs b ys false p;
            not_empty = omega (arith, length-append xs (marked b false ∷ ys));
            now_used = now_used;
            same_end = same_end;
            enough = fits;
          })
    ]
