-- ===== src/Mm/Heap/Join.antt =====
-- `coalesce` of mm/heap.c on the list of blocks: the regions handed out stay as they are.
use mathlib.Core.List.{append_assoc}
use mai_unix.Prelude.{
  ℕ, ◌+◌, ◌≤◌, max, ◌≡◌, refl, sym, ap, ◌∙◌, subst, ◌⊎◌, inl, inr, true, List, [], ◌∷◌, ◌++◌, arith,
  if◌then◌else◌, Bool-cases,
}
use mai_unix.Mm.Heap.{header_size, Header, absorb, is_free, coalesce}
use mai_unix.Mm.Heap.Chain.{Block, extent, first_of, last_of, header, extent-append, Linked-suffix}
use mai_unix.Mm.Heap.Steps.{Placed, header_at, merged, absorb-Placed}
use mai_unix.Mm.Heap.Used.{used, used-append, used-free}

-- Other headers, but the same regions and the same end, and a free block of `n` bytes or more.
pub record Joins (a : ℕ) (bs : List Block) (n : ℕ) (m' : ℕ → Header) : Type 0 where
  pub before : List Block
  pub block : Block
  pub behind : List Block
  pub placed : Placed m' a (before ++ (block ∷ behind))
  pub same_used : used a (before ++ (block ∷ behind)) ≡ used a bs
  pub same_end : extent a (before ++ (block ∷ behind)) ≡ extent a bs
  pub block_free : block.free ≡ true
  pub large : n ≤ block.size

-- Two free neighbours are one.
merged_same :
    (a : ℕ) (xs : List Block) (c b : Block) (ys : List Block)
    → c.free ≡ true
    → b.free ≡ true
    → (used a (xs ++ (merged c b ∷ ys)) ≡ used a (xs ++ (c ∷ b ∷ ys)))
      × (extent a (xs ++ (merged c b ∷ ys)) ≡ extent a (xs ++ (c ∷ b ∷ ys)))
merged_same a xs c b ys fc fb =
    let s = extent a xs in
    let t = s + header_size + c.size in
    let e = t + header_size + b.size in
    let same : s + header_size + (merged c b).size ≡ e = omega arith in
    (
      used-append a xs (merged c b ∷ ys)
          ∙ ap (λ (l : List (ℕ × ℕ)). used a xs ++ l)
              (used-free s (merged c b) ys fc
                ∙ ap (λ (k : ℕ). used k ys) same
                ∙ sym (used-free t b ys fb)
                ∙ sym (used-free s c (b ∷ ys) fc))
          ∙ sym (used-append a xs (c ∷ b ∷ ys)),
      extent-append a xs (merged c b ∷ ys)
          ∙ ap (λ (k : ℕ). extent k ys) same
          ∙ sym (extent-append a xs (c ∷ b ∷ ys)),
    )

absorb-Joins :
    (m : ℕ → Header) (a : ℕ) (xs : List Block) (c b : Block) (ys : List Block)
    → Placed m a (xs ++ (c ∷ b ∷ ys))
    → c.free ≡ true
    → b.free ≡ true
    → Joins a
        (xs ++ (c ∷ b ∷ ys))
        (max b.size c.size)
        (absorb m (extent a xs) (extent a xs + header_size + c.size))
absorb-Joins m a xs c b ys p fc fb = record {
  before = xs;
  block = merged c b;
  behind = ys;
  placed = absorb-Placed m a xs c b ys p;
  same_used = (merged_same a xs c b ys fc fb).0;
  same_end = (merged_same a xs c b ys fc fb).1;
  block_free = fc;
  large = omega arith;
}

Joins-via :
    (a : ℕ) (bs bs' : List Block) (n k : ℕ) (m : ℕ → Header)
    → used a bs' ≡ used a bs
    → extent a bs' ≡ extent a bs
    → k ≤ n
    → Joins a bs' n m
    → Joins a bs k m
Joins-via a bs bs' n k m u e le j = record {
  before = j.before;
  block = j.block;
  behind = j.behind;
  placed = j.placed;
  same_used = j.same_used ∙ u;
  same_end = j.same_end ∙ e;
  block_free = j.block_free;
  large = omega (arith, j.large);
}

module _ (m : ℕ → Header) (a : ℕ) (xs : List Block) (b : Block) (ys : List Block) where
  alone : Placed m a (xs ++ (b ∷ ys)) → b.free ≡ true → Joins a (xs ++ (b ∷ ys)) b.size m
  alone p f = record {
    before = xs;
    block = b;
    behind = ys;
    placed = p;
    same_used = refl;
    same_end = refl;
    block_free = f;
    large = omega arith;
  }

-- A list has no last element, or one.
pub last_cases :
    (xs : List Block) → (xs ≡ []) ⊎ ((ws : List Block) × (c : Block) × (xs ≡ ws ++ (c ∷ [])))
last_cases [] = inl refl
last_cases (x ∷ xs) = elim (last_cases xs) [
  | inl e ↦ inr ([], x, rw e)
  | inr (ws, c, e) ↦ inr (x ∷ ws, c, rw e)
]

pub last_of-snoc :
    (p a : ℕ) (ws : List Block) (c : Block) → last_of p a (ws ++ (c ∷ [])) ≡ extent a ws
last_of-snoc p a [] c = refl
last_of-snoc p a (w ∷ ws) c = last_of-snoc a (a + header_size + w.size) ws c

-- The second half of `coalesce`.
join_prev :
    (m : ℕ → Header) (a : ℕ) (xs : List Block) (b : Block) (ys : List Block)
    → Placed m a (xs ++ (b ∷ ys))
    → b.free ≡ true
    → Joins a (xs ++ (b ∷ ys)) b.size (
        if is_free m (m (extent a xs)).prev
        then absorb m (m (extent a xs)).prev (extent a xs)
        else m)
join_prev m a xs b ys p f = elim (last_cases xs) [
  | inl nothing ↦
      let at : (m (extent a xs)).prev ≡ 0 =
        ap (λ (h : Header). h.prev) (header_at m a xs b ys p).0 ∙ rw nothing in
      rw at (alone m a xs b ys p f)
  | inr (ws, c, e) ↦
      let at : (m (extent a xs)).prev ≡ extent a ws =
        ap (λ (h : Header). h.prev) (header_at m a xs b ys p).0 ∙ rw e (last_of-snoc 0 a ws c) in
      let list : xs ++ (b ∷ ys) ≡ ws ++ (c ∷ b ∷ ys) = rw e (append_assoc ws (c ∷ []) (b ∷ ys)) in
      let here : extent a xs ≡ extent a ws + header_size + c.size =
        rw e (extent-append a ws (c ∷ [])) in
      let p' : Placed m a (ws ++ (c ∷ b ∷ ys)) = subst (Placed m a) list p in
      let (at_c, high, _) = header_at m a ws c (b ∷ ys) p' in
      let test : is_free m (extent a ws) ≡ c.free = ground arith in
      elim (Bool-cases c.free) [
        | inr g ↦ rw at (rw (test ∙ g) (alone m a xs b ys p f))
        | inl g ↦ rw at (
            rw (test ∙ g) (
              Joins-via a (xs ++ (b ∷ ys)) (ws ++ (c ∷ b ∷ ys)) (max b.size c.size) b.size _
                (ap (used a) (sym list)) (ap (extent a) (sym list)) (omega arith)
                (subst
                  (λ (k : ℕ).
                    Joins a (ws ++ (c ∷ b ∷ ys)) (max b.size c.size) (absorb m (extent a ws) k))
                  (sym here) (absorb-Joins m a ws c b ys p' g f))))
      ]
]

-- `coalesce` of a free block of the heap merges it with its free neighbours: the regions handed out
-- and the end of the heap stay as they are.
pub coalesce-Joins :
    (m : ℕ → Header) (a : ℕ) (xs : List Block) (b : Block) (ys : List Block)
    → Placed m a (xs ++ (b ∷ ys))
    → b.free ≡ true
    → Joins a (xs ++ (b ∷ ys)) b.size (coalesce m (extent a xs))
unfolding coalesce
coalesce-Joins m a xs b [] p f =
    let at : (m (extent a xs)).next ≡ 0 = ap (λ (h : Header). h.next) (header_at m a xs b [] p).0 in
    rw at (join_prev m a xs b [] p f)
coalesce-Joins m a xs b (d ∷ ys) p f =
    let s = extent a xs in
    let t = s + header_size + b.size in
    let at : (m s).next ≡ t = ap (λ (h : Header). h.next) (header_at m a xs b (d ∷ ys) p).0 in
    let at_d : m t ≡ header d (first_of (t + header_size + d.size) ys 0) s =
      (Linked-suffix m 0 a xs (b ∷ d ∷ ys) 0 p.linked).1.0 in
    let (_, high, _) = header_at m a xs b (d ∷ ys) p in
    let test : is_free m t ≡ d.free = ground arith in
    elim (Bool-cases d.free) [
      | inr g ↦ rw at (rw (test ∙ g) (join_prev m a xs b (d ∷ ys) p f))
      | inl g ↦
          let (same_used, same_end) = merged_same a xs b d ys f g in
          let next =
            join_prev (absorb m s t) a xs (merged b d) ys (absorb-Placed m a xs b d ys p) f in
          rw at (
            rw (test ∙ g) (
              Joins-via a (xs ++ (b ∷ d ∷ ys)) (xs ++ (merged b d ∷ ys)) (merged b d).size b.size _
                same_used same_end (omega arith) next))
    ]
