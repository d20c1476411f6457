-- ===== src/Mm/Heap/Steps.antt =====
-- The steps of mm/heap.c on the list of blocks: two blocks become one, one becomes two, and a block
-- is taken or given back.
use mai_unix.Prelude.Words.{add32, sub32}
use mai_unix.Prelude.{
  ℕ, ◌+◌, ◌-◌, ◌^◌, ◌≤◌, ◌<◌, ◌≡◌, refl, sym, ap, ◌∙◌, ◌≢◌, Bool, true, List, [], ◌∷◌, ◌++◌, arith,
}
use mai_unix.Mm.Heap.{header_size, Header, put_header, set_prev, absorb, split_block}
use mai_unix.Mm.Heap.Chain.{
  Block, extent, first_of, last_of, header, Linked, extent-append, extent-le, Linked-suffix,
}
use mai_unix.Mm.Heap.Replace.{Linked-replace, set_prev-else, set_prev-here}

-- A list of blocks whose headers stand in memory from `a` on, below 4 GB.
pub record Placed (m : ℕ → Header) (a : ℕ) (bs : List Block) : Type 0 where
  pub linked : Linked m 0 a bs 0
  pub above_null : 0 < a
  pub below : extent a bs < 2 ^ 32

module _ (m : ℕ → Header) (a : ℕ) (xs : List Block) (b : Block) (ys : List Block) where
  -- The header of a block, and where it stands.
  pub header_at :
      Placed m a (xs ++ (b ∷ ys))
      → (m (extent a xs)
          ≡ header b (first_of (extent a xs + header_size + b.size) ys 0) (last_of 0 a xs))
        × (0 < extent a xs)
        × (extent a xs + header_size + b.size < 2 ^ 32)
  header_at p =
      let e = extent a xs + header_size + b.size in
      (
        (Linked-suffix m 0 a xs (b ∷ ys) 0 p.linked).0,
        omega (arith, extent-le a xs, p.above_null),
        omega (arith, extent-le e ys, extent-append a xs (b ∷ ys), p.below),
      )

-- New headers for some of the blocks, in the same place.
Placed-replace :
    (m m' : ℕ → Header) (a : ℕ) (xs : List Block) (c : Block) (ms : List Block) (d : Block)
    (ns ys : List Block) (e : ℕ)
    → extent (extent a xs) (c ∷ ms) ≡ e
    → extent (extent a xs) (d ∷ ns) ≡ e
    → ((x : ℕ) → x < extent a xs → m' x ≡ m x)
    → ((x : ℕ) → e < x → m' x ≡ m x)
    → ((y : Block) (zs : List Block)
        → ys ≡ y ∷ zs
        → m' e ≡ record (m e) { prev = last_of (last_of 0 a xs) (extent a xs) (d ∷ ns) })
    → Linked m' (last_of 0 a xs) (extent a xs) (d ∷ ns) (first_of e ys 0)
    → Placed m a (xs ++ ((c ∷ ms) ++ ys))
    → Placed m' a (xs ++ ((d ∷ ns) ++ ys))
Placed-replace m m' a xs c ms d ns ys e ends ends' low high at new p = record {
  linked = Linked-replace m m' 0 a xs c ms d ns ys 0 e ends ends' low high at new p.linked;
  above_null = p.above_null;
  below =
      let old = extent-append a xs ((c ∷ ms) ++ ys) ∙ extent-append (extent a xs) (c ∷ ms) ys in
      let next = extent-append a xs ((d ∷ ns) ++ ys) ∙ extent-append (extent a xs) (d ∷ ns) ys in
      let same : extent (extent (extent a xs) (d ∷ ns)) ys
          ≡ extent (extent (extent a xs) (c ∷ ms)) ys =
        ap (λ (k : ℕ). extent k ys) (ends' ∙ sym ends) in
      omega (arith, old, next, same, p.below);
}

pub put_header-else : (m : ℕ → Header) (p x : ℕ) (v : Header) → x ≢ p → put_header m p v x ≡ m x
put_header-else m p x v ne = ground arith

pub put_header-here : (m : ℕ → Header) (p : ℕ) (v : Header) → put_header m p v p ≡ v
put_header-here m p v = ground arith

-- What `absorb` makes of two neighbours.
abbrev pub merged : Block → Block → Block
merged c b = record { size = c.size + header_size + b.size; free = c.free }

pub absorb-Placed :
    (m : ℕ → Header) (a : ℕ) (xs : List Block) (c b : Block) (ys : List Block)
    → Placed m a (xs ++ (c ∷ b ∷ ys))
    → Placed
        (absorb m (extent a xs) (extent a xs + header_size + c.size))
        a
        (xs ++ (merged c b ∷ ys))
unfolding absorb
absorb-Placed m a xs c b ys p =
    let s = extent a xs in
    let t = s + header_size + c.size in
    let e = t + header_size + b.size in
    let (at_c, high, _) = header_at m a xs c (b ∷ ys) p in
    let (at_b, _) = (Linked-suffix m 0 a xs (c ∷ b ∷ ys) 0 p.linked).1 in
    let small : e < 2 ^ 32 =
      omega (arith, extent-le e ys, extent-append a xs (c ∷ b ∷ ys), p.below) in
    let same : s + header_size + (c.size + header_size + b.size) ≡ e = omega arith in
    let sum : add32 c.size (add32 header_size b.size) ≡ c.size + header_size + b.size =
      omega arith in
    let grown : Header = header (merged c b) (first_of e ys 0) (last_of 0 a xs) in
    let m₁ = put_header m s grown in
    let changed : absorb m s t ≡ set_prev m₁ (first_of e ys 0) s = rw (at_c, at_b, sum) in
    let m' = set_prev m₁ (first_of e ys 0) s in
    let at_s : m' s ≡ grown = set_prev-else m₁ e s s ys (omega arith) ∙ put_header-here m s grown in
    let else : (x : ℕ) → x ≢ s → x ≢ e → m' x ≡ m x =
      λ x no no'. set_prev-else m₁ e s x ys no' ∙ put_header-else m s x grown no in
    rw changed (
      Placed-replace m m' a xs c (b ∷ []) (merged c b) [] ys e refl same
        (λ x lt. else x (omega arith) (omega arith)) (λ x lt. else x (omega arith) (omega arith))
        (λ y zs eq.
          set_prev-here m₁ e s ys y zs (omega arith) eq
          ∙ ap (λ (h : Header). record h { prev = s }) (put_header-else m s e grown (omega arith)))
        (at_s, tt) p)

-- What `split_block` makes of a block.
abbrev pub left_part : Block → ℕ → Block
left_part b size = record { size = size; free = b.free }

abbrev pub right_part : Block → ℕ → Block
right_part b size = record { size = b.size - size - header_size; free = true }

pub split_block-Placed :
    (m : ℕ → Header) (a : ℕ) (xs : List Block) (b : Block) (ys : List Block) (size : ℕ)
    → Placed m a (xs ++ (b ∷ ys))
    → size + header_size ≤ b.size
    → Placed
        (split_block m (extent a xs) size)
        a
        (xs ++ (left_part b size ∷ right_part b size ∷ ys))
unfolding split_block
split_block-Placed m a xs b ys size p fits =
    let s = extent a xs in
    let at = s + header_size + size in
    let e = s + header_size + b.size in
    let (at_b, high, small) = header_at m a xs b ys p in
    let place : add32 (add32 s header_size) size ≡ at = omega arith in
    let left : sub32 (sub32 b.size size) header_size ≡ b.size - size - header_size = omega arith in
    let ends : at + header_size + (b.size - size - header_size) ≡ e = omega arith in
    let rest : Header = header (right_part b size) (first_of e ys 0) s in
    let m₁ = put_header m at rest in
    let m₂ = set_prev m₁ (first_of e ys 0) at in
    let m' = put_header m₂ s (record (m₂ s) { next = at; size = size }) in
    let changed : split_block m s size ≡ m' = rw (at_b, place, left) in
    let other : (x : ℕ) → x ≢ at → x ≢ e → m₂ x ≡ m x =
      λ x no no'. set_prev-else m₁ e at x ys no' ∙ put_header-else m at x rest no in
    let else : (x : ℕ) → x ≢ s → x ≢ at → x ≢ e → m' x ≡ m x =
      λ x no no' no''. put_header-else m₂ s x _ no ∙ other x no' no'' in
    let at_s : m' s ≡ header (left_part b size) at (last_of 0 a xs) =
      put_header-here m₂ s _
      ∙ ap (λ (h : Header). record h { next = at; size = size })
          (other s (omega arith) (omega arith) ∙ at_b) in
    let at_rest : m' at ≡ rest =
      put_header-else m₂ s at _ (omega arith)
      ∙ set_prev-else m₁ e at at ys (omega arith)
      ∙ put_header-here m at rest in
    rw changed (
      Placed-replace m m' a xs b [] (left_part b size) (right_part b size ∷ []) ys e refl ends
        (λ x lt. else x (omega arith) (omega arith) (omega arith))
        (λ x lt. else x (omega arith) (omega arith) (omega arith))
        (λ y zs eq.
          put_header-else m₂ s e _ (omega arith)
          ∙ set_prev-here m₁ e at ys y zs (omega arith) eq
          ∙ ap (λ (h : Header). record h { prev = at }) (put_header-else m at e rest (omega arith)))
        (at_s, (at_rest, tt)) p)

Linked-keeps :
    (m : ℕ → Header) (p e : ℕ) (ys : List Block) (y : Block) (zs : List Block)
    → ys ≡ y ∷ zs
    → Linked m p e ys 0
    → m e ≡ record (m e) { prev = p }
Linked-keeps m p e [] y zs eq l = cc
Linked-keeps m p e (x ∷ ys) y zs eq (h, _) = h ∙ sym (ap (λ (k : Header). record k { prev = p }) h)

-- A block taken, or given back.
abbrev pub marked : Block → Bool → Block
marked b f = record { size = b.size; free = f }

pub mark-Placed :
    (m : ℕ → Header) (a : ℕ) (xs : List Block) (b : Block) (ys : List Block) (f : Bool)
    → Placed m a (xs ++ (b ∷ ys))
    → Placed
        (put_header m (extent a xs) (record (m (extent a xs)) { free = f }))
        a
        (xs ++ (marked b f ∷ ys))
mark-Placed m a xs b ys f p =
    let s = extent a xs in
    let e = s + header_size + b.size in
    let (at_b, high, small) = header_at m a xs b ys p in
    let v : Header = record (m s) { free = f } in
    Placed-replace m (put_header m s v) a xs b [] (marked b f) [] ys e refl refl
      (λ x lt. put_header-else m s x v (omega arith))
      (λ x lt. put_header-else m s x v (omega arith))
      (λ y zs eq.
        put_header-else m s e v (omega arith)
        ∙ Linked-keeps m s e ys y zs eq (Linked-suffix m 0 a xs (b ∷ ys) 0 p.linked).1)
      (put_header-here m s v ∙ ap (λ (h : Header). record h { free = f }) at_b, tt) p
