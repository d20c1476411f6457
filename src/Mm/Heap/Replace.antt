-- ===== src/Mm/Heap/Replace.antt =====
-- Changes in the middle of the list of blocks of mm/heap.c: the blocks before it keep their headers,
-- and the first behind it gets another `prev`.
use mai_unix.Prelude.{ℕ, ◌+◌, ◌<◌, ◌≡◌, refl, sym, ◌∙◌, subst, ◌≢◌, List, [], ◌∷◌, ◌++◌, arith}
use mai_unix.Mm.Heap.{header_size, Header, set_prev}
use mai_unix.Mm.Heap.Chain.{
  Block, extent, first_of, last_of, Linked, Linked-append, Linked-prefix, Linked-suffix,
  Linked-frame,
}

-- The blocks from `a` on, behind another block.
Linked-prev :
    (m m' : ℕ → Header) (p p' a : ℕ) (ys : List Block) (nxt : ℕ)
    → ((x : ℕ) → a < x → m' x ≡ m x)
    → ((y : Block) (zs : List Block) → ys ≡ y ∷ zs → m' a ≡ record (m a) { prev = p' })
    → Linked m p a ys nxt
    → Linked m' p' a ys nxt
Linked-prev m m' p p' a [] nxt same at l = tt
Linked-prev m m' p p' a (y ∷ ys) nxt same at (h, l) =
    let e = a + header_size + y.size in
    (at y ys refl ∙ rw h, Linked-frame m m' a e ys nxt (λ x lo hi. same x (omega arith)) l)

pub Linked-replace :
    (m m' : ℕ → Header) (prev a : ℕ) (xs : List Block) (c : Block) (ms : List Block) (d : Block)
    (ns ys : List Block) (nxt e : ℕ)
    → extent (extent a xs) (c ∷ ms) ≡ e
    → extent (extent a xs) (d ∷ ns) ≡ e
    → ((x : ℕ) → x < extent a xs → m' x ≡ m x)
    → ((x : ℕ) → e < x → m' x ≡ m x)
    → ((y : Block) (zs : List Block)
        → ys ≡ y ∷ zs
        → m' e ≡ record (m e) { prev = last_of (last_of prev a xs) (extent a xs) (d ∷ ns) })
    → Linked m' (last_of prev a xs) (extent a xs) (d ∷ ns) (first_of e ys nxt)
    → Linked m prev a (xs ++ ((c ∷ ms) ++ ys)) nxt
    → Linked m' prev a (xs ++ ((d ∷ ns) ++ ys)) nxt
Linked-replace m m' prev a xs c ms d ns ys nxt e ends ends' low high at new l =
    let s = extent a xs in
    let before = last_of prev a xs in
    let front : Linked m prev a xs s = Linked-prefix m prev a xs ((c ∷ ms) ++ ys) nxt l in
    let back : Linked m (last_of before s (c ∷ ms)) (extent s (c ∷ ms)) ys nxt =
      Linked-suffix m before s (c ∷ ms) ys nxt (Linked-suffix m prev a xs ((c ∷ ms) ++ ys) nxt l) in
    let back' : Linked m (last_of before s (c ∷ ms)) e ys nxt =
      subst (λ (k : ℕ). Linked m (last_of before s (c ∷ ms)) k ys nxt) ends back in
    let rest : Linked m' (last_of before s (d ∷ ns)) e ys nxt =
      Linked-prev m m' (last_of before s (c ∷ ms)) (last_of before s (d ∷ ns)) e ys nxt high at
        back' in
    let rest' : Linked m' (last_of before s (d ∷ ns)) (extent s (d ∷ ns)) ys nxt =
      subst (λ (k : ℕ). Linked m' (last_of before s (d ∷ ns)) k ys nxt) (sym ends') rest in
    Linked-append m' prev a xs ((d ∷ ns) ++ ys) nxt
      (Linked-frame m m' prev a xs s (λ x lo hi. low x hi) front)
      (Linked-append m' before s (d ∷ ns) ys nxt
        (subst (λ (k : ℕ). Linked m' before s (d ∷ ns) (first_of k ys nxt)) (sym ends') new) rest')

-- `set_prev` on what stands at `e`, if there is a block.
pub set_prev-else :
    (m : ℕ → Header) (e p x : ℕ) (ys : List Block) → x ≢ e → set_prev m (first_of e ys 0) p x ≡ m x
unfolding set_prev
set_prev-else m e p x [] ne = refl
set_prev-else m e p x (y ∷ ys) ne = ground arith

pub set_prev-here :
    (m : ℕ → Header) (e p : ℕ) (ys : List Block) (y : Block) (zs : List Block)
    → 0 < e
    → ys ≡ y ∷ zs
    → set_prev m (first_of e ys 0) p e ≡ record (m e) { prev = p }
unfolding set_prev
set_prev-here m e p [] y zs lt eq = cc
set_prev-here m e p (z ∷ ys) y zs lt eq = ground arith
