-- ===== src/Mm/Heap/Chain.antt =====
-- The heap of mm/heap.c as a list of blocks: the headers stand one behind the other, and the
-- pointers of each lead to its neighbours.
use mai_unix.Prelude.{ℕ, ◌+◌, ◌≤◌, ◌<◌, ◌≡◌, refl, ◌∙◌, Bool, List, [], ◌∷◌, ◌++◌, arith}
use mai_unix.Mm.Heap.{heap_magic, header_size, Header}

pub record Block : Type 0 where
  pub size : ℕ
  pub free : Bool

-- Where the blocks from `a` on end.
abbrev pub extent : ℕ → List Block → ℕ
extent a [] = a
extent a (b ∷ bs) = extent (a + header_size + b.size) bs

-- The address of the first block, and of the last; of no block, the one given.
abbrev pub first_of : ℕ → List Block → ℕ → ℕ
first_of a [] nxt = nxt
first_of a (b ∷ bs) nxt = a

abbrev pub last_of : ℕ → ℕ → List Block → ℕ
last_of prev a [] = prev
last_of prev a (b ∷ bs) = last_of a (a + header_size + b.size) bs

abbrev pub header : Block → ℕ → ℕ → Header
header b nxt prev = record {
  magic = heap_magic;
  size = b.size;
  free = b.free;
  next = nxt;
  prev = prev;
}

-- The headers of the blocks from `a` on; `prev` stands before them, and `nxt` behind.
abbrev pub Linked : (ℕ → Header) → ℕ → ℕ → List Block → ℕ → Type 0
Linked m prev a [] nxt = Unit {0}
Linked m prev a (b ∷ bs) nxt =
    (m a ≡ header b (first_of (a + header_size + b.size) bs nxt) prev)
    × Linked m a (a + header_size + b.size) bs nxt

pub extent-append : (a : ℕ) (xs ys : List Block) → extent a (xs ++ ys) ≡ extent (extent a xs) ys
extent-append a [] ys = refl
extent-append a (x ∷ xs) ys = extent-append (a + header_size + x.size) xs ys

pub extent-le : (a : ℕ) (xs : List Block) → a ≤ extent a xs
extent-le a [] = omega arith
extent-le a (x ∷ xs) = omega (arith, extent-le (a + header_size + x.size) xs)

first_of-append :
    (a : ℕ) (xs ys : List Block) (nxt : ℕ)
    → first_of a (xs ++ ys) nxt ≡ first_of a xs (first_of (extent a xs) ys nxt)
first_of-append a [] ys nxt = refl
first_of-append a (x ∷ xs) ys nxt = refl

pub Linked-append :
    (m : ℕ → Header) (prev a : ℕ) (xs ys : List Block) (nxt : ℕ)
    → Linked m prev a xs (first_of (extent a xs) ys nxt)
    → Linked m (last_of prev a xs) (extent a xs) ys nxt
    → Linked m prev a (xs ++ ys) nxt
Linked-append m prev a [] ys nxt p q = q
Linked-append m prev a (x ∷ xs) ys nxt (h, p) q =
    let e = a + header_size + x.size in
    (h ∙ rw (first_of-append e xs ys nxt), Linked-append m a e xs ys nxt p q)

pub Linked-prefix :
    (m : ℕ → Header) (prev a : ℕ) (xs ys : List Block) (nxt : ℕ)
    → Linked m prev a (xs ++ ys) nxt
    → Linked m prev a xs (first_of (extent a xs) ys nxt)
Linked-prefix m prev a [] ys nxt l = tt
Linked-prefix m prev a (x ∷ xs) ys nxt (h, l) =
    let e = a + header_size + x.size in
    (h ∙ rw (first_of-append e xs ys nxt), Linked-prefix m a e xs ys nxt l)

pub Linked-suffix :
    (m : ℕ → Header) (prev a : ℕ) (xs ys : List Block) (nxt : ℕ)
    → Linked m prev a (xs ++ ys) nxt
    → Linked m (last_of prev a xs) (extent a xs) ys nxt
Linked-suffix m prev a [] ys nxt l = l
Linked-suffix m prev a (x ∷ xs) ys nxt (h, l) =
    Linked-suffix m a (a + header_size + x.size) xs ys nxt l

-- Headers that other addresses hold do not matter.
pub Linked-frame :
    (m m' : ℕ → Header) (prev a : ℕ) (bs : List Block) (nxt : ℕ)
    → ((x : ℕ) → a ≤ x → x < extent a bs → m' x ≡ m x)
    → Linked m prev a bs nxt
    → Linked m' prev a bs nxt
Linked-frame m m' prev a [] nxt same l = tt
Linked-frame m m' prev a (b ∷ bs) nxt same (h, l) =
    let e = a + header_size + b.size in
    let le = extent-le e bs in
    (
      same a (omega arith) (omega arith) ∙ h,
      Linked-frame m m' a e bs nxt (λ x lo hi. same x (omega arith) hi) l,
    )
