-- ===== src/Drivers/Keyboard/Ring.antt =====
-- The ring of drivers/tty.c as a queue of at most 255 bytes.
use mai_unix.Prelude.{
  ℕ, zero, suc, ◌+◌, ◌-◌, ◌%◌, ◌<◌, ◌≡◌, refl, ap, ◌∙◌, ◌≢◌, ◌⊎◌, inl, inr, true, false, none, some,
  List, [], ◌∷◌, ◌++◌, arith, ltb, ◌==◌, if◌then◌else◌, Bool-cases, length, set, length-set, get_or,
  get_or-set,
}
use mai_unix.Drivers.Keyboard.{kb_buf_size, Keyboard, push, tty_getchar}

-- `n` bytes of the ring from place `i` on.
unfoldable pub read_from : List ℕ → ℕ → ℕ → List ℕ
read_from buf i zero = []
read_from buf i (suc n) = get_or buf (i % kb_buf_size) 0 ∷ read_from buf (i + 1) n

pub record IsRing (k : Keyboard) : Type 0 where
  pub size : length k.buf ≡ kb_buf_size
  pub head_in : k.head < kb_buf_size
  pub tail_in : k.tail < kb_buf_size

abbrev pub count : Keyboard → ℕ
count k = (k.head + kb_buf_size - k.tail) % kb_buf_size

-- What the ring holds, oldest first.
unfoldable pub pending : Keyboard → List ℕ
unfolding read_from
pending k = read_from k.buf k.tail (count k)

read_from-length : (buf : List ℕ) (i n : ℕ) → length (read_from buf i n) ≡ n
unfolding read_from
read_from-length buf i zero = refl
read_from-length buf i (suc n) = ap suc (read_from-length buf (i + 1) n)

read_from-snoc :
    (buf : List ℕ) (i n : ℕ)
    → read_from buf i (suc n) ≡ read_from buf i n ++ get_or buf ((i + n) % kb_buf_size) 0 ∷ []
unfolding read_from
read_from-snoc buf i zero = let at : i + 0 ≡ i = omega arith in rw at
read_from-snoc buf i (suc n) =
    let at : i + 1 + n ≡ i + suc n = omega arith in
    ap (◌∷◌ (get_or buf (i % kb_buf_size) 0)) (read_from-snoc buf (i + 1) n ∙ rw at)

-- A write elsewhere is not seen.
read_from-set :
    (buf : List ℕ) (h c i n : ℕ)
    → h < length buf
    → ((j : ℕ) → j < n → (i + j) % kb_buf_size ≢ h)
    → read_from (set buf h c) i n ≡ read_from buf i n
unfolding read_from
read_from-set buf h c i zero lt other = refl
read_from-set buf h c i (suc n) lt other =
    let here : get_or (set buf h c) (i % kb_buf_size) 0 ≡ get_or buf (i % kb_buf_size) 0 =
      ground (arith, get_or-set buf h (i % kb_buf_size) c 0 lt, other 0) in
    rw here (
      ap (◌∷◌ (get_or buf (i % kb_buf_size) 0)) (
        read_from-set buf h c (i + 1) n lt
          (λ j l e. other (suc j) (omega arith) (omega (arith, e)))))

-- Starts that are equal modulo the size of the array are the same.
read_from-wrap :
    (buf : List ℕ) (i j n : ℕ)
    → i % kb_buf_size ≡ j % kb_buf_size
    → read_from buf i n ≡ read_from buf j n
unfolding read_from
read_from-wrap buf i j zero e = refl
read_from-wrap buf i j (suc n) e = rw e (
    ap (◌∷◌ (get_or buf (j % kb_buf_size) 0))
      (read_from-wrap buf (i + 1) (j + 1) n (omega (arith, e))))

pending-length : (k : Keyboard) → length (pending k) ≡ count k
unfolding pending
pending-length k = read_from-length k.buf k.tail (count k)

-- The bytes behind a push that finds room.
pushed :
    (buf : List ℕ) (head tail c : ℕ)
    → length buf ≡ kb_buf_size
    → head < kb_buf_size
    → tail < kb_buf_size
    → (head + 1) % kb_buf_size ≢ tail
    → let n = (head + kb_buf_size - tail) % kb_buf_size in
      read_from (set buf head c) tail (suc n) ≡ read_from buf tail n ++ c ∷ []
pushed buf head tail c size h t room =
    let n = (head + kb_buf_size - tail) % kb_buf_size in
    let at : (tail + n) % kb_buf_size ≡ head = omega arith in
    let lt : head < length buf = omega (arith, size) in
    let new : get_or (set buf head c) head 0 ≡ c =
      ground (arith, get_or-set buf head head c 0 lt) in
    let old : read_from (set buf head c) tail n ≡ read_from buf tail n =
      read_from-set buf head c tail n lt (λ j l e. absurd (omega arith)) in
    read_from-snoc (set buf head c) tail n ∙ rw at (rw new (rw old))

pending_push :
    (k : Keyboard) (c : ℕ)
    → IsRing k
    → (k.head + 1) % kb_buf_size ≢ k.tail
    → pending (record k { buf = set k.buf k.head c; head = (k.head + 1) % kb_buf_size })
      ≡ pending k ++ c ∷ []
unfolding pending
pending_push k c r room =
    let more : ((k.head + 1) % kb_buf_size + kb_buf_size - k.tail) % kb_buf_size ≡ suc (count k) =
      omega (arith, r.head_in, r.tail_in) in
    ap (read_from (set k.buf k.head c) k.tail) more
    ∙ pushed k.buf k.head k.tail c r.size r.head_in r.tail_in room

pending_empty : (k : Keyboard) → k.tail < kb_buf_size → k.head ≡ k.tail → pending k ≡ []
unfolding pending read_from
pending_empty k lt e =
    let nothing : count k ≡ 0 = omega (arith, e, lt) in ap (read_from k.buf k.tail) nothing

pending_pop :
    (k : Keyboard)
    → IsRing k
    → k.head ≢ k.tail
    → pending k ≡ get_or k.buf k.tail 0 ∷ pending (record k { tail = (k.tail + 1) % kb_buf_size })
unfolding pending read_from
pending_pop k r apart =
    let less : count k ≡ suc ((k.head + kb_buf_size - (k.tail + 1) % kb_buf_size) % kb_buf_size) =
      omega (arith, r.head_in, r.tail_in) in
    let here : k.tail % kb_buf_size ≡ k.tail = omega (arith, r.tail_in) in
    ap (read_from k.buf k.tail) less
    ∙ rw here
        (ap (◌∷◌ (get_or k.buf k.tail 0)) (read_from-wrap k.buf (k.tail + 1) _ _ (omega arith)))

-- `push` of a byte adds it behind the others, or drops it if there are 255 already.
pub push_lem :
    (k : Keyboard) (c : ℕ)
    → IsRing k
    → IsRing (push k c)
      × (pending (push k c)
          ≡ (if ltb (length (pending k)) (kb_buf_size - 1) then pending k ++ c ∷ [] else pending k))
unfolding push
push_lem k c r = elim (Bool-cases ((k.head + 1) % kb_buf_size == k.tail)) [
  | inl full ↦
      let most : ltb (length (pending k)) (kb_buf_size - 1) ≡ false =
        ground (arith, pending-length k, r.tail_in, r.head_in) in
      rw full (r, rw most)
  | inr room ↦
      let less : ltb (length (pending k)) (kb_buf_size - 1) ≡ true =
        ground (arith, pending-length k, r.tail_in, r.head_in) in
      rw room (
        record {
          size = length-set k.buf k.head c ∙ r.size;
          head_in = omega arith;
          tail_in = r.tail_in;
        },
        rw less (pending_push k c r (ground arith)),
      )
]

-- `tty_getchar` takes the oldest byte, and waits exactly if there is none.
tty_getchar_lem :
    (k : Keyboard)
    → IsRing k
    → ((c : ℕ) × (k' : Keyboard) × (tty_getchar k ≡ some (c, k'))
        × IsRing k'
        × (pending k ≡ c ∷ pending k'))
      ⊎ ((tty_getchar k ≡ none) × (pending k ≡ []))
unfolding tty_getchar
tty_getchar_lem k r = elim (Bool-cases (k.head == k.tail)) [
  | inl none_left ↦ inr (rw none_left, pending_empty k r.tail_in (ground arith))
  | inr some_left ↦ inl (
    get_or k.buf k.tail 0,
    record k { tail = (k.tail + 1) % kb_buf_size },
    rw some_left,
    record { size = r.size; head_in = r.head_in; tail_in = omega arith },
    pending_pop k r (ground arith),
  )
]
