-- ===== src/Fs/Ramfs/Bytes.antt =====
-- Reading and writing the memory of a file in fs/ramfs.c.
use mai_unix.Prelude.{
  ℕ, zero, suc, ◌+◌, ◌-◌, ◌≤◌, ◌<◌, ◌≡◌, refl, sym, ap, ◌∙◌, ◌&&◌, some, List, ◌++◌, arith, ltb,
  leb, if◌then◌else◌, length, length-append, get_or, take, drop, length-take, length-drop,
  get_or-append, get_or-take, get_or-drop, take-append_exact, drop-append_exact,
}
use mai_unix.Fs.Ramfs.{read_bytes, write_bytes, junk_from, grow}

abbrev pub byte_at : List ℕ → ℕ → ℕ
byte_at content i = get_or content i 0

-- A read inside the buffer returns as many bytes as asked, those of the buffer from `off` on.
pub read_bytes_lem :
    (content : List ℕ) (off n : ℕ)
    → off + n ≤ length content
    → (bytes : List ℕ) × (read_bytes content off n ≡ some bytes)
      × (length bytes ≡ n)
      × ((i : ℕ) → i < n → byte_at bytes i ≡ byte_at content (off + i))
unfolding read_bytes
read_bytes_lem content off n h = (
  take n (drop off content),
  ground arith,
  omega (arith, length-take n (drop off content), length-drop off content),
  λ i lt. get_or-take n (drop off content) i 0 lt ∙ get_or-drop off content i 0,
)

-- `after` is `before` with `bytes` written from `off` on.
pub record Overwritten (before : List ℕ) (off : ℕ) (bytes after : List ℕ) : Type 0 where
  pub same_length : length after ≡ length before
  pub bytes_at :
      (i : ℕ)
      → byte_at after i ≡ (
          if leb off i && ltb i (off + length bytes)
          then byte_at bytes (i - off)
          else byte_at before i)

pub write_bytes_lem :
    (content : List ℕ) (off : ℕ) (bytes : List ℕ)
    → off + length bytes ≤ length content
    → (after : List ℕ) × (write_bytes content off bytes ≡ some after)
      × Overwritten content off bytes after
      × (read_bytes after off (length bytes) ≡ some bytes)
unfolding write_bytes read_bytes
write_bytes_lem content off bytes h =
    let front = take off content in
    let back = drop (off + length bytes) content in
    let front_long : length front ≡ off = omega (arith, length-take off content) in
    let back_long = length-drop (off + length bytes) content in
    let total : length (front ++ (bytes ++ back)) ≡ length content =
      omega (arith, length-append front (bytes ++ back), length-append bytes back) in
    (
      front ++ (bytes ++ back),
      ground arith,
      record {
        same_length = total;
        bytes_at = λ i. ground (
          arith,
          get_or-append front (bytes ++ back) i 0,
          get_or-append bytes back (i - length front) 0,
          get_or-take off content i 0,
          get_or-drop (off + length bytes) content (i - length front - length bytes) 0,
          same_byte content (off + length bytes + (i - length front - length bytes)) i,
          same_byte bytes (i - length front) (i - off),
        );
      },
      rw total (ground (arith, round front_long)),
    )
  where
    same_byte : (c : List ℕ) (i j : ℕ) → i ≡ j → byte_at c i ≡ byte_at c j
    same_byte c i j e = ap (byte_at c) e

    round :
        length (take off content) ≡ off
        → take
            (length bytes)
            (drop off (take off content ++ (bytes ++ drop (off + length bytes) content)))
          ≡ bytes
    round e =
        ap
          (λ (t : ℕ).
            take (length bytes)
              (drop t (take off content ++ (bytes ++ drop (off + length bytes) content))))
          (sym e)
        ∙ ap (take (length bytes))
            (drop-append_exact (take off content) (bytes ++ drop (off + length bytes) content))
        ∙ take-append_exact bytes (drop (off + length bytes) content)

length-junk_from : (junk : ℕ → ℕ) (i n : ℕ) → length (junk_from junk i n) ≡ n
unfolding junk_from
length-junk_from junk i zero = refl
length-junk_from junk i (suc n) = ap suc (length-junk_from junk (i + 1) n)

-- Growing a buffer keeps its bytes.
pub grow_lem :
    (junk : ℕ → ℕ) (content : List ℕ) (n : ℕ)
    → (n ≤ length (grow junk content n))
      × (length content ≤ length (grow junk content n))
      × ((i : ℕ) → i < length content → byte_at (grow junk content n) i ≡ byte_at content i)
unfolding grow
grow_lem junk content n =
    let more = n - length content in
    let long : length (junk_from junk (length content) more) ≡ more =
      length-junk_from junk (length content) more in
    (
      omega (arith, length-append content (junk_from junk (length content) more)),
      omega (arith, length-append content (junk_from junk (length content) more)),
      λ i lt. ground (arith, get_or-append content (junk_from junk (length content) more) i 0),
    )
