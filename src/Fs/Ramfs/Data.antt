-- ===== src/Fs/Ramfs/Data.antt =====
-- The contents of a file in fs/ramfs.c: `ramfs_read`, `ramfs_write` and `ramfs_truncate`.
use mai_unix.Prelude.Int.{pos, ssize}
use mai_unix.Prelude.Words.{add32}
use mai_unix.Prelude.{
  ℕ, ◌+◌, ◌-◌, ◌^◌, ◌≤◌, ◌<◌, min, ◌≡◌, refl, sym, ap, ◌∙◌, subst, inl, inr, true, false, ◌&&◌,
  some, List, [], arith, ltb, leb, ◌==◌, if◌then◌else◌, Bool-cases, length, list_ext,
}
use mai_unix.Fs.Node.{block_size, file, is_file, Node, Store, put_node}
use mai_unix.Fs.Ramfs.{ramfs_read, ramfs_truncate, with_room, write_node, ramfs_write}
use mai_unix.Fs.Ramfs.Bytes.{byte_at, read_bytes_lem, write_bytes_lem, grow_lem}

-- A regular file whose size and capacity lie in its memory.
pub record IsFile (n : Node) : Type 0 where
  pub regular : n.type ≡ file
  pub size_in : n.size ≤ length n.content
  pub capacity_in : n.capacity ≤ length n.content
  pub size_capacity : n.size ≤ n.capacity

-- The bytes of `n` from `off` on, `k` of them.
abbrev pub Holds : Node → ℕ → List ℕ → Type 0
Holds n off bytes = (i : ℕ) → i < length bytes → byte_at bytes i ≡ byte_at n.content (off + i)

ssize-small : (n : ℕ) → n < 2 ^ 31 → ssize n ≡ pos n
ssize-small n lt = ground arith

-- `ramfs_read` of less than 2 GB of a file never leaves its memory. It returns the bytes that are there, no more than
-- asked and no more than there are up to the end of the file, and their number; from the end of the
-- file on that is 0.
pub ramfs_read_lem :
    (s : Store) (v off sz : ℕ) {n : Node}
    → s.nodes v ≡ some n
    → IsFile n
    → sz < 2 ^ 31
    → (bytes : List ℕ) × (ramfs_read s v off sz ≡ some (pos (length bytes), bytes))
      × (length bytes ≡ min sz (n.size - off))
      × Holds n off bytes
unfolding ramfs_read
ramfs_read_lem s v off sz {n} e f small =
    let k = min sz (n.size - off) in
    rw e (
      rw f.regular (elim (Bool-cases (leb n.size off)) [
        | inl past ↦ ([], rw past, ground arith, λ i lt. absurd (omega arith))
        | inr before ↦
            let room : off + k ≤ length n.content = ground (arith, f.size_in) in
            let (bytes, got, long, same) = read_bytes_lem n.content off k room in
            (
              bytes,
              rw before (rw got (rw long (rw (ssize-small k (omega arith))))),
              long,
              λ i lt. same i (omega arith),
            )
      ]))

-- What a write of `bytes` at `off` has made of the node `n`.
pub record Writes (n : Node) (off : ℕ) (bytes : List ℕ) (n' : Node) : Type 0 where
  pub still_file : IsFile n'
  pub new_size : n'.size ≡ (if ltb n.size (off + length bytes) then off + length bytes else n.size)
  pub same_ops : n'.ops ≡ n.ops
  pub vnode_size : n'.vsize ≡ n'.size
  pub written : Holds n' off bytes
  pub others_kept :
      (i : ℕ)
      → i < n.size
      → (leb off i && ltb i (off + length bytes)) ≡ false
      → byte_at n'.content i ≡ byte_at n.content i

module _ (junk : ℕ → ℕ) where
  -- Room is made without touching the bytes that are there.
  with_room_lem :
      (n : Node) (needed : ℕ)
      → IsFile n
      → needed + block_size < 2 ^ 32
      → let (content, capacity) = with_room junk n needed in
        (needed ≤ capacity)
        × (capacity ≤ length content)
        × (length n.content ≤ length content)
        × ((i : ℕ) → i < length n.content → byte_at content i ≡ byte_at n.content i)
  unfolding with_room
  with_room_lem n needed f fits = elim (Bool-cases (ltb n.capacity needed)) [
    | inl grows ↦
        let (fits_cap, longer, same) = grow_lem junk n.content (add32 needed block_size) in
        rw grows (omega arith, fits_cap, longer, same)
    | inr stays ↦ rw stays (ground arith, f.capacity_in, omega arith, λ i lt. refl)
  ]

  grown :
      (n : Node) (needed : ℕ)
      → IsFile n
      → needed + block_size < 2 ^ 32
      → n.capacity ≤ (with_room junk n needed).1
  unfolding with_room
  grown n needed f fits = ground arith

  write_node_lem :
      (n : Node) (off : ℕ) (bytes : List ℕ)
      → IsFile n
      → off + length bytes + block_size < 2 ^ 32
      → (n' : Node) × (write_node junk n off bytes ≡ some n') × Writes n off bytes n'
  unfolding write_node
  write_node_lem n off bytes f fits =
      let needed = add32 off (length bytes) in
      let exact : needed ≡ off + length bytes = omega arith in
      let room = with_room junk n needed in
      let (cap_enough, cap_in, longer, same) = with_room_lem n needed f (omega arith) in
      let (after, got, o, _) = write_bytes_lem room.0 off bytes (omega arith) in
      let size = if ltb n.size needed then needed else n.size in
      (
        record n { content = after; capacity = room.1; size = size; vsize = size },
        rw (got, write_node),
        record {
          still_file = record {
            regular = f.regular;
            size_in = ground (arith, o.same_length, f.size_in);
            capacity_in = omega (arith, o.same_length);
            size_capacity = ground (arith, f.size_capacity, grown n needed f (omega arith));
          };
          new_size = ground arith;
          same_ops = refl;
          vnode_size = refl;
          written = λ i lt.
              let back : off + i - off ≡ i = omega arith in
              ground (arith, o.bytes_at (off + i), ap (byte_at bytes) back);
          others_kept = λ i lt out. ground (arith, o.bytes_at i, same i, f.size_in);
        },
      )

-- `ramfs_write` of less than 2 GB to a file whose end stays a block below 4 GB never leaves the memory, also when the
-- memory has to grow. It takes all the bytes, extends the file if they reach past its end, keeps
-- every other byte of it, and touches no other node.
ramfs_write_lem :
    (junk : ℕ → ℕ) (s : Store) (v off : ℕ) (bytes : List ℕ) {n : Node}
    → s.nodes v ≡ some n
    → IsFile n
    → off + length bytes + block_size < 2 ^ 32
    → length bytes < 2 ^ 31
    → (n' : Node) × (ramfs_write junk s v off bytes ≡ some (pos (length bytes), put_node s v n'))
      × Writes n off bytes n'
unfolding ramfs_write
ramfs_write_lem junk s v off bytes {n} e f fits small =
    let (n', got, w) = write_node_lem junk n off bytes f fits in
    let regular : is_file n.type ≡ true = rw f.regular in
    (n', rw e (rw regular (rw got (rw (ssize-small (length bytes) small)))), w)

-- After a write of less than 2 GB to a file whose end stays a block below 4 GB, reading back at the same place
-- returns exactly what was written.
pub ramfs_read-ramfs_write :
    (junk : ℕ → ℕ) (s : Store) (v off : ℕ) (bytes : List ℕ) {n : Node}
    → s.nodes v ≡ some n
    → IsFile n
    → off + length bytes + block_size < 2 ^ 32
    → length bytes < 2 ^ 31
    → (n' : Node) × (ramfs_write junk s v off bytes ≡ some (pos (length bytes), put_node s v n'))
      × (ramfs_read (put_node s v n') v off (length bytes) ≡ some (pos (length bytes), bytes))
      × Writes n off bytes n'
ramfs_read-ramfs_write junk s v off bytes {n} e f fits small =
    let (n', e', w) = ramfs_write_lem junk s v off bytes e f fits small in
    let s' = put_node s v n' in
    let at : s'.nodes v ≡ some n' = ground arith in
    let (got, r, long, same) = ramfs_read_lem s' v off (length bytes) at w.still_file small in
    let all : length got ≡ length bytes = ground (arith, w.new_size) in
    let equal : got ≡ bytes =
      list_ext got bytes 0 all (λ i lt. same i lt ∙ sym (w.written i (omega arith))) in
    (
      n',
      e',
      subst (λ (b : List ℕ). ramfs_read s' v off (length bytes) ≡ some (pos (length b), b)) equal r,
      w,
    )

-- `ramfs_truncate` of a file cuts it to the given size, never makes it longer, and keeps the bytes
-- that are left; it touches no other node.
ramfs_truncate_lem :
    (s : Store) (v size : ℕ) {n : Node}
    → s.nodes v ≡ some n
    → IsFile n
    → (n' : Node) × (ramfs_truncate s v size ≡ some (pos 0, put_node s v n'))
      × IsFile n'
      × (n'.size ≡ min size n.size)
      × (n'.vsize ≡ n'.size)
      × ((i : ℕ) → i < n'.size → byte_at n'.content i ≡ byte_at n.content i)
unfolding ramfs_truncate
ramfs_truncate_lem s v size {n} e f =
    let kept = if ltb size n.size then size else n.size in
    elim (Bool-cases (size == 0)) [
      | inl all ↦ (
        record n { content = []; size = 0; capacity = 0; vsize = 0 },
        rw e (rw all),
        record {
          regular = f.regular;
          size_in = omega arith;
          capacity_in = omega arith;
          size_capacity = omega arith;
        },
        ground arith,
        refl,
        λ i lt. absurd (omega arith),
      )
      | inr some_left ↦ (
        record n { size = kept; vsize = kept },
        rw e (rw some_left),
        record {
          regular = f.regular;
          size_in = ground (arith, f.size_in);
          capacity_in = f.capacity_in;
          size_capacity = ground (arith, f.size_capacity);
        },
        ground arith,
        refl,
        λ i lt. refl,
      )
    ]
