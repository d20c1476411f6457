-- ===== src/Fs/Ramfs.antt =====
-- The operations of fs/ramfs.c. `none` is a fault: an access to a node that has been freed, or
-- outside a buffer. `junk i` is the byte at offset `i` of memory that has not been written yet.
pub mod Bytes
pub mod Data
pub mod Dir
pub mod Create
pub mod Unlink
pub mod Boot
mod Tests
use mai_unix.Prelude.Int.{ℤ, pos, neg, ssize}
use mai_unix.Prelude.Words.{add32}
use mai_unix.Prelude.{
  ℕ, zero, suc, ◌+◌, ◌-◌, ◌^◌, min, Bool, not, Option, none, some, List, [], ◌∷◌, ◌++◌, ltb, leb,
  ◌==◌, if◌then◌else◌, length, get_elem?, set, get_or, take, drop,
}
use mai_unix.Fs.Node.{
  vfs_name_len, max_children, block_size, NodeType, dir, is_file, is_dir, ramfs_ops, Node, Store,
  put_node, free_node, enoent, enotdir, eisdir, enospc,
}
use mai_unix.Prelude.Faults.{◌>>=◌}
use mai_unix.Libc.Str.{strcmp, is_zero}

-- `kmemcpy` out of and into the memory of a node.
unfoldable pub read_bytes : List ℕ → ℕ → ℕ → Option (List ℕ)
read_bytes content off n =
    if leb (off + n) (length content) then some (take n (drop off content)) else none

unfoldable pub write_bytes : List ℕ → ℕ → List ℕ → Option (List ℕ)
write_bytes content off bytes =
    if leb (off + length bytes) (length content)
    then some (take off content ++ (bytes ++ drop (off + length bytes) content))
    else none

unfoldable pub ramfs_read : Store → ℕ → ℕ → ℕ → Option (ℤ × List ℕ)
unfolding read_bytes
ramfs_read s v off sz = do
  n ← s.nodes v
  if not (is_file n.type)
      then some (eisdir, [])
      else (if leb n.size off then some (pos 0, []) else (do
        let to_read = min sz (n.size - off)
        bytes ← read_bytes n.content off to_read
        some (ssize to_read, bytes)))

unfoldable pub kstrcmp_eq : List ℕ → List ℕ → Bool
unfolding strcmp
kstrcmp_eq a b = is_zero (strcmp a b)

-- `ramfs_readdir`: a negative result, or 0 and the name of the entry. An index from 2 ^ 31 on is
-- negative as an `int`, passes the test and is read out of bounds.
unfoldable pub ramfs_readdir : Store → ℕ → ℕ → Option (ℤ × List ℕ)
ramfs_readdir s v idx = do
  n ← s.nodes v
  if not (is_dir n.type)
      then some (enotdir, [])
      else (if leb (2 ^ 31) idx then none else (elim (get_elem? n.children idx) [
        | none ↦ some (neg 1, [])
        | some c ↦ (do child ← s.nodes c; some (pos 0, child.name))
      ]))

-- The loop of `ramfs_finddir` and of `ramfs_unlink`: the first child with the name, with its index.
unfoldable pub find_child : Store → List ℕ → List ℕ → ℕ → Option (Option (ℕ × ℕ))
find_child s name [] i = some none
find_child s name (c ∷ cs) i =
    let rest = find_child s name cs (i + 1) in
    s.nodes c >>= λ child. if kstrcmp_eq child.name name then some (some (i, c)) else rest

unfoldable pub ramfs_finddir : Store → ℕ → List ℕ → Option (Option ℕ)
unfolding find_child kstrcmp_eq
ramfs_finddir s v name = do
  n ← s.nodes v
  if not (is_dir n.type)
      then some none
      else (find_child s name n.children 0 >>= λ r. elim r [
        | none ↦ some none
        | some (i, c) ↦ some (some c)
      ])

-- `new_ramfs_node`: a name that does not fit `name` is written past its end.
pub new_ramfs_node : Store → List ℕ → NodeType → Option (ℕ × Store)
new_ramfs_node s name type =
    if leb vfs_name_len (length name)
    then none
    else some (
      s.fresh,
      record (put_node s s.fresh (record {
        name = name;
        type = type;
        content = [];
        size = 0;
        capacity = 0;
        inode = s.next_inode;
        children = [];
        ops = ramfs_ops;
        vsize = 0;
        mount_point = none;
        ref_count = 0;
      })) { fresh = s.fresh + 1; next_inode = add32 s.next_inode 1 },
    )

unfoldable pub ramfs_create : Store → ℕ → List ℕ → NodeType → Option (ℤ × Store)
unfolding new_ramfs_node
ramfs_create s v name type = do
  parent ← s.nodes v
  if not (is_dir parent.type)
      then some (enotdir, s)
      else (if leb max_children (length parent.children) then some (enospc, s) else (do
        (child, s') ← new_ramfs_node s name type
        parent' ← s'.nodes v
        some (pos 0, put_node s' v (record parent' { children = parent'.children ++ child ∷ [] }))))

-- `children[i] = children[--nchildren]`
pub swap_remove : List ℕ → ℕ → List ℕ
swap_remove cs i = let last = length cs - 1 in take last (set cs i (get_or cs last 0))

unfoldable pub ramfs_unlink : Store → ℕ → List ℕ → Option (ℤ × Store)
unfolding find_child kstrcmp_eq swap_remove
ramfs_unlink s v name = do
  parent ← s.nodes v
  found ← find_child s name parent.children 0
  elim found [
    | none ↦ some (enoent, s)
    | some (i, c) ↦ (do
      let s' = free_node s c
      parent' ← s'.nodes v
      some (pos 0, put_node s' v (record parent' { children = swap_remove parent'.children i })))
  ]

-- `st_ino`, `st_size` and whether `st_mode` is S_IFDIR; the user and group are 0.
unfoldable pub ramfs_stat : Store → ℕ → Option (ℤ × ℕ × ℕ × Bool)
ramfs_stat s v = do n ← s.nodes v; some (pos 0, n.inode, n.size, is_dir n.type)

unfoldable pub ramfs_truncate : Store → ℕ → ℕ → Option (ℤ × Store)
ramfs_truncate s v size = do
  n ← s.nodes v
  let size' = if ltb size n.size then size else n.size
  some (
    pos 0,
    put_node s v (
        if size == 0
        then record n { content = []; size = 0; capacity = 0; vsize = 0 }
        else record n { size = size'; vsize = size' }),
  )

unfoldable pub ramfs_create_root : Store → Option (ℕ × Store)
unfolding new_ramfs_node
ramfs_create_root s = new_ramfs_node s (b'/' ∷ []) dir

module _ (junk : ℕ → ℕ) where
  -- `n` bytes of fresh memory from offset `i` on.
  pub junk_from : ℕ → ℕ → List ℕ
  junk_from i zero = []
  junk_from i (suc n) = junk i ∷ junk_from (i + 1) n

  -- `krealloc`: a buffer of at least `n` bytes that begins with the old one.
  unfoldable pub grow : List ℕ → ℕ → List ℕ
  unfolding junk_from
  grow content n = content ++ junk_from (length content) (n - length content)

  -- The memory of a file with room for `needed` bytes, and its capacity.
  pub with_room : Node → ℕ → List ℕ × ℕ
  unfolding grow
  with_room n needed =
      let new_cap = add32 needed block_size in
      if ltb n.capacity needed then (grow n.content new_cap, new_cap) else (n.content, n.capacity)

  -- `ramfs_write` on the node of a file.
  pub write_node : Node → ℕ → List ℕ → Option Node
  unfolding with_room write_bytes
  write_node n off bytes =
      let needed = add32 off (length bytes) in
      let (content, capacity) = with_room n needed in
      let size = if ltb n.size needed then needed else n.size in
      write_bytes content off bytes >>= λ content'.
      some (record n { content = content'; capacity = capacity; size = size; vsize = size })

  unfoldable pub ramfs_write : Store → ℕ → ℕ → List ℕ → Option (ℤ × Store)
  unfolding write_node
  ramfs_write s v off bytes = do
    n ← s.nodes v
    if not (is_file n.type)
        then some (eisdir, s)
        else (do n' ← write_node n off bytes; some (ssize (length bytes), put_node s v n'))
