-- ===== src/Fs/File.antt =====
-- Open files: the `file_t` of include/kernel/vfs.h and its operations in fs/vfs.c. An offset is the
-- 32-bit word of the `off_t`. `none` is a fault; a result `none` inside it is NULL.
pub mod Io
pub mod Open
mod Tests
use mai_unix.Prelude.Bits.{bit_at}
use mai_unix.Prelude.Int.{ℤ, pos, negsuc}
use mai_unix.Prelude.Words.{add32, sub32}
use mai_unix.Prelude.{
  ℕ, zero, suc, ◌+◌, ◌-◌, Bool, not, ◌||◌, Option, none, some, List, [], ◌∷◌, leb, ◌==◌,
  if◌then◌else◌, length, get_or, take, drop,
}
use mai_unix.Fs.Node.{file, is_dir, ramfs_ops, tty_ops, Store, put_node, ebadf}
use mai_unix.Prelude.Faults.{◌>>=◌}
use mai_unix.Fs.Ramfs.{
  ramfs_read, ramfs_readdir, ramfs_finddir, ramfs_create, ramfs_stat, ramfs_truncate, ramfs_write,
}
use mai_unix.Fs.Vfs.{vfs_lookup}

-- VFS_PATH_LEN.
abbrev pub vfs_path_len : ℕ
vfs_path_len = 256

pub record File : Type 0 where
  pub offset : ℕ
  pub vnode : ℕ
  pub flags : ℕ
  pub ref : ℕ

-- The terminal as the file layer sees it: a state `D`, on which a read and a write act. A read
-- returns the bytes it got, a write how many it took.
pub record CharDevice (D : Type 0) : Type 0 where
  pub dev_read : D → ℕ → ℤ × List ℕ × D
  pub dev_write : D → List ℕ → ℤ × D

-- O_CREAT, O_TRUNC and O_APPEND.
abbrev pub o_creat : ℕ → Bool
o_creat flags = bit_at flags 6 == 1

abbrev pub o_trunc : ℕ → Bool
o_trunc flags = bit_at flags 9 == 1

abbrev pub o_append : ℕ → Bool
o_append flags = bit_at flags 10 == 1

-- `slash` in `file_open`: back from index `i` to a slash, or to the start of the path.
unfoldable pub slash_from : ℕ → List ℕ → ℕ
slash_from zero path = 0
slash_from (suc i) path =
    let back = slash_from i path in if get_or path (suc i) 0 == b'/' then suc i else back

pub create_in : Store → ℕ → List ℕ → Option (Option ℕ × Store)
unfolding ramfs_create ramfs_finddir
create_in s parent fname = do
  n ← s.nodes parent
  elim n.ops [
    | tty_ops ↦ some (none, s)
    | ramfs_ops ↦
        (ramfs_create s parent fname file >>= λ made.
        let (r, s') = made in
        elim r [
          | negsuc e ↦ some (none, s')
          | pos k ↦ (do found ← ramfs_finddir s' parent fname; some (found, s'))
        ])
  ]

-- The branch of `file_open` that makes the file, first behind the search for the slash. An empty
-- path, and a directory part that does not fit `parent_path`, are copied out of bounds.
pub create_from : Store → Option ℕ → List ℕ → ℕ → Option (Option ℕ × Store)
unfolding create_in vfs_lookup
create_from s root path slash =
    let plen = if slash == 0 then 1 else slash in
    let parent_path = if leb plen 1 then b'/' ∷ [] else take plen path in
    if length path == 0 || leb vfs_path_len plen
    then none
    else (vfs_lookup s root parent_path >>= λ found. elim found [
      | none ↦ some (none, s)
      | some parent ↦ create_in s parent (drop (slash + 1) path)
    ])

pub create_at : Store → Option ℕ → List ℕ → Option (Option ℕ × Store)
unfolding create_from slash_from
create_at s root path = create_from s root path (slash_from (length path - 1) path)

pub op_truncate : Store → ℕ → Option Store
unfolding ramfs_truncate
op_truncate s v = do
  n ← s.nodes v
  elim n.ops [ tty_ops ↦ some s | ramfs_ops ↦ (do (_, s') ← ramfs_truncate s v 0; some s') ]

-- The part of `file_open` that follows once there is a node.
pub open_node : Store → ℕ → ℕ → Option (File × Store)
unfolding op_truncate
open_node s v flags = do
  s' ← (if o_trunc flags then op_truncate s v else some s)
  n ← s'.nodes v
  some (
    record { offset = if o_append flags then n.vsize else 0; vnode = v; flags = flags; ref = 1 },
    put_node s' v (record n { ref_count = add32 n.ref_count 1 }),
  )

unfoldable pub file_open : Store → Option ℕ → List ℕ → ℕ → Option (Option File × Store)
unfolding open_node create_at vfs_lookup
file_open s root path flags = do
  found ← vfs_lookup s root path
  (there, s') ← elim found [
    | some v ↦ some (some v, s)
    | none ↦ if o_creat flags then create_at s root path else some (none, s)
  ]
  elim there [
    | none ↦ some (none, s')
    | some v ↦ (do (f, s'') ← open_node s' v flags; some (some f, s''))
  ]

-- `file_close`: the last reference frees the file.
unfoldable pub file_close : Store → File → Option (ℤ × Option File × Store)
file_close s f =
    let ref = f.ref - 1 in
    if not (ref == 0) then some (pos 0, some (record f { ref = ref }), s) else (do
      n ← s.nodes f.vnode
      some (pos 0, none, put_node s f.vnode (record n { ref_count = sub32 n.ref_count 1 })))

-- `if (n > 0) f->offset += n;`
abbrev pub advance : File → ℤ → File
advance f (pos k) = record f { offset = add32 f.offset k }
advance f (negsuc k) = f

unfoldable pub file_readdir : Store → File → ℕ → Option (ℤ × List ℕ)
unfolding ramfs_readdir
file_readdir s f index = do
  n ← s.nodes f.vnode
  elim n.ops [ tty_ops ↦ some (ebadf, []) | ramfs_ops ↦ ramfs_readdir s f.vnode index ]

-- The result, the inode number, the size, and whether it is a directory.
unfoldable pub file_stat : Store → File → Option (ℤ × ℕ × ℕ × Bool)
unfolding ramfs_stat
file_stat s f = do
  n ← s.nodes f.vnode
  elim n.ops [
    | tty_ops ↦ some (pos 0, n.inode, n.vsize, is_dir n.type)
    | ramfs_ops ↦ ramfs_stat s f.vnode
  ]

module _ {D : Type 0} (dev : CharDevice D) where
  unfoldable pub file_read : D → Store → File → ℕ → Option (ℤ × List ℕ × File × D)
  unfolding ramfs_read
  file_read d s f size = do
    n ← s.nodes f.vnode
    (r, bytes, d') ← elim n.ops [
      | tty_ops ↦ some (dev.dev_read d size)
      | ramfs_ops ↦ (do (r, bytes) ← ramfs_read s f.vnode f.offset size; some (r, bytes, d))
    ]
    some (r, bytes, advance f r, d')

  unfoldable pub file_write : (ℕ → ℕ) → D → Store → File → List ℕ → Option (ℤ × Store × File × D)
  unfolding ramfs_write
  file_write junk d s f bytes = do
    n ← s.nodes f.vnode
    (r, s', d') ← elim n.ops [
      | tty_ops ↦ (let (r, d') = dev.dev_write d bytes in some (r, s, d'))
      | ramfs_ops ↦ (do (r, s') ← ramfs_write junk s f.vnode f.offset bytes; some (r, s', d))
    ]
    some (r, s', advance f r, d')

pub data Whence : Type 0 where
  seek_set seek_cur seek_end : Whence

-- `file_seek` by the word of a signed distance.
unfoldable pub file_seek : Store → File → ℕ → Whence → Option File
file_seek s f offset seek_set = some (record f { offset = offset })
file_seek s f offset seek_cur = some (record f { offset = add32 f.offset offset })
file_seek s f offset seek_end = do
  n ← s.nodes f.vnode
  some (record f { offset = add32 n.vsize offset })
