-- ===== src/Fs/Node.antt =====
-- The nodes of fs/ramfs.c with the vnodes of include/kernel/vfs.h, on an explicit store: a node is
-- named by its address, and a `ramfs_node_t` and the `vnode_t` inside it by the same address.
use mai_unix.Prelude.Int.{ℤ, neg}
use mai_unix.Prelude.{ℕ, Bool, true, false, Option, none, some, List, ◌==◌, if◌then◌else◌}

-- VFS_NAME_LEN, RAMFS_MAX_CHILDREN and RAMFS_BLOCK_SIZE.
abbrev pub vfs_name_len : ℕ
vfs_name_len = 128

abbrev pub max_children : ℕ
max_children = 64

abbrev pub block_size : ℕ
block_size = 4096

-- VFS_FILE, VFS_DIR and VFS_CHARDEV.
pub data NodeType : Type 0 where
  file dir chardev : NodeType

abbrev pub is_file : NodeType → Bool
is_file file = true
is_file _ = false

abbrev pub is_dir : NodeType → Bool
is_dir dir = true
is_dir _ = false

-- Which table of operations a vnode has: that of fs/ramfs.c, or that of drivers/tty.c, which has
-- only `read` and `write`.
pub data Ops : Type 0 where
  ramfs_ops tty_ops : Ops

-- `content` is the memory that `data` points to, `children` the first `nchildren` entries of the
-- array of that name, and `vsize` the field `size` of the vnode.
pub record Node : Type 0 where
  pub name : List ℕ
  pub type : NodeType
  pub content : List ℕ
  pub size : ℕ
  pub capacity : ℕ
  pub inode : ℕ
  pub children : List ℕ
  pub ops : Ops
  pub vsize : ℕ
  pub mount_point : Option ℕ
  pub ref_count : ℕ

-- `fresh` is the address that `kmalloc` returns next: it has not been in use before.
pub record Store : Type 0 where
  pub nodes : ℕ → Option Node
  pub fresh : ℕ
  pub next_inode : ℕ

-- A write to the node at `a`, or its release.
abbrev pub put_node : Store → ℕ → Node → Store
put_node s a n = record s { nodes = λ b. if b == a then some n else s.nodes b }

abbrev pub free_node : Store → ℕ → Store
free_node s a = record s { nodes = λ b. if b == a then none else s.nodes b }

-- Error codes of include/kernel/types.h.
abbrev pub enoent : ℤ
enoent = neg 2

abbrev pub eio : ℤ
eio = neg 5

abbrev pub ebadf : ℤ
ebadf = neg 9

abbrev pub enotdir : ℤ
enotdir = neg 20

abbrev pub eisdir : ℤ
eisdir = neg 21

abbrev pub enospc : ℤ
enospc = neg 28
