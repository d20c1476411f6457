-- ===== src/Fs/Ramfs/Boot.antt =====
-- The helpers of fs/ramfs.c that kernel/main.c fills the file system with. The results of the
-- operations that they call are not looked at.
use mai_unix.Prelude.{ℕ, Option, none, some, List}
use mai_unix.Fs.Node.{file, dir, ramfs_ops, tty_ops, Store}
use mai_unix.Prelude.Faults.{◌>>=◌}
use mai_unix.Fs.Ramfs.{ramfs_finddir, ramfs_create, ramfs_write}

unfoldable pub ramfs_mkdir : Store → ℕ → List ℕ → Option Store
unfolding ramfs_create
ramfs_mkdir s parent name = s.nodes parent >>= λ n. elim n.ops [
  | tty_ops ↦ some s
  | ramfs_ops ↦ ramfs_create s parent name dir >>= λ r. some r.1
]

-- The operations of the terminal have no `create`, which is called unchecked.
unfoldable pub ramfs_write_file : (ℕ → ℕ) → Store → ℕ → List ℕ → List ℕ → Option Store
unfolding ramfs_create ramfs_finddir ramfs_write
ramfs_write_file junk s parent name bytes = s.nodes parent >>= λ n. elim n.ops [
  | tty_ops ↦ none
  | ramfs_ops ↦ ramfs_create s parent name file >>= λ r. ramfs_finddir r.1 parent name >>= λ found.
      elim found [ none ↦ some r.1 | some v ↦ ramfs_write junk r.1 v 0 bytes >>= λ w. some w.1 ]
]
