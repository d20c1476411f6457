-- ===== src/Syscall/Fd.antt =====
-- The descriptors of syscall/syscall.c and the calls on them. A descriptor is the 32-bit word of the
-- `int`, so that a negative one is as large as one from MAX_FDS on. `none` is a fault.
pub mod Table
pub mod Dup
mod Tests
use mai_unix.Prelude.Int.{ℤ, pos, negsuc, neg}
use mai_unix.Prelude.{
  ℕ, ◌+◌, ◌-◌, not, ◌||◌, Option, none, some, List, [], ◌∷◌, ◌++◌, leb, ◌==◌, if◌then◌else◌, length,
  set, get_or, take, drop,
}
use mai_unix.Fs.Node.{dir, is_dir, ramfs_ops, tty_ops, Store, enoent, eio, ebadf}
use mai_unix.Prelude.Faults.{◌>>=◌}
use mai_unix.Prelude.Memory.{c_string}
use mai_unix.Fs.Ramfs.{ramfs_create, ramfs_unlink}
use mai_unix.Fs.Vfs.{vfs_lookup}
use mai_unix.Fs.File.{
  vfs_path_len, File, CharDevice, slash_from, file_open, file_close, file_readdir, file_read,
  file_write, Whence, file_seek,
}
use mai_unix.Proc.Process.{max_fds}

abbrev pub emfile : ℤ
emfile = neg 24

-- What a call of the current process works on: the nodes, the root, the `file_t` by their
-- addresses, and the descriptors and the directory of the process.
pub record Sys : Type 0 where
  pub store : Store
  pub root : Option ℕ
  pub files : ℕ → Option File
  pub fresh_file : ℕ
  pub fds : List (Option ℕ)
  pub cwd : List ℕ

abbrev pub put_file : Sys → ℕ → Option File → Sys
put_file s a f = record s { files = λ b. if b == a then f else s.files b }

unfoldable pub fd_get : Sys → ℕ → Option ℕ
fd_get s fd = if leb max_fds fd then none else get_or s.fds fd none

-- The loop of `fd_alloc`, from descriptor `i` on.
unfoldable pub free_fd : List (Option ℕ) → ℕ → Option ℕ
free_fd [] i = none
free_fd (none ∷ fds) i = some i
free_fd (some a ∷ fds) i = free_fd fds (i + 1)

unfoldable pub fd_alloc : Sys → ℕ → ℤ × Sys
unfolding free_fd
fd_alloc s a = elim (free_fd s.fds 0) [
  | none ↦ (emfile, s)
  | some fd ↦ (pos fd, record s { fds = set s.fds fd (some a) })
]

-- `file_close` of the file at `a`.
unfoldable pub close_at : Sys → ℕ → Option (ℤ × Sys)
unfolding file_close
close_at s a = do
  f ← s.files a
  (r, f', store') ← file_close s.store f
  some (r, record (put_file s a f') { store = store' })

-- The text of a path buffer behind a slash that is put over its NUL, unless it ends in one already:
-- `kstrlen` runs on over the bytes that were behind the NUL, `junk i` at offset `i`, up to the next NUL.
-- An empty path is read in front of its start.
unfoldable pub with_slash : (ℕ → ℕ) → List ℕ → Option (List ℕ)
unfolding c_string
with_slash junk cwd =
    let n = length cwd in
    if n == 0
    then none
    else (if get_or cwd (n - 1) 0 == b'/' then some cwd else (do
      stale ← c_string (vfs_path_len - (n + 2)) junk (n + 1)
      some (cwd ++ b'/' ∷ stale)))

-- The path that `sys_open` opens, and the one that `sys_chdir` stores; one that does not fit its
-- buffer is written past the end.
unfoldable pub full_path : (ℕ → ℕ) → List ℕ → List ℕ → Option (List ℕ)
unfolding with_slash
full_path junk cwd path = do
  full ←
      (if get_or path 0 0 == b'/'
        then some path
        else (do front ← with_slash junk cwd; some (front ++ path)))
  if leb vfs_path_len (length full) then none else some full

unfoldable pub sys_open : (ℕ → ℕ) → Sys → List ℕ → ℕ → Option (ℤ × Sys)
unfolding full_path fd_alloc close_at file_open
sys_open junk s path flags = do
  full ← full_path junk s.cwd path
  (opened, store') ← file_open s.store s.root full flags
  elim opened [
    | none ↦ some (enoent, record s { store = store' })
    | some f ↦
        (let a = s.fresh_file in
          let s' = record (put_file s a (some f)) { store = store'; fresh_file = a + 1 } in
          let (fd, s'') = fd_alloc s' a in
          elim fd [
            | pos n ↦ some (pos n, s'')
            | negsuc n ↦ (do (_, s₃) ← close_at s'' a; some (negsuc n, s₃))
          ])
  ]

unfoldable pub sys_close : Sys → ℕ → Option (ℤ × Sys)
unfolding close_at fd_get
sys_close s fd = elim (fd_get s fd) [
  | none ↦ some (ebadf, s)
  | some a ↦ close_at (record s { fds = set s.fds fd none }) a
]

-- The old file at `newfd` is closed first, and the reference is counted last.
unfoldable pub sys_dup2 : Sys → ℕ → ℕ → Option (ℤ × Sys)
unfolding close_at fd_get
sys_dup2 s oldfd newfd = elim (fd_get s oldfd) [
  | none ↦ some (ebadf, s)
  | some a ↦ if leb max_fds newfd then some (ebadf, s) else (do
    s' ← elim (get_or s.fds newfd none) [
      | none ↦ some s
      | some b ↦ (do (_, s₁) ← close_at s b; some s₁)
    ]
    f ← s'.files a
    some (
      pos newfd,
      record (put_file s' a (some (record f { ref = f.ref + 1 }))) {
        fds = set s'.fds newfd (some a);
      },
    ))
]

unfoldable pub sys_lseek : Sys → ℕ → ℕ → Whence → Option (ℤ × Sys)
unfolding fd_get file_seek
sys_lseek s fd offset whence = elim (fd_get s fd) [
  | none ↦ some (ebadf, s)
  | some a ↦ (do
    f ← s.files a
    f' ← file_seek s.store f offset whence
    some (pos f'.offset, put_file s a (some f')))
]

unfoldable pub sys_readdir : Sys → ℕ → ℕ → Option (ℤ × List ℕ)
unfolding fd_get file_readdir
sys_readdir s fd index = elim (fd_get s fd) [
  | none ↦ some (ebadf, [])
  | some a ↦ s.files a >>= λ f. file_readdir s.store f index
]

module _ {D : Type 0} (dev : CharDevice D) where
  unfoldable pub sys_read : D → Sys → ℕ → ℕ → Option (ℤ × List ℕ × Sys × D)
  unfolding fd_get file_read
  sys_read d s fd size = elim (fd_get s fd) [
    | none ↦ some (ebadf, [], s, d)
    | some a ↦ (do
      f ← s.files a
      (r, bytes, f', d') ← file_read dev d s.store f size
      some (r, bytes, put_file s a (some f'), d'))
  ]

  unfoldable pub sys_write : (ℕ → ℕ) → D → Sys → ℕ → List ℕ → Option (ℤ × Sys × D)
  unfolding fd_get file_write
  sys_write junk d s fd bytes = elim (fd_get s fd) [
    | none ↦ some (ebadf, s, d)
    | some a ↦ (do
      f ← s.files a
      (r, store', f', d') ← file_write dev junk d s.store f bytes
      some (r, record (put_file s a (some f')) { store = store' }, d'))
  ]

-- The parent directory in `sys_mkdir` and `sys_unlink`, up to the last slash.
unfoldable pub parent_of : List ℕ → Option (ℕ × List ℕ)
unfolding slash_from
parent_of path =
    let slash = slash_from (length path - 1) path in
    if (length path == 0) || leb vfs_path_len slash
    then none
    else some (slash, if slash == 0 then b'/' ∷ [] else take slash path)

-- The name behind the last slash, or the whole path if it has none.
unfoldable pub name_of : ℕ → List ℕ → List ℕ
name_of slash path = if get_or path slash 0 == b'/' then drop (slash + 1) path else drop slash path

unfoldable pub sys_mkdir : Store → Option ℕ → List ℕ → Option (ℤ × Store)
unfolding parent_of name_of vfs_lookup ramfs_create
sys_mkdir s root path = do
  (slash, parent_path) ← parent_of path
  found ← vfs_lookup s root parent_path
  elim found [
    | none ↦ some (enoent, s)
    | some v ↦ (do
      n ← s.nodes v
      elim n.ops [
        | ramfs_ops ↦ ramfs_create s v (name_of slash path) dir
        | tty_ops ↦ some (eio, s)
      ])
  ]

-- Without a slash the name is the whole path, where `slash` is its start.
unfoldable pub sys_unlink : Store → Option ℕ → List ℕ → Option (ℤ × Store)
unfolding parent_of name_of vfs_lookup ramfs_unlink
sys_unlink s root path = do
  (slash, parent_path) ← parent_of path
  found ← vfs_lookup s root parent_path
  elim found [
    | none ↦ some (enoent, s)
    | some v ↦ (do
      n ← s.nodes v
      elim n.ops [ ramfs_ops ↦ ramfs_unlink s v (name_of slash path) | tty_ops ↦ some (enoent, s) ])
  ]

-- The directory check of `sys_chdir` looks the path up from the root, also a relative one.
unfoldable pub sys_chdir : (ℕ → ℕ) → Sys → List ℕ → Option (ℤ × Sys)
unfolding vfs_lookup full_path
sys_chdir junk s path = do
  found ← vfs_lookup s.store s.root path
  elim found [
    | none ↦ some (enoent, s)
    | some v ↦ (do
      n ← s.store.nodes v
      if not (is_dir n.type)
          then some (enoent, s)
          else (do to ← full_path junk s.cwd path; some (pos 0, record s { cwd = to })))
  ]

-- The length of the directory with its bytes, if they fit the buffer.
unfoldable pub sys_getcwd : Sys → ℕ → ℤ × List ℕ
sys_getcwd s size = if leb size (length s.cwd) then (neg 12, []) else (pos (length s.cwd), s.cwd)
