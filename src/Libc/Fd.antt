-- ===== src/Libc/Fd.antt =====
-- `open`, `close`, `read`, `write` and `printf` of libc/libc.c, which act on the descriptors of the current
-- process without a system call. `none` is a fault.
use mai_unix.Prelude.Int.{ℤ, pos, neg}
use mai_unix.Prelude.{ℕ, ◌+◌, Option, none, some, List, [], length, set, get_or}
use mai_unix.Libc.Print.{Arg, vsnprintf}
use mai_unix.Prelude.Faults.{◌>>=◌}
use mai_unix.Fs.File.{CharDevice, file_open, file_read, file_write}
use mai_unix.Syscall.Fd.{Sys, put_file, fd_get, free_fd, close_at}

-- Unlike `sys_open` it takes the path as it is.
unfoldable pub open_fd : Sys → List ℕ → ℕ → Option (ℤ × Sys)
unfolding free_fd close_at file_open
open_fd s path flags = do
  (opened, store') ← file_open s.store s.root path flags
  elim opened [
    | none ↦ some (neg 1, record s { store = store' })
    | some f ↦
        (let a = s.fresh_file in
          let s' = record (put_file s a (some f)) { store = store'; fresh_file = a + 1 } in
          elim (free_fd s'.fds 0) [
            | some fd ↦ some (pos fd, record s' { fds = set s'.fds fd (some a) })
            | none ↦ (do (_, s₂) ← close_at s' a; some (neg 1, s₂))
          ])
  ]

-- The file is closed before the descriptor is cleared.
unfoldable pub close_fd : Sys → ℕ → Option (ℤ × Sys)
unfolding fd_get close_at
close_fd s fd = elim (fd_get s fd) [
  | none ↦ some (neg 1, s)
  | some a ↦ close_at s a >>= λ r. some (pos 0, record r.1 { fds = set r.1.fds fd none })
]

module _ {D : Type 0} (dev : CharDevice D) where
  unfoldable pub read_fd : D → Sys → ℕ → ℕ → Option (ℤ × List ℕ × Sys × D)
  unfolding fd_get file_read
  read_fd d s fd size = elim (fd_get s fd) [
    | none ↦ some (neg 1, [], s, d)
    | some a ↦ (do
      f ← s.files a
      (r, bytes, f', d') ← file_read dev d s.store f size
      some (r, bytes, put_file s a (some f'), d'))
  ]

  unfoldable pub write_fd : (ℕ → ℕ) → D → Sys → ℕ → List ℕ → Option (ℤ × Sys × D)
  unfolding fd_get file_write
  write_fd junk d s fd bytes = elim (fd_get s fd) [
    | none ↦ some (neg 1, s, d)
    | some a ↦ (do
      f ← s.files a
      (r, store', f', d') ← file_write dev junk d s.store f bytes
      some (r, record (put_file s a (some f')) { store = store' }, d'))
  ]

  -- The text goes to descriptor 1, if that is open; the result counts it in any case.
  unfoldable pub print_to : (ℕ → ℕ) → D → Sys → List ℕ → Option ℕ → Option (ℤ × Sys × D)
  unfolding file_write
  print_to junk d s out none = some (pos (length out), s, d)
  print_to junk d s out (some a) = do
    f ← s.files a
    (r, store', f', d') ← file_write dev junk d s.store f out
    some (pos (length out), record (put_file s a (some f')) { store = store' }, d')

  unfoldable pub printf : (ℕ → ℕ) → D → Sys → List ℕ → List Arg → Option (ℤ × Sys × D)
  unfolding vsnprintf print_to
  printf junk d s fmt args =
      vsnprintf 512 fmt args >>= λ out. print_to junk d s out (get_or s.fds 1 none)
