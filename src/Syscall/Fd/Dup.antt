-- ===== src/Syscall/Fd/Dup.antt =====
-- `sys_dup2` of syscall/syscall.c.
use mai_unix.Prelude.Int.{pos}
use mai_unix.Prelude.{ℕ, ◌-◌, ◌<◌, ◌≡◌, ◌∙◌, false, none, some, arith, leb, get_or}
use mai_unix.Fs.Node.{Node, put_node}
use mai_unix.Fs.File.{File, file_close}
use mai_unix.Prelude.Words.{sub32}
use mai_unix.Syscall.Fd.Table.{fd_get_in}
use mai_unix.Proc.Process.{max_fds}
use mai_unix.Syscall.Fd.{Sys, put_file, fd_get, close_at, sys_dup2}

-- Closing the last reference leaves no file at its address.
close_at-last :
    (s : Sys) (a : ℕ) {f : File} {n : Node}
    → s.files a ≡ some f
    → f.ref ≡ 1
    → s.store.nodes f.vnode ≡ some n
    → (s' : Sys) × (close_at s a ≡ some (pos 0, s')) × (s'.files a ≡ none)
unfolding close_at file_close
close_at-last s a {f} {n} e one there =
    let last : f.ref - 1 ≡ 0 = omega (arith, one) in
    (
      record (put_file s a none) {
        store = put_node s.store f.vnode (record n { ref_count = sub32 n.ref_count 1 });
      },
      rw e (rw last (rw there)),
      ground arith,
    )

-- `sys_dup2` of a descriptor onto itself, where it is the only reference to its file, faults: the
-- file is freed before its reference count is raised.
pub sys_dup2_self :
    (s : Sys) (fd a : ℕ) {f : File} {n : Node}
    → fd < max_fds
    → get_or s.fds fd none ≡ some a
    → s.files a ≡ some f
    → f.ref ≡ 1
    → s.store.nodes f.vnode ≡ some n
    → sys_dup2 s fd fd ≡ none
unfolding sys_dup2
sys_dup2_self s fd a lt bound e one there =
    let (s', closed, gone) = close_at-last s a e one there in
    let inside : leb max_fds fd ≡ false = ground arith in
    let got : fd_get s fd ≡ some a = fd_get_in s fd lt ∙ bound in
    rw (got, sys_dup2) (rw inside (rw bound (rw closed (rw gone))))
