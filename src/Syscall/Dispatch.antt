-- ===== src/Syscall/Dispatch.antt =====
-- The dispatcher of syscall/syscall.c, and `isr_handler_ext` of kernel/main.c that calls it: the calls
-- of both kinds on one state, with the registers that hold their arguments and the memory that these
-- point into. `none` is a fault.
pub mod Sound
mod Tests
use mai_unix.Prelude.Int.{ℤ, pos, negsuc, neg}
use mai_unix.Prelude.{
  ℕ, ◌-◌, ◌%◌, ◌^◌, Option, none, some, List, [], ◌∷◌, ◌++◌, ◌==◌, if◌then◌else◌,
}
use mai_unix.Prelude.Words.{add32}
use mai_unix.Prelude.Memory.{Memory, store_bytes, load_bytes, store_word, c_string}
use mai_unix.Prelude.Faults.{◌>>=◌}
use mai_unix.Fs.Node.{Store, ebadf}
use mai_unix.Fs.File.{File, CharDevice, seek_set, seek_cur, seek_end}
use mai_unix.Proc.Process.{Kernel, proc_at, put_proc}
use mai_unix.Proc.Life.{
  AddressSpaces, Waited, reaped, no_child, again, wait_round, proc_fork, proc_exit,
}
use mai_unix.Syscall.Fd.{
  Sys, fd_get, sys_open, sys_close, sys_dup2, sys_lseek, sys_readdir, sys_read, sys_write,
  sys_mkdir, sys_unlink, sys_chdir, sys_getcwd,
}
use mai_unix.Syscall.Process.{sys_getpid, sys_getppid, sys_kill, sys_sleep}
use mai_unix.Userland.Exec.{Program, exec_program}

-- The registers of `regs_t` that hold a number and its arguments.
pub record Regs : Type 0 where
  pub eax : ℕ
  pub ebx : ℕ
  pub ecx : ℕ
  pub edx : ℕ

-- What the calls act on.
pub record World (V D : Type 0) : Type 0 where
  pub kernel : Kernel
  pub vm : V
  pub memory : Memory
  pub store : Store
  pub root : Option ℕ
  pub files : ℕ → Option File
  pub fresh_file : ℕ
  pub terminal : D

-- How a call ends: it returns; it returns once its process has the processor back; it goes on with
-- another round then; its process is gone; it has entered a program, and returns when that does.
pub data Outcome (W : Type 0) : Type 0 where
  returned : ℤ → W → Outcome W
  later : ℤ → W → Outcome W
  waits : W → Outcome W
  gone : W → Outcome W
  entered : Program → ℤ → W → Outcome W

abbrev pub world_of : {W : Type 0} → Outcome W → W
world_of (returned r w) = w
world_of (later r w) = w
world_of (waits w) = w
world_of (gone w) = w
world_of (entered p r w) = w

-- The numbers of the calls that the dispatcher knows.
pub data Call : Type 0 where
  exit_call fork_call read_call write_call open_call close_call waitpid_call execve_call : Call
  chdir_call getpid_call getppid_call mkdir_call unlink_call lseek_call kill_call : Call
  dup2_call sleep_call readdir_call getcwd_call : Call

unfoldable pub call_of : ℕ → Option Call
call_of n =
    if n == 1
    then some exit_call
    else if n == 2
    then some fork_call
    else if n == 3
    then some read_call
    else if n == 4
    then some write_call
    else if n == 5
    then some open_call
    else if n == 6
    then some close_call
    else if n == 7
    then some waitpid_call
    else if n == 11
    then some execve_call
    else if n == 12
    then some chdir_call
    else if n == 20
    then some getpid_call
    else if n == 64
    then some getppid_call
    else if n == 39
    then some mkdir_call
    else if n == 10
    then some unlink_call
    else if n == 19
    then some lseek_call
    else if n == 37
    then some kill_call
    else if n == 63
    then some dup2_call
    else if n == 162
    then some sleep_call
    else if n == 89
    then some readdir_call
    else if n == 183
    then some getcwd_call
    else none

-- `(uint32_t)ret`
abbrev pub word_of : ℤ → ℕ
word_of (pos n) = n % 2 ^ 32
word_of (negsuc n) = 2 ^ 32 - 1 - n % 2 ^ 32

abbrev pub enosys : ℤ
enosys = neg 38

-- The string at an address; it ends within the address space, or nowhere.
abbrev pub string_at : Memory → ℕ → Option (List ℕ)
string_at m p = c_string (2 ^ 32) m p

abbrev pub with_files : Kernel → List (Option ℕ) → List ℕ → Kernel
with_files k fds cwd = put_proc k k.current (record (proc_at k k.current) { fds = fds; cwd = cwd })

-- `(whence)` as an `int`; `file_seek` leaves the offset for any other.
pub lseek_at : Sys → ℕ → ℕ → ℕ → Option (ℤ × Sys)
unfolding sys_lseek fd_get
lseek_at s fd offset whence =
    if whence == 0
    then sys_lseek s fd offset seek_set
    else if whence == 1
    then sys_lseek s fd offset seek_cur
    else if whence == 2
    then sys_lseek s fd offset seek_end
    else (elim (fd_get s fd) [
      | none ↦ some (ebadf, s)
      | some a ↦ s.files a >>= λ f. some (pos f.offset, s)
    ])

module _ {V D : Type 0} where
  -- The files and the directory of the current process, and what a call leaves of them.
  abbrev pub files_of : World V D → Sys
  files_of w = record {
    store = w.store;
    root = w.root;
    files = w.files;
    fresh_file = w.fresh_file;
    fds = (proc_at w.kernel w.kernel.current).fds;
    cwd = (proc_at w.kernel w.kernel.current).cwd;
  }

  abbrev pub after : World V D → Sys → World V D
  after w s = record w {
    kernel = with_files w.kernel s.fds s.cwd;
    store = s.store;
    root = s.root;
    files = s.files;
    fresh_file = s.fresh_file;
  }

  abbrev pub answer : World V D → ℤ × Sys → Option (Outcome (World V D))
  answer w r = some (returned r.0 (after w r.1))

  abbrev pub with_store : World V D → ℤ × Store → Option (Outcome (World V D))
  with_store w r = some (returned r.0 (record w { store = r.1 }))

  -- The name that `readdir` copies, which is there with a result of 0.
  abbrev pub name_out : World V D → ℕ → ℤ × List ℕ → Option (Outcome (World V D))
  name_out w p (pos n, name) =
      some (returned (pos n) (record w { memory = store_bytes w.memory p (name ++ (0 ∷ [])) }))
  name_out w p (negsuc n, name) = some (returned (negsuc n) w)

  abbrev pub started : World V D → Option Program × ℤ → Outcome (World V D)
  started w (none, n) = returned n w
  started w (some p, n) = entered p n w

  -- `sys_getcwd` with its test of the buffer.
  unfoldable pub getcwd_to : World V D → ℕ → ℕ → Option (Outcome (World V D))
  unfolding sys_getcwd store_bytes
  getcwd_to w p size =
      if p == 0 then some (returned (neg 22) w) else name_out w p (sys_getcwd (files_of w) size)

  -- How a round of `proc_wait` ends the call; the exit code goes to `status` unless that is NULL.
  unfoldable pub waited : World V D → ℕ → Waited × Kernel → Outcome (World V D)
  unfolding store_word
  waited w status (reaped child code, k) = returned (pos child) (record w {
    kernel = k;
    memory = if status == 0 then w.memory else store_word w.memory status code;
  })
  waited w status (no_child, k) = returned (neg 1) (record w { kernel = k })
  waited w status (again, k) = waits (record w { kernel = k })

  unfoldable pub sys_waitpid : World V D → ℕ → ℕ → ℕ → Outcome (World V D)
  unfolding wait_round waited
  sys_waitpid w pid status sp = waited w status (wait_round w.kernel pid sp)

module _ (spaces : AddressSpaces) (stack_end : ℕ → ℕ) {D : Type 0} (dev : CharDevice D) where
  open spaces use {Vm}

  -- The copy of the stack is not modelled, only the write to the place of `eax` in a `regs_t` at the
  -- stack pointer of the child.
  unfoldable pub sys_fork : World Vm D → Option (ℤ × World Vm D)
  unfolding store_word
  sys_fork w = do
    (r, k, vm) ← proc_fork spaces stack_end w.kernel w.vm
    elim r [
      | none ↦ some (neg 12, record w { kernel = k; vm = vm })
      | some i ↦ some (
        pos (proc_at k i).pid,
        record w {
          kernel = k;
          vm = vm;
          memory = store_word w.memory (add32 (proc_at k i).esp 44) 0;
        },
      )
    ]

  unfoldable pub sys_exit : World Vm D → ℕ → ℕ → Option (World Vm D)
  sys_exit w code sp = do
    (k, vm) ← proc_exit spaces stack_end w.kernel w.vm code sp
    some (record w { kernel = k; vm = vm })

  -- The cases of `syscall_dispatch`. `junk` is what fresh memory holds, `sp` the stack pointer.
  unfoldable pub run_call : (ℕ → ℕ) → ℕ → Call → World Vm D → Regs → Option (Outcome (World Vm D))
  unfolding sys_fork sys_exit sys_waitpid getcwd_to lseek_at sys_open sys_close sys_dup2 sys_readdir
      sys_read sys_write sys_mkdir sys_unlink sys_chdir sys_getpid sys_getppid sys_kill sys_sleep
      exec_program store_bytes load_bytes c_string
  run_call junk sp exit_call w r = sys_exit w r.ebx sp >>= λ w'. some (gone w')
  run_call junk sp fork_call w r = sys_fork w >>= λ q. some (returned q.0 q.1)
  run_call junk sp read_call w r = do
    (n, bytes, s, d) ← sys_read dev w.terminal (files_of w) r.ebx r.edx
    some (
        returned n (record (after w s) { terminal = d; memory = store_bytes w.memory r.ecx bytes }))
  run_call junk sp write_call w r = do
    (n, s, d) ← sys_write dev junk w.terminal (files_of w) r.ebx (load_bytes w.memory r.ecx r.edx)
    some (returned n (record (after w s) { terminal = d }))
  run_call junk sp open_call w r = do
    path ← string_at w.memory r.ebx
    q ← sys_open junk (files_of w) path r.ecx
    answer w q
  run_call junk sp close_call w r = sys_close (files_of w) r.ebx >>= answer w
  run_call junk sp waitpid_call w r = some (sys_waitpid w r.ebx r.ecx sp)
  run_call junk sp execve_call w r = do
    path ← string_at w.memory r.ebx
    some (started w (exec_program path))
  run_call junk sp chdir_call w r = do
    path ← string_at w.memory r.ebx
    q ← sys_chdir junk (files_of w) path
    answer w q
  run_call junk sp getpid_call w r = some (returned (pos (sys_getpid w.kernel)) w)
  run_call junk sp getppid_call w r = some (returned (pos (sys_getppid w.kernel)) w)
  run_call junk sp mkdir_call w r = do
    path ← string_at w.memory r.ebx
    q ← sys_mkdir w.store w.root path
    with_store w q
  run_call junk sp unlink_call w r = do
    path ← string_at w.memory r.ebx
    q ← sys_unlink w.store w.root path
    with_store w q
  run_call junk sp lseek_call w r = lseek_at (files_of w) r.ebx r.ecx r.edx >>= answer w
  run_call junk sp kill_call w r =
      let (n, k) = sys_kill w.kernel r.ebx r.ecx in some (returned n (record w { kernel = k }))
  run_call junk sp dup2_call w r = sys_dup2 (files_of w) r.ebx r.ecx >>= answer w
  run_call junk sp sleep_call w r =
      let (n, k) = sys_sleep w.kernel r.ebx sp in some (later n (record w { kernel = k }))
  run_call junk sp readdir_call w r = sys_readdir (files_of w) r.ebx r.ecx >>= name_out w r.edx
  run_call junk sp getcwd_call w r = getcwd_to w r.ebx r.ecx

  -- Any other number has its own result.
  unfoldable pub run_known :
      (ℕ → ℕ) → ℕ → World Vm D → Regs → Option Call → Option (Outcome (World Vm D))
  unfolding run_call
  run_known junk sp w r none = some (returned enosys w)
  run_known junk sp w r (some c) = run_call junk sp c w r

  unfoldable pub syscall_dispatch : (ℕ → ℕ) → ℕ → World Vm D → Regs → Option (Outcome (World Vm D))
  unfolding run_known call_of
  syscall_dispatch junk sp w r = run_known junk sp w r (call_of r.eax)
