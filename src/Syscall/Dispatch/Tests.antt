-- ===== src/Syscall/Dispatch/Tests.antt =====
-- System calls of the process that `proc_init` of proc/proc.c makes, with an address space of mm/vmm.c.
use mai_unix.Prelude.Int.{pos}
use mai_unix.Prelude.{ℕ, ◌+◌, ◌*◌, ◌≡◌, refl, ◌≢◌, inr, none, some, [], arith, length}
use mai_unix.Fs.File.{CharDevice}
use mai_unix.Fs.Sample.{sample, junk}
use mai_unix.Proc.Process.{unused, Kernel, proc_at, state_at, put_proc}
use mai_unix.Proc.Life.{proc_init}
use mai_unix.Proc.Spaces.{vmm_spaces}
use mai_unix.Mm.Vmm.Sample.{paging, freed, destroys}
use mai_unix.Mm.Vmm.{Vmm}
use mai_unix.Proc.Life.Init.{proc_init_lem}
use mai_unix.Proc.Life.Running.{IsSound, put_proc_keep}
use mai_unix.Syscall.Dispatch.{Regs, World, returned, exit_call, call_of, enosys, syscall_dispatch}
use mai_unix.Syscall.Dispatch.Sound.{Done, syscall_dispatch-IsSound}

abbrev stacks : ℕ → ℕ
stacks i = 0x100000 + (i + 1) * 8192

-- A terminal that counts what it is given, and has nothing to read.
abbrev counter : CharDevice ℕ
counter = record {
  dev_read = λ n size. (pos 0, [], n);
  dev_write = λ n bytes. (pos (length bytes), n + length bytes);
}

booted : Kernel
unfolding proc_init
booted = proc_init 0x1000

booted-IsSound : IsSound booted
unfolding booted
booted-IsSound = (proc_init_lem 0x1000).0

booted_live : state_at booted booted.current ≢ unused
unfolding booted
booted_live e = cc

-- The first process, in the address space of page 2.
abbrev user : Kernel
user = put_proc booted 0 (record (proc_at booted 0) { page_dir = 0x2000 })

user-IsSound : IsSound user
unfolding booted proc_init
user-IsSound = put_proc_keep booted 0 _ (omega arith) (λ q. refl) booted-IsSound

user_live : state_at user user.current ≢ unused
unfolding booted proc_init
user_live e = cc

abbrev start : World Vmm ℕ
start = record {
  kernel = user;
  vm = paging;
  memory = λ q. 0;
  store = sample;
  root = some 1;
  files = λ a. none;
  fresh_file = 1;
  terminal = 0;
}

-- `exit` with the code 3.
abbrev exit_regs : Regs
exit_regs = record { eax = 1; ebx = 3; ecx = 0; edx = 0 }

-- `brk` is defined but not handled.
not_handled :
    syscall_dispatch vmm_spaces stacks counter junk 0x500 start (record exit_regs { eax = 45 })
    ≡ some (returned enosys start)
unfolding syscall_dispatch
not_handled = refl

syscall_dispatch-IsSound_example :
    Done vmm_spaces stacks counter start exit_regs exit_call
      (syscall_dispatch vmm_spaces stacks counter junk 0x500 start exit_regs)
unfolding booted proc_init call_of
syscall_dispatch-IsSound_example =
    syscall_dispatch-IsSound vmm_spaces stacks counter junk 0x500 exit_call start exit_regs refl
      refl (inr (freed, destroys)) user_live user-IsSound
