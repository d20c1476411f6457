-- ===== src/Libc/Process.antt =====
-- The functions of libc/libc.c on the current process.
use mai_unix.Prelude.Words.{mul32}
use mai_unix.Prelude.{ℕ, Option}
use mai_unix.Proc.Process.{Kernel, proc_at}
use mai_unix.Proc.Sched.{proc_sleep}
use mai_unix.Proc.Life.{AddressSpaces, proc_exit}

unfoldable pub getpid : Kernel → ℕ
getpid k = (proc_at k k.current).pid

-- The seconds as milliseconds; `sp` is the stack pointer at the switch.
unfoldable pub sleep : Kernel → ℕ → ℕ → Kernel
sleep k seconds sp = proc_sleep k (mul32 seconds 1000) sp

-- The end of the current process, up to the switch away from it.
unfoldable pub exit :
    (spaces : AddressSpaces) → (ℕ → ℕ) → Kernel → spaces.Vm → ℕ → ℕ → Option (Kernel × spaces.Vm)
exit spaces stack_end k vm code sp = proc_exit spaces stack_end k vm code sp
