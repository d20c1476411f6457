-- ===== src/Syscall/Process.antt =====
-- The calls of syscall/syscall.c that pass on to proc/proc.c.
use mai_unix.Prelude.Int.{ℤ, pos}
use mai_unix.Prelude.Words.{mul32}
use mai_unix.Prelude.{ℕ}
use mai_unix.Proc.Process.{Kernel, proc_at}
use mai_unix.Proc.Sched.{proc_sleep}
use mai_unix.Proc.Life.{proc_kill}

unfoldable pub sys_getpid : Kernel → ℕ
sys_getpid k = (proc_at k k.current).pid

unfoldable pub sys_getppid : Kernel → ℕ
sys_getppid k = (proc_at k k.current).ppid

unfoldable pub sys_kill : Kernel → ℕ → ℕ → ℤ × Kernel
sys_kill k pid sig = (pos 0, proc_kill k pid sig)

-- The seconds as milliseconds; `sp` is the stack pointer at the switch.
unfoldable pub sys_sleep : Kernel → ℕ → ℕ → ℤ × Kernel
sys_sleep k seconds sp = (pos 0, proc_sleep k (mul32 seconds 1000) sp)
