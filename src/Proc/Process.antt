-- ===== src/Proc/Process.antt =====
-- The process table of proc/proc.c and include/kernel/proc.h. The bytes of the kernel stacks are
-- not modelled: of a stack there is only its top and the stack pointer into it.
use mai_unix.Prelude.{ℕ, Bool, true, false, Option, none, List, [], set, get_or, replicate}

abbrev pub max_fds : ℕ
max_fds = 32

abbrev pub max_procs : ℕ
max_procs = 64

-- proc_state_t
pub data ProcState : Type 0 where
  unused running ready blocked zombie sleeping : ProcState

-- process_t. An open file is named by its place in the table of open files (fs/vfs.c allocates it);
-- a page directory by its address. A `pid_t` is its bit pattern, so -1 is 2 ^ 32 - 1.
pub record Process : Type 0 where
  pub pid : ℕ
  pub ppid : ℕ
  pub state : ProcState
  pub esp : ℕ
  pub kernel_stack_top : ℕ
  pub page_dir : ℕ
  pub fds : List (Option ℕ)
  pub exit_code : ℕ
  pub wait_pid : ℕ
  pub pending_sigs : ℕ
  pub sig_mask : ℕ
  pub sleep_until : ℕ
  pub name : List ℕ
  pub cwd : List ℕ

-- What `kmemset(p, 0, sizeof(process_t))` leaves.
abbrev pub zeroed : Process
zeroed = record {
  pid = 0;
  ppid = 0;
  state = unused;
  esp = 0;
  kernel_stack_top = 0;
  page_dir = 0;
  fds = replicate max_fds none;
  exit_code = 0;
  wait_pid = 0;
  pending_sigs = 0;
  sig_mask = 0;
  sleep_until = 0;
  name = [];
  cwd = [];
}

abbrev pub is_unused : ProcState → Bool
is_unused unused = true
is_unused _ = false

abbrev pub is_running : ProcState → Bool
is_running running = true
is_running _ = false

abbrev pub is_ready : ProcState → Bool
is_ready ready = true
is_ready _ = false

abbrev pub is_blocked : ProcState → Bool
is_blocked blocked = true
is_blocked _ = false

abbrev pub is_zombie : ProcState → Bool
is_zombie zombie = true
is_zombie _ = false

abbrev pub is_sleeping : ProcState → Bool
is_sleeping sleeping = true
is_sleeping _ = false

-- The static variables: the table, the place of the current process in it, the ticks since boot,
-- the two counters for new pids, and what `gdt_set_kernel_stack` and `vmm_switch` load into the
-- processor. `current_proc` is set by `proc_init` and never NULL afterwards.
pub record Kernel : Type 0 where
  pub table : List Process
  pub current : ℕ
  pub ticks : ℕ
  pub next_kernel_pid : ℕ
  pub next_fork_pid : ℕ
  pub esp0 : ℕ
  pub loaded_dir : ℕ

abbrev pub proc_at : Kernel → ℕ → Process
proc_at k i = get_or k.table i zeroed

abbrev pub state_at : Kernel → ℕ → ProcState
state_at k i = (proc_at k i).state

-- A write through a pointer to the process at place `i`.
abbrev pub put_proc : Kernel → ℕ → Process → Kernel
put_proc k i p = record k { table = set k.table i p }

abbrev pub set_state : Kernel → ℕ → ProcState → Kernel
set_state k i st = put_proc k i (record (proc_at k i) { state = st })
