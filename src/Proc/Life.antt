-- ===== src/Proc/Life.antt =====
-- The life of a process in proc/proc.c: creation, fork, exit, wait and kill. The address spaces of
-- mm/vmm.c are behind an interface; `stack_end i` is the address just behind the kernel stack of
-- the process at place `i`, which the compiler and the linker choose.
pub mod Slots
pub mod Fork
pub mod Running
pub mod Pids
pub mod Wait
pub mod Reap
pub mod Init
pub mod Exit
use mai_unix.Prelude.Words.{add32, sub32}
use mai_unix.Prelude.{
  ℕ, zero, suc, ◌+◌, ◌-◌, ◌%◌, ◌^◌, bit_or, Bool, not, ◌&&◌, ◌||◌, Option, none, some, List, [],
  ◌∷◌, ◌==◌, if◌then◌else◌, get_or, replicate,
}
use mai_unix.Proc.Process.{
  max_procs, unused, running, ready, blocked, zombie, Process, zeroed, is_unused, is_blocked,
  is_zombie, is_sleeping, Kernel, proc_at, state_at, put_proc, set_state,
}
use mai_unix.Proc.Sched.{proc_yield}

-- The loops of this file over the table: the first place from `i` on, within `n` rounds, whose
-- process passes the test.
pub find_slot : (Process → Bool) → List Process → ℕ → ℕ → Option ℕ
find_slot test table zero i = none
find_slot test table (suc n) i =
    let rest = find_slot test table n (i + 1) in
    if test (get_or table i zeroed) then some i else rest

abbrev pub has_pid : ℕ → Process → Bool
has_pid pid p = (p.pid == pid) && not (is_unused p.state)

pub alloc_proc : Kernel → Option (ℕ × Kernel)
unfolding find_slot
alloc_proc k = elim (find_slot (λ p. is_unused p.state) k.table max_procs 0) [
  | none ↦ none
  | some i ↦ some (i, put_proc k i zeroed)
]

pub proc_get : Kernel → ℕ → Option ℕ
unfolding find_slot
proc_get k pid = find_slot (has_pid pid) k.table max_procs 0

abbrev pub idle_name : List ℕ
idle_name = b'i' ∷ b'd' ∷ b'l' ∷ b'e' ∷ []

abbrev pub root_path : List ℕ
root_path = b'/' ∷ []

-- The pid counters are the `static pid_t next_pid` of the two functions that create processes.
unfoldable pub proc_init : ℕ → Kernel
proc_init kernel_dir = record {
  table =
      record zeroed { state = running; page_dir = kernel_dir; name = idle_name; cwd = root_path }
      ∷ replicate 63 zeroed;
  current = 0;
  ticks = 0;
  next_kernel_pid = 1;
  next_fork_pid = 100;
  esp0 = 0;
  loaded_dir = kernel_dir;
}

-- What proc/proc.c uses of mm/vmm.c; `none` is a fault there.
pub record AddressSpaces : Type 1 where
  pub Vm : Type 0
  pub kernel_directory : Vm → ℕ
  pub clone : Vm → ℕ → Option (ℕ × Vm)
  pub destroy : Vm → ℕ → Option Vm

-- The stack gets the entry point and four zero registers, 20 bytes.
pub proc_create_kernel : (ℕ → ℕ) → ℕ → Kernel → List ℕ → Option (ℕ × Kernel)
unfolding alloc_proc
proc_create_kernel stack_end kernel_dir k name = elim (alloc_proc k) [
  | none ↦ none
  | some (i, k₁) ↦ some (
    i,
    record (put_proc k₁ i (record zeroed {
      pid = k.next_kernel_pid;
      ppid = (proc_at k₁ k.current).pid;
      state = ready;
      page_dir = kernel_dir;
      name = name;
      cwd = root_path;
      esp = sub32 (sub32 (stack_end i) 4) 16;
      kernel_stack_top = stack_end i;
    })) { next_kernel_pid = add32 k.next_kernel_pid 1 },
  )
]

-- The child of `proc_fork`, at place `i` and with page directory `dir`.
abbrev pub forked : (ℕ → ℕ) → ℕ → ℕ → ℕ → Process → Process
forked stack_end i pid dir parent = record parent {
  pid = pid;
  ppid = parent.pid;
  state = ready;
  page_dir = dir;
  esp = sub32 (stack_end i) (sub32 parent.kernel_stack_top parent.esp);
  kernel_stack_top = stack_end i;
}

-- The test of the first loop of `proc_wait`: the zombie children of `parent`.
abbrev pub reapable : ℕ → ℕ → Process → Bool
reapable parent pid p =
    is_zombie p.state && (p.ppid == parent) && ((pid == 2 ^ 32 - 1) || (p.pid == pid))

-- The second loop of `proc_wait`.
abbrev pub child_of : ℕ → Process → Bool
child_of parent p = (p.ppid == parent) && not (is_unused p.state)

-- The end of one round of the loop of `proc_wait`: a return of a pid with what goes through
-- `status`, a return of -1, or another round once the process runs again.
pub data Waited : Type 0 where
  reaped : ℕ → ℕ → Waited
  no_child : Waited
  again : Waited

unfoldable pub wait_round : Kernel → ℕ → ℕ → Waited × Kernel
unfolding find_slot proc_yield
wait_round k pid sp =
    let me = (proc_at k k.current).pid in
    elim (find_slot (reapable me pid) k.table max_procs 0) [
      | some i ↦ (reaped (proc_at k i).pid (proc_at k i).exit_code, set_state k i unused)
      | none ↦ elim (find_slot (child_of me) k.table max_procs 0) [
        | none ↦ (no_child, k)
        | some _ ↦ (again, proc_yield (set_state k k.current blocked) sp)
      ]
    ]

-- `1u << sig` counts the shift modulo 32, as the processor does.
pub proc_kill : Kernel → ℕ → ℕ → Kernel
unfolding proc_get
proc_kill k pid sig = elim (proc_get k pid) [
  | none ↦ k
  | some i ↦
      let p = proc_at k i in
      put_proc k i (record p {
        pending_sigs = bit_or p.pending_sigs (2 ^ (sig % 32));
        state = if is_blocked p.state || is_sleeping p.state then ready else p.state;
      })
]

-- What `proc_exit` does for the parent.
pub wake_parent : Kernel → ℕ → Kernel
unfolding proc_get
wake_parent k ppid = elim (proc_get k ppid) [
  | none ↦ k
  | some i ↦ if is_blocked (state_at k i) then set_state k i ready else k
]

module _ (spaces : AddressSpaces) (stack_end : ℕ → ℕ) where
  open spaces use {Vm, kernel_directory, clone, destroy}

  -- The inner `none` is the NULL of a full table.
  pub proc_fork : Kernel → Vm → Option (Option ℕ × Kernel × Vm)
  unfolding alloc_proc
  proc_fork k vm = elim (alloc_proc k) [
    | none ↦ some (none, k, vm)
    | some (i, k₁) ↦ elim (clone vm (proc_at k₁ k.current).page_dir) [
      | none ↦ none
      | some (dir, vm') ↦ some (
        some i,
        record (put_proc k₁ i (forked stack_end i k.next_fork_pid dir (proc_at k₁ k.current))) {
          next_fork_pid = add32 k.next_fork_pid 1;
        },
        vm',
      )
    ]
  ]

  -- The address space of the current process, unless it is the kernel's.
  pub free_space : Kernel → Vm → Option (Kernel × Vm)
  free_space k vm =
      let me = proc_at k k.current in
      if me.page_dir == kernel_directory vm then some (k, vm) else (elim (destroy vm me.page_dir) [
        | none ↦ none
        | some vm' ↦
            some (put_proc k k.current (record me { page_dir = kernel_directory vm' }), vm')
      ])

  -- `proc_exit` up to its call of `proc_yield`.
  pub leave : Kernel → Vm → ℕ → Option (Kernel × Vm)
  unfolding wake_parent free_space
  leave k vm code =
      let me = record (proc_at k k.current) { state = zombie; exit_code = code } in
      free_space (wake_parent (put_proc k k.current me) me.ppid) vm

  pub proc_exit : Kernel → Vm → ℕ → ℕ → Option (Kernel × Vm)
  unfolding leave proc_yield
  proc_exit k vm code sp = elim (leave k vm code) [
    | none ↦ none
    | some (k', vm') ↦ some (proc_yield k' sp, vm')
  ]
