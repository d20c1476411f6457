-- ===== src/Proc/Life/Fork.antt =====
-- What `proc_fork` and `proc_create_kernel` of proc/proc.c make.
use mai_unix.Prelude.Words.{add32, sub32}
use mai_unix.Prelude.{
  ℕ, ◌≡◌, refl, ap, ◌∙◌, ◌≢◌, ◌⊎◌, inl, inr, true, none, some, List, arith, ℕ_discrete, ◌==◌,
  if◌then◌else◌,
}
use mai_unix.Proc.Process.{
  max_procs, ProcState, unused, ready, Process, zeroed, is_unused, Kernel, proc_at, state_at,
  put_proc,
}
use mai_unix.Proc.Sched.Tick.{proc_at-put_proc, put_proc-IsTable}
use mai_unix.Proc.Life.{root_path, AddressSpaces, proc_create_kernel, forked, proc_fork}
use mai_unix.Proc.Life.Slots.{NoneIn, First, alloc_proc_lem}
use mai_unix.Proc.Life.Running.{IsSound, put_proc-IsSound}

-- `k'` is `k` with the process `p` at the place `i`, which was the first unused one, and nothing
-- else in the table changed.
pub record Placed (k : Kernel) (i : ℕ) (p : Process) (k' : Kernel) : Type 0 where
  pub first_unused : First (λ q. is_unused q.state) k.table i
  pub placed : (j : ℕ) → proc_at k' j ≡ (if j == i then p else proc_at k j)
  pub same_current : k'.current ≡ k.current
  pub sound : IsSound k'

abbrev pub Full : Kernel → Type 0
Full k = NoneIn (λ q. is_unused q.state) k.table 0 max_procs

-- Clearing the place first makes no difference.
placed_lem :
    (k : Kernel) (i : ℕ) (p : Process)
    → IsSound k
    → First (λ q. is_unused q.state) k.table i
    → p.state ≡ ready
    → Placed k i p (put_proc (put_proc k i zeroed) i p)
placed_lem k i p s f e = record {
  first_unused = f;
  placed = λ j. ground (
    arith,
    proc_at-put_proc (put_proc k i zeroed) i j p (put_proc-IsTable k i zeroed s.table_ok)
        f.in_table,
    proc_at-put_proc k i j zeroed s.table_ok f.in_table,
  );
  same_current = refl;
  sound =
      put_proc-IsSound (put_proc k i zeroed) i p f.in_table (λ q. cc)
        (put_proc-IsSound k i zeroed f.in_table (λ q. cc) s);
}

-- `p` is what a fork of `parent` makes of it: a ready child of its own pid and page directory, whose
-- stack pointer lies as deep in its own kernel stack, which ends at `top`, as that of the parent in
-- the parent's. All else is that of the parent.
pub record IsChild (top pid dir : ℕ) (parent p : Process) : Type 0 where
  pub own_pid : p.pid ≡ pid
  pub of_parent : p.ppid ≡ parent.pid
  pub is_ready : p.state ≡ ready
  pub own_directory : p.page_dir ≡ dir
  pub own_stack : p.kernel_stack_top ≡ top
  pub same_depth : p.esp ≡ sub32 top (sub32 parent.kernel_stack_top parent.esp)
  pub same_fds : p.fds ≡ parent.fds
  pub same_name : p.name ≡ parent.name
  pub same_cwd : p.cwd ≡ parent.cwd
  pub same_signals : (p.pending_sigs ≡ parent.pending_sigs) × (p.sig_mask ≡ parent.sig_mask)
  pub same_exit_code : p.exit_code ≡ parent.exit_code
  pub same_waits : (p.wait_pid ≡ parent.wait_pid) × (p.sleep_until ≡ parent.sleep_until)

-- The pid counters do not matter to the table.
renumbered :
    {k k' : Kernel} {i : ℕ} {p : Process} (a b : ℕ)
    → Placed k i p k'
    → Placed k i p (record k' { next_kernel_pid = a; next_fork_pid = b })
renumbered a b s = record {
  first_unused = s.first_unused;
  placed = s.placed;
  same_current = s.same_current;
  sound = record {
    table_ok = record { size = s.sound.table_ok.size; current_in = s.sound.table_ok.current_in };
    one_runs = s.sound.one_runs;
  };
}

unused_of : (st : ProcState) → is_unused st ≡ true → st ≡ unused
unused_of st e = ground arith

-- The caller is live, so the place that is cleared is not its own.
parent_kept :
    (k : Kernel) (i : ℕ)
    → IsSound k
    → state_at k k.current ≢ unused
    → First (λ q. is_unused q.state) k.table i
    → proc_at (put_proc k i zeroed) k.current ≡ proc_at k k.current
parent_kept k i s live f = elim (ℕ_discrete k.current i) [
  | yes eq ↦ absurd (live (ap (state_at k) eq ∙ unused_of (state_at k i) f.passes))
  | no ne ↦ ground (arith, proc_at-put_proc k i k.current zeroed s.table_ok f.in_table)
]

-- `proc_create_kernel` puts a ready process with the next kernel pid, the caller as its parent and
-- an empty stack at the first unused place; or the table is full and nothing changes.
pub proc_create_kernel_lem :
    (stack_end : ℕ → ℕ) (dir : ℕ) (k : Kernel) (name : List ℕ)
    → IsSound k
    → state_at k k.current ≢ unused
    → ((i : ℕ) × (p : Process) × (k' : Kernel) × (proc_create_kernel stack_end dir k name
          ≡ some (i, k'))
        × Placed k i p k'
        × (p.pid ≡ k.next_kernel_pid)
        × (p.ppid ≡ (proc_at k k.current).pid)
        × (p.state ≡ ready)
        × (k'.next_kernel_pid ≡ add32 k.next_kernel_pid 1)
        × (k'.next_fork_pid ≡ k.next_fork_pid))
      ⊎ (Full k × (proc_create_kernel stack_end dir k name ≡ none))
unfolding proc_create_kernel
proc_create_kernel_lem stack_end dir k name s live = elim (alloc_proc_lem k) [
  | inr (e, full) ↦ inr (full, rw (e, proc_create_kernel))
  | inl (i, e, f) ↦
      let parent = proc_at (put_proc k i zeroed) k.current in
      let p = record zeroed {
        pid = k.next_kernel_pid;
        ppid = parent.pid;
        state = ready;
        page_dir = dir;
        name = name;
        cwd = root_path;
        esp = sub32 (sub32 (stack_end i) 4) 16;
        kernel_stack_top = stack_end i;
      } in
      inl (
        i,
        p,
        _,
        rw (e, proc_create_kernel),
        renumbered (add32 k.next_kernel_pid 1) k.next_fork_pid (placed_lem k i p s f refl),
        refl,
        ap (λ (q : Process). q.pid) (parent_kept k i s live f),
        refl,
        refl,
        refl,
      )
]

module _ (spaces : AddressSpaces) (stack_end : ℕ → ℕ) where
  open spaces use {Vm, clone}

  -- `proc_fork` of a live process whose address space can be cloned puts a child at the first unused
  -- place: a ready process with the next fork pid, the caller as its parent, the clone as its page
  -- directory, its own kernel stack at the same depth, and all else as the caller has it. It changes no
  -- other process and counts the pid; or the table is full and nothing changes.
  pub proc_fork_lem :
      (k : Kernel) (vm : Vm)
      → IsSound k
      → state_at k k.current ≢ unused
      → ((r : ℕ × Vm) × (clone vm (proc_at k k.current).page_dir ≡ some r))
      → ((i dir : ℕ) × (p : Process) × (k' : Kernel) × (vm' : Vm) × (proc_fork spaces stack_end k vm
            ≡ some (some i, k', vm'))
          × (clone vm (proc_at k k.current).page_dir ≡ some (dir, vm'))
          × IsChild (stack_end i) k.next_fork_pid dir (proc_at k k.current) p
          × Placed k i p k'
          × (k'.next_fork_pid ≡ add32 k.next_fork_pid 1)
          × (k'.next_kernel_pid ≡ k.next_kernel_pid))
        ⊎ (Full k × (proc_fork spaces stack_end k vm ≡ some (none, k, vm)))
  unfolding proc_fork
  proc_fork_lem k vm s live ((dir, vm'), e') = elim (alloc_proc_lem k) [
    | inr (e, full) ↦ inr (full, rw (e, proc_fork))
    | inl (i, e, f) ↦
        let parent = proc_at k k.current in
        let kept = parent_kept k i s live f in
        let p = forked stack_end i k.next_fork_pid dir parent in
        inl (
          i,
          dir,
          p,
          record (put_proc (put_proc k i zeroed) i p) { next_fork_pid = add32 k.next_fork_pid 1 },
          vm',
          rw (e, proc_fork) (rw kept (rw e' (rw kept))),
          e',
          record {
            own_pid = refl;
            of_parent = refl;
            is_ready = refl;
            own_directory = refl;
            own_stack = refl;
            same_depth = refl;
            same_fds = refl;
            same_name = refl;
            same_cwd = refl;
            same_signals = (refl, refl);
            same_exit_code = refl;
            same_waits = (refl, refl);
          },
          renumbered k.next_kernel_pid (add32 k.next_fork_pid 1) (placed_lem k i p s f refl),
          refl,
          refl,
        )
  ]
