-- ===== src/Syscall/Dispatch/Sound.antt =====
-- The calls of syscall/syscall.c on processes.
use mai_unix.Prelude.Words.{add32, mul32}
use mai_unix.Prelude.Memory.{store_word}
use mai_unix.Prelude.Int.{pos, neg}
use mai_unix.Prelude.{
  ℕ, ◌≡◌, refl, sym, ap, ◌∙◌, subst, ◌≢◌, ◌⊎◌, inl, inr, Bool, true, false, Option, some, arith,
}
use mai_unix.Prelude.Faults.{◌>>=◌}
use mai_unix.Fs.File.{CharDevice}
use mai_unix.Proc.Process.{unused, Process, Kernel, proc_at, state_at}
use mai_unix.Proc.Life.{AddressSpaces, Waited, reaped, no_child, again, wait_round}
use mai_unix.Proc.Life.Running.{IsSound, proc_kill-IsSound, wait_round-IsSound}
use mai_unix.Proc.Life.Fork.{Full, proc_fork_lem}
use mai_unix.Proc.Life.Exit.{Corpse, CanLeave, proc_exit-Corpse}
use mai_unix.Proc.Sched.Running.{proc_sleep-OneRuns}
use mai_unix.Syscall.Dispatch.{
  Regs, World, Outcome, returned, later, waits, gone, world_of, Call, exit_call, fork_call,
  waitpid_call, kill_call, sleep_call, call_of, after, waited, sys_waitpid, sys_fork, sys_exit,
  run_call, run_known, syscall_dispatch,
}
use mai_unix.Syscall.Process.{sys_kill, sys_sleep}

-- The calls that act on processes.
abbrev pub is_process_call : Call → Bool
is_process_call exit_call = true
is_process_call fork_call = true
is_process_call waitpid_call = true
is_process_call kill_call = true
is_process_call sleep_call = true
is_process_call _ = false

module _ (spaces : AddressSpaces) (stack_end : ℕ → ℕ) {D : Type 0} (dev : CharDevice D) where
  open spaces use {Vm, clone, destroy}

  abbrev pub SoundAfter : Outcome (World Vm D) → Type 0
  SoundAfter o = IsSound (world_of o).kernel

  waited-Sound :
      (w : World Vm D) (status : ℕ) (q : Waited × Kernel)
      → IsSound q.1
      → SoundAfter (waited w status q)
  unfolding waited
  waited-Sound w status (reaped child code, k) s = s
  waited-Sound w status (no_child, k) s = s
  waited-Sound w status (again, k) s = s

  sys_waitpid-Sound :
      (w : World Vm D) (pid status sp : ℕ)
      → IsSound w.kernel
      → SoundAfter (sys_waitpid w pid status sp)
  unfolding sys_waitpid
  sys_waitpid-Sound w pid status sp s =
      waited-Sound w status (wait_round w.kernel pid sp) (wait_round-IsSound w.kernel pid sp s)

  -- `sleep` gives the processor to another process, if there is one.
  sys_sleep-Sound : (k : Kernel) (seconds sp : ℕ) → IsSound k → IsSound (sys_sleep k seconds sp).1
  unfolding sys_sleep
  sys_sleep-Sound k seconds sp s =
      let (table, one) = proc_sleep-OneRuns k (mul32 seconds 1000) sp s.table_ok s.one_runs in
      record { table_ok = table; one_runs = one }

  sys_kill-Sound : (k : Kernel) (pid sig : ℕ) → IsSound k → IsSound (sys_kill k pid sig).1
  unfolding sys_kill
  sys_kill-Sound k pid sig s = proc_kill-IsSound k pid sig s

  -- What each call on processes may ask of the address space of the caller: a fork that it can be
  -- cloned, an exit that it is the kernel's or can be destroyed.
  abbrev pub Allows : World Vm D → Call → Type 0
  Allows w exit_call = CanLeave spaces stack_end w.vm (proc_at w.kernel w.kernel.current).page_dir
  Allows w fork_call =
      (q : ℕ × Vm) × (clone w.vm (proc_at w.kernel w.kernel.current).page_dir ≡ some q)
  Allows w _ = Unit {0}

  -- How each of them ends: `exit` leaves a zombie with the exit code behind and does not return;
  -- `fork` returns the next fork pid, or -ENOMEM with a full table, where nothing changes; `waitpid`
  -- returns, or waits; `kill` returns, and `sleep` does when the process has the processor back.
  abbrev pub Ends : World Vm D → Regs → Call → Outcome (World Vm D) → Type 0
  Ends w r exit_call (gone v) =
      let me = proc_at w.kernel w.kernel.current in
      Corpse v.kernel w.kernel.current me.pid me.ppid r.ebx
  Ends w r fork_call (returned n v) =
      (n ≡ pos w.kernel.next_fork_pid) ⊎ (Full w.kernel × (n ≡ neg 12) × (v.kernel ≡ w.kernel))
  Ends w r waitpid_call (returned n v) = Unit {0}
  Ends w r waitpid_call (waits v) = Unit {0}
  Ends w r kill_call (returned n v) = Unit {0}
  Ends w r sleep_call (later n v) = n ≡ pos 0
  Ends w r c o = ⊥

  -- The call `c` goes through, ends as it should, and leaves the processes sound.
  abbrev pub Done : World Vm D → Regs → Call → Option (Outcome (World Vm D)) → Type 0
  Done w r c m = (o : Outcome (World Vm D)) × (m ≡ some o) × Ends w r c o × SoundAfter o

  waited-Ends :
      (w : World Vm D) (r : Regs) (status : ℕ) (q : Waited × Kernel)
      → Ends w r waitpid_call (waited w status q)
  unfolding waited
  waited-Ends w r status (reaped child code, k) = tt
  waited-Ends w r status (no_child, k) = tt
  waited-Ends w r status (again, k) = tt

  exit-Done :
      (w : World Vm D) (r : Regs) (sp : ℕ)
      → Allows w exit_call
      → IsSound w.kernel
      → Done w r exit_call (sys_exit spaces stack_end dev w r.ebx sp >>= λ w'. some (gone w'))
  unfolding sys_exit
  exit-Done w r sp leaves s =
      let (k, vm, e, c, after) =
        proc_exit-Corpse spaces stack_end w.kernel w.vm r.ebx sp s leaves in
      (gone (record w { kernel = k; vm = vm }), rw e refl, c, after)

  fork-Done :
      (w : World Vm D) (r : Regs)
      → Allows w fork_call
      → state_at w.kernel w.kernel.current ≢ unused
      → IsSound w.kernel
      → Done w r fork_call (sys_fork spaces stack_end dev w >>= λ q. some (returned q.0 q.1))
  unfolding sys_fork
  fork-Done w r clones live s = elim (proc_fork_lem spaces stack_end w.kernel w.vm s live clones) [
    | inl (i, dir, p, k, vm, e, cloned, made, placed, _, _) ↦
        let at : proc_at k i ≡ p = ground (arith, placed.placed i) in
        let number : (proc_at k i).pid ≡ w.kernel.next_fork_pid =
          ap (λ (q : Process). q.pid) at ∙ made.own_pid in
        (
          returned (pos (proc_at k i).pid) (record w {
            kernel = k;
            vm = vm;
            memory = store_word w.memory (add32 (proc_at k i).esp 44) 0;
          }),
          rw e refl,
          inl (ap pos number),
          placed.sound,
        )
    | inr (full, e) ↦ (returned (neg 12) w, rw e refl, inr (full, refl, refl), s)
  ]

  run_call-Done :
      (junk : ℕ → ℕ) (sp : ℕ) (c : Call) (w : World Vm D) (r : Regs)
      → is_process_call c ≡ true
      → Allows w c
      → state_at w.kernel w.kernel.current ≢ unused
      → IsSound w.kernel
      → Done w r c (run_call spaces stack_end dev junk sp c w r)
  unfolding run_call sys_waitpid sys_sleep
  run_call-Done junk sp exit_call w r e allows live s = exit-Done w r sp allows s
  run_call-Done junk sp fork_call w r e allows live s = fork-Done w r allows live s
  run_call-Done junk sp waitpid_call w r e allows live s = (
    _,
    refl,
    waited-Ends w r r.ecx (wait_round w.kernel r.ebx sp),
    sys_waitpid-Sound w r.ebx r.ecx sp s,
  )
  run_call-Done junk sp kill_call w r e allows live s =
      (_, refl, tt, sys_kill-Sound w.kernel r.ebx r.ecx s)
  run_call-Done junk sp sleep_call w r e allows live s =
      (_, refl, refl, sys_sleep-Sound w.kernel r.ebx sp s)
  run_call-Done junk sp c w r e allows live s = absurd (cc)

  known-Done :
      (junk : ℕ → ℕ) (sp : ℕ) (c : Call) (w : World Vm D) (r : Regs)
      → call_of r.eax ≡ some c
      → syscall_dispatch spaces stack_end dev junk sp w r
        ≡ run_call spaces stack_end dev junk sp c w r
  unfolding syscall_dispatch run_known
  known-Done junk sp c w r e = rw e refl

  -- Each call on processes of a live process, `exit`, `fork`, `waitpid`, `kill` and `sleep`, goes
  -- through, if for `exit` the page directory of the caller is the kernel's or can be destroyed, and
  -- for `fork` it can be cloned. It ends as it should: `exit` does not return and leaves the caller a
  -- zombie with its pid, its parent and the exit code; `fork` returns the next fork pid, or -ENOMEM
  -- with a full table, where the processes stay as they were; `waitpid` returns or waits; `kill`
  -- returns; `sleep` returns 0 when its process runs again. And the table of processes is well formed
  -- then, with at most one process running, the current one. The memory that `status` points into is
  -- not that of the table.
  pub syscall_dispatch-IsSound :
      (junk : ℕ → ℕ) (sp : ℕ) (c : Call) (w : World Vm D) (r : Regs)
      → call_of r.eax ≡ some c
      → is_process_call c ≡ true
      → Allows w c
      → state_at w.kernel w.kernel.current ≢ unused
      → IsSound w.kernel
      → Done w r c (syscall_dispatch spaces stack_end dev junk sp w r)
  syscall_dispatch-IsSound junk sp c w r number e allows live s =
      subst (Done w r c) (sym (known-Done junk sp c w r number))
        (run_call-Done junk sp c w r e allows live s)
