-- ===== src/Proc/Tests.antt =====
-- Runs of proc/proc.c on a table of three processes, and the theorems at that table.
use mai_unix.Prelude.Words.{add32}
use mai_unix.Prelude.{
  ℕ, zero, suc, ◌+◌, ◌*◌, ◌≤◌, ◌<◌, ◌≡◌, refl, ap, ◌≢◌, ◌⊎◌, inr, none, some, List, arith, take,
  replicate,
}
use mai_unix.Proc.Process.{
  max_procs, unused, running, ready, zombie, sleeping, Process, zeroed, Kernel, proc_at, state_at,
  put_proc,
}
use mai_unix.Proc.Sched.{wake, wake_all, scheduler_tick, proc_sleep}
use mai_unix.Proc.Sched.Tick.{NoneReady, Switched, scheduler_tick_lem}
use mai_unix.Proc.Sched.Fair.{run_ticks, runs_soon}
use mai_unix.Proc.Sched.Sleep.{proc_sleep_alone}
use mai_unix.Proc.Life.{proc_init, AddressSpaces, reaped, wait_round, proc_fork, proc_exit}
use mai_unix.Proc.Life.Fork.{Placed, Full, IsChild, proc_fork_lem}
use mai_unix.Proc.Life.Exit.{Corpse, proc_exit-Corpse}
use mai_unix.Proc.Life.Reap.{Reaps, Blocks, Fails, wait_round_lem}
use mai_unix.Proc.Life.Init.{proc_init-unused, proc_init-zeroed, proc_init_lem}
use mai_unix.Proc.Life.Running.{IsSound, put_proc-IsSound, put_proc_keep}
use mai_unix.Proc.Spaces.{vmm_spaces}
use mai_unix.Mm.Vmm.{Vmm}
use mai_unix.Mm.Vmm.Sample.{paging, freed, destroys}

booted : Kernel
unfolding proc_init
booted = proc_init 0x1000

-- A ready process, one that sleeps until tick 5, and a zombie child of the idle process.
abbrev worker : Process
worker = record zeroed { pid = 1; state = ready }

abbrev sleeper : Process
sleeper = record zeroed { pid = 2; state = sleeping; sleep_until = 5 }

abbrev ghost : Process
ghost = record zeroed { pid = 3; state = zombie; exit_code = 7 }

abbrev busy : Kernel
busy = put_proc (put_proc (put_proc booted 1 worker) 2 sleeper) 3 ghost

booted-IsSound : IsSound booted
unfolding booted
booted-IsSound = (proc_init_lem 0x1000).0

booted_live : state_at booted booted.current ≢ unused
unfolding booted
booted_live e = cc

busy-IsSound : IsSound busy
busy-IsSound =
    put_proc-IsSound _ 3 ghost (omega arith) (λ q. cc)
      (put_proc-IsSound _ 2 sleeper (omega arith) (λ q. cc)
        (put_proc-IsSound booted 1 worker (omega arith) (λ q. cc) booted-IsSound))

-- The zombie is the only child.
abbrev mourning : Kernel
mourning = put_proc booted 1 ghost

mourning-IsSound : IsSound mourning
mourning-IsSound = put_proc-IsSound booted 1 ghost (omega arith) (λ q. cc) booted-IsSound

only_ghost :
    (j : ℕ) → j < max_procs → state_at mourning j ≢ unused → (proc_at mourning j).pid ≡ 3 → j ≡ 1
unfolding booted
only_ghost zero lt live e = absurd (omega arith)
only_ghost (suc zero) lt live e = refl
only_ghost (suc (suc j)) lt live e =
    absurd (unused_pid (proc_init-unused 0x1000 (suc (suc j)) (omega arith)))
  where
    unused_pid : state_at booted (suc (suc j)) ≡ unused → ⊥
    unused_pid u = live u

-- The idle process is preempted by the worker at the first tick, and gets its turn back.
worker_runs : (scheduler_tick busy 0x500).current ≡ 1
unfolding booted scheduler_tick
worker_runs = refl

reaps_ghost : (wait_round busy 3 0).0 ≡ reaped 3 7
unfolding booted wait_round
reaps_ghost = refl

never_ready : (i : ℕ) → i ≢ 0 → (wake 1 (proc_at booted i)).state ≢ ready
unfolding booted wake
never_ready i ne e =
    let u : (wake 1 (proc_at booted i)).state ≡ unused =
      ap (λ (p : Process). (wake 1 p).state) (proc_init-zeroed 0x1000 i (omega arith)) in
    cc

-- An address space manager that hands out directories one after the other.
abbrev counting : AddressSpaces
counting = record {
  Vm = ℕ;
  kernel_directory = λ _. 0x1000;
  clone = λ n _. some (n, n + 4096);
  destroy = λ n _. some n;
}

abbrev stacks : ℕ → ℕ
stacks i = 0x100000 + (i + 1) * 8192

abbrev forty : List ℕ
forty = replicate 63 0x500

scheduler_tick_lem_example :
    ((d : ℕ) × Switched (wake_all busy) 0x500 d (scheduler_tick busy 0x500))
    ⊎ (NoneReady (wake_all busy).table busy.current 1 max_procs
        × (scheduler_tick busy 0x500 ≡ wake_all busy))
scheduler_tick_lem_example = scheduler_tick_lem busy 0x500 busy-IsSound.table_ok

runs_soon_example :
    (m : ℕ) × (m ≤ 63)
    × ((run_ticks busy (take m forty)).current ≡ 1)
    × (state_at (run_ticks busy (take m forty)) 1 ≡ running)
unfolding booted
runs_soon_example =
    runs_soon busy 1 forty busy-IsSound.table_ok (omega arith) (omega arith) refl (omega arith)

proc_sleep_alone_example :
    let k' = proc_sleep booted 1000 0x500 in
    (k'.current ≡ booted.current) × (state_at k' booted.current ≡ sleeping)
unfolding booted
proc_sleep_alone_example =
    proc_sleep_alone booted 1000 0x500 booted-IsSound.table_ok (λ i lt ne e. never_ready i ne e)
      (omega arith) (omega arith)

wait_round_lem_example : Reaps busy 3 0x500 ⊎ (Blocks busy 3 0x500 ⊎ Fails busy 3 0x500)
wait_round_lem_example = wait_round_lem busy 3 0x500 busy-IsSound.table_ok

-- The first process in the address space of page 2.
abbrev leaving : Kernel
leaving = put_proc busy 0 (record (proc_at busy 0) { page_dir = 0x2000 })

leaving-IsSound : IsSound leaving
unfolding booted proc_init
leaving-IsSound = put_proc_keep busy 0 _ (omega arith) (λ q. refl) busy-IsSound

proc_exit-Corpse_example :
    (k' : Kernel) × (vm' : Vmm) × (proc_exit vmm_spaces stacks leaving paging 3 0x500
      ≡ some (k', vm'))
    × Corpse k' leaving.current
        (proc_at leaving leaving.current).pid
        (proc_at leaving leaving.current).ppid
        3
    × IsSound k'
unfolding booted proc_init
proc_exit-Corpse_example =
    proc_exit-Corpse vmm_spaces stacks leaving paging 3 0x500 leaving-IsSound
      (inr (freed, destroys))

proc_fork_lem_example :
    ((i dir : ℕ) × (p : Process) × (k' : Kernel) × (vm' : ℕ) × (proc_fork counting stacks booted
          0x5000
        ≡ some (some i, k', vm'))
      × (counting.clone 0x5000 (proc_at booted booted.current).page_dir ≡ some (dir, vm'))
      × IsChild (stacks i) booted.next_fork_pid dir (proc_at booted booted.current) p
      × Placed booted i p k'
      × (k'.next_fork_pid ≡ add32 booted.next_fork_pid 1)
      × (k'.next_kernel_pid ≡ booted.next_kernel_pid))
    ⊎ (Full booted × (proc_fork counting stacks booted 0x5000 ≡ some (none, booted, 0x5000)))
proc_fork_lem_example =
    proc_fork_lem counting stacks booted 0x5000 booted-IsSound booted_live ((0x5000, 0x6000), refl)
