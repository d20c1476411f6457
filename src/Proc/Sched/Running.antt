-- ===== src/Proc/Sched/Running.antt =====
-- At most one process runs: what the scheduler of proc/proc.c keeps.
use mai_unix.Prelude.Words.{add32}
use mai_unix.Prelude.{ℕ, ◌<◌, ◌≡◌, sym, subst, ◌≢◌, inl, inr, arith, Bool-cases}
use mai_unix.Proc.Process.{
  max_procs, running, ready, Process, is_running, Kernel, proc_at, state_at, put_proc, set_state,
}
use mai_unix.Proc.Sched.{wake, wake_all, switch_to, scheduler_tick, proc_yield, proc_sleep}
use mai_unix.Proc.Sched.Tick.{
  IsTable, proc_at-put_proc, put_proc-IsTable, proc_at-wake_all, wake_all-IsTable, behind,
  proc_at-switch_to, current-switch_to, switch_to-IsTable, Switched, scheduler_tick_lem,
}

-- Only the current process can be in the state PROC_RUNNING.
abbrev pub OneRuns : Kernel → Type 0
OneRuns k = (i : ℕ) → i < max_procs → state_at k i ≡ running → i ≡ k.current

wake-running : (now : ℕ) (p : Process) → (wake now p).state ≡ running → p.state ≡ running
unfolding wake
wake-running now p h = ground arith

wake_all-OneRuns : (k : Kernel) → IsTable k → OneRuns k → OneRuns (wake_all k)
wake_all-OneRuns k v one i h e = current_kept (
    one i h
      (wake-running (add32 k.ticks 1) (proc_at k i) (ground (arith, proc_at-wake_all k i v h))))
  where
    current_kept : i ≡ k.current → i ≡ (wake_all k).current
    current_kept e = unfold wake_all in e

switch_to-OneRuns :
    (k : Kernel) (next sp : ℕ)
    → IsTable k
    → next < max_procs
    → next ≢ k.current
    → OneRuns k
    → OneRuns (switch_to k next sp)
switch_to-OneRuns k next sp v h ne one i lt e =
    ground (arith, proc_at-switch_to k next sp i v h ne, one i lt, current-switch_to k next sp)

Switched-OneRuns :
    (k : Kernel) {sp d : ℕ} {k' : Kernel}
    → IsTable k
    → OneRuns k
    → Switched k sp d k'
    → IsTable k' × OneRuns k'
Switched-OneRuns k {sp} {d} {k'} v one s =
    let next = behind k.current d in
    let away : next ≢ k.current = omega (arith, s.steps, v.current_in) in
    let both : IsTable (switch_to k next sp) × OneRuns (switch_to k next sp) = (
      switch_to-IsTable k next sp v (omega arith),
      switch_to-OneRuns k next sp v (omega arith) away one,
    ) in
    subst (λ o. IsTable o × OneRuns o) (sym s.switched) both

-- `scheduler_tick` keeps the table well formed and at most one process running, the current one.
scheduler_tick-OneRuns :
    (k : Kernel) (sp : ℕ)
    → IsTable k
    → OneRuns k
    → IsTable (scheduler_tick k sp) × OneRuns (scheduler_tick k sp)
scheduler_tick-OneRuns k sp v one =
    let w = wake_all-IsTable k v in
    let o = wake_all-OneRuns k v one in
    elim (scheduler_tick_lem k sp v) [
      | inl (d, s) ↦ Switched-OneRuns (wake_all k) w o s
      | inr (none_ready, same) ↦ subst (λ q. IsTable q × OneRuns q) (sym same) (w, o)
    ]

-- A write to a process that does not set it running keeps the invariant.
pub put_proc-OneRuns :
    (k : Kernel) (j : ℕ) (p : Process)
    → IsTable k
    → j < max_procs
    → p.state ≢ running
    → OneRuns k
    → OneRuns (put_proc k j p)
put_proc-OneRuns k j p v h ne one i lt e = ground (arith, proc_at-put_proc k j i p v h, one i lt)

-- `proc_yield` keeps both.
pub proc_yield-OneRuns :
    (k : Kernel) (sp : ℕ)
    → IsTable k
    → OneRuns k
    → IsTable (proc_yield k sp) × OneRuns (proc_yield k sp)
unfolding proc_yield
proc_yield-OneRuns k sp v one = elim (Bool-cases (is_running (state_at k k.current))) [
  | inl runs ↦ rw runs (
      scheduler_tick-OneRuns (set_state k k.current ready) sp (put_proc-IsTable k k.current _ v)
        (put_proc-OneRuns k k.current _ v v.current_in (λ e. cc) one))
  | inr stopped ↦ rw stopped (scheduler_tick-OneRuns k sp v one)
]

-- `proc_sleep` keeps both.
pub proc_sleep-OneRuns :
    (k : Kernel) (ms sp : ℕ)
    → IsTable k
    → OneRuns k
    → IsTable (proc_sleep k ms sp) × OneRuns (proc_sleep k ms sp)
unfolding proc_sleep
proc_sleep-OneRuns k ms sp v one =
    proc_yield-OneRuns _ sp (put_proc-IsTable k k.current _ v)
      (put_proc-OneRuns k k.current _ v v.current_in (λ e. cc) one)
