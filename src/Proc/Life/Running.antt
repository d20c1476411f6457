-- ===== src/Proc/Life/Running.antt =====
-- The operations of proc/proc.c on the life of a process keep the invariant of the scheduler: a
-- well formed table with at most one running process, the current one.
use mai_unix.Prelude.{
  ℕ, ◌<◌, ◌≡◌, refl, sym, ◌∙◌, subst, ◌≢◌, inl, inr, ◌||◌, Option, none, some, arith, ℕ_discrete,
  if◌then◌else◌, Bool-cases,
}
use mai_unix.Proc.Process.{
  max_procs, ProcState, running, ready, Process, is_blocked, is_sleeping, Kernel, state_at,
  put_proc,
}
use mai_unix.Proc.Sched.Tick.{IsTable, proc_at-put_proc, put_proc-IsTable}
use mai_unix.Proc.Sched.Running.{OneRuns, put_proc-OneRuns, proc_yield-OneRuns}
use mai_unix.Proc.Sched.{proc_yield}
use mai_unix.Proc.Life.{proc_get, Waited, wait_round, proc_kill, wake_parent}
use mai_unix.Proc.Life.Wait.{wait_round-cases}
use mai_unix.Proc.Life.Slots.{proc_get_lem}

-- The invariant of the scheduler.
pub record IsSound (k : Kernel) : Type 0 where
  pub table_ok : IsTable k
  pub one_runs : OneRuns k

pub put_proc-IsSound :
    (k : Kernel) (i : ℕ) (p : Process)
    → i < max_procs
    → p.state ≢ running
    → IsSound k
    → IsSound (put_proc k i p)
put_proc-IsSound k i p h ne s = record {
  table_ok = put_proc-IsTable k i p s.table_ok;
  one_runs = put_proc-OneRuns k i p s.table_ok h ne s.one_runs;
}

-- A write that leaves a running process running, if it is the current one.
pub put_proc_keep :
    (k : Kernel) (i : ℕ) (p : Process)
    → i < max_procs
    → (p.state ≡ running → i ≡ k.current)
    → IsSound k
    → IsSound (put_proc k i p)
put_proc_keep k i p h keep s = record {
  table_ok = put_proc-IsTable k i p s.table_ok;
  one_runs = λ j lt e. elim (ℕ_discrete j i) [
    | yes eq ↦ eq ∙ keep (ground (arith, proc_at-put_proc k i j p s.table_ok h))
    | no ne ↦ s.one_runs j lt (ground (arith, proc_at-put_proc k i j p s.table_ok h))
  ];
}

pub proc_yield-IsSound : (k : Kernel) (sp : ℕ) → IsSound k → IsSound (proc_yield k sp)
proc_yield-IsSound k sp s =
    let (v, one) = proc_yield-OneRuns k sp s.table_ok s.one_runs in
    record { table_ok = v; one_runs = one }

-- An update of the process that a search finds, or of none.
after_search :
    (k : Kernel) (o : Option ℕ) (f : ℕ → Kernel)
    → ((i : ℕ) → o ≡ some i → IsSound (f i))
    → IsSound k
    → IsSound (elim o [ none ↦ k | some i ↦ f i ])
after_search k none f found s = s
after_search k (some i) f found s = found i refl

proc_get-lt : (k : Kernel) (pid : ℕ) {i : ℕ} → proc_get k pid ≡ some i → i < max_procs
proc_get-lt k pid {i} e = elim (proc_get_lem k pid) [
  | inl (j, e', f) ↦ ground (arith, f.in_table)
  | inr (e', all) ↦ absurd (ground arith)
]

-- A live parent that is set ready, or not at all, is not set running.
pub wake_parent-IsSound : (k : Kernel) (ppid : ℕ) → IsSound k → IsSound (wake_parent k ppid)
unfolding wake_parent
wake_parent-IsSound k ppid s =
    after_search k (proc_get k ppid) _
      (λ i e. elim (Bool-cases (is_blocked (state_at k i))) [
        | inl b ↦ rw b (put_proc-IsSound k i _ (proc_get-lt k ppid e) (λ q. cc) s)
        | inr b ↦ rw b s
      ])
      s

-- `proc_kill` keeps the invariant, also when the process that it finds is the running one.
pub proc_kill-IsSound : (k : Kernel) (pid sig : ℕ) → IsSound k → IsSound (proc_kill k pid sig)
unfolding proc_kill
proc_kill-IsSound k pid sig s =
    after_search k (proc_get k pid) _
      (λ i e.
        put_proc_keep k i _ (proc_get-lt k pid e)
          (λ q. s.one_runs i (proc_get-lt k pid e) (not_woken (state_at k i) q)) s)
      s
  where
    not_woken :
        (st : ProcState)
        → (if is_blocked st || is_sleeping st then ready else st) ≡ running
        → st ≡ running
    not_woken st q = ground arith

-- A round of `proc_wait` keeps it, whether it reaps a child, finds none or blocks.
pub wait_round-IsSound : (k : Kernel) (pid sp : ℕ) → IsSound k → IsSound (wait_round k pid sp).1
wait_round-IsSound k pid sp s =
    let After : Waited × Kernel → Type 0 = λ r. IsSound r.1 in
    elim (wait_round-cases k pid sp) [
      | inl (i, f, e) ↦ subst After (sym e) (put_proc-IsSound k i _ f.in_table (λ q. cc) s)
      | inr (inl (none_dead, child, e)) ↦ subst After (sym e) (
          proc_yield-IsSound _ sp
            (put_proc-IsSound k k.current _ s.table_ok.current_in (λ q. cc) s))
      | inr (inr (childless, e)) ↦ subst After (sym e) s
    ]
