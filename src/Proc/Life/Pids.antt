-- ===== src/Proc/Life/Pids.antt =====
-- The pids that proc/proc.c gives out: `proc_create_kernel` counts from 1, `proc_fork` from 100.
use mai_unix.Prelude.{
  ℕ, ◌≤◌, ◌<◌, ◌≡◌, subst, ◌≢◌, ◌⊎◌, inl, inr, Bool, true, not, some, List, arith,
}
use mai_unix.Proc.Process.{unused, Process, is_unused, Kernel, proc_at, state_at}
use mai_unix.Proc.Life.{proc_create_kernel}
use mai_unix.Proc.Life.Fork.{Placed, proc_create_kernel_lem}
use mai_unix.Proc.Life.Running.{IsSound}

abbrev pub is_live : Kernel → ℕ → Bool
is_live k i = not (is_unused (state_at k i))

abbrev pub pid_at : Kernel → ℕ → ℕ
pid_at k i = (proc_at k i).pid

-- The live processes have different pids, and every pid has been given out by one of the two
-- counters, which have not met.
pub record IsNumbered (k : Kernel) : Type 0 where
  pub different :
      (i j : ℕ) → is_live k i ≡ true → is_live k j ≡ true → pid_at k i ≡ pid_at k j → i ≡ j
  pub given :
      (i : ℕ)
      → is_live k i ≡ true
      → (pid_at k i < k.next_kernel_pid) ⊎ ((100 ≤ pid_at k i) × (pid_at k i < k.next_fork_pid))
  pub apart : (k.next_kernel_pid ≤ 100) × (100 ≤ k.next_fork_pid)

-- A process with a pid that no live process has.
different-Placed :
    {k k' : Kernel} {c : ℕ} {p : Process}
    → IsNumbered k
    → Placed k c p k'
    → ((i : ℕ) → is_live k i ≡ true → pid_at k i ≢ p.pid)
    → (i j : ℕ) → is_live k' i ≡ true
    → is_live k' j ≡ true
    → pid_at k' i ≡ pid_at k' j
    → i ≡ j
different-Placed n s new i j li lj e =
    ground (arith, s.placed i, s.placed j, n.different i j, new i, new j)

-- So does the creation of a kernel process, as long as fewer than 100 have been created.
proc_create_kernel-IsNumbered :
    (stack_end : ℕ → ℕ) (dir : ℕ) (k : Kernel) (name : List ℕ) {i : ℕ} {k' : Kernel}
    → IsSound k
    → state_at k k.current ≢ unused
    → k.next_kernel_pid < 100
    → IsNumbered k
    → proc_create_kernel stack_end dir k name ≡ some (i, k')
    → IsNumbered k'
proc_create_kernel-IsNumbered stack_end dir k name {i} {k'} s live room n e =
    elim (proc_create_kernel_lem stack_end dir k name s live) [
      | inr (full, e') ↦ absurd (cc)
      | inl (c, q, o, e', p, pid, ppid, st, nk, nf) ↦
          let same : o ≡ k' = cc in
          subst IsNumbered same (record {
            different =
                different-Placed n p
                  (λ j l. elim (n.given j l) [ inl a ↦ omega arith | inr a ↦ omega arith ]);
            given = λ j l. ground (arith, p.placed j, n.given j, pid, nf, nk);
            apart = omega (arith, n.apart);
          })
    ]
