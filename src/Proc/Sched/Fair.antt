-- ===== src/Proc/Sched/Fair.antt =====
-- The scheduler of proc/proc.c starves no process.
use mai_unix.Prelude.Words.{add32}
use mai_unix.Prelude.{
  ℕ, zero, suc, ◌+◌, ◌-◌, ◌%◌, ◌≤◌, ◌<◌, ◌≡◌, sym, subst, ◌≢◌, ◌⊎◌, inl, inr, true, false, List, [],
  ◌∷◌, arith, dec_lt, ℕ_discrete, length, take,
}
use mai_unix.Proc.Process.{max_procs, running, ready, Process, Kernel, proc_at, state_at}
use mai_unix.Proc.Sched.{wake, wake_all, scheduler_tick}
use mai_unix.Proc.Sched.Tick.{
  IsTable, proc_at-wake_all, current-wake_all, wake_all-IsTable, behind, ready_in, NoneReady,
  proc_at-switch_to, current-switch_to, Switched, scheduler_tick_lem, scheduler_tick-IsTable,
}

-- Timer ticks in a row. The list holds the stack pointer that is saved at each.
pub run_ticks : Kernel → List ℕ → Kernel
run_ticks k [] = k
run_ticks k (sp ∷ sps) = run_ticks (scheduler_tick k sp) sps

-- How many steps place `p` is behind place `cur`.
abbrev pub distance : ℕ → ℕ → ℕ
distance cur p = (p + max_procs - cur) % max_procs

wake-ready : (now : ℕ) (p : Process) → p.state ≡ ready → (wake now p).state ≡ ready
unfolding wake
wake-ready now p e = ground arith

-- What has become of the ready process `p`: it runs, or it waits and the current one is nearer.
abbrev Nearer : ℕ → ℕ → Kernel → Type 0
Nearer cur p k' =
    ((k'.current ≡ p) × (state_at k' p ≡ running))
    ⊎ ((k'.current ≢ p) × (state_at k' p ≡ ready) × (distance k'.current p < distance cur p))

module _ (k : Kernel) (p sp : ℕ) (v : IsTable k) (h : p < max_procs) (ne : p ≢ k.current)
    (waiting : state_at k p ≡ ready) where
  there : behind k.current (distance k.current p) ≡ p
  there = omega (arith, v.current_in)

  waits : ready_in k.table (behind k.current (distance k.current p)) ≡ true
  waits = rw there (rw waiting)

  switch-Nearer : (d : ℕ) {k' : Kernel} → Switched k sp d k' → Nearer k.current p k'
  switch-Nearer d s =
      let next = behind k.current d in
      let away : next ≢ k.current = omega (arith, s.steps, v.current_in) in
      let near : d ≤ distance k.current p = elim (dec_lt (distance k.current p) d) [
        | yes lt ↦
            absurd (skipped lt (s.nearest (distance k.current p) (omega (arith, v.current_in)) lt))
        | no ge ↦ omega arith
      ] in
      subst (Nearer k.current p) (sym s.switched) (elim (ℕ_discrete p next) [
        | yes eq ↦ inl (
          ground (arith, current-switch_to k next sp),
          ground (arith, proc_at-switch_to k next sp p v (omega arith) away),
        )
        | no ne' ↦ inr (
          ground (arith, current-switch_to k next sp),
          ground (arith, proc_at-switch_to k next sp p v (omega arith) away),
          rw (current-switch_to k next sp) (omega (arith, s.steps, v.current_in)),
        )
      ])
    where
      skipped :
          distance k.current p < d
          → ready_in k.table (behind k.current (distance k.current p)) ≡ false
          → ⊥
      skipped lt no_one = cc waits

  -- With a ready process waiting, the search cannot come back empty.
  not_none : ¬ NoneReady k.table k.current 1 max_procs
  not_none all = cc (waits, all (distance k.current p) (omega (arith, v.current_in)) (omega arith))

-- One tick either runs the waiting process or brings the current process nearer to it.
tick-Nearer :
    (k : Kernel) (p sp : ℕ)
    → IsTable k
    → p < max_procs
    → p ≢ k.current
    → state_at k p ≡ ready
    → Nearer k.current p (scheduler_tick k sp)
tick-Nearer k p sp v h ne e =
    let wv = wake_all-IsTable k v in
    let waiting : state_at (wake_all k) p ≡ ready =
      ground (arith, proc_at-wake_all k p v h, wake-ready (add32 k.ticks 1) (proc_at k p)) in
    let ne' : p ≢ (wake_all k).current = rw (current-wake_all k) ne in
    elim (scheduler_tick_lem k sp v) [
      | inl (d, s) ↦
          subst (λ (c : ℕ). Nearer c p (scheduler_tick k sp)) (current-wake_all k)
            (switch-Nearer (wake_all k) p sp wv h ne' waiting d s)
      | inr (none_ready, same) ↦
          absurd (not_none (wake_all k) p sp wv h ne' waiting (rw (current-wake_all k) none_ready))
    ]

-- Some number of ticks, at most `n`, puts `p` on the processor.
abbrev RunsWithin : Kernel → ℕ → List ℕ → ℕ → Type 0
RunsWithin k p sps n =
    (m : ℕ) × (m ≤ n)
    × ((run_ticks k (take m sps)).current ≡ p)
    × (state_at (run_ticks k (take m sps)) p ≡ running)

runs_within :
    (n : ℕ) (k : Kernel) (p : ℕ) (sps : List ℕ)
    → IsTable k
    → p < max_procs
    → p ≢ k.current
    → state_at k p ≡ ready
    → distance k.current p ≤ n
    → n ≤ length sps
    → RunsWithin k p sps n
unfolding run_ticks
runs_within zero k p sps v h ne e far long = absurd (omega (arith, v.current_in))
runs_within (suc n) k p [] v h ne e far long = absurd (omega arith)
runs_within (suc n) k p (sp ∷ sps) v h ne e far long = elim (tick-Nearer k p sp v h ne e) [
  | inl (now, runs) ↦ (1, omega arith, now, runs)
  | inr (later, still, nearer) ↦
      let (m, le, cur, runs) =
        runs_within n (scheduler_tick k sp) p sps (scheduler_tick-IsTable k sp v) h
          (λ q. later (sym q)) still (omega arith) (omega arith) in
      (suc m, omega arith, cur, runs)
]

-- A ready process that is not the current one is put on the processor by one of the next 63 timer
-- ticks, whatever the states of the other processes and their deadlines are.
pub runs_soon :
    (k : Kernel) (p : ℕ) (sps : List ℕ)
    → IsTable k
    → p < max_procs
    → p ≢ k.current
    → state_at k p ≡ ready
    → 63 ≤ length sps
    → (m : ℕ) × (m ≤ 63)
      × ((run_ticks k (take m sps)).current ≡ p)
      × (state_at (run_ticks k (take m sps)) p ≡ running)
runs_soon k p sps v h ne e long = runs_within 63 k p sps v h ne e (omega (arith, v.current_in)) long
