-- ===== src/Proc/Sched/Sleep.antt =====
-- Sleeping and waking in proc/proc.c.
use mai_unix.Prelude.Words.{add32}
use mai_unix.Prelude.{
  ℕ, ◌+◌, ◌/◌, ◌^◌, ◌≤◌, ◌<◌, ◌≡◌, sym, ap, ◌∙◌, subst, ◌≢◌, ◌⊎◌, inl, inr, false, arith,
  ℕ_discrete, ◌==◌, if◌then◌else◌,
}
use mai_unix.Proc.Process.{
  max_procs, running, ready, sleeping, Process, is_running, Kernel, proc_at, state_at, put_proc,
}
use mai_unix.Proc.Sched.{wake, wake_all, switch_to, scheduler_tick, proc_sleep}
use mai_unix.Proc.Sched.Tick.{
  IsTable, proc_at-put_proc, put_proc-IsTable, proc_at-wake_all, current-wake_all, wake_all-IsTable,
  behind, proc_at-switch_to, current-switch_to, scheduler_tick_lem,
}

-- What the switch leaves of a process other than the chosen one: all but a state PROC_RUNNING
-- and the saved stack pointer.
sleeping-switch_to :
    (k : Kernel) (next sp i : ℕ)
    → IsTable k
    → next < max_procs
    → next ≢ k.current
    → state_at k next ≡ ready
    → state_at k i ≡ sleeping
    → (state_at (switch_to k next sp) i ≡ sleeping)
      × ((proc_at (switch_to k next sp) i).sleep_until ≡ (proc_at k i).sleep_until)
sleeping-switch_to k next sp i v h ne r e = elim (ℕ_discrete i next) [
  | yes eq ↦ absurd (never (subst (λ (j : ℕ). state_at k j ≡ sleeping) eq e))
  | no ne' ↦ elim (ℕ_discrete i k.current) [
    | yes eq ↦ ground (
      arith,
      proc_at-switch_to k next sp i v h ne,
      ap (state_at k) eq,
      ap (λ (j : ℕ). (proc_at k j).sleep_until) eq,
    )
    | no ne'' ↦ ground (arith, proc_at-switch_to k next sp i v h ne)
  ]
]
  where
    never : state_at k next ≡ sleeping → ⊥
    never s = cc

-- A ready process is chosen, or waits on.
ready-switch_to :
    (k : Kernel) (next sp i : ℕ)
    → IsTable k
    → next < max_procs
    → next ≢ k.current
    → state_at k i ≡ ready
    → let k' = switch_to k next sp in
      (state_at k' i ≡ ready) ⊎ ((state_at k' i ≡ running) × (k'.current ≡ i))
ready-switch_to k next sp i v h ne e = elim (ℕ_discrete i next) [
  | yes eq ↦
      inr
        (ground (arith, proc_at-switch_to k next sp i v h ne), current-switch_to k next sp ∙ sym eq)
  | no ne' ↦ elim (ℕ_discrete i k.current) [
    | yes eq ↦ inl (ground (arith, proc_at-switch_to k next sp i v h ne, ap (state_at k) eq))
    | no ne'' ↦ inl (ground (arith, proc_at-switch_to k next sp i v h ne))
  ]
]

wake_early : (now : ℕ) (p : Process) → now < p.sleep_until → wake now p ≡ p
unfolding wake
wake_early now p h = ground arith

wake_due :
    (now : ℕ) (p : Process) → p.state ≡ sleeping → p.sleep_until ≤ now → (wake now p).state ≡ ready
unfolding wake
wake_due now p e h = ground arith

-- No tick before its deadline wakes a sleeping process: it sleeps on, with the same deadline.
tick_before :
    (k : Kernel) (sp i : ℕ)
    → IsTable k
    → i < max_procs
    → state_at k i ≡ sleeping
    → add32 k.ticks 1 < (proc_at k i).sleep_until
    → let k' = scheduler_tick k sp in
      (state_at k' i ≡ sleeping) × ((proc_at k' i).sleep_until ≡ (proc_at k i).sleep_until)
tick_before k sp i v h e early =
    let w = wake_all k in
    let wv = wake_all-IsTable k v in
    let same : proc_at w i ≡ proc_at k i =
      proc_at-wake_all k i v h ∙ wake_early (add32 k.ticks 1) (proc_at k i) early in
    let asleep : state_at w i ≡ sleeping = ap (λ (p : Process). p.state) same ∙ e in
    let until : (proc_at w i).sleep_until ≡ (proc_at k i).sleep_until =
      ap (λ (p : Process). p.sleep_until) same in
    let On : Kernel → Type 0 =
      λ o. (state_at o i ≡ sleeping) × ((proc_at o i).sleep_until ≡ (proc_at k i).sleep_until) in
    elim (scheduler_tick_lem k sp v) [
      | inl (d, s) ↦
          let (a, b) =
            sleeping-switch_to w (behind w.current d) sp i wv (omega arith)
              (omega (arith, s.steps, wv.current_in)) s.was_ready asleep in
          subst On (sym s.switched) (a, b ∙ until)
      | inr (none_ready, kept) ↦ subst On (sym kept) (asleep, until)
    ]

-- The first tick at or past its deadline makes a sleeping process ready, or runs it at once.
tick_due :
    (k : Kernel) (sp i : ℕ)
    → IsTable k
    → i < max_procs
    → state_at k i ≡ sleeping
    → (proc_at k i).sleep_until ≤ add32 k.ticks 1
    → let k' = scheduler_tick k sp in
      (state_at k' i ≡ ready) ⊎ ((state_at k' i ≡ running) × (k'.current ≡ i))
tick_due k sp i v h e due =
    let w = wake_all k in
    let wv = wake_all-IsTable k v in
    let awake : state_at w i ≡ ready =
      ap (λ (p : Process). p.state) (proc_at-wake_all k i v h)
      ∙ wake_due (add32 k.ticks 1) (proc_at k i) e due in
    let Up : Kernel → Type 0 =
      λ o. (state_at o i ≡ ready) ⊎ ((state_at o i ≡ running) × (o.current ≡ i)) in
    elim (scheduler_tick_lem k sp v) [
      | inl (d, s) ↦ subst Up (sym s.switched) (
          ready-switch_to w (behind w.current d) sp i wv (omega arith)
            (omega (arith, s.steps, wv.current_in)) awake)
      | inr (none_ready, kept) ↦ subst Up (sym kept) (inl awake)
    ]

-- The state that `proc_sleep` hands to the scheduler.
abbrev laid_down : Kernel → ℕ → Kernel
laid_down k ms = put_proc k k.current (record (proc_at k k.current) {
  sleep_until = add32 k.ticks (add32 (ms / 10) 1);
  state = sleeping;
})

proc_sleep-eq :
    (k : Kernel) (ms sp : ℕ) → IsTable k → proc_sleep k ms sp ≡ scheduler_tick (laid_down k ms) sp
unfolding proc_sleep
proc_sleep-eq k ms sp v =
    let p = proc_at (laid_down k ms) k.current in
    let still : is_running p.state ≡ false = ground (
      arith,
      proc_at-put_proc k k.current k.current
          (record (proc_at k k.current) {
            sleep_until = add32 k.ticks (add32 (ms / 10) 1);
            state = sleeping;
          })
          v v.current_in,
    ) in
    rw still

-- With no other process ready after waking those that are due, `proc_sleep` of 10 ms or more, where
-- the tick it waits for is a word, does not give up the processor: it returns at once to its caller,
-- whose state stays PROC_SLEEPING.
pub proc_sleep_alone :
    (k : Kernel) (ms sp : ℕ)
    → IsTable k
    → ((i : ℕ)
        → i < max_procs
        → i ≢ k.current
        → (wake (add32 k.ticks 1) (proc_at k i)).state ≢ ready)
    → 10 ≤ ms
    → k.ticks + (ms / 10 + 1) < 2 ^ 32
    → let k' = proc_sleep k ms sp in (k'.current ≡ k.current) × (state_at k' k.current ≡ sleeping)
proc_sleep_alone k ms sp v alone long fits =
    let later : add32 k.ticks 1 < add32 k.ticks (add32 (ms / 10) 1) = omega arith in
    let p = record (proc_at k k.current) {
      sleep_until = add32 k.ticks (add32 (ms / 10) 1);
      state = sleeping;
    } in
    let k₁ = put_proc k k.current p in
    let v₁ = put_proc-IsTable k k.current p v in
    let at : (i : ℕ) → proc_at k₁ i ≡ (if i == k.current then p else proc_at k i) =
      λ i. proc_at-put_proc k k.current i p v v.current_in in
    let w = wake_all k₁ in
    let asleep : state_at w k.current ≡ sleeping = ground (
      arith,
      proc_at-wake_all k₁ k.current v₁ v.current_in,
      at k.current,
      wake_early (add32 k.ticks 1) p later,
    ) in
    let Alone : Kernel → Type 0 =
      λ o. (o.current ≡ k.current) × (state_at o k.current ≡ sleeping) in
    subst Alone (sym (proc_sleep-eq k ms sp v)) (elim (scheduler_tick_lem k₁ sp v₁) [
      | inl (d, s) ↦
          let next = behind w.current d in
          let away : next ≢ k.current = omega (arith, s.steps, v.current_in, current-wake_all k₁) in
          let there : proc_at k₁ next ≡ proc_at k next = ground (arith, at next) in
          let chosen : proc_at w next ≡ wake (add32 k.ticks 1) (proc_at k next) =
            proc_at-wake_all k₁ next v₁ (omega arith) ∙ ap (wake (add32 k.ticks 1)) there in
          absurd (
            alone next (omega arith) away
              (ap (λ (q : Process). q.state) (sym chosen) ∙ s.was_ready))
      | inr (none_ready, kept) ↦ subst Alone (sym kept) (current-wake_all k₁, asleep)
    ])
