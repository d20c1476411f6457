-- ===== src/Proc/Life/Reap.antt =====
-- One round of `proc_wait` of proc/proc.c, by its conditions on the children and by what it leaves in
-- the table.
use mai_unix.Prelude.{
  ℕ, ◌-◌, ◌^◌, ◌<◌, ◌≡◌, refl, sym, ap, ◌∙◌, subst, ◌≢◌, ◌⊎◌, inl, inr, true, false, arith,
  ℕ_discrete,
}
use mai_unix.Proc.Process.{
  max_procs, unused, ready, blocked, zombie, Process, is_running, Kernel, proc_at, state_at,
  set_state,
}
use mai_unix.Proc.Sched.{wake, wake_all, switch_to, scheduler_tick, proc_yield}
use mai_unix.Proc.Sched.Tick.{
  IsTable, proc_at-put_proc, put_proc-IsTable, proc_at-wake_all, wake_all-IsTable, behind,
  proc_at-switch_to, scheduler_tick_lem, proc_yield-stopped,
}
use mai_unix.Proc.Life.{reapable, child_of, reaped, no_child, again, wait_round}
use mai_unix.Proc.Life.Wait.{wait_round-cases}

-- A dead child of the process with the pid `me`, that is asked for by `pid`; -1 asks for any.
pub record IsReapable (me pid : ℕ) (p : Process) : Type 0 where
  pub dead : p.state ≡ zombie
  pub mine : p.ppid ≡ me
  pub asked : (pid ≡ 2 ^ 32 - 1) ⊎ (p.pid ≡ pid)

-- A child that has not been reaped.
pub record IsChildOf (me : ℕ) (p : Process) : Type 0 where
  pub there : p.state ≢ unused
  pub mine : p.ppid ≡ me

reapable-IsReapable : (me pid : ℕ) (p : Process) → reapable me pid p ≡ true → IsReapable me pid p
reapable-IsReapable me pid p t = record {
  dead = ground arith;
  mine = ground arith;
  asked = elim (ℕ_discrete pid (2 ^ 32 - 1)) [ yes e ↦ inl e | no ne ↦ inr (ground arith) ];
}

IsReapable-reapable : (me pid : ℕ) (p : Process) → IsReapable me pid p → reapable me pid p ≡ true
IsReapable-reapable me pid p r = ground (arith, r.dead, r.mine, r.asked)

not_reapable : (me pid : ℕ) (p : Process) → reapable me pid p ≡ false → ¬ IsReapable me pid p
not_reapable me pid p miss r =
    let hit : reapable me pid p ≡ true = IsReapable-reapable me pid p r in absurd (cc)

child_of-IsChildOf : (me : ℕ) (p : Process) → child_of me p ≡ true → IsChildOf me p
child_of-IsChildOf me p t = record { there = λ e. absurd (ground arith); mine = ground arith }

not_child_of : (me : ℕ) (p : Process) → child_of me p ≡ false → ¬ IsChildOf me p
not_child_of me p miss c =
    let hit : child_of me p ≡ true = ground (arith, c.there, c.mine) in absurd (cc)

-- A blocked process stays blocked over a tick: the scheduler wakes only those that sleep, and chooses
-- only ready ones.
wake-blocked : (now : ℕ) (p : Process) → p.state ≡ blocked → (wake now p).state ≡ blocked
unfolding wake
wake-blocked now p e = ground arith

blocked-switch_to :
    (k : Kernel) (next sp i : ℕ)
    → IsTable k
    → next < max_procs
    → next ≢ k.current
    → state_at k next ≡ ready
    → state_at k i ≡ blocked
    → state_at (switch_to k next sp) i ≡ blocked
blocked-switch_to k next sp i v h ne r e = elim (ℕ_discrete i next) [
  | yes eq ↦ absurd (never (subst (λ (j : ℕ). state_at k j ≡ blocked) eq e))
  | no ne' ↦ elim (ℕ_discrete i k.current) [
    | yes eq ↦ ground (arith, proc_at-switch_to k next sp i v h ne, ap (state_at k) eq)
    | no ne'' ↦ ground (arith, proc_at-switch_to k next sp i v h ne)
  ]
]
  where
    never : state_at k next ≡ blocked → ⊥
    never s = cc

blocked-scheduler_tick :
    (k : Kernel) (sp i : ℕ)
    → IsTable k
    → i < max_procs
    → state_at k i ≡ blocked
    → state_at (scheduler_tick k sp) i ≡ blocked
blocked-scheduler_tick k sp i v lt e =
    let w = wake_all k in
    let wv = wake_all-IsTable k v in
    let still : state_at w i ≡ blocked =
      ap (λ (p : Process). p.state) (proc_at-wake_all k i v lt) ∙ wake-blocked _ (proc_at k i) e in
    let Blocked : Kernel → Type 0 = λ o. state_at o i ≡ blocked in
    elim (scheduler_tick_lem k sp v) [
      | inl (d, s) ↦ subst Blocked (sym s.switched) (
          blocked-switch_to w (behind w.current d) sp i wv (omega arith)
            (omega (arith, s.steps, wv.current_in)) s.was_ready still)
      | inr (none_ready, kept) ↦ subst Blocked (sym kept) still
    ]

module _ (k : Kernel) (pid sp : ℕ) where
  -- The first dead child that is asked for is returned with its exit code, its place is free, and no
  -- other process changes.
  abbrev pub Reaps : Type 0
  Reaps =
      (i : ℕ) × (i < max_procs)
      × IsReapable (proc_at k k.current).pid pid (proc_at k i)
      × ((j : ℕ) → j < i → ¬ IsReapable (proc_at k k.current).pid pid (proc_at k j))
      × (k' : Kernel) × (wait_round k pid sp
          ≡ (reaped (proc_at k i).pid (proc_at k i).exit_code, k'))
      × (state_at k' i ≡ unused)
      × ((j : ℕ) → j ≢ i → proc_at k' j ≡ proc_at k j)
      × (k'.current ≡ k.current)

  -- No dead child is asked for, but there is a child: the caller is blocked, and goes on with
  -- another round when it runs again.
  abbrev pub Blocks : Type 0
  Blocks =
      ((j : ℕ) → j < max_procs → ¬ IsReapable (proc_at k k.current).pid pid (proc_at k j))
      × (i : ℕ) × (i < max_procs)
      × IsChildOf (proc_at k k.current).pid (proc_at k i)
      × (k' : Kernel) × (wait_round k pid sp ≡ (again, k'))
      × (state_at k' k.current ≡ blocked)

  -- There is no child.
  abbrev pub Fails : Type 0
  Fails =
      ((j : ℕ) → j < max_procs → ¬ IsChildOf (proc_at k k.current).pid (proc_at k j))
      × (wait_round k pid sp ≡ (no_child, k))

  blocks_caller :
      IsTable k → state_at (proc_yield (set_state k k.current blocked) sp) k.current ≡ blocked
  blocks_caller v =
      let p = record (proc_at k k.current) { state = blocked } in
      let k₁ = set_state k k.current blocked in
      let v₁ = put_proc-IsTable k k.current p v in
      let at = proc_at-put_proc k k.current k.current p v v.current_in in
      let e : state_at k₁ k.current ≡ blocked = ground arith in
      let stopped : is_running (state_at k₁ k.current) ≡ false = rw e in
      subst (λ (o : Kernel). state_at o k.current ≡ blocked)
        (sym (proc_yield-stopped k₁ sp stopped))
        (blocked-scheduler_tick k₁ sp k.current v₁ v.current_in e)

  -- One round of `proc_wait`. It returns the first dead child that matches `pid`, with its exit code,
  -- and frees its place, and nothing else changes; or no dead child matches but a child is there, and
  -- the caller is blocked before another round; or the caller has no child at all, and it returns -1
  -- and changes nothing.
  pub wait_round_lem : IsTable k → Reaps ⊎ (Blocks ⊎ Fails)
  wait_round_lem v =
      let me = (proc_at k k.current).pid in
      elim (wait_round-cases k pid sp) [
        | inl (i, f, e) ↦
            let p = record (proc_at k i) { state = unused } in
            let at = proc_at-put_proc k i i p v f.in_table in
            inl (
              i,
              f.in_table,
              reapable-IsReapable me pid (proc_at k i) f.passes,
              (λ j lt. not_reapable me pid (proc_at k j) (f.none_before j (omega arith) lt)),
              set_state k i unused,
              e,
              ground arith,
              (λ j ne. ground (arith, proc_at-put_proc k i j p v f.in_table)),
              refl,
            )
        | inr (inl (none_dead, (i, f), e)) ↦ inr (
            inl (
              (λ j lt. not_reapable me pid (proc_at k j) (none_dead j (omega arith) lt)),
              i,
              f.in_table,
              child_of-IsChildOf me (proc_at k i) f.passes,
              proc_yield (set_state k k.current blocked) sp,
              e,
              blocks_caller v,
            ))
        | inr (inr (childless, e)) ↦
            inr (inr ((λ j lt. not_child_of me (proc_at k j) (childless j (omega arith) lt)), e))
      ]
