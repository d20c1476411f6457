-- ===== src/Proc/Life/Exit.antt =====
-- What `proc_exit` of proc/proc.c leaves behind.
use mai_unix.Prelude.Words.{add32}
use mai_unix.Prelude.{
  ℕ, ◌<◌, ◌≡◌, refl, sym, ap, ◌∙◌, subst, ◌≢◌, ◌⊎◌, inl, inr, true, false, none, some, arith,
  ℕ_discrete, ◌==◌, if◌then◌else◌, Bool-cases,
}
use mai_unix.Proc.Process.{
  max_procs, ready, zombie, is_running, is_blocked, Kernel, proc_at, state_at, put_proc, set_state,
}
use mai_unix.Proc.Sched.{wake_all, switch_to, scheduler_tick, proc_yield}
use mai_unix.Proc.Sched.Tick.{
  IsTable, proc_at-put_proc, proc_at-wake_all, wake_all-IsTable, behind, proc_at-switch_to,
  scheduler_tick_lem, wake-zombie, proc_yield-stopped,
}
use mai_unix.Proc.Life.{proc_get, AddressSpaces, wake_parent, free_space, proc_exit}
use mai_unix.Proc.Life.Slots.{proc_get_lem}
use mai_unix.Proc.Life.Running.{
  IsSound, put_proc-IsSound, put_proc_keep, proc_yield-IsSound, wake_parent-IsSound,
}

-- The process at place `i` is dead: a zombie with its exit code, for its parent to reap.
pub record Corpse (k : Kernel) (i pid ppid code : ℕ) : Type 0 where
  pub dead : state_at k i ≡ zombie
  pub same_pid : (proc_at k i).pid ≡ pid
  pub same_ppid : (proc_at k i).ppid ≡ ppid
  pub exit_code : (proc_at k i).exit_code ≡ code

module _ {i pid ppid code : ℕ} (lt : i < max_procs) where
  Corpse-wake_all :
      (k : Kernel) → IsTable k → Corpse k i pid ppid code → Corpse (wake_all k) i pid ppid code
  Corpse-wake_all k v c =
      ground (arith, proc_at-wake_all k i v lt, wake-zombie (add32 k.ticks 1) (proc_at k i) c.dead)

  Corpse-switch_to :
      (k : Kernel) (next sp : ℕ)
      → IsTable k
      → next < max_procs
      → next ≢ k.current
      → state_at k next ≡ ready
      → Corpse k i pid ppid code
      → Corpse (switch_to k next sp) i pid ppid code
  Corpse-switch_to k next sp v h ne r c = elim (ℕ_discrete i next) [
    | yes eq ↦ absurd (never (subst (λ (j : ℕ). state_at k j ≡ zombie) eq c.dead))
    | no ne' ↦ elim (ℕ_discrete i k.current) [
      | yes eq ↦
          let cur : Corpse k k.current pid ppid code =
            subst (λ (j : ℕ). Corpse k j pid ppid code) eq c in
          ground (arith, proc_at-switch_to k next sp i v h ne, cur)
      | no ne'' ↦ ground (arith, proc_at-switch_to k next sp i v h ne)
    ]
  ]
    where
      never : state_at k next ≡ zombie → ⊥
      never s = cc

  -- No tick of the scheduler revives a zombie or touches what its parent reads.
  pub Corpse-scheduler_tick :
      (k : Kernel) (sp : ℕ)
      → IsTable k
      → Corpse k i pid ppid code
      → Corpse (scheduler_tick k sp) i pid ppid code
  Corpse-scheduler_tick k sp v c =
      let w = wake_all k in
      let wv = wake_all-IsTable k v in
      let Dead : Kernel → Type 0 = λ o. Corpse o i pid ppid code in
      elim (scheduler_tick_lem k sp v) [
        | inl (d, s) ↦ subst Dead (sym s.switched) (
            Corpse-switch_to w (behind w.current d) sp wv (omega arith)
              (omega (arith, s.steps, wv.current_in)) s.was_ready (Corpse-wake_all k v c))
        | inr (none_ready, kept) ↦ subst Dead (sym kept) (Corpse-wake_all k v c)
      ]

-- Waking the parent touches no zombie.
wake_parent-some :
    (k : Kernel) (ppid j : ℕ)
    → proc_get k ppid ≡ some j
    → wake_parent k ppid ≡ (if is_blocked (state_at k j) then set_state k j ready else k)
unfolding wake_parent
wake_parent-some k ppid j e = rw (e, wake_parent)

wake_parent-none : (k : Kernel) (ppid : ℕ) → proc_get k ppid ≡ none → wake_parent k ppid ≡ k
unfolding wake_parent
wake_parent-none k ppid e = rw (e, wake_parent)

Corpse-wake_parent :
    (k : Kernel) (q i pid ppid code : ℕ)
    → IsTable k
    → Corpse k i pid ppid code
    → Corpse (wake_parent k q) i pid ppid code
      × ((wake_parent k q).current ≡ k.current)
      × ((proc_at (wake_parent k q) i).page_dir ≡ (proc_at k i).page_dir)
Corpse-wake_parent k q i pid ppid code v c =
    let Kept : Kernel → Type 0 = λ o.
      Corpse o i pid ppid code
      × (o.current ≡ k.current)
      × ((proc_at o i).page_dir ≡ (proc_at k i).page_dir) in
    elim (proc_get_lem k q) [
      | inr (e, all) ↦ subst Kept (sym (wake_parent-none k q e)) (c, refl, refl)
      | inl (j, e, f) ↦
          subst Kept (sym (wake_parent-some k q j e))
            (elim (Bool-cases (is_blocked (state_at k j))) [
              | inr b ↦ rw b (c, refl, refl)
              | inl b ↦ rw b (woken j f.in_table b, refl, same_dir j f.in_table)
            ])
    ]
  where
    same_dir :
        (j : ℕ)
        → j < max_procs
        → (proc_at (set_state k j ready) i).page_dir ≡ (proc_at k i).page_dir
    same_dir j lt = elim (ℕ_discrete i j) [
      | yes eq ↦ ground (
        arith,
        proc_at-put_proc k j i (record (proc_at k j) { state = ready }) v lt,
        ap (λ (t : ℕ). (proc_at k t).page_dir) eq,
      )
      | no ne ↦ ground (arith, proc_at-put_proc k j i (record (proc_at k j) { state = ready }) v lt)
    ]

    woken :
        (j : ℕ)
        → j < max_procs
        → is_blocked (state_at k j) ≡ true
        → Corpse (set_state k j ready) i pid ppid code
    woken j lt b = elim (ℕ_discrete i j) [
      | yes eq ↦ absurd (other (subst (λ (t : ℕ). state_at k t ≡ zombie) eq c.dead))
      | no ne ↦ ground (arith, proc_at-put_proc k j i (record (proc_at k j) { state = ready }) v lt)
    ]
      where
        other : state_at k j ≡ zombie → ⊥
        other z = ground arith

module _ (spaces : AddressSpaces) (stack_end : ℕ → ℕ) where
  open spaces use {Vm, kernel_directory, destroy}

  -- The directory `d` is the kernel's, or can be destroyed.
  abbrev pub CanLeave : Vm → ℕ → Type 0
  CanLeave vm d = (d ≡ kernel_directory vm) ⊎ ((vm' : Vm) × (destroy vm d ≡ some vm'))

  can_destroy :
      (vm : Vm) (d : ℕ)
      → (d == kernel_directory vm) ≡ false
      → CanLeave vm d
      → (vm' : Vm) × (destroy vm d ≡ some vm')
  can_destroy vm d own (inl kernel) = absurd (ground arith)
  can_destroy vm d own (inr gone) = gone

  -- Freeing the address space goes through, and leaves a dead process dead.
  free_space-Corpse :
      (k : Kernel) (vm : Vm) {pid ppid code : ℕ}
      → IsSound k
      → Corpse k k.current pid ppid code
      → CanLeave vm (proc_at k k.current).page_dir
      → (k' : Kernel) × (vm' : Vm) × (free_space spaces stack_end k vm ≡ some (k', vm'))
        × Corpse k' k.current pid ppid code
        × IsSound k'
        × (k'.current ≡ k.current)
        × ((proc_at k' k.current).page_dir ≡ kernel_directory vm')
  unfolding free_space
  free_space-Corpse k vm s c total =
      let cur = s.table_ok.current_in in
      elim (Bool-cases ((proc_at k k.current).page_dir == kernel_directory vm)) [
        | inl shared ↦ (k, vm, rw shared, c, s, refl, ground arith)
        | inr own ↦
            let (vm', e) = can_destroy vm (proc_at k k.current).page_dir own total in
            let me = record (proc_at k k.current) { page_dir = kernel_directory vm' } in
            let at = proc_at-put_proc k k.current k.current me s.table_ok cur in
            (
              put_proc k k.current me,
              vm',
              rw own (rw e),
              ground arith,
              put_proc_keep k k.current me cur (λ q. refl) s,
              refl,
              ground arith,
            )
      ]

  proc_exit-eq :
      (k : Kernel) (vm : Vm) (code sp : ℕ) {k' : Kernel} {vm' : Vm}
      → let me = record (proc_at k k.current) { state = zombie; exit_code = code } in
        free_space spaces stack_end (wake_parent (put_proc k k.current me) me.ppid) vm
          ≡ some (k', vm')
        → proc_exit spaces stack_end k vm code sp ≡ some (proc_yield k' sp, vm')
  unfolding proc_exit
  proc_exit-eq k vm code sp e = rw (e, proc_exit)

  -- If the page directory of the caller is the kernel's or can be destroyed, `proc_exit` goes through
  -- to the switch away from the caller. Then the caller is a zombie that keeps its pid, its parent and the exit code, and still
  -- at most one process runs, the current one.
  pub proc_exit-Corpse :
      (k : Kernel) (vm : Vm) (code sp : ℕ)
      → IsSound k
      → CanLeave vm (proc_at k k.current).page_dir
      → (k' : Kernel) × (vm' : Vm) × (proc_exit spaces stack_end k vm code sp ≡ some (k', vm'))
        × Corpse k' k.current (proc_at k k.current).pid (proc_at k k.current).ppid code
        × IsSound k'
  proc_exit-Corpse k vm code sp s total =
      let me = record (proc_at k k.current) { state = zombie; exit_code = code } in
      let cur = s.table_ok.current_in in
      let k₁ = put_proc k k.current me in
      let s₁ = put_proc-IsSound k k.current me cur (λ q. cc) s in
      let c₁ : Corpse k₁ k.current me.pid me.ppid code =
        ground (arith, proc_at-put_proc k k.current k.current me s.table_ok cur) in
      let k₂ = wake_parent k₁ me.ppid in
      let (c₂, same, same_dir) =
        Corpse-wake_parent k₁ me.ppid k.current me.pid me.ppid code s₁.table_ok c₁ in
      let s₂ = wake_parent-IsSound k₁ me.ppid s₁ in
      let c₃ : Corpse k₂ k₂.current me.pid me.ppid code =
        subst (λ (j : ℕ). Corpse k₂ j me.pid me.ppid code) (sym same) c₂ in
      let at = proc_at-put_proc k k.current k.current me s.table_ok cur in
      let dir : (proc_at k₂ k₂.current).page_dir ≡ (proc_at k k.current).page_dir =
        ap (λ (j : ℕ). (proc_at k₂ j).page_dir) same ∙ same_dir ∙ ground arith in
      let leaves = subst (CanLeave vm) (sym dir) total in
      let (k₃, vm', e, c₄, s₃, same', _) = free_space-Corpse k₂ vm s₂ c₃ leaves in
      let c₅ : Corpse k₃ k₃.current me.pid me.ppid code =
        subst (λ (j : ℕ). Corpse k₃ j me.pid me.ppid code) (sym same') c₄ in
      let stopped : is_running (state_at k₃ k₃.current) ≡ false = rw c₅.dead in
      let after : Corpse (proc_yield k₃ sp) k₂.current me.pid me.ppid code =
        subst (λ o. Corpse o k₂.current me.pid me.ppid code)
          (sym (proc_yield-stopped k₃ sp stopped))
          (Corpse-scheduler_tick (rw same cur) k₃ sp s₃.table_ok c₄) in
      (
        proc_yield k₃ sp,
        vm',
        proc_exit-eq k vm code sp e,
        subst (λ (j : ℕ). Corpse (proc_yield k₃ sp) j me.pid me.ppid code) same after,
        proc_yield-IsSound k₃ sp s₃,
      )
