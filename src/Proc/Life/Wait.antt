-- ===== src/Proc/Life/Wait.antt =====
-- What a parent gets from `proc_wait` of proc/proc.c, and what `proc_exit` leaves for it.
use mai_unix.Prelude.{
  ℕ, ◌-◌, ◌^◌, ◌<◌, ◌≡◌, ap, ◌∙◌, ◌≢◌, ◌⊎◌, inl, inr, true, false, none, some, arith,
}
use mai_unix.Proc.Process.{max_procs, unused, blocked, zombie, Kernel, proc_at, state_at, set_state}
use mai_unix.Proc.Sched.{proc_yield}
use mai_unix.Proc.Life.{find_slot, reapable, child_of, reaped, no_child, again, wait_round}
use mai_unix.Proc.Life.Slots.{NoneIn, First, find_slot_lem}

module _ (k : Kernel) (pid sp : ℕ) where
  abbrev pub my_pid : ℕ
  my_pid = (proc_at k k.current).pid

  -- The first zombie child that matches is reaped.
  abbrev pub Reaps : Type 0
  Reaps =
      (i : ℕ) × First (reapable my_pid pid) k.table i
      × (wait_round k pid sp
          ≡ (reaped (proc_at k i).pid (proc_at k i).exit_code, set_state k i unused))

  -- No zombie child matches, but there is a live child.
  abbrev pub Blocks : Type 0
  Blocks =
      NoneIn (reapable my_pid pid) k.table 0 max_procs
      × ((i : ℕ) × First (child_of my_pid) k.table i)
      × (wait_round k pid sp ≡ (again, proc_yield (set_state k k.current blocked) sp))

  abbrev pub Fails : Type 0
  Fails = NoneIn (child_of my_pid) k.table 0 max_procs × (wait_round k pid sp ≡ (no_child, k))

  reaps_eq :
      (i : ℕ)
      → find_slot (reapable my_pid pid) k.table max_procs 0 ≡ some i
      → wait_round k pid sp
        ≡ (reaped (proc_at k i).pid (proc_at k i).exit_code, set_state k i unused)
  unfolding wait_round
  reaps_eq i e = rw (e, wait_round)

  blocks_eq :
      (i : ℕ)
      → find_slot (reapable my_pid pid) k.table max_procs 0 ≡ none
      → find_slot (child_of my_pid) k.table max_procs 0 ≡ some i
      → wait_round k pid sp ≡ (again, proc_yield (set_state k k.current blocked) sp)
  unfolding wait_round
  blocks_eq i e e' = rw (e, wait_round) (rw e')

  fails_eq :
      find_slot (reapable my_pid pid) k.table max_procs 0 ≡ none
      → find_slot (child_of my_pid) k.table max_procs 0 ≡ none
      → wait_round k pid sp ≡ (no_child, k)
  unfolding wait_round
  fails_eq e e' = rw (e, wait_round) (rw e')

  -- One round of `proc_wait`: it reaps the first matching zombie child and frees its place; or, when
  -- there is none but a live child exists, it blocks the caller and gives up the processor; or,
  -- with no child at all, it returns -1 and changes nothing.
  pub wait_round-cases : Reaps ⊎ (Blocks ⊎ Fails)
  wait_round-cases = elim (find_slot_lem (reapable my_pid pid) k.table) [
    | inl (i, e, f) ↦ inl (i, f, reaps_eq i e)
    | inr (e, none_dead) ↦ elim (find_slot_lem (child_of my_pid) k.table) [
      | inl (i, e', f) ↦ inr (inl (none_dead, (i, f), blocks_eq i e e'))
      | inr (e', childless) ↦ inr (inr (childless, fails_eq e e'))
    ]
  ]

  -- If `c` is a zombie child of the caller and the only live process with its pid, `proc_wait` for
  -- that pid returns it with its exit code at once, and frees its place.
  pub wait_round-zombie :
      (c : ℕ)
      → c < max_procs
      → state_at k c ≡ zombie
      → (proc_at k c).ppid ≡ my_pid
      → (proc_at k c).pid ≡ pid
      → pid ≢ 2 ^ 32 - 1
      → ((j : ℕ) → j < max_procs → state_at k j ≢ unused → (proc_at k j).pid ≡ pid → j ≡ c)
      → wait_round k pid sp ≡ (reaped pid (proc_at k c).exit_code, set_state k c unused)
  wait_round-zombie c lt dead mine named one only =
      elim (find_slot_lem (reapable my_pid pid) k.table) [
        | inl (i, e, f) ↦
            let at : i ≡ c = only i f.in_table (zombie_live i f.passes) (zombie_pid i f.passes) in
            reaps_eq i e
            ∙ ap
                (λ (j : ℕ).
                  (reaped (proc_at k j).pid (proc_at k j).exit_code, set_state k j unused))
                at
            ∙ ap (λ (q : ℕ). (reaped q (proc_at k c).exit_code, set_state k c unused)) named
        | inr (e, none_dead) ↦
            let seen : reapable my_pid pid (proc_at k c) ≡ true = ground arith in
            let missed : reapable my_pid pid (proc_at k c) ≡ false = none_dead c (omega arith) lt in
            absurd (cc)
      ]
    where
      zombie_live : (i : ℕ) → reapable my_pid pid (proc_at k i) ≡ true → state_at k i ≢ unused
      zombie_live i t = ground arith

      zombie_pid : (i : ℕ) → reapable my_pid pid (proc_at k i) ≡ true → (proc_at k i).pid ≡ pid
      zombie_pid i t = ground arith
