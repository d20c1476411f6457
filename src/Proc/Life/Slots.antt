-- ===== src/Proc/Life/Slots.antt =====
-- What the loops of proc/proc.c over the process table find.
use mai_unix.Prelude.{
  ℕ, zero, suc, ◌+◌, ◌≤◌, ◌<◌, ◌≡◌, refl, ◌⊎◌, inl, inr, Bool, true, false, none, some, List, arith,
  ℕ_discrete, Bool-cases, get_or,
}
use mai_unix.Proc.Process.{max_procs, Process, zeroed, is_unused, Kernel, put_proc}
use mai_unix.Proc.Life.{find_slot, has_pid, alloc_proc, proc_get}

-- No process at a place from `a` up to `b` passes the test.
abbrev pub NoneIn : (Process → Bool) → List Process → ℕ → ℕ → Type 0
NoneIn test table a b = (j : ℕ) → a ≤ j → j < b → test (get_or table j zeroed) ≡ false

-- Place `i` is the first of the table whose process passes the test.
pub record First (test : Process → Bool) (table : List Process) (i : ℕ) : Type 0 where
  pub in_table : i < max_procs
  pub passes : test (get_or table i zeroed) ≡ true
  pub none_before : NoneIn test table 0 i

module _ (test : Process → Bool) (table : List Process) where
  find_slot_from :
      (n i : ℕ)
      → ((j : ℕ) × (i ≤ j)
          × (j < i + n)
          × (find_slot test table n i ≡ some j)
          × (test (get_or table j zeroed) ≡ true)
          × NoneIn test table i j)
        ⊎ ((find_slot test table n i ≡ none) × NoneIn test table i (i + n))
  unfolding find_slot
  find_slot_from zero i = inr (refl, λ j a b. absurd (omega arith))
  find_slot_from (suc n) i = elim (Bool-cases (test (get_or table i zeroed))) [
    | inl hit ↦ inl (i, omega arith, omega arith, rw hit, hit, λ j a b. absurd (omega arith))
    | inr miss ↦ elim (find_slot_from n (i + 1)) [
      | inl (j, a, b, e, t, before) ↦
          inl (j, omega arith, omega arith, rw miss e, t, extend j miss before)
      | inr (e, all) ↦ inr (rw miss e, extend (i + suc n) miss λ j a b. all j a (omega arith))
    ]
  ]
    where
      extend :
          (b : ℕ)
          → test (get_or table i zeroed) ≡ false
          → NoneIn test table (i + 1) b
          → NoneIn test table i b
      extend b miss rest j lo hi = elim (ℕ_discrete j i) [
        | yes e ↦ rw e miss
        | no ne ↦ rest j (omega arith) hi
      ]

  -- The search over the whole table finds the first place, or there is none.
  pub find_slot_lem :
      ((i : ℕ) × (find_slot test table max_procs 0 ≡ some i) × First test table i)
      ⊎ ((find_slot test table max_procs 0 ≡ none) × NoneIn test table 0 max_procs)
  find_slot_lem = elim (find_slot_from max_procs 0) [
    | inl (i, a, b, e, t, before) ↦
        inl (i, e, record { in_table = b; passes = t; none_before = before })
    | inr (e, all) ↦ inr (e, all)
  ]

-- `alloc_proc` takes the first unused place and clears it, or every place is in use.
pub alloc_proc_lem :
    (k : Kernel)
    → ((i : ℕ) × (alloc_proc k ≡ some (i, put_proc k i zeroed))
        × First (λ p. is_unused p.state) k.table i)
      ⊎ ((alloc_proc k ≡ none) × NoneIn (λ p. is_unused p.state) k.table 0 max_procs)
unfolding alloc_proc
alloc_proc_lem k = elim (find_slot_lem (λ p. is_unused p.state) k.table) [
  | inl (i, e, f) ↦ inl (i, rw (e, alloc_proc), f)
  | inr (e, all) ↦ inr (rw (e, alloc_proc), all)
]

-- `proc_get` finds the first live process with the pid, or there is none.
pub proc_get_lem :
    (k : Kernel) (pid : ℕ)
    → ((i : ℕ) × (proc_get k pid ≡ some i) × First (has_pid pid) k.table i)
      ⊎ ((proc_get k pid ≡ none) × NoneIn (has_pid pid) k.table 0 max_procs)
unfolding proc_get
proc_get_lem k pid = find_slot_lem (has_pid pid) k.table
