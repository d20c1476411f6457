-- ===== src/Proc/Life/Init.antt =====
-- What `proc_init` of proc/proc.c sets up.
use mai_unix.Prelude.{
  ℕ, zero, suc, ◌<◌, ◌≡◌, refl, sym, ap, ◌∙◌, subst, inl, true, arith, ℕ_discrete, get_or,
  replicate,
}
use mai_unix.Proc.Process.{unused, running, Process, zeroed, proc_at, state_at}
use mai_unix.Proc.Life.{proc_init}
use mai_unix.Proc.Life.Running.{IsSound}
use mai_unix.Proc.Life.Pids.{is_live, pid_at, IsNumbered}

get_or-replicate_self : (n i : ℕ) (p : Process) → get_or (replicate n p) i p ≡ p
get_or-replicate_self zero i p = refl
get_or-replicate_self (suc n) zero p = refl
get_or-replicate_self (suc n) (suc i) p = get_or-replicate_self n i p

-- Every place but the first is unused.
pub proc_init-unused : (dir i : ℕ) → 0 < i → state_at (proc_init dir) i ≡ unused
unfolding proc_init
proc_init-unused dir zero h = absurd (omega arith)
proc_init-unused dir (suc i) h = ap (λ (p : Process). p.state) (get_or-replicate_self 63 i zeroed)

pub proc_init-zeroed : (dir i : ℕ) → 0 < i → proc_at (proc_init dir) i ≡ zeroed
unfolding proc_init
proc_init-zeroed dir zero h = absurd (omega arith)
proc_init-zeroed dir (suc i) h = get_or-replicate_self 63 i zeroed

-- `proc_init` sets up the invariants of the scheduler and of the pids: the idle process is the one
-- live process, and it runs.
pub proc_init_lem :
    (dir : ℕ)
    → IsSound (proc_init dir)
      × IsNumbered (proc_init dir)
      × (state_at (proc_init dir) 0 ≡ running)
      × ((i : ℕ) → is_live (proc_init dir) i ≡ true → i ≡ 0)
unfolding proc_init
proc_init_lem dir = (
  record {
    table_ok = record { size = refl; current_in = omega arith };
    one_runs = λ i lt e. elim (ℕ_discrete i 0) [
      | yes z ↦ z
      | no nz ↦ absurd (never i e (proc_init-unused dir i (omega arith)))
    ];
  },
  record {
    different = λ i j li lj e. only i li ∙ sym (only j lj);
    given = λ i li.
        inl (subst (λ (j : ℕ). pid_at (proc_init dir) j < 1) (sym (only i li)) (omega arith));
    apart = omega arith;
  },
  refl,
  only,
)
  where
    never : (i : ℕ) → state_at (proc_init dir) i ≡ running → state_at (proc_init dir) i ≡ unused → ⊥
    never i a b = cc

    only : (i : ℕ) → is_live (proc_init dir) i ≡ true → i ≡ 0
    only i l = elim (ℕ_discrete i 0) [
      | yes z ↦ z
      | no nz ↦ absurd (dead i l (proc_init-unused dir i (omega arith)))
    ]
      where
        dead : (j : ℕ) → is_live (proc_init dir) j ≡ true → state_at (proc_init dir) j ≡ unused → ⊥
        dead j a b = ground arith
