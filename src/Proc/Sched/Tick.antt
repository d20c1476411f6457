-- ===== src/Proc/Sched/Tick.antt =====
-- Which process `scheduler_tick` of proc/proc.c wakes, chooses and runs.
use mai_unix.Prelude.Words.{add32}
use mai_unix.Prelude.{
  ℕ, zero, suc, ◌+◌, ◌%◌, ◌≤◌, ◌<◌, ◌≡◌, refl, sym, ◌∙◌, subst, ◌≢◌, ◌⊎◌, inl, inr, Bool, true,
  false, none, some, List, arith, dec_lt, ℕ_discrete, ◌==◌, if◌then◌else◌, Bool-cases, length, set,
  length-set, get_or, length-map, get_or-set, get_or-map,
}
use mai_unix.Proc.Process.{
  max_procs, running, ready, zombie, Process, zeroed, is_running, is_ready, Kernel, proc_at,
  state_at, put_proc,
}
use mai_unix.Proc.Sched.{
  wake, wake_all, find_ready, switch_to, dispatch, scheduler_tick, proc_yield,
}

-- The table has its declared size, and `current_proc` points into it.
pub record IsTable (k : Kernel) : Type 0 where
  pub size : length k.table ≡ max_procs
  pub current_in : k.current < max_procs

-- Reading a process after a write to one.
pub proc_at-put_proc :
    (k : Kernel) (i j : ℕ) (p : Process)
    → IsTable k
    → i < max_procs
    → proc_at (put_proc k i p) j ≡ (if j == i then p else proc_at k j)
proc_at-put_proc k i j p v h = get_or-set k.table i j p zeroed (omega (arith, v.size))

pub put_proc-IsTable : (k : Kernel) (i : ℕ) (p : Process) → IsTable k → IsTable (put_proc k i p)
put_proc-IsTable k i p v = record {
  size = omega (arith, length-set k.table i p, v.size);
  current_in = v.current_in;
}

pub proc_at-wake_all :
    (k : Kernel) (i : ℕ)
    → IsTable k
    → i < max_procs
    → proc_at (wake_all k) i ≡ wake (add32 k.ticks 1) (proc_at k i)
unfolding wake_all
proc_at-wake_all k i v h =
    get_or-map k.table (wake (add32 k.ticks 1)) i zeroed zeroed (omega (arith, v.size))

pub current-wake_all : (k : Kernel) → (wake_all k).current ≡ k.current
unfolding wake_all
current-wake_all k = refl

pub wake_all-IsTable : (k : Kernel) → IsTable k → IsTable (wake_all k)
unfolding wake_all
wake_all-IsTable k v = record {
  size = omega (arith, length-map k.table (wake (add32 k.ticks 1)), v.size);
  current_in = v.current_in;
}

-- The place `d` steps behind place `cur`, going round at the end of the table.
abbrev pub behind : ℕ → ℕ → ℕ
behind cur d = (cur + d) % max_procs

abbrev pub ready_in : List Process → ℕ → Bool
ready_in table i = is_ready (get_or table i zeroed).state

-- No process is ready from step `a` up to step `b` behind `cur`.
abbrev pub NoneReady : List Process → ℕ → ℕ → ℕ → Type 0
NoneReady table cur a b = (d : ℕ) → a ≤ d → d < b → ready_in table (behind cur d) ≡ false

-- The search finds the ready process at the fewest steps, or there is none within its rounds.
find_ready_lem :
    (table : List Process) (cur n i : ℕ)
    → ((d : ℕ) × (i ≤ d)
        × (d < i + n)
        × (find_ready table cur n i ≡ some (behind cur d))
        × (ready_in table (behind cur d) ≡ true)
        × NoneReady table cur i d)
      ⊎ ((find_ready table cur n i ≡ none) × NoneReady table cur i (i + n))
unfolding find_ready
find_ready_lem table cur zero i = inr (refl, λ d a b. absurd (omega arith))
find_ready_lem table cur (suc n) i = elim (Bool-cases (ready_in table (behind cur i))) [
  | inl here ↦ inl (i, omega arith, omega arith, rw here, here, λ d a b. absurd (omega arith))
  | inr miss ↦ elim (find_ready_lem table cur n (i + 1)) [
    | inl (d, a, b, e, r, none_before) ↦
        inl (d, omega arith, omega arith, rw miss e, r, extend d miss none_before)
    | inr (e, all) ↦ inr (rw miss e, extend (i + suc n) miss (λ d a b. all d a (omega arith)))
  ]
]
  where
    extend :
        (b : ℕ)
        → ready_in table (behind cur i) ≡ false
        → NoneReady table cur (i + 1) b
        → NoneReady table cur i b
    extend b miss rest d lo hi = elim (ℕ_discrete d i) [
      | yes e ↦ rw e miss
      | no ne ↦ rest d (omega arith) hi
    ]

-- What a switch from the current process to `next` does to the process at each place.
pub proc_at-switch_to :
    (k : Kernel) (next sp i : ℕ)
    → IsTable k
    → next < max_procs
    → next ≢ k.current
    → proc_at (switch_to k next sp) i ≡ (
        if i == next
        then record (proc_at k next) { state = running }
        else if i == k.current
        then record (proc_at k k.current) {
          state = if is_running (state_at k k.current) then ready else state_at k k.current;
          esp = sp;
        }
        else proc_at k i)
unfolding switch_to
proc_at-switch_to k next sp i v h ne =
    let prev = proc_at k k.current in
    let old = record prev {
      state = if is_running prev.state then ready else prev.state;
      esp = sp;
    } in
    let k' = put_proc k k.current old in
    let v' = put_proc-IsTable k k.current old v in
    let new : proc_at k' next ≡ proc_at k next =
      ground (arith, proc_at-put_proc k k.current next old v v.current_in) in
    ground (
      arith,
      proc_at-put_proc k' next i (record (proc_at k' next) { state = running }) v' h,
      proc_at-put_proc k k.current i old v v.current_in,
      new,
    )

pub current-switch_to : (k : Kernel) (next sp : ℕ) → (switch_to k next sp).current ≡ next
unfolding switch_to
current-switch_to k next sp = refl

pub switch_to-IsTable :
    (k : Kernel) (next sp : ℕ) → IsTable k → next < max_procs → IsTable (switch_to k next sp)
unfolding switch_to
switch_to-IsTable k next sp v h = record {
  size =
      omega (
        arith,
        length-set k.table k.current _,
        length-set (set k.table k.current _) next _,
        v.size,
      );
  current_in = h;
}

-- `k'` is `k` after a switch to the ready process `d` steps behind the current one, the nearest
-- that is ready.
pub record Switched (k : Kernel) (sp d : ℕ) (k' : Kernel) : Type 0 where
  pub steps : (0 < d) × (d < max_procs)
  pub was_ready : state_at k (behind k.current d) ≡ ready
  pub nearest : NoneReady k.table k.current 1 d
  pub switched : k' ≡ switch_to k (behind k.current d) sp

dispatch-some :
    (k : Kernel) (sp next : ℕ)
    → find_ready k.table k.current max_procs 1 ≡ some next
    → dispatch k sp ≡ (if next == k.current then k else switch_to k next sp)
unfolding dispatch
dispatch-some k sp next e = rw (e, dispatch)

dispatch-none :
    (k : Kernel) (sp : ℕ) → find_ready k.table k.current max_procs 1 ≡ none → dispatch k sp ≡ k
unfolding dispatch
dispatch-none k sp e = rw (e, dispatch)

-- `dispatch` switches to the nearest ready process behind the current one, or stays.
dispatch_lem :
    (k : Kernel) (sp : ℕ)
    → IsTable k
    → ((d : ℕ) × Switched k sp d (dispatch k sp))
      ⊎ (NoneReady k.table k.current 1 max_procs × (dispatch k sp ≡ k))
dispatch_lem k sp v = elim (find_ready_lem k.table k.current max_procs 1) [
  | inl (d, a, b, e, r, none_before) ↦ elim (dec_lt d max_procs) [
    | yes lt ↦ inl (
      d,
      record {
        steps = (a, lt);
        was_ready = ground arith;
        nearest = none_before;
        switched =
            let away : (behind k.current d == k.current) ≡ false = ground (arith, v.current_in) in
            dispatch-some k sp _ e ∙ rw away;
      },
    )
    | no ge ↦
        let all_round : d ≡ max_procs = omega arith in
        let back : (behind k.current d == k.current) ≡ true = ground (arith, v.current_in) in
        inr ((λ t lo hi. none_before t lo (omega arith)), dispatch-some k sp _ e ∙ rw back)
  ]
  | inr (e, all) ↦ inr ((λ t lo hi. all t lo (omega arith)), dispatch-none k sp e)
]

-- After waking the sleepers that are due, `scheduler_tick` switches to the nearest ready process
-- behind the current one, in the cyclic order of the table; and it leaves all as it is exactly when
-- no process but the current one is ready.
pub scheduler_tick_lem :
    (k : Kernel) (sp : ℕ)
    → IsTable k
    → ((d : ℕ) × Switched (wake_all k) sp d (scheduler_tick k sp))
      ⊎ (NoneReady (wake_all k).table k.current 1 max_procs × (scheduler_tick k sp ≡ wake_all k))
unfolding scheduler_tick
scheduler_tick_lem k sp v = dispatch_lem (wake_all k) sp (wake_all-IsTable k v)

-- `scheduler_tick` keeps the table well formed.
pub scheduler_tick-IsTable : (k : Kernel) (sp : ℕ) → IsTable k → IsTable (scheduler_tick k sp)
scheduler_tick-IsTable k sp v = elim (scheduler_tick_lem k sp v) [
  | inl (d, s) ↦
      subst IsTable (sym s.switched)
        (switch_to-IsTable (wake_all k) _ sp (wake_all-IsTable k v) (omega arith))
  | inr (none_ready, same) ↦ subst IsTable (sym same) (wake_all-IsTable k v)
]

pub wake-zombie : (now : ℕ) (p : Process) → p.state ≡ zombie → wake now p ≡ p
unfolding wake
wake-zombie now p e = ground arith

pub proc_yield-stopped :
    (k : Kernel) (sp : ℕ)
    → is_running (state_at k k.current) ≡ false
    → proc_yield k sp ≡ scheduler_tick k sp
unfolding proc_yield
proc_yield-stopped k sp e = rw e
