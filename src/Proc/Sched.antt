-- ===== src/Proc/Sched.antt =====
-- The scheduler of proc/proc.c: `scheduler_tick`, `proc_yield` and `proc_sleep`.
pub mod Tick
pub mod Running
pub mod Fair
pub mod Sleep
use mai_unix.Prelude.Words.{add32}
use mai_unix.Prelude.{
  ℕ, zero, suc, ◌+◌, ◌/◌, ◌%◌, ◌&&◌, Option, none, some, List, map, leb, ◌==◌, if◌then◌else◌,
  get_or,
}
use mai_unix.Proc.Process.{
  max_procs, running, ready, sleeping, Process, zeroed, is_running, is_ready, is_sleeping, Kernel,
  proc_at, state_at, put_proc, set_state,
}

-- The first loop of `scheduler_tick`, on one process at tick `now`.
unfoldable pub wake : ℕ → Process → Process
wake now p = if is_sleeping p.state && leb p.sleep_until now then record p { state = ready } else p

pub wake_all : Kernel → Kernel
unfolding wake
wake_all k = let now = add32 k.ticks 1 in record k { ticks = now; table = map (wake now) k.table }

-- The second loop: the first ready process behind place `cur`, with `n` rounds left from round `i`.
pub find_ready : List Process → ℕ → ℕ → ℕ → Option ℕ
find_ready table cur zero i = none
find_ready table cur (suc n) i =
    let rest = find_ready table cur n (i + 1) in
    let idx = (cur + i) % max_procs in
    if is_ready (get_or table idx zeroed).state then some idx else rest

-- The switch to the process at `next`. `context_switch` (proc/switch.S) stores `sp`, the stack
-- pointer of the processor, in the old process, and goes on with the stack of the new one.
pub switch_to : Kernel → ℕ → ℕ → Kernel
switch_to k next sp =
    let prev = proc_at k k.current in
    let old = record prev {
      state = if is_running prev.state then ready else prev.state;
      esp = sp;
    } in
    let k' = put_proc k k.current old in
    let new = proc_at k' next in
    record (put_proc k' next (record new { state = running })) {
      current = next;
      esp0 = new.kernel_stack_top;
      loaded_dir = new.page_dir;
    }

-- What `scheduler_tick` does behind the first loop.
pub dispatch : Kernel → ℕ → Kernel
unfolding find_ready switch_to
dispatch k sp = elim (find_ready k.table k.current max_procs 1) [
  | none ↦ k
  | some next ↦ if next == k.current then k else switch_to k next sp
]

unfoldable pub scheduler_tick : Kernel → ℕ → Kernel
unfolding wake_all dispatch
scheduler_tick k sp = dispatch (wake_all k) sp

unfoldable pub proc_yield : Kernel → ℕ → Kernel
unfolding scheduler_tick
proc_yield k sp =
    scheduler_tick (if is_running (state_at k k.current) then set_state k k.current ready else k) sp

-- The PIT runs at 100 Hz: a tick is ten milliseconds.
pub proc_sleep : Kernel → ℕ → ℕ → Kernel
unfolding proc_yield
proc_sleep k ms sp =
    proc_yield
      (put_proc k k.current (record (proc_at k k.current) {
        sleep_until = add32 k.ticks (add32 (ms / 10) 1);
        state = sleeping;
      }))
      sp
