-- ===== src/Syscall/Interrupt.antt =====
-- `isr_handler_ext` of kernel/main.c, which every stub of an exception and of `int 0x80` calls.
use mai_unix.Prelude.{ℕ, ◌⊎◌, inl, inr, Option, some, ◌==◌, if◌then◌else◌}
use mai_unix.Prelude.Faults.{◌>>=◌}
use mai_unix.Fs.File.{CharDevice}
use mai_unix.Proc.Process.{proc_at}
use mai_unix.Proc.Life.{AddressSpaces}
use mai_unix.Drivers.Irq.{Trap, Trapped, isr_handler}
use mai_unix.Syscall.Dispatch.{Regs, World, Outcome, syscall_dispatch}

module _ (spaces : AddressSpaces) (stack_end : ℕ → ℕ) {D : Type 0} (dev : CharDevice D) where
  open spaces use {Vm}

  -- The outcome of the call, or that of the exception. `cr2` is the address of a page fault.
  unfoldable pub isr_handler_ext :
      (ℕ → ℕ) → ℕ → ℕ → World Vm D → Regs → Trap → Option (Outcome (World Vm D) ⊎ Trapped)
  unfolding syscall_dispatch isr_handler
  isr_handler_ext junk sp cr2 w r t =
      if t.int_no == 128
      then (syscall_dispatch spaces stack_end dev junk sp w r >>= λ o. some (inl o))
      else (isr_handler (some (proc_at w.kernel w.kernel.current)) cr2 t >>= λ o. some (inr o))
