-- ===== src/Boot/Idt.antt =====
-- The interrupt descriptor table of kernel/idt.c, as a list of entries. The addresses of the stubs of
-- kernel/isr_stubs.S are parameters: `isr n` for `isrN`, and `irq n` for `irqN`. The set-up of the
-- interrupt and keyboard controllers is port I/O and not modelled.
pub mod Gates
use mai_unix.Prelude.{ℕ, zero, suc, ◌+◌, ◌-◌, ◌/◌, ◌^◌, bit_and, List, set}

pub record IdtEntry : Type 0 where
  pub offset_low : ℕ
  pub selector : ℕ
  pub always_zero : ℕ
  pub type_attr : ℕ
  pub offset_high : ℕ

abbrev pub idt_entries : ℕ
idt_entries = 256

abbrev pub gate : ℕ → ℕ → ℕ → IdtEntry
gate base sel flags = record {
  offset_low = bit_and base 0xffff;
  selector = sel;
  always_zero = 0;
  type_attr = flags;
  offset_high = bit_and (base / 2 ^ 16) 0xffff;
}

unfoldable pub idt_set_gate : List IdtEntry → ℕ → ℕ → ℕ → ℕ → List IdtEntry
idt_set_gate idt num base sel flags = set idt num (gate base sel flags)

-- A row of calls of `idt_set_gate`, `n` of them from number `num` on.
unfoldable pub set_gates : ℕ → ℕ → (ℕ → ℕ) → ℕ → ℕ → List IdtEntry → List IdtEntry
unfolding idt_set_gate
set_gates zero num stub sel flags idt = idt
set_gates (suc n) num stub sel flags idt =
    set_gates n (num + 1) stub sel flags (idt_set_gate idt num (stub num) sel flags)

unfoldable pub idt_init : (ℕ → ℕ) → (ℕ → ℕ) → List IdtEntry → List IdtEntry
unfolding set_gates
idt_init isr irq idt =
    let cleared = set_gates idt_entries 0 (λ num. 0) 0 0 idt in
    let exceptions = set_gates 20 0 isr 0x08 0x8e cleared in
    let irqs = set_gates 16 32 (λ num. irq (num - 32)) 0x08 0x8e exceptions in
    idt_set_gate irqs 128 (isr 128) 0x08 0xee
