-- ===== src/Boot/Idt/Gates.antt =====
-- What the processor finds in the interrupt descriptor table of kernel/idt.c.
use mai_unix.Prelude.{
  ℕ, zero, suc, ◌+◌, ◌-◌, ◌*◌, ◌/◌, ◌^◌, ◌≤◌, ◌<◌, ◌≡◌, refl, sym, ap, ◌∙◌, inl, inr, true, false,
  ◌&&◌, ◌||◌, List, arith, ℕ_discrete, ltb, leb, ◌==◌, if◌then◌else◌, Bool-cases, length, set,
  length-set, get_or, get_or-set,
}
use mai_unix.Boot.Idt.{IdtEntry, gate, idt_set_gate, set_gates, idt_init}
use mai_unix.Boot.Gdt.Decode.{and_word}

abbrev pub offset_of : IdtEntry → ℕ
offset_of e = e.offset_low + 2 ^ 16 * e.offset_high

module _ (stub : ℕ → ℕ) (sel flags : ℕ) where
  length-set_gates :
      (n num : ℕ) (idt : List IdtEntry) → length (set_gates n num stub sel flags idt) ≡ length idt
  unfolding set_gates idt_set_gate
  length-set_gates zero num idt = refl
  length-set_gates (suc n) num idt =
      length-set_gates n (num + 1) (idt_set_gate idt num (stub num) sel flags)
      ∙ length-set idt num (gate (stub num) sel flags)

  set_gates_lem :
      (n num : ℕ) (idt : List IdtEntry) (v : ℕ) (d : IdtEntry)
      → num + n ≤ length idt
      → get_or (set_gates n num stub sel flags idt) v d
        ≡ (if leb num v && ltb v (num + n) then gate (stub v) sel flags else get_or idt v d)
  unfolding set_gates idt_set_gate
  set_gates_lem zero num idt v d fits = ground arith
  set_gates_lem (suc n) num idt v d fits =
      let idt' = set idt num (gate (stub num) sel flags) in
      let len = length-set idt num (gate (stub num) sel flags) in
      set_gates_lem n (num + 1) idt' v d (omega (arith, len)) ∙ elim (ℕ_discrete v num) [
        | yes e ↦
            let past : (leb (num + 1) v && ltb v (num + 1 + n)) ≡ false = ground arith in
            let inside : (leb num v && ltb v (num + suc n)) ≡ true = ground arith in
            let same : (v == num) ≡ true = ground arith in
            rw past (
              rw inside (
                get_or-set idt num v (gate (stub num) sel flags) d (omega arith)
                ∙ rw same (ap (λ (k : ℕ). gate (stub k) sel flags) (sym e))))
        | no ne ↦
            let range : (leb (num + 1) v && ltb v (num + 1 + n))
                ≡ (leb num v && ltb v (num + suc n)) =
              ground arith in
            let differ : (v == num) ≡ false = ground arith in
            let kept : get_or idt' v d ≡ get_or idt v d =
              get_or-set idt num v (gate (stub num) sel flags) d (omega arith) ∙ rw differ refl in
            rw range (rw kept refl)
      ]

-- The stub of a vector: 20 exceptions, 16 interrupt lines, and the system call, or none.
abbrev pub handler : (ℕ → ℕ) → (ℕ → ℕ) → ℕ → ℕ
handler isr irq v =
    if v == 128 || ltb v 20 then isr v else if leb 32 v && ltb v 48 then irq (v - 32) else 0

-- The type of its gate: present, and the system call also from user mode.
abbrev pub attributes : ℕ → ℕ
attributes v = if v == 128 then 0xee else if ltb v 20 || leb 32 v && ltb v 48 then 0x8e else 0

module _ (isr irq : ℕ → ℕ) (idt : List IdtEntry) (v : ℕ) (d : IdtEntry) where
  idt_init-gate :
      length idt ≡ 256
      → v < 256
      → get_or (idt_init isr irq idt) v d
        ≡ gate (handler isr irq v) (if attributes v == 0 then 0 else 8) (attributes v)
  unfolding idt_init idt_set_gate
  idt_init-gate size small =
      let irq' : ℕ → ℕ = λ num. irq (num - 32) in
      let cleared = set_gates 256 0 (λ num. 0) 0 0 idt in
      let exceptions = set_gates 20 0 isr 0x08 0x8e cleared in
      let irqs = set_gates 16 32 irq' 0x08 0x8e exceptions in
      let l₁ = length-set_gates (λ num. 0) 0 0 256 0 idt in
      let l₂ = length-set_gates isr 0x08 0x8e 20 0 cleared in
      let l₃ = length-set_gates irq' 0x08 0x8e 16 32 exceptions in
      let s₁ = set_gates_lem (λ num. 0) 0 0 256 0 idt v d (omega arith) in
      let s₂ = set_gates_lem isr 0x08 0x8e 20 0 cleared v d (omega (arith, l₁)) in
      let s₃ = set_gates_lem irq' 0x08 0x8e 16 32 exceptions v d (omega (arith, l₁, l₂)) in
      let s₄ = get_or-set irqs 128 v (gate (isr 128) 0x08 0xee) d (omega (arith, l₁, l₂, l₃)) in
      let low : leb 0 v ≡ true = ground arith in
      let top : ltb v (0 + 256) ≡ true = ground arith in
      s₄ ∙ elim (Bool-cases (v == 128)) [
        | inl call ↦
            let same : 128 ≡ v = ground arith in rw call (ap (λ (k : ℕ). gate (isr k) 8 0xee) same)
        | inr other ↦ elim (Bool-cases (leb 32 v && ltb v 48)) [
          | inl line ↦
              let few : ltb v 20 ≡ false = ground arith in rw s₃ (rw (line, other, few) refl)
          | inr outside ↦ rw s₃ (
              rw s₂ (
                rw s₁ (elim (Bool-cases (ltb v 20)) [
                  | inl few ↦ rw (low, outside, other, few) refl
                  | inr many ↦ rw (low, top, outside, other, many) refl
                ])))
        ]
      ]

  -- After `idt_init` the gate of every vector leads to the stub of its exception, of its interrupt line
  -- or of the system call, at the address that the processor puts together from its two halves; only
  -- these gates are present, and only that of the system call may be used by user programs.
  pub idt_init_lem :
      length idt ≡ 256
      → v < 256
      → ((n : ℕ) → isr n < 2 ^ 32)
      → ((n : ℕ) → irq n < 2 ^ 32)
      → (offset_of (get_or (idt_init isr irq idt) v d) ≡ handler isr irq v)
        × ((get_or (idt_init isr irq idt) v d).type_attr ≡ attributes v)
  idt_init_lem size small low_isr low_irq =
      let at = idt_init-gate size small in
      let stub = handler isr irq v in
      let low : stub < 2 ^ 32 = ground (arith, low_isr v, low_irq (v - 32)) in
      (
        ap offset_of at ∙ omega (arith, low, and_word stub, and_word (stub / 65536)),
        ap (λ (e : IdtEntry). e.type_attr) at,
      )
