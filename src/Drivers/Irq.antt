-- ===== src/Drivers/Irq.antt =====
-- The interrupt handlers of drivers/irq.c. A write to a port is the pair of the port and the byte. What
-- a handler shows is the list of its bytes, in their order. `none` is a fault.
pub mod Reports
mod Tests
use mai_unix.Prelude.{
  ℕ, ◌-◌, ◌/◌, ◌^◌, bit_and, Option, none, some, List, [], ◌∷◌, ◌++◌, ltb, leb, ◌==◌, if◌then◌else◌,
  get_or,
}
use mai_unix.Prelude.Faults.{◌>>=◌}
use mai_unix.Libc.Print.{word, string, kprintf}
use mai_unix.Proc.Process.{Process, Kernel}
use mai_unix.Proc.Sched.{scheduler_tick}
use mai_unix.Drivers.Keyboard.{Keyboard, keyboard_handler}

-- `outb`
abbrev pub Outb : Type 0
Outb = ℕ × ℕ

unfoldable pub pic_eoi : ℕ → List Outb
pic_eoi irq = (if leb 8 irq then (0xa0, 0x20) ∷ [] else []) ++ ((0x20, 0x20) ∷ [])

-- What a handler leaves; the bytes for the interrupt controller are written when the process that
-- was interrupted has the processor back.
pub record Handled : Type 0 where
  pub kernel : Kernel
  pub keyboard : Keyboard
  pub acknowledged : List Outb

-- The interrupt by its vector, from 32 on. `scancode` is what the keyboard controller holds, `sp` the
-- stack pointer.
unfoldable pub irq_handler : Kernel → Keyboard → ℕ → ℕ → ℕ → Handled
unfolding pic_eoi scheduler_tick keyboard_handler
irq_handler k kb scancode sp int_no =
    let irq = int_no - 32 in
    record {
      kernel = if irq == 0 then scheduler_tick k sp else k;
      keyboard = if irq == 1 then keyboard_handler kb scancode else kb;
      acknowledged = pic_eoi irq;
    }

-- `exception_msgs`
abbrev pub exception_msgs : List (List ℕ)
exception_msgs =
    (b'D' ∷ b'i' ∷ b'v' ∷ b'i' ∷ b's' ∷ b'i' ∷ b'o' ∷ b'n' ∷ b' ' ∷ b'b' ∷ b'y' ∷ b' ' ∷ b'z' ∷ b'e'
      ∷ b'r' ∷ b'o' ∷ [])
    ∷ (b'D' ∷ b'e' ∷ b'b' ∷ b'u' ∷ b'g' ∷ [])
    ∷ (b'N' ∷ b'M' ∷ b'I' ∷ [])
    ∷ (b'B' ∷ b'r' ∷ b'e' ∷ b'a' ∷ b'k' ∷ b'p' ∷ b'o' ∷ b'i' ∷ b'n' ∷ b't' ∷ [])
    ∷ (b'O' ∷ b'v' ∷ b'e' ∷ b'r' ∷ b'f' ∷ b'l' ∷ b'o' ∷ b'w' ∷ [])
    ∷ (b'B' ∷ b'o' ∷ b'u' ∷ b'n' ∷ b'd' ∷ b's' ∷ b' ' ∷ b'e' ∷ b'x' ∷ b'c' ∷ b'e' ∷ b'e' ∷ b'd'
        ∷ b'e' ∷ b'd' ∷ [])
    ∷ (b'I' ∷ b'n' ∷ b'v' ∷ b'a' ∷ b'l' ∷ b'i' ∷ b'd' ∷ b' ' ∷ b'o' ∷ b'p' ∷ b'c' ∷ b'o' ∷ b'd'
        ∷ b'e' ∷ [])
    ∷ (b'D' ∷ b'e' ∷ b'v' ∷ b'i' ∷ b'c' ∷ b'e' ∷ b' ' ∷ b'n' ∷ b'o' ∷ b't' ∷ b' ' ∷ b'a' ∷ b'v'
        ∷ b'a' ∷ b'i' ∷ b'l' ∷ b'a' ∷ b'b' ∷ b'l' ∷ b'e' ∷ [])
    ∷ (b'D' ∷ b'o' ∷ b'u' ∷ b'b' ∷ b'l' ∷ b'e' ∷ b' ' ∷ b'f' ∷ b'a' ∷ b'u' ∷ b'l' ∷ b't' ∷ [])
    ∷ (b'C' ∷ b'o' ∷ b'p' ∷ b'r' ∷ b'o' ∷ b'c' ∷ b'e' ∷ b's' ∷ b's' ∷ b'o' ∷ b'r' ∷ b' ' ∷ b's'
        ∷ b'e' ∷ b'g' ∷ b'm' ∷ b'e' ∷ b'n' ∷ b't' ∷ b' ' ∷ b'o' ∷ b'v' ∷ b'e' ∷ b'r' ∷ b'r' ∷ b'u'
        ∷ b'n' ∷ [])
    ∷ (b'I' ∷ b'n' ∷ b'v' ∷ b'a' ∷ b'l' ∷ b'i' ∷ b'd' ∷ b' ' ∷ b'T' ∷ b'S' ∷ b'S' ∷ [])
    ∷ (b'S' ∷ b'e' ∷ b'g' ∷ b'm' ∷ b'e' ∷ b'n' ∷ b't' ∷ b' ' ∷ b'n' ∷ b'o' ∷ b't' ∷ b' ' ∷ b'p'
        ∷ b'r' ∷ b'e' ∷ b's' ∷ b'e' ∷ b'n' ∷ b't' ∷ [])
    ∷ (b'S' ∷ b't' ∷ b'a' ∷ b'c' ∷ b'k' ∷ b' ' ∷ b's' ∷ b'e' ∷ b'g' ∷ b'm' ∷ b'e' ∷ b'n' ∷ b't'
        ∷ b' ' ∷ b'f' ∷ b'a' ∷ b'u' ∷ b'l' ∷ b't' ∷ [])
    ∷ (b'G' ∷ b'e' ∷ b'n' ∷ b'e' ∷ b'r' ∷ b'a' ∷ b'l' ∷ b' ' ∷ b'p' ∷ b'r' ∷ b'o' ∷ b't' ∷ b'e'
        ∷ b'c' ∷ b't' ∷ b'i' ∷ b'o' ∷ b'n' ∷ b' ' ∷ b'f' ∷ b'a' ∷ b'u' ∷ b'l' ∷ b't' ∷ [])
    ∷ (b'P' ∷ b'a' ∷ b'g' ∷ b'e' ∷ b' ' ∷ b'f' ∷ b'a' ∷ b'u' ∷ b'l' ∷ b't' ∷ [])
    ∷ (b'U' ∷ b'n' ∷ b'k' ∷ b'n' ∷ b'o' ∷ b'w' ∷ b'n' ∷ [])
    ∷ (b'F' ∷ b'P' ∷ b'U' ∷ b' ' ∷ b'e' ∷ b'r' ∷ b'r' ∷ b'o' ∷ b'r' ∷ [])
    ∷ (b'A' ∷ b'l' ∷ b'i' ∷ b'g' ∷ b'n' ∷ b'm' ∷ b'e' ∷ b'n' ∷ b't' ∷ b' ' ∷ b'c' ∷ b'h' ∷ b'e'
        ∷ b'c' ∷ b'k' ∷ [])
    ∷ (b'M' ∷ b'a' ∷ b'c' ∷ b'h' ∷ b'i' ∷ b'n' ∷ b'e' ∷ b' ' ∷ b'c' ∷ b'h' ∷ b'e' ∷ b'c' ∷ b'k'
        ∷ [])
    ∷ (b'S' ∷ b'I' ∷ b'M' ∷ b'D' ∷ b' ' ∷ b'e' ∷ b'r' ∷ b'r' ∷ b'o' ∷ b'r' ∷ [])
    ∷ []

-- The strings of `handle_page_fault`.
abbrev pub page_fault_text : List ℕ
page_fault_text =
    10 ∷ b'*' ∷ b'*' ∷ b'*' ∷ b' ' ∷ b'K' ∷ b'E' ∷ b'R' ∷ b'N' ∷ b'E' ∷ b'L' ∷ b' ' ∷ b'P' ∷ b'A'
    ∷ b'N' ∷ b'I' ∷ b'C' ∷ b':' ∷ b' ' ∷ b'P' ∷ b'a' ∷ b'g' ∷ b'e' ∷ b' ' ∷ b'F' ∷ b'a' ∷ b'u'
    ∷ b'l' ∷ b't' ∷ b' ' ∷ b'*' ∷ b'*' ∷ b'*' ∷ 10 ∷ []

abbrev pub address_format : List ℕ
address_format =
    b' ' ∷ b' ' ∷ b'A' ∷ b'd' ∷ b'd' ∷ b'r' ∷ b'e' ∷ b's' ∷ b's' ∷ b':' ∷ b' ' ∷ b'0' ∷ b'x' ∷ b'%'
    ∷ b'x' ∷ b' ' ∷ b' ' ∷ b'E' ∷ b'I' ∷ b'P' ∷ b':' ∷ b' ' ∷ b'0' ∷ b'x' ∷ b'%' ∷ b'x' ∷ b' '
    ∷ b' ' ∷ b'E' ∷ b'r' ∷ b'r' ∷ b'o' ∷ b'r' ∷ b':' ∷ b' ' ∷ b'0' ∷ b'x' ∷ b'%' ∷ b'x' ∷ 10 ∷ []

abbrev pub process_format : List ℕ
process_format =
    b' ' ∷ b' ' ∷ b'P' ∷ b'r' ∷ b'o' ∷ b'c' ∷ b'e' ∷ b's' ∷ b's' ∷ b':' ∷ b' ' ∷ b'%' ∷ b's' ∷ b' '
    ∷ b'(' ∷ b'p' ∷ b'i' ∷ b'd' ∷ b' ' ∷ b'%' ∷ b'd' ∷ b')' ∷ 10 ∷ []

-- The strings of `isr_handler`.
abbrev pub exception_text : List ℕ
exception_text =
    10 ∷ b'*' ∷ b'*' ∷ b'*' ∷ b' ' ∷ b'E' ∷ b'X' ∷ b'C' ∷ b'E' ∷ b'P' ∷ b'T' ∷ b'I' ∷ b'O' ∷ b'N'
    ∷ b':' ∷ b' ' ∷ []

abbrev pub exception_end : List ℕ
exception_end = b' ' ∷ b'*' ∷ b'*' ∷ b'*' ∷ 10 ∷ []

abbrev pub registers_format : List ℕ
registers_format =
    b' ' ∷ b' ' ∷ b'E' ∷ b'I' ∷ b'P' ∷ b':' ∷ b' ' ∷ b'0' ∷ b'x' ∷ b'%' ∷ b'x' ∷ b' ' ∷ b' ' ∷ b'C'
    ∷ b'S' ∷ b':' ∷ b' ' ∷ b'0' ∷ b'x' ∷ b'%' ∷ b'x' ∷ b' ' ∷ b' ' ∷ b'E' ∷ b'F' ∷ b'L' ∷ b'A'
    ∷ b'G' ∷ b'S' ∷ b':' ∷ b' ' ∷ b'0' ∷ b'x' ∷ b'%' ∷ b'x' ∷ 10 ∷ []

-- The fields of `regs_t` that are shown.
pub record Trap : Type 0 where
  pub int_no : ℕ
  pub err_code : ℕ
  pub eip : ℕ
  pub cs : ℕ
  pub eflags : ℕ

-- The end of a handler: the processor stops, behind a report, or the handler returns.
pub data Trapped : Type 0 where
  halted : List ℕ → Trapped
  resumed : Trapped

-- The line on the current process, if `current_proc` is not NULL, as it is up to `proc_init`.
unfoldable pub process_line : Option Process → Option (List ℕ)
unfolding kprintf
process_line none = some []
process_line (some p) = kprintf process_format (string (some p.name) ∷ word p.pid ∷ [])

unfoldable pub handle_page_fault : Option Process → ℕ → Trap → Option Trapped
unfolding kprintf process_line
handle_page_fault me cr2 r = do
  address ← kprintf address_format (word cr2 ∷ word r.eip ∷ word r.err_code ∷ [])
  process ← process_line me
  some (halted (page_fault_text ++ (address ++ process)))

-- The second branch of `isr_handler`.
unfoldable pub report_exception : Option Process → Trap → Option Trapped
unfolding kprintf process_line
report_exception me r = do
  registers ← kprintf registers_format (word r.eip ∷ word r.cs ∷ word r.eflags ∷ [])
  process ← process_line me
  some (
      halted (
        (exception_text ++ get_or exception_msgs r.int_no [])
        ++ (exception_end ++ (registers ++ process))))

unfoldable pub isr_handler : Option Process → ℕ → Trap → Option Trapped
unfolding handle_page_fault report_exception
isr_handler me cr2 r =
    if r.int_no == 14
    then handle_page_fault me cr2 r
    else if ltb r.int_no 20
    then report_exception me r
    else some resumed

-- The timer at 100 Hz: mode 3 of channel 0, and its divisor.
unfoldable pub pit_init : List Outb
pit_init =
    let divisor = 1193180 / 100 in
    (0x43, 0x36) ∷ (0x40, bit_and divisor 0xff) ∷ (0x40, bit_and (divisor / 2 ^ 8) 0xff) ∷ []
