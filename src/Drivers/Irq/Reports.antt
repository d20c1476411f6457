-- ===== src/Drivers/Irq/Reports.antt =====
-- The reports of drivers/irq.c on exceptions.
use mai_unix.Prelude.{
  ℕ, ◌^◌, ◌<◌, ◌≡◌, refl, Bool, true, false, Option, none, some, List, [], ◌∷◌, ◌++◌, ltb, ◌==◌,
  if◌then◌else◌, get_or,
}
use mai_unix.Libc.Print.{word, string}
use mai_unix.Libc.Num.{isdigit}
use mai_unix.Libc.Print.Total.{
  takes_string, Conforms, finished, conversion, kprintf-Conforms, all_plain, Conforms-plains,
  Conforms-number,
}
use mai_unix.Prelude.Faults.{◌>>=◌, Every}
use mai_unix.Proc.Process.{Process}
use mai_unix.Drivers.Irq.{
  exception_msgs, page_fault_text, address_format, process_format, exception_text, exception_end,
  registers_format, Trap, Trapped, halted, resumed, process_line, handle_page_fault,
  report_exception, isr_handler,
}

abbrev address : List ℕ
address =
    b' ' ∷ b' ' ∷ b'A' ∷ b'd' ∷ b'd' ∷ b'r' ∷ b'e' ∷ b's' ∷ b's' ∷ b':' ∷ b' ' ∷ b'0' ∷ b'x' ∷ []

abbrev eip : List ℕ
eip = b' ' ∷ b' ' ∷ b'E' ∷ b'I' ∷ b'P' ∷ b':' ∷ b' ' ∷ b'0' ∷ b'x' ∷ []

abbrev error : List ℕ
error = b' ' ∷ b' ' ∷ b'E' ∷ b'r' ∷ b'r' ∷ b'o' ∷ b'r' ∷ b':' ∷ b' ' ∷ b'0' ∷ b'x' ∷ []

abbrev cs_text : List ℕ
cs_text = b' ' ∷ b' ' ∷ b'C' ∷ b'S' ∷ b':' ∷ b' ' ∷ b'0' ∷ b'x' ∷ []

abbrev eflags : List ℕ
eflags = b' ' ∷ b' ' ∷ b'E' ∷ b'F' ∷ b'L' ∷ b'A' ∷ b'G' ∷ b'S' ∷ b':' ∷ b' ' ∷ b'0' ∷ b'x' ∷ []

abbrev process : List ℕ
process = b' ' ∷ b' ' ∷ b'P' ∷ b'r' ∷ b'o' ∷ b'c' ∷ b'e' ∷ b's' ∷ b's' ∷ b':' ∷ b' ' ∷ []

abbrev pid_text : List ℕ
pid_text = b' ' ∷ b'(' ∷ b'p' ∷ b'i' ∷ b'd' ∷ b' ' ∷ []

abbrev pid_end : List ℕ
pid_end = b')' ∷ 10 ∷ []

abbrev newline : List ℕ
newline = 10 ∷ []

-- Three words as `%x`, between texts.
three_words :
    (a b c : List ℕ) {u v w : ℕ}
    → all_plain a ≡ true
    → all_plain b ≡ true
    → all_plain c ≡ true
    → u < 2 ^ 32
    → v < 2 ^ 32
    → w < 2 ^ 32
    → Conforms
        (a ++ (b'%' ∷ b'x' ∷ (b ++ (b'%' ∷ b'x' ∷ (c ++ (b'%' ∷ b'x' ∷ newline))))))
        (word u ∷ word v ∷ word w ∷ [])
unfolding isdigit
three_words a b c pa pb pc lu lv lw = Conforms-plains a pa (
    Conforms-number b'x' refl refl lu (
      Conforms-plains b pb (
        Conforms-number b'x' refl refl lv (
          Conforms-plains c pc
            (Conforms-number b'x' refl refl lw (Conforms-plains newline refl finished))))))

process_line-some :
    (me : Option Process)
    → Every (λ (p : Process). p.pid < 2 ^ 32) me
    → (t : List ℕ) × (process_line me ≡ some t)
unfolding process_line isdigit
process_line-some none low = ([], refl)
process_line-some (some p) low =
    kprintf-Conforms process_format (string (some p.name) ∷ word p.pid ∷ []) (
      Conforms-plains process refl (
        conversion [] b's' _ refl tt refl takes_string (
          Conforms-plains pid_text refl
            (Conforms-number b'd' refl refl low (Conforms-plains pid_end refl finished)))))

-- The fields are words.
pub record IsTrap (me : Option Process) (cr2 : ℕ) (r : Trap) : Type 0 where
  pub low_address : cr2 < 2 ^ 32
  pub low_eip : r.eip < 2 ^ 32
  pub low_error : r.err_code < 2 ^ 32
  pub low_cs : r.cs < 2 ^ 32
  pub low_eflags : r.eflags < 2 ^ 32
  pub low_pid : Every (λ (p : Process). p.pid < 2 ^ 32) me

-- The processor has stopped, behind a report that begins with `s`.
abbrev pub Reports : List ℕ → Option Trapped → Type 0
Reports s o = (t : List ℕ) × (o ≡ some (halted (s ++ t)))

reported :
    {a b : Option (List ℕ)} {s t : List ℕ} (f : List ℕ → List ℕ → List ℕ)
    → a ≡ some s
    → b ≡ some t
    → (a >>= λ x. b >>= λ y. some (halted (f x y))) ≡ some (halted (f s t))
reported f ea eb = rw (ea, eb) refl

handle_page_fault-some :
    (me : Option Process) (cr2 : ℕ) (r : Trap)
    → IsTrap me cr2 r
    → Reports page_fault_text (handle_page_fault me cr2 r)
unfolding handle_page_fault
handle_page_fault-some me cr2 r w =
    let (process, got) = process_line-some me w.low_pid in
    let (fault, got_f) =
      kprintf-Conforms address_format (word cr2 ∷ word r.eip ∷ word r.err_code ∷ [])
        (three_words address eip error refl refl refl w.low_address w.low_eip w.low_error) in
    (fault ++ process, (reported (λ x y. page_fault_text ++ (x ++ y)) got_f got))

report_exception-some :
    (me : Option Process) (cr2 : ℕ) (r : Trap)
    → IsTrap me cr2 r
    → Reports (exception_text ++ get_or exception_msgs r.int_no []) (report_exception me r)
unfolding report_exception
report_exception-some me cr2 r w =
    let (process, got) = process_line-some me w.low_pid in
    let (registers, got_r) =
      kprintf-Conforms registers_format (word r.eip ∷ word r.cs ∷ word r.eflags ∷ [])
        (three_words eip cs_text eflags refl refl refl w.low_eip w.low_cs w.low_eflags) in
    (
      exception_end ++ (registers ++ process),
      (reported
          (λ x y.
            (exception_text ++ get_or exception_msgs r.int_no []) ++ (exception_end ++ (x ++ y)))
          got_r got),
    )

-- A chain of two tests, and what holds of each of its results.
three_ways :
    {A : Type 0} (b c : Bool) (x y z : A) (P Q R : A → Type 0)
    → P x
    → Q y
    → R z
    → (if b
        then P (if b then x else if c then y else z)
        else if c
        then Q (if b then x else if c then y else z)
        else R (if b then x else if c then y else z))
three_ways true c x y z P Q R p q r = p
three_ways false true x y z P Q R p q r = q
three_ways false false x y z P Q R p q r = r

-- Each of the twenty exceptions stops the processor behind a report, which begins with the message of the exception, or with the one for a page fault; and the handler returns
-- from any other vector.
pub isr_handler_lem :
    (me : Option Process) (cr2 : ℕ) (r : Trap)
    → IsTrap me cr2 r
    → (if r.int_no == 14
        then Reports page_fault_text (isr_handler me cr2 r)
        else if ltb r.int_no 20
        then Reports (exception_text ++ get_or exception_msgs r.int_no []) (isr_handler me cr2 r)
        else (isr_handler me cr2 r ≡ some resumed))
unfolding isr_handler
isr_handler_lem me cr2 r w =
    three_ways (r.int_no == 14) (ltb r.int_no 20) (handle_page_fault me cr2 r)
      (report_exception me r) (some resumed) (Reports page_fault_text)
      (Reports (exception_text ++ get_or exception_msgs r.int_no [])) (λ o. o ≡ some resumed)
      (handle_page_fault-some me cr2 r w) (report_exception-some me cr2 r w) refl
