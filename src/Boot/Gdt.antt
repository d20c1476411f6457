-- ===== src/Boot/Gdt.antt =====
-- The global descriptor table of kernel/gdt.c, as a list of entries; `tss_at` is the address of the
-- task state segment. The loading of the tables into the processor is not modelled.
pub mod Decode
use mai_unix.Prelude.Words.{add32}
use mai_unix.Prelude.{ℕ, ◌/◌, ◌^◌, bit_and, bit_or, List, set, replicate}

pub record GdtEntry : Type 0 where
  pub limit_low : ℕ
  pub base_low : ℕ
  pub base_middle : ℕ
  pub access : ℕ
  pub granularity : ℕ
  pub base_high : ℕ

pub record TssEntry : Type 0 where
  pub prev_tss : ℕ
  pub esp0 : ℕ
  pub ss0 : ℕ
  pub esp1 : ℕ
  pub ss1 : ℕ
  pub esp2 : ℕ
  pub ss2 : ℕ
  pub cr3 : ℕ
  pub eip : ℕ
  pub eflags : ℕ
  pub eax : ℕ
  pub ecx : ℕ
  pub edx : ℕ
  pub ebx : ℕ
  pub esp : ℕ
  pub ebp : ℕ
  pub esi : ℕ
  pub edi : ℕ
  pub es : ℕ
  pub cs : ℕ
  pub ss : ℕ
  pub ds : ℕ
  pub fs : ℕ
  pub gs : ℕ
  pub ldt : ℕ
  pub trap : ℕ
  pub iomap_base : ℕ

-- `sizeof(tss_entry_t)`: 25 words and two half words.
abbrev pub tss_size : ℕ
tss_size = 104

abbrev pub gdt_entries : ℕ
gdt_entries = 6

-- The static variables of kernel/gdt.c.
pub record Tables : Type 0 where
  pub gdt : List GdtEntry
  pub tss : TssEntry

-- The arguments of `gdt_set_entry` in an entry.
unfoldable pub encode_entry : ℕ → ℕ → ℕ → ℕ → GdtEntry
encode_entry base limit access gran = record {
  limit_low = bit_and limit 0xffff;
  base_low = bit_and base 0xffff;
  base_middle = bit_and (base / 2 ^ 16) 0xff;
  access = access;
  granularity = bit_or (bit_and (limit / 2 ^ 16) 0x0f) (bit_and gran 0xf0);
  base_high = bit_and (base / 2 ^ 24) 0xff;
}

unfoldable pub gdt_set_entry : Tables → ℕ → ℕ → ℕ → ℕ → ℕ → Tables
unfolding encode_entry
gdt_set_entry t n base limit access gran = record t {
  gdt = set t.gdt n (encode_entry base limit access gran);
}

-- The loop over the bytes of `tss` clears every field.
abbrev pub cleared : TssEntry
cleared = record {
  prev_tss = 0;
  esp0 = 0;
  ss0 = 0;
  esp1 = 0;
  ss1 = 0;
  esp2 = 0;
  ss2 = 0;
  cr3 = 0;
  eip = 0;
  eflags = 0;
  eax = 0;
  ecx = 0;
  edx = 0;
  ebx = 0;
  esp = 0;
  ebp = 0;
  esi = 0;
  edi = 0;
  es = 0;
  cs = 0;
  ss = 0;
  ds = 0;
  fs = 0;
  gs = 0;
  ldt = 0;
  trap = 0;
  iomap_base = 0;
}

-- Static variables start as zero.
abbrev pub boot_tables : Tables
boot_tables = record {
  gdt = replicate gdt_entries (record {
    limit_low = 0;
    base_low = 0;
    base_middle = 0;
    access = 0;
    granularity = 0;
    base_high = 0;
  });
  tss = cleared;
}

unfoldable pub tss_setup : ℕ → Tables → ℕ → ℕ → Tables
unfolding gdt_set_entry
tss_setup tss_at t ss0 esp0 =
    let t' = gdt_set_entry t 5 tss_at (add32 tss_at tss_size) 0x89 0x00 in
    record t' { tss = record cleared { ss0 = ss0; esp0 = esp0; iomap_base = tss_size } }

unfoldable pub gdt_set_kernel_stack : Tables → ℕ → Tables
gdt_set_kernel_stack t stack = record t { tss = record t.tss { esp0 = stack } }

unfoldable pub gdt_init : ℕ → Tables → Tables
unfolding gdt_set_entry tss_setup
gdt_init tss_at t =
    let t₀ = gdt_set_entry t 0 0 0 0x00 0x00 in
    let t₁ = gdt_set_entry t₀ 1 0 0xffff_ffff 0x9a 0xcf in
    let t₂ = gdt_set_entry t₁ 2 0 0xffff_ffff 0x92 0xcf in
    let t₃ = gdt_set_entry t₂ 3 0 0xffff_ffff 0xfa 0xcf in
    let t₄ = gdt_set_entry t₃ 4 0 0xffff_ffff 0xf2 0xcf in tss_setup tss_at t₄ 0x10 0
