-- ===== src/Boot/Tests.antt =====
-- The theorems on the descriptor tables at concrete tables.
use mai_unix.Prelude.{◌/◌, ◌%◌, ◌^◌, ◌≡◌, arith, get_or}
use mai_unix.Boot.Gdt.{GdtEntry, gdt_set_entry, boot_tables}
use mai_unix.Boot.Gdt.Decode.{base_of, limit_of, flags_of, gdt_set_entry_lem}

null_entry : GdtEntry
null_entry = record {
  limit_low = 0;
  base_low = 0;
  base_middle = 0;
  access = 0;
  granularity = 0;
  base_high = 0;
}

gdt_set_entry_lem_example :
    let e = get_or (gdt_set_entry boot_tables 2 0x1234_5678 0xf_ffff 0x92 0xcf).gdt 2 null_entry in
    (base_of e ≡ 0x1234_5678)
    × (limit_of e ≡ 0xf_ffff % 2 ^ 20)
    × (flags_of e ≡ 0xcf / 16)
    × (e.access ≡ 0x92)
gdt_set_entry_lem_example =
    gdt_set_entry_lem boot_tables 2 0x1234_5678 0xf_ffff 0x92 0xcf 2 null_entry (omega arith)
      (omega arith) (omega arith)
