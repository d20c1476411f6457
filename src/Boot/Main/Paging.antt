-- ===== src/Boot/Main/Paging.antt =====
-- The page tables behind the calls of `pmm_init` and `vmm_init` in kernel/main.c.
use mai_unix.Prelude.{ℕ, ◌+◌, ◌*◌, ◌/◌, ◌≤◌, ◌<◌, ◌≡◌, ◌∙◌, ◌&&◌, some, arith, leb, if◌then◌else◌}
use mai_unix.Mm.Pmm.{page_size}
use mai_unix.Mm.Pmm.Bitmap.{bit_of}
use mai_unix.Mm.Pmm.Init.{pmm_init_lem}
use mai_unix.Mm.Vmm.{Vmm}
use mai_unix.Mm.Vmm.Init.{Booted, vmm_init_lem}
use mai_unix.Boot.Main.{init_tables}

-- The bit of a page that `pmm_init` sets.
abbrev init_bit : ℕ → ℕ → ℕ → ℕ
init_bit kernel_end mem_size q =
    if leb kernel_end (q * page_size) && leb ((q + 1) * page_size) mem_size then 0 else 1

is_free :
    (kernel_end mem_size q : ℕ)
    → kernel_end ≤ q * page_size
    → (q + 1) * page_size ≤ mem_size
    → init_bit kernel_end mem_size q ≡ 0
is_free kernel_end mem_size q above below = ground arith

-- Behind a kernel that ends three pages before the end of a memory of at most 256 MB, `pmm_init` and
-- `vmm_init` go through. Then the kernel's directory is the current one, a well formed address space
-- that translates every address below 4 MB to itself and in which no page from 4 MB on is mapped; and
-- the page allocator is well formed.
pub init_tables_lem :
    (mem : ℕ → ℕ) (mem_size kernel_end : ℕ)
    → mem_size ≤ 65536 * page_size
    → 0 < kernel_end
    → kernel_end + 3 * page_size ≤ mem_size
    → (s : Vmm) × (init_tables mem mem_size kernel_end ≡ some s) × Booted s
unfolding init_tables
init_tables_lem mem mem_size kernel_end fits loaded room =
    let (m, got, valid, total, bits) = pmm_init_lem mem_size kernel_end fits loaded (omega arith) in
    let p = (kernel_end + 4095) / 4096 in
    let p_free : bit_of m.bitmap p ≡ 0 =
      bits p (omega arith) ∙ is_free kernel_end mem_size p (omega arith) (omega arith) in
    let q_free : bit_of m.bitmap (p + 1) ≡ 0 =
      bits (p + 1) (omega arith)
      ∙ is_free kernel_end mem_size (p + 1) (omega arith) (omega arith) in
    let (s, got', booted) =
      vmm_init_lem (record { mem = mem; pmm = m; kernel_dir = 0; current_dir = 0 }) p (p + 1) valid
        (omega (arith, total)) (omega (arith, total)) p_free q_free (omega arith) in
    (s, rw (got) got', booted)
