-- ===== src/Mm/Vmm.antt =====
-- The page tables of mm/vmm.c, on the physical memory as a function from the number of a 32-bit
-- word to the word. A pointer to a table or a directory is its physical address; entry `i` of it is
-- the word `i` places behind. The TLB and the control registers are not modelled.
pub mod Entries
pub mod Space
pub mod Tables
pub mod Map
pub mod Clone
pub mod Sample
pub mod Identity
pub mod Init
mod Tests
use mai_unix.Prelude.Faults.{◌>>=◌}
use mai_unix.Prelude.Words.{add32, align_down}
use mai_unix.Prelude.{
  ℕ, zero, suc, ◌+◌, ◌-◌, ◌*◌, ◌/◌, ◌%◌, ◌^◌, bit_and, bit_or, Bool, not, Option, some, ◌==◌,
  if◌then◌else◌,
}
use mai_unix.Mm.Pmm.{page_size, Pmm, pmm_alloc, pmm_free}

-- PAGE_PRESENT, PAGE_WRITE, PAGE_USER and PAGE_COW.
abbrev pub page_present : ℕ
page_present = 0x001

abbrev pub page_write : ℕ
page_write = 0x002

abbrev pub page_user : ℕ
page_user = 0x004

abbrev pub page_cow : ℕ
page_cow = 0x200

-- The memory, the page allocator, and the static variables of mm/vmm.c.
pub record Vmm : Type 0 where
  pub mem : ℕ → ℕ
  pub pmm : Pmm
  pub kernel_dir : ℕ
  pub current_dir : ℕ

-- `p->entries[i]`, read and written.
abbrev pub entry : Vmm → ℕ → ℕ → ℕ
entry s p i = s.mem (p / 4 + i)

abbrev pub write_entry : Vmm → ℕ → ℕ → ℕ → Vmm
write_entry s p i v = record s { mem = λ a. if a == p / 4 + i then v else s.mem a }

abbrev pub is_present : ℕ → Bool
is_present e = not (bit_and e page_present == 0)

-- `e & ~0xFFF`
abbrev pub table_of : ℕ → ℕ
table_of e = align_down e 12

-- `virt >> 22` and `(virt >> 12) & 0x3FF`.
abbrev pub pd_idx : ℕ → ℕ
pd_idx virt = virt / 2 ^ 22

abbrev pub pt_idx : ℕ → ℕ
pt_idx virt = virt / 2 ^ 12 % 1024

unfoldable pub memset32 : (ℕ → ℕ) → ℕ → ℕ → ℕ → ℕ → ℕ
memset32 mem dst val zero = mem
memset32 mem dst val (suc count) =
    memset32 (λ a. if a == dst then val else mem a) (dst + 1) val count

-- A page from the allocator, cleared.
unfoldable pub new_table : Vmm → Option (ℕ × Vmm)
unfolding memset32
new_table s = do
  (pt, pmm) ← pmm_alloc s.pmm
  some (pt, record s { pmm = pmm; mem = memset32 s.mem (pt / 4) 0 1024 })

-- The first statement of `vmm_map`: the table for entry `i` of the directory, made if need be.
unfoldable pub find_table : Vmm → ℕ → ℕ → ℕ → Option (ℕ × Vmm)
unfolding new_table
find_table s pd i flags =
    if is_present (entry s pd i)
    then some (table_of (entry s pd i), s)
    else (new_table s >>= λ r.
        let (pt, s') = r in
        some (
          pt,
          write_entry s' pd i
              (bit_or (bit_or (bit_or pt page_present) page_write) (bit_and flags page_user)),
        ))

unfoldable pub vmm_map : Vmm → ℕ → ℕ → ℕ → ℕ → Option Vmm
unfolding find_table
vmm_map s pd virt phys flags = do
  (pt, s') ← find_table s pd (pd_idx virt) flags
  some (write_entry s' pt (pt_idx virt) (bit_or (bit_or (table_of phys) page_present) flags))

unfoldable pub vmm_unmap : Vmm → ℕ → ℕ → Vmm
vmm_unmap s pd virt =
    let e = entry s pd (pd_idx virt) in
    if is_present e then write_entry s (table_of e) (pt_idx virt) 0 else s

unfoldable pub vmm_get_physical : Vmm → ℕ → ℕ → ℕ
vmm_get_physical s pd virt =
    let e = entry s pd (pd_idx virt) in
    if is_present e
    then add32 (table_of (entry s (table_of e) (pt_idx virt))) (virt % 2 ^ 12)
    else 0

unfoldable pub vmm_switch : Vmm → ℕ → Vmm
vmm_switch s pd = record s { current_dir = pd }

-- The loop of `vmm_init`, with `n` pages left from page `i`.
unfoldable pub identity_loop : ℕ → ℕ → Vmm → Option Vmm
unfolding vmm_map
identity_loop zero i s = some s
identity_loop (suc n) i s =
    vmm_map s s.kernel_dir (i * page_size) (i * page_size) (bit_or page_present page_write)
    >>= λ s'. identity_loop n (i + 1) s'

unfoldable pub vmm_init : Vmm → Option Vmm
unfolding new_table identity_loop vmm_switch
vmm_init s = do
  (dir, s₁) ← new_table s
  s₂ ← identity_loop 1024 0 (record s₁ { kernel_dir = dir })
  some (vmm_switch s₂ s₂.kernel_dir)

-- The loop of `vmm_create_directory`, with `n` rounds left from entry `i`.
unfoldable pub copy_kernel : ℕ → ℕ → ℕ → Vmm → Vmm
copy_kernel zero i pd s = s
copy_kernel (suc n) i pd s = copy_kernel n (i + 1) pd (write_entry s pd i (entry s s.kernel_dir i))

unfoldable pub vmm_create_directory : Vmm → Option (ℕ × Vmm)
unfolding new_table copy_kernel
vmm_create_directory s = do (pd, s') ← new_table s; some (pd, copy_kernel 256 768 pd s')

-- An entry of both address spaces behind a clone: read-only, and marked.
unfoldable pub cow : ℕ → ℕ
cow e = bit_or (bit_and e (2 ^ 32 - 1 - page_write)) page_cow

-- One round of the inner loop of `vmm_clone`.
unfoldable pub clone_entry : ℕ → ℕ → ℕ → Vmm → Vmm
unfolding cow
clone_entry j src dst s =
    let e = entry s src j in
    let s₁ = write_entry s src j (cow e) in
    if is_present e then write_entry s₁ dst j (entry s₁ src j) else s

-- The inner loop, with `n` rounds left from entry `j`.
unfoldable pub clone_table : ℕ → ℕ → ℕ → ℕ → Vmm → Vmm
unfolding clone_entry
clone_table zero j src dst s = s
clone_table (suc n) j src dst s = clone_table n (j + 1) src dst (clone_entry j src dst s)

-- The outer loop, with `n` rounds left from entry `i`.
unfoldable pub clone_loop : ℕ → ℕ → ℕ → ℕ → Vmm → Option Vmm
unfolding clone_table new_table
clone_loop zero i src dst s = some s
clone_loop (suc n) i src dst s =
    let e = entry s src i in
    let skip = clone_loop n (i + 1) src dst s in
    if is_present e
    then (new_table s >>= λ r.
        let (pt, s₁) = r in
        let s₂ = clone_table 1024 0 (table_of e) pt s₁ in
        clone_loop n (i + 1) src dst
          (write_entry s₂ dst i (bit_or pt (bit_and (entry s₂ src i) 0xfff))))
    else skip

unfoldable pub vmm_clone : Vmm → ℕ → Option (ℕ × Vmm)
unfolding vmm_create_directory clone_loop
vmm_clone s src = do
  (dst, s₁) ← vmm_create_directory s
  s₂ ← clone_loop 768 0 src dst s₁
  some (dst, s₂)

-- The loops of `vmm_destroy_directory`: the frames of a table, and the tables of a directory.
unfoldable pub free_frames : ℕ → ℕ → ℕ → Vmm → Option Vmm
free_frames zero j pt s = some s
free_frames (suc n) j pt s =
    let e = entry s pt j in
    let skip = free_frames n (j + 1) pt s in
    if is_present e
    then (pmm_free s.pmm (table_of e) >>= λ pmm. free_frames n (j + 1) pt (record s { pmm = pmm }))
    else skip

unfoldable pub free_tables : ℕ → ℕ → ℕ → Vmm → Option Vmm
unfolding free_frames
free_tables zero i pd s = some s
free_tables (suc n) i pd s =
    let e = entry s pd i in
    let skip = free_tables n (i + 1) pd s in
    if is_present e
    then (free_frames 1024 0 (table_of e) s >>= λ s₁.
        pmm_free s₁.pmm (table_of e) >>= λ pmm. free_tables n (i + 1) pd (record s₁ { pmm = pmm }))
    else skip

unfoldable pub vmm_destroy_directory : Vmm → ℕ → Option Vmm
unfolding free_tables
vmm_destroy_directory s pd = do
  s' ← free_tables 768 0 pd s
  pmm ← pmm_free s'.pmm pd
  some (record s' { pmm = pmm })

unfoldable pub vmm_get_kernel_directory : Vmm → ℕ
vmm_get_kernel_directory s = s.kernel_dir
