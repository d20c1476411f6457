-- ===== src/Boot/Main.antt =====
-- The start of the kernel in kernel/main.c: the amount of memory, the set-up of the memory managers, the
-- first file system, and the descriptors of the first process. `none` is a fault.
pub mod Paging
mod Tests
use mai_unix.Prelude.{
  ℕ, zero, suc, ◌+◌, ◌*◌, Option, none, some, List, [], ◌∷◌, ◌++◌, ltb, ◌==◌, if◌then◌else◌, set,
  take,
}
use mai_unix.Prelude.Words.{add32, mul32}
use mai_unix.Prelude.Faults.{◌>>=◌}
use mai_unix.Mm.Pmm.{pmm_init}
use mai_unix.Mm.Vmm.{Vmm, vmm_init}
use mai_unix.Mm.Heap.{heap_start, Header, Heap, heap_init}
use mai_unix.Fs.Node.{Store, put_node}
use mai_unix.Fs.File.{File}
use mai_unix.Fs.Ramfs.{ramfs_finddir, ramfs_create_root}
use mai_unix.Fs.Ramfs.Boot.{ramfs_mkdir, ramfs_write_file}
use mai_unix.Fs.Vfs.{vfs_mount, vfs_init}
use mai_unix.Syscall.Fd.{Sys, put_file}

abbrev pub mboot_magic : ℕ
mboot_magic = 0x2bad_b002

-- The bytes of memory by the field `mem_upper`, where the loader has passed one.
unfoldable pub memory_size : ℕ → Option ℕ → ℕ
memory_size magic mbi =
    let mem_kb : ℕ = elim mbi [
      | none ↦ 1024
      | some mem_upper ↦ if magic == mboot_magic then add32 mem_upper 1024 else 1024
    ] in
    let mem_bytes = mul32 mem_kb 1024 in
    if ltb mem_bytes (4 * 1024 * 1024) then 4 * 1024 * 1024 else mem_bytes

-- `pmm_init` and `vmm_init`, as `kernel_main` calls them, on memory as it is.
unfoldable pub init_tables : (ℕ → ℕ) → ℕ → ℕ → Option Vmm
unfolding vmm_init
init_tables mem mem_bytes kernel_end = pmm_init mem_bytes kernel_end >>= λ pmm.
    vmm_init (record { mem = mem; pmm = pmm; kernel_dir = 0; current_dir = 0 })

-- And `heap_init`, from the initialisers of the variables of mm/heap.c.
unfoldable pub init_memory : (ℕ → ℕ) → (ℕ → Header) → (ℕ → ℕ) → ℕ → ℕ → Option Heap
unfolding init_tables heap_init
init_memory mem hdr bytes mem_bytes kernel_end = init_tables mem mem_bytes kernel_end >>= λ vm.
    heap_init (record { vm = vm; hdr = hdr; bytes = bytes; head = 0; brk = heap_start })

abbrev pub bin_name : List ℕ
bin_name = b'b' ∷ b'i' ∷ b'n' ∷ []

abbrev pub etc_name : List ℕ
etc_name = b'e' ∷ b't' ∷ b'c' ∷ []

abbrev pub home_name : List ℕ
home_name = b'h' ∷ b'o' ∷ b'm' ∷ b'e' ∷ []

abbrev pub tmp_name : List ℕ
tmp_name = b't' ∷ b'm' ∷ b'p' ∷ []

abbrev pub dev_name : List ℕ
dev_name = b'd' ∷ b'e' ∷ b'v' ∷ []

abbrev pub proc_name : List ℕ
proc_name = b'p' ∷ b'r' ∷ b'o' ∷ b'c' ∷ []

abbrev pub user_name : List ℕ
user_name = b'u' ∷ b's' ∷ b'e' ∷ b'r' ∷ []

abbrev pub motd_name : List ℕ
motd_name = b'm' ∷ b'o' ∷ b't' ∷ b'd' ∷ []

abbrev pub hostname_name : List ℕ
hostname_name = b'h' ∷ b'o' ∷ b's' ∷ b't' ∷ b'n' ∷ b'a' ∷ b'm' ∷ b'e' ∷ []

abbrev pub passwd_name : List ℕ
passwd_name = b'p' ∷ b'a' ∷ b's' ∷ b's' ∷ b'w' ∷ b'd' ∷ []

abbrev pub readme_name : List ℕ
readme_name = b'R' ∷ b'E' ∷ b'A' ∷ b'D' ∷ b'M' ∷ b'E' ∷ []

abbrev pub tty0_name : List ℕ
tty0_name = b't' ∷ b't' ∷ b'y' ∷ b'0' ∷ []

-- The texts of the files.
abbrev pub motd_text : List ℕ
motd_text =
    b'W' ∷ b'e' ∷ b'l' ∷ b'c' ∷ b'o' ∷ b'm' ∷ b'e' ∷ b' ' ∷ b't' ∷ b'o' ∷ b' ' ∷ b'M' ∷ b'y' ∷ b'O'
    ∷ b'S' ∷ b'!' ∷ 10 ∷ b'A' ∷ b' ' ∷ b'm' ∷ b'i' ∷ b'n' ∷ b'i' ∷ b'm' ∷ b'a' ∷ b'l' ∷ b' ' ∷ b'U'
    ∷ b'n' ∷ b'i' ∷ b'x' ∷ b'-' ∷ b'l' ∷ b'i' ∷ b'k' ∷ b'e' ∷ b' ' ∷ b'O' ∷ b'S' ∷ b' ' ∷ b'w'
    ∷ b'r' ∷ b'i' ∷ b't' ∷ b't' ∷ b'e' ∷ b'n' ∷ b' ' ∷ b'i' ∷ b'n' ∷ b' ' ∷ b'C' ∷ b'.' ∷ 10 ∷ b'T'
    ∷ b'y' ∷ b'p' ∷ b'e' ∷ b' ' ∷ 39 ∷ b'h' ∷ b'e' ∷ b'l' ∷ b'p' ∷ 39 ∷ b' ' ∷ b'f' ∷ b'o' ∷ b'r'
    ∷ b' ' ∷ b'a' ∷ b'v' ∷ b'a' ∷ b'i' ∷ b'l' ∷ b'a' ∷ b'b' ∷ b'l' ∷ b'e' ∷ b' ' ∷ b'c' ∷ b'o'
    ∷ b'm' ∷ b'm' ∷ b'a' ∷ b'n' ∷ b'd' ∷ b's' ∷ b'.' ∷ 10 ∷ []

abbrev pub hostname_text : List ℕ
hostname_text = b'm' ∷ b'y' ∷ b'o' ∷ b's' ∷ 10 ∷ []

abbrev pub passwd_text : List ℕ
passwd_text =
    b'r' ∷ b'o' ∷ b'o' ∷ b't' ∷ b':' ∷ b'x' ∷ b':' ∷ b'0' ∷ b':' ∷ b'0' ∷ b':' ∷ b'r' ∷ b'o' ∷ b'o'
    ∷ b't' ∷ b':' ∷ b'/' ∷ b'h' ∷ b'o' ∷ b'm' ∷ b'e' ∷ b'/' ∷ b'r' ∷ b'o' ∷ b'o' ∷ b't' ∷ b':'
    ∷ b'/' ∷ b'b' ∷ b'i' ∷ b'n' ∷ b'/' ∷ b's' ∷ b'h' ∷ 10 ∷ []

abbrev pub readme_text : List ℕ
readme_text =
    b'M' ∷ b'y' ∷ b'O' ∷ b'S' ∷ b' ' ∷ b'-' ∷ b' ' ∷ b'M' ∷ b'i' ∷ b'n' ∷ b'i' ∷ b'm' ∷ b'a' ∷ b'l'
    ∷ b' ' ∷ b'U' ∷ b'n' ∷ b'i' ∷ b'x' ∷ b'-' ∷ b'l' ∷ b'i' ∷ b'k' ∷ b'e' ∷ b' ' ∷ b'O' ∷ b'p'
    ∷ b'e' ∷ b'r' ∷ b'a' ∷ b't' ∷ b'i' ∷ b'n' ∷ b'g' ∷ b' ' ∷ b'S' ∷ b'y' ∷ b's' ∷ b't' ∷ b'e'
    ∷ b'm' ∷ 10 ∷ b'=' ∷ b'=' ∷ b'=' ∷ b'=' ∷ b'=' ∷ b'=' ∷ b'=' ∷ b'=' ∷ b'=' ∷ b'=' ∷ b'=' ∷ b'='
    ∷ b'=' ∷ b'=' ∷ b'=' ∷ b'=' ∷ b'=' ∷ b'=' ∷ b'=' ∷ b'=' ∷ b'=' ∷ b'=' ∷ b'=' ∷ b'=' ∷ b'='
    ∷ b'=' ∷ b'=' ∷ b'=' ∷ b'=' ∷ b'=' ∷ b'=' ∷ b'=' ∷ b'=' ∷ b'=' ∷ b'=' ∷ b'=' ∷ b'=' ∷ b'='
    ∷ b'=' ∷ b'=' ∷ b'=' ∷ b'=' ∷ 10 ∷ b'B' ∷ b'u' ∷ b'i' ∷ b'l' ∷ b't' ∷ b' ' ∷ b'f' ∷ b'r' ∷ b'o'
    ∷ b'm' ∷ b' ' ∷ b's' ∷ b'c' ∷ b'r' ∷ b'a' ∷ b't' ∷ b'c' ∷ b'h' ∷ b' ' ∷ b'i' ∷ b'n' ∷ b' '
    ∷ b'C' ∷ b'.' ∷ 10 ∷ b'F' ∷ b'e' ∷ b'a' ∷ b't' ∷ b'u' ∷ b'r' ∷ b'e' ∷ b's' ∷ b':' ∷ 10 ∷ b' '
    ∷ b' ' ∷ b'-' ∷ b' ' ∷ b'x' ∷ b'8' ∷ b'6' ∷ b' ' ∷ b'p' ∷ b'r' ∷ b'o' ∷ b't' ∷ b'e' ∷ b'c'
    ∷ b't' ∷ b'e' ∷ b'd' ∷ b' ' ∷ b'm' ∷ b'o' ∷ b'd' ∷ b'e' ∷ 10 ∷ b' ' ∷ b' ' ∷ b'-' ∷ b' ' ∷ b'P'
    ∷ b'a' ∷ b'g' ∷ b'i' ∷ b'n' ∷ b'g' ∷ b' ' ∷ b'/' ∷ b' ' ∷ b'v' ∷ b'i' ∷ b'r' ∷ b't' ∷ b'u'
    ∷ b'a' ∷ b'l' ∷ b' ' ∷ b'm' ∷ b'e' ∷ b'm' ∷ b'o' ∷ b'r' ∷ b'y' ∷ b' ' ∷ b'(' ∷ b'C' ∷ b'o'
    ∷ b'W' ∷ b')' ∷ 10 ∷ b' ' ∷ b' ' ∷ b'-' ∷ b' ' ∷ b'R' ∷ b'o' ∷ b'u' ∷ b'n' ∷ b'd' ∷ b'-' ∷ b'r'
    ∷ b'o' ∷ b'b' ∷ b'i' ∷ b'n' ∷ b' ' ∷ b's' ∷ b'c' ∷ b'h' ∷ b'e' ∷ b'd' ∷ b'u' ∷ b'l' ∷ b'e'
    ∷ b'r' ∷ 10 ∷ b' ' ∷ b' ' ∷ b'-' ∷ b' ' ∷ b'r' ∷ b'a' ∷ b'm' ∷ b'f' ∷ b's' ∷ b' ' ∷ b'v' ∷ b'i'
    ∷ b'r' ∷ b't' ∷ b'u' ∷ b'a' ∷ b'l' ∷ b' ' ∷ b'f' ∷ b'i' ∷ b'l' ∷ b'e' ∷ b's' ∷ b'y' ∷ b's'
    ∷ b't' ∷ b'e' ∷ b'm' ∷ 10 ∷ b' ' ∷ b' ' ∷ b'-' ∷ b' ' ∷ b'P' ∷ b'O' ∷ b'S' ∷ b'I' ∷ b'X' ∷ b'-'
    ∷ b'l' ∷ b'i' ∷ b'k' ∷ b'e' ∷ b' ' ∷ b's' ∷ b'y' ∷ b's' ∷ b't' ∷ b'e' ∷ b'm' ∷ b' ' ∷ b'c'
    ∷ b'a' ∷ b'l' ∷ b'l' ∷ b's' ∷ 10 ∷ b' ' ∷ b' ' ∷ b'-' ∷ b' ' ∷ b'I' ∷ b'n' ∷ b't' ∷ b'e' ∷ b'r'
    ∷ b'a' ∷ b'c' ∷ b't' ∷ b'i' ∷ b'v' ∷ b'e' ∷ b' ' ∷ b's' ∷ b'h' ∷ b'e' ∷ b'l' ∷ b'l' ∷ 10 ∷ []

-- `size` bytes from a string constant on: its bytes, its NUL, and what `beyond` says lies behind it.
abbrev pub from_constant : (ℕ → List ℕ) → ℕ → List ℕ → List ℕ
from_constant beyond size text = take size (text ++ (0 ∷ beyond size))

-- A directory of the root that is looked up by its name, and what is done if it is there.
abbrev pub in_directory : Store → ℕ → List ℕ → (Store → ℕ → Option Store) → Option Store
in_directory s root name action = do
  found ← ramfs_finddir s root name
  elim found [ none ↦ some s | some v ↦ action s v ]

unfoldable pub make_directories : Store → ℕ → List (List ℕ) → Option Store
unfolding ramfs_mkdir
make_directories s root [] = some s
make_directories s root (name ∷ names) =
    ramfs_mkdir s root name >>= λ s'. make_directories s' root names

-- The store and the root that the start leaves; `junk` is what fresh memory holds.
unfoldable pub build_initfs : (ℕ → ℕ) → (ℕ → List ℕ) → Store → Option (Store × Option ℕ)
unfolding make_directories ramfs_mkdir ramfs_write_file ramfs_create_root ramfs_finddir vfs_init
    vfs_mount
build_initfs junk beyond s₀ = do
  (root, s₁) ← ramfs_create_root s₀
  (_, s₂, mounted) ← vfs_mount s₁ vfs_init (b'/' ∷ []) root
  s₃ ←
      make_directories s₂ root
        (bin_name ∷ etc_name ∷ home_name ∷ tmp_name ∷ dev_name ∷ proc_name ∷ [])
  s₄ ← in_directory s₃ root home_name (λ s home. ramfs_mkdir s home user_name)
  s₅ ← in_directory s₄ root etc_name (λ s etc. do
    s' ← ramfs_write_file junk s etc motd_name (from_constant beyond 100 motd_text)
    s'' ← ramfs_write_file junk s' etc hostname_name (from_constant beyond 6 hostname_text)
    ramfs_write_file junk s'' etc passwd_name (from_constant beyond 36 passwd_text))
  s₆ ← ramfs_write_file junk s₅ root readme_name (from_constant beyond 300 readme_text)
  s₇ ← in_directory s₆ root dev_name (λ s dev. ramfs_mkdir s dev tty0_name)
  some (s₇, mounted)

-- The loop of `init_process`, with `n` rounds left from descriptor `i`, on the vnode of the terminal.
unfoldable pub open_terminals : ℕ → ℕ → ℕ → Sys → Option Sys
open_terminals zero i tty_vn s = some s
open_terminals (suc n) i tty_vn s = do
  v ← s.store.nodes tty_vn
  let a = s.fresh_file
  let f : File = record { vnode = tty_vn; flags = if i == 0 then 0 else 1; offset = 0; ref = 1 }
  open_terminals n (i + 1) tty_vn (record (put_file s a (some f)) {
    store = put_node s.store tty_vn (record v { ref_count = add32 v.ref_count 1 });
    fresh_file = a + 1;
    fds = set s.fds i (some a);
  })
