-- ===== src/Boot/Main/Tests.antt =====
-- The start of kernel/main.c on 4 MB of memory, and the file system that it builds.
use mai_unix.Prelude.{◌≡◌, refl, none, some, ◌∷◌, ◌++◌, arith, replicate}
use mai_unix.Fs.Node.{Store}
use mai_unix.Fs.Vfs.{next_part, is_skipped, enter, vfs_lookup}
use mai_unix.Mm.Vmm.{Vmm}
use mai_unix.Mm.Vmm.Init.{Booted}
use mai_unix.Boot.Main.Paging.{init_tables_lem}
use mai_unix.Boot.Main.{init_tables, etc_name, motd_name, build_initfs}
use mai_unix.Prelude.Faults.{◌>>=◌}

abbrev empty_store : Store
empty_store = record { nodes = λ a. none; fresh = 1; next_inode = 1 }

-- `/etc/motd` is there.
motd_found :
    (build_initfs (λ i. 170) (λ n. replicate n 88) empty_store >>= λ r.
    vfs_lookup r.0 r.1 (47 ∷ (etc_name ++ (47 ∷ motd_name))))
    ≡ some (some 9)
unfolding build_initfs vfs_lookup next_part is_skipped enter
motd_found = refl

init_tables_lem_example : (s : Vmm) × (init_tables (λ a. 0) 0x40_0000 0x11_2345 ≡ some s) × Booted s
init_tables_lem_example =
    init_tables_lem (λ a. 0) 0x40_0000 0x11_2345 (omega arith) (omega arith) (omega arith)
