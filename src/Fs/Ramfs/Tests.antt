-- ===== src/Fs/Ramfs/Tests.antt =====
-- The theorems on fs/ramfs.c at the small file system.
use mai_unix.Prelude.Int.{pos}
use mai_unix.Prelude.{ℕ, ◌≡◌, refl, ◌≢◌, ◌⊎◌, none, some, List, [], ◌∷◌, ◌++◌, arith}
use mai_unix.Fs.Node.{file, Node, Store, put_node, free_node, enoent}
use mai_unix.Fs.Ramfs.{ramfs_read, ramfs_finddir, ramfs_create, ramfs_unlink, ramfs_write}
use mai_unix.Fs.Ramfs.Data.{Writes, ramfs_read-ramfs_write}
use mai_unix.Fs.Ramfs.Dir.{HasName, NoneNamed}
use mai_unix.Fs.Ramfs.Create.{ramfs_finddir-ramfs_create}
use mai_unix.Fs.Ramfs.Unlink.{ramfs_unlink_lem}
use mai_unix.Fs.Sample.{a_file, a_dir, sample, a_file-IsFile, name_a-IsText, a_dir-IsDir, junk}
use mai_unix.Libc.Str.{IsText}
use mathlib.Core.List.{Perm}

name_b-IsText : IsText (b'b' ∷ [])
name_b-IsText = ((omega arith), tt)

ramfs_read-ramfs_write_example :
    (n' : Node) × (ramfs_write junk sample 2 2 (1 ∷ 2 ∷ []) ≡ some (pos 2, put_node sample 2 n'))
    × (ramfs_read (put_node sample 2 n') 2 2 2 ≡ some (pos 2, 1 ∷ 2 ∷ []))
    × Writes a_file 2 (1 ∷ 2 ∷ []) n'
ramfs_read-ramfs_write_example =
    ramfs_read-ramfs_write junk sample 2 2 (1 ∷ 2 ∷ []) {n = a_file} refl a_file-IsFile
      (omega arith) (omega arith)

ramfs_finddir-ramfs_create_example :
    (s' : Store) × (ramfs_create sample 1 (b'b' ∷ []) file ≡ some (pos 0, s'))
    × (((c : ℕ) × (ramfs_finddir sample 1 (b'b' ∷ []) ≡ some (some c))
          × (ramfs_finddir s' 1 (b'b' ∷ []) ≡ some (some c)))
        ⊎ ((ramfs_finddir sample 1 (b'b' ∷ []) ≡ some none)
            × (◌≡◌ {A = List ℕ} (b'b' ∷ []) (b'b' ∷ [])
                → ramfs_finddir s' 1 (b'b' ∷ []) ≡ some (some 3))
            × (◌≢◌ {A = List ℕ} (b'b' ∷ []) (b'b' ∷ [])
                → ramfs_finddir s' 1 (b'b' ∷ []) ≡ some none)))
ramfs_finddir-ramfs_create_example =
    ramfs_finddir-ramfs_create sample 1 (b'b' ∷ []) (b'b' ∷ []) file {n = a_dir} refl a_dir-IsDir
      (omega arith) refl (omega arith) name_b-IsText name_b-IsText

ramfs_unlink_lem_example :
    ((before : List ℕ) × (c : ℕ) × (behind rest : List ℕ) × (◌≡◌ {A = List ℕ}
        (2 ∷ [])
        (before ++ c ∷ behind))
      × NoneNamed sample (b'a' ∷ []) before
      × HasName sample (b'a' ∷ []) c
      × Perm (2 ∷ []) (c ∷ rest)
      × (ramfs_unlink sample 1 (b'a' ∷ [])
          ≡ some (pos 0, put_node (free_node sample c) 1 (record a_dir { children = rest }))))
    ⊎ ((ramfs_unlink sample 1 (b'a' ∷ []) ≡ some (enoent, sample))
        × NoneNamed sample (b'a' ∷ []) (2 ∷ []))
ramfs_unlink_lem_example =
    ramfs_unlink_lem sample 1 (b'a' ∷ []) {n = a_dir} refl a_dir-IsDir.whole
      ((λ q. absurd (omega arith)), tt) name_a-IsText
