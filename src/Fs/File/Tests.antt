-- ===== src/Fs/File/Tests.antt =====
-- The theorems on open files at the small file system, with a terminal that answers nothing.
use mai_unix.Prelude.Int.{pos}
use mai_unix.Prelude.{ℕ, zero, suc, ◌≡◌, refl, ◌≢◌, true, none, some, [], ◌∷◌, arith, length}
use mai_unix.Prelude.Bits.{bit_at}
use mai_unix.Fs.Node.{file, Node, Store}
use mai_unix.Fs.Sample.{a_file, a_dir, sample, a_file-IsFile, a_dir-IsDir, junk}
use mai_unix.Fs.Vfs.{
  next_part, is_skipped, resolve_mount, op_finddir, enter, lookup_loop, strip, vfs_lookup,
}
use mai_unix.Fs.Ramfs.{kstrcmp_eq, find_child, ramfs_finddir}
use mai_unix.Libc.Str.{strcmp}
use mai_unix.Fs.File.{
  File, CharDevice, o_creat, file_open, file_close, file_read, file_write, seek_set, file_seek,
}
use mai_unix.Fs.File.Io.{file_read-file_write}
use mai_unix.Fs.File.Open.{file_close-file_open, Plain, file_open-relative}

abbrev silent : CharDevice ℕ
silent = record { dev_read = λ d n. (pos 0, [], d); dev_write = λ d bytes. (pos (length bytes), d) }

-- Open at offset 1.
abbrev handle : File
handle = record { offset = 1; vnode = 2; flags = 2; ref = 1 }

-- O_RDWR | O_TRUNC
abbrev rw_trunc : ℕ
rw_trunc = 0x202

found_a : vfs_lookup sample (some 1) (b'/' ∷ b'a' ∷ []) ≡ some (some 2)
unfolding vfs_lookup lookup_loop strip next_part is_skipped enter resolve_mount op_finddir
    ramfs_finddir find_child kstrcmp_eq strcmp
found_a = refl

lost_xb : vfs_lookup sample (some 1) (b'x' ∷ b'b' ∷ []) ≡ some none
unfolding vfs_lookup lookup_loop strip next_part is_skipped enter resolve_mount op_finddir
    ramfs_finddir find_child kstrcmp_eq strcmp
lost_xb = refl

name_b-Plain : Plain (b'b' ∷ [])
name_b-Plain zero lt = ground arith
name_b-Plain (suc j) lt = absurd (omega arith)

file_read-file_write_example :
    let after = record handle { offset = 3 } in
    (s' : Store) × (file_write silent junk 0 sample handle (1 ∷ 2 ∷ [])
      ≡ some (pos 2, s', after, 0))
    × (file_seek s' after 1 seek_set ≡ some handle)
    × (file_read silent 0 s' handle 2 ≡ some (pos 2, 1 ∷ 2 ∷ [], after, 0))
file_read-file_write_example =
    file_read-file_write silent junk 0 sample handle (1 ∷ 2 ∷ []) {n = a_file} refl refl
      a_file-IsFile (omega arith) (omega arith)

root_found : vfs_lookup sample (some 1) (b'/' ∷ []) ≡ some (some 1)
unfolding vfs_lookup lookup_loop strip next_part is_skipped enter resolve_mount op_finddir
    ramfs_finddir find_child kstrcmp_eq strcmp
root_found = refl

no_b : ramfs_finddir sample 1 (b'b' ∷ []) ≡ some none
unfolding ramfs_finddir find_child kstrcmp_eq strcmp
no_b = refl

creates : o_creat 0x40 ≡ true
unfolding bit_at
creates = refl

-- `xb` with O_CREAT.
file_open-relative_example :
    (f : File) × (s' : Store) × (new : Node) × (file_open sample (some 1) (b'x' ∷ b'b' ∷ []) 0x40
      ≡ some (some f, s'))
    × (f.vnode ≡ 3)
    × (s'.nodes 3 ≡ some new)
    × (new.name ≡ b'b' ∷ [])
    × (new.type ≡ file)
    × (s'.nodes 1 ≡ some (record a_dir { children = 2 ∷ 3 ∷ [] }))
    × ((w : ℕ) → w ≢ 1 → w ≢ 3 → s'.nodes w ≡ sample.nodes w)
file_open-relative_example =
    file_open-relative sample (some 1) b'x' (b'b' ∷ []) 0x40 1 {n = a_dir} lost_xb creates
      name_b-Plain root_found refl refl a_dir-IsDir (omega arith) refl (omega arith)
      ((omega arith), tt) no_b

file_close-file_open_example :
    (f : File) × (s' : Store) × (s'' : Store) × (n'' : Node) × (file_open sample
        (some 1)
        (b'/' ∷ b'a' ∷ [])
        0x202
      ≡ some (some f, s'))
    × (file_close s' f ≡ some (pos 0, none, s''))
    × (s''.nodes 2 ≡ some n'')
    × (n''.ref_count ≡ 0)
file_close-file_open_example =
    file_close-file_open sample (some 1) (b'/' ∷ b'a' ∷ []) 0x202 2 {n = a_file} found_a refl refl
      (omega arith)
