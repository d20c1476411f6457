-- ===== src/Fs/File/Io.antt =====
-- Reading and writing open files of fs/ramfs.c through fs/vfs.c.
use mai_unix.Prelude.Int.{ℤ, pos}
use mai_unix.Prelude.Words.{add32}
use mai_unix.Prelude.{ℕ, ◌+◌, ◌-◌, ◌^◌, ◌<◌, min, ◌≡◌, refl, ap, ◌∙◌, some, List, arith, length}
use mai_unix.Fs.Node.{block_size, ramfs_ops, Node, Store, put_node}
use mai_unix.Fs.Ramfs.{ramfs_read, ramfs_write}
use mai_unix.Fs.Ramfs.Data.{IsFile, Holds, ramfs_read_lem, ramfs_read-ramfs_write}
use mai_unix.Fs.File.{File, CharDevice, advance, file_read, file_write, seek_set, file_seek}

module _ {D : Type 0} (dev : CharDevice D) (d : D) (s : Store) (f : File) {n : Node}
    (e : s.nodes f.vnode ≡ some n) (memory : n.ops ≡ ramfs_ops) where
  file_read_step :
      (size : ℕ) {r : ℤ} {bytes : List ℕ}
      → ramfs_read s f.vnode f.offset size ≡ some (r, bytes)
      → file_read dev d s f size ≡ some (r, bytes, advance f r, d)
  unfolding file_read
  file_read_step size got = rw e (rw memory (rw got))

  file_write_step :
      (junk : ℕ → ℕ) (bytes : List ℕ) {r : ℤ} {s' : Store}
      → ramfs_write junk s f.vnode f.offset bytes ≡ some (r, s')
      → file_write dev junk d s f bytes ≡ some (r, s', advance f r, d)
  unfolding file_write
  file_write_step junk bytes got = rw e (rw memory (rw got))

-- `file_read` of a file in memory gets the bytes at the offset, less than 2 GB, as many as asked or as there are,
-- and moves the offset behind them; the terminal is not touched.
file_read_lem :
    {D : Type 0} (dev : CharDevice D) (d : D) (s : Store) (f : File) (size : ℕ) {n : Node}
    → s.nodes f.vnode ≡ some n
    → n.ops ≡ ramfs_ops
    → IsFile n
    → f.offset + size < 2 ^ 32
    → size < 2 ^ 31
    → (bytes : List ℕ) × (file_read dev d s f size
        ≡ some (pos (length bytes), bytes, record f { offset = f.offset + length bytes }, d))
      × (length bytes ≡ min size (n.size - f.offset))
      × Holds n f.offset bytes
file_read_lem dev d s f size {n} e memory is fits small =
    let (bytes, got, long, same) = ramfs_read_lem s f.vnode f.offset size e is small in
    let exact : add32 f.offset (length bytes) ≡ f.offset + length bytes = omega (arith, long) in
    (
      bytes,
      file_read_step dev d s f e memory size got
          ∙ ap (λ (o : ℕ). some (pos (length bytes), bytes, record f { offset = o }, d)) exact,
      long,
      same,
    )

-- Writing less than 2 GB to a file in memory, at an offset such that the end of what is written
-- stays a block below 4 GB, seeking back to where the write began and reading as many bytes returns
-- the bytes that were written, and leaves the offset behind them.
pub file_read-file_write :
    {D : Type 0} (dev : CharDevice D) (junk : ℕ → ℕ) (d : D) (s : Store) (f : File) (bytes : List ℕ)
    {n : Node}
    → s.nodes f.vnode ≡ some n
    → n.ops ≡ ramfs_ops
    → IsFile n
    → f.offset + length bytes + block_size < 2 ^ 32
    → length bytes < 2 ^ 31
    → let after = record f { offset = f.offset + length bytes } in
      (s' : Store) × (file_write dev junk d s f bytes ≡ some (pos (length bytes), s', after, d))
      × (file_seek s' after f.offset seek_set ≡ some f)
      × (file_read dev d s' f (length bytes) ≡ some (pos (length bytes), bytes, after, d))
unfolding file_seek
file_read-file_write dev junk d s f bytes {n} e memory is fits small =
    let (n', wrote, again, w) =
      ramfs_read-ramfs_write junk s f.vnode f.offset bytes e is fits small in
    let exact : add32 f.offset (length bytes) ≡ f.offset + length bytes = omega arith in
    let s' = put_node s f.vnode n' in
    let after = record f { offset = f.offset + length bytes } in
    let moved : advance f (pos (length bytes)) ≡ after =
      ap (λ (o : ℕ). record f { offset = o }) exact in
    let there : s'.nodes f.vnode ≡ some n' = ground arith in
    (
      s',
      file_write_step dev d s f e memory junk bytes wrote
          ∙ ap (λ (g : File). some (pos (length bytes), s', g, d)) moved,
      refl,
      file_read_step dev d s' f there (w.same_ops ∙ memory) (length bytes) again
          ∙ ap (λ (g : File). some (pos (length bytes), bytes, g, d)) moved,
    )
