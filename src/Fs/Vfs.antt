-- ===== src/Fs/Vfs.antt =====
-- Paths and mount points in fs/vfs.c. As in fs/ramfs.c, `none` is a fault; `some none` is NULL.
pub mod Lookup
pub mod Total
mod Tests
use mai_unix.Prelude.Int.{ℤ, pos}
use mai_unix.Prelude.{
  ℕ, zero, suc, ◌+◌, Bool, ◌||◌, Option, none, some, List, [], ◌∷◌, leb, ◌==◌, if◌then◌else◌,
  length,
}
use mai_unix.Fs.Node.{vfs_name_len, ramfs_ops, tty_ops, Store, put_node, enoent}
use mai_unix.Prelude.Faults.{◌>>=◌}
use mai_unix.Fs.Ramfs.{kstrcmp_eq, ramfs_finddir}

-- The bytes up to the next slash or the end, and the path behind that slash.
unfoldable pub next_part : List ℕ → List ℕ × List ℕ
next_part [] = ([], [])
next_part (c ∷ cs) =
    let (part, rest) = next_part cs in if c == b'/' then ([], cs) else (c ∷ part, rest)

-- The parts that `vfs_lookup` passes over: an empty one, `.` and `..`.
unfoldable pub is_skipped : List ℕ → Bool
unfolding kstrcmp_eq
is_skipped part =
    length part == 0 || (kstrcmp_eq part (b'.' ∷ []) || kstrcmp_eq part (b'.' ∷ b'.' ∷ []))

unfoldable pub resolve_mount : Store → ℕ → Option ℕ
resolve_mount s v = do n ← s.nodes v; some (elim n.mount_point [ none ↦ v | some root ↦ root ])

-- `node->ops->finddir`, which the operations of the terminal do not have.
unfoldable pub op_finddir : Store → ℕ → List ℕ → Option (Option ℕ)
unfolding ramfs_finddir
op_finddir s v name = do
  n ← s.nodes v
  elim n.ops [ ramfs_ops ↦ ramfs_finddir s v name | tty_ops ↦ some none ]

unfoldable pub enter : Store → ℕ → List ℕ → Option (Option ℕ)
unfolding resolve_mount op_finddir
enter s v part = do node ← resolve_mount s v; op_finddir s node part

-- The loop of `vfs_lookup`, on fuel; a part that does not fit `part` is written past its end.
unfoldable pub lookup_loop : ℕ → Store → ℕ → List ℕ → Option (Option ℕ)
lookup_loop zero s v path = none
lookup_loop (suc fuel) s v [] = (do node ← resolve_mount s v; some (some node))
lookup_loop (suc fuel) s v (c ∷ cs) =
    let (part, rest) = next_part (c ∷ cs) in
    let stay = lookup_loop fuel s v rest in
    if leb vfs_name_len (length part)
    then none
    else (if is_skipped part
        then stay
        else (enter s v part >>= λ found. elim found [
          | none ↦ some none
          | some child ↦ lookup_loop fuel s child rest
        ]))

unfoldable pub strip : List ℕ → List ℕ
strip [] = []
strip (c ∷ cs) = if c == b'/' then cs else c ∷ cs

unfoldable pub vfs_lookup : Store → Option ℕ → List ℕ → Option (Option ℕ)
unfolding lookup_loop strip
vfs_lookup s none path = some none
vfs_lookup s (some root) path = lookup_loop (length path + 1) s root (strip path)

-- `vfs_mount`, with the root behind the call.
unfoldable pub vfs_mount : Store → Option ℕ → List ℕ → ℕ → Option (ℤ × Store × Option ℕ)
unfolding kstrcmp_eq
vfs_mount s root path fs_root =
    if kstrcmp_eq path (b'/' ∷ [])
    then some (pos 0, s, some fs_root)
    else (vfs_lookup s root path >>= λ found. elim found [
      | none ↦ some (enoent, s, root)
      | some v ↦ (do
        n ← s.nodes v
        some (pos 0, put_node s v (record n { mount_point = some fs_root }), root))
    ])

-- The root that `vfs_init` leaves, and what `vfs_get_root` returns.
unfoldable pub vfs_init : Option ℕ
vfs_init = none

unfoldable pub vfs_get_root : Option ℕ → Option ℕ
vfs_get_root root = root
