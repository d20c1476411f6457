-- ===== src/Fs/Vfs/Total.antt =====
-- `vfs_lookup` of fs/vfs.c never faults on a tree of nodes that is whole.
use mai_unix.Prelude.{
  ℕ, ◌≡◌, refl, subst, ◌⊎◌, inl, inr, true, Option, none, some, List, [], ◌∷◌, arith, ◌==◌,
  Bool-cases,
}
use mai_unix.Fs.Node.{NodeType, dir, is_dir, Ops, ramfs_ops, tty_ops, Node, Store}
use mai_unix.Fs.Ramfs.{ramfs_finddir}
use mai_unix.Fs.Ramfs.Dir.{Children, ramfs_finddir_lem, finddir_other}
use mai_unix.Fs.Vfs.{is_skipped, resolve_mount, op_finddir, enter, vfs_lookup}
use mai_unix.Fs.Vfs.Lookup.{add_front, split, names_of, AllShort, walk, vfs_lookup_lem}
use mai_unix.Libc.Str.{IsText}

-- Every node that a directory or a mount point leads to is there, each child under a proper name.
abbrev pub Present : Store → Option ℕ → Type 0
Present s none = Unit {0}
Present s (some v) = (n : Node) × (s.nodes v ≡ some n)

abbrev pub IsLinked : Store → Type 0
IsLinked s =
    (v : ℕ) (n : Node) → s.nodes v ≡ some n → Children s n.children × Present s n.mount_point

abbrev AllText : List (List ℕ) → Type 0
AllText [] = Unit {0}
AllText (p ∷ ps) = IsText p × AllText ps

AllText-split : (path : List ℕ) → IsText path → AllText (split path)
unfolding split
AllText-split [] t = (tt, tt)
AllText-split (c ∷ cs) (nonzero, t) = elim (Bool-cases (c == b'/')) [
  | inl slash ↦ rw slash (tt, AllText-split cs t)
  | inr other ↦ rw other (front (split cs) (AllText-split cs t))
]
  where
    front : (ps : List (List ℕ)) → AllText ps → AllText (add_front c ps)
    front [] h = ((nonzero, tt), tt)
    front (p ∷ ps) h = ((nonzero, h.0), h.1)

AllText-names_of : (ps : List (List ℕ)) → AllText ps → AllText (names_of ps)
unfolding names_of
AllText-names_of [] t = tt
AllText-names_of (p ∷ ps) (t, ts) = elim (Bool-cases (is_skipped p)) [
  | inl skip ↦ rw skip (AllText-names_of ps ts)
  | inr keep ↦ rw keep (t, AllText-names_of ps ts)
]

is_dir-eq : (t : NodeType) → is_dir t ≡ true → t ≡ dir
is_dir-eq t e = ground arith

-- NULL, or a node that is there.
abbrev pub Answers : Store → Option (Option ℕ) → Type 0
Answers s r = (r ≡ some none) ⊎ ((v : ℕ) × (n : Node) × (r ≡ some (some v)) × (s.nodes v ≡ some n))

module _ (s : Store) (linked : IsLinked s) where
  resolve_mount_lem :
      (v : ℕ) (n : Node)
      → s.nodes v ≡ some n
      → (w : ℕ) × (m : Node) × (resolve_mount s v ≡ some w) × (s.nodes w ≡ some m)
  unfolding resolve_mount
  resolve_mount_lem v n e = on_mount n.mount_point refl
    where
      on_mount :
          (o : Option ℕ)
          → n.mount_point ≡ o
          → (w : ℕ) × (m : Node) × (resolve_mount s v ≡ some w) × (s.nodes w ≡ some m)
      on_mount none q = (v, n, rw e (rw q), e)
      on_mount (some root) q =
          let (m, there) = subst (Present s) q (linked v n e).1 in (root, m, rw e (rw q), there)

  ramfs_finddir-Answers :
      (v : ℕ) (n : Node) (name : List ℕ)
      → s.nodes v ≡ some n
      → IsText name
      → Answers s (ramfs_finddir s v name)
  ramfs_finddir-Answers v n name e t = elim (Bool-cases (is_dir n.type)) [
    | inr other ↦ inl (finddir_other s v name e other)
    | inl is ↦
        elim (ramfs_finddir_lem s v name e
          (record { directory = is_dir-eq n.type is; whole = (linked v n e).0 }) t) [
            | inl (_, c, _, got, _, (m, there, _), _) ↦ inr (c, m, got, there)
            | inr (got, _) ↦ inl got
          ]
  ]

  op_finddir-Answers :
      (v : ℕ) (n : Node) (name : List ℕ)
      → s.nodes v ≡ some n
      → IsText name
      → Answers s (op_finddir s v name)
  unfolding op_finddir
  op_finddir-Answers v n name e t = rw e (by_ops n.ops)
    where
      by_ops :
          (o : Ops)
          → Answers s (elim o [ ramfs_ops ↦ ramfs_finddir s v name | tty_ops ↦ some none ])
      by_ops ramfs_ops = ramfs_finddir-Answers v n name e t
      by_ops tty_ops = inl refl

  enter-Answers :
      (v : ℕ) (n : Node) (name : List ℕ)
      → s.nodes v ≡ some n
      → IsText name
      → Answers s (enter s v name)
  unfolding enter
  enter-Answers v n name e t =
      let (w, m, got, there) = resolve_mount_lem v n e in
      rw got (op_finddir-Answers w m name there t)

  walk-Answers :
      (v : ℕ) (n : Node) (ps : List (List ℕ))
      → s.nodes v ≡ some n
      → AllText ps
      → Answers s (walk s v ps)
  unfolding walk
  walk-Answers v n [] e t =
      let (w, m, got, there) = resolve_mount_lem v n e in inr (w, m, rw got, there)
  walk-Answers v n (p ∷ ps) e (t, ts) = elim (enter-Answers v n p e t) [
    | inl got ↦ inl (rw got)
    | inr (c, m, got, there) ↦ rw got (walk-Answers c m ps there ts)
  ]

-- In a store where every child and every mounted root is there, `vfs_lookup` from a root that is
-- there never faults, for any path whose parts fit the buffer: it returns NULL or a node that is
-- there.
pub vfs_lookup-Answers :
    (s : Store) (root : ℕ) (path : List ℕ) {n : Node}
    → IsLinked s
    → s.nodes root ≡ some n
    → IsText path
    → AllShort (split path)
    → Answers s (vfs_lookup s (some root) path)
vfs_lookup-Answers s root path {n} linked e t short = rw (vfs_lookup_lem s root path short) (
    walk-Answers s linked root n (names_of (split path)) e
      (AllText-names_of (split path) (AllText-split path t)))
