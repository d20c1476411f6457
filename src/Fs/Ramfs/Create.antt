-- ===== src/Fs/Ramfs/Create.antt =====
-- What `ramfs_create` of fs/ramfs.c makes, and how a later `ramfs_finddir` sees it.
use mai_unix.Prelude.Int.{pos}
use mai_unix.Prelude.Words.{add32}
use mai_unix.Prelude.{
  ℕ, suc, ◌+◌, ◌<◌, ◌≡◌, refl, sym, ap, ◌∙◌, subst, ◌≢◌, ◌⊎◌, inl, inr, true, false, not, Option,
  none, some, List, [], ◌∷◌, ◌++◌, arith, ℕ_discrete, leb, ◌==◌, if◌then◌else◌, Bool-cases, length,
}
use mai_unix.Fs.Node.{
  vfs_name_len, max_children, NodeType, is_dir, ramfs_ops, Node, Store, put_node, enotdir, enospc,
}
use mai_unix.Fs.Ramfs.{kstrcmp_eq, find_child, ramfs_finddir, new_ramfs_node, ramfs_create}
use mai_unix.Fs.Ramfs.Dir.{
  Children, kstrcmp_eq_iff, find_child_lem, IsDir, finddir_some, finddir_none,
}
use mai_unix.Libc.Str.{IsText}

-- Every node is still there under its name.
abbrev pub KeepsNames : Store → Store → Type 0
KeepsNames s s' =
    (c : ℕ) (n : Node)
    → s.nodes c ≡ some n
    → (n' : Node) × (s'.nodes c ≡ some n') × (n'.name ≡ n.name)

-- The search depends on the names of the children only.
find_child_cong :
    (s s' : Store) (name cs : List ℕ) (i : ℕ)
    → KeepsNames s s'
    → Children s cs
    → find_child s' name cs i ≡ find_child s name cs i
unfolding find_child
find_child_cong s s' name [] i keeps h = refl
find_child_cong s s' name (c ∷ cs) i keeps ((n, e, txt), h) =
    let (n', e', same) = keeps c n e in
    rw e (rw e' (rw same (rw (find_child_cong s s' name cs (i + 1) keeps h))))

-- More children behind change nothing where the search succeeds.
find_child-append :
    (s : Store) (name cs ds : List ℕ) (i : ℕ) (r : ℕ × ℕ)
    → Children s cs
    → find_child s name cs i ≡ some (some r)
    → find_child s name (cs ++ ds) i ≡ some (some r)
unfolding find_child
find_child-append s name [] ds i r h got = absurd (cc)
find_child-append s name (c ∷ cs) ds i r ((n, e, txt), h) got =
    ground (arith, e, find_child-append s name cs ds (i + 1) r h)

-- A child at the end is found if there is none with its name before.
find_child-snoc :
    (s : Store) (name cs : List ℕ) (c i : ℕ) (n : Node)
    → s.nodes c ≡ some n
    → Children s cs
    → find_child s name cs i ≡ some none
    → find_child s name (cs ++ c ∷ []) i
      ≡ (if kstrcmp_eq n.name name then some (some (i + length cs, c)) else some none)
unfolding find_child
find_child-snoc s name [] c i n e h got =
    let start : i ≡ i + 0 = omega arith in
    rw e (ground (arith, ap {B = Option (Option (ℕ × ℕ))} (λ (j : ℕ). some (some (j, c))) start))
find_child-snoc s name (d ∷ cs) c i n e ((m, e', txt), h) got =
    let shift : i + 1 + length cs ≡ i + suc (length cs) = omega arith in
    ground (
      arith,
      e',
      find_child-snoc s name cs c (i + 1) n e h,
      ap {B = Option (Option (ℕ × ℕ))} (λ (j : ℕ). some (some (j, c))) shift,
    )

-- The node that `ramfs_create` makes.
abbrev pub created : Store → List ℕ → NodeType → Node
created s name type = record {
  name = name;
  type = type;
  content = [];
  size = 0;
  capacity = 0;
  inode = s.next_inode;
  children = [];
  ops = ramfs_ops;
  vsize = 0;
  mount_point = none;
  ref_count = 0;
}

-- The store behind a successful `ramfs_create` in the directory `n` at `v`.
abbrev pub with_child : Store → ℕ → Node → List ℕ → NodeType → Store
with_child s v n name type =
    put_node
      (record (put_node s s.fresh (created s name type)) {
        fresh = s.fresh + 1;
        next_inode = add32 s.next_inode 1;
      })
      v (record n { children = n.children ++ s.fresh ∷ [] })

-- `ramfs_create`, by its three outcomes for a name that fits: it refuses what is no directory and
-- a directory with 64 children, and otherwise makes an empty node with the next inode number and
-- adds it behind the other children, whether or not one of them has the name already.
ramfs_create_lem :
    (s : Store) (v : ℕ) (name : List ℕ) (type : NodeType) {n : Node}
    → s.nodes v ≡ some n
    → s.nodes s.fresh ≡ none
    → length name < vfs_name_len
    → ramfs_create s v name type
      ≡ some (
          if not (is_dir n.type)
          then (enotdir, s)
          else if leb max_children (length n.children)
          then (enospc, s)
          else (pos 0, with_child s v n name type))
unfolding ramfs_create new_ramfs_node
ramfs_create_lem s v name type {n} e free fits =
    let apart : v ≢ s.fresh = λ q. clash (subst (λ (a : ℕ). s.nodes a ≡ some n) q e) in
    let there : (v == s.fresh) ≡ false = ground arith in
    let short : leb vfs_name_len (length name) ≡ false = ground arith in
    rw e (elim (Bool-cases (is_dir n.type)) [
      | inr no_dir ↦ rw no_dir
      | inl is ↦ elim (Bool-cases (leb max_children (length n.children))) [
        | inl full ↦ rw is (rw full)
        | inr room ↦ rw is (rw room (rw (short, new_ramfs_node) (rw there (rw e))))
      ]
    ])
  where
    clash : s.nodes s.fresh ≡ some n → ⊥
    clash q = cc

-- The search behind a new child, by whether it succeeded before.
finddir-with_child :
    (s : Store) (v : ℕ) (name q : List ℕ) (type : NodeType) {n : Node}
    → s.nodes v ≡ some n
    → IsDir s n
    → s.nodes s.fresh ≡ none
    → IsText name
    → IsText q
    → let s' = with_child s v n name type in
      ((c : ℕ) × (ramfs_finddir s v q ≡ some (some c)) × (ramfs_finddir s' v q ≡ some (some c)))
      ⊎ ((ramfs_finddir s v q ≡ some none)
          × (name ≡ q → ramfs_finddir s' v q ≡ some (some s.fresh))
          × (name ≢ q → ramfs_finddir s' v q ≡ some none))
finddir-with_child s v name q type {n} e d free t tq =
    let s' = with_child s v n name type in
    let apart : s.fresh ≢ v = λ eq. clash (subst (λ (a : ℕ). s.nodes a ≡ some n) (sym eq) e) in
    let here : s'.nodes v ≡ some (record n { children = n.children ++ s.fresh ∷ [] }) =
      ground arith in
    let child : s'.nodes s.fresh ≡ some (created s name type) = ground arith in
    let is : is_dir n.type ≡ true = rw d.directory in
    let same = find_child_cong s s' q n.children 0 keeps d.whole in
    let whole : Children s' n.children = kept_children n.children d.whole in
    elim (find_child_lem s q n.children 0 tq d.whole) [
      | inl (before, c, behind, got, split, named, none_before) ↦ inl (
        c,
        finddir_some s v q e is got,
        finddir_some s' v q here is (
            find_child-append s' q n.children (s.fresh ∷ []) 0 (0 + length before, c) whole
              (same ∙ got)),
      )
      | inr (got, none_named) ↦
          let snoc =
            find_child-snoc s' q n.children s.fresh 0 (created s name type) child whole
              (same ∙ got) in
          inr (
            finddir_none s v q e is got,
            (λ eq.
                finddir_some s' v q here is {i = 0 + length n.children} {c = s.fresh}
                  (snoc ∙ rw ((kstrcmp_eq_iff name q t tq).1 eq))),
            (λ ne. finddir_none s' v q here is (snoc ∙ rw (missed ne))),
          )
    ]
  where
    clash : s.nodes s.fresh ≡ some n → ⊥
    clash q = cc

    gone : (c : ℕ) (m : Node) → s.nodes c ≡ some m → c ≡ s.fresh → ⊥
    gone c m em eq =
        let at : s.nodes s.fresh ≡ some m = subst (λ (a : ℕ). s.nodes a ≡ some m) eq em in cc

    keeps : KeepsNames s (with_child s v n name type)
    keeps c m em = elim (ℕ_discrete c v) [
      | yes eq ↦
          let at : s.nodes v ≡ some m = subst (λ (a : ℕ). s.nodes a ≡ some m) eq em in
          let one : n ≡ m = cc in
          (
            record n { children = n.children ++ s.fresh ∷ [] },
            ground arith,
            ap (λ (x : Node). x.name) one,
          )
      | no ne ↦ let old : c ≢ s.fresh = λ eq. gone c m em eq in (m, ground arith, refl)
    ]

    kept_children : (cs : List ℕ) → Children s cs → Children (with_child s v n name type) cs
    kept_children [] h = tt
    kept_children (c ∷ cs) ((m, em, txt), h) =
        let (m', em', same) = keeps c m em in
        ((m', em', subst IsText (sym same) txt), kept_children cs h)

    missed : name ≢ q → kstrcmp_eq name q ≡ false
    missed ne = elim (Bool-cases (kstrcmp_eq name q)) [
      | inl hit ↦ absurd (ne ((kstrcmp_eq_iff name q t tq).0 hit))
      | inr miss ↦ miss
    ]

-- `ramfs_create` of a name that fits, in a directory with room, succeeds; and looking a name up behind
-- it, a child that had the name before is still the one that is found, also if the new child has the
-- same name; else the new child is found under its own name, and nothing under another.
pub ramfs_finddir-ramfs_create :
    (s : Store) (v : ℕ) (name q : List ℕ) (type : NodeType) {n : Node}
    → s.nodes v ≡ some n
    → IsDir s n
    → length n.children < max_children
    → s.nodes s.fresh ≡ none
    → length name < vfs_name_len
    → IsText name
    → IsText q
    → (s' : Store) × (ramfs_create s v name type ≡ some (pos 0, s'))
      × (((c : ℕ) × (ramfs_finddir s v q ≡ some (some c)) × (ramfs_finddir s' v q ≡ some (some c)))
          ⊎ ((ramfs_finddir s v q ≡ some none)
              × (name ≡ q → ramfs_finddir s' v q ≡ some (some s.fresh))
              × (name ≢ q → ramfs_finddir s' v q ≡ some none)))
ramfs_finddir-ramfs_create s v name q type {n} e d room free fits t tq =
    let is : is_dir n.type ≡ true = rw d.directory in
    let some_room : leb max_children (length n.children) ≡ false = ground arith in
    (
      with_child s v n name type,
      ramfs_create_lem s v name type e free fits ∙ rw is (rw some_room refl),
      finddir-with_child s v name q type e d free t tq,
    )

-- A name that was not there is found behind `ramfs_create`, at the new node.
pub ramfs_create-found :
    (s : Store) (v : ℕ) (name : List ℕ) (type : NodeType) {n : Node}
    → s.nodes v ≡ some n
    → IsDir s n
    → length n.children < max_children
    → s.nodes s.fresh ≡ none
    → length name < vfs_name_len
    → IsText name
    → ramfs_finddir s v name ≡ some none
    → (ramfs_create s v name type ≡ some (pos 0, with_child s v n name type))
      × (ramfs_finddir (with_child s v n name type) v name ≡ some (some s.fresh))
ramfs_create-found s v name type {n} e d room free fits t absent =
    let is : is_dir n.type ≡ true = rw d.directory in
    let some_room : leb max_children (length n.children) ≡ false = ground arith in
    (
      ramfs_create_lem s v name type e free fits ∙ rw is (rw some_room refl),
      elim (finddir-with_child s v name name type e d free t t) [
        | inl (c, was, is_now) ↦ absurd (both c was)
        | inr (_, own, _) ↦ own refl
      ],
    )
  where
    both : (c : ℕ) → ramfs_finddir s v name ≡ some (some c) → ⊥
    both c was = cc
