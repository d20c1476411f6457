-- ===== src/Fs/Ramfs/Dir.antt =====
-- Directories in fs/ramfs.c: `ramfs_finddir`, `ramfs_create` and `ramfs_unlink`.
use mai_unix.Prelude.Int.{ℤ, pos}
use mai_unix.Prelude.{
  ℕ, suc, ◌+◌, ◌≡◌, refl, sym, ap, ◌∙◌, ◌↔◌, ◌⊎◌, inl, inr, true, false, none, some, List, [], ◌∷◌,
  ◌++◌, arith, Bool-cases, length,
}
use mai_unix.Fs.Node.{dir, is_dir, Node, Store}
use mai_unix.Libc.Str.{IsText, strcmp, is_zero}
use mai_unix.Libc.Str.Compare.{strcmp-eq-zero}
use mai_unix.Fs.Ramfs.{kstrcmp_eq, find_child, ramfs_finddir}

-- The child at `c` is there, under a proper name.
abbrev pub Child : Store → ℕ → Type 0
Child s c = (n : Node) × (s.nodes c ≡ some n) × IsText n.name

abbrev pub Children : Store → List ℕ → Type 0
Children s [] = Unit {0}
Children s (c ∷ cs) = Child s c × Children s cs

-- Whether the child at `c` has the name.
abbrev pub HasName : Store → List ℕ → ℕ → Type 0
HasName s name c = (n : Node) × (s.nodes c ≡ some n) × (n.name ≡ name)

abbrev pub NoneNamed : Store → List ℕ → List ℕ → Type 0
NoneNamed s name [] = Unit {0}
NoneNamed s name (c ∷ cs) = (¬ HasName s name c) × NoneNamed s name cs

pub kstrcmp_eq_iff : (a b : List ℕ) → IsText a → IsText b → (kstrcmp_eq a b ≡ true) ↔ (a ≡ b)
unfolding kstrcmp_eq
kstrcmp_eq_iff a b ha hb =
    let (sound, complete) = strcmp-eq-zero a b ha hb in
    ((λ e. sound (zero_of (strcmp a b) e)), λ e. rw (complete e))
  where
    zero_of : (z : ℤ) → is_zero z ≡ true → z ≡ pos 0
    zero_of z e = ground arith

differ :
    (s : Store) (name : List ℕ) (c : ℕ) (n : Node)
    → s.nodes c ≡ some n
    → IsText n.name
    → IsText name
    → kstrcmp_eq n.name name ≡ false
    → ¬ HasName s name c
differ s name c n e txt t miss (m, e', same) =
    let one : m ≡ n = cc in
    let hit = (kstrcmp_eq_iff n.name name txt t).1 (ap (λ (q : Node). q.name) (sym one) ∙ same) in
    cc (hit, miss)

-- The search finds the first child with the name, at its index, or there is none.
pub find_child_lem :
    (s : Store) (name cs : List ℕ) (i : ℕ)
    → IsText name
    → Children s cs
    → ((before : List ℕ) × (c : ℕ) × (behind : List ℕ) × (find_child s name cs i
          ≡ some (some (i + length before, c)))
        × (cs ≡ before ++ c ∷ behind)
        × HasName s name c
        × NoneNamed s name before)
      ⊎ ((find_child s name cs i ≡ some none) × NoneNamed s name cs)
unfolding find_child
find_child_lem s name [] i t h = inr (refl, tt)
find_child_lem s name (c ∷ cs) i t ((n, e, txt), h) = elim (Bool-cases (kstrcmp_eq n.name name)) [
  | inl hit ↦
      let start : i ≡ i + 0 = omega arith in
      inl (
        [],
        c,
        cs,
        rw e (rw hit (ap (λ (j : ℕ). some (some (j, c))) start)),
        refl,
        (n, e, (kstrcmp_eq_iff n.name name txt t).0 hit),
        tt,
      )
  | inr miss ↦
      let differs : ¬ HasName s name c = differ s name c n e txt t miss in
      elim (find_child_lem s name cs (i + 1) t h) [
        | inl (before, c', behind, got, split, named, none_before) ↦
            let shift : i + 1 + length before ≡ i + suc (length before) = omega arith in
            inl (
              c ∷ before,
              c',
              behind,
              rw e (rw miss (got ∙ ap (λ (j : ℕ). some (some (j, c'))) shift)),
              ap (◌∷◌ c) split,
              named,
              (differs, none_before),
            )
        | inr (got, none_named) ↦ inr (rw e (rw miss got), (differs, none_named))
      ]
]

-- A directory whose children are all there.
pub record IsDir (s : Store) (n : Node) : Type 0 where
  pub directory : n.type ≡ dir
  pub whole : Children s n.children

module _ (s : Store) (v : ℕ) (name : List ℕ) {n : Node} (e : s.nodes v ≡ some n)
    (is : is_dir n.type ≡ true) where
  pub finddir_some :
      {i c : ℕ}
      → find_child s name n.children 0 ≡ some (some (i, c))
      → ramfs_finddir s v name ≡ some (some c)
  unfolding ramfs_finddir
  finddir_some got = rw e (rw is (rw got))

  pub finddir_none : find_child s name n.children 0 ≡ some none → ramfs_finddir s v name ≡ some none
  unfolding ramfs_finddir
  finddir_none got = rw e (rw is (rw got))

-- `ramfs_finddir` of a directory finds the first child with the name, or returns NULL exactly when
-- no child has it.
pub ramfs_finddir_lem :
    (s : Store) (v : ℕ) (name : List ℕ) {n : Node}
    → s.nodes v ≡ some n
    → IsDir s n
    → IsText name
    → ((before : List ℕ) × (c : ℕ) × (behind : List ℕ) × (ramfs_finddir s v name ≡ some (some c))
        × (n.children ≡ before ++ c ∷ behind)
        × HasName s name c
        × NoneNamed s name before)
      ⊎ ((ramfs_finddir s v name ≡ some none) × NoneNamed s name n.children)
ramfs_finddir_lem s v name {n} e d t =
    let is : is_dir n.type ≡ true = rw d.directory in
    elim (find_child_lem s name n.children 0 t d.whole) [
      | inl (before, c, behind, got, split, named, none_before) ↦
          inl (before, c, behind, finddir_some s v name e is got, split, named, none_before)
      | inr (got, none_named) ↦ inr (finddir_none s v name e is got, none_named)
    ]

pub finddir_other :
    (s : Store) (v : ℕ) (name : List ℕ) {n : Node}
    → s.nodes v ≡ some n
    → is_dir n.type ≡ false
    → ramfs_finddir s v name ≡ some none
unfolding ramfs_finddir
finddir_other s v name e other = rw e (rw other)
