-- ===== src/Fs/Vfs/Tests.antt =====
-- The theorems on `vfs_lookup` at the small file system.
use mai_unix.Prelude.{ℕ, ◌≡◌, refl, subst, Option, none, some, List, [], ◌∷◌, arith, ℕ_discrete}
use mai_unix.Fs.Node.{Node}
use mai_unix.Fs.Ramfs.Dir.{Children}
use mai_unix.Fs.Sample.{a_file, a_dir, sample}
use mai_unix.Fs.Vfs.{vfs_lookup}
use mai_unix.Fs.Vfs.Lookup.{split, names_of, AllShort, walk, vfs_lookup_lem}
use mai_unix.Fs.Vfs.Total.{Present, IsLinked, Answers, vfs_lookup-Answers}

-- The path `/./a/`
abbrev path_a : List ℕ
path_a = b'/' ∷ b'.' ∷ b'/' ∷ b'a' ∷ b'/' ∷ []

path_a-AllShort : AllShort (split path_a)
unfolding split
path_a-AllShort = (omega arith, (omega arith, (omega arith, (omega arith, tt))))

sample-IsLinked : IsLinked sample
sample-IsLinked v n e = elim (ℕ_discrete v 1) [
  | yes q ↦
      let at : some a_dir ≡ some n = ground arith in
      let same : a_dir ≡ n = cc in
      subst Linked same (((a_file, refl, (λ z. absurd (omega arith), tt)), tt), tt)
  | no other ↦ elim (ℕ_discrete v 2) [
    | yes q ↦
        let at : some a_file ≡ some n = ground arith in
        let same : a_file ≡ n = cc in subst Linked same (tt, tt)
    | no neither ↦ absurd (missing (ground arith))
  ]
]
  where
    Linked : Node → Type 0
    Linked m = Children sample m.children × Present sample m.mount_point

    missing : ◌≡◌ {A = Option Node} none (some n) → ⊥
    missing q = cc

vfs_lookup_lem_example : vfs_lookup sample (some 1) path_a ≡ walk sample 1 (names_of (split path_a))
vfs_lookup_lem_example = vfs_lookup_lem sample 1 path_a path_a-AllShort

vfs_lookup-Answers_example : Answers sample (vfs_lookup sample (some 1) path_a)
vfs_lookup-Answers_example =
    vfs_lookup-Answers sample 1 path_a {n = a_dir} sample-IsLinked refl
      (
        λ q. absurd (omega arith),
        (
          λ q. absurd (omega arith),
          (λ q. absurd (omega arith), (λ q. absurd (omega arith), (λ q. absurd (omega arith), tt))),
        ),
      )
      path_a-AllShort
