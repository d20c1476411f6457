-- ===== src/Fs/File/Open.antt =====
-- Opening and closing files of fs/ramfs.c through fs/vfs.c.
use mai_unix.Prelude.Int.{pos}
use mai_unix.Prelude.Words.{u32_mod, add32, sub32}
use mai_unix.Prelude.{
  ℕ, zero, suc, ◌-◌, ◌≤◌, ◌<◌, ◌≡◌, refl, sym, ap, ◌∙◌, subst, ◌≢◌, inl, inr, true, false, Option,
  none, some, List, [], ◌∷◌, ◌++◌, arith, ◌==◌, if◌then◌else◌, Bool-cases, length, get_or,
}
use mai_unix.Fs.Node.{
  vfs_name_len, max_children, file, Ops, ramfs_ops, tty_ops, Node, Store, put_node,
}
use mai_unix.Prelude.Faults.{◌>>=◌}
use mai_unix.Fs.Ramfs.{ramfs_finddir, ramfs_create, ramfs_truncate}
use mai_unix.Fs.Ramfs.Dir.{IsDir}
use mai_unix.Fs.Ramfs.Create.{created, with_child, ramfs_create-found}
use mai_unix.Libc.Str.{IsText}
use mai_unix.Fs.Vfs.{vfs_lookup}
use mai_unix.Fs.File.{
  File, o_creat, o_trunc, o_append, slash_from, create_in, create_from, create_at, op_truncate,
  open_node, file_open, file_close,
}

-- What opening has made of the file `n` at `v`.
pub record Opens (s : Store) (v : ℕ) (n : Node) (flags : ℕ) (f : File) (s' : Store) : Type 0 where
  pub new : Node
  pub at_node : s'.nodes v ≡ some new
  pub same_ops : new.ops ≡ n.ops
  pub same_name : (new.name ≡ n.name) × (new.type ≡ n.type)
  pub truncated : new.size ≡ (if o_trunc flags then 0 else n.size)
  pub counted : new.ref_count ≡ add32 n.ref_count 1
  pub others : (w : ℕ) → w ≢ v → s'.nodes w ≡ s.nodes w
  pub file_vnode : f.vnode ≡ v
  pub file_ref : f.ref ≡ 1
  pub file_offset : f.offset ≡ (if o_append flags then new.vsize else 0)

abbrev emptied : Node → Node
emptied n = record n { content = []; size = 0; capacity = 0; vsize = 0 }

truncate_step :
    (s : Store) (v : ℕ) {n : Node}
    → s.nodes v ≡ some n
    → ramfs_truncate s v 0 ≡ some (pos 0, put_node s v (emptied n))
unfolding ramfs_truncate
truncate_step s v e = rw e

op_truncate_lem :
    (s : Store) (v : ℕ) {n : Node}
    → s.nodes v ≡ some n
    → n.ops ≡ ramfs_ops
    → op_truncate s v ≡ some (put_node s v (emptied n))
unfolding op_truncate
op_truncate_lem s v {n} e memory = rw e (by_ops _ _ n.ops memory ∙ rw (truncate_step s v e))
  where
    by_ops :
        (x y : Option Store) (o : Ops) → o ≡ ramfs_ops → elim o [ tty_ops ↦ x | ramfs_ops ↦ y ] ≡ y
    by_ops x y tty_ops q = absurd (cc)
    by_ops x y ramfs_ops q = refl

open_node_lem :
    (s : Store) (v flags : ℕ) {n : Node}
    → s.nodes v ≡ some n
    → n.ops ≡ ramfs_ops
    → (f : File) × (s' : Store) × (open_node s v flags ≡ some (f, s')) × Opens s v n flags f s'
unfolding open_node
open_node_lem s v flags {n} e memory = elim (Bool-cases (o_trunc flags)) [
  | inl cut ↦
      let n₀ = emptied n in
      let s₀ = put_node s v n₀ in
      let there : s₀.nodes v ≡ some n₀ = ground arith in
      (
        record { offset = if o_append flags then 0 else 0; vnode = v; flags = flags; ref = 1 },
        put_node s₀ v (record n₀ { ref_count = add32 n.ref_count 1 }),
        rw cut (rw (op_truncate_lem s v e memory) (rw there)),
        record {
          new = record n₀ { ref_count = add32 n.ref_count 1 };
          at_node = ground arith;
          same_ops = refl;
          same_name = (refl, refl);
          truncated = rw cut;
          counted = refl;
          others = λ w ne. ground arith;
          file_vnode = refl;
          file_ref = refl;
          file_offset = refl;
        },
      )
  | inr keep ↦ (
    record { offset = if o_append flags then n.vsize else 0; vnode = v; flags = flags; ref = 1 },
    put_node s v (record n { ref_count = add32 n.ref_count 1 }),
    rw keep (rw e),
    record {
      new = record n { ref_count = add32 n.ref_count 1 };
      at_node = ground arith;
      same_ops = refl;
      same_name = (refl, refl);
      truncated = rw keep;
      counted = refl;
      others = λ w ne. ground arith;
      file_vnode = refl;
      file_ref = refl;
      file_offset = refl;
    },
  )
]

-- `file_open` of a path that leads to a file in memory gives a file with one reference, counts it
-- on the node, empties the file under O_TRUNC, starts at its end under O_APPEND and at 0 else, and
-- changes no other node.
file_open_lem :
    (s : Store) (root : Option ℕ) (path : List ℕ) (flags v : ℕ) {n : Node}
    → vfs_lookup s root path ≡ some (some v)
    → s.nodes v ≡ some n
    → n.ops ≡ ramfs_ops
    → (f : File) × (s' : Store) × (file_open s root path flags ≡ some (some f, s'))
      × Opens s v n flags f s'
unfolding file_open
file_open_lem s root path flags v found e memory =
    let (f, s', got, o) = open_node_lem s v flags e memory in (f, s', rw found (rw got), o)

-- `file_close` of a file that was just opened frees it and takes its reference off the node again.
pub file_close-file_open :
    (s : Store) (root : Option ℕ) (path : List ℕ) (flags v : ℕ) {n : Node}
    → vfs_lookup s root path ≡ some (some v)
    → s.nodes v ≡ some n
    → n.ops ≡ ramfs_ops
    → n.ref_count < u32_mod
    → (f : File) × (s' : Store) × (s'' : Store) × (n'' : Node) × (file_open s root path flags
        ≡ some (some f, s'))
      × (file_close s' f ≡ some (pos 0, none, s''))
      × (s''.nodes v ≡ some n'')
      × (n''.ref_count ≡ n.ref_count)
unfolding file_close
file_close-file_open s root path flags v {n} found e memory small =
    let (f, s', got, o) = file_open_lem s root path flags v found e memory in
    let last : f.ref - 1 ≡ 0 = omega (arith, o.file_ref) in
    let n'' = record o.new { ref_count = sub32 o.new.ref_count 1 } in
    (
      f,
      s',
      put_node s' v n'',
      n'',
      got,
      rw last (rw o.file_vnode (rw o.at_node)),
      ground arith,
      omega (arith, o.counted),
    )

-- No slash from the second byte on.
no_slash :
    (path : List ℕ) (i : ℕ)
    → ((j : ℕ) → 1 ≤ j → j ≤ i → (get_or path j 0 == b'/') ≡ false)
    → slash_from i path ≡ 0
unfolding slash_from
no_slash path zero none_there = refl
no_slash path (suc i) none_there =
    rw (none_there (suc i) (omega arith) (omega arith))
      (no_slash path i (λ j low high. none_there j low (omega arith)))

-- No slash behind the first byte.
abbrev pub Plain : List ℕ → Type 0
Plain name = (j : ℕ) → j < length name → (get_or name j 0 == b'/') ≡ false

create_at-first :
    (s : Store) (root : Option ℕ) (c : ℕ) (name : List ℕ)
    → Plain name
    → create_at s root (c ∷ name) ≡ (
        vfs_lookup s root (b'/' ∷ []) >>= λ found. elim found [
          | none ↦ some (none, s)
          | some parent ↦ create_in s parent name
        ])
unfolding create_at create_from
create_at-first s root c name plain =
    let start : slash_from (suc (length name) - 1) (c ∷ name) ≡ 0 =
      no_slash (c ∷ name) (suc (length name) - 1) inner in
    let some_byte : (suc (length name) == 0) ≡ false = ground arith in
    ap (create_from s root (c ∷ name)) start ∙ rw some_byte
  where
    inner : (j : ℕ) → 1 ≤ j → j ≤ suc (length name) - 1 → (get_or (c ∷ name) j 0 == b'/') ≡ false
    inner zero low high = absurd (omega arith)
    inner (suc j) low high = plain j (omega arith)

create_in_lem :
    (s : Store) (v : ℕ) (name : List ℕ) {n : Node} {s' : Store}
    → s.nodes v ≡ some n
    → n.ops ≡ ramfs_ops
    → ramfs_create s v name file ≡ some (pos 0, s')
    → ramfs_finddir s' v name ≡ some (some s.fresh)
    → create_in s v name ≡ some (some s.fresh, s')
unfolding create_in
create_in_lem s v name e memory made found = rw e (rw memory (rw made (rw found refl)))

-- A path with one byte `c` in front of a name without a slash, which is not found, makes the file `name`
-- in the root directory.
create_at-root :
    (s : Store) (root : Option ℕ) (c : ℕ) (name : List ℕ) (v : ℕ) {n : Node} {s' : Store}
    → Plain name
    → vfs_lookup s root (b'/' ∷ []) ≡ some (some v)
    → s.nodes v ≡ some n
    → n.ops ≡ ramfs_ops
    → ramfs_create s v name file ≡ some (pos 0, s')
    → ramfs_finddir s' v name ≡ some (some s.fresh)
    → create_at s root (c ∷ name) ≡ some (some s.fresh, s')
create_at-root s root c name v plain top e memory made found =
    create_at-first s root c name plain ∙ rw top (create_in_lem s v name e memory made found)

-- `file_open` with O_CREAT of a path that is not found, and whose only slash may be its first byte,
-- makes a new regular file in the root directory and opens it, if that directory has room and no such
-- entry yet, and the name has less than 128 bytes, none of them NUL. No other node changes.
-- Its name is the path without its first byte, whichever byte that is: a relative path makes a file
-- whose name lacks its first letter, and not in the current directory.
pub file_open-relative :
    (s : Store) (root : Option ℕ) (c : ℕ) (name : List ℕ) (flags v : ℕ) {n : Node}
    → vfs_lookup s root (c ∷ name) ≡ some none
    → o_creat flags ≡ true
    → Plain name
    → vfs_lookup s root (b'/' ∷ []) ≡ some (some v)
    → s.nodes v ≡ some n
    → n.ops ≡ ramfs_ops
    → IsDir s n
    → length n.children < max_children
    → s.nodes s.fresh ≡ none
    → length name < vfs_name_len
    → IsText name
    → ramfs_finddir s v name ≡ some none
    → (f : File) × (s' : Store) × (new : Node) × (file_open s root (c ∷ name) flags
        ≡ some (some f, s'))
      × (f.vnode ≡ s.fresh)
      × (s'.nodes s.fresh ≡ some new)
      × (new.name ≡ name)
      × (new.type ≡ file)
      × (s'.nodes v ≡ some (record n { children = n.children ++ s.fresh ∷ [] }))
      × ((w : ℕ) → w ≢ v → w ≢ s.fresh → s'.nodes w ≡ s.nodes w)
unfolding file_open
file_open-relative s root c name flags v {n} lost creat plain top e memory d room free fits t
      absent =
    let (made, found) = ramfs_create-found s v name file e d room free fits t absent in
    let s₁ = with_child s v n name file in
    let apart : s.fresh ≢ v = λ q. clash (subst (λ (a : ℕ). s.nodes a ≡ some n) (sym q) e) in
    let there : s₁.nodes s.fresh ≡ some (created s name file) = ground arith in
    let at_root : s₁.nodes v ≡ some (record n { children = n.children ++ s.fresh ∷ [] }) =
      ground arith in
    let (f, s', opened, o) = open_node_lem s₁ s.fresh flags there refl in
    (
      f,
      s',
      o.new,
      rw lost (
          rw creat
            (rw (create_at-root s root c name v plain top e memory made found) (rw opened refl))),
      o.file_vnode,
      o.at_node,
      o.same_name.0,
      o.same_name.1,
      o.others v (λ q. apart (sym q)) ∙ at_root,
      λ w away new. o.others w new ∙ ground arith,
    )
  where
    clash : s.nodes s.fresh ≡ some n → ⊥
    clash q = cc
