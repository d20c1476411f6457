-- ===== src/Fs/Ramfs/Unlink.antt =====
-- `ramfs_unlink` of fs/ramfs.c: the last child takes the place of the one that goes.
use mai_unix.Prelude.Int.{pos}
use mai_unix.Prelude.{
  ℕ, ◌+◌, ◌-◌, ◌≡◌, refl, sym, ap, ◌∙◌, subst, ◌≢◌, ◌⊎◌, inl, inr, some, List, [], ◌∷◌, ◌++◌, arith,
  length, set, length-append, get_or, take-append_exact,
}
use mai_unix.Fs.Node.{Node, Store, put_node, free_node, enoent}
use mai_unix.Fs.Ramfs.{find_child, swap_remove, ramfs_unlink}
use mai_unix.Fs.Ramfs.Dir.{Children, HasName, NoneNamed, find_child_lem}
use mai_unix.Libc.Str.{IsText}
use mathlib.Core.List.Perm
use mathlib.Core.List.{append-nil, append_assoc, Perm, perm_middle, perm_append_comm}

set-append_exact :
    (xs : List ℕ) (a : ℕ) (ys : List ℕ) (b : ℕ) → set (xs ++ a ∷ ys) (length xs) b ≡ xs ++ b ∷ ys
set-append_exact [] a ys b = refl
set-append_exact (x ∷ xs) a ys b = ap (◌∷◌ x) (set-append_exact xs a ys b)

get_or-snoc : (xs : List ℕ) (l : ℕ) → get_or (xs ++ l ∷ []) (length xs) 0 ≡ l
get_or-snoc [] l = refl
get_or-snoc (x ∷ xs) l = get_or-snoc xs l

length-snoc : (xs : List ℕ) (l : ℕ) → length (xs ++ l ∷ []) - 1 ≡ length xs
length-snoc xs l = omega (arith, length-append xs (l ∷ []))

last_of : (xs : List ℕ) → (xs ≡ []) ⊎ ((mid : List ℕ) × (l : ℕ) × (xs ≡ mid ++ l ∷ []))
last_of [] = inl refl
last_of (x ∷ xs) = elim (last_of xs) [
  | inl e ↦ inr ([], x, ap (◌∷◌ x) e)
  | inr (mid, l, e) ↦ inr (x ∷ mid, l, ap (◌∷◌ x) e)
]

swap_remove-last :
    (before : List ℕ) (c : ℕ) → swap_remove (before ++ c ∷ []) (length before) ≡ before
unfolding swap_remove
swap_remove-last before c =
    rw (length-snoc before c) (rw (set-append_exact before c []) (take-append_exact before _))

-- Removing in the middle, with the last element `l` of `xs` apart.
swap_remove-inner :
    (before : List ℕ) (c : ℕ) (mid : List ℕ) (l : ℕ)
    → swap_remove (before ++ c ∷ (mid ++ l ∷ [])) (length before) ≡ before ++ l ∷ mid
unfolding swap_remove
swap_remove-inner before c mid l =
    let front : before ++ c ∷ (mid ++ l ∷ []) ≡ before ++ c ∷ mid ++ l ∷ [] =
      sym (append_assoc before (c ∷ mid) (l ∷ [])) in
    let moved : before ++ l ∷ (mid ++ l ∷ []) ≡ before ++ l ∷ mid ++ l ∷ [] =
      sym (append_assoc before (l ∷ mid) (l ∷ [])) in
    let at : length (before ++ c ∷ (mid ++ l ∷ [])) - 1 ≡ length (before ++ c ∷ mid) =
      ap (λ (xs : List ℕ). length xs - 1) front ∙ length-snoc (before ++ c ∷ mid) l in
    let same : length (before ++ c ∷ mid) ≡ length (before ++ l ∷ mid) =
      omega (arith, length-append before (c ∷ mid), length-append before (l ∷ mid)) in
    let last : get_or (before ++ c ∷ (mid ++ l ∷ [])) (length (before ++ c ∷ mid)) 0 ≡ l =
      ap (λ (xs : List ℕ). get_or xs (length (before ++ c ∷ mid)) 0) front
      ∙ get_or-snoc (before ++ c ∷ mid) l in
    rw at (
      rw last (
        rw (set-append_exact before c (mid ++ l ∷ []) l)
          (rw moved (rw same (take-append_exact (before ++ l ∷ mid) (l ∷ []))))))

-- What is left is the other children, in another order.
swap_remove-Perm :
    (before : List ℕ) (c : ℕ) (behind : List ℕ)
    → Perm (before ++ c ∷ behind) (c ∷ swap_remove (before ++ c ∷ behind) (length before))
swap_remove-Perm before c behind = elim (last_of behind) [
  | inl e ↦ rw e (
      rw (swap_remove-last before c) (
        subst (λ (xs : List ℕ). Perm (before ++ c ∷ []) (c ∷ xs)) (append-nil before)
          (perm_middle before [])))
  | inr (mid, l, e) ↦ rw e (
      rw (swap_remove-inner before c mid l) (
        Perm.trans (perm_middle before (mid ++ l ∷ []))
          (Perm.cons c (Perm.append_left before (perm_append_comm mid (l ∷ []))))))
]

-- `v` is none of the children.
abbrev pub Apart : ℕ → List ℕ → Type 0
Apart v [] = Unit {0}
Apart v (c ∷ cs) = (c ≢ v) × Apart v cs

Apart-at :
    (v : ℕ) (before : List ℕ) (c : ℕ) (behind : List ℕ) → Apart v (before ++ c ∷ behind) → c ≢ v
Apart-at v [] c behind h = h.0
Apart-at v (b ∷ before) c behind h = Apart-at v before c behind h.1

-- `ramfs_unlink` of a directory that is not its own child frees the first child with the name, before
-- which no child has it, and leaves the others in the directory, each as often as before but not in the same order; it
-- changes no other node. If no child has the name, it returns -ENOENT and changes nothing.
pub ramfs_unlink_lem :
    (s : Store) (v : ℕ) (name : List ℕ) {n : Node}
    → s.nodes v ≡ some n
    → Children s n.children
    → Apart v n.children
    → IsText name
    → ((before : List ℕ) × (c : ℕ) × (behind rest : List ℕ) × (n.children ≡ before ++ c ∷ behind)
        × NoneNamed s name before
        × HasName s name c
        × Perm n.children (c ∷ rest)
        × (ramfs_unlink s v name
            ≡ some (pos 0, put_node (free_node s c) v (record n { children = rest }))))
      ⊎ ((ramfs_unlink s v name ≡ some (enoent, s)) × NoneNamed s name n.children)
unfolding ramfs_unlink
ramfs_unlink_lem s v name {n} e whole apart t = elim (find_child_lem s name n.children 0 t whole) [
  | inl (before, c, behind, got, split, named, none_before) ↦
      let elsewhere : c ≢ v = Apart-at v before c behind (subst (Apart v) split apart) in
      let there : (free_node s c).nodes v ≡ some n = ground arith in
      let start : 0 + length before ≡ length before = omega arith in
      let here : find_child s name n.children 0 ≡ some (some (length before, c)) =
        got ∙ ap (λ (i : ℕ). some (some (i, c))) start in
      inl (
        before,
        c,
        behind,
        swap_remove n.children (length before),
        split,
        none_before,
        named,
        subst (λ (xs : List ℕ). Perm xs (c ∷ swap_remove xs (length before))) (sym split)
            (swap_remove-Perm before c behind),
        rw e (rw here (rw there)),
      )
  | inr (got, none_named) ↦ inr (rw e (rw got), none_named)
]
