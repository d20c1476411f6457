-- ===== src/Fs/Vfs/Lookup.antt =====
-- `vfs_lookup` of fs/vfs.c against a walk along the names of the path.
use mai_unix.Prelude.{
  ℕ, zero, suc, ◌+◌, ◌<◌, ◌≡◌, refl, sym, ap, ◌∙◌, subst, inl, inr, Bool, true, false, Option, none,
  some, List, [], ◌∷◌, arith, leb, ◌==◌, if◌then◌else◌, Bool-cases, length,
}
use mai_unix.Fs.Node.{vfs_name_len, Store}
use mai_unix.Prelude.Faults.{◌>>=◌}
use mai_unix.Fs.Vfs.{next_part, is_skipped, resolve_mount, enter, lookup_loop, strip, vfs_lookup}

abbrev pub add_front : ℕ → List (List ℕ) → List (List ℕ)
add_front c [] = (c ∷ []) ∷ []
add_front c (p ∷ ps) = (c ∷ p) ∷ ps

-- A path, cut at its slashes.
unfoldable pub split : List ℕ → List (List ℕ)
split [] = [] ∷ []
split (c ∷ cs) = if c == b'/' then [] ∷ split cs else add_front c (split cs)

-- The parts that count.
unfoldable pub names_of : List (List ℕ) → List (List ℕ)
unfolding is_skipped
names_of [] = []
names_of (p ∷ ps) = if is_skipped p then names_of ps else p ∷ names_of ps

abbrev pub AllShort : List (List ℕ) → Type 0
AllShort [] = Unit {0}
AllShort (p ∷ ps) = (length p < vfs_name_len) × AllShort ps

-- From a node, down along the names, through the mount points.
unfoldable pub walk : Store → ℕ → List (List ℕ) → Option (Option ℕ)
walk s v [] = (do node ← resolve_mount s v; some (some node))
walk s v (p ∷ ps) =
    enter s v p >>= λ found. elim found [ none ↦ some none | some child ↦ walk s child ps ]

-- The first part of a path, and what the rest contributes.
next_part_lem :
    (path : List ℕ)
    → (ps : List (List ℕ)) × (split path ≡ (next_part path).0 ∷ ps)
      × (names_of ps ≡ names_of (split (next_part path).1))
      × (AllShort ps → AllShort (split (next_part path).1))
unfolding split next_part names_of is_skipped
next_part_lem [] = ([], refl, refl, λ h. (omega arith, tt))
next_part_lem (c ∷ cs) = elim (Bool-cases (c == b'/')) [
  | inl slash ↦ (split cs, rw slash, rw slash, λ h. rw slash h)
  | inr other ↦
      let (ps, e, same, short) = next_part_lem cs in
      (ps, rw other (rw (e, add_front)), rw other same, λ h. rw other (short h))
]

next_part-length : (c : ℕ) (cs : List ℕ) → length (next_part (c ∷ cs)).1 < suc (length cs)
unfolding next_part
next_part-length c [] = ground arith
next_part-length c (d ∷ cs) = ground (arith, next_part-length d cs)

-- One round of the loop, on the path's first part.
module _ (fuel : ℕ) (s : Store) (v c : ℕ) (cs : List ℕ) where
  fits_part :
      length (next_part (c ∷ cs)).0 < vfs_name_len
      → leb vfs_name_len (length (next_part (c ∷ cs)).0) ≡ false
  fits_part h = ground arith

  round_skip :
      length (next_part (c ∷ cs)).0 < vfs_name_len
      → is_skipped (next_part (c ∷ cs)).0 ≡ true
      → lookup_loop (suc fuel) s v (c ∷ cs) ≡ lookup_loop fuel s v (next_part (c ∷ cs)).1
  unfolding lookup_loop
  round_skip short skip = rw (fits_part short) (rw skip)

  round_enter :
      length (next_part (c ∷ cs)).0 < vfs_name_len
      → is_skipped (next_part (c ∷ cs)).0 ≡ false
      → lookup_loop (suc fuel) s v (c ∷ cs) ≡ (
          enter s v (next_part (c ∷ cs)).0 >>= λ found. elim found [
            | none ↦ some none
            | some child ↦ lookup_loop fuel s child (next_part (c ∷ cs)).1
          ])
  unfolding lookup_loop
  round_enter short go = rw (fits_part short) (rw go)

names_of_skip :
    (p : List ℕ) (ps : List (List ℕ)) → is_skipped p ≡ true → names_of (p ∷ ps) ≡ names_of ps
unfolding names_of
names_of_skip p ps e = rw e

names_of_keep :
    (p : List ℕ) (ps : List (List ℕ)) → is_skipped p ≡ false → names_of (p ∷ ps) ≡ p ∷ names_of ps
unfolding names_of
names_of_keep p ps e = rw e

bind_cong :
    (r : Option (Option ℕ)) (f g : ℕ → Option (Option ℕ))
    → ((a : ℕ) → f a ≡ g a)
    → (r >>= λ found. elim found [ none ↦ some none | some a ↦ f a ])
      ≡ (r >>= λ found. elim found [ none ↦ some none | some a ↦ g a ])
bind_cong none f g h = refl
bind_cong (some none) f g h = refl
bind_cong (some (some a)) f g h = h a

at_end :
    (fuel : ℕ) (s : Store) (v : ℕ) → lookup_loop (suc fuel) s v [] ≡ walk s v (names_of (split []))
unfolding lookup_loop walk names_of split is_skipped
at_end fuel s v = refl

walk_cons :
    (s : Store) (v : ℕ) (p : List ℕ) (ps : List (List ℕ))
    → walk s v (p ∷ ps)
      ≡ (enter s v p >>= λ found. elim found [ none ↦ some none | some child ↦ walk s child ps ])
unfolding walk
walk_cons s v p ps = refl

-- With more fuel than the path has bytes, the loop is the walk along the names.
lookup_loop_lem :
    (fuel : ℕ) (s : Store) (v : ℕ) (path : List ℕ)
    → length path < fuel
    → AllShort (split path)
    → lookup_loop fuel s v path ≡ walk s v (names_of (split path))
lookup_loop_lem zero s v path enough short = absurd (omega arith)
lookup_loop_lem (suc fuel) s v [] enough short = at_end fuel s v
lookup_loop_lem (suc fuel) s v (c ∷ cs) enough short =
    let (part, rest) = next_part (c ∷ cs) in
    let (ps, cut, same, keep) = next_part_lem (c ∷ cs) in
    let (fits, fits_rest) = subst AllShort cut short in
    let less : length rest < fuel = omega (arith, next_part-length c cs) in
    let again : (w : ℕ) → lookup_loop fuel s w rest ≡ walk s w (names_of ps) =
      λ w. lookup_loop_lem fuel s w rest less (keep fits_rest) ∙ ap (walk s w) (sym same) in
    rw cut (elim (Bool-cases (is_skipped part)) [
      | inl skip ↦
          round_skip fuel s v c cs fits skip
          ∙ again v
          ∙ sym (ap (walk s v) (names_of_skip part ps skip))
      | inr go ↦
          round_enter fuel s v c cs fits go
          ∙ bind_cong (enter s v part) (λ w. lookup_loop fuel s w rest)
              (λ w. walk s w (names_of ps)) again
          ∙ sym (walk_cons s v part (names_of ps))
          ∙ sym (ap (walk s v) (names_of_keep part ps go))
    ])

-- A slash in front of a path adds nothing to it.
strip_lem :
    (path : List ℕ)
    → (names_of (split (strip path)) ≡ names_of (split path))
      × (AllShort (split path) → AllShort (split (strip path)))
      × (length (strip path) < length path + 1)
unfolding strip names_of split is_skipped
strip_lem [] = (refl, (λ h. h), omega arith)
strip_lem (c ∷ cs) = elim (Bool-cases (c == b'/')) [
  | inl slash ↦ (rw slash, (λ h. rw slash (drop_first slash h)), rw slash (omega arith))
  | inr other ↦
      let stays : strip (c ∷ cs) ≡ c ∷ cs = rw other in
      (
        ap (λ (p : List ℕ). names_of (split p)) stays,
        (λ h. subst (λ (p : List ℕ). AllShort (split p)) (sym stays) h),
        rw other (omega arith),
      )
]
  where
    drop_first : (c == b'/') ≡ true → AllShort (split (c ∷ cs)) → AllShort (split cs)
    drop_first slash h =
        (subst (λ (b : Bool). AllShort (if b then [] ∷ split cs else add_front c (split cs))) slash
          h).1

-- `vfs_lookup` of a path whose parts fit the buffer ends, and its result is that of the walk from
-- the root along the names that the path has between its slashes, less the empty ones, `.` and
-- `..`: each name is looked up in the directory reached so far or in what is mounted on it, and
-- the result is what is mounted on the last one, if anything is.
pub vfs_lookup_lem :
    (s : Store) (root : ℕ) (path : List ℕ)
    → AllShort (split path)
    → vfs_lookup s (some root) path ≡ walk s root (names_of (split path))
unfolding vfs_lookup
vfs_lookup_lem s root path short =
    let (same, keep, less) = strip_lem path in
    lookup_loop_lem (length path + 1) s root (strip path) less (keep short) ∙ ap (walk s root) same
