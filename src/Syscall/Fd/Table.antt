-- ===== src/Syscall/Fd/Table.antt =====
-- The table of descriptors in syscall/syscall.c.
use mai_unix.Prelude.Int.{pos}
use mai_unix.Prelude.{
  ℕ, zero, suc, ◌+◌, ◌<◌, ◌≡◌, refl, sym, ap, ◌∙◌, ◌≢◌, ◌⊎◌, inl, inr, false, Option, none, some,
  List, [], ◌∷◌, arith, leb, length, set, get_or, get_or-set,
}
use mai_unix.Proc.Process.{max_fds}
use mai_unix.Syscall.Fd.{emfile, Sys, fd_get, free_fd, fd_alloc}

free_fd_lem :
    (fds : List (Option ℕ)) (i : ℕ)
    → ((n : ℕ) × (n < length fds)
        × (free_fd fds i ≡ some (i + n))
        × (get_or fds n none ≡ none)
        × ((j : ℕ) → j < n → get_or fds j none ≢ none))
      ⊎ ((free_fd fds i ≡ none) × ((j : ℕ) → j < length fds → get_or fds j none ≢ none))
unfolding free_fd
free_fd_lem [] i = inr (refl, λ j lt. absurd (omega arith))
free_fd_lem (none ∷ fds) i =
    let start : i ≡ i + 0 = omega arith in
    inl (0, omega arith, ap some start, refl, λ j lt. absurd (omega arith))
free_fd_lem (some a ∷ fds) i = elim (free_fd_lem fds (i + 1)) [
  | inl (n, lt, got, free, used) ↦
      let shift : i + 1 + n ≡ i + suc n = omega arith in
      inl (suc n, omega arith, got ∙ ap some shift, free, held n used)
  | inr (got, used) ↦ inr (got, held (length fds) used)
]
  where
    held :
        (m : ℕ)
        → ((j : ℕ) → j < m → get_or fds j none ≢ none)
        → (j : ℕ) → j < suc m
        → get_or (some a ∷ fds) j none ≢ none
    held m used zero lt q = cc
    held m used (suc j) lt q = used j (omega arith) q

pub fd_get_in : (s : Sys) (fd : ℕ) → fd < max_fds → fd_get s fd ≡ get_or s.fds fd none
unfolding fd_get
fd_get_in s fd lt = let inside : leb max_fds fd ≡ false = ground arith in rw inside

fd_get-bind_ne :
    (s : Sys) (a n j : ℕ)
    → n < length s.fds
    → j ≢ n
    → fd_get (record s { fds = set s.fds n (some a) }) j ≡ fd_get s j
unfolding fd_get
fd_get-bind_ne s a n j lt ne =
    let apart : get_or (set s.fds n (some a)) j none ≡ get_or s.fds j none =
      ground (arith, get_or-set s.fds n j (some a) none lt) in
    rw apart

fd_alloc-some :
    (s : Sys) (a n : ℕ)
    → free_fd s.fds 0 ≡ some n
    → fd_alloc s a ≡ (pos n, record s { fds = set s.fds n (some a) })
unfolding fd_alloc
fd_alloc-some s a n e = rw (e, fd_alloc)

fd_alloc-none : (s : Sys) (a : ℕ) → free_fd s.fds 0 ≡ none → fd_alloc s a ≡ (emfile, s)
unfolding fd_alloc
fd_alloc-none s a e = rw (e, fd_alloc)

-- What `fd_alloc` has made of the descriptors.
pub record Allocates (s : Sys) (a fd : ℕ) (s' : Sys) : Type 0 where
  pub in_table : fd < max_fds
  pub was_free : fd_get s fd ≡ none
  pub lowest : (j : ℕ) → j < fd → fd_get s j ≢ none
  pub bound : fd_get s' fd ≡ some a
  pub others : (j : ℕ) → j ≢ fd → fd_get s' j ≡ fd_get s j

-- `fd_alloc` binds the lowest free descriptor to the file and changes no other; or all of them are
-- in use, and it returns -EMFILE and changes nothing.
fd_alloc_lem :
    (s : Sys) (a : ℕ)
    → length s.fds ≡ max_fds
    → ((fd : ℕ) × (s' : Sys) × (fd_alloc s a ≡ (pos fd, s')) × Allocates s a fd s')
      ⊎ ((fd_alloc s a ≡ (emfile, s)) × ((j : ℕ) → j < max_fds → fd_get s j ≢ none))
fd_alloc_lem s a size = elim (free_fd_lem s.fds 0) [
  | inl (n, lt, got, free, used) ↦
      let start : 0 + n ≡ n = omega arith in
      let found : free_fd s.fds 0 ≡ some n = got ∙ ap some start in
      let s' = record s { fds = set s.fds n (some a) } in
      let inside : n < max_fds = omega (arith, size) in
      inl (
        n,
        s',
        fd_alloc-some s a n found,
        record {
          in_table = inside;
          was_free = fd_get_in s n inside ∙ free;
          lowest = λ j l q. used j l (sym (fd_get_in s j (omega arith)) ∙ q);
          bound = fd_get_in s' n inside ∙ ground (arith, get_or-set s.fds n n (some a) none lt);
          others = λ j ne. fd_get-bind_ne s a n j lt ne;
        },
      )
  | inr (got, used) ↦
      inr (fd_alloc-none s a got, λ j l q. used j (omega (arith, size)) (sym (fd_get_in s j l) ∙ q))
]
