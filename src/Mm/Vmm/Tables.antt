-- ===== src/Mm/Vmm/Tables.antt =====
-- What writes to the tables of an address space of mm/vmm.c do to the function from page numbers to
-- entries: a write to a table that is there, and the entry for a new one.
use mai_unix.Prelude.{
  ℕ, ◌+◌, ◌*◌, ◌/◌, ◌%◌, ◌^◌, ◌<◌, ◌≡◌, sym, ap, ◌∙◌, subst, ◌≢◌, inl, inr, true, false, ◌&&◌,
  arith, ℕ_discrete, ◌==◌, if◌then◌else◌, Bool-cases,
}
use mai_unix.Mm.Vmm.{Vmm, entry, write_entry, is_present, table_of}
use mai_unix.Mm.Vmm.Space.{
  frame, InUse, IsSpace, page_entry, page_entry-none, page_entry-some, entry-write_entry, NewTable,
}
use mai_unix.Mm.Pmm.Bitmap.{bit_of}

-- `f` changed at `k` to `v`.
abbrev pub Updated : (ℕ → ℕ) → ℕ → ℕ → (ℕ → ℕ) → Type 0
Updated f k v g = (q : ℕ) → q < 2 ^ 20 → g q ≡ (if q == k then v else f q)

-- A write to the table behind entry `i`.
module _ (s : Vmm) (pd i j v : ℕ) (a : IsSpace s pd) (hi : i < 1024) (hj : j < 1024)
    (there : is_present (entry s pd i) ≡ true) where
  pub dir_kept :
      (k : ℕ) → k < 1024 → entry (write_entry s (table_of (entry s pd i)) j v) pd k ≡ entry s pd k
  dir_kept k h =
      entry-write_entry s (table_of (entry s pd i)) j v pd k (omega arith) a.aligned hj h
      ∙ ground (arith, a.not_dir i hi there)

  pub table_write-IsSpace : IsSpace (write_entry s (table_of (entry s pd i)) j v) pd
  table_write-IsSpace = record {
    aligned = a.aligned;
    dir_used = a.dir_used;
    tables_used = λ k h. rw (dir_kept k h) (a.tables_used k h);
    not_dir = λ k h. rw (dir_kept k h) (a.not_dir k h);
    apart = λ k l hk hl. rw (dir_kept k hk) (rw (dir_kept l hl) (a.apart k l hk hl));
  }

  same_place :
      (q : ℕ)
      → q < 2 ^ 20
      → is_present (entry s pd (q / 1024)) ≡ true
      → ((frame (table_of (entry s pd (q / 1024))) == frame (table_of (entry s pd i)))
          && (q % 1024 == j))
        ≡ (q == i * 1024 + j)
  same_place q h here = elim (ℕ_discrete (q / 1024) i) [
    | yes same ↦ rw same (ground arith)
    | no other ↦
        let elsewhere : frame (entry s pd (q / 1024)) ≢ frame (entry s pd i) =
          λ e. other (a.apart (q / 1024) i (omega arith) hi here there e) in
        let false_left : (frame (table_of (entry s pd (q / 1024)))
              == frame (table_of (entry s pd i)))
            ≡ false =
          ground arith in
        let false_right : (q == i * 1024 + j) ≡ false = ground arith in
        rw false_left (rw false_right)
  ]

  pub table_write-Updated :
      Updated
        (page_entry s pd)
        (i * 1024 + j)
        v
        (page_entry (write_entry s (table_of (entry s pd i)) j v) pd)
  table_write-Updated q h =
      let s' = write_entry s (table_of (entry s pd i)) j v in
      let kept = dir_kept (q / 1024) (omega arith) in
      elim (Bool-cases (is_present (entry s pd (q / 1024)))) [
        | inr gone ↦
            let other : q ≢ i * 1024 + j = λ e. clash q e gone in
            let false_test : (q == i * 1024 + j) ≡ false = ground arith in
            page_entry-none s' pd q (ap is_present kept ∙ gone)
            ∙ sym (page_entry-none s pd q gone)
            ∙ rw false_test
        | inl here ↦
            page_entry-some s' pd q (ap is_present kept ∙ here)
            ∙ ap (λ (e : ℕ). entry s' (table_of e) (q % 1024)) kept
            ∙ entry-write_entry s (table_of (entry s pd i)) j v (table_of (entry s pd (q / 1024)))
                (q % 1024) (omega arith) (omega arith) hj (omega arith)
            ∙ rw (same_place q h here) (rw (page_entry-some s pd q here))
      ]
    where
      clash : (q : ℕ) → q ≡ i * 1024 + j → is_present (entry s pd (q / 1024)) ≡ false → ⊥
      clash q e gone =
          let at : q / 1024 ≡ i = omega arith in
          let gone' = subst (λ (k : ℕ). is_present (entry s pd k) ≡ false) at gone in
          cc (gone', there)

-- An entry `e` for a new table, put at place `i`, where there was none.
module _ (s : Vmm) (pd i pt e : ℕ) (s₁ : Vmm) (a : IsSpace s pd) (hi : i < 1024)
    (gone : is_present (entry s pd i) ≡ false) (t : NewTable s pt s₁) (high : e / 4096 ≡ pt / 4096)
    (on : is_present e ≡ true) where
  not_dir_frame : frame pd ≢ frame pt
  not_dir_frame q =
      let zero_bit = subst (λ (f : ℕ). bit_of s.pmm.bitmap f ≡ 0) (sym q) t.was_free in
      omega (arith, a.dir_used, zero_bit)

  -- The directory after the entry is put in.
  dir_after :
      (k : ℕ) → k < 1024 → entry (write_entry s₁ pd i e) pd k ≡ (if k == i then e else entry s pd k)
  dir_after k h =
      entry-write_entry s₁ pd i e pd k a.aligned a.aligned hi h
      ∙ ground (arith, t.others pd k a.aligned h not_dir_frame)

  pub dir_at : entry (write_entry s₁ pd i e) pd i ≡ e
  dir_at = dir_after i hi ∙ ground arith

  dir_else : (k : ℕ) → k < 1024 → k ≢ i → entry (write_entry s₁ pd i e) pd k ≡ entry s pd k
  dir_else k h ne = dir_after k h ∙ ground arith

  -- The table is in no other page.
  fresh : (k : ℕ) → k < 1024 → is_present (entry s pd k) ≡ true → frame (entry s pd k) ≢ frame pt
  fresh k h here q =
      let zero_bit = subst (λ (f : ℕ). bit_of s.pmm.bitmap f ≡ 0) (sym q) t.was_free in
      omega (arith, a.tables_used k h here, zero_bit)

  still_used : (f : ℕ) → InUse s f → InUse s₁ f
  still_used f h = ground (arith, t.now_used f)

  pub table_added-IsSpace : IsSpace (write_entry s₁ pd i e) pd
  table_added-IsSpace = record {
    aligned = a.aligned;
    dir_used = still_used (frame pd) a.dir_used;
    tables_used = λ k h. elim (ℕ_discrete k i) [
      | yes q ↦ rw q (rw dir_at (λ on'. rw high (ground (arith, t.now_used (frame pt)))))
      | no ne ↦ rw (dir_else k h ne) (λ here. still_used _ (a.tables_used k h here))
    ];
    not_dir = λ k h. elim (ℕ_discrete k i) [
      | yes q ↦ rw q (rw dir_at (λ on' same. not_dir_frame (sym same ∙ high)))
      | no ne ↦ rw (dir_else k h ne) (a.not_dir k h)
    ];
    apart = λ k l hk hl. elim (ℕ_discrete k i) [
      | yes q ↦ elim (ℕ_discrete l i) [
        | yes r ↦ λ _ _ _. q ∙ sym r
        | no nr ↦ rw q (
            rw dir_at
              (rw (dir_else l hl nr) (λ _ here same. absurd (fresh l hl here (sym same ∙ high)))))
      ]
      | no nq ↦ elim (ℕ_discrete l i) [
        | yes r ↦ rw r (
            rw dir_at
              (rw (dir_else k hk nq) (λ here _ same. absurd (fresh k hk here (same ∙ high)))))
        | no nr ↦ rw (dir_else k hk nq) (rw (dir_else l hl nr) (a.apart k l hk hl))
      ]
    ];
  }

  pub leads_to : table_of e ≡ pt
  leads_to = omega (arith, high, t.table_aligned)

  in_new_table : (j : ℕ) → j < 1024 → entry (write_entry s₁ pd i e) (table_of e) j ≡ 0
  in_new_table j h = rw leads_to (
      entry-write_entry s₁ pd i e pt j a.aligned t.table_aligned hi h
      ∙ ground (arith, t.cleared j h, not_dir_frame))

  in_old_table :
      (r j : ℕ)
      → r % 4096 ≡ 0
      → j < 1024
      → frame r ≢ frame pd
      → frame r ≢ frame pt
      → entry (write_entry s₁ pd i e) r j ≡ entry s r j
  in_old_table r j ar h nd np =
      entry-write_entry s₁ pd i e r j a.aligned ar hi h ∙ ground (arith, t.others r j ar h np)

  pub table_added-pages :
      (q : ℕ) → q < 2 ^ 20 → page_entry (write_entry s₁ pd i e) pd q ≡ page_entry s pd q
  table_added-pages q h = elim (ℕ_discrete (q / 1024) i) [
    | yes same ↦
        let at : entry s' pd (q / 1024) ≡ e = ap (entry s' pd) same ∙ dir_at in
        page_entry-some s' pd q (ap is_present at ∙ on)
        ∙ ap (λ (x : ℕ). entry s' (table_of x) (q % 1024)) at
        ∙ in_new_table (q % 1024) (omega arith)
        ∙ sym (page_entry-none s pd q (ap (λ (k : ℕ). is_present (entry s pd k)) same ∙ gone))
    | no other ↦
        let kept = dir_else (q / 1024) (omega arith) other in
        elim (Bool-cases (is_present (entry s pd (q / 1024)))) [
          | inr none_there ↦
              page_entry-none s' pd q (ap is_present kept ∙ none_there)
              ∙ sym (page_entry-none s pd q none_there)
          | inl here ↦
              page_entry-some s' pd q (ap is_present kept ∙ here)
              ∙ ap (λ (x : ℕ). entry s' (table_of x) (q % 1024)) kept
              ∙ in_old_table (table_of (entry s pd (q / 1024))) (q % 1024) (omega arith)
                  (omega arith) (λ f. a.not_dir (q / 1024) (omega arith) here (whole _ _ f))
                  (λ f. fresh (q / 1024) (omega arith) here (whole _ _ f))
              ∙ sym (page_entry-some s pd q here)
        ]
  ]
    where
      s' : Vmm
      s' = write_entry s₁ pd i e

      whole : (x g : ℕ) → frame (table_of x) ≡ g → frame x ≡ g
      whole x g f = omega (arith, f)
