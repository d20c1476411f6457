-- ===== src/Mm/Vmm/Clone.antt =====
-- The copy-on-write entries of `vmm_clone` of mm/vmm.c.
use mai_unix.Prelude.{
  ℕ, zero, suc, ◌+◌, ◌-◌, ◌%◌, ◌^◌, ◌≤◌, ◌<◌, bit_and, ◌≡◌, refl, ap, ◌∙◌, ◌≢◌, inl, inr, Bool,
  true, false, ◌&&◌, ◌||◌, arith, ℕ_discrete, ltb, leb, ◌==◌, if◌then◌else◌, Bool-cases,
}
use mai_unix.Prelude.Bits.{bit_at, bit_at-le, bit_at-or, bit_at-and, bit_at-pow, bit_at-not}
use mai_unix.Mm.Vmm.{
  page_write, page_cow, Vmm, entry, write_entry, is_present, cow, clone_entry, clone_table,
}
use mai_unix.Mm.Vmm.Space.{frame, entry-write_entry}

-- `cow` takes the write bit away, sets the copy-on-write bit, and keeps every other bit of the word.
cow_lem :
    (e k : ℕ) → k < 32 → bit_at (cow e) k ≡ (if k == 1 then 0 else if k == 9 then 1 else bit_at e k)
unfolding cow
cow_lem e k lt =
    let mask : bit_at (2 ^ 32 - 1 - page_write) k ≡ 1 - bit_at page_write k =
      bit_at-not 32 k page_write (omega arith) lt in
    ground (
      arith,
      bit_at-or k (bit_and e (2 ^ 32 - 1 - page_write)) page_cow,
      bit_at-and k e (2 ^ 32 - 1 - page_write),
      mask,
      bit_at-pow 1 k,
      bit_at-pow 9 k,
      bit_at-le k e,
    )

abbrev in_either : ℕ → ℕ → ℕ → Bool
in_either src dst r = frame r == frame src || frame r == frame dst

-- Place `k` of the page at `r` behind a clone of the entries from `j` on, `n` of them.
abbrev pub cloned : Vmm → ℕ → ℕ → ℕ → ℕ → ℕ → ℕ → ℕ
cloned s src dst j n r k =
    if leb j k && ltb k (j + n)
    then (if is_present (entry s src k) && in_either src dst r
        then cow (entry s src k)
        else entry s r k)
    else entry s r k

module _ (src dst : ℕ) (aligned_src : src % 4096 ≡ 0) (aligned_dst : dst % 4096 ≡ 0) where
  clone_entry_here :
      (s : Vmm) (j r : ℕ)
      → r % 4096 ≡ 0
      → j < 1024
      → entry (clone_entry j src dst s) r j ≡ (
          if is_present (entry s src j) && in_either src dst r
          then cow (entry s src j)
          else entry s r j)
  unfolding clone_entry
  clone_entry_here s j r ar hj = elim (Bool-cases (is_present (entry s src j))) [
    | inr gone ↦ rw gone
    | inl here ↦
        let new = cow (entry s src j) in
        let s₁ = write_entry s src j new in
        let at_src = entry-write_entry s src j new r j aligned_src ar hj hj in
        let at_dst = entry-write_entry s₁ dst j (entry s₁ src j) r j aligned_dst ar hj hj in
        let copied : entry s₁ src j ≡ new = ground arith in
        rw here (at_dst ∙ rw copied (ground (arith, at_src)))
  ]

  clone_entry_else :
      (s : Vmm) (j r k : ℕ)
      → r % 4096 ≡ 0
      → j < 1024
      → k < 1024
      → k ≢ j
      → entry (clone_entry j src dst s) r k ≡ entry s r k
  unfolding clone_entry
  clone_entry_else s j r k ar hj hk ne = elim (Bool-cases (is_present (entry s src j))) [
    | inr gone ↦ rw gone
    | inl here ↦
        let new = cow (entry s src j) in
        let s₁ = write_entry s src j new in
        let at_src = entry-write_entry s src j new r k aligned_src ar hj hk in
        let at_dst = entry-write_entry s₁ dst j (entry s₁ src j) r k aligned_dst ar hj hk in
        let differ : (k == j) ≡ false = ground arith in rw here (at_dst ∙ ground (arith, at_src))
  ]

  clone_table_rounds :
      (n j : ℕ) (s : Vmm) (r k : ℕ)
      → r % 4096 ≡ 0
      → j + n ≤ 1024
      → k < 1024
      → entry (clone_table n j src dst s) r k ≡ cloned s src dst j n r k
  unfolding clone_table
  clone_table_rounds zero j s r k ar fits hk = ground arith
  clone_table_rounds (suc n) j s r k ar fits hk =
      clone_table_rounds n (j + 1) (clone_entry j src dst s) r k ar (omega arith) hk
      ∙ elim (ℕ_discrete k j) [
        | yes e ↦
            let past : (leb (j + 1) j && ltb j (j + 1 + n)) ≡ false = ground arith in
            let inside : (leb j j && ltb j (j + suc n)) ≡ true = ground arith in
            rw e (rw past (rw inside (clone_entry_here s j r ar (omega arith))))
        | no ne ↦
            let range : (leb (j + 1) k && ltb k (j + 1 + n)) ≡ (leb j k && ltb k (j + suc n)) =
              ground arith in
            let same_src = clone_entry_else s j src k aligned_src (omega arith) hk ne in
            let same = clone_entry_else s j r k ar (omega arith) hk ne in
            rw range (rw same_src (rw same))
      ]

-- The whole loop.
clone_table_entries :
    (s : Vmm) (src dst r k : ℕ)
    → src % 4096 ≡ 0
    → dst % 4096 ≡ 0
    → r % 4096 ≡ 0
    → k < 1024
    → entry (clone_table 1024 0 src dst s) r k ≡ (
        if is_present (entry s src k) && in_either src dst r
        then cow (entry s src k)
        else entry s r k)
clone_table_entries s src dst r k hs hd hr hk =
    let all : (leb 0 k && ltb k (0 + 1024)) ≡ true = ground arith in
    clone_table_rounds src dst hs hd 1024 0 s r k hr (omega arith) hk ∙ rw all

-- The inner loop of `vmm_clone` on a table and the new one, by the bits of every entry: behind it, at
-- each place where the table had a page, both hold its entry with the write bit 1 cleared, the
-- copy-on-write bit 9 set and every other bit kept; every other place of both, and every other page,
-- is as it was.
pub clone_table_lem :
    (s : Vmm) (src dst r k b : ℕ)
    → src % 4096 ≡ 0
    → dst % 4096 ≡ 0
    → r % 4096 ≡ 0
    → k < 1024
    → b < 32
    → bit_at (entry (clone_table 1024 0 src dst s) r k) b ≡ (
        if is_present (entry s src k) && (frame r == frame src || frame r == frame dst)
        then (if b == 1 then 0 else if b == 9 then 1 else bit_at (entry s src k) b)
        else bit_at (entry s r k) b)
clone_table_lem s src dst r k b hs hd hr hk hb =
    ap (λ (e : ℕ). bit_at e b) (clone_table_entries s src dst r k hs hd hr hk)
    ∙ elim (Bool-cases (is_present (entry s src k) && in_either src dst r)) [
      | inl here ↦ rw here (cow_lem (entry s src k) b hb)
      | inr other ↦ rw other refl
    ]
