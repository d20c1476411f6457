-- ===== src/Mm/Vmm/Space.antt =====
-- Address spaces of mm/vmm.c: a directory and its tables in pages of their own, seen as one function
-- from page numbers to entries.
use mai_unix.Prelude.{
  ℕ, ◌/◌, ◌%◌, ◌<◌, ◌≡◌, refl, ap, ◌≢◌, inl, inr, true, false, ◌&&◌, some, arith, ◌==◌,
  if◌then◌else◌,
}
use mai_unix.Mm.Pmm.Alloc.{IsValid, pmm_alloc_lem, Takes-IsValid}
use mai_unix.Mm.Pmm.Bitmap.{bit_of}
use mai_unix.Mm.Vmm.{Vmm, entry, write_entry, is_present, table_of, memset32, new_table}
use mai_unix.Mm.Vmm.Entries.{memset32-inside, memset32-outside}

-- The page frame of an address or of an entry.
abbrev pub frame : ℕ → ℕ
frame a = a / 4096

abbrev pub InUse : Vmm → ℕ → Type 0
InUse s f = bit_of s.pmm.bitmap f ≡ 1

-- The directory at `pd` and the tables it leads to are pages in use, all of them different.
pub record IsSpace (s : Vmm) (pd : ℕ) : Type 0 where
  pub aligned : pd % 4096 ≡ 0
  pub dir_used : InUse s (frame pd)
  pub tables_used :
      (i : ℕ) → i < 1024 → is_present (entry s pd i) ≡ true → InUse s (frame (entry s pd i))
  pub not_dir :
      (i : ℕ) → i < 1024 → is_present (entry s pd i) ≡ true → frame (entry s pd i) ≢ frame pd
  pub apart :
      (i j : ℕ)
      → i < 1024
      → j < 1024
      → is_present (entry s pd i) ≡ true
      → is_present (entry s pd j) ≡ true
      → frame (entry s pd i) ≡ frame (entry s pd j)
      → i ≡ j

-- The entry for page `q`, or 0 where there is no table for it.
unfoldable pub page_entry : Vmm → ℕ → ℕ → ℕ
page_entry s pd q =
    let e = entry s pd (q / 1024) in if is_present e then entry s (table_of e) (q % 1024) else 0

module _ (s : Vmm) (pd q : ℕ) where
  pub page_entry-none : is_present (entry s pd (q / 1024)) ≡ false → page_entry s pd q ≡ 0
  unfolding page_entry
  page_entry-none gone = rw gone

  pub page_entry-some :
      is_present (entry s pd (q / 1024)) ≡ true
      → page_entry s pd q ≡ entry s (table_of (entry s pd (q / 1024))) (q % 1024)
  unfolding page_entry
  page_entry-some here = rw here

-- A write to a place of one page is not seen at the places of another, or at another place.
pub entry-write_entry :
    (s : Vmm) (p i v r j : ℕ)
    → p % 4096 ≡ 0
    → r % 4096 ≡ 0
    → i < 1024
    → j < 1024
    → entry (write_entry s p i v) r j
      ≡ (if (frame r == frame p) && (j == i) then v else entry s r j)
entry-write_entry s p i v r j ap ar hi hj = ground arith

abbrev pub IsFree : Vmm → Type 0
IsFree s = (p : ℕ) × (p < s.pmm.total_pages) × (bit_of s.pmm.bitmap p ≡ 0)

-- What a new table is: a page that was free, cleared, with nothing else changed.
pub record NewTable (s : Vmm) (pt : ℕ) (s' : Vmm) : Type 0 where
  pub table_aligned : pt % 4096 ≡ 0
  pub was_free : bit_of s.pmm.bitmap (frame pt) ≡ 0
  pub valid : IsValid s'.pmm
  pub now_used :
      (f : ℕ) → bit_of s'.pmm.bitmap f ≡ (if f == frame pt then 1 else bit_of s.pmm.bitmap f)
  pub cleared : (i : ℕ) → i < 1024 → entry s' pt i ≡ 0
  pub others : (r j : ℕ) → r % 4096 ≡ 0 → j < 1024 → frame r ≢ frame pt → entry s' r j ≡ entry s r j
  pub same_kernel : s'.kernel_dir ≡ s.kernel_dir
  pub same_total : s'.pmm.total_pages ≡ s.pmm.total_pages

pub new_table_lem :
    (s : Vmm)
    → IsValid s.pmm
    → IsFree s
    → (pt : ℕ) × (s' : Vmm) × (new_table s ≡ some (pt, s')) × NewTable s pt s'
unfolding new_table
new_table_lem s v (q, lt, free) = elim (pmm_alloc_lem s.pmm v) [
  | inr (_, all) ↦ absurd (omega (arith, all q (omega arith) lt))
  | inl (p, out, got, t, _) ↦
      let here : frame out.0 ≡ p = omega (arith, t.address) in
      let whole : out.0 % 4096 ≡ 0 = omega (arith, t.address) in
      let mem' = memset32 s.mem (out.0 / 4) 0 1024 in
      (
        out.0,
        record s { pmm = out.1; mem = mem' },
        rw got,
        record {
          table_aligned = whole;
          was_free = rw here t.was_free;
          valid = (Takes-IsValid v t).0;
          now_used = λ f. rw here (t.marked.bits f);
          cleared = memset32-inside s.mem out.0;
          others = λ r j ar h ne. memset32-outside s.mem out.0 r j whole ar h ne;
          same_kernel = refl;
          same_total = t.total;
        },
      )
]
