-- ===== src/Mm/Vmm/Entries.antt =====
-- Words of the page tables of mm/vmm.c: what the flags of an entry leave of its address, and what
-- `memset32` clears.
use mai_unix.Prelude.{
  ℕ, zero, suc, ◌+◌, ◌/◌, ◌%◌, ◌≤◌, ◌<◌, bit_and, bit_or, ◌≡◌, ap, ◌∙◌, ◌≢◌, inl, inr, true, false,
  ◌&&◌, arith, ltb, leb, ◌==◌, if◌then◌else◌, ltb→lt, leb→le, Bool-cases,
}
use mai_unix.Prelude.Bits.{bit_and-one, bit_or-high, bit_or-odd, bit_and-le}
use mai_unix.Mm.Vmm.{page_present, page_write, page_user, is_present, table_of, memset32}

is_present-odd : (e : ℕ) → e % 2 ≡ 1 → is_present e ≡ true
is_present-odd e odd = ground (arith, bit_and-one e)

is_present_iff : (e : ℕ) → is_present e ≡ true → e % 2 ≡ 1
is_present_iff e h = ground (arith, bit_and-one e)

-- The entry that `vmm_map` makes for a new table, and that for a page.
pub dir_entry-high :
    (pt flags : ℕ)
    → bit_or (bit_or (bit_or pt page_present) page_write) (bit_and flags page_user) / 4096
      ≡ pt / 4096
dir_entry-high pt flags =
    bit_or-high 12 (bit_or (bit_or pt page_present) page_write) (bit_and flags page_user)
      (omega (arith, bit_and-le flags page_user))
    ∙ bit_or-high 12 (bit_or pt page_present) page_write (omega arith)
    ∙ bit_or-high 12 pt page_present (omega arith)

pub dir_entry-IsPresent :
    (pt flags : ℕ)
    → is_present (bit_or (bit_or (bit_or pt page_present) page_write) (bit_and flags page_user))
      ≡ true
dir_entry-IsPresent pt flags = is_present-odd _ (
    omega (
      arith,
      bit_or-odd (bit_or (bit_or pt page_present) page_write) (bit_and flags page_user),
      bit_or-odd (bit_or pt page_present) page_write,
      bit_or-odd pt page_present,
    ))

pub page_entry-high :
    (phys flags : ℕ)
    → flags < 4096
    → bit_or (bit_or (table_of phys) page_present) flags / 4096 ≡ phys / 4096
page_entry-high phys flags small =
    bit_or-high 12 (bit_or (table_of phys) page_present) flags small
    ∙ bit_or-high 12 (table_of phys) page_present (omega arith)
    ∙ omega arith

-- `memset32` writes exactly the words from `dst` on, `n` of them.
memset32_lem :
    (mem : ℕ → ℕ) (dst val n a : ℕ)
    → memset32 mem dst val n a ≡ (if leb dst a && ltb a (dst + n) then val else mem a)
unfolding memset32
memset32_lem mem dst val zero a = ground arith
memset32_lem mem dst val (suc n) a =
    ground (arith, memset32_lem (λ b. if b == dst then val else mem b) (dst + 1) val n a)

-- Clearing the page at `p` clears its places, and no place of another page.
pub memset32-inside :
    (mem : ℕ → ℕ) (p i : ℕ) → i < 1024 → memset32 mem (p / 4) 0 1024 (p / 4 + i) ≡ 0
memset32-inside mem p i h =
    let inside : (leb (p / 4) (p / 4 + i) && ltb (p / 4 + i) (p / 4 + 1024)) ≡ true =
      ground arith in
    memset32_lem mem (p / 4) 0 1024 (p / 4 + i) ∙ rw inside

outside :
    (p r j : ℕ)
    → p % 4096 ≡ 0
    → r % 4096 ≡ 0
    → j < 1024
    → r / 4096 ≢ p / 4096
    → (leb (p / 4) (r / 4 + j) && ltb (r / 4 + j) (p / 4 + 1024)) ≡ false
outside p r j ap ar h ne = elim (Bool-cases (leb (p / 4) (r / 4 + j))) [
  | inr low ↦ rw low
  | inl high ↦ rw high (elim (Bool-cases (ltb (r / 4 + j) (p / 4 + 1024))) [
    | inr past ↦ rw past
    | inl before ↦
        let from : p / 4 ≤ r / 4 + j = leb→le _ _ high in
        let to : r / 4 + j < p / 4 + 1024 = ltb→lt _ _ before in absurd (ne (omega arith))
  ])
]

pub memset32-outside :
    (mem : ℕ → ℕ) (p r j : ℕ)
    → p % 4096 ≡ 0
    → r % 4096 ≡ 0
    → j < 1024
    → r / 4096 ≢ p / 4096
    → memset32 mem (p / 4) 0 1024 (r / 4 + j) ≡ mem (r / 4 + j)
memset32-outside mem p r j ap ar h ne =
    memset32_lem mem (p / 4) 0 1024 (r / 4 + j) ∙ rw (outside p r j ap ar h ne)
