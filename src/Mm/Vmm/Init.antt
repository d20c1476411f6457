-- ===== src/Mm/Vmm/Init.antt =====
-- The address space that `vmm_init` of mm/vmm.c sets up.
use mai_unix.Prelude.{
  ℕ, ◌*◌, ◌/◌, ◌%◌, ◌^◌, ◌≤◌, ◌<◌, bit_or, ◌≡◌, refl, sym, ap, ◌∙◌, subst, ◌≢◌, inr, true, false,
  some, arith, ℕ_discrete, ltb, ◌==◌, if◌then◌else◌,
}
use mai_unix.Mm.Vmm.Entries.{page_entry-high}
use mai_unix.Prelude.Words.{add32}
use mai_unix.Mm.Pmm.{page_size}
use mai_unix.Mm.Pmm.Alloc.{IsValid}
use mai_unix.Mm.Pmm.Bitmap.{bit_of}
use mai_unix.Mm.Vmm.{
  page_present, page_write, Vmm, entry, is_present, table_of, new_table, vmm_get_physical,
  vmm_switch, identity_loop, vmm_init,
}
use mai_unix.Mm.Vmm.Space.{
  frame, IsSpace, page_entry, page_entry-none, IsFree, NewTable, new_table_lem,
}
use mai_unix.Mm.Vmm.Map.{mapped, vmm_get_physical-page_entry}
use mai_unix.Mm.Vmm.Identity.{identical, Mapping, identity_loop-Mapping}

-- The empty directory of the kernel.
module _ (s s' : Vmm) (dir : ℕ) (t : NewTable s dir s') where
  abbrev in_place : Vmm
  in_place = record s' { kernel_dir = dir }

  none_present : (i : ℕ) → i < 1024 → is_present (entry in_place dir i) ≡ false
  none_present i lt = ap is_present (t.cleared i lt)

  none_leads : {A : Type 0} (i : ℕ) → i < 1024 → is_present (entry in_place dir i) ≡ true → A
  none_leads i lt e = absurd (cc (none_present i lt, e))

  new_directory-IsSpace : IsSpace in_place dir
  new_directory-IsSpace = record {
    aligned = t.table_aligned;
    dir_used = t.now_used (frame dir) ∙ ground arith;
    tables_used = λ i lt e. none_leads i lt e;
    not_dir = λ i lt e. none_leads i lt e;
    apart = λ i j lt lt' e e'. none_leads i lt e;
  }

  -- Of two free pages one is left.
  one_left :
      (p q : ℕ)
      → p < s.pmm.total_pages
      → q < s.pmm.total_pages
      → bit_of s.pmm.bitmap p ≡ 0
      → bit_of s.pmm.bitmap q ≡ 0
      → p ≢ q
      → IsFree in_place
  one_left p q p_in q_in p_free q_free ne = elim (ℕ_discrete p (frame dir)) [
    | yes e ↦ (q, rw (t.same_total) q_in, t.now_used q ∙ left q (λ eq. ne (e ∙ sym eq)) q_free)
    | no ne' ↦ (p, rw (t.same_total) p_in, t.now_used p ∙ left p ne' p_free)
  ]
    where
      left :
          (k : ℕ)
          → k ≢ frame dir
          → bit_of s.pmm.bitmap k ≡ 0
          → (if k == frame dir then 1 else bit_of s.pmm.bitmap k) ≡ 0
      left k other free =
          let test : (k == frame dir) ≡ false = ground (arith, other) in rw (test) free

  new_directory-Mapping :
      (p q : ℕ)
      → p < s.pmm.total_pages
      → q < s.pmm.total_pages
      → bit_of s.pmm.bitmap p ≡ 0
      → bit_of s.pmm.bitmap q ≡ 0
      → p ≢ q
      → Mapping 0 dir in_place
  new_directory-Mapping p q p_in q_in p_free q_free ne = record {
    valid = t.valid;
    space = new_directory-IsSpace;
    room = inr (one_left p q p_in q_in p_free q_free ne);
    table_there = λ more. absurd (omega arith);
    identity =
        λ k h. page_entry-none in_place dir k (none_present (k / 1024) (omega arith)) ∙ unmapped k;
    same_dir = refl;
  }
    where
      unmapped : (k : ℕ) → 0 ≡ identical 0 k
      unmapped k = let test : ltb k 0 ≡ false = ground arith in rw (test) refl

vmm_init-eq :
    (s s₁ s₂ : Vmm) (dir : ℕ)
    → new_table s ≡ some (dir, s₁)
    → identity_loop 1024 0 (record s₁ { kernel_dir = dir }) ≡ some s₂
    → vmm_init s ≡ some (vmm_switch s₂ s₂.kernel_dir)
unfolding vmm_init
vmm_init-eq s s₁ s₂ dir got loop = rw (got) (rw (loop) refl)

-- A mapped page has its table, and its addresses are translated to themselves.
Mapping-identity :
    (dir : ℕ) (s : Vmm)
    → Mapping 1024 dir s
    → (addr : ℕ) → addr < 2 ^ 22
    → vmm_get_physical s s.kernel_dir addr ≡ addr
Mapping-identity dir s m addr low =
    let page = addr / 4096 in
    let flags = bit_or page_present page_write in
    let within : ltb page 1024 ≡ true = ground (arith, low) in
    let first : page / 1024 ≡ 0 = omega arith in
    let there : is_present (entry s s.kernel_dir (page / 1024)) ≡ true =
      subst (λ (k : ℕ). is_present (entry s s.kernel_dir k) ≡ true) (sym first)
        (m.table_there (omega arith)) in
    let same : page_entry s s.kernel_dir page ≡ mapped (page * page_size) flags =
      m.identity page (omega arith) ∙ rw (within) refl in
    vmm_get_physical-page_entry s s.kernel_dir addr there
    ∙ ap (λ (e : ℕ). add32 (table_of e) (addr % 4096)) same
    ∙ translated addr low (mapped (page * page_size) flags)
        (page_entry-high (page * page_size) flags (omega arith))
  where
    translated :
        (addr : ℕ)
        → addr < 2 ^ 22
        → (e : ℕ) → e / 4096 ≡ addr / 4096 * page_size / 4096
        → add32 (table_of e) (addr % 4096) ≡ addr
    translated addr low e at = omega arith

Mapping-rest :
    (dir : ℕ) (s : Vmm)
    → Mapping 1024 dir s
    → (page : ℕ) → 1024 ≤ page
    → page < 2 ^ 20
    → page_entry s s.kernel_dir page ≡ 0
Mapping-rest dir s m page beyond h =
    let outside : ltb page 1024 ≡ false = ground (arith, beyond) in
    m.identity page h ∙ rw (outside) refl

-- The switch changes no table.
switched-IsSpace : (s : Vmm) (d e : ℕ) → IsSpace s d → IsSpace (vmm_switch s e) d
unfolding vmm_switch
switched-IsSpace s d e a = record {
  aligned = a.aligned;
  dir_used = a.dir_used;
  tables_used = a.tables_used;
  not_dir = a.not_dir;
  apart = a.apart;
}

-- What `vmm_init` has set up: the kernel's directory, which is the current one, is a well formed
-- address space that translates every address below 4 MB to itself and maps no page from there on.
pub record Booted (s : Vmm) : Type 0 where
  pub space : IsSpace s s.kernel_dir
  pub valid : IsValid s.pmm
  pub current : s.current_dir ≡ s.kernel_dir
  pub same_address : (addr : ℕ) → addr < 2 ^ 22 → vmm_get_physical s s.kernel_dir addr ≡ addr
  pub unmapped : (page : ℕ) → 1024 ≤ page → page < 2 ^ 20 → page_entry s s.kernel_dir page ≡ 0

switched-physical :
    (s : Vmm) (e addr : ℕ)
    → vmm_get_physical (vmm_switch s e) s.kernel_dir addr ≡ vmm_get_physical s s.kernel_dir addr
unfolding vmm_switch vmm_get_physical
switched-physical s e addr = refl

switched-page :
    (s : Vmm) (e page : ℕ)
    → page_entry (vmm_switch s e) s.kernel_dir page ≡ page_entry s s.kernel_dir page
unfolding vmm_switch page_entry
switched-page s e page = refl

Mapping-Booted : (dir : ℕ) (s : Vmm) → Mapping 1024 dir s → Booted (vmm_switch s s.kernel_dir)
unfolding vmm_switch
Mapping-Booted dir s m = record {
  space = switched-IsSpace s s.kernel_dir s.kernel_dir m.space;
  valid = m.valid;
  current = refl;
  same_address =
      λ addr low. switched-physical s s.kernel_dir addr ∙ Mapping-identity dir s m addr low;
  unmapped =
      λ page beyond h. switched-page s s.kernel_dir page ∙ Mapping-rest dir s m page beyond h;
}

-- Where two pages are free, `vmm_init` goes through. Then the kernel's directory is the current one,
-- a well formed address space that translates every address below 4 MB to itself and in which no page
-- from 4 MB on is mapped; and the page allocator is as well formed as before.
pub vmm_init_lem :
    (s : Vmm) (p q : ℕ)
    → IsValid s.pmm
    → p < s.pmm.total_pages
    → q < s.pmm.total_pages
    → bit_of s.pmm.bitmap p ≡ 0
    → bit_of s.pmm.bitmap q ≡ 0
    → p ≢ q
    → (s' : Vmm) × (vmm_init s ≡ some s') × Booted s'
vmm_init_lem s p q v p_in q_in p_free q_free ne =
    let (dir, s₁, got, t) = new_table_lem s v (p, p_in, p_free) in
    let start = new_directory-Mapping s s₁ dir t p q p_in q_in p_free q_free ne in
    let (s₂, loop, m) =
      identity_loop-Mapping 1024 0 dir (record s₁ { kernel_dir = dir }) refl start in
    (vmm_switch s₂ s₂.kernel_dir, vmm_init-eq s s₁ s₂ dir got loop, Mapping-Booted dir s₂ m)
