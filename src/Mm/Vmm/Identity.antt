-- ===== src/Mm/Vmm/Identity.antt =====
-- The loop of `vmm_init` of mm/vmm.c, which maps the first pages to themselves.
use mai_unix.Prelude.{
  ℕ, zero, suc, ◌+◌, ◌*◌, ◌/◌, ◌^◌, ◌<◌, bit_or, ◌≡◌, refl, sym, ap, ◌∙◌, subst, ◌⊎◌, inl, true,
  false, some, arith, ℕ_discrete, ltb, ◌==◌, if◌then◌else◌,
}
use mai_unix.Mm.Pmm.{page_size}
use mai_unix.Mm.Pmm.Alloc.{IsValid}
use mai_unix.Mm.Vmm.{
  page_present, page_write, Vmm, entry, is_present, pd_idx, vmm_map, identity_loop,
}
use mai_unix.Mm.Vmm.Space.{IsSpace, page_entry, IsFree}
use mai_unix.Mm.Vmm.Map.{mapped, vmm_map-SameKernel, vmm_map_lem}

-- The pages below `n` are mapped to themselves, and no others are mapped.
abbrev pub identical : ℕ → ℕ → ℕ
identical n q = if ltb q n then mapped (q * page_size) (bit_or page_present page_write) else 0

abbrev pub Identity : ℕ → Vmm → Type 0
Identity n s = (q : ℕ) → q < 2 ^ 20 → page_entry s s.kernel_dir q ≡ identical n q

identical-step :
    (i q old new : ℕ)
    → old ≡ identical i q
    → new ≡ (
        if q == i * page_size / 4096
        then mapped (i * page_size) (bit_or page_present page_write)
        else old)
    → new ≡ identical (i + 1) q
identical-step i q old new before written = elim (ℕ_discrete q i) [
  | yes e ↦
      let here : (q == i * page_size / 4096) ≡ true = ground (arith, e) in
      let within : ltb q (i + 1) ≡ true = ground (arith, e) in
      written
      ∙ rw (here, within)
          (ap (λ (t : ℕ). mapped (t * page_size) (bit_or page_present page_write)) (sym e))
  | no ne ↦
      let apart : (q == i * page_size / 4096) ≡ false = ground (arith, ne) in
      let alike : ltb q (i + 1) ≡ ltb q i = ground (arith, ne) in written ∙ rw (apart, alike) before
]

-- There is the table for the first pages, or a page to make it from.
abbrev pub HasRoom : Vmm → Type 0
HasRoom s = (is_present (entry s s.kernel_dir 0) ≡ true) ⊎ IsFree s

pub record Mapping (n dir : ℕ) (s : Vmm) : Type 0 where
  pub valid : IsValid s.pmm
  pub space : IsSpace s s.kernel_dir
  pub room : HasRoom s
  pub table_there : 0 < n → is_present (entry s s.kernel_dir 0) ≡ true
  pub identity : Identity n s
  pub same_dir : s.kernel_dir ≡ dir

identity_step :
    (i dir : ℕ) (s : Vmm)
    → i < 1024
    → Mapping i dir s
    → (s' : Vmm) × (vmm_map s s.kernel_dir
          (i * page_size)
          (i * page_size)
          (bit_or page_present page_write)
        ≡ some s')
      × Mapping (i + 1) dir s'
identity_step i dir s lt m =
    let flags = bit_or page_present page_write in
    let first : pd_idx (i * page_size) ≡ 0 = omega arith in
    let room =
      subst (λ (k : ℕ). (is_present (entry s s.kernel_dir k) ≡ true) ⊎ IsFree s) (sym first)
        m.room in
    let (s', got, space, valid, there, changed) =
      vmm_map_lem s s.kernel_dir (i * page_size) (i * page_size) flags m.valid m.space (omega arith)
        room in
    let same =
      vmm_map-SameKernel s s.kernel_dir (i * page_size) (i * page_size) flags m.valid m.space
        (omega arith) room got in
    let present : is_present (entry s' s.kernel_dir 0) ≡ true =
      subst (λ (k : ℕ). is_present (entry s' s.kernel_dir k) ≡ true) first there in
    (
      s',
      got,
      record {
        valid = valid;
        space = subst (IsSpace s') (sym same) space;
        room = inl (subst (λ (d : ℕ). is_present (entry s' d 0) ≡ true) (sym same) present);
        table_there =
            λ more. (subst (λ (d : ℕ). is_present (entry s' d 0) ≡ true) (sym same) present);
        identity =
            subst (λ (d : ℕ). (q : ℕ) → q < 2 ^ 20 → page_entry s' d q ≡ identical (i + 1) q)
              (sym same) (λ q h. identical-step i q _ _ (m.identity q h) (changed q h));
        same_dir = same ∙ m.same_dir;
      },
    )

pub identity_loop-Mapping :
    (n i dir : ℕ) (s : Vmm)
    → i + n ≡ 1024
    → Mapping i dir s
    → (s' : Vmm) × (identity_loop n i s ≡ some s') × Mapping 1024 dir s'
unfolding identity_loop
identity_loop-Mapping zero i dir s all m =
    (s, refl, subst (λ (k : ℕ). Mapping k dir s) (omega arith) m)
identity_loop-Mapping (suc n) i dir s all m =
    let (s', got, m') = identity_step i dir s (omega arith) m in
    let (s'', got', m'') = identity_loop-Mapping n (i + 1) dir s' (omega arith) m' in
    (s'', rw (got) got', m'')
