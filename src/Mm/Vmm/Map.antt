-- ===== src/Mm/Vmm/Map.antt =====
-- `vmm_map`, `vmm_unmap` and `vmm_get_physical` of mm/vmm.c as operations on the function from page
-- numbers to entries.
use mathlib.Core.Option.{some-injective}
use mai_unix.Prelude.Words.{add32}
use mai_unix.Prelude.Faults.{>>=-eq-some}
use mai_unix.Prelude.{
  ℕ, ◌+◌, ◌*◌, ◌/◌, ◌%◌, ◌^◌, ◌<◌, bit_and, bit_or, ◌≡◌, refl, sym, ap, ◌∙◌, subst, ◌⊎◌, inl, inr,
  true, some, arith, ℕ_discrete, Bool-cases,
}
use mai_unix.Mm.Vmm.{
  page_present, page_write, page_user, Vmm, entry, write_entry, is_present, table_of, pd_idx,
  pt_idx, find_table, vmm_map, vmm_unmap, vmm_get_physical,
}
use mai_unix.Mm.Vmm.Space.{
  IsSpace, page_entry, page_entry-none, page_entry-some, IsFree, new_table_lem,
}
use mai_unix.Mm.Pmm.Alloc.{IsValid}
use mai_unix.Mm.Vmm.Entries.{dir_entry-high, dir_entry-IsPresent, page_entry-high}
use mai_unix.Mm.Vmm.Tables.{
  Updated, dir_kept, table_write-IsSpace, table_write-Updated, dir_at, table_added-IsSpace,
  leads_to, table_added-pages,
}

-- What `find_table` has made: entry `i` leads to the table, and no page has changed.
pub record Finds (s : Vmm) (pd i pt : ℕ) (s' : Vmm) : Type 0 where
  pub space : IsSpace s' pd
  pub valid : IsValid s'.pmm
  pub present : is_present (entry s' pd i) ≡ true
  pub leads : table_of (entry s' pd i) ≡ pt
  pub same_pages : (q : ℕ) → q < 2 ^ 20 → page_entry s' pd q ≡ page_entry s pd q
  pub same_kernel : s'.kernel_dir ≡ s.kernel_dir

-- `find_table` succeeds where there is the table already, or a free page to make it from.
find_table_lem :
    (s : Vmm) (pd i flags : ℕ)
    → IsValid s.pmm
    → IsSpace s pd
    → i < 1024
    → (is_present (entry s pd i) ≡ true) ⊎ IsFree s
    → (pt : ℕ) × (s' : Vmm) × (find_table s pd i flags ≡ some (pt, s')) × Finds s pd i pt s'
unfolding find_table
find_table_lem s pd i flags v a hi room = elim (Bool-cases (is_present (entry s pd i))) [
  | inl here ↦ (
    table_of (entry s pd i),
    s,
    rw here,
    record {
      space = a;
      valid = v;
      present = here;
      leads = refl;
      same_pages = λ q h. refl;
      same_kernel = refl;
    },
  )
  | inr gone ↦ elim room [
    | inl here ↦ absurd (cc (here, gone))
    | inr free ↦
        let (pt, s₁, got, t) = new_table_lem s v free in
        let e = bit_or (bit_or (bit_or pt page_present) page_write) (bit_and flags page_user) in
        let high = dir_entry-high pt flags in
        let on = dir_entry-IsPresent pt flags in
        let at = dir_at s pd i pt e s₁ a hi gone t high on in
        (
          pt,
          write_entry s₁ pd i e,
          rw gone (rw got),
          record {
            space = table_added-IsSpace s pd i pt e s₁ a hi gone t high on;
            valid = t.valid;
            present = ap is_present at ∙ on;
            leads = ap table_of at ∙ leads_to s pd i pt e s₁ a hi gone t high on;
            same_pages = table_added-pages s pd i pt e s₁ a hi gone t high on;
            same_kernel = t.same_kernel;
          },
        )
  ]
]

-- The entry that `vmm_map` writes.
abbrev pub mapped : ℕ → ℕ → ℕ
mapped phys flags = bit_or (bit_or (table_of phys) page_present) flags

-- `vmm_map` does not change which directory is the kernel's.
pub vmm_map-SameKernel :
    (s : Vmm) (pd virt phys flags : ℕ) {s' : Vmm}
    → IsValid s.pmm
    → IsSpace s pd
    → virt < 2 ^ 32
    → (is_present (entry s pd (pd_idx virt)) ≡ true) ⊎ IsFree s
    → vmm_map s pd virt phys flags ≡ some s'
    → s'.kernel_dir ≡ s.kernel_dir
unfolding vmm_map
vmm_map-SameKernel s pd virt phys flags v a small room e =
    let (pt, s₁, got, f) = find_table_lem s pd (pd_idx virt) flags v a (omega arith) room in
    let ((pt', s₂), got', e') = >>=-eq-some (find_table s pd (pd_idx virt) flags) _ e in
    let same : (pt', s₂) ≡ (pt, s₁) = some-injective _ _ (sym got' ∙ got) in
    ap (λ (r : Vmm). r.kernel_dir) (sym (some-injective _ _ e'))
    ∙ ap (λ (r : ℕ × Vmm). r.1.kernel_dir) same
    ∙ f.same_kernel

-- `vmm_map` in an address space whose table for the page exists, or for which there is a free page,
-- changes the entry of that one page to the frame with the flags, and the entry of no other page,
-- whether or not it had to make the table, which is there afterwards; the address space stays well
-- formed, and so does the page allocator.
pub vmm_map_lem :
    (s : Vmm) (pd virt phys flags : ℕ)
    → IsValid s.pmm
    → IsSpace s pd
    → virt < 2 ^ 32
    → (is_present (entry s pd (pd_idx virt)) ≡ true) ⊎ IsFree s
    → (s' : Vmm) × (vmm_map s pd virt phys flags ≡ some s')
      × IsSpace s' pd
      × IsValid s'.pmm
      × (is_present (entry s' pd (pd_idx virt)) ≡ true)
      × Updated (page_entry s pd) (virt / 4096) (mapped phys flags) (page_entry s' pd)
unfolding vmm_map
vmm_map_lem s pd virt phys flags v a small room =
    let i = pd_idx virt in
    let (pt, s₁, got, f) = find_table_lem s pd i flags v a (omega arith) room in
    let j = pt_idx virt in
    let new = mapped phys flags in
    let s' = write_entry s₁ (table_of (entry s₁ pd i)) j new in
    let place : i * 1024 + j ≡ virt / 4096 = omega arith in
    let changed = table_write-Updated s₁ pd i j new f.space (omega arith) (omega arith) f.present in
    (
      s',
      rw got (rw f.leads),
      table_write-IsSpace s₁ pd i j new f.space (omega arith) (omega arith) f.present,
      f.valid,
      ap is_present
            (dir_kept s₁ pd i j new f.space (omega arith) (omega arith) f.present i (omega arith))
          ∙ f.present,
      λ q h. changed q h ∙ rw place (rw (f.same_pages q h)),
    )

-- `vmm_unmap` clears the entry of one page and changes no other, whether or not there is a table.
vmm_unmap_lem :
    (s : Vmm) (pd virt : ℕ)
    → IsSpace s pd
    → virt < 2 ^ 32
    → IsSpace (vmm_unmap s pd virt) pd
      × Updated (page_entry s pd) (virt / 4096) 0 (page_entry (vmm_unmap s pd virt) pd)
unfolding vmm_unmap
vmm_unmap_lem s pd virt a small =
    let i = pd_idx virt in
    let j = pt_idx virt in
    let place : i * 1024 + j ≡ virt / 4096 = omega arith in
    elim (Bool-cases (is_present (entry s pd i))) [
      | inl here ↦ rw here (
        table_write-IsSpace s pd i j 0 a (omega arith) (omega arith) here,
        λ q h. table_write-Updated s pd i j 0 a (omega arith) (omega arith) here q h ∙ rw place,
      )
      | inr gone ↦ rw gone (
        a,
        λ q h. elim (ℕ_discrete q (virt / 4096)) [
          | yes e ↦
              let at : q / 1024 ≡ i = omega arith in
              page_entry-none s pd q (ap (λ (k : ℕ). is_present (entry s pd k)) at ∙ gone)
              ∙ ground arith
          | no ne ↦ ground arith
        ],
      )
    ]

-- What `vmm_get_physical` reads.
pub vmm_get_physical-page_entry :
    (s : Vmm) (pd virt : ℕ)
    → is_present (entry s pd (virt / 4096 / 1024)) ≡ true
    → vmm_get_physical s pd virt ≡ add32 (table_of (page_entry s pd (virt / 4096))) (virt % 4096)
unfolding vmm_get_physical
vmm_get_physical-page_entry s pd virt here =
    let at : pd_idx virt ≡ virt / 4096 / 1024 = omega arith in
    rw at (rw here (rw (page_entry-some s pd (virt / 4096) here)))

-- After `vmm_map` of an address below 4 GB, every address of its page is translated to the same
-- place of the frame.
pub vmm_get_physical-vmm_map :
    (s : Vmm) (pd virt phys flags addr : ℕ)
    → IsValid s.pmm
    → IsSpace s pd
    → virt < 2 ^ 32
    → phys < 2 ^ 32
    → flags < 4096
    → (is_present (entry s pd (pd_idx virt)) ≡ true) ⊎ IsFree s
    → addr / 4096 ≡ virt / 4096
    → (s' : Vmm) × (vmm_map s pd virt phys flags ≡ some s')
      × (vmm_get_physical s' pd addr ≡ phys / 4096 * 4096 + addr % 4096)
vmm_get_physical-vmm_map s pd virt phys flags addr v a small low few room page =
    let (s', got, space, valid, there, changed) = vmm_map_lem s pd virt phys flags v a small room in
    let at : pd_idx virt ≡ addr / 4096 / 1024 = omega arith in
    let here : is_present (entry s' pd (addr / 4096 / 1024)) ≡ true =
      subst (λ (k : ℕ). is_present (entry s' pd k) ≡ true) at there in
    let same : page_entry s' pd (addr / 4096) ≡ mapped phys flags =
      changed (addr / 4096) (omega arith) ∙ ground arith in
    let exact : add32 (table_of (mapped phys flags)) (addr % 4096)
        ≡ phys / 4096 * 4096 + addr % 4096 =
      omega (arith, page_entry-high phys flags few) in
    (
      s',
      got,
      vmm_get_physical-page_entry s' pd addr here
          ∙ ap (λ (e : ℕ). add32 (table_of e) (addr % 4096)) same
          ∙ exact,
    )
