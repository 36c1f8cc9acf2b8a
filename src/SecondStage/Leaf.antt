-- ===== src/SecondStage/Leaf.antt =====
-- What the checks on a leaf entry in iommu_ref_model/libiommu/src/iommu_second_stage_trans.c let through.
use riscv_iommu_dv_model.Prelude.{
  ℕ, zero, suc, ◌+◌, ◌*◌, ◌/◌, ◌%◌, ◌^◌, ◌≤◌, ◌<◌, true, false, not, ◌&&◌, ◌==◌, ◌≡◌, refl, ap, ◌∙◌,
  arith, inl, inr, ◌⊎◌, if◌then◌else◌, get_bits, Bool-cases,
}
use riscv_iommu_dv_model.Iommu.Pte.{Pte}
use riscv_iommu_dv_model.Iommu.Regs.{Capabilities}
use riscv_iommu_dv_model.PageTable.{
  Format, sv32, sv39, sv48, sv57, top_of, pte_of, page_size_at, misaligned, bad_napot, invalid_pte,
  is_leaf, lacks, napot_pte,
}
use riscv_iommu_dv_model.PageTable.Physical.{physical_lem}
use riscv_iommu_dv_model.PageTable.Align.{misaligned_iff}
use riscv_iommu_dv_model.PageTable.Checks.{
  IsWellFormed, Permits, pte_of-IsWide, invalid_pte-IsWellFormed, lacks-Permits, is_leaf_lem,
  bad_napot_lem, present_lem, IsWide,
}
use riscv_iommu_dv_model.SecondStage.{GuestAccess, mapping_of, is_settled}

page_bits : Format → ℕ → ℕ
page_bits sv32 zero = 12
page_bits sv32 (suc i) = 22
page_bits sv39 i = 12 + 9 * i
page_bits sv48 i = 12 + 9 * i
page_bits sv57 i = 12 + 9 * i

page_size_at_lem :
    (f : Format) (i : ℕ)
    → i ≤ top_of f
    → (page_size_at f i ≡ 2 ^ page_bits f i) × (page_bits f i ≤ 64)
unfolding page_size_at top_of page_bits
page_size_at_lem sv32 zero h = (refl, omega arith)
page_size_at_lem sv32 (suc zero) h = (refl, omega arith)
page_size_at_lem sv32 (suc (suc i)) h = absurd (omega arith)
page_size_at_lem f zero h = (refl, omega arith)
page_size_at_lem sv39 (suc zero) h = (refl, omega arith)
page_size_at_lem sv39 (suc (suc zero)) h = (refl, omega arith)
page_size_at_lem sv39 (suc (suc (suc i))) h = absurd (omega arith)
page_size_at_lem sv48 (suc zero) h = (refl, omega arith)
page_size_at_lem sv48 (suc (suc zero)) h = (refl, omega arith)
page_size_at_lem sv48 (suc (suc (suc zero))) h = (refl, omega arith)
page_size_at_lem sv48 (suc (suc (suc (suc i)))) h = absurd (omega arith)
page_size_at_lem sv57 (suc zero) h = (refl, omega arith)
page_size_at_lem sv57 (suc (suc zero)) h = (refl, omega arith)
page_size_at_lem sv57 (suc (suc (suc zero))) h = (refl, omega arith)
page_size_at_lem sv57 (suc (suc (suc (suc zero)))) h = (refl, omega arith)
page_size_at_lem sv57 (suc (suc (suc (suc (suc i))))) h = absurd (omega arith)

-- The bytes that one entry maps: its page, or 64 KiB for a NAPOT entry.
abbrev pub span : Format → (i : ℕ) → Pte → ℕ
span f i p = if p.n == 0 then page_size_at f i else 65536

-- The address that an entry maps `gpa` to: the entry's base, and the offset in what it maps.
abbrev pub IsTarget : (pa span : ℕ) → Pte → (gpa : ℕ) → Type 0
IsTarget pa span p gpa = pa ≡ p.ppn * 4096 / span * span + gpa % span

napot_offset :
    (ppn gpa : ℕ)
    → (ppn / 16 * 16 + gpa / 4096 % 16) * 4096 / 4096 * 4096 + gpa % 4096
      ≡ ppn * 4096 / 65536 * 65536 + gpa % 65536
napot_offset ppn gpa = omega arith

pub mapping_of-IsTarget :
    (f : Format) (i gpa : ℕ) (p : Pte)
    → i ≤ top_of f
    → p.ppn < 2 ^ 44
    → (p.n ≡ 0) ⊎ (i ≡ 0)
    → IsTarget (mapping_of gpa (page_size_at f i) p).pa (span f i p) p gpa
unfolding mapping_of napot_pte page_size_at
mapping_of-IsTarget f i gpa p h b k =
    let (e, l) = page_size_at_lem f i h in
    elim (Bool-cases (p.n == 0)) [
      | inl y ↦ simp y (rw e (physical_lem (page_bits f i) p.ppn gpa l (omega arith)))
      | inr n ↦
          let z : i ≡ 0 = ground arith in
          simp n (
            rw z (
              physical_lem 12 (p.ppn / 16 * 16 + gpa / 4096 % 16) gpa (omega arith) (omega arith)
              ∙ napot_offset p.ppn gpa))
    ]

-- What a leaf entry must be for an access to be granted: valid, for user mode, with the permissions
-- that the access needs, aligned, and marked, or about to be.
pub record Grants (c : Capabilities) (q : GuestAccess) (f : Format) (i : ℕ) (p : Pte) : Type 0 where
  pub level : i ≤ top_of f
  pub well_formed : IsWellFormed c p
  pub executes_or_reads : (p.r ≡ 1) ⊎ (p.x ≡ 1)
  pub user : p.u ≡ 1
  pub permits : q.check_access_perms ≡ true → Permits q.is_read q.is_write q.is_exec p
  pub aligned : p.ppn % (page_size_at f i / 4096) ≡ 0
  pub napot : (p.n ≡ 0) ⊎ ((i ≡ 0) × (p.ppn % 16 ≡ 8))
  pub accessed : (p.a ≡ 1) ⊎ (q.gade ≡ true)
  pub dirty : q.is_write ≡ true → p.w ≡ 1 → (p.d ≡ 1) ⊎ (q.gade ≡ true)

module _ (q : GuestAccess) (p : Pte) where
  settled_lem :
      IsWide p
      → (is_settled q p ≡ true) ⊎ (q.gade ≡ true)
      → ((p.a ≡ 1) ⊎ (q.gade ≡ true)) × (q.is_write ≡ true → p.w ≡ 1 → (p.d ≡ 1) ⊎ (q.gade ≡ true))
  unfolding is_settled
  settled_lem h (inl y) = (ground arith, λ e k. ground arith)
  settled_lem h (inr y) = (inr y, λ e k. inr y)

pub page_number : (raw : ℕ) → (pte_of raw).ppn ≡ get_bits 53 10 raw
unfolding pte_of
page_number raw = refl

module _ (c : Capabilities) (q : GuestAccess) (f : Format) (i raw : ℕ) where
  pub Grants-intro :
      i ≤ top_of f
      → invalid_pte c (pte_of raw) ≡ false
      → (not (i == 0) && not ((pte_of raw).n == 0)) ≡ false
      → is_leaf (pte_of raw) ≡ true
      → lacks q.check_access_perms q.is_read q.is_write q.is_exec (pte_of raw) ≡ false
      → ((pte_of raw).u == 0) ≡ false
      → misaligned f i raw ≡ false
      → bad_napot i (pte_of raw) ≡ false
      → (is_settled q (pte_of raw) ≡ true) ⊎ (q.gade ≡ true)
      → Grants c q f i (pte_of raw)
  Grants-intro l valid top leaf perm user align napot settled =
      let p = pte_of raw in
      let wide = pte_of-IsWide raw in
      let (a, d) = settled_lem q p wide settled in
      record {
        level = l;
        well_formed = invalid_pte-IsWellFormed c p wide valid;
        executes_or_reads = is_leaf_lem p leaf;
        user = present_lem p.u wide.u user;
        permits = lacks-Permits q.check_access_perms q.is_read q.is_write q.is_exec p wide perm;
        aligned =
            ap (λ n. n % (page_size_at f i / 4096)) (page_number raw)
            ∙ (misaligned_iff f i raw l).0 align;
        napot = bad_napot_lem i p top napot;
        accessed = a;
        dirty = d;
      }
