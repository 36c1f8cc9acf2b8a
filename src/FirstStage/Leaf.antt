-- ===== src/FirstStage/Leaf.antt =====
-- What the checks on a leaf entry in iommu_ref_model/libiommu/src/iommu_two_stage_trans.c let through.
use riscv_iommu_dv_model.Prelude.{
  ℕ, ◌%◌, ◌/◌, ◌≤◌, ◌<◌, ◌^◌, Bool, true, false, not, ◌&&◌, ◌||◌, ◌==◌, ◌≡◌, ◌≢◌, ◌⊎◌, inl, inr, ap,
  ◌∙◌, refl, arith, or-intro,
}
use riscv_iommu_dv_model.Iommu.Pte.{Pte}
use riscv_iommu_dv_model.Iommu.Regs.{Capabilities}
use riscv_iommu_dv_model.PageTable.{
  Format, top_of, pte_of, page_size_at, misaligned, bad_napot, invalid_pte, is_leaf, lacks,
}
use riscv_iommu_dv_model.PageTable.Align.{misaligned_iff}
use riscv_iommu_dv_model.PageTable.Checks.{
  IsWellFormed, Permits, IsWide, pte_of-IsWide, invalid_pte-IsWellFormed, lacks-Permits,
  is_leaf_lem, bad_napot_lem,
}
use riscv_iommu_dv_model.SecondStage.{mapping_of}
use riscv_iommu_dv_model.SecondStage.Leaf.{IsTarget, span, mapping_of-IsTarget, page_number}
use riscv_iommu_dv_model.FirstStage.{IovaAccess, privilege_denies, is_marked, vs_mapping_of}

-- What a leaf entry must be for an access to be granted: well formed, with the permissions that the access
-- needs, of its privilege, aligned, and marked, or about to be; `writable` is whether the second stage
-- lets the entry be written.
pub record VsGrants (c : Capabilities) (q : IovaAccess) (f : Format) (i : ℕ) (writable : Bool)
    (p : Pte) : Type 0 where
  pub level : i ≤ top_of f
  pub well_formed : IsWellFormed c p
  pub executes_or_reads : (p.r ≡ 1) ⊎ (p.x ≡ 1)
  pub permits : q.check_access_perms ≡ true → Permits q.is_read q.is_write q.is_exec p
  pub user_mode : q.priv ≡ 0 → p.u ≢ 0
  pub supervisor_mode : q.priv ≡ 1 → p.u ≡ 1 → (q.is_exec ≡ false) × (q.sum ≡ true)
  pub aligned : p.ppn % (page_size_at f i / 4096) ≡ 0
  pub napot : (p.n ≡ 0) ⊎ ((i ≡ 0) × (p.ppn % 16 ≡ 8))
  pub accessed : (p.a ≡ 1) ⊎ ((q.sade ≡ true) × (writable ≡ true))
  pub dirty : q.is_write ≡ true → p.w ≡ 1 → (p.d ≡ 1) ⊎ ((q.sade ≡ true) × (writable ≡ true))

user_lem : (v : ℕ) (u : ℕ) → (v == 0 && u == 0) ≡ false → v ≡ 0 → u ≢ 0
user_lem v u h e = ground arith

exec_lem : (b : Bool) (v u : ℕ) → (b && v == 1 && u == 1) ≡ false → v ≡ 1 → u ≡ 1 → b ≡ false
exec_lem b v u h e k = ground arith

sum_lem :
    (b s : Bool) (v u : ℕ)
    → (v == 1 && not b && not s && u == 1) ≡ false
    → b ≡ false
    → v ≡ 1
    → u ≡ 1
    → s ≡ true
sum_lem b s v u h x e k = ground arith

module _ (q : IovaAccess) (p : Pte) where
  privilege_lem :
      privilege_denies q p ≡ false
      → (q.priv ≡ 0 → p.u ≢ 0) × (q.priv ≡ 1 → p.u ≡ 1 → (q.is_exec ≡ false) × (q.sum ≡ true))
  unfolding privilege_denies
  privilege_lem h =
      let (h1, h2) =
        or-intro ((q.priv == 0 && p.u == 0) || (q.is_exec && q.priv == 1 && p.u == 1))
          (q.priv == 1 && not q.is_exec && not q.sum && p.u == 1) h in
      let (h3, h4) = or-intro (q.priv == 0 && p.u == 0) (q.is_exec && q.priv == 1 && p.u == 1) h1 in
      (
        user_lem q.priv p.u h3,
        λ e k.
            let x = exec_lem q.is_exec q.priv p.u h4 e k in
            (x, sum_lem q.is_exec q.sum q.priv p.u h2 x e k),
      )

  marked_lem :
      {B : Type 0}
      → IsWide p
      → (is_marked q p ≡ true) ⊎ B
      → ((p.a ≡ 1) ⊎ B) × (q.is_write ≡ true → p.w ≡ 1 → (p.d ≡ 1) ⊎ B)
  unfolding is_marked
  marked_lem h (inl y) = (inl (ground arith), λ e k. inl (ground arith))
  marked_lem h (inr y) = (inr y, λ e k. inr y)

module _ (c : Capabilities) (q : IovaAccess) (f : Format) (i : ℕ) (writable : Bool) (raw : ℕ) where
  pub VsGrants-intro :
      i ≤ top_of f
      → invalid_pte c (pte_of raw) ≡ false
      → (not (i == 0) && not ((pte_of raw).n == 0)) ≡ false
      → is_leaf (pte_of raw) ≡ true
      → lacks q.check_access_perms q.is_read q.is_write q.is_exec (pte_of raw) ≡ false
      → privilege_denies q (pte_of raw) ≡ false
      → misaligned f i raw ≡ false
      → bad_napot i (pte_of raw) ≡ false
      → (is_marked q (pte_of raw) ≡ true) ⊎ ((q.sade ≡ true) × (writable ≡ true))
      → VsGrants c q f i writable (pte_of raw)
  VsGrants-intro l valid top leaf perm privilege align napot marked =
      let p = pte_of raw in
      let wide = pte_of-IsWide raw in
      let (a, d) = marked_lem q p wide marked in
      let (u, s) = privilege_lem q p privilege in
      record {
        level = l;
        well_formed = invalid_pte-IsWellFormed c p wide valid;
        executes_or_reads = is_leaf_lem p leaf;
        permits = lacks-Permits q.check_access_perms q.is_read q.is_write q.is_exec p wide perm;
        user_mode = u;
        supervisor_mode = s;
        aligned =
            ap (λ n. n % (page_size_at f i / 4096)) (page_number raw)
            ∙ (misaligned_iff f i raw l).0 align;
        napot = bad_napot_lem i p top napot;
        accessed = a;
        dirty = d;
      }

pub vs_mapping_of-IsTarget :
    (f : Format) (i iova g : ℕ) (p : Pte)
    → i ≤ top_of f
    → p.ppn < 2 ^ 44
    → (p.n ≡ 0) ⊎ (i ≡ 0)
    → IsTarget (vs_mapping_of iova (page_size_at f i) g p).pa (span f i p) p iova
unfolding vs_mapping_of mapping_of
vs_mapping_of-IsTarget f i iova g p h b k = mapping_of-IsTarget f i iova p h b k

pub page_sz-vs_mapping_of :
    (f : Format) (i iova g : ℕ) (p : Pte)
    → (vs_mapping_of iova (page_size_at f i) g p).page_sz ≡ page_size_at f i
unfolding vs_mapping_of
page_sz-vs_mapping_of f i iova g p = refl
