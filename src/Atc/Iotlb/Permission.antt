-- ===== src/Atc/Iotlb/Permission.antt =====
-- `lookup_ioatc_iotlb` of iommu_atc.c against the rights that the matched entry grants.
use riscv_iommu_dv_model.Prelude.{
  ℕ, ◌≡◌, ◌≢◌, ◌↔◌, inl, inr, some, none, false, arith, Option-cases, Bool-cases, find, ◌∙◌, sym,
  ap,
}
use riscv_iommu_dv_model.Iommu.{Iommu}
use riscv_iommu_dv_model.Iommu.Caches.{Tlb}
use riscv_iommu_dv_model.Iommu.Pte.{Pte}
use riscv_iommu_dv_model.Atc.Iotlb.{
  Tags, Request, Translation, miss, hit, tlb_matches, first_stage_denies, second_stage_denies,
  dirty_needed, decide_hit, lookup_ioatc_iotlb, translation_of,
}

-- The first-stage rights of an entry allow the request. U_MODE is 0 and S_MODE is 1; a check of
-- U and SUM applies only if the first stage is active (PSCV is 1).
pub record FirstStageAllows (q : Request) (pscv : ℕ) (e : Tlb) : Type 0 where
  exec_ok : q.check_access_perms ≡ 1 → q.is_exec ≢ 0 → e.vs_x ≢ 0
  read_ok : q.check_access_perms ≡ 1 → q.is_read ≢ 0 → e.vs_r ≢ 0
  write_ok : q.check_access_perms ≡ 1 → q.is_write ≢ 0 → e.vs_w ≢ 0
  user_page : pscv ≡ 1 → q.priv ≡ 0 → e.u ≢ 0
  no_user_code : pscv ≡ 1 → q.priv ≡ 1 → q.is_exec ≢ 0 → e.u ≢ 1
  user_data : pscv ≡ 1 → q.priv ≡ 1 → q.is_exec ≡ 0 → q.sum ≡ 0 → e.u ≢ 1

-- The second-stage rights do, and a store finds both D bits set.
pub record SecondStageAllows (q : Request) (e : Tlb) : Type 0 where
  exec_ok : q.is_exec ≢ 0 → e.g_x ≢ 0
  read_ok : q.is_read ≢ 0 → e.g_r ≢ 0
  write_ok : q.is_write ≢ 0 → e.g_w ≢ 0
  dirty : q.is_write ≡ 1 → (e.vs_d ≢ 0) × (e.g_d ≢ 0)

module _ (q : Request) (pscv : ℕ) (e : Tlb) where
  first_allows : first_stage_denies q pscv e ≡ false → FirstStageAllows q pscv e
  unfolding first_stage_denies
  first_allows h = ground arith

  first_denies : FirstStageAllows q pscv e → first_stage_denies q pscv e ≡ false
  unfolding first_stage_denies
  first_denies h = ground arith

  second_allows : second_stage_denies q e ≡ false → dirty_needed q e ≡ false → SecondStageAllows q e
  unfolding second_stage_denies dirty_needed
  second_allows h k = ground arith

  second_denies :
      SecondStageAllows q e → (second_stage_denies q e ≡ false) × (dirty_needed q e ≡ false)
  unfolding second_stage_denies dirty_needed
  second_denies h = ground arith

  decide_hit-allows :
      (vs g : Pte) (t : Translation)
      → (decide_hit q pscv vs g e).0 ≡ hit t
      → FirstStageAllows q pscv e × SecondStageAllows q e
  unfolding decide_hit
  decide_hit-allows vs g t h = elim (Bool-cases (first_stage_denies q pscv e)) [
    | inl d ↦ absurd (ground arith)
    | inr ok ↦ elim (Bool-cases (second_stage_denies q e)) [
      | inl d ↦ absurd (ground arith)
      | inr ok₂ ↦ elim (Bool-cases (dirty_needed q e)) [
        | inl d ↦ absurd (ground arith)
        | inr clean ↦ (first_allows ok, second_allows ok₂ clean)
      ]
    ]
  ]

  allows-decide_hit :
      (vs g : Pte)
      → FirstStageAllows q pscv e
      → SecondStageAllows q e
      → decide_hit q pscv vs g e ≡ (hit (translation_of q vs g e), 1)
  unfolding decide_hit
  allows-decide_hit vs g h k =
      let f = first_denies h in let (a, b) = second_denies k in rw (f, a, b)

module _ {W : Type 0} (st : Iommu W) (q : Request) (t : Tags) (vs g : Pte) where
  pub lookup_ioatc_iotlb_missed :
      find (tlb_matches q.iova t) st.tlb ≡ none → lookup_ioatc_iotlb st q t vs g ≡ (miss, st)
  unfolding lookup_ioatc_iotlb
  lookup_ioatc_iotlb_missed n = rw (n, lookup_ioatc_iotlb)

  missed :
      find (tlb_matches q.iova t) st.tlb ≡ none
      → (tr : Translation) → (lookup_ioatc_iotlb st q t vs g).0 ≡ hit tr
      → ⊥
  missed n tr h = cc (sym h ∙ ap (λ r. r.0) (lookup_ioatc_iotlb_missed n))

  -- A lookup hits exactly when the first entry with the tags of the address space and a range over
  -- the page grants the access: execute, read and write by both stages (by the first one only if
  -- the caller asks for that check), the U and SUM rules of a first stage that is active, and for
  -- a store the D bit of both stages.
  pub lookup_ioatc_iotlb_hits :
      ((tr : Translation) × ((lookup_ioatc_iotlb st q t vs g).0 ≡ hit tr)) ↔ (
        (e : Tlb) × ((i : ℕ) × (find (tlb_matches q.iova t) st.tlb ≡ some (i, e)))
        × FirstStageAllows q t.pscv e
        × SecondStageAllows q e)
  unfolding lookup_ioatc_iotlb
  lookup_ioatc_iotlb_hits = elim (Option-cases (find (tlb_matches q.iova t) st.tlb)) [
    | inl n ↦ (λ (tr, h). absurd (missed n tr h), λ (e, (i, m), h, k). cc (n, m))
    | inr ((i, e), m) ↦ (
      λ (tr, h).
          let (a, b) = decide_hit-allows q t.pscv e vs g tr (rw (m, lookup_ioatc_iotlb) at h) in
          (e, (i, m), a, b),
      λ (e', (i', m'), h, k). (
        translation_of q vs g e',
        rw (m', lookup_ioatc_iotlb) (ap (λ r. r.0) (allows-decide_hit q t.pscv e' vs g h k)),
      ),
    )
  ]

-- The result of a lookup depends on the cache only through the entry that the search finds.
pub lookup_ioatc_iotlb-congr :
    {W : Type 0} (st st' : Iommu W) (q : Request) (t : Tags) (vs g : Pte)
    → find (tlb_matches q.iova t) st'.tlb ≡ find (tlb_matches q.iova t) st.tlb
    → (lookup_ioatc_iotlb st' q t vs g).0 ≡ (lookup_ioatc_iotlb st q t vs g).0
unfolding lookup_ioatc_iotlb
lookup_ioatc_iotlb-congr st st' q t vs g h =
    elim (Option-cases (find (tlb_matches q.iova t) st.tlb)) [
      | inl n ↦ let n' = h ∙ n in rw (n', n, lookup_ioatc_iotlb)
      | inr (m, e) ↦ let e' = h ∙ e in rw (e', e, lookup_ioatc_iotlb)
    ]
