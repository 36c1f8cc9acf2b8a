-- ===== src/Invalidate/Vma.antt =====
-- IOTINVAL.VMA against the lookups of the translation cache.
use native.Mathlib.Nat.{div-one}
use riscv_iommu_dv_model.Prelude.{
  ℕ, ◌/◌, ◌^◌, ◌<◌, ◌≡◌, ◌≢◌, ◌⊎◌, inl, inr, some, true, false, arith, ◌∙◌, sym, map, find, All,
  find-map, find-map-some, Option-cases, Bool-cases,
}
use riscv_iommu_dv_model.Iommu.{Iommu}
use riscv_iommu_dv_model.Iommu.Caches.{Tlb}
use riscv_iommu_dv_model.Iommu.Pte.{Pte}
use riscv_iommu_dv_model.Address.{match_address_range}
use riscv_iommu_dv_model.Address.Napot.{InRange, match_address_range_lem}
use riscv_iommu_dv_model.Atc.Iotlb.{Tags, Request, miss, tlb_matches, lookup_ioatc_iotlb}
use riscv_iommu_dv_model.Atc.Iotlb.Permission.{lookup_ioatc_iotlb_missed, lookup_ioatc_iotlb-congr}
use riscv_iommu_dv_model.Invalidate.{Iotinval, vma_selects, inval_vma_entry, do_iotinval_vma}

abbrev pub IsPage : Tlb → Type 0
IsPage e = e.vpn < 2 ^ 64

-- The address space `t` is one that the operands GV, GSCID, PSCV and PSCID name.
pub record InSpace (c : Iotinval) (t : Tags) : Type 0 where
  pub guest : ((c.gv ≡ 0) × (t.gv ≡ 0)) ⊎ ((c.gv ≡ 1) × (t.gv ≡ 1) × (t.gscid ≡ c.gscid))
  pub process : (c.pscv ≡ 0) ⊎ ((c.pscv ≡ 1) × (t.pscv ≡ 1) × (t.pscid ≡ c.pscid))

-- The operands do not name the address space.
abbrev pub IsOtherSpace : Iotinval → Tags → Type 0
IsOtherSpace c t =
    (t.gv ≢ c.gv)
    ⊎ ((c.gv ≡ 1) × (t.gscid ≢ c.gscid))
    ⊎ ((c.pscv ≡ 1) × ((t.pscv ≢ 1) ⊎ (t.pscid ≢ c.pscid)))

-- The page is one that the operands AV, ADDR and S name.
abbrev pub InOperand : Iotinval → ℕ → Type 0
InOperand c page = (c.av ≡ 0) ⊎ ((c.av ≡ 1) × InRange page c.addr_63_12 c.s)

-- An entry whose range holds the page, and a range operand that holds it too, match.
pub overlap :
    (page addr s : ℕ) (e : Tlb)
    → page < 2 ^ 64
    → addr < 2 ^ 64
    → IsPage e
    → InRange page addr s
    → match_address_range page 0 e.vpn e.s ≡ true
    → match_address_range addr s e.vpn e.s ≡ true
overlap page addr s e hp ha he inside m =
    let (p, here, there) = (match_address_range_lem page 0 e.vpn e.s hp he).0 m in
    let same : p ≡ page = sym (div-one p) ∙ here ∙ div-one page in
    (match_address_range_lem addr s e.vpn e.s ha he).1 (page, inside, rw (← same) there)

module _ (c : Iotinval) (iova : ℕ) (t : Tags) where
  -- An entry that still matches after the command was not selected by it.
  survivor :
      (x e : Tlb)
      → e ≡ inval_vma_entry c x
      → tlb_matches iova t e ≡ true
      → (x ≡ e) × (vma_selects c e ≡ false)
  survivor x e y z = elim (Bool-cases (vma_selects c x)) [
    | inl s ↦ absurd (ground arith)
    | inr s ↦ (ground arith, ground arith)
  ]

  -- What is not selected although the operands name it is a global mapping.
  global_only :
      (e : Tlb)
      → InSpace c t
      → InOperand c (iova / 4096)
      → iova < 2 ^ 64
      → c.addr_63_12 < 2 ^ 64
      → IsPage e
      → tlb_matches iova t e ≡ true
      → vma_selects c e ≡ false
      → (c.pscv ≡ 1) × (e.g ≢ 0)
  unfolding vma_selects
  global_only e space (inl none_given) hi ha he m kept = ground arith
  global_only e space (inr (av, inside)) hi ha he m kept =
      let in_range =
        overlap (iova / 4096) c.addr_63_12 c.s e (omega arith) ha he inside (ground arith) in
      ground arith

  spared : (e : Tlb) → IsOtherSpace c t → tlb_matches iova t e ≡ true → inval_vma_entry c e ≡ e
  unfolding vma_selects
  spared e h m = ground arith

module _ {W : Type 0} (st : Iommu W) (c : Iotinval) (q : Request) (t : Tags) (vs g : Pte) where
  -- After IOTINVAL.VMA a lookup in an address space and for a page that the operands name misses,
  -- unless PSCV is 1 and the entry that it finds is a global mapping. The operands, the address and
  -- the tags of the cache are 64-bit numbers.
  pub do_iotinval_vma_misses :
      InSpace c t
      → InOperand c (q.iova / 4096)
      → q.iova < 2 ^ 64
      → c.addr_63_12 < 2 ^ 64
      → All IsPage st.tlb
      → let st' = do_iotinval_vma st c in
        (lookup_ioatc_iotlb st' q t vs g ≡ (miss, st'))
        ⊎ ((c.pscv ≡ 1)
            × ((i : ℕ) × (e : Tlb) × (find (tlb_matches q.iova t) st'.tlb ≡ some (i, e))
                × (e.g ≢ 0)))
  unfolding do_iotinval_vma
  do_iotinval_vma_misses space operand hi ha pages =
      elim (Option-cases (find (tlb_matches q.iova t) (map (inval_vma_entry c) st.tlb))) [
        | inl n ↦ inl (lookup_ioatc_iotlb_missed (do_iotinval_vma st c) q t vs g n)
        | inr ((i, e), m) ↦
            let (x, y, z, v) =
              find-map-some (tlb_matches q.iova t) (inval_vma_entry c) IsPage st.tlb pages m in
            let (same, kept) = survivor c q.iova t x e y z in
            let (on, global) =
              global_only c q.iova t e space operand hi ha (rw (← same) v) z kept in
            inr (on, (i, e, m, global))
      ]

  -- IOTINVAL.VMA changes no answer for an address space that the operands do not name: another guest or host,
  -- or with PSCV = 1 another process.
  do_iotinval_vma_spares :
      IsOtherSpace c t
      → (lookup_ioatc_iotlb (do_iotinval_vma st c) q t vs g).0 ≡ (lookup_ioatc_iotlb st q t vs g).0
  unfolding do_iotinval_vma
  do_iotinval_vma_spares h = lookup_ioatc_iotlb-congr st (do_iotinval_vma st c) q t vs g (
      find-map (tlb_matches q.iova t) st.tlb (inval_vma_entry c) (λ e m. spared c q.iova t e h m)
        (λ e m. ground arith))
