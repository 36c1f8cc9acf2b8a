-- ===== src/Invalidate/Gvma.antt =====
-- IOTINVAL.GVMA against the lookups of the translation cache. The loop of `do_iotinval_gvma` never
-- resets its two match flags, nor sets them before it starts.
use riscv_iommu_dv_model.Prelude.{
  ℕ, ◌/◌, ◌^◌, ◌<◌, ◌≡◌, ◌≢◌, ◌⊎◌, inl, inr, none, true, not, ◌&&◌, List, [], ◌∷◌, arith, refl,
  find, All, ◌==◌, if◌then◌else◌,
}
use riscv_iommu_dv_model.Iommu.{Iommu}
use riscv_iommu_dv_model.Iommu.Caches.{Tlb}
use riscv_iommu_dv_model.Iommu.Pte.{Pte}
use riscv_iommu_dv_model.Address.Napot.{InRange}
use riscv_iommu_dv_model.Atc.Iotlb.{Tags, Request, miss, tlb_matches, lookup_ioatc_iotlb}
use riscv_iommu_dv_model.Atc.Iotlb.Permission.{lookup_ioatc_iotlb_missed}
use riscv_iommu_dv_model.Invalidate.{
  Iotinval, gvma_gscid_selects, gvma_addr_selects, inval_gvma_entries, do_iotinval_gvma,
}
use riscv_iommu_dv_model.Invalidate.Vma.{IsPage, overlap}

-- The guest address space `t` is one that the operands GV and GSCID name.
abbrev pub InGuest : Iotinval → Tags → Type 0
InGuest c t = (t.gv ≡ 1) × ((c.gv ≡ 0) ⊎ ((c.gv ≡ 1) × (t.gscid ≡ c.gscid)))

-- The operands AV, ADDR and S reach a translation of the page: one of a first stage always, as its
-- guest physical address is not known.
abbrev pub IsReached : Iotinval → Tags → ℕ → Type 0
IsReached c t page =
    (t.pscv ≡ 1)
    ⊎ (c.av ≡ 0)
    ⊎ (c.gv ≡ 0)
    ⊎ ((t.pscv ≡ 0) × (c.av ≡ 1) × InRange page c.addr_63_12 c.s)

module _ (c : Iotinval) (iova : ℕ) (t : Tags) where
  gscid_selected :
      (e : Tlb) → InGuest c t → tlb_matches iova t e ≡ true → gvma_gscid_selects c e ≡ true
  unfolding gvma_gscid_selects
  gscid_selected e h m = ground arith

  addr_selected :
      (e : Tlb)
      → IsReached c t (iova / 4096)
      → iova < 2 ^ 64
      → c.addr_63_12 < 2 ^ 64
      → IsPage e
      → tlb_matches iova t e ≡ true
      → gvma_addr_selects c e ≡ true
  unfolding gvma_addr_selects
  addr_selected e (inl h) hi ha he m = ground arith
  addr_selected e (inr (inl h)) hi ha he m = ground arith
  addr_selected e (inr (inr (inl h))) hi ha he m = ground arith
  addr_selected e (inr (inr (inr (no_stage, av, inside)))) hi ha he m =
      let in_range =
        overlap (iova / 4096) c.addr_63_12 c.s e (omega arith) ha he inside (ground arith) in
      ground arith

  nothing_left :
      (gscid_match addr_match : ℕ) (es : List Tlb)
      → ((e : Tlb)
          → IsPage e
          → tlb_matches iova t e ≡ true
          → (gvma_gscid_selects c e ≡ true) × (gvma_addr_selects c e ≡ true))
      → All IsPage es
      → find (tlb_matches iova t) (inval_gvma_entries c gscid_match addr_match es) ≡ none
  unfolding inval_gvma_entries
  nothing_left a b [] h pages = refl
  nothing_left a b (e ∷ es) h pages =
      let valid = not (e.valid == 0) in
      let a' : ℕ = if valid && gvma_gscid_selects c e then 1 else a in
      let b' : ℕ = if valid && gvma_addr_selects c e then 1 else b in
      let rest = nothing_left a' b' es h pages.1 in ground (arith, h e, rest)

All-dropped :
    (c : Iotinval) (a b : ℕ) (es : List Tlb)
    → a ≢ 0
    → b ≢ 0
    → All (λ e. e.valid ≡ 0) (inval_gvma_entries c a b es)
unfolding inval_gvma_entries
All-dropped c a b [] ha hb = tt
All-dropped c a b (e ∷ es) ha hb =
    let valid = not (e.valid == 0) in
    let a' : ℕ = if valid && gvma_gscid_selects c e then 1 else a in
    let b' : ℕ = if valid && gvma_addr_selects c e then 1 else b in
    (ground arith, All-dropped c a' b' es (ground arith) (ground arith))

module _ {W : Type 0} (st : Iommu W) (c : Iotinval) (gscid_match addr_match : ℕ) where
  -- After IOTINVAL.GVMA a lookup in a guest and for a page that the operands reach misses, whatever
  -- the two flags hold before the loop. The operands, the address and the tags of the cache are
  -- 64-bit numbers.
  pub do_iotinval_gvma_misses :
      (q : Request) (t : Tags) (vs g : Pte)
      → InGuest c t
      → IsReached c t (q.iova / 4096)
      → q.iova < 2 ^ 64
      → c.addr_63_12 < 2 ^ 64
      → All IsPage st.tlb
      → let st' = do_iotinval_gvma st c gscid_match addr_match in
        lookup_ioatc_iotlb st' q t vs g ≡ (miss, st')
  unfolding do_iotinval_gvma
  do_iotinval_gvma_misses q t vs g guest reached hi ha pages =
      lookup_ioatc_iotlb_missed (do_iotinval_gvma st c gscid_match addr_match) q t vs g (
        nothing_left c q.iova t gscid_match addr_match st.tlb
          (λ e he m.
            (gscid_selected c q.iova t e guest m, addr_selected c q.iova t e reached hi ha he m))
          pages)

  -- The match flags outlive the entry that they are about: if the first entry of the cache is valid
  -- and selected, `do_iotinval_gvma` leaves no entry valid, not even those of other guests and of the
  -- host, which the operands do not name.
  pub do_iotinval_gvma_spills :
      (e : Tlb) (es : List Tlb)
      → st.tlb ≡ e ∷ es
      → e.valid ≢ 0
      → gvma_gscid_selects c e ≡ true
      → gvma_addr_selects c e ≡ true
      → All (λ x. x.valid ≡ 0) (do_iotinval_gvma st c gscid_match addr_match).tlb
  unfolding do_iotinval_gvma inval_gvma_entries
  do_iotinval_gvma_spills e es p v h k =
      let valid = not (e.valid == 0) in
      let a' : ℕ = if valid && gvma_gscid_selects c e then 1 else gscid_match in
      let b' : ℕ = if valid && gvma_addr_selects c e then 1 else addr_match in
      rw p (ground arith, All-dropped c a' b' es (ground arith) (ground arith))
