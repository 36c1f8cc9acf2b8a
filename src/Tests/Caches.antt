-- ===== src/Tests/Caches.antt =====
-- The address translation caches on concrete states.
use riscv_iommu_dv_model.Prelude.{
  ℕ, ◌≡◌, ◌≢◌, refl, ◌⊎◌, ◌↔◌, inl, inr, some, none, true, arith, [], ◌∷◌, All, find,
}
use riscv_iommu_dv_model.Iommu.Caches.{Tlb}
use riscv_iommu_dv_model.Iommu.Pte.{Pte}
use riscv_iommu_dv_model.Address.{match_address_range}
use riscv_iommu_dv_model.Address.Napot.{InRange, match_address_range_lem}
use riscv_iommu_dv_model.Atc.{cache_ioatc_dc, lookup_ioatc_dc, lookup_ioatc_pc}
use riscv_iommu_dv_model.Atc.Device.{IsDcUnique, cache_ioatc_dc-lookup, lookup_ioatc_dc-dc_view}
use riscv_iommu_dv_model.Atc.Process.{IsPcUnique}
use riscv_iommu_dv_model.Atc.Iotlb.{
  Tags, Request, Translation, miss, hit, tlb_matches, lookup_ioatc_iotlb,
}
use riscv_iommu_dv_model.Atc.Iotlb.Permission.{
  FirstStageAllows, SecondStageAllows, lookup_ioatc_iotlb_hits,
}
use riscv_iommu_dv_model.Invalidate.{
  Iotinval, do_inval_ddt, do_iotinval_vma, do_iotinval_gvma, gvma_gscid_selects, gvma_addr_selects,
}
use riscv_iommu_dv_model.Invalidate.Directory.{do_inval_ddt_lem}
use riscv_iommu_dv_model.Invalidate.Vma.{do_iotinval_vma_misses}
use riscv_iommu_dv_model.Invalidate.Gvma.{do_iotinval_gvma_misses, do_iotinval_gvma_spills}
use riscv_iommu_dv_model.Tests.{start, page_5, page_6, dc_7}

abbrev no_pte : Pte
no_pte = record {
  v = 0;
  r = 0;
  w = 0;
  x = 0;
  u = 0;
  g = 0;
  a = 0;
  d = 0;
  rsw = 0;
  ppn = 0;
  reserved = 0;
  rsw60t59b = 0;
  pbmt = 0;
  n = 0;
}

abbrev tags_1 : Tags
tags_1 = record { gv = 1; gscid = 1; pscv = 1; pscid = 2 }

abbrev tags_3 : Tags
tags_3 = record tags_1 { gscid = 3; pscid = 4 }

abbrev read_5 : Request
read_5 = record {
  iova = 20480;
  check_access_perms = 1;
  priv = 0;
  is_read = 1;
  is_write = 0;
  is_exec = 0;
  sum = 0;
}

match_address_range_lem_example :
    (match_address_range 7 1 9 0 ≡ true) ↔ ((p : ℕ) × InRange p 7 1 × InRange p 9 0)
match_address_range_lem_example = match_address_range_lem 7 1 9 0 (omega arith) (omega arith)

start-IsDcUnique : IsDcUnique start.ddt_cache
start-IsDcUnique k = ground arith

start-IsPcUnique : IsPcUnique start.pdt_cache
start-IsPcUnique (d, p) = ground arith

cache_ioatc_dc-lookup_example :
    let t = cache_ioatc_dc start 8 dc_7 0 in
    ((lookup_ioatc_dc t 8).0 ≡ some dc_7)
    × (((lookup_ioatc_dc t 7).0 ≡ (lookup_ioatc_dc start 7).0) ⊎ ((lookup_ioatc_dc t 7).0 ≡ none))
    × IsDcUnique t.ddt_cache
cache_ioatc_dc-lookup_example =
    cache_ioatc_dc-lookup start 8 dc_7 0 7 (λ e. omega arith) start-IsDcUnique
      (lookup_ioatc_dc-dc_view start 8) (omega arith)

lookup_ioatc_iotlb_hits_example :
    ((tr : Translation) × ((lookup_ioatc_iotlb start read_5 tags_1 no_pte no_pte).0 ≡ hit tr)) ↔ (
      (e : Tlb) × ((i : ℕ) × (find (tlb_matches 20480 tags_1) (page_5 ∷ page_6 ∷ []) ≡ some (i, e)))
      × FirstStageAllows read_5 1 e
      × SecondStageAllows read_5 e)
lookup_ioatc_iotlb_hits_example = lookup_ioatc_iotlb_hits start read_5 tags_1 no_pte no_pte

do_inval_ddt_lem_example :
    let all = do_inval_ddt start 0 7 in
    let one = do_inval_ddt start 1 7 in
    (((lookup_ioatc_dc all 7).0 ≡ none) × ((lookup_ioatc_pc all 7 2).0 ≡ none))
    × (((lookup_ioatc_dc all 8).0 ≡ none) × ((lookup_ioatc_pc all 8 2).0 ≡ none))
    × (((lookup_ioatc_dc one 7).0 ≡ none) × ((lookup_ioatc_pc one 7 2).0 ≡ none))
    × (((lookup_ioatc_dc one 8).0 ≡ (lookup_ioatc_dc start 8).0)
        × ((lookup_ioatc_pc one 8 2).0 ≡ (lookup_ioatc_pc start 8 2).0))
do_inval_ddt_lem_example = do_inval_ddt_lem start 7 8 2 (λ e. omega arith)

-- IOTINVAL for page 5 of guest 1, with PSCV for process 2.
abbrev one_page : Iotinval
one_page = record { gv = 1; av = 1; nl = 0; pscv = 1; gscid = 1; pscid = 2; addr_63_12 = 5; s = 0 }

abbrev guest_1 : Iotinval
guest_1 = record one_page { pscv = 0; av = 0 }

do_iotinval_vma_misses_example :
    let st = do_iotinval_vma start one_page in
    (lookup_ioatc_iotlb st read_5 tags_1 no_pte no_pte ≡ (miss, st))
    ⊎ ((one_page.pscv ≡ 1)
        × ((i : ℕ) × (e : Tlb) × (find (tlb_matches 20480 tags_1) st.tlb ≡ some (i, e))
            × (e.g ≢ 0)))
do_iotinval_vma_misses_example =
    do_iotinval_vma_misses start one_page read_5 tags_1 no_pte no_pte
      (record { guest = inr (refl, refl, refl); process = inr (refl, refl, refl) })
      (inr (refl, refl)) (omega arith) (omega arith) (omega arith, (omega arith, tt))

do_iotinval_gvma_misses_example :
    let st = do_iotinval_gvma start guest_1 0 0 in
    lookup_ioatc_iotlb st read_5 tags_1 no_pte no_pte ≡ (miss, st)
do_iotinval_gvma_misses_example =
    do_iotinval_gvma_misses start guest_1 0 0 read_5 tags_1 no_pte no_pte (refl, inr (refl, refl))
      (inl refl) (omega arith) (omega arith) (omega arith, (omega arith, tt))

guest_1-gscid : gvma_gscid_selects guest_1 page_5 ≡ true
unfolding gvma_gscid_selects
guest_1-gscid = refl

guest_1-addr : gvma_addr_selects guest_1 page_5 ≡ true
unfolding gvma_addr_selects
guest_1-addr = refl

-- IOTINVAL.GVMA for guest 1 drops the translation of guest 3.
do_iotinval_gvma_spills_example : All (λ x. x.valid ≡ 0) (do_iotinval_gvma start guest_1 0 0).tlb
do_iotinval_gvma_spills_example =
    do_iotinval_gvma_spills start guest_1 0 0 page_5 (page_6 ∷ []) refl (λ e. omega arith)
      guest_1-gscid guest_1-addr
