-- ===== src/Atc/Iotlb.antt =====
-- The cache of translations: `cache_ioatc_iotlb` and `lookup_ioatc_iotlb` of
-- iommu_ref_model/libiommu/src/iommu_atc.c.
pub mod Permission
use riscv_iommu_dv_model.Prelude.{
  ℕ, ◌+◌, ◌-◌, ◌*◌, ◌%◌, ◌^◌, ◌/◌, bit_and, bit_or, bit_xor, Bool, true, false, not, ◌&&◌, ◌||◌,
  map, Option, none, some, ◌==◌, if◌then◌else◌, find, modify,
}
use riscv_iommu_dv_model.Iommu.{Iommu}
use riscv_iommu_dv_model.Iommu.Caches.{Tlb}
use riscv_iommu_dv_model.Iommu.Pte.{Pte}
use riscv_iommu_dv_model.Address.{not64, match_address_range}
use riscv_iommu_dv_model.Atc.{replaced}

-- A number as the truth value that C takes it for.
abbrev pub truth : ℕ → Bool
truth x = not (x == 0)

-- The tags of a translation: the address space that it belongs to.
pub record Tags : Type 0 where
  pub gv : ℕ
  pub gscid : ℕ
  pub pscv : ℕ
  pub pscid : ℕ

-- `cache_ioatc_iotlb`
pub cache_ioatc_iotlb : {W : Type 0} → Iommu W → ℕ → Tags → Pte → Pte → (ppn s is_msi : ℕ) → Iommu W
cache_ioatc_iotlb st vpn tags vs_pte g_pte ppn s is_msi =
    let c = st.tlb in
    let i = replaced (map Tlb.valid c) (map Tlb.lru c) 0 in record st { tlb = modify c i fill }
  where
    fill : Tlb → Tlb
    fill e = record e {
      vpn = vpn;
      gv = tags.gv;
      pscv = tags.pscv;
      gscid = tags.gscid;
      pscid = tags.pscid;
      vs_r = vs_pte.r;
      vs_w = vs_pte.w;
      vs_x = vs_pte.x;
      vs_d = vs_pte.d;
      u = vs_pte.u;
      g = vs_pte.g;
      pbmt = vs_pte.pbmt;
      g_r = g_pte.r;
      g_w = g_pte.w;
      g_x = g_pte.x;
      g_d = g_pte.d;
      ppn = ppn;
      s = s;
      is_msi = is_msi;
      valid = 1;
    }

-- The access that a lookup is made for.
pub record Request : Type 0 where
  pub iova : ℕ
  pub check_access_perms : ℕ
  pub priv : ℕ
  pub is_read : ℕ
  pub is_write : ℕ
  pub is_exec : ℕ
  pub sum : ℕ

-- What a hit returns through the pointers.
pub record Translation : Type 0 where
  pub resp_pa : ℕ
  pub page_sz : ℕ
  pub vs_pte : Pte
  pub g_pte : Pte
  pub is_msi : ℕ

-- `IOATC_MISS`, `IOATC_HIT` and `IOATC_FAULT` with its cause.
pub data LookupResult : Type 0 where
  miss : LookupResult
  hit : Translation → LookupResult
  fault : ℕ → LookupResult

-- The tag match of the search loop.
abbrev pub tlb_matches : ℕ → Tags → Tlb → Bool
tlb_matches iova t e =
    e.valid == 1
    && e.gv == t.gv
    && e.gscid == t.gscid
    && e.pscv == t.pscv
    && e.pscid == t.pscid
    && match_address_range (iova / 4096) 0 e.vpn e.s

-- `goto page_fault` of the first-stage checks. U_MODE is 0 and S_MODE is 1.
pub first_stage_denies : Request → ℕ → Tlb → Bool
first_stage_denies q pscv e =
    (q.check_access_perms == 1
      && ((truth q.is_exec && e.vs_x == 0)
          || (truth q.is_read && e.vs_r == 0)
          || (truth q.is_write && e.vs_w == 0)))
    || (pscv == 1 && q.priv == 0 && e.u == 0)
    || (pscv == 1 && truth q.is_exec && q.priv == 1 && e.u == 1)
    || (pscv == 1 && q.priv == 1 && not (truth q.is_exec) && q.sum == 0 && e.u == 1)

-- The second-stage checks, which drop the entry and miss.
pub second_stage_denies : Request → Tlb → Bool
second_stage_denies q e =
    (truth q.is_exec && e.g_x == 0)
    || (truth q.is_read && e.g_r == 0)
    || (truth q.is_write && e.g_w == 0)

-- A store through an entry whose D bit is clear in either stage.
pub dirty_needed : Request → Tlb → Bool
dirty_needed q e = (e.vs_d == 0 || e.g_d == 0) && q.is_write == 1

pub page_size : Tlb → ℕ
page_size e =
    (if e.s == 0 then 1 else (bit_xor e.ppn ((e.ppn + 1) % 2 ^ 64) + 1) % 2 ^ 64) * 4096 % 2 ^ 64

-- `((PPN * PAGESIZE) & ~(page_sz - 1)) | (iova & (page_sz - 1))`
pub response_pa : Tlb → ℕ → ℕ
response_pa e iova =
    let mask = (page_size e + 2 ^ 64 - 1) % 2 ^ 64 in
    bit_or (bit_and (e.ppn * 4096 % 2 ^ 64) (not64 mask)) (bit_and iova mask)

-- `page_fault:`
abbrev pub fault_cause : Request → ℕ
fault_cause q = if truth q.is_exec then 12 else if truth q.is_read then 13 else 15

-- What a hit returns. The fields of the caller's entries that the hit does not write keep their
-- values.
abbrev pub translation_of : Request → Pte → Pte → Tlb → Translation
translation_of q vs_pte g_pte e = record {
  resp_pa = response_pa e q.iova;
  page_sz = page_size e;
  vs_pte = record vs_pte {
    r = e.vs_r % 2;
    w = e.vs_w % 2;
    x = e.vs_x % 2;
    g = e.g % 2;
    u = e.u % 2;
    pbmt = e.pbmt % 4;
  };
  g_pte = record g_pte { r = e.g_r % 2; w = e.g_w % 2; x = e.g_x % 2 };
  is_msi = e.is_msi;
}

-- The result of a lookup whose tags match the entry `e`, and whether the entry stays valid.
pub decide_hit : Request → ℕ → Pte → Pte → Tlb → LookupResult × ℕ
decide_hit q pscv vs_pte g_pte e =
    if first_stage_denies q pscv e
    then (fault (fault_cause q), 1)
    else if second_stage_denies q e
    then (miss, 0)
    else if dirty_needed q e
    then (miss, 0)
    else (hit (translation_of q vs_pte g_pte e), 1)

-- `lookup_ioatc_iotlb`
pub lookup_ioatc_iotlb :
    {W : Type 0} → Iommu W → Request → Tags → Pte → Pte → LookupResult × Iommu W
lookup_ioatc_iotlb st q t vs_pte g_pte = elim (find (tlb_matches q.iova t) st.tlb) [
  | none ↦ (miss, st)
  | some (i, e) ↦
      let (result, valid) = decide_hit q t.pscv vs_pte g_pte e in
      (
        result,
        record st {
          tlb = modify st.tlb i (λ e. record e { lru = st.tlb_lru_time; valid = valid });
          tlb_lru_time = (st.tlb_lru_time + 1) % 2 ^ 32;
        },
      )
]
