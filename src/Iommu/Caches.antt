-- ===== src/Iommu/Caches.antt =====
-- The entries of the address translation caches (iommu_atc.h) and the trackers of invalidation
-- requests (iommu_ats.h), all under iommu_ref_model/libiommu/include.
use riscv_iommu_dv_model.Prelude.{ℕ}

-- `tlb_t`
pub record Tlb : Type 0 where
  pub vpn : ℕ
  pub gv : ℕ
  pub pscv : ℕ
  pub gscid : ℕ
  pub pscid : ℕ
  pub vs_r : ℕ
  pub vs_w : ℕ
  pub vs_x : ℕ
  pub pbmt : ℕ
  pub g : ℕ
  pub u : ℕ
  pub vs_d : ℕ
  pub g_r : ℕ
  pub g_w : ℕ
  pub g_x : ℕ
  pub g_d : ℕ
  pub ppn : ℕ
  pub s : ℕ
  pub lru : ℕ
  pub valid : ℕ
  pub is_msi : ℕ

-- A device context, as far as the caches go: its eight doublewords.
pub record DeviceContext : Type 0 where
  pub tc : ℕ
  pub iohgatp : ℕ
  pub ta : ℕ
  pub fsc : ℕ
  pub msiptp : ℕ
  pub msi_addr_mask : ℕ
  pub msi_addr_pattern : ℕ
  pub reserved : ℕ

-- A process context: its two doublewords.
pub record ProcessContext : Type 0 where
  pub ta : ℕ
  pub fsc : ℕ

-- `ddt_cache_t`
pub record DdtCache : Type 0 where
  pub dc : DeviceContext
  pub did : ℕ
  pub lru : ℕ
  pub valid : ℕ

-- `pdt_cache_t`
pub record PdtCache : Type 0 where
  pub pc : ProcessContext
  pub did : ℕ
  pub pid : ℕ
  pub lru : ℕ
  pub valid : ℕ

-- `itag_tracker_t`
pub record ItagTracker : Type 0 where
  pub busy : ℕ
  pub dsv : ℕ
  pub dseg : ℕ
  pub rid : ℕ
  pub num_rsp_rcvd : ℕ
