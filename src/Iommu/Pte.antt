-- ===== src/Iommu/Pte.antt =====
-- The fields of a page table entry, `pte_t` and `gpte_t` of
-- iommu_ref_model/libiommu/include/iommu_translate.h.
use riscv_iommu_dv_model.Prelude.{ℕ}

pub record Pte : Type 0 where
  pub v : ℕ
  pub r : ℕ
  pub w : ℕ
  pub x : ℕ
  pub u : ℕ
  pub g : ℕ
  pub a : ℕ
  pub d : ℕ
  pub rsw : ℕ
  pub ppn : ℕ
  pub reserved : ℕ
  pub rsw60t59b : ℕ
  pub pbmt : ℕ
  pub n : ℕ
