-- ===== src/ProcessDirectory/Format.antt =====
-- The process contexts that the RISC-V IOMMU specification allows, and the checks on them.
use riscv_iommu_dv_model.Prelude.{
  ℕ, Bool, true, false, ◌≡◌, ◌↔◌, inl, inr, arith, Bool-cases, get_bits,
}
use riscv_iommu_dv_model.Iommu.{Iommu}
use riscv_iommu_dv_model.Iommu.Regs.{Capabilities}
use riscv_iommu_dv_model.Iommu.Caches.{DeviceContext, ProcessContext}
use riscv_iommu_dv_model.DeviceDirectory.{sxl, mode_of}
use riscv_iommu_dv_model.ProcessDirectory.{do_process_context_configuration_checks}

-- A first-stage page table that the capabilities offer at the width `sxl` of the device.
pub data TableMode (c : Capabilities) (narrow : Bool) (m : ℕ) : Type 0 where
  bare : m ≡ 0 → TableMode c narrow m
  sv32 : narrow ≡ true → m ≡ 8 → c.sv32 ≡ true → TableMode c narrow m
  sv39 : narrow ≡ false → m ≡ 8 → c.sv39 ≡ true → TableMode c narrow m
  sv48 : narrow ≡ false → m ≡ 9 → c.sv48 ≡ true → TableMode c narrow m
  sv57 : narrow ≡ false → m ≡ 10 → c.sv57 ≡ true → TableMode c narrow m

pub record IsPcConfigured {W : Type 0} (s : Iommu W) (dc : DeviceContext) (pc : ProcessContext)
    : Type 0 where
  ta_clear : (get_bits 11 3 pc.ta ≡ 0) × (get_bits 63 32 pc.ta ≡ 0)
  fsc_clear : get_bits 59 44 pc.fsc ≡ 0
  pub table : TableMode s.reg_file.capabilities (sxl dc) (mode_of pc.fsc)

module _ {W : Type 0} (s : Iommu W) (dc : DeviceContext) (pc : ProcessContext) where
  IsPcConfigured-intro :
      do_process_context_configuration_checks s dc pc ≡ false → IsPcConfigured s dc pc
  unfolding do_process_context_configuration_checks
  IsPcConfigured-intro h = elim (Bool-cases (sxl dc)) [
    | inl y ↦ ground arith
    | inr y ↦ ground arith
  ]

  IsPcConfigured-elim :
      IsPcConfigured s dc pc → do_process_context_configuration_checks s dc pc ≡ false
  unfolding do_process_context_configuration_checks
  IsPcConfigured-elim h = ground arith

  -- `do_process_context_configuration_checks` accepts exactly the contexts with reserved fields that are
  -- 0 and a first-stage page table, or none, that the capabilities offer at the device's width SXL.
  pub process_checks_lem :
      (do_process_context_configuration_checks s dc pc ≡ false) ↔ IsPcConfigured s dc pc
  process_checks_lem = (IsPcConfigured-intro, IsPcConfigured-elim)
