-- ===== src/Tests/Msi.antt =====
-- MSI translation on a concrete device, whose interrupt files are 16 pages.
use riscv_iommu_dv_model.Prelude.{◌+◌, ◌*◌, ◌^◌, ◌≡◌, true, false}
use riscv_iommu_dv_model.Iommu.Caches.{DeviceContext}
use riscv_iommu_dv_model.Msi.{extract, msi_address_translation}
use riscv_iommu_dv_model.Msi.Extract.{packed, extract_lem}
use riscv_iommu_dv_model.Msi.Outcome.{MsiEnds, msi_address_translation-MsiEnds}
use riscv_iommu_dv_model.Tests.{tables, start, dc_7}

extract_lem_example : extract 43981 61680 ≡ packed 64 43981 61680
extract_lem_example = extract_lem 43981 61680

-- The MSI page table of page 52, for the pages from 256 on.
abbrev dc_msi : DeviceContext
dc_msi = record dc_7 { msiptp = 2 ^ 60 + 52; msi_addr_mask = 15; msi_addr_pattern = 256 }

msi_address_translation-MsiEnds_example :
    MsiEnds tables start
      (258 * 4096)
      dc_msi
      0
      0
      false
      (msi_address_translation tables start (258 * 4096) false dc_msi true 0 0)
msi_address_translation-MsiEnds_example =
    msi_address_translation-MsiEnds tables start (258 * 4096) false dc_msi true 0 0
