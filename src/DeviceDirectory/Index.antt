-- ===== src/DeviceDirectory/Index.antt =====
-- The indices that `locate_device_context` takes from a device id.
use riscv_iommu_dv_model.Prelude.{ℕ, ◌^◌, ◌<◌, ◌≡◌, ◌≢◌, Bool, true, false, arith}
use riscv_iommu_dv_model.DeviceDirectory.{ddi}

-- Two devices with ids of 24 bits differ in one of the three indices, so no two share a path in the
-- directory.
ddi-device_id :
    (msi_flat : Bool) (device_id other : ℕ)
    → device_id < 2 ^ 24
    → other < 2 ^ 24
    → device_id ≢ other
    → ¬ (
        (ddi msi_flat device_id 0 ≡ ddi msi_flat other 0)
        × (ddi msi_flat device_id 1 ≡ ddi msi_flat other 1)
        × (ddi msi_flat device_id 2 ≡ ddi msi_flat other 2))
unfolding ddi
ddi-device_id false d e h k ne (l, m, n) = ne (omega arith)
ddi-device_id true d e h k ne (l, m, n) = ne (omega arith)
