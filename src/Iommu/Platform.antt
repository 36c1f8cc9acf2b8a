-- ===== src/Iommu/Platform.antt =====
-- What the reference model calls and does not implement: the functions that
-- iommu_ref_model/libiommu/include/iommu_ref_api.h declares for the platform that hosts the model.
use riscv_iommu_dv_model.Prelude.{ℕ, Bool}

-- The arguments of a memory access: `addr`, `size`, `rcid`, `mcid`, `pma` and `endian`.
pub record Access : Type 0 where
  pub addr : ℕ
  pub size : ℕ
  pub rcid : ℕ
  pub mcid : ℕ
  pub pma : ℕ
  pub big_endian : Bool

-- `ats_msg_t` of iommu_ats.h.
pub record AtsMsg : Type 0 where
  pub msgcode : ℕ
  pub tag : ℕ
  pub rid : ℕ
  pub pv : ℕ
  pub pid : ℕ
  pub priv : ℕ
  pub exec_req : ℕ
  pub dsv : ℕ
  pub dseg : ℕ
  pub payload : ℕ

-- A block of bytes is the number that it spells, least significant byte first. A read returns the
-- status and that number, and every call may change the world.
pub record Platform (W : Type 0) : Type 0 where
  pub read_memory : Access → W → ℕ × ℕ × W
  pub read_memory_for_amo : Access → W → ℕ × ℕ × W
  pub write_memory : ℕ → Access → W → ℕ × W
  pub global_observability_sync : ℕ → ℕ → W → W
  pub send_msg : AtsMsg → W → W
