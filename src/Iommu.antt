-- ===== src/Iommu.antt =====
-- The state of the model: `iommu_t` of iommu_ref_model/libiommu/include/iommu.h and the registers
-- of iommu_registers.h. A one-bit field is a `Bool`; every other field is a number.
pub mod Platform
pub mod Regs
pub mod Caches
pub mod Pte
pub mod Request
use riscv_iommu_dv_model.Prelude.{ℕ, List, Bool}
use Regs.{RegFile}
use Caches.{DdtCache, PdtCache, Tlb, ItagTracker}

-- `iommu_t`. The field `world` stands for the memory and the host bridge, which only the functions
-- of `Platform` read and change.
pub record Iommu (W : Type 0) : Type 0 where
  pub world : W
  pub command_queue_stall_for_itag : ℕ
  pub ats_inv_req_timeout : ℕ
  pub iofence_wait_pending_inv : ℕ
  pub iofence_pending_pr : ℕ
  pub iofence_pending_pw : ℕ
  pub iofence_pending_av : ℕ
  pub iofence_pending_wsi_bit : ℕ
  pub iofence_pending_addr : ℕ
  pub iofence_pending_data : ℕ
  pub pending_inval_req_dsv : ℕ
  pub pending_inval_req_dseg : ℕ
  pub pending_inval_req_rid : ℕ
  pub pending_inval_req_pv : ℕ
  pub pending_inval_req_pid : ℕ
  pub pending_inval_req_payload : ℕ
  pub reg_file : RegFile
  pub num_hpm : ℕ
  pub hpmctr_bits : ℕ
  pub event_id_limit : ℕ
  pub num_vec_bits : ℕ
  pub gxl_writeable : ℕ
  pub fctl_be_writeable : ℕ
  pub max_iommu_mode : ℕ
  pub fill_ats_trans_in_ioatc : ℕ
  pub max_devid_mask : ℕ
  pub trans_for_debug : ℕ
  pub sv57_bare_pg_sz : ℕ
  pub sv48_bare_pg_sz : ℕ
  pub sv39_bare_pg_sz : ℕ
  pub sv32_bare_pg_sz : ℕ
  pub sv57x4_bare_pg_sz : ℕ
  pub sv48x4_bare_pg_sz : ℕ
  pub sv39x4_bare_pg_sz : ℕ
  pub sv32x4_bare_pg_sz : ℕ
  pub iommu_qosid_mask : ℕ
  pub ddt_cache : List DdtCache
  pub pdt_cache : List PdtCache
  pub tlb : List Tlb
  pub dc_lru_time : ℕ
  pub pc_lru_time : ℕ
  pub tlb_lru_time : ℕ
  pub itag_tracker : List ItagTracker
  pub msi_pending : List ℕ
