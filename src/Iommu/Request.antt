-- ===== src/Iommu/Request.antt =====
-- The translation requests of the host bridge and the responses to them:
-- iommu_ref_model/libiommu/include/iommu_req_rsp.h.
use riscv_iommu_dv_model.Prelude.{ℕ}

-- `iommu_trans_req_t`
pub record TransReq : Type 0 where
  pub at : ℕ
  pub iova : ℕ
  pub length : ℕ
  pub read_write_amo : ℕ

-- `hb_to_iommu_req_t`
pub record HbRequest : Type 0 where
  pub device_id : ℕ
  pub pid_valid : ℕ
  pub process_id : ℕ
  pub no_write : ℕ
  pub exec_req : ℕ
  pub priv_req : ℕ
  pub is_cxl_dev : ℕ
  pub tr : TransReq

-- `iommu_trans_rsp_t`
pub record TransRsp : Type 0 where
  pub ppn : ℕ
  pub s : ℕ
  pub n : ℕ
  pub cxl_io : ℕ
  pub global : ℕ
  pub priv : ℕ
  pub u : ℕ
  pub r : ℕ
  pub w : ℕ
  pub exe : ℕ
  pub ama : ℕ
  pub pbmt : ℕ
  pub is_msi : ℕ
  pub is_mrif : ℕ
  pub dest_mrif_addr : ℕ
  pub mrif_nid : ℕ

-- `status_t`
pub data Status : Type 0 where
  success unsupported_request completer_abort : Status

-- `iommu_to_hb_rsp_t`
pub record HbResponse : Type 0 where
  pub status : Status
  pub trsp : TransRsp

-- `addr_type_t`: ADDR_TYPE_UNTRANSLATED, and the values of READ and WRITE.
abbrev pub addr_type_untranslated : ℕ
addr_type_untranslated = 0

abbrev pub read_access : ℕ
read_access = 0

abbrev pub write_access : ℕ
write_access = 1
