-- ===== src/Iommu/Regs.antt =====
-- The register file, `iommu_regs_t` of iommu_ref_model/libiommu/include/iommu_registers.h: the
-- registers and their fields. The reserved fields that only `reset_iommu` writes, with 0, are left out.
use riscv_iommu_dv_model.Prelude.{ℕ, Bool, List}

-- `capabilities_t`. The field `both_end` is END, whose value 1 is named BOTH_END.
pub record Capabilities : Type 0 where
  pub version : ℕ
  pub sv32 : Bool
  pub sv39 : Bool
  pub sv48 : Bool
  pub sv57 : Bool
  pub rsvd0 : ℕ
  pub svrsw60t59b : Bool
  pub svpbmt : Bool
  pub sv32x4 : Bool
  pub sv39x4 : Bool
  pub sv48x4 : Bool
  pub sv57x4 : Bool
  pub rsvd1 : Bool
  pub amo_mrif : Bool
  pub msi_flat : Bool
  pub msi_mrif : Bool
  pub amo_hwad : Bool
  pub ats : Bool
  pub t2gpa : Bool
  pub both_end : Bool
  pub igs : ℕ
  pub hpm : Bool
  pub dbg : Bool
  pub pas : ℕ
  pub pd8 : Bool
  pub pd17 : Bool
  pub pd20 : Bool
  pub qosid : Bool
  pub nl : Bool
  pub s : Bool
  pub rsvd3 : ℕ
  pub custom : ℕ

-- `fctl_t`
pub record Fctl : Type 0 where
  pub be : Bool
  pub wsi : Bool
  pub gxl : Bool
  pub reserved : ℕ
  pub custom : ℕ

-- `ddtp_t`
pub record Ddtp : Type 0 where
  pub iommu_mode : ℕ
  pub busy : Bool
  pub ppn : ℕ

-- `cqb_t`, `fqb_t` and `pqb_t`
pub record QueueBase : Type 0 where
  pub log2szm1 : ℕ
  pub ppn : ℕ

-- `cqcsr_t`
pub record Cqcsr : Type 0 where
  pub cqen : Bool
  pub cie : Bool
  pub cqmf : Bool
  pub cmd_to : Bool
  pub cmd_ill : Bool
  pub fence_w_ip : Bool
  pub cqon : Bool
  pub busy : Bool

-- `fqcsr_t`
pub record Fqcsr : Type 0 where
  pub fqen : Bool
  pub fie : Bool
  pub fqmf : Bool
  pub fqof : Bool
  pub fqon : Bool
  pub busy : Bool

-- `pqcsr_t`
pub record Pqcsr : Type 0 where
  pub pqen : Bool
  pub pie : Bool
  pub pqmf : Bool
  pub pqof : Bool
  pub pqon : Bool
  pub busy : Bool

-- `ipsr_t`
pub record Ipsr : Type 0 where
  pub cip : Bool
  pub fip : Bool
  pub pmip : Bool
  pub pip : Bool

-- `icvec_t`
pub record Icvec : Type 0 where
  pub civ : ℕ
  pub fiv : ℕ
  pub pmiv : ℕ
  pub piv : ℕ

-- `msi_cfg_tbl_t`, with the bit `m` of its `msi_vec_ctrl`
pub record MsiCfg : Type 0 where
  pub msi_addr : ℕ
  pub msi_data : ℕ
  pub m : Bool

-- `iohpmevt_t`
pub record Iohpmevt : Type 0 where
  pub event_id : ℕ
  pub dmask : Bool
  pub pid_pscid : ℕ
  pub did_gscid : ℕ
  pub pv_pscv : Bool
  pub dv_gscv : Bool
  pub idt : Bool
  pub of_bit : Bool

-- `iohpmcycles_t`
pub record Iohpmcycles : Type 0 where
  pub counter : ℕ
  pub of_bit : Bool

-- `tr_req_ctrl_t`
pub record TrReqCtrl : Type 0 where
  pub go_busy : Bool
  pub priv : Bool
  pub exe : Bool
  pub nw : Bool
  pub reserved0 : ℕ
  pub pid : ℕ
  pub pv : Bool
  pub reserved : ℕ
  pub custom : ℕ
  pub did : ℕ

-- `tr_response_t`, with its reserved fields left out: they are always 0.
pub record TrResponse : Type 0 where
  pub fault : Bool
  pub pbmt : ℕ
  pub s : Bool
  pub ppn : ℕ

-- `iommu_regs_t`. The queue indices are the `index` fields of cqh, cqt, fqh and fqt; `rcid`, `mcid` and
-- the two `qosid_rsvd` fields are `iommu_qosid`.
pub record RegFile : Type 0 where
  pub capabilities : Capabilities
  pub fctl : Fctl
  pub ddtp : Ddtp
  pub cqb : QueueBase
  pub cqh : ℕ
  pub cqt : ℕ
  pub fqb : QueueBase
  pub fqh : ℕ
  pub fqt : ℕ
  pub pqb : QueueBase
  pub pqh : ℕ
  pub pqt : ℕ
  pub cqcsr : Cqcsr
  pub fqcsr : Fqcsr
  pub pqcsr : Pqcsr
  pub ipsr : Ipsr
  pub iocountinh : ℕ
  pub iohpmcycles : Iohpmcycles
  pub iohpmctr : List ℕ
  pub iohpmevt : List Iohpmevt
  pub tr_req_iova : ℕ
  pub tr_req_ctrl : TrReqCtrl
  pub tr_response : TrResponse
  pub icvec : Icvec
  pub msi_cfg_tbl : List MsiCfg
  pub rcid : ℕ
  pub mcid : ℕ
  pub qosid_rsvd1 : ℕ
  pub qosid_rsvd2 : ℕ
