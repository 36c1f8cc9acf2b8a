-- ===== src/Registers/Write/Debug.antt =====
-- The translation-request interface: `write_register` of iommu_ref_model/libiommu/src/iommu_reg.c.
use riscv_iommu_dv_model.Prelude.{
  ℕ, ◌%◌, ◌^◌, true, false, not, ◌&&◌, ◌==◌, if◌then◌else◌, clear_low, get_bits, test_bit,
}
use riscv_iommu_dv_model.Iommu.{Iommu}
use riscv_iommu_dv_model.Iommu.Platform.{Platform}
use riscv_iommu_dv_model.Iommu.Regs.{TrReqCtrl, TrResponse}
use riscv_iommu_dv_model.Iommu.Request.{
  HbRequest, HbResponse, success, addr_type_untranslated, read_access, write_access,
}

-- `tr_req_ctrl` after the write of `data8`, its fields `reserved` and `custom` cleared.
abbrev pub tr_req_ctrl_of : ℕ → TrReqCtrl
tr_req_ctrl_of raw = record {
  go_busy = test_bit raw 0;
  priv = test_bit raw 1;
  exe = test_bit raw 2;
  nw = test_bit raw 3;
  reserved0 = get_bits 11 4 raw;
  pid = get_bits 31 12 raw;
  pv = test_bit raw 32;
  reserved = 0;
  custom = 0;
  did = get_bits 63 40 raw;
}

module _ {W : Type 0} where
  unfoldable pub write_tr_req_iova : Iommu W → ℕ → Iommu W
  write_tr_req_iova s data8 =
      let r = s.reg_file in
      if r.capabilities.dbg && not r.tr_req_ctrl.go_busy
      then record s { reg_file = record r { tr_req_iova = clear_low data8 12 } }
      else s

module _ {W : Type 0} (P : Platform W) where
  -- The request that `tr_req_ctrl` describes. Its field `no_write` is not set in C; the argument is
  -- what it holds.
  abbrev pub debug_request : Iommu W → ℕ → TrReqCtrl → HbRequest
  debug_request s no_write t = record {
    device_id = t.did;
    pid_valid = if t.pv then 1 else 0;
    process_id = t.pid;
    no_write = no_write;
    exec_req = if t.exe then 1 else 0;
    priv_req = if t.priv then 1 else 0;
    is_cxl_dev = 0;
    tr = record {
      at = addr_type_untranslated;
      iova = s.reg_file.tr_req_iova;
      length = 1;
      read_write_amo = if t.nw then read_access else write_access;
    };
  }

  abbrev pub debug_response : HbResponse → TrResponse
  debug_response rsp = elim rsp.status [
    | success ↦ record {
      fault = false;
      pbmt = rsp.trsp.pbmt % 4;
      s = rsp.trsp.s % 2 == 1;
      ppn = rsp.trsp.ppn % 2 ^ 44;
    }
    | _ ↦ record { fault = true; pbmt = 0; s = false; ppn = 0 }
  ]

  -- The translation-request interface, over the translation that it calls.
  module _ (translate : Iommu W → HbRequest → HbResponse × Iommu W) where
    unfoldable pub write_tr_req_ctrl : Iommu W → (no_write data8 : ℕ) → Iommu W
    write_tr_req_ctrl s no_write data8 =
        let r = s.reg_file in
        let c = tr_req_ctrl_of data8 in
        let t : Iommu W = record s {
          reg_file = record r { tr_req_ctrl = c };
          trans_for_debug = 1;
        } in
        let (rsp, u) = translate t (debug_request s no_write c) in
        let r' = u.reg_file in
        let c' = r'.tr_req_ctrl in
        if not (r.capabilities.dbg && not r.tr_req_ctrl.go_busy)
        then s
        else if not c.go_busy
        then record s { reg_file = record r { tr_req_ctrl = c } }
        else record u {
          trans_for_debug = 0;
          reg_file = record r' {
            tr_response = debug_response rsp;
            tr_req_ctrl = record c' { go_busy = false };
          };
        }
