-- ===== src/Registers.antt =====
-- The register interface: `read_register`, `write_register`, `get_iocountovf` and `reset_iommu` of
-- iommu_ref_model/libiommu/src/iommu_reg.c.
pub mod Layout
pub mod Write
pub mod Effects
pub mod Guards
pub mod Access
use riscv_iommu_dv_model.Prelude.{
  ℕ, zero, suc, ◌+◌, ◌-◌, ◌*◌, ◌/◌, ◌%◌, ◌^◌, Bool, true, false, not, ◌&&◌, ◌||◌, ◌==◌, List, [],
  ◌∷◌, if◌then◌else◌, bit, low_bits,
}
use riscv_iommu_dv_model.Iommu.{Iommu}
use riscv_iommu_dv_model.Iommu.Platform.{Platform}
use riscv_iommu_dv_model.Iommu.Regs.{Capabilities, Fctl, Iohpmevt, RegFile, MsiCfg}
use riscv_iommu_dv_model.Iommu.Request.{HbRequest, HbResponse}
use Layout.{
  regs4, regs8, offset_to_size, is_access_valid, Register, fctl, ddtp, cqb, cqt, fqb, fqh, pqb, pqh,
  cqcsr, fqcsr, pqcsr, ipsr, iocountinh, iohpmcycles, iohpmctr, iohpmevt, tr_req_iova, tr_req_ctrl,
  iommu_qosid, icvec, msi_addr, msi_data, msi_vec_ctrl, read_only, register_at, event_of, no_event,
}
use Write.{
  write_fctl, write_ddtp, write_cqb, write_cqt, write_fqb, write_fqh, write_pqb, write_pqh,
  write_cqcsr, write_fqcsr, write_pqcsr, write_ipsr, write_iocountinh, write_iohpmcycles,
  write_iohpmctr, write_iohpmevt, write_tr_req_iova, write_tr_req_ctrl, write_qosid, write_icvec,
  write_msi_addr, write_msi_data, write_msi_vec_ctrl,
}

-- The loop of `get_iocountovf`: the OF bits of the counters from `i` on, for `n` rounds.
abbrev pub of_bits : RegFile → (n i : ℕ) → ℕ
of_bits r zero i = 0
of_bits r (suc n) i = bit (event_of r i).of_bit * 2 ^ i + of_bits r n (i + 1)

-- The value of a 4-byte or 8-byte access to an 8-byte register: a 4-byte write keeps the other half.
abbrev pub merged : RegFile → (offset num_bytes word : ℕ) → ℕ
merged r offset num_bytes word =
    let data4 = word % 2 ^ 32 in
    let old = regs8 r (offset - offset % 8) in
    if offset_to_size offset == 8 && num_bytes == 4
    then (if not (offset % 8 == 0)
        then old % 2 ^ 32 + data4 * 2 ^ 32
        else old / 2 ^ 32 * 2 ^ 32 + data4)
    else word

abbrev pub target : (offset num_bytes : ℕ) → ℕ
target offset num_bytes =
    if offset_to_size offset == 8 && num_bytes == 4 then offset - offset % 8 else offset

module _ {W : Type 0} where
  -- `get_iocountovf`
  unfoldable pub get_iocountovf : Iommu W → ℕ
  get_iocountovf s =
      let r = s.reg_file in bit r.iohpmcycles.of_bit + of_bits r (s.num_hpm - 1) 0 % 2 ^ 31 * 2

  -- `read_register`
  unfoldable pub read_register : Iommu W → (offset num_bytes : ℕ) → ℕ
  read_register s offset num_bytes =
      if not (is_access_valid offset num_bytes)
      then 0
      else if offset == 88
      then get_iocountovf s
      else if num_bytes == 4
      then regs4 s.reg_file offset
      else regs8 s.reg_file offset

module _ {W : Type 0} (P : Platform W)
    (translate : Iommu W → HbRequest → HbResponse × Iommu W) where
  -- The switch of `write_register`. The argument `no_write` is what that field of a debug request
  -- holds.
  unfoldable pub write_to : Register → Iommu W → (no_write data4 data8 : ℕ) → Iommu W
  write_to fctl s no_write data4 data8 = write_fctl s data4
  write_to ddtp s no_write data4 data8 = write_ddtp s data8
  write_to cqb s no_write data4 data8 = write_cqb s data8
  write_to cqt s no_write data4 data8 = write_cqt s data4
  write_to fqb s no_write data4 data8 = write_fqb s data8
  write_to fqh s no_write data4 data8 = write_fqh s data4
  write_to pqb s no_write data4 data8 = write_pqb s data8
  write_to pqh s no_write data4 data8 = write_pqh s data4
  write_to cqcsr s no_write data4 data8 = write_cqcsr s data4
  write_to fqcsr s no_write data4 data8 = write_fqcsr s data4
  write_to pqcsr s no_write data4 data8 = write_pqcsr s data4
  write_to ipsr s no_write data4 data8 = write_ipsr P s data4
  write_to iocountinh s no_write data4 data8 = write_iocountinh s data4
  write_to iohpmcycles s no_write data4 data8 = write_iohpmcycles s data8
  write_to (iohpmctr i) s no_write data4 data8 = write_iohpmctr s i data8
  write_to (iohpmevt i) s no_write data4 data8 = write_iohpmevt s i data8
  write_to tr_req_iova s no_write data4 data8 = write_tr_req_iova s data8
  write_to tr_req_ctrl s no_write data4 data8 = write_tr_req_ctrl P translate s no_write data8
  write_to iommu_qosid s no_write data4 data8 = write_qosid s data4
  write_to icvec s no_write data4 data8 = write_icvec s data4
  write_to (msi_addr x) s no_write data4 data8 = write_msi_addr s x data8
  write_to (msi_data x) s no_write data4 data8 = write_msi_data s x data4
  write_to (msi_vec_ctrl x) s no_write data4 data8 = write_msi_vec_ctrl P s x data4
  write_to read_only s no_write data4 data8 = s

  -- `write_register`
  unfoldable pub write_register : Iommu W → (no_write offset num_bytes word : ℕ) → Iommu W
  write_register s no_write offset num_bytes word =
      if is_access_valid offset num_bytes
      then write_to (register_at (target offset num_bytes)) s no_write (word % 2 ^ 32)
          (merged s.reg_file offset num_bytes word)
      else s

-- The parameters of `reset_iommu` after the two register values.
pub record ResetParams : Type 0 where
  pub num_hpm : ℕ
  pub hpmctr_bits : ℕ
  pub event_id_limit : ℕ
  pub num_vec_bits : ℕ
  pub reset_iommu_mode : ℕ
  pub max_iommu_mode : ℕ
  pub max_devid_mask : ℕ
  pub gxl_writeable : ℕ
  pub fctl_be_writeable : ℕ
  pub fill_ats_trans_in_ioatc : ℕ
  pub sv57_bare_pg_sz : ℕ
  pub sv48_bare_pg_sz : ℕ
  pub sv39_bare_pg_sz : ℕ
  pub sv32_bare_pg_sz : ℕ
  pub sv57x4_bare_pg_sz : ℕ
  pub sv48x4_bare_pg_sz : ℕ
  pub sv39x4_bare_pg_sz : ℕ
  pub sv32x4_bare_pg_sz : ℕ

abbrev repeat {ℓ} : {A : Type ℓ} → ℕ → A → List A
repeat zero x = []
repeat (suc n) x = x ∷ repeat n x

-- The register file after `memset` and the assignments that follow it.
unfoldable pub reset_registers : Capabilities → Fctl → (reset_iommu_mode : ℕ) → RegFile
reset_registers c f mode = record {
  capabilities = c;
  fctl = f;
  ddtp = record { iommu_mode = mode % 16; busy = false; ppn = 0 };
  cqb = record { log2szm1 = 0; ppn = 0 };
  cqh = 0;
  cqt = 0;
  fqb = record { log2szm1 = 0; ppn = 0 };
  fqh = 0;
  fqt = 0;
  pqb = record { log2szm1 = 0; ppn = 0 };
  pqh = 0;
  pqt = 0;
  cqcsr = record {
    cqen = false;
    cie = false;
    cqmf = false;
    cmd_to = false;
    cmd_ill = false;
    fence_w_ip = false;
    cqon = false;
    busy = false;
  };
  fqcsr = record {
    fqen = false;
    fie = false;
    fqmf = false;
    fqof = false;
    fqon = false;
    busy = false;
  };
  pqcsr = record {
    pqen = false;
    pie = false;
    pqmf = false;
    pqof = false;
    pqon = false;
    busy = false;
  };
  ipsr = record { cip = false; fip = false; pmip = false; pip = false };
  iocountinh = 0;
  iohpmcycles = record { counter = 0; of_bit = false };
  iohpmctr = repeat 31 0;
  iohpmevt = repeat 31 no_event;
  tr_req_iova = 0;
  tr_req_ctrl = record {
    go_busy = false;
    priv = false;
    exe = false;
    nw = false;
    reserved0 = 0;
    pid = 0;
    pv = false;
    reserved = 0;
    custom = 0;
    did = 0;
  };
  tr_response = record { fault = false; pbmt = 0; s = false; ppn = 0 };
  icvec = record { civ = 0; fiv = 0; pmiv = 0; piv = 0 };
  msi_cfg_tbl = repeat 16 (record { msi_addr = 0; msi_data = 0; m = false });
  rcid = 0;
  mcid = 0;
  qosid_rsvd1 = 0;
  qosid_rsvd2 = 0;
}

-- `reset_iommu`, as it is built without DEBUG. A parameter that does not fit its field of `iommu_t` is
-- truncated.
unfoldable pub reset_iommu : {W : Type 0} → Iommu W → ResetParams → Capabilities → Fctl → Iommu W
reset_iommu s p c f = record s {
  event_id_limit = p.event_id_limit % 2 ^ 8;
  num_vec_bits = p.num_vec_bits;
  num_hpm = p.num_hpm;
  hpmctr_bits = p.hpmctr_bits;
  gxl_writeable = p.gxl_writeable;
  fctl_be_writeable = p.fctl_be_writeable;
  max_iommu_mode = p.max_iommu_mode;
  max_devid_mask = p.max_devid_mask;
  fill_ats_trans_in_ioatc = p.fill_ats_trans_in_ioatc;
  reg_file = reset_registers c f p.reset_iommu_mode;
  sv57_bare_pg_sz = p.sv57_bare_pg_sz;
  sv48_bare_pg_sz = p.sv48_bare_pg_sz;
  sv39_bare_pg_sz = p.sv39_bare_pg_sz;
  sv32_bare_pg_sz = p.sv32_bare_pg_sz;
  sv57x4_bare_pg_sz = p.sv57x4_bare_pg_sz;
  sv48x4_bare_pg_sz = p.sv48x4_bare_pg_sz;
  sv39x4_bare_pg_sz = p.sv39x4_bare_pg_sz;
  sv32x4_bare_pg_sz = p.sv32x4_bare_pg_sz;
}
