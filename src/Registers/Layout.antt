-- ===== src/Registers/Layout.antt =====
-- The layout of the register file: the unions of
-- iommu_ref_model/libiommu/include/iommu_registers.h as words, the offsets of the registers, and the
-- table `offset_to_size` that `reset_iommu` of iommu_ref_model/libiommu/src/iommu_reg.c fills.
mod Words
pub use Words.*
use riscv_iommu_dv_model.Prelude.{
  ℕ, ◌+◌, ◌-◌, ◌*◌, ◌/◌, ◌%◌, ◌^◌, Bool, false, not, ◌&&◌, ◌||◌, ◌==◌, ltb, leb, if◌then◌else◌,
  get_or, bit,
}
use riscv_iommu_dv_model.Iommu.Regs.{
  Capabilities, Fctl, Ddtp, QueueBase, Cqcsr, Fqcsr, Pqcsr, Ipsr, Iohpmcycles, Iohpmevt, TrReqCtrl,
  TrResponse, Icvec, MsiCfg, RegFile,
}

abbrev pub no_event : Iohpmevt
no_event = record {
  event_id = 0;
  dmask = false;
  pid_pscid = 0;
  did_gscid = 0;
  pv_pscv = false;
  dv_gscv = false;
  idt = false;
  of_bit = false;
}

abbrev pub event_of : RegFile → ℕ → Iohpmevt
event_of r i = get_or r.iohpmevt i no_event

abbrev pub msi_of : RegFile → ℕ → MsiCfg
msi_of r i = get_or r.msi_cfg_tbl i (record { msi_addr = 0; msi_data = 0; m = false })

abbrev pub msi_half : RegFile → ℕ → ℕ
msi_half r o =
    let cfg = msi_of r ((o - 768) / 16) in
    if o % 16 == 0 then cfg.msi_addr else cfg.msi_data + bit cfg.m * 2 ^ 32

-- `reg_file.regs8[o / 8]`, for an offset `o` that is a multiple of 8.
unfoldable pub regs8 : RegFile → ℕ → ℕ
regs8 r o =
    if o == 0
    then capabilities_raw r.capabilities
    else if o == 8
    then fctl_raw r.fctl
    else if o == 16
    then ddtp_raw r.ddtp
    else if o == 24
    then queue_base_raw r.cqb
    else if o == 32
    then r.cqh + r.cqt * 2 ^ 32
    else if o == 40
    then queue_base_raw r.fqb
    else if o == 48
    then r.fqh + r.fqt * 2 ^ 32
    else if o == 56
    then queue_base_raw r.pqb
    else if o == 64
    then r.pqh + r.pqt * 2 ^ 32
    else if o == 72
    then cqcsr_raw r.cqcsr + fqcsr_raw r.fqcsr * 2 ^ 32
    else if o == 80
    then pqcsr_raw r.pqcsr + ipsr_raw r.ipsr * 2 ^ 32
    else if o == 88
    then r.iocountinh * 2 ^ 32
    else if o == 96
    then iohpmcycles_raw r.iohpmcycles
    else if ltb o 104
    then 0
    else if ltb o 352
    then get_or r.iohpmctr ((o - 104) / 8) 0
    else if ltb o 600
    then iohpmevt_raw (event_of r ((o - 352) / 8))
    else if o == 600
    then r.tr_req_iova
    else if o == 608
    then tr_req_ctrl_raw r.tr_req_ctrl
    else if o == 616
    then tr_response_raw r.tr_response
    else if o == 624
    then r.rcid + r.qosid_rsvd1 * 2 ^ 12 + r.mcid * 2 ^ 16 + r.qosid_rsvd2 * 2 ^ 28
    else if o == 760
    then icvec_raw r.icvec
    else if leb 768 o && ltb o 1024
    then msi_half r o
    else 0

-- `reg_file.regs4[o / 4]`: the half of the word of 8 bytes that holds it.
unfoldable pub regs4 : RegFile → ℕ → ℕ
regs4 r o = if o % 8 == 0 then regs8 r o % 2 ^ 32 else regs8 r (o - o % 8) / 2 ^ 32

-- The offsets to which `reset_iommu` gives the size 8, and 4, among the multiples of 4.
unfoldable pub is_size_8 : ℕ → Bool
is_size_8 o =
    o == 0
    || o == 4
    || o == 16
    || o == 20
    || o == 24
    || o == 28
    || o == 40
    || o == 44
    || o == 56
    || o == 60
    || (leb 96 o && ltb o 624)
    || o == 760
    || o == 764
    || (leb 768 o && ltb o 1024 && ltb (o % 16) 8)

unfoldable pub is_size_4 : ℕ → Bool
is_size_4 o =
    o == 8
    || (leb 32 o && ltb o 40)
    || (leb 48 o && ltb o 56)
    || (leb 64 o && ltb o 96)
    || o == 624
    || (leb 768 o && ltb o 1024 && leb 8 (o % 16))

-- `offset_to_size[o]` after `reset_iommu`: 0xFF at the offsets that name no register.
unfoldable pub offset_to_size : ℕ → ℕ
offset_to_size o =
    if leb 628 o && ltb o 760
    then 1
    else if not (o % 4 == 0)
    then 0xFF
    else if is_size_8 o
    then 8
    else if is_size_4 o
    then 4
    else 0xFF

-- `is_access_valid`
unfoldable pub is_access_valid : (offset num_bytes : ℕ) → Bool
is_access_valid offset num_bytes =
    (num_bytes == 4 || num_bytes == 8)
    && ltb offset 4096
    && offset % num_bytes == 0
    && leb num_bytes (offset_to_size offset)

-- The registers that `write_register` writes, with their indices in the arrays.
pub data Register : Type 0 where
  fctl ddtp cqb cqt fqb fqh pqb pqh cqcsr fqcsr pqcsr ipsr iocountinh iohpmcycles : Register
  iohpmctr iohpmevt : ℕ → Register
  tr_req_iova tr_req_ctrl iommu_qosid icvec : Register
  msi_addr msi_data msi_vec_ctrl : ℕ → Register
  read_only : Register

-- The labels of the switch of `write_register`.
unfoldable pub register_at : ℕ → Register
register_at o =
    if o == 8
    then fctl
    else if o == 16
    then ddtp
    else if o == 24
    then cqb
    else if o == 36
    then cqt
    else if o == 40
    then fqb
    else if o == 48
    then fqh
    else if o == 56
    then pqb
    else if o == 64
    then pqh
    else if o == 72
    then cqcsr
    else if o == 76
    then fqcsr
    else if o == 80
    then pqcsr
    else if o == 84
    then ipsr
    else if o == 92
    then iocountinh
    else if o == 96
    then iohpmcycles
    else if leb 104 o && ltb o 352 && o % 8 == 0
    then iohpmctr ((o - 104) / 8)
    else if leb 352 o && ltb o 600 && o % 8 == 0
    then iohpmevt ((o - 352) / 8)
    else if o == 600
    then tr_req_iova
    else if o == 608
    then tr_req_ctrl
    else if o == 624
    then iommu_qosid
    else if o == 760
    then icvec
    else if leb 768 o && ltb o 1024 && o % 16 == 0
    then msi_addr ((o - 768) / 16)
    else if leb 768 o && ltb o 1024 && o % 16 == 8
    then msi_data ((o - 768) / 16)
    else if leb 768 o && ltb o 1024 && o % 16 == 12
    then msi_vec_ctrl ((o - 768) / 16)
    else read_only
