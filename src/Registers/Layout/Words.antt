-- ===== src/Registers/Layout/Words.antt =====
-- The unions of iommu_ref_model/libiommu/include/iommu_registers.h as words: the member `raw` of each,
-- from its fields.
use riscv_iommu_dv_model.Prelude.{ℕ, ◌+◌, ◌*◌, ◌^◌, bit}
use riscv_iommu_dv_model.Iommu.Regs.{
  Capabilities, Fctl, Ddtp, QueueBase, Cqcsr, Fqcsr, Pqcsr, Ipsr, Iohpmcycles, Iohpmevt, TrReqCtrl,
  TrResponse, Icvec,
}

abbrev pub capabilities_raw : Capabilities → ℕ
capabilities_raw c =
    c.version
    + bit c.sv32 * 2 ^ 8
    + bit c.sv39 * 2 ^ 9
    + bit c.sv48 * 2 ^ 10
    + bit c.sv57 * 2 ^ 11
    + c.rsvd0 * 2 ^ 12
    + bit c.svrsw60t59b * 2 ^ 14
    + bit c.svpbmt * 2 ^ 15
    + bit c.sv32x4 * 2 ^ 16
    + bit c.sv39x4 * 2 ^ 17
    + bit c.sv48x4 * 2 ^ 18
    + bit c.sv57x4 * 2 ^ 19
    + bit c.rsvd1 * 2 ^ 20
    + bit c.amo_mrif * 2 ^ 21
    + bit c.msi_flat * 2 ^ 22
    + bit c.msi_mrif * 2 ^ 23
    + bit c.amo_hwad * 2 ^ 24
    + bit c.ats * 2 ^ 25
    + bit c.t2gpa * 2 ^ 26
    + bit c.both_end * 2 ^ 27
    + c.igs * 2 ^ 28
    + bit c.hpm * 2 ^ 30
    + bit c.dbg * 2 ^ 31
    + c.pas * 2 ^ 32
    + bit c.pd8 * 2 ^ 38
    + bit c.pd17 * 2 ^ 39
    + bit c.pd20 * 2 ^ 40
    + bit c.qosid * 2 ^ 41
    + bit c.nl * 2 ^ 42
    + bit c.s * 2 ^ 43
    + c.rsvd3 * 2 ^ 44
    + c.custom * 2 ^ 56

abbrev pub fctl_raw : Fctl → ℕ
fctl_raw f = bit f.be + bit f.wsi * 2 + bit f.gxl * 4 + f.reserved * 2 ^ 3 + f.custom * 2 ^ 16

abbrev pub ddtp_raw : Ddtp → ℕ
ddtp_raw d = d.iommu_mode + bit d.busy * 2 ^ 4 + d.ppn * 2 ^ 10

abbrev pub queue_base_raw : QueueBase → ℕ
queue_base_raw q = q.log2szm1 + q.ppn * 2 ^ 10

abbrev pub cqcsr_raw : Cqcsr → ℕ
cqcsr_raw c =
    bit c.cqen
    + bit c.cie * 2
    + bit c.cqmf * 2 ^ 8
    + bit c.cmd_to * 2 ^ 9
    + bit c.cmd_ill * 2 ^ 10
    + bit c.fence_w_ip * 2 ^ 11
    + bit c.cqon * 2 ^ 16
    + bit c.busy * 2 ^ 17

abbrev pub fqcsr_raw : Fqcsr → ℕ
fqcsr_raw c =
    bit c.fqen
    + bit c.fie * 2
    + bit c.fqmf * 2 ^ 8
    + bit c.fqof * 2 ^ 9
    + bit c.fqon * 2 ^ 16
    + bit c.busy * 2 ^ 17

abbrev pub pqcsr_raw : Pqcsr → ℕ
pqcsr_raw c =
    bit c.pqen
    + bit c.pie * 2
    + bit c.pqmf * 2 ^ 8
    + bit c.pqof * 2 ^ 9
    + bit c.pqon * 2 ^ 16
    + bit c.busy * 2 ^ 17

abbrev pub ipsr_raw : Ipsr → ℕ
ipsr_raw p = bit p.cip + bit p.fip * 2 + bit p.pmip * 4 + bit p.pip * 8

abbrev pub iohpmcycles_raw : Iohpmcycles → ℕ
iohpmcycles_raw c = c.counter + bit c.of_bit * 2 ^ 63

abbrev pub iohpmevt_raw : Iohpmevt → ℕ
iohpmevt_raw e =
    e.event_id
    + bit e.dmask * 2 ^ 15
    + e.pid_pscid * 2 ^ 16
    + e.did_gscid * 2 ^ 36
    + bit e.pv_pscv * 2 ^ 60
    + bit e.dv_gscv * 2 ^ 61
    + bit e.idt * 2 ^ 62
    + bit e.of_bit * 2 ^ 63

abbrev pub tr_req_ctrl_raw : TrReqCtrl → ℕ
tr_req_ctrl_raw t =
    bit t.go_busy
    + bit t.priv * 2
    + bit t.exe * 4
    + bit t.nw * 8
    + t.reserved0 * 2 ^ 4
    + t.pid * 2 ^ 12
    + bit t.pv * 2 ^ 32
    + t.reserved * 2 ^ 33
    + t.custom * 2 ^ 36
    + t.did * 2 ^ 40

abbrev pub tr_response_raw : TrResponse → ℕ
tr_response_raw t = bit t.fault + t.pbmt * 2 ^ 7 + bit t.s * 2 ^ 9 + t.ppn * 2 ^ 10

abbrev pub icvec_raw : Icvec → ℕ
icvec_raw v = v.civ + v.fiv * 2 ^ 4 + v.pmiv * 2 ^ 8 + v.piv * 2 ^ 12
