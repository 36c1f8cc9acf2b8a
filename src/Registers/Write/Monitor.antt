-- ===== src/Registers/Write/Monitor.antt =====
-- Writes to the counters and event selectors: `write_register` of iommu_ref_model/libiommu/src/iommu_reg.c.
use riscv_iommu_dv_model.Prelude.{
  ℕ, ◌+◌, ◌&&◌, ◌==◌, ltb, leb, if◌then◌else◌, set, low_bits, get_bits, test_bit,
}
use riscv_iommu_dv_model.Iommu.{Iommu}
use riscv_iommu_dv_model.Iommu.Regs.{Iohpmevt}
use riscv_iommu_dv_model.Registers.Layout.{event_of}

-- The selector that `iohpmevt_temp` holds.
abbrev pub selector_of : ℕ → Iohpmevt
selector_of raw = record {
  event_id = get_bits 14 0 raw;
  dmask = test_bit raw 15;
  pid_pscid = get_bits 35 16 raw;
  did_gscid = get_bits 59 36 raw;
  pv_pscv = test_bit raw 60;
  dv_gscv = test_bit raw 61;
  idt = test_bit raw 62;
  of_bit = test_bit raw 63;
}

module _ {W : Type 0} where
  unfoldable pub write_iocountinh : Iommu W → ℕ → Iommu W
  write_iocountinh s data4 =
      let r = s.reg_file in
      if r.capabilities.hpm
      then record s { reg_file = record r { iocountinh = low_bits data4 s.num_hpm } }
      else s

  unfoldable pub write_iohpmcycles : Iommu W → ℕ → Iommu W
  write_iohpmcycles s data8 =
      let r = s.reg_file in
      let width = if ltb 63 s.hpmctr_bits then 63 else s.hpmctr_bits in
      if r.capabilities.hpm
      then record s {
        reg_file = record r {
          iohpmcycles = record {
            counter = low_bits (get_bits 62 0 data8) width;
            of_bit = test_bit data8 63;
          };
        };
      }
      else s

  -- `ctr_num` is `i + 1`; the counters are 1 to `num_hpm - 1`.
  unfoldable pub write_iohpmctr : Iommu W → (i data8 : ℕ) → Iommu W
  write_iohpmctr s i data8 =
      let r = s.reg_file in
      let value = if s.hpmctr_bits == 64 then data8 else low_bits data8 s.hpmctr_bits in
      if r.capabilities.hpm && leb (i + 2) s.num_hpm
      then record s { reg_file = record r { iohpmctr = set r.iohpmctr i value } }
      else s

  unfoldable pub write_iohpmevt : Iommu W → (i data8 : ℕ) → Iommu W
  write_iohpmevt s i data8 =
      let r = s.reg_file in
      let e = selector_of data8 in
      let id = if ltb s.event_id_limit e.event_id then (event_of r i).event_id else e.event_id in
      if r.capabilities.hpm && leb (i + 2) s.num_hpm
      then record s {
        reg_file = record r { iohpmevt = set r.iohpmevt i (record e { event_id = id }) };
      }
      else s
