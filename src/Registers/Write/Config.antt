-- ===== src/Registers/Write/Config.antt =====
-- Writes to `fctl`, `ddtp` and `iommu_qosid`: `write_register` of iommu_ref_model/libiommu/src/iommu_reg.c.
use riscv_iommu_dv_model.Prelude.{
  ℕ, ◌-◌, bit_and, Bool, not, ◌&&◌, ◌||◌, ◌==◌, leb, if◌then◌else◌, low_bits, get_bits, test_bit,
}
use riscv_iommu_dv_model.Iommu.{Iommu}

module _ {W : Type 0} where
  -- Whether a write to `fctl` is refused because a part of the IOMMU is in use.
  pub is_running : Iommu W → Bool
  is_running s =
      let r = s.reg_file in
      not (r.ddtp.iommu_mode == 0)
      || r.cqcsr.cqen
      || r.cqcsr.cqon
      || r.fqcsr.fqen
      || r.fqcsr.fqon
      || r.pqcsr.pqen
      || r.pqcsr.pqon

  unfoldable pub write_fctl : Iommu W → ℕ → Iommu W
  write_fctl s data4 =
      let r = s.reg_file in
      let f = r.fctl in
      let c = r.capabilities in
      if not c.both_end && not (c.igs == 2) then s else if is_running s then s else record s {
        reg_file = record r {
          fctl = record f {
            be = if c.both_end then test_bit data4 0 else f.be;
            wsi = if c.igs == 2 then test_bit data4 1 else f.wsi;
          };
        };
      }

  unfoldable pub write_ddtp : Iommu W → ℕ → Iommu W
  write_ddtp s data8 =
      let r = s.reg_file in
      let d = r.ddtp in
      let mode = get_bits 3 0 data8 in
      let legal = leb mode 4 && leb mode s.max_iommu_mode in
      let allowed = d.iommu_mode == 0 || d.iommu_mode == 1 || mode == 0 || mode == 1 in
      if d.busy
      then s
      else if legal && allowed
      then record s {
        reg_file = record r {
          ddtp = record d {
            iommu_mode = mode;
            ppn = low_bits (get_bits 53 10 data8) (r.capabilities.pas - 12);
          };
        };
      }
      else s

  unfoldable pub write_qosid : Iommu W → ℕ → Iommu W
  write_qosid s data4 =
      let r = s.reg_file in
      let v = bit_and data4 s.iommu_qosid_mask in
      if r.capabilities.qosid
      then record s {
        reg_file = record r {
          rcid = get_bits 11 0 v;
          qosid_rsvd1 = get_bits 15 12 v;
          mcid = get_bits 27 16 v;
          qosid_rsvd2 = get_bits 31 28 v;
        };
      }
      else s
