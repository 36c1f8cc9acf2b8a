-- ===== src/Registers/Write/Interrupts.antt =====
-- Writes to the pending bits, the vectors and the MSI table: `write_register` of
-- iommu_ref_model/libiommu/src/iommu_reg.c.
use riscv_iommu_dv_model.Prelude.{
  ℕ, ◌+◌, ◌-◌, ◌*◌, ◌%◌, ◌^◌, Bool, false, not, ◌&&◌, ◌||◌, ◌==◌, ltb, if◌then◌else◌, modify,
  low_bits, clear_low, get_bits, test_bit,
}
use riscv_iommu_dv_model.Iommu.{Iommu}
use riscv_iommu_dv_model.Iommu.Platform.{Platform}
use riscv_iommu_dv_model.Iommu.Regs.{MsiCfg}
use riscv_iommu_dv_model.Fault.{
  command_queue, fault_queue, page_queue, generate_interrupt, release_pending_interrupt,
}
use riscv_iommu_dv_model.Registers.Layout.{msi_of}

module _ {W : Type 0} where
  -- The vectors come from `data4`, whichever half of the register is written.
  unfoldable pub write_icvec : Iommu W → ℕ → Iommu W
  write_icvec s data4 =
      let r = s.reg_file in
      let c = r.capabilities in
      let n = s.num_vec_bits in
      record s {
        reg_file = record r {
          icvec = record {
            civ = low_bits (get_bits 3 0 data4) n;
            fiv = low_bits (get_bits 7 4 data4) n;
            pmiv = if c.hpm then low_bits (get_bits 11 8 data4) n else 0;
            piv = if c.ats then low_bits (get_bits 15 12 data4) n else 0;
          };
        };
      }

  -- The test before every write to the MSI table: 1 is WSI.
  abbrev pub has_vector : Iommu W → ℕ → Bool
  has_vector s x = not (s.reg_file.capabilities.igs == 1) && ltb x (2 ^ s.num_vec_bits)

  -- Only the field `addr`, bits 55 to 2, is written.
  unfoldable pub write_msi_addr : Iommu W → (x data8 : ℕ) → Iommu W
  write_msi_addr s x data8 =
      let r = s.reg_file in
      let addr = low_bits (get_bits 55 2 data8) (r.capabilities.pas - 2) in
      let change = λ (m : MsiCfg). record m {
        msi_addr = m.msi_addr % 4 + addr * 4 + clear_low m.msi_addr 56;
      } in
      if has_vector s x
      then record s { reg_file = record r { msi_cfg_tbl = modify r.msi_cfg_tbl x change } }
      else s

  unfoldable pub write_msi_data : Iommu W → (x data4 : ℕ) → Iommu W
  write_msi_data s x data4 =
      let r = s.reg_file in
      let change = λ (m : MsiCfg). record m { msi_data = data4 } in
      if has_vector s x
      then record s { reg_file = record r { msi_cfg_tbl = modify r.msi_cfg_tbl x change } }
      else s

module _ {W : Type 0} (P : Platform W) where
  -- The three parts of the write to `ipsr` that may raise an interrupt again, in their order.
  unfoldable pub clear_cip : Iommu W → Bool → Iommu W
  clear_cip s cip =
      let r = s.reg_file in
      let p = r.ipsr in
      let c = r.cqcsr in
      let t : Iommu W = record s { reg_file = record r { ipsr = record p { cip = false } } } in
      if not cip
      then s
      else if (c.cmd_to || c.cmd_ill || c.cqmf || c.fence_w_ip) && c.cie
      then generate_interrupt P t command_queue
      else t

  unfoldable pub clear_fip : Iommu W → Bool → Iommu W
  clear_fip s fip =
      let r = s.reg_file in
      let p = r.ipsr in
      let c = r.fqcsr in
      let t : Iommu W = record s { reg_file = record r { ipsr = record p { fip = false } } } in
      if not fip
      then s
      else if (c.fqof || c.fqmf) && c.fie
      then generate_interrupt P t fault_queue
      else t

  unfoldable pub clear_pip : Iommu W → Bool → Iommu W
  clear_pip s pip =
      let r = s.reg_file in
      let p = r.ipsr in
      let c = r.pqcsr in
      let t : Iommu W = record s { reg_file = record r { ipsr = record p { pip = false } } } in
      if not pip
      then s
      else if (c.pqof || c.pqmf) && c.pie
      then generate_interrupt P t page_queue
      else t

  unfoldable pub write_ipsr : Iommu W → ℕ → Iommu W
  write_ipsr s data4 =
      let t =
        clear_pip (clear_fip (clear_cip s (test_bit data4 0)) (test_bit data4 1))
          (test_bit data4 3) in
      let r = t.reg_file in
      let p = r.ipsr in
      if test_bit data4 2
      then record t { reg_file = record r { ipsr = record p { pmip = false } } }
      else t

  unfoldable pub write_msi_vec_ctrl : Iommu W → (x data4 : ℕ) → Iommu W
  write_msi_vec_ctrl s x data4 =
      let m' = test_bit data4 0 in
      let t = if not m' && (msi_of s.reg_file x).m then release_pending_interrupt P s x else s in
      let r = t.reg_file in
      if has_vector s x
      then record t {
        reg_file = record r { msi_cfg_tbl = modify r.msi_cfg_tbl x (λ m. record m { m = m' }) };
      }
      else s
