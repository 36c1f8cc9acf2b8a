-- ===== src/Registers/Write/Queues.antt =====
-- Writes to the registers of the three queues: `write_register` of
-- iommu_ref_model/libiommu/src/iommu_reg.c.
use riscv_iommu_dv_model.Prelude.{
  ℕ, ◌+◌, ◌-◌, Bool, true, false, not, ◌&&◌, ◌||◌, ◌==◌, if◌then◌else◌, low_bits, get_bits,
  test_bit,
}
use riscv_iommu_dv_model.Iommu.{Iommu}
use riscv_iommu_dv_model.Iommu.Regs.{QueueBase}

abbrev pub same_bit : Bool → Bool → Bool
same_bit a b = if a then b else not b

-- The base of a queue: the page number keeps the bits that `capabilities.pas` leaves.
abbrev pub base_of : ℕ → ℕ → QueueBase
base_of pas data8 = record {
  log2szm1 = get_bits 4 0 data8;
  ppn = low_bits (get_bits 53 10 data8) (pas - 12);
}

module _ {W : Type 0} where
  unfoldable pub write_cqb : Iommu W → ℕ → Iommu W
  write_cqb s data8 =
      let r = s.reg_file in
      if r.cqcsr.busy || r.cqcsr.cqon
      then s
      else record s { reg_file = record r { cqb = base_of r.capabilities.pas data8; cqt = 0 } }

  unfoldable pub write_cqt : Iommu W → ℕ → Iommu W
  write_cqt s data4 =
      let r = s.reg_file in
      record s { reg_file = record r { cqt = low_bits data4 (r.cqb.log2szm1 + 1) } }

  unfoldable pub write_fqb : Iommu W → ℕ → Iommu W
  write_fqb s data8 =
      let r = s.reg_file in
      if r.fqcsr.busy || r.fqcsr.fqon
      then s
      else record s { reg_file = record r { fqb = base_of r.capabilities.pas data8; fqh = 0 } }

  unfoldable pub write_fqh : Iommu W → ℕ → Iommu W
  write_fqh s data4 =
      let r = s.reg_file in
      record s { reg_file = record r { fqh = low_bits data4 (r.fqb.log2szm1 + 1) } }

  unfoldable pub write_pqb : Iommu W → ℕ → Iommu W
  write_pqb s data8 =
      let r = s.reg_file in
      if not r.capabilities.ats
      then s
      else if r.pqcsr.busy || r.pqcsr.pqon
      then s
      else record s { reg_file = record r { pqb = base_of r.capabilities.pas data8; pqh = 0 } }

  unfoldable pub write_pqh : Iommu W → ℕ → Iommu W
  write_pqh s data4 =
      let r = s.reg_file in
      if not r.capabilities.ats
      then s
      else record s { reg_file = record r { pqh = low_bits data4 (r.pqb.log2szm1 + 1) } }

  -- The change of `cqcsr.cqen`, if the write makes one. A queue with a fence that waits stays on.
  unfoldable pub switch_cq : Iommu W → Bool → Iommu W
  switch_cq s cqen =
      let r = s.reg_file in
      let c = r.cqcsr in
      if same_bit c.cqen cqen
      then s
      else if cqen
      then record s {
        reg_file = record r {
          cqh = 0;
          cqcsr = record c {
            cmd_ill = false;
            cmd_to = false;
            cqmf = false;
            fence_w_ip = false;
            cqen = true;
            cqon = true;
          };
        };
      }
      else record s {
        reg_file = record r {
          cqcsr = record c {
            cqen = false;
            cqon = if s.iofence_wait_pending_inv == 0 then false else c.cqon;
          };
        };
      }

  unfoldable pub write_cqcsr : Iommu W → ℕ → Iommu W
  write_cqcsr s data4 =
      let t = switch_cq s (test_bit data4 0) in
      let r = t.reg_file in
      let c = r.cqcsr in
      if s.reg_file.cqcsr.busy then s else record t {
        reg_file = record r {
          cqcsr = record c {
            cie = test_bit data4 1;
            cqmf = c.cqmf && not (test_bit data4 8);
            cmd_to = c.cmd_to && not (test_bit data4 9);
            cmd_ill = c.cmd_ill && not (test_bit data4 10);
            fence_w_ip = c.fence_w_ip && not (test_bit data4 11);
            busy = not (same_bit c.cqen c.cqon);
          };
        };
      }

  unfoldable pub switch_fq : Iommu W → Bool → Iommu W
  switch_fq s fqen =
      let r = s.reg_file in
      let c = r.fqcsr in
      if same_bit c.fqen fqen
      then s
      else if fqen
      then record s {
        reg_file = record r {
          fqt = 0;
          fqcsr = record c { fqof = false; fqmf = false; fqon = true; fqen = true };
        };
      }
      else record s { reg_file = record r { fqcsr = record c { fqon = false; fqen = false } } }

  unfoldable pub write_fqcsr : Iommu W → ℕ → Iommu W
  write_fqcsr s data4 =
      let t = switch_fq s (test_bit data4 0) in
      let r = t.reg_file in
      let c = r.fqcsr in
      if s.reg_file.fqcsr.busy then s else record t {
        reg_file = record r {
          fqcsr = record c {
            fie = test_bit data4 1;
            fqmf = c.fqmf && not (test_bit data4 8);
            fqof = c.fqof && not (test_bit data4 9);
            busy = false;
          };
        };
      }

  unfoldable pub switch_pq : Iommu W → Bool → Iommu W
  switch_pq s pqen =
      let r = s.reg_file in
      let c = r.pqcsr in
      if same_bit c.pqen pqen
      then s
      else if pqen
      then record s {
        reg_file = record r {
          pqt = 0;
          pqcsr = record c { pqof = false; pqmf = false; pqon = true; pqen = true };
        };
      }
      else record s { reg_file = record r { pqcsr = record c { pqon = false; pqen = false } } }

  unfoldable pub write_pqcsr : Iommu W → ℕ → Iommu W
  write_pqcsr s data4 =
      let t = switch_pq s (test_bit data4 0) in
      let r = t.reg_file in
      let c = r.pqcsr in
      if s.reg_file.pqcsr.busy then s else record t {
        reg_file = record r {
          pqcsr = record c {
            pie = test_bit data4 1;
            pqmf = c.pqmf && not (test_bit data4 8);
            pqof = c.pqof && not (test_bit data4 9);
            busy = false;
          };
        };
      }
