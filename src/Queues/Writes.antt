-- ===== src/Queues/Writes.antt =====
-- The queues under the writes to the registers: iommu_ref_model/libiommu/src/iommu_reg.c.
use native.Mathlib.Nat.{mod-lt}
use riscv_iommu_dv_model.Prelude.{
  ℕ, ◌/◌, ◌<◌, Bool, false, arith, Bool-cases, inl, inr, test_bit, get_bits,
}
use riscv_iommu_dv_model.Iommu.{Iommu}
use riscv_iommu_dv_model.Iommu.Platform.{Platform}
use riscv_iommu_dv_model.Fault.{command_queue, fault_queue, page_queue}
use riscv_iommu_dv_model.Registers.Write.{
  write_fctl, write_ddtp, write_cqb, write_cqt, write_fqb, write_fqh, write_pqb, write_pqh,
  switch_cq, write_cqcsr, switch_fq, write_fqcsr, switch_pq, write_pqcsr, write_iocountinh,
  write_iohpmcycles, write_iohpmctr, write_iohpmevt, write_tr_req_iova, write_qosid, write_icvec,
  write_msi_addr, write_msi_data, clear_cip, clear_fip, clear_pip, write_ipsr, write_msi_vec_ctrl,
}
use riscv_iommu_dv_model.Queues.{low_bits-entries}
use riscv_iommu_dv_model.Queues.Faults.{
  Keeps, generate_interrupt-Keeps, release_pending_interrupt-Keeps,
}

size_field : (x : ℕ) → get_bits 4 0 x < 32
size_field x = mod-lt (x / 1) (omega arith)

module _ {W : Type 0} (s : Iommu W) where
  -- The base registers: they change only while the queue is off.
  pub write_cqb-Keeps : (x : ℕ) → Keeps s (write_cqb s x)
  unfolding write_cqb
  write_cqb-Keeps x v = ground (arith, size_field x, low_bits-entries 0 (get_bits 4 0 x))

  pub write_fqb-Keeps : (x : ℕ) → Keeps s (write_fqb s x)
  unfolding write_fqb
  write_fqb-Keeps x v = ground (arith, size_field x, low_bits-entries 0 (get_bits 4 0 x))

  pub write_pqb-Keeps : (x : ℕ) → Keeps s (write_pqb s x)
  unfolding write_pqb
  write_pqb-Keeps x v = ground (arith, size_field x, low_bits-entries 0 (get_bits 4 0 x))

  -- The indices that software moves.
  pub write_cqt-Keeps : (x : ℕ) → Keeps s (write_cqt s x)
  unfolding write_cqt
  write_cqt-Keeps x v = ground (arith, low_bits-entries x s.reg_file.cqb.log2szm1)

  pub write_fqh-Keeps : (x : ℕ) → Keeps s (write_fqh s x)
  unfolding write_fqh
  write_fqh-Keeps x v = ground (arith, low_bits-entries x s.reg_file.fqb.log2szm1)

  pub write_pqh-Keeps : (x : ℕ) → Keeps s (write_pqh s x)
  unfolding write_pqh
  write_pqh-Keeps x v = ground (arith, low_bits-entries x s.reg_file.pqb.log2szm1)

  -- Turning the queues on and off.
  pub write_cqcsr-Keeps : (x : ℕ) → Keeps s (write_cqcsr s x)
  unfolding write_cqcsr switch_cq
  write_cqcsr-Keeps x v = ground (arith, low_bits-entries 0 s.reg_file.cqb.log2szm1)

  pub write_fqcsr-Keeps : (x : ℕ) → Keeps s (write_fqcsr s x)
  unfolding write_fqcsr switch_fq
  write_fqcsr-Keeps x v = ground (arith, low_bits-entries 0 s.reg_file.fqb.log2szm1)

  pub write_pqcsr-Keeps : (x : ℕ) → Keeps s (write_pqcsr s x)
  unfolding write_pqcsr switch_pq
  write_pqcsr-Keeps x v = ground (arith, low_bits-entries 0 s.reg_file.pqb.log2szm1)

  -- The registers that are none of the queues'.
  pub write_fctl-Keeps : (x : ℕ) → Keeps s (write_fctl s x)
  unfolding write_fctl
  write_fctl-Keeps x v = ground arith

  pub write_ddtp-Keeps : (x : ℕ) → Keeps s (write_ddtp s x)
  unfolding write_ddtp
  write_ddtp-Keeps x v = ground arith

  pub write_iocountinh-Keeps : (x : ℕ) → Keeps s (write_iocountinh s x)
  unfolding write_iocountinh
  write_iocountinh-Keeps x v = ground arith

  pub write_iohpmcycles-Keeps : (x : ℕ) → Keeps s (write_iohpmcycles s x)
  unfolding write_iohpmcycles
  write_iohpmcycles-Keeps x v = ground arith

  pub write_iohpmctr-Keeps : (i x : ℕ) → Keeps s (write_iohpmctr s i x)
  unfolding write_iohpmctr
  write_iohpmctr-Keeps i x v = ground arith

  pub write_iohpmevt-Keeps : (i x : ℕ) → Keeps s (write_iohpmevt s i x)
  unfolding write_iohpmevt
  write_iohpmevt-Keeps i x v = ground arith

  pub write_tr_req_iova-Keeps : (x : ℕ) → Keeps s (write_tr_req_iova s x)
  unfolding write_tr_req_iova
  write_tr_req_iova-Keeps x v = ground arith

  pub write_qosid-Keeps : (x : ℕ) → Keeps s (write_qosid s x)
  unfolding write_qosid
  write_qosid-Keeps x v = ground arith

  pub write_icvec-Keeps : (x : ℕ) → Keeps s (write_icvec s x)
  unfolding write_icvec
  write_icvec-Keeps x v = v

  pub write_msi_addr-Keeps : (i x : ℕ) → Keeps s (write_msi_addr s i x)
  unfolding write_msi_addr
  write_msi_addr-Keeps i x v = ground arith

  pub write_msi_data-Keeps : (i x : ℕ) → Keeps s (write_msi_data s i x)
  unfolding write_msi_data
  write_msi_data-Keeps i x v = ground arith

module _ {W : Type 0} (P : Platform W) (s : Iommu W) where
  -- The writes that may raise an interrupt or release one.
  clear_cip-Keeps : (b : Bool) → Keeps s (clear_cip P s b)
  unfolding clear_cip
  clear_cip-Keeps b v =
      let r = s.reg_file in
      let p = r.ipsr in
      let t : Iommu W = record s { reg_file = record r { ipsr = record p { cip = false } } } in
      let k = generate_interrupt-Keeps P t command_queue v in ground arith

  clear_fip-Keeps : (b : Bool) → Keeps s (clear_fip P s b)
  unfolding clear_fip
  clear_fip-Keeps b v =
      let r = s.reg_file in
      let p = r.ipsr in
      let t : Iommu W = record s { reg_file = record r { ipsr = record p { fip = false } } } in
      let k = generate_interrupt-Keeps P t fault_queue v in ground arith

  clear_pip-Keeps : (b : Bool) → Keeps s (clear_pip P s b)
  unfolding clear_pip
  clear_pip-Keeps b v =
      let r = s.reg_file in
      let p = r.ipsr in
      let t : Iommu W = record s { reg_file = record r { ipsr = record p { pip = false } } } in
      let k = generate_interrupt-Keeps P t page_queue v in ground arith

module _ {W : Type 0} (P : Platform W) (s : Iommu W) where
  pub write_ipsr-Keeps : (x : ℕ) → Keeps s (write_ipsr P s x)
  unfolding write_ipsr
  write_ipsr-Keeps x v =
      let t = clear_cip P s (test_bit x 0) in
      let u = clear_fip P t (test_bit x 1) in
      let k =
        clear_pip-Keeps P u (test_bit x 3)
          (clear_fip-Keeps P t (test_bit x 1) (clear_cip-Keeps P s (test_bit x 0) v)) in
      elim (Bool-cases (test_bit x 2)) [ inl e ↦ rw e k | inr e ↦ rw e k ]

  pub write_msi_vec_ctrl-Keeps : (i x : ℕ) → Keeps s (write_msi_vec_ctrl P s i x)
  unfolding write_msi_vec_ctrl
  write_msi_vec_ctrl-Keeps i x v = let k = release_pending_interrupt-Keeps P s i v in ground arith
