-- ===== src/Registers/Guards.antt =====
-- The conditions under which `write_register` changes the configuration of the IOMMU.
use riscv_iommu_dv_model.Prelude.{
  ℕ, ◌≤◌, ◌≡◌, ◌⊎◌, inl, inr, Bool, false, arith, Bool-cases, test_bit,
}
use riscv_iommu_dv_model.Iommu.{Iommu}
use riscv_iommu_dv_model.Iommu.Platform.{Platform}
use riscv_iommu_dv_model.Iommu.Request.{HbRequest, HbResponse}
use riscv_iommu_dv_model.Fault.{command_queue, fault_queue, page_queue}
use riscv_iommu_dv_model.Registers.{write_to, write_register, target}
use riscv_iommu_dv_model.Registers.Layout.{
  Register, fctl, ddtp, cqb, cqt, fqb, fqh, pqb, pqh, cqcsr, fqcsr, pqcsr, ipsr, iocountinh,
  iohpmcycles, iohpmctr, iohpmevt, tr_req_iova, tr_req_ctrl, iommu_qosid, icvec, msi_addr, msi_data,
  msi_vec_ctrl, read_only, is_access_valid, register_at,
}
use riscv_iommu_dv_model.Registers.Write.{
  is_running, write_fctl, write_ddtp, write_cqb, write_cqt, write_fqb, write_fqh, write_pqb,
  write_pqh, switch_cq, write_cqcsr, switch_fq, write_fqcsr, switch_pq, write_pqcsr,
  write_iocountinh, write_iohpmcycles, write_iohpmctr, write_iohpmevt, write_tr_req_iova,
  write_qosid, write_icvec, write_msi_addr, write_msi_data, clear_cip, clear_fip, clear_pip,
  write_ipsr, write_msi_vec_ctrl, write_tr_req_ctrl, tr_req_ctrl_of, debug_request,
}
use riscv_iommu_dv_model.Registers.Effects.{
  Effects, SameConfig, SameConfig-refl, SameConfig-trans, Effects-SameConfig,
  generate_interrupt-SameConfig, release_pending_interrupt-SameConfig,
}

-- What a write keeps, or when it may change it. Modes 0 and 1 are Off and Bare.
pub record IsGuarded {W : Type 0} (s t : Iommu W) : Type 0 where
  pub capabilities_kept : t.reg_file.capabilities ≡ s.reg_file.capabilities
  pub fctl_guarded : (t.reg_file.fctl ≡ s.reg_file.fctl) ⊎ (is_running s ≡ false)
  pub ddtp_guarded :
      (t.reg_file.ddtp ≡ s.reg_file.ddtp)
      ⊎ ((s.reg_file.ddtp.iommu_mode ≤ 1) ⊎ (t.reg_file.ddtp.iommu_mode ≤ 1))
  pub mode_legal :
      (t.reg_file.ddtp ≡ s.reg_file.ddtp)
      ⊎ ((t.reg_file.ddtp.iommu_mode ≤ 4) × (t.reg_file.ddtp.iommu_mode ≤ s.max_iommu_mode))
  pub cqb_guarded : (t.reg_file.cqb ≡ s.reg_file.cqb) ⊎ (s.reg_file.cqcsr.cqon ≡ false)
  pub fqb_guarded : (t.reg_file.fqb ≡ s.reg_file.fqb) ⊎ (s.reg_file.fqcsr.fqon ≡ false)
  pub pqb_guarded : (t.reg_file.pqb ≡ s.reg_file.pqb) ⊎ (s.reg_file.pqcsr.pqon ≡ false)

module _ {W : Type 0} (s : Iommu W) where
  -- A write that keeps the configuration is guarded.
  same_config : (t : Iommu W) → SameConfig s.reg_file t.reg_file → IsGuarded s t
  same_config t h = record {
    capabilities_kept = h.capabilities;
    fctl_guarded = inl h.fctl;
    ddtp_guarded = inl h.ddtp;
    mode_legal = inl h.ddtp;
    cqb_guarded = inl h.cqb;
    fqb_guarded = inl h.fqb;
    pqb_guarded = inl h.pqb;
  }

  write_fctl-IsGuarded : (x : ℕ) → IsGuarded s (write_fctl s x)
  unfolding write_fctl
  write_fctl-IsGuarded x = ground arith

  write_ddtp-IsGuarded : (x : ℕ) → IsGuarded s (write_ddtp s x)
  unfolding write_ddtp
  write_ddtp-IsGuarded x = ground arith

  write_cqb-IsGuarded : (x : ℕ) → IsGuarded s (write_cqb s x)
  unfolding write_cqb
  write_cqb-IsGuarded x = ground arith

  write_fqb-IsGuarded : (x : ℕ) → IsGuarded s (write_fqb s x)
  unfolding write_fqb
  write_fqb-IsGuarded x = ground arith

  write_pqb-IsGuarded : (x : ℕ) → IsGuarded s (write_pqb s x)
  unfolding write_pqb
  write_pqb-IsGuarded x = ground arith

  write_cqt-SameConfig : (x : ℕ) → SameConfig s.reg_file (write_cqt s x).reg_file
  unfolding write_cqt
  write_cqt-SameConfig x = ground arith

  write_fqh-SameConfig : (x : ℕ) → SameConfig s.reg_file (write_fqh s x).reg_file
  unfolding write_fqh
  write_fqh-SameConfig x = ground arith

  write_icvec-SameConfig : (x : ℕ) → SameConfig s.reg_file (write_icvec s x).reg_file
  unfolding write_icvec
  write_icvec-SameConfig x = ground arith

  write_pqh-SameConfig : (x : ℕ) → SameConfig s.reg_file (write_pqh s x).reg_file
  unfolding write_pqh
  write_pqh-SameConfig x = ground arith

  write_cqcsr-SameConfig : (x : ℕ) → SameConfig s.reg_file (write_cqcsr s x).reg_file
  unfolding write_cqcsr switch_cq
  write_cqcsr-SameConfig x = ground arith

  write_fqcsr-SameConfig : (x : ℕ) → SameConfig s.reg_file (write_fqcsr s x).reg_file
  unfolding write_fqcsr switch_fq
  write_fqcsr-SameConfig x = ground arith

  write_pqcsr-SameConfig : (x : ℕ) → SameConfig s.reg_file (write_pqcsr s x).reg_file
  unfolding write_pqcsr switch_pq
  write_pqcsr-SameConfig x = ground arith

  write_iocountinh-SameConfig : (x : ℕ) → SameConfig s.reg_file (write_iocountinh s x).reg_file
  unfolding write_iocountinh
  write_iocountinh-SameConfig x = ground arith

  write_iohpmcycles-SameConfig : (x : ℕ) → SameConfig s.reg_file (write_iohpmcycles s x).reg_file
  unfolding write_iohpmcycles
  write_iohpmcycles-SameConfig x = ground arith

  write_iohpmctr-SameConfig : (i x : ℕ) → SameConfig s.reg_file (write_iohpmctr s i x).reg_file
  unfolding write_iohpmctr
  write_iohpmctr-SameConfig i x = ground arith

  write_iohpmevt-SameConfig : (i x : ℕ) → SameConfig s.reg_file (write_iohpmevt s i x).reg_file
  unfolding write_iohpmevt
  write_iohpmevt-SameConfig i x = ground arith

  write_tr_req_iova-SameConfig : (x : ℕ) → SameConfig s.reg_file (write_tr_req_iova s x).reg_file
  unfolding write_tr_req_iova
  write_tr_req_iova-SameConfig x = ground arith

  write_qosid-SameConfig : (x : ℕ) → SameConfig s.reg_file (write_qosid s x).reg_file
  unfolding write_qosid
  write_qosid-SameConfig x = ground arith

  write_msi_addr-SameConfig : (i x : ℕ) → SameConfig s.reg_file (write_msi_addr s i x).reg_file
  unfolding write_msi_addr
  write_msi_addr-SameConfig i x = ground arith

  write_msi_data-SameConfig : (i x : ℕ) → SameConfig s.reg_file (write_msi_data s i x).reg_file
  unfolding write_msi_data
  write_msi_data-SameConfig i x = ground arith

module _ {W : Type 0} (P : Platform W) (s : Iommu W) where
  clear_cip-SameConfig : (b : Bool) → SameConfig s.reg_file (clear_cip P s b).reg_file
  unfolding clear_cip
  clear_cip-SameConfig b =
      let r = s.reg_file in
      let p = r.ipsr in
      let t : Iommu W = record s { reg_file = record r { ipsr = record p { cip = false } } } in
      let k = generate_interrupt-SameConfig P t command_queue in ground arith

  clear_fip-SameConfig : (b : Bool) → SameConfig s.reg_file (clear_fip P s b).reg_file
  unfolding clear_fip
  clear_fip-SameConfig b =
      let r = s.reg_file in
      let p = r.ipsr in
      let t : Iommu W = record s { reg_file = record r { ipsr = record p { fip = false } } } in
      let k = generate_interrupt-SameConfig P t fault_queue in ground arith

  clear_pip-SameConfig : (b : Bool) → SameConfig s.reg_file (clear_pip P s b).reg_file
  unfolding clear_pip
  clear_pip-SameConfig b =
      let r = s.reg_file in
      let p = r.ipsr in
      let t : Iommu W = record s { reg_file = record r { ipsr = record p { pip = false } } } in
      let k = generate_interrupt-SameConfig P t page_queue in ground arith

module _ {W : Type 0} (P : Platform W) (s : Iommu W) where
  write_ipsr-SameConfig : (x : ℕ) → SameConfig s.reg_file (write_ipsr P s x).reg_file
  unfolding write_ipsr
  write_ipsr-SameConfig x =
      let t = clear_cip P s (test_bit x 0) in
      let u = clear_fip P t (test_bit x 1) in
      let v = clear_pip P u (test_bit x 3) in
      let k =
        SameConfig-trans s.reg_file u.reg_file v.reg_file
          (SameConfig-trans s.reg_file t.reg_file u.reg_file
            (clear_cip-SameConfig P s (test_bit x 0)) (clear_fip-SameConfig P t (test_bit x 1)))
          (clear_pip-SameConfig P u (test_bit x 3)) in
      elim (Bool-cases (test_bit x 2)) [
        | inl e ↦ rw e (record {
          capabilities = k.capabilities;
          fctl = k.fctl;
          ddtp = k.ddtp;
          cqb = k.cqb;
          fqb = k.fqb;
          pqb = k.pqb;
        })
        | inr e ↦ rw e k
      ]

  write_msi_vec_ctrl-SameConfig :
      (i x : ℕ) → SameConfig s.reg_file (write_msi_vec_ctrl P s i x).reg_file
  unfolding write_msi_vec_ctrl
  write_msi_vec_ctrl-SameConfig i x =
      let same = SameConfig-refl s.reg_file in
      let k = release_pending_interrupt-SameConfig P s i in ground arith

module _ {W : Type 0} (P : Platform W) (translate : Iommu W → HbRequest → HbResponse × Iommu W)
    (effects : (s : Iommu W) (q : HbRequest) → Effects P s (translate s q).1) where
  write_tr_req_ctrl-SameConfig :
      (s : Iommu W) (no_write x : ℕ)
      → SameConfig s.reg_file (write_tr_req_ctrl P translate s no_write x).reg_file
  unfolding write_tr_req_ctrl
  write_tr_req_ctrl-SameConfig s no_write x =
      let r = s.reg_file in
      let c = tr_req_ctrl_of x in
      let t : Iommu W = record s { reg_file = record r { tr_req_ctrl = c }; trans_for_debug = 1 } in
      let q = debug_request P s no_write c in
      let same = SameConfig-refl s.reg_file in
      let k = Effects-SameConfig P t (translate t q).1 (effects t q) in ground arith

  write_to-IsGuarded :
      (x : Register) (s : Iommu W) (no_write data4 data8 : ℕ)
      → IsGuarded s (write_to P translate x s no_write data4 data8)
  unfolding write_to
  write_to-IsGuarded fctl s n a b = write_fctl-IsGuarded s a
  write_to-IsGuarded ddtp s n a b = write_ddtp-IsGuarded s b
  write_to-IsGuarded cqb s n a b = write_cqb-IsGuarded s b
  write_to-IsGuarded cqt s n a b = same_config s (write_cqt s a) (write_cqt-SameConfig s a)
  write_to-IsGuarded fqb s n a b = write_fqb-IsGuarded s b
  write_to-IsGuarded fqh s n a b = same_config s (write_fqh s a) (write_fqh-SameConfig s a)
  write_to-IsGuarded pqb s n a b = write_pqb-IsGuarded s b
  write_to-IsGuarded pqh s n a b = same_config s (write_pqh s a) (write_pqh-SameConfig s a)
  write_to-IsGuarded cqcsr s n a b = same_config s (write_cqcsr s a) (write_cqcsr-SameConfig s a)
  write_to-IsGuarded fqcsr s n a b = same_config s (write_fqcsr s a) (write_fqcsr-SameConfig s a)
  write_to-IsGuarded pqcsr s n a b = same_config s (write_pqcsr s a) (write_pqcsr-SameConfig s a)
  write_to-IsGuarded ipsr s n a b = same_config s (write_ipsr P s a) (write_ipsr-SameConfig P s a)
  write_to-IsGuarded iocountinh s n a b =
      same_config s (write_iocountinh s a) (write_iocountinh-SameConfig s a)
  write_to-IsGuarded iohpmcycles s n a b =
      same_config s (write_iohpmcycles s b) (write_iohpmcycles-SameConfig s b)
  write_to-IsGuarded (iohpmctr i) s n a b =
      same_config s (write_iohpmctr s i b) (write_iohpmctr-SameConfig s i b)
  write_to-IsGuarded (iohpmevt i) s n a b =
      same_config s (write_iohpmevt s i b) (write_iohpmevt-SameConfig s i b)
  write_to-IsGuarded tr_req_iova s n a b =
      same_config s (write_tr_req_iova s b) (write_tr_req_iova-SameConfig s b)
  write_to-IsGuarded tr_req_ctrl s n a b =
      same_config s (write_tr_req_ctrl P translate s n b) (write_tr_req_ctrl-SameConfig s n b)
  write_to-IsGuarded iommu_qosid s n a b =
      same_config s (write_qosid s a) (write_qosid-SameConfig s a)
  write_to-IsGuarded icvec s n a b = same_config s (write_icvec s a) (write_icvec-SameConfig s a)
  write_to-IsGuarded (msi_addr i) s n a b =
      same_config s (write_msi_addr s i b) (write_msi_addr-SameConfig s i b)
  write_to-IsGuarded (msi_data i) s n a b =
      same_config s (write_msi_data s i a) (write_msi_data-SameConfig s i a)
  write_to-IsGuarded (msi_vec_ctrl i) s n a b =
      same_config s (write_msi_vec_ctrl P s i a) (write_msi_vec_ctrl-SameConfig P s i a)
  write_to-IsGuarded read_only s n a b = same_config s s (SameConfig-refl s.reg_file)

  -- Whatever is written to whatever offset, with a translation that only reports faults, counts events
  -- and changes caches and memory: `capabilities` stays; `fctl` changes only while the IOMMU is off and
  -- no queue is on or enabled; `ddtp` changes only from or to one of the modes Off and Bare, and only to
  -- a mode that exists and is supported; and the base of a queue changes only while the queue is off.
  pub write_register-IsGuarded :
      (s : Iommu W) (no_write offset num_bytes word : ℕ)
      → IsGuarded s (write_register P translate s no_write offset num_bytes word)
  unfolding write_register
  write_register-IsGuarded s n o b x = elim (Bool-cases (is_access_valid o b)) [
    | inl e ↦ rw e (write_to-IsGuarded (register_at (target o b)) s n _ _)
    | inr e ↦ rw e (same_config s s (SameConfig-refl s.reg_file))
  ]
