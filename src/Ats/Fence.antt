-- ===== src/Ats/Fence.antt =====
-- `do_iofence_c` of iommu_command_queue.c: when a fence completes, and what it leaves where it does
-- not.
use riscv_iommu_dv_model.Prelude.{
  ℕ, Bool, true, false, not, ◌&&◌, if◌then◌else◌, ◌≡◌, ◌≢◌, refl, ◌∙◌, ap, inl, inr, arith,
  Bool-cases, ◌==◌,
}
use riscv_iommu_dv_model.Iommu.{Iommu}
use riscv_iommu_dv_model.Iommu.Regs.{RegFile}
use riscv_iommu_dv_model.Iommu.Platform.{Platform}
use riscv_iommu_dv_model.Fault.{command_queue, IntUnit, generate_interrupt, own_write}
use riscv_iommu_dv_model.Fault.Frame.{generate_interrupt-SameBut}
use riscv_iommu_dv_model.Ats.{
  Iofence, any_ats_invalidation_requests_pending, set_cmd_to, set_cqmf, set_cmd_ill, set_fence_w_ip,
  fence_sync, fence_commit, do_iofence_c,
}

-- The base, the head and the tail of the command queue are the same, and no error bit is lost.
pub record SameQueue (r r' : RegFile) : Type 0 where
  pub same_base : r'.cqb ≡ r.cqb
  pub same_head : r'.cqh ≡ r.cqh
  pub same_tail : r'.cqt ≡ r.cqt

abbrev pub SameQueue-refl : (r : RegFile) → SameQueue r r
SameQueue-refl r = record { same_base = refl; same_head = refl; same_tail = refl }

pub SameQueue-trans : (r r' r'' : RegFile) → SameQueue r r' → SameQueue r' r'' → SameQueue r r''
SameQueue-trans r r' r'' h k = record {
  same_base = k.same_base ∙ h.same_base;
  same_head = k.same_head ∙ h.same_head;
  same_tail = k.same_tail ∙ h.same_tail;
}

-- Why a fence is not done.
pub data IsBlocked {W : Type 0} (t : Iommu W) : Type 0 where
  waits : t.iofence_wait_pending_inv ≡ 1 → IsBlocked t
  timed_out : t.reg_file.cqcsr.cmd_to ≡ true → IsBlocked t
  write_failed : t.reg_file.cqcsr.cqmf ≡ true → IsBlocked t

-- How `do_iofence_c` ends, as a statement on the value and the state that it returns.
pub data FenceEnds {W : Type 0} (s : Iommu W) (r : ℕ × Iommu W) : Type 0 where
  done :
      r.0 ≡ 0
      → any_ats_invalidation_requests_pending s ≡ false
      → s.ats_inv_req_timeout ≢ 1
      → r.1.iofence_wait_pending_inv ≡ 0
      → FenceEnds s r
  blocked : r.0 ≡ 1 → IsBlocked r.1 → FenceEnds s r

module _ {W : Type 0} (P : Platform W) where
  -- What an interrupt leaves alone of the command queue.
  pub generate_interrupt-cqcsr :
      (s : Iommu W) (u : IntUnit) → (generate_interrupt P s u).reg_file.cqcsr ≡ s.reg_file.cqcsr
  generate_interrupt-cqcsr s u = ap (λ x. x.reg_file.cqcsr) (generate_interrupt-SameBut P s u)

  pub generate_interrupt-SameQueue :
      (s : Iommu W) (u : IntUnit) → SameQueue s.reg_file (generate_interrupt P s u).reg_file
  generate_interrupt-SameQueue s u = record {
    same_base = ap (λ x. x.reg_file.cqb) (generate_interrupt-SameBut P s u);
    same_head = ap (λ x. x.reg_file.cqh) (generate_interrupt-SameBut P s u);
    same_tail = ap (λ x. x.reg_file.cqt) (generate_interrupt-SameBut P s u);
  }

  -- An interrupt that is raised under a test.
  raised-SameQueue :
      (b : Bool) (s m : Iommu W) (u : IntUnit)
      → SameQueue s.reg_file m.reg_file
      → SameQueue s.reg_file (if b then s else generate_interrupt P m u).reg_file
  raised-SameQueue true s m u h = SameQueue-refl s.reg_file
  raised-SameQueue false s m u h =
      SameQueue-trans s.reg_file m.reg_file (generate_interrupt P m u).reg_file h
        (generate_interrupt-SameQueue m u)

  raised-wait :
      (b : Bool) (s m : Iommu W)
      → m.iofence_wait_pending_inv ≡ s.iofence_wait_pending_inv
      → (if b then s else generate_interrupt P m command_queue).iofence_wait_pending_inv
        ≡ s.iofence_wait_pending_inv
  raised-wait true s m h = refl
  raised-wait false s m h =
      ap (λ x. x.iofence_wait_pending_inv) (generate_interrupt-SameBut P m command_queue) ∙ h

  raised-flag :
      (flag : RegFile → Bool) (s m : Iommu W)
      → ((t : RegFile) → t.cqcsr ≡ m.reg_file.cqcsr → flag t ≡ true)
      → flag (if flag s.reg_file then s else generate_interrupt P m command_queue).reg_file ≡ true
  raised-flag flag s m h = elim (Bool-cases (flag s.reg_file)) [
    | inl y ↦ rw y y
    | inr n ↦ rw n (
        h (generate_interrupt P m command_queue).reg_file
          (generate_interrupt-cqcsr m command_queue))
  ]

  pub set_cqmf-SameQueue : (s : Iommu W) → SameQueue s.reg_file (set_cqmf P s).reg_file
  unfolding set_cqmf
  set_cqmf-SameQueue s =
      raised-SameQueue s.reg_file.cqcsr.cqmf s _ command_queue
        (record { same_base = refl; same_head = refl; same_tail = refl })

  pub set_cmd_to-SameQueue : (s : Iommu W) → SameQueue s.reg_file (set_cmd_to P s).reg_file
  unfolding set_cmd_to
  set_cmd_to-SameQueue s =
      raised-SameQueue s.reg_file.cqcsr.cmd_to s _ command_queue
        (record { same_base = refl; same_head = refl; same_tail = refl })

  pub set_cmd_ill-SameQueue : (s : Iommu W) → SameQueue s.reg_file (set_cmd_ill P s).reg_file
  unfolding set_cmd_ill
  set_cmd_ill-SameQueue s =
      raised-SameQueue s.reg_file.cqcsr.cmd_ill s _ command_queue
        (record { same_base = refl; same_head = refl; same_tail = refl })

  set_fence_w_ip-SameQueue :
      (s : Iommu W) (b : ℕ) → SameQueue s.reg_file (set_fence_w_ip P s b).reg_file
  unfolding set_fence_w_ip
  set_fence_w_ip-SameQueue s b =
      let r = s.reg_file in
      let c = r.cqcsr in
      let m : Iommu W = record s {
        reg_file = record r { cqcsr = record c { fence_w_ip = true } };
      } in
      let raise : SameQueue s.reg_file (generate_interrupt P m command_queue).reg_file =
        raised-SameQueue false s m command_queue
          (record { same_base = refl; same_head = refl; same_tail = refl }) in
      elim (Bool-cases (not c.fence_w_ip && b == 1)) [
        | inl y ↦ rw y raise
        | inr n ↦ rw n (SameQueue-refl r)
      ]

  pub set_cqmf-cqmf : (s : Iommu W) → (set_cqmf P s).reg_file.cqcsr.cqmf ≡ true
  unfolding set_cqmf
  set_cqmf-cqmf s = raised-flag (λ r. r.cqcsr.cqmf) s _ (λ t e. ap (λ x. x.cqmf) e)

  pub set_cmd_to-cmd_to : (s : Iommu W) → (set_cmd_to P s).reg_file.cqcsr.cmd_to ≡ true
  unfolding set_cmd_to
  set_cmd_to-cmd_to s = raised-flag (λ r. r.cqcsr.cmd_to) s _ (λ t e. ap (λ x. x.cmd_to) e)

  pub set_cmd_ill-cmd_ill : (s : Iommu W) → (set_cmd_ill P s).reg_file.cqcsr.cmd_ill ≡ true
  unfolding set_cmd_ill
  set_cmd_ill-cmd_ill s = raised-flag (λ r. r.cqcsr.cmd_ill) s _ (λ t e. ap (λ x. x.cmd_ill) e)

  set_fence_w_ip-wait :
      (s : Iommu W) (b : ℕ)
      → (set_fence_w_ip P s b).iofence_wait_pending_inv ≡ s.iofence_wait_pending_inv
  unfolding set_fence_w_ip
  set_fence_w_ip-wait s b =
      let r = s.reg_file in
      let c = r.cqcsr in
      let m : Iommu W = record s {
        reg_file = record r { cqcsr = record c { fence_w_ip = true } };
      } in
      let same =
        ap (λ x. x.iofence_wait_pending_inv) (generate_interrupt-SameBut P m command_queue) in
      elim (Bool-cases (not c.fence_w_ip && b == 1)) [ inl y ↦ rw y same | inr n ↦ rw n refl ]

  fence_sync-same :
      (s : Iommu W) (f : Iofence)
      → ((fence_sync P s f).reg_file ≡ s.reg_file)
        × ((fence_sync P s f).iofence_wait_pending_inv ≡ s.iofence_wait_pending_inv)
  unfolding fence_sync
  fence_sync-same s f = ground arith

  fence_commit-FenceEnds :
      (s t : Iommu W) (f : Iofence)
      → any_ats_invalidation_requests_pending s ≡ false
      → s.ats_inv_req_timeout ≢ 1
      → t.iofence_wait_pending_inv ≡ 0
      → FenceEnds s (fence_commit P t f)
  unfolding fence_commit
  fence_commit-FenceEnds s t f free in_time ready =
      let u = fence_sync P t f in
      let (status, w) = own_write P u f.word f.addr 4 in
      let written : Iommu W = record u { world = w } in
      elim (Bool-cases (f.av == 1 && not (status == 0))) [
        | inl y ↦ simp y (blocked refl (write_failed (set_cqmf-cqmf written)))
        | inr n ↦ elim (Bool-cases (f.av == 1)) [
          | inl a ↦ rw n (
              rw a (
                done refl free in_time
                  (set_fence_w_ip-wait written f.wsi_bit ∙ (fence_sync-same t f).1 ∙ ready)))
          | inr a ↦ rw n (
              rw a (
                done refl free in_time
                  (set_fence_w_ip-wait u f.wsi_bit ∙ (fence_sync-same t f).1 ∙ ready)))
        ]
      ]

  fence_commit-SameQueue :
      (s : Iommu W) (f : Iofence) → SameQueue s.reg_file (fence_commit P s f).1.reg_file
  unfolding fence_commit
  fence_commit-SameQueue s f =
      let u = fence_sync P s f in
      let (status, w) = own_write P u f.word f.addr 4 in
      let written : Iommu W = record u { world = w } in
      let same = (fence_sync-same s f).0 in
      let start : SameQueue s.reg_file u.reg_file = record {
        same_base = ap (λ r. r.cqb) same;
        same_head = ap (λ r. r.cqh) same;
        same_tail = ap (λ r. r.cqt) same;
      } in
      let chain = λ (t : Iommu W). SameQueue-trans s.reg_file u.reg_file t.reg_file start in
      elim (Bool-cases (f.av == 1 && not (status == 0))) [
        | inl y ↦ simp y (chain (set_cqmf P written) (set_cqmf-SameQueue written))
        | inr n ↦ elim (Bool-cases (f.av == 1)) [
          | inl a ↦ rw n (
              rw a (
                chain (set_fence_w_ip P written f.wsi_bit)
                  (set_fence_w_ip-SameQueue written f.wsi_bit)))
          | inr a ↦
              rw n
                (rw a (chain (set_fence_w_ip P u f.wsi_bit) (set_fence_w_ip-SameQueue u f.wsi_bit)))
        ]
      ]

  -- `do_iofence_c` either returns 0 and is done, which it does only where no invalidation request is
  -- pending and none has timed out, or returns 1 and leaves the queue blocked: the fence waits, or
  -- the timeout bit is set, or the memory-fault bit.
  pub do_iofence_c-FenceEnds : (s : Iommu W) (f : Iofence) → FenceEnds s (do_iofence_c P s f)
  unfolding do_iofence_c
  do_iofence_c-FenceEnds s f =
      let ready : Iommu W = record s { iofence_wait_pending_inv = 0 } in
      elim (Bool-cases (any_ats_invalidation_requests_pending s)) [
        | inl y ↦ simp y (blocked refl (waits refl))
        | inr n ↦ elim (Bool-cases (s.ats_inv_req_timeout == 1)) [
          | inl y ↦ simp (n, y) (blocked refl (timed_out (set_cmd_to-cmd_to ready)))
          | inr m ↦ simp (n, m) (fence_commit-FenceEnds s ready f n (λ e. ground arith) refl)
        ]
      ]

  pub do_iofence_c-SameQueue :
      (s : Iommu W) (f : Iofence) → SameQueue s.reg_file (do_iofence_c P s f).1.reg_file
  unfolding do_iofence_c
  do_iofence_c-SameQueue s f =
      let ready : Iommu W = record s { iofence_wait_pending_inv = 0 } in
      elim (Bool-cases (any_ats_invalidation_requests_pending s)) [
        | inl y ↦ simp y (record { same_base = refl; same_head = refl; same_tail = refl })
        | inr n ↦
            let same = set_cmd_to-SameQueue ready in
            elim (Bool-cases (s.ats_inv_req_timeout == 1)) [
              | inl y ↦
                  simp (n, y)
                    (record {
                      same_base = same.same_base;
                      same_head = same.same_head;
                      same_tail = same.same_tail;
                    })
              | inr m ↦
                  let rest = fence_commit-SameQueue ready f in
                  simp (n, m)
                    (record {
                      same_base = rest.same_base;
                      same_head = rest.same_head;
                      same_tail = rest.same_tail;
                    })
            ]
      ]

  pub set_cmd_to-wait :
      (s : Iommu W) → (set_cmd_to P s).iofence_wait_pending_inv ≡ s.iofence_wait_pending_inv
  unfolding set_cmd_to
  set_cmd_to-wait s = raised-wait s.reg_file.cqcsr.cmd_to s _ refl

  set_cqmf-wait :
      (s : Iommu W) → (set_cqmf P s).iofence_wait_pending_inv ≡ s.iofence_wait_pending_inv
  unfolding set_cqmf
  set_cqmf-wait s = raised-wait s.reg_file.cqcsr.cqmf s _ refl

  pub fence_commit-wait :
      (s : Iommu W) (f : Iofence)
      → (fence_commit P s f).1.iofence_wait_pending_inv ≡ s.iofence_wait_pending_inv
  unfolding fence_commit
  fence_commit-wait s f =
      let u = fence_sync P s f in
      let (status, w) = own_write P u f.word f.addr 4 in
      let written : Iommu W = record u { world = w } in
      let same = (fence_sync-same s f).1 in
      elim (Bool-cases (f.av == 1 && not (status == 0))) [
        | inl y ↦ simp y (set_cqmf-wait written ∙ same)
        | inr n ↦ elim (Bool-cases (f.av == 1)) [
          | inl a ↦ rw n (rw a (set_fence_w_ip-wait written f.wsi_bit ∙ same))
          | inr a ↦ rw n (rw a (set_fence_w_ip-wait u f.wsi_bit ∙ same))
        ]
      ]
