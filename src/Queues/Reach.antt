-- ===== src/Queues/Reach.antt =====
-- The states that the model passes through between two calls from outside: `reset_iommu`,
-- `write_register`, `process_commands`, the handlers of completions, page requests and timers, events,
-- faults, interrupts and translations, in any order.
use riscv_iommu_dv_model.Prelude.{ℕ, ◌<◌, ◌≡◌, refl, true, arith}
use riscv_iommu_dv_model.Iommu.{Iommu}
use riscv_iommu_dv_model.Iommu.Platform.{Platform, AtsMsg}
use riscv_iommu_dv_model.Iommu.Regs.{Capabilities, Fctl}
use riscv_iommu_dv_model.Iommu.Request.{HbRequest, HbResponse}
use riscv_iommu_dv_model.Fault.{IntUnit, generate_interrupt, report_fault}
use riscv_iommu_dv_model.Fault.Record.{Fault}
use riscv_iommu_dv_model.Fault.Queue.{entries}
use riscv_iommu_dv_model.Ats.{handle_invalidation_completion, do_ats_timer_expiry}
use riscv_iommu_dv_model.CommandQueue.{process_commands, cq_idle}
use riscv_iommu_dv_model.CommandQueue.Head.{
  cq_pending, run_commands, run_commands-cq_idle, run_commands-idle,
}
use riscv_iommu_dv_model.Hpm.{Event, count_events}
use riscv_iommu_dv_model.Registers.{
  ResetParams, write_to, write_register, reset_registers, reset_iommu, target,
}
use riscv_iommu_dv_model.Registers.Layout.{
  Register, fctl, ddtp, cqb, cqt, fqb, fqh, pqb, pqh, cqcsr, fqcsr, pqcsr, ipsr, iocountinh,
  iohpmcycles, iohpmctr, iohpmevt, tr_req_iova, tr_req_ctrl, iommu_qosid, icvec, msi_addr, msi_data,
  msi_vec_ctrl, read_only, is_access_valid, register_at,
}
use riscv_iommu_dv_model.Registers.Write.{write_tr_req_ctrl, tr_req_ctrl_of, debug_request}
use riscv_iommu_dv_model.Registers.Effects.{
  Effects, nothing, then_reports, then_counts, then_caches,
}
use riscv_iommu_dv_model.Queues.{IsQueues, IsSized, off, running, draining, if_keeps}
use riscv_iommu_dv_model.Queues.Faults.{Keeps, generate_interrupt-Keeps, report_fault-Keeps}
use riscv_iommu_dv_model.Queues.Fences.{
  handle_invalidation_completion-Keeps, do_ats_timer_expiry-Keeps,
}
use riscv_iommu_dv_model.Queues.Commands.{process_commands-Keeps, count_events-Keeps}
use riscv_iommu_dv_model.Iommu.Caches.{DeviceContext}
use riscv_iommu_dv_model.PageRequest.{handle_page_request}
use riscv_iommu_dv_model.Queues.Pages.{handle_page_request-Keeps}
use riscv_iommu_dv_model.Queues.Writes.{
  write_fctl-Keeps, write_ddtp-Keeps, write_cqb-Keeps, write_cqt-Keeps, write_fqb-Keeps,
  write_fqh-Keeps, write_pqb-Keeps, write_pqh-Keeps, write_cqcsr-Keeps, write_fqcsr-Keeps,
  write_pqcsr-Keeps, write_iocountinh-Keeps, write_iohpmcycles-Keeps, write_iohpmctr-Keeps,
  write_iohpmevt-Keeps, write_tr_req_iova-Keeps, write_qosid-Keeps, write_icvec-Keeps,
  write_msi_addr-Keeps, write_msi_data-Keeps, write_ipsr-Keeps, write_msi_vec_ctrl-Keeps,
}

module _ {W : Type 0} (P : Platform W) where
  Effects-Keeps : (s t : Iommu W) → Effects P s t → Keeps s t
  Effects-Keeps s t nothing v = v
  Effects-Keeps s _ (then_reports t f e) v = report_fault-Keeps P t f (Effects-Keeps s t e v)
  Effects-Keeps s _ (then_counts t x e) v = count_events-Keeps P x t (Effects-Keeps s t e v)
  Effects-Keeps s _ (then_caches t w d p l i j k e) v = Effects-Keeps s t e v

module _ {W : Type 0} (P : Platform W)
    (translate : Iommu W → HbRequest → HbResponse × Iommu W) where
  -- One call from outside.
  pub data Step (s : Iommu W) : Iommu W → Type 0 where
    writes :
        (no_write offset num_bytes word : ℕ)
        → Step s (write_register P translate s no_write offset num_bytes word)
    commands : (gscid_match addr_match : ℕ) → Step s (process_commands P s gscid_match addr_match)
    completes : (m : AtsMsg) → Step s (handle_invalidation_completion P s m).1
    expires : (itag_vector : ℕ) → Step s (do_ats_timer_expiry P s itag_vector)
    events : (v : Event) → Step s (count_events P v s)
    reports : (f : Fault) → Step s (report_fault P s f)
    interrupts : (unit : IntUnit) → Step s (generate_interrupt P s unit)
    pages :
        (m : AtsMsg) (old : DeviceContext) (no_levels no_slot : ℕ)
        → Step s (handle_page_request P s m old no_levels no_slot)
    translates : (q : HbRequest) → Step s (translate s q).1

  -- The states after a reset and any number of calls.
  pub data Reach : Iommu W → Type 0 where
    reset :
        (s : Iommu W) (p : ResetParams) (c : Capabilities) (f : Fctl) → Reach (reset_iommu s p c f)
    after : (s t : Iommu W) → Reach s → Step s t → Reach t

  module _ (effects : (s : Iommu W) (q : HbRequest) → Effects P s (translate s q).1) where
    write_tr_req_ctrl-Keeps :
        (s : Iommu W) (no_write x : ℕ) → Keeps s (write_tr_req_ctrl P translate s no_write x)
    unfolding write_tr_req_ctrl
    write_tr_req_ctrl-Keeps s no_write x v =
        let r = s.reg_file in
        let c = tr_req_ctrl_of x in
        let t : Iommu W = record s {
          reg_file = record r { tr_req_ctrl = c };
          trans_for_debug = 1;
        } in
        let q = debug_request P s no_write c in
        let k = Effects-Keeps P t (translate t q).1 (effects t q) v in ground arith

    pub write_to-Keeps :
        (x : Register) (s : Iommu W) (no_write data4 data8 : ℕ)
        → Keeps s (write_to P translate x s no_write data4 data8)
    unfolding write_to
    write_to-Keeps fctl s n a b = write_fctl-Keeps s a
    write_to-Keeps ddtp s n a b = write_ddtp-Keeps s b
    write_to-Keeps cqb s n a b = write_cqb-Keeps s b
    write_to-Keeps cqt s n a b = write_cqt-Keeps s a
    write_to-Keeps fqb s n a b = write_fqb-Keeps s b
    write_to-Keeps fqh s n a b = write_fqh-Keeps s a
    write_to-Keeps pqb s n a b = write_pqb-Keeps s b
    write_to-Keeps pqh s n a b = write_pqh-Keeps s a
    write_to-Keeps cqcsr s n a b = write_cqcsr-Keeps s a
    write_to-Keeps fqcsr s n a b = write_fqcsr-Keeps s a
    write_to-Keeps pqcsr s n a b = write_pqcsr-Keeps s a
    write_to-Keeps ipsr s n a b = write_ipsr-Keeps P s a
    write_to-Keeps iocountinh s n a b = write_iocountinh-Keeps s a
    write_to-Keeps iohpmcycles s n a b = write_iohpmcycles-Keeps s b
    write_to-Keeps (iohpmctr i) s n a b = write_iohpmctr-Keeps s i b
    write_to-Keeps (iohpmevt i) s n a b = write_iohpmevt-Keeps s i b
    write_to-Keeps tr_req_iova s n a b = write_tr_req_iova-Keeps s b
    write_to-Keeps tr_req_ctrl s n a b = write_tr_req_ctrl-Keeps s n b
    write_to-Keeps iommu_qosid s n a b = write_qosid-Keeps s a
    write_to-Keeps icvec s n a b = write_icvec-Keeps s a
    write_to-Keeps (msi_addr i) s n a b = write_msi_addr-Keeps s i b
    write_to-Keeps (msi_data i) s n a b = write_msi_data-Keeps s i a
    write_to-Keeps (msi_vec_ctrl i) s n a b = write_msi_vec_ctrl-Keeps P s i a
    write_to-Keeps read_only s n a b = λ v. v

    write_register-Keeps :
        (s : Iommu W) (no_write offset num_bytes word : ℕ)
        → Keeps s (write_register P translate s no_write offset num_bytes word)
    unfolding write_register
    write_register-Keeps s n o b x v =
        if_keeps (λ t. IsQueues t.reg_file) (is_access_valid o b) _ s
          (write_to-Keeps (register_at (target o b)) s n _ _ v) v

    Step-Keeps : (s t : Iommu W) → Step s t → Keeps s t
    Step-Keeps s _ (writes n o b x) = write_register-Keeps s n o b x
    Step-Keeps s _ (commands i j) = process_commands-Keeps P s i j
    Step-Keeps s _ (completes m) = handle_invalidation_completion-Keeps P s m
    Step-Keeps s _ (expires x) = do_ats_timer_expiry-Keeps P s x
    Step-Keeps s _ (events v) = count_events-Keeps P v s
    Step-Keeps s _ (reports f) = report_fault-Keeps P s f
    Step-Keeps s _ (interrupts unit) = generate_interrupt-Keeps P s unit
    Step-Keeps s _ (pages m old l k) = handle_page_request-Keeps P s m old l k
    Step-Keeps s _ (translates q) = Effects-Keeps P s (translate s q).1 (effects s q)

    -- In every state that a reset and any calls lead to (of `write_register`, `process_commands`,
    -- `handle_invalidation_completion`, `handle_page_request`, `do_ats_timer_expiry`, `count_events`,
    -- `report_fault` and `generate_interrupt`, and of a translation that only reports faults, counts
    -- events and changes caches and memory): each queue's size fits its field and the index that software
    -- moves is in the ring; each queue is off, or on with the IOMMU's index in the ring, or, for the
    -- command queue alone, turned off but still on and busy; and `busy` is set in no other case.
    pub Reach-IsQueues : (t : Iommu W) → Reach t → IsQueues t.reg_file
    unfolding reset_iommu reset_registers
    Reach-IsQueues _ (reset s p c f) =
        let z : IsSized 0 0 = (omega arith, omega arith) in
        ((z, off refl refl refl), (z, off refl refl refl, refl), (z, off refl refl refl, refl))
    Reach-IsQueues t (after s _ r x) = Step-Keeps s t x (Reach-IsQueues s r)

    -- In every such state, more calls of `process_commands` than commands are pending leave the command
    -- queue idle: whatever software wrote to the registers, no well-formedness of them is assumed.
    pub Reach-cq_idle :
        (n i j : ℕ) (s : Iommu W)
        → Reach s
        → cq_pending s.reg_file < n
        → cq_idle (run_commands P n i j s) ≡ true
    unfolding cq_idle
    Reach-cq_idle n i j s r h =
        let ((k, t), w) = (Reach-IsQueues s r).0 in
        let order = λ (l : s.reg_file.cqh < entries s.reg_file.cqb.log2szm1).
          run_commands-cq_idle P n i j s (record { size_field = k; head_in = l; tail_in = t }) h in
        elim w [
          | off _ e _ ↦ let y : cq_idle s ≡ true = rw e refl in rw (run_commands-idle P n i j s y) y
          | running _ _ _ l ↦ order l
          | draining _ _ _ l ↦ order l
        ]
