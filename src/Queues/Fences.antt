-- ===== src/Queues/Fences.antt =====
-- The queues under fences, invalidation requests and their completions:
-- iommu_ref_model/libiommu/src/iommu_command_queue.c and iommu_ats.c.
use riscv_iommu_dv_model.Prelude.{
  ℕ, true, arith, Bool-cases, inl, inr, ap, ◌==◌, get_bits, ◌+◌, ◌%◌, ◌^◌,
}
use riscv_iommu_dv_model.Iommu.{Iommu}
use riscv_iommu_dv_model.Iommu.Platform.{Platform, AtsMsg}
use riscv_iommu_dv_model.Fault.{command_queue, own_write}
use riscv_iommu_dv_model.Ats.{
  Destination, Iofence, allocate_itag, advance_cqh, set_cmd_to, set_cqmf, set_cmd_ill,
  set_fence_w_ip, fence_sync, fence_commit, do_iofence_c, settle_cqcsr, do_pending_iofence,
  queue_any_blocked_ats_inval_req, do_pending_iofence_inval_reqs, handle_invalidation_completion,
  do_ats_timer_expiry, do_ats_msg, pending_destination, pending_fence, complete, expire,
}
use riscv_iommu_dv_model.Ats.Itag.{allocate_itag_lem, exhausted, fresh}
use riscv_iommu_dv_model.Queues.{IsQueues, if_keeps}
use riscv_iommu_dv_model.Queues.Faults.{Keeps, wrapped, generate_interrupt-Keeps}

module _ {W : Type 0} (s : Iommu W) where
  pub advance_cqh-Keeps : Keeps s (advance_cqh s)
  unfolding advance_cqh
  advance_cqh-Keeps ((a, w), p, q) =
      let r = s.reg_file in
      let c = r.cqcsr in
      ((a, wrapped c.cqen c.cqon c.busy r.cqb.log2szm1 r.cqh ((r.cqh + 1) % 2 ^ 32) w), p, q)

  settle_cqcsr-Keeps : Keeps s (settle_cqcsr s)
  unfolding settle_cqcsr
  settle_cqcsr-Keeps v = ground arith

  pub allocate_itag-Keeps : (d : Destination) → Keeps s (allocate_itag s d).1
  allocate_itag-Keeps d v = elim (allocate_itag_lem s d) [
    | exhausted _ e ↦ rw e v
    | fresh i ts e _ ↦ rw e v
  ]

module _ {W : Type 0} (P : Platform W) (s : Iommu W) where
  pub set_cmd_to-Keeps : Keeps s (set_cmd_to P s)
  unfolding set_cmd_to
  set_cmd_to-Keeps v =
      let r = s.reg_file in
      let c = r.cqcsr in
      let k =
        generate_interrupt-Keeps P
          (record s { reg_file = record r { cqcsr = record c { cmd_to = true } } }) command_queue
          v in
      ground arith

  pub set_cqmf-Keeps : Keeps s (set_cqmf P s)
  unfolding set_cqmf
  set_cqmf-Keeps v =
      let r = s.reg_file in
      let c = r.cqcsr in
      let k =
        generate_interrupt-Keeps P
          (record s { reg_file = record r { cqcsr = record c { cqmf = true } } }) command_queue v in
      ground arith

  pub set_cmd_ill-Keeps : Keeps s (set_cmd_ill P s)
  unfolding set_cmd_ill
  set_cmd_ill-Keeps v =
      let r = s.reg_file in
      let c = r.cqcsr in
      let k =
        generate_interrupt-Keeps P
          (record s { reg_file = record r { cqcsr = record c { cmd_ill = true } } }) command_queue
          v in
      ground arith

  set_fence_w_ip-Keeps : (b : ℕ) → Keeps s (set_fence_w_ip P s b)
  unfolding set_fence_w_ip
  set_fence_w_ip-Keeps b v =
      let r = s.reg_file in
      let c = r.cqcsr in
      let k =
        generate_interrupt-Keeps P
          (record s { reg_file = record r { cqcsr = record c { fence_w_ip = true } } })
          command_queue v in
      ground arith

module _ {W : Type 0} (P : Platform W) where
  fence_sync-Keeps : (s : Iommu W) (f : Iofence) → Keeps s (fence_sync P s f)
  unfolding fence_sync
  fence_sync-Keeps s f v = ground arith

  fence_commit-Keeps : (s : Iommu W) (f : Iofence) → Keeps s (fence_commit P s f).1
  unfolding fence_commit
  fence_commit-Keeps s f v =
      let t = fence_sync P s f in
      let (status, w) = own_write P t f.word f.addr 4 in
      let written : Iommu W = record t { world = w } in
      let k = fence_sync-Keeps s f v in
      let a = set_cqmf-Keeps P written k in
      let b = set_fence_w_ip-Keeps P written f.wsi_bit k in
      let c = set_fence_w_ip-Keeps P t f.wsi_bit k in
      elim (Bool-cases (f.av == 1)) [
        | inr n ↦ rw n c
        | inl y ↦ elim (Bool-cases (status == 0)) [ inl z ↦ rw y (rw z b) | inr z ↦ rw y (rw z a) ]
      ]

  pub do_iofence_c-Keeps : (s : Iommu W) (f : Iofence) → Keeps s (do_iofence_c P s f).1
  unfolding do_iofence_c
  do_iofence_c-Keeps s f v =
      let ready : Iommu W = record s { iofence_wait_pending_inv = 0 } in
      let a = set_cmd_to-Keeps P ready v in let b = fence_commit-Keeps ready f v in ground arith

  do_pending_iofence-Keeps : (s : Iommu W) → Keeps s (do_pending_iofence P s)
  unfolding do_pending_iofence
  do_pending_iofence-Keeps s v =
      let r = do_iofence_c P s (pending_fence s) in
      let k = do_iofence_c-Keeps s (pending_fence s) v in
      settle_cqcsr-Keeps _ (
        if_keeps (λ x. IsQueues x.reg_file) (r.0 == 0) (advance_cqh r.1) r.1
          (advance_cqh-Keeps r.1 k) k)

  queue_any_blocked_ats_inval_req-Keeps :
      (s : Iommu W) → Keeps s (queue_any_blocked_ats_inval_req P s)
  unfolding queue_any_blocked_ats_inval_req do_ats_msg
  queue_any_blocked_ats_inval_req-Keeps s v =
      let k = allocate_itag-Keeps s (pending_destination s) v in
      elim (Bool-cases (s.command_queue_stall_for_itag == 1)) [
        | inr n ↦ rw n v
        | inl y ↦ elim (allocate_itag_lem s (pending_destination s)) [
          | exhausted _ e ↦ rw y (rw e v)
          | fresh i ts e _ ↦ rw y (rw (ap (λ r. r.0) e, queue_any_blocked_ats_inval_req) k)
        ]
      ]

  pub do_pending_iofence_inval_reqs-Keeps :
      (s : Iommu W) → Keeps s (do_pending_iofence_inval_reqs P s)
  unfolding do_pending_iofence_inval_reqs
  do_pending_iofence_inval_reqs-Keeps s v =
      let Q = λ (x : Iommu W). IsQueues x.reg_file in
      let k = if_keeps Q _ (do_pending_iofence P s) s (do_pending_iofence-Keeps s v) v in
      if_keeps Q _ _ _ (queue_any_blocked_ats_inval_req-Keeps _ k) k

  pub handle_invalidation_completion-Keeps :
      (s : Iommu W) (m : AtsMsg) → Keeps s (handle_invalidation_completion P s m).1
  unfolding handle_invalidation_completion
  handle_invalidation_completion-Keeps s m v =
      let (unexpected, ts) =
        complete m (get_bits 31 0 m.payload) (get_bits 34 32 m.payload) 0 s.itag_tracker in
      let k = do_pending_iofence_inval_reqs-Keeps (record s { itag_tracker = ts }) v in
      elim (Bool-cases unexpected) [ inl e ↦ rw e v | inr e ↦ rw e k ]

  pub do_ats_timer_expiry-Keeps :
      (s : Iommu W) (itag_vector : ℕ) → Keeps s (do_ats_timer_expiry P s itag_vector)
  unfolding do_ats_timer_expiry
  do_ats_timer_expiry-Keeps s x v =
      do_pending_iofence_inval_reqs-Keeps
        (record s { itag_tracker = expire x 0 s.itag_tracker; ats_inv_req_timeout = 1 }) v
