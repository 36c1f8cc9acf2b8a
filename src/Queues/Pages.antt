-- ===== src/Queues/Pages.antt =====
-- The queues under page requests: `handle_page_request` of iommu_ref_model/libiommu/src/iommu_ats.c.
use riscv_iommu_dv_model.Prelude.{
  ℕ, zero, suc, ◌+◌, ◌*◌, ◌%◌, ◌^◌, not, ◌||◌, ◌==◌, ◌⊎◌, inl, inr, Option-cases, get_bits,
  test_bit, Bool, refl, ◌≡◌, find, true, false,
}
use riscv_iommu_dv_model.Iommu.{Iommu}
use riscv_iommu_dv_model.Iommu.Platform.{Platform, AtsMsg}
use riscv_iommu_dv_model.Iommu.Caches.{DeviceContext}
use riscv_iommu_dv_model.Fault.{
  page_queue, generate_interrupt, next_index, own_write, is_access_fault, is_data_corruption,
  report_fault,
}
use riscv_iommu_dv_model.Atc.{lookup_ioatc_dc, cache_ioatc_dc, dc_matches}
use riscv_iommu_dv_model.Hpm.{count_events}
use riscv_iommu_dv_model.SecondStage.Mapped.{branches}
use riscv_iommu_dv_model.DeviceDirectory.{
  walk_ddt, load_dc, locate_device_context, guarded_read, ddt_walk, ddte_addr, dc_size, dc_addr,
  top_level, context_of, do_device_context_configuration_checks, en_pri, prpr,
}
use riscv_iommu_dv_model.PageRequest.{
  device_of, page_fault_of, page_rec_raw, prec_addr, is_too_wide, send_prgr, queue_page, page_of,
  handle_page_request,
}
use riscv_iommu_dv_model.Queues.{IsQueues, if_keeps}
use riscv_iommu_dv_model.Queues.Faults.{
  Keeps, wrapped, generate_interrupt-Keeps, report_fault-Keeps,
}
use riscv_iommu_dv_model.Queues.Commands.{count_events-Keeps}

module _ {W : Type 0} (P : Platform W) where
  module _ (pv pid did : ℕ) where
    record Intact {A : Type 0} (r : A × Iommu W) : Type 0 where
      kept : IsQueues r.1.reg_file

    Intact-intro : {A : Type 0} (x : A) (t : Iommu W) → IsQueues t.reg_file → Intact (x, t)
    Intact-intro x t v = record { kept = v }

    walk_ddt-Intact :
        (i : ℕ) (s : Iommu W) (a : ℕ) → IsQueues s.reg_file → Intact (walk_ddt P pv pid did i s a)
    unfolding walk_ddt
    walk_ddt-Intact zero s a v = Intact-intro _ s v
    walk_ddt-Intact (suc i) s a v =
        let t = count_events P (ddt_walk pv pid did) s in
        let k = count_events-Keeps P (ddt_walk pv pid did) s v in
        let (status, ddte, u) =
          guarded_read P t a (ddte_addr t.reg_file.capabilities.msi_flat did (suc i) a) 8 in
        branches Intact (is_access_fault status) _ _ (λ _. Intact-intro _ u k)
          (λ _.
            branches Intact (is_data_corruption status) _ _ (λ _. Intact-intro _ u k)
              (λ _.
                branches Intact (not (test_bit ddte 0)) _ _ (λ _. Intact-intro _ u k)
                  (λ _.
                    branches Intact (not (get_bits 9 1 ddte == 0) || not (get_bits 63 54 ddte == 0))
                      _ _ (λ _. Intact-intro _ u k)
                      (λ _. walk_ddt-Intact i u (get_bits 53 10 ddte * 4096) k))))

    load_dc-Intact :
        (s : Iommu W) (a : ℕ) (old : DeviceContext) (slot : ℕ)
        → IsQueues s.reg_file
        → Intact (load_dc P pv pid did s a old slot)
    unfolding load_dc cache_ioatc_dc
    load_dc-Intact s a old slot v =
        let t = count_events P (ddt_walk pv pid did) s in
        let k = count_events-Keeps P (ddt_walk pv pid did) s v in
        let msi_flat = t.reg_file.capabilities.msi_flat in
        let addr = dc_addr msi_flat did a in
        let (status, raw, u) = guarded_read P t addr addr (dc_size msi_flat) in
        let dc = context_of msi_flat raw old in
        branches Intact (is_access_fault status) _ _ (λ _. Intact-intro _ u k)
          (λ _.
            branches Intact (is_data_corruption status) _ _ (λ _. Intact-intro _ u k)
              (λ _.
                branches Intact (not (test_bit dc.tc 0)) _ _ (λ _. Intact-intro _ u k)
                  (λ _.
                    branches Intact (do_device_context_configuration_checks u dc) _ _
                      (λ _. Intact-intro _ u k)
                      (λ _. Intact-intro _ (cache_ioatc_dc u did dc slot) k))))

    lookup_ioatc_dc-Intact : (s : Iommu W) → IsQueues s.reg_file → Intact (lookup_ioatc_dc s did)
    unfolding lookup_ioatc_dc
    lookup_ioatc_dc-Intact s v = elim (Option-cases (find (dc_matches did) s.ddt_cache)) [
      | inl e ↦ rw (e, lookup_ioatc_dc) (Intact-intro _ _ v)
      | inr (m, e) ↦ rw (e, lookup_ioatc_dc) (Intact-intro _ _ v)
    ]

    leaf_cases : {A B : Type 0} (x : A ⊎ B) → ((a : A) × (x ≡ inl a)) ⊎ ((b : B) × (x ≡ inr b))
    leaf_cases (inl a) = inl (a, refl)
    leaf_cases (inr b) = inr (b, refl)

    locate_device_context-Intact :
        (s : Iommu W) (old : DeviceContext) (no_levels no_slot : ℕ)
        → IsQueues s.reg_file
        → Intact (locate_device_context P pv pid did s old no_levels no_slot)
    unfolding locate_device_context
    locate_device_context-Intact s old no_levels no_slot v =
        let a = s.reg_file.ddtp.ppn * 4096 % 2 ^ 64 in
        let walk = walk_ddt P pv pid did (top_level s.reg_file.ddtp.iommu_mode no_levels) s a in
        let k = walk_ddt-Intact (top_level s.reg_file.ddtp.iommu_mode no_levels) s a v in
        elim (Option-cases (lookup_ioatc_dc s did).0) [
          | inr (dc, e) ↦
              rw (e, locate_device_context) (Intact-intro _ _ (lookup_ioatc_dc-Intact s v).kept)
          | inl e ↦ elim (leaf_cases walk.0) [
            | inl (c, f) ↦ rw (e, f, locate_device_context) (Intact-intro _ _ k.kept)
            | inr (b, f) ↦
                rw (e, f, locate_device_context) (load_dc-Intact walk.1 b old no_slot k.kept)
          ]
        ]

  send_prgr-Keeps :
      (s : Iommu W) (m : AtsMsg) (code : ℕ) (prpr : Bool) → Keeps s (send_prgr P s m code prpr)
  unfolding send_prgr
  send_prgr-Keeps s m code prpr v = if_keeps (λ t. IsQueues t.reg_file) _ _ _ v v

  record Ordered (t : Iommu W) : Type 0 where
    kept : IsQueues t.reg_file

  queue_page-Ordered :
      (s : Iommu W) (m : AtsMsg) (prpr : Bool)
      → IsQueues s.reg_file
      → Ordered (queue_page P s m prpr)
  unfolding queue_page
  queue_page-Ordered s m prpr (c, f, (z, w, b)) =
      let r = s.reg_file in
      let q = r.pqcsr in
      let v : IsQueues r = (c, f, (z, w, b)) in
      let next = next_index r.pqt r.pqb.log2szm1 in
      let (status, world) = own_write P s (page_rec_raw m) (prec_addr s) 16 in
      let full : Iommu W = record s { reg_file = record r { pqcsr = record q { pqof = true } } } in
      let failed : Iommu W = record s {
        world = world;
        reg_file = record r { pqcsr = record q { pqmf = true } };
      } in
      let stored : Iommu W = record s { world = world; reg_file = record r { pqt = next } } in
      let moved = wrapped q.pqen q.pqon q.busy r.pqb.log2szm1 r.pqt ((r.pqt + 1) % 2 ^ 32) w in
      branches Ordered (not q.pqon || not q.pqen) _ _
        (λ _. record { kept = send_prgr-Keeps s m 15 prpr v })
        (λ _.
          branches Ordered q.pqmf _ _ (λ _. record { kept = send_prgr-Keeps s m 15 prpr v })
            (λ _.
              branches Ordered q.pqof _ _ (λ _. record { kept = send_prgr-Keeps s m 0 prpr v })
                (λ _.
                  branches Ordered (next == r.pqh) _ _
                    (λ _.
                      let t = generate_interrupt P full page_queue in
                      record {
                        kept =
                            send_prgr-Keeps t m 0 prpr
                              (generate_interrupt-Keeps P full page_queue v);
                      })
                    (λ _.
                      branches Ordered (is_access_fault status || is_data_corruption status) _ _
                        (λ _.
                          let t = generate_interrupt P failed page_queue in
                          record {
                            kept =
                                send_prgr-Keeps t m 15 prpr
                                  (generate_interrupt-Keeps P failed page_queue v);
                          })
                        (λ _. record {
                          kept = generate_interrupt-Keeps P stored page_queue (c, f, (z, moved, b));
                        })))))

  page_of-Ordered :
      (m : AtsMsg) (r : (ℕ ⊎ DeviceContext) × Iommu W)
      → IsQueues r.1.reg_file
      → Ordered (page_of P m r)
  page_of-Ordered m (inl cause, t) v =
      let f = page_fault_of m cause 0 in
      record { kept = send_prgr-Keeps (report_fault P t f) m 15 false (report_fault-Keeps P t f v) }
  page_of-Ordered m (inr dc, t) v =
      let f = page_fault_of m 260 (get_bits 4 4 dc.tc) in
      branches Ordered (not (en_pri dc)) _ _
        (λ _. record {
          kept = send_prgr-Keeps (report_fault P t f) m 1 (prpr dc) (report_fault-Keeps P t f v);
        })
        (λ _. queue_page-Ordered t m (prpr dc) v)

  handle_page_request-Ordered :
      (s : Iommu W) (m : AtsMsg) (old : DeviceContext) (no_levels no_slot : ℕ)
      → IsQueues s.reg_file
      → Ordered (handle_page_request P s m old no_levels no_slot)
  unfolding handle_page_request
  handle_page_request-Ordered s m old no_levels no_slot v =
      let mode = s.reg_file.ddtp.iommu_mode in
      let located = locate_device_context P m.pv m.pid (device_of m) s old no_levels no_slot in
      let k = locate_device_context-Intact m.pv m.pid (device_of m) s old no_levels no_slot v in
      let refused = λ (cause code : ℕ).
        let f = page_fault_of m cause 0 in
        send_prgr-Keeps (report_fault P s f) m code false (report_fault-Keeps P s f v) in
      branches Ordered (mode == 0) _ _ (λ _. record { kept = refused 256 15 })
        (λ _.
          branches Ordered (mode == 1) _ _ (λ _. record { kept = refused 260 1 })
            (λ _.
              branches Ordered (is_too_wide s (device_of m)) _ _
                (λ _. record { kept = refused 260 1 }) (λ _. page_of-Ordered m located k.kept)))

  pub handle_page_request-Keeps :
      (s : Iommu W) (m : AtsMsg) (old : DeviceContext) (no_levels no_slot : ℕ)
      → Keeps s (handle_page_request P s m old no_levels no_slot)
  handle_page_request-Keeps s m old no_levels no_slot v =
      (handle_page_request-Ordered s m old no_levels no_slot v).kept
