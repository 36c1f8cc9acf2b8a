-- ===== src/SecondStage/Frame.antt =====
-- What `second_stage_address_translation` changes: it counts events and accesses memory.
use riscv_iommu_dv_model.Prelude.{
  ℕ, zero, suc, ◌+◌, ◌*◌, ◌⊎◌, inl, inr, Option, arith, Option-cases, Bool-cases, bit_or, ◌==◌, not,
  if◌then◌else◌, ◌&&◌, ◌||◌, test_bit, get_bits,
}
use riscv_iommu_dv_model.Iommu.{Iommu}
use riscv_iommu_dv_model.Iommu.Platform.{Platform}
use riscv_iommu_dv_model.Hpm.{count_events}
use riscv_iommu_dv_model.PageTable.{Format, pte_size, marked_word, top_of}
use riscv_iommu_dv_model.PageTable.Frames.{IsFrame}
use riscv_iommu_dv_model.SecondStage.{
  GuestAccess, GstFault, Mapping, Visit, fault, pointer, leaf, changed, update_gpte, visit_leaf,
  visit, walk, guest_format, second_stage_address_translation, g_pt_walk, gst_access, guest_vpn,
  resume, upper_bits,
}

module _ {W : Type 0} (P : Platform W) (R : Iommu W → Iommu W → Type 0) (frame : IsFrame P R) where
  open frame use {stay, chain, world_changes, counted}

  -- A memory access after a count.
  counted_world :
      (s : Iommu W) (q : GuestAccess) (w : W)
      → R s (record (count_events P (g_pt_walk q) s) { world = w })
  counted_world s q w =
      let t = count_events P (g_pt_walk q) s in
      chain s t (record t { world = w }) (counted s (g_pt_walk q)) (world_changes t w)

  module _ (q : GuestAccess) (f : Format) where
    update_gpte-frame : (i : ℕ) (s : Iommu W) (a raw : ℕ) → R s (update_gpte P q f i s a raw).1
    unfolding update_gpte
    update_gpte-frame i s a raw =
        let t = count_events P (g_pt_walk q) s in
        let access = gst_access t q (a + guest_vpn f i q.gpa * pte_size f) (pte_size f) in
        let (status, amo, w) = P.read_memory_for_amo access t.world in
        let same = amo == raw in
        let dirty = (q.is_write || q.is_implicit) && test_bit amo 2 in
        let (status', w') = P.write_memory (if same then marked_word dirty amo else amo) access w in
        let k = counted_world s q w in let l = counted_world s q w' in ground arith

    visit_leaf-frame : (i : ℕ) (s : Iommu W) (a raw : ℕ) → R s (visit_leaf P q f i s a raw).1
    unfolding visit_leaf
    visit_leaf-frame i s a raw =
        let k = update_gpte-frame i s a raw in let l = stay s in ground arith

    pub visit-frame : (i : ℕ) (s : Iommu W) (a : ℕ) → R s (visit P q f i s a).1
    unfolding visit
    visit-frame i s a =
        let t = count_events P (g_pt_walk q) s in
        let access = gst_access t q (bit_or a (guest_vpn f i q.gpa * pte_size f)) (pte_size f) in
        let (status, raw, w) = P.read_memory access t.world in
        let u : Iommu W = record t { world = w } in
        let k = counted s (g_pt_walk q) in
        let l = counted_world s q w in
        let m = chain s u (visit_leaf P q f i u a raw).1 l (visit_leaf-frame i u a raw) in
        ground arith

    -- What both ways to go on respect, going on respects.
    resume-frame :
        (s : Iommu W) (descend : Iommu W → ℕ → Option (GstFault ⊎ Mapping) × Iommu W)
        (again : Iommu W → Option (GstFault ⊎ Mapping) × Iommu W) (v : Visit × Iommu W)
        → R s v.1
        → ((t : Iommu W) (b : ℕ) → R t (descend t b).1)
        → ((t : Iommu W) → R t (again t).1)
        → R s (resume descend again v).1
    resume-frame s descend again (fault g, t) h k l = h
    resume-frame s descend again (pointer b, t) h k l = chain s t (descend t b).1 h (k t b)
    resume-frame s descend again (leaf m, t) h k l = h
    resume-frame s descend again (changed, t) h k l = chain s t (again t).1 h (l t)

    walk-frame : (n i : ℕ) (s : Iommu W) (a : ℕ) → R s (walk P q f n i s a).1
    unfolding walk
    walk-frame zero zero s a =
        resume-frame s _ _ (visit P q f zero s a) (visit-frame zero s a) (λ t b. stay t)
          (λ t. stay t)
    walk-frame zero (suc i) s a =
        resume-frame s _ _ (visit P q f (suc i) s a) (visit-frame (suc i) s a)
          (λ t b. walk-frame zero i t b) (λ t. stay t)
    walk-frame (suc k) zero s a =
        resume-frame s _ _ (visit P q f zero s a) (visit-frame zero s a) (λ t b. stay t)
          (λ t. walk-frame k zero t a)
    walk-frame (suc k) (suc i) s a =
        resume-frame s _ _ (visit P q f (suc i) s a) (visit-frame (suc i) s a)
          (λ t b. walk-frame (suc k) i t b) (λ t. walk-frame k (suc i) t a)

  pub second_stage-frame :
      (n : ℕ) (s : Iommu W) (q : GuestAccess) → R s (second_stage_address_translation P n s q).1
  unfolding second_stage_address_translation
  second_stage-frame n s q =
      let gxl = s.reg_file.fctl.gxl in
      let mode = get_bits 63 60 q.iohgatp in
      elim (Bool-cases (mode == 0)) [
        | inl y ↦ rw (y, second_stage_address_translation) (stay s)
        | inr other ↦ elim (Option-cases (guest_format gxl mode)) [
          | inl e ↦
              rw (other, second_stage_address_translation)
                (rw (e, second_stage_address_translation) (stay s))
          | inr (f, e) ↦
              let k = walk-frame q f n (top_of f) s (get_bits 43 0 q.iohgatp * 4096) in
              rw (other, second_stage_address_translation)
                (rw (e, second_stage_address_translation)
                  (elim (Bool-cases (not (upper_bits f q.sxl q.gpa == 0))) [
                    | inl y ↦ rw y (stay s)
                    | inr y ↦ rw y k
                  ]))
        ]
      ]
