-- ===== src/FirstStage/Frame.antt =====
-- What `two_stage_address_translation` changes: it counts events, accesses memory, and has the second stage
-- do so.
use riscv_iommu_dv_model.Prelude.{
  ℕ, zero, suc, ◌+◌, ◌*◌, ◌⊎◌, inl, inr, Option, arith, Option-cases, Bool-cases, ◌==◌, true, Bool,
  if◌then◌else◌, ◌&&◌, test_bit, get_bits, false,
}
use riscv_iommu_dv_model.Iommu.{Iommu}
use riscv_iommu_dv_model.Iommu.Platform.{Platform}
use riscv_iommu_dv_model.Hpm.{count_events}
use riscv_iommu_dv_model.Hpm.Frame.{SameButEvents}
use riscv_iommu_dv_model.PageTable.{Format, pte_size, marked_word, top_of}
use riscv_iommu_dv_model.PageTable.Frames.{IsFrame, SameButEvents-IsFrame}
use riscv_iommu_dv_model.SecondStage.{Mapping, guest_format, second_stage_address_translation}
use riscv_iommu_dv_model.SecondStage.Frame.{second_stage-frame}
use riscv_iommu_dv_model.FirstStage.{
  IovaAccess, TransFault, VsVisit, vs_fails, vs_pointer, vs_leaf, vs_changed, unanswered,
  update_pte, vs_visit_leaf, visit_pte, vs_visit, vs_resume, vs_walk, two_stage_address_translation,
  vs_pt_walk, pte_access, vpn, implicit_access, not_canonical,
}

module _ {W : Type 0} (P : Platform W) (R : Iommu W → Iommu W → Type 0) (frame : IsFrame P R)
    (n : ℕ) where
  open frame use {stay, chain, world_changes, counted}

  module _ (q : IovaAccess) where
    counted_world :
        (s : Iommu W) (w : W) → R s (record (count_events P (vs_pt_walk q) s) { world = w })
    counted_world s w =
        let t = count_events P (vs_pt_walk q) s in
        chain s t (record t { world = w }) (counted s (vs_pt_walk q)) (world_changes t w)

    module _ (f : Format) where
      update_pte-frame :
          (i g : ℕ) (s : Iommu W) (m : Mapping) (raw : ℕ) → R s (update_pte P n q f i g s m raw).1
      unfolding update_pte
      update_pte-frame i g s m raw =
          let t = count_events P (vs_pt_walk q) s in
          let (status, amo, w) = P.read_memory_for_amo (pte_access q f m) t.world in
          let same = amo == raw in
          let dirty = q.is_write && test_bit amo 2 in
          let (status', w') =
            P.write_memory (if same then marked_word dirty amo else amo) (pte_access q f m) w in
          let k = counted_world s w in let l = counted_world s w' in ground arith

      vs_visit_leaf-frame :
          (i g : ℕ) (s : Iommu W) (a : ℕ) (m : Mapping) (raw : ℕ)
          → R s (vs_visit_leaf P n q f i g s a m raw).1
      unfolding vs_visit_leaf
      vs_visit_leaf-frame i g s a m raw =
          let k = update_pte-frame i g s m raw in let l = stay s in ground arith

      visit_pte-frame :
          (i g : ℕ) (s : Iommu W) (a : ℕ) (m : Mapping) → R s (visit_pte P n q f i g s a m).1
      unfolding visit_pte
      visit_pte-frame i g s a m =
          let t = count_events P (vs_pt_walk q) s in
          let (status, raw, w) = P.read_memory (pte_access q f m) t.world in
          let u : Iommu W = record t { world = w } in
          let k = stay s in
          let l = counted_world s w in
          let x =
            chain s u (vs_visit_leaf P n q f i g u a m raw).1 l
              (vs_visit_leaf-frame i g u a m raw) in
          ground arith

      pub vs_visit-frame :
          (i g : ℕ) (b : Bool) (s : Iommu W) (a : ℕ) → R s (vs_visit P n q f i g b s a).1
      unfolding vs_visit
      vs_visit-frame i g b s a =
          let c = implicit_access q (a + vpn f i q.iova * pte_size f) in
          let t = (second_stage_address_translation P n s c).1 in
          let k = second_stage-frame P R frame n s c in
          elim (Option-cases (second_stage_address_translation P n s c).0) [
            | inl e ↦ rw (e, vs_visit) k
            | inr (inl x, e) ↦ rw (e, vs_visit) k
            | inr (inr m, e) ↦
                rw (e, vs_visit)
                  (chain s t (visit_pte P n q f i g t a m).1 k (visit_pte-frame i g t a m))
          ]

      vs_resume-frame :
          (s : Iommu W) (descend : Iommu W → ℕ → ℕ → Option (TransFault ⊎ Mapping) × Iommu W)
          (again : Iommu W → Option (TransFault ⊎ Mapping) × Iommu W) (v : VsVisit × Iommu W)
          → R s v.1
          → ((t : Iommu W) (b g : ℕ) → R t (descend t b g).1)
          → ((t : Iommu W) → R t (again t).1)
          → R s (vs_resume descend again v).1
      vs_resume-frame s descend again (vs_fails e, t) h k l = h
      vs_resume-frame s descend again (vs_pointer b g, t) h k l =
          chain s t (descend t b g).1 h (k t b g)
      vs_resume-frame s descend again (vs_leaf m, t) h k l = h
      vs_resume-frame s descend again (vs_changed, t) h k l = chain s t (again t).1 h (l t)
      vs_resume-frame s descend again (unanswered, t) h k l = h

      vs_walk-frame :
          (k i g : ℕ) (b : Bool) (s : Iommu W) (a : ℕ) → R s (vs_walk P n q f k i g b s a).1
      unfolding vs_walk
      vs_walk-frame zero zero g b s a =
          vs_resume-frame s _ _ (vs_visit P n q f zero g b s a) (vs_visit-frame zero g b s a)
            (λ t c h. stay t) (λ t. stay t)
      vs_walk-frame zero (suc i) g b s a =
          vs_resume-frame s _ _ (vs_visit P n q f (suc i) g b s a) (vs_visit-frame (suc i) g b s a)
            (λ t c h. vs_walk-frame zero i h b t c) (λ t. stay t)
      vs_walk-frame (suc k) zero g b s a =
          vs_resume-frame s _ _ (vs_visit P n q f zero g b s a) (vs_visit-frame zero g b s a)
            (λ t c h. stay t) (λ t. vs_walk-frame k zero g true t a)
      vs_walk-frame (suc k) (suc i) g b s a =
          vs_resume-frame s _ _ (vs_visit P n q f (suc i) g b s a) (vs_visit-frame (suc i) g b s a)
            (λ t c h. vs_walk-frame (suc k) i h b t c) (λ t. vs_walk-frame k (suc i) g true t a)

  pub two_stage-frame :
      (s : Iommu W) (q : IovaAccess) (size : ℕ) → R s (two_stage_address_translation P n s q size).1
  unfolding two_stage_address_translation
  two_stage-frame s q size =
      let mode = get_bits 63 60 q.iosatp in
      elim (Bool-cases (mode == 0)) [
        | inl y ↦ rw (y, two_stage_address_translation) (stay s)
        | inr other ↦ elim (Option-cases (guest_format q.sxl mode)) [
          | inl e ↦
              rw (other, two_stage_address_translation)
                (rw (e, two_stage_address_translation) (stay s))
          | inr (f, e) ↦
              let k = vs_walk-frame q f n (top_of f) 0 false s (get_bits 43 0 q.iosatp * 4096) in
              rw (other, two_stage_address_translation)
                (rw (e, two_stage_address_translation)
                  (elim (Bool-cases (not_canonical f q.sxl q.iova)) [
                    | inl y ↦ rw y (stay s)
                    | inr y ↦ rw y k
                  ]))
        ]
      ]

pub two_stage-SameButEvents :
    {W : Type 0} (P : Platform W) (n : ℕ) (s : Iommu W) (q : IovaAccess) (size : ℕ)
    → SameButEvents s (two_stage_address_translation P n s q size).1
two_stage-SameButEvents P n s q size =
    two_stage-frame P SameButEvents (SameButEvents-IsFrame P) n s q size
