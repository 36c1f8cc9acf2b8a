-- ===== src/FirstStage/Returns.antt =====
-- When `two_stage_address_translation` of iommu_ref_model/libiommu/src/iommu_two_stage_trans.c returns.
use riscv_iommu_dv_model.Prelude.{
  ℕ, zero, suc, ◌+◌, ◌*◌, Bool, true, false, not, ◌&&◌, ◌==◌, ◌≡◌, refl, arith, inl, inr, ◌⊎◌,
  if◌then◌else◌, get_bits, Bool-cases, Option-cases, test_bit, clear_low, some, Option,
}
use riscv_iommu_dv_model.Iommu.{Iommu}
use riscv_iommu_dv_model.Iommu.Platform.{Platform}
use riscv_iommu_dv_model.Iommu.Caches.{DeviceContext}
use riscv_iommu_dv_model.Iommu.Regs.{Capabilities}
use riscv_iommu_dv_model.Fault.{is_access_fault, is_data_corruption}
use riscv_iommu_dv_model.Hpm.{count_events}
use riscv_iommu_dv_model.Hpm.Frame.{SameButEvents, count_events-SameButEvents}
use riscv_iommu_dv_model.PageTable.{
  Format, sv32, sv39, sv48, sv57, top_of, pte_of, pte_size, misaligned, bad_napot, invalid_pte,
  is_leaf, lacks, bad_pointer, marked_word,
}
use riscv_iommu_dv_model.PageTable.Frames.{SameButEvents-IsFrame}
use riscv_iommu_dv_model.SecondStage.{Mapping, guest_format, second_stage_address_translation}
use riscv_iommu_dv_model.SecondStage.Mapped.{branches, second_stage-SameButEvents}
use riscv_iommu_dv_model.SecondStage.Returns.{
  IsSteady, IsSteady-SameButEvents, IsSteady-read, second_stage-returns,
}
use riscv_iommu_dv_model.DeviceDirectory.{sxl}
use riscv_iommu_dv_model.DeviceDirectory.Format.{IsAccepted}
use riscv_iommu_dv_model.DeviceDirectory.Locate.{IsAccepted-SameButEvents}
use riscv_iommu_dv_model.ProcessDirectory.Format.{TableMode, bare, sv32, sv39, sv48, sv57}
use riscv_iommu_dv_model.FirstStage.{
  IovaAccess, TransFault, vpn, not_canonical, privilege_denies, is_marked, vs_pt_walk,
  implicit_access, pte_access, VsVisit, vs_fails, vs_pointer, vs_leaf, vs_changed, unanswered,
  update_pte, vs_visit_leaf, visit_pte, vs_visit, vs_resume, vs_walk, two_stage_address_translation,
  page_faulted,
}
use riscv_iommu_dv_model.FirstStage.Frame.{vs_visit-frame}

-- How a pass goes on where its entry does not change.
data Goes : VsVisit → Type 0 where
  fails : (e : TransFault) → Goes (vs_fails e)
  points : (a g : ℕ) → Goes (vs_pointer a g)
  maps : (m : Mapping) → Goes (vs_leaf m)

module _ {W : Type 0} (P : Platform W) (n : ℕ) (q : IovaAccess) (f : Format) where
  abbrev Settles : VsVisit × Iommu W → Type 0
  Settles v = Goes v.0

  abbrev Same : Iommu W → Mapping → (raw : ℕ) → Type 0
  Same s m raw =
      (P.read_memory_for_amo (pte_access q f m) (count_events P (vs_pt_walk q) s).world).1 ≡ raw

  update_pte-Settles :
      (i g : ℕ) (s : Iommu W) (m : Mapping) (raw : ℕ)
      → Same s m raw
      → Settles (update_pte P n q f i g s m raw)
  unfolding update_pte
  update_pte-Settles i g s m raw h =
      let t = count_events P (vs_pt_walk q) s in
      let (status, amo, w) = P.read_memory_for_amo (pte_access q f m) t.world in
      let same = amo == raw in
      let dirty = q.is_write && test_bit amo 2 in
      let (status', w') =
        P.write_memory (if same then marked_word dirty amo else amo) (pte_access q f m) w in
      branches Settles (is_access_fault status) _ _ (λ _. fails _)
        (λ _.
          branches Settles (is_data_corruption status) _ _ (λ _. fails _)
            (λ _.
              branches Settles (is_access_fault status') _ _ (λ _. fails _)
                (λ _.
                  branches Settles (is_data_corruption status') _ _ (λ _. fails _)
                    (λ _.
                      branches Settles (not same) _ _ (λ y. absurd (ground arith)) (λ _. maps _)))))

  vs_visit_leaf-Settles :
      (i g : ℕ) (s : Iommu W) (a : ℕ) (m : Mapping) (raw : ℕ)
      → (q.sade ≡ true → Same s m raw)
      → Settles (vs_visit_leaf P n q f i g s a m raw)
  unfolding vs_visit_leaf
  vs_visit_leaf-Settles i g s a m raw h =
      let p = pte_of raw in
      branches Settles (lacks q.check_access_perms q.is_read q.is_write q.is_exec p) _ _
        (λ _. fails _)
        (λ _.
          branches Settles (privilege_denies q p) _ _ (λ _. fails _)
            (λ _.
              branches Settles (misaligned f i raw) _ _ (λ _. fails _)
                (λ _.
                  branches Settles (bad_napot i p) _ _ (λ _. fails _)
                    (λ _.
                      branches Settles (is_marked q p) _ _ (λ _. maps _)
                        (λ _.
                          branches Settles (not q.sade) _ _ (λ _. fails _)
                            (λ y.
                              branches Settles (m.pte.w == 0) _ _ (λ _. fails _)
                                (λ _. update_pte-Settles i g s m raw (h (ground arith)))))))))

  -- The hypothesis that no entry changes, where entries are updated.
  abbrev Quiet : Iommu W → Type 0
  Quiet s = (q.gade ≡ true) ⊎ (q.sade ≡ true) → IsSteady P s

  module _ where
    visit_pte-Settles :
        (i g : ℕ) (s : Iommu W) (a : ℕ) (m : Mapping)
        → Quiet s
        → Settles (visit_pte P n q f i g s a m)
    unfolding visit_pte
    visit_pte-Settles i g s a m quiet =
        let t = count_events P (vs_pt_walk q) s in
        let (status, raw, w) = P.read_memory (pte_access q f m) t.world in
        let u : Iommu W = record t { world = w } in
        let p = pte_of raw in
        branches Settles (not (clear_low m.pa s.reg_file.capabilities.pas == 0)) _ _ (λ _. fails _)
          (λ _.
            branches Settles (is_access_fault status) _ _ (λ _. fails _)
              (λ _.
                branches Settles (is_data_corruption status) _ _ (λ _. fails _)
                  (λ _.
                    branches Settles (invalid_pte u.reg_file.capabilities p) _ _ (λ _. fails _)
                      (λ _.
                        branches Settles (not (i == 0) && not (p.n == 0)) _ _ (λ _. fails _)
                          (λ _.
                            branches Settles (is_leaf p) _ _
                              (λ _. vs_visit_leaf-Settles i g u a m raw (λ y.
                                IsSteady-read P t (vs_pt_walk q) (pte_access q f m) (
                                  IsSteady-SameButEvents P s t
                                    (count_events-SameButEvents P (vs_pt_walk q) s)
                                    (quiet (inr y)))))
                              (λ _.
                                branches Settles (bad_pointer p) _ _ (λ _. fails _)
                                  (λ _. points _ _)))))))

    module _ (dc : DeviceContext) (guest : q.iohgatp ≡ dc.iohgatp) (width : q.sxl ≡ sxl dc) where
      vs_visit-Settles :
          (i g : ℕ) (b : Bool) (s : Iommu W) (a : ℕ)
          → IsAccepted s dc
          → Quiet s
          → Settles (vs_visit P n q f i g b s a)
      unfolding vs_visit implicit_access
      vs_visit-Settles i g b s a ok quiet =
          let c = implicit_access q (a + vpn f i q.iova * pte_size f) in
          let t = (second_stage_address_translation P n s c).1 in
          elim (Option-cases (second_stage_address_translation P n s c).0) [
            | inl e ↦
                let (o, k) = second_stage-returns P n s c dc (λ y. quiet (inl y)) ok guest width in
                absurd cc
            | inr (inl x, e) ↦ rw (e, vs_visit) (fails _)
            | inr (inr m, e) ↦
                rw (e, vs_visit)
                  (visit_pte-Settles i g t a m (λ y.
                    IsSteady-SameButEvents P s t (second_stage-SameButEvents P n s c) (quiet y)))
          ]

      abbrev Answers : Option (TransFault ⊎ Mapping) × Iommu W → Type 0
      Answers r = (o : TransFault ⊎ Mapping) × (r.0 ≡ some o)

      vs_resume-Answers :
          (descend : Iommu W → ℕ → ℕ → Option (TransFault ⊎ Mapping) × Iommu W)
          (again : Iommu W → Option (TransFault ⊎ Mapping) × Iommu W) (v : VsVisit × Iommu W)
          → Settles v
          → ((c h : ℕ) → Answers (descend v.1 c h))
          → Answers (vs_resume descend again v)
      vs_resume-Answers descend again (vs_fails e, t) h k = (inl e, refl)
      vs_resume-Answers descend again (vs_pointer c g, t) h k = k c g
      vs_resume-Answers descend again (vs_leaf m, t) h k = (inr m, refl)
      vs_resume-Answers descend again (vs_changed, t) h k = elim h [ ]
      vs_resume-Answers descend again (unanswered, t) h k = elim h [ ]

      still :
          (i g : ℕ) (b : Bool) (s : Iommu W) (a : ℕ)
          → IsAccepted s dc
          → IsAccepted (vs_visit P n q f i g b s a).1 dc
      still i g b s a ok =
          IsAccepted-SameButEvents s (vs_visit P n q f i g b s a).1 dc
            (vs_visit-frame P SameButEvents (SameButEvents-IsFrame P) n q f i g b s a) ok

      calm :
          (i g : ℕ) (b : Bool) (s : Iommu W) (a : ℕ)
          → Quiet s
          → Quiet (vs_visit P n q f i g b s a).1
      calm i g b s a quiet y =
          IsSteady-SameButEvents P s (vs_visit P n q f i g b s a).1
            (vs_visit-frame P SameButEvents (SameButEvents-IsFrame P) n q f i g b s a) (quiet y)

      vs_walk-Answers :
          (k i g : ℕ) (b : Bool) (s : Iommu W) (a : ℕ)
          → IsAccepted s dc
          → Quiet s
          → Answers (vs_walk P n q f k i g b s a)
      unfolding vs_walk
      vs_walk-Answers zero zero g b s a ok quiet =
          vs_resume-Answers _ _ (vs_visit P n q f zero g b s a)
            (vs_visit-Settles zero g b s a ok quiet) (λ c h. (inl (page_faulted q), refl))
      vs_walk-Answers zero (suc i) g b s a ok quiet =
          let v = vs_visit P n q f (suc i) g b s a in
          vs_resume-Answers _ _ v (vs_visit-Settles (suc i) g b s a ok quiet) (λ c h.
            vs_walk-Answers zero i h b v.1 c (still (suc i) g b s a ok)
              (calm (suc i) g b s a quiet))
      vs_walk-Answers (suc k) zero g b s a ok quiet =
          vs_resume-Answers _ _ (vs_visit P n q f zero g b s a)
            (vs_visit-Settles zero g b s a ok quiet) (λ c h. (inl (page_faulted q), refl))
      vs_walk-Answers (suc k) (suc i) g b s a ok quiet =
          let v = vs_visit P n q f (suc i) g b s a in
          vs_resume-Answers _ _ v (vs_visit-Settles (suc i) g b s a ok quiet) (λ c h.
            vs_walk-Answers (suc k) i h b v.1 c (still (suc i) g b s a ok)
              (calm (suc i) g b s a quiet))

-- The format that a mode other than Bare names.
module _ (c : Capabilities) (narrow : Bool) (m : ℕ) where
  format_of :
      (m == 0) ≡ false → TableMode c narrow m → (f : Format) × (guest_format narrow m ≡ some f)
  unfolding guest_format
  format_of h (bare e) = absurd (ground arith)
  format_of h (sv32 g e k) = (Format.sv32, rw (g, e) refl)
  format_of h (sv39 g e k) = (Format.sv39, rw (g, e) refl)
  format_of h (sv48 g e k) = (Format.sv48, rw (g, e) refl)
  format_of h (sv57 g e k) = (Format.sv57, rw (g, e) refl)

module _ {W : Type 0} (P : Platform W) where
  -- `two_stage_address_translation` returns a fault or a mapping, with any number of retries and so without
  -- one, with the iohgatp and the SXL of a device context that the configuration checks accept, and a
  -- first-stage mode that the process context checks' specification allows. If GADE or SADE is on, two reads
  -- of an entry with no write between them have to agree, and the counting of events must not write to
  -- memory: interrupts are wires, or no counter is implemented.
  pub two_stage-returns :
      (n : ℕ) (s : Iommu W) (q : IovaAccess) (size : ℕ) (dc : DeviceContext)
      → ((q.gade ≡ true) ⊎ (q.sade ≡ true) → IsSteady P s)
      → IsAccepted s dc
      → q.iohgatp ≡ dc.iohgatp
      → q.sxl ≡ sxl dc
      → TableMode s.reg_file.capabilities q.sxl (get_bits 63 60 q.iosatp)
      → (o : TransFault ⊎ Mapping) × ((two_stage_address_translation P n s q size).0 ≡ some o)
  unfolding two_stage_address_translation
  two_stage-returns n s q size dc quiet ok guest width table =
      let mode = get_bits 63 60 q.iosatp in
      elim (Bool-cases (mode == 0)) [
        | inl y ↦ rw (y, two_stage_address_translation) (inr _, refl)
        | inr other ↦
            let (f, known) = format_of s.reg_file.capabilities q.sxl mode other table in
            rw (other, two_stage_address_translation)
              (rw (known, two_stage_address_translation)
                (elim (Bool-cases (not_canonical f q.sxl q.iova)) [
                  | inl y ↦ rw y (inl (page_faulted q), refl)
                  | inr y ↦ rw y (
                      vs_walk-Answers P n q f dc guest width n (top_of f) 0 false s
                        (get_bits 43 0 q.iosatp * 4096) ok quiet)
                ]))
      ]
