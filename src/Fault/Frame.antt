-- ===== src/Fault/Frame.antt =====
-- What the functions of iommu_faults.c and iommu_interrupt.c leave alone: everything but the world,
-- the pending interrupts and MSIs, and the tail and the error bits of the fault queue.
use riscv_iommu_dv_model.Prelude.{ℕ, ◌≡◌, refl, ◌∙◌, ap, some, arith}
use riscv_iommu_dv_model.Iommu.{Iommu}
use riscv_iommu_dv_model.Iommu.Platform.{Platform}
use riscv_iommu_dv_model.Fault.{
  IntUnit, fault_queue, store_frec, queue_fault, mark_pending, generate_interrupt, report_fault,
  release_pending_interrupt,
}
use riscv_iommu_dv_model.Fault.Record.{Fault}
use riscv_iommu_dv_model.Fault.Relation.{
  IsRespected, generate_interrupt-respects, report_fault-respects,
  release_pending_interrupt-respects,
}

module _ {W : Type 0} where
  -- `s` with the parts of `t` that faults and interrupts may change.
  abbrev pub merge : Iommu W → Iommu W → Iommu W
  merge s t =
      let r = s.reg_file in
      let c = r.fqcsr in
      record s {
        world = t.world;
        msi_pending = t.msi_pending;
        reg_file = record r {
          ipsr = t.reg_file.ipsr;
          fqt = t.reg_file.fqt;
          fqcsr = record c { fqmf = t.reg_file.fqcsr.fqmf; fqof = t.reg_file.fqcsr.fqof };
        };
      }

  -- `t` differs from `s` in those parts only.
  abbrev pub SameBut : Iommu W → Iommu W → Type 0
  SameBut s t = t ≡ merge s t

module _ {W : Type 0} (P : Platform W) where
  SameBut-queue_fault : (s t : Iommu W) (f : Fault) → queue_fault P s f ≡ some t → SameBut s t
  unfolding queue_fault store_frec
  SameBut-queue_fault s t f h = ground arith

  SameBut-mark_pending :
      (s t : Iommu W) (unit : IntUnit) (vec : ℕ) → mark_pending s unit ≡ some (t, vec) → SameBut s t
  unfolding mark_pending
  SameBut-mark_pending s t fault_queue vec h = ground arith
  SameBut-mark_pending s t _ vec h = ground arith

  SameBut-IsRespected : IsRespected P SameBut
  SameBut-IsRespected = record {
    stay = λ s. refl;
    chain = λ s t u h k. k ∙ ap (λ x. merge x u) h;
    world_changes = λ s w. refl;
    msi_marked = λ s l. refl;
    marked = λ s t unit vec. SameBut-mark_pending s t unit vec;
    queued = λ s t f. SameBut-queue_fault s t f;
  }

  -- An interrupt changes no more than the world, the pending bits, and the fault queue's tail and
  -- error bits: the other queues, the caches and the configuration stay as they are.
  pub generate_interrupt-SameBut :
      (s : Iommu W) (unit : IntUnit) → SameBut s (generate_interrupt P s unit)
  generate_interrupt-SameBut = generate_interrupt-respects P SameBut SameBut-IsRespected

  -- Reporting a fault, with all interrupts and further faults that it causes, changes no more than the
  -- world, the pending interrupts and MSIs, and the tail and the error bits of the fault queue.
  pub report_fault-SameBut : (s : Iommu W) (f : Fault) → SameBut s (report_fault P s f)
  report_fault-SameBut = report_fault-respects P SameBut SameBut-IsRespected

  pub release_pending_interrupt-SameBut :
      (s : Iommu W) (vec : ℕ) → SameBut s (release_pending_interrupt P s vec)
  release_pending_interrupt-SameBut =
      release_pending_interrupt-respects P SameBut SameBut-IsRespected
