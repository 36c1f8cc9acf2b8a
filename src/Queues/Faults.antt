-- ===== src/Queues/Faults.antt =====
-- The queues under interrupts and fault reports: iommu_ref_model/libiommu/src/iommu_interrupt.c and
-- iommu_faults.c.
use riscv_iommu_dv_model.Prelude.{ℕ, ◌+◌, ◌%◌, ◌^◌, ◌≡◌, Bool, some, arith}
use riscv_iommu_dv_model.Iommu.{Iommu}
use riscv_iommu_dv_model.Iommu.Platform.{Platform}
use riscv_iommu_dv_model.Fault.{
  IntUnit, queue_fault, store_frec, mark_pending, generate_interrupt, report_fault,
  release_pending_interrupt,
}
use riscv_iommu_dv_model.Fault.Record.{Fault}
use riscv_iommu_dv_model.Fault.Relation.{
  IsRespected, generate_interrupt-respects, report_fault-respects,
  release_pending_interrupt-respects,
}
use riscv_iommu_dv_model.Queues.{IsQueues, IsSwitched, off, running, draining, low_bits-entries}

module _ {W : Type 0} where
  -- A change from `s` to `t` keeps the queues in order.
  abbrev pub Keeps : Iommu W → Iommu W → Type 0
  Keeps s t = IsQueues s.reg_file → IsQueues t.reg_file

-- Any value that the wrap-around leaves will do for the index.
pub wrapped :
    (en on busy : Bool) (k i x : ℕ)
    → IsSwitched en on busy k i
    → IsSwitched en on busy k (x % 2 ^ (k + 1))
wrapped en on busy k i x (off a b c) = off a b c
wrapped en on busy k i x (running a b c d) = running a b c (low_bits-entries x k)
wrapped en on busy k i x (draining a b c d) = draining a b c (low_bits-entries x k)

module _ {W : Type 0} (P : Platform W) where
  Keeps-queue_fault : (s t : Iommu W) (f : Fault) → queue_fault P s f ≡ some t → Keeps s t
  unfolding queue_fault store_frec
  Keeps-queue_fault s t f h (c, (z, w, b), p) =
      let r = s.reg_file in
      let q = r.fqcsr in
      let moved = wrapped q.fqen q.fqon q.busy r.fqb.log2szm1 r.fqt ((r.fqt + 1) % 2 ^ 32) w in
      ground arith

  Keeps-mark_pending :
      (s t : Iommu W) (unit : IntUnit) (vec : ℕ) → mark_pending s unit ≡ some (t, vec) → Keeps s t
  unfolding mark_pending
  Keeps-mark_pending s t unit vec h v = ground arith

  Keeps-IsRespected : IsRespected P Keeps
  Keeps-IsRespected = record {
    stay = λ s v. v;
    chain = λ s t u h k v. k (h v);
    world_changes = λ s w v. v;
    msi_marked = λ s l v. v;
    marked = λ s t unit vec. Keeps-mark_pending s t unit vec;
    queued = λ s t f. Keeps-queue_fault s t f;
  }

  pub generate_interrupt-Keeps :
      (s : Iommu W) (unit : IntUnit) → Keeps s (generate_interrupt P s unit)
  generate_interrupt-Keeps = generate_interrupt-respects P Keeps Keeps-IsRespected

  pub report_fault-Keeps : (s : Iommu W) (f : Fault) → Keeps s (report_fault P s f)
  report_fault-Keeps = report_fault-respects P Keeps Keeps-IsRespected

  pub release_pending_interrupt-Keeps :
      (s : Iommu W) (vec : ℕ) → Keeps s (release_pending_interrupt P s vec)
  release_pending_interrupt-Keeps = release_pending_interrupt-respects P Keeps Keeps-IsRespected
