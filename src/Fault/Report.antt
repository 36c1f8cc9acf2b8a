-- ===== src/Fault/Report.antt =====
-- When `report_fault` of iommu_faults.c is silent, and what an accepted fault leaves behind.
use riscv_iommu_dv_model.Prelude.{
  ℕ, ◌<◌, ◌≡◌, refl, ◌∙◌, ◌⊎◌, inl, inr, some, none, true, false, arith, Bool-cases,
}
use riscv_iommu_dv_model.Iommu.{Iommu}
use riscv_iommu_dv_model.Iommu.Regs.{RegFile}
use riscv_iommu_dv_model.Iommu.Platform.{Platform}
use riscv_iommu_dv_model.Fault.{
  IntUnit, fault_queue, accepts, reported_with_dtf, fq_is_full, store_frec, queue_fault,
  mark_pending, generate_interrupt, report_fault,
}
use riscv_iommu_dv_model.Fault.Record.{Fault}
use riscv_iommu_dv_model.Fault.Fuel.{report_fault_dropped, report_fault_raises}
use riscv_iommu_dv_model.Fault.Relation.{
  IsRespected, generate_interrupt_marked, generate_interrupt-respects,
}
use riscv_iommu_dv_model.Fault.Queue.{
  IsFq, fq_unread, entries, entries_bounds, unread-step, Grows-queue_fault,
  generate_interrupt-FqGrows,
}

-- The causes that the table in `report_fault` marks as reported although DTF is 1.
pub data AlwaysReported (cause : ℕ) : Type 0 where
  all_disallowed : cause ≡ 256 → AlwaysReported cause
  ddt_access : cause ≡ 257 → AlwaysReported cause
  ddt_invalid : cause ≡ 258 → AlwaysReported cause
  ddt_misconfigured : cause ≡ 259 → AlwaysReported cause
  ddt_corrupt : cause ≡ 268 → AlwaysReported cause
  datapath : cause ≡ 272 → AlwaysReported cause
  msi_write : cause ≡ 273 → AlwaysReported cause

-- Why a fault is not reported.
pub data IsSilent {W : Type 0} (s : Iommu W) (f : Fault) : Type 0 where
  off : s.reg_file.fqcsr.fqon ≡ false → IsSilent s f
  disabled : s.reg_file.fqcsr.fqen ≡ false → IsSilent s f
  memory_fault : s.reg_file.fqcsr.fqmf ≡ true → IsSilent s f
  overflow : s.reg_file.fqcsr.fqof ≡ true → IsSilent s f
  filtered : f.dtf ≡ 1 → ¬ AlwaysReported f.cause → IsSilent s f

module _ {W : Type 0} (s : Iommu W) (f : Fault) where
  AlwaysReported-accepts : AlwaysReported f.cause → reported_with_dtf f.cause ≡ true
  AlwaysReported-accepts (all_disallowed e) = ground arith
  AlwaysReported-accepts (ddt_access e) = ground arith
  AlwaysReported-accepts (ddt_invalid e) = ground arith
  AlwaysReported-accepts (ddt_misconfigured e) = ground arith
  AlwaysReported-accepts (ddt_corrupt e) = ground arith
  AlwaysReported-accepts (datapath e) = ground arith
  AlwaysReported-accepts (msi_write e) = ground arith

  AlwaysReported-intro : reported_with_dtf f.cause ≡ true → AlwaysReported f.cause
  AlwaysReported-intro h = grind (
    arith, all_disallowed, ddt_access, ddt_invalid, ddt_misconfigured, ddt_corrupt, datapath,
    msi_write,
  )

  IsSilent-accepts : IsSilent s f → accepts s f ≡ false
  unfolding accepts
  IsSilent-accepts (off e) = ground arith
  IsSilent-accepts (disabled e) = ground arith
  IsSilent-accepts (memory_fault e) = ground arith
  IsSilent-accepts (overflow e) = ground arith
  IsSilent-accepts (filtered e ne) = elim (Bool-cases (reported_with_dtf f.cause)) [
    | inl y ↦ absurd (ne (AlwaysReported-intro y))
    | inr n ↦ ground arith
  ]

  not-accepts-IsSilent : accepts s f ≡ false → IsSilent s f
  unfolding accepts
  not-accepts-IsSilent h = elim (Bool-cases c.fqon) [
    | inr e ↦ off e
    | inl on ↦ elim (Bool-cases c.fqen) [
      | inr e ↦ disabled e
      | inl en ↦ elim (Bool-cases c.fqmf) [
        | inl e ↦ memory_fault e
        | inr mf ↦ elim (Bool-cases c.fqof) [
          | inl e ↦ overflow e
          | inr clear ↦
              filtered (ground arith)
                (λ a. let r = AlwaysReported-accepts a in absurd (ground arith))
        ]
      ]
    ]
  ]
    where
      open s.reg_file use {fqcsr as c}

  queue_fault-IsSilent : (P : Platform W) → IsSilent s f → queue_fault P s f ≡ none
  unfolding queue_fault
  queue_fault-IsSilent P h = rw (IsSilent-accepts h)

  not-IsSilent-accepts : ¬ IsSilent s f → accepts s f ≡ true
  not-IsSilent-accepts no_reason = elim (Bool-cases (accepts s f)) [
    | inl y ↦ y
    | inr n ↦ absurd (no_reason (not-accepts-IsSilent n))
  ]

-- The error bits of the fault queue and its pending interrupt stay set once they are set.
record Sticky (r r' : RegFile) : Type 0 where
  fqof_stays : r.fqcsr.fqof ≡ true → r'.fqcsr.fqof ≡ true
  fqmf_stays : r.fqcsr.fqmf ≡ true → r'.fqcsr.fqmf ≡ true
  fip_stays : r.ipsr.fip ≡ true → r'.ipsr.fip ≡ true

Sticky-refl : (r : RegFile) → Sticky r r
Sticky-refl r = record { fqof_stays = λ e. e; fqmf_stays = λ e. e; fip_stays = λ e. e }

abbrev StaysSet : {W : Type 0} → Iommu W → Iommu W → Type 0
StaysSet s t = Sticky s.reg_file t.reg_file

-- What an accepted fault leaves in the registers: a record more, or an error bit.
abbrev pub IsNoticed : RegFile → RegFile → Type 0
IsNoticed r r' = (fq_unread r < fq_unread r') ⊎ (r'.fqcsr.fqof ≡ true) ⊎ (r'.fqcsr.fqmf ≡ true)

module _ {W : Type 0} (P : Platform W) where
  Sticky-queue_fault : (s t : Iommu W) (f : Fault) → queue_fault P s f ≡ some t → StaysSet s t
  unfolding queue_fault store_frec
  Sticky-queue_fault s t f h = ground arith

  Sticky-mark_pending :
      (s t : Iommu W) (unit : IntUnit) (vec : ℕ)
      → mark_pending s unit ≡ some (t, vec)
      → StaysSet s t
  unfolding mark_pending
  Sticky-mark_pending s t fault_queue vec h = ground arith
  Sticky-mark_pending s t _ vec h = ground arith

  StaysSet-IsRespected : IsRespected P StaysSet
  StaysSet-IsRespected = record {
    stay = λ s. Sticky-refl s.reg_file;
    chain = λ s t u h k. record {
      fqof_stays = λ e. k.fqof_stays (h.fqof_stays e);
      fqmf_stays = λ e. k.fqmf_stays (h.fqmf_stays e);
      fip_stays = λ e. k.fip_stays (h.fip_stays e);
    };
    world_changes = λ s w. Sticky-refl s.reg_file;
    msi_marked = λ s l. Sticky-refl s.reg_file;
    marked = λ s t unit vec. Sticky-mark_pending s t unit vec;
    queued = λ s t f. Sticky-queue_fault s t f;
  }

  -- A fault is silent, and `report_fault` changes nothing at all, if the fault queue is off or
  -- disabled, if one of its error bits is set, or if DTF is 1 and the table of `report_fault` does
  -- not list the cause as reported all the same.
  pub report_fault_silent : (s : Iommu W) (f : Fault) → IsSilent s f → report_fault P s f ≡ s
  report_fault_silent s f h = report_fault_dropped P s f (queue_fault-IsSilent s f P h)

  -- After an interrupt of the fault queue is raised, it is pending unless it is disabled.
  generate_interrupt-fip :
      (s : Iommu W)
      → s.reg_file.fqcsr.fie ≡ true
      → (generate_interrupt P s fault_queue).reg_file.ipsr.fip ≡ true
  unfolding mark_pending
  generate_interrupt-fip s e = elim (Bool-cases s.reg_file.ipsr.fip) [
    | inl y ↦
        (generate_interrupt-respects P StaysSet StaysSet-IsRespected s fault_queue).fip_stays y
    | inr n ↦
        let r = s.reg_file in
        let p = r.ipsr in
        let t : Iommu W = record s { reg_file = record r { ipsr = record p { fip = true } } } in
        (generate_interrupt_marked P StaysSet StaysSet-IsRespected s t fault_queue r.icvec.fiv
            (ground arith)).fip_stays
          refl
  ]

  IsNoticed-queue_fault :
      (s : Iommu W) (f : Fault)
      → accepts s f ≡ true
      → IsFq s.reg_file
      → (t : Iommu W) × (queue_fault P s f ≡ some t)
        × IsNoticed s.reg_file t.reg_file
        × (t.reg_file.fqcsr.fie ≡ s.reg_file.fqcsr.fie)
  unfolding queue_fault store_frec
  IsNoticed-queue_fault s f a v =
      let r = s.reg_file in
      let c = r.fqcsr in
      let n = entries r.fqb.log2szm1 in
      let bounds = entries_bounds r.fqb.log2szm1 v.size_field in
      elim (Bool-cases (fq_is_full s)) [
        | inl full ↦ (
          record s { reg_file = record r { fqcsr = record c { fqof = true } } },
          ground arith,
          ground arith,
          refl,
        )
        | inr room ↦ (
          store_frec P s f,
          ground arith,
          ground (arith, unread-step n r.fqh r.fqt bounds.1 v.head_in v.tail_in),
          ground arith,
        )
      ]

  -- A fault that is not silent does not go unnoticed. From a fault queue in order, either the queue
  -- holds more unread records afterwards or its overflow or memory-fault bit is set, and its
  -- interrupt is pending if it is enabled.
  pub report_fault-IsNoticed :
      (s : Iommu W) (f : Fault)
      → ¬ IsSilent s f
      → IsFq s.reg_file
      → IsNoticed s.reg_file (report_fault P s f).reg_file
        × ((s.reg_file.fqcsr.fie ≡ false) ⊎ ((report_fault P s f).reg_file.ipsr.fip ≡ true))
  report_fault-IsNoticed s f loud v =
      let (t, e, noticed, same) = IsNoticed-queue_fault s f (not-IsSilent-accepts s f loud) v in
      let raised = report_fault_raises P s t f e in
      let grown =
        generate_interrupt-FqGrows P t fault_queue (Grows-queue_fault P s t f e v).in_order in
      let set = generate_interrupt-respects P StaysSet StaysSet-IsRespected t fault_queue in
      rw raised (
        elim noticed [
          | inl more ↦ inl (omega (arith, grown.kept))
          | inr (inl o) ↦ inr (inl (set.fqof_stays o))
          | inr (inr m) ↦ inr (inr (set.fqmf_stays m))
        ],
        elim (Bool-cases s.reg_file.fqcsr.fie) [
          | inl i ↦ inr (generate_interrupt-fip t (same ∙ i))
          | inr i ↦ inl i
        ],
      )
