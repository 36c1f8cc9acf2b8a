-- ===== src/Fault/Interrupt.antt =====
-- `generate_interrupt` and `release_pending_interrupt` of iommu_interrupt.c: an interrupt that is
-- pending is not signalled again, and a masked message waits for its release.
use riscv_iommu_dv_model.Prelude.{
  ℕ, ◌≡◌, refl, ◌∙◌, ap, inl, inr, some, none, true, Bool, arith, Option-cases,
}
use riscv_iommu_dv_model.Iommu.{Iommu}
use riscv_iommu_dv_model.Iommu.Regs.{Ipsr}
use riscv_iommu_dv_model.Iommu.Platform.{Platform}
use riscv_iommu_dv_model.Fault.{
  IntUnit, command_queue, fault_queue, hpm, page_queue, store_frec, queue_fault, mark_pending,
  signal_with, generate_interrupt_with, generate_interrupt_fuel, generate_interrupt,
}
use riscv_iommu_dv_model.Fault.Record.{Fault}
use riscv_iommu_dv_model.Fault.Relation.{IsRespected, generate_interrupt_marked}

-- The pending bit of a source, in `ipsr`.
abbrev pub pending_bit : IntUnit → Ipsr → Bool
pending_bit command_queue p = p.cip
pending_bit fault_queue p = p.fip
pending_bit hpm p = p.pmip
pending_bit page_queue p = p.pip

abbrev StaysPending : {W : Type 0} → Iommu W → Iommu W → Type 0
StaysPending s t =
    (unit : IntUnit)
    → pending_bit unit s.reg_file.ipsr ≡ true
    → pending_bit unit t.reg_file.ipsr ≡ true

module _ {W : Type 0} (P : Platform W) where
  StaysPending-queue_fault :
      (s t : Iommu W) (f : Fault) → queue_fault P s f ≡ some t → StaysPending s t
  unfolding queue_fault store_frec
  StaysPending-queue_fault s t f h fault_queue p = ground arith
  StaysPending-queue_fault s t f h _ p = ground arith

  StaysPending-mark_pending :
      (s t : Iommu W) (unit : IntUnit) (vec : ℕ)
      → mark_pending s unit ≡ some (t, vec)
      → StaysPending s t
  unfolding mark_pending
  StaysPending-mark_pending s t unit vec h u p = ground arith

  StaysPending-IsRespected : IsRespected P StaysPending
  StaysPending-IsRespected = record {
    stay = λ s unit h. h;
    chain = λ s t u h k unit p. k unit (h unit p);
    world_changes = λ s w unit h. h;
    msi_marked = λ s l unit h. h;
    marked = λ s t unit vec. StaysPending-mark_pending s t unit vec;
    queued = λ s t f. StaysPending-queue_fault s t f;
  }

  marks_itself :
      (s t : Iommu W) (unit : IntUnit) (vec : ℕ)
      → mark_pending s unit ≡ some (t, vec)
      → pending_bit unit t.reg_file.ipsr ≡ true
  unfolding mark_pending
  marks_itself s t unit vec h = ground arith

  mark_pending_again :
      (s : Iommu W) (unit : IntUnit)
      → pending_bit unit s.reg_file.ipsr ≡ true
      → mark_pending s unit ≡ none
  unfolding mark_pending
  mark_pending_again s unit h = ground arith

  generate_interrupt_dropped :
      (s : Iommu W) (unit : IntUnit) → mark_pending s unit ≡ none → generate_interrupt P s unit ≡ s
  unfolding generate_interrupt generate_interrupt_fuel generate_interrupt_with
  generate_interrupt_dropped s unit e = rw (e, generate_interrupt_with)

  -- A source interrupts once until software clears its pending bit: raising the same interrupt a
  -- second time changes nothing, in the registers or in the world, whatever the first one did.
  generate_interrupt_twice :
      (s : Iommu W) (unit : IntUnit)
      → generate_interrupt P (generate_interrupt P s unit) unit ≡ generate_interrupt P s unit
  generate_interrupt_twice s unit = elim (Option-cases (mark_pending s unit)) [
    | inl e ↦ let d = generate_interrupt_dropped s unit e in ap (λ t. generate_interrupt P t unit) d
    | inr ((t, vec), e) ↦
        let after = generate_interrupt P s unit in
        generate_interrupt_dropped after unit (
          mark_pending_again after unit (
            generate_interrupt_marked P StaysPending StaysPending-IsRespected s t unit vec e unit
              (marks_itself s t unit vec e)))
  ]

-- Where interrupts are wires, raising one writes no memory.
mark_pending-wires :
    {W : Type 0} (s t : Iommu W) (unit : IntUnit) (vec : ℕ)
    → mark_pending s unit ≡ some (t, vec)
    → (t.world ≡ s.world) × (t.reg_file.fctl ≡ s.reg_file.fctl)
unfolding mark_pending
mark_pending-wires s t unit vec h = ground arith

pub generate_interrupt-wsi :
    {W : Type 0} (P : Platform W) (s : Iommu W) (unit : IntUnit)
    → s.reg_file.fctl.wsi ≡ true
    → (generate_interrupt P s unit).world ≡ s.world
unfolding generate_interrupt generate_interrupt_fuel generate_interrupt_with signal_with
generate_interrupt-wsi P s unit h = elim (Option-cases (mark_pending s unit)) [
  | inl e ↦ rw (e, generate_interrupt_with) refl
  | inr ((t, vec), e) ↦
      let (w, k) = mark_pending-wires s t unit vec e in
      let x : t.reg_file.fctl.wsi ≡ true = ap (λ c. c.wsi) k ∙ h in
      rw (e, generate_interrupt_with) (simp x w)
]
