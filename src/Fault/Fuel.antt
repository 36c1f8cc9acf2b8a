-- ===== src/Fault/Fuel.antt =====
-- The circle of iommu_faults.c and iommu_interrupt.c closes after three interrupts at most: the
-- second one that an MSI failure raises finds the fault queue's interrupt pending.
use riscv_iommu_dv_model.Prelude.{
  ℕ, zero, suc, ◌≡◌, refl, sym, ap, ◌∙◌, ◌≤◌, inl, inr, true, Option, none, some, arith,
  Option-cases, Bool-cases, set,
}
use mathlib.Core.Option
use riscv_iommu_dv_model.Iommu.{Iommu}
use riscv_iommu_dv_model.Iommu.Platform.{Platform}
use riscv_iommu_dv_model.Iommu.Regs.{Ipsr}
use riscv_iommu_dv_model.Fault.{
  IntUnit, fault_queue, own_write, store_frec, queue_fault, report_fault_with, do_msi_with,
  signal_with, generate_interrupt_with, generate_interrupt_fuel, generate_interrupt, report_fault,
  do_msi, mark_pending, msi_write_fault, msi_cfg, is_access_fault,
}
use riscv_iommu_dv_model.Fault.Record.{Fault}

module _ {W : Type 0} (P : Platform W) where
  abbrev Raise : Type 0
  Raise = Iommu W → IntUnit → Option (Iommu W)

  -- Two ways to raise the fault queue's interrupt agree on all states with these pending bits.
  abbrev AgreeAt : Ipsr → Raise → Raise → Type 0
  AgreeAt p raise raise' =
      (t : Iommu W) → t.reg_file.ipsr ≡ p → raise t fault_queue ≡ raise' t fault_queue

  pub ipsr-queue_fault :
      (s : Iommu W) (f : Fault) {t : Iommu W}
      → queue_fault P s f ≡ some t
      → t.reg_file.ipsr ≡ s.reg_file.ipsr
  unfolding queue_fault store_frec
  ipsr-queue_fault s f h = ground arith

  report_fault_with-congr :
      (raise raise' : Raise) (s : Iommu W) (f : Fault)
      → AgreeAt s.reg_file.ipsr raise raise'
      → report_fault_with P raise s f ≡ report_fault_with P raise' s f
  unfolding report_fault_with
  report_fault_with-congr raise raise' s f h = elim (Option-cases (queue_fault P s f)) [
    | inl e ↦ rw (e, report_fault_with)
    | inr (t, e) ↦ rw (e, report_fault_with) (h t (ipsr-queue_fault s f e))
  ]

  do_msi_with-congr :
      (raise raise' : Raise) (s : Iommu W) (d a : ℕ)
      → AgreeAt s.reg_file.ipsr raise raise'
      → do_msi_with P raise s d a ≡ do_msi_with P raise' s d a
  unfolding do_msi_with
  do_msi_with-congr raise raise' s d a h =
      let t : Iommu W = record s { world = (own_write P s d a 4).1 } in
      ground (arith, report_fault_with-congr raise raise' t (msi_write_fault a) h)

  signal_with-congr :
      (raise raise' : Raise) (s : Iommu W) (vec : ℕ)
      → AgreeAt s.reg_file.ipsr raise raise'
      → signal_with P raise s vec ≡ signal_with P raise' s vec
  unfolding signal_with
  signal_with-congr raise raise' s vec h =
      let cfg = msi_cfg s vec in
      ground (arith, do_msi_with-congr raise raise' s cfg.msi_data cfg.msi_addr h)

  -- With the fault queue's interrupt pending, raising it again does nothing.
  generate_interrupt_fuel-pending :
      (n : ℕ) (s : Iommu W)
      → s.reg_file.ipsr.fip ≡ true
      → generate_interrupt_fuel P (suc n) s fault_queue ≡ some s
  unfolding generate_interrupt_fuel generate_interrupt_with mark_pending
  generate_interrupt_fuel-pending n s h = rw h

  abbrev raise_nothing : Raise
  raise_nothing s unit = some s

  abbrev raise_once : Raise
  raise_once = generate_interrupt_with P raise_nothing

  signal_with-pending :
      (n vec : ℕ) (s : Iommu W)
      → s.reg_file.ipsr.fip ≡ true
      → signal_with P (generate_interrupt_fuel P (suc n)) s vec ≡ signal_with P raise_nothing s vec
  signal_with-pending n vec s h =
      signal_with-congr (generate_interrupt_fuel P (suc n)) raise_nothing s vec
        (λ t e. generate_interrupt_fuel-pending n t (ap Ipsr.fip e ∙ h))

  generate_interrupt_fuel-fault_queue :
      (n : ℕ) (s : Iommu W)
      → generate_interrupt_fuel P (suc (suc n)) s fault_queue ≡ raise_once s fault_queue
  unfolding generate_interrupt_fuel generate_interrupt_with mark_pending
  generate_interrupt_fuel-fault_queue n s =
      let r = s.reg_file in
      let p = r.ipsr in
      let t : Iommu W = record s { reg_file = record r { ipsr = record p { fip = true } } } in
      ground (arith, signal_with-pending n r.icvec.fiv t refl)

  -- `raise` has a result on every state.
  abbrev IsTotal : Raise → Type 0
  IsTotal raise = (t : Iommu W) (unit : IntUnit) → (x : Iommu W) × (raise t unit ≡ some x)

  report_fault_with_total :
      (raise : Raise) (s : Iommu W) (f : Fault)
      → IsTotal raise
      → (x : Iommu W) × (report_fault_with P raise s f ≡ some x)
  unfolding report_fault_with
  report_fault_with_total raise s f h = elim (Option-cases (queue_fault P s f)) [
    | inl e ↦ (s, rw (e, report_fault_with))
    | inr (t, e) ↦ let (x, p) = h t fault_queue in (x, rw (e, report_fault_with) p)
  ]

  do_msi_with_total :
      (raise : Raise) (s : Iommu W) (d a : ℕ)
      → IsTotal raise
      → (x : Iommu W) × (do_msi_with P raise s d a ≡ some x)
  unfolding do_msi_with
  do_msi_with_total raise s d a h =
      let t : Iommu W = record s { world = (own_write P s d a 4).1 } in
      let (x, p) = report_fault_with_total raise t (msi_write_fault a) h in
      elim (Bool-cases (is_access_fault (own_write P s d a 4).0)) [
        | inl e ↦ (x, rw e p)
        | inr e ↦ (t, rw e)
      ]

  signal_with_total :
      (raise : Raise) (s : Iommu W) (vec : ℕ)
      → IsTotal raise
      → (x : Iommu W) × (signal_with P raise s vec ≡ some x)
  unfolding signal_with
  signal_with_total raise s vec h =
      let cfg = msi_cfg s vec in
      let (x, p) = do_msi_with_total raise s cfg.msi_data cfg.msi_addr h in
      elim (Bool-cases s.reg_file.fctl.wsi) [
        | inl e ↦ (s, rw e)
        | inr e ↦ elim (Bool-cases cfg.m) [
          | inl m ↦ (record s { msi_pending = set s.msi_pending vec 1 }, ground arith)
          | inr m ↦ (x, ground arith)
        ]
      ]

  generate_interrupt_with-IsTotal :
      (raise : Raise) → IsTotal raise → IsTotal (generate_interrupt_with P raise)
  unfolding generate_interrupt_with
  generate_interrupt_with-IsTotal raise h s unit = elim (Option-cases (mark_pending s unit)) [
    | inl e ↦ (s, rw (e, generate_interrupt_with))
    | inr ((t, vec), e) ↦
        let (x, p) = signal_with_total raise t vec h in (x, rw (e, generate_interrupt_with) p)
  ]

  generate_interrupt_fuel-raise_once :
      (n : ℕ) (s : Iommu W) (unit : IntUnit)
      → generate_interrupt_fuel P (suc (suc (suc n))) s unit
        ≡ generate_interrupt_with P raise_once s unit
  unfolding generate_interrupt_fuel generate_interrupt_with
  generate_interrupt_fuel-raise_once n s unit = elim (Option-cases (mark_pending s unit)) [
    | inl e ↦ rw (e, generate_interrupt_with)
    | inr ((t, vec), e) ↦
        rw (e, generate_interrupt_with)
          (signal_with-congr (generate_interrupt_fuel P (suc (suc n))) raise_once t vec
            (λ t' _. generate_interrupt_fuel-fault_queue n t'))
  ]

  generate_interrupt_lem :
      (n : ℕ) (s : Iommu W) (unit : IntUnit)
      → generate_interrupt_fuel P (suc (suc (suc n))) s unit ≡ some (generate_interrupt P s unit)
  unfolding generate_interrupt
  generate_interrupt_lem n s unit =
      let (x, p) =
        generate_interrupt_with-IsTotal raise_once
          (generate_interrupt_with-IsTotal raise_nothing (λ t u. (t, refl))) s unit in
      cc (
        p,
        generate_interrupt_fuel-raise_once n s unit,
        generate_interrupt_fuel-raise_once 0 s unit,
      )

  report_fault_with_fuel :
      (n : ℕ) (s : Iommu W) (f : Fault)
      → report_fault_with P (generate_interrupt_fuel P (suc (suc (suc n)))) s f
        ≡ some (report_fault P s f)
  unfolding report_fault
  report_fault_with_fuel n s f =
      let three = generate_interrupt_fuel P 3 in
      let (x, p) =
        report_fault_with_total three s f
          (λ t u. (generate_interrupt P t u, generate_interrupt_lem 0 t u)) in
      cc (
        p,
        report_fault_with-congr (generate_interrupt_fuel P (suc (suc (suc n)))) three s f (λ t _.
            generate_interrupt_lem n t fault_queue ∙ sym (generate_interrupt_lem 0 t fault_queue)),
      )

  do_msi_with_fuel :
      (n : ℕ) (s : Iommu W) (d a : ℕ)
      → do_msi_with P (generate_interrupt_fuel P (suc (suc (suc n)))) s d a ≡ some (do_msi P s d a)
  unfolding do_msi
  do_msi_with_fuel n s d a =
      let three = generate_interrupt_fuel P 3 in
      let (x, p) =
        do_msi_with_total three s d a
          (λ t u. (generate_interrupt P t u, generate_interrupt_lem 0 t u)) in
      cc (
        p,
        do_msi_with-congr (generate_interrupt_fuel P (suc (suc (suc n)))) three s d a (λ t _.
            generate_interrupt_lem n t fault_queue ∙ sym (generate_interrupt_lem 0 t fault_queue)),
      )

  -- The circle of calls ends. From any state, with room for three open calls of
  -- `generate_interrupt` or more, `generate_interrupt`, `report_fault` and `do_msi` return, and what
  -- they return does not depend on the room.
  pub interrupt_circle_terminates :
      (fuel : ℕ) (s : Iommu W) (unit : IntUnit) (f : Fault) (msi_data msi_addr : ℕ)
      → 3 ≤ fuel
      → (generate_interrupt_fuel P fuel s unit ≡ some (generate_interrupt P s unit))
        × (report_fault_with P (generate_interrupt_fuel P fuel) s f ≡ some (report_fault P s f))
        × (do_msi_with P (generate_interrupt_fuel P fuel) s msi_data msi_addr
            ≡ some (do_msi P s msi_data msi_addr))
  interrupt_circle_terminates zero s unit f d a h = absurd (omega arith)
  interrupt_circle_terminates (suc zero) s unit f d a h = absurd (omega arith)
  interrupt_circle_terminates (suc (suc zero)) s unit f d a h = absurd (omega arith)
  interrupt_circle_terminates (suc (suc (suc n))) s unit f d a h =
      (generate_interrupt_lem n s unit, report_fault_with_fuel n s f, do_msi_with_fuel n s d a)

  -- The equations of the C functions, for the modules that build on them.
  pub report_fault_dropped :
      (s : Iommu W) (f : Fault) → queue_fault P s f ≡ none → report_fault P s f ≡ s
  unfolding report_fault report_fault_with
  report_fault_dropped s f e = rw (e, report_fault_with)

  pub report_fault_raises :
      (s t : Iommu W) (f : Fault)
      → queue_fault P s f ≡ some t
      → report_fault P s f ≡ generate_interrupt P t fault_queue
  unfolding report_fault report_fault_with
  report_fault_raises s t f e =
      rw (e, report_fault_with)
        (ap (λ o. Option.get_or o s) (generate_interrupt_lem 0 t fault_queue))
