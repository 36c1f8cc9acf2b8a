-- ===== src/Fault/Relation.antt =====
-- A rule for relations between the states before and after the functions of iommu_faults.c and
-- iommu_interrupt.c: what every elementary step respects, the whole circle of calls respects.
use riscv_iommu_dv_model.Prelude.{
  ℕ, zero, suc, List, ◌≡◌, inl, inr, Option, none, some, arith, Option-cases, Bool-cases, set,
  get_or, ◌==◌,
}
use mathlib.Core.Path.{subst}
use riscv_iommu_dv_model.Iommu.{Iommu}
use riscv_iommu_dv_model.Iommu.Platform.{Platform}
use riscv_iommu_dv_model.Fault.{
  IntUnit, fault_queue, own_write, queue_fault, report_fault_with, do_msi_with, signal_with,
  generate_interrupt_with, generate_interrupt_fuel, generate_interrupt, report_fault, do_msi,
  release_pending_interrupt, mark_pending, msi_write_fault, msi_cfg, is_access_fault,
}
use riscv_iommu_dv_model.Fault.Record.{Fault}
use riscv_iommu_dv_model.Fault.Fuel.{interrupt_circle_terminates}

-- What holds of a result, where there is one.
abbrev OnSome {ℓ κ} : {A : Type ℓ} → (A → Type κ) → Option A → Type κ
OnSome Q none = Unit
OnSome Q (some a) = Q a

-- The elementary steps respect `R`: marking an interrupt, marking or clearing a pending MSI, a
-- change of the world, and the queueing of a fault.
pub record IsRespected {W : Type 0} (P : Platform W) (R : Iommu W → Iommu W → Type 0) : Type 0 where
  pub stay : (s : Iommu W) → R s s
  pub chain : (s t u : Iommu W) → R s t → R t u → R s u
  pub world_changes : (s : Iommu W) (w : W) → R s (record s { world = w })
  pub msi_marked : (s : Iommu W) (l : List ℕ) → R s (record s { msi_pending = l })
  pub marked :
      (s t : Iommu W) (unit : IntUnit) (vec : ℕ) → mark_pending s unit ≡ some (t, vec) → R s t
  pub queued : (s t : Iommu W) (f : Fault) → queue_fault P s f ≡ some t → R s t

module _ {W : Type 0} (P : Platform W) (R : Iommu W → Iommu W → Type 0)
    (respected : IsRespected P R) where
  open respected use {stay, chain, world_changes, msi_marked, marked, queued}

  abbrev Raise : Type 0
  Raise = Iommu W → IntUnit → Option (Iommu W)

  abbrev Keeps : Raise → Type 0
  Keeps raise = (s : Iommu W) (unit : IntUnit) → OnSome (R s) (raise s unit)

  OnSome-chain : (s t : Iommu W) (o : Option (Iommu W)) → R s t → OnSome (R t) o → OnSome (R s) o
  OnSome-chain s t none h k = tt
  OnSome-chain s t (some u) h k = chain s t u h k

  module _ (raise : Raise) (keep : Keeps raise) where
    report_fault_with-Keeps :
        (s : Iommu W) (f : Fault) → OnSome (R s) (report_fault_with P raise s f)
    unfolding report_fault_with
    report_fault_with-Keeps s f = elim (Option-cases (queue_fault P s f)) [
      | inl e ↦ rw (e, report_fault_with) (stay s)
      | inr (u, e) ↦
          rw (e, report_fault_with)
            (OnSome-chain s u (raise u fault_queue) (queued s u f e) (keep u fault_queue))
    ]

    do_msi_with-Keeps : (s : Iommu W) (d a : ℕ) → OnSome (R s) (do_msi_with P raise s d a)
    unfolding do_msi_with
    do_msi_with-Keeps s d a =
        let w = (own_write P s d a 4).1 in
        let u : Iommu W = record s { world = w } in
        let f = msi_write_fault a in
        elim (Bool-cases (is_access_fault (own_write P s d a 4).0)) [
          | inl e ↦ rw e (
              OnSome-chain s u (report_fault_with P raise u f) (world_changes s w)
                (report_fault_with-Keeps u f))
          | inr e ↦ rw e (world_changes s w)
        ]

    signal_with-Keeps : (s : Iommu W) (vec : ℕ) → OnSome (R s) (signal_with P raise s vec)
    unfolding signal_with
    signal_with-Keeps s vec =
        let cfg = msi_cfg s vec in
        elim (Bool-cases s.reg_file.fctl.wsi) [
          | inl e ↦ simp e (stay s)
          | inr e ↦ elim (Bool-cases cfg.m) [
            | inl m ↦ simp (e, m) (msi_marked s (set s.msi_pending vec 1))
            | inr m ↦ simp (e, m) (do_msi_with-Keeps s cfg.msi_data cfg.msi_addr)
          ]
        ]

    generate_interrupt_with-Keeps : Keeps (generate_interrupt_with P raise)
    unfolding generate_interrupt_with
    generate_interrupt_with-Keeps s unit = elim (Option-cases (mark_pending s unit)) [
      | inl e ↦ rw (e, generate_interrupt_with) (stay s)
      | inr ((u, vec), e) ↦
          rw (e, generate_interrupt_with)
            (OnSome-chain s u (signal_with P raise u vec) (marked s u unit vec e)
              (signal_with-Keeps u vec))
    ]

  generate_interrupt_fuel-Keeps : (fuel : ℕ) → Keeps (generate_interrupt_fuel P fuel)
  unfolding generate_interrupt_fuel
  generate_interrupt_fuel-Keeps zero s unit = tt
  generate_interrupt_fuel-Keeps (suc fuel) s unit =
      generate_interrupt_with-Keeps (generate_interrupt_fuel P fuel)
        (generate_interrupt_fuel-Keeps fuel) s unit

  pub generate_interrupt-respects :
      (s : Iommu W) (unit : IntUnit) → R s (generate_interrupt P s unit)
  generate_interrupt-respects s unit =
      let f = msi_write_fault 0 in
      let (e, _, _) = interrupt_circle_terminates P 3 s unit f 0 0 (omega arith) in
      subst (OnSome (R s)) e (generate_interrupt_fuel-Keeps 3 s unit)

  -- The same from the state in which the interrupt has just been marked.
  pub generate_interrupt_marked :
      (s t : Iommu W) (unit : IntUnit) (vec : ℕ)
      → mark_pending s unit ≡ some (t, vec)
      → R t (generate_interrupt P s unit)
  unfolding generate_interrupt_fuel generate_interrupt_with
  generate_interrupt_marked s t unit vec e =
      let f = msi_write_fault 0 in
      let (q, _, _) = interrupt_circle_terminates P 3 s unit f 0 0 (omega arith) in
      let two = generate_interrupt_fuel P 2 in
      subst (OnSome (R t)) (rw (e, generate_interrupt_with) at q)
        (signal_with-Keeps two (generate_interrupt_fuel-Keeps 2) t vec)

  pub report_fault-respects : (s : Iommu W) (f : Fault) → R s (report_fault P s f)
  report_fault-respects s f =
      let (_, e, _) = interrupt_circle_terminates P 3 s fault_queue f 0 0 (omega arith) in
      subst (OnSome (R s)) e (
        report_fault_with-Keeps (generate_interrupt_fuel P 3) (generate_interrupt_fuel-Keeps 3) s f)

  pub do_msi-respects : (s : Iommu W) (d a : ℕ) → R s (do_msi P s d a)
  do_msi-respects s d a =
      let f = msi_write_fault 0 in
      let (_, _, e) = interrupt_circle_terminates P 3 s fault_queue f d a (omega arith) in
      subst (OnSome (R s)) e
        (do_msi_with-Keeps (generate_interrupt_fuel P 3) (generate_interrupt_fuel-Keeps 3) s d a)

  pub release_pending_interrupt-respects :
      (s : Iommu W) (vec : ℕ) → R s (release_pending_interrupt P s vec)
  unfolding release_pending_interrupt
  release_pending_interrupt-respects s vec =
      let cfg = msi_cfg s vec in
      let t = do_msi P s cfg.msi_data cfg.msi_addr in
      elim (Bool-cases (get_or s.msi_pending vec 0 == 1)) [
        | inl e ↦ rw e (
            chain s t (record t { msi_pending = set t.msi_pending vec 0 })
              (do_msi-respects s cfg.msi_data cfg.msi_addr)
              (msi_marked t (set t.msi_pending vec 0)))
        | inr e ↦ rw e (stay s)
      ]
