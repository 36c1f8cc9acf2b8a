-- ===== src/Hpm/Frame.antt =====
-- What `count_events` of iommu_hpm.c leaves alone: everything but the counters, their overflow bits and
-- what an interrupt changes.
use riscv_iommu_dv_model.Prelude.{
  ℕ, zero, suc, ◌+◌, ◌≡◌, refl, ◌∙◌, sym, ap, if◌then◌else◌, Bool, true, false, ◌⊎◌, inl, inr,
}
use riscv_iommu_dv_model.Iommu.{Iommu}
use riscv_iommu_dv_model.Iommu.Platform.{Platform}
use riscv_iommu_dv_model.Fault.{hpm, generate_interrupt}
use riscv_iommu_dv_model.Fault.Frame.{generate_interrupt-SameBut}
use riscv_iommu_dv_model.Fault.Interrupt.{generate_interrupt-wsi}
use riscv_iommu_dv_model.Hpm.{Event, count_one, count_from, count_events, counted, overflowed}

module _ {W : Type 0} where
  -- `s` with the parts of `t` that events may change.
  abbrev pub after_events : Iommu W → Iommu W → Iommu W
  after_events s t =
      let r = s.reg_file in
      let q = t.reg_file in
      record s {
        world = t.world;
        msi_pending = t.msi_pending;
        reg_file = record r {
          ipsr = q.ipsr;
          fqt = q.fqt;
          fqcsr = q.fqcsr;
          iohpmctr = q.iohpmctr;
          iohpmevt = q.iohpmevt;
        };
      }

  abbrev pub SameButEvents : Iommu W → Iommu W → Type 0
  SameButEvents s t = t ≡ after_events s t

  pub SameButEvents-trans :
      (s t u : Iommu W) → SameButEvents s t → SameButEvents t u → SameButEvents s u
  SameButEvents-trans s t u h k = k ∙ ap (λ x. after_events x u) h

  one_of :
      (b : Bool) (s t u : Iommu W)
      → SameButEvents s t
      → SameButEvents s u
      → SameButEvents s (if b then t else u)
  one_of true s t u h k = h
  one_of false s t u h k = k

  world_of :
      (b : Bool) (t u s : Iommu W)
      → t.world ≡ s.world
      → u.world ≡ s.world
      → (if b then t else u).world ≡ s.world
  world_of true t u s h k = h
  world_of false t u s h k = k

module _ {W : Type 0} (P : Platform W) where
  interrupt-SameButEvents : (s : Iommu W) → SameButEvents s (generate_interrupt P s hpm)
  interrupt-SameButEvents s =
      let e = generate_interrupt-SameBut P s hpm in e ∙ sym (ap (λ x. after_events s x) e)

  module _ (v : Event) where
    count_one-SameButEvents : (s : Iommu W) (i : ℕ) → SameButEvents s (count_one P v s i)
    unfolding count_one
    count_one-SameButEvents s i = one_of _ s s _ refl (
        one_of _ s (generate_interrupt P (overflowed s i) hpm) (counted s i)
          (SameButEvents-trans s (overflowed s i) (generate_interrupt P (overflowed s i) hpm) refl
            (interrupt-SameButEvents (overflowed s i)))
          refl)

    count_from-SameButEvents : (n i : ℕ) (s : Iommu W) → SameButEvents s (count_from P v n i s)
    unfolding count_from
    count_from-SameButEvents zero i s = refl
    count_from-SameButEvents (suc n) i s =
        let t = count_one P v s i in
        SameButEvents-trans s t (count_from P v n (i + 1) t) (count_one-SameButEvents s i)
          (count_from-SameButEvents n (i + 1) t)

    pub count_events-SameButEvents : (s : Iommu W) → SameButEvents s (count_events P v s)
    unfolding count_events
    count_events-SameButEvents s =
        one_of _ s s (count_from P v s.num_hpm 0 s) refl (count_from-SameButEvents s.num_hpm 0 s)

  -- Where interrupts are wires, or no counter is implemented, counting writes no memory.
  module _ (v : Event) where
    count_one-world :
        (s : Iommu W) (i : ℕ) → s.reg_file.fctl.wsi ≡ true → (count_one P v s i).world ≡ s.world
    unfolding count_one
    count_one-world s i h = world_of _ s _ s refl (
        world_of _ (generate_interrupt P (overflowed s i) hpm) (counted s i) s
          (generate_interrupt-wsi P (overflowed s i) hpm h) refl)

    count_from-world :
        (n i : ℕ) (s : Iommu W)
        → s.reg_file.fctl.wsi ≡ true
        → (count_from P v n i s).world ≡ s.world
    unfolding count_from
    count_from-world zero i s h = refl
    count_from-world (suc n) i s h =
        let t = count_one P v s i in
        let e : t.reg_file.fctl.wsi ≡ s.reg_file.fctl.wsi =
          ap (λ x. x.reg_file.fctl.wsi) (count_one-SameButEvents v s i) in
        count_from-world n (i + 1) t (e ∙ h) ∙ count_one-world s i h

    pub count_events_silent :
        (s : Iommu W)
        → (s.reg_file.fctl.wsi ≡ true) ⊎ ((s.reg_file.capabilities.hpm ≡ false) ⊎ (s.num_hpm ≡ 0))
        → (count_events P v s).world ≡ s.world
    unfolding count_events count_from
    count_events_silent s (inl h) =
        world_of _ s (count_from P v s.num_hpm 0 s) s refl (count_from-world s.num_hpm 0 s h)
    count_events_silent s (inr (inl h)) = simp h refl
    count_events_silent s (inr (inr h)) =
        world_of _ s (count_from P v s.num_hpm 0 s) s refl
          (ap (λ n. (count_from P v n 0 s).world) h)
