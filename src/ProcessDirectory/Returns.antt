-- ===== src/ProcessDirectory/Returns.antt =====
-- When `locate_process_context` of iommu_ref_model/libiommu/src/iommu_process_context.c returns.
use riscv_iommu_dv_model.Prelude.{
  true, ℕ, zero, suc, ◌+◌, ◌*◌, ◌≡◌, refl, ◌⊎◌, inl, inr, Option-cases, Option, none, some,
  get_bits,
}
use riscv_iommu_dv_model.Iommu.{Iommu}
use riscv_iommu_dv_model.Iommu.Platform.{Platform}
use riscv_iommu_dv_model.Iommu.Caches.{DeviceContext, ProcessContext}
use riscv_iommu_dv_model.Atc.{lookup_ioatc_pc}
use riscv_iommu_dv_model.Hpm.Frame.{SameButEvents, SameButEvents-trans}
use riscv_iommu_dv_model.SecondStage.{GstFault, Mapping, second_stage_address_translation}
use riscv_iommu_dv_model.SecondStage.Mapped.{second_stage-SameButEvents}
use riscv_iommu_dv_model.SecondStage.Returns.{
  IsSteady, IsSteady-SameButEvents, second_stage-returns,
}
use riscv_iommu_dv_model.DeviceDirectory.{mode_of, gade}
use riscv_iommu_dv_model.DeviceDirectory.Format.{IsAccepted}
use riscv_iommu_dv_model.DeviceDirectory.Locate.{IsAccepted-SameButEvents}
use riscv_iommu_dv_model.ProcessDirectory.{
  PdtFault, OrigAccess, pdt_access, pdt_entry, load_pc, translated, descend, walk_pdt,
  locate_process_context, pdi, pdt_top_level,
}
use riscv_iommu_dv_model.ProcessDirectory.Locate.{pdt_entry-EntryEnds, EntryEnds, inner, refused}

module _ {W : Type 0} (P : Platform W) (n : ℕ) (dc : DeviceContext) (did pid : ℕ)
    (o : OrigAccess) where
  abbrev Answers : Option (PdtFault ⊎ ProcessContext) × Iommu W → Type 0
  Answers r = (x : PdtFault ⊎ ProcessContext) × (r.0 ≡ some x)

  translated-Answers :
      (b : ℕ) (next : Iommu W → Mapping → Option (PdtFault ⊎ ProcessContext) × Iommu W)
      (r : Option (GstFault ⊎ Mapping) × Iommu W)
      → (x : GstFault ⊎ Mapping) × (r.0 ≡ some x)
      → ((m : Mapping) → Answers (next r.1 m))
      → Answers (translated P n dc did pid o b next r)
  translated-Answers b next (none, t) (x, e) k = absurd cc
  translated-Answers b next (some (inl g), t) h k = (inl _, refl)
  translated-Answers b next (some (inr m), t) h k = k m

  descend-Answers :
      (s : Iommu W) (next : Iommu W → ℕ → Option (PdtFault ⊎ ProcessContext) × Iommu W)
      (r : (PdtFault ⊎ ℕ) × Iommu W)
      → EntryEnds dc did pid o s r
      → ((t : Iommu W) (a : ℕ) → SameButEvents s t → Answers (next t a))
      → Answers (descend P n dc did pid o next r)
  descend-Answers s next (inl e, t) h k = (inl e, refl)
  descend-Answers s next (inr a, t) (inner x e h) k = k t a h
  descend-Answers s next (inr a, t) (refused x e i h) k = absurd cc

  walk_pdt-Answers :
      (i : ℕ) (s : Iommu W) (a : ℕ)
      → IsAccepted s dc
      → (gade dc ≡ true → IsSteady P s)
      → Answers (walk_pdt P n dc did pid o i s a)
  unfolding walk_pdt pdt_access
  walk_pdt-Answers zero s a ok quiet =
      let b = a + pdi pid 0 * 16 in
      let q = pdt_access dc did pid b in
      let t = (second_stage_address_translation P n s q).1 in
      translated-Answers b _ (second_stage_address_translation P n s q)
        (second_stage-returns P n s q dc quiet ok refl refl)
        (λ m. ((load_pc P n dc did pid o t m).0, refl))
  walk_pdt-Answers (suc i) s a ok quiet =
      let b = a + pdi pid (suc i) * 8 in
      let q = pdt_access dc did pid b in
      let t = (second_stage_address_translation P n s q).1 in
      let same = second_stage-SameButEvents P n s q in
      translated-Answers b _ (second_stage_address_translation P n s q)
        (second_stage-returns P n s q dc quiet ok refl refl)
        (λ m.
          descend-Answers t _ (pdt_entry P n dc did pid o t m)
            (pdt_entry-EntryEnds P n dc did pid o t m)
            (λ u c h.
              walk_pdt-Answers i u c
                (IsAccepted-SameButEvents s u dc (SameButEvents-trans s t u same h) ok)
                (λ y. IsSteady-SameButEvents P s u (SameButEvents-trans s t u same h) (quiet y))))

  -- `locate_process_context` returns a fault or a context, for a device context that the configuration
  -- checks accept. If its GADE is on, two reads of an entry with no write between them have to agree, and
  -- the counting of events must not write to memory: interrupts are wires, or no counter is implemented.
  pub locate_process_context-returns :
      (s : Iommu W) (no_levels : ℕ)
      → (gade dc ≡ true → IsSteady P s)
      → IsAccepted s dc
      → (x : PdtFault ⊎ ProcessContext) × ((locate_process_context P n dc did pid o s no_levels).0
          ≡ some x)
  unfolding locate_process_context
  locate_process_context-returns s no_levels quiet ok =
      let i = pdt_top_level (mode_of dc.fsc) no_levels in
      let a = get_bits 43 0 dc.fsc * 4096 in
      elim (Option-cases (lookup_ioatc_pc s did pid).0) [
        | inr (pc, e) ↦ rw (e, locate_process_context) (inr pc, refl)
        | inl e ↦ rw (e, locate_process_context) (walk_pdt-Answers i s a ok quiet)
      ]
