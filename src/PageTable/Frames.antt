-- ===== src/PageTable/Frames.antt =====
-- A rule for relations between the states before and after a walk: it counts events and accesses
-- memory, and whatever respects both respects the walk.
use riscv_iommu_dv_model.Prelude.{refl}
use riscv_iommu_dv_model.Iommu.{Iommu}
use riscv_iommu_dv_model.Iommu.Platform.{Platform}
use riscv_iommu_dv_model.Hpm.{Event, count_events}
use riscv_iommu_dv_model.Hpm.Frame.{SameButEvents, SameButEvents-trans, count_events-SameButEvents}
use riscv_iommu_dv_model.Registers.Effects.{
  Effects, nothing, then_counts, then_caches, Effects-trans,
}

pub record IsFrame {W : Type 0} (P : Platform W) (R : Iommu W → Iommu W → Type 0) : Type 0 where
  pub stay : (s : Iommu W) → R s s
  pub chain : (s t u : Iommu W) → R s t → R t u → R s u
  pub world_changes : (s : Iommu W) (w : W) → R s (record s { world = w })
  pub counted : (s : Iommu W) (v : Event) → R s (count_events P v s)

module _ {W : Type 0} (P : Platform W) where
  pub SameButEvents-IsFrame : IsFrame P SameButEvents
  SameButEvents-IsFrame = record {
    stay = λ s. refl;
    chain = λ s t u h k. SameButEvents-trans s t u h k;
    world_changes = λ s w. refl;
    counted = λ s v. count_events-SameButEvents P v s;
  }

  pub Effects-IsFrame : IsFrame P (Effects P)
  Effects-IsFrame = record {
    stay = λ s. nothing;
    chain = λ s t u h k. Effects-trans P s t u h k;
    world_changes = λ s w.
        then_caches s w s.ddt_cache s.pdt_cache s.tlb s.dc_lru_time s.pc_lru_time s.tlb_lru_time
          nothing;
    counted = λ s v. then_counts s v nothing;
  }
