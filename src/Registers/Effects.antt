-- ===== src/Registers/Effects.antt =====
-- What the debug interface of iommu_ref_model/libiommu/src/iommu_reg.c takes of the translation that it
-- calls, `iommu_translate_iova` of iommu_translate.c: the effects that it may have.
use riscv_iommu_dv_model.Prelude.{ℕ, zero, suc, ◌+◌, ◌≡◌, refl, ◌∙◌, ap, List, arith}
use riscv_iommu_dv_model.Iommu.{Iommu}
use riscv_iommu_dv_model.Iommu.Platform.{Platform}
use riscv_iommu_dv_model.Iommu.Regs.{RegFile}
use riscv_iommu_dv_model.Iommu.Caches.{DdtCache, PdtCache, Tlb}
use riscv_iommu_dv_model.Fault.{
  IntUnit, hpm, generate_interrupt, report_fault, release_pending_interrupt,
}
use riscv_iommu_dv_model.Fault.Record.{Fault}
use riscv_iommu_dv_model.Fault.Frame.{
  SameBut, generate_interrupt-SameBut, report_fault-SameBut, release_pending_interrupt-SameBut,
}
use riscv_iommu_dv_model.Hpm.{Event, count_one, count_from, count_events, overflowed}

module _ {W : Type 0} (P : Platform W) where
  -- What a translation may do to the state: it reports faults, counts events, and changes the caches
  -- and the memory.
  pub data Effects (s : Iommu W) : Iommu W → Type 0 where
    nothing : Effects s s
    then_reports : (t : Iommu W) (f : Fault) → Effects s t → Effects s (report_fault P t f)
    then_counts : (t : Iommu W) (v : Event) → Effects s t → Effects s (count_events P v t)
    then_caches :
        (t : Iommu W) (w : W) (d : List DdtCache) (p : List PdtCache) (l : List Tlb) (i j k : ℕ)
        → Effects s t
        → Effects s (record t {
          world = w;
          ddt_cache = d;
          pdt_cache = p;
          tlb = l;
          dc_lru_time = i;
          pc_lru_time = j;
          tlb_lru_time = k;
        })

-- The registers that configure the IOMMU are the same.
pub record SameConfig (r r' : RegFile) : Type 0 where
  pub capabilities : r'.capabilities ≡ r.capabilities
  pub fctl : r'.fctl ≡ r.fctl
  pub ddtp : r'.ddtp ≡ r.ddtp
  pub cqb : r'.cqb ≡ r.cqb
  pub fqb : r'.fqb ≡ r.fqb
  pub pqb : r'.pqb ≡ r.pqb

abbrev pub SameConfig-refl : (r : RegFile) → SameConfig r r
SameConfig-refl r = record {
  capabilities = refl;
  fctl = refl;
  ddtp = refl;
  cqb = refl;
  fqb = refl;
  pqb = refl;
}

pub SameConfig-trans : (r r' r'' : RegFile) → SameConfig r r' → SameConfig r' r'' → SameConfig r r''
SameConfig-trans r r' r'' h k = record {
  capabilities = k.capabilities ∙ h.capabilities;
  fctl = k.fctl ∙ h.fctl;
  ddtp = k.ddtp ∙ h.ddtp;
  cqb = k.cqb ∙ h.cqb;
  fqb = k.fqb ∙ h.fqb;
  pqb = k.pqb ∙ h.pqb;
}

module _ {W : Type 0} where
  SameBut-SameConfig : (s t : Iommu W) → SameBut s t → SameConfig s.reg_file t.reg_file
  SameBut-SameConfig s t e = record {
    capabilities = ap (λ x. x.reg_file.capabilities) e;
    fctl = ap (λ x. x.reg_file.fctl) e;
    ddtp = ap (λ x. x.reg_file.ddtp) e;
    cqb = ap (λ x. x.reg_file.cqb) e;
    fqb = ap (λ x. x.reg_file.fqb) e;
    pqb = ap (λ x. x.reg_file.pqb) e;
  }

module _ {W : Type 0} (P : Platform W) where
  pub generate_interrupt-SameConfig :
      (s : Iommu W) (unit : IntUnit) → SameConfig s.reg_file (generate_interrupt P s unit).reg_file
  generate_interrupt-SameConfig s unit =
      SameBut-SameConfig s (generate_interrupt P s unit) (generate_interrupt-SameBut P s unit)

  report_fault-SameConfig :
      (s : Iommu W) (f : Fault) → SameConfig s.reg_file (report_fault P s f).reg_file
  report_fault-SameConfig s f =
      SameBut-SameConfig s (report_fault P s f) (report_fault-SameBut P s f)

  pub release_pending_interrupt-SameConfig :
      (s : Iommu W) (vec : ℕ) → SameConfig s.reg_file (release_pending_interrupt P s vec).reg_file
  release_pending_interrupt-SameConfig s vec =
      SameBut-SameConfig s (release_pending_interrupt P s vec)
        (release_pending_interrupt-SameBut P s vec)

  module _ (v : Event) where
    count_one-SameConfig :
        (s : Iommu W) (i : ℕ) → SameConfig s.reg_file (count_one P v s i).reg_file
    unfolding count_one
    count_one-SameConfig s i =
        let same = SameConfig-refl s.reg_file in
        let k = generate_interrupt-SameConfig (overflowed s i) hpm in ground arith

    count_from-SameConfig :
        (n i : ℕ) (s : Iommu W) → SameConfig s.reg_file (count_from P v n i s).reg_file
    unfolding count_from
    count_from-SameConfig zero i s = SameConfig-refl s.reg_file
    count_from-SameConfig (suc n) i s =
        let t = count_one P v s i in
        SameConfig-trans s.reg_file t.reg_file (count_from P v n (i + 1) t).reg_file
          (count_one-SameConfig s i) (count_from-SameConfig n (i + 1) t)

    count_events-SameConfig : (s : Iommu W) → SameConfig s.reg_file (count_events P v s).reg_file
    unfolding count_events
    count_events-SameConfig s =
        let same = SameConfig-refl s.reg_file in
        let k = count_from-SameConfig s.num_hpm 0 s in ground arith

  pub Effects-SameConfig : (s t : Iommu W) → Effects P s t → SameConfig s.reg_file t.reg_file
  Effects-SameConfig s t nothing = SameConfig-refl s.reg_file
  Effects-SameConfig s _ (then_reports t f e) =
      SameConfig-trans s.reg_file t.reg_file (report_fault P t f).reg_file
        (Effects-SameConfig s t e) (report_fault-SameConfig t f)
  Effects-SameConfig s _ (then_counts t v e) =
      SameConfig-trans s.reg_file t.reg_file (count_events P v t).reg_file
        (Effects-SameConfig s t e) (count_events-SameConfig v t)
  Effects-SameConfig s _ (then_caches t w d p l i j k e) = Effects-SameConfig s t e

  pub Effects-trans : (s t u : Iommu W) → Effects P s t → Effects P t u → Effects P s u
  Effects-trans s t _ h nothing = h
  Effects-trans s t _ h (then_reports u f k) = then_reports u f (Effects-trans s t u h k)
  Effects-trans s t _ h (then_counts u v k) = then_counts u v (Effects-trans s t u h k)
  Effects-trans s t _ h (then_caches u w d p l i j m k) =
      then_caches u w d p l i j m (Effects-trans s t u h k)
