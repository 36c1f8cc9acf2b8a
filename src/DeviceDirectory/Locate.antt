-- ===== src/DeviceDirectory/Locate.antt =====
-- How `locate_device_context` of iommu_ref_model/libiommu/src/iommu_device_context.c ends.
use mathlib.Core.Path.{subst}
use riscv_iommu_dv_model.Prelude.{
  ℕ, zero, suc, ◌+◌, ◌*◌, ◌≡◌, refl, ◌∙◌, sym, ap, ◌⊎◌, inl, inr, true, not, ◌||◌, ◌==◌, arith,
  Bool-cases, Option-cases, none, some, if◌then◌else◌, test_bit, get_bits, ◌%◌, ◌^◌, ◌<◌, length,
}
use riscv_iommu_dv_model.Iommu.{Iommu}
use riscv_iommu_dv_model.Iommu.Platform.{Platform}
use riscv_iommu_dv_model.Iommu.Caches.{DeviceContext}
use riscv_iommu_dv_model.Fault.{is_access_fault, is_data_corruption}
use riscv_iommu_dv_model.Atc.{lookup_ioatc_dc, cache_ioatc_dc}
use riscv_iommu_dv_model.Atc.Device.{
  IsDcUnique, dc_view, lookup_ioatc_dc-dc_view, lookup_ioatc_dc-lookup, cache_ioatc_dc-lookup,
}
use riscv_iommu_dv_model.Hpm.{count_events}
use riscv_iommu_dv_model.Hpm.Frame.{SameButEvents, SameButEvents-trans, count_events-SameButEvents}
use riscv_iommu_dv_model.DeviceDirectory.{
  walk_ddt, load_dc, locate_device_context, guarded_read, ddt_walk, ddi, top_level, context_of,
  do_device_context_configuration_checks,
}
use riscv_iommu_dv_model.DeviceDirectory.Checks.{options_dc}
use riscv_iommu_dv_model.DeviceDirectory.Format.{IsAccepted, configuration_checks_lem}

-- The causes of a failed walk: access fault, entry not valid, entry misconfigured, data corruption.
abbrev pub IsDdtCause : ℕ → Type 0
IsDdtCause c = (c ≡ 257) ⊎ (c ≡ 258) ⊎ (c ≡ 259) ⊎ (c ≡ 268)

module _ {W : Type 0} where
  -- The answer and the state after the walk, and what is left of the state before it.
  pub data WalkEnds (s : Iommu W) (r : (ℕ ⊎ ℕ) × Iommu W) : Type 0 where
    at_leaf : (a : ℕ) → r.0 ≡ inr a → SameButEvents s r.1 → WalkEnds s r
    fails : (c : ℕ) → r.0 ≡ inl c → IsDdtCause c → SameButEvents s r.1 → WalkEnds s r

  pub data LoadEnds (s : Iommu W) (did slot : ℕ) (r : (ℕ ⊎ DeviceContext) × Iommu W) : Type 0 where
    rejected : (c : ℕ) → r.0 ≡ inl c → IsDdtCause c → SameButEvents s r.1 → LoadEnds s did slot r
    loaded :
        (dc : DeviceContext) (u : Iommu W)
        → r.0 ≡ inr dc
        → test_bit dc.tc 0 ≡ true
        → IsAccepted s dc
        → SameButEvents s u
        → r.1 ≡ cache_ioatc_dc u did dc slot
        → LoadEnds s did slot r

  WalkEnds-trans :
      (s t : Iommu W) (r : (ℕ ⊎ ℕ) × Iommu W) → SameButEvents s t → WalkEnds t r → WalkEnds s r
  WalkEnds-trans s t r h (at_leaf a e k) = at_leaf a e (SameButEvents-trans s t r.1 h k)
  WalkEnds-trans s t r h (fails c e i k) = fails c e i (SameButEvents-trans s t r.1 h k)

  -- The checks read nothing that events change.
  checks-SameButEvents :
      (s t : Iommu W) (dc : DeviceContext)
      → SameButEvents s t
      → do_device_context_configuration_checks t dc ≡ do_device_context_configuration_checks s dc
  unfolding do_device_context_configuration_checks options_dc
  checks-SameButEvents s t dc e = ap (λ x. do_device_context_configuration_checks x dc) e

-- A context that the checks accept stays one.
pub IsAccepted-SameButEvents :
    {W : Type 0} (s t : Iommu W) (dc : DeviceContext)
    → SameButEvents s t
    → IsAccepted s dc
    → IsAccepted t dc
IsAccepted-SameButEvents s t dc h k =
    (configuration_checks_lem t dc).0
      (checks-SameButEvents s t dc h ∙ (configuration_checks_lem s dc).1 k)

module _ {W : Type 0} (P : Platform W) (pid_valid process_id device_id : ℕ) where
  walk_ddt-WalkEnds :
      (i : ℕ) (s : Iommu W) (a : ℕ) → WalkEnds s (walk_ddt P pid_valid process_id device_id i s a)
  unfolding walk_ddt
  walk_ddt-WalkEnds zero s a = at_leaf a refl refl
  walk_ddt-WalkEnds (suc i) s a =
      let v = ddt_walk pid_valid process_id device_id in
      let t = count_events P v s in
      let x = a + ddi t.reg_file.capabilities.msi_flat device_id (suc i) * 8 in
      let (status, ddte, u) = guarded_read P t a x 8 in
      let same : SameButEvents s u =
        SameButEvents-trans s t u (count_events-SameButEvents P v s) refl in
      let next = get_bits 53 10 ddte * 4096 in
      let rest = WalkEnds-trans s u _ same (walk_ddt-WalkEnds i u next) in
      elim (Bool-cases (is_access_fault status)) [
        | inl y ↦ rw y (fails 257 refl (inl refl) same)
        | inr n1 ↦ elim (Bool-cases (is_data_corruption status)) [
          | inl y ↦ rw n1 (rw y (fails 268 refl (inr (inr (inr refl))) same))
          | inr n2 ↦ elim (Bool-cases (test_bit ddte 0)) [
            | inr y ↦ rw n1 (rw n2 (rw y (fails 258 refl (inr (inl refl)) same)))
            | inl n3 ↦
                elim (Bool-cases (not (get_bits 9 1 ddte == 0) || not (get_bits 63 54 ddte == 0))) [
                  | inl y ↦
                      rw n1 (rw n2 (rw n3 (rw y (fails 259 refl (inr (inr (inl refl))) same))))
                  | inr y ↦ rw n1 (rw n2 (rw n3 (rw y rest)))
                ]
          ]
        ]
      ]

  load_dc-LoadEnds :
      (s : Iommu W) (a : ℕ) (old : DeviceContext) (slot : ℕ)
      → LoadEnds s device_id slot (load_dc P pid_valid process_id device_id s a old slot)
  unfolding load_dc
  load_dc-LoadEnds s a old slot =
      let v = ddt_walk pid_valid process_id device_id in
      let t = count_events P v s in
      let flat = t.reg_file.capabilities.msi_flat in
      let size = if flat then 64 else 32 in
      let x = a + ddi flat device_id 0 * size in
      let (status, raw, u) = guarded_read P t x x size in
      let same : SameButEvents s u =
        SameButEvents-trans s t u (count_events-SameButEvents P v s) refl in
      let dc = context_of flat raw old in
      let bad = do_device_context_configuration_checks u dc in
      elim (Bool-cases (is_access_fault status)) [
        | inl y ↦ rw y (rejected 257 refl (inl refl) same)
        | inr n1 ↦ elim (Bool-cases (is_data_corruption status)) [
          | inl y ↦ rw n1 (rw y (rejected 268 refl (inr (inr (inr refl))) same))
          | inr n2 ↦ elim (Bool-cases (test_bit dc.tc 0)) [
            | inr y ↦ rw n1 (rw n2 (rw y (rejected 258 refl (inr (inl refl)) same)))
            | inl n3 ↦ elim (Bool-cases bad) [
              | inl y ↦ rw n1 (rw n2 (rw n3 (rw y (rejected 259 refl (inr (inr (inl refl))) same))))
              | inr y ↦
                  let fine = sym (checks-SameButEvents s u dc same) ∙ y in
                  rw n1 (
                    rw n2 (
                      rw n3 (
                        rw y (
                          loaded dc u refl n3 ((configuration_checks_lem s dc).0 fine) same refl))))
            ]
          ]
        ]
      ]

module _ {W : Type 0} where
  LoadEnds-trans :
      (s t : Iommu W) (did slot : ℕ) (r : (ℕ ⊎ DeviceContext) × Iommu W)
      → SameButEvents s t
      → LoadEnds t did slot r
      → LoadEnds s did slot r
  LoadEnds-trans s t did slot r h (rejected c e i k) =
      rejected c e i (SameButEvents-trans s t r.1 h k)
  LoadEnds-trans s t did slot r h (loaded dc u e v c k f) =
      let fine = sym (checks-SameButEvents s t dc h) ∙ (configuration_checks_lem t dc).1 c in
      loaded dc u e v ((configuration_checks_lem s dc).0 fine) (SameButEvents-trans s t u h k) f

  -- How the whole function ends: with a context from the cache, or by a walk.
  pub data LocateEnds (s : Iommu W) (did slot : ℕ) (r : (ℕ ⊎ DeviceContext) × Iommu W)
      : Type 0 where
    hits :
        (dc : DeviceContext)
        → lookup_ioatc_dc s did ≡ (some dc, r.1)
        → r.0 ≡ inr dc
        → LocateEnds s did slot r
    walks : (lookup_ioatc_dc s did).0 ≡ none → LoadEnds s did slot r → LocateEnds s did slot r

module _ {W : Type 0} (P : Platform W) (pid_valid process_id device_id : ℕ) where
  -- `locate_device_context` returns the cached context of a device that hits. Of one that misses it
  -- returns a context with V set that the configuration checks' specification allows, and has cached
  -- exactly it in the given slot; or it fails with one of the causes 257, 258, 259 and 268. Apart from
  -- the cached context, a walk changes only the world and what counting its events changes, so a
  -- failure is never cached.
  pub locate_device_context-LocateEnds :
      (s : Iommu W) (old : DeviceContext) (no_levels slot : ℕ)
      → LocateEnds s device_id slot
          (locate_device_context P pid_valid process_id device_id s old no_levels slot)
  unfolding locate_device_context
  locate_device_context-LocateEnds s old no_levels slot =
      let r = s.reg_file in
      let i = top_level r.ddtp.iommu_mode no_levels in
      let a = r.ddtp.ppn * 4096 % 2 ^ 64 in
      let walk = walk_ddt P pid_valid process_id device_id i s a in
      elim (Option-cases (lookup_ioatc_dc s device_id).0) [
        | inr (dc, e) ↦
            rw (e, locate_device_context)
              (hits dc (ap (λ o. (o, (lookup_ioatc_dc s device_id).1)) e) refl)
        | inl e ↦ elim (walk_ddt-WalkEnds P pid_valid process_id device_id i s a) [
          | fails c q k same ↦
              rw (e, locate_device_context)
                (rw (q, locate_device_context) (walks e (rejected c refl k same)))
          | at_leaf b q same ↦
              rw (e, locate_device_context)
                (rw (q, locate_device_context)
                  (walks e (
                    LoadEnds-trans s walk.1 device_id slot _ same
                      (load_dc-LoadEnds P pid_valid process_id device_id walk.1 b old slot))))
        ]
      ]

  -- A device that was located is found again: over a cache in which no device has two entries, and with
  -- the uninitialised `replace` inside it, the next lookup returns the context that
  -- `locate_device_context` returned.
  pub locate_device_context-lookup_ioatc_dc :
      (s : Iommu W) (old : DeviceContext) (no_levels slot : ℕ) (dc : DeviceContext)
      → IsDcUnique s.ddt_cache
      → slot < length s.ddt_cache
      → (locate_device_context P pid_valid process_id device_id s old no_levels slot).0 ≡ inr dc
      → (lookup_ioatc_dc
          (locate_device_context P pid_valid process_id device_id s old no_levels slot).1
          device_id).0
        ≡ some dc
  locate_device_context-lookup_ioatc_dc s old no_levels slot dc unique inside h =
      let ends = locate_device_context-LocateEnds s old no_levels slot in
      elim ends [
        | hits x e q ↦
            let same : x ≡ dc = cc in
            ap (λ r. (lookup_ioatc_dc r.1 device_id).0) (sym e)
            ∙ lookup_ioatc_dc-lookup s device_id device_id
            ∙ ap (λ r. r.0) e
            ∙ ap some same
        | walks _ (rejected c e _ _) ↦ absurd cc
        | walks miss (loaded x u e _ _ k f) ↦
            let same : x ≡ dc = cc in
            let cache : u.ddt_cache ≡ s.ddt_cache = ap (λ t. t.ddt_cache) k in
            let missed : (lookup_ioatc_dc u device_id).0 ≡ none =
              lookup_ioatc_dc-dc_view u device_id
              ∙ ap (λ l. dc_view l device_id) cache
              ∙ sym (lookup_ioatc_dc-dc_view s device_id)
              ∙ miss in
            let found =
              cache_ioatc_dc-lookup u device_id x slot (device_id + 1) (omega arith)
                (subst IsDcUnique (sym cache) unique) missed
                (subst (λ l. slot < length l) (sym cache) inside) in
            ap (λ t. (lookup_ioatc_dc t device_id).0) f ∙ found.0 ∙ ap some same
      ]
