-- ===== src/ProcessDirectory.antt =====
-- The process directory: `do_process_context_configuration_checks` and `locate_process_context` of
-- iommu_ref_model/libiommu/src/iommu_process_context.c.
pub mod Format
pub mod Locate
pub mod Returns
use riscv_iommu_dv_model.Prelude.{
  ℕ, zero, suc, ◌+◌, ◌-◌, ◌*◌, ◌/◌, ◌%◌, ◌^◌, Bool, true, false, not, ◌&&◌, ◌||◌, ◌==◌, ◌⊎◌, inl,
  inr, if◌then◌else◌, none, some, Option, clear_low, get_bits, test_bit, bit_or,
}
use riscv_iommu_dv_model.Iommu.{Iommu}
use riscv_iommu_dv_model.Iommu.Caches.{DeviceContext, ProcessContext}
use riscv_iommu_dv_model.Iommu.Platform.{Platform}
use riscv_iommu_dv_model.Fault
use riscv_iommu_dv_model.Fault.{is_access_fault, is_data_corruption}
use riscv_iommu_dv_model.Atc.{lookup_ioatc_pc, cache_ioatc_pc}
use riscv_iommu_dv_model.Hpm.{Event, count_events}
use riscv_iommu_dv_model.DeviceDirectory.{sxl, mode_of, gade, sade, sbe}
use riscv_iommu_dv_model.SecondStage.{
  GuestAccess, GstFault, Mapping, page_fault, access_fault, data_corruption,
  second_stage_address_translation,
}

module _ {W : Type 0} where
  -- The tests in their order; `true` stands for the return of 1.
  unfoldable pub do_process_context_configuration_checks :
      Iommu W → DeviceContext → ProcessContext → Bool
  do_process_context_configuration_checks s dc pc =
      let c = s.reg_file.capabilities in
      let m = mode_of pc.fsc in
      if not (get_bits 11 3 pc.ta == 0)
        || not (get_bits 63 32 pc.ta == 0)
        || not (get_bits 59 44 pc.fsc == 0)
      then true
      else if not (sxl dc) && not (m == 0) && not (m == 8) && not (m == 9) && not (m == 10)
      then true
      else if sxl dc && not (m == 0) && not (m == 8)
      then true
      else if not (sxl dc)
          && ((m == 8 && not c.sv39) || (m == 9 && not c.sv48) || (m == 10 && not c.sv57))
      then true
      else sxl dc && (m == 8 && not c.sv32)

-- `PDI[i]`
unfoldable pub pdi : (process_id i : ℕ) → ℕ
pdi process_id zero = get_bits 7 0 process_id
pdi process_id (suc zero) = get_bits 16 8 process_id
pdi process_id (suc (suc i)) = get_bits 19 17 process_id

-- `LEVELS - 1`. A mode that names no directory leaves LEVELS uninitialised.
abbrev pub pdt_top_level : (mode uninitialized : ℕ) → ℕ
pdt_top_level mode uninitialized =
    if mode == 1 then 0 else if mode == 2 then 1 else if mode == 3 then 2 else uninitialized

-- The cause that is reported, and what is stored through `iotval2`; none where that keeps its value.
pub record PdtFault : Type 0 where
  pub cause : ℕ
  pub iotval2 : Option ℕ

-- The original access: `is_orig_read`, `is_orig_write` and `is_orig_exec`.
pub record OrigAccess : Type 0 where
  pub is_orig_read : Bool
  pub is_orig_write : Bool
  pub is_orig_exec : Bool

abbrev pub plain : ℕ → PdtFault
plain c = record { cause = c; iotval2 = none }

-- What a fault of the second stage at `a` is reported as.
unfoldable pub guest_fault : OrigAccess → (a : ℕ) → GstFault → PdtFault
guest_fault o a page_fault = record {
  cause = if o.is_orig_exec then 20 else if o.is_orig_read then 21 else 23;
  iotval2 = some (bit_or (clear_low a 2) 1);
}
guest_fault o a access_fault = plain 265
guest_fault o a data_corruption = plain 269

-- The implicit read of `a` that `locate_process_context` has translated.
unfoldable pub pdt_access : DeviceContext → (device_id process_id a : ℕ) → GuestAccess
pdt_access dc device_id process_id a = record {
  gpa = a;
  check_access_perms = true;
  did = device_id;
  is_read = true;
  is_write = false;
  is_exec = false;
  is_implicit = false;
  pv = 1;
  pid = process_id;
  pscv = 0;
  pscid = 0;
  gv = if mode_of dc.iohgatp == 0 then 0 else 1;
  gscid = get_bits 59 44 dc.iohgatp;
  iohgatp = dc.iohgatp;
  gade = gade dc;
  sade = sade dc;
  sxl = sxl dc;
  rcid = get_bits 51 40 dc.ta;
  mcid = get_bits 63 52 dc.ta;
}

-- The event PDT_WALKS.
abbrev pub pdt_walk : (device_id process_id : ℕ) → Event
pdt_walk device_id process_id = record {
  pv = 1;
  pid = process_id;
  pscv = 0;
  pscid = 0;
  did = device_id;
  gscv = 0;
  gscid = 0;
  event_id = 6;
}

module _ {W : Type 0} (P : Platform W) (retries : ℕ) (dc : DeviceContext) (device_id process_id : ℕ)
    (o : OrigAccess) where
  -- A load of `size` bytes at the translated address, refused where it is wider than
  -- `capabilities.pas`.
  abbrev pub pdt_read : Iommu W → Mapping → (size : ℕ) → ℕ × ℕ × Iommu W
  pdt_read s m size =
      let (status, raw, w) =
        if clear_low m.pa s.reg_file.capabilities.pas == 0
        then P.read_memory
            (record {
              addr = m.pa;
              size = size;
              rcid = get_bits 51 40 dc.ta;
              mcid = get_bits 63 52 dc.ta;
              pma = m.pte.pbmt;
              big_endian = sbe dc;
            })
            s.world
        else (Fault.access_fault, 0, s.world) in
      (status, raw, record s { world = w })

  -- From `step_2` on, for an inner entry at `m`: the next table.
  unfoldable pub pdt_entry : Iommu W → Mapping → (PdtFault ⊎ ℕ) × Iommu W
  pdt_entry s m =
      let t = count_events P (pdt_walk device_id process_id) s in
      let (status, pdte, u) = pdt_read t m 8 in
      if is_access_fault status
      then (inl (plain 265), u)
      else if is_data_corruption status
      then (inl (plain 269), u)
      else if not (test_bit pdte 0)
      then (inl (plain 266), u)
      else if not (get_bits 9 1 pdte == 0) || not (get_bits 63 54 pdte == 0)
      then (inl (plain 267), u)
      else (inr (get_bits 53 10 pdte * 4096), u)

  -- From `step_10` on.
  unfoldable pub load_pc : Iommu W → Mapping → (PdtFault ⊎ ProcessContext) × Iommu W
  load_pc s m =
      let t = count_events P (pdt_walk device_id process_id) s in
      let (status, raw, u) = pdt_read t m 16 in
      let pc : ProcessContext = record { ta = raw % 2 ^ 64; fsc = raw / 2 ^ 64 % 2 ^ 64 } in
      if is_access_fault status
      then (inl (plain 265), u)
      else if is_data_corruption status
      then (inl (plain 269), u)
      else if not (test_bit pc.ta 0)
      then (inl (plain 266), u)
      else if do_process_context_configuration_checks u dc pc
      then (inl (plain 267), u)
      else (inr pc, cache_ioatc_pc u device_id process_id pc)

  -- What follows the translation of `a`.
  abbrev pub translated :
      {A : Type 0}
      → (a : ℕ) → (Iommu W → Mapping → Option (PdtFault ⊎ A) × Iommu W)
      → Option (GstFault ⊎ Mapping) × Iommu W
      → Option (PdtFault ⊎ A) × Iommu W
  translated a next (none, t) = (none, t)
  translated a next (some (inl g), t) = (some (inl (guest_fault o a g)), t)
  translated a next (some (inr m), t) = next t m

  -- What follows an inner entry.
  abbrev pub descend :
      {A : Type 0}
      → (Iommu W → ℕ → Option (PdtFault ⊎ A) × Iommu W)
      → (PdtFault ⊎ ℕ) × Iommu W
      → Option (PdtFault ⊎ A) × Iommu W
  descend next (inl e, t) = (some (inl e), t)
  descend next (inr a, t) = next t a

  -- The loop from `step_2` on, in the table at `a`; none where a translation gives none.
  unfoldable pub walk_pdt :
      (i : ℕ) → Iommu W → (a : ℕ) → Option (PdtFault ⊎ ProcessContext) × Iommu W
  walk_pdt zero s a =
      let b = a + pdi process_id 0 * 16 in
      translated b (λ t m. let (r, u) = load_pc t m in (some r, u))
        (second_stage_address_translation P retries s (pdt_access dc device_id process_id b))
  walk_pdt (suc i) s a =
      let b = a + pdi process_id (suc i) * 8 in
      translated b (λ t m. descend (λ u next. walk_pdt i u next) (pdt_entry t m))
        (second_stage_address_translation P retries s (pdt_access dc device_id process_id b))

  -- `locate_process_context`: the fault, or the context. `no_levels` is what `LEVELS - 1` holds where
  -- C leaves it uninitialised.
  unfoldable pub locate_process_context :
      Iommu W → (no_levels : ℕ) → Option (PdtFault ⊎ ProcessContext) × Iommu W
  locate_process_context s no_levels =
      let (hit, t) = lookup_ioatc_pc s device_id process_id in
      let walked =
        walk_pdt (pdt_top_level (mode_of dc.fsc) no_levels) s (get_bits 43 0 dc.fsc * 4096) in
      elim hit [ some pc ↦ (some (inr pc), t) | none ↦ walked ]
