-- ===== src/Tests/FirstStage.antt =====
-- The first stage on a concrete table: an IOVA in the superpage of 1 GiB that `tables` holds in page 48.
use riscv_iommu_dv_model.Prelude.{inl, ◌+◌, ◌*◌, ◌^◌, ◌≡◌, ◌⊎◌, refl, true, false, some}
use riscv_iommu_dv_model.PageTable.{sv39}
use riscv_iommu_dv_model.SecondStage.{Mapping, guest_format}
use riscv_iommu_dv_model.DeviceDirectory.{
  do_device_context_configuration_checks, reserved_dc, ats_dc, first_stage_dc, second_stage_dc,
  options_dc,
}
use riscv_iommu_dv_model.DeviceDirectory.Format.{IsAccepted, configuration_checks_lem}
use riscv_iommu_dv_model.ProcessDirectory.Format
use riscv_iommu_dv_model.FirstStage.{IovaAccess, TransFault, two_stage_address_translation}
use riscv_iommu_dv_model.FirstStage.Outcome.{Answers, GuestInfo, VsMaps, two_stage-Answers}
use riscv_iommu_dv_model.FirstStage.Returns.{two_stage-returns}
use riscv_iommu_dv_model.Tests.{tables, start, ram, wired, dc_updating}

-- A write in user mode to 5 GiB and 12345 bytes.
abbrev write_5 : IovaAccess
write_5 = record {
  iova = 5 * 2 ^ 30 + 12345;
  check_access_perms = true;
  did = 7;
  is_read = false;
  is_write = true;
  is_exec = false;
  pv = 0;
  pid = 0;
  pscv = 1;
  pscid = 2;
  iosatp = 8 * 2 ^ 60 + 48;
  priv = 0;
  sum = false;
  sade = false;
  gv = 0;
  gscid = 0;
  iohgatp = 0;
  gade = false;
  sxl = false;
  rcid = 0;
  mcid = 0;
  be = false;
}

known : guest_format false 8 ≡ some sv39
unfolding guest_format
known = refl

two_stage-Answers_example :
    Answers write_5
      (GuestInfo tables 0 write_5 sv39 (48 * 4096) start)
      (VsMaps tables 0 write_5 sv39 start)
      (two_stage_address_translation tables 0 start write_5 4096).0
two_stage-Answers_example = two_stage-Answers tables 0 start write_5 4096 sv39 refl known

configured : IsAccepted wired dc_updating
unfolding do_device_context_configuration_checks reserved_dc ats_dc first_stage_dc second_stage_dc
    options_dc
configured = (configuration_checks_lem wired dc_updating).0 refl

-- The write for a guest, with entries of both stages that are updated.
abbrev updating : IovaAccess
updating = record write_5 {
  sade = true;
  gv = 1;
  gscid = 1;
  iohgatp = dc_updating.iohgatp;
  gade = true;
}

two_stage-returns_example :
    (o : TransFault ⊎ Mapping) × ((two_stage_address_translation ram 0 wired updating 4096).0
      ≡ some o)
two_stage-returns_example =
    two_stage-returns ram 0 wired updating 4096 dc_updating
      (λ y. record { agree = λ a w. refl; silent = inl refl }) configured refl refl
      (Format.sv39 refl refl refl)
