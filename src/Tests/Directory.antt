-- ===== src/Tests/Directory.antt =====
-- The device directory on a concrete state: device 8 is not cached, and its context is loaded.
use riscv_iommu_dv_model.Prelude.{◌≡◌, ◌↔◌, refl, false, inr, some, arith}
use riscv_iommu_dv_model.Atc.{lookup_ioatc_dc}
use riscv_iommu_dv_model.Hpm.{count_events, count_from}
use riscv_iommu_dv_model.Atc.Device.{IsDcUnique}
use riscv_iommu_dv_model.ProcessDirectory.{do_process_context_configuration_checks}
use riscv_iommu_dv_model.ProcessDirectory.Format.{IsPcConfigured, process_checks_lem}
use riscv_iommu_dv_model.DeviceDirectory.{
  locate_device_context, walk_ddt, load_dc, context_of, do_device_context_configuration_checks,
  reserved_dc, ats_dc, first_stage_dc, second_stage_dc, options_dc, ddi,
}
use riscv_iommu_dv_model.DeviceDirectory.Format.{IsAccepted, configuration_checks_lem}
use riscv_iommu_dv_model.DeviceDirectory.Locate.{
  LocateEnds, locate_device_context-LocateEnds, locate_device_context-lookup_ioatc_dc,
}
use riscv_iommu_dv_model.Tests.{counter, start, dc_7, pc_2}

configuration_checks_lem_example :
    (do_device_context_configuration_checks start dc_7 ≡ false) ↔ IsAccepted start dc_7
configuration_checks_lem_example = configuration_checks_lem start dc_7

locate_device_context-LocateEnds_example :
    LocateEnds start 8 1 (locate_device_context counter 0 0 8 start dc_7 0 1)
locate_device_context-LocateEnds_example =
    locate_device_context-LocateEnds counter 0 0 8 start dc_7 0 1

start-IsUnique : IsDcUnique start.ddt_cache
start-IsUnique k = ground arith

loads : (locate_device_context counter 0 0 8 start dc_7 0 1).0 ≡ inr dc_7
unfolding locate_device_context walk_ddt load_dc context_of do_device_context_configuration_checks
    lookup_ioatc_dc count_events count_from reserved_dc ats_dc first_stage_dc second_stage_dc
    options_dc ddi
loads = refl

locate_device_context-lookup_ioatc_dc_example :
    (lookup_ioatc_dc (locate_device_context counter 0 0 8 start dc_7 0 1).1 8).0 ≡ some dc_7
locate_device_context-lookup_ioatc_dc_example =
    locate_device_context-lookup_ioatc_dc counter 0 0 8 start dc_7 0 1 dc_7 start-IsUnique
      (omega arith) loads

process_checks_lem_example :
    (do_process_context_configuration_checks start dc_7 pc_2 ≡ false)
    ↔ IsPcConfigured start dc_7 pc_2
process_checks_lem_example = process_checks_lem start dc_7 pc_2
