-- ===== src/Tests/Process.antt =====
-- The process directory on a concrete state: process 5 of device 8 is not cached, and its context is
-- loaded.
use riscv_iommu_dv_model.Prelude.{inl, ◌≡◌, ◌⊎◌, refl, true, false, inr, some, arith}
use riscv_iommu_dv_model.Atc.{lookup_ioatc_pc}
use riscv_iommu_dv_model.Atc.Process.{IsPcUnique}
use riscv_iommu_dv_model.Iommu.Caches.{ProcessContext}
use riscv_iommu_dv_model.Hpm.{count_events, count_from}
use riscv_iommu_dv_model.PageTable.{napot_pte, physical}
use riscv_iommu_dv_model.SecondStage.{
  bare_gpte, bare_page_sz, mapping_of, second_stage_address_translation,
}
use riscv_iommu_dv_model.DeviceDirectory.{
  do_device_context_configuration_checks, reserved_dc, ats_dc, first_stage_dc, second_stage_dc,
  options_dc,
}
use riscv_iommu_dv_model.DeviceDirectory.Format.{IsAccepted, configuration_checks_lem}
use riscv_iommu_dv_model.ProcessDirectory.{
  PdtFault, OrigAccess, locate_process_context, walk_pdt, load_pc, pdi, pdt_access,
  do_process_context_configuration_checks,
}
use riscv_iommu_dv_model.ProcessDirectory.Locate.{
  PcEnds, locate_process_context-PcEnds, locate_process_context-lookup_ioatc_pc,
}
use riscv_iommu_dv_model.ProcessDirectory.Returns.{locate_process_context-returns}
use riscv_iommu_dv_model.Tests.{tables, start, dc_pdt, ram, wired, dc_pdt_updating}

abbrev read : OrigAccess
read = record { is_orig_read = true; is_orig_write = false; is_orig_exec = false }

abbrev pc_5 : ProcessContext
pc_5 = record { ta = 1; fsc = 0 }

locate_process_context-PcEnds_example :
    PcEnds dc_pdt 8 5 read start (locate_process_context tables 0 dc_pdt 8 5 read start 0)
locate_process_context-PcEnds_example =
    locate_process_context-PcEnds tables 0 dc_pdt 8 5 read start 0

start-IsUnique : IsPcUnique start.pdt_cache
start-IsUnique k = ground arith

loads : (locate_process_context tables 0 dc_pdt 8 5 read start 0).0 ≡ some (inr pc_5)
unfolding locate_process_context walk_pdt load_pc pdi pdt_access
    do_process_context_configuration_checks lookup_ioatc_pc second_stage_address_translation
    mapping_of bare_gpte bare_page_sz napot_pte physical count_events count_from
loads = refl

locate_process_context-lookup_ioatc_pc_example :
    (lookup_ioatc_pc (locate_process_context tables 0 dc_pdt 8 5 read start 0).1 8 5).0 ≡ some pc_5
locate_process_context-lookup_ioatc_pc_example =
    locate_process_context-lookup_ioatc_pc tables 0 dc_pdt 8 5 read start 0 pc_5 start-IsUnique
      (omega arith) loads

configured : IsAccepted wired dc_pdt_updating
unfolding do_device_context_configuration_checks reserved_dc ats_dc first_stage_dc second_stage_dc
    options_dc
configured = (configuration_checks_lem wired dc_pdt_updating).0 refl

locate_process_context-returns_example :
    (x : PdtFault ⊎ ProcessContext) × ((locate_process_context ram 0 dc_pdt_updating 8 5 read wired
        0).0
      ≡ some x)
locate_process_context-returns_example =
    locate_process_context-returns ram 0 dc_pdt_updating 8 5 read wired 0
      (λ y. record { agree = λ a w. refl; silent = inl refl }) configured
