-- ===== src/Tests/SecondStage.antt =====
-- The second stage on a concrete table: an address in the superpage of 1 GiB that `tables` holds.
use riscv_iommu_dv_model.Prelude.{
  inl, ◌+◌, ◌*◌, ◌≤◌, ◌^◌, ◌/◌, ◌%◌, ◌≡◌, ◌↔◌, ◌⊎◌, refl, true, false, inr, some, arith, get_bits,
}
use riscv_iommu_dv_model.Hpm.{count_events, count_from}
use riscv_iommu_dv_model.PageTable.{
  sv39, top_of, pte_size, pte_of, misaligned, ppn_field, page_size_at, invalid_pte, is_leaf,
  bad_pointer, bad_napot, lacks, napot_pte, physical, marked_word,
}
use riscv_iommu_dv_model.PageTable.Align.{misaligned_iff}
use riscv_iommu_dv_model.SecondStage.{
  GuestAccess, GstFault, Mapping, guest_format, guest_vpn, upper_bits, bare_gpte, bare_page_sz,
  mapping_of, is_settled, visit_leaf, visit, update_gpte, walk, second_stage_address_translation,
}
use riscv_iommu_dv_model.SecondStage.Mapped.{Maps, second_stage-Maps}
use riscv_iommu_dv_model.SecondStage.Returns.{IsSteady, second_stage-returns}
use riscv_iommu_dv_model.SecondStage.Bare.{second_stage-bare}
use riscv_iommu_dv_model.DeviceDirectory.{
  do_device_context_configuration_checks, reserved_dc, ats_dc, first_stage_dc, second_stage_dc,
  options_dc,
}
use riscv_iommu_dv_model.DeviceDirectory.Format.{IsAccepted, configuration_checks_lem}
use riscv_iommu_dv_model.Tests.{tables, start, dc_guest, dc_updating, ram, wired}

-- A read of 5 GiB and 12345 bytes.
abbrev read_5 : GuestAccess
read_5 = record {
  gpa = 5 * 2 ^ 30 + 12345;
  check_access_perms = true;
  did = 7;
  is_read = true;
  is_write = false;
  is_exec = false;
  is_implicit = false;
  pv = 0;
  pid = 0;
  pscv = 0;
  pscid = 0;
  gv = 1;
  gscid = 1;
  iohgatp = dc_guest.iohgatp;
  gade = false;
  sade = false;
  sxl = false;
  rcid = 0;
  mcid = 0;
}

abbrev mapped : Mapping
mapped = record {
  pa = 3 * 2 ^ 30 + 12345;
  page_sz = 2 ^ 30;
  pte = record {
    v = 1;
    r = 1;
    w = 1;
    x = 0;
    u = 1;
    g = 0;
    a = 1;
    d = 1;
    rsw = 0;
    ppn = 3 * 2 ^ 18;
    reserved = 0;
    rsw60t59b = 0;
    pbmt = 0;
    n = 0;
  };
}

translates : (second_stage_address_translation tables 0 start read_5).0 ≡ some (inr mapped)
unfolding second_stage_address_translation walk visit visit_leaf guest_format upper_bits guest_vpn
    top_of pte_size pte_of misaligned ppn_field page_size_at invalid_pte is_leaf bad_pointer
    bad_napot lacks napot_pte physical mapping_of is_settled count_events count_from
translates = refl

known : guest_format false 8 ≡ some sv39
unfolding guest_format
known = refl

second_stage-Maps_example : Maps tables read_5 sv39 start mapped
second_stage-Maps_example =
    second_stage-Maps tables 0 start read_5 sv39 mapped refl known translates

configured : IsAccepted wired dc_updating
unfolding do_device_context_configuration_checks reserved_dc ats_dc first_stage_dc second_stage_dc
    options_dc
configured = (configuration_checks_lem wired dc_updating).0 refl

wired-IsSteady : IsSteady ram wired
wired-IsSteady = record { agree = λ a w. refl; silent = inl refl }

-- The read, of an entry that is not marked as accessed, where entries are updated.
abbrev updating : GuestAccess
updating = record read_5 { gade = true }

updates :
    (second_stage_address_translation ram 0 wired updating).1.world 16424 ≡ 23 + 64 + 3 * 2 ^ 28
unfolding second_stage_address_translation walk visit visit_leaf update_gpte guest_format upper_bits
    guest_vpn top_of pte_size pte_of misaligned ppn_field page_size_at invalid_pte is_leaf
    bad_pointer bad_napot lacks napot_pte physical mapping_of is_settled count_events count_from
    marked_word
updates = refl

second_stage-returns_example :
    (o : GstFault ⊎ Mapping) × ((second_stage_address_translation ram 0 wired updating).0 ≡ some o)
second_stage-returns_example =
    second_stage-returns ram 0 wired updating dc_updating (λ y. wired-IsSteady) configured refl refl

-- The same read where iohgatp is 0, of an address with a bit above the 56 of a page number.
abbrev bare_read : GuestAccess
bare_read = record read_5 { iohgatp = 0; gpa = 2 ^ 60 + 12345 }

bare_size : bare_page_sz start ≡ 2 ^ (0 + 12)
unfolding bare_page_sz
bare_size = refl

second_stage-bare_example : second_stage_address_translation tables 0 start bare_read ≡ (
  some (
      inr (record {
        pa = (2 ^ 60 + 12345) % 2 ^ 56;
        page_sz = 2 ^ (0 + 12);
        pte = bare_gpte (2 ^ 60 + 12345);
      })),
  start,
)
second_stage-bare_example =
    second_stage-bare tables 0 start bare_read 0 refl (omega arith) bare_size

level_1 : 1 ≤ top_of sv39
unfolding top_of
level_1 = omega arith

misaligned_iff_example :
    (misaligned sv39 1 (215 + 2 ^ 19) ≡ false)
    ↔ (get_bits 53 10 (215 + 2 ^ 19) % (page_size_at sv39 1 / 4096) ≡ 0)
misaligned_iff_example = misaligned_iff sv39 1 (215 + 2 ^ 19) level_1
