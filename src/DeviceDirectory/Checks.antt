-- ===== src/DeviceDirectory/Checks.antt =====
-- `do_device_context_configuration_checks` of iommu_ref_model/libiommu/src/iommu_device_context.c, its
-- tests in their order; `true` stands for the return of 1.
use riscv_iommu_dv_model.Prelude.{
  ℕ, ◌-◌, ◌^◌, Bool, true, not, ◌&&◌, ◌||◌, ◌==◌, if◌then◌else◌, bit_and, get_bits, test_bit,
}
use riscv_iommu_dv_model.Iommu.{Iommu}
use riscv_iommu_dv_model.Iommu.Regs.{Capabilities}
use riscv_iommu_dv_model.Iommu.Caches.{DeviceContext}

-- The bits of `tc_t`, and the field MODE of iohgatp, iosatp, pdtp and msiptp.
abbrev pub en_ats : DeviceContext → Bool
en_ats dc = test_bit dc.tc 1

abbrev pub en_pri : DeviceContext → Bool
en_pri dc = test_bit dc.tc 2

abbrev pub t2gpa_on : DeviceContext → Bool
t2gpa_on dc = test_bit dc.tc 3

abbrev pub pdtv : DeviceContext → Bool
pdtv dc = test_bit dc.tc 5

abbrev pub prpr : DeviceContext → Bool
prpr dc = test_bit dc.tc 6

abbrev pub gade : DeviceContext → Bool
gade dc = test_bit dc.tc 7

abbrev pub sade : DeviceContext → Bool
sade dc = test_bit dc.tc 8

abbrev pub dpe : DeviceContext → Bool
dpe dc = test_bit dc.tc 9

abbrev pub sbe : DeviceContext → Bool
sbe dc = test_bit dc.tc 10

abbrev pub sxl : DeviceContext → Bool
sxl dc = test_bit dc.tc 11

abbrev pub mode_of : ℕ → ℕ
mode_of raw = get_bits 63 60 raw

abbrev pub differ : Bool → Bool → Bool
differ a b = if a then not b else b

-- Reserved fields.
unfoldable pub reserved_dc : Capabilities → DeviceContext → Bool
reserved_dc c dc =
    (c.msi_flat && not (dc.reserved == 0))
    || (c.msi_flat && not (get_bits 59 44 dc.msiptp == 0))
    || (c.msi_flat && not (get_bits 63 52 dc.msi_addr_mask == 0))
    || (c.msi_flat && not (get_bits 63 52 dc.msi_addr_pattern == 0))
    || not (get_bits 23 12 dc.tc == 0)
    || not (get_bits 63 32 dc.tc == 0)
    || (not (get_bits 59 44 dc.fsc == 0) && pdtv dc)
    || (not (get_bits 59 44 dc.fsc == 0) && not (pdtv dc))
    || not (get_bits 11 0 dc.ta == 0)
    || not (get_bits 39 32 dc.ta == 0)
    || (not c.qosid && (not (get_bits 51 40 dc.ta == 0) || not (get_bits 63 52 dc.ta == 0)))

-- ATS, PRI and T2GPA.
unfoldable pub ats_dc : Capabilities → DeviceContext → Bool
ats_dc c dc =
    if (en_ats dc || en_pri dc || prpr dc) && not c.ats
    then true
    else if not (en_ats dc) && t2gpa_on dc
    then true
    else if not (en_ats dc) && en_pri dc
    then true
    else if not (en_pri dc) && prpr dc
    then true
    else if t2gpa_on dc && not c.t2gpa
    then true
    else t2gpa_on dc && mode_of dc.iohgatp == 0

-- The first-stage context: a process directory, or a page table.
unfoldable pub first_stage_dc : Capabilities → DeviceContext → Bool
first_stage_dc c dc =
    let m = mode_of dc.fsc in
    if pdtv dc && (not (m == 0) && not (m == 3) && not (m == 2) && not (m == 1))
    then true
    else if pdtv dc && ((m == 3 && not c.pd20) || (m == 2 && not c.pd17) || (m == 1 && not c.pd8))
    then true
    else if not (pdtv dc)
        && not (sxl dc)
        && not (m == 0)
        && not (m == 8)
        && not (m == 9)
        && not (m == 10)
    then true
    else if not (pdtv dc) && sxl dc && not (m == 0) && not (m == 8)
    then true
    else if not (pdtv dc)
        && not (sxl dc)
        && ((m == 8 && not c.sv39) || (m == 9 && not c.sv48) || (m == 10 && not c.sv57))
    then true
    else if not (pdtv dc) && sxl dc && (m == 8 && not c.sv32)
    then true
    else not (pdtv dc) && dpe dc

-- The second-stage page table; `gxl` is `fctl.gxl`.
unfoldable pub second_stage_dc : Capabilities → (gxl : Bool) → DeviceContext → Bool
second_stage_dc c gxl dc =
    let m = mode_of dc.iohgatp in
    if not gxl && not (m == 0) && not (m == 8) && not (m == 9) && not (m == 10)
    then true
    else if gxl && not (m == 0) && not (m == 8)
    then true
    else if not gxl
        && ((m == 8 && not c.sv39x4) || (m == 9 && not c.sv48x4) || (m == 10 && not c.sv57x4))
    then true
    else if gxl && (m == 8 && not c.sv32x4)
    then true
    else if c.msi_flat && (not (mode_of dc.msiptp == 0) && not (mode_of dc.msiptp == 1))
    then true
    else not (m == 0) && not (bit_and (get_bits 43 0 dc.iohgatp) 3 == 0)

module _ {W : Type 0} where
  -- Updates of A and D, byte order, widths, QoS ids and MSI tables.
  unfoldable pub options_dc : Iommu W → DeviceContext → Bool
  options_dc s dc =
      let c = s.reg_file.capabilities in
      let f = s.reg_file.fctl in
      let mask = s.iommu_qosid_mask in
      if not c.amo_hwad && (sade dc || gade dc)
      then true
      else if not c.both_end && differ f.be (sbe dc)
      then true
      else if f.gxl && not (sxl dc)
      then true
      else if not f.gxl && s.gxl_writeable == 0 && sxl dc
      then true
      else if s.fctl_be_writeable == 0 && differ (sbe dc) f.be
      then true
      else if c.qosid
          && (not (bit_and (get_bits 51 40 dc.ta) (2 ^ 12 - 1 - get_bits 11 0 mask) == 0)
              || not (bit_and (get_bits 63 52 dc.ta) (2 ^ 12 - 1 - get_bits 27 16 mask) == 0))
      then true
      else mode_of dc.iohgatp == 0 && not (mode_of dc.msiptp == 0)

  -- `do_device_context_configuration_checks`
  unfoldable pub do_device_context_configuration_checks : Iommu W → DeviceContext → Bool
  do_device_context_configuration_checks s dc =
      let c = s.reg_file.capabilities in
      if reserved_dc c dc
      then true
      else if ats_dc c dc
      then true
      else if first_stage_dc c dc
      then true
      else if second_stage_dc c s.reg_file.fctl.gxl dc
      then true
      else options_dc s dc
