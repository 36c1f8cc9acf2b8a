-- ===== src/DeviceDirectory/Format.antt =====
-- The device contexts that the RISC-V IOMMU specification allows, as the comments of
-- `do_device_context_configuration_checks` describe them, and the checks on them.
use riscv_iommu_dv_model.Prelude.{
  ℕ, ◌-◌, ◌^◌, ◌≤◌, Bool, true, false, ◌≡◌, ◌≢◌, ◌⊎◌, inl, inr, ◌↔◌, arith, Bool-cases, or-intro,
  bit_and, get_bits,
}
use riscv_iommu_dv_model.Iommu.{Iommu}
use riscv_iommu_dv_model.Iommu.Regs.{Capabilities}
use riscv_iommu_dv_model.Iommu.Caches.{DeviceContext}
use riscv_iommu_dv_model.DeviceDirectory.Checks.{
  en_ats, en_pri, t2gpa_on, pdtv, prpr, gade, sade, dpe, sbe, sxl, mode_of, reserved_dc, ats_dc,
  first_stage_dc, second_stage_dc, options_dc, do_device_context_configuration_checks,
}
use riscv_iommu_dv_model.DeviceDirectory.Flags.{
  zero_lem, both_lem, qos_lem, extended_lem, else-intro, else-elim, updates_lem, updates_elim,
  byte_order_lem, byte_order_elim, width_lem, width_elim, quality_lem, quality_elim, table_lem,
  table_elim,
}

-- Reserved bits are 0, those of the extended format where it is in use; QoS ids are reserved where
-- they are not supported.
pub record IsClear (c : Capabilities) (dc : DeviceContext) : Type 0 where
  extended :
      (c.msi_flat ≡ false)
      ⊎ ((dc.reserved ≡ 0)
          × (get_bits 59 44 dc.msiptp ≡ 0)
          × (get_bits 63 52 dc.msi_addr_mask ≡ 0)
          × (get_bits 63 52 dc.msi_addr_pattern ≡ 0))
  tc_clear : (get_bits 23 12 dc.tc ≡ 0) × (get_bits 63 32 dc.tc ≡ 0)
  fsc_clear : get_bits 59 44 dc.fsc ≡ 0
  ta_clear : (get_bits 11 0 dc.ta ≡ 0) × (get_bits 39 32 dc.ta ≡ 0)
  qos_clear : (c.qosid ≡ true) ⊎ ((get_bits 51 40 dc.ta ≡ 0) × (get_bits 63 52 dc.ta ≡ 0))

-- Which services of ATS are on: none of them, or translation with or without page requests.
pub data AtsServices (c : Capabilities) (dc : DeviceContext) : Type 0 where
  no_services :
      en_ats dc ≡ false
      → en_pri dc ≡ false
      → prpr dc ≡ false
      → t2gpa_on dc ≡ false
      → AtsServices c dc
  services :
      en_ats dc ≡ true
      → c.ats ≡ true
      → (en_pri dc ≡ true) ⊎ (prpr dc ≡ false)
      → (t2gpa_on dc ≡ false) ⊎ ((c.t2gpa ≡ true) × (mode_of dc.iohgatp ≢ 0))
      → AtsServices c dc

-- What `fsc` points to.
pub data FirstStage (c : Capabilities) (dc : DeviceContext) : Type 0 where
  bare_directory : pdtv dc ≡ true → mode_of dc.fsc ≡ 0 → FirstStage c dc
  pd8 : pdtv dc ≡ true → mode_of dc.fsc ≡ 1 → c.pd8 ≡ true → FirstStage c dc
  pd17 : pdtv dc ≡ true → mode_of dc.fsc ≡ 2 → c.pd17 ≡ true → FirstStage c dc
  pd20 : pdtv dc ≡ true → mode_of dc.fsc ≡ 3 → c.pd20 ≡ true → FirstStage c dc
  bare_table : pdtv dc ≡ false → dpe dc ≡ false → mode_of dc.fsc ≡ 0 → FirstStage c dc
  sv32 :
      pdtv dc ≡ false
      → dpe dc ≡ false
      → sxl dc ≡ true
      → mode_of dc.fsc ≡ 8
      → c.sv32 ≡ true
      → FirstStage c dc
  sv39 :
      pdtv dc ≡ false
      → dpe dc ≡ false
      → sxl dc ≡ false
      → mode_of dc.fsc ≡ 8
      → c.sv39 ≡ true
      → FirstStage c dc
  sv48 :
      pdtv dc ≡ false
      → dpe dc ≡ false
      → sxl dc ≡ false
      → mode_of dc.fsc ≡ 9
      → c.sv48 ≡ true
      → FirstStage c dc
  sv57 :
      pdtv dc ≡ false
      → dpe dc ≡ false
      → sxl dc ≡ false
      → mode_of dc.fsc ≡ 10
      → c.sv57 ≡ true
      → FirstStage c dc

-- Which page table translates guest addresses.
pub data GuestMode (c : Capabilities) (gxl : Bool) (m : ℕ) : Type 0 where
  bare : m ≡ 0 → GuestMode c gxl m
  sv32x4 : gxl ≡ true → m ≡ 8 → c.sv32x4 ≡ true → GuestMode c gxl m
  sv39x4 : gxl ≡ false → m ≡ 8 → c.sv39x4 ≡ true → GuestMode c gxl m
  sv48x4 : gxl ≡ false → m ≡ 9 → c.sv48x4 ≡ true → GuestMode c gxl m
  sv57x4 : gxl ≡ false → m ≡ 10 → c.sv57x4 ≡ true → GuestMode c gxl m

-- The root of that table is aligned to 16 KiB, and the mode of the MSI table exists.
pub record SecondStage (c : Capabilities) (gxl : Bool) (dc : DeviceContext) : Type 0 where
  pub guest : GuestMode c gxl (mode_of dc.iohgatp)
  pub aligned : (mode_of dc.iohgatp ≡ 0) ⊎ (bit_and (get_bits 43 0 dc.iohgatp) 3 ≡ 0)
  msi_mode : (c.msi_flat ≡ false) ⊎ (mode_of dc.msiptp ≤ 1)

-- The remaining options are supported, and fit the byte order and the width that are in use.
pub record Options {W : Type 0} (s : Iommu W) (dc : DeviceContext) : Type 0 where
  updates : (s.reg_file.capabilities.amo_hwad ≡ true) ⊎ ((sade dc ≡ false) × (gade dc ≡ false))
  byte_order :
      (sbe dc ≡ s.reg_file.fctl.be)
      ⊎ ((s.reg_file.capabilities.both_end ≡ true) × (s.fctl_be_writeable ≢ 0))
  pub width :
      (sxl dc ≡ s.reg_file.fctl.gxl) ⊎ ((s.reg_file.fctl.gxl ≡ false) × (s.gxl_writeable ≢ 0))
  qos :
      (s.reg_file.capabilities.qosid ≡ false)
      ⊎ ((bit_and (get_bits 51 40 dc.ta) (2 ^ 12 - 1 - get_bits 11 0 s.iommu_qosid_mask) ≡ 0)
          × (bit_and (get_bits 63 52 dc.ta) (2 ^ 12 - 1 - get_bits 27 16 s.iommu_qosid_mask) ≡ 0))
  msi_table :
      (s.reg_file.capabilities.msi_flat ≡ false)
      ⊎ ((mode_of dc.iohgatp ≢ 0) ⊎ (mode_of dc.msiptp ≡ 0))

pub record IsConfigured {W : Type 0} (s : Iommu W) (dc : DeviceContext) : Type 0 where
  clear : IsClear s.reg_file.capabilities dc
  ats : AtsServices s.reg_file.capabilities dc
  first_stage : FirstStage s.reg_file.capabilities dc
  pub second_stage : SecondStage s.reg_file.capabilities s.reg_file.fctl.gxl dc
  pub options : Options s dc

-- What the checks accept: less than the specification allows, since they ask for an MSI table that is off,
-- under a second stage that is Bare, of the base format also, which has no MSI table.
pub record IsAccepted {W : Type 0} (s : Iommu W) (dc : DeviceContext) : Type 0 where
  pub configured : IsConfigured s dc
  no_msi_table : (mode_of dc.iohgatp ≢ 0) ⊎ (mode_of dc.msiptp ≡ 0)

module _ (c : Capabilities) (dc : DeviceContext) where
  AtsServices-intro : ats_dc c dc ≡ false → AtsServices c dc
  unfolding ats_dc
  AtsServices-intro h = ground arith

  AtsServices-elim : AtsServices c dc → ats_dc c dc ≡ false
  unfolding ats_dc
  AtsServices-elim h = ground arith

  IsClear-intro : reserved_dc c dc ≡ false → IsClear c dc
  unfolding reserved_dc
  IsClear-intro h0 =
      let (h1, qos) = or-intro _ _ h0 in
      let (h2, ta1) = or-intro _ _ h1 in
      let (h3, ta0) = or-intro _ _ h2 in
      let (h4, fsc0) = or-intro _ _ h3 in
      let (h5, fsc1) = or-intro _ _ h4 in
      let (h6, tc1) = or-intro _ _ h5 in
      let (h7, tc0) = or-intro _ _ h6 in
      record {
        extended = extended_lem _ _ _ _ _ h7;
        tc_clear = (zero_lem _ tc0, zero_lem _ tc1);
        fsc_clear = both_lem _ _ fsc1 fsc0;
        ta_clear = (zero_lem _ ta0, zero_lem _ ta1);
        qos_clear = qos_lem _ _ _ qos;
      }

  IsClear-elim : IsClear c dc → reserved_dc c dc ≡ false
  unfolding reserved_dc
  IsClear-elim h = ground arith

  FirstStage-intro : first_stage_dc c dc ≡ false → FirstStage c dc
  unfolding first_stage_dc
  FirstStage-intro h = elim (Bool-cases (pdtv dc)) [
    | inl y ↦ ground arith
    | inr n ↦ elim (Bool-cases (sxl dc)) [ inl x ↦ ground arith | inr x ↦ ground arith ]
  ]

  FirstStage-elim : FirstStage c dc → first_stage_dc c dc ≡ false
  unfolding first_stage_dc
  FirstStage-elim h = ground arith

  SecondStage-intro : (gxl : Bool) → second_stage_dc c gxl dc ≡ false → SecondStage c gxl dc
  unfolding second_stage_dc
  SecondStage-intro gxl h = ground arith

  SecondStage-elim : (gxl : Bool) → SecondStage c gxl dc → second_stage_dc c gxl dc ≡ false
  unfolding second_stage_dc
  SecondStage-elim gxl h = ground arith

module _ {W : Type 0} (s : Iommu W) (dc : DeviceContext) where
  Options-intro :
      options_dc s dc ≡ false → Options s dc × ((mode_of dc.iohgatp ≢ 0) ⊎ (mode_of dc.msiptp ≡ 0))
  unfolding options_dc
  Options-intro h0 =
      let (a, h1) = else-intro _ _ h0 in
      let (b, h2) = else-intro _ _ h1 in
      let (d, h3) = else-intro _ _ h2 in
      let (e, h4) = else-intro _ _ h3 in
      let (f, h5) = else-intro _ _ h4 in
      let (g, h6) = else-intro _ _ h5 in
      (
        record {
          updates = updates_lem _ _ _ a;
          byte_order = byte_order_lem _ _ _ _ b f;
          width = width_lem _ _ _ d e;
          qos = quality_lem _ _ _ g;
          msi_table = inr (table_lem _ _ h6);
        },
        table_lem _ _ h6,
      )

  Options-elim :
      Options s dc → (mode_of dc.iohgatp ≢ 0) ⊎ (mode_of dc.msiptp ≡ 0) → options_dc s dc ≡ false
  unfolding options_dc
  Options-elim h table = else-elim _ _ (updates_elim _ _ _ h.updates) (
      else-elim _ _ (byte_order_elim _ _ _ _ h.byte_order).0 (
        else-elim _ _ (width_elim _ _ _ h.width).0 (
          else-elim _ _ (width_elim _ _ _ h.width).1 (
            else-elim _ _ (byte_order_elim _ _ _ _ h.byte_order).1
              (else-elim _ _ (quality_elim _ _ _ h.qos) (table_elim _ _ table))))))

  -- `do_device_context_configuration_checks` accepts exactly the contexts that the specification
  -- allows on this IOMMU (reserved fields that are 0, services of ATS that are supported and depend on
  -- one another as they must, page tables and directories of a mode that is supported, an aligned
  -- second-stage root, options that fit the byte order, the width and the QoS ids in use, and in the
  -- extended format no MSI table under a Bare second stage), and of which, in either format, the second
  -- stage is not Bare or the mode of msiptp is 0. The last condition is the code's own in the base format.
  pub configuration_checks_lem :
      (do_device_context_configuration_checks s dc ≡ false) ↔ IsAccepted s dc
  unfolding do_device_context_configuration_checks
  configuration_checks_lem =
      let c = s.reg_file.capabilities in
      let gxl = s.reg_file.fctl.gxl in
      (
        λ h0.
            let (a, h1) = else-intro _ _ h0 in
            let (b, h2) = else-intro _ _ h1 in
            let (d, h3) = else-intro _ _ h2 in
            let (e, f) = else-intro _ _ h3 in
            let (options, table) = Options-intro f in
            record {
              configured = record {
                clear = IsClear-intro c dc a;
                ats = AtsServices-intro c dc b;
                first_stage = FirstStage-intro c dc d;
                second_stage = SecondStage-intro c dc gxl e;
                options = options;
              };
              no_msi_table = table;
            },
        λ h. else-elim _ _ (IsClear-elim c dc h.configured.clear) (
            else-elim _ _ (AtsServices-elim c dc h.configured.ats) (
              else-elim _ _ (FirstStage-elim c dc h.configured.first_stage) (
                else-elim _ _ (SecondStage-elim c dc gxl h.configured.second_stage)
                  (Options-elim h.configured.options h.no_msi_table)))),
      )
