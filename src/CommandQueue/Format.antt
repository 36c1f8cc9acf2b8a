-- ===== src/CommandQueue/Format.antt =====
-- The formats of the commands, as the comments of `process_commands` in iommu_command_queue.c and
-- `command_t` of iommu_command_queue.h describe them, and the checks on them.
use riscv_iommu_dv_model.Prelude.{
  ℕ, ◌-◌, ◌^◌, ◌<◌, Bool, true, false, not, ◌&&◌, ◌||◌, ◌≡◌, ◌≢◌, refl, ◌⊎◌, inl, inr, arith,
  Bool-cases, or-intro, ◌==◌, ltb, get_bits, bit_and,
}
use riscv_iommu_dv_model.Iommu.{Iommu}
use riscv_iommu_dv_model.CommandQueue.{
  iotinval_reserved, iodir_reserved, iofence_reserved, ats_reserved, func3, opcode, pid_too_wide,
}

module _ {W : Type 0} (s : Iommu W) (c : ℕ) where
  -- The reserved fields of IOTINVAL are 0; NL and S are reserved where the capability is missing.
  pub record IotinvalClear : Type 0 where
    rsvd : get_bits 11 11 c ≡ 0
    rsvd1 : get_bits 43 35 c ≡ 0
    rsvd2 : get_bits 63 60 c ≡ 0
    rsvd3 : get_bits 72 64 c ≡ 0
    rsvd4 : get_bits 127 126 c ≡ 0
    nl_supported : get_bits 34 34 c ≢ 0 → s.reg_file.capabilities.nl ≡ true
    s_supported : get_bits 73 73 c ≢ 0 → s.reg_file.capabilities.s ≡ true

  pub record IodirClear : Type 0 where
    rsvd : get_bits 11 10 c ≡ 0
    rsvd1 : get_bits 32 32 c ≡ 0
    rsvd2 : get_bits 39 34 c ≡ 0
    rsvd3 : get_bits 127 64 c ≡ 0

  -- WSI is reserved where the IOMMU is set to signal by MSI, by `fctl.wsi`.
  pub record IofenceClear : Type 0 where
    reserved : get_bits 31 14 c ≡ 0
    reserved1 : get_bits 127 126 c ≡ 0
    wsi_allowed : get_bits 11 11 c ≡ 1 → s.reg_file.fctl.wsi ≡ true

  pub record AtsClear : Type 0 where
    ats_supported : s.reg_file.capabilities.ats ≡ true
    rsvd : get_bits 11 10 c ≡ 0
    rsvd1 : get_bits 39 34 c ≡ 0

  -- The device id has no bit that the reset of the IOMMU left out of the mask `max_devid_mask`. The comments
  -- in the source speak of the width that the directory mode in `ddtp` supports, which may be smaller.
  abbrev pub DidFits : Type 0
  DidFits = bit_and (get_bits 63 40 c) (2 ^ 32 - 1 - s.max_devid_mask) ≡ 0

  -- A process id has 8 bits, 17 with the capability PD17, and 20 with PD20.
  abbrev pub PidFits : Type 0
  PidFits =
      (s.reg_file.capabilities.pd20 ≡ true)
      ⊎ ((s.reg_file.capabilities.pd17 ≡ true) × (get_bits 31 12 c < 2 ^ 17))
      ⊎ (get_bits 31 12 c < 2 ^ 8)

  -- The legal commands: a known opcode and function, reserved fields that are 0, and operands that fit.
  pub data IsLegal : Type 0 where
    iotinval_vma : opcode c ≡ 1 → func3 c ≡ 0 → IotinvalClear → IsLegal
    iotinval_gvma : opcode c ≡ 1 → func3 c ≡ 1 → IotinvalClear → get_bits 32 32 c ≡ 0 → IsLegal
    iodir_inval_ddt :
        opcode c ≡ 3
        → func3 c ≡ 0
        → IodirClear
        → get_bits 31 12 c ≡ 0
        → (get_bits 33 33 c ≢ 0 → DidFits)
        → IsLegal
    iodir_inval_pdt :
        opcode c ≡ 3 → func3 c ≡ 1 → IodirClear → get_bits 33 33 c ≡ 1 → DidFits → PidFits → IsLegal
    iofence_c : opcode c ≡ 2 → func3 c ≡ 0 → IofenceClear → IsLegal
    ats_inval : opcode c ≡ 4 → func3 c ≡ 0 → AtsClear → IsLegal
    ats_prgr : opcode c ≡ 4 → func3 c ≡ 1 → AtsClear → IsLegal

or-elim : (a b : Bool) → a ≡ false → b ≡ false → (a || b) ≡ false
or-elim a b h k = rw h k

not-not : (a : Bool) → not a ≡ false → a ≡ true
not-not true h = refl
not-not false h = absurd cc

-- The bounds on a process id, for the capabilities PD20 and PD17.
pid_intro :
    (p20 p17 : Bool) (n : ℕ)
    → ((not p20 && ltb (2 ^ 17 - 1) n) || (not p20 && not p17 && ltb (2 ^ 8 - 1) n)) ≡ false
    → (p20 ≡ true) ⊎ ((p17 ≡ true) × (n < 2 ^ 17)) ⊎ (n < 2 ^ 8)
pid_intro true p17 n h = inl refl
pid_intro false true n h = inr (inl (refl, ground arith))
pid_intro false false n h = inr (inr (ground arith))

pid_elim :
    (p20 p17 : Bool) (n : ℕ)
    → (p20 ≡ true) ⊎ ((p17 ≡ true) × (n < 2 ^ 17)) ⊎ (n < 2 ^ 8)
    → ((not p20 && ltb (2 ^ 17 - 1) n) || (not p20 && not p17 && ltb (2 ^ 8 - 1) n)) ≡ false
pid_elim p20 p17 n h = ground arith

-- Reserved fields one by one: a test that fails says that the field is 0, and so do the rest.
reserved-intro : (b : Bool) (n : ℕ) → (b || not (n == 0)) ≡ false → (b ≡ false) × (n ≡ 0)
reserved-intro b n h = ground arith

reserved-elim : (b : Bool) (n : ℕ) → b ≡ false → n ≡ 0 → (b || not (n == 0)) ≡ false
reserved-elim b n h k = ground arith

pub clear-intro : (n : ℕ) → not (n == 0) ≡ false → n ≡ 0
clear-intro n h = ground arith

pub clear-elim : (n : ℕ) → n ≡ 0 → not (n == 0) ≡ false
clear-elim n h = ground arith

supported-intro : (p : Bool) (n : ℕ) → (not p && not (n == 0)) ≡ false → n ≢ 0 → p ≡ true
supported-intro p n h k = ground arith

supported-elim : (p : Bool) (n : ℕ) → (n ≢ 0 → p ≡ true) → (not p && not (n == 0)) ≡ false
supported-elim true n h = refl
supported-elim false n h = elim (Bool-cases (n == 0)) [
  | inl y ↦ rw y refl
  | inr m ↦ absurd (ground (arith, h (λ e. ground arith)))
]

wsi-intro : (p : Bool) (n : ℕ) → (not p && n == 1) ≡ false → n ≡ 1 → p ≡ true
wsi-intro p n h k = ground arith

wsi-elim : (p : Bool) (n : ℕ) → (n ≡ 1 → p ≡ true) → (not p && n == 1) ≡ false
wsi-elim true n h = refl
wsi-elim false n h = elim (Bool-cases (n == 1)) [
  | inr y ↦ rw y refl
  | inl m ↦ absurd (ground (arith, h (ground arith)))
]

module _ {W : Type 0} (s : Iommu W) (c : ℕ) where
  pub IotinvalClear-intro : iotinval_reserved s c ≡ false → IotinvalClear s c
  unfolding iotinval_reserved
  IotinvalClear-intro h0 =
      let (h1, m) = or-intro _ _ h0 in
      let (h2, n) = or-intro _ _ h1 in
      let (h3, r4) = reserved-intro _ _ h2 in
      let (h4, r3) = reserved-intro _ _ h3 in
      let (h5, r2) = reserved-intro _ _ h4 in
      let (h6, r1) = reserved-intro _ _ h5 in
      record {
        rsvd = clear-intro _ h6;
        rsvd1 = r1;
        rsvd2 = r2;
        rsvd3 = r3;
        rsvd4 = r4;
        nl_supported = supported-intro _ _ n;
        s_supported = supported-intro _ _ m;
      }

  pub IotinvalClear-elim : IotinvalClear s c → iotinval_reserved s c ≡ false
  unfolding iotinval_reserved
  IotinvalClear-elim h =
      let h1 = reserved-elim _ _ (clear-elim _ h.rsvd) h.rsvd1 in
      let h2 = reserved-elim _ _ (reserved-elim _ _ h1 h.rsvd2) h.rsvd3 in
      let h3 = reserved-elim _ _ h2 h.rsvd4 in
      or-elim _ _ (or-elim _ _ h3 (supported-elim _ _ h.nl_supported))
        (supported-elim _ _ h.s_supported)

  pub IodirClear-intro : iodir_reserved c ≡ false → IodirClear s c
  unfolding iodir_reserved
  IodirClear-intro h0 =
      let (h1, r3) = reserved-intro _ _ h0 in
      let (h2, r2) = reserved-intro _ _ h1 in
      let (h3, r1) = reserved-intro _ _ h2 in
      record { rsvd = clear-intro _ h3; rsvd1 = r1; rsvd2 = r2; rsvd3 = r3 }

  pub IodirClear-elim : IodirClear s c → iodir_reserved c ≡ false
  unfolding iodir_reserved
  IodirClear-elim h =
      let h1 = reserved-elim _ _ (clear-elim _ h.rsvd) h.rsvd1 in
      reserved-elim _ _ (reserved-elim _ _ h1 h.rsvd2) h.rsvd3

  pub IofenceClear-intro : iofence_reserved s c ≡ false → IofenceClear s c
  unfolding iofence_reserved
  IofenceClear-intro h0 =
      let (h1, w) = or-intro _ _ h0 in
      let (h2, r1) = reserved-intro _ _ h1 in
      record { reserved = clear-intro _ h2; reserved1 = r1; wsi_allowed = wsi-intro _ _ w }

  pub IofenceClear-elim : IofenceClear s c → iofence_reserved s c ≡ false
  unfolding iofence_reserved
  IofenceClear-elim h =
      or-elim _ _ (reserved-elim _ _ (clear-elim _ h.reserved) h.reserved1)
        (wsi-elim _ _ h.wsi_allowed)

  pub AtsClear-intro : ats_reserved s c ≡ false → AtsClear s c
  unfolding ats_reserved
  AtsClear-intro h0 =
      let (h1, r1) = reserved-intro _ _ h0 in
      let (h2, r) = reserved-intro _ _ h1 in
      record { ats_supported = not-not _ h2; rsvd = r; rsvd1 = r1 }

  pub AtsClear-elim : AtsClear s c → ats_reserved s c ≡ false
  unfolding ats_reserved
  AtsClear-elim h = reserved-elim _ _ (reserved-elim _ _ (rw h.ats_supported refl) h.rsvd) h.rsvd1

  pub PidFits-intro : pid_too_wide s (get_bits 31 12 c) ≡ false → PidFits s c
  PidFits-intro h = pid_intro _ _ _ h

  pub PidFits-elim : PidFits s c → pid_too_wide s (get_bits 31 12 c) ≡ false
  PidFits-elim h = pid_elim _ _ _ h
