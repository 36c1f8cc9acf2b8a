-- ===== src/Msi.antt =====
-- MSI address translation: `extract` and `msi_address_translation` of
-- iommu_ref_model/libiommu/src/iommu_msi_trans.c.
pub mod Extract
pub mod Outcome
use riscv_iommu_dv_model.Prelude.{
  ℕ, zero, suc, ◌+◌, ◌-◌, ◌*◌, ◌/◌, ◌%◌, ◌^◌, Bool, true, false, not, ◌&&◌, ◌||◌, ◌==◌,
  if◌then◌else◌, ltb, bit_and, bit_or, clear_low, get_bits, test_bit,
}
use riscv_iommu_dv_model.Iommu.{Iommu}
use riscv_iommu_dv_model.Iommu.Platform.{Platform}
use riscv_iommu_dv_model.Iommu.Pte.{Pte}
use riscv_iommu_dv_model.Iommu.Regs.{Capabilities}
use riscv_iommu_dv_model.Iommu.Caches.{DeviceContext}
use riscv_iommu_dv_model.Fault
use riscv_iommu_dv_model.Fault.{is_access_fault, is_data_corruption}

-- The loop of `extract`, with `n` passes to go, `x` for `data` and `out` for `I`.
unfoldable pub extract_from : (x mask n i j out : ℕ) → ℕ
extract_from x mask zero i j out = out
extract_from x mask (suc n) i j out =
    let taken = extract_from x mask n (i + 1) (j + 1) (bit_or out (x / 2 ^ i % 2 * 2 ^ j)) in
    let skipped = extract_from x mask n (i + 1) j out in if test_bit mask i then taken else skipped

unfoldable pub extract : (x mask : ℕ) → ℕ
extract x mask = extract_from x mask 64 0 0 0

-- `mgpaw`, less the 12 bits of a page.
unfoldable pub mgpaw : Capabilities → ℕ
mgpaw c =
    let width =
      if c.sv57x4
      then 59
      else if c.sv48x4
      then 50
      else if c.sv39x4
      then 41
      else if c.sv32x4
      then 34
      else if ltb 12 c.pas
      then c.pas
      else 12 in
    width - 12

-- `msi_addr_mask.mask` and `msi_addr_pattern.pattern`
abbrev pub address_mask : DeviceContext → ℕ
address_mask dc = get_bits 51 0 dc.msi_addr_mask

abbrev pub address_pattern : DeviceContext → ℕ
address_pattern dc = get_bits 51 0 dc.msi_addr_pattern

-- `*is_msi`
unfoldable pub is_msi : Capabilities → DeviceContext → (gpa : ℕ) → Bool
is_msi c dc gpa =
    let high = 2 ^ mgpaw c - 1 in
    let others = 2 ^ 64 - 1 - address_mask dc in
    bit_and (bit_and (gpa / 2 ^ 12) others) high
    == bit_and (bit_and (address_pattern dc) others) high

-- The address of the entry, `m | (I * 16)`.
unfoldable pub msipte_addr : Capabilities → DeviceContext → (gpa : ℕ) → ℕ
msipte_addr c dc gpa =
    let file = extract (gpa / 2 ^ 12) (bit_and (address_mask dc) (2 ^ mgpaw c - 1)) in
    bit_or (get_bits 43 0 dc.msiptp * 4096) (file * 16 % 2 ^ 64)

-- The entry that stands for an MSI entry, in both modes.
unfoldable pub msi_gpte : (gpa : ℕ) → Pte
msi_gpte gpa = record {
  v = 1;
  r = 1;
  w = 1;
  x = 0;
  u = 1;
  g = 0;
  a = 1;
  d = 1;
  rsw = 0;
  ppn = gpa / 4096 % 2 ^ 44;
  reserved = 0;
  rsw60t59b = 0;
  pbmt = 0;
  n = 0;
}

-- How the function ends: with `*is_msi` 0, with a cause, or with a translation, in the mode for reads and
-- writes or to a memory-resident interrupt file. `*iotval2` is 0 in all of them, `*page_sz` is 4096 in
-- the last two; what else is stored before a cause is reported is left out.
pub data MsiOutcome : Type 0 where
  not_msi : MsiOutcome
  msi_fault : (cause : ℕ) → MsiOutcome
  translate_rw : (pa : ℕ) → Pte → MsiOutcome
  mrif : (dest_mrif_addr mrif_nid pa : ℕ) → Pte → MsiOutcome

-- From `msipte.V == 0` on, for the 16 bytes of the entry. The field MRIF_ADDR_55_9 has 47 bits, and its shift
-- keeps them.
unfoldable pub interpret_msipte :
    Capabilities → (gpa : ℕ) → (is_exec check_access_perms : Bool) → (raw : ℕ) → MsiOutcome
interpret_msipte c gpa is_exec check_access_perms raw =
    let mode = get_bits 2 1 raw in
    let refused = is_exec && check_access_perms in
    if not (test_bit raw 0)
    then msi_fault 262
    else if test_bit raw 63
    then msi_fault 263
    else if mode == 0 || mode == 2
    then msi_fault 263
    else if mode == 3 && (not (get_bits 62 54 raw == 0) || not (get_bits 9 3 raw == 0))
    then msi_fault 263
    else if mode == 3 && refused
    then msi_fault 1
    else if mode == 3
    then translate_rw (bit_or (get_bits 53 10 raw * 4096) (gpa % 4096)) (msi_gpte gpa)
    else if not c.msi_mrif
    then msi_fault 263
    else if not (get_bits 6 3 raw == 0)
        || not (get_bits 62 54 raw == 0)
        || not (get_bits 123 118 raw == 0)
        || not (get_bits 127 125 raw == 0)
    then msi_fault 263
    else if refused
    then msi_fault 1
    else mrif (get_bits 53 7 raw * 2 ^ 9 % 2 ^ 47)
        (bit_or (get_bits 124 124 raw * 2 ^ 10) (get_bits 73 64 raw)) (get_bits 117 74 raw * 4096)
        (msi_gpte gpa)

module _ {W : Type 0} (P : Platform W) where
  unfoldable pub msi_address_translation :
      Iommu W
      → (gpa : ℕ) → (is_exec : Bool) → DeviceContext
      → (check_access_perms : Bool) → (rcid mcid : ℕ) → MsiOutcome × Iommu W
  msi_address_translation s gpa is_exec dc check_access_perms rcid mcid =
      let c = s.reg_file.capabilities in
      let addr = msipte_addr c dc gpa in
      let (status, raw, w) =
        if clear_low addr c.pas == 0
        then P.read_memory
            (record {
              addr = addr;
              size = 16;
              rcid = rcid;
              mcid = mcid;
              pma = 0;
              big_endian = s.reg_file.fctl.be;
            })
            s.world
        else (Fault.access_fault, 0, s.world) in
      let t : Iommu W = record s { world = w } in
      if get_bits 63 60 dc.msiptp == 0
      then (not_msi, s)
      else if not (is_msi c dc gpa)
      then (not_msi, s)
      else if is_access_fault status
      then (msi_fault 261, t)
      else if is_data_corruption status
      then (msi_fault 270, t)
      else (interpret_msipte c gpa is_exec check_access_perms raw, t)
