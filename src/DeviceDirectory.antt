-- ===== src/DeviceDirectory.antt =====
-- The device directory: `locate_device_context` of
-- iommu_ref_model/libiommu/src/iommu_device_context.c.
mod Checks
mod Flags
pub mod Format
pub mod Locate
pub mod Index
unfoldable pub use Checks.*
use riscv_iommu_dv_model.Prelude.{
  ℕ, zero, suc, ◌+◌, ◌*◌, ◌/◌, ◌%◌, ◌^◌, Bool, true, false, not, ◌||◌, ◌==◌, ◌⊎◌, inl, inr,
  if◌then◌else◌, none, some, clear_low, get_bits, test_bit,
}
use riscv_iommu_dv_model.Iommu.{Iommu}
use riscv_iommu_dv_model.Iommu.Platform.{Platform}
use riscv_iommu_dv_model.Iommu.Caches.{DeviceContext}
use riscv_iommu_dv_model.Fault.{own_access, access_fault, is_access_fault, is_data_corruption}
use riscv_iommu_dv_model.Atc.{lookup_ioatc_dc, cache_ioatc_dc}
use riscv_iommu_dv_model.Hpm.{Event, count_events}

-- `DDI[i]`
unfoldable pub ddi : (msi_flat : Bool) → (device_id i : ℕ) → ℕ
ddi false device_id zero = get_bits 6 0 device_id
ddi false device_id (suc zero) = get_bits 15 7 device_id
ddi false device_id (suc (suc i)) = get_bits 23 16 device_id
ddi true device_id zero = get_bits 5 0 device_id
ddi true device_id (suc zero) = get_bits 14 6 device_id
ddi true device_id (suc (suc i)) = get_bits 23 15 device_id

-- The addresses that are read in the table at `a`: of the entry on an upper level `i`, `a + (DDI[i] * 8)`,
-- and of the context, `a + (DDI[0] * DC_SIZE)`; and `DC_SIZE`.
abbrev pub ddte_addr : (msi_flat : Bool) → (device_id i a : ℕ) → ℕ
ddte_addr msi_flat device_id i a = a + ddi msi_flat device_id i * 8

abbrev pub dc_size : (msi_flat : Bool) → ℕ
dc_size msi_flat = if msi_flat then 64 else 32

abbrev pub dc_addr : (msi_flat : Bool) → (device_id a : ℕ) → ℕ
dc_addr msi_flat device_id a = a + ddi msi_flat device_id 0 * dc_size msi_flat

-- `LEVELS - 1`. A mode that names no directory leaves LEVELS uninitialised.
abbrev pub top_level : (iommu_mode uninitialized : ℕ) → ℕ
top_level iommu_mode uninitialized =
    if iommu_mode == 4
    then 2
    else if iommu_mode == 3
    then 1
    else if iommu_mode == 2
    then 0
    else uninitialized

-- The context that a read of `DC_SIZE` bytes leaves in `DC`: a base-format context keeps the other
-- doublewords.
unfoldable pub context_of : (msi_flat : Bool) → ℕ → DeviceContext → DeviceContext
context_of msi_flat raw old = record {
  tc = raw % 2 ^ 64;
  iohgatp = raw / 2 ^ 64 % 2 ^ 64;
  ta = raw / 2 ^ 128 % 2 ^ 64;
  fsc = raw / 2 ^ 192 % 2 ^ 64;
  msiptp = if msi_flat then raw / 2 ^ 256 % 2 ^ 64 else old.msiptp;
  msi_addr_mask = if msi_flat then raw / 2 ^ 320 % 2 ^ 64 else old.msi_addr_mask;
  msi_addr_pattern = if msi_flat then raw / 2 ^ 384 % 2 ^ 64 else old.msi_addr_pattern;
  reserved = if msi_flat then raw / 2 ^ 448 % 2 ^ 64 else old.reserved;
}

-- The event DDT_WALKS.
abbrev pub ddt_walk : (pid_valid process_id device_id : ℕ) → Event
ddt_walk pid_valid process_id device_id = record {
  pv = pid_valid;
  pid = process_id;
  pscv = 0;
  pscid = 0;
  did = device_id;
  gscv = 0;
  gscid = 0;
  event_id = 5;
}

module _ {W : Type 0} (P : Platform W) where
  -- A load at `addr`, refused where `checked` is wider than `capabilities.pas`.
  abbrev pub guarded_read : Iommu W → (checked addr size : ℕ) → ℕ × ℕ × Iommu W
  guarded_read s checked addr size =
      let (status, raw, w) =
        if clear_low checked s.reg_file.capabilities.pas == 0
        then P.read_memory (own_access s addr size) s.world
        else (access_fault, 0, s.world) in
      (status, raw, record s { world = w })

  module _ (pid_valid process_id device_id : ℕ) where
    -- The loop from `step_2` on: the address of the leaf table, or the cause.
    unfoldable pub walk_ddt : (i : ℕ) → Iommu W → (a : ℕ) → (ℕ ⊎ ℕ) × Iommu W
    walk_ddt zero s a = (inr a, s)
    walk_ddt (suc i) s a =
        let t = count_events P (ddt_walk pid_valid process_id device_id) s in
        let (status, ddte, u) =
          guarded_read t a (ddte_addr t.reg_file.capabilities.msi_flat device_id (suc i) a) 8 in
        let rest = walk_ddt i u (get_bits 53 10 ddte * 4096) in
        if is_access_fault status
        then (inl 257, u)
        else if is_data_corruption status
        then (inl 268, u)
        else if not (test_bit ddte 0)
        then (inl 258, u)
        else if not (get_bits 9 1 ddte == 0) || not (get_bits 63 54 ddte == 0)
        then (inl 259, u)
        else rest

    -- From `step_8` on. `old` is what `DC` holds before.
    unfoldable pub load_dc :
        Iommu W → (a : ℕ) → DeviceContext → (uninitialized : ℕ) → (ℕ ⊎ DeviceContext) × Iommu W
    load_dc s a old uninitialized =
        let t = count_events P (ddt_walk pid_valid process_id device_id) s in
        let msi_flat = t.reg_file.capabilities.msi_flat in
        let size = dc_size msi_flat in
        let addr = dc_addr msi_flat device_id a in
        let (status, raw, u) = guarded_read t addr addr size in
        let dc = context_of msi_flat raw old in
        if is_access_fault status
        then (inl 257, u)
        else if is_data_corruption status
        then (inl 268, u)
        else if not (test_bit dc.tc 0)
        then (inl 258, u)
        else if do_device_context_configuration_checks u dc
        then (inl 259, u)
        else (inr dc, cache_ioatc_dc u device_id dc uninitialized)

    -- `locate_device_context`: the cause, or the context. The last two arguments are what `LEVELS - 1`
    -- and `replace` of `cache_ioatc_dc` hold where C leaves them uninitialised.
    unfoldable pub locate_device_context :
        Iommu W → DeviceContext → (no_levels no_slot : ℕ) → (ℕ ⊎ DeviceContext) × Iommu W
    locate_device_context s old no_levels no_slot =
        let (hit, t) = lookup_ioatc_dc s device_id in
        let r = s.reg_file in
        let (leaf, u) =
          walk_ddt (top_level r.ddtp.iommu_mode no_levels) s (r.ddtp.ppn * 4096 % 2 ^ 64) in
        elim hit [
          | some dc ↦ (inr dc, t)
          | none ↦ elim leaf [ inl cause ↦ (inl cause, u) | inr a ↦ load_dc u a old no_slot ]
        ]
