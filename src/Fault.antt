-- ===== src/Fault.antt =====
-- Fault reporting and interrupts: `report_fault` of iommu_faults.c, and `do_msi`,
-- `generate_interrupt` and `release_pending_interrupt` of iommu_interrupt.c, all under
-- iommu_ref_model/libiommu/src. In C these call one another in a circle: an interrupt may write an
-- MSI, an MSI write that faults is reported as a fault, and a reported fault raises an interrupt.
-- Here each function takes what closes the circle as the argument `raise`, and
-- `generate_interrupt_fuel` ties the knot with a bound on the depth of the calls.
pub mod Record
pub mod Fuel
pub mod Relation
pub mod Queue
pub mod Frame
pub mod Report
pub mod Interrupt
use riscv_iommu_dv_model.Prelude.{
  ℕ, zero, suc, ◌+◌, ◌-◌, ◌*◌, ◌^◌, ◌%◌, bit_or, Bool, true, false, not, ◌&&◌, ◌||◌, List, ◌==◌,
  if◌then◌else◌, Option, none, some, get_or, set, clear_low, low_bits, test_bit,
}
use mathlib.Core.Option
use riscv_iommu_dv_model.Iommu.{Iommu}
use riscv_iommu_dv_model.Iommu.Platform.{Platform, Access}
use riscv_iommu_dv_model.Iommu.Regs.{MsiCfg}
use Record.{Fault, FaultRec, fault_rec_raw, frec_of}

-- The `unit` of an interrupt. `default` of the C switch is the performance monitor.
pub data IntUnit : Type 0 where
  command_queue fault_queue hpm page_queue : IntUnit

-- The arguments that all accesses of the IOMMU itself share: the QoS ids, PMA and `fctl.be`.
abbrev pub own_access : {W : Type 0} → Iommu W → ℕ → ℕ → Access
own_access s addr size = record {
  addr = addr;
  size = size;
  rcid = s.reg_file.rcid;
  mcid = s.reg_file.mcid;
  pma = 0;
  big_endian = s.reg_file.fctl.be;
}

-- The index after `i` in a queue of `2 ^ (log2szm1 + 1)` entries; `i + 1` is an addition of uint32_t.
abbrev pub next_index : ℕ → ℕ → ℕ
next_index i log2szm1 = low_bits ((i + 1) % 2 ^ 32) (log2szm1 + 1)

-- The bits of a status that the platform returns.
abbrev pub access_fault : ℕ
access_fault = 0x01

abbrev pub is_access_fault : ℕ → Bool
is_access_fault status = test_bit status 0

abbrev pub is_data_corruption : ℕ → Bool
is_data_corruption status = test_bit status 1

-- The causes that are reported although DTF is 1.
abbrev pub reported_with_dtf : ℕ → Bool
reported_with_dtf cause =
    cause == 256
    || cause == 257
    || cause == 258
    || cause == 259
    || cause == 268
    || cause == 272
    || cause == 273

-- The checks before a record is made: the queue is on and enabled, no sticky error is set, and DTF
-- does not suppress the cause.
pub accepts : {W : Type 0} → Iommu W → Fault → Bool
accepts s f =
    let c = s.reg_file.fqcsr in
    if not c.fqon || not c.fqen
    then false
    else if c.fqmf
    then false
    else if c.fqof
    then false
    else not (f.dtf == 1 && not (reported_with_dtf f.cause))

abbrev pub fq_is_full : {W : Type 0} → Iommu W → Bool
fq_is_full s = next_index s.reg_file.fqt s.reg_file.fqb.log2szm1 == s.reg_file.fqh

abbrev pub frec_addr : {W : Type 0} → Iommu W → ℕ
frec_addr s = bit_or (s.reg_file.fqb.ppn * 4096 % 2 ^ 64) (s.reg_file.fqt * 32 % 2 ^ 64)

-- The fault that a failed MSI write is reported as.
abbrev pub msi_write_fault : ℕ → Fault
msi_write_fault msi_addr = record {
  cause = 273;
  iotval = msi_addr;
  iotval2 = 0;
  ttyp = 0;
  dtf = 0;
  device_id = 0;
  pid_valid = 0;
  process_id = 0;
  priv_req = 0;
}

-- `msi_cfg_tbl[vec]`; the table has 16 entries, and a vector has 4 bits.
abbrev pub msi_cfg : {W : Type 0} → Iommu W → ℕ → MsiCfg
msi_cfg s vec = get_or s.reg_file.msi_cfg_tbl vec (record { msi_addr = 0; msi_data = 0; m = false })

-- The switch of `generate_interrupt`: the interrupt is dropped (`none`) where it is pending or
-- disabled; otherwise its pending bit is set and its vector returned.
unfoldable pub mark_pending : {W : Type 0} → Iommu W → IntUnit → Option (Iommu W × ℕ)
mark_pending s fault_queue =
    let r = s.reg_file in
    let p = r.ipsr in
    if p.fip
    then none
    else if not r.fqcsr.fie
    then none
    else some (record s { reg_file = record r { ipsr = record p { fip = true } } }, r.icvec.fiv)
mark_pending s page_queue =
    let r = s.reg_file in
    let p = r.ipsr in
    if p.pip
    then none
    else if not r.pqcsr.pie
    then none
    else some (record s { reg_file = record r { ipsr = record p { pip = true } } }, r.icvec.piv)
mark_pending s command_queue =
    let r = s.reg_file in
    let p = r.ipsr in
    if p.cip
    then none
    else if not r.cqcsr.cie
    then none
    else some (record s { reg_file = record r { ipsr = record p { cip = true } } }, r.icvec.civ)
mark_pending s hpm =
    let r = s.reg_file in
    let p = r.ipsr in
    if p.pmip
    then none
    else some (record s { reg_file = record r { ipsr = record p { pmip = true } } }, r.icvec.pmiv)

module _ {W : Type 0} (P : Platform W) where
  -- A store by the IOMMU itself, refused where the address is wider than `capabilities.pas`.
  pub own_write : Iommu W → ℕ → ℕ → ℕ → ℕ × W
  own_write s data_word addr size =
      if clear_low addr s.reg_file.capabilities.pas == 0
      then P.write_memory data_word (own_access s addr size) s.world
      else (access_fault, s.world)

  -- The last part of `report_fault`: the record goes to memory, and the tail advances or `fqmf` is set.
  unfoldable pub store_frec : Iommu W → Fault → Iommu W
  store_frec s f =
      let (status, w) = own_write s (fault_rec_raw (frec_of f)) (frec_addr s) 32 in
      let r = s.reg_file in
      let c = r.fqcsr in
      if is_access_fault status || is_data_corruption status
      then record s { world = w; reg_file = record r { fqcsr = record c { fqmf = true } } }
      else record s { world = w; reg_file = record r { fqt = next_index r.fqt r.fqb.log2szm1 } }

  -- What `report_fault` does before it raises the interrupt; `none` where it returns without one.
  unfoldable pub queue_fault : Iommu W → Fault → Option (Iommu W)
  queue_fault s f =
      let r = s.reg_file in
      let c = r.fqcsr in
      if not (accepts s f)
      then none
      else if fq_is_full s
      then some (record s { reg_file = record r { fqcsr = record c { fqof = true } } })
      else some (store_frec s f)

  module _ (raise : Iommu W → IntUnit → Option (Iommu W)) where
    -- `report_fault`
    pub report_fault_with : Iommu W → Fault → Option (Iommu W)
    report_fault_with s f = elim (queue_fault s f) [
      | none ↦ some s
      | some s' ↦ raise s' fault_queue
    ]

    -- `do_msi`; only an access fault is reported, as cause 273.
    pub do_msi_with : Iommu W → ℕ → ℕ → Option (Iommu W)
    do_msi_with s msi_data msi_addr =
        let (status, w) = own_write s msi_data msi_addr 4 in
        let s' = record s { world = w } in
        if is_access_fault status then report_fault_with s' (msi_write_fault msi_addr) else some s'

    -- The part of `generate_interrupt` after its switch: the MSI of the vector, or its pending mark.
    pub signal_with : Iommu W → ℕ → Option (Iommu W)
    signal_with s vec =
        let cfg = msi_cfg s vec in
        if s.reg_file.fctl.wsi
        then some s
        else if cfg.m
        then some (record s { msi_pending = set s.msi_pending vec 1 })
        else do_msi_with s cfg.msi_data cfg.msi_addr

    -- `generate_interrupt`
    pub generate_interrupt_with : Iommu W → IntUnit → Option (Iommu W)
    generate_interrupt_with s unit = elim (mark_pending s unit) [
      | none ↦ some s
      | some (s', vec) ↦ signal_with s' vec
    ]

  -- `generate_interrupt`, with at most `fuel` calls of it open at once. `none` means that it was not
  -- enough.
  pub generate_interrupt_fuel : ℕ → Iommu W → IntUnit → Option (Iommu W)
  generate_interrupt_fuel zero s unit = none
  generate_interrupt_fuel (suc fuel) s unit =
      generate_interrupt_with (generate_interrupt_fuel fuel) s unit

  -- The three functions as their callers see them. `Fuel` shows that a depth of 3 always suffices.
  pub generate_interrupt : Iommu W → IntUnit → Iommu W
  generate_interrupt s unit = Option.get_or (generate_interrupt_fuel 3 s unit) s

  pub report_fault : Iommu W → Fault → Iommu W
  report_fault s f = Option.get_or (report_fault_with (generate_interrupt_fuel 3) s f) s

  pub do_msi : Iommu W → ℕ → ℕ → Iommu W
  do_msi s msi_data msi_addr =
      Option.get_or (do_msi_with (generate_interrupt_fuel 3) s msi_data msi_addr) s

  -- `release_pending_interrupt`
  pub release_pending_interrupt : Iommu W → ℕ → Iommu W
  release_pending_interrupt s vec =
      let cfg = msi_cfg s vec in
      let s' = do_msi s cfg.msi_data cfg.msi_addr in
      if get_or s.msi_pending vec 0 == 1
      then record s' { msi_pending = set s'.msi_pending vec 0 }
      else s
