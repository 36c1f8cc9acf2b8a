-- ===== src/Hpm.antt =====
-- The performance monitor: `count_events` of iommu_ref_model/libiommu/src/iommu_hpm.c.
pub mod Counters
pub mod Frame
use riscv_iommu_dv_model.Prelude.{
  ℕ, zero, suc, ◌+◌, ◌-◌, ◌%◌, ◌^◌, bit_and, bit_xor, Bool, true, false, not, ◌&&◌, ◌||◌, List,
  ◌==◌, ltb, if◌then◌else◌, get_or, set, modify, test_bit,
}
use riscv_iommu_dv_model.Iommu.{Iommu}
use riscv_iommu_dv_model.Iommu.Platform.{Platform}
use riscv_iommu_dv_model.Iommu.Regs.{Iohpmevt}
use riscv_iommu_dv_model.Fault.{hpm, generate_interrupt}

-- The arguments of `count_events` after `iommu`.
pub record Event : Type 0 where
  pub pv : ℕ
  pub pid : ℕ
  pub pscv : ℕ
  pub pscid : ℕ
  pub did : ℕ
  pub gscv : ℕ
  pub gscid : ℕ
  pub event_id : ℕ

abbrev no_selector : Iohpmevt
no_selector = record {
  event_id = 0;
  dmask = false;
  pid_pscid = 0;
  did_gscid = 0;
  pv_pscv = false;
  dv_gscv = false;
  idt = false;
  of_bit = false;
}

-- `mask`, a uint32_t: the bits of DID_GSCID that have to match.
pub id_mask : Iohpmevt → ℕ
id_mask e =
    if e.dmask then 2 ^ 32 - 1 - bit_xor e.did_gscid ((e.did_gscid + 1) % 2 ^ 32) else 0xFFFFFF

-- The event and the filters of one event selector.
pub selects : Iohpmevt → Event → Bool
selects e v =
    let mask = id_mask e in
    let same = λ (id : ℕ). bit_and e.did_gscid mask == bit_and id mask in
    if not (e.event_id == v.event_id)
    then false
    else if not e.idt
    then (not e.pv_pscv || (not (v.pv == 0) && e.pid_pscid == v.pid))
      && (not e.dv_gscv || same v.did)
    else (not e.pv_pscv || (not (v.pscv == 0) && e.pid_pscid == v.pscid))
      && (not e.dv_gscv || (not (v.gscv == 0) && same v.gscid))

-- `count`: the counter after one event more.
pub next_count : ℕ → ℕ → ℕ
next_count hpmctr_bits counter =
    let n = (counter + 1) % 2 ^ 64 in if hpmctr_bits == 64 then n else n % 2 ^ hpmctr_bits

abbrev set_of : Iohpmevt → Iohpmevt
set_of e = record e { of_bit = true }

module _ {W : Type 0} where
  abbrev pub selector : Iommu W → ℕ → Iohpmevt
  selector s i = get_or s.reg_file.iohpmevt i no_selector

  abbrev pub counter : Iommu W → ℕ → ℕ
  counter s i = get_or s.reg_file.iohpmctr i 0

  -- Whether the counter with index `i` counts the event.
  abbrev pub counts : Iommu W → Event → ℕ → Bool
  counts s v i = not (test_bit s.reg_file.iocountinh i) && selects (selector s i) v

  -- The counter with index `i` after the event, and with its OF bit set.
  abbrev pub counted : Iommu W → ℕ → Iommu W
  counted s i =
      let r = s.reg_file in
      record s {
        reg_file = record r {
          iohpmctr = set r.iohpmctr i (next_count s.hpmctr_bits (counter s i));
        };
      }

  abbrev pub overflowed : Iommu W → ℕ → Iommu W
  overflowed s i =
      let t = counted s i in
      let r = t.reg_file in
      record t { reg_file = record r { iohpmevt = modify r.iohpmevt i set_of } }

module _ {W : Type 0} (P : Platform W) (v : Event) where
  -- The body of the loop.
  unfoldable pub count_one : Iommu W → ℕ → Iommu W
  count_one s i =
      if not (counts s v i)
      then s
      else if ltb (next_count s.hpmctr_bits (counter s i)) (counter s i)
          && not (selector s i).of_bit
      then generate_interrupt P (overflowed s i) hpm
      else counted s i

  -- The loop, from index `i` on for `n` rounds.
  unfoldable pub count_from : (n i : ℕ) → Iommu W → Iommu W
  count_from zero i s = s
  count_from (suc n) i s = count_from n (i + 1) (count_one s i)

  -- `count_events`
  unfoldable pub count_events : Iommu W → Iommu W
  count_events s = if not s.reg_file.capabilities.hpm then s else count_from s.num_hpm 0 s
