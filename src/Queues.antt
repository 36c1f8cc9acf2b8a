-- ===== src/Queues.antt =====
-- The command, fault and page-request queues: what their registers hold at every point between two
-- calls of the functions of iommu_ref_model/libiommu/src, from `reset_iommu` on.
pub mod Faults
pub mod Writes
pub mod Fences
pub mod Commands
pub mod Pages
pub mod Reach
use native.Mathlib.Nat.{mod-lt, one-le-pow}
use riscv_iommu_dv_model.Prelude.{
  ℕ, ◌+◌, ◌^◌, ◌%◌, ◌<◌, ◌≡◌, refl, Bool, true, false, arith, low_bits, get_bits, if◌then◌else◌,
}
use riscv_iommu_dv_model.Iommu.{Iommu}
use riscv_iommu_dv_model.Iommu.Regs.{RegFile}
use riscv_iommu_dv_model.Fault.Queue.{entries, entries_bounds}

-- A queue is off; it is on; or it was turned off while it may not stop yet, and is busy until it
-- does. The index is the one that the IOMMU moves: in a queue that is on, it is in the ring.
pub data IsSwitched (en on busy : Bool) (log2szm1 index : ℕ) : Type 0 where
  off : en ≡ false → on ≡ false → busy ≡ false → IsSwitched en on busy log2szm1 index
  running :
      en ≡ true
      → on ≡ true
      → busy ≡ false
      → index < entries log2szm1
      → IsSwitched en on busy log2szm1 index
  draining :
      en ≡ false
      → on ≡ true
      → busy ≡ true
      → index < entries log2szm1
      → IsSwitched en on busy log2szm1 index

-- The size fits its field of 5 bits, and the index that software moves is in the ring.
abbrev pub IsSized : (log2szm1 index : ℕ) → Type 0
IsSized log2szm1 index = (log2szm1 < 32) × (index < entries log2szm1)

-- The three queues. Only the command queue can drain: the other two are never busy.
abbrev pub IsQueues : RegFile → Type 0
IsQueues r =
    (IsSized r.cqb.log2szm1 r.cqt
      × IsSwitched r.cqcsr.cqen r.cqcsr.cqon r.cqcsr.busy r.cqb.log2szm1 r.cqh)
    × (IsSized r.fqb.log2szm1 r.fqh
        × IsSwitched r.fqcsr.fqen r.fqcsr.fqon r.fqcsr.busy r.fqb.log2szm1 r.fqt
        × (r.fqcsr.busy ≡ false))
    × (IsSized r.pqb.log2szm1 r.pqh
        × IsSwitched r.pqcsr.pqen r.pqcsr.pqon r.pqcsr.busy r.pqb.log2szm1 r.pqt
        × (r.pqcsr.busy ≡ false))

-- What a write or a wrap-around puts into an index is in the ring.
pub low_bits-entries : (x k : ℕ) → low_bits x (k + 1) < entries k
low_bits-entries x k = mod-lt x (one-le-pow (k + 1) 2 (omega arith))

module _ {W : Type 0} where
  -- Both branches keep a property of the state.
  pub if_keeps :
      (Q : Iommu W → Type 0) (b : Bool) (s t : Iommu W) → Q s → Q t → Q (if b then s else t)
  if_keeps Q true s t h k = h
  if_keeps Q false s t h k = k
