-- ===== src/Atc.antt =====
-- The address translation caches, iommu_ref_model/libiommu/src/iommu_atc.c: device contexts, process
-- contexts and translations. Each cache is an array of two entries; the model takes any length.
pub mod Replace
pub mod Keyed
pub mod Device
pub mod Process
pub mod Iotlb
use riscv_iommu_dv_model.Prelude.{
  ℕ, zero, suc, ◌+◌, ◌-◌, ◌*◌, ◌%◌, ◌^◌, ◌/◌, bit_and, bit_or, bit_xor, Bool, true, false, not,
  ◌&&◌, ◌||◌, List, [], ◌∷◌, map, Option, none, some, ◌==◌, ltb, if◌then◌else◌, find, modify,
}
use riscv_iommu_dv_model.Iommu.{Iommu}
use riscv_iommu_dv_model.Iommu.Caches.{Tlb, DeviceContext, ProcessContext, DdtCache, PdtCache}
use riscv_iommu_dv_model.Iommu.Pte.{Pte}
use riscv_iommu_dv_model.Address.{not64, match_address_range}

-- The second loop of the three insertions, over the `lru` of the entries from index `i` on:
-- `if ( lru_i < lru ) { replace = i; lru = lru_i; }`
pub oldest : ℕ → ℕ → ℕ → List ℕ → ℕ
oldest i lru replace [] = replace
oldest i lru replace (x ∷ xs) =
    let older = ltb x lru in
    oldest (i + 1) (if older then x else lru) (if older then i else replace) xs

-- The entry that an insertion replaces: the first one that is not valid, else the one used longest
-- ago, else the initial value of `replace`.
pub replaced : List ℕ → List ℕ → ℕ → ℕ
replaced valids lrus initial = elim (find (λ v. v == 0) valids) [
  | some (i, _) ↦ i
  | none ↦ oldest 0 0xFFFFFFFF initial lrus
]

-- `cache_ioatc_dc`. In C `replace` has no initial value here; the argument stands for what it holds.
unfoldable pub cache_ioatc_dc : {W : Type 0} → Iommu W → ℕ → DeviceContext → ℕ → Iommu W
cache_ioatc_dc s device_id dc uninitialized =
    let c = s.ddt_cache in
    let i = replaced (map DdtCache.valid c) (map DdtCache.lru c) uninitialized in
    record s { ddt_cache = modify c i (λ e. record e { dc = dc; did = device_id; valid = 1 }) }

abbrev pub dc_matches : ℕ → DdtCache → Bool
dc_matches device_id e = e.valid == 1 && e.did == device_id

-- `lookup_ioatc_dc`: the device context of a hit.
unfoldable pub lookup_ioatc_dc : {W : Type 0} → Iommu W → ℕ → Option DeviceContext × Iommu W
lookup_ioatc_dc s device_id = elim (find (dc_matches device_id) s.ddt_cache) [
  | none ↦ (none, s)
  | some (i, e) ↦ (
    some e.dc,
    record s {
      ddt_cache = modify s.ddt_cache i (λ e. record e { lru = s.dc_lru_time });
      dc_lru_time = (s.dc_lru_time + 1) % 2 ^ 32;
    },
  )
]

-- `cache_ioatc_pc`
pub cache_ioatc_pc : {W : Type 0} → Iommu W → ℕ → ℕ → ProcessContext → Iommu W
cache_ioatc_pc s device_id process_id pc =
    let c = s.pdt_cache in
    let i = replaced (map PdtCache.valid c) (map PdtCache.lru c) 0 in
    record s {
      pdt_cache =
          modify c i (λ e. record e { pc = pc; did = device_id; pid = process_id; valid = 1 });
    }

abbrev pub pc_matches : ℕ → ℕ → PdtCache → Bool
pc_matches device_id process_id e = e.valid == 1 && e.did == device_id && e.pid == process_id

-- `lookup_ioatc_pc`
unfoldable pub lookup_ioatc_pc : {W : Type 0} → Iommu W → ℕ → ℕ → Option ProcessContext × Iommu W
lookup_ioatc_pc s device_id process_id = elim (find (pc_matches device_id process_id) s.pdt_cache) [
  | none ↦ (none, s)
  | some (i, e) ↦ (
    some e.pc,
    record s {
      pdt_cache = modify s.pdt_cache i (λ e. record e { lru = s.pc_lru_time });
      pc_lru_time = (s.pc_lru_time + 1) % 2 ^ 32;
    },
  )
]
