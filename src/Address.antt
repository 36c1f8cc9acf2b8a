-- ===== src/Address.antt =====
-- Address ranges: `match_address_range` of iommu_ref_model/libiommu/src/iommu_utils.c. A page number
-- with S = 1 names a naturally aligned power-of-two range (NAPOT) by its trailing ones.
pub mod Bits
pub mod Napot
use riscv_iommu_dv_model.Prelude.{
  ℕ, ◌+◌, ◌-◌, ◌^◌, ◌%◌, bit_and, bit_xor, Bool, ◌==◌, if◌then◌else◌,
}

-- `~x` on uint64_t
abbrev pub not64 : ℕ → ℕ
not64 x = 2 ^ 64 - 1 - x

-- `(S == 0) ? ~0UL : ~(PN ^ (PN + 1))`
pub range_mask : ℕ → ℕ → ℕ
range_mask pn s = if s == 0 then 2 ^ 64 - 1 else not64 (bit_xor pn ((pn + 1) % 2 ^ 64))

-- `match_address_range`
pub match_address_range : ℕ → ℕ → ℕ → ℕ → Bool
match_address_range vpn vpn_s base_pn s =
    bit_and (bit_and vpn (range_mask base_pn s)) (range_mask vpn vpn_s)
    == bit_and (bit_and base_pn (range_mask base_pn s)) (range_mask vpn vpn_s)
