-- ===== src/PageTable.antt =====
-- Page table entries and the checks on them, which second_stage_address_translation and
-- two_stage_address_translation of iommu_ref_model/libiommu/src make alike.
pub mod Frames
pub mod Align
pub mod Checks
pub mod Physical
use riscv_iommu_dv_model.Prelude.{
  ℕ, zero, suc, ◌+◌, ◌-◌, ◌*◌, ◌/◌, ◌%◌, ◌^◌, Bool, true, false, not, ◌&&◌, ◌||◌, ◌==◌,
  if◌then◌else◌, bit_and, bit_or, get_bits, test_bit,
}
use riscv_iommu_dv_model.Iommu.Pte.{Pte}
use riscv_iommu_dv_model.Iommu.Regs.{Capabilities}

-- The formats: Sv32, Sv39, Sv48 and Sv57, and the second-stage ones Sv32x4 and so on.
pub data Format : Type 0 where
  sv32 sv39 sv48 sv57 : Format

-- `LEVELS - 1`
unfoldable pub top_of : Format → ℕ
top_of sv32 = 1
top_of sv39 = 2
top_of sv48 = 3
top_of sv57 = 4

-- `PTESIZE`
unfoldable pub pte_size : Format → ℕ
pte_size sv32 = 4
pte_size _ = 8

unfoldable pub pte_of : ℕ → Pte
pte_of raw = record {
  v = get_bits 0 0 raw;
  r = get_bits 1 1 raw;
  w = get_bits 2 2 raw;
  x = get_bits 3 3 raw;
  u = get_bits 4 4 raw;
  g = get_bits 5 5 raw;
  a = get_bits 6 6 raw;
  d = get_bits 7 7 raw;
  rsw = get_bits 9 8 raw;
  ppn = get_bits 53 10 raw;
  reserved = get_bits 58 54 raw;
  rsw60t59b = get_bits 60 59 raw;
  pbmt = get_bits 62 61 raw;
  n = get_bits 63 63 raw;
}

-- `ppn[i]`, for the levels below the root's: those that a superpage leaves out.
unfoldable pub ppn_field : Format → (i raw : ℕ) → ℕ
ppn_field sv32 zero raw = get_bits 19 10 raw
ppn_field sv32 (suc i) raw = get_bits 31 20 raw
ppn_field f zero raw = get_bits 18 10 raw
ppn_field f (suc zero) raw = get_bits 27 19 raw
ppn_field sv39 (suc (suc i)) raw = get_bits 53 28 raw
ppn_field f (suc (suc zero)) raw = get_bits 36 28 raw
ppn_field sv48 (suc (suc (suc i))) raw = get_bits 53 37 raw
ppn_field f (suc (suc (suc zero))) raw = get_bits 45 37 raw
ppn_field f (suc (suc (suc (suc i)))) raw = get_bits 53 46 raw

-- The checks of the switch on `i`, whose cases fall through.
unfoldable pub misaligned : Format → (i raw : ℕ) → Bool
misaligned f zero raw = false
misaligned f (suc i) raw = not (ppn_field f i raw == 0) || misaligned f i raw

-- The page size that the switch leaves.
unfoldable pub page_size_at : Format → (i : ℕ) → ℕ
page_size_at f zero = 4096
page_size_at sv32 (suc i) = 4096 * 512 ^ suc i * 2
page_size_at f (suc i) = 4096 * 512 ^ suc i

unfoldable pub invalid_pte : Capabilities → Pte → Bool
invalid_pte c p =
    p.v == 0
    || (p.r == 0 && p.w == 1)
    || (not (p.pbmt == 0) && not c.svpbmt)
    || p.pbmt == 3
    || not (p.reserved == 0)
    || (not (p.rsw60t59b == 0) && not c.svrsw60t59b)

unfoldable pub is_leaf : Pte → Bool
is_leaf p = p.r == 1 || p.x == 1

-- The fields that a pointer to the next level must not set.
unfoldable pub bad_pointer : Pte → Bool
bad_pointer p = not (p.pbmt == 0) || (not (p.d == 0) || not (p.a == 0) || not (p.u == 0))

unfoldable pub bad_napot : (i : ℕ) → Pte → Bool
bad_napot i p = i == 0 && not (p.n == 0) && not (p.ppn % 16 == 8)

-- The permissions that an access needs of a leaf.
unfoldable pub lacks : (check is_read is_write is_exec : Bool) → Pte → Bool
lacks check is_read is_write is_exec p =
    check && ((is_exec && p.x == 0) || (is_read && p.r == 0) || (is_write && p.w == 0))

-- The word that is written back: A is set, and D where `dirty`.
unfoldable pub marked_word : (dirty : Bool) → (raw : ℕ) → ℕ
marked_word dirty raw =
    let accessed = if test_bit raw 6 then raw else raw + 2 ^ 6 in
    if dirty && not (test_bit raw 7) then accessed + 2 ^ 7 else accessed

-- A NAPOT entry takes the low bits of its page number from the address.
unfoldable pub napot_pte : Pte → (addr : ℕ) → Pte
napot_pte p addr =
    if not (p.n == 0) then record p { ppn = p.ppn / 16 * 16 + (addr / 4096) % 16 } else p

-- `((PPN * PAGESIZE) & ~(page_sz - 1)) | (addr & (page_sz - 1))`, in 64 bits.
unfoldable pub physical : (ppn page_sz addr : ℕ) → ℕ
physical ppn page_sz addr =
    let ones = (page_sz + 2 ^ 64 - 1) % 2 ^ 64 in
    bit_or (bit_and (ppn * 4096 % 2 ^ 64) (2 ^ 64 - 1 - ones)) (bit_and addr ones)
