-- ===== src/Prelude/Words.antt =====
-- Fields of machine words: shifts, masks and single bits, written so that arithmetic reads them.
use Prim.Native.Nat.{ℕ, ◌+◌, ◌*◌, ◌/◌, ◌%◌, ◌^◌, ◌-◌}
use mathlib.Core.Bool.{Bool, true, false}
use riscv_iommu_dv_model.Prelude.Tests.{◌==◌}

-- `x & ((1 << k) - 1)`
abbrev pub low_bits : ℕ → ℕ → ℕ
low_bits x k = x % 2 ^ k

-- `x & ~((1 << k) - 1)`
abbrev pub clear_low : ℕ → ℕ → ℕ
clear_low x k = x / 2 ^ k * 2 ^ k

-- `x & (1 << k)` as a test
abbrev pub test_bit : ℕ → ℕ → Bool
test_bit x k = (x / 2 ^ k) % 2 == 1

-- `get_bits(ms, ls, x)` of iommu_utils.h
abbrev pub get_bits : ℕ → ℕ → ℕ → ℕ
get_bits ms ls x = (x / 2 ^ ls) % 2 ^ (ms - ls + 1)

-- A one-bit field, or a flag, as the number that C computes with.
abbrev pub bit : Bool → ℕ
bit true = 1
bit false = 0
