-- ===== src/PageTable/Physical.antt =====
-- `physical` of iommu_ref_model/libiommu/src/iommu_second_stage_trans.c: the address that a page and
-- an offset make.
use Prim.Native.Nat.{max, bit_or-bitwise}
use native.Mathlib.Nat.{
  le_refl, pow-suc, div-div-eq-div-mul, mul_comm, div-add-mod, mod-lt, pow-le-pow_right,
}
use mathlib.Core.Path.{subst}
use riscv_iommu_dv_model.Prelude.{
  ℕ, zero, suc, ◌+◌, ◌-◌, ◌*◌, ◌/◌, ◌%◌, ◌^◌, ◌≤◌, ◌<◌, bit_and, bit_or, ◌≡◌, refl, ◌∙◌, sym, ap,
  arith,
}
use riscv_iommu_dv_model.Address.Bits.{
  lowest_digit, bit_and_digit, bit_and_high, pow_pos, half_ones,
}
use riscv_iommu_dv_model.PageTable.{physical}

pub bit_or_digit : (a b : ℕ) → bit_or a b ≡ bit_or (a / 2) (b / 2) * 2 + max (a % 2) (b % 2)
bit_or_digit zero b = simp bit_or-bitwise (omega arith)
bit_or_digit (suc a) b = simp bit_or-bitwise (lowest_digit (λ y. y) max a b)

-- The laws of `|` and of masks of ones.
max_zero : (a : ℕ) → (max a 0 ≡ a) × (max 0 a ≡ a)
max_zero a = (omega arith, omega arith)

pub bit_or_zero_fuel : (n a : ℕ) → a ≤ n → bit_or a 0 ≡ a
bit_or_zero_fuel n zero h = refl
bit_or_zero_fuel zero (suc a) h = absurd (omega arith)
bit_or_zero_fuel (suc n) (suc a) h =
    bit_or_digit (suc a) 0
    ∙ omega (arith, bit_or_zero_fuel n (suc a / 2) (omega arith), (max_zero (suc a % 2)).0)

pub bit_or_disjoint : (k x y : ℕ) → y < 2 ^ k → bit_or (x * 2 ^ k) y ≡ x * 2 ^ k + y
bit_or_disjoint zero x y h =
    rw (let e : y ≡ 0 = omega arith in e)
      (bit_or_zero_fuel (x * 1) (x * 1) (le_refl _) ∙ omega arith)
bit_or_disjoint (suc k) x y h =
    let m = 2 ^ k in
    let a = x * m in
    let e : x * (m * 2) ≡ a * 2 = omega arith in
    let half : a * 2 / 2 ≡ a = omega arith in
    let even : a * 2 % 2 ≡ 0 = omega arith in
    let below : y / 2 < m = omega (arith, pow-suc 2 k) in
    rw
      (
        pow-suc 2 k,
        e,
        bit_or_digit (a * 2) y,
        half,
        even,
        bit_or_disjoint k x (y / 2) below,
        (max_zero (y % 2)).1,
      )
      (omega arith)

bit_and_zero_fuel : (n a : ℕ) → a ≤ n → bit_and a 0 ≡ 0
bit_and_zero_fuel n zero h = refl
bit_and_zero_fuel zero (suc a) h = absurd (omega arith)
bit_and_zero_fuel (suc n) (suc a) h =
    bit_and_digit (suc a) 0 ∙ omega (arith, bit_and_zero_fuel n (suc a / 2) (omega arith))

-- The remainder by an even number, from that of the half.
mod_double : (m x : ℕ) → x % (m * 2) ≡ x / 2 % m * 2 + x % 2
mod_double m x =
    let e : x / (m * 2) ≡ x / 2 / m =
      ap (λ y. x / y) (mul_comm m 2) ∙ sym (div-div-eq-div-mul x 2 m) in
    let f : m * 2 * (x / 2 / m) + x % (m * 2) ≡ x =
      subst (λ y. m * 2 * y + x % (m * 2) ≡ x) e (div-add-mod x (m * 2)) in
    let g = div-add-mod (x / 2) m in omega arith

pub bit_and_low : (k x : ℕ) → bit_and x (2 ^ k - 1) ≡ x % 2 ^ k
bit_and_low zero x = bit_and_zero_fuel x x (le_refl _) ∙ omega arith
bit_and_low (suc k) x =
    let m = 2 ^ k in
    let (half, odd) = half_ones m (pow_pos k) in
    rw (pow-suc 2 k, bit_and_digit x (m * 2 - 1), half, odd, bit_and_low k (x / 2))
      (omega (arith, mod_double m x))

-- A page of `2 ^ k` bytes gives the high digits, the address the `k` low ones.
pub physical_lem :
    (k ppn addr : ℕ)
    → k ≤ 64
    → ppn < 2 ^ 52
    → physical ppn (2 ^ k) addr ≡ ppn * 4096 / 2 ^ k * 2 ^ k + addr % 2 ^ k
unfolding physical
physical_lem k ppn addr h b =
    let m = 2 ^ k in
    let above : m ≤ 2 ^ 64 = pow-le-pow_right {n = 2} (omega arith) {i = k} {j = 64} h in
    let page : ppn * 4096 % 2 ^ 64 ≡ ppn * 4096 = omega arith in
    let ones : (m + 2 ^ 64 - 1) % 2 ^ 64 ≡ m - 1 = omega (arith, pow_pos k) in
    let zeros : 2 ^ 64 - 1 - (m - 1) ≡ 2 ^ 64 - m = omega (arith, pow_pos k) in
    let high = bit_and_high k 64 (ppn * 4096) h (omega arith) in
    rw (page, ones, zeros, high, bit_and_low k addr)
      (bit_or_disjoint k (ppn * 4096 / m) (addr % m) (mod-lt addr (pow_pos k)))
