-- ===== src/Msi/Extract.antt =====
-- `extract` of iommu_ref_model/libiommu/src/iommu_msi_trans.c, against the packing of the selected digits.
use Prim.Native.Nat.{max, bit_or-bitwise}
use native.Mathlib.Nat.{le_refl, pow-suc, div-div-eq-div-mul, div-one}
use riscv_iommu_dv_model.Prelude.{
  ℕ, zero, suc, ◌+◌, ◌*◌, ◌/◌, ◌%◌, ◌^◌, ◌≤◌, ◌<◌, ◌≡◌, refl, sym, ap, ◌∙◌, arith, bit_or, test_bit,
  ◌==◌, if◌then◌else◌, Bool-cases, inl, inr,
}
use riscv_iommu_dv_model.PageTable.Physical.{bit_or_digit, bit_or_disjoint, bit_or_zero_fuel}
use riscv_iommu_dv_model.Msi.{extract, extract_from}

-- The digits of `x`, of the `n` lowest, where `mask` has a one, packed at the low end in their order.
unfoldable pub packed : (n x mask : ℕ) → ℕ
packed zero x mask = 0
packed (suc n) x mask =
    let rest = packed n (x / 2) (mask / 2) in if mask % 2 == 1 then x % 2 + 2 * rest else rest

bit_or_zero_left : (b : ℕ) → bit_or 0 b ≡ b
bit_or_zero_left b = simp bit_or-bitwise refl

max_comm : (a b : ℕ) → max a b ≡ max b a
max_comm a b = omega arith

bit_or_comm_fuel : (n a b : ℕ) → a ≤ n → bit_or a b ≡ bit_or b a
bit_or_comm_fuel zero a b h =
    rw (let e : a ≡ 0 = omega arith in e)
      (bit_or_zero_left b ∙ sym (bit_or_zero_fuel b b (le_refl b)))
bit_or_comm_fuel (suc n) a b h =
    bit_or_digit a b
    ∙ ap (λ y. y * 2 + max (a % 2) (b % 2)) (bit_or_comm_fuel n (a / 2) (b / 2) (omega arith))
    ∙ ap (λ y. bit_or (b / 2) (a / 2) * 2 + y) (max_comm (a % 2) (b % 2))
    ∙ sym (bit_or_digit b a)

bit_or_above : (j x y : ℕ) → y < 2 ^ j → bit_or y (x * 2 ^ j) ≡ y + x * 2 ^ j
bit_or_above j x y h =
    bit_or_comm_fuel y y (x * 2 ^ j) (le_refl y) ∙ bit_or_disjoint j x y h ∙ omega arith

next : (j : ℕ) → 2 ^ (j + 1) ≡ 2 ^ j * 2
next j = ap (λ k. 2 ^ k) (let e : j + 1 ≡ suc j = omega arith in e) ∙ pow-suc 2 j

digit-le : (d m : ℕ) → d < 2 → d * m ≤ m
digit-le zero m h = omega arith
digit-le (suc zero) m h = omega arith
digit-le (suc (suc d)) m h = absurd (omega arith)

half : (x i : ℕ) → x / 2 ^ (i + 1) ≡ x / 2 ^ i / 2
half x i = ap (λ y. x / y) (next i) ∙ sym (div-div-eq-div-mul x (2 ^ i) 2)

extract_from_lem :
    (x mask n i j out : ℕ)
    → out < 2 ^ j
    → extract_from x mask n i j out ≡ out + packed n (x / 2 ^ i) (mask / 2 ^ i) * 2 ^ j
unfolding extract_from packed
extract_from_lem x mask zero i j out h = omega arith
extract_from_lem x mask (suc n) i j out h = elim (Bool-cases (test_bit mask i)) [
  | inl y ↦
      let d = x / 2 ^ i % 2 in
      let above = bit_or_above j d out h in
      let below : bit_or out (d * 2 ^ j) < 2 ^ (j + 1) =
        rw (above, next j) (omega (arith, digit-le d (2 ^ j) (omega arith))) in
      let ih = extract_from_lem x mask n (i + 1) (j + 1) (bit_or out (d * 2 ^ j)) below in
      rw y (ih ∙ rw (above, half x i, half mask i, next j) (omega arith))
  | inr z ↦
      let ih = extract_from_lem x mask n (i + 1) j out h in rw z (ih ∙ rw (half x i, half mask i))
]

-- `extract` packs the digits of its first argument that its mask, a word of 64 bits, selects, at the low
-- end and in their order.
pub extract_lem : (x mask : ℕ) → extract x mask ≡ packed 64 x mask
unfolding extract
extract_lem x mask =
    extract_from_lem x mask 64 0 0 0 (omega arith) ∙ rw (div-one x, div-one mask) (omega arith)
