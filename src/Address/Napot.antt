-- ===== src/Address/Napot.antt =====
-- `match_address_range` of iommu_utils.c against the ranges that its operands name.
use native.Mathlib.Nat.{
  pow-suc, div-div-eq-div-mul, mul-div_cancel, mul_assoc, div-mul-le_self, add-zero, add-suc,
}
use native.Mathlib.Decide.{dec_le}
use riscv_iommu_dv_model.Prelude.{
  ℕ, zero, suc, ◌+◌, ◌-◌, ◌*◌, ◌/◌, ◌^◌, ◌≤◌, ◌<◌, bit_and, ◌≡◌, ◌↔◌, refl, sym, ap, ◌∙◌, true,
  arith, ◌==◌, ==_iff, if◌then◌else◌,
}
use riscv_iommu_dv_model.Address.{range_mask, match_address_range}
use riscv_iommu_dv_model.Address.Bits.{
  bit_and_high, bit_xor-next, napot_order, napot_order-le, pow_pos,
}

-- The size of the range that `pn` and the flag `s` name is 2 ^ order pages: a single page if `s` is
-- 0, and otherwise twice for each trailing one of `pn` and for the zero above them.
abbrev pub order : ℕ → ℕ → ℕ
order pn s = if s == 0 then 0 else napot_order 64 pn

-- The page `p` lies in the range of `pn` and `s`.
abbrev pub InRange : ℕ → ℕ → ℕ → Type 0
InRange p pn s = p / 2 ^ order pn s ≡ pn / 2 ^ order pn s

order-le : (pn s : ℕ) → order pn s ≤ 64
order-le pn s = ground (arith, napot_order-le 64 pn)

pub pow_split : (k j : ℕ) → 2 ^ (k + j) ≡ 2 ^ k * 2 ^ j
pow_split k zero = rw add-zero (omega arith)
pow_split k (suc j) =
    rw (add-suc, pow-suc 2 (k + j), pow-suc 2 j, pow_split k j) (mul_assoc (2 ^ k) (2 ^ j) 2)

-- Clearing at two granularities is clearing at the coarser one.
clear_coarse : (x n d : ℕ) → 0 < n → x / n * n / (n * d) ≡ x / (n * d)
clear_coarse x n d h = rw (← div-div-eq-div-mul, ← div-div-eq-div-mul, mul-div_cancel (x / n) h)

clear_fine : (x n d : ℕ) → 0 < n → x / (n * d) * (n * d) / n * n ≡ x / (n * d) * (n * d)
clear_fine x n d h =
    let q = x / (n * d) in
    let e : q * (n * d) ≡ q * d * n = omega arith in rw (e, mul-div_cancel (q * d) h)

range_mask_lem : (pn s : ℕ) → pn < 2 ^ 64 → range_mask pn s ≡ 2 ^ 64 - 2 ^ order pn s
unfolding range_mask
range_mask_lem pn s h = ground (arith, bit_xor-next 64 pn h, pow_pos (napot_order 64 pn))

-- One cleared number is another where the quotients agree.
pub clear-injective : (a b n : ℕ) → 0 < n → a * n ≡ b * n → a ≡ b
clear-injective a b n h e = sym (mul-div_cancel a h) ∙ ap (λ x. x / n) e ∙ mul-div_cancel b h

-- What `match_address_range` compares, for a 64-bit number.
masked :
    (x j k : ℕ)
    → x < 2 ^ 64
    → j ≤ 64
    → k ≤ 64
    → bit_and (bit_and x (2 ^ 64 - 2 ^ j)) (2 ^ 64 - 2 ^ k) ≡ x / 2 ^ j * 2 ^ j / 2 ^ k * 2 ^ k
masked x j k h p q =
    rw (bit_and_high j 64 x p h)
      (bit_and_high k 64 (x / 2 ^ j * 2 ^ j) q (omega (arith, div-mul-le_self x (2 ^ j))))

-- The page `p` has the quotients of `v` at granularity `n` and of `b` at granularity `m`.
abbrev Common : ℕ → ℕ → ℕ → ℕ → Type 0
Common v b n m = (p : ℕ) × (p / n ≡ v / n) × (p / m ≡ b / m)

abbrev Masked : ℕ → ℕ → ℕ → ℕ → Type 0
Masked v b n m = v / m * m / n * n ≡ b / m * m / n * n

-- The range of `v` is the finer one.
finer : (v b n d : ℕ) → 0 < n → 0 < n * d → Masked v b n (n * d) ↔ Common v b n (n * d)
finer v b n d h k = (
  λ e. (
    v,
    refl,
    clear-injective (v / (n * d)) (b / (n * d)) (n * d) k
        (sym (clear_fine v n d h) ∙ e ∙ clear_fine b n d h),
  ),
  λ (p, near, far).
      let e : v / (n * d) ≡ b / (n * d) =
        sym (div-div-eq-div-mul v n d)
        ∙ ap (λ x. x / d) (sym near)
        ∙ div-div-eq-div-mul p n d
        ∙ far in
      ap (λ x. x * (n * d) / n * n) e,
)

-- The range of `v` is the coarser one.
coarser : (v b n d : ℕ) → 0 < n → 0 < n * d → Masked v b (n * d) n ↔ Common v b (n * d) n
coarser v b n d h k = (
  λ e. (
    b,
    sym (clear_coarse b n d h) ∙ sym (clear-injective _ _ (n * d) k e) ∙ clear_coarse v n d h,
    refl,
  ),
  λ (p, far, near).
      let e : v / (n * d) ≡ b / (n * d) =
        sym far
        ∙ sym (div-div-eq-div-mul p n d)
        ∙ ap (λ x. x / d) near
        ∙ div-div-eq-div-mul b n d in
      ap (λ x. x * (n * d)) (clear_coarse v n d h ∙ e ∙ sym (clear_coarse b n d h)),
)

both_orders : (v b j k : ℕ) → Masked v b (2 ^ j) (2 ^ k) ↔ Common v b (2 ^ j) (2 ^ k)
both_orders v b j k = elim (dec_le j k) [
  | yes p ↦
      let e : 2 ^ k ≡ 2 ^ j * 2 ^ (k - j) = ap (λ x. 2 ^ x) (omega arith) ∙ pow_split j (k - j) in
      rw e (finer v b (2 ^ j) (2 ^ (k - j)) (pow_pos j) (rw (← e) (pow_pos k)))
  | no p ↦
      let e : 2 ^ j ≡ 2 ^ k * 2 ^ (j - k) = ap (λ x. 2 ^ x) (omega arith) ∙ pow_split k (j - k) in
      rw e (coarser v b (2 ^ k) (2 ^ (j - k)) (pow_pos k) (rw (← e) (pow_pos j)))
]

-- `match_address_range` says yes exactly when the two ranges that its operands name have a page in
-- common, for 64-bit page numbers; also where one range is the whole address space.
pub match_address_range_lem :
    (vpn vpn_s base_pn s : ℕ)
    → vpn < 2 ^ 64
    → base_pn < 2 ^ 64
    → (match_address_range vpn vpn_s base_pn s ≡ true)
      ↔ ((p : ℕ) × InRange p vpn vpn_s × InRange p base_pn s)
unfolding match_address_range
match_address_range_lem v vs b s hv hb =
    let j = order v vs in
    let k = order b s in
    let (to, from) = both_orders v b j k in
    rw
      (
        range_mask_lem v vs hv,
        range_mask_lem b s hb,
        masked v k j hv (order-le b s) (order-le v vs),
        masked b k j hb (order-le b s) (order-le v vs),
      )
      (λ e. to ((==_iff _ _).0 e), λ c. (==_iff _ _).1 (from c))
