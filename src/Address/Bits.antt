-- ===== src/Address/Bits.antt =====
-- Laws of the bit operations at variables, from the recursion on binary digits that they stand for.
use Prim.Native.Nat.{min, digits, bit_and-bitwise, bit_xor-bitwise, bitwise, differ}
use native.Mathlib.Nat.{
  le_refl, pow-suc, one-le-pow, div-div-eq-div-mul, mul_comm, mod-eq_of_lt, mod_self,
}
use native.Mathlib.Decide.{dec_lt}
use riscv_iommu_dv_model.Prelude.{
  ℕ, zero, suc, ◌+◌, ◌-◌, ◌*◌, ◌/◌, ◌%◌, ◌^◌, ◌≤◌, ◌<◌, bit_and, bit_xor, ◌≡◌, refl, ◌∙◌, ap, arith,
  ◌==◌, if◌then◌else◌, inl, inr, Bool-cases,
}

module _ (z : ℕ → ℕ) (f : ℕ → ℕ → ℕ) where
  -- More fuel than the number has digits changes nothing.
  enough_digits : (n m a b : ℕ) → a ≤ n → a ≤ m → digits z f n a b ≡ digits z f m a b
  enough_digits zero zero a b p q = refl
  enough_digits zero (suc m) zero b p q = refl
  enough_digits zero (suc m) (suc a) b p q = absurd (omega arith)
  enough_digits (suc n) zero zero b p q = refl
  enough_digits (suc n) zero (suc a) b p q = absurd (omega arith)
  enough_digits (suc n) (suc m) zero b p q = refl
  enough_digits (suc n) (suc m) (suc a) b p q =
      rw (enough_digits n m (suc a / 2) (b / 2) (omega arith) (omega arith))

  pub lowest_digit :
      (a b : ℕ)
      → bitwise z f (suc a) b ≡ bitwise z f (suc a / 2) (b / 2) * 2 + f (suc a % 2) (b % 2)
  lowest_digit a b =
      omega (arith, enough_digits a (suc a / 2) (suc a / 2) (b / 2) (omega arith) (le_refl _))

pub bit_and_digit : (a b : ℕ) → bit_and a b ≡ bit_and (a / 2) (b / 2) * 2 + min (a % 2) (b % 2)
bit_and_digit zero b = simp bit_and-bitwise (omega arith)
bit_and_digit (suc a) b = simp bit_and-bitwise (lowest_digit (λ y. 0) min a b)

pub bit_xor_digit : (a b : ℕ) → bit_xor a b ≡ bit_xor (a / 2) (b / 2) * 2 + differ (a % 2) (b % 2)
bit_xor_digit zero b = simp bit_xor-bitwise (omega arith)
bit_xor_digit (suc a) b = simp bit_xor-bitwise (lowest_digit (λ y. y) differ a b)

differ_self : (a : ℕ) → differ a a ≡ 0
differ_self zero = refl
differ_self (suc a) = differ_self a

bit_xor_self_fuel : (n a : ℕ) → a ≤ n → bit_xor a a ≡ 0
bit_xor_self_fuel n zero h = refl
bit_xor_self_fuel zero (suc a) h = absurd (omega arith)
bit_xor_self_fuel (suc n) (suc a) h =
    bit_xor_digit (suc a) (suc a)
    ∙ omega (arith, bit_xor_self_fuel n (suc a / 2) (omega arith), differ_self (suc a % 2))

pub bit_xor_self : (a : ℕ) → bit_xor a a ≡ 0
bit_xor_self a = bit_xor_self_fuel a a (le_refl a)

-- Doubling a mask of ones, or of ones above `k` zeros.
pub half_ones : (m : ℕ) → 1 ≤ m → ((m * 2 - 1) / 2 ≡ m - 1) × ((m * 2 - 1) % 2 ≡ 1)
half_ones m h = (omega arith, omega arith)

half_high : (m n : ℕ) → ((m * 2 - n * 2) / 2 ≡ m - n) × ((m * 2 - n * 2) % 2 ≡ 0)
half_high m n = (omega arith, omega arith)

pub pow_pos : (k : ℕ) → 1 ≤ 2 ^ k
pow_pos k = one-le-pow k 2 (omega arith)

-- A mask of ones keeps every digit.
bit_and_ones : (w x : ℕ) → x < 2 ^ w → bit_and x (2 ^ w - 1) ≡ x
bit_and_ones zero x h = rw (let e : x ≡ 0 = omega arith in e)
bit_and_ones (suc w) x h =
    let m = 2 ^ w in
    let below : x < m * 2 = omega (arith, pow-suc 2 w) in
    let (half, odd) = half_ones m (pow_pos w) in
    rw (pow-suc 2 w, bit_and_digit x (m * 2 - 1), half, odd, bit_and_ones w (x / 2) (omega arith))
      (omega arith)

-- `x & ~((1 << k) - 1)` over `w` digits clears the low `k` digits.
pub bit_and_high : (k w x : ℕ) → k ≤ w → x < 2 ^ w → bit_and x (2 ^ w - 2 ^ k) ≡ x / 2 ^ k * 2 ^ k
bit_and_high zero w x p h = bit_and_ones w x h ∙ omega arith
bit_and_high (suc k) zero x p h = absurd (omega arith)
bit_and_high (suc k) (suc w) x p h =
    let m = 2 ^ w in
    let n = 2 ^ k in
    let below : x < m * 2 = omega (arith, pow-suc 2 w) in
    let (half, even) = half_high m n in
    let ih = bit_and_high k w (x / 2) (omega arith) (omega arith) in
    let split : x / 2 / n ≡ x / (n * 2) =
      div-div-eq-div-mul x 2 n ∙ ap (λ y. x / y) (mul_comm 2 n) in
    rw (pow-suc 2 w, pow-suc 2 k, bit_and_digit x (m * 2 - n * 2), half, even, ih, split)
      (omega arith)

-- The trailing ones of `x` and the zero above them, in a word of `w` digits.
pub napot_order : ℕ → ℕ → ℕ
napot_order zero x = 0
napot_order (suc w) x = if x % 2 == 0 then 1 else suc (napot_order w (x / 2))

pub napot_order-le : (w x : ℕ) → napot_order w x ≤ w
unfolding napot_order
napot_order-le zero x = omega arith
napot_order-le (suc w) x = ground (arith, napot_order-le w (x / 2))

-- Past an odd number the carry goes on to the next digit, also round the end of the word.
next_odd :
    (m x : ℕ)
    → x < m * 2
    → x % 2 ≡ 1
    → ((x + 1) % (m * 2) / 2 ≡ (x / 2 + 1) % m) × ((x + 1) % (m * 2) % 2 ≡ 0)
next_odd m x h odd = elim (dec_lt (x + 1) (m * 2)) [
  | yes p ↦ omega (
    arith,
    mod-eq_of_lt {n = x + 1} {m = m * 2} p,
    mod-eq_of_lt {n = x / 2 + 1} {m = m} (omega arith),
  )
  | no p ↦
      let e : x + 1 ≡ m * 2 = omega arith in
      let e' : x / 2 + 1 ≡ m = omega arith in rw (e, e', mod_self, mod_self) (refl, refl)
]

-- `x ^ (x + 1)`, with the addition in a word of `w` digits, is a mask of ones over that range.
pub bit_xor-next : (w x : ℕ) → x < 2 ^ w → bit_xor x ((x + 1) % 2 ^ w) ≡ 2 ^ napot_order w x - 1
unfolding napot_order
bit_xor-next zero x h = rw (let e : x ≡ 0 = omega arith in e)
bit_xor-next (suc w) x h = elim (Bool-cases (x % 2 == 0)) [
  | inl even ↦
      let keep : (x + 1) % 2 ^ suc w ≡ x + 1 = mod-eq_of_lt (ground (arith, pow-suc 2 w)) in
      let low : x % 2 ≡ 0 = ground arith in
      let high : (x + 1) % 2 ≡ 1 = omega arith in
      let same : (x + 1) / 2 ≡ x / 2 = omega arith in
      simp even (rw (keep, bit_xor_digit x (x + 1), same, low, high, bit_xor_self))
  | inr odd ↦
      let low : x % 2 ≡ 1 = ground arith in
      let (half, even) = next_odd (2 ^ w) x (omega (arith, pow-suc 2 w)) low in
      let ih = bit_xor-next w (x / 2) (omega (arith, pow-suc 2 w)) in
      simp odd (
        rw (pow-suc 2 w, bit_xor_digit x ((x + 1) % (2 ^ w * 2)), half, even, low, ih)
          (omega (arith, pow-suc 2 (napot_order w (x / 2)), pow_pos (napot_order w (x / 2)))))
]
