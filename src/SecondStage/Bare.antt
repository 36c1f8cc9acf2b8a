-- ===== src/SecondStage/Bare.antt =====
-- `second_stage_address_translation` of iommu_ref_model/libiommu/src/iommu_second_stage_trans.c where
-- iohgatp.MODE is Bare.
use mathlib.Core.Path.{subst}
use native.Mathlib.Nat.{
  mod-mod_of_dvd, div-div-eq-div-mul, mul_comm, div-add-mod, mul-div-mul_right, pow-suc,
  dvd-mul_right_of_dvd, dvd_refl,
}
use Prim.Native.Nat.{◌∣◌}
use native.Mathlib.Decide.{dec_lt}
use riscv_iommu_dv_model.Prelude.{
  ℕ, zero, suc, ◌+◌, ◌*◌, ◌/◌, ◌%◌, ◌^◌, ◌≤◌, ◌≡◌, refl, sym, ap, ◌∙◌, arith, inr, some, get_bits,
  ◌==◌, true,
}
use riscv_iommu_dv_model.Iommu.{Iommu}
use riscv_iommu_dv_model.Iommu.Platform.{Platform}
use riscv_iommu_dv_model.PageTable.{napot_pte}
use riscv_iommu_dv_model.PageTable.Physical.{physical_lem}
use riscv_iommu_dv_model.SecondStage.{
  GuestAccess, mapping_of, bare_gpte, bare_page_sz, second_stage_address_translation,
}

pow-dvd : (n j : ℕ) → j ≤ n → 2 ^ j ∣ 2 ^ n
pow-dvd zero j h = rw (let e : j ≡ 0 = omega arith in e) (dvd_refl 1)
pow-dvd (suc n) j h = elim (dec_lt j (suc n)) [
  | yes p ↦ rw (pow-suc 2 n) (dvd-mul_right_of_dvd (2 ^ j) (pow-dvd n j (omega arith)) 2)
  | no p ↦ rw (let e : j ≡ suc n = omega arith in e) (dvd_refl (2 ^ suc n))
]

pow_page : (j : ℕ) → 2 ^ (j + 12) ≡ 2 ^ j * 4096
pow_page zero = refl
pow_page (suc j) =
    let e : suc j + 12 ≡ suc (j + 12) = omega arith in
    ap (λ y. 2 ^ y) e ∙ omega (arith, pow-suc 2 (j + 12), pow-suc 2 j, pow_page j)

mod_pow : (n j x : ℕ) → j ≤ n → x % 2 ^ n % 2 ^ j ≡ x % 2 ^ j
mod_pow n j x h = mod-mod_of_dvd (2 ^ j) x (pow-dvd n j h)

-- The remainder by a multiple of 4096, from that of the page number.
mod_page : (m x : ℕ) → x % (m * 4096) ≡ x / 4096 % m * 4096 + x % 4096
mod_page m x =
    let e : x / (m * 4096) ≡ x / 4096 / m =
      ap (λ y. x / y) (mul_comm m 4096) ∙ sym (div-div-eq-div-mul x 4096 m) in
    let f : m * 4096 * (x / 4096 / m) + x % (m * 4096) ≡ x =
      subst (λ y. m * 4096 * y + x % (m * 4096) ≡ x) e (div-add-mod x (m * 4096)) in
    let g = div-add-mod (x / 4096) m in omega arith

-- Splitting at a page boundary and joining again, with the page number that an entry holds.
join_page :
    (m x p : ℕ)
    → p % m ≡ x / 4096 % m
    → p * 4096 / (m * 4096) * (m * 4096) + x % (m * 4096) ≡ p * 4096 + x % 4096
join_page m x p e =
    let a = mod_page m x in
    let b : p * 4096 / (m * 4096) ≡ p / m = mul-div-mul_right p m (omega arith) in
    let c = div-add-mod p m in rw b (omega arith)

join_bare :
    (j x : ℕ)
    → j ≤ 44
    → x / 4096 % 2 ^ 44 * 4096 / 2 ^ (j + 12) * 2 ^ (j + 12) + x % 2 ^ (j + 12) ≡ x % 2 ^ 56
join_bare j x h =
    let e : 2 ^ (j + 12) ≡ 2 ^ j * 4096 = pow_page j in
    rw e (join_page (2 ^ j) x (x / 4096 % 2 ^ 44) (mod_pow 44 j (x / 4096) h) ∙ omega arith)

mapping_of-bare :
    (j gpa : ℕ)
    → j ≤ 44
    → mapping_of gpa (2 ^ (j + 12)) (bare_gpte gpa)
      ≡ record { pa = gpa % 2 ^ 56; page_sz = 2 ^ (j + 12); pte = bare_gpte gpa }
unfolding mapping_of napot_pte bare_gpte
mapping_of-bare j gpa h =
    ap (λ a. record { pa = a; page_sz = 2 ^ (j + 12); pte = bare_gpte gpa })
      (physical_lem (j + 12) (gpa / 4096 % 2 ^ 44) gpa (omega arith) (omega arith)
        ∙ join_bare j gpa h)

module _ {W : Type 0} (P : Platform W) where
  -- Where iohgatp.MODE is Bare, and the page size that is set for it is a power of 2 from 4 KiB to
  -- 2 ^ 56, `second_stage_address_translation` succeeds, changes nothing, and returns the lower 56 bits
  -- of the address, since the page number of an entry has 44.
  pub second_stage-bare :
      (n : ℕ) (s : Iommu W) (q : GuestAccess) (j : ℕ)
      → get_bits 63 60 q.iohgatp ≡ 0
      → j ≤ 44
      → bare_page_sz s ≡ 2 ^ (j + 12)
      → second_stage_address_translation P n s q ≡ (
        some (inr (record { pa = q.gpa % 2 ^ 56; page_sz = 2 ^ (j + 12); pte = bare_gpte q.gpa })),
        s,
      )
  unfolding second_stage_address_translation
  second_stage-bare n s q j e h size =
      let y : (get_bits 63 60 q.iohgatp == 0) ≡ true = ground arith in
      rw (y, second_stage_address_translation)
        (ap (λ m. (some (inr m), s))
          (ap (λ z. mapping_of q.gpa z (bare_gpte q.gpa)) size ∙ mapping_of-bare j q.gpa h))
