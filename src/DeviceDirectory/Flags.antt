-- ===== src/DeviceDirectory/Flags.antt =====
-- The single tests of `do_device_context_configuration_checks`
-- (iommu_ref_model/libiommu/src/iommu_device_context.c), over any flags and fields.
use riscv_iommu_dv_model.Prelude.{
  ℕ, Bool, true, false, not, ◌&&◌, ◌||◌, ◌==◌, if◌then◌else◌, ◌≡◌, ◌≢◌, refl, ◌⊎◌, inl, inr, arith,
}
use riscv_iommu_dv_model.DeviceDirectory.Checks.{differ}

pub zero_lem : (n : ℕ) → not (n == 0) ≡ false → n ≡ 0
zero_lem n h = ground arith

pub both_lem :
    (b : Bool) (n : ℕ) → (not (n == 0) && b) ≡ false → (not (n == 0) && not b) ≡ false → n ≡ 0
both_lem b n h k = ground arith

pub qos_lem :
    (b : Bool) (m n : ℕ)
    → (not b && (not (m == 0) || not (n == 0))) ≡ false
    → (b ≡ true) ⊎ ((m ≡ 0) × (n ≡ 0))
qos_lem b m n h = ground arith

pub extended_lem :
    (b : Bool) (i j k l : ℕ)
    → ((b && not (i == 0)) || (b && not (j == 0)) || (b && not (k == 0)) || (b && not (l == 0)))
      ≡ false
    → (b ≡ false) ⊎ ((i ≡ 0) × (j ≡ 0) × (k ≡ 0) × (l ≡ 0))
extended_lem b i j k l h = ground arith

pub else-intro : (a b : Bool) → (if a then true else b) ≡ false → (a ≡ false) × (b ≡ false)
else-intro a b h = ground arith

pub else-elim : (a b : Bool) → a ≡ false → b ≡ false → (if a then true else b) ≡ false
else-elim a b h k = rw h k

pub updates_lem :
    (a x y : Bool) → (not a && (x || y)) ≡ false → (a ≡ true) ⊎ ((x ≡ false) × (y ≡ false))
updates_lem a x y h = ground arith

pub updates_elim :
    (a x y : Bool) → (a ≡ true) ⊎ ((x ≡ false) × (y ≡ false)) → (not a && (x || y)) ≡ false
updates_elim a x y h = ground arith

pub byte_order_lem :
    (both be sbe : Bool) (n : ℕ)
    → (not both && differ be sbe) ≡ false
    → (n == 0 && differ sbe be) ≡ false
    → (sbe ≡ be) ⊎ ((both ≡ true) × (n ≢ 0))
byte_order_lem both true true n h k = inl refl
byte_order_lem both false false n h k = inl refl
byte_order_lem both true false n h k = inr (ground arith)
byte_order_lem both false true n h k = inr (ground arith)

pub byte_order_elim :
    (both be sbe : Bool) (n : ℕ)
    → (sbe ≡ be) ⊎ ((both ≡ true) × (n ≢ 0))
    → ((not both && differ be sbe) ≡ false) × ((n == 0 && differ sbe be) ≡ false)
byte_order_elim both be sbe n h = ground arith

pub width_lem :
    (gxl sxl : Bool) (n : ℕ)
    → (gxl && not sxl) ≡ false
    → (not gxl && n == 0 && sxl) ≡ false
    → (sxl ≡ gxl) ⊎ ((gxl ≡ false) × (n ≢ 0))
width_lem true true n h k = inl refl
width_lem false false n h k = inl refl
width_lem true false n h k = absurd cc
width_lem false true n h k = inr (ground arith)

pub width_elim :
    (gxl sxl : Bool) (n : ℕ)
    → (sxl ≡ gxl) ⊎ ((gxl ≡ false) × (n ≢ 0))
    → ((gxl && not sxl) ≡ false) × ((not gxl && n == 0 && sxl) ≡ false)
width_elim gxl sxl n h = ground arith

pub quality_lem :
    (b : Bool) (m n : ℕ)
    → (b && (not (m == 0) || not (n == 0))) ≡ false
    → (b ≡ false) ⊎ ((m ≡ 0) × (n ≡ 0))
quality_lem b m n h = ground arith

pub quality_elim :
    (b : Bool) (m n : ℕ)
    → (b ≡ false) ⊎ ((m ≡ 0) × (n ≡ 0))
    → (b && (not (m == 0) || not (n == 0))) ≡ false
quality_elim b m n h = ground arith

pub table_lem : (m n : ℕ) → (m == 0 && not (n == 0)) ≡ false → (m ≢ 0) ⊎ (n ≡ 0)
table_lem m n h = ground arith

pub table_elim : (m n : ℕ) → (m ≢ 0) ⊎ (n ≡ 0) → (m == 0 && not (n == 0)) ≡ false
table_elim m n h = ground arith
