-- ===== src/Registers/Access.antt =====
-- What `read_register` returns of what `write_register` was given, and the two halves of the registers
-- of 8 bytes.
use native.Mathlib.Nat.{mod-eq_of_lt}
use riscv_iommu_dv_model.Prelude.{
  ℕ, ap, ◌+◌, ◌*◌, ◌/◌, ◌%◌, ◌^◌, ◌-◌, ◌<◌, ◌≤◌, ◌≡◌, refl, true, false, ◌==◌, arith, bit, get_bits,
  low_bits, get_or, set, length, ltb, sym, ◌∙◌, List, get_or-set, set-set,
}
use riscv_iommu_dv_model.Iommu.{Iommu}
use riscv_iommu_dv_model.Iommu.Platform.{Platform}
use riscv_iommu_dv_model.Iommu.Regs.{RegFile}
use riscv_iommu_dv_model.Iommu.Request.{HbRequest, HbResponse}
use riscv_iommu_dv_model.Registers.{read_register, write_register, write_to}
use riscv_iommu_dv_model.Registers.Layout.{
  regs8, iohpmevt_raw, offset_to_size, is_access_valid, is_size_8, is_size_4, register_at, iohpmctr,
}
use riscv_iommu_dv_model.Registers.Write.{selector_of, write_cqb, write_iohpmctr}

bit_lem : (y : ℕ) → bit (y % 2 == 1) ≡ y % 2
bit_lem y = ground arith

-- Every word of 64 bits is the word of the event selector that `iohpmevt` is written with: no field is
-- lost or misplaced between the write and the read.
iohpmevt_raw-selector_of : (x : ℕ) → x < 2 ^ 64 → iohpmevt_raw (selector_of x) ≡ x
iohpmevt_raw-selector_of x h = omega (
  arith,
  bit_lem (x / 2 ^ 15),
  bit_lem (x / 2 ^ 60),
  bit_lem (x / 2 ^ 61),
  bit_lem (x / 2 ^ 62),
  bit_lem (x / 2 ^ 63),
)

abbrev base_raw : ℕ → ℕ → ℕ
base_raw pas x = get_bits 4 0 x + low_bits (get_bits 53 10 x) (pas - 12) * 2 ^ 10

base_lem :
    (pas k ppn : ℕ)
    → k < 32
    → ppn < 2 ^ 44
    → ppn < 2 ^ (pas - 12)
    → base_raw pas (k + ppn * 2 ^ 10) ≡ k + ppn * 2 ^ 10
base_lem pas k ppn l m n =
    let x = k + ppn * 2 ^ 10 in
    let size : get_bits 4 0 x ≡ k = omega arith in
    let page : get_bits 53 10 x ≡ ppn = omega arith in
    rw size (rw page (ap (λ y. k + y * 2 ^ 10) (mod-eq_of_lt n)))

module _ {W : Type 0} (P : Platform W)
    (translate : Iommu W → HbRequest → HbResponse × Iommu W) where
  -- A write of 4 bytes to the upper half of `icvec` changes the state as the same write to the lower half
  -- does: it replaces the vectors, which the upper half does not hold.
  icvec_halves :
      (s : Iommu W) (no_write word : ℕ)
      → write_register P translate s no_write 764 4 word
        ≡ write_register P translate s no_write 760 4 word
  unfolding write_register write_to register_at offset_to_size is_access_valid is_size_8 is_size_4
  icvec_halves s no_write word = refl

  -- A command queue that is off and not busy takes any base whose page number fits the field and the
  -- physical address size: `cqb` then reads as the word that was written.
  cqb-reads :
      (s : Iommu W) (no_write k ppn : ℕ)
      → s.reg_file.cqcsr.cqon ≡ false
      → s.reg_file.cqcsr.busy ≡ false
      → k < 32
      → ppn < 2 ^ 44
      → ppn < 2 ^ (s.reg_file.capabilities.pas - 12)
      → read_register (write_register P translate s no_write 24 8 (k + ppn * 2 ^ 10)) 24 8
        ≡ k + ppn * 2 ^ 10
  unfolding read_register write_register write_to register_at offset_to_size is_access_valid
      is_size_8 is_size_4 regs8 write_cqb
  cqb-reads s no_write k ppn h b l m n =
      simp (h, b) (base_lem s.reg_file.capabilities.pas k ppn l m n)

-- The offset of the counter with index `i`.
abbrev pub ctr_offset : ℕ → ℕ
ctr_offset i = 104 + 8 * i

ctr_register : (i : ℕ) → i < 31 → register_at (ctr_offset i) ≡ iohpmctr i
unfolding register_at
ctr_register i h = ground arith

ctr_size : (o : ℕ) → 104 ≤ o → o < 352 → o % 4 ≡ 0 → offset_to_size o ≡ 8
unfolding offset_to_size is_size_8
ctr_size o h l e = ground arith

ctr_valid : (o : ℕ) → 104 ≤ o → o < 352 → o % 4 ≡ 0 → is_access_valid o 4 ≡ true
unfolding is_access_valid
ctr_valid o h l e = ground (arith, ctr_size o h l e)

ctr_word : (r : RegFile) (i : ℕ) → i < 31 → regs8 r (ctr_offset i) ≡ get_or r.iohpmctr i 0
unfolding regs8
ctr_word r i h = ground arith

-- An 8-byte word after a write of 4 bytes to its lower half, and to its upper half.
abbrev low_written : (old word : ℕ) → ℕ
low_written old word = old / 2 ^ 32 * 2 ^ 32 + word % 2 ^ 32

abbrev high_written : (old word : ℕ) → ℕ
high_written old word = old % 2 ^ 32 + word % 2 ^ 32 * 2 ^ 32

module _ {W : Type 0} (P : Platform W) (translate : Iommu W → HbRequest → HbResponse × Iommu W)
    (s : Iommu W) (no_write i : ℕ) (in_range : i < 31) where
  low_lem :
      (word : ℕ)
      → write_register P translate s no_write (ctr_offset i) 4 word
        ≡ write_iohpmctr s i (low_written (get_or s.reg_file.iohpmctr i 0) word)
  unfolding write_register write_to
  low_lem word =
      let valid : is_access_valid (ctr_offset i) 4 ≡ true =
        ctr_valid (ctr_offset i) (omega arith) (omega arith) (omega arith) in
      let size : offset_to_size (ctr_offset i) ≡ 8 =
        ctr_size (ctr_offset i) (omega arith) (omega arith) (omega arith) in
      let aligned : ctr_offset i % 8 ≡ 0 = omega arith in
      let base : ctr_offset i - 0 ≡ ctr_offset i = omega arith in
      simp (valid, size, aligned, base, ctr_register i in_range, ctr_word s.reg_file i in_range)
        refl

  high_lem :
      (word : ℕ)
      → write_register P translate s no_write (ctr_offset i + 4) 4 word
        ≡ write_iohpmctr s i (high_written (get_or s.reg_file.iohpmctr i 0) word)
  unfolding write_register write_to
  high_lem word =
      let valid : is_access_valid (ctr_offset i + 4) 4 ≡ true =
        ctr_valid (ctr_offset i + 4) (omega arith) (omega arith) (omega arith) in
      let size : offset_to_size (ctr_offset i + 4) ≡ 8 =
        ctr_size (ctr_offset i + 4) (omega arith) (omega arith) (omega arith) in
      let aligned : (ctr_offset i + 4) % 8 ≡ 4 = omega arith in
      let base : ctr_offset i + 4 - 4 ≡ ctr_offset i = omega arith in
      simp (valid, size, aligned, base, ctr_register i in_range, ctr_word s.reg_file i in_range)
        refl

  whole_lem :
      (word : ℕ)
      → write_register P translate s no_write (ctr_offset i) 8 word ≡ write_iohpmctr s i word
  unfolding write_register write_to is_access_valid
  whole_lem word =
      let size : offset_to_size (ctr_offset i) ≡ 8 =
        ctr_size (ctr_offset i) (omega arith) (omega arith) (omega arith) in
      let aligned : ctr_offset i % 8 ≡ 0 = omega arith in
      let below : ltb (ctr_offset i) 4096 ≡ true = ground arith in
      simp (size, aligned, below, ctr_register i in_range) refl

module _ {W : Type 0} (s : Iommu W) (i : ℕ) where
  abbrev with_values : List ℕ → Iommu W
  with_values l = let r = s.reg_file in record s { reg_file = record r { iohpmctr = l } }

  abbrev with_counter : ℕ → Iommu W
  with_counter x = with_values (set s.reg_file.iohpmctr i x)

  full_width :
      (x : ℕ)
      → s.reg_file.capabilities.hpm ≡ true
      → s.hpmctr_bits ≡ 64
      → i + 2 ≤ s.num_hpm
      → write_iohpmctr s i x ≡ with_counter x
  unfolding write_iohpmctr
  full_width x hpm bits counters = ground arith

  -- What a counter holds after two changes, the second of which reads what the first has left.
  two_writes :
      (x : ℕ) (f : ℕ → ℕ)
      → i < length s.reg_file.iohpmctr
      → with_values
          (set (set s.reg_file.iohpmctr i x) i (f (get_or (set s.reg_file.iohpmctr i x) i 0)))
        ≡ with_counter (f x)
  two_writes x f inside =
      let xs = s.reg_file.iohpmctr in
      ap (λ y. with_values (set (set xs i x) i (f y))) (get_or-set xs i x 0 inside)
      ∙ ap with_values (set-set xs i x (f x))

module _ {W : Type 0} (P : Platform W)
    (translate : Iommu W → HbRequest → HbResponse × Iommu W) where
  -- A counter of 64 bits that is written in two halves of 4 bytes, the lower half first, is left as
  -- one write of the 8 bytes leaves it, and so is the rest of the state.
  iohpmctr_halves :
      (s : Iommu W) (no_write i low high : ℕ)
      → i < 31
      → s.reg_file.capabilities.hpm ≡ true
      → s.hpmctr_bits ≡ 64
      → i + 2 ≤ s.num_hpm
      → i < length s.reg_file.iohpmctr
      → write_register P translate
          (write_register P translate s no_write (ctr_offset i) 4 low)
          no_write
          (ctr_offset i + 4)
          4
          high
        ≡ write_register P translate s no_write
            (ctr_offset i)
            8
            (low % 2 ^ 32 + high % 2 ^ 32 * 2 ^ 32)
  iohpmctr_halves s no_write i low high range hpm bits counters inside =
      let x = low_written (get_or s.reg_file.iohpmctr i 0) low in
      let t = with_counter s i x in
      let first = low_lem P translate s no_write i range low ∙ full_width s i x hpm bits counters in
      let word : high_written x high ≡ low % 2 ^ 32 + high % 2 ^ 32 * 2 ^ 32 = omega arith in
      ap (λ u. write_register P translate u no_write (ctr_offset i + 4) 4 high) first
      ∙ high_lem P translate t no_write i range high
      ∙ full_width t i (high_written (get_or t.reg_file.iohpmctr i 0) high) hpm bits counters
      ∙ two_writes s i x (λ y. high_written y high) inside
      ∙ ap (with_counter s i) word
      ∙ sym (full_width s i _ hpm bits counters)
      ∙ sym (whole_lem P translate s no_write i range _)
