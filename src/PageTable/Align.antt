-- ===== src/PageTable/Align.antt =====
-- The checks on superpages and NAPOT entries, `misaligned` and `bad_napot` of the second stage, as what
-- they mean for the page number.
use riscv_iommu_dv_model.Prelude.{ℕ, zero, suc, ◌/◌, ◌%◌, ◌≤◌, false, ◌≡◌, arith, get_bits, ◌↔◌}
use riscv_iommu_dv_model.PageTable.{
  Format, sv32, sv39, sv48, sv57, top_of, ppn_field, misaligned, page_size_at,
}

-- The check on the fields of a superpage's entry, `misaligned`, passes exactly where the page number of
-- the entry is a multiple of the page, at every level that the format has.
pub misaligned_iff :
    (f : Format) (i raw : ℕ)
    → i ≤ top_of f
    → (misaligned f i raw ≡ false) ↔ (get_bits 53 10 raw % (page_size_at f i / 4096) ≡ 0)
unfolding misaligned ppn_field page_size_at top_of
misaligned_iff sv32 zero raw h = (λ b. ground arith, λ b. ground arith)
misaligned_iff sv32 (suc zero) raw h = (λ b. ground arith, λ b. ground arith)
misaligned_iff sv32 (suc (suc i)) raw h = absurd (omega arith)
misaligned_iff sv39 zero raw h = (λ b. ground arith, λ b. ground arith)
misaligned_iff sv39 (suc zero) raw h = (λ b. ground arith, λ b. ground arith)
misaligned_iff sv39 (suc (suc zero)) raw h = (λ b. ground arith, λ b. ground arith)
misaligned_iff sv39 (suc (suc (suc i))) raw h = absurd (omega arith)
misaligned_iff sv48 zero raw h = (λ b. ground arith, λ b. ground arith)
misaligned_iff sv48 (suc zero) raw h = (λ b. ground arith, λ b. ground arith)
misaligned_iff sv48 (suc (suc zero)) raw h = (λ b. ground arith, λ b. ground arith)
misaligned_iff sv48 (suc (suc (suc zero))) raw h = (λ b. ground arith, λ b. ground arith)
misaligned_iff sv48 (suc (suc (suc (suc i)))) raw h = absurd (omega arith)
misaligned_iff sv57 zero raw h = (λ b. ground arith, λ b. ground arith)
misaligned_iff sv57 (suc zero) raw h = (λ b. ground arith, λ b. ground arith)
misaligned_iff sv57 (suc (suc zero)) raw h = (λ b. ground arith, λ b. ground arith)
misaligned_iff sv57 (suc (suc (suc zero))) raw h = (λ b. ground arith, λ b. ground arith)
misaligned_iff sv57 (suc (suc (suc (suc zero)))) raw h = (λ b. ground arith, λ b. ground arith)
misaligned_iff sv57 (suc (suc (suc (suc (suc i))))) raw h = absurd (omega arith)
