-- ===== src/Invalidate.antt =====
-- The invalidation commands of iommu_ref_model/libiommu/src/iommu_command_queue.c on the caches:
-- `do_inval_ddt`, `do_inval_pdt`, `do_iotinval_vma` and `do_iotinval_gvma`.
pub mod Directory
pub mod Vma
pub mod Gvma
use riscv_iommu_dv_model.Prelude.{
  ℕ, Bool, true, false, not, ◌&&◌, ◌||◌, List, [], ◌∷◌, map, ◌==◌, if◌then◌else◌,
}
use riscv_iommu_dv_model.Iommu.{Iommu}
use riscv_iommu_dv_model.Iommu.Caches.{DdtCache, PdtCache, Tlb}
use riscv_iommu_dv_model.Address.{match_address_range}
use riscv_iommu_dv_model.Atc.Iotlb.{truth}

-- The body of the first loop of `do_inval_ddt`.
abbrev pub inval_ddt_entry : ℕ → ℕ → DdtCache → DdtCache
inval_ddt_entry dv did e =
    if e.valid == 0
    then e
    else if dv == 0
    then record e { valid = 0 }
    else if dv == 1 && e.did == did
    then record e { valid = 0 }
    else e

-- The body of its second loop.
abbrev pub inval_ddt_pdt_entry : ℕ → ℕ → PdtCache → PdtCache
inval_ddt_pdt_entry dv did e =
    if ((e.did == did && dv == 1) || dv == 0) && e.valid == 1 then record e { valid = 0 } else e

-- The body of the loop of `do_inval_pdt`.
abbrev pub inval_pdt_entry : ℕ → ℕ → PdtCache → PdtCache
inval_pdt_entry did pid e =
    if e.did == did && e.pid == pid && e.valid == 1 then record e { valid = 0 } else e

module _ {W : Type 0} where
  -- `do_inval_ddt`
  unfoldable pub do_inval_ddt : Iommu W → ℕ → ℕ → Iommu W
  do_inval_ddt s dv did = record s {
    ddt_cache = map (inval_ddt_entry dv did) s.ddt_cache;
    pdt_cache = map (inval_ddt_pdt_entry dv did) s.pdt_cache;
  }

  -- `do_inval_pdt`
  unfoldable pub do_inval_pdt : Iommu W → ℕ → ℕ → Iommu W
  do_inval_pdt s did pid = record s { pdt_cache = map (inval_pdt_entry did pid) s.pdt_cache }

-- The operands of IOTINVAL. The operand NL is read by neither function.
pub record Iotinval : Type 0 where
  pub gv : ℕ
  pub av : ℕ
  pub nl : ℕ
  pub pscv : ℕ
  pub gscid : ℕ
  pub pscid : ℕ
  pub addr_63_12 : ℕ
  pub s : ℕ

-- `gscid_match && pscid_match && addr_match && global_match` of `do_iotinval_vma`
pub vma_selects : Iotinval → Tlb → Bool
vma_selects c e =
    ((c.gv == 0 && e.gv == 0) || (c.gv == 1 && e.gv == 1 && e.gscid == c.gscid))
    && (c.pscv == 0 || (c.pscv == 1 && e.pscv == 1 && e.pscid == c.pscid))
    && (c.av == 0 || (c.av == 1 && match_address_range c.addr_63_12 c.s e.vpn e.s))
    && (c.pscv == 0 || (c.pscv == 1 && e.g == 0))

abbrev pub inval_vma_entry : Iotinval → Tlb → Tlb
inval_vma_entry c e = if vma_selects c e then record e { valid = 0 } else e

-- The two tests of the loop of `do_iotinval_gvma`.
unfoldable pub gvma_gscid_selects : Iotinval → Tlb → Bool
gvma_gscid_selects c e = (c.gv == 0 && e.gv == 1) || (c.gv == 1 && e.gv == 1 && e.gscid == c.gscid)

unfoldable pub gvma_addr_selects : Iotinval → Tlb → Bool
gvma_addr_selects c e =
    e.pscv == 1
    || c.av == 0
    || c.gv == 0
    || (e.pscv == 0 && c.av == 1 && match_address_range c.addr_63_12 c.s e.vpn e.s)

-- The loop of `do_iotinval_gvma`, from the flags `gscid_match` and `addr_match` as the entries
-- before have left them: no iteration resets them.
pub inval_gvma_entries : Iotinval → ℕ → ℕ → List Tlb → List Tlb
inval_gvma_entries c gscid_match addr_match [] = []
inval_gvma_entries c gscid_match addr_match (e ∷ es) =
    let skip = e.valid == 0 in
    let gscid_match' = if not skip && gvma_gscid_selects c e then 1 else gscid_match in
    let addr_match' = if not skip && gvma_addr_selects c e then 1 else addr_match in
    let e' =
      if not skip && truth gscid_match' && truth addr_match' then record e { valid = 0 } else e in
    e' ∷ inval_gvma_entries c gscid_match' addr_match' es

module _ {W : Type 0} where
  -- `do_iotinval_vma`
  unfoldable pub do_iotinval_vma : Iommu W → Iotinval → Iommu W
  do_iotinval_vma st c = record st { tlb = map (inval_vma_entry c) st.tlb }

  -- `do_iotinval_gvma`. In C the two flags have no initial values; the arguments stand for what
  -- they hold.
  unfoldable pub do_iotinval_gvma : Iommu W → Iotinval → (gscid_match addr_match : ℕ) → Iommu W
  do_iotinval_gvma st c gscid_match addr_match = record st {
    tlb = inval_gvma_entries c gscid_match addr_match st.tlb;
  }
