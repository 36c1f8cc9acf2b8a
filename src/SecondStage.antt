-- ===== src/SecondStage.antt =====
-- The second stage: `second_stage_address_translation` of
-- iommu_ref_model/libiommu/src/iommu_second_stage_trans.c.
pub mod Frame
pub mod Bare
pub mod Leaf
pub mod Mapped
pub mod Returns
use riscv_iommu_dv_model.Prelude.{
  ℕ, zero, suc, ◌+◌, ◌-◌, ◌*◌, ◌/◌, ◌%◌, ◌^◌, Bool, true, false, not, ◌&&◌, ◌||◌, ◌==◌, ◌⊎◌, inl,
  inr, Option, none, some, if◌then◌else◌, bit_or, clear_low, get_bits, test_bit, bit,
}
use riscv_iommu_dv_model.Iommu.{Iommu}
use riscv_iommu_dv_model.Iommu.Platform.{Platform, Access}
use riscv_iommu_dv_model.Iommu.Pte.{Pte}
use riscv_iommu_dv_model.Fault.{is_access_fault, is_data_corruption}
use riscv_iommu_dv_model.Hpm.{Event, count_events}
use riscv_iommu_dv_model.PageTable.{
  Format, sv32, sv39, sv48, sv57, top_of, pte_size, pte_of, misaligned, page_size_at, invalid_pte,
  is_leaf, bad_pointer, bad_napot, lacks, marked_word, napot_pte, physical,
}

-- The arguments after `iommu`; `iohgatp` is its raw word.
pub record GuestAccess : Type 0 where
  pub gpa : ℕ
  pub check_access_perms : Bool
  pub did : ℕ
  pub is_read : Bool
  pub is_write : Bool
  pub is_exec : Bool
  pub is_implicit : Bool
  pub pv : ℕ
  pub pid : ℕ
  pub pscv : ℕ
  pub pscid : ℕ
  pub gv : ℕ
  pub gscid : ℕ
  pub iohgatp : ℕ
  pub gade : Bool
  pub sade : Bool
  pub sxl : Bool
  pub rcid : ℕ
  pub mcid : ℕ

-- GST_PAGE_FAULT, GST_ACCESS_FAULT and GST_DATA_CORRUPTION.
pub data GstFault : Type 0 where
  page_fault access_fault data_corruption : GstFault

-- The results of a translation: `pa`, `gst_page_sz` and `gpte`.
pub record Mapping : Type 0 where
  pub pa : ℕ
  pub page_sz : ℕ
  pub pte : Pte

-- How a pass from `step_2` on goes on.
pub data Visit : Type 0 where
  fault : GstFault → Visit
  pointer : ℕ → Visit
  leaf : Mapping → Visit
  changed : Visit

-- The format that `iohgatp.MODE` and `fctl.gxl` select; none where C sets no LEVELS.
unfoldable pub guest_format : (gxl : Bool) → (mode : ℕ) → Option Format
guest_format gxl mode =
    if mode == 8 && gxl
    then some sv32
    else if mode == 8 && not gxl
    then some sv39
    else if mode == 9 && not gxl
    then some sv48
    else if mode == 10 && not gxl
    then some sv57
    else none

-- `vpn[i]`: the root level has two bits more.
unfoldable pub guest_vpn : Format → (i gpa : ℕ) → ℕ
guest_vpn sv32 zero gpa = get_bits 21 12 gpa
guest_vpn sv32 (suc i) gpa = get_bits 34 22 gpa
guest_vpn f zero gpa = get_bits 20 12 gpa
guest_vpn f (suc zero) gpa = get_bits 29 21 gpa
guest_vpn sv39 (suc (suc i)) gpa = get_bits 40 30 gpa
guest_vpn f (suc (suc zero)) gpa = get_bits 38 30 gpa
guest_vpn sv48 (suc (suc (suc i))) gpa = get_bits 49 39 gpa
guest_vpn f (suc (suc (suc zero))) gpa = get_bits 47 39 gpa
guest_vpn f (suc (suc (suc (suc i)))) gpa = get_bits 58 48 gpa

-- `gpa_upper_bits`
unfoldable pub upper_bits : Format → (sxl : Bool) → (gpa : ℕ) → ℕ
upper_bits f true gpa = get_bits 63 34 gpa
upper_bits sv32 false gpa = 0
upper_bits sv39 false gpa = get_bits 63 41 gpa
upper_bits sv48 false gpa = get_bits 63 50 gpa
upper_bits sv57 false gpa = get_bits 63 59 gpa

-- The entry that stands for Bare.
unfoldable pub bare_gpte : (gpa : ℕ) → Pte
bare_gpte gpa = record {
  v = 1;
  r = 1;
  w = 1;
  x = 1;
  u = 1;
  g = 0;
  a = 1;
  d = 1;
  rsw = 0;
  ppn = gpa / 4096 % 2 ^ 44;
  reserved = 0;
  rsw60t59b = 0;
  pbmt = 0;
  n = 0;
}

-- `step_8`
unfoldable pub mapping_of : (gpa page_sz : ℕ) → Pte → Mapping
mapping_of gpa page_sz p =
    let q = napot_pte p gpa in
    record { pa = physical q.ppn page_sz gpa; page_sz = page_sz; pte = q }

-- No update of A or D is needed. The last test of C also wants D for an implicit access with SADE.
unfoldable pub is_settled : GuestAccess → Pte → Bool
is_settled q p =
    p.a == 1
    && (p.d == 1 || not q.is_write || p.w == 0)
    && (p.d == 1 || not q.is_implicit || p.w == 0 || not q.sade)

-- The event G_PT_WALKS.
abbrev pub g_pt_walk : GuestAccess → Event
g_pt_walk q = record {
  pv = q.pv;
  pid = q.pid;
  pscv = q.pscv;
  pscid = q.pscid;
  did = q.did;
  gscv = q.gv;
  gscid = q.gscid;
  event_id = 8;
}

module _ {W : Type 0} where
  -- The page size of Bare.
  unfoldable pub bare_page_sz : Iommu W → ℕ
  bare_page_sz s =
      let c = s.reg_file.capabilities in
      let gxl = s.reg_file.fctl.gxl in
      if c.sv57x4
      then s.sv57x4_bare_pg_sz
      else if c.sv48x4
      then s.sv48x4_bare_pg_sz
      else if c.sv39x4 && not gxl
      then s.sv39x4_bare_pg_sz
      else if c.sv32x4 && gxl
      then s.sv32x4_bare_pg_sz
      else 4096

  abbrev pub gst_access : Iommu W → GuestAccess → (addr size : ℕ) → Access
  gst_access s q addr size = record {
    addr = addr;
    size = size;
    rcid = q.rcid;
    mcid = q.mcid;
    pma = 0;
    big_endian = s.reg_file.fctl.be;
  }

-- What follows a pass: its result, the next level, or the pass again.
abbrev pub resume :
    {W : Type 0}
    → (Iommu W → ℕ → Option (GstFault ⊎ Mapping) × Iommu W)
    → (Iommu W → Option (GstFault ⊎ Mapping) × Iommu W)
    → Visit × Iommu W
    → Option (GstFault ⊎ Mapping) × Iommu W
resume descend again (fault g, t) = (some (inl g), t)
resume descend again (pointer b, t) = descend t b
resume descend again (leaf m, t) = (some (inr m), t)
resume descend again (changed, t) = again t

module _ {W : Type 0} (P : Platform W) (q : GuestAccess) (f : Format) where
  -- The update of A and D, from the second call of `count_events` on.
  unfoldable pub update_gpte : (i : ℕ) → Iommu W → (a raw : ℕ) → Visit × Iommu W
  update_gpte i s a raw =
      let t = count_events P (g_pt_walk q) s in
      let access = gst_access t q (a + guest_vpn f i q.gpa * pte_size f) (pte_size f) in
      let (status, amo, w) = P.read_memory_for_amo access t.world in
      let same = amo == raw in
      let dirty = (q.is_write || q.is_implicit) && test_bit amo 2 in
      let (status', w') = P.write_memory (if same then marked_word dirty amo else amo) access w in
      if is_access_fault status
      then (fault access_fault, record t { world = w })
      else if is_data_corruption status
      then (fault data_corruption, record t { world = w })
      else if is_access_fault status'
      then (fault access_fault, record t { world = w' })
      else if is_data_corruption status'
      then (fault data_corruption, record t { world = w' })
      else if not same
      then (changed, record t { world = w' })
      else (leaf (mapping_of q.gpa (page_size_at f i) (pte_of raw)), record t { world = w' })

  -- `step_5`
  unfoldable pub visit_leaf : (i : ℕ) → Iommu W → (a raw : ℕ) → Visit × Iommu W
  visit_leaf i s a raw =
      let p = pte_of raw in
      if lacks q.check_access_perms q.is_read q.is_write q.is_exec p
      then (fault page_fault, s)
      else if p.u == 0
      then (fault page_fault, s)
      else if misaligned f i raw
      then (fault page_fault, s)
      else if bad_napot i p
      then (fault page_fault, s)
      else if is_settled q p
      then (leaf (mapping_of q.gpa (page_size_at f i) p), s)
      else if not q.gade
      then (fault page_fault, s)
      else update_gpte i s a raw

  -- `step_2`
  unfoldable pub visit : (i : ℕ) → Iommu W → (a : ℕ) → Visit × Iommu W
  visit i s a =
      let t = count_events P (g_pt_walk q) s in
      let access = gst_access t q (bit_or a (guest_vpn f i q.gpa * pte_size f)) (pte_size f) in
      let (status, raw, w) = P.read_memory access t.world in
      let u : Iommu W = record t { world = w } in
      let p = pte_of raw in
      if not (clear_low a t.reg_file.capabilities.pas == 0)
      then (fault access_fault, t)
      else if is_access_fault status
      then (fault access_fault, u)
      else if is_data_corruption status
      then (fault data_corruption, u)
      else if invalid_pte t.reg_file.capabilities p
      then (fault page_fault, u)
      else if not (i == 0) && not (p.n == 0)
      then (fault page_fault, u)
      else if is_leaf p
      then visit_leaf i u a raw
      else if bad_pointer p
      then (fault page_fault, u)
      else (pointer (p.ppn * 4096), u)

  -- The walk from level `i` on, with at most `retries` entries that change under it; none where more
  -- do.
  unfoldable pub walk : (retries i : ℕ) → Iommu W → (a : ℕ) → Option (GstFault ⊎ Mapping) × Iommu W
  walk zero zero s a = resume (λ t b. (some (inl page_fault), t)) (λ t. (none, t)) (visit zero s a)
  walk zero (suc i) s a = resume (λ t b. walk zero i t b) (λ t. (none, t)) (visit (suc i) s a)
  walk (suc k) zero s a =
      resume (λ t b. (some (inl page_fault), t)) (λ t. walk k zero t a) (visit zero s a)
  walk (suc k) (suc i) s a =
      resume (λ t b. walk (suc k) i t b) (λ t. walk k (suc i) t a) (visit (suc i) s a)

module _ {W : Type 0} (P : Platform W) where
  -- `second_stage_address_translation`: the fault or the mapping, and the state; none where the retries
  -- do not suffice, or where the mode names no format and C reads variables that it has not set.
  unfoldable pub second_stage_address_translation :
      (retries : ℕ) → Iommu W → GuestAccess → Option (GstFault ⊎ Mapping) × Iommu W
  second_stage_address_translation retries s q =
      let mode = get_bits 63 60 q.iohgatp in
      if mode == 0
      then (some (inr (mapping_of q.gpa (bare_page_sz s) (bare_gpte q.gpa))), s)
      else elim (guest_format s.reg_file.fctl.gxl mode) [
        | none ↦ (none, s)
        | some f ↦
            if not (upper_bits f q.sxl q.gpa == 0)
            then (some (inl page_fault), s)
            else walk P q f retries (top_of f) s (get_bits 43 0 q.iohgatp * 4096)
      ]
