-- ===== src/FirstStage/Checks.antt =====
-- The arguments, the faults and the checks of `two_stage_address_translation`
-- (iommu_ref_model/libiommu/src/iommu_two_stage_trans.c).
use riscv_iommu_dv_model.Prelude.{
  ℕ, zero, suc, ◌-◌, ◌*◌, ◌/◌, ◌%◌, ◌^◌, Bool, true, false, not, ◌&&◌, ◌||◌, ◌==◌, if◌then◌else◌,
  bit_or, clear_low, get_bits, bit,
}
use riscv_iommu_dv_model.Iommu.Platform.{Access}
use riscv_iommu_dv_model.Iommu.Pte.{Pte}
use riscv_iommu_dv_model.Hpm.{Event}
use riscv_iommu_dv_model.PageTable.{Format, sv32, sv39, sv48, sv57, pte_size, napot_pte, physical}
use riscv_iommu_dv_model.SecondStage.{
  GuestAccess, GstFault, Mapping, page_fault, access_fault, data_corruption,
}

-- The arguments after `iommu`; `iosatp` and `iohgatp` are raw words.
pub record IovaAccess : Type 0 where
  pub iova : ℕ
  pub check_access_perms : Bool
  pub did : ℕ
  pub is_read : Bool
  pub is_write : Bool
  pub is_exec : Bool
  pub pv : ℕ
  pub pid : ℕ
  pub pscv : ℕ
  pub pscid : ℕ
  pub iosatp : ℕ
  pub priv : ℕ
  pub sum : Bool
  pub sade : Bool
  pub gv : ℕ
  pub gscid : ℕ
  pub iohgatp : ℕ
  pub gade : Bool
  pub sxl : Bool
  pub rcid : ℕ
  pub mcid : ℕ
  pub be : Bool

-- `cause` and `iotval2` of a failure.
pub record TransFault : Type 0 where
  pub cause : ℕ
  pub iotval2 : ℕ

-- The number of an exception, by the original access: of an instruction, a read, or a write.
abbrev pub by_access : IovaAccess → (exec read write : ℕ) → ℕ
by_access q exec read write = if q.is_exec then exec else if q.is_read then read else write

-- The labels at the end of the function.
unfoldable pub page_faulted : IovaAccess → TransFault
page_faulted q = record { cause = by_access q 12 13 15; iotval2 = 0 }

unfoldable pub access_faulted : IovaAccess → TransFault
access_faulted q = record { cause = by_access q 1 5 7; iotval2 = 0 }

abbrev pub corrupted : TransFault
corrupted = record { cause = 274; iotval2 = 0 }

-- `guest_page_fault`, with `is_implicit` 1, as it is wherever the label is reached.
unfoldable pub guest_page_faulted :
    IovaAccess → (a_gpa : ℕ) → (is_implicit_write : Bool) → TransFault
guest_page_faulted q a_gpa is_implicit_write = record {
  cause = by_access q 20 21 23;
  iotval2 = bit_or (bit_or (clear_low a_gpa 2) 1) (bit is_implicit_write * 2);
}

-- Where a fault of the second stage goes to.
unfoldable pub vs_fault :
    IovaAccess → (a_gpa : ℕ) → (is_implicit_write : Bool) → GstFault → TransFault
vs_fault q a_gpa w page_fault = guest_page_faulted q a_gpa w
vs_fault q a_gpa w access_fault = access_faulted q
vs_fault q a_gpa w data_corruption = corrupted

-- `vpn[i]`
unfoldable pub vpn : Format → (i iova : ℕ) → ℕ
vpn sv32 zero iova = get_bits 21 12 iova
vpn sv32 (suc i) iova = get_bits 31 22 iova
vpn f zero iova = get_bits 20 12 iova
vpn f (suc zero) iova = get_bits 29 21 iova
vpn f (suc (suc zero)) iova = get_bits 38 30 iova
vpn f (suc (suc (suc zero))) iova = get_bits 47 39 iova
vpn f (suc (suc (suc (suc i)))) iova = get_bits 56 48 iova

-- The shift that gives `masked_upper_bits`, which `mask` has 64 bits less of.
unfoldable pub upper_shift : Format → ℕ
upper_shift sv32 = 32
upper_shift sv39 = 38
upper_shift sv48 = 47
upper_shift sv57 = 56

-- The check on the upper bits of the address.
unfoldable pub not_canonical : Format → (sxl : Bool) → (iova : ℕ) → Bool
not_canonical f sxl iova =
    let mask = 2 ^ (64 - upper_shift f) - 1 in
    let u = iova / 2 ^ upper_shift f % 2 ^ (64 - upper_shift f) in
    (not (u == 0) && not (u == mask) && not sxl) || (not (u == 0) && sxl)

-- What the privilege of the access and SUM refuse.
unfoldable pub privilege_denies : IovaAccess → Pte → Bool
privilege_denies q p =
    (q.priv == 0 && p.u == 0)
    || (q.is_exec && q.priv == 1 && p.u == 1)
    || (q.priv == 1 && not q.is_exec && not q.sum && p.u == 1)

-- No update of A or D is needed.
unfoldable pub is_marked : IovaAccess → Pte → Bool
is_marked q p = p.a == 1 && (p.d == 1 || not q.is_write || p.w == 0)

-- `step_8`; `nl_g` is NL_G.
unfoldable pub vs_mapping_of : (iova page_sz nl_g : ℕ) → Pte → Mapping
vs_mapping_of iova page_sz nl_g p =
    let q = napot_pte p iova in
    record {
      pa = physical q.ppn page_sz iova;
      page_sz = page_sz;
      pte = record q { g = bit_or nl_g q.g };
    }

-- The entry that stands for Bare.
unfoldable pub bare_pte : Pte
bare_pte = record {
  v = 1;
  r = 1;
  w = 1;
  x = 1;
  u = 1;
  g = 1;
  a = 1;
  d = 1;
  rsw = 0;
  ppn = 0;
  reserved = 0;
  rsw60t59b = 0;
  pbmt = 0;
  n = 0;
}

-- The event S_VS_PT_WALKS.
abbrev pub vs_pt_walk : IovaAccess → Event
vs_pt_walk q = record {
  pv = q.pv;
  pid = q.pid;
  pscv = q.pscv;
  pscid = q.pscid;
  did = q.did;
  gscv = q.gv;
  gscid = q.gscid;
  event_id = 7;
}

-- The implicit access that the second stage translates.
unfoldable pub implicit_access : IovaAccess → (a : ℕ) → GuestAccess
implicit_access q a = record {
  gpa = a;
  check_access_perms = true;
  did = q.did;
  is_read = true;
  is_write = false;
  is_exec = false;
  is_implicit = true;
  pv = q.pv;
  pid = q.pid;
  pscv = q.pscv;
  pscid = q.pscid;
  gv = q.gv;
  gscid = q.gscid;
  iohgatp = q.iohgatp;
  gade = q.gade;
  sade = q.sade;
  sxl = q.sxl;
  rcid = q.rcid;
  mcid = q.mcid;
}

-- The access to the entry that the second stage maps to `g`.
abbrev pub pte_access : IovaAccess → Format → (g : Mapping) → Access
pte_access q f g = record {
  addr = g.pa;
  size = pte_size f;
  rcid = q.rcid;
  mcid = q.mcid;
  pma = g.pte.pbmt;
  big_endian = q.be;
}
