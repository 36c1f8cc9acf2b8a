-- ===== src/Fault/Record.antt =====
-- The fault record, `fault_rec_t` of iommu_ref_model/libiommu/include/iommu_fault.h, as
-- `report_fault` fills it and as its 32 bytes spell it.
use riscv_iommu_dv_model.Prelude.{
  ℕ, ◌+◌, ◌*◌, ◌%◌, ◌^◌, ◌<◌, ◌≡◌, arith, ◌==◌, if◌then◌else◌, get_bits,
}

-- The arguments of `report_fault` after `iommu`.
pub record Fault : Type 0 where
  pub cause : ℕ
  pub iotval : ℕ
  pub iotval2 : ℕ
  pub ttyp : ℕ
  pub dtf : ℕ
  pub device_id : ℕ
  pub pid_valid : ℕ
  pub process_id : ℕ
  pub priv_req : ℕ

-- `fault_rec_t`
pub record FaultRec : Type 0 where
  pub cause : ℕ
  pub pid : ℕ
  pub pv : ℕ
  pub priv : ℕ
  pub ttyp : ℕ
  pub did : ℕ
  pub custom : ℕ
  pub reserved : ℕ
  pub iotval : ℕ
  pub iotval2 : ℕ

-- The record that `report_fault` builds. A bit field keeps the low bits of what is assigned to it.
unfoldable pub frec_of : Fault → FaultRec
frec_of f = record {
  cause = f.cause % 2 ^ 12;
  pid = if f.pid_valid == 0 then 0 else f.process_id % 2 ^ 20;
  pv = if f.pid_valid == 0 then 0 else f.pid_valid % 2;
  priv = if f.pid_valid == 0 then 0 else f.priv_req % 2;
  ttyp = f.ttyp % 2 ^ 6;
  did = f.device_id % 2 ^ 24;
  custom = 0;
  reserved = 0;
  iotval = f.iotval;
  iotval2 = f.iotval2;
}

-- The layout of the union: 32 bytes, least significant first.
unfoldable pub fault_rec_raw : FaultRec → ℕ
fault_rec_raw r =
    r.cause
    + r.pid * 2 ^ 12
    + r.pv * 2 ^ 32
    + r.priv * 2 ^ 33
    + r.ttyp * 2 ^ 34
    + r.did * 2 ^ 40
    + r.custom * 2 ^ 64
    + r.reserved * 2 ^ 96
    + r.iotval * 2 ^ 128
    + r.iotval2 * 2 ^ 192

-- What software reads back from the bit positions that iommu_fault.h documents.
pub decode : ℕ → FaultRec
decode w = record {
  cause = get_bits 11 0 w;
  pid = get_bits 31 12 w;
  pv = get_bits 32 32 w;
  priv = get_bits 33 33 w;
  ttyp = get_bits 39 34 w;
  did = get_bits 63 40 w;
  custom = get_bits 95 64 w;
  reserved = get_bits 127 96 w;
  iotval = get_bits 191 128 w;
  iotval2 = get_bits 255 192 w;
}

-- Software that reads the documented bit positions of a fault record gets back every field that
-- `report_fault` put there, if the two 64-bit values are 64-bit values.
pub decode-fault_rec_raw :
    (f : Fault)
    → f.iotval < 2 ^ 64
    → f.iotval2 < 2 ^ 64
    → decode (fault_rec_raw (frec_of f)) ≡ frec_of f
unfolding decode fault_rec_raw frec_of
decode-fault_rec_raw f h k = ground arith
