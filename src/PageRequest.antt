-- ===== src/PageRequest.antt =====
-- Page requests of devices: `handle_page_request` of iommu_ref_model/libiommu/src/iommu_ats.c.
use riscv_iommu_dv_model.Prelude.{
  ℕ, ◌+◌, ◌*◌, ◌%◌, ◌^◌, Bool, true, false, not, ◌&&◌, ◌||◌, ◌==◌, inl, inr, if◌then◌else◌, bit_or,
  get_bits, ◌⊎◌,
}
use riscv_iommu_dv_model.Iommu.{Iommu}
use riscv_iommu_dv_model.Iommu.Platform.{Platform, AtsMsg}
use riscv_iommu_dv_model.Iommu.Caches.{DeviceContext}
use riscv_iommu_dv_model.Fault.{
  page_queue, next_index, own_write, is_access_fault, is_data_corruption, generate_interrupt,
  report_fault,
}
use riscv_iommu_dv_model.Fault.Record.{Fault}
use riscv_iommu_dv_model.DeviceDirectory.{ddi, en_pri, prpr, locate_device_context}

-- `device_id`
abbrev pub device_of : AtsMsg → ℕ
device_of m = if m.dsv == 1 then bit_or m.rid (m.dseg * 2 ^ 16) else m.rid

-- The fault that a request is reported as.
abbrev pub page_fault_of : AtsMsg → (cause dtf : ℕ) → Fault
page_fault_of m cause dtf = record {
  cause = cause;
  iotval = 4;
  iotval2 = 0;
  ttyp = 9;
  dtf = dtf;
  device_id = device_of m;
  pid_valid = m.pv;
  process_id = m.pid;
  priv_req = m.priv;
}

-- The 16 bytes of `page_rec_t`, least significant first; a bit field keeps the low bits of what is
-- assigned to it.
unfoldable pub page_rec_raw : AtsMsg → ℕ
page_rec_raw m =
    m.pid % 2 ^ 20 * 2 ^ 12
    + m.pv % 2 * 2 ^ 32
    + (if m.pv == 0 then 0 else m.priv % 2) * 2 ^ 33
    + (if m.pv == 0 then 0 else m.exec_req % 2) * 2 ^ 34
    + device_of m % 2 ^ 24 * 2 ^ 40
    + m.payload * 2 ^ 64

-- Whether the id is too wide for the mode of the directory. `DDI` is an array of uint8_t here.
unfoldable pub is_too_wide : {W : Type 0} → Iommu W → (device_id : ℕ) → Bool
is_too_wide s device_id =
    let msi_flat = s.reg_file.capabilities.msi_flat in
    let mode = s.reg_file.ddtp.iommu_mode in
    let ddi1 = ddi msi_flat device_id 1 % 2 ^ 8 in
    let ddi2 = ddi msi_flat device_id 2 % 2 ^ 8 in
    mode == 3 && not (ddi2 == 0) || mode == 2 && (not (ddi2 == 0) || not (ddi1 == 0))

-- The "Page Request Group Response" of a request.
unfoldable pub prgr_of : AtsMsg → (response_code : ℕ) → (prpr : Bool) → AtsMsg
prgr_of m response_code prpr =
    let plain = (response_code == 1 || response_code == 0) && not prpr in
    record {
      msgcode = 5;
      tag = 0;
      rid = m.rid;
      pv = if plain then 0 else m.pv;
      pid = if plain then 0 else m.pid;
      priv = 0;
      exec_req = 0;
      dsv = m.dsv;
      dseg = m.dseg;
      payload =
          bit_or (bit_or (m.rid * 2 ^ 48 % 2 ^ 64) (response_code * 2 ^ 44))
            (get_bits 11 3 m.payload * 2 ^ 32);
    }

abbrev pub prec_addr : {W : Type 0} → Iommu W → ℕ
prec_addr s = bit_or (s.reg_file.pqb.ppn * 4096 % 2 ^ 64) (s.reg_file.pqt * 16 % 2 ^ 64)

module _ {W : Type 0} (P : Platform W) where
  -- From `send_prgr` on.
  unfoldable pub send_prgr : Iommu W → AtsMsg → (response_code : ℕ) → (prpr : Bool) → Iommu W
  send_prgr s m response_code prpr =
      let r = get_bits 0 0 m.payload in
      let w = get_bits 1 1 m.payload in
      let l = get_bits 2 2 m.payload in
      if l == 0 || l == 1 && r == 0 && w == 0
      then s
      else record s { world = P.send_msg (prgr_of m response_code prpr) s.world }

  -- From the check of `pqon` on, for a device whose page requests are enabled.
  unfoldable pub queue_page : Iommu W → AtsMsg → (prpr : Bool) → Iommu W
  queue_page s m prpr =
      let r = s.reg_file in
      let c = r.pqcsr in
      let next = next_index r.pqt r.pqb.log2szm1 in
      let (status, w) = own_write P s (page_rec_raw m) (prec_addr s) 16 in
      let full : Iommu W = record s { reg_file = record r { pqcsr = record c { pqof = true } } } in
      let failed : Iommu W = record s {
        world = w;
        reg_file = record r { pqcsr = record c { pqmf = true } };
      } in
      let stored : Iommu W = record s { world = w; reg_file = record r { pqt = next } } in
      if not c.pqon || not c.pqen
      then send_prgr s m 15 prpr
      else if c.pqmf
      then send_prgr s m 15 prpr
      else if c.pqof
      then send_prgr s m 0 prpr
      else if next == r.pqh
      then send_prgr (generate_interrupt P full page_queue) m 0 prpr
      else if is_access_fault status || is_data_corruption status
      then send_prgr (generate_interrupt P failed page_queue) m 15 prpr
      else generate_interrupt P stored page_queue

  -- From the call of `locate_device_context` on, with its result.
  abbrev pub page_of : AtsMsg → (ℕ ⊎ DeviceContext) × Iommu W → Iommu W
  page_of m (inl cause, t) = send_prgr (report_fault P t (page_fault_of m cause 0)) m 15 false
  page_of m (inr dc, t) =
      if not (en_pri dc)
      then send_prgr (report_fault P t (page_fault_of m 260 (get_bits 4 4 dc.tc))) m 1 (prpr dc)
      else queue_page t m (prpr dc)

  -- `handle_page_request`. The last three arguments are what `DC`, `LEVELS - 1` and `replace` hold where C
  -- leaves them uninitialised.
  unfoldable pub handle_page_request :
      Iommu W → AtsMsg → DeviceContext → (no_levels no_slot : ℕ) → Iommu W
  handle_page_request s m old no_levels no_slot =
      let mode = s.reg_file.ddtp.iommu_mode in
      let located = locate_device_context P m.pv m.pid (device_of m) s old no_levels no_slot in
      if mode == 0
      then send_prgr (report_fault P s (page_fault_of m 256 0)) m 15 false
      else if mode == 1
      then send_prgr (report_fault P s (page_fault_of m 260 0)) m 1 false
      else if is_too_wide s (device_of m)
      then send_prgr (report_fault P s (page_fault_of m 260 0)) m 1 false
      else page_of m located
