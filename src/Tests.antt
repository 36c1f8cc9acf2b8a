-- ===== src/Tests.antt =====
-- A small platform and states of the model on it, for the examples of the children: the code of
-- iommu_ref_model/libiommu/src run on concrete registers, caches and queues.
mod Faults
mod Caches
mod Commands
mod Monitor
mod Registers
mod Directory
mod SecondStage
mod Process
mod FirstStage
mod Msi
use riscv_iommu_dv_model.Prelude.{
  ℕ, ◌+◌, ◌*◌, ◌^◌, ◌==◌, ◌||◌, if◌then◌else◌, true, false, List, [], ◌∷◌,
}
use riscv_iommu_dv_model.Iommu.{Iommu}
use riscv_iommu_dv_model.Iommu.Platform.{Platform}
use riscv_iommu_dv_model.Iommu.Regs.{
  Capabilities, Fctl, QueueBase, Cqcsr, Fqcsr, Pqcsr, Ipsr, Icvec, MsiCfg, RegFile,
}
use riscv_iommu_dv_model.Iommu.Caches.{
  Tlb, DeviceContext, ProcessContext, DdtCache, PdtCache, ItagTracker,
}
use riscv_iommu_dv_model.Fault.Record.{Fault}

-- A platform whose world is a number: what a read returns, and one more after each write.
abbrev pub counter : Platform ℕ
counter = record {
  read_memory = λ a w. (0, w, w);
  read_memory_for_amo = λ a w. (0, w, w);
  write_memory = λ d a w. (0, w + 1);
  global_observability_sync = λ pr pw w. w;
  send_msg = λ m w. w + 1;
}

-- What `tables` holds: in the tables of the pages 4 and 48 a superpage of 1 GiB, in the process
-- directory of page 40 the context of process 5, and in the MSI page table of page 52 an entry.
abbrev pub contents : ℕ → ℕ
contents addr =
    if addr == 16424 || addr == 196648
    then 215 + 3 * 2 ^ 28
    else if addr == 163920
    then 1
    else if addr == 213024
    then 7 + 9 * 2 ^ 10
    else 0

-- A memory that writes do not change.
abbrev pub tables : Platform ℕ
tables = record {
  read_memory = λ a w. (0, contents a.addr, w);
  read_memory_for_amo = λ a w. (0, contents a.addr, w);
  write_memory = λ d a w. (0, w);
  global_observability_sync = λ pr pw w. w;
  send_msg = λ m w. w;
}

-- A platform that refuses every write with an access fault.
abbrev pub refusing : Platform ℕ
refusing = record {
  read_memory = λ a w. (1, 0, w);
  read_memory_for_amo = λ a w. (1, 0, w);
  write_memory = λ d a w. (1, w);
  global_observability_sync = λ pr pw w. w;
  send_msg = λ m w. w;
}

abbrev capabilities : Capabilities
capabilities = record {
  version = 16;
  sv32 = false;
  sv39 = true;
  sv48 = true;
  sv57 = false;
  rsvd0 = 0;
  svrsw60t59b = false;
  svpbmt = true;
  sv32x4 = false;
  sv39x4 = true;
  sv48x4 = true;
  sv57x4 = false;
  rsvd1 = false;
  amo_mrif = false;
  msi_flat = false;
  msi_mrif = false;
  amo_hwad = true;
  ats = true;
  t2gpa = false;
  both_end = false;
  igs = 0;
  hpm = true;
  dbg = false;
  pas = 46;
  pd8 = true;
  pd17 = true;
  pd20 = false;
  qosid = false;
  nl = false;
  s = false;
  rsvd3 = 0;
  custom = 0;
}

-- Queues of four entries that are on, with two commands pending and no fault.
abbrev pub registers : RegFile
registers = record {
  capabilities = capabilities;
  fctl = record { be = false; wsi = false; gxl = false; reserved = 0; custom = 0 };
  ddtp = record { iommu_mode = 2; busy = false; ppn = 32 };
  cqb = record { log2szm1 = 1; ppn = 16 };
  cqh = 3;
  cqt = 1;
  fqb = record { log2szm1 = 1; ppn = 17 };
  fqh = 0;
  fqt = 0;
  pqb = record { log2szm1 = 1; ppn = 18 };
  pqh = 0;
  pqt = 0;
  cqcsr = record {
    cqen = true;
    cie = true;
    cqmf = false;
    cmd_to = false;
    cmd_ill = false;
    fence_w_ip = false;
    cqon = true;
    busy = false;
  };
  fqcsr = record { fqen = true; fie = true; fqmf = false; fqof = false; fqon = true; busy = false };
  pqcsr = record { pqen = true; pie = true; pqmf = false; pqof = false; pqon = true; busy = false };
  ipsr = record { cip = false; fip = false; pmip = false; pip = false };
  iocountinh = 0;
  iohpmcycles = record { counter = 0; of_bit = false };
  iohpmctr = [];
  iohpmevt = [];
  tr_req_iova = 0;
  tr_req_ctrl = record {
    go_busy = false;
    priv = false;
    exe = false;
    nw = false;
    reserved0 = 0;
    pid = 0;
    pv = false;
    reserved = 0;
    custom = 0;
    did = 0;
  };
  tr_response = record { fault = false; pbmt = 0; s = false; ppn = 0 };
  icvec = record { civ = 0; fiv = 1; pmiv = 0; piv = 0 };
  msi_cfg_tbl =
      record { msi_addr = 4096; msi_data = 7; m = false }
      ∷ record { msi_addr = 8192; msi_data = 8; m = false }
      ∷ [];
  rcid = 0;
  mcid = 0;
  qosid_rsvd1 = 0;
  qosid_rsvd2 = 0;
}

-- A translation of page 5 of guest 1, process 2.
abbrev pub page_5 : Tlb
page_5 = record {
  vpn = 5;
  gv = 1;
  pscv = 1;
  gscid = 1;
  pscid = 2;
  vs_r = 1;
  vs_w = 0;
  vs_x = 0;
  pbmt = 0;
  g = 0;
  u = 1;
  vs_d = 0;
  g_r = 1;
  g_w = 0;
  g_x = 0;
  g_d = 0;
  ppn = 9;
  s = 0;
  lru = 0;
  valid = 1;
  is_msi = 0;
}

-- A translation of page 6 of guest 3.
abbrev pub page_6 : Tlb
page_6 = record page_5 { vpn = 6; gscid = 3; pscid = 4; ppn = 10 }

abbrev pub dc_7 : DeviceContext
dc_7 = record {
  tc = 1;
  iohgatp = 0;
  ta = 0;
  fsc = 0;
  msiptp = 0;
  msi_addr_mask = 0;
  msi_addr_pattern = 0;
  reserved = 0;
}

-- A device behind the second-stage table of page 4, in Sv39x4.
abbrev pub dc_guest : DeviceContext
dc_guest = record dc_7 { iohgatp = 8 * 2 ^ 60 + 2 ^ 44 + 4 }

-- A device with the process directory of page 40, with one level.
abbrev pub dc_pdt : DeviceContext
dc_pdt = record dc_7 { tc = 33; fsc = 2 ^ 60 + 40 }

abbrev pub pc_2 : ProcessContext
pc_2 = record { ta = 1; fsc = 0 }

abbrev pub tracker_free : ItagTracker
tracker_free = record { busy = 0; dsv = 0; dseg = 0; rid = 0; num_rsp_rcvd = 0 }

abbrev pub tracker_busy : ItagTracker
tracker_busy = record { busy = 1; dsv = 0; dseg = 0; rid = 5; num_rsp_rcvd = 0 }

abbrev pub start_with : {W : Type 0} → W → Iommu W
start_with world = record {
  world = world;
  command_queue_stall_for_itag = 0;
  ats_inv_req_timeout = 0;
  iofence_wait_pending_inv = 0;
  iofence_pending_pr = 0;
  iofence_pending_pw = 0;
  iofence_pending_av = 0;
  iofence_pending_wsi_bit = 0;
  iofence_pending_addr = 0;
  iofence_pending_data = 0;
  pending_inval_req_dsv = 0;
  pending_inval_req_dseg = 0;
  pending_inval_req_rid = 0;
  pending_inval_req_pv = 0;
  pending_inval_req_pid = 0;
  pending_inval_req_payload = 0;
  reg_file = registers;
  num_hpm = 0;
  hpmctr_bits = 40;
  event_id_limit = 8;
  num_vec_bits = 1;
  gxl_writeable = 0;
  fctl_be_writeable = 0;
  max_iommu_mode = 4;
  fill_ats_trans_in_ioatc = 0;
  max_devid_mask = 255;
  trans_for_debug = 0;
  sv57_bare_pg_sz = 4096;
  sv48_bare_pg_sz = 4096;
  sv39_bare_pg_sz = 4096;
  sv32_bare_pg_sz = 4096;
  sv57x4_bare_pg_sz = 4096;
  sv48x4_bare_pg_sz = 4096;
  sv39x4_bare_pg_sz = 4096;
  sv32x4_bare_pg_sz = 4096;
  iommu_qosid_mask = 0;
  ddt_cache =
      record { dc = dc_7; did = 7; lru = 0; valid = 1 }
      ∷ record { dc = dc_7; did = 0; lru = 0; valid = 0 }
      ∷ [];
  pdt_cache =
      record { pc = pc_2; did = 7; pid = 2; lru = 0; valid = 1 }
      ∷ record { pc = pc_2; did = 0; pid = 0; lru = 0; valid = 0 }
      ∷ [];
  tlb = page_5 ∷ page_6 ∷ [];
  dc_lru_time = 1;
  pc_lru_time = 1;
  tlb_lru_time = 1;
  itag_tracker = tracker_busy ∷ tracker_free ∷ [];
  msi_pending = 0 ∷ 0 ∷ [];
}

abbrev pub start : Iommu ℕ
start = start_with 1

-- A memory of words that are read and written, and its contents: the leaves of `contents` with A and D
-- clear, and one that maps the first GiB to itself for a guest.
abbrev pub ram : Platform (ℕ → ℕ)
ram = record {
  read_memory = λ a w. (0, w a.addr, w);
  read_memory_for_amo = λ a w. (0, w a.addr, w);
  write_memory = λ d a w. (0, λ x. if x == a.addr then d else w x);
  global_observability_sync = λ pr pw w. w;
  send_msg = λ m w. w;
}

abbrev pub unmarked : ℕ → ℕ
unmarked addr =
    if addr == 16424 || addr == 196648
    then 23 + 3 * 2 ^ 28
    else if addr == 16384
    then 23
    else if addr == 163920
    then 1
    else 0

-- A state on it whose interrupts are wires.
abbrev pub wired : Iommu (ℕ → ℕ)
wired = record (start_with unmarked) {
  reg_file = record registers {
    fctl = record { be = false; wsi = true; gxl = false; reserved = 0; custom = 0 };
  };
}

-- Such devices whose second-stage entries are updated, the second one with a process directory.
abbrev pub dc_updating : DeviceContext
dc_updating = record dc_guest { tc = 129 }

abbrev pub dc_pdt_updating : DeviceContext
dc_pdt_updating = record dc_pdt { tc = 161; iohgatp = dc_guest.iohgatp }

-- A page fault of a read, that DTF does not filter.
abbrev pub read_fault : Fault
read_fault = record {
  cause = 13;
  iotval = 20480;
  iotval2 = 0;
  ttyp = 2;
  dtf = 0;
  device_id = 7;
  pid_valid = 1;
  process_id = 2;
  priv_req = 0;
}

-- The same fault where DTF is 1.
abbrev pub filtered_fault : Fault
filtered_fault = record read_fault { dtf = 1 }
