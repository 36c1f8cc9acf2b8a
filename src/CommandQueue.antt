-- ===== src/CommandQueue.antt =====
-- The command queue: `process_commands` of iommu_ref_model/libiommu/src/iommu_command_queue.c. A
-- command is the 128-bit number that its 16 bytes spell; its fields are those of `command_t` in
-- iommu_ref_model/libiommu/include/iommu_command_queue.h.
pub mod Head
pub mod Format
pub mod Legal
use riscv_iommu_dv_model.Prelude.{
  ℕ, ◌+◌, ◌-◌, ◌*◌, ◌%◌, ◌^◌, bit_and, bit_or, Bool, true, false, not, ◌&&◌, ◌||◌, Option, none,
  some, ◌==◌, if◌then◌else◌, ltb, get_bits, clear_low,
}
use riscv_iommu_dv_model.Iommu.{Iommu}
use riscv_iommu_dv_model.Iommu.Platform.{Platform}
use riscv_iommu_dv_model.Fault.{own_access, access_fault}
use riscv_iommu_dv_model.Invalidate.{
  Iotinval, do_inval_ddt, do_inval_pdt, do_iotinval_vma, do_iotinval_gvma,
}
use riscv_iommu_dv_model.Ats.{
  Destination, Iofence, allocate_itag, advance_cqh, do_ats_msg, set_cqmf, set_cmd_ill, do_iofence_c,
  inval_req_msg_code, prgr_msg_code,
}

-- How the execution of a command ends: the head advances, it stays, or the command is illegal.
pub data Outcome (W : Type 0) : Type 0 where
  retired : Iommu W → Outcome W
  held : Iommu W → Outcome W
  illegal : Outcome W

-- `command.any.opcode` and `command.any.func3`
abbrev pub opcode : ℕ → ℕ
opcode c = get_bits 6 0 c

abbrev pub func3 : ℕ → ℕ
func3 c = get_bits 9 7 c

-- `command.iotinval`
abbrev pub iotinval_of : ℕ → Iotinval
iotinval_of c = record {
  gv = get_bits 33 33 c;
  av = get_bits 10 10 c;
  nl = get_bits 34 34 c;
  pscv = get_bits 32 32 c;
  gscid = get_bits 59 44 c;
  pscid = get_bits 31 12 c;
  addr_63_12 = get_bits 125 74 c;
  s = get_bits 73 73 c;
}

-- `command.iofence`; the address is `addr_63_2 << 2`, a field of 62 bits whose shift keeps 62.
abbrev pub iofence_of : ℕ → Iofence
iofence_of c = record {
  pr = get_bits 12 12 c;
  pw = get_bits 13 13 c;
  av = get_bits 10 10 c;
  wsi_bit = get_bits 11 11 c;
  addr = get_bits 125 64 c * 4 % 2 ^ 62;
  word = get_bits 63 32 c;
}

-- `command.iodir`
abbrev pub iodir_dv : ℕ → ℕ
iodir_dv c = get_bits 33 33 c

abbrev pub iodir_did : ℕ → ℕ
iodir_did c = get_bits 63 40 c

abbrev pub iodir_pid : ℕ → ℕ
iodir_pid c = get_bits 31 12 c

-- `command.ats`
abbrev pub destination_of : ℕ → Destination
destination_of c = record {
  dsv = get_bits 33 33 c;
  dseg = get_bits 63 56 c;
  rid = get_bits 55 40 c;
}

abbrev pub ats_pv : ℕ → ℕ
ats_pv c = get_bits 32 32 c

abbrev pub ats_pid : ℕ → ℕ
ats_pid c = get_bits 31 12 c

abbrev pub ats_payload : ℕ → ℕ
ats_payload c = get_bits 127 64 c

-- The check on the reserved bits of the IODIR commands; `true` leads to `command_illegal`.
pub iodir_reserved : ℕ → Bool
iodir_reserved c =
    not (get_bits 11 10 c == 0)
    || not (get_bits 32 32 c == 0)
    || not (get_bits 39 34 c == 0)
    || not (get_bits 127 64 c == 0)

module _ {W : Type 0} where
  -- The same checks for the other groups of commands.
  pub iotinval_reserved : Iommu W → ℕ → Bool
  iotinval_reserved s c =
      not (get_bits 11 11 c == 0)
      || not (get_bits 43 35 c == 0)
      || not (get_bits 63 60 c == 0)
      || not (get_bits 72 64 c == 0)
      || not (get_bits 127 126 c == 0)
      || (not s.reg_file.capabilities.nl && not (get_bits 34 34 c == 0))
      || (not s.reg_file.capabilities.s && not (get_bits 73 73 c == 0))

  pub iofence_reserved : Iommu W → ℕ → Bool
  iofence_reserved s c =
      not (get_bits 31 14 c == 0)
      || not (get_bits 127 126 c == 0)
      || (not s.reg_file.fctl.wsi && get_bits 11 11 c == 1)

  pub ats_reserved : Iommu W → ℕ → Bool
  ats_reserved s c =
      not s.reg_file.capabilities.ats || not (get_bits 11 10 c == 0) || not (get_bits 39 34 c == 0)

  -- `command.iodir.did & ~iommu->max_devid_mask`
  abbrev pub did_too_wide : Iommu W → ℕ → Bool
  did_too_wide s did = not (bit_and did (2 ^ 32 - 1 - s.max_devid_mask) == 0)

  abbrev pub pid_too_wide : Iommu W → ℕ → Bool
  pid_too_wide s pid =
      let r = s.reg_file.capabilities in
      (not r.pd20 && ltb (2 ^ 17 - 1) pid) || (not r.pd20 && not r.pd17 && ltb (2 ^ 8 - 1) pid)

  -- The cases of the switch on the opcode. The last two arguments are what the flags of
  -- `do_iotinval_gvma` hold at its entry.
  unfoldable pub exec_iotinval : Iommu W → (c gscid_match addr_match : ℕ) → Outcome W
  exec_iotinval s c gscid_match addr_match =
      let op = iotinval_of c in
      if iotinval_reserved s c
      then illegal
      else if func3 c == 0
      then retired (do_iotinval_vma s op)
      else if func3 c == 1
      then (if not (op.pscv == 0)
          then illegal
          else retired (do_iotinval_gvma s op gscid_match addr_match))
      else illegal

  unfoldable pub exec_iodir : Iommu W → ℕ → Outcome W
  exec_iodir s c =
      let dv = iodir_dv c in
      let did = iodir_did c in
      let pid = iodir_pid c in
      if iodir_reserved c
      then illegal
      else if func3 c == 0
      then (if not (pid == 0)
          then illegal
          else if not (dv == 0) && did_too_wide s did
          then illegal
          else retired (do_inval_ddt s dv did))
      else if func3 c == 1
      then (if not (dv == 1)
          then illegal
          else if did_too_wide s did
          then illegal
          else if pid_too_wide s pid
          then illegal
          else retired (do_inval_pdt s did pid))
      else illegal

  -- The one-deep buffer for a request that finds no tag.
  unfoldable pub stall_for_itag : Iommu W → ℕ → Iommu W
  stall_for_itag s c =
      let d = destination_of c in
      record s {
        pending_inval_req_dsv = d.dsv;
        pending_inval_req_dseg = d.dseg;
        pending_inval_req_rid = d.rid;
        pending_inval_req_pv = ats_pv c;
        pending_inval_req_pid = ats_pid c;
        pending_inval_req_payload = ats_payload c;
        command_queue_stall_for_itag = 1;
      }

  -- The tests that make `process_commands` return at once.
  unfoldable pub cq_idle : Iommu W → Bool
  cq_idle s =
      let q = s.reg_file.cqcsr in
      not q.cqon
      || not q.cqen
      || q.cqmf
      || q.cmd_ill
      || q.cmd_to
      || not (s.command_queue_stall_for_itag == 0)
      || not (s.iofence_wait_pending_inv == 0)
      || s.reg_file.cqh == s.reg_file.cqt

  abbrev pub command_addr : Iommu W → ℕ
  command_addr s = bit_or (s.reg_file.cqb.ppn * 4096 % 2 ^ 64) (s.reg_file.cqh * 16 % 2 ^ 64)

module _ {W : Type 0} (P : Platform W) where
  unfoldable pub exec_iofence : Iommu W → ℕ → Outcome W
  exec_iofence s c =
      let (ret, t) = do_iofence_c P s (iofence_of c) in
      if iofence_reserved s c
      then illegal
      else if not (func3 c == 0)
      then illegal
      else if not (ret == 0)
      then held t
      else retired t

  abbrev pub send_ats : Iommu W → (msgcode tag c : ℕ) → Iommu W
  send_ats s msgcode tag c =
      do_ats_msg P s msgcode tag (destination_of c) (ats_pv c) (ats_pid c) (ats_payload c)

  -- `case INVAL` of the ATS commands.
  unfoldable pub exec_ats_inval : Iommu W → ℕ → Iommu W
  exec_ats_inval s c =
      let (itag, t) = allocate_itag s (destination_of c) in
      elim itag [ none ↦ stall_for_itag s c | some tag ↦ send_ats t inval_req_msg_code tag c ]

  unfoldable pub exec_ats : Iommu W → ℕ → Outcome W
  exec_ats s c =
      if ats_reserved s c
      then illegal
      else if func3 c == 0
      then retired (exec_ats_inval s c)
      else if func3 c == 1
      then retired (send_ats s prgr_msg_code 0 c)
      else illegal

  -- The switch on the opcode.
  unfoldable pub execute : Iommu W → (c gscid_match addr_match : ℕ) → Outcome W
  execute s c gscid_match addr_match =
      if opcode c == 1
      then exec_iotinval s c gscid_match addr_match
      else if opcode c == 3
      then exec_iodir s c
      else if opcode c == 2
      then exec_iofence s c
      else if opcode c == 4
      then exec_ats s c
      else illegal

  -- The read of the command at the head: the status, the command, the world.
  pub fetch : Iommu W → ℕ × ℕ × W
  fetch s =
      if clear_low (command_addr s) s.reg_file.capabilities.pas == 0
      then P.read_memory (own_access s (command_addr s) 16) s.world
      else (access_fault, 0, s.world)

  -- What follows the switch, with the label `command_illegal`.
  unfoldable pub finish : Iommu W → Outcome W → Iommu W
  finish s (retired t) = advance_cqh t
  finish s (held t) = t
  finish s illegal = set_cmd_ill P s

  -- `process_commands`
  unfoldable pub process_commands : Iommu W → (gscid_match addr_match : ℕ) → Iommu W
  process_commands s gscid_match addr_match =
      let (status, c, w) = fetch s in
      let t : Iommu W = record s { world = w } in
      if cq_idle s
      then s
      else if not (status == 0)
      then set_cqmf P t
      else finish t (execute t c gscid_match addr_match)
