-- ===== src/Ats.antt =====
-- Invalidation requests to devices, and the fence that waits for them: `allocate_itag`,
-- `any_ats_invalidation_requests_pending`, `do_pending_iofence_inval_reqs`,
-- `handle_invalidation_completion` and `do_ats_timer_expiry` of iommu_ats.c, and `do_ats_msg`,
-- `do_iofence_c`, `do_pending_iofence` and `queue_any_blocked_ats_inval_req` of
-- iommu_command_queue.c, under iommu_ref_model/libiommu/src.
pub mod Itag
pub mod Fence
pub mod Completion
use riscv_iommu_dv_model.Prelude.{
  ℕ, ◌+◌, ◌%◌, ◌^◌, Bool, true, false, not, ◌&&◌, ◌||◌, List, [], ◌∷◌, Option, none, some, ◌==◌,
  if◌then◌else◌, find, modify, get_bits, test_bit, bit,
}
use riscv_iommu_dv_model.Iommu.{Iommu}
use riscv_iommu_dv_model.Iommu.Platform.{Platform, AtsMsg}
use riscv_iommu_dv_model.Iommu.Caches.{ItagTracker}
use riscv_iommu_dv_model.Fault.{command_queue, own_write, next_index, generate_interrupt}

-- The destination of an invalidation request.
pub record Destination : Type 0 where
  pub dsv : ℕ
  pub dseg : ℕ
  pub rid : ℕ

abbrev pub is_free : ItagTracker → Bool
is_free t = t.busy == 0

abbrev pub is_busy : ItagTracker → Bool
is_busy t = t.busy == 1

-- The numbers of the messages, from iommu_ats.h.
abbrev pub inval_req_msg_code : ℕ
inval_req_msg_code = 0x01

abbrev pub prgr_msg_code : ℕ
prgr_msg_code = 0x05

module _ {W : Type 0} where
  -- `allocate_itag`: the tag, or none where all trackers are busy.
  pub allocate_itag : Iommu W → Destination → Option ℕ × Iommu W
  allocate_itag s d = elim (find is_free s.itag_tracker) [
    | none ↦ (none, s)
    | some (i, _) ↦ (
      some i,
      record s {
        itag_tracker =
            modify s.itag_tracker i (λ t. record t {
              busy = 1;
              dsv = d.dsv;
              dseg = d.dseg;
              rid = d.rid;
              num_rsp_rcvd = 0;
            });
      },
    )
  ]

  -- `any_ats_invalidation_requests_pending`
  pub any_ats_invalidation_requests_pending : Iommu W → Bool
  any_ats_invalidation_requests_pending s = elim (find is_busy s.itag_tracker) [
    | none ↦ false
    | some _ ↦ true
  ]

  -- The advance of `cqh` after a command.
  unfoldable pub advance_cqh : Iommu W → Iommu W
  advance_cqh s =
      let r = s.reg_file in
      record s { reg_file = record r { cqh = next_index r.cqh r.cqb.log2szm1 } }

-- The operands of IOFENCE.C.
pub record Iofence : Type 0 where
  pub pr : ℕ
  pub pw : ℕ
  pub av : ℕ
  pub wsi_bit : ℕ
  pub addr : ℕ
  pub word : ℕ

module _ {W : Type 0} where
  abbrev pub pending_fence : Iommu W → Iofence
  pending_fence s = record {
    pr = s.iofence_pending_pr;
    pw = s.iofence_pending_pw;
    av = s.iofence_pending_av;
    wsi_bit = s.iofence_pending_wsi_bit;
    addr = s.iofence_pending_addr;
    word = s.iofence_pending_data;
  }

  -- The turn-off that `do_pending_iofence` completes: `cqon = cqen; busy = 0`.
  unfoldable pub settle_cqcsr : Iommu W → Iommu W
  settle_cqcsr s =
      let r = s.reg_file in
      let c = r.cqcsr in
      if s.iofence_wait_pending_inv == 0
      then record s { reg_file = record r { cqcsr = record c { cqon = c.cqen; busy = false } } }
      else s

  abbrev pub pending_destination : Iommu W → Destination
  pending_destination s = record {
    dsv = s.pending_inval_req_dsv;
    dseg = s.pending_inval_req_dseg;
    rid = s.pending_inval_req_rid;
  }

module _ {W : Type 0} (P : Platform W) where
  -- `do_ats_msg`
  unfoldable pub do_ats_msg :
      Iommu W → (msgcode tag : ℕ) → Destination → (pv pid payload : ℕ) → Iommu W
  do_ats_msg s msgcode tag d pv pid payload = record s { world = P.send_msg msg s.world }
    where
      msg : AtsMsg
      msg = record {
        msgcode = msgcode;
        tag = tag;
        rid = d.rid;
        pv = pv;
        pid = pid;
        priv = 0;
        exec_req = 0;
        dsv = d.dsv;
        dseg = d.dseg;
        payload = payload;
      }

  -- `if ( cqcsr.cmd_to == 0 ) { cqcsr.cmd_to = 1; generate_interrupt(COMMAND_QUEUE); }`, and so for
  -- `cqmf`, `fence_w_ip` and `cmd_ill`.
  unfoldable pub set_cmd_to : Iommu W → Iommu W
  set_cmd_to s =
      let r = s.reg_file in
      let c = r.cqcsr in
      let marked : Iommu W = record s {
        reg_file = record r { cqcsr = record c { cmd_to = true } };
      } in
      if c.cmd_to then s else generate_interrupt P marked command_queue

  unfoldable pub set_cqmf : Iommu W → Iommu W
  set_cqmf s =
      let r = s.reg_file in
      let c = r.cqcsr in
      let marked : Iommu W = record s {
        reg_file = record r { cqcsr = record c { cqmf = true } };
      } in
      if c.cqmf then s else generate_interrupt P marked command_queue

  unfoldable pub set_cmd_ill : Iommu W → Iommu W
  set_cmd_ill s =
      let r = s.reg_file in
      let c = r.cqcsr in
      let marked : Iommu W = record s {
        reg_file = record r { cqcsr = record c { cmd_ill = true } };
      } in
      if c.cmd_ill then s else generate_interrupt P marked command_queue

  unfoldable pub set_fence_w_ip : Iommu W → ℕ → Iommu W
  set_fence_w_ip s wsi_bit =
      let r = s.reg_file in
      let c = r.cqcsr in
      let marked : Iommu W = record s {
        reg_file = record r { cqcsr = record c { fence_w_ip = true } };
      } in
      if not c.fence_w_ip && wsi_bit == 1 then generate_interrupt P marked command_queue else s

  -- `if ( PR == 1 || PW == 1 ) iommu_to_hb_do_global_observability_sync(PR, PW);`
  unfoldable pub fence_sync : Iommu W → Iofence → Iommu W
  fence_sync s f =
      if f.pr == 1 || f.pw == 1
      then record s { world = P.global_observability_sync f.pr f.pw s.world }
      else s

  -- The part of `do_iofence_c` from the sync on, once no request is pending and none timed out.
  unfoldable pub fence_commit : Iommu W → Iofence → ℕ × Iommu W
  fence_commit s f =
      let t = fence_sync s f in
      let (status, w) = own_write P t f.word f.addr 4 in
      let written : Iommu W = record t { world = w } in
      if f.av == 1 && not (status == 0)
      then (1, set_cqmf written)
      else (0, set_fence_w_ip (if f.av == 1 then written else t) f.wsi_bit)

  -- `do_iofence_c`: the value that it returns, and the state.
  unfoldable pub do_iofence_c : Iommu W → Iofence → ℕ × Iommu W
  do_iofence_c s f =
      let waiting : Iommu W = record s {
        iofence_wait_pending_inv = 1;
        iofence_pending_pr = f.pr;
        iofence_pending_pw = f.pw;
        iofence_pending_av = f.av;
        iofence_pending_wsi_bit = f.wsi_bit;
        iofence_pending_addr = f.addr;
        iofence_pending_data = f.word;
      } in
      let ready : Iommu W = record s { iofence_wait_pending_inv = 0 } in
      let timed_out = set_cmd_to ready in
      if any_ats_invalidation_requests_pending s
      then (1, waiting)
      else if s.ats_inv_req_timeout == 1
      then (1, record timed_out { ats_inv_req_timeout = 0 })
      else fence_commit ready f

  -- `do_pending_iofence`
  unfoldable pub do_pending_iofence : Iommu W → Iommu W
  do_pending_iofence s =
      let (ret, t) = do_iofence_c s (pending_fence s) in
      settle_cqcsr (if ret == 0 then advance_cqh t else t)

  -- `queue_any_blocked_ats_inval_req`
  unfoldable pub queue_any_blocked_ats_inval_req : Iommu W → Iommu W
  queue_any_blocked_ats_inval_req s =
      let d = pending_destination s in
      let (itag, t) = allocate_itag s d in
      let sent = λ (tag : ℕ).
        do_ats_msg t inval_req_msg_code tag d s.pending_inval_req_pv s.pending_inval_req_pid
          s.pending_inval_req_payload in
      if s.command_queue_stall_for_itag == 1
      then (elim itag [
        | none ↦ s
        | some tag ↦ let u = sent tag in record u { command_queue_stall_for_itag = 0 }
      ])
      else s

  -- `do_pending_iofence_inval_reqs`
  unfoldable pub do_pending_iofence_inval_reqs : Iommu W → Iommu W
  do_pending_iofence_inval_reqs s =
      let busy = any_ats_invalidation_requests_pending s in
      let t = if s.iofence_wait_pending_inv == 1 && not busy then do_pending_iofence s else s in
      if t.iofence_wait_pending_inv == 0 then queue_any_blocked_ats_inval_req t else t

-- The checks on one tracker that is in the completion's vector.
abbrev pub is_expected : AtsMsg → ItagTracker → Bool
is_expected m t =
    not (t.busy == 0)
    && not (t.dsv == 1 && (not (m.dsv == 1) || not (m.dseg == t.dseg)))
    && t.rid == m.rid

-- One response more; the last one frees the tag.
abbrev pub count_response : ℕ → ItagTracker → ItagTracker
count_response cc t =
    let n = (t.num_rsp_rcvd + 1) % 8 in
    record t { num_rsp_rcvd = n; busy = if n == cc then 0 else t.busy }

-- The loop of `handle_invalidation_completion` over the trackers from index `i` on: whether it met an
-- unexpected completion, at which it stops, and the trackers.
pub complete : AtsMsg → (itag_vector cc i : ℕ) → List ItagTracker → Bool × List ItagTracker
complete m v cc i [] = (false, [])
complete m v cc i (t ∷ ts) =
    let rest = complete m v cc (i + 1) ts in
    if not (test_bit v i)
    then (rest.0, t ∷ rest.1)
    else if not (is_expected m t)
    then (true, t ∷ ts)
    else (rest.0, count_response cc t ∷ rest.1)

-- The loop of `do_ats_timer_expiry`.
pub expire : (itag_vector i : ℕ) → List ItagTracker → List ItagTracker
expire v i [] = []
expire v i (t ∷ ts) = (if test_bit v i then record t { busy = 0 } else t) ∷ expire v (i + 1) ts

module _ {W : Type 0} (P : Platform W) where
  -- `handle_invalidation_completion`: 1 for an unexpected completion, else 0.
  unfoldable pub handle_invalidation_completion : Iommu W → AtsMsg → ℕ × Iommu W
  handle_invalidation_completion s m =
      let (unexpected, ts) =
        complete m (get_bits 31 0 m.payload) (get_bits 34 32 m.payload) 0 s.itag_tracker in
      let t : Iommu W = record s { itag_tracker = ts } in
      if unexpected then (1, t) else (0, do_pending_iofence_inval_reqs P t)

  -- `do_ats_timer_expiry`
  unfoldable pub do_ats_timer_expiry : Iommu W → ℕ → Iommu W
  do_ats_timer_expiry s itag_vector =
      do_pending_iofence_inval_reqs P
        (record s { itag_tracker = expire itag_vector 0 s.itag_tracker; ats_inv_req_timeout = 1 })
