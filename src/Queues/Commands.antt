-- ===== src/Queues/Commands.antt =====
-- The queues under `process_commands` of iommu_ref_model/libiommu/src/iommu_command_queue.c and
-- `count_events` of iommu_hpm.c.
use riscv_iommu_dv_model.Prelude.{
  ℕ, zero, suc, ◌+◌, Bool, true, false, not, ◌&&◌, arith, ap, ◌==◌, if◌then◌else◌,
}
use riscv_iommu_dv_model.Iommu.{Iommu}
use riscv_iommu_dv_model.Iommu.Platform.{Platform}
use riscv_iommu_dv_model.Fault.{hpm}
use riscv_iommu_dv_model.Invalidate.{do_inval_ddt, do_inval_pdt, do_iotinval_vma, do_iotinval_gvma}
use riscv_iommu_dv_model.Ats.{do_ats_msg, do_iofence_c}
use riscv_iommu_dv_model.Ats.Itag.{allocate_itag_lem, exhausted, fresh}
use riscv_iommu_dv_model.CommandQueue.{
  Outcome, retired, held, illegal, iotinval_of, iofence_of, destination_of, exec_iotinval,
  exec_iodir, exec_iofence, exec_ats_inval, exec_ats, execute, cq_idle, fetch, finish,
  process_commands, stall_for_itag, iotinval_reserved, iodir_reserved, iofence_reserved,
  ats_reserved, func3, opcode, did_too_wide, pid_too_wide, iodir_dv, iodir_did, iodir_pid,
}
use riscv_iommu_dv_model.Hpm.{Event, count_one, count_from, count_events, overflowed}
use riscv_iommu_dv_model.Queues.{IsQueues, if_keeps}
use riscv_iommu_dv_model.Queues.Faults.{Keeps, generate_interrupt-Keeps}
use riscv_iommu_dv_model.Queues.Fences.{
  advance_cqh-Keeps, allocate_itag-Keeps, set_cqmf-Keeps, set_cmd_ill-Keeps, do_iofence_c-Keeps,
}

module _ {W : Type 0} where
  -- The state that an execution leaves, if it leaves one, has its queues in order.
  abbrev IsKept : Outcome W → Type 0
  IsKept (retired t) = IsQueues t.reg_file
  IsKept (held t) = IsQueues t.reg_file
  IsKept illegal = Unit

  if-IsKept : (b : Bool) (x y : Outcome W) → IsKept x → IsKept y → IsKept (if b then x else y)
  if-IsKept true x y h k = h
  if-IsKept false x y h k = k

  refused : (b : Bool) (x : Outcome W) → IsKept x → IsKept (if b then illegal else x)
  refused b x k = if-IsKept b illegal x tt k

  exec_iotinval-IsKept :
      (s : Iommu W) (c i j : ℕ) → IsQueues s.reg_file → IsKept (exec_iotinval s c i j)
  unfolding exec_iotinval do_iotinval_vma do_iotinval_gvma
  exec_iotinval-IsKept s c i j v = refused (iotinval_reserved s c) _ (
      if-IsKept (func3 c == 0) _ _ v
        (if-IsKept (func3 c == 1) _ _ (refused (not ((iotinval_of c).pscv == 0)) _ v) tt))

  exec_iodir-IsKept : (s : Iommu W) (c : ℕ) → IsQueues s.reg_file → IsKept (exec_iodir s c)
  unfolding exec_iodir do_inval_ddt do_inval_pdt
  exec_iodir-IsKept s c v = refused (iodir_reserved c) _ (
      if-IsKept (func3 c == 0) _ _
        (refused (not (iodir_pid c == 0)) _
          (refused (not (iodir_dv c == 0) && did_too_wide s (iodir_did c)) _ v))
        (if-IsKept (func3 c == 1) _ _
          (refused (not (iodir_dv c == 1)) _
            (refused (did_too_wide s (iodir_did c)) _ (refused (pid_too_wide s (iodir_pid c)) _ v)))
          tt))

module _ {W : Type 0} (P : Platform W) where
  exec_iofence-IsKept : (s : Iommu W) (c : ℕ) → IsQueues s.reg_file → IsKept (exec_iofence P s c)
  unfolding exec_iofence
  exec_iofence-IsKept s c v =
      let k = do_iofence_c-Keeps P s (iofence_of c) v in
      refused (iofence_reserved s c) _ (
        refused (not (func3 c == 0)) _
          (if-IsKept (not ((do_iofence_c P s (iofence_of c)).0 == 0)) _ _ k k))

  exec_ats_inval-Keeps : (s : Iommu W) (c : ℕ) → Keeps s (exec_ats_inval P s c)
  unfolding exec_ats_inval do_ats_msg stall_for_itag
  exec_ats_inval-Keeps s c v =
      let k = allocate_itag-Keeps s (destination_of c) v in
      elim (allocate_itag_lem s (destination_of c)) [
        | exhausted _ e ↦ rw (e, exec_ats_inval) v
        | fresh i ts e _ ↦ rw (ap (λ r. r.0) e, exec_ats_inval) k
      ]

  exec_ats-IsKept : (s : Iommu W) (c : ℕ) → IsQueues s.reg_file → IsKept (exec_ats P s c)
  unfolding exec_ats do_ats_msg
  exec_ats-IsKept s c v = refused (ats_reserved s c) _ (
      if-IsKept (func3 c == 0) _ _ (exec_ats_inval-Keeps s c v) (if-IsKept (func3 c == 1) _ _ v tt))

  execute-IsKept : (s : Iommu W) (c i j : ℕ) → IsQueues s.reg_file → IsKept (execute P s c i j)
  unfolding execute
  execute-IsKept s c i j v = if-IsKept (opcode c == 1) _ _ (exec_iotinval-IsKept s c i j v) (
      if-IsKept (opcode c == 3) _ _ (exec_iodir-IsKept s c v) (
        if-IsKept (opcode c == 2) _ _ (exec_iofence-IsKept s c v)
          (if-IsKept (opcode c == 4) _ _ (exec_ats-IsKept s c v) tt)))

  finish-Keeps :
      (t : Iommu W) (o : Outcome W)
      → IsQueues t.reg_file
      → IsKept o
      → IsQueues (finish P t o).reg_file
  unfolding finish
  finish-Keeps t (retired u) v k = advance_cqh-Keeps u k
  finish-Keeps t (held u) v k = k
  finish-Keeps t illegal v k = set_cmd_ill-Keeps P t v

  pub process_commands-Keeps : (s : Iommu W) (i j : ℕ) → Keeps s (process_commands P s i j)
  unfolding process_commands
  process_commands-Keeps s i j v =
      let (status, c, w) = fetch P s in
      let t : Iommu W = record s { world = w } in
      let Q = λ (x : Iommu W). IsQueues x.reg_file in
      if_keeps Q (cq_idle s) _ _ v (
        if_keeps Q (not (status == 0)) _ _ (set_cqmf-Keeps P t v)
          (finish-Keeps t (execute P t c i j) v (execute-IsKept t c i j v)))

module _ {W : Type 0} (P : Platform W) (v : Event) where
  count_one-Keeps : (s : Iommu W) (i : ℕ) → Keeps s (count_one P v s i)
  unfolding count_one
  count_one-Keeps s i q = let k = generate_interrupt-Keeps P (overflowed s i) hpm q in ground arith

  count_from-Keeps : (n i : ℕ) (s : Iommu W) → Keeps s (count_from P v n i s)
  unfolding count_from
  count_from-Keeps zero i s q = q
  count_from-Keeps (suc n) i s q =
      count_from-Keeps n (i + 1) (count_one P v s i) (count_one-Keeps s i q)

  pub count_events-Keeps : (s : Iommu W) → Keeps s (count_events P v s)
  unfolding count_events
  count_events-Keeps s q = let k = count_from-Keeps s.num_hpm 0 s q in ground arith
