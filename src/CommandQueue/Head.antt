-- ===== src/CommandQueue/Head.antt =====
-- The head of the command queue under `process_commands` of iommu_command_queue.c.
use riscv_iommu_dv_model.Prelude.{
  ℕ, zero, suc, ◌+◌, ◌%◌, ◌^◌, ◌≤◌, ◌<◌, Bool, true, false, not, ◌&&◌, if◌then◌else◌, ◌≡◌, ◌≢◌,
  refl, ap, inl, inr, arith, Bool-cases, ◌==◌,
}
use riscv_iommu_dv_model.Iommu.{Iommu}
use riscv_iommu_dv_model.Iommu.Regs.{RegFile}
use riscv_iommu_dv_model.Iommu.Platform.{Platform}
use riscv_iommu_dv_model.Fault.{next_index}
use riscv_iommu_dv_model.Fault.Queue.{unread, entries, entries_bounds, step_lem}
use riscv_iommu_dv_model.Invalidate.{do_inval_ddt, do_inval_pdt, do_iotinval_vma, do_iotinval_gvma}
use riscv_iommu_dv_model.Ats.{allocate_itag, advance_cqh, do_ats_msg, set_cqmf, set_cmd_ill}
use riscv_iommu_dv_model.Ats.Itag.{allocate_itag_lem, exhausted, fresh}
use riscv_iommu_dv_model.Ats.Fence.{
  SameQueue, SameQueue-refl, set_cqmf-SameQueue, set_cqmf-cqmf, set_cmd_ill-SameQueue,
  set_cmd_ill-cmd_ill, IsBlocked, waits, timed_out, write_failed, done, blocked,
  do_iofence_c-FenceEnds, do_iofence_c-SameQueue,
}
use riscv_iommu_dv_model.CommandQueue.{
  Outcome, retired, held, illegal, iotinval_of, iofence_of, destination_of, exec_iotinval,
  exec_iodir, exec_iofence, exec_ats_inval, exec_ats, execute, cq_idle, fetch, finish,
  process_commands, stall_for_itag, iotinval_reserved, iodir_reserved, iofence_reserved,
  ats_reserved, func3, opcode, did_too_wide, pid_too_wide, iodir_dv, iodir_did, iodir_pid,
}

-- What an execution does to the queue's registers before the head is advanced.
abbrev pub KeepsQueue : {W : Type 0} → Iommu W → Outcome W → Type 0
KeepsQueue s (retired t) = SameQueue s.reg_file t.reg_file
KeepsQueue s (held t) = SameQueue s.reg_file t.reg_file × IsBlocked t
KeepsQueue s illegal = Unit

pub IsBlocked-cq_idle : {W : Type 0} (t : Iommu W) → IsBlocked t → cq_idle t ≡ true
unfolding cq_idle
IsBlocked-cq_idle t (waits e) = ground (arith, e)
IsBlocked-cq_idle t (timed_out e) = ground (arith, e)
IsBlocked-cq_idle t (write_failed e) = ground (arith, e)

cmd_ill-cq_idle : {W : Type 0} (t : Iommu W) → t.reg_file.cqcsr.cmd_ill ≡ true → cq_idle t ≡ true
unfolding cq_idle
cmd_ill-cq_idle t e = ground (arith, e)

module _ {W : Type 0} (P : Platform W) where
  if-KeepsQueue :
      (b : Bool) (s : Iommu W) (x y : Outcome W)
      → KeepsQueue s x
      → KeepsQueue s y
      → KeepsQueue s (if b then x else y)
  if-KeepsQueue true s x y h k = h
  if-KeepsQueue false s x y h k = k

  exec_iotinval-KeepsQueue : (s : Iommu W) (c i j : ℕ) → KeepsQueue s (exec_iotinval s c i j)
  unfolding exec_iotinval do_iotinval_vma do_iotinval_gvma
  exec_iotinval-KeepsQueue s c i j =
      let same = SameQueue-refl s.reg_file in
      let illegal_case = λ (b : Bool) (x : Outcome W). if-KeepsQueue b s illegal x tt in
      illegal_case (iotinval_reserved s c) _ (
        if-KeepsQueue (func3 c == 0) s _ _ same (
          if-KeepsQueue (func3 c == 1) s _ _ (illegal_case (not ((iotinval_of c).pscv == 0)) _ same)
            tt))

  exec_iodir-KeepsQueue : (s : Iommu W) (c : ℕ) → KeepsQueue s (exec_iodir s c)
  unfolding exec_iodir do_inval_ddt do_inval_pdt
  exec_iodir-KeepsQueue s c =
      let same = SameQueue-refl s.reg_file in
      let illegal_case = λ (b : Bool) (x : Outcome W). if-KeepsQueue b s illegal x tt in
      illegal_case (iodir_reserved c) _ (
        if-KeepsQueue (func3 c == 0) s _ _
          (illegal_case (not (iodir_pid c == 0)) _
            (illegal_case (not (iodir_dv c == 0) && did_too_wide s (iodir_did c)) _ same))
          (if-KeepsQueue (func3 c == 1) s _ _
            (illegal_case (not (iodir_dv c == 1)) _ (
              illegal_case (did_too_wide s (iodir_did c)) _
                (illegal_case (pid_too_wide s (iodir_pid c)) _ same)))
            tt))

  exec_iofence-KeepsQueue : (s : Iommu W) (c : ℕ) → KeepsQueue s (exec_iofence P s c)
  unfolding exec_iofence
  exec_iofence-KeepsQueue s c =
      let f = iofence_of c in
      let same = do_iofence_c-SameQueue P s f in
      let illegal_case = λ (b : Bool) (x : Outcome W). if-KeepsQueue b s illegal x tt in
      illegal_case (iofence_reserved s c) _ (
        illegal_case (not (func3 c == 0)) _ (elim (do_iofence_c-FenceEnds P s f) [
          | done e _ _ _ ↦ rw e same
          | blocked e b ↦ rw e (same, b)
        ]))

  exec_ats_inval-SameQueue :
      (s : Iommu W) (c : ℕ) → SameQueue s.reg_file (exec_ats_inval P s c).reg_file
  unfolding exec_ats_inval do_ats_msg stall_for_itag
  exec_ats_inval-SameQueue s c =
      let same = SameQueue-refl s.reg_file in
      elim (allocate_itag_lem s (destination_of c)) [
        | exhausted _ e ↦ rw (e, exec_ats_inval) same
        | fresh i ts e _ ↦
            let kept : SameQueue s.reg_file (allocate_itag s (destination_of c)).1.reg_file =
              rw e same in
            rw (ap (λ r. r.0) e, exec_ats_inval) kept
      ]

  exec_ats-KeepsQueue : (s : Iommu W) (c : ℕ) → KeepsQueue s (exec_ats P s c)
  unfolding exec_ats do_ats_msg
  exec_ats-KeepsQueue s c =
      let illegal_case = λ (b : Bool) (x : Outcome W). if-KeepsQueue b s illegal x tt in
      illegal_case (ats_reserved s c) _ (
        if-KeepsQueue (func3 c == 0) s _ _ (exec_ats_inval-SameQueue s c)
          (if-KeepsQueue (func3 c == 1) s _ _ (SameQueue-refl s.reg_file) tt))

  execute-KeepsQueue : (s : Iommu W) (c i j : ℕ) → KeepsQueue s (execute P s c i j)
  unfolding execute
  execute-KeepsQueue s c i j =
      if-KeepsQueue (opcode c == 1) s _ _ (exec_iotinval-KeepsQueue s c i j) (
        if-KeepsQueue (opcode c == 3) s _ _ (exec_iodir-KeepsQueue s c) (
          if-KeepsQueue (opcode c == 2) s _ _ (exec_iofence-KeepsQueue s c)
            (if-KeepsQueue (opcode c == 4) s _ _ (exec_ats-KeepsQueue s c) tt)))

-- The registers of the command queue hold what fits their fields, and the indices are in the ring.
pub record IsCq (r : RegFile) : Type 0 where
  pub size_field : r.cqb.log2szm1 < 32
  pub head_in : r.cqh < entries r.cqb.log2szm1
  pub tail_in : r.cqt < entries r.cqb.log2szm1

-- How many commands wait in the queue.
abbrev pub cq_pending : RegFile → ℕ
cq_pending r = unread (entries r.cqb.log2szm1) r.cqh r.cqt

-- A step of the head of a queue that is not empty takes one command.
head-step :
    (n h t : ℕ)
    → n ≤ 2 ^ 32
    → h < n
    → t < n
    → h ≢ t
    → (((h + 1) % 2 ^ 32) % n < n) × (suc (unread n (((h + 1) % 2 ^ 32) % n) t) ≡ unread n h t)
head-step n h t k p q ne = ground (arith, step_lem n h k p)

-- What one call of `process_commands` does to the queue.
pub data Advance {W : Type 0} (s t : Iommu W) : Type 0 where
  idle : cq_idle s ≡ true → t ≡ s → Advance s t
  takes_one :
      cq_idle s ≡ false
      → IsCq t.reg_file
      → suc (cq_pending t.reg_file) ≡ cq_pending s.reg_file
      → t.reg_file.cqh ≡ next_index s.reg_file.cqh s.reg_file.cqb.log2szm1
      → Advance s t
  stops : cq_idle s ≡ false → cq_idle t ≡ true → SameQueue s.reg_file t.reg_file → Advance s t

module _ {W : Type 0} (P : Platform W) where
  advance_cqh-takes_one :
      (s t : Iommu W)
      → IsCq s.reg_file
      → cq_idle s ≡ false
      → SameQueue s.reg_file t.reg_file
      → Advance s (advance_cqh t)
  unfolding cq_idle advance_cqh
  advance_cqh-takes_one s t v busy same =
      let r = s.reg_file in
      let k = r.cqb.log2szm1 in
      let bounds = entries_bounds k v.size_field in
      let step =
        head-step (entries k) r.cqh r.cqt bounds.1 v.head_in v.tail_in (λ e. ground arith) in
      let base = same.same_base in
      let head = same.same_head in
      let tail = same.same_tail in
      takes_one busy
        (record {
          size_field = simp base v.size_field;
          head_in = simp (base, head) (step.0);
          tail_in = simp (base, tail) v.tail_in;
        })
        (simp (base, head, tail) (step.1)) (simp (base, head) refl)

  finish-Advance :
      (s t : Iommu W) (o : Outcome W)
      → IsCq s.reg_file
      → cq_idle s ≡ false
      → t.reg_file ≡ s.reg_file
      → KeepsQueue t o
      → Advance s (finish P t o)
  unfolding finish
  finish-Advance s t (retired u) v busy e k = advance_cqh-takes_one s u v busy (rw (← e) k)
  finish-Advance s t (held u) v busy e (k, b) = stops busy (IsBlocked-cq_idle u b) (rw (← e) k)
  finish-Advance s t illegal v busy e k =
      stops busy (cmd_ill-cq_idle (set_cmd_ill P t) (set_cmd_ill-cmd_ill P t))
        (rw (← e) (set_cmd_ill-SameQueue P t))

  -- From a command queue in order, one call of `process_commands` changes nothing where the queue is
  -- idle; otherwise it either advances the head by one, wrapping at the end of the ring, so that one
  -- command less is pending and the queue is still in order, or keeps head, tail and base and leaves
  -- the queue idle.
  pub process_commands-Advance :
      (s : Iommu W) (i j : ℕ) → IsCq s.reg_file → Advance s (process_commands P s i j)
  unfolding process_commands
  process_commands-Advance s i j v =
      let (status, c, w) = fetch P s in
      let t : Iommu W = record s { world = w } in
      let run = execute-KeepsQueue P t c i j in
      elim (Bool-cases (cq_idle s)) [
        | inl y ↦ rw y (idle y refl)
        | inr n ↦ elim (Bool-cases (status == 0)) [
          | inr bad ↦ rw n (
              rw bad (
                stops n (IsBlocked-cq_idle (set_cqmf P t) (write_failed (set_cqmf-cqmf P t)))
                  (set_cqmf-SameQueue P t)))
          | inl ok ↦ rw n (rw ok (finish-Advance s t (execute P t c i j) v n refl run))
        ]
      ]

  -- Calls of `process_commands`, one for each element that the flags' values are given for.
  abbrev pub run_commands : ℕ → (gscid_match addr_match : ℕ) → Iommu W → Iommu W
  run_commands zero i j s = s
  run_commands (suc n) i j s = run_commands n i j (process_commands P s i j)

  pub run_commands-idle : (n i j : ℕ) (s : Iommu W) → cq_idle s ≡ true → run_commands n i j s ≡ s
  unfolding process_commands
  run_commands-idle zero i j s h = refl
  run_commands-idle (suc n) i j s h = rw (h, process_commands) (run_commands-idle n i j s h)

  -- The command queue drains: from a queue in order, more calls of `process_commands` than commands
  -- are pending leave it idle, that is off, stopped by an error, stalled, waiting or empty.
  pub run_commands-cq_idle :
      (n i j : ℕ) (s : Iommu W)
      → IsCq s.reg_file
      → cq_pending s.reg_file < n
      → cq_idle (run_commands n i j s) ≡ true
  run_commands-cq_idle zero i j s v h = absurd (omega arith)
  run_commands-cq_idle (suc n) i j s v h = elim (process_commands-Advance s i j v) [
    | idle y e ↦ rw e (rw (run_commands-idle n i j s y) y)
    | takes_one _ v' less _ ↦
        run_commands-cq_idle n i j (process_commands P s i j) v' (omega (arith, less))
    | stops _ y _ ↦ rw (run_commands-idle n i j (process_commands P s i j) y) y
  ]
