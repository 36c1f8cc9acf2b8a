-- ===== src/Tests/Commands.antt =====
-- Commands, fences and invalidation requests on concrete states.
use riscv_iommu_dv_model.Prelude.{ℕ, ◌≡◌, ◌⊎◌, ◌↔◌, true, arith}
use riscv_iommu_dv_model.Iommu.{Iommu}
use riscv_iommu_dv_model.Iommu.Platform.{AtsMsg}
use riscv_iommu_dv_model.Ats.{
  Destination, Iofence, allocate_itag, do_iofence_c, handle_invalidation_completion,
  do_ats_timer_expiry,
}
use riscv_iommu_dv_model.Ats.Itag.{Allocates, allocate_itag_lem}
use riscv_iommu_dv_model.Ats.Fence.{FenceEnds, do_iofence_c-FenceEnds}
use riscv_iommu_dv_model.Ats.Completion.{
  IsSettled, IsUnexpected, AllExpect, handle_invalidation_completion-IsSettled,
  do_ats_timer_expiry-IsSettled,
}
use riscv_iommu_dv_model.CommandQueue.{illegal, execute, process_commands, cq_idle}
use riscv_iommu_dv_model.CommandQueue.Format.{IsLegal}
use riscv_iommu_dv_model.CommandQueue.Legal.{execute-IsLegal}
use riscv_iommu_dv_model.CommandQueue.Head.{
  IsCq, Advance, process_commands-Advance, run_commands, run_commands-cq_idle,
}
use riscv_iommu_dv_model.Tests.{counter, registers, start}

abbrev device_5 : Destination
device_5 = record { dsv = 0; dseg = 0; rid = 5 }

allocate_itag_lem_example : Allocates start device_5 (allocate_itag start device_5)
allocate_itag_lem_example = allocate_itag_lem start device_5

abbrev fence : Iofence
fence = record { pr = 1; pw = 1; av = 1; wsi_bit = 0; addr = 4096; word = 1 }

do_iofence_c-FenceEnds_example : FenceEnds start (do_iofence_c counter start fence)
do_iofence_c-FenceEnds_example = do_iofence_c-FenceEnds counter start fence

-- The completion of the request with tag 0.
abbrev completion : AtsMsg
completion = record {
  msgcode = 2;
  tag = 0;
  rid = 5;
  pv = 0;
  pid = 0;
  priv = 0;
  exec_req = 0;
  dsv = 0;
  dseg = 0;
  payload = 4294967297;
}

-- A fence waits for that request, and a further request for a tag.
abbrev waiting : Iommu ℕ
waiting = record start { iofence_wait_pending_inv = 1; command_queue_stall_for_itag = 1 }

handle_invalidation_completion-IsSettled_example :
    let r = handle_invalidation_completion counter waiting completion in
    ((r.0 ≡ 1)
      × (IsUnexpected completion 1 0 waiting.itag_tracker
          × (r.1 ≡ record waiting { itag_tracker = r.1.itag_tracker })))
    ⊎ ((r.0 ≡ 0) × (AllExpect completion 1 0 waiting.itag_tracker × IsSettled r.1))
handle_invalidation_completion-IsSettled_example =
    handle_invalidation_completion-IsSettled counter waiting completion (omega arith)

do_ats_timer_expiry-IsSettled_example : IsSettled (do_ats_timer_expiry counter start 1)
do_ats_timer_expiry-IsSettled_example = do_ats_timer_expiry-IsSettled counter start 1 (omega arith)

registers-IsCq : IsCq registers
registers-IsCq = record { size_field = omega arith; head_in = omega arith; tail_in = omega arith }

process_commands-Advance_example : Advance start (process_commands counter start 0 0)
process_commands-Advance_example = process_commands-Advance counter start 0 0 registers-IsCq

run_commands-cq_idle_example : cq_idle (run_commands counter 3 0 0 start) ≡ true
run_commands-cq_idle_example = run_commands-cq_idle counter 3 0 0 start registers-IsCq (omega arith)

-- The command of 16 bytes that are all 0.
execute-IsLegal_example : (execute counter start 0 0 0 ≡ illegal) ↔ (¬ IsLegal start 0)
execute-IsLegal_example = execute-IsLegal counter start 0 0 0
