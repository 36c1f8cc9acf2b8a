-- ===== src/Tests/Faults.antt =====
-- Faults and interrupts on concrete states.
use riscv_iommu_dv_model.Prelude.{ℕ, ◌+◌, ◌≤◌, ◌≡◌, refl, ◌⊎◌, some, true, false, arith}
use riscv_iommu_dv_model.Fault.{
  command_queue, generate_interrupt_fuel, generate_interrupt, report_fault_with, report_fault,
  do_msi_with, do_msi,
}
use riscv_iommu_dv_model.Fault.Record.{decode, fault_rec_raw, frec_of, decode-fault_rec_raw}
use riscv_iommu_dv_model.Fault.Fuel.{interrupt_circle_terminates}
use riscv_iommu_dv_model.Fault.Queue.{
  IsFq, IsPlaced, FqGrows, StoresAt, IsUnread, slot, report_fault-FqGrows,
}
use riscv_iommu_dv_model.Fault.Frame.{SameBut, report_fault-SameBut}
use riscv_iommu_dv_model.Fault.Report.{
  IsSilent, off, disabled, memory_fault, overflow, filtered, IsNoticed, AlwaysReported,
  all_disallowed, ddt_access, ddt_invalid, ddt_misconfigured, ddt_corrupt, datapath, msi_write,
  report_fault_silent, report_fault-IsNoticed,
}
use riscv_iommu_dv_model.Tests.{counter, refusing, registers, start, read_fault, filtered_fault}

interrupt_circle_terminates_example :
    (generate_interrupt_fuel refusing 4 start command_queue
      ≡ some (generate_interrupt refusing start command_queue))
    × (report_fault_with refusing (generate_interrupt_fuel refusing 4) start read_fault
        ≡ some (report_fault refusing start read_fault))
    × (do_msi_with refusing (generate_interrupt_fuel refusing 4) start 7 4096
        ≡ some (do_msi refusing start 7 4096))
interrupt_circle_terminates_example =
    interrupt_circle_terminates refusing 4 start command_queue read_fault 7 4096 (omega arith)

registers-IsFq : IsFq registers
registers-IsFq = record { size_field = omega arith; head_in = omega arith; tail_in = omega arith }

registers-IsPlaced : IsPlaced registers
registers-IsPlaced = record { unit = 544; aligned = refl; below = omega arith }

report_fault-FqGrows_example :
    FqGrows registers (report_fault counter start read_fault).reg_file
    × (StoresAt counter start read_fault
        × ((k : ℕ)
            → IsUnread registers k
            → (slot registers k + 32 ≤ slot registers 0)
              ⊎ (slot registers 0 + 32 ≤ slot registers k)))
report_fault-FqGrows_example =
    report_fault-FqGrows counter start read_fault registers-IsFq registers-IsPlaced

cause_13_filtered : ¬ AlwaysReported 13
cause_13_filtered (all_disallowed e) = absurd (omega arith)
cause_13_filtered (ddt_access e) = absurd (omega arith)
cause_13_filtered (ddt_invalid e) = absurd (omega arith)
cause_13_filtered (ddt_misconfigured e) = absurd (omega arith)
cause_13_filtered (ddt_corrupt e) = absurd (omega arith)
cause_13_filtered (datapath e) = absurd (omega arith)
cause_13_filtered (msi_write e) = absurd (omega arith)

report_fault_silent_example : report_fault counter start filtered_fault ≡ start
report_fault_silent_example =
    report_fault_silent counter start filtered_fault (filtered refl cause_13_filtered)

read_fault-is_loud : ¬ IsSilent start read_fault
read_fault-is_loud (off e) = absurd cc
read_fault-is_loud (disabled e) = absurd cc
read_fault-is_loud (memory_fault e) = absurd cc
read_fault-is_loud (overflow e) = absurd cc
read_fault-is_loud (filtered e _) = absurd (omega arith)

report_fault-IsNoticed_example :
    IsNoticed registers (report_fault counter start read_fault).reg_file
    × ((true ≡ false) ⊎ ((report_fault counter start read_fault).reg_file.ipsr.fip ≡ true))
report_fault-IsNoticed_example =
    report_fault-IsNoticed counter start read_fault read_fault-is_loud registers-IsFq

report_fault-SameBut_example : SameBut start (report_fault refusing start read_fault)
report_fault-SameBut_example = report_fault-SameBut refusing start read_fault

decode-fault_rec_raw_example : decode (fault_rec_raw (frec_of read_fault)) ≡ frec_of read_fault
decode-fault_rec_raw_example = decode-fault_rec_raw read_fault (omega arith) (omega arith)
