-- ===== src/Tests/Registers.antt =====
-- The registers of a concrete IOMMU: a reset, the queues turned on and off, and writes in halves.
use riscv_iommu_dv_model.Prelude.{ℕ, ◌+◌, ◌*◌, ◌≡◌, true, arith}
use riscv_iommu_dv_model.Iommu.{Iommu}
use riscv_iommu_dv_model.Iommu.Request.{HbRequest, HbResponse, completer_abort}
use riscv_iommu_dv_model.Fault.{report_fault}
use riscv_iommu_dv_model.CommandQueue.{cq_idle}
use riscv_iommu_dv_model.CommandQueue.Head.{run_commands}
use riscv_iommu_dv_model.Registers.{ResetParams, write_register, reset_registers, reset_iommu}
use riscv_iommu_dv_model.Registers.Effects.{Effects, nothing, then_reports}
use riscv_iommu_dv_model.Registers.Guards.{IsGuarded, write_register-IsGuarded}
use riscv_iommu_dv_model.Queues.{IsQueues}
use riscv_iommu_dv_model.Queues.Reach.{
  Reach, reset, after, writes, reports, Reach-IsQueues, Reach-cq_idle,
}
use riscv_iommu_dv_model.Tests.{counter, registers, start, read_fault}

-- A translation that reports a fault and aborts.
abbrev aborting : Iommu ℕ → HbRequest → HbResponse × Iommu ℕ
aborting s q = (
  record {
    status = completer_abort;
    trsp = record {
      ppn = 0;
      s = 0;
      n = 0;
      cxl_io = 0;
      global = 0;
      priv = 0;
      u = 0;
      r = 0;
      w = 0;
      exe = 0;
      ama = 0;
      pbmt = 0;
      is_msi = 0;
      is_mrif = 0;
      dest_mrif_addr = 0;
      mrif_nid = 0;
    };
  },
  report_fault counter s read_fault,
)

aborts : (s : Iommu ℕ) (q : HbRequest) → Effects counter s (aborting s q).1
aborts s q = then_reports s read_fault nothing

abbrev params : ResetParams
params = record {
  num_hpm = 31;
  hpmctr_bits = 64;
  event_id_limit = 8;
  num_vec_bits = 2;
  reset_iommu_mode = 0;
  max_iommu_mode = 4;
  max_devid_mask = 65535;
  gxl_writeable = 0;
  fctl_be_writeable = 0;
  fill_ats_trans_in_ioatc = 0;
  sv57_bare_pg_sz = 0;
  sv48_bare_pg_sz = 0;
  sv39_bare_pg_sz = 0;
  sv32_bare_pg_sz = 0;
  sv57x4_bare_pg_sz = 0;
  sv48x4_bare_pg_sz = 0;
  sv39x4_bare_pg_sz = 0;
  sv32x4_bare_pg_sz = 0;
}

abbrev at_reset : Iommu ℕ
at_reset = reset_iommu start params registers.capabilities registers.fctl

-- The fault queue is given a base and turned on, and a fault is reported.
abbrev based : Iommu ℕ
based = write_register counter aborting at_reset 0 40 8 (4096 * 1024 + 3)

abbrev turned_on : Iommu ℕ
turned_on = write_register counter aborting based 0 76 4 1

abbrev faulted : Iommu ℕ
faulted = report_fault counter turned_on read_fault

faulted-Reach : Reach counter aborting faulted
faulted-Reach =
    after turned_on _
      (after based _
        (after at_reset _ (reset start params registers.capabilities registers.fctl)
          (writes 0 40 8 (4096 * 1024 + 3)))
        (writes 0 76 4 1))
      (reports read_fault)

Reach-IsQueues_example : IsQueues faulted.reg_file
Reach-IsQueues_example = Reach-IsQueues counter aborting aborts faulted faulted-Reach

Reach-cq_idle_example : cq_idle (run_commands counter 1 0 0 at_reset) ≡ true
unfolding reset_iommu reset_registers
Reach-cq_idle_example =
    Reach-cq_idle counter aborting aborts 1 0 0 at_reset
      (reset start params registers.capabilities registers.fctl) (omega arith)

write_register-IsGuarded_example : IsGuarded start (write_register counter aborting start 0 16 8 3)
write_register-IsGuarded_example = write_register-IsGuarded counter aborting aborts start 0 16 8 3
