-- ===== src/Tests/Monitor.antt =====
-- The performance monitor on a concrete state: a counter at its highest value meets its event.
use riscv_iommu_dv_model.Prelude.{ℕ, true, false, arith, [], ◌∷◌, ◌^◌, ◌-◌}
use riscv_iommu_dv_model.Iommu.{Iommu}
use riscv_iommu_dv_model.Hpm.{Event, count_events}
use riscv_iommu_dv_model.Hpm
use riscv_iommu_dv_model.Hpm.Counters.{Counts, count_events_lem}
use riscv_iommu_dv_model.Tests.{counter, registers, start}

abbrev monitored : Iommu ℕ
monitored = record start {
  num_hpm = 1;
  reg_file = record registers {
    iohpmctr = (2 ^ 40 - 1) ∷ [];
    iohpmevt =
        record {
          event_id = 3;
          dmask = false;
          pid_pscid = 0;
          did_gscid = 7;
          pv_pscv = false;
          dv_gscv = true;
          idt = false;
          of_bit = false;
        }
        ∷ [];
  };
}

abbrev event_3 : Event
event_3 = record {
  pv = 0;
  pid = 0;
  pscv = 0;
  pscid = 0;
  did = 7;
  gscv = 0;
  gscid = 0;
  event_id = 3;
}

count_events_lem_example :
    Counts event_3 monitored 0 (Hpm.counter (count_events counter event_3 monitored) 0)
count_events_lem_example =
    count_events_lem counter event_3 monitored 0 (omega arith) (omega arith)
      (record { filter = omega arith; device = omega arith; guest = omega arith })
