-- ===== src/Lib.antt =====
-- The RISC-V IOMMU reference model of iommu_ref_model/libiommu: its queues, interrupts, caches and
-- invalidations as functions on one state, with the theorems that make them correct.
--
-- The parts. The reference model is a C library. Its state is `iommu_t` (include/iommu.h): the register
-- file, the caches of contexts and translations, the trackers of ATS invalidation requests and what a
-- stalled command leaves behind. Software puts commands in the command queue, which
-- `process_commands` fetches and executes; a command invalidates cache entries, sends an ATS message
-- or is a fence that waits for the answers. Faults go to the fault queue by `report_fault`. Both
-- queues raise interrupts, which may write MSIs, whose failure is a fault again.
--
-- Which file models which part (sources are under iommu_ref_model/libiommu):
--   Iommu, Iommu/Regs, Iommu/Caches, Iommu/Pte: `iommu_t`, `iommu_regs_t`, the cache entries and the
--     trackers, as records with the fields of C. A one-bit field of a register is a Bool, all else a
--     number. The fields that no modelled function uses are left out.
--   Iommu/Platform: the functions of the platform that hosts the model (memory, synchronisation,
--     messages), which the repository only declares. They are a record of functions on a world `W`,
--     the parameter `P` of the definitions. Nothing is assumed of them, but in the theorems that name
--     `IsSteady`: there the read that begins an update gives what a read just before it gave, and the
--     state is one whose interrupts write no memory.
--   Prelude: arrays as lists, first matches, fields of words, Boolean tests.
--   Fault, Fault/Record: `report_fault` (src/iommu_faults.c) and `do_msi`, `generate_interrupt` and
--     `release_pending_interrupt` (src/iommu_interrupt.c).
--   Address: `match_address_range` (src/iommu_utils.c).
--   Atc, Atc/Iotlb: the caches of device contexts, process contexts and translations
--     (src/iommu_atc.c).
--   Invalidate: `do_inval_ddt`, `do_inval_pdt`, `do_iotinval_vma` and `do_iotinval_gvma`
--     (src/iommu_command_queue.c).
--   Ats: the tags of invalidation requests, IOFENCE.C, completions and timeouts (src/iommu_ats.c and
--     src/iommu_command_queue.c).
--   CommandQueue: `process_commands` (src/iommu_command_queue.c). A command is the number that its
--     16 bytes spell.
--   PageRequest: `handle_page_request` (src/iommu_ats.c).
--   Hpm: `count_events` (src/iommu_hpm.c).
--   Registers, Registers/Layout, Registers/Write: `read_register`, `write_register` and `reset_iommu`
--     (src/iommu_reg.c), with the unions of include/iommu_registers.h as words. `reset_iommu` is the
--     one that is built without DEBUG. Registers/Effects: what the debug interface may assume of the
--     translation that it calls.
--   Iommu/Request: the requests of the host bridge and the responses (include/iommu_req_rsp.h).
--   Queues: an invariant of the three queues, under the functions of all these parts; Queues/Reach is
--     the system as a step relation, from the reset on.
--   DeviceDirectory, DeviceDirectory/Checks: `locate_device_context` and
--     `do_device_context_configuration_checks` (src/iommu_device_context.c). The walk is a recursion on
--     the level.
--   PageTable: page table entries and the checks on them that both stages make alike.
--   SecondStage: `second_stage_address_translation` (src/iommu_second_stage_trans.c).
--   FirstStage, FirstStage/Checks: `two_stage_address_translation` (src/iommu_two_stage_trans.c).
--   Msi: `extract` and `msi_address_translation` (src/iommu_msi_trans.c).
--   ProcessDirectory: `locate_process_context` and `do_process_context_configuration_checks`
--     (src/iommu_process_context.c).
--   Tests: the theorems at concrete states.
-- The other files under Fault, Address, Atc, Invalidate, Ats, CommandQueue, Hpm, Registers, Queues,
-- DeviceDirectory, PageTable, SecondStage, FirstStage, Msi and ProcessDirectory hold proofs.
--
-- How C is rendered. A function that changes `iommu_t` takes the state and returns it; out-parameters
-- and return codes are part of the result. `goto command_illegal` is a value of `Outcome`. A loop over
-- an array is a recursion over the list, so it ends, and no array size is fixed. Arithmetic of a
-- fixed width wraps by `%`; a shift of a bit field keeps the width of the field, as in gcc, with which
-- the makefiles build. A value that C leaves uninitialised is an argument: the flags of
-- `do_iotinval_gvma`, the `replace` of `cache_ioatc_dc`, `no_write` of a debug request, and
-- `LEVELS`, `DC` and `replace` in `locate_device_context` and `handle_page_request`, and `LEVELS` in `locate_process_context`. The
-- page table walks give no answer where a mode names no format.
--
-- Fuel. `generate_interrupt`, `do_msi` and `report_fault` call one another in a circle. The model
-- allows three open calls of `generate_interrupt`, which is always enough, since each one that goes on
-- sets a pending bit and only the one of the fault queue can recur. A page table walk starts a pass again
-- when the entry has changed before its update, which only the memory decides: the model counts these
-- retries down, and gives no answer where they do not suffice. None is needed where no write comes in
-- between, and none ever where GADE and SADE are off.
--
-- Not modelled: the top of a translation (src/iommu_translate.c), which may interfere with the queues
-- only through the modelled functions. The debug interface calls `iommu_translate_iova`,
-- which is the argument `translate` of `write_register`. The tests, the test bench, the page table builders
-- of iommu_ref_model/libtables and the scripts are no part of the model.
pub mod Prelude
pub mod Iommu
pub mod Fault
pub mod Address
pub mod Atc
pub mod Invalidate
pub mod Ats
pub mod CommandQueue
pub mod Hpm
pub mod PageRequest
pub mod Registers
pub mod Queues
pub mod DeviceDirectory
pub mod PageTable
pub mod SecondStage
pub mod ProcessDirectory
pub mod FirstStage
pub mod Msi
pub mod Tests
