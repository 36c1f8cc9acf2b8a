-- ===== src/Registers/Write.antt =====
-- The cases of the switch of `write_register`, iommu_ref_model/libiommu/src/iommu_reg.c: what a write
-- does to each register. `data4` and `data8` are the values that the C code calls so.
mod Config
mod Queues
mod Monitor
mod Interrupts
mod Debug
unfoldable pub use Config.*
unfoldable pub use Queues.*
unfoldable pub use Monitor.*
unfoldable pub use Interrupts.*
unfoldable pub use Debug.*
