-- ===== src/Memory.antt =====
-- The memory accounting of src/Gate4Harness/memory_accounting.c and its header.
pub mod Ranges
pub mod Packing
pub mod Ledger
pub mod Arena
pub mod CommitModel
pub mod Map
pub mod Snapshot
