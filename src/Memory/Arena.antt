-- ===== src/Memory/Arena.antt =====
-- The virtual-memory arena of src/Gate4Harness/memory_accounting.c: its state, its operations and
-- their laws, each in a module of its own.
pub mod State
pub mod Reserve
pub mod Commit
pub mod Valid
pub mod Tables
pub mod Placing
pub mod Reserving
pub mod Fixed
pub mod Releasing
pub mod Scanning
pub mod FirstFit
pub mod AnyReserving
pub mod Booking
pub mod Entering
pub mod Committing
pub mod Decommitting
pub mod Paging
pub mod Validate
pub mod CheckedReservations
pub mod Validating
pub mod PassingReservations
pub mod Deciding
pub mod Effects
pub mod Refusing
pub mod PageEffects
pub mod Charges
pub mod Reach
mod Tests
