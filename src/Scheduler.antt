-- ===== src/Scheduler.antt =====
-- The cooperative scheduler of src/Gate4Harness/scheduler_foundation.c: handles and objects, the
-- threads and the queue of runnable ones, and events with the records of those that wait.
pub mod Handles
pub mod State
pub mod Objects
pub mod Queue
pub mod Waits
pub mod Events
pub mod Registration
pub mod Calls
pub mod Threads
pub mod Yielding
pub mod Waking
pub mod Signalling
pub mod Waiting
pub mod Blocking
pub mod Preparing
pub mod Living
pub mod Closing
pub mod Reach
pub mod Picking
pub mod Awakened
pub mod Signalled
pub mod Signals
pub mod Staying
pub mod Creating
mod Tests
pub mod Inv
pub mod Moves
