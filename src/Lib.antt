-- ===== src/Lib.antt =====
-- guideXOS, the host of a NativeAOT program on bare UEFI: its memory accounting and its scheduler.
--
-- The harness of src/Gate4Harness loads a managed program and answers the Windows calls that its
-- runtime makes. This library models the two parts that most others rely on. The first is
-- src/Gate4Harness/memory_accounting.c with src/Gate4Harness/memory_accounting.h: the loader reads
-- the firmware memory map and classifies it, and enters each physical allocation in a ledger; the
-- virtual-memory calls reserve ranges of one arena and commit parts of them; snapshots and the
-- memory-status calls read the totals of all three. The second is
-- src/Gate4Harness/scheduler_foundation.c with src/Gate4Harness/scheduler_foundation.h: cooperative
-- threads, which yield to each other and wait for events, named by handles.
--
-- The files:
--   Prelude: the names that the modules share, tests into Bool, and lists indexed by native numbers.
--   Memory/Ranges: add_u64, multiply_u64, range_end, ranges_overlap, range_contains, align_up_u64 and
--     page_round_bytes.
--   Memory/Packing: the sum of the lengths of disjoint ranges.
--   Memory/Ledger and the files below it: GXOS_PHYSICAL_LEDGER and gxos_physical_ledger_init,
--     _insert, _remove, _find and _validate. Pointers has their null tests.
--   Memory/Arena/State, Reserve, Commit, Validate: GXOS_VM_ARENA and gxos_vm_arena_init, _contains,
--     _find_reservation, _find_commitment, _available; _reserve, _reserve_fixed, _reserve_any,
--     _release; _commit, _commit_page, _decommit_page, _decommit; _validate.
--   The other files of Memory/Arena have the laws: Valid the invariant, Tables, Placing and Booking
--     what keeps it, CheckedReservations, Validating, PassingReservations and Deciding the validator,
--     Scanning, FirstFit and AnyReserving the search, Effects what each branch of a release and of
--     a decommit writes, PageEffects and Refusing the same of a page's commit, and one file for each
--     other operation.
--   Memory/Arena/Reach: the arenas that sequences of calls reach; Charges compares their totals.
--   Memory/CommitModel: GXOS_COMMIT_MODEL and gxos_commit_model_create, _create_no_pagefile, and the
--     static percentage_100 that the snapshots use.
--   Memory/Map: gxos_memory_map_parse, _descriptor and _classify, with the classes of the firmware's
--     types; Reading, Sound, Counting and Classifying have their laws. Map/Acquire is
--     gxos_memory_map_acquire, with the firmware calls as a record of functions, Acquiring
--     and Balance its laws.
--   Memory/Snapshot: gxos_physical_snapshot_create, gxos_memory_snapshot_create, _is_coherent and
--     _query_current; Snapshot/Coherent has their laws.
--   Scheduler/Handles: make_handle and decode_handle. Scheduler/State: GXOS_SCHEDULER and its tables.
--   Scheduler/Objects: lookup_object, allocate_object and release_object_record.
--   Scheduler/Queue: enqueue_runnable, remove_runnable, pick_next_runnable and choose_next.
--   Scheduler/Waits: add_waiter, remove_waiter, complete_waiter, wake_waiter, timeout_waiter,
--     allocate_wait_record and release_wait_record.
--   Scheduler/Events: gxos_scheduler_create_event, _signal_event, _reset_event, _event_is_signaled,
--     _try_destroy_event, _service_timeouts, _arm_wait_timeout, and validate_open_event_handle.
--   Scheduler/Registration: gxos_scheduler_prepare_wait_record.
--   Scheduler/Calls: gxos_scheduler_finish_wait, _prepare_yield, _prepare_terminate, _resume_thread and
--     _blocked_count.
--   Scheduler/Threads: gxos_scheduler_initialize, _create_suspended_thread, _close_handle, _collect,
--     and maybe_reclaim_thread.
--   Scheduler/Inv has the invariant, Moves what enters and leaves the queue, Yielding, Waking,
--     Signalling, Waiting, Blocking, Preparing, Living and Closing one group of calls each, Reach the schedulers
--     that sequences of calls reach, Picking the round of the choice, Awakened,
--     Staying, Signalled and Signals a signal and the waiters of its event,
--     Creating a new event and its handle.
--
-- A table of the C program is a list of its fixed length, a slot its index, and a status a
-- constructor. An operation returns its status, what it writes through its result pointers, and the
-- new state. Numbers are natural; where the source lets a 32-bit or 64-bit sum wrap the model takes
-- the remainder, and a subtraction is behind the test that the source makes.
--
-- The outer loop of gxos_vm_arena_reserve_any runs on fuel, the end of the arena plus 2: each round
-- raises the candidate, and one past the end stops it, so the fuel never runs out, whatever the
-- arguments (Memory/Arena/AnyReserving).
-- gxos_memory_map_acquire runs its at most 4 rounds by recursion on their number. The loop of a signal
-- that wakes every waiter has as many rounds as there are waiters, and each takes one away.
--
-- In the scheduler a pointer into a table is a slot of it. A call that needs memory for a stack or an
-- environment, or gives it back, takes as an argument whether that succeeds; the creation of a thread
-- also whether its pointers and callbacks are set; resume takes what the
-- test of the thread's context says. The plan of a switch is from the thread that was current to the
-- one that is.
--
-- Not modelled: the null tests of the arena's functions and of the map's; the names of memory classes
-- and owners, which are texts; of the scheduler the stacks, registers, environments and per-thread
-- values, the creation of notifications and of the standard stream, discard and teardown, and the
-- clock; the page tables, the C runtime and platform calls, and the loader, which are effects on
-- firmware and the processor for a good part.
pub mod Prelude
pub mod Memory
pub mod Scheduler
