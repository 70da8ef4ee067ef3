-- ===== src/Memory/Snapshot/Tests.antt =====
-- A machine just after startup, and its current view.
use guide_xos_net.Prelude.{◌-◌, ◌≤◌, ◌≡◌, refl, true, arith, replicate, length-replicate}
use guide_xos_net.Memory.Ranges.{u64_max, add_u64}
use guide_xos_net.Memory.Ledger.{Ledger}
use guide_xos_net.Memory.Ledger
use guide_xos_net.Memory.Ledger.Valid.{init-IsValid as ledger-IsValid}
use guide_xos_net.Memory.Ledger.Validate.{IsValid→validate as ledger-validates}
use guide_xos_net.Memory.Arena.State.{
  Arena, available, empty_reservation, empty_commitment, max_reservations, max_commitments,
}
use guide_xos_net.Memory.Arena.State
use guide_xos_net.Memory.Arena.Valid.{init-IsValid as arena-IsValid}
use guide_xos_net.Memory.Arena.Validate
use guide_xos_net.Memory.Arena.Validating.{Fixed}
use guide_xos_net.Memory.Arena.Deciding.{IsValid→validate as arena-validates}
use guide_xos_net.Memory.CommitModel.{
  CommitModel, Bounded, create, create_no_pagefile, percentage_100, divide_rounds,
}
use guide_xos_net.Memory.Map.{Classification, memory_class_count}
use guide_xos_net.Memory.Snapshot.{
  MemorySnapshot, snapshot_ok, zero_snapshot, physical_create, snapshot_create, is_coherent,
  query_current,
}
use guide_xos_net.Memory.Snapshot.Coherent.{Shows, query_current-coherent}

abbrev classified : Classification
classified = record {
  valid = true;
  descriptor_count = 1;
  class_bytes = replicate memory_class_count 0;
  class_pages = replicate memory_class_count 0;
  total_ram_like_bytes = 0x40000000;
  conventional_bytes = 0x30000000;
}

abbrev ledger : Ledger
ledger = Ledger.init 2

abbrev arena : Arena
arena = State.init 0x400000000000 0x40000000 1

-- The view of startup, with a quarter in use.
abbrev startup : MemorySnapshot
startup = record {
  generation = 2;
  valid = true;
  total_physical_bytes = 0x40000000;
  available_physical_bytes = 0x30000000;
  memory_load_percent = 25;
  commit_limit_bytes = 0x30000000;
  available_commit_bytes = 0x30000000;
  process_virtual_total_bytes = 0x40000000;
  process_virtual_available_bytes = 0x40000000;
  accounted_physical_usage_bytes = 0x10000000;
  process_reserved_virtual_bytes = 0;
  process_committed_virtual_bytes = 0;
}

ledger_validates : Ledger.validate ledger ≡ true
ledger_validates = ledger-validates ledger (ledger-IsValid 2 (omega arith))

arena_validates : Validate.validate arena ≡ true
arena_validates =
    arena-validates arena
      (arena-IsValid 0x400000000000 0x40000000 1 (omega arith, omega arith) (omega arith))

arena-Fixed : Fixed arena
unfolding State.init
arena-Fixed = (
  length-replicate max_reservations empty_reservation,
  length-replicate max_commitments empty_commitment,
  omega arith,
)

view_ok : (query_current zero_snapshot classified startup ledger arena 3).0 ≡ snapshot_ok
unfolding query_current physical_create snapshot_create create_no_pagefile create is_coherent
    percentage_100 divide_rounds available add_u64 Ledger.init State.init
view_ok = rw (ledger_validates, arena_validates) refl

nothing_committed : arena.total_committed_bytes ≤ u64_max
unfolding State.init
nothing_committed = omega arith

query_current-coherent_example :
    (is_coherent (query_current zero_snapshot classified startup ledger arena 3).1 ≡ true)
    × ((m : CommitModel) × Bounded 0x40000000
          (0x30000000 - ledger.physical_bytes)
          arena.total_committed_bytes
          m
        × Shows
            (query_current zero_snapshot classified startup ledger arena 3).1
            classified
            ledger
            arena
            m
            3)
query_current-coherent_example =
    query_current-coherent zero_snapshot classified startup ledger arena 3 arena-Fixed
      nothing_committed (omega arith) view_ok
