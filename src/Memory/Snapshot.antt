-- ===== src/Memory/Snapshot.antt =====
-- The physical and the memory snapshot of src/Gate4Harness/memory_accounting.c. A snapshot is written
-- through a pointer: what stands there before is an argument.
pub mod Coherent
mod Tests
use guide_xos_net.Prelude.{
  ℕ, ◌-◌, Bool, true, false, ◌&&◌, ◌||◌, not, List, ltb, ◌==◌, if◌then◌else◌, replicate,
}
use guide_xos_net.Memory.Ledger.{Ledger}
use guide_xos_net.Memory.Ledger
use guide_xos_net.Memory.Arena.State.{Arena, available}
use guide_xos_net.Memory.Arena.Validate
use guide_xos_net.Memory.CommitModel.{CommitModel, create_no_pagefile, percentage_100}
use guide_xos_net.Memory.CommitModel
use guide_xos_net.Memory.Map.{Classification, memory_class_count}

pub data SnapshotStatus : Type 0 where
  snapshot_ok snapshot_invalid_argument invalid_physical invalid_commit : SnapshotStatus
  invalid_virtual snapshot_overflow : SnapshotStatus

pub record PhysicalSnapshot : Type 0 where
  pub valid : Bool
  pub total_ram_like_bytes : ℕ
  pub available_physical_bytes : ℕ
  pub accounted_used_bytes : ℕ
  pub post_epoch_physical_bytes : ℕ
  pub generation : ℕ
  pub descriptor_class_bytes : List ℕ

pub record MemorySnapshot : Type 0 where
  pub generation : ℕ
  pub valid : Bool
  pub total_physical_bytes : ℕ
  pub available_physical_bytes : ℕ
  pub memory_load_percent : ℕ
  pub commit_limit_bytes : ℕ
  pub available_commit_bytes : ℕ
  pub process_virtual_total_bytes : ℕ
  pub process_virtual_available_bytes : ℕ
  pub accounted_physical_usage_bytes : ℕ
  pub process_reserved_virtual_bytes : ℕ
  pub process_committed_virtual_bytes : ℕ

abbrev pub zero_physical : PhysicalSnapshot
zero_physical = record {
  valid = false;
  total_ram_like_bytes = 0;
  available_physical_bytes = 0;
  accounted_used_bytes = 0;
  post_epoch_physical_bytes = 0;
  generation = 0;
  descriptor_class_bytes = replicate memory_class_count 0;
}

abbrev pub zero_snapshot : MemorySnapshot
zero_snapshot = record {
  generation = 0;
  valid = false;
  total_physical_bytes = 0;
  available_physical_bytes = 0;
  memory_load_percent = 0;
  commit_limit_bytes = 0;
  available_commit_bytes = 0;
  process_virtual_total_bytes = 0;
  process_virtual_available_bytes = 0;
  accounted_physical_usage_bytes = 0;
  process_reserved_virtual_bytes = 0;
  process_committed_virtual_bytes = 0;
}

abbrev pub physical_of : Classification → Ledger → ℕ → PhysicalSnapshot
physical_of c l generation = record {
  valid = true;
  total_ram_like_bytes = c.total_ram_like_bytes;
  available_physical_bytes = c.conventional_bytes - l.physical_bytes;
  accounted_used_bytes = c.total_ram_like_bytes - (c.conventional_bytes - l.physical_bytes);
  post_epoch_physical_bytes = l.physical_bytes;
  generation = generation;
  descriptor_class_bytes = c.class_bytes;
}

unfoldable pub physical_create :
    PhysicalSnapshot → Classification → Ledger → ℕ → SnapshotStatus × PhysicalSnapshot
physical_create p c l generation =
    if generation == 0
    then (snapshot_invalid_argument, p)
    else if not c.valid
        || (not (Ledger.validate l)
            || (c.total_ram_like_bytes == 0 || ltb c.conventional_bytes l.physical_bytes))
    then (invalid_physical, zero_physical)
    else if ltb c.total_ram_like_bytes (c.conventional_bytes - l.physical_bytes)
    then (
      invalid_physical,
      record zero_physical {
        total_ram_like_bytes = c.total_ram_like_bytes;
        available_physical_bytes = c.conventional_bytes - l.physical_bytes;
      },
    )
    else (snapshot_ok, physical_of c l generation)

abbrev pub snapshot_of : PhysicalSnapshot → Arena → CommitModel → ℕ → MemorySnapshot
snapshot_of p a m generation = record {
  generation = generation;
  valid = true;
  total_physical_bytes = p.total_ram_like_bytes;
  available_physical_bytes = p.available_physical_bytes;
  memory_load_percent =
      percentage_100 (p.total_ram_like_bytes - p.available_physical_bytes) p.total_ram_like_bytes;
  commit_limit_bytes = m.commit_limit;
  available_commit_bytes = m.available_commit;
  process_virtual_total_bytes = a.length;
  process_virtual_available_bytes = available a;
  accounted_physical_usage_bytes = p.accounted_used_bytes;
  process_reserved_virtual_bytes = a.total_reserved_bytes;
  process_committed_virtual_bytes = a.total_committed_bytes;
}

unfoldable pub snapshot_create :
    MemorySnapshot → PhysicalSnapshot → Arena → CommitModel → ℕ → SnapshotStatus × MemorySnapshot
snapshot_create s p a m generation =
    if generation == 0
    then (snapshot_invalid_argument, s)
    else if not p.valid
        || (p.total_ram_like_bytes == 0 || ltb p.total_ram_like_bytes p.available_physical_bytes)
    then (invalid_physical, zero_snapshot)
    else if not a.valid
        || (not (Validate.validate a)
            || (ltb a.length a.total_reserved_bytes || ltb a.length a.total_committed_bytes))
    then (invalid_virtual, zero_snapshot)
    else if not m.valid
        || (ltb m.commit_limit m.committed_bytes
            || not (m.available_commit == m.commit_limit - m.committed_bytes))
    then (invalid_commit, zero_snapshot)
    else if ltb a.length (available a)
    then (invalid_virtual, zero_snapshot)
    else (snapshot_ok, snapshot_of p a m generation)

unfoldable pub is_coherent : MemorySnapshot → Bool
is_coherent s =
    if not s.valid
      || (s.generation == 0
          || (s.total_physical_bytes == 0
              || (ltb s.total_physical_bytes s.available_physical_bytes
                  || (ltb 100 s.memory_load_percent
                      || (ltb s.commit_limit_bytes s.available_commit_bytes
                          || (ltb s.commit_limit_bytes s.process_committed_virtual_bytes
                              || (ltb s.process_virtual_total_bytes
                                    s.process_virtual_available_bytes
                                  || (ltb s.process_virtual_total_bytes
                                        s.process_reserved_virtual_bytes
                                      || ltb s.process_reserved_virtual_bytes
                                          s.process_committed_virtual_bytes))))))))
    then false
    else let used = s.total_physical_bytes - s.available_physical_bytes in
      s.accounted_physical_usage_bytes == used
      && (s.available_commit_bytes == s.commit_limit_bytes - s.process_committed_virtual_bytes
          && s.memory_load_percent == percentage_100 used s.total_physical_bytes)

-- The local commit model before it is written; on an error nothing reads it.
abbrev pub no_commit : CommitModel
no_commit = record {
  commit_limit = 0;
  committed_bytes = 0;
  available_commit = 0;
  generation = 0;
  valid = false;
  no_pagefile = false;
}

abbrev pub with_commit :
    CommitModel.Status × CommitModel
    → PhysicalSnapshot
    → Arena
    → ℕ
    → SnapshotStatus × MemorySnapshot
with_commit (CommitModel.ok, m) p a generation = snapshot_create zero_snapshot p a m generation
with_commit (CommitModel.overflow, m) p a generation = (snapshot_overflow, zero_snapshot)
with_commit (s, m) p a generation = (invalid_commit, zero_snapshot)

abbrev pub with_physical :
    SnapshotStatus × PhysicalSnapshot → Arena → ℕ → SnapshotStatus × MemorySnapshot
with_physical (snapshot_ok, p) a generation =
    with_commit
      (create_no_pagefile no_commit p.total_ram_like_bytes p.available_physical_bytes
        a.total_committed_bytes generation)
      p a generation
with_physical (s, p) a generation = (s, zero_snapshot)

unfoldable pub query_current :
    MemorySnapshot
    → Classification
    → MemorySnapshot
    → Ledger
    → Arena
    → ℕ
    → SnapshotStatus × MemorySnapshot
query_current view c startup l a generation =
    if generation == 0
      || (ltb generation startup.generation
          || (not c.valid
              || (c.total_ram_like_bytes == 0
                  || (not (is_coherent startup)
                      || not (startup.total_physical_bytes == c.total_ram_like_bytes)))))
    then (snapshot_invalid_argument, view)
    else with_physical (physical_create zero_physical c l generation) a generation
