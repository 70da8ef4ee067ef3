-- ===== src/Memory/Arena/State.antt =====
-- The arena of src/Gate4Harness/memory_accounting.h: a range of addresses, a table of 256
-- reservations in it and a table of 4096 commitments in those. The arena is an object here: the null
-- tests on the pointers to it and to the results are not modelled.
use guide_xos_net.Prelude.{
  ℕ, ◌-◌, Bool, false, ◌&&◌, ◌||◌, not, List, if◌then◌else◌, leb, ltb, ◌==◌, Option, replicate,
  find_slot,
}
use guide_xos_net.Memory.Ranges.{u64_max, range_contains}

abbrev pub max_reservations : ℕ
max_reservations = 256

abbrev pub max_commitments : ℕ
max_commitments = 4096

abbrev pub granularity : ℕ
granularity = 0x10000

pub data Status : Type 0 where
  ok invalid_argument outside_arena overflow overlap capacity not_found : Status
  commit_overlap commit_outside_reservation committed_reservation alignment invalid_state : Status

-- GXOS_VM_RESERVATION_STATE_*
abbrev pub state_free : ℕ
state_free = 0

abbrev pub state_reserved : ℕ
state_reserved = 1

abbrev pub state_committed : ℕ
state_committed = 2

pub record Reservation : Type 0 where
  pub live : Bool
  pub base : ℕ
  pub bytes : ℕ
  pub requested_bytes : ℕ
  pub committed_bytes : ℕ
  pub kind : ℕ
  pub state : ℕ
  pub owner : ℕ
  pub generation : ℕ

pub record Commitment : Type 0 where
  pub live : Bool
  pub reservation_slot : ℕ
  pub base : ℕ
  pub bytes : ℕ
  pub physical_base : ℕ
  pub page_count : ℕ
  pub state : ℕ
  pub generation : ℕ

pub record Arena : Type 0 where
  pub base : ℕ
  pub length : ℕ
  pub reservations : List Reservation
  pub commitments : List Commitment
  pub reservation_count : ℕ
  pub commitment_count : ℕ
  pub total_reserved_bytes : ℕ
  pub total_committed_bytes : ℕ
  pub generation : ℕ
  pub valid : Bool

-- Table entries after `zero_bytes`.
abbrev pub empty_reservation : Reservation
empty_reservation = record {
  live = false;
  base = 0;
  bytes = 0;
  requested_bytes = 0;
  committed_bytes = 0;
  kind = 0;
  state = state_free;
  owner = 0;
  generation = 0;
}

abbrev pub empty_commitment : Commitment
empty_commitment = record {
  live = false;
  reservation_slot = 0;
  base = 0;
  bytes = 0;
  physical_base = 0;
  page_count = 0;
  state = state_free;
  generation = 0;
}

unfoldable pub init : ℕ → ℕ → ℕ → Arena
unfolding replicate
init base length generation = record {
  base = base;
  length = length;
  reservations = replicate max_reservations empty_reservation;
  commitments = replicate max_commitments empty_commitment;
  reservation_count = 0;
  commitment_count = 0;
  total_reserved_bytes = 0;
  total_committed_bytes = 0;
  generation = generation;
  valid = not (generation == 0) && (not (length == 0) && leb base (u64_max - length));
}

unfoldable pub contains : Arena → ℕ → ℕ → Bool
unfolding range_contains
contains a base bytes = if a.valid then range_contains a.base a.length base bytes else false

abbrev pub holds : ℕ → ℕ → ℕ → Bool
holds address base bytes = leb base address && ltb (address - base) bytes

-- The first live reservation that holds the address, with its slot.
unfoldable pub find_reservation : Arena → ℕ → Option (ℕ × Reservation)
unfolding find_slot
find_reservation a address = find_slot (λ r. r.live && holds address r.base r.bytes) a.reservations

-- `none` is the status NOT_FOUND.
unfoldable pub find_commitment : Arena → ℕ → Option (ℕ × Commitment)
unfolding find_slot
find_commitment a address = find_slot (λ c. c.live && holds address c.base c.bytes) a.commitments

unfoldable pub available : Arena → ℕ
available a =
    if not a.valid || ltb a.length a.total_reserved_bytes
    then 0
    else a.length - a.total_reserved_bytes
