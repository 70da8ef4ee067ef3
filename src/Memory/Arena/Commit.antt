-- ===== src/Memory/Arena/Commit.antt =====
-- Committing and decommitting: `gxos_vm_arena_commit`, `_commit_page`, `_decommit_page` and
-- `_decommit`.
use guide_xos_net.Prelude.{
  ℕ, ◌+◌, ◌-◌, ◌/◌, ◌%◌, Bool, true, false, ◌&&◌, ◌||◌, not, none, some, ltb, leb, ◌==◌,
  if◌then◌else◌, any, find_slot, get_elem?, set, modify, is_none,
}
use guide_xos_net.Memory.Ranges.{
  u64_max, page_size, u32, u64, add_u64, ranges_overlap, range_contains,
}
use guide_xos_net.Memory.Arena.State.{
  Status, ok, invalid_argument, overflow, capacity, not_found, commit_overlap,
  commit_outside_reservation, alignment, invalid_state, Reservation, Commitment, Arena,
  max_reservations, max_commitments, state_reserved, state_committed, empty_commitment, contains,
  find_reservation,
}

-- A reservation with `bytes` more, or fewer, committed.
abbrev pub charge : ℕ → Reservation → Reservation
charge bytes r = record r {
  committed_bytes = u64 (r.committed_bytes + bytes);
  state = state_committed;
}

abbrev pub refund : ℕ → Reservation → Reservation
refund bytes r = record r {
  committed_bytes = r.committed_bytes - bytes;
  state = if r.committed_bytes - bytes == 0 then state_reserved else r.state;
}

-- Both ways to commit write the entry at a free slot and add it to the totals.
abbrev pub book : Arena → ℕ → Commitment → Arena
book a j c = record a {
  commitments = set a.commitments j c;
  commitment_count = u32 (a.commitment_count + 1);
  total_committed_bytes = u64 (a.total_committed_bytes + c.bytes);
  reservations = modify a.reservations c.reservation_slot (charge c.bytes);
}

-- Both ways to decommit take it off them.
abbrev pub unbook : Arena → ℕ → Commitment → Arena
unbook a j c = record a {
  commitments = set a.commitments j empty_commitment;
  commitment_count = a.commitment_count - 1;
  total_committed_bytes = a.total_committed_bytes - c.bytes;
  reservations = modify a.reservations c.reservation_slot (refund c.bytes);
}

abbrev pub new_commitment : ℕ → ℕ → ℕ → ℕ → Commitment
new_commitment slot base bytes generation = record {
  live = true;
  reservation_slot = slot;
  base = base;
  bytes = bytes;
  physical_base = 0;
  page_count = if bytes % page_size == 0 then bytes / page_size else u64 (bytes / page_size + 1);
  state = state_committed;
  generation = generation;
}

-- The guards on the totals, and the search for a free slot.
abbrev pub enter : Arena → Reservation → Commitment → Status × Arena
enter a r c =
    if leb max_commitments a.commitment_count
    then (capacity, a)
    else if is_none (add_u64 a.total_committed_bytes c.bytes)
        || is_none (add_u64 r.committed_bytes c.bytes)
    then (overflow, a)
    else elim (find_slot (λ c. not c.live) a.commitments) [
      | none ↦ (capacity, a)
      | some (j, old) ↦ (ok, book a j c)
    ]

unfoldable pub commit : Arena → ℕ → ℕ → ℕ → Status × Arena
commit a base bytes generation =
    if not a.valid || (generation == 0 || bytes == 0)
    then (invalid_argument, a)
    else if ltb (u64_max - bytes) base
    then (overflow, a)
    else elim (find_slot (λ r. r.live && range_contains r.base r.bytes base bytes) a.reservations) [
      | none ↦ (commit_outside_reservation, a)
      | some (slot, r) ↦
          if any (λ c. c.live && ranges_overlap base bytes c.base c.bytes) a.commitments
          then (commit_overlap, a)
          else enter a r (new_commitment slot base bytes generation)
    ]

abbrev pub is_page : ℕ → Commitment → Bool
is_page page c = c.live && (c.base == page && c.bytes == page_size)

abbrev pub page_commitment : ℕ → ℕ → ℕ → ℕ → Commitment
page_commitment slot page physical generation = record {
  live = true;
  reservation_slot = slot;
  base = page;
  bytes = page_size;
  physical_base = physical;
  page_count = 1;
  state = state_committed;
  generation = generation;
}

abbrev pub entered : Status × Arena → Status × Bool × Arena
entered (s, a) = (s, false, a)

-- The middle component is what goes through `already_committed_out`.
unfoldable pub commit_page : Arena → ℕ → ℕ → ℕ → Status × Bool × Arena
commit_page a page physical generation =
    if generation == 0 || physical == 0
    then (invalid_argument, false, a)
    else if not (page % page_size == 0) || not (physical % page_size == 0)
    then (alignment, false, a)
    else elim (find_reservation a page) [
      | none ↦ (commit_outside_reservation, false, a)
      | some (slot, r) ↦
          if not (contains a page page_size) || not (range_contains r.base r.bytes page page_size)
          then (commit_outside_reservation, false, a)
          else elim (find_slot (is_page page) a.commitments) [
            | some (j, c) ↦
                if c.physical_base == physical then (ok, true, a) else (commit_overlap, false, a)
            | none ↦ entered (enter a r (page_commitment slot page physical generation))
          ]
    ]

-- The middle component is what goes through `physical_page_out`.
unfoldable pub decommit_page : Arena → ℕ → Status × ℕ × Arena
decommit_page a page =
    if not (page % page_size == 0)
    then (invalid_argument, 0, a)
    else elim (find_slot (is_page page) a.commitments) [
      | none ↦ (not_found, 0, a)
      | some (j, c) ↦
          if leb max_reservations c.reservation_slot
          then (invalid_state, 0, a)
          else elim (get_elem? a.reservations c.reservation_slot) [
            | none ↦ (invalid_state, 0, a)
            | some r ↦
                if not r.live
                  || (a.commitment_count == 0
                      || (ltb a.total_committed_bytes page_size || ltb r.committed_bytes page_size))
                then (invalid_state, 0, a)
                else (ok, c.physical_base, unbook a j c)
          ]
    ]

-- The code reads the reservation with no test of the slot. On a well-formed arena the slot is in
-- range; out of range the C program is undefined, and the model refuses.
unfoldable pub decommit : Arena → ℕ → ℕ → Status × Arena
decommit a base bytes =
    if not a.valid || bytes == 0
    then (invalid_argument, a)
    else elim (find_slot (λ c. c.live && (c.base == base && c.bytes == bytes)) a.commitments) [
      | none ↦ (not_found, a)
      | some (j, c) ↦ elim (get_elem? a.reservations c.reservation_slot) [
        | none ↦ (invalid_argument, a)
        | some r ↦
            if a.commitment_count == 0
              || (ltb a.total_committed_bytes bytes || ltb r.committed_bytes bytes)
            then (invalid_argument, a)
            else (ok, unbook a j c)
      ]
    ]
