-- ===== src/Memory/Arena/Reserve.antt =====
-- Reserving and releasing address ranges: `gxos_vm_arena_reserve`, `_reserve_fixed`, `_reserve_any`
-- and `_release`. What goes through an out-pointer is returned under `some`.
use guide_xos_net.Prelude.{
  ℕ, zero, suc, ◌+◌, ◌-◌, ◌%◌, Bool, true, false, ◌&&◌, ◌||◌, not, Option, none, some, List, [],
  ◌∷◌, ltb, leb, ◌==◌, if◌then◌else◌, any, find_slot, get_elem?, set, modify,
}
use guide_xos_net.Memory.Ranges.{
  u64_max, u32, add_u64, range_end, ranges_overlap, align_up_u64, page_round_bytes,
}
use guide_xos_net.Memory.Arena.State.{
  Status, ok, invalid_argument, outside_arena, overflow, overlap, capacity, not_found,
  committed_reservation, alignment, invalid_state, Reservation, Arena, max_reservations,
  granularity, state_reserved, empty_reservation, contains,
}

abbrev pub new_reservation : ℕ → ℕ → ℕ → ℕ → Reservation
new_reservation base bytes kind generation = record {
  live = true;
  base = base;
  bytes = bytes;
  requested_bytes = bytes;
  committed_bytes = 0;
  kind = kind;
  state = state_reserved;
  owner = 0;
  generation = generation;
}

abbrev pub overlaps : ℕ → ℕ → Reservation → Bool
overlaps base bytes r = r.live && ranges_overlap base bytes r.base r.bytes

abbrev pub place : Arena → ℕ → Reservation → ℕ → Arena
place a i r total = record a {
  reservations = set a.reservations i r;
  reservation_count = u32 (a.reservation_count + 1);
  total_reserved_bytes = total;
}

unfoldable pub reserve : Arena → ℕ → ℕ → ℕ → ℕ → Status × Option ℕ × Arena
reserve a base bytes kind generation =
    if not a.valid || (generation == 0 || bytes == 0)
    then (invalid_argument, none, a)
    else if ltb (u64_max - bytes) base
    then (overflow, none, a)
    else if not (contains a base bytes)
    then (outside_arena, none, a)
    else if any (overlaps base bytes) a.reservations
    then (overlap, none, a)
    else if leb max_reservations a.reservation_count
    then (capacity, none, a)
    else elim (add_u64 a.total_reserved_bytes bytes) [
      | none ↦ (overflow, none, a)
      | some total ↦ elim (find_slot (λ r. not r.live) a.reservations) [
        | none ↦ (capacity, none, a)
        | some (i, r) ↦ (ok, some i, place a i (new_reservation base bytes kind generation) total)
      ]
    ]

abbrev pub label : ℕ → ℕ → Reservation → Reservation
label requested owner r = record r {
  requested_bytes = requested;
  state = state_reserved;
  owner = owner;
}

abbrev pub label_slot : Arena → Option ℕ → ℕ → ℕ → Arena
label_slot a none requested owner = a
label_slot a (some i) requested owner = record a {
  reservations = modify a.reservations i (label requested owner);
}

-- On OK the slot's request, owner and state are written over.
abbrev pub labelled : ℕ → ℕ → Status × Option ℕ × Arena → Status × Option ℕ × Arena
labelled requested owner (ok, slot, a) = (ok, slot, label_slot a slot requested owner)
labelled requested owner (s, slot, a) = (s, slot, a)

unfoldable pub reserve_fixed : Arena → ℕ → ℕ → ℕ → ℕ → ℕ → Status × Option ℕ × Arena
reserve_fixed a base requested kind owner generation =
    if requested == 0
    then (invalid_argument, none, a)
    else if not (base % granularity == 0)
    then (alignment, none, a)
    else let reserved = page_round_bytes requested in
      if reserved == 0
      then (overflow, none, a)
      else labelled requested owner (reserve a base reserved kind generation)

-- The inner loop of `reserve_any` over the reservations: an early return, or whether the candidate
-- conflicts with one and the next candidate.
pub data Scan : Type 0 where
  stop : Status → Scan
  go : Bool → ℕ → Scan

unfoldable pub scan_one : ℕ → ℕ → Reservation → Bool → ℕ → Scan
scan_one candidate reserved r conflict next =
    if not r.live then go conflict next else elim (range_end r.base r.bytes) [
      | none ↦ stop invalid_state
      | some reservation_end ↦
          if ranges_overlap candidate reserved r.base r.bytes
          then (if ltb next reservation_end
              then elim (align_up_u64 reservation_end granularity) [
                | none ↦ stop overflow
                | some n ↦ go true n
              ]
              else go true next)
          else go conflict next
    ]

unfoldable pub scan : ℕ → ℕ → List Reservation → Bool → ℕ → Scan
unfolding scan_one
scan candidate reserved [] conflict next = go conflict next
scan candidate reserved (r ∷ rs) conflict next =
    elim (scan_one candidate reserved r conflict next) [
      | stop s ↦ stop s
      | go c n ↦ scan candidate reserved rs c n
    ]

-- The base is written only on OK.
abbrev pub with_base : ℕ → Status × Option ℕ × Arena → Status × Option ℕ × Option ℕ × Arena
with_base base (ok, slot, a) = (ok, some base, slot, a)
with_base base (s, slot, a) = (s, none, slot, a)

-- The outer loop, on fuel: `none` would mean that the fuel ran out.
unfoldable pub search_from :
    ℕ → Arena → ℕ → ℕ → ℕ → ℕ → ℕ → ℕ → ℕ → Option (Status × Option ℕ × Option ℕ × Arena)
unfolding scan
search_from zero a reserved arena_end requested kind owner generation candidate = none
search_from (suc fuel) a reserved arena_end requested kind owner generation candidate =
    elim (leb candidate arena_end && leb reserved (arena_end - candidate)) [
      | false ↦ some (outside_arena, none, none, a)
      | true ↦ elim (scan candidate reserved a.reservations false candidate) [
        | stop s ↦ some (s, none, none, a)
        | go conflict next ↦ elim conflict [
          | false ↦
              some (with_base candidate (reserve_fixed a candidate requested kind owner generation))
          | true ↦ elim (leb next candidate) [
            | true ↦ some (overflow, none, none, a)
            | false ↦ search_from fuel a reserved arena_end requested kind owner generation next
          ]
        ]
      ]
    ]

-- Each round raises the candidate, which stays at most the arena's end: that end is fuel enough.
unfoldable pub reserve_any : Arena → ℕ → ℕ → ℕ → ℕ → Option (Status × Option ℕ × Option ℕ × Arena)
reserve_any a requested kind owner generation =
    if requested == 0 || (not a.valid || generation == 0)
    then some (invalid_argument, none, none, a)
    else let reserved = page_round_bytes requested in
      if reserved == 0 then some (overflow, none, none, a) else elim (range_end a.base a.length) [
        | none ↦ some (overflow, none, none, a)
        | some arena_end ↦ elim (align_up_u64 a.base granularity) [
          | none ↦ some (overflow, none, none, a)
          | some candidate ↦
              search_from (arena_end + 2) a reserved arena_end requested kind owner generation
                candidate
        ]
      ]

abbrev pub unplace : Arena → ℕ → Reservation → Arena
unplace a i r = record a {
  reservations = set a.reservations i empty_reservation;
  reservation_count = a.reservation_count - 1;
  total_reserved_bytes = a.total_reserved_bytes - r.bytes;
}

unfoldable pub release : Arena → ℕ → Status × Arena
release a slot =
    if not a.valid || leb max_reservations slot
    then (invalid_argument, a)
    else elim (get_elem? a.reservations slot) [
      | none ↦ (invalid_argument, a)
      | some r ↦
          if not r.live
          then (not_found, a)
          else if not (r.committed_bytes == 0)
          then (committed_reservation, a)
          else if a.reservation_count == 0 || ltb a.total_reserved_bytes r.bytes
          then (invalid_argument, a)
          else (ok, unplace a slot r)
    ]
