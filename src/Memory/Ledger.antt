-- ===== src/Memory/Ledger.antt =====
-- The physical ledger of src/Gate4Harness/memory_accounting.c: a table of 4096 allocations with
-- running totals. The ledger and the allocation are objects here; what a null pointer does stands in
-- Memory/Ledger/Pointers.antt. A slot number under `some` is what goes through `slot_out`.
pub mod Valid
pub mod Validate
pub mod Insert
pub mod Remove
pub mod RoundTrip
pub mod Pointers
mod Tests
use guide_xos_net.Prelude.{
  ℕ, ◌+◌, ◌-◌, Bool, true, false, ◌&&◌, ◌||◌, not, Option, none, some, List, [], ◌∷◌, ltb, leb,
  ◌==◌, if◌then◌else◌, any, find_slot, get_elem?, set, replicate, is_none,
}
use guide_xos_net.Memory.Ranges.{
  page_size, u32, u64, add_u64, multiply_u64, range_end, ranges_overlap,
}

abbrev pub capacity : ℕ
capacity = 4096

-- GXOS_MEMORY_ALLOCATION_COUNT and GXOS_MEMORY_OWNER_COUNT
abbrev pub class_count : ℕ
class_count = 15

abbrev pub owner_count : ℕ
owner_count = 10

pub data Status : Type 0 where
  ok invalid_argument zero_length overflow overlap capacity_reached not_found invalid_state : Status

-- The class and the owner are C enumerations that the code compares as numbers.
pub record Allocation : Type 0 where
  pub live : Bool
  pub base : ℕ
  pub bytes : ℕ
  pub pages : ℕ
  pub allocation_class : ℕ
  pub owner : ℕ
  pub physical_impact_bytes : ℕ
  pub commit_impact_bytes : ℕ
  pub virtual_reservation_impact_bytes : ℕ
  pub generation : ℕ

pub record Ledger : Type 0 where
  pub entries : List Allocation
  pub live_count : ℕ
  pub exhausted : Bool
  pub physical_bytes : ℕ
  pub commit_bytes : ℕ
  pub virtual_reservation_bytes : ℕ
  pub generation : ℕ

-- An entry after `zero_bytes`.
abbrev pub empty_entry : Allocation
empty_entry = record {
  live = false;
  base = 0;
  bytes = 0;
  pages = 0;
  allocation_class = 0;
  owner = 0;
  physical_impact_bytes = 0;
  commit_impact_bytes = 0;
  virtual_reservation_impact_bytes = 0;
  generation = 0;
}

unfoldable pub init : ℕ → Ledger
unfolding replicate
init generation = record {
  entries = replicate capacity empty_entry;
  live_count = 0;
  exhausted = false;
  physical_bytes = 0;
  commit_bytes = 0;
  virtual_reservation_bytes = 0;
  generation = generation;
}

-- An allocation with base 0 names no address range, and conflicts with nothing.
abbrev pub conflicts : Allocation → Allocation → Bool
conflicts left right =
    right.live
    && (not (left.base == 0)
        && (not (right.base == 0) && ranges_overlap left.base left.bytes right.base right.bytes))

abbrev pub pages_short : Allocation → Bool
pages_short a = elim (multiply_u64 a.pages page_size) [
  | none ↦ true
  | some page_bytes ↦ ltb page_bytes a.bytes
]

abbrev pub totals_overflow : Ledger → Allocation → Bool
totals_overflow l a =
    is_none (add_u64 l.physical_bytes a.physical_impact_bytes)
    || (is_none (add_u64 l.commit_bytes a.commit_impact_bytes)
        || is_none (add_u64 l.virtual_reservation_bytes a.virtual_reservation_impact_bytes))

abbrev pub exhaust : Ledger → Ledger
exhaust l = record l { exhausted = true }

abbrev pub record_at : Ledger → Allocation → ℕ → Ledger
record_at l a i = record l {
  entries = set l.entries i (record a { live = true });
  live_count = u32 (l.live_count + 1);
  physical_bytes = u64 (l.physical_bytes + a.physical_impact_bytes);
  commit_bytes = u64 (l.commit_bytes + a.commit_impact_bytes);
  virtual_reservation_bytes =
      u64 (l.virtual_reservation_bytes + a.virtual_reservation_impact_bytes);
}

unfoldable pub insert : Ledger → Allocation → Status × Option ℕ × Ledger
insert l a =
    if a.generation == 0
      || (a.bytes == 0 || (leb class_count a.allocation_class || leb owner_count a.owner))
    then (if a.bytes == 0 then zero_length else invalid_argument, none, l)
    else if not (a.base == 0) && is_none (range_end a.base a.bytes)
    then (overflow, none, l)
    else if not (a.pages == 0) && pages_short a
    then (overflow, none, l)
    else if any (conflicts a) l.entries
    then (overlap, none, l)
    else if leb capacity l.live_count
    then (capacity_reached, none, exhaust l)
    else if totals_overflow l a
    then (overflow, none, l)
    else elim (find_slot (λ e. not e.live) l.entries) [
      | none ↦ (capacity_reached, none, exhaust l)
      | some (i, e) ↦ (ok, some i, record_at l a i)
    ]

abbrev pub removable : Ledger → Allocation → Bool
removable l e =
    e.live
    && (not (l.live_count == 0)
        && (leb e.physical_impact_bytes l.physical_bytes
            && (leb e.commit_impact_bytes l.commit_bytes
                && leb e.virtual_reservation_impact_bytes l.virtual_reservation_bytes)))

abbrev pub clear_at : Ledger → Allocation → ℕ → Ledger
clear_at l e i = record l {
  entries = set l.entries i empty_entry;
  live_count = l.live_count - 1;
  physical_bytes = l.physical_bytes - e.physical_impact_bytes;
  commit_bytes = l.commit_bytes - e.commit_impact_bytes;
  virtual_reservation_bytes = l.virtual_reservation_bytes - e.virtual_reservation_impact_bytes;
}

-- The table has `capacity` entries, so a slot below it is always found.
unfoldable pub remove : Ledger → ℕ → Status × Ledger
remove l slot =
    if leb capacity slot then (invalid_argument, l) else elim (get_elem? l.entries slot) [
      | none ↦ (invalid_argument, l)
      | some e ↦ if removable l e then (ok, clear_at l e slot) else (invalid_state, l)
    ]

abbrev pub names_range : ℕ → ℕ → Allocation → Bool
names_range base bytes e = e.live && (e.base == base && e.bytes == bytes)

unfoldable pub find : Ledger → ℕ → ℕ → Option ℕ
find l base bytes =
    if base == 0 || bytes == 0
    then none
    else elim (find_slot (names_range base bytes) l.entries) [ none ↦ none | some (i, e) ↦ some i ]

-- The four running sums of `gxos_physical_ledger_validate`.
pub record Totals : Type 0 where
  pub live : ℕ
  pub physical : ℕ
  pub commit : ℕ
  pub virtual_bytes : ℕ

abbrev pub malformed : Allocation → Bool
malformed e =
    e.bytes == 0
    || (e.generation == 0
        || (leb class_count e.allocation_class
            || (leb owner_count e.owner
                || (not (e.base == 0) && is_none (range_end e.base e.bytes)))))

unfoldable pub add_totals : Allocation → Totals → Option Totals
add_totals e t = elim (add_u64 t.physical e.physical_impact_bytes) [
  | none ↦ none
  | some p ↦ elim (add_u64 t.commit e.commit_impact_bytes) [
    | none ↦ none
    | some c ↦ elim (add_u64 t.virtual_bytes e.virtual_reservation_impact_bytes) [
      | none ↦ none
      | some v ↦
          some (record { live = u32 (t.live + 1); physical = p; commit = c; virtual_bytes = v })
    ]
  ]
]

-- One round of the loop: the entry, those after it, and the sums so far.
unfoldable pub check_entry : Allocation → List Allocation → Totals → Option Totals
check_entry e rest t =
    if not e.live
    then some t
    else if malformed e
    then none
    else if any (conflicts e) rest
    then none
    else add_totals e t

unfoldable pub validate_from : List Allocation → Totals → Option Totals
validate_from [] t = some t
validate_from (e ∷ rest) t = elim (check_entry e rest t) [
  | none ↦ none
  | some t' ↦ validate_from rest t'
]

abbrev pub zero_totals : Totals
zero_totals = record { live = 0; physical = 0; commit = 0; virtual_bytes = 0 }

abbrev pub totals_agree : Ledger → Totals → Bool
totals_agree l t =
    t.live == l.live_count
    && (t.physical == l.physical_bytes
        && (t.commit == l.commit_bytes && t.virtual_bytes == l.virtual_reservation_bytes))

unfoldable pub validate : Ledger → Bool
unfolding validate_from check_entry add_totals add_u64
validate l =
    if l.generation == 0
    then false
    else elim (validate_from l.entries zero_totals) [ none ↦ false | some t ↦ totals_agree l t ]
