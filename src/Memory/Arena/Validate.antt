-- ===== src/Memory/Arena/Validate.antt =====
-- `gxos_vm_arena_validate`: its three loops, with the array of charges on its stack.
use guide_xos_net.Prelude.{
  ℕ, ◌+◌, ◌-◌, Bool, true, false, ◌&&◌, ◌||◌, not, Option, none, some, List, [], ◌∷◌, ltb, leb,
  ◌==◌, if◌then◌else◌, any, get_elem?, get_or, set, replicate,
}
use guide_xos_net.Memory.Ranges.{u64_max, u32, add_u64, ranges_overlap, range_contains}
use guide_xos_net.Memory.Arena.State.{
  Reservation, Commitment, Arena, max_reservations, state_reserved, state_committed, contains,
}

-- The running count and sum of the first loop.
pub record Reserved : Type 0 where
  pub count : ℕ
  pub bytes : ℕ

-- Those of the second, with the charge to each reservation.
pub record Charged : Type 0 where
  pub count : ℕ
  pub bytes : ℕ
  pub by_slot : List ℕ

abbrev pub reservation_malformed : Arena → Reservation → Bool
reservation_malformed a r =
    not (contains a r.base r.bytes)
    || (r.generation == 0
        || (r.requested_bytes == 0
            || (ltb r.bytes r.requested_bytes
                || (ltb r.state state_reserved
                    || (ltb state_committed r.state
                        || ((r.committed_bytes == 0 && not (r.state == state_reserved))
                            || ((not (r.committed_bytes == 0) && not (r.state == state_committed))
                                || ltb r.bytes r.committed_bytes)))))))

abbrev pub reservation_overlaps : Reservation → Reservation → Bool
reservation_overlaps r right = right.live && ranges_overlap r.base r.bytes right.base right.bytes

-- One round of the first loop: the entry, those after it, and the sums so far.
unfoldable pub check_reservation :
    Arena → Reservation → List Reservation → Reserved → Option Reserved
check_reservation a r rest t =
    if not r.live
    then some t
    else if reservation_malformed a r
    then none
    else elim (add_u64 t.bytes r.bytes) [
      | none ↦ none
      | some bytes ↦
          if any (reservation_overlaps r) rest
          then none
          else some (record { count = u32 (t.count + 1); bytes = bytes })
    ]

unfoldable pub check_reservations : Arena → List Reservation → Reserved → Option Reserved
check_reservations a [] t = some t
check_reservations a (r ∷ rest) t = elim (check_reservation a r rest t) [
  | none ↦ none
  | some t' ↦ check_reservations a rest t'
]

-- What the second loop asks of a live entry, except for the sums.
abbrev pub owned : Option Reservation → Commitment → Bool
owned none c = false
owned (some r) c =
    r.live
    && (not (c.generation == 0)
        && (c.state == state_committed
            && (not (not (c.physical_base == 0) && c.page_count == 0)
                && range_contains r.base r.bytes c.base c.bytes)))

abbrev pub commitment_malformed : List Reservation → Commitment → Bool
commitment_malformed rs c =
    leb max_reservations c.reservation_slot || not (owned (get_elem? rs c.reservation_slot) c)

abbrev pub commitment_overlaps : Commitment → Commitment → Bool
commitment_overlaps c right = right.live && ranges_overlap c.base c.bytes right.base right.bytes

unfoldable pub check_commitment :
    List Reservation → Commitment → List Commitment → Charged → Option Charged
check_commitment rs c rest t =
    if not c.live
    then some t
    else if commitment_malformed rs c
    then none
    else elim (add_u64 t.bytes c.bytes) [
      | none ↦ none
      | some bytes ↦ elim (add_u64 (get_or t.by_slot c.reservation_slot 0) c.bytes) [
        | none ↦ none
        | some charge ↦
            if any (commitment_overlaps c) rest
            then none
            else some (record {
              count = u32 (t.count + 1);
              bytes = bytes;
              by_slot = set t.by_slot c.reservation_slot charge;
            })
      ]
    ]

unfoldable pub check_commitments : List Reservation → List Commitment → Charged → Option Charged
check_commitments rs [] t = some t
check_commitments rs (c ∷ rest) t = elim (check_commitment rs c rest t) [
  | none ↦ none
  | some t' ↦ check_commitments rs rest t'
]

-- The third loop. Both arrays have `max_reservations` entries.
unfoldable pub charges_agree : List Reservation → List ℕ → Bool
charges_agree [] charges = true
charges_agree (r ∷ rs) [] = true
charges_agree (r ∷ rs) (x ∷ xs) =
    not (r.live && not (x == r.committed_bytes)) && charges_agree rs xs

abbrev pub nothing_reserved : Reserved
nothing_reserved = record { count = 0; bytes = 0 }

abbrev pub nothing_charged : Charged
nothing_charged = record { count = 0; bytes = 0; by_slot = replicate max_reservations 0 }

abbrev pub arena_agrees : Arena → Reserved → Charged → Bool
arena_agrees a t u =
    charges_agree a.reservations u.by_slot
    && (t.count == a.reservation_count
        && (u.count == a.commitment_count
            && (t.bytes == a.total_reserved_bytes && u.bytes == a.total_committed_bytes)))

unfoldable pub validate : Arena → Bool
validate a =
    if not a.valid || (a.length == 0 || (ltb (u64_max - a.length) a.base || a.generation == 0))
    then false
    else elim (check_reservations a a.reservations nothing_reserved) [
      | none ↦ false
      | some t ↦ elim (check_commitments a.reservations a.commitments nothing_charged) [
        | none ↦ false
        | some u ↦ arena_agrees a t u
      ]
    ]
