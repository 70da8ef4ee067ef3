-- ===== src/Memory/Arena/CheckedReservations.antt =====
-- What the first loop of `gxos_vm_arena_validate` has checked.
use guide_xos_net.Prelude.{
  ◌+◌, ◌^◌, ◌≤◌, ◌<◌, ◌≡◌, inl, inr, true, false, some, List, [], ◌∷◌, arith, length, sum, All,
  All-map, All-of, Pairs, any, any-false, Bool-cases, Option-cases,
}
use guide_xos_net.Memory.Ranges.{u64_max, add_u64, range_contains, contains→Within, overlap-false}
use guide_xos_net.Memory.Arena.State.{Reservation, Arena, contains}
use guide_xos_net.Memory.Arena.Valid.{
  ReservationFormed, ReservationOk, ReservationsApart, reserved_share, one_reservation,
}
use guide_xos_net.Memory.Arena.Validate.{
  Reserved, reservation_malformed, reservation_overlaps, check_reservation, check_reservations,
}

pub reservation_formed :
    (a : Arena) (r : Reservation)
    → a.length ≤ u64_max
    → reservation_malformed a r ≡ false
    → ReservationFormed a.base a.length r
reservation_formed a r k h =
    let inside : range_contains a.base a.length r.base r.bytes ≡ true =
      unfold contains in ground arith in
    record {
      within = contains→Within a.base a.length r.base r.bytes k inside;
      dated = ground arith;
      requested = ground arith;
      covered = ground arith;
      committed = ground arith;
      stated = ground arith;
    }

-- What one round of the first loop that goes on has checked.
pub check_reservation-some :
    (a : Arena) (r : Reservation) (rest : List Reservation) (t u : Reserved)
    → a.length ≤ u64_max
    → t.count + 1 < 2 ^ 32
    → check_reservation a r rest t ≡ some u
    → ReservationOk a.base a.length r
      × All (ReservationsApart r) rest
      × (u.count ≡ t.count + one_reservation r)
      × (u.bytes ≡ t.bytes + reserved_share r)
unfolding check_reservation
check_reservation-some a r rest t u k c h = elim (Bool-cases r.live) [
  | inr free ↦ (inl free, All-of (λ y. inl free) rest, ground arith, ground arith)
  | inl live ↦
      let formed : reservation_malformed a r ≡ false = ground arith in
      let clear : any (reservation_overlaps r) rest ≡ false = unfold add_u64 in ground arith in
      (
        inr (reservation_formed a r k formed),
        All-map (λ y q. apart y q) rest (any-false (reservation_overlaps r) rest clear),
        unfold add_u64 in ground arith,
        unfold add_u64 in ground arith,
      )
]
  where
    apart : (y : Reservation) → reservation_overlaps r y ≡ false → ReservationsApart r y
    apart y q = ground (arith, overlap-false r.base r.bytes y.base y.bytes)

pub check_reservations-some :
    (a : Arena) (xs : List Reservation) (t u : Reserved)
    → a.length ≤ u64_max
    → t.count + length xs < 2 ^ 32
    → check_reservations a xs t ≡ some u
    → All (ReservationOk a.base a.length) xs
      × Pairs ReservationsApart xs
      × (u.count ≡ t.count + sum one_reservation xs)
      × (u.bytes ≡ t.bytes + sum reserved_share xs)
unfolding check_reservations sum
check_reservations-some a [] t u k c h = (tt, tt, ground arith, ground arith)
check_reservations-some a (r ∷ rest) t u k c h =
    elim (Option-cases (check_reservation a r rest t)) [
      | inl stop ↦ absurd (ground arith)
      | inr (t', go) ↦
          let s = check_reservation-some a r rest t t' k (omega arith) go in
          let ih = check_reservations-some a rest t' u k (ground arith) (ground arith) in
          ((s.0, ih.0), (s.1, ih.1), omega (arith, s.2, ih.2), omega (arith, s.3, ih.3))
    ]
