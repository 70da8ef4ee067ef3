-- ===== src/Memory/Arena/PassingReservations.antt =====
-- Well-formed reservations pass the first loop of `gxos_vm_arena_validate`.
use guide_xos_net.Prelude.{
  ◌+◌, ◌^◌, ◌≤◌, ◌<◌, ◌≡◌, inl, inr, ◌∙◌, true, false, some, List, [], ◌∷◌, arith, sum, All,
  All-zip, Pairs, All→any-false, Bool-cases,
}
use guide_xos_net.Memory.Ranges.{u64_max, add_u64-eq, Fits, Within→contains, overlap_of_Apart}
use guide_xos_net.Memory.Arena.State.{Reservation, Arena, contains}
use guide_xos_net.Memory.Arena.Valid.{
  ReservationFormed, ReservationOk, ReservationsApart, reserved_share, one_reservation,
}
use guide_xos_net.Memory.Arena.Validate.{
  Reserved, reservation_malformed, reservation_overlaps, check_reservation, check_reservations,
}

pub formed_passes :
    (a : Arena) (r : Reservation)
    → a.valid ≡ true
    → ReservationFormed a.base a.length r
    → reservation_malformed a r ≡ false
formed_passes a r v f =
    let inside = Within→contains a.base a.length r.base r.bytes f.within in
    let c : contains a r.base r.bytes ≡ true = unfold contains in ground arith in
    let s = f.stated in ground (arith, f.dated, f.requested, f.covered, f.committed)

-- The sums that the loops hold when a list is done.
abbrev pub reserved_after : List Reservation → Reserved → Reserved
reserved_after xs t = record {
  count = t.count + sum one_reservation xs;
  bytes = t.bytes + sum reserved_share xs;
}

pub check_reservation-after :
    (a : Arena) (r : Reservation) (rest : List Reservation) (t : Reserved)
    → a.valid ≡ true
    → ReservationOk a.base a.length r
    → All (ReservationOk a.base a.length) rest
    → All (ReservationsApart r) rest
    → t.count + one_reservation r < 2 ^ 32
    → t.bytes + reserved_share r ≤ u64_max
    → check_reservation a r rest t
      ≡ some (record { count = t.count + one_reservation r; bytes = t.bytes + reserved_share r })
unfolding check_reservation
check_reservation-after a r rest t v (inl free) fs s n b = ground arith
check_reservation-after a r rest t v (inr f) fs s n b = elim (Bool-cases r.live) [
  | inr free ↦ ground arith
  | inl live ↦
      let m = formed_passes a r v f in
      let w = f.within in
      let c =
        All→any-false (reservation_overlaps r) rest
          (All-zip (λ y g p. clear y w.1 live g p) rest fs s) in
      let e = add_u64-eq t.bytes r.bytes (ground arith) in ground arith
]
  where
    clear :
        (y : Reservation)
        → Fits r.base r.bytes
        → r.live ≡ true
        → ReservationOk a.base a.length y
        → ReservationsApart r y
        → reservation_overlaps r y ≡ false
    clear y w live (inl d) p = ground arith
    clear y w live (inr g) p =
        let z = g.within in ground (arith, overlap_of_Apart r.base r.bytes y.base y.bytes)

pub check_reservations-after :
    (a : Arena) (xs : List Reservation) (t : Reserved)
    → a.valid ≡ true
    → All (ReservationOk a.base a.length) xs
    → Pairs ReservationsApart xs
    → t.count + sum one_reservation xs < 2 ^ 32
    → t.bytes + sum reserved_share xs ≤ u64_max
    → check_reservations a xs t ≡ some (reserved_after xs t)
unfolding check_reservations sum
check_reservations-after a [] t v f s n b = ground arith
check_reservations-after a (r ∷ rest) t v f s n b =
    rw
      (
        check_reservation-after a r rest t v f.0 f.1 s.0 (omega arith) (omega arith),
        check_reservations,
      )
      (check_reservations-after a rest _ v f.1 s.1 (omega arith) (omega arith) ∙ ground arith)
