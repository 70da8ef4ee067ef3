-- ===== src/Memory/Arena/Reserving.antt =====
-- `gxos_vm_arena_reserve`, `_reserve_fixed` and `_release`: what they accept, and that they keep the
-- arena well formed.
use guide_xos_net.Prelude.{
  ℕ, ◌<◌, ◌≡◌, ◌≢◌, ◌⊎◌, ◌↔◌, inl, inr, refl, true, false, not, none, some, arith, All, All-map,
  All-zip, any, any-false, All→any-false, find_slot, find_slot-some, Option-cases,
}
use guide_xos_net.Memory.Ranges.{
  Fits, Apart, Within, add_u64, add_u64-eq, add_u64-some, overlap-false, overlap_of_Apart,
  contains→Within, Within→contains,
}
use guide_xos_net.Memory.Arena.State.{Status, ok, Reservation, Arena, max_reservations, contains}
use guide_xos_net.Memory.Arena.Reserve.{new_reservation, overlaps, place, reserve}
use guide_xos_net.Memory.Arena.Valid.{ReservationFormed, ReservationOk, ReservationsApart, IsValid}
use guide_xos_net.Memory.Arena.Tables.{free_reservation, reserved-add-le}
use guide_xos_net.Memory.Arena.Placing.{place-IsValid}

-- A range that can be reserved.
pub record Reservable (a : Arena) (base bytes : ℕ) : Type 0 where
  pub within : Within a.base a.length base bytes
  pub apart : All (λ r. (r.live ≡ false) ⊎ Apart base bytes r.base r.bytes) a.reservations
  pub room : a.reservation_count < max_reservations

-- The slot that a successful `reserve` writes.
pub record Placed (a : Arena) (base bytes kind generation : ℕ) : Type 0 where
  pub slot : ℕ
  pub total : ℕ
  pub old : Reservation
  pub at : find_slot (λ r. not r.live) a.reservations ≡ some (slot, old)
  pub sum : add_u64 a.total_reserved_bytes bytes ≡ some total
  pub result :
      reserve a base bytes kind generation
      ≡ (ok, some slot, place a slot (new_reservation base bytes kind generation) total)

pub Status-ok : (s : Status) → (s ≡ ok) ⊎ (s ≢ ok)
Status-ok ok = inl refl
Status-ok _ = inr (λ e. cc)

pub reserve-checks :
    (a : Arena) (base bytes kind generation : ℕ)
    → (reserve a base bytes kind generation).0 ≡ ok
    → (contains a base bytes ≡ true)
      × (any (overlaps base bytes) a.reservations ≡ false)
      × (a.reservation_count < max_reservations)
      × (0 < generation)
      × (0 < bytes)
unfolding reserve
reserve-checks a base bytes kind generation h = ground arith

pub reserve-Placed :
    (a : Arena) (base bytes kind generation : ℕ)
    → (reserve a base bytes kind generation).0 ≡ ok
    → Placed a base bytes kind generation
unfolding reserve
reserve-Placed a base bytes kind generation h =
    elim (Option-cases (add_u64 a.total_reserved_bytes bytes)) [
      | inl e ↦ absurd (ground arith)
      | inr (total, e) ↦ elim (Option-cases (find_slot (λ r. not r.live) a.reservations)) [
        | inl q ↦ absurd (ground arith)
        | inr ((i, r), q) ↦ record {
          slot = i;
          total = total;
          old = r;
          at = q;
          sum = e;
          result = ground arith;
        }
      ]
    ]

-- A failing `reserve` changes nothing, and writes no slot.
pub reserve-refused :
    (a : Arena) (base bytes kind generation : ℕ)
    → (reserve a base bytes kind generation).0 ≢ ok
    → ((reserve a base bytes kind generation).2 ≡ a)
      × ((reserve a base bytes kind generation).1 ≡ none)
unfolding reserve
reserve-refused a base bytes kind generation h = ground arith

overlaps-false :
    (base bytes : ℕ) (r : Reservation)
    → overlaps base bytes r ≡ false
    → (r.live ≡ false) ⊎ Apart base bytes r.base r.bytes
overlaps-false base bytes r h = ground (arith, overlap-false base bytes r.base r.bytes)

Apart→overlaps :
    (a : Arena) (base bytes : ℕ) (r : Reservation)
    → Fits base bytes
    → ReservationOk a.base a.length r
    → (r.live ≡ false) ⊎ Apart base bytes r.base r.bytes
    → overlaps base bytes r ≡ false
Apart→overlaps a base bytes r f k h = ground (arith, overlap_of_Apart base bytes r.base r.bytes)

-- On a well-formed arena, with a generation other than 0, `reserve` returns OK exactly for the
-- ranges inside the arena that are apart from every live reservation, while a slot is free.
pub reserve-ok_iff :
    (a : Arena) (base bytes kind generation : ℕ)
    → IsValid a
    → 0 < generation
    → ((reserve a base bytes kind generation).0 ≡ ok) ↔ Reservable a base bytes
reserve-ok_iff a base bytes kind generation v g = (forth, back)
  where
    forth : (reserve a base bytes kind generation).0 ≡ ok → Reservable a base bytes
    forth h =
        let c = reserve-checks a base bytes kind generation h in
        record {
          within =
              contains→Within a.base a.length base bytes (omega (arith, v.fits))
                (unfold contains in ground arith);
          apart =
              All-map (λ r. overlaps-false base bytes r) a.reservations
                (any-false (overlaps base bytes) a.reservations c.1);
          room = c.2;
        }

    back : Reservable a base bytes → (reserve a base bytes kind generation).0 ≡ ok
    back k =
        let inside : contains a base bytes ≡ true =
          unfold contains in
          ground (arith, Within→contains a.base a.length base bytes k.within, v.valid) in
        let clear = All→any-false (overlaps base bytes) a.reservations (
          All-zip (λ r. Apart→overlaps a base bytes r k.within.1) a.reservations
            v.reservations_formed k.apart) in
        let total =
          add_u64-eq a.total_reserved_bytes bytes
            (omega (arith, reserved-add-le a base bytes v k.within k.apart, v.fits)) in
        elim (Option-cases (find_slot (λ r. not r.live) a.reservations)) [
          | inl e ↦ absurd (omega (arith, free_reservation a v e, k.room))
          | inr ((i, r), e) ↦ unfold reserve in ground (arith, k.room, k.within, v.valid)
        ]

pub new_formed :
    (a : Arena) (base bytes kind generation : ℕ)
    → Reservable a base bytes
    → 0 < generation
    → ReservationFormed a.base a.length (new_reservation base bytes kind generation)
new_formed a base bytes kind generation k g = record {
  within = k.within;
  dated = g;
  requested = k.within.1.0;
  covered = omega arith;
  committed = omega arith;
  stated = inl (refl, refl);
}

pub new_apart :
    (a : Arena) (base bytes kind generation : ℕ)
    → Reservable a base bytes
    → All (ReservationsApart (new_reservation base bytes kind generation)) a.reservations
new_apart a base bytes kind generation k = All-map (λ r h. inr h) a.reservations k.apart

-- `reserve` keeps a well-formed arena well formed, whatever it returns.
pub reserve-IsValid :
    (a : Arena) (base bytes kind generation : ℕ)
    → IsValid a
    → IsValid (reserve a base bytes kind generation).2
reserve-IsValid a base bytes kind generation v =
    elim (Status-ok (reserve a base bytes kind generation).0) [
      | inl h ↦
          let p = reserve-Placed a base bytes kind generation h in
          let g = (reserve-checks a base bytes kind generation h).3 in
          let k = (reserve-ok_iff a base bytes kind generation v g).0 h in
          let s = find_slot-some _ a.reservations p.at in
          rw p.result (
            place-IsValid a p.slot p.total p.old (new_reservation base bytes kind generation) v s.0
              (ground arith) refl refl (new_formed a base bytes kind generation k g)
              (new_apart a base bytes kind generation k) k.room
              (add_u64-some a.total_reserved_bytes bytes p.sum).0)
      | inr h ↦ rw ((reserve-refused a base bytes kind generation h).0) v
    ]
