-- ===== src/Memory/Arena/Valid.antt =====
-- What a well-formed arena is: reservations inside the arena and apart, commitments inside their
-- reservations and apart, and every count and total the sum that it stands for.
use guide_xos_net.Prelude.{
  ℕ, ◌≤◌, ◌<◌, ◌≡◌, ◌⊎◌, inl, refl, true, false, some, arith, length, get_elem?, sum, sum-replicate,
  All, Pairs, length-replicate, All-replicate, Pairs-replicate, if◌then◌else◌, bit, ◌==◌, All-get,
  replicate, List,
}
use guide_xos_net.Memory.Ranges.{Fits, Apart, Within}
use guide_xos_net.Memory.Arena.State.{
  Reservation, Commitment, Arena, init, max_reservations, max_commitments, state_reserved,
  state_committed, empty_reservation, empty_commitment,
}

pub record ReservationFormed (base length : ℕ) (r : Reservation) : Type 0 where
  pub within : Within base length r.base r.bytes
  pub dated : 0 < r.generation
  pub requested : 0 < r.requested_bytes
  pub covered : r.requested_bytes ≤ r.bytes
  pub committed : r.committed_bytes ≤ r.bytes
  pub stated :
      ((r.committed_bytes ≡ 0) × (r.state ≡ state_reserved))
      ⊎ ((0 < r.committed_bytes) × (r.state ≡ state_committed))

abbrev pub ReservationOk : ℕ → ℕ → Reservation → Type 0
ReservationOk base length r = (r.live ≡ false) ⊎ ReservationFormed base length r

-- A commitment lies in the live reservation that it names.
pub record CommitmentFormed (rs : List Reservation) (c : Commitment) : Type 0 where
  pub owner : Reservation
  pub at : get_elem? rs c.reservation_slot ≡ some owner
  pub live : owner.live ≡ true
  pub within : Within owner.base owner.bytes c.base c.bytes
  pub dated : 0 < c.generation
  pub stated : c.state ≡ state_committed
  pub counted : (c.physical_base ≡ 0) ⊎ (0 < c.page_count)

abbrev pub CommitmentOk : List Reservation → Commitment → Type 0
CommitmentOk rs c = (c.live ≡ false) ⊎ CommitmentFormed rs c

abbrev pub ReservationsApart : Reservation → Reservation → Type 0
ReservationsApart x y = (x.live ≡ false) ⊎ (y.live ≡ false) ⊎ Apart x.base x.bytes y.base y.bytes

abbrev pub CommitmentsApart : Commitment → Commitment → Type 0
CommitmentsApart x y = (x.live ≡ false) ⊎ (y.live ≡ false) ⊎ Apart x.base x.bytes y.base y.bytes

abbrev pub reserved_share : Reservation → ℕ
reserved_share r = if r.live then r.bytes else 0

abbrev pub committed_share : Commitment → ℕ
committed_share c = if c.live then c.bytes else 0

-- What a commitment adds to the committed bytes of the reservation at `slot`.
abbrev pub slot_share : ℕ → Commitment → ℕ
slot_share slot c = if c.live then (if c.reservation_slot == slot then c.bytes else 0) else 0

abbrev pub one_reservation : Reservation → ℕ
one_reservation r = bit r.live

abbrev pub one_commitment : Commitment → ℕ
one_commitment c = bit c.live

pub record IsValid (a : Arena) : Type 0 where
  pub valid : a.valid ≡ true
  pub fits : Fits a.base a.length
  pub dated : 0 < a.generation
  pub reservation_slots : length a.reservations ≡ max_reservations
  pub commitment_slots : length a.commitments ≡ max_commitments
  pub reservations_formed : All (ReservationOk a.base a.length) a.reservations
  pub reservations_apart : Pairs ReservationsApart a.reservations
  pub commitments_formed : All (CommitmentOk a.reservations) a.commitments
  pub commitments_apart : Pairs CommitmentsApart a.commitments
  pub reservation_counted : a.reservation_count ≡ sum one_reservation a.reservations
  pub commitment_counted : a.commitment_count ≡ sum one_commitment a.commitments
  pub reserved : a.total_reserved_bytes ≡ sum reserved_share a.reservations
  pub committed : a.total_committed_bytes ≡ sum committed_share a.commitments
  pub charged :
      (i : ℕ) (r : Reservation)
      → get_elem? a.reservations i ≡ some r
      → r.live ≡ true
      → r.committed_bytes ≡ sum (slot_share i) a.commitments

-- A fresh arena is well formed, if its range and generation are.
pub init-IsValid :
    (base bytes generation : ℕ)
    → Fits base bytes
    → 0 < generation
    → IsValid (init base bytes generation)
unfolding init
init-IsValid base bytes generation f g = record {
  valid = ground arith;
  fits = f;
  dated = g;
  reservation_slots = length-replicate max_reservations empty_reservation;
  commitment_slots = length-replicate max_commitments empty_commitment;
  reservations_formed =
      All-replicate (ReservationOk base bytes) max_reservations empty_reservation (inl refl);
  reservations_apart =
      Pairs-replicate ReservationsApart max_reservations empty_reservation (inl refl);
  commitments_formed =
      All-replicate (CommitmentOk none_reserved) max_commitments empty_commitment (inl refl);
  commitments_apart = Pairs-replicate CommitmentsApart max_commitments empty_commitment (inl refl);
  reservation_counted =
      omega (arith, sum-replicate one_reservation max_reservations empty_reservation refl);
  commitment_counted =
      omega (arith, sum-replicate one_commitment max_commitments empty_commitment refl);
  reserved = omega (arith, sum-replicate reserved_share max_reservations empty_reservation refl);
  committed = omega (arith, sum-replicate committed_share max_commitments empty_commitment refl);
  charged = λ i r at live. absurd (no_live i r at live);
}
  where
    none_reserved : List Reservation
    none_reserved = replicate max_reservations empty_reservation

    no_live : (i : ℕ) (r : Reservation) → get_elem? none_reserved i ≡ some r → r.live ≡ true → ⊥
    no_live i r at live =
        let dead =
          All-get (λ x. x.live ≡ false) none_reserved i
            (All-replicate (λ x. x.live ≡ false) max_reservations empty_reservation refl) at in
        ground arith
