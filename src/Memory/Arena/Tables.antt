-- ===== src/Memory/Arena/Tables.antt =====
-- What a well-formed arena's tables imply: totals within the arena, and slots that must be free.
use guide_xos_net.Prelude.{
  ℕ, ◌+◌, ◌≤◌, ◌≡◌, ◌≢◌, ◌⊎◌, inl, inr, true, false, not, none, some, List, ◌∷◌, arith, get_elem?,
  sum, length-le-sum, All, All-map, All-zip, All-get, Pairs, Pairs-map, find_slot, find_slot-none,
  sum-eq-zero, subst,
}
use guide_xos_net.Memory.Ranges.{Apart, Within}
use guide_xos_net.Memory.Packing.{packing, Disjoint, Inside}
use guide_xos_net.Memory.Arena.State.{
  Reservation, Commitment, Arena, max_reservations, max_commitments, available, empty_reservation,
  empty_commitment,
}
use guide_xos_net.Memory.Arena.Valid.{
  ReservationOk, CommitmentOk, ReservationsApart, CommitmentsApart, reserved_share, committed_share,
  slot_share, one_reservation, one_commitment, IsValid,
}

-- Live reservations and one more range inside the arena, apart from all of them, fit into it.
pub reserved-add-le :
    (a : Arena) (base bytes : ℕ)
    → IsValid a
    → Within a.base a.length base bytes
    → All (λ r. (r.live ≡ false) ⊎ Apart base bytes r.base r.bytes) a.reservations
    → a.total_reserved_bytes + bytes ≤ a.length
unfolding sum
reserved-add-le a base bytes v w free = omega (
  arith,
  packing (λ r. r.base) reserved_share (extra ∷ a.reservations) a.base (a.base + a.length)
      (
        All-map (λ y h. new_apart y h) a.reservations free,
        Pairs-map (λ x y h. apart x y h) a.reservations v.reservations_apart,
      )
      (inr (w.2, w.3), All-map (λ x h. inside x h) a.reservations v.reservations_formed),
  v.reserved,
)
  where
    extra : Reservation
    extra = record empty_reservation { live = true; base = base; bytes = bytes }

    new_apart :
        (y : Reservation)
        → (y.live ≡ false) ⊎ Apart base bytes y.base y.bytes
        → Disjoint (λ r. r.base) reserved_share extra y
    new_apart y h = ground arith

    apart : (x y : Reservation) → ReservationsApart x y → Disjoint (λ r. r.base) reserved_share x y
    apart x y h = ground arith

    inside :
        (x : Reservation)
        → ReservationOk a.base a.length x
        → Inside (λ r. r.base) reserved_share a.base (a.base + a.length) x
    inside x h = ground arith

-- Live reservations never cover more than the arena.
pub reserved-le-length : (a : Arena) → IsValid a → a.total_reserved_bytes ≤ a.length
reserved-le-length a v = omega (
  arith,
  packing (λ r. r.base) reserved_share a.reservations a.base (a.base + a.length)
      (Pairs-map (λ x y h. apart x y h) a.reservations v.reservations_apart)
      (All-map (λ x h. inside x h) a.reservations v.reservations_formed),
  v.reserved,
)
  where
    apart : (x y : Reservation) → ReservationsApart x y → Disjoint (λ r. r.base) reserved_share x y
    apart x y h = ground arith

    inside :
        (x : Reservation)
        → ReservationOk a.base a.length x
        → Inside (λ r. r.base) reserved_share a.base (a.base + a.length) x
    inside x h = ground arith

-- On a well-formed arena `available` is exactly what is not reserved.
pub available-add-reserved :
    (a : Arena) → IsValid a → available a + a.total_reserved_bytes ≡ a.length
unfolding available
available-add-reserved a v = ground (arith, reserved-le-length a v, v.valid)

-- Commitments that name one slot, apart and inside a range, cover no more than the range.
pub slot_sum-le :
    (cs : List Commitment) (slot base bytes : ℕ)
    → Pairs CommitmentsApart cs
    → All
        (λ c. (c.live ≡ false) ⊎ (c.reservation_slot ≢ slot) ⊎ Within base bytes c.base c.bytes)
        cs
    → sum (slot_share slot) cs ≤ bytes
slot_sum-le cs slot base bytes ap h = omega (
  arith,
  packing (λ c. c.base) (slot_share slot) cs base (base + bytes)
      (Pairs-map (λ x y p. apart x y p) cs ap) (All-map (λ x p. inside x p) cs h),
)
  where
    apart : (x y : Commitment) → CommitmentsApart x y → Disjoint (λ c. c.base) (slot_share slot) x y
    apart x y p = ground arith

    inside :
        (x : Commitment)
        → (x.live ≡ false) ⊎ (x.reservation_slot ≢ slot) ⊎ Within base bytes x.base x.bytes
        → Inside (λ c. c.base) (slot_share slot) base (base + bytes) x
    inside x p = ground arith

pub free_reservation :
    (a : Arena)
    → IsValid a
    → find_slot (λ r. not r.live) a.reservations ≡ none
    → max_reservations ≤ a.reservation_count
free_reservation a v e = omega (
  arith,
  length-le-sum one_reservation a.reservations
      (All-map (λ x h. counts x h) a.reservations (find_slot-none _ a.reservations e)),
  v.reservation_slots,
  v.reservation_counted,
)
  where
    counts : (x : Reservation) → not x.live ≡ false → 1 ≤ one_reservation x
    counts x h = ground arith

pub free_commitment :
    (a : Arena)
    → IsValid a
    → find_slot (λ c. not c.live) a.commitments ≡ none
    → max_commitments ≤ a.commitment_count
free_commitment a v e = omega (
  arith,
  length-le-sum one_commitment a.commitments
      (All-map (λ x h. counts x h) a.commitments (find_slot-none _ a.commitments e)),
  v.commitment_slots,
  v.commitment_counted,
)
  where
    counts : (x : Commitment) → not x.live ≡ false → 1 ≤ one_commitment x
    counts x h = ground arith

-- No live commitment names a slot whose reservation is free.
pub unnamed :
    (a : Arena) (i : ℕ) (r : Reservation)
    → IsValid a
    → get_elem? a.reservations i ≡ some r
    → r.live ≡ false
    → All (λ c. (c.live ≡ false) ⊎ (c.reservation_slot ≢ i)) a.commitments
unnamed a i r v at dead = All-map (λ c h. other c h) a.commitments v.commitments_formed
  where
    other :
        (c : Commitment)
        → CommitmentOk a.reservations c
        → (c.live ≡ false) ⊎ (c.reservation_slot ≢ i)
    other c (inl d) = inl d
    other c (inr f) = inr (λ e.
        let q = subst (λ k. get_elem? a.reservations k ≡ some f.owner) e f.at in
        let l = f.live in ground arith)

-- Nor does one name a live reservation that has nothing committed.
pub unnamed_uncommitted :
    (a : Arena) (i : ℕ) (r : Reservation)
    → IsValid a
    → get_elem? a.reservations i ≡ some r
    → r.live ≡ true
    → r.committed_bytes ≡ 0
    → All (λ c. (c.live ≡ false) ⊎ (c.reservation_slot ≢ i)) a.commitments
unnamed_uncommitted a i r v at live z =
    All-zip (λ c s f. other c s f) a.commitments
      (sum-eq-zero (slot_share i) a.commitments (omega (arith, v.charged i r at live)))
      v.commitments_formed
  where
    other :
        (c : Commitment)
        → slot_share i c ≡ 0
        → CommitmentOk a.reservations c
        → (c.live ≡ false) ⊎ (c.reservation_slot ≢ i)
    other c s f = ground arith

-- Live commitments and one more range inside the arena, apart from all of them, fit into it.
pub committed-add-le :
    (a : Arena) (base bytes : ℕ)
    → IsValid a
    → Within a.base a.length base bytes
    → All (λ c. (c.live ≡ false) ⊎ Apart base bytes c.base c.bytes) a.commitments
    → a.total_committed_bytes + bytes ≤ a.length
unfolding sum
committed-add-le a base bytes v w free = omega (
  arith,
  packing (λ c. c.base) committed_share (extra ∷ a.commitments) a.base (a.base + a.length)
      (
        All-map (λ y h. new_apart y h) a.commitments free,
        Pairs-map (λ x y h. apart x y h) a.commitments v.commitments_apart,
      )
      (inr (w.2, w.3), All-map (λ x h. inside x h) a.commitments v.commitments_formed),
  v.committed,
)
  where
    extra : Commitment
    extra = record empty_commitment { live = true; base = base; bytes = bytes }

    new_apart :
        (y : Commitment)
        → (y.live ≡ false) ⊎ Apart base bytes y.base y.bytes
        → Disjoint (λ c. c.base) committed_share extra y
    new_apart y h = ground arith

    apart : (x y : Commitment) → CommitmentsApart x y → Disjoint (λ c. c.base) committed_share x y
    apart x y h = ground arith

    inside :
        (x : Commitment)
        → CommitmentOk a.reservations x
        → Inside (λ c. c.base) committed_share a.base (a.base + a.length) x
    inside x (inl d) = ground arith
    inside x (inr f) =
        let own =
          All-get (ReservationOk a.base a.length) a.reservations x.reservation_slot
            v.reservations_formed f.at in
        let l = f.live in let i = f.within in ground arith

pub committed-le-length : (a : Arena) → IsValid a → a.total_committed_bytes ≤ a.length
committed-le-length a v = omega (
  arith,
  packing (λ c. c.base) committed_share a.commitments a.base (a.base + a.length)
      (Pairs-map (λ x y h. apart x y h) a.commitments v.commitments_apart)
      (All-map (λ x h. inside x h) a.commitments v.commitments_formed),
  v.committed,
)
  where
    apart : (x y : Commitment) → CommitmentsApart x y → Disjoint (λ c. c.base) committed_share x y
    apart x y h = ground arith

    inside :
        (x : Commitment)
        → CommitmentOk a.reservations x
        → Inside (λ c. c.base) committed_share a.base (a.base + a.length) x
    inside x (inl d) = ground arith
    inside x (inr f) =
        let own =
          All-get (ReservationOk a.base a.length) a.reservations x.reservation_slot
            v.reservations_formed f.at in
        let l = f.live in let i = f.within in ground arith
