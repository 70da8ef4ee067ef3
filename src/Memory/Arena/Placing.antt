-- ===== src/Memory/Arena/Placing.antt =====
-- Writing a reservation into a free slot, and clearing one that has nothing committed, keep the arena
-- well formed.
use guide_xos_net.Prelude.{
  ℕ, ◌+◌, ◌<◌, ◌≡◌, ◌≢◌, ◌⊎◌, inl, inr, refl, sym, subst, ◌∙◌, true, false, some, List, arith,
  length-set, get_elem?, get_elem?-lt, get_elem?-set_self, get_elem?-set_ne, set, sum, sum-set,
  sum_zero, All, All-map, All-zip, All-of, All-set, Pairs-set,
}
use native.Mathlib.Decide.{ℕ_discrete}
use guide_xos_net.Memory.Arena.State.{
  Reservation, Commitment, Arena, max_reservations, empty_reservation,
}
use guide_xos_net.Memory.Arena.Reserve.{place, unplace}
use guide_xos_net.Memory.Arena.Valid.{
  ReservationFormed, ReservationOk, CommitmentOk, ReservationsApart, reserved_share, slot_share,
  one_reservation, IsValid,
}
use guide_xos_net.Memory.Arena.Tables.{unnamed, unnamed_uncommitted}

pub ReservationsApart-symm : (x y : Reservation) → ReservationsApart x y → ReservationsApart y x
ReservationsApart-symm x y h = ground arith

-- A write at a slot that no commitment names leaves the commitments in their reservations.
CommitmentOk-set :
    (rs : List Reservation) (i : ℕ) (n : Reservation) (c : Commitment)
    → (c.live ≡ false) ⊎ (c.reservation_slot ≢ i)
    → CommitmentOk rs c
    → CommitmentOk (set rs i n) c
CommitmentOk-set rs i n c _ (inl d) = inl d
CommitmentOk-set rs i n c (inl d) (inr f) = inl d
CommitmentOk-set rs i n c (inr e) (inr f) = inr (record {
  owner = f.owner;
  at = get_elem?-set_ne rs i c.reservation_slot n (λ q. e (sym q)) ∙ f.at;
  live = f.live;
  within = f.within;
  dated = f.dated;
  stated = f.stated;
  counted = f.counted;
})

slot_share_zero :
    (i : ℕ) (c : Commitment) → (c.live ≡ false) ⊎ (c.reservation_slot ≢ i) → slot_share i c ≡ 0
slot_share_zero i c h = ground arith

-- After a write at a slot that no commitment names.
charged-set :
    (a : Arena) (i : ℕ) (r n : Reservation)
    → IsValid a
    → get_elem? a.reservations i ≡ some r
    → All (λ c. (c.live ≡ false) ⊎ (c.reservation_slot ≢ i)) a.commitments
    → (n.live ≡ true → n.committed_bytes ≡ 0)
    → (k : ℕ) (x : Reservation) → get_elem? (set a.reservations i n) k ≡ some x
    → x.live ≡ true
    → x.committed_bytes ≡ sum (slot_share k) a.commitments
charged-set a i r n v at free z k x e live = elim (ℕ_discrete i k) [
  | yes same ↦
      let here = get_elem?-set_self a.reservations i n (get_elem?-lt a.reservations i r at) in
      let e' = subst (λ t. get_elem? (set a.reservations i n) t ≡ some x) (sym same) e in
      let zeros = sum_zero (slot_share k) a.commitments (
        All-map (λ c h. slot_share_zero k c h) a.commitments
          (subst (λ t. All (λ c. (c.live ≡ false) ⊎ (c.reservation_slot ≢ t)) a.commitments) same
            free)) in
      let entry : n ≡ x = ground arith in
      let none_committed = subst (λ t. t.live ≡ true → t.committed_bytes ≡ 0) entry z live in
      omega (arith, none_committed, zeros)
  | no other ↦ v.charged k x (sym (get_elem?-set_ne a.reservations i k n other) ∙ e) live
]

pub place-IsValid :
    (a : Arena) (i total : ℕ) (r n : Reservation)
    → IsValid a
    → get_elem? a.reservations i ≡ some r
    → r.live ≡ false
    → n.live ≡ true
    → n.committed_bytes ≡ 0
    → ReservationFormed a.base a.length n
    → All (ReservationsApart n) a.reservations
    → a.reservation_count < max_reservations
    → total ≡ a.total_reserved_bytes + n.bytes
    → IsValid (place a i n total)
place-IsValid a i total r n v at dead live none_left f apart room t =
    let free = unnamed a i r v at dead in
    record {
      valid = v.valid;
      fits = v.fits;
      dated = v.dated;
      reservation_slots = length-set a.reservations i n ∙ v.reservation_slots;
      commitment_slots = v.commitment_slots;
      reservations_formed =
          All-set (ReservationOk a.base a.length) a.reservations i n (inr f) v.reservations_formed;
      reservations_apart =
          Pairs-set ReservationsApart-symm a.reservations i n apart v.reservations_apart;
      commitments_formed =
          All-zip (λ c. CommitmentOk-set a.reservations i n c) a.commitments free
            v.commitments_formed;
      commitments_apart = v.commitments_apart;
      reservation_counted =
          ground (arith, sum-set one_reservation a.reservations i n at, v.reservation_counted);
      commitment_counted = v.commitment_counted;
      reserved = ground (arith, sum-set reserved_share a.reservations i n at, v.reserved);
      committed = v.committed;
      charged = charged-set a i r n v at free (λ _. none_left);
    }

pub unplace-IsValid :
    (a : Arena) (i : ℕ) (r : Reservation)
    → IsValid a
    → get_elem? a.reservations i ≡ some r
    → r.live ≡ true
    → r.committed_bytes ≡ 0
    → IsValid (unplace a i r)
unplace-IsValid a i r v at live none_left =
    let free = unnamed_uncommitted a i r v at live none_left in
    record {
      valid = v.valid;
      fits = v.fits;
      dated = v.dated;
      reservation_slots = length-set a.reservations i empty_reservation ∙ v.reservation_slots;
      commitment_slots = v.commitment_slots;
      reservations_formed =
          All-set (ReservationOk a.base a.length) a.reservations i empty_reservation (inl refl)
            v.reservations_formed;
      reservations_apart =
          Pairs-set ReservationsApart-symm a.reservations i empty_reservation
            (All-of (λ y. inl refl) a.reservations) v.reservations_apart;
      commitments_formed =
          All-zip (λ c. CommitmentOk-set a.reservations i empty_reservation c) a.commitments free
            v.commitments_formed;
      commitments_apart = v.commitments_apart;
      reservation_counted = ground (
        arith,
        sum-set one_reservation a.reservations i empty_reservation at,
        v.reservation_counted,
      );
      commitment_counted = v.commitment_counted;
      reserved =
          ground (arith, sum-set reserved_share a.reservations i empty_reservation at, v.reserved);
      committed = v.committed;
      charged = charged-set a i r empty_reservation v at free (λ _. refl);
    }
