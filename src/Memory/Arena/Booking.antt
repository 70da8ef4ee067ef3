-- ===== src/Memory/Arena/Booking.antt =====
-- Entering a commitment in the tables and taking it off, with the charge to its reservation.
use guide_xos_net.Prelude.{
  ℕ, ◌+◌, ◌-◌, ◌≤◌, ◌<◌, ◌≡◌, ◌≢◌, ◌⊎◌, inl, inr, refl, sym, subst, ◌∙◌, true, false, some, List,
  arith, length-set, get_elem?, get_elem?-lt, get_elem?-set_self, get_elem?-set_ne, set,
  modify-eq-set, sum, sum-set, le-sum, All, All-map, All-of, All-get, All-set, Pairs, Pairs-set,
  Pairs-set_like,
}
use native.Mathlib.Decide.{ℕ_discrete}
use guide_xos_net.Memory.Ranges.{u64_max, u32, u64, Within}
use guide_xos_net.Memory.Arena.State.{
  Reservation, Commitment, Arena, max_commitments, state_reserved, state_committed,
  empty_commitment,
}
use guide_xos_net.Memory.Arena.Commit.{charge, refund, book, unbook}
use guide_xos_net.Memory.Arena.Valid.{
  ReservationFormed, ReservationOk, CommitmentOk, ReservationsApart, CommitmentsApart,
  reserved_share, committed_share, slot_share, one_reservation, one_commitment, IsValid,
}
use guide_xos_net.Memory.Arena.Tables.{slot_sum-le}

-- A reservation with another charge and state.
abbrev recharged : Reservation → ℕ → ℕ → Reservation
recharged r charged state = record r { committed_bytes = charged; state = state }

pub CommitmentsApart-symm : (x y : Commitment) → CommitmentsApart x y → CommitmentsApart y x
CommitmentsApart-symm x y h = ground arith

CommitmentOk-recharged :
    (rs : List Reservation) (i charged state : ℕ) (r : Reservation) (c : Commitment)
    → get_elem? rs i ≡ some r
    → CommitmentOk rs c
    → CommitmentOk (set rs i (recharged r charged state)) c
CommitmentOk-recharged rs i charged state r c at (inl d) = inl d
CommitmentOk-recharged rs i charged state r c at (inr f) = elim (ℕ_discrete i c.reservation_slot) [
  | no other ↦ inr (record {
    owner = f.owner;
    at = get_elem?-set_ne rs i c.reservation_slot _ other ∙ f.at;
    live = f.live;
    within = f.within;
    dated = f.dated;
    stated = f.stated;
    counted = f.counted;
  })
  | yes same ↦
      let n = recharged r charged state in
      let q = subst (λ k. get_elem? rs k ≡ some r) same at in
      let own : f.owner ≡ r = let h = f.at in ground arith in
      inr (record {
        owner = n;
        at =
            subst (λ k. get_elem? (set rs i n) k ≡ some n) same
              (get_elem?-set_self rs i n (get_elem?-lt rs i r at));
        live = subst (λ o. o.live ≡ true) own f.live;
        within = subst (λ o. Within o.base o.bytes c.base c.bytes) own f.within;
        dated = f.dated;
        stated = f.stated;
        counted = f.counted;
      })
]

-- The commitments that name a reservation lie in it.
pub named-Within :
    (rs : List Reservation) (i : ℕ) (r : Reservation) (c : Commitment)
    → get_elem? rs i ≡ some r
    → CommitmentOk rs c
    → (c.live ≡ false) ⊎ (c.reservation_slot ≢ i) ⊎ Within r.base r.bytes c.base c.bytes
named-Within rs i r c at (inl d) = inl d
named-Within rs i r c at (inr f) = elim (ℕ_discrete c.reservation_slot i) [
  | no other ↦ inr (inl other)
  | yes same ↦
      let q = subst (λ k. get_elem? rs k ≡ some f.owner) same f.at in
      let own : f.owner ≡ r = ground arith in
      inr (inr (subst (λ o. Within o.base o.bytes c.base c.bytes) own f.within))
]

-- Both ways change one commitment, one charge and the totals.
abbrev rebooked : Arena → ℕ → Commitment → ℕ → Reservation → ℕ → ℕ → Arena
rebooked a j new i n count total = record a {
  commitments = set a.commitments j new;
  commitment_count = count;
  total_committed_bytes = total;
  reservations = set a.reservations i n;
}

-- Which keeps the arena well formed, if the new entry is, and the sums follow it.
module _ (a : Arena) (j i count total charged state : ℕ) (old new : Commitment) (r : Reservation)
    (v : IsValid a) (at_j : get_elem? a.commitments j ≡ some old)
    (at_i : get_elem? a.reservations i ≡ some r) (live : r.live ≡ true)
    (formed : CommitmentOk a.reservations new) (apart : All (CommitmentsApart new) a.commitments)
    (recharge : charged + slot_share i old ≡ r.committed_bytes + slot_share i new)
    (others : (k : ℕ) → k ≢ i → slot_share k old ≡ slot_share k new)
    (stated : ((charged ≡ 0) × (state ≡ state_reserved))
      ⊎ ((0 < charged) × (state ≡ state_committed)))
    (counted : count + one_commitment old ≡ a.commitment_count + one_commitment new)
    (summed : total + committed_share old ≡ a.total_committed_bytes + committed_share new) where
  entries : List Commitment
  entries = set a.commitments j new

  entries_ok : All (CommitmentOk a.reservations) (set a.commitments j new)
  entries_ok = All-set (CommitmentOk a.reservations) a.commitments j new formed v.commitments_formed

  entries_apart : Pairs CommitmentsApart (set a.commitments j new)
  entries_apart = Pairs-set CommitmentsApart-symm a.commitments j new apart v.commitments_apart

  charged-eq : charged ≡ sum (slot_share i) (set a.commitments j new)
  charged-eq =
      let s = sum-set (slot_share i) a.commitments j new at_j in
      let c = v.charged i r at_i live in omega (arith, recharge)

  charged-le : charged ≤ r.bytes
  charged-le = omega (
    arith,
    charged-eq,
    slot_sum-le (set a.commitments j new) i r.base r.bytes entries_apart (
        All-map (λ c h. named-Within a.reservations i r c at_i h) (set a.commitments j new)
          entries_ok),
  )

  r_formed : ReservationFormed a.base a.length r
  r_formed =
      elim (All-get (ReservationOk a.base a.length) a.reservations i v.reservations_formed at_i) [
        | inl d ↦ absurd (ground arith)
        | inr f ↦ f
      ]

  n_formed : ReservationFormed a.base a.length (recharged r charged state)
  n_formed = record {
    within = r_formed.within;
    dated = r_formed.dated;
    requested = r_formed.requested;
    covered = r_formed.covered;
    committed = charged-le;
    stated = stated;
  }

  charges :
      (k : ℕ) (x : Reservation)
      → get_elem? (set a.reservations i (recharged r charged state)) k ≡ some x
      → x.live ≡ true
      → x.committed_bytes ≡ sum (slot_share k) (set a.commitments j new)
  charges k x e l = elim (ℕ_discrete i k) [
    | yes same ↦
        let n = recharged r charged state in
        let here = get_elem?-set_self a.reservations i n (get_elem?-lt a.reservations i r at_i) in
        let e' = subst (λ t. get_elem? (set a.reservations i n) t ≡ some x) (sym same) e in
        let entry : n ≡ x = ground arith in
        subst (λ t. x.committed_bytes ≡ sum (slot_share t) (set a.commitments j new)) same
          (subst (λ t. t.committed_bytes ≡ sum (slot_share i) (set a.commitments j new)) entry
            charged-eq)
    | no other ↦
        let c = v.charged k x (sym (get_elem?-set_ne a.reservations i k _ other) ∙ e) l in
        let s = sum-set (slot_share k) a.commitments j new at_j in
        let o = others k (λ q. other (sym q)) in omega arith
  ]

  rebooked-IsValid : IsValid (rebooked a j new i (recharged r charged state) count total)
  rebooked-IsValid =
      let n = recharged r charged state in
      record {
        valid = v.valid;
        fits = v.fits;
        dated = v.dated;
        reservation_slots = length-set a.reservations i n ∙ v.reservation_slots;
        commitment_slots = length-set a.commitments j new ∙ v.commitment_slots;
        reservations_formed =
            All-set (ReservationOk a.base a.length) a.reservations i n (inr n_formed)
              v.reservations_formed;
        reservations_apart =
            Pairs-set_like ReservationsApart (λ y h. h) (λ y h. h) a.reservations i at_i
              v.reservations_apart;
        commitments_formed =
            All-map (λ c h. CommitmentOk-recharged a.reservations i charged state r c at_i h)
              (set a.commitments j new) entries_ok;
        commitments_apart = entries_apart;
        reservation_counted =
            ground (arith, sum-set one_reservation a.reservations i n at_i, v.reservation_counted);
        commitment_counted =
            ground (
              arith,
              sum-set one_commitment a.commitments j new at_j,
              v.commitment_counted,
              counted,
            );
        reserved = ground (arith, sum-set reserved_share a.reservations i n at_i, v.reserved);
        committed =
            ground (arith, sum-set committed_share a.commitments j new at_j, v.committed, summed);
        charged = charges;
      }

-- Entering a commitment that lies in its reservation, apart from the others, into a free slot.
pub book-IsValid :
    (a : Arena) (j : ℕ) (old c : Commitment) (r : Reservation)
    → IsValid a
    → get_elem? a.commitments j ≡ some old
    → old.live ≡ false
    → get_elem? a.reservations c.reservation_slot ≡ some r
    → r.live ≡ true
    → c.live ≡ true
    → CommitmentOk a.reservations c
    → All (CommitmentsApart c) a.commitments
    → 0 < c.bytes
    → a.commitment_count < max_commitments
    → a.total_committed_bytes + c.bytes ≤ u64_max
    → r.committed_bytes + c.bytes ≤ u64_max
    → IsValid (book a j c)
book-IsValid a j old c r v at_j dead at_i live on formed apart some_bytes room total charge_fits =
    rw (modify-eq-set a.reservations c.reservation_slot (charge c.bytes) at_i) (
      rebooked-IsValid a j c.reservation_slot (u32 (a.commitment_count + 1))
        (u64 (a.total_committed_bytes + c.bytes)) (u64 (r.committed_bytes + c.bytes))
        state_committed old c r v at_j at_i live formed apart (ground arith) (λ k n. ground arith)
        (inr (omega arith, refl)) (ground arith) (ground arith))

-- Taking a live commitment off.
pub unbook-IsValid :
    (a : Arena) (j : ℕ) (c : Commitment) (r : Reservation)
    → IsValid a
    → get_elem? a.commitments j ≡ some c
    → c.live ≡ true
    → get_elem? a.reservations c.reservation_slot ≡ some r
    → r.live ≡ true
    → IsValid (unbook a j c)
unbook-IsValid a j c r v at_j on at_i live =
    let counts = le-sum one_commitment a.commitments j at_j in
    let sums = le-sum committed_share a.commitments j at_j in
    let charges = le-sum (slot_share c.reservation_slot) a.commitments j at_j in
    let n = v.commitment_counted in
    let t = v.committed in
    let u = v.charged c.reservation_slot r at_i live in
    rw (modify-eq-set a.reservations c.reservation_slot (refund c.bytes) at_i) (
      rebooked-IsValid a j c.reservation_slot (a.commitment_count - 1)
        (a.total_committed_bytes - c.bytes) (r.committed_bytes - c.bytes) (refund c.bytes r).state c
        empty_commitment r v at_j at_i live (inl refl) (All-of (λ y. inl refl) a.commitments)
        (ground arith) (λ k n. ground arith) (restated (r_formed_of a c r v at_i live))
        (ground arith) (ground arith))
  where
    r_formed_of :
        (a : Arena) (c : Commitment) (r : Reservation)
        → IsValid a
        → get_elem? a.reservations c.reservation_slot ≡ some r
        → r.live ≡ true
        → ReservationFormed a.base a.length r
    r_formed_of a c r v at live =
        elim (All-get (ReservationOk a.base a.length) a.reservations c.reservation_slot
          v.reservations_formed at) [ inl d ↦ absurd (ground arith) | inr f ↦ f ]

    restated :
        ReservationFormed a.base a.length r
        → (((r.committed_bytes - c.bytes) ≡ 0) × ((refund c.bytes r).state ≡ state_reserved))
          ⊎ ((0 < r.committed_bytes - c.bytes) × ((refund c.bytes r).state ≡ state_committed))
    restated f = let s = f.stated in ground arith
