-- ===== src/Memory/Arena/Entering.antt =====
-- Entering a commitment at hand: the guards on the totals that `gxos_vm_arena_commit` and
-- `gxos_vm_arena_commit_page` share.
use guide_xos_net.Prelude.{
  ℕ, ◌∷◌, ◌+◌, ◌≤◌, ◌<◌, ◌≡◌, ◌≢◌, ◌⊎◌, inl, inr, true, false, not, some, arith, get_elem?, sum,
  All, All-map, All-get, find_slot, find_slot-some, Option-cases,
}
use guide_xos_net.Memory.Ranges.{u64_max, Apart, Within, add_u64, add_u64-eq}
use guide_xos_net.Memory.Arena.State.{
  ok, Reservation, Commitment, Arena, max_commitments, state_committed,
}
use guide_xos_net.Memory.Arena.Commit.{book, enter}
use guide_xos_net.Memory.Arena.Valid.{ReservationOk, CommitmentFormed, slot_share, IsValid}
use guide_xos_net.Memory.Arena.Tables.{free_commitment, committed-add-le, slot_sum-le}
use guide_xos_net.Memory.Arena.Booking.{book-IsValid, named-Within}
use guide_xos_net.Memory.Arena.Reserving.{Status-ok}

-- A range that may be committed: inside one live reservation, apart from every live commitment, while
-- a slot is free.
pub record Committable (a : Arena) (base bytes : ℕ) : Type 0 where
  pub slot : ℕ
  pub owner : Reservation
  pub at : get_elem? a.reservations slot ≡ some owner
  pub live : owner.live ≡ true
  pub within : Within owner.base owner.bytes base bytes
  pub apart : All (λ c. (c.live ≡ false) ⊎ Apart base bytes c.base c.bytes) a.commitments
  pub room : a.commitment_count < max_commitments

-- A commitment at hand for one reservation.
pub record Enterable (a : Arena) (r : Reservation) (c : Commitment) : Type 0 where
  pub at : get_elem? a.reservations c.reservation_slot ≡ some r
  pub live : r.live ≡ true
  pub on : c.live ≡ true
  pub within : Within r.base r.bytes c.base c.bytes
  pub dated : 0 < c.generation
  pub stated : c.state ≡ state_committed
  pub counted : (c.physical_base ≡ 0) ⊎ (0 < c.page_count)
  pub apart : All (λ d. (d.live ≡ false) ⊎ Apart c.base c.bytes d.base d.bytes) a.commitments

-- The slot that a successful `enter` writes.
pub record Entered (a : Arena) (r : Reservation) (c : Commitment) : Type 0 where
  pub slot : ℕ
  pub old : Commitment
  pub at : find_slot (λ d. not d.live) a.commitments ≡ some (slot, old)
  pub room : a.commitment_count < max_commitments
  pub total : a.total_committed_bytes + c.bytes ≤ u64_max
  pub charge : r.committed_bytes + c.bytes ≤ u64_max
  pub result : enter a r c ≡ (ok, book a slot c)

pub enter-Entered :
    (a : Arena) (r : Reservation) (c : Commitment)
    → c.bytes ≤ u64_max
    → (enter a r c).0 ≡ ok
    → Entered a r c
enter-Entered a r c k h = elim (Option-cases (find_slot (λ d. not d.live) a.commitments)) [
  | inl e ↦ absurd (ground arith)
  | inr ((j, old), e) ↦ record {
    slot = j;
    old = old;
    at = e;
    room = ground arith;
    total = unfold add_u64 in ground arith;
    charge = unfold add_u64 in ground arith;
    result = ground arith;
  }
]

pub enter-refused :
    (a : Arena) (r : Reservation) (c : Commitment) → (enter a r c).0 ≢ ok → (enter a r c).1 ≡ a
enter-refused a r c h = ground arith

pub owner-Within :
    (a : Arena) (r : Reservation) (slot : ℕ)
    → IsValid a
    → get_elem? a.reservations slot ≡ some r
    → r.live ≡ true
    → Within a.base a.length r.base r.bytes × (r.committed_bytes ≤ r.bytes)
owner-Within a r slot v at live =
    elim (All-get (ReservationOk a.base a.length) a.reservations slot v.reservations_formed at) [
      | inl d ↦ absurd (ground arith)
      | inr f ↦ (f.within, f.committed)
    ]

-- The charge to a reservation stays within it.
pub charge-le :
    (a : Arena) (r : Reservation) (c : Commitment)
    → IsValid a
    → Enterable a r c
    → r.committed_bytes + c.bytes ≤ r.bytes
unfolding sum
charge-le a r c v e =
    let on = e.on in
    omega (
      arith,
      slot_sum-le (c ∷ a.commitments) c.reservation_slot r.base r.bytes
          (All-map (λ d h. inr h) a.commitments e.apart, v.commitments_apart)
          (
            inr (inr e.within),
            All-map (λ d h. named-Within a.reservations c.reservation_slot r d e.at h) a.commitments
                v.commitments_formed,
          ),
      v.charged c.reservation_slot r e.at e.live,
      own_share c on,
    )
  where
    own_share : (c : Commitment) → c.live ≡ true → slot_share c.reservation_slot c ≡ c.bytes
    own_share c h = ground arith

-- An entry at hand goes in exactly while the table has room.
pub enter-ok :
    (a : Arena) (r : Reservation) (c : Commitment)
    → IsValid a
    → Enterable a r c
    → a.commitment_count < max_commitments
    → (enter a r c).0 ≡ ok
enter-ok a r c v e room =
    let own = owner-Within a r c.reservation_slot v e.at e.live in
    let w = e.within in
    let f = v.fits in
    let within : Within a.base a.length c.base c.bytes = ground arith in
    let total =
      add_u64-eq a.total_committed_bytes c.bytes
        (omega (arith, committed-add-le a c.base c.bytes v within e.apart)) in
    let charged =
      add_u64-eq r.committed_bytes c.bytes (omega (arith, charge-le a r c v e, own.0.0)) in
    elim (Option-cases (find_slot (λ d. not d.live) a.commitments)) [
      | inl q ↦ absurd (omega (arith, free_commitment a v q))
      | inr ((j, old), q) ↦ ground arith
    ]

pub enter-IsValid :
    (a : Arena) (r : Reservation) (c : Commitment)
    → IsValid a
    → Enterable a r c
    → IsValid (enter a r c).1
enter-IsValid a r c v e = elim (Status-ok (enter a r c).0) [
  | inr h ↦ rw (enter-refused a r c h) v
  | inl h ↦
      let w = e.within in
      let p = enter-Entered a r c (omega arith) h in
      let s = find_slot-some _ a.commitments p.at in
      rw p.result (
        book-IsValid a p.slot p.old c r v s.0 (ground arith) e.at e.live e.on (inr (formed e))
          (All-map (λ d h. inr h) a.commitments e.apart) (omega arith) p.room p.total p.charge)
]
  where
    formed : Enterable a r c → CommitmentFormed a.reservations c
    formed e = record {
      owner = r;
      at = e.at;
      live = e.live;
      within = e.within;
      dated = e.dated;
      stated = e.stated;
      counted = e.counted;
    }
