-- ===== src/Memory/Arena/Effects.antt =====
-- What the operations that take entries off the arena's tables do on every branch.
use guide_xos_net.Prelude.{
  ℕ, ◌+◌, ◌%◌, ◌≤◌, ◌<◌, ◌≡◌, ◌≢◌, ◌⊎◌, inl, inr, refl, sym, ap, subst, true, false, some, arith,
  ◌==◌, if◌then◌else◌, get_elem?, get_elem?-lt, le-sum, find_slot, find_slot-some, find_slot-none,
  find_slot-first, Written, set-Written, modify-Written, All, Bool-cases, Option-cases,
}
use guide_xos_net.Memory.Ranges.{page_size}
use guide_xos_net.Memory.Arena.State.{
  ok, invalid_argument, not_found, committed_reservation, Reservation, Commitment, Arena,
  state_reserved, max_reservations, empty_reservation, empty_commitment,
}
use guide_xos_net.Memory.Arena.Reserve.{release, unplace}
use guide_xos_net.Memory.Arena.Commit.{refund, unbook, is_page, decommit_page, decommit}
use guide_xos_net.Memory.Arena.Valid.{reserved_share, one_reservation, IsValid}
use guide_xos_net.Memory.Arena.Decommitting.{Entry, live-Entry, is_range}
use guide_xos_net.Memory.Arena.Releasing.{release_branches}

-- The commitment at a slot is gone: its slot holds zeros, the count and the total are less by it, its
-- reservation is charged less by its bytes and is RESERVED again when nothing is left of the charge;
-- nothing else differs.
pub record Uncommitted (a b : Arena) (j : ℕ) (c : Commitment) : Type 0 where
  pub cleared : Written a.commitments b.commitments j empty_commitment
  pub owner : Reservation
  pub at : get_elem? a.reservations c.reservation_slot ≡ some owner
  pub refunded : Reservation
  pub credited : Written a.reservations b.reservations c.reservation_slot refunded
  pub charged : refunded.committed_bytes + c.bytes ≡ owner.committed_bytes
  pub stated :
      refunded.state ≡ (if refunded.committed_bytes == 0 then state_reserved else owner.state)
  pub kept :
      refunded ≡ record owner { committed_bytes = refunded.committed_bytes; state = refunded.state }
  pub count : b.commitment_count + 1 ≡ a.commitment_count
  pub total : b.total_committed_bytes + c.bytes ≡ a.total_committed_bytes
  pub rest : b ≡ record a {
    commitments = b.commitments;
    reservations = b.reservations;
    commitment_count = b.commitment_count;
    total_committed_bytes = b.total_committed_bytes;
  }

unbook-Uncommitted :
    (a : Arena) (j : ℕ) (c : Commitment)
    → get_elem? a.commitments j ≡ some c
    → Entry a c
    → Uncommitted a (unbook a j c) j c
unbook-Uncommitted a j c at k =
    let n = k.some_entry in
    let t = k.total in
    let g = k.charged in
    record {
      cleared = set-Written a.commitments j empty_commitment at;
      owner = k.owner;
      at = k.at;
      refunded = refund c.bytes k.owner;
      credited = modify-Written a.reservations c.reservation_slot (refund c.bytes) k.at;
      charged = omega arith;
      stated = refl;
      kept = refl;
      count = omega arith;
      total = omega arith;
      rest = refl;
    }

-- On a well-formed arena `decommit` refuses a range of no bytes and one that no live commitment has,
-- and changes nothing. Else it returns OK and takes off the commitment of exactly the range that stands
-- first in the table: its slot is cleared, the count, the total and the charge of its reservation are
-- less by it, a reservation with no charge left is RESERVED again, and nothing else differs.
pub decommit_cases :
    (a : Arena) (base bytes : ℕ)
    → IsValid a
    → ((bytes ≡ 0) × (decommit a base bytes ≡ (invalid_argument, a)))
      ⊎ ((0 < bytes)
          × All (λ c. is_range base bytes c ≡ false) a.commitments
          × (decommit a base bytes ≡ (not_found, a)))
      ⊎ ((j : ℕ) × (c : Commitment) × (get_elem? a.commitments j ≡ some c)
          × (c.live ≡ true)
          × (c.base ≡ base)
          × (c.bytes ≡ bytes)
          × ((k : ℕ) (d : Commitment)
              → k < j
              → get_elem? a.commitments k ≡ some d
              → is_range base bytes d ≡ false)
          × ((decommit a base bytes).0 ≡ ok)
          × Uncommitted a (decommit a base bytes).1 j c)
unfolding decommit
decommit_cases a base bytes v =
    let valid = v.valid in
    elim (Bool-cases (bytes == 0)) [
      | inl z ↦ inl (ground arith, ground arith)
      | inr p ↦ inr (elim (Option-cases (find_slot (is_range base bytes) a.commitments)) [
        | inl e ↦ inl (ground arith, find_slot-none _ a.commitments e, ground arith)
        | inr ((j, c), e) ↦
            let s = find_slot-some _ a.commitments e in
            let on : c.live ≡ true = ground arith in
            let k = live-Entry a j c v s.0 on in
            let done : decommit a base bytes ≡ (ok, unbook a j c) =
              ground (arith, k.at, k.some_bytes, k.some_entry, k.total, k.charged) in
            inr (
              j,
              c,
              s.0,
              on,
              ground arith,
              ground arith,
              find_slot-first _ a.commitments e,
              ap (λ t. t.0) done,
              subst (λ t. Uncommitted a t.1 j c) (sym done) (unbook-Uncommitted a j c s.0 k),
            )
      ])
    ]

-- On a well-formed arena `decommit_page` refuses an address off the page boundary and a page with no
-- commitment, and changes nothing. Else it returns OK and the physical page of the commitment of
-- exactly that page that stands first in the table, and takes that off as `decommit` does.
pub decommit_page_cases :
    (a : Arena) (page : ℕ)
    → IsValid a
    → ((page % page_size ≢ 0) × (decommit_page a page ≡ (invalid_argument, 0, a)))
      ⊎ ((page % page_size ≡ 0)
          × All (λ c. is_range page page_size c ≡ false) a.commitments
          × (decommit_page a page ≡ (not_found, 0, a)))
      ⊎ ((j : ℕ) × (c : Commitment) × (get_elem? a.commitments j ≡ some c)
          × (c.live ≡ true)
          × (c.base ≡ page)
          × (c.bytes ≡ page_size)
          × ((k : ℕ) (d : Commitment)
              → k < j
              → get_elem? a.commitments k ≡ some d
              → is_range page page_size d ≡ false)
          × ((decommit_page a page).0 ≡ ok)
          × ((decommit_page a page).1 ≡ c.physical_base)
          × Uncommitted a (decommit_page a page).2 j c)
unfolding decommit_page
decommit_page_cases a page v = elim (Bool-cases (page % page_size == 0)) [
  | inr p ↦ inl (ground arith, ground arith)
  | inl p ↦ inr (elim (Option-cases (find_slot (is_page page) a.commitments)) [
    | inl e ↦ inl (ground arith, find_slot-none _ a.commitments e, ground arith)
    | inr ((j, c), e) ↦
        let s = find_slot-some _ a.commitments e in
        let on : c.live ≡ true = ground arith in
        let k = live-Entry a j c v s.0 on in
        let l = get_elem?-lt a.reservations c.reservation_slot k.owner k.at in
        let n = v.reservation_slots in
        let done : decommit_page a page ≡ (ok, c.physical_base, unbook a j c) =
          ground (arith, k.at, k.live, k.some_bytes, k.some_entry, k.total, k.charged) in
        inr (
          j,
          c,
          s.0,
          on,
          ground arith,
          ground arith,
          find_slot-first _ a.commitments e,
          ap (λ t. t.0) done,
          ap (λ t. t.1) done,
          subst (λ t. Uncommitted a t.2 j c) (sym done) (unbook-Uncommitted a j c s.0 k),
        )
  ])
]

-- The reservation at a slot is gone: its slot holds zeros, the count and the total are less by it, and
-- nothing else differs.
pub record Unreserved (a b : Arena) (slot : ℕ) (r : Reservation) : Type 0 where
  pub cleared : Written a.reservations b.reservations slot empty_reservation
  pub count : b.reservation_count + 1 ≡ a.reservation_count
  pub total : b.total_reserved_bytes + r.bytes ≡ a.total_reserved_bytes
  pub rest : b ≡ record a {
    reservations = b.reservations;
    reservation_count = b.reservation_count;
    total_reserved_bytes = b.total_reserved_bytes;
  }

unplace-Unreserved :
    (a : Arena) (slot : ℕ) (r : Reservation)
    → IsValid a
    → get_elem? a.reservations slot ≡ some r
    → r.live ≡ true
    → Unreserved a (unplace a slot r) slot r
unplace-Unreserved a slot r v at live =
    let counts = le-sum one_reservation a.reservations slot at in
    let sums = le-sum reserved_share a.reservations slot at in
    let n = v.reservation_counted in
    let t = v.reserved in
    record {
      cleared = set-Written a.reservations slot empty_reservation at;
      count = ground arith;
      total = ground arith;
      rest = refl;
    }

-- On a well-formed arena `release` refuses a slot out of range, a free one, and one with committed
-- bytes, and changes nothing. Else it returns OK, clears the slot, takes one off the count and the
-- reservation's bytes off the total, and nothing else differs.
pub release_cases :
    (a : Arena) (slot : ℕ)
    → IsValid a
    → ((max_reservations ≤ slot) × (release a slot ≡ (invalid_argument, a)))
      ⊎ ((r : Reservation) × (get_elem? a.reservations slot ≡ some r)
          × ((r.live ≡ false) × (release a slot ≡ (not_found, a))
              ⊎ (r.live ≡ true)
                × (0 < r.committed_bytes)
                × (release a slot ≡ (committed_reservation, a))
              ⊎ (r.live ≡ true)
                × (r.committed_bytes ≡ 0)
                × ((release a slot).0 ≡ ok)
                × Unreserved a (release a slot).1 slot r))
release_cases a slot v = elim (release_branches a slot v) [
  | inl (out, e) ↦ inl (ground arith, e)
  | inr (r, at, c) ↦ inr (
    r,
    at,
    elim c [
      | inl d ↦ inl d
      | inr d ↦ inr (elim d [
        | inl f ↦ inl f
        | inr (live, empty, e) ↦ inr (
          live,
          empty,
          ap (λ t. t.0) e,
          subst (λ t. Unreserved a t.1 slot r) (sym e) (unplace-Unreserved a slot r v at live),
        )
      ])
    ],
  )
]
