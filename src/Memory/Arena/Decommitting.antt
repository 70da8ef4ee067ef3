-- ===== src/Memory/Arena/Decommitting.antt =====
-- `gxos_vm_arena_decommit`: when it accepts, and that it undoes `_commit`.
use guide_xos_net.Prelude.{
  ℕ, ◌+◌, ◌≤◌, ◌<◌, ◌≡◌, ◌⊎◌, inl, inr, refl, ap, subst, ◌∙◌, Bool, true, false, ◌&&◌, some, arith,
  length, get_elem?, get_elem?-lt, get_elem?-set_self, set, set-set, set_same, modify,
  modify-eq-set, le-sum, All, All-map, All-get, ◌==◌, find_slot, find_slot-some, find_slot-none,
  find_slot-set, Bool-cases, Option-cases,
}
use guide_xos_net.Memory.Ranges.{u64_max, Apart}
use guide_xos_net.Memory.Arena.State.{
  ok, invalid_argument, not_found, Reservation, Commitment, Arena, max_commitments,
  empty_commitment,
}
use guide_xos_net.Memory.Arena.Commit.{
  charge, refund, book, unbook, commit, decommit, new_commitment,
}
use guide_xos_net.Memory.Arena.Valid.{
  ReservationFormed, ReservationOk, CommitmentOk, committed_share, one_commitment, slot_share,
  IsValid,
}
use guide_xos_net.Memory.Arena.Booking.{unbook-IsValid}
use guide_xos_net.Memory.Arena.Entering.{enter-Entered, enter-IsValid}
use guide_xos_net.Memory.Arena.Committing.{commit-Chosen}

-- What an entry of the table says about its reservation and the totals.
pub record Entry (a : Arena) (c : Commitment) : Type 0 where
  pub owner : Reservation
  pub at : get_elem? a.reservations c.reservation_slot ≡ some owner
  pub live : owner.live ≡ true
  pub some_bytes : 0 < c.bytes
  pub some_entry : 0 < a.commitment_count
  pub total : c.bytes ≤ a.total_committed_bytes
  pub charged : c.bytes ≤ owner.committed_bytes

pub live-Entry :
    (a : Arena) (j : ℕ) (c : Commitment)
    → IsValid a
    → get_elem? a.commitments j ≡ some c
    → c.live ≡ true
    → Entry a c
live-Entry a j c v at on =
    elim (All-get (CommitmentOk a.reservations) a.commitments j v.commitments_formed at) [
      | inl d ↦ absurd (ground arith)
      | inr f ↦
          let counts = le-sum one_commitment a.commitments j at in
          let sums = le-sum committed_share a.commitments j at in
          let charges = le-sum (slot_share c.reservation_slot) a.commitments j at in
          let n = v.commitment_counted in
          let t = v.committed in
          let u = v.charged c.reservation_slot f.owner f.at f.live in
          let w = f.within in
          record {
            owner = f.owner;
            at = f.at;
            live = f.live;
            some_bytes = omega arith;
            some_entry = ground arith;
            total = ground arith;
            charged = ground arith;
          }
    ]

abbrev pub is_range : ℕ → ℕ → Commitment → Bool
is_range base bytes c = c.live && (c.base == base && c.bytes == bytes)

-- On a well-formed arena `decommit` takes the first commitment of exactly the range off, and refuses a
-- range with none.
pub decommit_branches :
    (a : Arena) (base bytes : ℕ)
    → IsValid a
    → ((bytes ≡ 0) × (decommit a base bytes ≡ (invalid_argument, a)))
      ⊎ ((0 < bytes)
          × All (λ c. is_range base bytes c ≡ false) a.commitments
          × (decommit a base bytes ≡ (not_found, a)))
      ⊎ ((j : ℕ) × (c : Commitment) × (get_elem? a.commitments j ≡ some c)
          × (c.live ≡ true)
          × (c.base ≡ base)
          × (c.bytes ≡ bytes)
          × (decommit a base bytes ≡ (ok, unbook a j c)))
unfolding decommit
decommit_branches a base bytes v =
    let valid = v.valid in
    elim (Bool-cases (bytes == 0)) [
      | inl z ↦ inl (ground arith, ground arith)
      | inr p ↦ inr (elim (Option-cases (find_slot (is_range base bytes) a.commitments)) [
        | inl e ↦ inl (ground arith, find_slot-none _ a.commitments e, ground arith)
        | inr ((j, c), e) ↦
            let s = find_slot-some _ a.commitments e in
            let on : c.live ≡ true = ground arith in
            let k = live-Entry a j c v s.0 on in
            inr (
              j,
              c,
              s.0,
              on,
              ground arith,
              ground arith,
              ground (arith, k.at, k.some_bytes, k.some_entry, k.total, k.charged),
            )
      ])
    ]

-- `decommit` keeps a well-formed arena well formed, whatever it returns.
pub decommit-IsValid : (a : Arena) (base bytes : ℕ) → IsValid a → IsValid (decommit a base bytes).1
decommit-IsValid a base bytes v = elim (decommit_branches a base bytes v) [
  | inl (_, e) ↦ rw e v
  | inr c ↦ elim c [
    | inl (_, _, e) ↦ rw e v
    | inr (j, c, at, on, _, _, e) ↦
        let k = live-Entry a j c v at on in rw e (unbook-IsValid a j c k.owner v at on k.at k.live)
  ]
]

-- Every free commitment slot holds zeros.
abbrev pub IsTidy : Arena → Type 0
IsTidy a = All (λ c. (c.live ≡ true) ⊎ (c ≡ empty_commitment)) a.commitments

refund-charge :
    (base length bytes : ℕ) (r : Reservation)
    → ReservationFormed base length r
    → r.committed_bytes + bytes ≤ u64_max
    → refund bytes (charge bytes r) ≡ r
refund-charge base length bytes r f h = let s = f.stated in ground arith

-- Taking off what was just entered restores the tables.
pub unbook-book :
    (a : Arena) (j : ℕ) (c : Commitment) (r : Reservation)
    → IsValid a
    → get_elem? a.commitments j ≡ some empty_commitment
    → get_elem? a.reservations c.reservation_slot ≡ some r
    → r.live ≡ true
    → a.commitment_count < max_commitments
    → a.total_committed_bytes + c.bytes ≤ u64_max
    → r.committed_bytes + c.bytes ≤ u64_max
    → unbook (book a j c) j c ≡ a
unbook-book a j c r v at_j at_i live room total charged =
    elim (All-get (ReservationOk a.base a.length) a.reservations c.reservation_slot
      v.reservations_formed at_i) [
        | inl d ↦ absurd (ground arith)
        | inr f ↦
            let n = charge c.bytes r in
            let here =
              get_elem?-set_self a.reservations c.reservation_slot n
                (get_elem?-lt a.reservations c.reservation_slot r at_i) in
            let m = modify-eq-set a.reservations c.reservation_slot (charge c.bytes) at_i in
            let m' =
              modify-eq-set (set a.reservations c.reservation_slot n) c.reservation_slot
                (refund c.bytes) here in
            let s = set-set a.reservations c.reservation_slot n (refund c.bytes n) in
            let z = set_same a.reservations c.reservation_slot r at_i in
            let q = refund-charge a.base a.length c.bytes r f charged in
            let reservations : modify (modify a.reservations c.reservation_slot (charge c.bytes))
                  c.reservation_slot (refund c.bytes)
                ≡ a.reservations =
              rw m (m' ∙ s ∙ ap (set a.reservations c.reservation_slot) q ∙ z) in
            let commitments : set (set a.commitments j c) j empty_commitment ≡ a.commitments =
              set-set a.commitments j c empty_commitment
              ∙ set_same a.commitments j empty_commitment at_j in
            ground arith
      ]

-- On a well-formed arena whose free commitment slots hold zeros, decommitting what was just
-- committed restores the arena, field by field.
pub decommit-commit :
    (a : Arena) (base bytes generation : ℕ)
    → IsValid a
    → IsTidy a
    → (commit a base bytes generation).0 ≡ ok
    → decommit (commit a base bytes generation).1 base bytes ≡ (ok, a)
decommit-commit a base bytes generation v t h =
    let p = commit-Chosen a base bytes generation v h in
    let n = new_commitment p.slot base bytes generation in
    let w = p.entry.within in
    let e = enter-Entered a p.owner n (omega arith) (subst (λ t. t.0 ≡ ok) p.result h) in
    let s = find_slot-some _ a.commitments e.at in
    let blank =
      All-get (λ c. (c.live ≡ true) ⊎ (c ≡ empty_commitment)) a.commitments e.slot t s.0 in
    let old : e.old ≡ empty_commitment = ground arith in
    let valid : IsValid (book a e.slot n) =
      subst (λ t. IsValid t.1) e.result (enter-IsValid a p.owner n v p.entry) in
    let found =
      find_slot-set (is_range base bytes) a.commitments e.slot n
        (All-map (λ c k. other c w.1.0 k) a.commitments p.entry.apart) (ground arith)
        (get_elem?-lt a.commitments e.slot e.old s.0) in
    let here =
      get_elem?-set_self a.commitments e.slot n (get_elem?-lt a.commitments e.slot e.old s.0) in
    let k = live-Entry (book a e.slot n) e.slot n valid here refl in
    let back =
      unbook-book a e.slot n p.owner v (s.0 ∙ ap some old) p.entry.at p.entry.live e.room e.total
        e.charge in
    rw (p.result, e.result)
      (decommitted (book a e.slot n) e.slot n valid found k ∙ ap (λ x. (ok, x)) back)
  where
    other :
        (c : Commitment)
        → 0 < bytes
        → (c.live ≡ false) ⊎ Apart base bytes c.base c.bytes
        → is_range base bytes c ≡ false
    other c b k = ground arith

    decommitted :
        (b : Arena) (j : ℕ) (c : Commitment)
        → IsValid b
        → find_slot (is_range base bytes) b.commitments ≡ some (j, c)
        → Entry b c
        → decommit b base bytes ≡ (ok, unbook b j c)
    decommitted b j c v found k =
        let valid = v.valid in
        let s = find_slot-some _ b.commitments found in
        unfold decommit in ground (arith, k.at, k.some_bytes, k.some_entry, k.total, k.charged)
