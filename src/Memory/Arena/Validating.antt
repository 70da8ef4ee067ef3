-- ===== src/Memory/Arena/Validating.antt =====
-- An arena that `gxos_vm_arena_validate` accepts is well formed.
use guide_xos_net.Prelude.{
  ℕ, zero, suc, ◌+◌, ◌^◌, ◌≤◌, ◌<◌, ◌≡◌, inl, inr, ap, subst, ◌∙◌, true, false, some, List, [], ◌∷◌,
  arith, length, length-set, length-replicate, get_elem?, get_or, get_or-set_self, get_or-set_ne,
  get_or-replicate, set, sum, All, All-map, All-of, All-get, Pairs, any, any-false, Bool-cases,
  Option-cases,
}
use native.Mathlib.Decide.{ℕ_discrete}
use guide_xos_net.Memory.Ranges.{
  u64_max, add_u64, Fits, range_contains, contains→Within, overlap-false,
}
use guide_xos_net.Memory.Arena.State.{
  Reservation, Commitment, Arena, max_reservations, max_commitments,
}
use guide_xos_net.Memory.Arena.Valid.{
  ReservationOk, CommitmentFormed, CommitmentOk, CommitmentsApart, committed_share, slot_share,
  one_commitment, IsValid,
}
use guide_xos_net.Memory.Arena.Validate.{
  Charged, check_reservations, owned, commitment_malformed, commitment_overlaps, check_commitment,
  check_commitments, charges_agree, nothing_reserved, nothing_charged, arena_agrees, validate,
}
use guide_xos_net.Memory.Arena.CheckedReservations.{check_reservations-some}

-- A commitment that passes lies in the reservation it names.
owned-some :
    (base bytes : ℕ) (rs : List Reservation) (c : Commitment)
    → base + bytes ≤ u64_max
    → All (ReservationOk base bytes) rs
    → commitment_malformed rs c ≡ false
    → CommitmentFormed rs c
owned-some base bytes rs c k f h = elim (Option-cases (get_elem? rs c.reservation_slot)) [
  | inl e ↦ absurd (ground arith)
  | inr (r, e) ↦
      let o : owned (some r) c ≡ true = ground arith in
      let live : r.live ≡ true = ground arith in
      let inside : range_contains r.base r.bytes c.base c.bytes ≡ true = ground arith in
      record {
        owner = r;
        at = e;
        live = live;
        within =
            contains→Within r.base r.bytes c.base c.bytes
              (short r (All-get (ReservationOk base bytes) rs c.reservation_slot f e) live) inside;
        dated = ground arith;
        stated = ground arith;
        counted = ground arith;
      }
]
  where
    short : (r : Reservation) → ReservationOk base bytes r → r.live ≡ true → r.bytes ≤ u64_max
    short r (inl d) l = absurd (ground arith)
    short r (inr g) l = let w = g.within in omega arith

-- What one round of the second loop that goes on has checked.
check_commitment-some :
    (base bytes : ℕ) (rs : List Reservation) (c : Commitment) (rest : List Commitment)
    (t u : Charged)
    → base + bytes ≤ u64_max
    → All (ReservationOk base bytes) rs
    → t.count + 1 < 2 ^ 32
    → length t.by_slot ≡ max_reservations
    → check_commitment rs c rest t ≡ some u
    → CommitmentOk rs c
      × All (CommitmentsApart c) rest
      × (u.count ≡ t.count + one_commitment c)
      × (u.bytes ≡ t.bytes + committed_share c)
      × (length u.by_slot ≡ max_reservations)
      × ((i : ℕ) → get_or u.by_slot i 0 ≡ get_or t.by_slot i 0 + slot_share i c)
unfolding check_commitment
check_commitment-some base bytes rs c rest t u k f n s h = elim (Bool-cases c.live) [
  | inr free ↦ (
    inl free,
    All-of (λ y. inl free) rest,
    ground arith,
    ground arith,
    ground arith,
    λ i. ground arith,
  )
  | inl live ↦
      let formed : commitment_malformed rs c ≡ false = ground arith in
      let clear : any (commitment_overlaps c) rest ≡ false = unfold add_u64 in ground arith in
      let slots : u.by_slot
          ≡ set t.by_slot c.reservation_slot (get_or t.by_slot c.reservation_slot 0 + c.bytes) =
        unfold add_u64 in ground arith in
      (
        inr (owned-some base bytes rs c k f formed),
        All-map (λ y q. apart y q) rest (any-false (commitment_overlaps c) rest clear),
        unfold add_u64 in ground arith,
        unfold add_u64 in ground arith,
        ap length slots ∙ length-set t.by_slot c.reservation_slot _ ∙ s,
        λ i. ap (λ l. get_or l i 0) slots ∙ charge i live (ground arith),
      )
]
  where
    apart : (y : Commitment) → commitment_overlaps c y ≡ false → CommitmentsApart c y
    apart y q = ground (arith, overlap-false c.base c.bytes y.base y.bytes)

    charge :
        (i : ℕ)
        → c.live ≡ true
        → c.reservation_slot < length t.by_slot
        → get_or
            (set t.by_slot c.reservation_slot (get_or t.by_slot c.reservation_slot 0 + c.bytes))
            i
            0
          ≡ get_or t.by_slot i 0 + slot_share i c
    charge i live l = elim (ℕ_discrete c.reservation_slot i) [
      | yes e ↦
          let q =
            get_or-set_self t.by_slot c.reservation_slot
              (get_or t.by_slot c.reservation_slot 0 + c.bytes) 0 l in
          let at =
            subst
              (λ j.
                get_or
                  (set t.by_slot c.reservation_slot
                    (get_or t.by_slot c.reservation_slot 0 + c.bytes))
                  j 0
                ≡ get_or t.by_slot j 0 + c.bytes)
              e q in
          ground arith
      | no d ↦
          let q =
            get_or-set_ne t.by_slot c.reservation_slot i
              (get_or t.by_slot c.reservation_slot 0 + c.bytes) 0 d in
          ground arith
    ]

check_commitments-some :
    (base bytes : ℕ) (rs : List Reservation) (xs : List Commitment) (t u : Charged)
    → base + bytes ≤ u64_max
    → All (ReservationOk base bytes) rs
    → t.count + length xs < 2 ^ 32
    → length t.by_slot ≡ max_reservations
    → check_commitments rs xs t ≡ some u
    → All (CommitmentOk rs) xs
      × Pairs CommitmentsApart xs
      × (u.count ≡ t.count + sum one_commitment xs)
      × (u.bytes ≡ t.bytes + sum committed_share xs)
      × (length u.by_slot ≡ max_reservations)
      × ((i : ℕ) → get_or u.by_slot i 0 ≡ get_or t.by_slot i 0 + sum (slot_share i) xs)
unfolding check_commitments sum
check_commitments-some base bytes rs [] t u k f n s h =
    (tt, tt, ground arith, ground arith, ground arith, λ i. ground arith)
check_commitments-some base bytes rs (c ∷ rest) t u k f n s h =
    elim (Option-cases (check_commitment rs c rest t)) [
      | inl stop ↦ absurd (ground arith)
      | inr (t', go) ↦
          let r = check_commitment-some base bytes rs c rest t t' k f (omega arith) s go in
          let ih =
            check_commitments-some base bytes rs rest t' u k f (ground arith) r.4 (ground arith) in
          (
            (r.0, ih.0),
            (r.1, ih.1),
            omega (arith, r.2, ih.2),
            omega (arith, r.3, ih.3),
            ih.4,
            λ i. omega (arith, r.5 i, ih.5 i),
          )
    ]

charges_agree-at :
    (rs : List Reservation) (xs : List ℕ) (i : ℕ) (r : Reservation)
    → length rs ≤ length xs
    → charges_agree rs xs ≡ true
    → get_elem? rs i ≡ some r
    → r.live ≡ true
    → r.committed_bytes ≡ get_or xs i 0
unfolding charges_agree
charges_agree-at [] xs i r k h e l = absurd (ground arith)
charges_agree-at (x ∷ rs) [] i r k h e l = absurd (omega arith)
charges_agree-at (x ∷ rs) (y ∷ ys) zero r k h e l = ground arith
charges_agree-at (x ∷ rs) (y ∷ ys) (suc i) r k h e l =
    charges_agree-at rs ys i r (omega arith) (ground arith) e l

abbrev pub Fixed : Arena → Type 0
Fixed a =
    (length a.reservations ≡ max_reservations)
    × (length a.commitments ≡ max_commitments)
    × (a.length ≤ u64_max)

pub validate→IsValid : (a : Arena) → Fixed a → validate a ≡ true → IsValid a
validate→IsValid a x h =
    elim (Option-cases (check_reservations a a.reservations nothing_reserved)) [
      | inl stop ↦ absurd (unfold validate in ground arith)
      | inr (t, go) ↦
          elim (Option-cases (check_commitments a.reservations a.commitments nothing_charged)) [
            | inl stop ↦ absurd (unfold validate in ground arith)
            | inr (u, on) ↦
                let g = guards h in
                let agrees : arena_agrees a t u ≡ true = unfold validate in ground arith in
                let p =
                  check_reservations-some a a.reservations nothing_reserved t x.2 (omega arith)
                    go in
                let q =
                  check_commitments-some a.base a.length a.reservations a.commitments
                    nothing_charged u g.1.1 p.0 (omega arith)
                    (length-replicate {A = ℕ} max_reservations 0) on in
                record {
                  valid = g.0;
                  fits = g.1;
                  dated = g.2;
                  reservation_slots = x.0;
                  commitment_slots = x.1;
                  reservations_formed = p.0;
                  reservations_apart = p.1;
                  commitments_formed = q.0;
                  commitments_apart = q.1;
                  reservation_counted = ground (arith, p.2);
                  commitment_counted = ground (arith, q.2);
                  reserved = ground (arith, p.3);
                  committed = ground (arith, q.3);
                  charged = λ i r at live. omega (
                    arith,
                    charges_agree-at a.reservations u.by_slot i r (omega arith) (ground arith) at
                        live,
                    q.5 i,
                    get_or-replicate {A = ℕ} max_reservations i 0,
                  );
                }
          ]
    ]
  where
    guards : validate a ≡ true → (a.valid ≡ true) × Fits a.base a.length × (0 < a.generation)
    guards h = unfold validate in (ground arith, ground arith, ground arith)
