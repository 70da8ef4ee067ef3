-- ===== src/Memory/Arena/Deciding.antt =====
-- A well-formed arena passes `gxos_vm_arena_validate`, which therefore decides well-formedness.
use guide_xos_net.Prelude.{
  ℕ, suc, ◌+◌, ◌^◌, ◌≤◌, ◌<◌, ◌≡◌, ◌↔◌, inl, inr, refl, subst, ◌∙◌, true, false, some, List, [],
  ◌∷◌, arith, length, length-set, length-replicate, get_elem?, get_elem?-lt, get_or,
  get_or-set_self, get_or-set_ne, get_or-replicate, set, sum, sum-le-length, sum-le, All, All-zip,
  All-of, Pairs, All→any-false, Bool-cases,
}
use native.Mathlib.Decide.{ℕ_discrete}
use guide_xos_net.Memory.Ranges.{u64_max, u32, add_u64-eq, Fits, Within→contains, overlap_of_Apart}
use guide_xos_net.Memory.Arena.State.{Reservation, Commitment, Arena, max_reservations}
use guide_xos_net.Memory.Arena.Valid.{
  CommitmentFormed, CommitmentOk, CommitmentsApart, committed_share, slot_share, one_reservation,
  one_commitment, IsValid,
}
use guide_xos_net.Memory.Arena.Validate.{
  Charged, check_reservations, commitment_malformed, commitment_overlaps, check_commitment,
  check_commitments, charges_agree, nothing_reserved, nothing_charged, validate,
}
use guide_xos_net.Memory.Arena.Tables.{reserved-le-length, committed-le-length}
use guide_xos_net.Memory.Arena.Validating.{Fixed, validate→IsValid}
use guide_xos_net.Memory.Arena.PassingReservations.{reserved_after, check_reservations-after}

-- The second loop, for charges that the slots have room for.
record After (xs : List Commitment) (t u : Charged) : Type 0 where
  count : u.count ≡ t.count + sum one_commitment xs
  bytes : u.bytes ≡ t.bytes + sum committed_share xs
  slots : length u.by_slot ≡ max_reservations
  charge : (i : ℕ) → get_or u.by_slot i 0 ≡ get_or t.by_slot i 0 + sum (slot_share i) xs

owned_passes :
    (rs : List Reservation) (c : Commitment)
    → length rs ≡ max_reservations
    → CommitmentFormed rs c
    → commitment_malformed rs c ≡ false
owned_passes rs c n f =
    let inside = Within→contains f.owner.base f.owner.bytes c.base c.bytes f.within in
    let l = get_elem?-lt rs c.reservation_slot f.owner f.at in
    let k = f.counted in ground (arith, f.at, f.live, f.dated, f.stated)

check_commitment-After :
    (rs : List Reservation) (c : Commitment) (rest : List Commitment) (t : Charged)
    → length rs ≡ max_reservations
    → CommitmentOk rs c
    → All (CommitmentOk rs) rest
    → All (CommitmentsApart c) rest
    → t.count + one_commitment c < 2 ^ 32
    → t.bytes + committed_share c ≤ u64_max
    → length t.by_slot ≡ max_reservations
    → ((i : ℕ) → get_or t.by_slot i 0 + slot_share i c ≤ u64_max)
    → (u : Charged) × (check_commitment rs c rest t ≡ some u) × After (c ∷ []) t u
unfolding check_commitment sum
check_commitment-After rs c rest t n f fs s k b l m = elim (Bool-cases c.live) [
  | inr free ↦ (
    t,
    ground arith,
    record { count = ground arith; bytes = ground arith; slots = l; charge = λ i. ground arith },
  )
  | inl live ↦ busy live (form live f)
]
  where
    form : c.live ≡ true → CommitmentOk rs c → CommitmentFormed rs c
    form live (inl d) = absurd (ground arith)
    form live (inr g) = g

    clear :
        (y : Commitment)
        → Fits c.base c.bytes
        → c.live ≡ true
        → CommitmentOk rs y
        → CommitmentsApart c y
        → commitment_overlaps c y ≡ false
    clear y w live (inl d) p = ground arith
    clear y w live (inr g) p =
        let z = g.within in ground (arith, overlap_of_Apart c.base c.bytes y.base y.bytes)

    charge :
        (i : ℕ)
        → c.live ≡ true
        → c.reservation_slot < length t.by_slot
        → get_or
            (set t.by_slot c.reservation_slot (get_or t.by_slot c.reservation_slot 0 + c.bytes))
            i
            0
          ≡ get_or t.by_slot i 0 + (slot_share i c + 0)
    charge i live l = elim (ℕ_discrete c.reservation_slot i) [
      | yes e ↦
          let q =
            get_or-set_self t.by_slot c.reservation_slot
              (get_or t.by_slot c.reservation_slot 0 + c.bytes) 0 l in
          let at =
            subst
              (λ j.
                get_or
                  (set t.by_slot c.reservation_slot
                    (get_or t.by_slot c.reservation_slot 0 + c.bytes))
                  j 0
                ≡ get_or t.by_slot j 0 + c.bytes)
              e q in
          ground arith
      | no d ↦
          let q =
            get_or-set_ne t.by_slot c.reservation_slot i
              (get_or t.by_slot c.reservation_slot 0 + c.bytes) 0 d in
          ground arith
    ]

    busy :
        c.live ≡ true
        → CommitmentFormed rs c
        → (u : Charged) × (check_commitment rs c rest t ≡ some u) × After (c ∷ []) t u
    busy live g =
        let p = owned_passes rs c n g in
        let w = g.within in
        let q =
          All→any-false (commitment_overlaps c) rest
            (All-zip (λ y h z. clear y w.1 live h z) rest fs s) in
        let e = add_u64-eq t.bytes c.bytes (ground arith) in
        let d =
          add_u64-eq (get_or t.by_slot c.reservation_slot 0) c.bytes
            (ground (arith, m c.reservation_slot)) in
        (
          record {
            count = u32 (t.count + 1);
            bytes = t.bytes + c.bytes;
            by_slot =
                set t.by_slot c.reservation_slot (get_or t.by_slot c.reservation_slot 0 + c.bytes);
          },
          ground arith,
          record {
            count = ground arith;
            bytes = ground arith;
            slots = length-set t.by_slot c.reservation_slot _ ∙ l;
            charge = λ i. charge i live (ground arith);
          },
        )

check_commitments-After :
    (rs : List Reservation) (xs : List Commitment) (t : Charged)
    → length rs ≡ max_reservations
    → All (CommitmentOk rs) xs
    → Pairs CommitmentsApart xs
    → t.count + sum one_commitment xs < 2 ^ 32
    → t.bytes + sum committed_share xs ≤ u64_max
    → length t.by_slot ≡ max_reservations
    → ((i : ℕ) → get_or t.by_slot i 0 + sum (slot_share i) xs ≤ u64_max)
    → (u : Charged) × (check_commitments rs xs t ≡ some u) × After xs t u
unfolding check_commitments sum
check_commitments-After rs [] t n f s k b l m = (
  t,
  refl,
  record { count = ground arith; bytes = ground arith; slots = l; charge = λ i. ground arith },
)
check_commitments-After rs (c ∷ rest) t n f s k b l m =
    let r =
      check_commitment-After rs c rest t n f.0 f.1 s.0 (omega arith) (omega arith) l
        (λ i. omega (arith, m i)) in
    let g = r.2 in
    let ih =
      check_commitments-After rs rest r.0 n f.1 s.1 (omega (arith, g.count))
        (omega (arith, g.bytes)) g.slots (λ i. omega (arith, m i, g.charge i)) in
    let h = ih.2 in
    (
      ih.0,
      rw (r.1, check_commitments) ih.1,
      record {
        count = omega (arith, g.count, h.count);
        bytes = omega (arith, g.bytes, h.bytes);
        slots = h.slots;
        charge = λ i. omega (arith, g.charge i, h.charge i);
      },
    )

charges_agree-lem :
    (rs : List Reservation) (xs : List ℕ)
    → ((i : ℕ) (r : Reservation)
        → get_elem? rs i ≡ some r
        → r.live ≡ true
        → r.committed_bytes ≡ get_or xs i 0)
    → charges_agree rs xs ≡ true
unfolding charges_agree
charges_agree-lem [] xs h = refl
charges_agree-lem (r ∷ rs) [] h = refl
charges_agree-lem (r ∷ rs) (x ∷ xs) h =
    let ih = charges_agree-lem rs xs (λ i y e l. h (suc i) y e l) in
    elim (Bool-cases r.live) [
      | inl live ↦ let e = h 0 r refl live in ground arith
      | inr free ↦ ground arith
    ]

one_reservation-le : (r : Reservation) → one_reservation r ≤ 1
one_reservation-le r = ground arith

one_commitment-le : (c : Commitment) → one_commitment c ≤ 1
one_commitment-le c = ground arith

slot_share-le : (i : ℕ) (c : Commitment) → slot_share i c ≤ committed_share c
slot_share-le i c = ground arith

-- A well-formed arena validates.
pub IsValid→validate : (a : Arena) → IsValid a → validate a ≡ true
IsValid→validate a v =
    let f = v.fits in
    let few =
      sum-le-length one_reservation a.reservations (All-of one_reservation-le a.reservations) in
    let few' =
      sum-le-length one_commitment a.commitments (All-of one_commitment-le a.commitments) in
    let t =
      check_reservations-after a a.reservations nothing_reserved v.valid v.reservations_formed
        v.reservations_apart (omega (arith, v.reservation_slots))
        (omega (arith, v.reserved, reserved-le-length a v)) in
    let c =
      check_commitments-After a.reservations a.commitments nothing_charged v.reservation_slots
        v.commitments_formed v.commitments_apart (omega (arith, v.commitment_slots))
        (omega (arith, v.committed, committed-le-length a v))
        (length-replicate {A = ℕ} max_reservations 0)
        (λ i. omega (
          arith,
          get_or-replicate {A = ℕ} max_reservations i 0,
          sum-le (slot_share i) committed_share (slot_share-le i) a.commitments,
          v.committed,
          committed-le-length a v,
        )) in
    passes c.0 t c.1 c.2 few few'
  where
    passes :
        (u : Charged)
        → check_reservations a a.reservations nothing_reserved
          ≡ some (reserved_after a.reservations nothing_reserved)
        → check_commitments a.reservations a.commitments nothing_charged ≡ some u
        → After a.commitments nothing_charged u
        → sum one_reservation a.reservations ≤ length a.reservations
        → sum one_commitment a.commitments ≤ length a.commitments
        → validate a ≡ true
    passes u t c g few few' =
        let agree = charges_agree-lem a.reservations u.by_slot (λ i r at live. omega (
          arith,
          v.charged i r at live,
          g.charge i,
          get_or-replicate {A = ℕ} max_reservations i 0,
        )) in
        unfold validate in
        ground (
          arith, v.valid, v.fits, v.dated, v.reserved, v.committed, v.reservation_counted,
          v.commitment_counted, g.count, g.bytes,
        )

-- `validate` returns 1 exactly on the well-formed arenas, those of 256 reservations and 4096
-- commitments, with a 64-bit length.
pub arena_validate_iff : (a : Arena) → Fixed a → (validate a ≡ true) ↔ IsValid a
arena_validate_iff a x = (validate→IsValid a x, IsValid→validate a)
