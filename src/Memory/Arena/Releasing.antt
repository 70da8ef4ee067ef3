-- ===== src/Memory/Arena/Releasing.antt =====
-- `gxos_vm_arena_release`: when it accepts, and that it undoes `_reserve`.
use guide_xos_net.Prelude.{
  ℕ, ◌+◌, ◌<◌, ◌≡◌, ◌⊎◌, inl, inr, refl, ap, subst, ◌∙◌, true, false, none, some, arith, get_elem?,
  get_elem?-lt, get_elem?-none, get_elem?-set_self, set-set, set_same, le-sum, All, All-get, leb,
  find_slot-some, Bool-cases, Option-cases,
}
use native.Mathlib.Decide.{ℕ_discrete}
use guide_xos_net.Memory.Ranges.{add_u64-some}
use guide_xos_net.Memory.Arena.State.{
  ok, invalid_argument, not_found, committed_reservation, Reservation, Arena, max_reservations,
  empty_reservation,
}
use guide_xos_net.Memory.Arena.Reserve.{new_reservation, place, reserve, unplace, release}
use guide_xos_net.Memory.Arena.Valid.{reserved_share, one_reservation, IsValid}
use guide_xos_net.Memory.Arena.Placing.{unplace-IsValid}
use guide_xos_net.Memory.Arena.Reserving.{reserve-checks, reserve-Placed, reserve-IsValid}

-- On a well-formed arena, releasing a live reservation with nothing committed returns OK and clears
-- exactly its slot.
pub release_live :
    (a : Arena) (slot : ℕ) (r : Reservation)
    → IsValid a
    → get_elem? a.reservations slot ≡ some r
    → r.live ≡ true
    → r.committed_bytes ≡ 0
    → release a slot ≡ (ok, unplace a slot r)
unfolding release
release_live a slot r v at live none_left = ground (
  arith,
  le-sum one_reservation a.reservations slot at,
  le-sum reserved_share a.reservations slot at,
  get_elem?-lt a.reservations slot r at,
  v.valid,
  v.reservation_slots,
  v.reservation_counted,
  v.reserved,
)

-- On a well-formed arena `release` refuses a slot out of range, a free one, and one with committed
-- bytes, and changes nothing; else it returns OK, clears the slot and takes its bytes off the total.
pub release_branches :
    (a : Arena) (slot : ℕ)
    → IsValid a
    → ((leb max_reservations slot ≡ true) × (release a slot ≡ (invalid_argument, a)))
      ⊎ ((r : Reservation) × (get_elem? a.reservations slot ≡ some r)
          × ((r.live ≡ false) × (release a slot ≡ (not_found, a))
              ⊎ (r.live ≡ true)
                × (0 < r.committed_bytes)
                × (release a slot ≡ (committed_reservation, a))
              ⊎ (r.live ≡ true)
                × (r.committed_bytes ≡ 0)
                × (release a slot ≡ (ok, unplace a slot r))))
release_branches a slot v = elim (Option-cases (get_elem? a.reservations slot)) [
  | inl e ↦ inl (out e)
  | inr (r, e) ↦ inr (r, e, cases r e)
]
  where
    out :
        get_elem? a.reservations slot ≡ none
        → (leb max_reservations slot ≡ true) × (release a slot ≡ (invalid_argument, a))
    out e =
        let n = get_elem?-none a.reservations slot e in
        let s = v.reservation_slots in unfold release in (ground arith, ground arith)

    cases :
        (r : Reservation)
        → get_elem? a.reservations slot ≡ some r
        → (r.live ≡ false) × (release a slot ≡ (not_found, a))
          ⊎ (r.live ≡ true)
            × (0 < r.committed_bytes)
            × (release a slot ≡ (committed_reservation, a))
          ⊎ (r.live ≡ true) × (r.committed_bytes ≡ 0) × (release a slot ≡ (ok, unplace a slot r))
    cases r e =
        let l = get_elem?-lt a.reservations slot r e in
        let s = v.reservation_slots in
        let w = v.valid in
        elim (Bool-cases r.live) [
          | inr d ↦ inl (d, unfold release in ground arith)
          | inl d ↦ elim (ℕ_discrete r.committed_bytes 0) [
            | yes z ↦ inr (inr (d, z, release_live a slot r v e d z))
            | no p ↦ inr (inl (d, omega arith, unfold release in ground arith))
          ]
        ]

-- `release` keeps a well-formed arena well formed, whatever it returns.
pub release-IsValid : (a : Arena) (slot : ℕ) → IsValid a → IsValid (release a slot).1
release-IsValid a slot v = elim (release_branches a slot v) [
  | inl (_, e) ↦ rw e v
  | inr (r, at, c) ↦ elim c [
    | inl (_, e) ↦ rw e v
    | inr d ↦ elim d [
      | inl (_, _, e) ↦ rw e v
      | inr (live, none_left, e) ↦ rw e (unplace-IsValid a slot r v at live none_left)
    ]
  ]
]

-- Every free reservation slot holds zeros.
abbrev pub IsClean : Arena → Type 0
IsClean a = All (λ r. (r.live ≡ true) ⊎ (r ≡ empty_reservation)) a.reservations

-- On a well-formed arena whose free reservation slots hold zeros, releasing what was just reserved
-- restores the arena, field by field.
pub release-reserve :
    (a : Arena) (base bytes kind generation slot : ℕ)
    → IsValid a
    → IsClean a
    → (reserve a base bytes kind generation).0 ≡ ok
    → (reserve a base bytes kind generation).1 ≡ some slot
    → release (reserve a base bytes kind generation).2 slot ≡ (ok, a)
release-reserve a base bytes kind generation slot v c h at =
    let n = new_reservation base bytes kind generation in
    let p = reserve-Placed a base bytes kind generation h in
    let k = reserve-checks a base bytes kind generation h in
    let s = find_slot-some _ a.reservations p.at in
    let t = (add_u64-some a.total_reserved_bytes bytes p.sum).0 in
    let r = p.result in
    let same : slot ≡ p.slot = ground arith in
    let valid : IsValid (place a p.slot n p.total) =
      subst (λ t. IsValid t.2) r (reserve-IsValid a base bytes kind generation v) in
    let empty =
      All-get (λ r. (r.live ≡ true) ⊎ (r ≡ empty_reservation)) a.reservations p.slot c s.0 in
    let here =
      get_elem?-set_self a.reservations p.slot n (get_elem?-lt a.reservations p.slot p.old s.0) in
    rw (r, same, release_live (place a p.slot n p.total) p.slot n valid here refl refl)
      (ap (λ x. (ok, x)) (restored p.slot p.total p.old n s.0 (ground arith) t k.2))
  where
    restored :
        (i total : ℕ) (old n : Reservation)
        → get_elem? a.reservations i ≡ some old
        → old ≡ empty_reservation
        → total ≡ a.total_reserved_bytes + n.bytes
        → a.reservation_count < max_reservations
        → unplace (place a i n total) i n ≡ a
    restored i total old n at e t room =
        let q = set-set a.reservations i n empty_reservation in
        let z = set_same a.reservations i empty_reservation (at ∙ ap some e) in ground arith
