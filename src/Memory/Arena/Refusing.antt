-- ===== src/Memory/Arena/Refusing.antt =====
-- Why `gxos_vm_arena_commit_page` refuses a page, with the status it returns.
use guide_xos_net.Prelude.{
  ℕ, ◌%◌, ◌≤◌, ◌<◌, ◌≡◌, ◌≢◌, ◌⊎◌, inl, inr, refl, sym, subst, true, false, not, ◌&&◌, ◌||◌, some,
  none, ◌∙◌, arith, ltb, ◌==◌, get_elem?, All, All-zip, find_slot, find_slot-some, find_slot-none,
  Bool-cases, Option-cases,
}
use guide_xos_net.Memory.Ranges.{
  page_size, Within, range_contains, contains→Within, Within→contains,
}
use guide_xos_net.Memory.Arena.State.{
  Status, ok, invalid_argument, alignment, commit_outside_reservation, commit_overlap, capacity,
  Reservation, Commitment, Arena, max_commitments, contains, find_reservation, holds,
}
use guide_xos_net.Memory.Arena.Commit.{enter, entered, is_page, page_commitment, commit_page}
use guide_xos_net.Memory.Arena.Valid.{IsValid}
use guide_xos_net.Memory.Arena.Entering.{Enterable, owner-Within, enter-ok}
use guide_xos_net.Memory.Arena.Paging.{PagesOnly, page-Apart, found_at}

-- The reasons, each with its status.
pub data Refused (a : Arena) (page physical generation : ℕ) : Status → Type 0 where
  unset : (generation ≡ 0) ⊎ (physical ≡ 0) → Refused a page physical generation invalid_argument
  unaligned :
      (page % page_size ≢ 0) ⊎ (physical % page_size ≢ 0)
      → Refused a page physical generation alignment
  unheld :
      All (λ r. (r.live && holds page r.base r.bytes) ≡ false) a.reservations
      → Refused a page physical generation commit_outside_reservation
  torn :
      (slot : ℕ) (r : Reservation)
      → get_elem? a.reservations slot ≡ some r
      → (r.live && holds page r.base r.bytes) ≡ true
      → (Within r.base r.bytes page page_size → ⊥)
      → Refused a page physical generation commit_outside_reservation
  elsewhere :
      (j : ℕ) (c : Commitment)
      → get_elem? a.commitments j ≡ some c
      → is_page page c ≡ true
      → c.physical_base ≢ physical
      → Refused a page physical generation commit_overlap
  full : max_commitments ≤ a.commitment_count → Refused a page physical generation capacity

find_reservation-none :
    (a : Arena) (page : ℕ)
    → find_reservation a page ≡ none
    → All (λ r. (r.live && holds page r.base r.bytes) ≡ false) a.reservations
unfolding find_reservation
find_reservation-none a page e = find_slot-none _ a.reservations e

-- A page in a live reservation is one in the arena.
held-contains :
    (a : Arena) (r : Reservation) (slot page : ℕ)
    → IsValid a
    → get_elem? a.reservations slot ≡ some r
    → r.live ≡ true
    → Within r.base r.bytes page page_size
    → (contains a page page_size ≡ true) × (range_contains r.base r.bytes page page_size ≡ true)
unfolding contains
held-contains a r slot page v at live w =
    let own = owner-Within a r slot v at live in
    let f = v.fits in
    let valid = v.valid in
    let inside : Within a.base a.length page page_size = ground arith in
    let c = Within→contains a.base a.length page page_size inside in
    (ground arith, Within→contains r.base r.bytes page page_size w)

-- A new page in its reservation is refused only where the table is full.
new-Refused :
    (a : Arena) (page physical generation slot : ℕ) {r : Reservation}
    → IsValid a
    → PagesOnly a
    → 0 < generation
    → page % page_size ≡ 0
    → get_elem? a.reservations slot ≡ some r
    → r.live ≡ true
    → Within r.base r.bytes page page_size
    → find_slot (is_page page) a.commitments ≡ none
    → (enter a r (page_commitment slot page physical generation)).0 ≢ ok
    → Refused a page physical generation
        (enter a r (page_commitment slot page physical generation)).0
new-Refused a page physical generation slot {r} v q g aligned at live w f h =
    let n = page_commitment slot page physical generation in
    let fresh = find_slot-none _ a.commitments f in
    let entry : Enterable a r n = record {
      at = at;
      live = live;
      on = refl;
      within = w;
      dated = g;
      stated = refl;
      counted = inr (omega arith);
      apart = All-zip (λ c k p. page-Apart page c aligned k p) a.commitments q fresh;
    } in
    elim (Bool-cases (ltb a.commitment_count max_commitments)) [
      | inl t ↦ absurd (h (enter-ok a r n v entry (ground arith)))
      | inr u ↦
          let closed : (enter a r n).0 ≡ capacity = ground arith in
          subst (λ s. Refused a page physical generation s) (sym closed) (full (ground arith))
    ]

entered_status : (s : Status) (b : Arena) → (entered (s, b)).0 ≡ s
entered_status s b = refl

-- On a well-formed arena of page commitments, a refusal has its reason.
pub commit_page-Refused :
    (a : Arena) (page physical generation : ℕ)
    → IsValid a
    → PagesOnly a
    → (commit_page a page physical generation).0 ≢ ok
    → Refused a page physical generation (commit_page a page physical generation).0
unfolding commit_page
commit_page-Refused a page physical generation v q h =
    elim (Bool-cases (generation == 0 || physical == 0)) [
      | inl t ↦ because invalid_argument (ground arith) (unset (ground arith))
      | inr t ↦ elim (Bool-cases (not (page % page_size == 0) || not (physical % page_size == 0))) [
        | inl u ↦ because alignment (ground arith) (unaligned (ground arith))
        | inr u ↦ elim (Option-cases (find_reservation a page)) [
          | inl e ↦
              because commit_outside_reservation (ground arith)
                (unheld (find_reservation-none a page e))
          | inr ((slot, r), e) ↦
              let s = found_at a page e in
              let live : r.live ≡ true = ground arith in
              let own = owner-Within a r slot v s.0 live in
              elim (Bool-cases (
                not (contains a page page_size)
                || not (range_contains r.base r.bytes page page_size))) [
                  | inl w ↦ because commit_outside_reservation (ground arith) (
                      torn slot r s.0 s.1
                        (λ k. let c = held-contains a r slot page v s.0 live k in ground arith))
                  | inr w ↦
                      let inside : range_contains r.base r.bytes page page_size ≡ true =
                        ground arith in
                      elim (Option-cases (find_slot (is_page page) a.commitments)) [
                        | inr ((j, c), f) ↦
                            let k = find_slot-some _ a.commitments f in
                            because commit_overlap (ground arith)
                              (elsewhere j c k.0 k.1 (ground arith))
                        | inl f ↦
                            let n = page_commitment slot page physical generation in
                            let into : (commit_page a page physical generation).0
                                ≡ (enter a r n).0 =
                              ground arith in
                            because (enter a r n).0 into (
                              new-Refused a page physical generation slot v q (ground arith)
                                (ground arith) s.0 live
                                (contains→Within r.base r.bytes page page_size
                                  (omega (arith, own.0.1)) inside)
                                f (λ k. h (into ∙ k)))
                      ]
                ]
        ]
      ]
    ]
  where
    because :
        (s : Status)
        → (commit_page a page physical generation).0 ≡ s
        → Refused a page physical generation s
        → Refused a page physical generation (commit_page a page physical generation).0
    because s p k = subst (λ z. Refused a page physical generation z) (sym p) k
