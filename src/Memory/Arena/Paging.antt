-- ===== src/Memory/Arena/Paging.antt =====
-- `gxos_vm_arena_commit_page` and `gxos_vm_arena_decommit_page`, on an arena whose commitments are
-- pages.
use guide_xos_net.Prelude.{
  ℕ, ◌%◌, ◌≤◌, ◌≡◌, ◌≢◌, ◌⊎◌, inl, inr, refl, sym, ap, subst, ◌∙◌, true, false, ◌&&◌, some, arith,
  get_elem?, get_elem?-lt, get_elem?-set_self, All, All-zip, All-get, All-set, ◌==◌, find_slot,
  find_slot-some, find_slot-none, find_slot-set, Bool-cases, Option-cases,
}
use guide_xos_net.Memory.Ranges.{u64_max, page_size, Apart, range_contains, contains→Within}
use guide_xos_net.Memory.Arena.State.{
  Status, ok, invalid_argument, not_found, Reservation, Commitment, Arena, empty_commitment,
  find_reservation, holds,
}
use guide_xos_net.Memory.Arena.Commit.{
  book, unbook, enter, entered, is_page, page_commitment, commit_page, decommit_page,
}
use guide_xos_net.Memory.Arena.Valid.{ReservationOk, IsValid}
use guide_xos_net.Memory.Arena.Booking.{unbook-IsValid}
use guide_xos_net.Memory.Arena.Reserving.{Status-ok}
use guide_xos_net.Memory.Arena.Entering.{Enterable, enter-Entered, enter-IsValid, enter-refused}
use guide_xos_net.Memory.Arena.Decommitting.{Entry, live-Entry, IsTidy, unbook-book}

abbrev IsPage : Commitment → Type 0
IsPage c = (c.live ≡ false) ⊎ ((c.bytes ≡ page_size) × (c.base % page_size ≡ 0))

-- Every live commitment is one aligned page.
abbrev pub PagesOnly : Arena → Type 0
PagesOnly a = All IsPage a.commitments

-- The tests of `commit_page` before a new entry, and the entry.
pub record Mapped (a : Arena) (page physical generation : ℕ) : Type 0 where
  pub slot : ℕ
  pub owner : Reservation
  pub fresh : All (λ c. is_page page c ≡ false) a.commitments
  pub aligned : page % page_size ≡ 0
  pub entry : Enterable a owner (page_commitment slot page physical generation)
  pub result :
      commit_page a page physical generation
      ≡ entered (enter a owner (page_commitment slot page physical generation))

pub page-Apart :
    (page : ℕ) (c : Commitment)
    → page % page_size ≡ 0
    → IsPage c
    → is_page page c ≡ false
    → (c.live ≡ false) ⊎ Apart page page_size c.base c.bytes
page-Apart page c h k e = ground arith

pub found_at :
    (a : Arena) (address : ℕ) {i : ℕ} {r : Reservation}
    → find_reservation a address ≡ some (i, r)
    → (get_elem? a.reservations i ≡ some r) × ((r.live && holds address r.base r.bytes) ≡ true)
unfolding find_reservation
found_at a address e = find_slot-some (λ r. r.live && holds address r.base r.bytes) a.reservations e

-- On a well-formed arena of page commitments, `commit_page` fails and changes nothing, or finds
-- the page committed to the same physical page and changes nothing, or finds no commitment of the
-- page and enters a new one that lies in its reservation apart from every other.
pub commit_page_branches :
    (a : Arena) (page physical generation : ℕ)
    → IsValid a
    → PagesOnly a
    → (((commit_page a page physical generation).0 ≢ ok)
        × ((commit_page a page physical generation).1 ≡ false)
        × ((commit_page a page physical generation).2 ≡ a))
      ⊎ ((commit_page a page physical generation ≡ (ok, true, a))
          × ((j : ℕ) × (c : Commitment) × (get_elem? a.commitments j ≡ some c)
              × (is_page page c ≡ true)
              × (c.physical_base ≡ physical)))
      ⊎ Mapped a page physical generation
unfolding commit_page
commit_page_branches a page physical generation v q =
    elim (Status-ok (commit_page a page physical generation).0) [
      | inr h ↦ inl (h, ground arith, ground arith)
      | inl h ↦ elim (Option-cases (find_reservation a page)) [
        | inl e ↦ absurd (ground arith)
        | inr ((slot, r), e) ↦
            let s = found_at a page e in
            let live : r.live ≡ true = ground arith in
            let own = owner_length a r slot v s.0 live in
            let inside : range_contains r.base r.bytes page page_size ≡ true = ground arith in
            elim (Option-cases (find_slot (is_page page) a.commitments)) [
              | inr ((j, c), f) ↦
                  let t = find_slot-some _ a.commitments f in
                  inr (inl (ground arith, (j, c, t.0, t.1, ground arith)))
              | inl f ↦
                  let fresh = find_slot-none _ a.commitments f in
                  let aligned : page % page_size ≡ 0 = ground arith in
                  inr (
                    inr (record {
                      slot = slot;
                      owner = r;
                      fresh = fresh;
                      aligned = aligned;
                      entry = record {
                        at = s.0;
                        live = live;
                        on = refl;
                        within = contains→Within r.base r.bytes page page_size own inside;
                        dated = ground arith;
                        stated = refl;
                        counted = inr (omega arith);
                        apart =
                            All-zip (λ c k n. page-Apart page c aligned k n) a.commitments q fresh;
                      };
                      result = ground arith;
                    }))
            ]
      ]
    ]
  where
    owner_length :
        (a : Arena) (r : Reservation) (slot : ℕ)
        → IsValid a
        → get_elem? a.reservations slot ≡ some r
        → r.live ≡ true
        → r.bytes ≤ u64_max
    owner_length a r slot v at live =
        elim (All-get (ReservationOk a.base a.length) a.reservations slot v.reservations_formed
          at) [ inl d ↦ absurd (ground arith) | inr f ↦ let w = f.within in omega arith ]

entered-arena : (t : Status × Arena) → (entered t).2 ≡ t.1
entered-arena (s, a) = refl

entered-status : (t : Status × Arena) → (entered t).0 ≡ t.0
entered-status (s, a) = refl

pages :
    (a : Arena) (r : Reservation) (c : Commitment)
    → PagesOnly a
    → c.bytes ≡ page_size
    → c.base % page_size ≡ 0
    → PagesOnly (enter a r c).1
pages a r c q b k = elim (Status-ok (enter a r c).0) [
  | inr h ↦ rw (enter-refused a r c h) q
  | inl h ↦
      let p = enter-Entered a r c (omega arith) h in
      rw p.result (All-set IsPage a.commitments p.slot c (inr (b, k)) q)
]

-- Committing a page keeps an arena of pages well formed, and an arena of pages.
pub commit_page-IsValid :
    (a : Arena) (page physical generation : ℕ)
    → IsValid a
    → PagesOnly a
    → IsValid (commit_page a page physical generation).2
      × PagesOnly (commit_page a page physical generation).2
commit_page-IsValid a page physical generation v q =
    elim (commit_page_branches a page physical generation v q) [
      | inl (_, _, e) ↦ rw e (v, q)
      | inr c ↦ elim c [
        | inl (e, _) ↦ rw e (v, q)
        | inr m ↦
            let n = page_commitment m.slot page physical generation in
            rw (m.result, entered-arena (enter a m.owner n))
              (enter-IsValid a m.owner n v m.entry, pages a m.owner n q refl m.aligned)
      ]
    ]

-- On a well-formed arena `decommit_page` takes the first commitment of exactly the page off and
-- gives its physical page, and refuses an address off the page boundary and a page with no
-- commitment, changing nothing.
pub decommit_page_branches :
    (a : Arena) (page : ℕ)
    → IsValid a
    → ((page % page_size ≢ 0) × (decommit_page a page ≡ (invalid_argument, 0, a)))
      ⊎ ((page % page_size ≡ 0)
          × All (λ c. is_page page c ≡ false) a.commitments
          × (decommit_page a page ≡ (not_found, 0, a)))
      ⊎ ((j : ℕ) × (c : Commitment) × (get_elem? a.commitments j ≡ some c)
          × (is_page page c ≡ true)
          × (decommit_page a page ≡ (ok, c.physical_base, unbook a j c)))
unfolding decommit_page
decommit_page_branches a page v = elim (Bool-cases (page % page_size == 0)) [
  | inr p ↦ inl (ground arith, ground arith)
  | inl p ↦ inr (elim (Option-cases (find_slot (is_page page) a.commitments)) [
    | inl e ↦ inl (ground arith, find_slot-none _ a.commitments e, ground arith)
    | inr ((j, c), e) ↦
        let s = find_slot-some _ a.commitments e in
        let k = live-Entry a j c v s.0 (ground arith) in
        let l = get_elem?-lt a.reservations c.reservation_slot k.owner k.at in
        let n = v.reservation_slots in
        inr (
          j,
          c,
          s.0,
          s.1,
          ground (arith, k.at, k.live, k.some_bytes, k.some_entry, k.total, k.charged),
        )
  ])
]

-- `decommit_page` keeps a well-formed arena well formed, whatever it returns.
pub decommit_page-IsValid : (a : Arena) (page : ℕ) → IsValid a → IsValid (decommit_page a page).2
decommit_page-IsValid a page v = elim (decommit_page_branches a page v) [
  | inl (_, e) ↦ rw e v
  | inr c ↦ elim c [
    | inl (_, _, e) ↦ rw e v
    | inr (j, c, at, p, e) ↦
        let on : c.live ≡ true = ground arith in
        let k = live-Entry a j c v at on in rw e (unbook-IsValid a j c k.owner v at on k.at k.live)
  ]
]

-- On a well-formed arena of page commitments whose free slots hold zeros, decommitting a page that
-- was just newly committed gives its physical page back and restores the arena, field by field.
pub decommit_page-commit_page :
    (a : Arena) (page physical generation : ℕ)
    → IsValid a
    → PagesOnly a
    → IsTidy a
    → (commit_page a page physical generation).0 ≡ ok
    → (commit_page a page physical generation).1 ≡ false
    → decommit_page (commit_page a page physical generation).2 page ≡ (ok, physical, a)
decommit_page-commit_page a page physical generation v q t h fresh =
    elim (commit_page_branches a page physical generation v q) [
      | inl (n, _, _) ↦ absurd (n h)
      | inr c ↦ elim c [
        | inl (e, _) ↦ absurd (ground arith)
        | inr m ↦
            let n = page_commitment m.slot page physical generation in
            let w = m.entry.within in
            let status = subst (λ t. t.0 ≡ ok) m.result h in
            let e =
              enter-Entered a m.owner n (omega arith)
                (sym (entered-status (enter a m.owner n)) ∙ status) in
            let s = find_slot-some _ a.commitments e.at in
            let blank =
              All-get (λ c. (c.live ≡ true) ⊎ (c ≡ empty_commitment)) a.commitments e.slot t s.0 in
            let old : e.old ≡ empty_commitment = ground arith in
            let valid : IsValid (book a e.slot n) =
              subst (λ t. IsValid t.1) e.result (enter-IsValid a m.owner n v m.entry) in
            let room = get_elem?-lt a.commitments e.slot e.old s.0 in
            let found =
              find_slot-set (is_page page) a.commitments e.slot n m.fresh (ground arith) room in
            let k =
              live-Entry (book a e.slot n) e.slot n valid
                (get_elem?-set_self a.commitments e.slot n room) refl in
            let back =
              unbook-book a e.slot n m.owner v (s.0 ∙ ap some old) m.entry.at m.entry.live e.room
                e.total e.charge in
            rw (m.result, e.result)
              (decommitted (book a e.slot n) e.slot n valid m.aligned found k
                ∙ ap (λ x. (ok, physical, x)) back)
      ]
    ]
  where
    decommitted :
        (b : Arena) (j : ℕ) (c : Commitment)
        → IsValid b
        → page % page_size ≡ 0
        → find_slot (is_page page) b.commitments ≡ some (j, c)
        → Entry b c
        → decommit_page b page ≡ (ok, c.physical_base, unbook b j c)
    decommitted b j c v aligned found k =
        let s = find_slot-some _ b.commitments found in
        let l = get_elem?-lt b.reservations c.reservation_slot k.owner k.at in
        let n = v.reservation_slots in
        unfold decommit_page in
        ground (arith, k.at, k.live, k.some_bytes, k.some_entry, k.total, k.charged)
