-- ===== src/Memory/Arena/PageEffects.antt =====
-- What `gxos_vm_arena_commit_page` does on every branch.
use guide_xos_net.Prelude.{
  ℕ, ◌+◌, ◌%◌, ◌≤◌, ◌≡◌, ◌≢◌, ◌⊎◌, inl, inr, refl, sym, ap, subst, ◌∙◌, true, false, some, arith,
  get_elem?, find_slot-some, Written, set-Written, modify-Written, All,
}
use guide_xos_net.Memory.Ranges.{page_size}
use guide_xos_net.Memory.Arena.State.{Status, ok, Reservation, Commitment, Arena, state_committed}
use guide_xos_net.Memory.Arena.Commit.{charge, book, enter, entered, page_commitment, commit_page}
use guide_xos_net.Memory.Arena.Valid.{IsValid}
use guide_xos_net.Memory.Arena.Reserving.{Status-ok}
use guide_xos_net.Memory.Arena.Entering.{Enterable, Entered, enter-Entered, enter-refused}
use guide_xos_net.Memory.Arena.Decommitting.{is_range}
use guide_xos_net.Memory.Arena.Paging.{PagesOnly, commit_page_branches}
use guide_xos_net.Memory.Arena.Refusing.{Refused, commit_page-Refused}

-- A page is committed anew: at a slot that was free stands a live commitment of the page, with its
-- physical page and generation, which names a live reservation that holds the page; the count, the total
-- and the charge of that reservation are more by it, and nothing else differs.
pub record PageCommitted (a b : Arena) (page physical generation : ℕ) : Type 0 where
  pub slot : ℕ
  pub old : Commitment
  pub at : get_elem? a.commitments slot ≡ some old
  pub was_free : old.live ≡ false
  pub entry : Commitment
  pub written : Written a.commitments b.commitments slot entry
  pub live : entry.live ≡ true
  pub based : entry.base ≡ page
  pub sized : entry.bytes ≡ page_size
  pub backed : entry.physical_base ≡ physical
  pub dated : entry.generation ≡ generation
  pub stated : entry.state ≡ state_committed
  pub owner : Reservation
  pub named : get_elem? a.reservations entry.reservation_slot ≡ some owner
  pub held : owner.live ≡ true
  pub within : (owner.base ≤ page) × (page + page_size ≤ owner.base + owner.bytes)
  pub charged : Reservation
  pub debited : Written a.reservations b.reservations entry.reservation_slot charged
  pub kept : charged ≡ record owner {
    committed_bytes = owner.committed_bytes + page_size;
    state = state_committed;
  }
  pub count : b.commitment_count ≡ a.commitment_count + 1
  pub total : b.total_committed_bytes ≡ a.total_committed_bytes + page_size
  pub rest : b ≡ record a {
    commitments = b.commitments;
    reservations = b.reservations;
    commitment_count = b.commitment_count;
    total_committed_bytes = b.total_committed_bytes;
  }

book-PageCommitted :
    (a : Arena) (r : Reservation) (i page physical generation : ℕ)
    → Enterable a r (page_commitment i page physical generation)
    → (e : Entered a r (page_commitment i page physical generation))
    → PageCommitted a
        (book a e.slot (page_commitment i page physical generation))
        page
        physical
        generation
book-PageCommitted a r i page physical generation f e =
    let s = find_slot-some _ a.commitments e.at in
    let w = f.within in
    let room = e.room in
    let total = e.total in
    let charged = e.charge in
    record {
      slot = e.slot;
      old = e.old;
      at = s.0;
      was_free = ground arith;
      entry = page_commitment i page physical generation;
      written = set-Written a.commitments e.slot (page_commitment i page physical generation) s.0;
      live = refl;
      based = refl;
      sized = refl;
      backed = refl;
      dated = refl;
      stated = refl;
      owner = r;
      named = f.at;
      held = f.live;
      within = (w.2, w.3);
      charged = charge page_size r;
      debited = modify-Written a.reservations i (charge page_size) f.at;
      kept = ap (λ n. record r { committed_bytes = n; state = state_committed }) (omega arith);
      count = omega arith;
      total = omega arith;
      rest = refl;
    }

-- On a well-formed arena of page commitments, `commit_page` fails and changes nothing; or it returns OK
-- for a page that is committed to the same physical page already, and changes nothing; or it returns OK
-- for an aligned page with no commitment, and commits that page anew: a slot that was free gets the
-- entry, and the count, the total and the charge of its reservation grow by it. It fails only with
-- INVALID_ARGUMENT where the generation or the physical page is 0; with ALIGNMENT where an address is
-- off the page boundary; with COMMIT_OUTSIDE_RESERVATION where no live reservation holds the address or
-- one that does has not the whole page; with COMMIT_OVERLAP where the page is committed to another physical page; and
-- with CAPACITY where as many commitments are live as there are slots.
pub commit_page_cases :
    (a : Arena) (page physical generation : ℕ)
    → IsValid a
    → PagesOnly a
    → (((commit_page a page physical generation).0 ≢ ok)
        × Refused a page physical generation (commit_page a page physical generation).0
        × ((commit_page a page physical generation).1 ≡ false)
        × ((commit_page a page physical generation).2 ≡ a))
      ⊎ ((commit_page a page physical generation ≡ (ok, true, a))
          × ((j : ℕ) × (c : Commitment) × (get_elem? a.commitments j ≡ some c)
              × (is_range page page_size c ≡ true)
              × (c.physical_base ≡ physical)))
      ⊎ (((commit_page a page physical generation).0 ≡ ok)
          × ((commit_page a page physical generation).1 ≡ false)
          × (page % page_size ≡ 0)
          × All (λ c. is_range page page_size c ≡ false) a.commitments
          × PageCommitted a (commit_page a page physical generation).2 page physical generation)
commit_page_cases a page physical generation v q =
    elim (commit_page_branches a page physical generation v q) [
      | inl (h, b, k) ↦ inl (h, commit_page-Refused a page physical generation v q h, b, k)
      | inr c ↦ elim c [
        | inl d ↦ inr (inl d)
        | inr m ↦
            let n = page_commitment m.slot page physical generation in
            let t = enter a m.owner n in
            elim (Status-ok t.0) [
              | inr h ↦
                  let failed : (commit_page a page physical generation).0 ≢ ok =
                    λ e. h (sym (ap (λ z. z.0) m.result ∙ entered_at t.0 t.1) ∙ e) in
                  inl (
                    failed,
                    commit_page-Refused a page physical generation v q failed,
                    ap (λ z. z.1) m.result,
                    ap (λ z. z.2) m.result ∙ enter-refused a m.owner n h,
                  )
              | inl h ↦
                  let e = enter-Entered a m.owner n (omega arith) h in
                  let done : commit_page a page physical generation ≡ (ok, false, book a e.slot n) =
                    m.result ∙ ap entered e.result in
                  inr (
                    inr (
                      ap (λ z. z.0) done,
                      ap (λ z. z.1) done,
                      m.aligned,
                      m.fresh,
                      subst (λ z. PageCommitted a z.2 page physical generation) (sym done)
                          (book-PageCommitted a m.owner m.slot page physical generation m.entry e),
                    ))
            ]
      ]
    ]
  where
    entered_at : (s : Status) (b : Arena) → (entered (s, b)).0 ≡ s
    entered_at s b = refl
