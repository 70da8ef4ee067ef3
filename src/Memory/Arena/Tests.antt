-- ===== src/Memory/Arena/Tests.antt =====
-- Runs of the arena's operations, and the theorems at those runs.
use guide_xos_net.Prelude.{Option}
use guide_xos_net.Prelude.{
  ◌%◌, any, find_slot, ℕ, ◌+◌, ◌≤◌, ◌<◌, ◌≡◌, ◌≢◌, ◌⊎◌, ◌↔◌, inl, inr, refl, true, false, some, All,
  All-replicate, arith, get_elem?,
}
use guide_xos_net.Memory.Ranges.{add_u64, u64_max, page_size, page_round_bytes}
use guide_xos_net.Memory.Arena.State.{Status}
use guide_xos_net.Memory.Arena.State.{
  contains, find_reservation, Arena, Reservation, Commitment, ok, invalid_argument, not_found,
  committed_reservation, init, available, granularity, max_reservations, max_commitments,
  empty_reservation, empty_commitment,
}
use guide_xos_net.Memory.Arena.Reserve.{reserve, reserve_fixed, reserve_any, release}
use guide_xos_net.Memory.Arena.Commit.{commit, commit_page, decommit_page, decommit}
use guide_xos_net.Memory.Arena.Valid.{IsValid, init-IsValid}
use guide_xos_net.Memory.Arena.Tables.{available-add-reserved}
use guide_xos_net.Memory.Arena.Reserving.{Reservable, reserve-ok_iff, reserve-IsValid}
use guide_xos_net.Memory.Arena.Fixed.{FixedReservable, reserve_fixed-ok_iff}
use guide_xos_net.Memory.Arena.Releasing.{release-reserve, IsClean}
use guide_xos_net.Memory.Arena.FirstFit.{Searched, reserve_any-first_fit}
use guide_xos_net.Memory.Arena.Entering.{Committable}
use guide_xos_net.Memory.Arena.Committing.{commit-ok_iff, commit-IsValid}
use guide_xos_net.Memory.Arena.Decommitting.{IsTidy, is_range, decommit-IsValid, decommit-commit}
use guide_xos_net.Memory.Arena.Paging.{PagesOnly, commit_page-IsValid, decommit_page-commit_page}
use guide_xos_net.Memory.Arena.Validate.{validate}
use guide_xos_net.Memory.Arena.Deciding.{arena_validate_iff}
use guide_xos_net.Memory.Arena.Effects.{
  Uncommitted, Unreserved, decommit_cases, decommit_page_cases, release_cases,
}
use guide_xos_net.Memory.Arena.PageEffects.{PageCommitted, commit_page_cases}
use guide_xos_net.Memory.Arena.Refusing.{Refused}
use guide_xos_net.Memory.Arena.Reach.{here, next, by_reserve, by_commit, Reach-validate}

abbrev base : ℕ
base = 0x400000000000

-- The arena that the loader sets up.
abbrev fresh : Arena
fresh = init base 0x40000000 1

fresh-IsValid : IsValid fresh
fresh-IsValid = init-IsValid base 0x40000000 1 (omega arith, omega arith) (omega arith)

-- With one reservation of 64 KiB.
abbrev reserved : Arena
reserved = (reserve fresh base 0x10000 1 1).2

reserved-IsValid : IsValid reserved
reserved-IsValid = reserve-IsValid fresh base 0x10000 1 1 fresh-IsValid

reserved_ok : (reserve fresh base 0x10000 1 1).0 ≡ ok
unfolding reserve init contains any add_u64 find_slot
reserved_ok = refl

reserved_slot : (reserve fresh base 0x10000 1 1).1 ≡ some 0
unfolding reserve init contains any add_u64 find_slot
reserved_slot = refl

-- And a commitment of its first two pages.
abbrev committed : Arena
committed = (commit reserved base 0x2000 1).1

committed-IsValid : IsValid committed
committed-IsValid = commit-IsValid reserved base 0x2000 1 reserved-IsValid

committed_ok : (commit reserved base 0x2000 1).0 ≡ ok
unfolding commit reserve init contains any add_u64 find_slot
committed_ok = refl

paged_ok : (commit_page reserved base 0x200000 1).0 ≡ ok
unfolding commit_page reserve init contains any add_u64 find_slot find_reservation
paged_ok = refl

paged_fresh : (commit_page reserved base 0x200000 1).1 ≡ false
unfolding commit_page reserve init contains any add_u64 find_slot find_reservation
paged_fresh = refl

fresh-IsClean : IsClean fresh
unfolding init
fresh-IsClean =
    All-replicate (λ r. (r.live ≡ true) ⊎ (r ≡ empty_reservation)) max_reservations
      empty_reservation (inr refl)

reserved-IsTidy : IsTidy reserved
unfolding init reserve contains any add_u64 find_slot
reserved-IsTidy =
    All-replicate (λ c. (c.live ≡ true) ⊎ (c ≡ empty_commitment)) max_commitments empty_commitment
      (inr refl)

reserved_pages : PagesOnly reserved
unfolding init reserve contains any add_u64 find_slot
reserved_pages =
    All-replicate (λ c. (c.live ≡ false) ⊎ ((c.bytes ≡ page_size) × (c.base % page_size ≡ 0)))
      max_commitments empty_commitment (inl refl)

-- The witnesses.
arena_validate_iff_example : (validate committed ≡ true) ↔ IsValid committed
arena_validate_iff_example = arena_validate_iff committed (
  committed-IsValid.reservation_slots,
  committed-IsValid.commitment_slots,
  omega (arith, committed-IsValid.fits),
)

reserve-ok_iff_example :
    ((reserve reserved (base + 0x10000) 0x1000 1 1).0 ≡ ok)
    ↔ Reservable reserved (base + 0x10000) 0x1000
reserve-ok_iff_example =
    reserve-ok_iff reserved (base + 0x10000) 0x1000 1 1 reserved-IsValid (omega arith)

reserve-IsValid_example : IsValid (reserve reserved (base + 0x8000) 0x10000 1 1).2
reserve-IsValid_example = reserve-IsValid reserved (base + 0x8000) 0x10000 1 1 reserved-IsValid

reserve_fixed-ok_iff_example :
    ((reserve_fixed reserved (base + 0x20000) 5000 1 7 1).0 ≡ ok)
    ↔ FixedReservable reserved (base + 0x20000) 5000
reserve_fixed-ok_iff_example =
    reserve_fixed-ok_iff reserved (base + 0x20000) 5000 1 7 1 reserved-IsValid (omega arith)

rounds : page_round_bytes 5000 ≢ 0
unfolding page_round_bytes
rounds e = ground arith

reserved_room : reserved.base + reserved.length + granularity ≤ u64_max
unfolding reserve init contains any add_u64 find_slot
reserved_room = omega arith

reserve_any-first_fit_example :
    Searched reserved (page_round_bytes 5000) 5000 1 7 1 (reserve_any reserved 5000 1 7 1)
reserve_any-first_fit_example =
    reserve_any-first_fit reserved 5000 1 7 1 reserved-IsValid reserved_room (omega arith) rounds

release_cases_example :
    ((max_reservations ≤ 0) × (release committed 0 ≡ (invalid_argument, committed)))
    ⊎ ((r : Reservation) × (get_elem? committed.reservations 0 ≡ some r)
        × ((r.live ≡ false) × (release committed 0 ≡ (not_found, committed))
            ⊎ (r.live ≡ true)
              × (0 < r.committed_bytes)
              × (release committed 0 ≡ (committed_reservation, committed))
            ⊎ (r.live ≡ true)
              × (r.committed_bytes ≡ 0)
              × ((release committed 0).0 ≡ ok)
              × Unreserved committed (release committed 0).1 0 r))
release_cases_example = release_cases committed 0 committed-IsValid

release-reserve_example : release (reserve fresh base 0x10000 1 1).2 0 ≡ (ok, fresh)
release-reserve_example =
    release-reserve fresh base 0x10000 1 1 0 fresh-IsValid fresh-IsClean reserved_ok reserved_slot

available-add-reserved_example :
    available reserved + reserved.total_reserved_bytes ≡ reserved.length
available-add-reserved_example = available-add-reserved reserved reserved-IsValid

commit-ok_iff_example :
    ((commit committed (base + 0x2000) 0x1000 1).0 ≡ ok)
    ↔ Committable committed (base + 0x2000) 0x1000
commit-ok_iff_example =
    commit-ok_iff committed (base + 0x2000) 0x1000 1 committed-IsValid (omega arith)

commit-IsValid_example : IsValid (commit committed (base + 0x1000) 0x2000 1).1
commit-IsValid_example = commit-IsValid committed (base + 0x1000) 0x2000 1 committed-IsValid

decommit-IsValid_example : IsValid (decommit committed base 0x2000).1
decommit-IsValid_example = decommit-IsValid committed base 0x2000 committed-IsValid

decommit_cases_example :
    ((◌≡◌ {A = ℕ} 0x2000 0) × (decommit committed base 0x2000 ≡ (invalid_argument, committed)))
    ⊎ ((0 < 0x2000)
        × All (λ c. is_range base 0x2000 c ≡ false) committed.commitments
        × (decommit committed base 0x2000 ≡ (not_found, committed)))
    ⊎ ((j : ℕ) × (c : Commitment) × (get_elem? committed.commitments j ≡ some c)
        × (c.live ≡ true)
        × (c.base ≡ base)
        × (c.bytes ≡ 0x2000)
        × ((k : ℕ) (d : Commitment)
            → k < j
            → get_elem? committed.commitments k ≡ some d
            → is_range base 0x2000 d ≡ false)
        × ((decommit committed base 0x2000).0 ≡ ok)
        × Uncommitted committed (decommit committed base 0x2000).1 j c)
decommit_cases_example = decommit_cases committed base 0x2000 committed-IsValid

decommit-commit_example : decommit (commit reserved base 0x2000 1).1 base 0x2000 ≡ (ok, reserved)
decommit-commit_example =
    decommit-commit reserved base 0x2000 1 reserved-IsValid reserved-IsTidy committed_ok

commit_page_cases_example :
    (((commit_page reserved base 0x200000 1).0 ≢ ok)
      × Refused reserved base 0x200000 1 (commit_page reserved base 0x200000 1).0
      × ((commit_page reserved base 0x200000 1).1 ≡ false)
      × ((commit_page reserved base 0x200000 1).2 ≡ reserved))
    ⊎ ((commit_page reserved base 0x200000 1 ≡ (ok, true, reserved))
        × ((j : ℕ) × (c : Commitment) × (get_elem? reserved.commitments j ≡ some c)
            × (is_range base page_size c ≡ true)
            × (c.physical_base ≡ 0x200000)))
    ⊎ (((commit_page reserved base 0x200000 1).0 ≡ ok)
        × ((commit_page reserved base 0x200000 1).1 ≡ false)
        × (base % page_size ≡ 0)
        × All (λ c. is_range base page_size c ≡ false) reserved.commitments
        × PageCommitted reserved (commit_page reserved base 0x200000 1).2 base 0x200000 1)
commit_page_cases_example =
    commit_page_cases reserved base 0x200000 1 reserved-IsValid reserved_pages

commit_page-IsValid_example :
    IsValid (commit_page reserved base 0x200000 1).2
    × PagesOnly (commit_page reserved base 0x200000 1).2
commit_page-IsValid_example =
    commit_page-IsValid reserved base 0x200000 1 reserved-IsValid reserved_pages

decommit_page_cases_example :
    ((base % page_size ≢ 0) × (decommit_page committed base ≡ (invalid_argument, 0, committed)))
    ⊎ ((base % page_size ≡ 0)
        × All (λ c. is_range base page_size c ≡ false) committed.commitments
        × (decommit_page committed base ≡ (not_found, 0, committed)))
    ⊎ ((j : ℕ) × (c : Commitment) × (get_elem? committed.commitments j ≡ some c)
        × (c.live ≡ true)
        × (c.base ≡ base)
        × (c.bytes ≡ page_size)
        × ((k : ℕ) (d : Commitment)
            → k < j
            → get_elem? committed.commitments k ≡ some d
            → is_range base page_size d ≡ false)
        × ((decommit_page committed base).0 ≡ ok)
        × ((decommit_page committed base).1 ≡ c.physical_base)
        × Uncommitted committed (decommit_page committed base).2 j c)
decommit_page_cases_example = decommit_page_cases committed base committed-IsValid

decommit_page-commit_page_example :
    decommit_page (commit_page reserved base 0x200000 1).2 base ≡ (ok, 0x200000, reserved)
decommit_page-commit_page_example =
    decommit_page-commit_page reserved base 0x200000 1 reserved-IsValid reserved_pages
      reserved-IsTidy paged_ok paged_fresh

Reach-validate_example :
    (validate committed ≡ true)
    × (committed.total_committed_bytes ≤ committed.total_reserved_bytes)
    × (committed.total_reserved_bytes ≤ committed.length)
    × ((bytes kind owner date : ℕ)
        → (t : Status × Option ℕ × Option ℕ × Arena) × (reserve_any committed bytes kind owner date
            ≡ some t))
Reach-validate_example =
    Reach-validate base 0x40000000 1 committed (omega arith, omega arith) (omega arith)
      (next (next here (by_reserve base 0x10000 1 1)) (by_commit base 0x2000 1))
