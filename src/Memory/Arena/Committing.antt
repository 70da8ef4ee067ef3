-- ===== src/Memory/Arena/Committing.antt =====
-- `gxos_vm_arena_commit`: what it accepts, and that it keeps the arena well formed.
use guide_xos_net.Prelude.{
  ℕ, ◌<◌, ◌≡◌, ◌≢◌, ◌⊎◌, ◌↔◌, inl, inr, refl, subst, true, false, ◌&&◌, List, arith, All-map,
  All-zip, All-get, any, any-false, All→any-false, find_slot, find_slot-some, find_slot-none,
  Option-cases,
}
use guide_xos_net.Memory.Ranges.{
  Fits, Apart, ranges_overlap, overlap-false, overlap_of_Apart, contains→Within, Within→contains,
  range_contains,
}
use guide_xos_net.Memory.Arena.State.{ok, Reservation, Commitment, Arena}
use guide_xos_net.Memory.Arena.Commit.{enter, commit, new_commitment}
use guide_xos_net.Memory.Arena.Valid.{CommitmentOk, IsValid}
use guide_xos_net.Memory.Arena.Reserving.{Status-ok}
use guide_xos_net.Memory.Arena.Entering.{
  Committable, Enterable, enter-Entered, owner-Within, enter-ok, enter-IsValid,
}

-- Whether one live entry, or none, is in the way of a range.
pub overlap-Apart :
    (base bytes : ℕ) (c : Commitment)
    → (c.live && ranges_overlap base bytes c.base c.bytes) ≡ false
    → (c.live ≡ false) ⊎ Apart base bytes c.base c.bytes
overlap-Apart base bytes c h = ground (arith, overlap-false base bytes c.base c.bytes)

Apart-overlap :
    (rs : List Reservation) (base bytes : ℕ) (c : Commitment)
    → Fits base bytes
    → CommitmentOk rs c
    → (c.live ≡ false) ⊎ Apart base bytes c.base c.bytes
    → (c.live && ranges_overlap base bytes c.base c.bytes) ≡ false
Apart-overlap rs base bytes c f (inl d) h = ground arith
Apart-overlap rs base bytes c f (inr k) (inl d) = ground arith
Apart-overlap rs base bytes c f (inr k) (inr p) =
    let w = k.within in ground (arith, overlap_of_Apart base bytes c.base c.bytes)

-- The tests before the entry, and the entry.
pub record Chosen (a : Arena) (base bytes generation : ℕ) : Type 0 where
  pub slot : ℕ
  pub owner : Reservation
  pub entry : Enterable a owner (new_commitment slot base bytes generation)
  pub result :
      commit a base bytes generation ≡ enter a owner (new_commitment slot base bytes generation)

pub commit-Chosen :
    (a : Arena) (base bytes generation : ℕ)
    → IsValid a
    → (commit a base bytes generation).0 ≡ ok
    → Chosen a base bytes generation
unfolding commit
commit-Chosen a base bytes generation v h =
    elim (Option-cases
      (find_slot (λ r. r.live && range_contains r.base r.bytes base bytes) a.reservations)) [
        | inl e ↦ absurd (ground arith)
        | inr ((slot, r), e) ↦
            let s = find_slot-some _ a.reservations e in
            let live : r.live ≡ true = ground arith in
            let inside : range_contains r.base r.bytes base bytes ≡ true = ground arith in
            let own = owner-Within a r slot v s.0 live in
            let clear : any (λ c. c.live && ranges_overlap base bytes c.base c.bytes) a.commitments
                ≡ false =
              ground arith in
            record {
              slot = slot;
              owner = r;
              entry = record {
                at = s.0;
                live = live;
                on = refl;
                within = contains→Within r.base r.bytes base bytes (omega (arith, own.0.1)) inside;
                dated = ground arith;
                stated = refl;
                counted = inl refl;
                apart =
                    All-map (λ c p. overlap-Apart base bytes c p) a.commitments
                      (any-false _ a.commitments clear);
              };
              result = ground arith;
            }
      ]

pub commit-refused :
    (a : Arena) (base bytes generation : ℕ)
    → (commit a base bytes generation).0 ≢ ok
    → (commit a base bytes generation).1 ≡ a
unfolding commit
commit-refused a base bytes generation h = ground arith

-- `commit` keeps a well-formed arena well formed, whatever it returns.
pub commit-IsValid :
    (a : Arena) (base bytes generation : ℕ) → IsValid a → IsValid (commit a base bytes generation).1
commit-IsValid a base bytes generation v = elim (Status-ok (commit a base bytes generation).0) [
  | inr h ↦ rw (commit-refused a base bytes generation h) v
  | inl h ↦
      let p = commit-Chosen a base bytes generation v h in
      rw p.result (enter-IsValid a p.owner (new_commitment p.slot base bytes generation) v p.entry)
]

-- On a well-formed arena, with a generation other than 0, `commit` returns OK exactly for the
-- ranges that lie inside one live reservation and are apart from every live commitment, while a
-- slot is free.
pub commit-ok_iff :
    (a : Arena) (base bytes generation : ℕ)
    → IsValid a
    → 0 < generation
    → ((commit a base bytes generation).0 ≡ ok) ↔ Committable a base bytes
commit-ok_iff a base bytes generation v g = (forth, back)
  where
    forth : (commit a base bytes generation).0 ≡ ok → Committable a base bytes
    forth h =
        let p = commit-Chosen a base bytes generation v h in
        let e = p.entry in
        let w = e.within in
        let q =
          enter-Entered a p.owner (new_commitment p.slot base bytes generation) (omega arith)
            (subst (λ t. t.0 ≡ ok) p.result h) in
        record {
          slot = p.slot;
          owner = p.owner;
          at = e.at;
          live = e.live;
          within = e.within;
          apart = e.apart;
          room = q.room;
        }

    back : Committable a base bytes → (commit a base bytes generation).0 ≡ ok
    back k =
        let clear =
          All→any-false (λ c. c.live && ranges_overlap base bytes c.base c.bytes) a.commitments
            (All-zip (λ c f p. Apart-overlap a.reservations base bytes c k.within.1 f p)
              a.commitments v.commitments_formed k.apart) in
        let w = k.within in
        elim (Option-cases
          (find_slot (λ r. r.live && range_contains r.base r.bytes base bytes) a.reservations)) [
            | inl e ↦
                let l = k.live in
                let i = Within→contains k.owner.base k.owner.bytes base bytes w in
                let n =
                  All-get (λ r. (r.live && range_contains r.base r.bytes base bytes) ≡ false)
                    a.reservations k.slot (find_slot-none _ a.reservations e) k.at in
                absurd (ground arith)
            | inr ((slot, r), e) ↦
                let s = find_slot-some _ a.reservations e in
                let live : r.live ≡ true = ground arith in
                let own = owner-Within a r slot v s.0 live in
                let entry : Enterable a r (new_commitment slot base bytes generation) = record {
                  at = s.0;
                  live = live;
                  on = refl;
                  within =
                      contains→Within r.base r.bytes base bytes (omega (arith, own.0.1))
                        (ground arith);
                  dated = g;
                  stated = refl;
                  counted = inl refl;
                  apart = k.apart;
                } in
                let t = enter-ok a r (new_commitment slot base bytes generation) v entry k.room in
                let valid = v.valid in unfold commit in ground arith
          ]
