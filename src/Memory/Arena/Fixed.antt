-- ===== src/Memory/Arena/Fixed.antt =====
-- `gxos_vm_arena_reserve_fixed`.
use guide_xos_net.Prelude.{
  ℕ, ◌+◌, ◌%◌, ◌<◌, ◌≡◌, ◌≢◌, ◌⊎◌, ◌↔◌, inl, inr, refl, ap, ◌∙◌, false, Option, none, some, List,
  arith, get_elem?, get_elem?-lt, get_elem?-set_self, set, modify, modify-eq-set, set-set,
  find_slot-some,
}
use guide_xos_net.Memory.Ranges.{page_round_bytes, page_round-covers, add_u64-some, u32}
use guide_xos_net.Memory.Arena.State.{Status, ok, Reservation, Arena, granularity}
use guide_xos_net.Memory.Arena.Reserve.{
  new_reservation, place, reserve, label, labelled, reserve_fixed,
}
use guide_xos_net.Memory.Arena.Valid.{IsValid}
use guide_xos_net.Memory.Arena.Placing.{place-IsValid}
use guide_xos_net.Memory.Arena.Reserving.{
  Reservable, Status-ok, reserve-checks, reserve-Placed, reserve-refused, reserve-ok_iff,
  new_formed, new_apart,
}

-- A request that can be reserved at a fixed base.
pub record FixedReservable (a : Arena) (base requested : ℕ) : Type 0 where
  pub positive : 0 < requested
  pub aligned : base % granularity ≡ 0
  pub rounds : page_round_bytes requested ≢ 0
  pub reservable : Reservable a base (page_round_bytes requested)

labelled-ok :
    (requested owner : ℕ) (t : Status × Option ℕ × Arena)
    → (labelled requested owner t).0 ≡ ok
    → t.0 ≡ ok
labelled-ok requested owner t h = ground arith

ok-labelled :
    (requested owner : ℕ) (t : Status × Option ℕ × Arena)
    → t.0 ≡ ok
    → (labelled requested owner t).0 ≡ ok
ok-labelled requested owner t h = ground arith

labelled-refused :
    (requested owner : ℕ) (t : Status × Option ℕ × Arena)
    → t.0 ≢ ok
    → labelled requested owner t ≡ t
labelled-refused requested owner t h = ground arith

fixed-checks :
    (a : Arena) (base requested kind owner generation : ℕ)
    → (reserve_fixed a base requested kind owner generation).0 ≡ ok
    → (0 < requested)
      × (base % granularity ≡ 0)
      × (page_round_bytes requested ≢ 0)
      × (reserve_fixed a base requested kind owner generation
          ≡ labelled requested owner (reserve a base (page_round_bytes requested) kind generation))
unfolding reserve_fixed
fixed-checks a base requested kind owner generation h = ground arith

fixed-passes :
    (a : Arena) (base requested kind owner generation : ℕ)
    → 0 < requested
    → base % granularity ≡ 0
    → page_round_bytes requested ≢ 0
    → reserve_fixed a base requested kind owner generation
      ≡ labelled requested owner (reserve a base (page_round_bytes requested) kind generation)
unfolding reserve_fixed
fixed-passes a base requested kind owner generation p q r = ground arith

fixed-cases :
    (a : Arena) (base requested kind owner generation : ℕ)
    → ((reserve_fixed a base requested kind owner generation).2 ≡ a)
      ⊎ (reserve_fixed a base requested kind owner generation
          ≡ labelled requested owner (reserve a base (page_round_bytes requested) kind generation))
unfolding reserve_fixed
fixed-cases a base requested kind owner generation = ground arith

labelled-keeps :
    (requested owner : ℕ) (a : Arena) (t : Status × Option ℕ × Arena)
    → (t.0 ≢ ok → (t.2 ≡ a) × (t.1 ≡ none))
    → (labelled requested owner t).0 ≢ ok
    → (labelled requested owner t).2 ≡ a
labelled-keeps requested owner a t k h = elim (Status-ok t.0) [
  | inl e ↦ absurd (h (ok-labelled requested owner t e))
  | inr n ↦ rw (labelled-refused requested owner t n) (k n).0
]

pub fixed-refused :
    (a : Arena) (base requested kind owner generation : ℕ)
    → (reserve_fixed a base requested kind owner generation).0 ≢ ok
    → (reserve_fixed a base requested kind owner generation).2 ≡ a
fixed-refused a base requested kind owner generation h =
    elim (fixed-cases a base requested kind owner generation) [
      | inl e ↦ e
      | inr e ↦ rw e (unlabelled e)
    ]
  where
    unlabelled :
        reserve_fixed a base requested kind owner generation
          ≡ labelled requested owner (reserve a base (page_round_bytes requested) kind generation)
        → (labelled requested owner (reserve a base (page_round_bytes requested) kind generation)).2
          ≡ a
    unlabelled e =
        labelled-keeps requested owner a
          (reserve a base (page_round_bytes requested) kind generation)
          (reserve-refused a base (page_round_bytes requested) kind generation) (rw e at h)

-- On a well-formed arena, with a generation other than 0, `reserve_fixed` returns OK exactly for
-- the requests that, rounded up to pages, can be reserved at the base, which must be a multiple of
-- 64 KiB.
pub reserve_fixed-ok_iff :
    (a : Arena) (base requested kind owner generation : ℕ)
    → IsValid a
    → 0 < generation
    → ((reserve_fixed a base requested kind owner generation).0 ≡ ok)
      ↔ FixedReservable a base requested
reserve_fixed-ok_iff a base requested kind owner generation v g = (forth, back)
  where
    forth :
        (reserve_fixed a base requested kind owner generation).0 ≡ ok
        → FixedReservable a base requested
    forth h =
        let (p, q, r, e) = fixed-checks a base requested kind owner generation h in
        record {
          positive = p;
          aligned = q;
          rounds = r;
          reservable = (reserve-ok_iff a base (page_round_bytes requested) kind generation v g).0 (
              labelled-ok requested owner
                (reserve a base (page_round_bytes requested) kind generation) (rw (← e) h));
        }

    back :
        FixedReservable a base requested
        → (reserve_fixed a base requested kind owner generation).0 ≡ ok
    back k =
        rw (fixed-passes a base requested kind owner generation k.positive k.aligned k.rounds) (
          ok-labelled requested owner (reserve a base (page_round_bytes requested) kind generation)
            ((reserve-ok_iff a base (page_round_bytes requested) kind generation v g).1
              k.reservable))

-- What a successful `reserve_fixed` writes, and where.
pub record FixedPlaced (a : Arena) (base requested kind owner generation : ℕ) : Type 0 where
  pub slot : ℕ
  pub total : ℕ
  pub old : Reservation
  pub at : get_elem? a.reservations slot ≡ some old
  pub dead : old.live ≡ false
  pub sum : total ≡ a.total_reserved_bytes + page_round_bytes requested
  pub result : reserve_fixed a base requested kind owner generation ≡ (
    ok,
    some slot,
    place a slot
        (label requested owner (new_reservation base (page_round_bytes requested) kind generation))
        total,
  )

pub reserve_fixed-FixedPlaced :
    (a : Arena) (base requested kind owner generation : ℕ)
    → (reserve_fixed a base requested kind owner generation).0 ≡ ok
    → FixedPlaced a base requested kind owner generation
reserve_fixed-FixedPlaced a base requested kind owner generation h =
    let c = fixed-checks a base requested kind owner generation h in
    let inner =
      labelled-ok requested owner (reserve a base (page_round_bytes requested) kind generation)
        (rw (← c.3) h) in
    let p = reserve-Placed a base (page_round_bytes requested) kind generation inner in
    let s = find_slot-some _ a.reservations p.at in
    record {
      slot = p.slot;
      total = p.total;
      old = p.old;
      at = s.0;
      dead = ground arith;
      sum = (add_u64-some a.total_reserved_bytes (page_round_bytes requested) p.sum).0;
      result =
          c.3
          ∙ ap (labelled requested owner) p.result
          ∙ ap
              (λ rs. (
                ok,
                some p.slot,
                record a {
                  reservations = rs;
                  reservation_count = u32 (a.reservation_count + 1);
                  total_reserved_bytes = p.total;
                },
              ))
              (relabel a.reservations p.slot p.old
                (new_reservation base (page_round_bytes requested) kind generation) s.0);
    }
  where
    relabel :
        (rs : List Reservation) (i : ℕ) (old n : Reservation)
        → get_elem? rs i ≡ some old
        → modify (set rs i n) i (label requested owner) ≡ set rs i (label requested owner n)
    relabel rs i old n at =
        modify-eq-set (set rs i n) i (label requested owner)
          (get_elem?-set_self rs i n (get_elem?-lt rs i old at))
        ∙ set-set rs i n (label requested owner n)

-- `reserve_fixed` keeps a well-formed arena well formed, whatever it returns.
pub reserve_fixed-IsValid :
    (a : Arena) (base requested kind owner generation : ℕ)
    → IsValid a
    → IsValid (reserve_fixed a base requested kind owner generation).2
reserve_fixed-IsValid a base requested kind owner generation v =
    elim (Status-ok (reserve_fixed a base requested kind owner generation).0) [
      | inl h ↦
          let c = fixed-checks a base requested kind owner generation h in
          let inner =
            labelled-ok requested owner
              (reserve a base (page_round_bytes requested) kind generation) (rw (← c.3) h) in
          let g = (reserve-checks a base (page_round_bytes requested) kind generation inner).3 in
          let k = (reserve_fixed-ok_iff a base requested kind owner generation v g).0 h in
          let p = reserve_fixed-FixedPlaced a base requested kind owner generation h in
          let f = new_formed a base (page_round_bytes requested) kind generation k.reservable g in
          rw p.result (
            place-IsValid a p.slot p.total p.old
              (label requested owner
                (new_reservation base (page_round_bytes requested) kind generation))
              v p.at p.dead refl refl
              (record {
                within = f.within;
                dated = g;
                requested = k.positive;
                covered = (page_round-covers requested k.rounds).1;
                committed = f.committed;
                stated = f.stated;
              })
              (new_apart a base (page_round_bytes requested) kind generation k.reservable)
              k.reservable.room p.sum)
      | inr h ↦ rw (fixed-refused a base requested kind owner generation h) v
    ]
