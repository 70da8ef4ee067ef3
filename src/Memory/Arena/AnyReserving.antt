-- ===== src/Memory/Arena/AnyReserving.antt =====
-- `gxos_vm_arena_reserve_any` with any arguments: it ends, and the invariant is kept.
use guide_xos_net.Prelude.{
  ℕ, zero, suc, ◌+◌, ◌-◌, ◌≤◌, ◌<◌, ◌⊎◌, ◌≡◌, inl, inr, refl, sym, subst, Bool, true, false, not,
  ◌&&◌, ◌||◌, Option, none, some, arith, leb, ◌==◌, if_cases, Bool-cases, Option-cases,
}
use guide_xos_net.Memory.Ranges.{page_round_bytes, range_end, align_up_u64}
use guide_xos_net.Memory.Arena.State.{Arena, Status, granularity}
use guide_xos_net.Memory.Arena.Reserve.{
  Scan, stop, go, scan, with_base, search_from, reserve_fixed, reserve_any,
}
use guide_xos_net.Memory.Arena.Valid.{IsValid}
use guide_xos_net.Memory.Arena.Fixed.{reserve_fixed-IsValid}

-- There is a result, and its arena is well formed.
Kept : Option (Status × Option ℕ × Option ℕ × Arena) → Type 0
Kept none = ⊥
Kept (some t) = IsValid t.3

Scan-cases : (o : Scan) → ((s : Status) × (o ≡ stop s)) ⊎ ((c : Bool) × (n : ℕ) × (o ≡ go c n))
Scan-cases (stop s) = inl (s, refl)
Scan-cases (go c n) = inr (c, n, refl)

with_base-arena : (base : ℕ) (t : Status × Option ℕ × Arena) → (with_base base t).3 ≡ t.2
with_base-arena base t = ground arith

-- The candidate rises with each round up to the end of the arena, so the fuel is enough.
search_from-Kept :
    (fuel : ℕ) (a : Arena) (reserved arena_end requested kind owner generation candidate : ℕ)
    → IsValid a
    → 0 < fuel
    → arena_end + 2 ≤ fuel + candidate
    → Kept (search_from fuel a reserved arena_end requested kind owner generation candidate)
unfolding search_from Kept
search_from-Kept zero a reserved arena_end requested kind owner generation candidate v some_fuel
      enough =
    absurd (omega arith)
search_from-Kept (suc fuel) a reserved arena_end requested kind owner generation candidate v
      some_fuel enough =
    elim (Bool-cases (leb candidate arena_end && leb reserved (arena_end - candidate))) [
      | inr out ↦ rw (search_from, out) v
      | inl inside ↦ elim (Scan-cases (scan candidate reserved a.reservations false candidate)) [
        | inl (s, e) ↦ rw (search_from, inside, e) v
        | inr (true, n, e) ↦ elim (Bool-cases (leb n candidate)) [
          | inl stuck ↦ rw (search_from, inside, e, stuck) v
          | inr up ↦
              let below : candidate ≤ arena_end = ground arith in
              let more : candidate < n = ground arith in
              rw (search_from, inside, e, up)
                (search_from-Kept fuel a reserved arena_end requested kind owner generation n v
                  (omega arith) (omega arith))
        ]
        | inr (false, n, e) ↦
            rw (search_from, inside, e)
              (subst IsValid
                (sym (
                  with_base-arena candidate
                    (reserve_fixed a candidate requested kind owner generation)))
                (reserve_fixed-IsValid a candidate requested kind owner generation v))
      ]
    ]

reserve_any-Kept :
    (a : Arena) (requested kind owner generation : ℕ)
    → IsValid a
    → Kept (reserve_any a requested kind owner generation)
unfolding reserve_any Kept
reserve_any-Kept a requested kind owner generation v =
    if_cases {A = Option (Status × Option ℕ × Option ℕ × Arena)} Kept
      (requested == 0 || (not a.valid || generation == 0)) (λ b. v)
      (λ b.
        if_cases {A = Option (Status × Option ℕ × Option ℕ × Arena)} Kept
          (page_round_bytes requested == 0) (λ c. v)
          (λ c. elim (Option-cases (range_end a.base a.length)) [
            | inl e ↦ rw e v
            | inr (arena_end, e) ↦ elim (Option-cases (align_up_u64 a.base granularity)) [
              | inl f ↦ rw (e, f) v
              | inr (candidate, f) ↦
                  rw (e, f)
                    (search_from-Kept (arena_end + 2) a (page_round_bytes requested) arena_end
                      requested kind owner generation candidate v (omega arith) (omega arith))
            ]
          ]))

-- Whatever its arguments, `reserve_any` ends.
pub reserve_any_ends :
    (a : Arena) (requested kind owner generation : ℕ)
    → IsValid a
    → (t : Status × Option ℕ × Option ℕ × Arena) × (reserve_any a requested kind owner generation
        ≡ some t)
unfolding Kept
reserve_any_ends a requested kind owner generation v =
    elim (Option-cases (reserve_any a requested kind owner generation)) [
      | inl e ↦ absurd (subst Kept e (reserve_any-Kept a requested kind owner generation v))
      | inr t ↦ t
    ]

-- And keeps the arena well formed.
pub reserve_any-IsValid :
    (a : Arena) (requested kind owner generation : ℕ) (t : Status × Option ℕ × Option ℕ × Arena)
    → IsValid a
    → reserve_any a requested kind owner generation ≡ some t
    → IsValid t.3
unfolding Kept
reserve_any-IsValid a requested kind owner generation t v e =
    subst Kept e (reserve_any-Kept a requested kind owner generation v)
