-- ===== src/Memory/Arena/FirstFit.antt =====
-- `gxos_vm_arena_reserve_any` finds the lowest place where the request fits, or there is none.
use guide_xos_net.Prelude.{
  ℕ, zero, suc, ◌+◌, ◌-◌, ◌%◌, ◌≤◌, ◌<◌, ◌≡◌, ◌≢◌, ◌⊎◌, inl, inr, sym, false, ◌&&◌, Option, none,
  some, arith, leb, Bool-cases,
}
use native.Mathlib.Decide.{dec_lt}
use mathlib.Core.Bool.{true≢false}
use guide_xos_net.Memory.Ranges.{
  u64_max, Fits, range_end-some, align_up_u64, page_round_bytes, page_round-covers,
}
use guide_xos_net.Memory.Arena.State.{Status, outside_arena, Arena, granularity}
use guide_xos_net.Memory.Arena.Reserve.{with_base, search_from, reserve_fixed, reserve_any}
use guide_xos_net.Memory.Arena.Valid.{IsValid}
use guide_xos_net.Memory.Arena.Scanning.{Fit, FirstFit, align_up_lem, scan-goes}

abbrev pub Searched :
    Arena → ℕ → ℕ → ℕ → ℕ → ℕ → Option (Status × Option ℕ × Option ℕ × Arena) → Type 0
Searched a bytes requested kind owner generation r =
    ((c : ℕ) × FirstFit a bytes c
      × (r ≡ some (with_base c (reserve_fixed a c requested kind owner generation))))
    ⊎ ((c : ℕ) → Fit a bytes c → ⊥) × (r ≡ some (outside_arena, none, none, a))

search_from-finds :
    (fuel : ℕ) (a : Arena) (bytes requested kind owner generation c : ℕ)
    → IsValid a
    → a.base + a.length + granularity ≤ u64_max
    → 0 < bytes
    → 0 < fuel
    → a.base + a.length + 1 < fuel + c
    → a.base ≤ c
    → c % granularity ≡ 0
    → ((d : ℕ) → d < c → Fit a bytes d → ⊥)
    → Searched a bytes requested kind owner generation
        (search_from fuel a bytes (a.base + a.length) requested kind owner generation c)
unfolding search_from
search_from-finds zero a bytes requested kind owner generation c v room pos f0 f1 ab al no_fit =
    absurd (omega arith)
search_from-finds (suc fuel) a bytes requested kind owner generation c v room pos f0 f1 ab al
      no_fit =
    elim (Bool-cases (leb c (a.base + a.length) && leb bytes (a.base + a.length - c))) [
      | inr out ↦ inr (none_fits out, rw (out, search_from))
      | inl inside ↦
          let g : Fits c bytes = ground arith in
          let (cf, nx, s, al', le', mv, cl, bl) =
            scan-goes a.base a.length c bytes a.reservations false c v.fits room
              v.reservations_formed g al (omega arith) (λ e. absurd (true≢false (sym e))) in
          elim (Bool-cases cf) [
            | inr calm ↦ inl (
              c,
              record {
                fit = record {
                  aligned = al;
                  above = ab;
                  below = ground arith;
                  apart = (cl calm).1;
                };
                lowest = no_fit;
              },
              ground arith,
            )
            | inl conflict ↦
                let forward = mv conflict in
                let again : search_from (suc fuel) a bytes (a.base + a.length) requested kind owner
                      generation c
                    ≡ search_from fuel a bytes (a.base + a.length) requested kind owner generation
                        nx =
                  ground arith in
                rw again (
                  search_from-finds fuel a bytes requested kind owner generation nx v room pos
                    (ground arith) (omega arith) (omega arith) al'
                    (λ d lt k. elim (dec_lt d c) [
                      | yes p ↦ no_fit d p k
                      | no p ↦ bl d k.aligned (omega arith) (omega arith) lt k.apart
                    ]))
          ]
    ]
  where
    none_fits :
        (leb c (a.base + a.length) && leb bytes (a.base + a.length - c)) ≡ false
        → (d : ℕ) → Fit a bytes d
        → ⊥
    none_fits out d k = elim (dec_lt d c) [
      | yes p ↦ no_fit d p k
      | no p ↦ let b = k.below in ground arith
    ]

-- On a well-formed arena that ends 64 KiB below the top of the address space, for a request that
-- rounds up to pages and a generation other than 0, `reserve_any` always returns. It calls
-- `reserve_fixed` at the lowest 64 KiB boundary where the request, rounded up to pages, lies in
-- the arena apart from every live reservation, and gives that base if the call returns OK; or it
-- reports OUTSIDE_ARENA with the arena as it was, and then there is no such place.
pub reserve_any-first_fit :
    (a : Arena) (requested kind owner generation : ℕ)
    → IsValid a
    → a.base + a.length + granularity ≤ u64_max
    → 0 < generation
    → page_round_bytes requested ≢ 0
    → Searched a
        (page_round_bytes requested)
        requested
        kind
        owner
        generation
        (reserve_any a requested kind owner generation)
reserve_any-first_fit a requested kind owner generation v room g rounds =
    let covers = page_round-covers requested rounds in
    let (c, e, lo, hi, al) = align_up_lem a.base (omega arith) in
    rw (searches c e covers.0) (
      search_from-finds (a.base + a.length + 2) a (page_round_bytes requested) requested kind owner
        generation c v room (omega arith) (omega arith) (omega arith) lo al
        (λ d lt k. below_base c d hi al lt k.aligned k.above))
  where
    searches :
        (c : ℕ)
        → align_up_u64 a.base granularity ≡ some c
        → 0 < requested
        → reserve_any a requested kind owner generation
          ≡ search_from
              (a.base + a.length + 2)
              a
              (page_round_bytes requested)
              (a.base + a.length)
              requested
              kind
              owner
              generation
              c
    searches c e p =
        let end = range_end-some a.base a.length v.fits in
        let valid = v.valid in unfold reserve_any in ground arith

    below_base :
        (c d : ℕ)
        → c < a.base + granularity
        → c % granularity ≡ 0
        → d < c
        → d % granularity ≡ 0
        → a.base ≤ d
        → ⊥
    below_base c d hi al lt ad ab = omega arith
