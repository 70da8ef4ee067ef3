-- ===== src/Memory/Arena/Scanning.antt =====
-- The inner loop of `gxos_vm_arena_reserve_any` over the reservations.
use guide_xos_net.Prelude.{
  ℕ, ◌+◌, ◌-◌, ◌%◌, ◌≤◌, ◌<◌, ◌≡◌, ◌⊎◌, inl, inr, refl, Bool, true, false, Option, some, List, [],
  ◌∷◌, arith, length, All, Bool-cases,
}
use native.Mathlib.Decide.{dec_lt}
use mathlib.Core.Bool.{true≢false}
use guide_xos_net.Memory.Ranges.{
  u64_max, Fits, Apart, range_end-some, ranges_overlap, overlap-false, overlap-true, align_up_u64,
}
use guide_xos_net.Memory.Arena.State.{Status, Reservation, Arena, granularity}
use guide_xos_net.Memory.Arena.Reserve.{go, scan_one, scan}
use guide_xos_net.Memory.Arena.Valid.{ReservationOk}

abbrev pub Clear : ℕ → ℕ → Reservation → Type 0
Clear c n r = (r.live ≡ false) ⊎ Apart c n r.base r.bytes

-- An aligned place in the arena that is apart from every live reservation.
pub record Fit (a : Arena) (bytes c : ℕ) : Type 0 where
  pub aligned : c % granularity ≡ 0
  pub above : a.base ≤ c
  pub below : c + bytes ≤ a.base + a.length
  pub apart : All (λ r. (r.live ≡ false) ⊎ Apart c bytes r.base r.bytes) a.reservations

-- The lowest one.
pub record FirstFit (a : Arena) (bytes c : ℕ) : Type 0 where
  pub fit : Fit a bytes c
  pub lowest : (d : ℕ) → d < c → ¬ Fit a bytes d

pub align_up_lem :
    (v : ℕ)
    → v + granularity ≤ u64_max
    → (n : ℕ) × (align_up_u64 v granularity ≡ some n)
      × (v ≤ n)
      × (n < v + granularity)
      × (n % granularity ≡ 0)
unfolding align_up_u64
align_up_lem v h = (
  v + (granularity - 1) - (v + (granularity - 1)) % granularity,
  ground arith,
  omega arith,
  omega arith,
  omega arith,
)

-- One round: it goes on, and only a reservation that meets the candidate changes anything.
pub scan_one-goes :
    (base length c n : ℕ) (r : Reservation) (conflict : Bool) (next : ℕ)
    → Fits base length
    → base + length + granularity ≤ u64_max
    → ReservationOk base length r
    → Fits c n
    → ((scan_one c n r conflict next ≡ go conflict next) × Clear c n r)
      ⊎ ((m : ℕ) × (scan_one c n r conflict next ≡ go true m)
          × (r.live ≡ true)
          × (c < r.base + r.bytes)
          × (r.base < c + n)
          × ((m ≡ next) × (r.base + r.bytes ≤ next)
              ⊎ (next < r.base + r.bytes)
                × (r.base + r.bytes ≤ m)
                × (m < r.base + r.bytes + granularity)
                × (m % granularity ≡ 0)))
scan_one-goes base length c n r conflict next f room (inl dead) g =
    inl (unfold scan_one in ground arith, inl dead)
scan_one-goes base length c n r conflict next f room (inr k) g = elim (Bool-cases r.live) [
  | inr dead ↦ inl (unfold scan_one in ground arith, inl dead)
  | inl live ↦
      let fits : Fits r.base r.bytes = k.within.1 in
      let end = range_end-some r.base r.bytes fits in
      elim (Bool-cases (ranges_overlap c n r.base r.bytes)) [
        | inr clear ↦
            inl (unfold scan_one in ground arith, inr (overlap-false c n r.base r.bytes clear).2)
        | inl meets ↦
            let o = overlap-true c n r.base r.bytes g fits meets in
            elim (dec_lt next (r.base + r.bytes)) [
              | no p ↦
                  inr
                    (next, unfold scan_one in ground arith, live, o.0, o.1, inl (refl, omega arith))
              | yes p ↦
                  let (m, e, lo, hi, md) =
                    align_up_lem (r.base + r.bytes) (omega (arith, k.within)) in
                  inr (m, unfold scan_one in ground arith, live, o.0, o.1, inr (p, lo, hi, md))
            ]
      ]
]

-- No aligned place that a round skips is clear.
pub skipped :
    (r : Reservation) (c n next m d : ℕ)
    → r.live ≡ true
    → c < r.base + r.bytes
    → r.base < c + n
    → (m ≡ next) × (r.base + r.bytes ≤ next)
      ⊎ (next < r.base + r.bytes)
        × (r.base + r.bytes ≤ m)
        × (m < r.base + r.bytes + granularity)
        × (m % granularity ≡ 0)
    → d % granularity ≡ 0
    → c ≤ d
    → next ≤ d
    → d < m
    → Clear d n r
    → ⊥
skipped r c n next m d live meet start move p q u early z = ground arith

-- The whole inner loop, from any point of it.
pub scan-goes :
    (base length c n : ℕ) (rs : List Reservation) (conflict : Bool) (next : ℕ)
    → Fits base length
    → base + length + granularity ≤ u64_max
    → All (ReservationOk base length) rs
    → Fits c n
    → next % granularity ≡ 0
    → c ≤ next
    → (conflict ≡ true → c < next)
    → (conflict' : Bool) × (next' : ℕ) × (scan c n rs conflict next ≡ go conflict' next')
      × (next' % granularity ≡ 0)
      × (next ≤ next')
      × (conflict' ≡ true → c < next')
      × (conflict' ≡ false → (conflict ≡ false) × All (Clear c n) rs)
      × ((d : ℕ) → d % granularity ≡ 0 → c ≤ d → next ≤ d → d < next' → All (Clear d n) rs → ⊥)
unfolding scan
scan-goes base length c n [] conflict next f room k g al le mv =
    (conflict, next, refl, al, omega arith, mv, (λ e. (e, tt)), (λ d _ _ p q _. omega arith))
scan-goes base length c n (r ∷ rs) conflict next f room k g al le mv =
    elim (scan_one-goes base length c n r conflict next f room k.0 g) [
      | inl (e, clear) ↦
          let (cf, nx, s, al', le', mv', cl, bl) =
            scan-goes base length c n rs conflict next f room k.1 g al le mv in
          (
            cf,
            nx,
            rw (e, scan) s,
            al',
            le',
            mv',
            (λ z. ((cl z).0, (clear, (cl z).1))),
            (λ d p q u w z. bl d p q u w z.1),
          )
      | inr (m, e, live, meet, start, move) ↦
          let (cf, nx, s, al', le', mv', cl, bl) =
            scan-goes base length c n rs true m f room k.1 g (omega arith) (omega arith)
              (λ _. omega arith) in
          (
            cf,
            nx,
            rw (e, scan) s,
            al',
            omega arith,
            mv',
            (λ z. absurd (true≢false (cl z).0)),
            (λ d p q u w z. elim (dec_lt d m) [
              | yes early ↦ skipped r c n next m d live meet start move p q u early z.0
              | no late ↦ bl d p q (omega arith) w z.1
            ]),
          )
    ]

abbrev pub Result : Type 0
Result = Option (Status × Option ℕ × Option ℕ × Arena)

-- The outcome: the lowest fit is reserved, or there is none.
