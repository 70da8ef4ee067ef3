-- ===== src/Memory/CommitModel.antt =====
-- The commit model of src/Gate4Harness/memory_accounting.c, and the percentage of a snapshot. A model
-- is written through a pointer: on an error it stays what it was.
mod Tests
use guide_xos_net.Prelude.{
  ℕ, zero, suc, ◌+◌, ◌-◌, ◌*◌, ◌≤◌, ◌<◌, ◌≡◌, ◌⊎◌, inl, inr, refl, Bool, true, false, ◌||◌, Option,
  none, some, arith, ltb, leb, ◌==◌, if◌then◌else◌, Bool-cases, Option-cases, subst,
}
use native.Mathlib.Nat.{mul_comm}
use guide_xos_net.Memory.Ranges.{u64_max, u32, u64, add_u64}

pub data Status : Type 0 where
  ok invalid_argument overflow overcommit invalid_state : Status

pub record CommitModel : Type 0 where
  pub commit_limit : ℕ
  pub committed_bytes : ℕ
  pub available_commit : ℕ
  pub generation : ℕ
  pub valid : Bool
  pub no_pagefile : Bool

unfoldable pub create : CommitModel → ℕ → ℕ → ℕ → Status × CommitModel
create model commit_limit committed_bytes generation =
    if generation == 0
    then (invalid_argument, model)
    else if ltb commit_limit committed_bytes
    then (overcommit, model)
    else (
      ok,
      record {
        commit_limit = commit_limit;
        committed_bytes = committed_bytes;
        available_commit = commit_limit - committed_bytes;
        generation = generation;
        valid = true;
        no_pagefile = false;
      },
    )

abbrev pub without_pagefile : Status × CommitModel → Status × CommitModel
without_pagefile (ok, m) = (ok, record m { no_pagefile = true })
without_pagefile (s, m) = (s, m)

unfoldable pub create_no_pagefile : CommitModel → ℕ → ℕ → ℕ → ℕ → Status × CommitModel
create_no_pagefile model total available committed generation =
    if total == 0 || ltb total available
    then (invalid_argument, model)
    else elim (add_u64 available committed) [
      | none ↦ (overflow, model)
      | some limit ↦
          without_pagefile
            (create model (if ltb total limit then total else limit) committed generation)
    ]

-- A model without a page file is consistent: the limit is what is available and what is committed,
-- at most all of the memory, and what may still be committed is available.
pub record Bounded (total available committed : ℕ) (m : CommitModel) : Type 0 where
  pub valid : m.valid ≡ true
  pub no_pagefile : m.no_pagefile ≡ true
  pub booked : m.committed_bytes ≡ committed
  pub limit : m.commit_limit ≤ total
  pub rest : m.available_commit + committed ≡ m.commit_limit
  pub backed : m.available_commit ≤ available
  pub full : (m.available_commit ≡ available) ⊎ (m.commit_limit ≡ total)

-- From memory sizes that are sound and a generation `create_no_pagefile` returns OVERFLOW exactly where
-- the available and the committed bytes together exceed 64 bits. Where they do not, it returns
-- OVERCOMMIT if more is committed than there is memory, and OK otherwise. On an error it writes
-- nothing; on OK the model has a limit of at most the memory, which is what is committed and what is
-- left to commit, and what is left is backed by the available memory.
pub create_no_pagefile_cases :
    (m : CommitModel) (total available committed generation : ℕ)
    → available ≤ total
    → 0 < total
    → 0 < generation
    → committed ≤ u64_max
    → ((u64_max < available + committed)
        × (create_no_pagefile m total available committed generation ≡ (overflow, m)))
      ⊎ ((available + committed ≤ u64_max)
          × (total < committed)
          × (create_no_pagefile m total available committed generation ≡ (overcommit, m)))
      ⊎ ((available + committed ≤ u64_max)
          × (committed ≤ total)
          × ((create_no_pagefile m total available committed generation).0 ≡ ok)
          × Bounded total available committed
              (create_no_pagefile m total available committed generation).1)
unfolding create_no_pagefile create add_u64
create_no_pagefile_cases m total available committed generation a t g c =
    elim (Bool-cases (ltb u64_max (available + committed))) [
      | inl far ↦ inl (ground arith, ground arith)
      | inr near ↦ inr (elim (Bool-cases (ltb total committed)) [
        | inl more ↦ inl (ground arith, ground arith, ground arith)
        | inr fits ↦ inr (
          ground arith,
          ground arith,
          ground arith,
          record {
            valid = ground arith;
            no_pagefile = ground arith;
            booked = ground arith;
            limit = ground arith;
            rest = ground arith;
            backed = ground arith;
            full = ground arith;
          },
        )
      ])
    ]

-- The long multiplication of `percentage_100`.
pub record Division : Type 0 where
  pub quotient : ℕ
  pub remainder : ℕ

abbrev pub divide_step : ℕ → ℕ → Division → Division
divide_step used total d =
    if leb (total - used) d.remainder
    then record { quotient = u64 (d.quotient + 1); remainder = d.remainder - (total - used) }
    else record { quotient = d.quotient; remainder = u64 (d.remainder + used) }

unfoldable pub divide_rounds : ℕ → ℕ → ℕ → Division → Division
divide_rounds zero used total d = d
divide_rounds (suc n) used total d = divide_rounds n used total (divide_step used total d)

unfoldable pub percentage_100 : ℕ → ℕ → ℕ
percentage_100 used total =
    if total == 0 || ltb total used
    then 0
    else if used == total
    then 100
    else let d = divide_rounds 100 used total (record { quotient = 0; remainder = 0 }) in
      if ltb 100 d.quotient then 100 else u32 d.quotient

-- After `i` rounds.
record Divided (i used total : ℕ) (d : Division) : Type 0 where
  product : d.quotient * total + d.remainder ≡ i * used
  below : d.remainder < total
  small : d.quotient ≤ i

divide_step-Divided :
    (i used total : ℕ) (d : Division)
    → used < total
    → total ≤ u64_max
    → i < 100
    → Divided i used total d
    → Divided (suc i) used total (divide_step used total d)
divide_step-Divided i used total d u t k h =
    let p = h.product in
    let b = h.below in
    let s = h.small in
    let q : (d.quotient + 1) * total ≡ d.quotient * total + total = omega arith in
    let r : suc i * used ≡ i * used + used = omega arith in
    elim (Bool-cases (leb (total - used) d.remainder)) [
      | inl over ↦ rw over (record {
        product =
            (let w : u64 (d.quotient + 1) ≡ d.quotient + 1 = omega arith in rw w (ground arith));
        below = omega arith;
        small = omega arith;
      })
      | inr under ↦ rw under (record {
        product =
            (let w : u64 (d.remainder + used) ≡ d.remainder + used = ground arith in
              rw w (omega arith));
        below = ground arith;
        small = omega arith;
      })
    ]

divide_rounds-Divided :
    (n i j used total : ℕ) (d : Division)
    → used < total
    → total ≤ u64_max
    → j ≤ 100
    → n + i ≡ j
    → Divided i used total d
    → Divided j used total (divide_rounds n used total d)
unfolding divide_rounds
divide_rounds-Divided zero i j used total d u t k e h = subst (λ x. Divided x used total d) e' h
  where
    e' : i ≡ j
    e' = omega arith
divide_rounds-Divided (suc n) i j used total d u t k e h =
    divide_rounds-Divided n (suc i) j used total (divide_step used total d) u t k (omega arith)
      (divide_step-Divided i used total d u t (omega arith) h)

-- For sizes of 64 bits `percentage_100` is the largest whole percentage that the used part covers,
-- although 100 times the used part may exceed 64 bits.
pub percentage_100_lem :
    (used total : ℕ)
    → used ≤ total
    → 0 < total
    → total ≤ u64_max
    → (percentage_100 used total ≤ 100)
      × (percentage_100 used total * total ≤ 100 * used)
      × (100 * used < (percentage_100 used total + 1) * total)
unfolding percentage_100
percentage_100_lem used total u p t = elim (Bool-cases (used == total)) [
  | inl all ↦
      let e : percentage_100 used total ≡ 100 = ground arith in
      let same : used ≡ total = ground arith in rw e (omega arith, omega arith, omega arith)
  | inr part ↦
      let d = divide_rounds 100 used total (record { quotient = 0; remainder = 0 }) in
      let h =
        divide_rounds-Divided 100 0 100 used total (record { quotient = 0; remainder = 0 })
          (ground arith) t (omega arith) refl
          (record { product = ground arith; below = p; small = omega arith }) in
      let e : percentage_100 used total ≡ d.quotient = let s = h.small in ground arith in
      rw e (
        h.small,
        omega (arith, h.product),
        (let q : (d.quotient + 1) * total ≡ d.quotient * total + total = omega arith in
            omega (arith, h.product, h.below, q)),
      )
]
