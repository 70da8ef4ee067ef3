-- ===== src/Scheduler/Picking.antt =====
-- The round of the table in which the next thread is chosen.
use guide_xos_net.Prelude.{
  ℕ, zero, suc, ◌+◌, ◌-◌, ◌%◌, ◌<◌, ◌≡◌, ◌⊎◌, inl, inr, refl, ap, subst, ◌∙◌, true, false, none,
  some, List, arith, Bool-cases, get_elem?,
}
use guide_xos_net.Scheduler.State.{Thread, max_threads}
use guide_xos_net.Scheduler.Queue.{may_run, pick_from, pick_next_runnable}

-- The first offset at which a thread may run, and that none before does.
record Picked (ts : List Thread) (current offset n : ℕ) (i : ℕ) : Type 0 where
  pub distance : ℕ
  pub within : distance < n
  pub place : i ≡ (current + (offset + distance)) % max_threads
  pub able : may_run (get_elem? ts i) ≡ true
  pub passed :
      (k : ℕ)
      → k < distance
      → may_run (get_elem? ts ((current + (offset + k)) % max_threads)) ≡ false

pick_from_cases :
    (n : ℕ) (ts : List Thread) (current offset : ℕ)
    → ((i : ℕ) × (pick_from n ts current offset ≡ some i) × Picked ts current offset n i)
      ⊎ ((pick_from n ts current offset ≡ none)
          × ((k : ℕ)
              → k < n
              → may_run (get_elem? ts ((current + (offset + k)) % max_threads)) ≡ false))
unfolding pick_from
pick_from_cases zero ts current offset = inr (refl, λ k h. absurd (omega arith))
pick_from_cases (suc n) ts current offset =
    elim (Bool-cases (may_run (get_elem? ts ((current + offset) % max_threads)))) [
      | inl y ↦ inl (
        (current + offset) % max_threads,
        rw y refl,
        record {
          distance = 0;
          within = omega arith;
          place = ap (λ x. x % max_threads) (omega arith);
          able = y;
          passed = λ k h. absurd (omega arith);
        },
      )
      | inr f ↦ elim (pick_from_cases n ts current (offset + 1)) [
        | inl (i, e, p) ↦ inl (
          i,
          rw f e,
          record {
            distance = suc p.distance;
            within = omega (arith, p.within);
            place = p.place ∙ ap (λ x. x % max_threads) (omega arith);
            able = p.able;
            passed = λ k h. earlier f (λ m l. p.passed m l) k h;
          },
        )
        | inr (e, g) ↦ inr (rw f e, λ k h. earlier f g k h)
      ]
    ]
  where
    earlier :
        {m : ℕ}
        → may_run (get_elem? ts ((current + offset) % max_threads)) ≡ false
        → ((k : ℕ)
            → k < m
            → may_run (get_elem? ts ((current + (offset + 1 + k)) % max_threads)) ≡ false)
        → (k : ℕ) → k < suc m
        → may_run (get_elem? ts ((current + (offset + k)) % max_threads)) ≡ false
    earlier f g zero h = ap (λ x. may_run (get_elem? ts (x % max_threads))) (omega arith) ∙ f
    earlier f g (suc k) h =
        ap (λ x. may_run (get_elem? ts (x % max_threads))) (omega arith) ∙ g k (omega arith)

-- Of the slots after the current thread, in the order of the table and round to the thread itself, the
-- first that may run is picked; if some thread of the table may run, one is picked.
pub pick_next-fair :
    (ts : List Thread) (current i : ℕ)
    → current < max_threads
    → i < max_threads
    → may_run (get_elem? ts i) ≡ true
    → (j : ℕ) × (distance : ℕ) × (pick_next_runnable ts current ≡ some j)
      × (distance < max_threads)
      × (j ≡ (current + (1 + distance)) % max_threads)
      × (may_run (get_elem? ts j) ≡ true)
      × ((k : ℕ)
          → k < distance
          → may_run (get_elem? ts ((current + (1 + k)) % max_threads)) ≡ false)
unfolding pick_next_runnable
pick_next-fair ts current i c h able = elim (pick_from_cases max_threads ts current 1) [
  | inl (j, e, p) ↦ (j, p.distance, e, p.within, p.place, p.able, p.passed)
  | inr (e, none_may) ↦
      let k = (i + (11 - current)) % 6 in
      let back : (current + (1 + k)) % max_threads ≡ i = omega arith in
      let stuck = none_may k (omega arith) in
      absurd (refuted (subst (λ x. may_run (get_elem? ts x) ≡ false) back stuck))
]
  where
    refuted : may_run (get_elem? ts i) ≡ false → ⊥
    refuted stuck = ground arith
