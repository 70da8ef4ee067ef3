-- ===== src/Scheduler/Waiting.antt =====
-- The invariant where a wait is over and its record is released.
use guide_xos_net.Prelude.{
  ℕ, ◌≡◌, ◌≢◌, ◌⊎◌, inl, inr, refl, ap, ◌∙◌, true, false, not, ◌||◌, some, List, arith, ◌==◌,
  Bool-cases, Option-cases, if_cases, get_elem?, get_elem?-modify_cases,
}
use guide_xos_net.Scheduler.State.{
  WaitRecord, Scheduler, Object, WaitResult, wait_failure, empty_record, is_running, is_runnable,
  is_blocked, on_record, on_current,
}
use guide_xos_net.Scheduler.Waits.{release_wait_record}
use guide_xos_net.Scheduler.Calls.{finished, is_over, finish_wait}
use guide_xos_net.Scheduler.Inv.{RecordsFit, IsScheduled, IsScheduled-current}
use guide_xos_net.Scheduler.Yielding.{IsScheduled-touch}

-- What release_wait_record leaves alone: all but the record, if that is valid.
pub record Released (s s' : Scheduler) (j : ℕ) : Type 0 where
  pub threads : s'.threads ≡ s.threads
  pub queue : s'.runnable_queue ≡ s.runnable_queue
  pub current : s'.current ≡ s.current
  pub records :
      (k : ℕ) (r : WaitRecord)
      → get_elem? s'.wait_records k ≡ some r
      → r.waiter_linked ≡ true
      → (get_elem? s.wait_records k ≡ some r) × ((j ≢ k) ⊎ (r.valid ≡ false))

pub release-Released : (s : Scheduler) (j : ℕ) → Released s (release_wait_record s j) j
unfolding release_wait_record
release-Released s j = elim (Option-cases (get_elem? s.wait_records j)) [
  | inl n ↦ rw (release_wait_record, n) (same_state (λ r e. absurd (ground arith)))
  | inr (r, x) ↦
      rw (release_wait_record, x)
        (if_cases {A = Scheduler} (λ z. Released s z j) (not r.valid)
          (λ d.
            same_state
              (λ r' e. let q : r' ≡ r = ground arith in ap (λ z. z.valid) q ∙ ground arith))
          (λ d.
            if_cases {A = Scheduler} (λ z. Released s (on_record j (λ _. empty_record) z) j)
              r.pin_held
              (λ p. elim (Option-cases r.object) [ inl n ↦ rw n zeroed | inr (o, e) ↦ rw e zeroed ])
              (λ p. zeroed)))
]
  where
    same_state :
        ((r : WaitRecord) → get_elem? s.wait_records j ≡ some r → r.valid ≡ false) → Released s s j
    same_state f = record {
      threads = refl;
      queue = refl;
      current = refl;
      records = λ k r e l. (
        e,
        elim (Bool-cases (j == k)) [
          | inr ne ↦ inl (ground arith)
          | inl q ↦ inr (f r (ap (λ z. get_elem? s.wait_records z) (ground arith) ∙ e))
        ],
      );
    }

    zeroed :
        {n : ℕ} {os : List Object}
        → Released s
            (on_record j (λ _. empty_record) (record s { active_wait_count = n; objects = os }))
            j
    zeroed = record {
      threads = refl;
      queue = refl;
      current = refl;
      records = λ k r e l. elim (get_elem?-modify_cases s.wait_records j k (λ _. empty_record) e) [
        | inl (x, p, o, y) ↦ absurd (ground arith)
        | inr (ne, o) ↦ (o, inl ne)
      ];
    }

pub release-IsScheduled :
    (s : Scheduler) (j : ℕ) → IsScheduled s → IsScheduled (release_wait_record s j)
release-IsScheduled s j v =
    let r = release-Released s j in
    record {
      body = v.body;
      at =
          ap (λ x. get_elem? x (release_wait_record s j).current) r.threads
          ∙ ap (λ x. get_elem? s.threads x) r.current
          ∙ v.at;
      alive = v.alive;
      threads = rw (r.threads, r.queue, r.current) v.threads;
      records =
          rw r.threads (unfold RecordsFit in (λ k u e l. v.records k u (r.records k u e l).0 l));
    }

-- A wait that is over gives its record back.
pub finish_wait-IsScheduled :
    (s : Scheduler) (handle : ℕ) → IsScheduled s → IsScheduled (finish_wait s handle).1
unfolding finish_wait
finish_wait-IsScheduled s handle v =
    rw (finish_wait, v.at)
      (if_cases {A = WaitResult × Scheduler} (λ z. IsScheduled z.1)
        (not (is_over v.body.blocked_result)) (λ b. v)
        (λ b. elim (Option-cases v.body.wait_record) [
          | inl n ↦ rw n (
              IsScheduled-touch s
                (λ u. record u { blocked_object = 0; blocked_result = wait_failure }) v v.alive c.3
                c.1 c.0)
          | inr (j, x) ↦ elim (Option-cases (get_elem? s.wait_records j)) [
            | inl n ↦ rw (x, n) v
            | inr (r, y) ↦
                rw (x, y)
                  (if_cases {A = WaitResult × Scheduler} (λ z. IsScheduled z.1) (not r.valid || _)
                    (λ d. v)
                    (λ d.
                      release-IsScheduled (on_current finished s) j
                        (IsScheduled-touch s finished v v.alive c.3 c.1 c.0)))
          ]
        ]))
  where
    c :
        (is_running v.body.state ≡ true)
        × (is_runnable v.body.state ≡ false)
        × (is_blocked v.body.state ≡ false)
        × (v.body.runnable_queued ≡ false)
    c = IsScheduled-current s v
