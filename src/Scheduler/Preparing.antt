-- ===== src/Scheduler/Preparing.antt =====
-- The invariant under a prepared wait.
use guide_xos_net.Prelude.{
  ℕ, ◌+◌, ◌%◌, ◌^◌, ◌≡◌, ◌⊎◌, inl, inr, refl, sym, subst, ◌∙◌, Bool, true, false, not, ◌&&◌, ◌||◌,
  Option, none, some, [], ◌∷◌, ◌++◌, arith, length, leb, ◌==◌, if◌then◌else◌, Option-cases,
  if_cases, is_none, any, find_slot, find_slot-some, get_elem?, get_elem?-modify_self,
}
use guide_xos_net.Scheduler.State.{
  Thread, WaitRecord, Scheduler, Event, Object, WaitResult, wait_signaled, empty_record, is_running,
  max_waiters, on_record, on_event, on_object, on_current, u32_max,
}
use guide_xos_net.Scheduler.Handles.{type_notification}
use guide_xos_net.Scheduler.Objects.{lookup_object}
use guide_xos_net.Scheduler.Waits.{
  add_waiter, linked_at, waits_already, next_wait_generation_of, allocate_wait_record,
  release_wait_record,
}
use guide_xos_net.Scheduler.Events.{target_event, validate_open_event_handle, take_legacy}
use guide_xos_net.Scheduler.Registration.{
  result_is, disarmed, repinned, drop_linked, link_wait, link_answer, filled_for, register_wait,
  prepare_wait_record,
}
use guide_xos_net.Scheduler.Inv.{IsScheduled, IsScheduled-current}
use guide_xos_net.Scheduler.Yielding.{IsScheduled-touch}
use guide_xos_net.Scheduler.Waking.{IsScheduled-record, IsScheduled-same, remove_waiter-IsScheduled}
use guide_xos_net.Scheduler.Waiting.{release-IsScheduled}
use guide_xos_net.Scheduler.Blocking.{block_on-IsScheduled}

-- A record is appended to the waiters, or nothing is done.
add_waiter_cases :
    (s : Scheduler) (e j : ℕ)
    → (add_waiter s e j ≡ (false, s))
      ⊎ ((n : ℕ) × (f : Event → Event) × (add_waiter s e j
            ≡ (true, on_event e f (on_record j (linked_at n) s))))
unfolding add_waiter
add_waiter_cases s e j = elim (Option-cases (get_elem? s.events e)) [
  | inl n ↦ inl (rw (add_waiter, n) refl)
  | inr (ev, x) ↦ elim (Option-cases (get_elem? s.wait_records j)) [
    | inl n ↦ inl (rw (add_waiter, x, n) refl)
    | inr (r, y) ↦
        rw (add_waiter, x, y)
          (if_cases {A = Bool × Scheduler}
            (λ z.
              (z ≡ (false, s))
              ⊎ ((n : ℕ) × (f : Event → Event) × (z
                    ≡ (true, on_event e f (on_record j (linked_at n) s)))))
            (leb max_waiters (length ev.waiters) || r.waiter_linked) (λ b. inl refl)
            (λ b.
              if_cases {A = Bool × Scheduler}
                (λ z.
                  (z ≡ (false, s))
                  ⊎ ((n : ℕ) × (f : Event → Event) × (z
                        ≡ (true, on_event e f (on_record j (linked_at n) s)))))
                (any (waits_already s.wait_records j r) ev.waiters) (λ c. inl refl)
                (λ c.
                  inr (
                    length ev.waiters,
                    (λ v. record v { waiters = v.waiters ++ (j ∷ []) }),
                    refl,
                  ))))
  ]
]

drop_linked-IsScheduled :
    (s : Scheduler) (e j : ℕ) → IsScheduled s → IsScheduled (drop_linked s e j)
drop_linked-IsScheduled s e j v = elim (Option-cases (get_elem? s.wait_records j)) [
  | inl n ↦ rw (drop_linked, n) v
  | inr (r, x) ↦
      rw (drop_linked, x)
        (if_cases {A = Scheduler} (λ z. IsScheduled z) r.waiter_linked
          (λ l. remove_waiter-IsScheduled s e r.waiter_index v) (λ l. v))
]

-- A record that is taken is zero but for these fields.
abbrev fresh : ℕ → WaitRecord
fresh generation = record empty_record {
  valid = true;
  generation = generation;
  waiter_index = u32_max;
}

abbrev taken : Scheduler → ℕ → ℕ → ℕ → Scheduler
taken s j generation next =
    on_record j (λ _. fresh generation) (record s { next_wait_generation = next })

allocate_cases :
    (s : Scheduler)
    → (allocate_wait_record s ≡ none)
      ⊎ ((j : ℕ) × (generation : ℕ) × (next : ℕ) × (old : WaitRecord) × (get_elem? s.wait_records j
            ≡ some old)
          × (allocate_wait_record s ≡ some (j, taken s j generation next)))
unfolding allocate_wait_record
allocate_cases s = elim (Option-cases (find_slot (λ r. not r.valid) s.wait_records)) [
  | inl n ↦ inl (rw (allocate_wait_record, n) refl)
  | inr ((j, old), x) ↦
      let g = next_wait_generation_of s.next_wait_generation in
      inr (
        j,
        g.0,
        g.1,
        old,
        (find_slot-some (λ r. not r.valid) s.wait_records x).0,
        rw (allocate_wait_record, x) refl,
      )
]

result_is-IsScheduled :
    (w : WaitResult) (s : Scheduler) → IsScheduled s → IsScheduled (on_current (result_is w) s)
result_is-IsScheduled w s v =
    let c = IsScheduled-current s v in IsScheduled-touch s (result_is w) v v.alive c.3 c.1 c.0

-- The record is a valid one of the current thread.
link_wait-IsScheduled :
    (s : Scheduler) (handle e j : ℕ) (signaled : Bool) {r : WaitRecord}
    → IsScheduled s
    → get_elem? s.wait_records j ≡ some r
    → r.valid ≡ true
    → r.thread ≡ some s.current
    → IsScheduled (link_wait s handle e j signaled).2
unfolding link_wait link_answer
link_wait-IsScheduled s handle e j true v at valid owner =
    result_is-IsScheduled wait_signaled (release_wait_record (drop_linked s e j) j)
      (release-IsScheduled (drop_linked s e j) j (drop_linked-IsScheduled s e j v))
link_wait-IsScheduled s handle e j false v at valid owner = elim (add_waiter_cases s e j) [
  | inl n ↦
      rw (link_wait, n, link_answer)
        (release-IsScheduled (drop_linked s e j) j (drop_linked-IsScheduled s e j v))
  | inr (n, f, x) ↦
      rw (link_wait, x, link_answer) (block_on-IsScheduled s handle e j n f v at valid owner)
]

register_wait-IsScheduled :
    (s : Scheduler) (handle : ℕ) (t : Thread) (object_at : ℕ) (o : Object) (e : ℕ) (ev : Event)
    (armed : Bool) (deadline : ℕ)
    → IsScheduled s
    → IsScheduled (register_wait s handle t object_at o e ev armed deadline).2
unfolding register_wait
register_wait-IsScheduled s handle t object_at o e ev armed deadline v =
    if_cases {A = WaitResult × Option ℕ × Scheduler} (λ z. IsScheduled z.2)
      (not o.live || o.internal_refs == 0) (λ b. v)
      (λ b. elim (allocate_cases s1) [
        | inl n ↦ rw n (IsScheduled-same s _ refl refl refl refl v)
        | inr (j, generation, next, old, at, x) ↦
            let s2 = taken s1 j generation next in
            let f = filled_for t s.current o object_at o.slot e armed deadline in
            let at2 : get_elem? s2.wait_records j ≡ some (fresh generation) =
              get_elem?-modify_self s.wait_records j (λ _. fresh generation) at in
            let v2 : IsScheduled s2 =
              IsScheduled-record (record s1 { next_wait_generation = next }) j
                (λ _. fresh generation) (IsScheduled-same s _ refl refl refl refl v)
                (λ r a l. absurd (ground arith)) in
            rw x (
              link_wait-IsScheduled (on_record j f s2) handle e j ev.signaled
                (IsScheduled-record s2 j f v2
                  (λ r a l. absurd (unlinked_one generation (sym at2 ∙ a) l)))
                (get_elem?-modify_self s2.wait_records j f at2) refl refl)
      ])
  where
    s1 : Scheduler
    s1 = on_object object_at (repinned ((o.internal_refs + 1) % 2 ^ 32)) s

    unlinked_one : (g : ℕ) {r : WaitRecord} → some (fresh g) ≡ some r → r.waiter_linked ≡ true → ⊥
    unlinked_one g e l = ground arith

take_legacy-keeps :
    (s : Scheduler) (handle : ℕ)
    → IsScheduled s
    → (s' : Scheduler) → take_legacy s handle ≡ some s'
    → IsScheduled s'
unfolding take_legacy
take_legacy-keeps s handle v = elim (Option-cases (target_event s handle)) [
  | inr ((e, ev), x) ↦
      rw (take_legacy, x)
        (consumed_or_none (ev.live && ev.signaled) (IsScheduled-same s _ refl refl refl refl v))
  | inl n ↦ elim (Option-cases (lookup_object s.objects handle type_notification)) [
    | inl m ↦ rw (take_legacy, n, m) nothing
    | inr ((slot, o), y) ↦ elim (Option-cases o.target) [
      | inl m ↦ rw (take_legacy, n, y, m) nothing
      | inr (e, z) ↦ elim (Option-cases (get_elem? s.notifications e)) [
        | inl m ↦ rw (take_legacy, n, y, z, m) nothing
        | inr (ev, w) ↦
            rw (take_legacy, n, y, z, w)
              (consumed_or_none (ev.live && ev.signaled)
                (IsScheduled-same s _ refl refl refl refl v))
      ]
    ]
  ]
]
  where
    nothing : (s' : Scheduler) → none ≡ some s' → IsScheduled s'
    nothing s' e = absurd (ground arith)

    consumed_or_none :
        (b : Bool) {z : Scheduler}
        → IsScheduled z
        → (s' : Scheduler) → (if b then some z else none) ≡ some s'
        → IsScheduled s'
    consumed_or_none true {z} u s' e = let q : z ≡ s' = ground arith in subst IsScheduled q u
    consumed_or_none false u s' e = absurd (ground arith)

-- Whatever becomes of a wait, it leaves one thread running.
pub prepare_wait_record-IsScheduled :
    (s : Scheduler) (handle : ℕ) → IsScheduled s → IsScheduled (prepare_wait_record s handle).2
unfolding prepare_wait_record
prepare_wait_record-IsScheduled s handle v =
    if_cases {A = WaitResult × Option ℕ × Scheduler} (λ z. IsScheduled z.2) (not s.active) (λ b. v)
      (λ b. rw v.at (
        if_cases {A = WaitResult × Option ℕ × Scheduler} (λ z. IsScheduled z.2)
          (not (is_running v.body.state) || not (is_none v.body.wait_record)) (λ c. d)
          (λ c. elim (Option-cases (validate_open_event_handle (disarmed s) handle)) [
            | inl n ↦ elim (Option-cases (take_legacy (disarmed s) handle)) [
              | inl m ↦ rw (n, m) d
              | inr (s', m) ↦
                  rw (n, m)
                    (result_is-IsScheduled wait_signaled s'
                      (take_legacy-keeps (disarmed s) handle d s' m))
            ]
            | inr ((object_at, o, e, ev), x) ↦ rw x (
                if_cases {A = WaitResult × Option ℕ × Scheduler} (λ z. IsScheduled z.2) ev.signaled
                  (λ f.
                    result_is-IsScheduled wait_signaled _
                      (IsScheduled-same (disarmed s) _ refl refl refl refl d))
                  (λ f.
                    register_wait-IsScheduled (disarmed s) handle v.body object_at o e ev
                      s.pending_wait_timeout_armed s.pending_wait_deadline_ms d))
          ])))
  where
    d : IsScheduled (disarmed s)
    d = IsScheduled-same s (disarmed s) refl refl refl refl v
