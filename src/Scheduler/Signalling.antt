-- ===== src/Scheduler/Signalling.antt =====
-- The invariant under signals, timeouts and resumption.
use guide_xos_net.Prelude.{
  ℕ, zero, suc, ◌+◌, ◌≡◌, ◌≢◌, inl, inr, refl, subst, Bool, true, false, not, ◌&&◌, ◌||◌, Option,
  some, arith, length, ltb, ◌==◌, if◌then◌else◌, Bool-cases, Option-cases, if_cases, get_elem?,
}
use guide_xos_net.Scheduler.State.{
  Thread, WaitRecord, Scheduler, Event, ThreadState, free, created_suspended, runnable, running,
  blocked, terminated, is_running, is_runnable, is_blocked, on_thread, on_event, wait_object_0,
  wait_timeout, wait_signaled, wait_timed_out, max_wait_records,
}
use guide_xos_net.Scheduler.Waits.{wake_waiter, timeout_waiter}
use guide_xos_net.Scheduler.Queue.{enqueue_runnable}
use guide_xos_net.Scheduler.Objects.{lookup_object}
use guide_xos_net.Scheduler.Handles.{type_thread}
use guide_xos_net.Scheduler.Events.{
  target_event, wake_all, signal, signal_event, reset_event, service_record, service_from,
  service_timeouts, signaled_as,
}
use guide_xos_net.Scheduler.Calls.{resume, resume_thread, is_suspended, suspended_with}
use guide_xos_net.Scheduler.Inv.{RecordsFit, Waits, IsScheduled}
use guide_xos_net.Scheduler.Waking.{
  IsScheduled-awaken, IsScheduled-same, complete_waiter-IsScheduled,
}

wake_waiter-IsScheduled :
    (s : Scheduler) (e index : ℕ) → IsScheduled s → IsScheduled (wake_waiter s e index)
unfolding wake_waiter
wake_waiter-IsScheduled s e index v =
    complete_waiter-IsScheduled s e index wait_object_0 wait_signaled v

timeout_waiter-IsScheduled :
    (s : Scheduler) (r : WaitRecord) → IsScheduled s → IsScheduled (timeout_waiter s r)
unfolding timeout_waiter
timeout_waiter-IsScheduled s r v = elim (Option-cases r.waitable) [
  | inl n ↦ rw (timeout_waiter, n) v
  | inr (e, x) ↦ elim (Bool-cases r.waiter_linked) [
    | inl l ↦
        rw (timeout_waiter, x, l)
          (complete_waiter-IsScheduled s e r.waiter_index wait_timeout wait_timed_out v)
    | inr l ↦ rw (timeout_waiter, x, l) v
  ]
]

wake_all-IsScheduled :
    (n : ℕ) (s : Scheduler) (e : ℕ) → IsScheduled s → IsScheduled (wake_all n s e)
unfolding wake_all
wake_all-IsScheduled zero s e v = v
wake_all-IsScheduled (suc n) s e v = elim (Option-cases (get_elem? s.events e)) [
  | inl m ↦ rw (wake_all, m) v
  | inr (ev, x) ↦ elim (Bool-cases (length ev.waiters == 0)) [
    | inl l ↦ rw (wake_all, x, l) v
    | inr l ↦
        rw (wake_all, x, l)
          (wake_all-IsScheduled n (wake_waiter s e 0) e (wake_waiter-IsScheduled s e 0 v))
  ]
]

on_event-IsScheduled :
    (s : Scheduler) (e : ℕ) (f : Event → Event) → IsScheduled s → IsScheduled (on_event e f s)
on_event-IsScheduled s e f v = IsScheduled-same s (on_event e f s) refl refl refl refl v

pub signal-IsScheduled :
    (s : Scheduler) (e : ℕ) (ev : Event) → IsScheduled s → IsScheduled (signal s e ev)
unfolding signal
signal-IsScheduled s e ev v = elim (Bool-cases ev.manual_reset) [
  | inl m ↦
      rw (signal, m)
        (wake_all-IsScheduled (length ev.waiters) (on_event e (signaled_as true) s) e
          (on_event-IsScheduled s e (signaled_as true) v))
  | inr m ↦ elim (Bool-cases (length ev.waiters == 0)) [
    | inl z ↦ rw (signal, m, z) (on_event-IsScheduled s e (signaled_as true) v)
    | inr z ↦
        rw (signal, m, z)
          (wake_waiter-IsScheduled (on_event e (signaled_as false) s) e 0
            (on_event-IsScheduled s e (signaled_as false) v))
  ]
]

pub signal_event-IsScheduled :
    (s : Scheduler) (handle : ℕ) → IsScheduled s → IsScheduled (signal_event s handle).1
unfolding signal_event
signal_event-IsScheduled s handle v = elim (Option-cases (target_event s handle)) [
  | inl n ↦ rw (signal_event, n) v
  | inr ((e, ev), x) ↦
      rw (signal_event, x)
        (if_cases {A = Bool × Scheduler} (λ z. IsScheduled z.1) (not ev.live) (λ d. v)
          (λ l. signal-IsScheduled s e ev v))
]

pub reset_event-IsScheduled :
    (s : Scheduler) (handle : ℕ) → IsScheduled s → IsScheduled (reset_event s handle).1
unfolding reset_event
reset_event-IsScheduled s handle v = elim (Option-cases (target_event s handle)) [
  | inl n ↦ rw (reset_event, n) v
  | inr ((e, ev), x) ↦ elim (Bool-cases ev.live) [
    | inl l ↦ rw (reset_event, x, l) (on_event-IsScheduled s e (signaled_as false) v)
    | inr l ↦ rw (reset_event, x, l) v
  ]
]

service_record-IsScheduled :
    (s : Scheduler) (now_ms index : ℕ)
    → IsScheduled s
    → IsScheduled (service_record s now_ms index).1
unfolding service_record
service_record-IsScheduled s now_ms index v = elim (Option-cases (get_elem? s.wait_records index)) [
  | inl n ↦ rw (service_record, n) v
  | inr (r, x) ↦
      elim (Bool-cases (
        not r.valid
        || (not r.active || (not r.timeout_armed || (r.completed || ltb now_ms r.deadline_ms))))) [
          | inl b ↦ rw (service_record, x, b) v
          | inr b ↦ rw (service_record, x, b) (timeout_waiter-IsScheduled s r v)
        ]
]

service_from-IsScheduled :
    (n : ℕ) (s : Scheduler) (now_ms index : ℕ)
    → IsScheduled s
    → IsScheduled (service_from n s now_ms index).1
unfolding service_from
service_from-IsScheduled zero s now_ms index v = v
service_from-IsScheduled (suc n) s now_ms index v =
    service_from-IsScheduled n (service_record s now_ms index).1 now_ms (index + 1)
      (service_record-IsScheduled s now_ms index v)

pub service_timeouts-IsScheduled :
    (s : Scheduler) (now_ms : ℕ) → IsScheduled s → IsScheduled (service_timeouts s now_ms).1
unfolding service_timeouts
service_timeouts-IsScheduled s now_ms v =
    if_cases {A = ℕ × Scheduler} (λ z. IsScheduled z.1) (not s.active) (λ d. v)
      (λ a. service_from-IsScheduled max_wait_records s now_ms 0 v)

suspended_apart :
    (k : ThreadState)
    → is_suspended k ≡ true
    → (is_runnable k ≡ false) × (is_running k ≡ false) × (is_blocked k ≡ false)
suspended_apart created_suspended e = (refl, refl, refl)
suspended_apart free e = absurd (ground arith)
suspended_apart runnable e = absurd (ground arith)
suspended_apart running e = absurd (ground arith)
suspended_apart blocked e = absurd (ground arith)
suspended_apart terminated e = absurd (ground arith)

resume-IsScheduled :
    (context_is_valid : Thread → Bool) (s : Scheduler) (i : ℕ) (t : Thread)
    → IsScheduled s
    → get_elem? s.threads i ≡ some t
    → IsScheduled (resume context_is_valid s i t).2
unfolding resume
resume-IsScheduled context_is_valid s i t v at =
    if_cases P (t.suspend_count == 0)
      (λ z. if_cases P (is_runnable t.state && not t.runnable_queued) (λ b. v) (λ b. v))
      (λ z.
        if_cases P
          (not (is_suspended t.state) || (not (t.suspend_count == 1) || not (context_is_valid t)))
          (λ b. v)
          (λ b.
            if_cases P e.0
              (λ d.
                subst (λ c. IsScheduled (if c then e.1 else on_thread i g e.1)) d
                  (taken (ground arith)))
              (λ d.
                subst (λ c. IsScheduled (if c then e.1 else on_thread i g e.1)) d
                  (taken (ground arith)))))
  where
    P : Bool × Option ℕ × Scheduler → Type 0
    P z = IsScheduled z.2

    f : Thread → Thread
    f = suspended_with 0 runnable

    g : Thread → Thread
    g = suspended_with 1 created_suspended

    e : Bool × Scheduler
    e = enqueue_runnable (on_thread i f s) i

    others :
        is_blocked t.state ≡ false
        → (j : ℕ) (r : WaitRecord) → get_elem? s.wait_records j ≡ some r
        → r.waiter_linked ≡ true
        → r.thread ≢ some i
    others b j r z l o =
        let w : Waits s.threads j r = unfold RecordsFit in v.records j r z l in
        let n : w.body ≡ t = let x = w.owner in let y = w.at in ground arith in
        let c = subst (λ h. is_blocked h.state ≡ true) n w.blocks in ground arith

    taken : is_suspended t.state ≡ true → IsScheduled (if e.0 then e.1 else on_thread i g e.1)
    taken x =
        let a = suspended_apart t.state x in
        IsScheduled-awaken s i f g v at a.0 a.1 (others a.2) refl refl refl refl refl

pub resume_thread-IsScheduled :
    (context_is_valid : Thread → Bool) (s : Scheduler) (handle : ℕ)
    → IsScheduled s
    → IsScheduled (resume_thread context_is_valid s handle).2
unfolding resume_thread
resume_thread-IsScheduled context_is_valid s handle v =
    elim (Option-cases (lookup_object s.objects handle type_thread)) [
      | inl n ↦ rw (resume_thread, n) v
      | inr ((slot, o), x) ↦ elim (Option-cases o.target) [
        | inl n ↦ rw (resume_thread, x, n) v
        | inr (i, y) ↦ elim (Option-cases (get_elem? s.threads i)) [
          | inl n ↦ rw (resume_thread, x, y, n) v
          | inr (t, z) ↦
              rw (resume_thread, x, y, z)
                (if_cases {A = Bool × Option ℕ × Scheduler} (λ u. IsScheduled u.2)
                  (o.public_handle_refs == 0 || _) (λ b. v)
                  (λ b. resume-IsScheduled context_is_valid s i t v z))
        ]
      ]
    ]
