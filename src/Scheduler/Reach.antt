-- ===== src/Scheduler/Reach.antt =====
-- The schedulers that the calls reach, in any order and with any arguments.
use guide_xos_net.Prelude.{
  ℕ, ◌≡◌, inl, inr, refl, ap, ◌∙◌, Bool, true, not, ◌&&◌, ◌||◌, some, length, ltb, ◌==◌, if_cases,
  bit, Option-cases, get_elem?, find_slot, is_none,
}
use guide_xos_net.Scheduler.State.{
  Scheduler, Thread, WaitRecord, is_running, is_runnable, is_blocked,
}
use guide_xos_net.Scheduler.Handles.{type_event}
use guide_xos_net.Scheduler.Objects.{lookup_object, allocate_object}
use guide_xos_net.Scheduler.Events.{
  target_event, create_event, signal_event, reset_event, try_destroy_event, service_timeouts,
  arm_wait_timeout,
}
use guide_xos_net.Scheduler.Calls.{finish_wait, prepare_yield, prepare_terminate, resume_thread}
use guide_xos_net.Scheduler.Registration.{prepare_wait_record}
use guide_xos_net.Scheduler.Threads.{initialize, create_suspended_thread, close_handle, collect}
use guide_xos_net.Scheduler.Inv.{count, ThreadFits, ThreadsFit, RecordsFit, Waits, IsScheduled}
use guide_xos_net.Scheduler.Yielding.{prepare_yield-IsScheduled, prepare_terminate-IsScheduled}
use guide_xos_net.Scheduler.Waking.{IsScheduled-same}
use guide_xos_net.Scheduler.Signalling.{
  signal_event-IsScheduled, reset_event-IsScheduled, service_timeouts-IsScheduled,
  resume_thread-IsScheduled,
}
use guide_xos_net.Scheduler.Waiting.{finish_wait-IsScheduled}
use guide_xos_net.Scheduler.Preparing.{prepare_wait_record-IsScheduled}
use guide_xos_net.Scheduler.Living.{
  initialize-IsScheduled, create_suspended_thread-IsScheduled, collect-IsScheduled,
}
use guide_xos_net.Scheduler.Closing.{close_handle-IsScheduled}

create_event-IsScheduled :
    (s : Scheduler) (manual_reset initial_signaled : Bool)
    → IsScheduled s
    → IsScheduled (create_event s manual_reset initial_signaled).1
unfolding create_event
create_event-IsScheduled s manual_reset initial_signaled v =
    elim (Option-cases (find_slot (λ ev. not ev.live) s.events)) [
      | inl n ↦ rw (create_event, n) v
      | inr ((e, old), x) ↦ elim (Option-cases (allocate_object s.objects type_event (some e))) [
        | inl n ↦ rw (create_event, x, n) (IsScheduled-same s _ refl refl refl refl v)
        | inr ((slot, handle, objects), y) ↦
            rw (create_event, x, y) (IsScheduled-same s _ refl refl refl refl v)
      ]
    ]

try_destroy_event-IsScheduled :
    (s : Scheduler) (handle : ℕ) → IsScheduled s → IsScheduled (try_destroy_event s handle).1
unfolding try_destroy_event
try_destroy_event-IsScheduled s handle v =
    elim (Option-cases (lookup_object s.objects handle type_event)) [
      | inl n ↦ rw (try_destroy_event, n) v
      | inr ((slot, o), x) ↦ elim (Option-cases (target_event s handle)) [
        | inl n ↦ rw (try_destroy_event, x, n) v
        | inr ((e, ev), y) ↦
            rw (try_destroy_event, x, y)
              (if_cases {A = Bool × Scheduler} (λ z. IsScheduled z.1)
                (not (length ev.waiters == 0)
                  || (not (o.public_handle_refs == 0) || ltb 1 o.internal_refs))
                (λ b. v) (λ b. IsScheduled-same s _ refl refl refl refl v))
      ]
    ]

arm_wait_timeout-IsScheduled :
    (s : Scheduler) (deadline_ms : ℕ)
    → IsScheduled s
    → IsScheduled (arm_wait_timeout s deadline_ms).1
unfolding arm_wait_timeout
arm_wait_timeout-IsScheduled s deadline_ms v =
    rw (arm_wait_timeout, v.at)
      (if_cases {A = Bool × Scheduler} (λ z. IsScheduled z.1)
        (not s.active || (not (is_running v.body.state) || not (is_none v.body.wait_record)))
        (λ b. v) (λ b. IsScheduled-same s _ refl refl refl refl v))

-- One call, whatever it returns; but a termination is one that found another thread to go to.
pub data Step (s : Scheduler) : Scheduler → Type 0 where
  by_create_event :
      (manual_reset initial_signaled : Bool)
      → Step s (create_event s manual_reset initial_signaled).1
  by_destroy_event : (handle : ℕ) → Step s (try_destroy_event s handle).1
  by_create_thread :
      (is_configured has_stack : Bool)
      → Step s (create_suspended_thread is_configured has_stack s).1
  by_resume :
      (context_is_valid : Thread → Bool) (handle : ℕ)
      → Step s (resume_thread context_is_valid s handle).2
  by_close : (can_free : Thread → Bool) (handle : ℕ) → Step s (close_handle can_free s handle).1
  by_collect : (can_free : Thread → Bool) → Step s (collect can_free s)
  by_signal : (handle : ℕ) → Step s (signal_event s handle).1
  by_reset : (handle : ℕ) → Step s (reset_event s handle).1
  by_arm : (deadline_ms : ℕ) → Step s (arm_wait_timeout s deadline_ms).1
  by_timeouts : (now_ms : ℕ) → Step s (service_timeouts s now_ms).1
  by_wait : (handle : ℕ) → Step s (prepare_wait_record s handle).2
  by_finish : (handle : ℕ) → Step s (finish_wait s handle).1
  by_yield : Step s (prepare_yield s).1
  by_terminate :
      (value : ℕ) → (prepare_terminate s value).0 ≡ true → Step s (prepare_terminate s value).1

pub data Reach (s : Scheduler) : Scheduler → Type 0 where
  here : Reach s s
  next : {t u : Scheduler} → Reach s t → Step t u → Reach s u

Step-IsScheduled : {s t : Scheduler} → Step s t → IsScheduled s → IsScheduled t
Step-IsScheduled {s} (by_create_event m i) v = create_event-IsScheduled s m i v
Step-IsScheduled {s} (by_destroy_event h) v = try_destroy_event-IsScheduled s h v
Step-IsScheduled {s} (by_create_thread c b) v = create_suspended_thread-IsScheduled c b s v
Step-IsScheduled {s} (by_resume c h) v = resume_thread-IsScheduled c s h v
Step-IsScheduled {s} (by_close c h) v = close_handle-IsScheduled c s h v
Step-IsScheduled {s} (by_collect c) v = collect-IsScheduled c s v
Step-IsScheduled {s} (by_signal h) v = signal_event-IsScheduled s h v
Step-IsScheduled {s} (by_reset h) v = reset_event-IsScheduled s h v
Step-IsScheduled {s} (by_arm d) v = arm_wait_timeout-IsScheduled s d v
Step-IsScheduled {s} (by_timeouts d) v = service_timeouts-IsScheduled s d v
Step-IsScheduled {s} (by_wait h) v = prepare_wait_record-IsScheduled s h v
Step-IsScheduled {s} (by_finish h) v = finish_wait-IsScheduled s h v
Step-IsScheduled {s} by_yield v = prepare_yield-IsScheduled s v
Step-IsScheduled {s} (by_terminate value e) v = prepare_terminate-IsScheduled s value v e

Reach-IsScheduled : {s t : Scheduler} → Reach s t → IsScheduled s → IsScheduled t
Reach-IsScheduled here v = v
Reach-IsScheduled (next r k) v = Step-IsScheduled k (Reach-IsScheduled r v)

-- Whatever calls follow the start, a thread of the table is RUNNING if it is the current one and only
-- then, and it is in the queue once if it is live and RUNNABLE and not at all otherwise; the current
-- thread is live. A termination that finds no other thread is not among the calls.
pub Reach-running :
    (has_environment : Bool) (s t : Scheduler)
    → initialize has_environment ≡ some s
    → Reach s t
    → ((i : ℕ) (u : Thread)
        → get_elem? t.threads i ≡ some u
        → (is_running u.state ≡ (t.current == i))
          × (count i t.runnable_queue ≡ bit (u.live && is_runnable u.state)))
      × ((u : Thread) × (get_elem? t.threads t.current ≡ some u) × (u.live ≡ true))
Reach-running has_environment s t e r =
    let v = Reach-IsScheduled r (initialize-IsScheduled has_environment e) in
    (
      (λ i u at.
          let w : ThreadFits t.runnable_queue (some t.current) i u =
            unfold ThreadsFit in v.threads i u at in
          (w.alone, w.once ∙ ap bit w.exactly)),
      (v.body, v.at, v.alive),
    )

-- Whatever calls follow the start but a termination that finds no other thread, the thread of a record
-- that is linked to an event is BLOCKED, on that record.
pub Reach-waiting :
    (has_environment : Bool) (s t : Scheduler) (j : ℕ) (r : WaitRecord)
    → initialize has_environment ≡ some s
    → Reach s t
    → get_elem? t.wait_records j ≡ some r
    → r.waiter_linked ≡ true
    → (i : ℕ) × (u : Thread) × (r.thread ≡ some i)
      × (get_elem? t.threads i ≡ some u)
      × (is_blocked u.state ≡ true)
      × (u.wait_record ≡ some j)
Reach-waiting has_environment s t j r e p at linked =
    let v = Reach-IsScheduled p (initialize-IsScheduled has_environment e) in
    let w : Waits t.threads j r = unfold RecordsFit in v.records j r at linked in
    (w.waiter, w.body, w.owner, w.at, w.blocks, w.own)
