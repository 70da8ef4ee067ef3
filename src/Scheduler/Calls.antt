-- ===== src/Scheduler/Calls.antt =====
-- The other calls of a thread on the scheduler: finish a wait, yield, terminate and resume.
use guide_xos_net.Prelude.{
  ℕ, Bool, true, false, ◌&&◌, ◌||◌, not, Option, none, some, ◌==◌, if◌then◌else◌, bit, get_elem?,
  sum,
}
use guide_xos_net.Scheduler.Handles.{decode_handle, type_thread, type_event}
use guide_xos_net.Scheduler.State.{
  Scheduler, WaitRecord, Thread, ThreadState, free, created_suspended, runnable, running,
  terminated, WaitResult, wait_failure, wait_signaled, wait_timed_out, is_running, is_runnable,
  is_blocked, wait_object_0, wait_timeout, on_thread, on_current,
}
use guide_xos_net.Scheduler.Objects.{lookup_object}
use guide_xos_net.Scheduler.Queue.{
  enqueue_runnable, remove_runnable, pick_next_runnable, choose_next, in_state,
}
use guide_xos_net.Scheduler.Waits.{same, release_wait_record}

abbrev pub finished : Thread → Thread
finished t = record t { wait_record = none; blocked_object = 0; blocked_result = wait_failure }

abbrev pub result_fits : WaitResult → ℕ → Bool
result_fits wait_signaled c = c == wait_object_0
result_fits wait_timed_out c = c == wait_timeout
result_fits _ c = true

abbrev pub is_over : WaitResult → Bool
is_over wait_signaled = true
is_over wait_timed_out = true
is_over _ = false

-- The handle 0 stands for any event.
abbrev pub names_object : ℕ → WaitRecord → Bool
names_object handle r = handle == 0 || (elim (decode_handle handle type_event) [
  | none ↦ false
  | some (slot, generation) ↦ slot == r.object_slot && generation == r.object_generation
])

unfoldable pub finish_wait : Scheduler → ℕ → WaitResult × Scheduler
finish_wait s handle = elim (get_elem? s.threads s.current) [
  | none ↦ (wait_failure, s)
  | some t ↦ if not (is_over t.blocked_result) then (wait_failure, s) else elim t.wait_record [
    | none ↦ (
      t.blocked_result,
      on_current (λ u. record u { blocked_object = 0; blocked_result = wait_failure }) s,
    )
    | some j ↦ elim (get_elem? s.wait_records j) [
      | none ↦ (wait_failure, s)
      | some r ↦
          if not r.valid
            || (not r.active
                || (not r.completed
                    || (not (same r.thread (some s.current))
                        || (not (result_fits t.blocked_result r.completion_result)
                            || not (names_object handle r)))))
          then (wait_failure, s)
          else (t.blocked_result, release_wait_record (on_current finished s) j)
    ]
  ]
]

-- What follows on the answer of the queue; the plan is kept as the pending one.
unfoldable pub hand_over : Bool × Scheduler → Bool × Scheduler
hand_over (false, s1) = (false, on_current (in_state running) s1)
hand_over (true, s1) = elim (pick_next_runnable s1.threads s1.current) [
  | none ↦ (false, on_current (in_state running) (remove_runnable s1 s1.current).1)
  | some next ↦ (true, record (choose_next s1 next) { pending_plan = some (s1.current, next) })
]

unfoldable pub prepare_yield : Scheduler → Bool × Scheduler
prepare_yield s = elim (get_elem? s.threads s.current) [
  | none ↦ (false, s)
  | some t ↦
      if not (is_running t.state)
      then (false, s)
      else hand_over (enqueue_runnable (on_current (in_state runnable) s) s.current)
]

abbrev pub ended : ℕ → Thread → Thread
ended value t = record t {
  return_value = value;
  state = terminated;
  deferred_reclaim = 1;
  execution_refs = 0;
}

unfoldable pub prepare_terminate : Scheduler → ℕ → Bool × Scheduler
prepare_terminate s value = elim (get_elem? s.threads s.current) [
  | none ↦ (false, s)
  | some t ↦
      if not (is_running t.state) || t.is_boot_thread
      then (false, s)
      else let s1 = on_current (ended value) s in
        elim (pick_next_runnable s1.threads s1.current) [
          | none ↦ (false, s1)
          | some next ↦ (true, choose_next s1 next)
        ]
]

abbrev pub is_free_or_ended : ThreadState → Bool
is_free_or_ended free = true
is_free_or_ended terminated = true
is_free_or_ended _ = false

abbrev pub is_suspended : ThreadState → Bool
is_suspended created_suspended = true
is_suspended _ = false

abbrev pub suspended_with : ℕ → ThreadState → Thread → Thread
suspended_with n k t = record t { suspend_count = n; state = k }

-- The result, the previous suspend count where it is written, and the state; `context_is_valid` is
-- what validate_thread_context says of the thread.
unfoldable pub resume : (Thread → Bool) → Scheduler → ℕ → Thread → Bool × Option ℕ × Scheduler
resume context_is_valid s i t =
    if t.suspend_count == 0
    then if is_runnable t.state && not t.runnable_queued
      then (false, none, s)
      else (true, some 0, s)
    else if not (is_suspended t.state) || (not (t.suspend_count == 1) || not (context_is_valid t))
    then (false, none, s)
    else let (done, s1) = enqueue_runnable (on_thread i (suspended_with 0 runnable) s) i in
      if done
      then (true, some 1, s1)
      else (false, some 0, on_thread i (suspended_with 1 created_suspended) s1)

unfoldable pub resume_thread : (Thread → Bool) → Scheduler → ℕ → Bool × Option ℕ × Scheduler
resume_thread context_is_valid s handle = elim (lookup_object s.objects handle type_thread) [
  | none ↦ (false, none, s)
  | some (slot, o) ↦ elim o.target [
    | none ↦ (false, none, s)
    | some i ↦ elim (get_elem? s.threads i) [
      | none ↦ (false, none, s)
      | some t ↦
          if o.public_handle_refs == 0
            || (o.internal_refs == 0
                || (not t.live
                    || (t.execution_refs == 0
                        || (not (t.deferred_reclaim == 0)
                            || (not (t.object_slot == o.slot)
                                || (not (t.generation == o.generation)
                                    || is_free_or_ended t.state))))))
          then (false, none, s)
          else resume context_is_valid s i t
    ]
  ]
]

unfoldable pub blocked_count : Scheduler → ℕ
blocked_count s = sum (λ t. bit (t.live && is_blocked t.state)) s.threads
