-- ===== src/Scheduler/Registration.antt =====
-- A wait that is prepared: its record is registered with the event, and the thread blocks on it.
use guide_xos_net.Prelude.{
  ℕ, ◌+◌, ◌-◌, ◌%◌, ◌^◌, Bool, true, false, ◌||◌, not, Option, none, some, ◌==◌, if◌then◌else◌,
  get_elem?, is_none,
}
use guide_xos_net.Scheduler.State.{
  Scheduler, Event, WaitRecord, Object, Thread, running, blocked, WaitResult, wait_failure,
  wait_blocked, wait_signaled, is_running, wait_failed, on_record, on_event, on_object, on_current,
}
use guide_xos_net.Scheduler.Queue.{pick_next_runnable, choose_next}
use guide_xos_net.Scheduler.Waits.{
  add_waiter, remove_waiter, allocate_wait_record, release_wait_record,
}
use guide_xos_net.Scheduler.Events.{validate_open_event_handle, take_legacy, consumed}

abbrev pub result_is : WaitResult → Thread → Thread
result_is w t = record t { blocked_result = w }

abbrev pub disarmed : Scheduler → Scheduler
disarmed s = record s { pending_wait_timeout_armed = false; pending_wait_deadline_ms = 0 }

abbrev pub repinned : ℕ → Object → Object
repinned n o = record o { internal_refs = n }

-- `remove_waiter(event, record->waiter_index)`
abbrev pub drop_waiter : Scheduler → ℕ → ℕ → Scheduler
drop_waiter s e j = elim (get_elem? s.wait_records j) [
  | none ↦ s
  | some r ↦ remove_waiter s e r.waiter_index
]

abbrev pub drop_linked : Scheduler → ℕ → ℕ → Scheduler
drop_linked s e j = elim (get_elem? s.wait_records j) [
  | none ↦ s
  | some r ↦ if r.waiter_linked then remove_waiter s e r.waiter_index else s
]

abbrev pub blocked_on : ℕ → ℕ → Thread → Thread
blocked_on handle j t = record t {
  wait_record = some j;
  blocked_object = handle;
  blocked_result = wait_failure;
  state = blocked;
}

abbrev pub unblocked : Thread → Thread
unblocked t = record t {
  state = running;
  wait_record = none;
  blocked_object = 0;
  blocked_result = wait_failure;
}

abbrev pub activated : WaitRecord → WaitRecord
activated r = record r { active = true }

-- The current thread blocks on a record that is linked, unless there is no other to run.
unfoldable pub block_on : Scheduler → ℕ → ℕ → ℕ → WaitResult × Option ℕ × Scheduler
block_on s handle e j =
    let s1 = on_current (blocked_on handle j) (record (on_record j activated s) {
      active_wait_count = (s.active_wait_count + 1) % 2 ^ 32;
    }) in
    elim (pick_next_runnable s1.threads s1.current) [
      | none ↦
          (wait_failure, none, release_wait_record (drop_waiter (on_current unblocked s1) e j) j)
      | some next ↦ (wait_blocked, some j, choose_next s1 next)
    ]

abbrev pub filled_for : Thread → ℕ → Object → ℕ → ℕ → ℕ → Bool → ℕ → WaitRecord → WaitRecord
filled_for t current o object_at object_slot e armed deadline r = record r {
  wait_kind = 1;
  waiting_identity = t.identity;
  waiting_thread_slot = current;
  waiting_thread_generation = t.generation;
  object_slot = object_slot;
  object_generation = o.generation;
  thread = some current;
  object = some object_at;
  waitable = some e;
  pin_held = true;
  completion_result = wait_failed;
  timeout_armed = armed;
  deadline_ms = deadline;
}

-- Where the event was signaled meanwhile, or refuses the record, that is released again.
unfoldable pub link_answer : Bool × Scheduler → ℕ → ℕ → ℕ → WaitResult × Option ℕ × Scheduler
link_answer (false, s4) handle e j =
    (wait_failure, none, release_wait_record (drop_linked s4 e j) j)
link_answer (true, s4) handle e j = block_on s4 handle e j

unfoldable pub link_wait : Scheduler → ℕ → ℕ → ℕ → Bool → WaitResult × Option ℕ × Scheduler
link_wait s3 handle e j true = (
  wait_signaled,
  none,
  on_current (result_is wait_signaled) (release_wait_record (drop_linked s3 e j) j),
)
link_wait s3 handle e j false = link_answer (add_waiter s3 e j) handle e j

-- The object is pinned, and a record is taken, filled in and linked to the event; what was done is
-- undone where a step fails.
unfoldable pub register_wait :
    Scheduler → ℕ → Thread → ℕ → Object → ℕ → Event → Bool → ℕ → WaitResult × Option ℕ × Scheduler
register_wait s handle t object_at o e ev armed deadline =
    if not o.live || o.internal_refs == 0
    then (wait_failure, none, s)
    else let pins = (o.internal_refs + 1) % 2 ^ 32 in
      let s1 = on_object object_at (repinned pins) s in
      elim (allocate_wait_record s1) [
        | none ↦
            (wait_failure, none, on_object object_at (repinned ((pins + (2 ^ 32 - 1)) % 2 ^ 32)) s1)
        | some (j, s2) ↦
            let s3 = on_record j (filled_for t s2.current o object_at o.slot e armed deadline) s2 in
            link_wait s3 handle e j ev.signaled
      ]

-- The result, the record of a wait that blocks, and the state. The switch plan of a wait that
-- blocks leads from the thread that was current to the one that is.
unfoldable pub prepare_wait_record : Scheduler → ℕ → WaitResult × Option ℕ × Scheduler
prepare_wait_record s handle =
    if not s.active then (wait_failure, none, s) else elim (get_elem? s.threads s.current) [
      | none ↦ (wait_failure, none, disarmed s)
      | some t ↦
          if not (is_running t.state) || not (is_none t.wait_record)
          then (wait_failure, none, disarmed s)
          else elim (validate_open_event_handle (disarmed s) handle) [
            | none ↦ elim (take_legacy (disarmed s) handle) [
              | none ↦ (wait_failure, none, disarmed s)
              | some s' ↦ (wait_signaled, none, on_current (result_is wait_signaled) s')
            ]
            | some (object_at, o, e, ev) ↦
                if ev.signaled
                then (
                  wait_signaled,
                  none,
                  on_current (result_is wait_signaled) (on_event e consumed (disarmed s)),
                )
                else register_wait (disarmed s) handle t object_at o e ev
                    s.pending_wait_timeout_armed s.pending_wait_deadline_ms
          ]
    ]
