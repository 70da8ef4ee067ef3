-- ===== src/Scheduler/Events.antt =====
-- Events and notifications: creation, lookup, signal and reset, and the deadlines of waits.
use guide_xos_net.Prelude.{
  ℕ, zero, suc, ◌+◌, Bool, true, false, ◌&&◌, ◌||◌, not, Option, none, some, [], length, ltb, ◌==◌,
  if◌then◌else◌, get_elem?, modify, find_slot, is_none,
}
use guide_xos_net.Scheduler.Handles.{decode_handle, type_event, type_notification}
use guide_xos_net.Scheduler.State.{
  Scheduler, Event, Object, is_running, max_wait_records, empty_event, on_event,
}
use guide_xos_net.Scheduler.Objects.{lookup_object, allocate_object, release_object}
use guide_xos_net.Scheduler.Waits.{wake_waiter, timeout_waiter}

-- The slot of the event that a handle names, and the event.
unfoldable pub target_event : Scheduler → ℕ → Option (ℕ × Event)
target_event s handle = elim (lookup_object s.objects handle type_event) [
  | none ↦ none
  | some (slot, o) ↦ elim o.target [
    | none ↦ none
    | some e ↦ elim (get_elem? s.events e) [ none ↦ none | some ev ↦ some (e, ev) ]
  ]
]

abbrev pub created : Bool → Bool → ℕ → ℕ → Event
created manual_reset initial_signaled generation object_slot = record {
  live = true;
  manual_reset = manual_reset;
  signaled = initial_signaled;
  generation = generation;
  object_slot = object_slot;
  waiters = [];
}

-- The handle, if there is room for the event and for its object.
unfoldable pub create_event : Scheduler → Bool → Bool → Option ℕ × Scheduler
create_event s manual_reset initial_signaled = elim (find_slot (λ ev. not ev.live) s.events) [
  | none ↦ (none, s)
  | some (e, old) ↦ elim (allocate_object s.objects type_event (some e)) [
    | none ↦ (none, on_event e (λ _. empty_event) s)
    | some (slot, handle, objects) ↦
        let generation : ℕ = elim (get_elem? objects slot) [ none ↦ 0 | some o ↦ o.generation ] in
        (
          some handle,
          on_event e (λ _. created manual_reset initial_signaled generation slot)
              (record s { objects = objects }),
        )
  ]
]

-- `while (event->waiter_count != 0) wake_waiter(event, 0);`
unfoldable pub wake_all : ℕ → Scheduler → ℕ → Scheduler
wake_all zero s e = s
wake_all (suc n) s e = elim (get_elem? s.events e) [
  | none ↦ s
  | some ev ↦ if length ev.waiters == 0 then s else wake_all n (wake_waiter s e 0) e
]

abbrev pub signaled_as : Bool → Event → Event
signaled_as b v = record v { signaled = b }

-- Each round takes a waiter away, so that there are enough rounds for all.
unfoldable pub signal : Scheduler → ℕ → Event → Scheduler
signal s e ev =
    if ev.manual_reset
    then wake_all (length ev.waiters) (on_event e (signaled_as true) s) e
    else if not (length ev.waiters == 0)
    then wake_waiter (on_event e (signaled_as false) s) e 0
    else on_event e (signaled_as true) s

unfoldable pub signal_event : Scheduler → ℕ → Bool × Scheduler
signal_event s handle = elim (target_event s handle) [
  | none ↦ (false, s)
  | some (e, ev) ↦ if not ev.live then (false, s) else (true, signal s e ev)
]

unfoldable pub reset_event : Scheduler → ℕ → Bool × Scheduler
reset_event s handle = elim (target_event s handle) [
  | none ↦ (false, s)
  | some (e, ev) ↦ if not ev.live then (false, s) else (true, on_event e (signaled_as false) s)
]

unfoldable pub event_is_signaled : Scheduler → ℕ → Bool
event_is_signaled s handle = elim (target_event s handle) [
  | none ↦ false
  | some (e, ev) ↦ ev.live && ev.signaled
]

unfoldable pub try_destroy_event : Scheduler → ℕ → Bool × Scheduler
try_destroy_event s handle = elim (lookup_object s.objects handle type_event) [
  | none ↦ (false, s)
  | some (slot, o) ↦ elim (target_event s handle) [
    | none ↦ (false, s)
    | some (e, ev) ↦
        if not (length ev.waiters == 0)
          || (not (o.public_handle_refs == 0) || ltb 1 o.internal_refs)
        then (false, s)
        else (
          true,
          on_event e (λ v. record v { live = false })
              (record s { objects = release_object s.objects slot }),
        )
  ]
]

-- The object, the event and its slot, of a handle that is open.
unfoldable pub validate_open_event_handle : Scheduler → ℕ → Option (ℕ × Object × ℕ × Event)
validate_open_event_handle s handle = elim (decode_handle handle type_event) [
  | none ↦ none
  | some (slot, generation) ↦ elim (get_elem? s.objects slot) [
    | none ↦ none
    | some o ↦ elim o.target [
      | none ↦ none
      | some e ↦ elim (get_elem? s.events e) [
        | none ↦ none
        | some ev ↦
            if not o.live
              || (not (o.object_type == type_event)
                  || (not (o.generation == generation)
                      || (o.close_state || (o.public_handle_refs == 0 || o.internal_refs == 0))))
            then none
            else if not ev.live
                || (not (ev.object_slot == slot) || not (ev.generation == generation))
            then none
            else some (slot, o, e, ev)
      ]
    ]
  ]
]

-- One turn of the loop, and whether it counts.
unfoldable pub service_record : Scheduler → ℕ → ℕ → ℕ × Scheduler
service_record s now_ms index = elim (get_elem? s.wait_records index) [
  | none ↦ (0, s)
  | some r ↦
      if not r.valid
        || (not r.active || (not r.timeout_armed || (r.completed || ltb now_ms r.deadline_ms)))
      then (0, s)
      else (1, timeout_waiter s r)
]

unfoldable pub service_from : ℕ → Scheduler → ℕ → ℕ → ℕ × Scheduler
service_from zero s now_ms index = (0, s)
service_from (suc n) s now_ms index =
    let (completed, s') = service_record s now_ms index in
    let (rest, s'') = service_from n s' now_ms (index + 1) in (completed + rest, s'')

unfoldable pub service_timeouts : Scheduler → ℕ → ℕ × Scheduler
service_timeouts s now_ms =
    if not s.active then (0, s) else service_from max_wait_records s now_ms 0

unfoldable pub arm_wait_timeout : Scheduler → ℕ → Bool × Scheduler
arm_wait_timeout s deadline_ms = elim (get_elem? s.threads s.current) [
  | none ↦ (false, s)
  | some t ↦
      if not s.active || (not (is_running t.state) || not (is_none t.wait_record))
      then (false, s)
      else (
        true,
        record s { pending_wait_timeout_armed = true; pending_wait_deadline_ms = deadline_ms },
      )
]

-- The event, or the waitable of the notification, that a handle names is live and signaled; then the
-- wait is over at once, and an automatic one is reset.
abbrev pub consumed : Event → Event
consumed v = record v { signaled = v.manual_reset && v.signaled }

unfoldable pub take_legacy : Scheduler → ℕ → Option Scheduler
take_legacy s handle = elim (target_event s handle) [
  | some (e, ev) ↦ if ev.live && ev.signaled then some (on_event e consumed s) else none
  | none ↦ elim (lookup_object s.objects handle type_notification) [
    | none ↦ none
    | some (slot, o) ↦ elim o.target [
      | none ↦ none
      | some e ↦ elim (get_elem? s.notifications e) [
        | none ↦ none
        | some ev ↦
            if ev.live && ev.signaled
            then some (record s { notifications = modify s.notifications e consumed })
            else none
      ]
    ]
  ]
]
