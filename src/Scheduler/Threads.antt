-- ===== src/Scheduler/Threads.antt =====
-- The start of the scheduler, and the life of a thread: creation, the handle that is closed, and what
-- is taken back of it. Of a stack and its environment only is said whether there is one to be had, and
-- whether it can be given back.
use guide_xos_net.Prelude.{
  ℕ, zero, suc, ◌+◌, ◌-◌, ◌/◌, ◌%◌, ◌^◌, Bool, true, false, ◌&&◌, ◌||◌, not, Option, none, some,
  List, [], ◌∷◌, ◌==◌, if◌then◌else◌, get_elem?, modify, replicate, find_slot,
}
use guide_xos_net.Scheduler.Handles.{max_objects, type_thread, type_event}
use guide_xos_net.Scheduler.State.{
  Scheduler, Thread, Object, ThreadState, created_suspended, running, terminated, max_threads,
  max_events, max_wait_records, empty_thread, empty_object, empty_record, empty_event, on_thread,
  on_object,
}
use guide_xos_net.Scheduler.Objects.{lookup_object, allocate_object, release_object}

abbrev pub is_terminated : ThreadState → Bool
is_terminated terminated = true
is_terminated _ = false

abbrev pub boot : ℕ → Thread
boot object_slot = record empty_thread {
  live = true;
  is_boot_thread = true;
  identity = 1;
  generation = 1;
  object_slot = object_slot;
  state = running;
  execution_refs = 1;
}

-- The boot thread, alone and running.
unfoldable pub started : ℕ → List Object → Scheduler
started object_slot objects = record {
  threads = boot object_slot ∷ replicate 5 empty_thread;
  wait_records = replicate max_wait_records empty_record;
  events = replicate max_events empty_event;
  notifications = replicate 1 empty_event;
  objects = objects;
  runnable_queue = [];
  current = 0;
  next_identity = 2;
  next_wait_generation = 1;
  active_wait_count = 0;
  active = true;
  pending_wait_timeout_armed = false;
  pending_wait_deadline_ms = 0;
  pending_plan = none;
}

-- `has_environment`: there was memory for the environment of the boot thread, which is given an object
-- without public references.
unfoldable pub start_with : Bool → Option (ℕ × ℕ × List Object) → Option Scheduler
start_with has_environment none = none
start_with false (some (object_slot, handle, objects)) = none
start_with true (some (object_slot, handle, objects)) =
    some
      (started object_slot (modify objects object_slot (λ o. record o { public_handle_refs = 0 })))

unfoldable pub initialize : Bool → Option Scheduler
initialize has_environment =
    start_with has_environment
      (allocate_object (replicate max_objects empty_object) type_thread (some 0))

abbrev pub suspended_new : ℕ → ℕ → ℕ → Thread
suspended_new identity generation object_slot = record empty_thread {
  live = true;
  identity = identity;
  generation = generation;
  object_slot = object_slot;
  state = created_suspended;
  suspend_count = 1;
  public_handle_refs = 1;
  execution_refs = 1;
}

-- The handle, where the scheduler, the entry and the result pointers are set (`is_configured`), and
-- there is a slot, an object, and a stack with its environment (`has_stack`).
unfoldable pub create_suspended_thread : Bool → Bool → Scheduler → Option ℕ × Scheduler
create_suspended_thread false has_stack s = (none, s)
create_suspended_thread true has_stack s = elim (find_slot (λ t. not t.live) s.threads) [
  | none ↦ (none, s)
  | some (i, old) ↦ elim (allocate_object s.objects type_thread (some i)) [
    | none ↦ (none, on_thread i (λ _. empty_thread) s)
    | some (slot, handle, objects) ↦
        if not has_stack
        then (
          none,
          on_thread i (λ _. empty_thread) (record s { objects = release_object objects slot }),
        )
        else let generation : ℕ = elim (get_elem? objects slot) [
          | none ↦ 0
          | some o ↦ o.generation
        ] in
          (
            some handle,
            on_thread i (λ _. suspended_new s.next_identity generation slot)
                (record s { objects = objects; next_identity = (s.next_identity + 1) % 2 ^ 32 }),
          )
  ]
]

-- `can_free` says of a thread that its canaries hold and that its stack can be given back.
unfoldable pub maybe_reclaim_thread : (Thread → Bool) → Scheduler → ℕ → Scheduler
maybe_reclaim_thread can_free s i = elim (get_elem? s.threads i) [
  | none ↦ s
  | some t ↦
      if not t.live
        || (i == s.current
            || (not (is_terminated t.state)
                || (not (t.execution_refs == 0)
                    || (not (t.public_handle_refs == 0)
                        || (t.runnable_queued || not (can_free t))))))
      then s
      else elim (get_elem? s.objects t.object_slot) [
        | none ↦ s
        | some o ↦
            if not o.live || not (o.object_type == type_thread)
            then s
            else on_thread i (λ _. empty_thread)
                (record s { objects = release_object s.objects t.object_slot })
      ]
]

abbrev pub unreferenced : Thread → Thread
unreferenced t = record t { public_handle_refs = t.public_handle_refs - 1 }

abbrev pub closed : Object → Object
closed o = record o { public_handle_refs = o.public_handle_refs - 1; close_state = true }

unfoldable pub close_handle : (Thread → Bool) → Scheduler → ℕ → Bool × Scheduler
close_handle can_free s handle =
    let object_type = handle / 2 ^ 48 % 2 ^ 8 in
    if not (object_type == type_thread) && not (object_type == type_event)
    then (false, s)
    else elim (lookup_object s.objects handle object_type) [
      | none ↦ (false, s)
      | some (slot, o) ↦
          if o.public_handle_refs == 0
          then (false, s)
          else let s1 = on_object slot closed s in
            if object_type == type_thread
            then elim o.target [
              | none ↦ (true, s1)
              | some i ↦ (true, maybe_reclaim_thread can_free (on_thread i unreferenced s1) i)
            ]
            else (true, s1)
    ]

unfoldable pub collect_from : (Thread → Bool) → ℕ → Scheduler → ℕ → Scheduler
collect_from can_free zero s i = s
collect_from can_free (suc n) s i =
    collect_from can_free n (maybe_reclaim_thread can_free s i) (i + 1)

unfoldable pub collect : (Thread → Bool) → Scheduler → Scheduler
collect can_free s = collect_from can_free max_threads s 0
