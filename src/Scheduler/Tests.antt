-- ===== src/Scheduler/Tests.antt =====
-- The scheduler at concrete inputs.
use guide_xos_net.Prelude.{
  ℕ, ◌⊎◌, [], Option, sym, subst, ap, ◌∙◌, ◌+◌, ◌%◌, ◌<◌, ◌≡◌, refl, true, false, ◌&&◌, ◌||◌, none,
  some, List, ◌∷◌, arith, ◌==◌, if◌then◌else◌, bit, length, get_elem?, get_or, replicate, find_slot,
  any, ◌-◌,
}
use guide_xos_net.Scheduler.State.{
  Scheduler, Thread, Object, Event, WaitRecord, empty_thread, empty_object, empty_event,
  empty_record, max_threads, is_running, is_runnable, is_blocked,
}
use guide_xos_net.Scheduler.Handles.{
  make_handle, decode_handle, max_objects, type_event, type_thread, decode-make,
}
use guide_xos_net.Scheduler.Objects.{
  lookup_object, allocate_object, release_object, new_object, lookup-allocate, lookup-reallocate,
}
use guide_xos_net.Scheduler.Queue.{
  enqueue_runnable, remove_runnable, may_run, pick_from, pick_next_runnable, choose_next,
}
use guide_xos_net.Scheduler.Waits.{add_waiter, allocate_wait_record}
use guide_xos_net.Scheduler.Events.{create_event, signal, validate_open_event_handle}
use guide_xos_net.Scheduler.Calls.{resume, resume_thread}
use guide_xos_net.Scheduler.Registration.{
  prepare_wait_record, register_wait, link_wait, link_answer, block_on,
}
use guide_xos_net.Scheduler.Threads.{started, start_with, initialize, create_suspended_thread}
use guide_xos_net.Scheduler.Inv.{count}
use guide_xos_net.Scheduler.Reach.{
  Reach, here, next, by_create_event, by_create_thread, by_resume, by_wait, Reach-running,
  Reach-waiting,
}
use guide_xos_net.Scheduler.Events.{event_is_signaled, reset_event}
use guide_xos_net.Scheduler.Creating.{create_event-event_is_signaled}
use guide_xos_net.Scheduler.Picking.{pick_next-fair}
use guide_xos_net.Scheduler.Awakened.{Awakened}
use guide_xos_net.Scheduler.Signalled.{first_of}
use guide_xos_net.Scheduler.Signals.{Waiting, signal-waiters}

decode-make_example : decode_handle (make_handle 2 3 7) 2 ≡ some (3, 7)
decode-make_example = decode-make 2 2 3 7 (omega arith) (omega arith) (omega arith) (omega arith)

abbrev no_objects : List Object
no_objects = replicate max_objects empty_object

abbrev first_event : Object
first_event = new_object type_event (some 0) 0 1

abbrev one_object : List Object
one_object = first_event ∷ replicate 15 empty_object

lookup-allocate_example :
    (o : Object) × (get_elem? one_object 0 ≡ some o)
    × (o.target ≡ some 0)
    × (lookup_object one_object (make_handle type_event 0 1) type_event ≡ some (0, o))
unfolding allocate_object find_slot replicate
lookup-allocate_example =
    lookup-allocate no_objects type_event type_event (some 0) refl (omega arith) refl

abbrev again : List Object
again = new_object type_thread (some 0) 0 2 ∷ replicate 15 empty_object

lookup-reallocate_example : lookup_object again (make_handle type_event 0 1) type_event ≡ none
unfolding allocate_object find_slot replicate release_object
lookup-reallocate_example =
    lookup-reallocate one_object 0 first_event type_event type_event type_thread (some 0)
      {os' = again} refl refl (omega arith) (omega arith) (omega arith) refl

-- The start; then an event, a thread that is resumed, and the boot thread that waits.
abbrev s0 : Scheduler
s0 = started 0 (
    record (new_object type_thread (some 0) 0 1) { public_handle_refs = 0 }
    ∷ replicate 15 empty_object)

abbrev s1 : Scheduler
s1 = (create_event s0 false false).1

abbrev s2 : Scheduler
s2 = (create_suspended_thread true true s1).1

abbrev s3 : Scheduler
s3 = (resume_thread (λ _. true) s2 (make_handle type_thread 2 1)).2

abbrev s4 : Scheduler
s4 = (prepare_wait_record s3 (make_handle type_event 1 1)).2

to_s4 : Reach s0 s4
to_s4 =
    next
      (next (next (next here (by_create_event false false)) (by_create_thread true true))
        (by_resume (λ _. true) (make_handle type_thread 2 1)))
      (by_wait (make_handle type_event 1 1))

worker_runs : s4.current ≡ 1
unfolding started create_event create_suspended_thread resume_thread resume prepare_wait_record
    lookup_object allocate_object find_slot replicate decode_handle make_handle enqueue_runnable
    validate_open_event_handle register_wait link_wait link_answer block_on add_waiter
    allocate_wait_record pick_next_runnable pick_from choose_next remove_runnable any
worker_runs = refl

starts : initialize true ≡ some s0
unfolding initialize start_with started allocate_object find_slot replicate
starts = refl

Reach-running_example :
    ((i : ℕ) (u : Thread)
      → get_elem? s4.threads i ≡ some u
      → (is_running u.state ≡ (s4.current == i))
        × (count i s4.runnable_queue ≡ bit (u.live && is_runnable u.state)))
    × ((u : Thread) × (get_elem? s4.threads s4.current ≡ some u) × (u.live ≡ true))
Reach-running_example = Reach-running true s0 s4 starts to_s4

abbrev waiting_record : WaitRecord
waiting_record = get_or s4.wait_records 0 empty_record

waiting_at : get_elem? s4.wait_records 0 ≡ some waiting_record
unfolding started create_event create_suspended_thread resume_thread resume prepare_wait_record
    lookup_object allocate_object find_slot replicate decode_handle make_handle enqueue_runnable
    validate_open_event_handle register_wait link_wait link_answer block_on add_waiter
    allocate_wait_record pick_next_runnable pick_from choose_next remove_runnable any
waiting_at = refl

record_linked : waiting_record.waiter_linked ≡ true
unfolding started create_event create_suspended_thread resume_thread resume prepare_wait_record
    lookup_object allocate_object find_slot replicate decode_handle make_handle enqueue_runnable
    validate_open_event_handle register_wait link_wait link_answer block_on add_waiter
    allocate_wait_record pick_next_runnable pick_from choose_next remove_runnable any
record_linked = refl

Reach-waiting_example :
    (i : ℕ) × (u : Thread) × (waiting_record.thread ≡ some i)
    × (get_elem? s4.threads i ≡ some u)
    × (is_blocked u.state ≡ true)
    × (u.wait_record ≡ some 0)
Reach-waiting_example =
    Reach-waiting true s0 s4 0 waiting_record starts to_s4 waiting_at record_linked

abbrev waited_event : Event
waited_event = get_or s4.events 0 empty_event

event_at : get_elem? s4.events 0 ≡ some waited_event
unfolding started create_event create_suspended_thread resume_thread resume prepare_wait_record
    lookup_object allocate_object find_slot replicate decode_handle make_handle enqueue_runnable
    validate_open_event_handle register_wait link_wait link_answer block_on add_waiter
    allocate_wait_record pick_next_runnable pick_from choose_next remove_runnable any
event_at = refl

waiter_at : get_elem? waited_event.waiters 0 ≡ some 0
unfolding started create_event create_suspended_thread resume_thread resume prepare_wait_record
    lookup_object allocate_object find_slot replicate decode_handle make_handle enqueue_runnable
    validate_open_event_handle register_wait link_wait link_answer block_on add_waiter
    allocate_wait_record pick_next_runnable pick_from choose_next remove_runnable any
waiter_at = refl

first-Waiting : Waiting s4 0 0
unfolding started create_event create_suspended_thread resume_thread resume prepare_wait_record
    lookup_object allocate_object find_slot replicate decode_handle make_handle enqueue_runnable
    validate_open_event_handle register_wait link_wait link_answer block_on add_waiter
    allocate_wait_record pick_next_runnable pick_from choose_next remove_runnable any
first-Waiting = record {
  wait = waiting_record;
  wait_at = refl;
  valid = refl;
  active = refl;
  linked = refl;
  owner = refl;
  body = get_or s4.threads 0 empty_thread;
  at = refl;
  lives = refl;
  away = refl;
  room = omega arith;
}

first_ready : (j : ℕ) → get_elem? waited_event.waiters 0 ≡ some j → (i : ℕ) × Waiting s4 j i
first_ready j y =
    (0, subst (λ k. Waiting s4 k 0) (ap (λ o. get_or_zero o) (sym waiter_at ∙ y)) first-Waiting)
  where
    get_or_zero : Option ℕ → ℕ
    get_or_zero none = 0
    get_or_zero (some k) = k

signal-waiters_example :
    ((after : List ℕ) × (get_elem? (signal s4 0 waited_event).events 0
        ≡ some (record waited_event {
          waiters = after;
          signaled = waited_event.manual_reset || length waited_event.waiters == 0;
        }))
      × (length after ≡ (if waited_event.manual_reset then 0 else length waited_event.waiters - 1))
      × ((k : ℕ)
          → count k after
              + (if waited_event.manual_reset
                  then count k waited_event.waiters
                  else first_of k waited_event.waiters)
            ≡ count k waited_event.waiters))
    × ((waited_event.waiters ≡ [])
        ⊎ ((j : ℕ) × (i : ℕ) × (r : WaitRecord) × (get_elem? waited_event.waiters 0 ≡ some j)
            × (get_elem? s4.wait_records j ≡ some r)
            × (r.thread ≡ some i)
            × Awakened (signal s4 0 waited_event) i j))
signal-waiters_example = signal-waiters s4 0 waited_event event_at first_ready

worker_may : may_run (get_elem? s3.threads 1) ≡ true
unfolding started create_event create_suspended_thread resume_thread resume prepare_wait_record
    lookup_object allocate_object find_slot replicate decode_handle make_handle enqueue_runnable
    validate_open_event_handle register_wait link_wait link_answer block_on add_waiter
    allocate_wait_record pick_next_runnable pick_from choose_next remove_runnable any
worker_may = refl

pick_next-fair_example :
    (j : ℕ) × (distance : ℕ) × (pick_next_runnable s3.threads 0 ≡ some j)
    × (distance < max_threads)
    × (j ≡ (0 + (1 + distance)) % max_threads)
    × (may_run (get_elem? s3.threads j) ≡ true)
    × ((k : ℕ)
        → k < distance
        → may_run (get_elem? s3.threads ((0 + (1 + k)) % max_threads)) ≡ false)
pick_next-fair_example = pick_next-fair s3.threads 0 1 (omega arith) (omega arith) worker_may

full_table : length s0.objects ≡ max_objects
unfolding started replicate
full_table = refl

creates :
    create_event s0 true true ≡ (some (make_handle type_event 1 1), (create_event s0 true true).1)
unfolding create_event started allocate_object find_slot replicate make_handle
creates = refl

create_event-event_is_signaled_example :
    (event_is_signaled (create_event s0 true true).1 (make_handle type_event 1 1) ≡ true)
    × ((reset_event (create_event s0 true true).1 (make_handle type_event 1 1)).0 ≡ true)
    × (event_is_signaled
          (reset_event (create_event s0 true true).1 (make_handle type_event 1 1)).1
          (make_handle type_event 1 1)
        ≡ false)
create_event-event_is_signaled_example =
    create_event-event_is_signaled s0 true true full_table creates
