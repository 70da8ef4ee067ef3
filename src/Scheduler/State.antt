-- ===== src/Scheduler/State.antt =====
-- GXOS_SCHEDULER and its tables. A pointer into a table is a slot of it, none is the null pointer.
-- Of a thread the stack, the saved registers, and the thread-local and COM fields are left out, and of
-- the scheduler the firmware and logging callbacks, the clock and the boot environment.
use guide_xos_net.Prelude.{ℕ, Bool, true, false, Option, none, List, [], modify}

pub data ThreadState : Type 0 where
  free created_suspended runnable running blocked terminated : ThreadState

abbrev pub is_running : ThreadState → Bool
is_running running = true
is_running _ = false

abbrev pub is_runnable : ThreadState → Bool
is_runnable runnable = true
is_runnable _ = false

abbrev pub is_blocked : ThreadState → Bool
is_blocked blocked = true
is_blocked _ = false

pub data WaitResult : Type 0 where
  wait_failure wait_blocked wait_signaled wait_timed_out : WaitResult

abbrev pub max_threads : ℕ
max_threads = 6

abbrev pub max_waiters : ℕ
max_waiters = 6

abbrev pub max_wait_records : ℕ
max_wait_records = 6

abbrev pub max_events : ℕ
max_events = 12

-- GXOS_WAIT_OBJECT_0, GXOS_WAIT_TIMEOUT, GXOS_WAIT_FAILED and UINT32_MAX
abbrev pub wait_object_0 : ℕ
wait_object_0 = 0

abbrev pub wait_timeout : ℕ
wait_timeout = 0x102

abbrev pub wait_failed : ℕ
wait_failed = 0xFFFFFFFF

abbrev pub u32_max : ℕ
u32_max = 0xFFFFFFFF

pub record Thread : Type 0 where
  pub live : Bool
  pub is_boot_thread : Bool
  pub identity : ℕ
  pub generation : ℕ
  pub object_slot : ℕ
  pub state : ThreadState
  pub runnable_queued : Bool
  pub suspend_count : ℕ
  pub public_handle_refs : ℕ
  pub execution_refs : ℕ
  pub deferred_reclaim : ℕ
  pub return_value : ℕ
  pub blocked_object : ℕ
  pub blocked_result : WaitResult
  pub wait_record : Option ℕ

-- The target of an object is the slot in the table of its type.
pub record Object : Type 0 where
  pub live : Bool
  pub object_type : ℕ
  pub close_state : Bool
  pub generation : ℕ
  pub slot : ℕ
  pub public_handle_refs : ℕ
  pub internal_refs : ℕ
  pub target : Option ℕ

-- The waiters are the wait records in the first `waiter_count` places of the array.
pub record Event : Type 0 where
  pub live : Bool
  pub manual_reset : Bool
  pub signaled : Bool
  pub generation : ℕ
  pub object_slot : ℕ
  pub waiters : List ℕ

pub record WaitRecord : Type 0 where
  pub valid : Bool
  pub active : Bool
  pub completed : Bool
  pub waiter_linked : Bool
  pub pin_held : Bool
  pub wait_kind : ℕ
  pub timeout_armed : Bool
  pub generation : ℕ
  pub waiting_identity : ℕ
  pub waiting_thread_slot : ℕ
  pub waiting_thread_generation : ℕ
  pub object_slot : ℕ
  pub object_generation : ℕ
  pub waiter_index : ℕ
  pub completion_result : ℕ
  pub deadline_ms : ℕ
  pub thread : Option ℕ
  pub object : Option ℕ
  pub waitable : Option ℕ

-- Of a notification only its waitable is kept, which is an event. The queue is the first `runnable_count` places of the array; the plan of the last yield is the
-- thread it leaves and the one it goes to.
pub record Scheduler : Type 0 where
  pub threads : List Thread
  pub wait_records : List WaitRecord
  pub events : List Event
  pub notifications : List Event
  pub objects : List Object
  pub runnable_queue : List ℕ
  pub current : ℕ
  pub next_identity : ℕ
  pub next_wait_generation : ℕ
  pub active_wait_count : ℕ
  pub active : Bool
  pub pending_wait_timeout_armed : Bool
  pub pending_wait_deadline_ms : ℕ
  pub pending_plan : Option (ℕ × ℕ)

abbrev pub empty_object : Object
empty_object = record {
  live = false;
  object_type = 0;
  close_state = false;
  generation = 0;
  slot = 0;
  public_handle_refs = 0;
  internal_refs = 0;
  target = none;
}

abbrev pub empty_record : WaitRecord
empty_record = record {
  valid = false;
  active = false;
  completed = false;
  waiter_linked = false;
  pin_held = false;
  wait_kind = 0;
  timeout_armed = false;
  generation = 0;
  waiting_identity = 0;
  waiting_thread_slot = 0;
  waiting_thread_generation = 0;
  object_slot = 0;
  object_generation = 0;
  waiter_index = 0;
  completion_result = 0;
  deadline_ms = 0;
  thread = none;
  object = none;
  waitable = none;
}

-- Writes through a pointer to an entry.
abbrev pub on_thread : ℕ → (Thread → Thread) → Scheduler → Scheduler
on_thread i f s = record s { threads = modify s.threads i f }

abbrev pub on_record : ℕ → (WaitRecord → WaitRecord) → Scheduler → Scheduler
on_record j f s = record s { wait_records = modify s.wait_records j f }

abbrev pub on_event : ℕ → (Event → Event) → Scheduler → Scheduler
on_event e f s = record s { events = modify s.events e f }

abbrev pub on_object : ℕ → (Object → Object) → Scheduler → Scheduler
on_object o f s = record s { objects = modify s.objects o f }

abbrev pub on_notification : ℕ → (Event → Event) → Scheduler → Scheduler
on_notification e f s = record s { notifications = modify s.notifications e f }

abbrev pub on_current : (Thread → Thread) → Scheduler → Scheduler
on_current f s = on_thread s.current f s

abbrev pub empty_event : Event
empty_event = record {
  live = false;
  manual_reset = false;
  signaled = false;
  generation = 0;
  object_slot = 0;
  waiters = [];
}

abbrev pub empty_thread : Thread
empty_thread = record {
  live = false;
  is_boot_thread = false;
  identity = 0;
  generation = 0;
  object_slot = 0;
  state = free;
  runnable_queued = false;
  suspend_count = 0;
  public_handle_refs = 0;
  execution_refs = 0;
  deferred_reclaim = 0;
  return_value = 0;
  blocked_object = 0;
  blocked_result = wait_failure;
  wait_record = none;
}
