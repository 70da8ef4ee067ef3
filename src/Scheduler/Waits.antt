-- ===== src/Scheduler/Waits.antt =====
-- Wait records and the waiters of an event.
use guide_xos_net.Prelude.{
  ℕ, ◌+◌, ◌-◌, ◌%◌, ◌^◌, Bool, true, false, ◌&&◌, ◌||◌, not, Option, none, some, List, [], ◌∷◌,
  ◌++◌, length, leb, ◌==◌, if◌then◌else◌, any, get_elem?, get_or, set, find_slot,
}
use guide_xos_net.Scheduler.State.{
  Scheduler, Thread, WaitRecord, Object, WaitResult, wait_signaled, wait_timed_out, runnable,
  blocked, max_waiters, wait_object_0, wait_timeout, u32_max, empty_record, on_thread, on_record,
  on_event, on_object,
}
use guide_xos_net.Scheduler.Queue.{enqueue_runnable, in_state}

abbrev pub same : Option ℕ → Option ℕ → Bool
same none none = true
same (some a) (some b) = a == b
same _ _ = false

-- Whether a waiter is the record or one of its thread.
abbrev pub waits_already : List WaitRecord → ℕ → WaitRecord → ℕ → Bool
waits_already rs j r k =
    k == j || (elim (get_elem? rs k) [ none ↦ false | some q ↦ same q.thread r.thread ])

abbrev pub linked_at : ℕ → WaitRecord → WaitRecord
linked_at index r = record r { waiter_index = index; waiter_linked = true }

abbrev pub unlinked : WaitRecord → WaitRecord
unlinked r = record r { waiter_linked = false; waiter_index = u32_max }

unfoldable pub add_waiter : Scheduler → ℕ → ℕ → Bool × Scheduler
add_waiter s e j = elim (get_elem? s.events e) [
  | none ↦ (false, s)
  | some ev ↦ elim (get_elem? s.wait_records j) [
    | none ↦ (false, s)
    | some r ↦
        if leb max_waiters (length ev.waiters) || r.waiter_linked
        then (false, s)
        else if any (waits_already s.wait_records j r) ev.waiters
        then (false, s)
        else (
          true,
          on_event e (λ v. record v { waiters = v.waiters ++ (j ∷ []) })
              (on_record j (linked_at (length ev.waiters)) s),
        )
  ]
]

abbrev pub drop_last : List ℕ → List ℕ
drop_last [] = []
drop_last (x ∷ []) = []
drop_last (x ∷ y ∷ ys) = x ∷ drop_last (y ∷ ys)

-- The waiters without the one at a place, which the last one takes.
abbrev pub without : List ℕ → ℕ → List ℕ
without ws index = drop_last (set ws index (get_or ws (length ws - 1) 0))

-- The last waiter takes the place of the one that leaves.
unfoldable pub remove_waiter : Scheduler → ℕ → ℕ → Scheduler
remove_waiter s e index = elim (get_elem? s.events e) [
  | none ↦ s
  | some ev ↦ elim (get_elem? ev.waiters index) [
    | none ↦ s
    | some j ↦
        let last = get_or ev.waiters (length ev.waiters - 1) 0 in
        on_record j unlinked (
          on_record last (λ r. record r { waiter_index = index })
            (on_event e (λ v. record v { waiters = drop_last (set v.waiters index last) }) s))
  ]
]

abbrev pub completed_with : ℕ → WaitRecord → WaitRecord
completed_with result r = record r { completed = true; completion_result = result }

abbrev pub woken : WaitResult → Thread → Thread
woken result t = record t { blocked_object = 0; blocked_result = result; state = runnable }

-- The thread goes to the queue; if the queue refuses it, it stays blocked.
abbrev pub wake_thread : Scheduler → ℕ → WaitResult → Scheduler
wake_thread s i result =
    let (done, s') = enqueue_runnable (on_thread i (woken result) s) i in
    if done then s' else on_thread i (in_state blocked) s'

unfoldable pub complete_waiter : Scheduler → ℕ → ℕ → ℕ → WaitResult → Scheduler
complete_waiter s e index result wait_result = elim (get_elem? s.events e) [
  | none ↦ s
  | some ev ↦ elim (get_elem? ev.waiters index) [
    | none ↦ s
    | some j ↦ elim (get_elem? s.wait_records j) [
      | none ↦ remove_waiter s e index
      | some r ↦
          if not r.valid || (not r.active || not r.waiter_linked)
          then remove_waiter s e index
          else elim r.thread [
            | none ↦ remove_waiter s e index
            | some i ↦
                wake_thread (on_record j (completed_with result) (remove_waiter s e index)) i
                  wait_result
          ]
    ]
  ]
]

unfoldable pub wake_waiter : Scheduler → ℕ → ℕ → Scheduler
wake_waiter s e index = complete_waiter s e index wait_object_0 wait_signaled

unfoldable pub timeout_waiter : Scheduler → WaitRecord → Scheduler
timeout_waiter s r = elim r.waitable [
  | none ↦ s
  | some e ↦
      if not r.waiter_linked
      then s
      else complete_waiter s e r.waiter_index wait_timeout wait_timed_out
]

-- The slot of a free record, which is filled with zeros but for its generation, and the counter.
abbrev pub next_wait_generation_of : ℕ → ℕ × ℕ
next_wait_generation_of g = if g == 0 then (1, 2) else (g, (g + 1) % 2 ^ 32)

unfoldable pub allocate_wait_record : Scheduler → Option (ℕ × Scheduler)
allocate_wait_record s = elim (find_slot (λ r. not r.valid) s.wait_records) [
  | none ↦ none
  | some (j, old) ↦
      let (generation, next) = next_wait_generation_of s.next_wait_generation in
      some (
        j,
        on_record j
            (λ r. record empty_record {
              valid = true;
              generation = generation;
              waiter_index = u32_max;
            })
            (record s { next_wait_generation = next }),
      )
]

abbrev pub unpinned : Object → Object
unpinned o = if o.internal_refs == 0 then o else record o { internal_refs = o.internal_refs - 1 }

-- The pin of a record is given back, and the record filled with zeros.
unfoldable pub release_wait_record : Scheduler → ℕ → Scheduler
release_wait_record s j = elim (get_elem? s.wait_records j) [
  | none ↦ s
  | some r ↦
      if not r.valid
      then s
      else let s1 = record s {
        active_wait_count =
            if r.active && not (s.active_wait_count == 0)
            then s.active_wait_count - 1
            else s.active_wait_count;
      } in
        let s2 =
          if r.pin_held
          then elim r.object [ none ↦ s1 | some o ↦ on_object o unpinned s1 ]
          else s1 in
        on_record j (λ _. empty_record) s2
]
