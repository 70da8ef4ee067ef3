-- ===== src/Scheduler/Queue.antt =====
-- The queue of runnable threads and the choice of the next one.
use guide_xos_net.Prelude.{
  ℕ, zero, suc, ◌+◌, ◌%◌, Bool, true, false, ◌&&◌, ◌||◌, not, Option, none, some, List, [], ◌∷◌,
  ◌++◌, length, leb, ◌==◌, if◌then◌else◌, any, get_elem?,
}
use guide_xos_net.Scheduler.State.{
  Scheduler, Thread, ThreadState, running, is_runnable, max_threads, on_thread,
}

-- Without the first place that holds the thread; the later ones move up.
abbrev pub delete : ℕ → List ℕ → List ℕ
delete i [] = []
delete i (x ∷ xs) = if x == i then xs else x ∷ delete i xs

abbrev pub queued : Bool → Thread → Thread
queued b t = record t { runnable_queued = b }

abbrev pub in_state : ThreadState → Thread → Thread
in_state k t = record t { state = k }

unfoldable pub enqueue_runnable : Scheduler → ℕ → Bool × Scheduler
enqueue_runnable s i = elim (get_elem? s.threads i) [
  | none ↦ (false, s)
  | some t ↦
      if not t.live || not (is_runnable t.state)
      then (false, s)
      else if t.runnable_queued
      then (true, s)
      else if leb max_threads (length s.runnable_queue)
      then (false, s)
      else (
        true,
        on_thread i (queued true) (record s { runnable_queue = s.runnable_queue ++ (i ∷ []) }),
      )
]

unfoldable pub remove_runnable : Scheduler → ℕ → Bool × Scheduler
remove_runnable s i = elim (get_elem? s.threads i) [
  | none ↦ (false, s)
  | some t ↦
      if not t.runnable_queued
      then (false, s)
      else if any (λ k. k == i) s.runnable_queue
      then (
        true,
        on_thread i (queued false) (record s { runnable_queue = delete i s.runnable_queue }),
      )
      else (false, on_thread i (queued false) s)
]

abbrev pub may_run : Option Thread → Bool
may_run none = false
may_run (some t) = t.live && (is_runnable t.state && t.runnable_queued)

-- The rest of the round from an offset on, which ends at the thread itself.
unfoldable pub pick_from : ℕ → List Thread → ℕ → ℕ → Option ℕ
pick_from zero ts current offset = none
pick_from (suc n) ts current offset =
    let index = (current + offset) % max_threads in
    if may_run (get_elem? ts index) then some index else pick_from n ts current (offset + 1)

unfoldable pub pick_next_runnable : List Thread → ℕ → Option ℕ
pick_next_runnable ts current = pick_from max_threads ts current 1

-- The switch plan is from the thread that was current to the next one.
unfoldable pub choose_next : Scheduler → ℕ → Scheduler
choose_next s next = record (on_thread next (in_state running) (remove_runnable s next).1) {
  current = next;
}
