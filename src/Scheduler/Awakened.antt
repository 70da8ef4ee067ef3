-- ===== src/Scheduler/Awakened.antt =====
-- The waiter that is woken: its record, its thread and the waiters that stay.
use guide_xos_net.Prelude.{
  ℕ, ◌+◌, ◌-◌, ◌<◌, ◌≡◌, inl, inr, refl, ap, ◌∙◌, true, false, not, ◌||◌, some, List, [], ◌∷◌, ◌++◌,
  arith, length, ◌==◌, bit, sum, Bool-cases, get_elem?, get_or, set, modify, get_elem?-modify_self,
  get_elem?-modify_ne,
}
use guide_xos_net.Scheduler.State.{
  Scheduler, Thread, WaitRecord, Event, is_runnable, runnable, max_threads, on_thread, on_record,
  on_event, wait_object_0, wait_signaled,
}
use guide_xos_net.Scheduler.Queue.{enqueue_runnable, queued}
use guide_xos_net.Scheduler.Waits.{
  drop_last, without, unlinked, completed_with, woken, complete_waiter, wake_waiter,
}
use guide_xos_net.Scheduler.Inv.{count, count-append}
use guide_xos_net.Scheduler.Waking.{remove_waiter_lem}

-- A live thread is RUNNABLE and in the queue, with the answer of a signal.
pub record Resumed (ts : List Thread) (queue : List ℕ) (i : ℕ) : Type 0 where
  pub body : Thread
  pub at : get_elem? ts i ≡ some body
  pub lives : body.live ≡ true
  pub runs : body.state ≡ runnable
  pub flagged : body.runnable_queued ≡ true
  pub queued_up : 0 < count i queue
  pub waits_for : body.blocked_object ≡ 0
  pub answer : body.blocked_result ≡ wait_signaled

-- The wait of a record is over, with the answer that its object was signaled.
pub record Over (rs : List WaitRecord) (j : ℕ) : Type 0 where
  pub wait : WaitRecord
  pub wait_at : get_elem? rs j ≡ some wait
  pub over : wait.completed ≡ true
  pub result : wait.completion_result ≡ wait_object_0
  pub away : wait.waiter_linked ≡ false

pub record Awakened (s : Scheduler) (i j : ℕ) : Type 0 where
  pub resumed : Resumed s.threads s.runnable_queue i
  pub wait_ended : Over s.wait_records j

-- A queue with room takes a live RUNNABLE thread.
enqueue_room :
    (s : Scheduler) (i : ℕ) {t : Thread}
    → get_elem? s.threads i ≡ some t
    → t.live ≡ true
    → is_runnable t.state ≡ true
    → t.runnable_queued ≡ false
    → length s.runnable_queue < max_threads
    → enqueue_runnable s i ≡ (
      true,
      on_thread i (queued true) (record s { runnable_queue = s.runnable_queue ++ (i ∷ []) }),
    )
unfolding enqueue_runnable
enqueue_room s i at l r q h = ground arith

written_at :
    (rs : List WaitRecord) (a j : ℕ) (f : WaitRecord → WaitRecord) {r : WaitRecord}
    → get_elem? rs j ≡ some r
    → (r' : WaitRecord) × (get_elem? (modify rs a f) j ≡ some r')
written_at rs a j f {r} z = elim (Bool-cases (a == j)) [
  | inl t ↦
      (f r, ap (λ k. get_elem? (modify rs k f) j) (ground arith) ∙ get_elem?-modify_self rs j f z)
  | inr u ↦ (r, get_elem?-modify_ne rs a j f (ground arith) ∙ z)
]

pub wake_waiter-Awakened :
    (s : Scheduler) (e : ℕ) {ev : Event} {j i : ℕ} {r : WaitRecord} {t : Thread}
    → get_elem? s.events e ≡ some ev
    → get_elem? ev.waiters 0 ≡ some j
    → get_elem? s.wait_records j ≡ some r
    → r.valid ≡ true
    → r.active ≡ true
    → r.waiter_linked ≡ true
    → r.thread ≡ some i
    → get_elem? s.threads i ≡ some t
    → t.live ≡ true
    → t.runnable_queued ≡ false
    → length s.runnable_queue < max_threads
    → Awakened (wake_waiter s e 0) i j
unfolding wake_waiter complete_waiter
wake_waiter-Awakened s e {ev} {j} {i} {r} {t} x y z v a l o at live q room =
    let fresh : (not r.valid || (not r.active || not r.waiter_linked)) ≡ false = ground arith in
    let last = get_or ev.waiters (length ev.waiters - 1) 0 in
    let f : WaitRecord → WaitRecord = λ u. record u { waiter_index = 0 } in
    let rs = modify s.wait_records last f in
    let (r1, z1) = written_at s.wait_records last j f z in
    let at1 = get_elem?-modify_self s.threads i (woken wait_signaled) at in
    let removed = remove_waiter_lem s e 0 x y in
    let s1 : Scheduler = on_thread i (woken wait_signaled) (
      on_record j (completed_with wait_object_0) (
        on_record j unlinked (
          on_record last f
            (on_event e (λ v. record v { waiters = drop_last (set v.waiters 0 last) }) s)))) in
    rw (wake_waiter, complete_waiter, x, y, z, fresh, o, removed)
      (rw (enqueue_room s1 i at1 live refl q room) (record {
        resumed = record {
          body = queued true (woken wait_signaled t);
          at = get_elem?-modify_self (modify s.threads i (woken wait_signaled)) i (queued true) at1;
          lives = live;
          runs = refl;
          flagged = refl;
          queued_up = let c = count-append i i s.runnable_queue in ground arith;
          waits_for = refl;
          answer = refl;
        };
        wait_ended = record {
          wait = completed_with wait_object_0 (unlinked r1);
          wait_at =
              get_elem?-modify_self (modify rs j unlinked) j (completed_with wait_object_0)
                (get_elem?-modify_self rs j unlinked z1);
          over = refl;
          result = refl;
          away = refl;
        };
      }))

count-drop_last :
    (k y : ℕ) (ys : List ℕ)
    → count k (drop_last (y ∷ ys)) + bit (get_or (y ∷ ys) (length ys) 0 == k) ≡ count k (y ∷ ys)
unfolding count sum
count-drop_last k y [] = ground arith
count-drop_last k y (x ∷ ys) = omega (arith, count-drop_last k x ys)

-- The waiters that stay are the others, each as often as before.
pub count-without :
    (k j : ℕ) (ws : List ℕ)
    → get_elem? ws 0 ≡ some j
    → count k (without ws 0) + bit (j == k) ≡ count k ws
unfolding count sum
count-without k j [] h = absurd (ground arith)
count-without k j (x ∷ []) h = ground arith
count-without k j (x ∷ y ∷ ys) h = let c = count-drop_last k y ys in ground arith
