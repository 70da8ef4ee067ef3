-- ===== src/Scheduler/Waking.antt =====
-- The invariant where a waiter leaves an event and its thread is woken.
use guide_xos_net.Prelude.{
  ℕ, ◌-◌, ◌≡◌, ◌≢◌, inl, inr, refl, sym, ap, subst, ◌∙◌, true, false, not, ◌&&◌, ◌||◌, some, arith,
  length, if◌then◌else◌, bit, Bool-cases, Option-cases, get_elem?, get_or, modify, set,
  get_elem?-modify_self, get_elem?-modify_ne, get_elem?-modify_cases,
}
use guide_xos_net.Scheduler.State.{
  Thread, WaitRecord, Scheduler, Event, WaitResult, ThreadState, free, created_suspended, runnable,
  running, blocked, terminated, is_running, is_runnable, is_blocked, on_thread, on_record, on_event,
}
use guide_xos_net.Scheduler.Queue.{queued, in_state, enqueue_runnable}
use guide_xos_net.Scheduler.Waits.{
  unlinked, drop_last, remove_waiter, completed_with, woken, wake_thread, complete_waiter,
}
use guide_xos_net.Scheduler.Inv.{
  ThreadFits, ThreadsFit, RecordsFit, Waits, ThreadsFit-modify, RecordsFit-modify, RecordsFit-write,
  IsScheduled,
}
use guide_xos_net.Scheduler.Moves.{modify-modify, enqueue_cases, ThreadsFit-enqueue}

blocked_apart :
    (k : ThreadState) → is_blocked k ≡ true → (is_runnable k ≡ false) × (is_running k ≡ false)
blocked_apart blocked e = (refl, refl)
blocked_apart free e = absurd (ground arith)
blocked_apart created_suspended e = absurd (ground arith)
blocked_apart runnable e = absurd (ground arith)
blocked_apart running e = absurd (ground arith)
blocked_apart terminated e = absurd (ground arith)

-- A thread that neither runs nor is RUNNABLE nor waits becomes RUNNABLE and enters the queue, and
-- goes back where the queue refuses it.
pub IsScheduled-awaken :
    (s : Scheduler) (i : ℕ) (f g : Thread → Thread) {t : Thread}
    → IsScheduled s
    → get_elem? s.threads i ≡ some t
    → is_runnable t.state ≡ false
    → is_running t.state ≡ false
    → ((j : ℕ) (r : WaitRecord)
        → get_elem? s.wait_records j ≡ some r
        → r.waiter_linked ≡ true
        → r.thread ≢ some i)
    → is_runnable (f t).state ≡ true
    → (f t).runnable_queued ≡ t.runnable_queued
    → (g (f t)).runnable_queued ≡ t.runnable_queued
    → is_runnable (g (f t)).state ≡ false
    → is_running (g (f t)).state ≡ false
    → IsScheduled (
        let (done, s') = enqueue_runnable (on_thread i f s) i in
        if done then s' else on_thread i g s')
IsScheduled-awaken s i f g {t} v at nr nn free_of r q gq gr gn =
    elim (enqueue_cases (on_thread i f s) i at1 r (q ∙ unqueued)) [
      | inl (l, e) ↦ rw e (record {
        body = v.body;
        at =
            get_elem?-modify_ne (modify s.threads i f) i s.current (queued true) ne
            ∙ get_elem?-modify_ne s.threads i s.current f ne
            ∙ v.at;
        alive = v.alive;
        threads =
            ThreadsFit-enqueue s.threads s.runnable_queue (some s.current) (some s.current) i f
              v.threads at nr l r (sym w.alone ∙ nn) (λ k ne. refl);
        records =
            RecordsFit-modify (modify s.threads i f) s.wait_records i (queued true)
              (RecordsFit-modify s.threads s.wait_records i f v.records free_of) free_of;
      })
      | inr e ↦ rw e (record {
        body = v.body;
        at =
            get_elem?-modify_ne (modify s.threads i f) i s.current g ne
            ∙ get_elem?-modify_ne s.threads i s.current f ne
            ∙ v.at;
        alive = v.alive;
        threads = rw (modify-modify s.threads i f g) (
            ThreadsFit-modify s.threads s.runnable_queue s.runnable_queue (some s.current)
              (some s.current) i (λ x. g (f x)) v.threads at
              (record {
                once = w.once ∙ ap bit (sym gq);
                exactly = gq ∙ unqueued ∙ ground arith;
                alone = gn ∙ sym nn ∙ w.alone;
              })
              (λ k ne. refl) (λ k ne. refl));
        records =
            RecordsFit-modify (modify s.threads i f) s.wait_records i g
              (RecordsFit-modify s.threads s.wait_records i f v.records free_of) free_of;
      })
    ]
  where
    w : ThreadFits s.runnable_queue (some s.current) i t
    w = unfold ThreadsFit in v.threads i t at

    unqueued : t.runnable_queued ≡ false
    unqueued = w.exactly ∙ ap (λ b. t.live && b) nr ∙ ground arith

    ne : i ≢ s.current
    ne = let a = w.alone in ground arith

    at1 : get_elem? (on_thread i f s).threads i ≡ some (f t)
    at1 = get_elem?-modify_self s.threads i f at

-- A write to the records keeps the threads, and no record gets linked or another thread.
pub IsScheduled-record :
    (s : Scheduler) (k : ℕ) (g : WaitRecord → WaitRecord)
    → IsScheduled s
    → ((r : WaitRecord)
        → get_elem? s.wait_records k ≡ some r
        → (g r).waiter_linked ≡ true
        → (r.waiter_linked ≡ true) × ((g r).thread ≡ r.thread))
    → IsScheduled (on_record k g s)
IsScheduled-record s k g v keeps = record {
  body = v.body;
  at = v.at;
  alive = v.alive;
  threads = v.threads;
  records = RecordsFit-write s.threads s.wait_records k g v.records keeps;
}

-- The invariant reads the threads, the queue, the records and the current thread.
pub IsScheduled-same :
    (s s' : Scheduler)
    → s'.threads ≡ s.threads
    → s'.runnable_queue ≡ s.runnable_queue
    → s'.wait_records ≡ s.wait_records
    → s'.current ≡ s.current
    → IsScheduled s
    → IsScheduled s'
IsScheduled-same s s' ts q rs c v = record {
  body = v.body;
  at = ap (λ x. get_elem? x s'.current) ts ∙ ap (λ x. get_elem? s.threads x) c ∙ v.at;
  alive = v.alive;
  threads = rw (ts, q, c) v.threads;
  records = rw (ts, rs) v.records;
}

pub remove_waiter-IsScheduled :
    (s : Scheduler) (e index : ℕ) → IsScheduled s → IsScheduled (remove_waiter s e index)
unfolding remove_waiter
remove_waiter-IsScheduled s e index v = elim (Option-cases (get_elem? s.events e)) [
  | inl n ↦ rw (remove_waiter, n) v
  | inr (ev, x) ↦ elim (Option-cases (get_elem? ev.waiters index)) [
    | inl n ↦ rw (remove_waiter, x, n) v
    | inr (j, y) ↦
        let last = get_or ev.waiters (length ev.waiters - 1) 0 in
        let s1 = on_event e (λ u. record u { waiters = drop_last (set u.waiters index last) }) s in
        let s2 = on_record last (λ r. record r { waiter_index = index }) s1 in
        rw (remove_waiter, x, y)
          (IsScheduled-record s2 j unlinked
            (IsScheduled-record s1 last (λ r. record r { waiter_index = index })
              (IsScheduled-same s s1 refl refl refl refl v) (λ r a l. (l, refl)))
            (λ r a l. ground arith))
  ]
]

pub remove_waiter_lem :
    (s : Scheduler) (e index : ℕ) {ev : Event} {j : ℕ}
    → get_elem? s.events e ≡ some ev
    → get_elem? ev.waiters index ≡ some j
    → remove_waiter s e index ≡ (
        let last = get_or ev.waiters (length ev.waiters - 1) 0 in
        on_record j unlinked (
          on_record last
            (λ r. record r { waiter_index = index })
            (on_event e (λ v. record v { waiters = drop_last (set v.waiters index last) }) s)))
unfolding remove_waiter
remove_waiter_lem s e index x y = rw (remove_waiter, x, y) refl

-- A record that leaves an event is linked no more, also once it is completed.
completed-unlinked :
    (s : Scheduler) (e index result : ℕ) {ev : Event} {j : ℕ} {r : WaitRecord}
    → get_elem? s.events e ≡ some ev
    → get_elem? ev.waiters index ≡ some j
    → get_elem? (on_record j (completed_with result) (remove_waiter s e index)).wait_records j
      ≡ some r
    → r.waiter_linked ≡ false
completed-unlinked s e index result {ev} {j} {r} x y h =
    let last = get_or ev.waiters (length ev.waiters - 1) 0 in
    let rs = modify s.wait_records last (λ z. record z { waiter_index = index }) in
    let h' : get_elem? (modify (modify rs j unlinked) j (completed_with result)) j ≡ some r =
      rw (remove_waiter_lem s e index x y) at h in
    elim (get_elem?-modify_cases (modify rs j unlinked) j j (completed_with result) h') [
      | inr (ne, o) ↦ absurd (ne refl)
      | inl (z, p, o, q) ↦ elim (get_elem?-modify_cases rs j j unlinked o) [
        | inr (ne, o') ↦ absurd (ne refl)
        | inl (z', p', o', q') ↦ ap (λ u. u.waiter_linked) q ∙ ap (λ u. u.waiter_linked) q'
      ]
    ]

remove_waiter-threads :
    (s : Scheduler) (e index : ℕ) {ev : Event} {j : ℕ}
    → get_elem? s.events e ≡ some ev
    → get_elem? ev.waiters index ≡ some j
    → (remove_waiter s e index).threads ≡ s.threads
remove_waiter-threads s e index x y = ap (λ z. z.threads) (remove_waiter_lem s e index x y)

-- A waiter whose wait is over is woken.
wake-IsScheduled :
    (s : Scheduler) (e index result : ℕ) (w : WaitResult) {ev : Event} {j i : ℕ} {r : WaitRecord}
    → IsScheduled s
    → get_elem? s.events e ≡ some ev
    → get_elem? ev.waiters index ≡ some j
    → get_elem? s.wait_records j ≡ some r
    → r.waiter_linked ≡ true
    → r.thread ≡ some i
    → IsScheduled (wake_thread (on_record j (completed_with result) (remove_waiter s e index)) i w)
wake-IsScheduled s e index result w {ev} {j} {i} {r} v x y z l o =
    let b = blocked_apart q.body.state q.blocks in
    IsScheduled-awaken s1 i (woken w) (in_state blocked) v1 at1 b.0 b.1 others refl refl refl refl
      refl
  where
    s1 : Scheduler
    s1 = on_record j (completed_with result) (remove_waiter s e index)

    v1 : IsScheduled s1
    v1 =
        IsScheduled-record (remove_waiter s e index) j (completed_with result)
          (remove_waiter-IsScheduled s e index v) (λ u a k. (k, refl))

    q : Waits s.threads j r
    q = unfold RecordsFit in v.records j r z l

    at1 : get_elem? s1.threads i ≡ some q.body
    at1 =
        ap (λ ts. get_elem? ts i) (remove_waiter-threads s e index x y)
        ∙ (let n = q.owner in let m = q.at in ground arith)

    others :
        (k : ℕ) (u : WaitRecord)
        → get_elem? s1.wait_records k ≡ some u
        → u.waiter_linked ≡ true
        → u.thread ≢ some i
    others k u at_k linked mine =
        let p : Waits s1.threads k u = unfold RecordsFit in v1.records k u at_k linked in
        let n : p.waiter ≡ i = let m = p.owner in ground arith in
        let same_body : some p.body ≡ some q.body =
          sym p.at ∙ ap (λ h. get_elem? s1.threads h) n ∙ at1 in
        let same_record : k ≡ j =
          let c = p.own in
          let d = q.own in
          let g : p.body ≡ q.body = ground arith in
          let c' : q.body.wait_record ≡ some k = subst (λ h. h.wait_record ≡ some k) g c in
          ground arith in
        let dead =
          completed-unlinked s e index result x y
            (subst (λ h. get_elem? s1.wait_records h ≡ some u) same_record at_k) in
        ground arith

pub complete_waiter-IsScheduled :
    (s : Scheduler) (e index result : ℕ) (w : WaitResult)
    → IsScheduled s
    → IsScheduled (complete_waiter s e index result w)
unfolding complete_waiter
complete_waiter-IsScheduled s e index result w v = elim (Option-cases (get_elem? s.events e)) [
  | inl n ↦ rw (complete_waiter, n) v
  | inr (ev, x) ↦ elim (Option-cases (get_elem? ev.waiters index)) [
    | inl n ↦ rw (complete_waiter, x, n) v
    | inr (j, y) ↦ elim (Option-cases (get_elem? s.wait_records j)) [
      | inl n ↦ rw (complete_waiter, x, y, n) removed
      | inr (r, z) ↦ elim (Bool-cases (not r.valid || (not r.active || not r.waiter_linked))) [
        | inl stale ↦ rw (complete_waiter, x, y, z, stale) removed
        | inr fresh ↦ elim (Option-cases r.thread) [
          | inl n ↦ rw (complete_waiter, x, y, z, fresh, n) removed
          | inr (i, o) ↦
              rw (complete_waiter, x, y, z, fresh, o)
                (wake-IsScheduled s e index result w v x y z (ground arith) o)
        ]
      ]
    ]
  ]
]
  where
    removed : IsScheduled (remove_waiter s e index)
    removed = remove_waiter-IsScheduled s e index v
