-- ===== src/Scheduler/Yielding.antt =====
-- The invariant under a yield and the end of a thread.
use guide_xos_net.Prelude.{
  ℕ, ◌≡◌, inl, inr, refl, sym, ap, subst, ◌∙◌, true, false, ◌&&◌, none, some, [], ◌∷◌, ◌++◌, arith,
  bit, Bool-cases, Option-cases, get_elem?, get_elem?-modify_self,
}
use guide_xos_net.Scheduler.State.{
  Thread, Scheduler, runnable, running, is_running, is_runnable, on_thread, on_current,
}
use guide_xos_net.Scheduler.Queue.{
  queued, in_state, remove_runnable, may_run, pick_next_runnable, choose_next,
}
use guide_xos_net.Scheduler.Calls.{hand_over, prepare_yield, ended, prepare_terminate}
use guide_xos_net.Scheduler.Inv.{
  ThreadFits, ThreadsFit, RecordsFit, ThreadsFit-modify, RecordsFit-awake, IsScheduled,
  IsScheduled-current,
}
use guide_xos_net.Scheduler.Moves.{
  modify-modify, enqueue_cases, ThreadsFit-enqueue, choose_next-fits, pick_next-some,
  remove_runnable_lem,
}

pub choose_next-IsScheduled :
    (s : Scheduler) (n : ℕ)
    → ThreadsFit s.threads s.runnable_queue none
    → RecordsFit s.threads s.wait_records
    → may_run (get_elem? s.threads n) ≡ true
    → IsScheduled (choose_next s n)
choose_next-IsScheduled s n v w m =
    let c = choose_next-fits s n v w m in
    record {
      body = c.0;
      at = subst (λ k. get_elem? (choose_next s n).threads k ≡ some c.0) (sym c.3) c.1;
      alive = c.2;
      threads =
          subst
            (λ k. ThreadsFit (choose_next s n).threads (choose_next s n).runnable_queue (some k))
            (sym c.3) c.4;
      records = c.5;
    }

-- The current thread changes, but neither what it does nor whether it is queued.
pub IsScheduled-touch :
    (s : Scheduler) (f : Thread → Thread) (v : IsScheduled s)
    → (f v.body).live ≡ true
    → (f v.body).runnable_queued ≡ false
    → is_runnable (f v.body).state ≡ false
    → is_running (f v.body).state ≡ true
    → IsScheduled (on_current f s)
IsScheduled-touch s f v l q nr r =
    let c = IsScheduled-current s v in
    let w : ThreadFits s.runnable_queue (some s.current) s.current v.body =
      unfold ThreadsFit in v.threads s.current v.body v.at in
    record {
      body = f v.body;
      at = get_elem?-modify_self s.threads s.current f v.at;
      alive = l;
      threads =
          ThreadsFit-modify s.threads s.runnable_queue s.runnable_queue (some s.current)
            (some s.current) s.current f v.threads v.at
            (record {
              once = w.once ∙ ap bit (c.3 ∙ sym q);
              exactly = q ∙ ap (λ b. b) (ground arith);
              alone = r ∙ ground arith;
            })
            (λ k ne. refl) (λ k ne. refl);
      records = RecordsFit-awake s.threads s.wait_records s.current f v.records v.at c.2;
    }

-- The current thread stops to run, and is not RUNNABLE.
pub IsScheduled-leave :
    (s : Scheduler) (f : Thread → Thread) (v : IsScheduled s)
    → (f v.body).runnable_queued ≡ false
    → is_runnable (f v.body).state ≡ false
    → is_running (f v.body).state ≡ false
    → ThreadsFit (on_current f s).threads s.runnable_queue none
IsScheduled-leave s f v q nr r =
    let w : ThreadFits s.runnable_queue (some s.current) s.current v.body =
      unfold ThreadsFit in v.threads s.current v.body v.at in
    ThreadsFit-modify s.threads s.runnable_queue s.runnable_queue (some s.current) none s.current f
      v.threads v.at
      (record {
        once = w.once ∙ ap bit ((IsScheduled-current s v).3 ∙ sym q);
        exactly = q ∙ ground arith;
        alone = r;
      })
      (λ k ne. refl) (λ k ne. ground arith)

-- The current thread, RUNNABLE, and in the queue.
abbrev left : Scheduler → Scheduler
left s = on_current (in_state runnable) s

abbrev requeued : Scheduler → Scheduler
requeued s =
    on_thread s.current (queued true)
      (record (left s) { runnable_queue = s.runnable_queue ++ (s.current ∷ []) })

left-at :
    (s : Scheduler) (v : IsScheduled s)
    → get_elem? (left s).threads s.current ≡ some (in_state runnable v.body)
left-at s v = get_elem?-modify_self s.threads s.current (in_state runnable) v.at

requeued-at :
    (s : Scheduler) (v : IsScheduled s)
    → get_elem? (requeued s).threads s.current ≡ some (queued true (in_state runnable v.body))
requeued-at s v = get_elem?-modify_self (left s).threads s.current (queued true) (left-at s v)

requeued-threads :
    (s : Scheduler) (v : IsScheduled s)
    → ThreadsFit (requeued s).threads (requeued s).runnable_queue none
requeued-threads s v =
    ThreadsFit-enqueue s.threads s.runnable_queue (some s.current) none s.current
      (in_state runnable) v.threads v.at (IsScheduled-current s v).1 v.alive refl refl
      (λ k ne. ground arith)

requeued-records :
    (s : Scheduler) (v : IsScheduled s) → RecordsFit (requeued s).threads (requeued s).wait_records
requeued-records s v =
    RecordsFit-awake (left s).threads s.wait_records s.current (queued true)
      (RecordsFit-awake s.threads s.wait_records s.current (in_state runnable) v.records v.at
        (IsScheduled-current s v).2)
      (left-at s v) refl

-- With no other to go to, it leaves the queue again and runs on.
stays-IsScheduled :
    (s : Scheduler)
    → IsScheduled s
    → IsScheduled (on_current (in_state running) (remove_runnable (requeued s) s.current).1)
unfolding choose_next
stays-IsScheduled s v =
    let r =
      remove_runnable_lem (requeued s) s.current none (requeued-threads s v) (requeued-at s v)
        refl in
    let c : IsScheduled (choose_next (requeued s) s.current) =
      choose_next-IsScheduled (requeued s) s.current (requeued-threads s v) (requeued-records s v)
        (ap may_run (requeued-at s v) ∙ ap (λ b. b && true) v.alive) in
    let d = rw r at c in
    rw r (record {
      body = d.body;
      at = d.at;
      alive = d.alive;
      threads = d.threads;
      records = d.records;
    })

-- Whether or not another thread takes over, a yield leaves one thread running, the current one, with
-- the RUNNABLE ones queued once each.
pub prepare_yield-IsScheduled : (s : Scheduler) → IsScheduled s → IsScheduled (prepare_yield s).1
unfolding prepare_yield hand_over
prepare_yield-IsScheduled s v =
    elim (enqueue_cases (left s) s.current (left-at s v) refl (IsScheduled-current s v).3) [
      | inr e ↦
          rw (prepare_yield, v.at, (IsScheduled-current s v).0, e)
            (subst IsScheduled
              (ap (λ x. record s { threads = x })
                (sym (modify-modify s.threads s.current (in_state runnable) (in_state running))))
              (IsScheduled-touch s (λ x. in_state running (in_state runnable x)) v v.alive
                (IsScheduled-current s v).3 refl refl))
      | inl (l, e) ↦ elim (Option-cases (pick_next_runnable (requeued s).threads s.current)) [
        | inl p ↦
            rw (prepare_yield, v.at, (IsScheduled-current s v).0, e, hand_over, p)
              (stays-IsScheduled s v)
        | inr (n, p) ↦
            let c =
              choose_next-IsScheduled (requeued s) n (requeued-threads s v) (requeued-records s v)
                (pick_next-some (requeued s).threads s.current p) in
            rw (prepare_yield, v.at, (IsScheduled-current s v).0, e, hand_over, p)
              (record {
                body = c.body;
                at = c.at;
                alive = c.alive;
                threads = c.threads;
                records = c.records;
              })
      ]
    ]

-- A thread that ends in favour of another leaves that one running, the current one.
pub prepare_terminate-IsScheduled :
    (s : Scheduler) (value : ℕ)
    → IsScheduled s
    → (prepare_terminate s value).0 ≡ true
    → IsScheduled (prepare_terminate s value).1
unfolding prepare_terminate
prepare_terminate-IsScheduled s value v h = elim (Bool-cases v.body.is_boot_thread) [
  | inl b ↦ absurd (ground arith)
  | inr b ↦ elim (Option-cases (pick_next_runnable s1.threads s.current)) [
    | inl p ↦ absurd (ground arith)
    | inr (n, p) ↦
        rw (prepare_terminate, v.at, r, b, p)
          (choose_next-IsScheduled s1 n
            (IsScheduled-leave s (ended value) v (IsScheduled-current s v).3 refl refl)
            (RecordsFit-awake s.threads s.wait_records s.current (ended value) v.records v.at
              (IsScheduled-current s v).2)
            (pick_next-some s1.threads s.current p))
  ]
]
  where
    s1 : Scheduler
    s1 = on_current (ended value) s

    r : is_running v.body.state ≡ true
    r = (IsScheduled-current s v).0
