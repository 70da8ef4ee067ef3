-- ===== src/Scheduler/Staying.antt =====
-- A thread that was woken stays so while other waiters of an event are woken.
use guide_xos_net.Prelude.{
  ℕ, zero, suc, ◌-◌, ◌≡◌, ◌≢◌, ◌⊎◌, inl, inr, refl, sym, subst, ◌∙◌, Bool, true, false, not, ◌||◌,
  some, List, [], ◌∷◌, ◌++◌, arith, length, leb, ◌==◌, Bool-cases, Option-cases, modify, get_elem?,
  get_or, get_elem?-modify_self, get_elem?-modify_ne,
}
use guide_xos_net.Scheduler.State.{
  Scheduler, Thread, WaitRecord, is_runnable, max_threads, on_thread, on_record, wait_object_0,
  wait_signaled, blocked,
}
use guide_xos_net.Scheduler.Queue.{enqueue_runnable, queued, in_state}
use guide_xos_net.Scheduler.Waits.{
  unlinked, remove_waiter, completed_with, woken, wake_thread, complete_waiter, wake_waiter,
}
use guide_xos_net.Scheduler.Events.{wake_all}
use guide_xos_net.Scheduler.Inv.{count-append}
use guide_xos_net.Scheduler.Awakened.{Resumed, Over, Awakened}

Resumed-thread :
    (ts : List Thread) (q : List ℕ) (k : ℕ) (f : Thread → Thread) {i : ℕ}
    → k ≢ i
    → Resumed ts q i
    → Resumed (modify ts k f) q i
Resumed-thread ts q k f {i} ne w = record {
  body = w.body;
  at = get_elem?-modify_ne ts k i f ne ∙ w.at;
  lives = w.lives;
  runs = w.runs;
  flagged = w.flagged;
  queued_up = w.queued_up;
  waits_for = w.waits_for;
  answer = w.answer;
}

Resumed-append :
    (ts : List Thread) (q : List ℕ) (k : ℕ) {i : ℕ} → Resumed ts q i → Resumed ts (q ++ (k ∷ [])) i
Resumed-append ts q k {i} w = record {
  body = w.body;
  at = w.at;
  lives = w.lives;
  runs = w.runs;
  flagged = w.flagged;
  queued_up = let c = count-append i k q in let h = w.queued_up in ground arith;
  waits_for = w.waits_for;
  answer = w.answer;
}

Awakened-thread :
    (s : Scheduler) (k : ℕ) (f : Thread → Thread) {i j : ℕ}
    → k ≢ i
    → Awakened s i j
    → Awakened (on_thread k f s) i j
Awakened-thread s k f ne w = record {
  resumed = Resumed-thread s.threads s.runnable_queue k f ne w.resumed;
  wait_ended = w.wait_ended;
}

Over-record :
    (rs : List WaitRecord) (k : ℕ) (g : WaitRecord → WaitRecord) {j : ℕ}
    → ((r : WaitRecord)
        → r.completed ≡ true
        → r.completion_result ≡ wait_object_0
        → r.waiter_linked ≡ false
        → ((g r).completed ≡ true)
          × ((g r).completion_result ≡ wait_object_0)
          × ((g r).waiter_linked ≡ false))
    → Over rs j
    → Over (modify rs k g) j
Over-record rs k g {j} keeps w = elim (Bool-cases (k == j)) [
  | inl t ↦
      let p : k ≡ j = ground arith in
      let (a, b, c) = keeps w.wait w.over w.result w.away in
      record {
        wait = g w.wait;
        wait_at =
            subst (λ z. get_elem? (modify rs z g) j ≡ some (g w.wait)) (sym p)
              (get_elem?-modify_self rs j g w.wait_at);
        over = a;
        result = b;
        away = c;
      }
  | inr u ↦ record {
    wait = w.wait;
    wait_at = get_elem?-modify_ne rs k j g (ground arith) ∙ w.wait_at;
    over = w.over;
    result = w.result;
    away = w.away;
  }
]

-- A queue that is not changed, or gets the thread at its end.
enqueue_ends :
    (s : Scheduler) (k : ℕ)
    → ((b : Bool) × (enqueue_runnable s k ≡ (b, s)))
      ⊎ (enqueue_runnable s k ≡ (
        true,
        on_thread k (queued true) (record s { runnable_queue = s.runnable_queue ++ (k ∷ []) }),
      ))
unfolding enqueue_runnable
enqueue_ends s k = elim (Option-cases (get_elem? s.threads k)) [
  | inl n ↦ inl (false, rw (enqueue_runnable, n) refl)
  | inr (t, x) ↦ elim (Bool-cases (not t.live || not (is_runnable t.state))) [
    | inl a ↦ inl (false, ground arith)
    | inr a ↦ elim (Bool-cases t.runnable_queued) [
      | inl b ↦ inl (true, ground arith)
      | inr b ↦ elim (Bool-cases (leb max_threads (length s.runnable_queue))) [
        | inl c ↦ inl (false, ground arith)
        | inr c ↦ inr (ground arith)
      ]
    ]
  ]
]

enqueue_again :
    (s : Scheduler) (i : ℕ) {t : Thread}
    → get_elem? s.threads i ≡ some t
    → t.live ≡ true
    → is_runnable t.state ≡ true
    → t.runnable_queued ≡ true
    → enqueue_runnable s i ≡ (true, s)
unfolding enqueue_runnable
enqueue_again s i at l r q = ground arith

-- The wake-up of a thread that was woken by a signal changes nothing of it.
Awakened-again :
    (s : Scheduler) {i j : ℕ} → Awakened s i j → Awakened (wake_thread s i wait_signaled) i j
Awakened-again s {i} w =
    let r = w.resumed in
    let at1 = get_elem?-modify_self s.threads i (woken wait_signaled) r.at in
    rw (enqueue_again (on_thread i (woken wait_signaled) s) i at1 r.lives refl r.flagged) (record {
      resumed = record {
        body = woken wait_signaled r.body;
        at = at1;
        lives = r.lives;
        runs = refl;
        flagged = r.flagged;
        queued_up = r.queued_up;
        waits_for = refl;
        answer = refl;
      };
      wait_ended = w.wait_ended;
    })

Awakened-wake :
    (s : Scheduler) (k : ℕ) {i j : ℕ}
    → Awakened s i j
    → Awakened (wake_thread s k wait_signaled) i j
Awakened-wake s k {i} {j} w = elim (Bool-cases (k == i)) [
  | inl t ↦
      subst (λ z. Awakened (wake_thread s z wait_signaled) i j) (let p : i ≡ k = ground arith in p)
        (Awakened-again s w)
  | inr u ↦
      let ne : k ≢ i = ground arith in
      let s1 = on_thread k (woken wait_signaled) s in
      let w1 : Awakened s1 i j = Awakened-thread s k (woken wait_signaled) ne w in
      elim (enqueue_ends s1 k) [
        | inl (true, q) ↦ rw q w1
        | inl (false, q) ↦ rw q (Awakened-thread s1 k (in_state blocked) ne w1)
        | inr q ↦ rw q (
            Awakened-thread (record s1 { runnable_queue = s1.runnable_queue ++ (k ∷ []) }) k
              (queued true) ne
              (record {
                resumed = Resumed-append s1.threads s1.runnable_queue k w1.resumed;
                wait_ended = w1.wait_ended;
              }))
      ]
]

Awakened-remove :
    (s : Scheduler) (e index : ℕ) {i j : ℕ}
    → Awakened s i j
    → Awakened (remove_waiter s e index) i j
unfolding remove_waiter
Awakened-remove s e index {i} {j} w = elim (Option-cases (get_elem? s.events e)) [
  | inl n ↦ rw (remove_waiter, n) w
  | inr (ev, x) ↦ elim (Option-cases (get_elem? ev.waiters index)) [
    | inl n ↦ rw (remove_waiter, x, n) w
    | inr (k, y) ↦
        rw (remove_waiter, x, y)
          (let last = get_or ev.waiters (length ev.waiters - 1) 0 in
            let f : WaitRecord → WaitRecord = λ r. record r { waiter_index = index } in
            record {
              resumed = w.resumed;
              wait_ended =
                  Over-record (modify s.wait_records last f) k unlinked (λ r a b c. (a, b, refl))
                    (Over-record s.wait_records last f (λ r a b c. (a, b, c)) w.wait_ended);
            })
  ]
]

Awakened-wake_waiter :
    (s : Scheduler) (e : ℕ) {i j : ℕ} → Awakened s i j → Awakened (wake_waiter s e 0) i j
unfolding wake_waiter complete_waiter
Awakened-wake_waiter s e {i} {j} w = elim (Option-cases (get_elem? s.events e)) [
  | inl n ↦ rw (wake_waiter, complete_waiter, n) w
  | inr (ev, x) ↦ elim (Option-cases (get_elem? ev.waiters 0)) [
    | inl n ↦ rw (wake_waiter, complete_waiter, x, n) w
    | inr (k, y) ↦ elim (Option-cases (get_elem? s.wait_records k)) [
      | inl n ↦ rw (wake_waiter, complete_waiter, x, y, n) removed
      | inr (r, z) ↦ elim (Bool-cases (not r.valid || (not r.active || not r.waiter_linked))) [
        | inl stale ↦ rw (wake_waiter, complete_waiter, x, y, z, stale) removed
        | inr fresh ↦ elim (Option-cases r.thread) [
          | inl n ↦ rw (wake_waiter, complete_waiter, x, y, z, fresh, n) removed
          | inr (h, o) ↦
              rw (wake_waiter, complete_waiter, x, y, z, fresh, o)
                (Awakened-wake (on_record k (completed_with wait_object_0) (remove_waiter s e 0)) h
                  (record {
                    resumed = removed.resumed;
                    wait_ended =
                        Over-record (remove_waiter s e 0).wait_records k
                          (completed_with wait_object_0) (λ q a b c. (refl, refl, c))
                          removed.wait_ended;
                  }))
        ]
      ]
    ]
  ]
]
  where
    removed : Awakened (remove_waiter s e 0) i j
    removed = Awakened-remove s e 0 w

pub Awakened-wake_all :
    (n : ℕ) (s : Scheduler) (e : ℕ) {i j : ℕ} → Awakened s i j → Awakened (wake_all n s e) i j
unfolding wake_all
Awakened-wake_all zero s e w = w
Awakened-wake_all (suc n) s e {i} {j} w = elim (Option-cases (get_elem? s.events e)) [
  | inl m ↦ rw (wake_all, m) w
  | inr (ev, x) ↦ elim (Bool-cases (length ev.waiters == 0)) [
    | inl z ↦ rw (wake_all, x, z) w
    | inr z ↦
        rw (wake_all, x, z) (Awakened-wake_all n (wake_waiter s e 0) e (Awakened-wake_waiter s e w))
  ]
]
