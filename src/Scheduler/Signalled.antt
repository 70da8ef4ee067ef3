-- ===== src/Scheduler/Signalled.antt =====
-- What a signal does to the event and its waiters.
use guide_xos_net.Prelude.{
  ℕ, zero, suc, ◌+◌, ◌-◌, ◌<◌, bit, sum, ◌≡◌, inl, inr, refl, ap, ◌∙◌, Bool, true, false, not, ◌||◌,
  Option, some, List, [], ◌∷◌, arith, length, length-set, leb, ◌==◌, if◌then◌else◌, if_cases,
  Bool-cases, Option-cases, get_elem?, get_or, set, get_elem?-modify_self,
}
use guide_xos_net.Scheduler.State.{
  Scheduler, Event, WaitResult, is_runnable, max_threads, on_thread, on_record, on_event,
  wait_object_0, wait_signaled,
}
use guide_xos_net.Scheduler.Queue.{enqueue_runnable}
use guide_xos_net.Scheduler.Waits.{
  drop_last, without, remove_waiter, completed_with, woken, wake_thread, complete_waiter,
  wake_waiter,
}
use guide_xos_net.Scheduler.Events.{wake_all, signal, signaled_as}
use guide_xos_net.Scheduler.Inv.{count}
use guide_xos_net.Scheduler.Awakened.{count-without}
use guide_xos_net.Scheduler.Waking.{remove_waiter_lem}

enqueue_runnable-events : (s : Scheduler) (i : ℕ) → (enqueue_runnable s i).1.events ≡ s.events
unfolding enqueue_runnable
enqueue_runnable-events s i = elim (Option-cases (get_elem? s.threads i)) [
  | inl n ↦ rw (enqueue_runnable, n) refl
  | inr (t, x) ↦
      rw (enqueue_runnable, x)
        (if_cases {A = Bool × Scheduler} P (not t.live || not (is_runnable t.state)) (λ b. refl)
          (λ b.
            if_cases {A = Bool × Scheduler} P t.runnable_queued (λ c. refl)
              (λ c.
                if_cases {A = Bool × Scheduler} P (leb max_threads (length s.runnable_queue))
                  (λ d. refl) (λ d. refl))))
]
  where
    P : Bool × Scheduler → Type 0
    P z = z.1.events ≡ s.events

wake_thread-events :
    (s : Scheduler) (i : ℕ) (w : WaitResult) → (wake_thread s i w).events ≡ s.events
wake_thread-events s i w =
    if_cases {A = Scheduler} (λ z. z.events ≡ s.events)
      (enqueue_runnable (on_thread i (woken w) s) i).0
      (λ b. enqueue_runnable-events (on_thread i (woken w) s) i)
      (λ b. enqueue_runnable-events (on_thread i (woken w) s) i)

length-drop_last : (xs : List ℕ) → length (drop_last xs) ≡ length xs - 1
length-drop_last [] = refl
length-drop_last (x ∷ []) = refl
length-drop_last (x ∷ y ∷ ys) = omega (arith, length-drop_last (y ∷ ys))

pub length-without : (ws : List ℕ) (index : ℕ) → length (without ws index) ≡ length ws - 1
length-without ws index =
    length-drop_last (set ws index (get_or ws (length ws - 1) 0))
    ∙ ap (λ n. n - 1) (length-set ws index _)

-- Whether the waiter is woken or was stale, it leaves the event, of which nothing else changes.
complete_waiter-events :
    (s : Scheduler) (e index result : ℕ) (w : WaitResult) {ev : Event} {j : ℕ}
    → get_elem? s.events e ≡ some ev
    → get_elem? ev.waiters index ≡ some j
    → get_elem? (complete_waiter s e index result w).events e
      ≡ some (record ev { waiters = without ev.waiters index })
unfolding complete_waiter
complete_waiter-events s e index result w {ev} {j} x y = ap (λ z. get_elem? z e) same_events ∙ after
  where
    after :
        get_elem? (remove_waiter s e index).events e
        ≡ some (record ev { waiters = without ev.waiters index })
    after = rw (remove_waiter_lem s e index x y) (
        get_elem?-modify_self s.events e
          (λ v. record v {
            waiters = drop_last (set v.waiters index (get_or ev.waiters (length ev.waiters - 1) 0));
          })
          x)

    same_events : (complete_waiter s e index result w).events ≡ (remove_waiter s e index).events
    same_events = elim (Option-cases (get_elem? s.wait_records j)) [
      | inl n ↦ rw (complete_waiter, x, y, n) refl
      | inr (r, z) ↦ elim (Bool-cases (not r.valid || (not r.active || not r.waiter_linked))) [
        | inl stale ↦ rw (complete_waiter, x, y, z, stale) refl
        | inr fresh ↦ elim (Option-cases r.thread) [
          | inl n ↦ rw (complete_waiter, x, y, z, fresh, n) refl
          | inr (i, o) ↦
              rw (complete_waiter, x, y, z, fresh, o)
                (wake_thread-events (on_record j (completed_with result) (remove_waiter s e index))
                  i w)
        ]
      ]
    ]

head-some : (ws : List ℕ) → 0 < length ws → (j : ℕ) × (get_elem? ws 0 ≡ some j)
head-some [] h = absurd (omega arith)
head-some (j ∷ ws) h = (j, refl)

length_zero : (ws : List ℕ) → length ws ≡ 0 → ws ≡ []
length_zero [] h = refl
length_zero (j ∷ ws) h = absurd (omega arith)

wake_waiter-events :
    (s : Scheduler) (e : ℕ) {ev : Event}
    → get_elem? s.events e ≡ some ev
    → 0 < length ev.waiters
    → get_elem? (wake_waiter s e 0).events e ≡ some (record ev { waiters = without ev.waiters 0 })
unfolding wake_waiter
wake_waiter-events s e {ev} x h =
    complete_waiter-events s e 0 wait_object_0 wait_signaled x (head-some ev.waiters h).1

-- As many rounds as there are waiters take them all away.
wake_all-events :
    (n : ℕ) (s : Scheduler) (e : ℕ) (ev : Event)
    → get_elem? s.events e ≡ some ev
    → length ev.waiters ≡ n
    → get_elem? (wake_all n s e).events e ≡ some (record ev { waiters = [] })
unfolding wake_all
wake_all-events zero s e ev x h =
    x ∙ ap (λ ws. some (record ev { waiters = ws })) (length_zero ev.waiters h)
wake_all-events (suc n) s e ev x h =
    let no : (length ev.waiters == 0) ≡ false = ground arith in
    rw (wake_all, x, no)
      (wake_all-events n (wake_waiter s e 0) e (record ev { waiters = without ev.waiters 0 })
        (wake_waiter-events s e x (omega arith)) (length-without ev.waiters 0 ∙ omega arith))

-- How often the first of the waiters is the one given.
abbrev pub first_of : ℕ → List ℕ → ℕ
first_of k [] = 0
first_of k (j ∷ ws) = bit (j == k)

count-after_one :
    (k : ℕ) (ws : List ℕ)
    → (length ws == 0) ≡ false
    → count k (without ws 0) + first_of k ws ≡ count k ws
count-after_one k [] h = absurd (ground arith)
count-after_one k (j ∷ ws) h = count-without k j (j ∷ ws) refl

count-after_none :
    (k : ℕ) (ws : List ℕ) → (length ws == 0) ≡ true → count k ws + first_of k ws ≡ count k ws
count-after_none k [] h = omega arith
count-after_none k (j ∷ ws) h = absurd (ground arith)

pub signal-manual :
    (s : Scheduler) (e : ℕ) (ev : Event)
    → ev.manual_reset ≡ true
    → signal s e ev ≡ wake_all (length ev.waiters) (on_event e (signaled_as true) s) e
unfolding signal
signal-manual s e ev m = rw (signal, m) refl

signal-quiet :
    (s : Scheduler) (e : ℕ) (ev : Event)
    → ev.manual_reset ≡ false
    → (length ev.waiters == 0) ≡ true
    → signal s e ev ≡ on_event e (signaled_as true) s
unfolding signal
signal-quiet s e ev m z = rw (signal, m, z) refl

pub signal-one :
    (s : Scheduler) (e : ℕ) (ev : Event)
    → ev.manual_reset ≡ false
    → (length ev.waiters == 0) ≡ false
    → signal s e ev ≡ wake_waiter (on_event e (signaled_as false) s) e 0
unfolding signal
signal-one s e ev m z = rw (signal, m, z) refl

count_nil : (k : ℕ) → count k [] ≡ 0
unfolding count sum
count_nil k = refl

-- What becomes of the event and of its list of waiters.
pub signal-event :
    (s : Scheduler) (e : ℕ) (ev : Event)
    → get_elem? s.events e ≡ some ev
    → (after : List ℕ) × (get_elem? (signal s e ev).events e
        ≡ some
            (record ev { waiters = after; signaled = ev.manual_reset || length ev.waiters == 0 }))
      × (length after ≡ (if ev.manual_reset then 0 else length ev.waiters - 1))
      × ((k : ℕ)
          → count k after + (if ev.manual_reset then count k ev.waiters else first_of k ev.waiters)
            ≡ count k ev.waiters)
signal-event s e ev x = elim (Bool-cases ev.manual_reset) [
  | inl m ↦ (
    [],
    reads (signal-manual s e ev m) (
          wake_all-events (length ev.waiters) (on_event e (signaled_as true) s) e
            (signaled_as true ev) (at true) refl)
        ∙ ap (λ b. some (record ev { waiters = []; signaled = b })) (ground arith),
    ground arith,
    λ k.
        ap (λ n. n + (if ev.manual_reset then count k ev.waiters else first_of k ev.waiters))
          (count_nil k)
        ∙ ground arith,
  )
  | inr m ↦ elim (Bool-cases (length ev.waiters == 0)) [
    | inl z ↦ (
      ev.waiters,
      reads (signal-quiet s e ev m z) (at true)
          ∙ ap (λ b. some (record ev { signaled = b })) (ground arith),
      ground arith,
      λ k. let c = count-after_none k ev.waiters z in ground arith,
    )
    | inr z ↦ (
      without ev.waiters 0,
      reads (signal-one s e ev m z)
            (wake_waiter-events (on_event e (signaled_as false) s) e (at false) (ground arith))
          ∙ ap (λ b. some (record ev { waiters = without ev.waiters 0; signaled = b }))
              (ground arith),
      let l = length-without ev.waiters 0 in ground (arith, l),
      λ k. let c = count-after_one k ev.waiters z in ground arith,
    )
  ]
]
  where
    at : (b : Bool) → get_elem? (on_event e (signaled_as b) s).events e ≡ some (signaled_as b ev)
    at b = get_elem?-modify_self s.events e (signaled_as b) x

    reads :
        {s1 s2 : Scheduler} {o : Option Event}
        → s1 ≡ s2
        → get_elem? s2.events e ≡ o
        → get_elem? s1.events e ≡ o
    reads p q = ap (λ z. get_elem? z.events e) p ∙ q
