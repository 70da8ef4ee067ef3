-- ===== src/Scheduler/Signals.antt =====
-- A signal: the waiters that leave the event, and the thread that waited first.
use guide_xos_net.Prelude.{
  ℕ, suc, ◌+◌, Bool, ◌-◌, ◌<◌, ◌≡◌, ◌⊎◌, inl, inr, refl, true, false, ◌||◌, some, List, [], ◌∷◌,
  arith, length, ◌==◌, get_elem?-modify_self, if◌then◌else◌, Bool-cases, get_elem?,
}
use guide_xos_net.Scheduler.State.{Scheduler, Thread, WaitRecord, Event, max_threads, on_event}
use guide_xos_net.Scheduler.Inv.{count}
use guide_xos_net.Scheduler.Events.{wake_all, signal, signaled_as}
use guide_xos_net.Scheduler.Waits.{wake_waiter}
use guide_xos_net.Scheduler.Awakened.{Awakened, wake_waiter-Awakened}
use guide_xos_net.Scheduler.Signalled.{first_of, signal-event, signal-manual, signal-one}
use guide_xos_net.Scheduler.Staying.{Awakened-wake_all}

-- A record waits for a thread that is live and not in the queue, and the queue has room.
pub record Waiting (s : Scheduler) (j : ℕ) (i : ℕ) : Type 0 where
  pub wait : WaitRecord
  pub wait_at : get_elem? s.wait_records j ≡ some wait
  pub valid : wait.valid ≡ true
  pub active : wait.active ≡ true
  pub linked : wait.waiter_linked ≡ true
  pub owner : wait.thread ≡ some i
  pub body : Thread
  pub at : get_elem? s.threads i ≡ some body
  pub lives : body.live ≡ true
  pub away : body.runnable_queued ≡ false
  pub room : length s.runnable_queue < max_threads

wake_first :
    (s : Scheduler) (e : ℕ) {ev : Event} {j i : ℕ}
    → get_elem? s.events e ≡ some ev
    → get_elem? ev.waiters 0 ≡ some j
    → Waiting s j i
    → Awakened (wake_waiter s e 0) i j
wake_first s e x y w =
    wake_waiter-Awakened s e x y w.wait_at w.valid w.active w.linked w.owner w.at w.lives w.away
      w.room

signaled_at :
    (s : Scheduler) (e : ℕ) (ev : Event) (b : Bool)
    → get_elem? s.events e ≡ some ev
    → get_elem? (on_event e (signaled_as b) s).events e ≡ some (signaled_as b ev)
signaled_at s e ev b x = get_elem?-modify_self s.events e (signaled_as b) x

-- The first of as many rounds as there are waiters wakes it, and the others keep it so.
wake_all-wakes :
    (n : ℕ) (s : Scheduler) (e : ℕ) {ev : Event} {j i : ℕ}
    → get_elem? s.events e ≡ some ev
    → get_elem? ev.waiters 0 ≡ some j
    → (length ev.waiters == 0) ≡ false
    → Waiting s j i
    → Awakened (wake_all (suc n) s e) i j
unfolding wake_all
wake_all-wakes n s e x y z w =
    rw (wake_all, x, z) (Awakened-wake_all n (wake_waiter s e 0) e (wake_first s e x y w))

-- The same in the state where the event is marked.
marked :
    (s : Scheduler) (e : ℕ) (b : Bool) {j i : ℕ}
    → Waiting s j i
    → Waiting (on_event e (signaled_as b) s) j i
marked s e b w = record {
  wait = w.wait;
  wait_at = w.wait_at;
  valid = w.valid;
  active = w.active;
  linked = w.linked;
  owner = w.owner;
  body = w.body;
  at = w.at;
  lives = w.lives;
  away = w.away;
  room = w.room;
}

wakes :
    (s : Scheduler) (e : ℕ) (ev : Event) {j i n : ℕ}
    → get_elem? s.events e ≡ some ev
    → get_elem? ev.waiters 0 ≡ some j
    → length ev.waiters ≡ suc n
    → Waiting s j i
    → Awakened (signal s e ev) i j
wakes s e ev {j} {i} {n} x y p w =
    let some_wait : (length ev.waiters == 0) ≡ false = ground arith in
    elim (Bool-cases ev.manual_reset) [
      | inl m ↦
          rw (signal-manual s e ev m, p)
            (wake_all-wakes n (on_event e (signaled_as true) s) e (signaled_at s e ev true x) y
              some_wait (marked s e true w))
      | inr m ↦ rw (signal-one s e ev m some_wait) (
          wake_first (on_event e (signaled_as false) s) e (signaled_at s e ev false x) y
            (marked s e false w))
    ]

first_or_none :
    (ws : List ℕ)
    → (ws ≡ []) ⊎ ((j : ℕ) × (n : ℕ) × (get_elem? ws 0 ≡ some j) × (length ws ≡ suc n))
first_or_none [] = inl refl
first_or_none (j ∷ ws) = inr (j, length ws, refl, refl)

-- Provided that the first waiter, if there is one, is a valid, active and linked record of a live
-- thread that is not in the queue, and that the queue then has room, a signal takes all waiters away from a
-- manual event, and from an automatic one exactly the first, where there is one: every other waiter
-- stays as often as it was there. The event is then signaled if it is manual or had no waiter, and
-- not otherwise, and nothing else of it changes. And the event had no waiter, or the thread of the
-- first one is now RUNNABLE and in the queue, with the answer that its object was signaled, and its
-- record is completed with that answer and no longer linked.
pub signal-waiters :
    (s : Scheduler) (e : ℕ) (ev : Event)
    → get_elem? s.events e ≡ some ev
    → ((j : ℕ) → get_elem? ev.waiters 0 ≡ some j → (i : ℕ) × Waiting s j i)
    → ((after : List ℕ) × (get_elem? (signal s e ev).events e
          ≡ some
              (record ev { waiters = after; signaled = ev.manual_reset || length ev.waiters == 0 }))
        × (length after ≡ (if ev.manual_reset then 0 else length ev.waiters - 1))
        × ((k : ℕ)
            → count k after
                + (if ev.manual_reset then count k ev.waiters else first_of k ev.waiters)
              ≡ count k ev.waiters))
      × ((ev.waiters ≡ [])
          ⊎ ((j : ℕ) × (i : ℕ) × (r : WaitRecord) × (get_elem? ev.waiters 0 ≡ some j)
              × (get_elem? s.wait_records j ≡ some r)
              × (r.thread ≡ some i)
              × Awakened (signal s e ev) i j))
signal-waiters s e ev x ready = (
  signal-event s e ev x,
  elim (first_or_none ev.waiters) [
    | inl p ↦ inl p
    | inr (j, n, y, p) ↦
        let (i, w) = ready j y in inr (j, i, w.wait, y, w.wait_at, w.owner, wakes s e ev x y p w)
  ],
)
