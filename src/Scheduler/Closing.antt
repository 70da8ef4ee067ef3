-- ===== src/Scheduler/Closing.antt =====
-- A handle that is closed, under the invariant.
use guide_xos_net.Prelude.{
  ℕ, ◌/◌, ◌%◌, ◌^◌, ◌≡◌, inl, inr, refl, sym, ap, subst, ◌∙◌, Bool, not, ◌&&◌, some, arith, ◌==◌,
  bit, Bool-cases, Option-cases, if_cases, get_elem?, modify, get_elem?-modify_ne,
  get_elem?-modify_self, get_elem?-modify_cases,
}
use guide_xos_net.Scheduler.Handles.{type_thread, type_event}
use guide_xos_net.Scheduler.State.{
  Thread, Scheduler, is_running, is_runnable, is_blocked, on_thread, on_object,
}
use guide_xos_net.Scheduler.Objects.{lookup_object}
use guide_xos_net.Scheduler.Threads.{unreferenced, closed, close_handle}
use guide_xos_net.Scheduler.Inv.{ThreadsFit, RecordsFit, IsScheduled}
use guide_xos_net.Scheduler.Waking.{IsScheduled-same}
use guide_xos_net.Scheduler.Living.{maybe_reclaim_thread-IsScheduled}

-- Two threads that the invariant does not tell apart.
record Alike (u t : Thread) : Type 0 where
  lives : u.live ≡ t.live
  state : u.state ≡ t.state
  queued : u.runnable_queued ≡ t.runnable_queued
  record_of : u.wait_record ≡ t.wait_record

-- Any thread changes, but not what the invariant reads.
IsScheduled-touch_any :
    (s : Scheduler) (i : ℕ) (f : Thread → Thread)
    → IsScheduled s
    → ((t : Thread) → (f t).live ≡ t.live)
    → ((t : Thread) → (f t).state ≡ t.state)
    → ((t : Thread) → (f t).runnable_queued ≡ t.runnable_queued)
    → ((t : Thread) → (f t).wait_record ≡ t.wait_record)
    → IsScheduled (on_thread i f s)
IsScheduled-touch_any s i f v l k q w =
    let c = forth s.current v.body v.at in
    record {
      body = c.0;
      at = c.1;
      alive = c.2.lives ∙ v.alive;
      threads =
          unfold ThreadsFit in
          (λ n t e.
            let b = back n t e in
            let u = v.threads n b.0 b.1 in
            record {
              once = u.once ∙ ap bit (sym b.2.queued);
              exactly =
                  b.2.queued
                  ∙ u.exactly
                  ∙ ap (λ x. x && is_runnable b.0.state) (sym b.2.lives)
                  ∙ ap (λ x. t.live && is_runnable x) (sym b.2.state);
              alone = ap is_running b.2.state ∙ u.alone;
            });
      records =
          unfold RecordsFit in
          (λ j r e h.
            let u = v.records j r e h in
            let a = forth u.waiter u.body u.at in
            record {
              waiter = u.waiter;
              body = a.0;
              owner = u.owner;
              at = a.1;
              lives = a.2.lives ∙ u.lives;
              blocks = ap is_blocked a.2.state ∙ u.blocks;
              own = a.2.record_of ∙ u.own;
            });
    }
  where
    alike : (t : Thread) → Alike (f t) t
    alike t = record { lives = l t; state = k t; queued = q t; record_of = w t }

    forth :
        (n : ℕ) (t : Thread)
        → get_elem? s.threads n ≡ some t
        → (u : Thread) × (get_elem? (modify s.threads i f) n ≡ some u) × Alike u t
    forth n t e = elim (Bool-cases (i == n)) [
      | inl m ↦
          let p : i ≡ n = ground arith in
          (
            f t,
            subst (λ z. get_elem? (modify s.threads i f) z ≡ some (f t)) p
                (get_elem?-modify_self s.threads i f (ap (λ z. get_elem? s.threads z) p ∙ e)),
            alike t,
          )
      | inr m ↦ (
        t,
        get_elem?-modify_ne s.threads i n f (ground arith) ∙ e,
        record { lives = refl; state = refl; queued = refl; record_of = refl },
      )
    ]

    back :
        (n : ℕ) (u : Thread)
        → get_elem? (modify s.threads i f) n ≡ some u
        → (t : Thread) × (get_elem? s.threads n ≡ some t) × Alike u t
    back n u e = elim (get_elem?-modify_cases s.threads i n f e) [
      | inl (t, p, o, y) ↦
          (t, ap (λ z. get_elem? s.threads z) (sym p) ∙ o, subst (λ z. Alike z t) (sym y) (alike t))
      | inr (ne, o) ↦ (u, o, record { lives = refl; state = refl; queued = refl; record_of = refl })
    ]

-- A handle that is closed.
pub close_handle-IsScheduled :
    (can_free : Thread → Bool) (s : Scheduler) (handle : ℕ)
    → IsScheduled s
    → IsScheduled (close_handle can_free s handle).1
unfolding close_handle
close_handle-IsScheduled can_free s handle v =
    if_cases {A = Bool × Scheduler} (λ z. IsScheduled z.1)
      (not (handle / 2 ^ 48 % 2 ^ 8 == type_thread) && not (handle / 2 ^ 48 % 2 ^ 8 == type_event))
      (λ b. v)
      (λ b. elim (Option-cases (lookup_object s.objects handle (handle / 2 ^ 48 % 2 ^ 8))) [
        | inl n ↦ rw n v
        | inr ((slot, o), x) ↦ rw x (
            if_cases {A = Bool × Scheduler} (λ z. IsScheduled z.1) (o.public_handle_refs == 0)
              (λ c. v)
              (λ c.
                if_cases {A = Bool × Scheduler} (λ z. IsScheduled z.1)
                  (handle / 2 ^ 48 % 2 ^ 8 == type_thread)
                  (λ d. elim (Option-cases o.target) [
                    | inl n ↦ rw n (pinned slot)
                    | inr (i, y) ↦ rw y (
                        maybe_reclaim_thread-IsScheduled can_free _ i (
                          IsScheduled-touch_any (on_object slot closed s) i unreferenced
                            (pinned slot) (λ t. refl) (λ t. refl) (λ t. refl) (λ t. refl)))
                  ])
                  (λ d. pinned slot)))
      ])
  where
    pinned : (slot : ℕ) → IsScheduled (on_object slot closed s)
    pinned slot = IsScheduled-same s _ refl refl refl refl v
