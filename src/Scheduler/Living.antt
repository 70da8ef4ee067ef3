-- ===== src/Scheduler/Living.antt =====
-- The invariant at the start of the scheduler, and under threads that come and go.
use guide_xos_net.Prelude.{
  ℕ, zero, suc, ◌+◌, ◌≡◌, ◌≢◌, inl, inr, refl, sym, ap, subst, ◌∙◌, Bool, true, false, not, ◌&&◌,
  ◌||◌, Option, none, some, List, [], ◌∷◌, arith, ◌==◌, bit, sum, Option-cases, if_cases, find_slot,
  find_slot-some, get_elem?, modify, replicate, get_elem?-modify_ne,
}
use guide_xos_net.Scheduler.Handles.{type_thread}
use guide_xos_net.Scheduler.State.{
  Thread, WaitRecord, Scheduler, Object, ThreadState, free, created_suspended, runnable, running,
  blocked, terminated, is_running, is_runnable, is_blocked, max_wait_records, max_threads,
  empty_thread, empty_record, on_thread,
}
use guide_xos_net.Scheduler.Objects.{allocate_object}
use guide_xos_net.Scheduler.Threads.{
  is_terminated, boot, started, start_with, initialize, suspended_new, create_suspended_thread,
  maybe_reclaim_thread, collect_from, collect,
}
use guide_xos_net.Scheduler.Inv.{
  count, ThreadFits, ThreadsFit, RecordsFit, Waits, ThreadsFit-modify, RecordsFit-modify,
  IsScheduled,
}
use guide_xos_net.Scheduler.Waking.{IsScheduled-same}

-- A thread other than the current one changes, that no record waits with and that is not RUNNABLE.
IsScheduled-other :
    (s : Scheduler) (i : ℕ) (f : Thread → Thread) {t : Thread}
    → IsScheduled s
    → get_elem? s.threads i ≡ some t
    → i ≢ s.current
    → (t.live && is_runnable t.state) ≡ false
    → (t.live && is_blocked t.state) ≡ false
    → (f t).runnable_queued ≡ false
    → is_runnable (f t).state ≡ false
    → is_running (f t).state ≡ false
    → IsScheduled (on_thread i f s)
IsScheduled-other s i f {t} v at ne nr nb q r n = record {
  body = v.body;
  at = get_elem?-modify_ne s.threads i s.current f ne ∙ v.at;
  alive = v.alive;
  threads =
      ThreadsFit-modify s.threads s.runnable_queue s.runnable_queue (some s.current)
        (some s.current) i f v.threads at
        (record {
          once = w.once ∙ ap bit (w.exactly ∙ nr ∙ sym q);
          exactly = q ∙ ap (λ b. b) (ground arith);
          alone = n ∙ ground arith;
        })
        (λ k m. refl) (λ k m. refl);
  records = RecordsFit-modify s.threads s.wait_records i f v.records (λ j u z l o.
      let p : Waits s.threads j u = unfold RecordsFit in v.records j u z l in
      let b : p.body ≡ t = let x = p.owner in let y = p.at in ground arith in
      let c = subst (λ h. is_blocked h.state ≡ true) b p.blocks in
      let d = subst (λ h. h.live ≡ true) b p.lives in ground arith);
}
  where
    w : ThreadFits s.runnable_queue (some s.current) i t
    w = unfold ThreadsFit in v.threads i t at

get_elem?-replicate :
    {A : Type 0} (n i : ℕ) (a : A) {x : A} → get_elem? (replicate n a) i ≡ some x → x ≡ a
unfolding replicate
get_elem?-replicate zero i a e = absurd (ground arith)
get_elem?-replicate (suc n) zero a e = ground arith
get_elem?-replicate (suc n) (suc i) a e = get_elem?-replicate n i a e

started-IsScheduled :
    (object_slot : ℕ) (objects : List Object) → IsScheduled (started object_slot objects)
unfolding started
started-IsScheduled object_slot objects = record {
  body = boot object_slot;
  at = refl;
  alive = refl;
  threads = unfold ThreadsFit in fits;
  records =
      unfold RecordsFit in
      (λ j r e l. absurd (unlinked_one (get_elem?-replicate max_wait_records j empty_record e) l));
}
  where
    unlinked_one : {r : WaitRecord} → r ≡ empty_record → r.waiter_linked ≡ true → ⊥
    unlinked_one e l = ground arith

    fits :
        (i : ℕ) (t : Thread)
        → get_elem? (boot object_slot ∷ replicate 5 empty_thread) i ≡ some t
        → ThreadFits [] (some 0) i t
    fits zero t e =
        let q : t ≡ boot object_slot = ground arith in
        subst (λ x. ThreadFits [] (some 0) 0 x) (sym q)
          (record { once = unfold count sum in refl; exactly = refl; alone = refl })
    fits (suc i) t e =
        subst (λ x. ThreadFits [] (some 0) (suc i) x) (sym (get_elem?-replicate 5 i empty_thread e))
          (record { once = unfold count sum in refl; exactly = refl; alone = ground arith })

start_with-IsScheduled :
    (has_environment : Bool) (o : Option (ℕ × ℕ × List Object)) {s : Scheduler}
    → start_with has_environment o ≡ some s
    → IsScheduled s
unfolding start_with
start_with-IsScheduled has_environment none e = absurd (ground arith)
start_with-IsScheduled false (some (slot, handle, objects)) e = absurd (ground arith)
start_with-IsScheduled true (some (slot, handle, objects)) {s} e =
    let q : started slot (modify objects slot (λ o. record o { public_handle_refs = 0 })) ≡ s =
      ground arith in
    subst IsScheduled q (started-IsScheduled slot _)

-- The scheduler starts with the boot thread running.
pub initialize-IsScheduled :
    (has_environment : Bool) {s : Scheduler} → initialize has_environment ≡ some s → IsScheduled s
unfolding initialize
initialize-IsScheduled has_environment e = start_with-IsScheduled has_environment _ e

pub create_suspended_thread-IsScheduled :
    (is_configured has_stack : Bool) (s : Scheduler)
    → IsScheduled s
    → IsScheduled (create_suspended_thread is_configured has_stack s).1
unfolding create_suspended_thread
create_suspended_thread-IsScheduled false has_stack s v = v
create_suspended_thread-IsScheduled true has_stack s v =
    elim (Option-cases (find_slot (λ t. not t.live) s.threads)) [
      | inl n ↦ rw (create_suspended_thread, n) v
      | inr ((i, old), x) ↦ elim (Option-cases (allocate_object s.objects type_thread (some i))) [
        | inl n ↦
            rw (create_suspended_thread, x, n) (at_slot i (λ _. empty_thread) x refl refl refl)
        | inr ((slot, handle, objects), y) ↦
            rw (create_suspended_thread, x, y)
              (if_cases {A = Option ℕ × Scheduler} (λ z. IsScheduled z.1) (not has_stack)
                (λ b.
                  IsScheduled-same (on_thread i (λ _. empty_thread) s) _ refl refl refl refl
                    (at_slot i (λ _. empty_thread) x refl refl refl))
                (λ b.
                  IsScheduled-same (on_thread i (λ _. suspended_new s.next_identity _ slot) s) _
                    refl refl refl refl
                    (at_slot i (λ _. suspended_new s.next_identity _ slot) x refl refl refl)))
      ]
    ]
  where
    at_slot :
        (i : ℕ) (f : Thread → Thread) {old : Thread}
        → find_slot (λ t. not t.live) s.threads ≡ some (i, old)
        → (f old).runnable_queued ≡ false
        → is_runnable (f old).state ≡ false
        → is_running (f old).state ≡ false
        → IsScheduled (on_thread i f s)
    at_slot i f {old} x q r n =
        let p = find_slot-some (λ t. not t.live) s.threads x in
        let dead : old.live ≡ false = ground (arith, p) in
        IsScheduled-other s i f v p.0
          (λ m.
            let a : get_elem? s.threads i ≡ some v.body =
              ap (λ k. get_elem? s.threads k) m ∙ v.at in
            let b : old ≡ v.body = let c = p.0 in ground arith in
            let c = subst (λ h. h.live ≡ false) b dead in let d = v.alive in ground arith)
          (ap (λ b. b && is_runnable old.state) dead) (ap (λ b. b && is_blocked old.state) dead) q r
          n

-- What can be taken back of a thread is taken.
pub maybe_reclaim_thread-IsScheduled :
    (can_free : Thread → Bool) (s : Scheduler) (i : ℕ)
    → IsScheduled s
    → IsScheduled (maybe_reclaim_thread can_free s i)
unfolding maybe_reclaim_thread
maybe_reclaim_thread-IsScheduled can_free s i v = elim (Option-cases (get_elem? s.threads i)) [
  | inl n ↦ rw (maybe_reclaim_thread, n) v
  | inr (t, x) ↦
      rw (maybe_reclaim_thread, x)
        (if_cases {A = Scheduler} (λ z. IsScheduled z)
          (not t.live
            || (i == s.current
                || (not (is_terminated t.state)
                    || (not (t.execution_refs == 0)
                        || (not (t.public_handle_refs == 0)
                            || (t.runnable_queued || not (can_free t)))))))
          (λ b. v)
          (λ b. elim (Option-cases (get_elem? s.objects t.object_slot)) [
            | inl n ↦ rw n v
            | inr (o, y) ↦ rw y (
                if_cases {A = Scheduler} (λ z. IsScheduled z)
                  (not o.live || not (o.object_type == type_thread)) (λ c. v)
                  (λ c. IsScheduled-same (on_thread i (λ _. empty_thread) s) _ refl refl refl refl (
                    let e = terminated_apart t.state (ground arith) in
                    IsScheduled-other s i (λ _. empty_thread) v x (ground arith)
                      (ap (λ z. t.live && z) e.0 ∙ ground arith)
                      (ap (λ z. t.live && z) e.1 ∙ ground arith) refl refl refl)))
          ]))
]
  where
    terminated_apart :
        (k : ThreadState)
        → is_terminated k ≡ true
        → (is_runnable k ≡ false) × (is_blocked k ≡ false)
    terminated_apart terminated e = (refl, refl)
    terminated_apart free e = absurd (ground arith)
    terminated_apart created_suspended e = absurd (ground arith)
    terminated_apart runnable e = absurd (ground arith)
    terminated_apart running e = absurd (ground arith)
    terminated_apart blocked e = absurd (ground arith)

collect_from-IsScheduled :
    (can_free : Thread → Bool) (n : ℕ) (s : Scheduler) (i : ℕ)
    → IsScheduled s
    → IsScheduled (collect_from can_free n s i)
unfolding collect_from
collect_from-IsScheduled can_free zero s i v = v
collect_from-IsScheduled can_free (suc n) s i v =
    collect_from-IsScheduled can_free n (maybe_reclaim_thread can_free s i) (i + 1)
      (maybe_reclaim_thread-IsScheduled can_free s i v)

pub collect-IsScheduled :
    (can_free : Thread → Bool) (s : Scheduler) → IsScheduled s → IsScheduled (collect can_free s)
unfolding collect
collect-IsScheduled can_free s v = collect_from-IsScheduled can_free max_threads s 0 v
