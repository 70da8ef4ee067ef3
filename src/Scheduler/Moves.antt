-- ===== src/Scheduler/Moves.antt =====
-- The invariant where a thread enters the queue and where it leaves it to run.
use guide_xos_net.Prelude.{
  ℕ, zero, suc, ◌+◌, ◌%◌, ◌<◌, ◌≡◌, ◌≢◌, ◌⊎◌, inl, inr, refl, sym, ap, subst, ◌∙◌, true, false,
  Option, none, some, List, [], ◌∷◌, ◌++◌, arith, length, leb, Bool-cases, Option-cases, get_elem?,
  modify, get_elem?-modify_self,
}
use guide_xos_net.Scheduler.State.{
  Thread, Scheduler, ThreadState, runnable, running, is_running, is_runnable, is_blocked,
  max_threads, on_thread, free, created_suspended, blocked, terminated,
}
use guide_xos_net.Scheduler.Queue.{
  delete, queued, in_state, enqueue_runnable, remove_runnable, may_run, pick_from,
  pick_next_runnable, choose_next,
}
use guide_xos_net.Scheduler.Waits.{same}
use guide_xos_net.Scheduler.Inv.{
  count, ThreadFits, ThreadsFit, RecordsFit, count-append, count-delete, any-count,
  ThreadsFit-modify, RecordsFit-awake,
}

pub modify-modify :
    {A : Type 0} (xs : List A) (i : ℕ) (f g : A → A)
    → modify (modify xs i f) i g ≡ modify xs i (λ x. g (f x))
modify-modify [] i f g = refl
modify-modify (x ∷ xs) zero f g = refl
modify-modify (x ∷ xs) (suc i) f g = ap (λ l. x ∷ l) (modify-modify xs i f g)

-- A thread that becomes RUNNABLE is queued, or the queue is full and nothing more is done.
pub enqueue_cases :
    (s : Scheduler) (i : ℕ) {t : Thread}
    → get_elem? s.threads i ≡ some t
    → is_runnable t.state ≡ true
    → t.runnable_queued ≡ false
    → ((t.live ≡ true)
        × (enqueue_runnable s i ≡ (
          true,
          on_thread i (queued true) (record s { runnable_queue = s.runnable_queue ++ (i ∷ []) }),
        )))
      ⊎ (enqueue_runnable s i ≡ (false, s))
unfolding enqueue_runnable
enqueue_cases s i {t} at r q = elim (Bool-cases t.live) [
  | inr d ↦ inr (ground arith)
  | inl l ↦ elim (Bool-cases (leb max_threads (length s.runnable_queue))) [
    | inl f ↦ inr (ground arith)
    | inr f ↦ inl (l, ground arith)
  ]
]

pub runnable_apart :
    (k : ThreadState) → is_runnable k ≡ true → (is_running k ≡ false) × (is_blocked k ≡ false)
runnable_apart runnable e = (refl, refl)
runnable_apart free e = absurd (ground arith)
runnable_apart created_suspended e = absurd (ground arith)
runnable_apart running e = absurd (ground arith)
runnable_apart blocked e = absurd (ground arith)
runnable_apart terminated e = absurd (ground arith)

-- The turn of a thread that was not RUNNABLE: it enters the queue and does not run.
pub ThreadsFit-enqueue :
    (ts : List Thread) (q : List ℕ) (run run' : Option ℕ) (i : ℕ) (f : Thread → Thread) {t : Thread}
    → ThreadsFit ts q run
    → get_elem? ts i ≡ some t
    → is_runnable t.state ≡ false
    → (f t).live ≡ true
    → is_runnable (f t).state ≡ true
    → same run' (some i) ≡ false
    → ((k : ℕ) → i ≢ k → same run' (some k) ≡ same run (some k))
    → ThreadsFit (modify (modify ts i f) i (queued true)) (q ++ (i ∷ [])) run'
ThreadsFit-enqueue ts q run run' i f {t} v at nr l r away rs =
    rw (modify-modify ts i f (queued true)) (
      ThreadsFit-modify ts q (q ++ (i ∷ [])) run run' i (λ x. queued true (f x)) v at here
        (λ k ne. other k ne) rs)
  where
    w : ThreadFits q run i t
    w = unfold ThreadsFit in v i t at

    other : (k : ℕ) → i ≢ k → count k (q ++ (i ∷ [])) ≡ count k q
    other k ne = let c = count-append k i q in ground arith

    here : ThreadFits (q ++ (i ∷ [])) run' i (queued true (f t))
    here =
        let z = count-append i i q in
        let a = w.once in
        let b = w.exactly in
        record {
          once = ground arith;
          exactly = rw (l, r) refl;
          alone = (runnable_apart (f t).state r).0 ∙ sym away;
        }

-- A thread that may run leaves the queue and runs.
pub ThreadsFit-run :
    (ts : List Thread) (q : List ℕ) (i : ℕ) {t : Thread}
    → ThreadsFit ts q none
    → get_elem? ts i ≡ some t
    → may_run (some t) ≡ true
    → ThreadsFit (modify (modify ts i (queued false)) i (in_state running)) (delete i q) (some i)
ThreadsFit-run ts q i {t} v at m = rw (modify-modify ts i (queued false) (in_state running)) (
    ThreadsFit-modify ts q (delete i q) none (some i) i (λ x. in_state running (queued false x)) v
      at
      (record {
        once = let c = count-delete i i q positive in let a = w.once in ground arith;
        exactly = ground arith;
        alone = ground arith;
      })
      (λ k ne. let c = count-delete k i q positive in ground arith) (λ k ne. ground arith))
  where
    w : ThreadFits q none i t
    w = unfold ThreadsFit in v i t at

    positive : 0 < count i q
    positive = let a = w.once in ground arith

pub remove_runnable_lem :
    (s : Scheduler) (i : ℕ) (run : Option ℕ) {t : Thread}
    → ThreadsFit s.threads s.runnable_queue run
    → get_elem? s.threads i ≡ some t
    → t.runnable_queued ≡ true
    → remove_runnable s i
      ≡ (true, on_thread i (queued false) (record s { runnable_queue = delete i s.runnable_queue }))
unfolding remove_runnable
remove_runnable_lem s i run {t} v at q =
    let w : ThreadFits s.runnable_queue run i t = unfold ThreadsFit in v i t at in
    let a = any-count i s.runnable_queue (let o = w.once in ground arith) in ground arith

-- After the choice of a thread that may run, it is the one that runs.
pub choose_next-fits :
    (s : Scheduler) (n : ℕ)
    → ThreadsFit s.threads s.runnable_queue none
    → RecordsFit s.threads s.wait_records
    → may_run (get_elem? s.threads n) ≡ true
    → (t : Thread) × (get_elem? (choose_next s n).threads n ≡ some t)
      × (t.live ≡ true)
      × ((choose_next s n).current ≡ n)
      × ThreadsFit (choose_next s n).threads (choose_next s n).runnable_queue (some n)
      × RecordsFit (choose_next s n).threads (choose_next s n).wait_records
unfolding choose_next
choose_next-fits s n v w m = elim (Option-cases (get_elem? s.threads n)) [
  | inl e ↦ absurd (ground arith)
  | inr (t, e) ↦
      let a : may_run (some t) ≡ true = subst (λ x. may_run x ≡ true) e m in
      let r = remove_runnable_lem s n none v e (ground arith) in
      let one = get_elem?-modify_self s.threads n (queued false) e in
      rw r (
        in_state running (queued false t),
        get_elem?-modify_self (modify s.threads n (queued false)) n (in_state running) one,
        ground arith,
        refl,
        ThreadsFit-run s.threads s.runnable_queue n v e a,
        RecordsFit-awake (modify s.threads n (queued false)) s.wait_records n (in_state running)
            (RecordsFit-awake s.threads s.wait_records n (queued false) w e (awake t a)) one
            (awake t a),
      )
]
  where
    awake : (t : Thread) → may_run (some t) ≡ true → is_blocked t.state ≡ false
    awake t a = (runnable_apart t.state (ground arith)).1

-- What is picked may run.
pub pick_from-some :
    (n : ℕ) (ts : List Thread) (current offset : ℕ) {i : ℕ}
    → pick_from n ts current offset ≡ some i
    → may_run (get_elem? ts i) ≡ true
unfolding pick_from
pick_from-some zero ts current offset e = absurd (ground arith)
pick_from-some (suc n) ts current offset {i} e =
    elim (Bool-cases (may_run (get_elem? ts ((current + offset) % max_threads)))) [
      | inl t ↦ ground arith
      | inr f ↦ pick_from-some n ts current (offset + 1) (rw f at e)
    ]

pub pick_next-some :
    (ts : List Thread) (current : ℕ) {i : ℕ}
    → pick_next_runnable ts current ≡ some i
    → may_run (get_elem? ts i) ≡ true
unfolding pick_next_runnable
pick_next-some ts current e = pick_from-some max_threads ts current 1 e
