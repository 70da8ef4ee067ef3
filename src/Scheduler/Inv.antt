-- ===== src/Scheduler/Inv.antt =====
-- What holds of the threads, the queue, the running thread and the wait records between calls.
use guide_xos_net.Prelude.{
  ℕ, ◌+◌, ◌<◌, ◌≡◌, ◌≢◌, inl, inr, refl, sym, ap, subst, ◌∙◌, true, false, ◌&&◌, Option, some, List,
  [], ◌∷◌, ◌++◌, arith, ◌==◌, bit, Bool-cases, sum, any, get_elem?, modify, get_elem?-modify_ne,
  get_elem?-modify_cases,
}
use guide_xos_net.Scheduler.State.{
  Thread, WaitRecord, Scheduler, ThreadState, free, created_suspended, runnable, running, blocked,
  terminated, is_running, is_runnable, is_blocked,
}
use guide_xos_net.Scheduler.Queue.{delete}
use guide_xos_net.Scheduler.Waits.{same}

-- How often a thread is in the queue.
unfoldable pub count : ℕ → List ℕ → ℕ
count i q = sum (λ k. bit (k == i)) q

-- A thread is in the queue once if it is live and RUNNABLE, and not at all otherwise; it is RUNNING
-- if it is the one that runs.
pub record ThreadFits (q : List ℕ) (run : Option ℕ) (i : ℕ) (t : Thread) : Type 0 where
  pub once : count i q ≡ bit t.runnable_queued
  pub exactly : t.runnable_queued ≡ (t.live && is_runnable t.state)
  pub alone : is_running t.state ≡ same run (some i)

unfoldable pub ThreadsFit : List Thread → List ℕ → Option ℕ → Type 0
ThreadsFit ts q run = (i : ℕ) (t : Thread) → get_elem? ts i ≡ some t → ThreadFits q run i t

-- The thread of a linked record is live and BLOCKED, on that record.
pub record Waits (ts : List Thread) (j : ℕ) (r : WaitRecord) : Type 0 where
  pub waiter : ℕ
  pub body : Thread
  pub owner : r.thread ≡ some waiter
  pub at : get_elem? ts waiter ≡ some body
  pub lives : body.live ≡ true
  pub blocks : is_blocked body.state ≡ true
  pub own : body.wait_record ≡ some j

unfoldable pub RecordsFit : List Thread → List WaitRecord → Type 0
RecordsFit ts rs =
    (j : ℕ) (r : WaitRecord) → get_elem? rs j ≡ some r → r.waiter_linked ≡ true → Waits ts j r

pub count-append : (i x : ℕ) (q : List ℕ) → count i (q ++ (x ∷ [])) ≡ count i q + bit (x == i)
unfolding count sum
count-append i x [] = ground arith
count-append i x (y ∷ q) = omega (arith, count-append i x q)

pub count-delete :
    (i x : ℕ) (q : List ℕ) → 0 < count x q → count i (delete x q) + bit (x == i) ≡ count i q
unfolding count sum
count-delete i x [] h = absurd (ground arith)
count-delete i x (y ∷ q) h = elim (Bool-cases (y == x)) [
  | inl t ↦ ground arith
  | inr f ↦ let ih = count-delete i x q (ground arith) in ground (arith, ih)
]

pub any-count : (x : ℕ) (q : List ℕ) → 0 < count x q → any (λ k. k == x) q ≡ true
unfolding count sum any
any-count x [] h = absurd (ground arith)
any-count x (y ∷ q) h = elim (Bool-cases (y == x)) [
  | inl t ↦ ground arith
  | inr f ↦ let ih = any-count x q (ground arith) in ground (arith, ih)
]

-- One thread changes, and for the others neither the queue nor the running thread does.
pub ThreadsFit-modify :
    (ts : List Thread) (q q' : List ℕ) (run run' : Option ℕ) (i : ℕ) (f : Thread → Thread)
    {t : Thread}
    → ThreadsFit ts q run
    → get_elem? ts i ≡ some t
    → ThreadFits q' run' i (f t)
    → ((k : ℕ) → i ≢ k → count k q' ≡ count k q)
    → ((k : ℕ) → i ≢ k → same run' (some k) ≡ same run (some k))
    → ThreadsFit (modify ts i f) q' run'
unfolding ThreadsFit
ThreadsFit-modify ts q q' run run' i f {t} v at here qs rs k u e =
    elim (get_elem?-modify_cases ts i k f e) [
      | inl (x, p, o, y) ↦
          let w : u ≡ f t = ground arith in
          subst (λ z. ThreadFits q' run' z u) p (subst (λ z. ThreadFits q' run' i z) (sym w) here)
      | inr (ne, o) ↦
          let w = v k u o in
          record { once = qs k ne ∙ w.once; exactly = w.exactly; alone = w.alone ∙ sym (rs k ne) }
    ]

-- A thread that no linked record waits with may change.
pub RecordsFit-modify :
    (ts : List Thread) (rs : List WaitRecord) (i : ℕ) (f : Thread → Thread)
    → RecordsFit ts rs
    → ((j : ℕ) (r : WaitRecord)
        → get_elem? rs j ≡ some r
        → r.waiter_linked ≡ true
        → r.thread ≢ some i)
    → RecordsFit (modify ts i f) rs
unfolding RecordsFit
RecordsFit-modify ts rs i f v other j r e l =
    let w = v j r e l in
    record {
      waiter = w.waiter;
      body = w.body;
      owner = w.owner;
      at =
          get_elem?-modify_ne ts i w.waiter f (λ x. other j r e l (w.owner ∙ ap some (sym x)))
          ∙ w.at;
      lives = w.lives;
      blocks = w.blocks;
      own = w.own;
    }

-- Such is a thread that is not BLOCKED.
pub RecordsFit-awake :
    (ts : List Thread) (rs : List WaitRecord) (i : ℕ) (f : Thread → Thread) {t : Thread}
    → RecordsFit ts rs
    → get_elem? ts i ≡ some t
    → is_blocked t.state ≡ false
    → RecordsFit (modify ts i f) rs
unfolding RecordsFit
RecordsFit-awake ts rs i f {t} v at a =
    RecordsFit-modify ts rs i f v (λ j r e l n. clash (v j r e l) n)
  where
    clash : {j : ℕ} {r : WaitRecord} → Waits ts j r → r.thread ≡ some i → ⊥
    clash w n =
        let x : w.body ≡ t = let o = w.owner in let y = w.at in ground arith in
        let b = w.blocks in ground arith

-- A record changes, its thread does not, and it is linked only if it was.
pub RecordsFit-write :
    (ts : List Thread) (rs : List WaitRecord) (k : ℕ) (g : WaitRecord → WaitRecord)
    → RecordsFit ts rs
    → ((r : WaitRecord)
        → get_elem? rs k ≡ some r
        → (g r).waiter_linked ≡ true
        → (r.waiter_linked ≡ true) × ((g r).thread ≡ r.thread))
    → RecordsFit ts (modify rs k g)
unfolding RecordsFit
RecordsFit-write ts rs k g v keeps j r e l = elim (get_elem?-modify_cases rs k j g e) [
  | inr (ne, o) ↦ v j r o l
  | inl (x, p, o', y) ↦
      let h = keeps x o' (subst (λ z. z.waiter_linked ≡ true) y l) in
      let w = v k x o' h.0 in
      record {
        waiter = w.waiter;
        body = w.body;
        owner = ap (λ z. z.thread) y ∙ h.1 ∙ w.owner;
        at = w.at;
        lives = w.lives;
        blocks = w.blocks;
        own = w.own ∙ ap some p;
      }
]

-- One thread runs, which is the current one and is live, and the rest fits it.
pub record IsScheduled (s : Scheduler) : Type 0 where
  pub body : Thread
  pub at : get_elem? s.threads s.current ≡ some body
  pub alive : body.live ≡ true
  pub threads : ThreadsFit s.threads s.runnable_queue (some s.current)
  pub records : RecordsFit s.threads s.wait_records

-- The current thread runs and is not in the queue.
pub IsScheduled-current :
    (s : Scheduler) (v : IsScheduled s)
    → (is_running v.body.state ≡ true)
      × (is_runnable v.body.state ≡ false)
      × (is_blocked v.body.state ≡ false)
      × (v.body.runnable_queued ≡ false)
unfolding ThreadsFit
IsScheduled-current s v =
    let w = v.threads s.current v.body v.at in
    let r : is_running v.body.state ≡ true = let a = w.alone in ground arith in
    let x = running_apart v.body.state r in
    (r, x.0, x.1, w.exactly ∙ ap (λ b. v.body.live && b) x.0 ∙ ground arith)
  where
    running_apart :
        (k : ThreadState) → is_running k ≡ true → (is_runnable k ≡ false) × (is_blocked k ≡ false)
    running_apart running e = (refl, refl)
    running_apart free e = absurd (ground arith)
    running_apart created_suspended e = absurd (ground arith)
    running_apart runnable e = absurd (ground arith)
    running_apart blocked e = absurd (ground arith)
    running_apart terminated e = absurd (ground arith)
