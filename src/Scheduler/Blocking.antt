-- ===== src/Scheduler/Blocking.antt =====
-- The invariant under the registration of a wait and the block of the thread.
use guide_xos_net.Prelude.{
  ℕ, ◌+◌, ◌-◌, ◌%◌, ◌^◌, ◌≡◌, ◌⊎◌, inl, inr, refl, sym, ap, subst, ◌∙◌, true, false, some, List,
  arith, length, Option-cases, get_elem?, get_or, modify, get_elem?-modify_self,
  get_elem?-modify_cases,
}
use guide_xos_net.Scheduler.State.{WaitRecord, Scheduler, Event, on_record, on_event, on_current}
use guide_xos_net.Scheduler.Queue.{pick_next_runnable}
use guide_xos_net.Scheduler.Waits.{linked_at, unlinked, remove_waiter, release_wait_record}
use guide_xos_net.Scheduler.Registration.{drop_waiter, blocked_on, unblocked, activated, block_on}
use guide_xos_net.Scheduler.Inv.{RecordsFit, RecordsFit-awake, IsScheduled, IsScheduled-current}
use guide_xos_net.Scheduler.Moves.{pick_next-some, modify-modify}
use guide_xos_net.Scheduler.Yielding.{choose_next-IsScheduled, IsScheduled-touch, IsScheduled-leave}
use guide_xos_net.Scheduler.Waking.{remove_waiter_lem}
use guide_xos_net.Scheduler.Waiting.{release-Released}

-- A linked record was linked before, with the same thread and as valid.
record Traced (rs : List WaitRecord) (k : ℕ) (r : WaitRecord) : Type 0 where
  before : WaitRecord
  at : get_elem? rs k ≡ some before
  was_linked : before.waiter_linked ≡ true
  same_thread : r.thread ≡ before.thread
  same_valid : r.valid ≡ before.valid

-- remove_waiter leaves the threads and the queue alone, and links no record.
record Kept (s s' : Scheduler) : Type 0 where
  threads : s'.threads ≡ s.threads
  queue : s'.runnable_queue ≡ s.runnable_queue
  current : s'.current ≡ s.current
  records :
      (k : ℕ) (r : WaitRecord)
      → get_elem? s'.wait_records k ≡ some r
      → r.waiter_linked ≡ true
      → Traced s.wait_records k r

remove_waiter-Kept : (s : Scheduler) (e index : ℕ) → Kept s (remove_waiter s e index)
unfolding remove_waiter
remove_waiter-Kept s e index = elim (Option-cases (get_elem? s.events e)) [
  | inl n ↦ rw (remove_waiter, n) unchanged
  | inr (ev, x) ↦ elim (Option-cases (get_elem? ev.waiters index)) [
    | inl n ↦ rw (remove_waiter, x, n) unchanged
    | inr (j, y) ↦ rw (remove_waiter_lem s e index x y) (record {
      threads = refl;
      queue = refl;
      current = refl;
      records = λ k r h l. traced j k (get_or ev.waiters (length ev.waiters - 1) 0) r h l;
    })
  ]
]
  where
    unchanged : Kept s s
    unchanged = record {
      threads = refl;
      queue = refl;
      current = refl;
      records = λ k r h l. record {
        before = r;
        at = h;
        was_linked = l;
        same_thread = refl;
        same_valid = refl;
      };
    }

    indexed : WaitRecord → WaitRecord
    indexed r = record r { waiter_index = index }

    first :
        (last k : ℕ) (r : WaitRecord)
        → get_elem? (modify s.wait_records last indexed) k ≡ some r
        → r.waiter_linked ≡ true
        → Traced s.wait_records k r
    first last k r h l = elim (get_elem?-modify_cases s.wait_records last k indexed h) [
      | inr (ne, o) ↦ record {
        before = r;
        at = o;
        was_linked = l;
        same_thread = refl;
        same_valid = refl;
      }
      | inl (z, p, o, q) ↦ record {
        before = z;
        at = ap (λ n. get_elem? s.wait_records n) (sym p) ∙ o;
        was_linked = sym (ap (λ u. u.waiter_linked) q) ∙ l;
        same_thread = ap (λ u. u.thread) q;
        same_valid = ap (λ u. u.valid) q;
      }
    ]

    traced :
        (j k last : ℕ) (r : WaitRecord)
        → get_elem? (modify (modify s.wait_records last indexed) j unlinked) k ≡ some r
        → r.waiter_linked ≡ true
        → Traced s.wait_records k r
    traced j k last r h l =
        elim (get_elem?-modify_cases (modify s.wait_records last indexed) j k unlinked h) [
          | inr (ne, o) ↦ first last k r o l
          | inl (z, p, o, q) ↦ absurd (ground arith)
        ]

drop_waiter-Kept : (s : Scheduler) (e j : ℕ) → Kept s (drop_waiter s e j)
drop_waiter-Kept s e j = elim (Option-cases (get_elem? s.wait_records j)) [
  | inl n ↦
      rw (drop_waiter, n)
        (record {
          threads = refl;
          queue = refl;
          current = refl;
          records = λ k r h l. record {
            before = r;
            at = h;
            was_linked = l;
            same_thread = refl;
            same_valid = refl;
          };
        })
  | inr (r, x) ↦ rw (drop_waiter, x) (remove_waiter-Kept s e r.waiter_index)
]

-- Whether or not there is another thread to go to, one thread runs once the current one has blocked on
-- the record that was linked for it.
pub block_on-IsScheduled :
    (s : Scheduler) (handle e j n : ℕ) (f : Event → Event) {r : WaitRecord}
    → IsScheduled s
    → get_elem? s.wait_records j ≡ some r
    → r.valid ≡ true
    → r.thread ≡ some s.current
    → IsScheduled (block_on (on_event e f (on_record j (linked_at n) s)) handle e j).2
unfolding block_on
block_on-IsScheduled s handle e j n f {r} v at valid owner =
    elim (Option-cases (pick_next_runnable s1.threads s.current)) [
      | inr (next, p) ↦
          rw (block_on, p)
            (choose_next-IsScheduled s1 next
              (IsScheduled-leave s (blocked_on handle j) v (IsScheduled-current s v).3 refl refl)
              blocked_records (pick_next-some s1.threads s.current p))
      | inl p ↦ rw (block_on, p) rolled_back
    ]
  where
    s1 : Scheduler
    s1 =
        on_current (blocked_on handle j)
          (record (on_record j activated (on_event e f (on_record j (linked_at n) s))) {
            active_wait_count = (s.active_wait_count + 1) % 2 ^ 32;
          })

    entry_cases :
        (k : ℕ) (u : WaitRecord)
        → get_elem? s1.wait_records k ≡ some u
        → ((j ≡ k) × (u ≡ activated (linked_at n r))) ⊎ (get_elem? s.wait_records k ≡ some u)
    entry_cases k u h =
        elim (get_elem?-modify_cases s.wait_records j k (λ x. activated (linked_at n x))
          (subst (λ x. get_elem? x k ≡ some u)
            (modify-modify s.wait_records j (linked_at n) activated) h)) [
              | inr (ne, o) ↦ inr o
              | inl (z, p, o, y) ↦
                  let q : z ≡ r = ground arith in inl (p, y ∙ ap (λ x. activated (linked_at n x)) q)
            ]

    blocked_records : RecordsFit s1.threads s1.wait_records
    blocked_records =
        unfold RecordsFit in
        (λ k u h l. elim (entry_cases k u h) [
          | inr o ↦
              RecordsFit-awake s.threads s.wait_records s.current (blocked_on handle j) v.records
                v.at (IsScheduled-current s v).2 k u o l
          | inl (p, y) ↦ record {
            waiter = s.current;
            body = blocked_on handle j v.body;
            owner = ap (λ x. x.thread) y ∙ owner;
            at = get_elem?-modify_self s.threads s.current (blocked_on handle j) v.at;
            lives = v.alive;
            blocks = refl;
            own = ap some p;
          }
        ])

    back : Scheduler
    back = on_current unblocked s1

    running_again : IsScheduled (on_current (λ t. unblocked (blocked_on handle j t)) s)
    running_again =
        IsScheduled-touch s (λ t. unblocked (blocked_on handle j t)) v v.alive
          (IsScheduled-current s v).3 refl refl

    rolled_back : IsScheduled (release_wait_record (drop_waiter back e j) j)
    rolled_back =
        let a = drop_waiter-Kept back e j in
        let b = release-Released (drop_waiter back e j) j in
        let both : back.threads
            ≡ modify s.threads s.current (λ t. unblocked (blocked_on handle j t)) =
          modify-modify s.threads s.current (blocked_on handle j) unblocked in
        let ts = b.threads ∙ a.threads ∙ both in
        let c = b.current ∙ a.current in
        let q = b.queue ∙ a.queue in
        record {
          body = running_again.body;
          at =
              ap (λ x. get_elem? x (release_wait_record (drop_waiter back e j) j).current) ts
              ∙ ap
                  (λ x.
                    get_elem? (modify s.threads s.current (λ t. unblocked (blocked_on handle j t)))
                      x)
                  c
              ∙ running_again.at;
          alive = running_again.alive;
          threads = rw (ts, q, c) running_again.threads;
          records = rw ts (
              unfold RecordsFit in
              (λ k u h l.
                let x = b.records k u h l in
                let y = a.records k u x.0 l in
                elim (entry_cases k y.before y.at) [
                  | inl (p, z) ↦ absurd (elim x.1 [
                    | inl ne ↦ ne p
                    | inr dead ↦
                        let w : true ≡ false =
                          sym (y.same_valid ∙ ap (λ i. i.valid) z ∙ valid) ∙ dead in
                        ground arith
                  ])
                  | inr o ↦
                      let w = running_again.records k y.before o y.was_linked in
                      record {
                        waiter = w.waiter;
                        body = w.body;
                        owner = y.same_thread ∙ w.owner;
                        at = w.at;
                        lives = w.lives;
                        blocks = w.blocks;
                        own = w.own;
                      }
                ]));
        }
