-- ===== src/Scheduler/Creating.antt =====
-- An event that is created, and its handle.
use guide_xos_net.Prelude.{
  ℕ, ◌≡◌, inl, inr, refl, ap, subst, ◌∙◌, Bool, true, false, not, ◌&&◌, Option, none, some, arith,
  length, Option-cases, get_elem?, modify, find_slot, find_slot-some, get_elem?-modify_self,
}
use guide_xos_net.Scheduler.State.{Scheduler, Event, on_event}
use guide_xos_net.Scheduler.Handles.{max_objects, type_event}
use guide_xos_net.Scheduler.Objects.{lookup_object, allocate_object, lookup-allocate}
use guide_xos_net.Scheduler.Events.{
  target_event, created, create_event, event_is_signaled, reset_event, signaled_as,
}

-- What the handle of a new event names.
record Named (s : Scheduler) (handle : ℕ) (manual_reset initial_signaled : Bool) : Type 0 where
  pub place : ℕ
  pub event : Event
  pub named : target_event s handle ≡ some (place, event)
  pub at : get_elem? s.events place ≡ some event
  pub lives : event.live ≡ true
  pub manual : event.manual_reset ≡ manual_reset
  pub set_to : event.signaled ≡ initial_signaled
  pub unwaited : length event.waiters ≡ 0

abbrev NamedBy : Option ℕ × Scheduler → Bool → Bool → Type 0
NamedBy (none, s) manual_reset initial_signaled = ⊥
NamedBy (some handle, s) manual_reset initial_signaled =
    Named s handle manual_reset initial_signaled

create_event-Named :
    (s : Scheduler) (manual_reset initial_signaled : Bool) {handle : ℕ} {s' : Scheduler}
    → length s.objects ≡ max_objects
    → create_event s manual_reset initial_signaled ≡ (some handle, s')
    → Named s' handle manual_reset initial_signaled
unfolding create_event target_event
create_event-Named s manual_reset initial_signaled {handle} {s'} n h =
    elim (Option-cases (find_slot (λ ev. not ev.live) s.events)) [
      | inl m ↦ absurd (refused (rw (create_event, m) at h))
      | inr ((e, old), x) ↦ elim (Option-cases (allocate_object s.objects type_event (some e))) [
        | inl m ↦ absurd (refused (rw (create_event, x, m) at h))
        | inr ((slot, handle', objects), y) ↦
            let q = rw (create_event, x, y) at h in
            let l = lookup-allocate s.objects type_event type_event (some e) n (omega arith) y in
            let ev =
              created manual_reset initial_signaled
                (elim (get_elem? objects slot) as (λ _. ℕ) [ none ↦ 0 | some o ↦ o.generation ])
                slot in
            let here =
              get_elem?-modify_self s.events e (λ _. ev)
                (find_slot-some (λ v. not v.live) s.events x).0 in
            let named_new : Named (on_event e (λ _. ev) (record s { objects = objects })) handle'
                manual_reset initial_signaled =
              record {
                place = e;
                event = ev;
                named = rw (target_event, l.3, l.2, here) refl;
                at = here;
                lives = refl;
                manual = refl;
                set_to = refl;
                unwaited = refl;
              } in
            subst (λ z. NamedBy z manual_reset initial_signaled) q named_new
      ]
    ]
  where
    refused : {z z' : Scheduler} → ◌≡◌ {A = Option ℕ × Scheduler} (none, z) (some handle, z') → ⊥
    refused p = ground arith

-- A write to the event that a handle names is read through the handle.
target_event-on_event :
    (s : Scheduler) (handle : ℕ) (f : Event → Event) {e : ℕ} {ev : Event}
    → target_event s handle ≡ some (e, ev)
    → target_event (on_event e f s) handle ≡ some (e, f ev)
unfolding target_event
target_event-on_event s handle f {e} {ev} h =
    elim (Option-cases (lookup_object s.objects handle type_event)) [
      | inl n ↦ absurd (nothing (rw (target_event, n) at h))
      | inr ((slot, o), x) ↦ elim (Option-cases o.target) [
        | inl n ↦ absurd (nothing (rw (target_event, x, n) at h))
        | inr (e', y) ↦ elim (Option-cases (get_elem? s.events e')) [
          | inl n ↦ absurd (nothing (rw (target_event, x, y, n) at h))
          | inr (ev', z) ↦
              let q = parts (rw (target_event, x, y, z) at h) in
              let here : get_elem? (modify s.events e f) e' ≡ some (f ev') =
                subst (λ k. get_elem? (modify s.events k f) e' ≡ some (f ev')) q.0
                  (get_elem?-modify_self s.events e' f z) in
              rw (target_event, x, y, here)
                (ap (λ k. some (k, f ev')) q.0 ∙ ap (λ v. some (e, f v)) q.1)
        ]
      ]
    ]
  where
    nothing : ◌≡◌ {A = Option (ℕ × Event)} none (some (e, ev)) → ⊥
    nothing p = ground arith

    parts :
        {k : ℕ} {v : Event}
        → ◌≡◌ {A = Option (ℕ × Event)} (some (k, v)) (some (e, ev))
        → (k ≡ e) × (v ≡ ev)
    parts p = ground arith

-- In a table of 16 objects the handle of an event that was just created names it: the event is signaled
-- as it was asked for, and once it is reset through the handle it is not.
pub create_event-event_is_signaled :
    (s : Scheduler) (manual_reset initial_signaled : Bool) {handle : ℕ} {s' : Scheduler}
    → length s.objects ≡ max_objects
    → create_event s manual_reset initial_signaled ≡ (some handle, s')
    → (event_is_signaled s' handle ≡ initial_signaled)
      × ((reset_event s' handle).0 ≡ true)
      × (event_is_signaled (reset_event s' handle).1 handle ≡ false)
unfolding event_is_signaled reset_event
create_event-event_is_signaled s manual_reset initial_signaled {handle} {s'} n h =
    let c = create_event-Named s manual_reset initial_signaled n h in
    (
      rw (event_is_signaled, c.named, c.lives) c.set_to,
      rw (reset_event, c.named, c.lives) refl,
      ap (λ z. event_is_signaled z.1 handle) (reset_is c) ∙ quiet c,
    )
  where
    reset_is :
        (c : Named s' handle manual_reset initial_signaled)
        → reset_event s' handle ≡ (true, on_event c.place (signaled_as false) s')
    reset_is c = rw (reset_event, c.named, c.lives) refl

    quiet :
        (c : Named s' handle manual_reset initial_signaled)
        → event_is_signaled (on_event c.place (signaled_as false) s') handle ≡ false
    quiet c =
        rw (event_is_signaled, target_event-on_event s' handle (signaled_as false) c.named)
          (ap (λ b. b && false) c.lives)
