-- ===== src/Scheduler/Objects.antt =====
-- The table of objects: allocation, lookup by handle, and release.
use guide_xos_net.Prelude.{
  ℕ, ◌+◌, ◌%◌, ◌^◌, ◌<◌, ◌≡◌, inl, inr, refl, ap, subst, ◌∙◌, true, false, not, ◌||◌, Option, none,
  some, List, arith, length, get_elem?, get_elem?-lt, get_elem?-set_self, set, set-set, find_slot,
  find_slot-some, ◌==◌, if◌then◌else◌, Option-cases,
}
use guide_xos_net.Scheduler.Handles.{make_handle, decode_handle, max_objects, decode-make}
use guide_xos_net.Scheduler.State.{Object, empty_object}

-- The slot of the live object that a handle names, and the object.
unfoldable pub lookup_object : List Object → ℕ → ℕ → Option (ℕ × Object)
lookup_object os handle expected_type = elim (decode_handle handle expected_type) [
  | none ↦ none
  | some (slot, generation) ↦ elim (get_elem? os slot) [
    | none ↦ none
    | some o ↦
        if not o.live || (not (o.object_type == expected_type) || not (o.generation == generation))
        then none
        else some (slot, o)
  ]
]

-- A generation is never 0, although it wraps around.
abbrev pub next_generation : ℕ → ℕ
next_generation g = let g' = (g + 1) % 2 ^ 16 in if g' == 0 then 1 else g'

abbrev pub new_object : ℕ → Option ℕ → ℕ → ℕ → Object
new_object object_type target slot generation = record {
  live = true;
  object_type = object_type;
  close_state = false;
  generation = generation;
  slot = slot;
  public_handle_refs = 1;
  internal_refs = 1;
  target = target;
}

-- The slot, the handle and the table.
unfoldable pub allocate_object : List Object → ℕ → Option ℕ → Option (ℕ × ℕ × List Object)
allocate_object os object_type target = elim (find_slot (λ o. not o.live) os) [
  | none ↦ none
  | some (slot, old) ↦
      let generation = next_generation old.generation in
      some (
        slot,
        make_handle object_type slot generation,
        set os slot (new_object object_type target slot generation),
      )
]

-- The generation outlives the object.
abbrev pub released : Object → Object
released o = record empty_object { generation = o.generation }

unfoldable pub release_object : List Object → ℕ → List Object
release_object os slot = elim (get_elem? os slot) [ none ↦ os | some o ↦ set os slot (released o) ]

pub record Allocated (os : List Object) (object_type : ℕ) (target : Option ℕ) (slot handle : ℕ)
    (os' : List Object) : Type 0 where
  pub old : Object
  pub at : get_elem? os slot ≡ some old
  pub dead : old.live ≡ false
  pub handle_of : handle ≡ make_handle object_type slot (next_generation old.generation)
  pub table :
      os' ≡ set os slot (new_object object_type target slot (next_generation old.generation))

pub allocate-Allocated :
    (os : List Object) (object_type : ℕ) (target : Option ℕ) {slot handle : ℕ} {os' : List Object}
    → allocate_object os object_type target ≡ some (slot, handle, os')
    → Allocated os object_type target slot handle os'
unfolding allocate_object
allocate-Allocated os object_type target h = elim (Option-cases (find_slot (λ o. not o.live) os)) [
  | inl e ↦ absurd (ground arith)
  | inr ((i, old), e) ↦
      let s = find_slot-some (λ o. not o.live) os e in
      record {
        old = old;
        at = ground arith;
        dead = ground arith;
        handle_of = ground arith;
        table = ground arith;
      }
]

-- The handle of an object that was just allocated in a table of 16 looks it up, and no other type does.
pub lookup-allocate :
    (os : List Object) (object_type expected : ℕ) (target : Option ℕ) {slot handle : ℕ}
    {os' : List Object}
    → length os ≡ max_objects
    → object_type < 2 ^ 8
    → allocate_object os object_type target ≡ some (slot, handle, os')
    → (o : Object) × (get_elem? os' slot ≡ some o)
      × (o.target ≡ target)
      × (lookup_object os' handle expected
          ≡ (if object_type == expected then some (slot, o) else none))
lookup-allocate os object_type expected target {slot} {handle} {os'} n t h =
    let a = allocate-Allocated os object_type target h in
    let g = next_generation a.old.generation in
    let o = new_object object_type target slot g in
    let l = get_elem?-lt os slot a.old a.at in
    let here = get_elem?-set_self os slot o l in
    let d = decode-make object_type expected slot g t (omega arith) (ground arith) (ground arith) in
    let q : lookup_object (set os slot o) (make_handle object_type slot g) expected
        ≡ (if object_type == expected then some (slot, o) else none) =
      unfold lookup_object in ground (arith, d, here) in
    rw (a.table, a.handle_of) (o, here, refl, q)

-- Once its object is released and its slot is allocated again, for whatever type, a handle is stale: it
-- looks nothing up.
pub lookup-reallocate :
    (os : List Object) (slot : ℕ) (o : Object) (object_type expected again : ℕ) (target : Option ℕ)
    {handle : ℕ} {os' : List Object}
    → length os ≡ max_objects
    → get_elem? os slot ≡ some o
    → object_type < 2 ^ 8
    → 0 < o.generation
    → o.generation < 2 ^ 16
    → allocate_object (release_object os slot) again target ≡ some (slot, handle, os')
    → lookup_object os' (make_handle object_type slot o.generation) expected ≡ none
lookup-reallocate os slot o object_type expected again target {handle} {os'} n at t g0 g1 h =
    let r : release_object os slot ≡ set os slot (released o) =
      unfold release_object in ground arith in
    let a =
      allocate-Allocated (set os slot (released o)) again target
        (subst (λ x. allocate_object x again target ≡ some (slot, handle, os')) r h) in
    let l = get_elem?-lt os slot o at in
    let was = get_elem?-set_self os slot (released o) l in
    let old : a.old ≡ released o = let x = a.at in ground arith in
    let g = next_generation o.generation in
    let e : os' ≡ set os slot (new_object again target slot g) =
      a.table
      ∙ ap
          (λ x.
            set (set os slot (released o)) slot
              (new_object again target slot (next_generation x.generation)))
          old
      ∙ set-set os slot (released o) (new_object again target slot g) in
    let here = get_elem?-set_self os slot (new_object again target slot g) l in
    let d = decode-make object_type expected slot o.generation t (omega arith) g0 g1 in
    rw e (unfold lookup_object in ground (arith, d, here))
