-- ===== src/Memory/Ledger/RoundTrip.antt =====
-- What `_find` and `_remove` of the physical ledger see after `_insert`.
use guide_xos_net.Prelude.{
  ℕ, ◌≡◌, ◌≢◌, ◌⊎◌, inl, inr, refl, ap, subst, ◌∙◌, true, false, some, arith, get_elem?,
  get_elem?-lt, get_elem?-set_self, set-set, set_same, All, All-map, All-set, All-get,
  All-replicate, find_slot-some, find_slot-set,
}
use guide_xos_net.Memory.Ledger.{
  Allocation, Ledger, ok, capacity, empty_entry, init, record_at, clear_at, insert, remove, find,
  names_range,
}
use guide_xos_net.Memory.Ledger.Valid.{Words, WellFormed, Separate, IsValid}
use guide_xos_net.Memory.Ledger.Insert.{
  stored, Acceptable, insert-Checks, insert-refused, insert-ok_iff, insert-IsValid, free, Status-ok,
}
use guide_xos_net.Memory.Ledger.Remove.{remove_clears}

-- Every free slot holds zeros.
abbrev pub IsClean : Ledger → Type 0
IsClean l = All (λ e. (e.live ≡ true) ⊎ (e ≡ empty_entry)) l.entries

pub init-IsClean : (generation : ℕ) → IsClean (init generation)
unfolding init
init-IsClean g =
    All-replicate (λ e. (e.live ≡ true) ⊎ (e ≡ empty_entry)) capacity empty_entry (inr refl)

pub insert-IsClean : (l : Ledger) (a : Allocation) → IsClean l → IsClean (insert l a).2
insert-IsClean l a c = elim (Status-ok (insert l a).0) [
  | inl h ↦
      let (k, (i, e, q, r)) = insert-Checks l a h in
      rw r (All-set (λ e. (e.live ≡ true) ⊎ (e ≡ empty_entry)) l.entries i (stored a) (inl refl) c)
  | inr h ↦ elim (insert-refused l a h) [ inl r ↦ rw r c | inr r ↦ rw r c ]
]

other_range :
    (a x : Allocation)
    → WellFormed a
    → a.base ≢ 0
    → Separate (stored a) x
    → names_range a.base a.bytes x ≡ false
other_range a x f b s = ground arith

-- On a well-formed ledger, after the insertion of a range with a base and 64-bit impacts, `find`
-- gives the slot that `insert` returned.
pub find-insert :
    (l : Ledger) (a : Allocation)
    → IsValid l
    → Words a
    → a.base ≢ 0
    → (insert l a).0 ≡ ok
    → find (insert l a).2 a.base a.bytes ≡ (insert l a).1
unfolding find
find-insert l a v w b h =
    let (c, (i, e, q, r)) = insert-Checks l a h in
    let k = (insert-ok_iff l a v w).0 h in
    let s = find_slot-some free l.entries q in
    let f =
      find_slot-set (names_range a.base a.bytes) l.entries i (stored a)
        (All-map (λ x. other_range a x k.formed b) l.entries k.apart) (ground arith)
        (get_elem?-lt l.entries i e s.0) in
    rw r (ground arith)

clear_at-record_at :
    (l : Ledger) (a : Allocation) (i : ℕ)
    → IsValid l
    → Acceptable l a
    → get_elem? l.entries i ≡ some empty_entry
    → clear_at (record_at l a i) (stored a) i ≡ l
clear_at-record_at l a i v k at = ground (
  arith,
  set-set l.entries i (stored a) empty_entry,
  set_same l.entries i empty_entry at,
  k.room,
  k.physical,
  k.commit,
  k.virtual_bytes,
)

zeroed : (e : Allocation) → (e.live ≡ true) ⊎ (e ≡ empty_entry) → free e ≡ true → e ≡ empty_entry
zeroed e h f = ground arith

-- On a well-formed ledger whose free slots hold zeros, removing an allocation with 64-bit impacts
-- that was just inserted restores the ledger, field by field.
pub remove-insert :
    (l : Ledger) (a : Allocation) (i : ℕ)
    → IsValid l
    → IsClean l
    → Words a
    → (insert l a).0 ≡ ok
    → (insert l a).1 ≡ some i
    → remove (insert l a).2 i ≡ (ok, l)
remove-insert l a i v cl w h at =
    let (c, (j, e, q, r)) = insert-Checks l a h in
    let s = find_slot-some free l.entries q in
    let same : i ≡ j = ground arith in
    let valid : IsValid (record_at l a j) = subst (λ t. IsValid t.2) r (insert-IsValid l a v w) in
    let empty =
      zeroed e (All-get (λ e. (e.live ≡ true) ⊎ (e ≡ empty_entry)) l.entries j cl s.0) s.1 in
    let here = get_elem?-set_self l.entries j (stored a) (get_elem?-lt l.entries j e s.0) in
    let restored = clear_at-record_at l a j v ((insert-ok_iff l a v w).0 h) (s.0 ∙ ap some empty) in
    rw (r, same, remove_clears (record_at l a j) j (stored a) valid here refl, restored)
