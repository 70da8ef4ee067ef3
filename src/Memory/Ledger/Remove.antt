-- ===== src/Memory/Ledger/Remove.antt =====
-- `gxos_physical_ledger_remove` and `_find`, alone and after `_insert`.
use guide_xos_net.Prelude.{
  ℕ, ◌+◌, sym, ap, subst, Written, set-Written, ◌≡◌, inl, inr, refl, ◌∙◌, true, false, none, some,
  arith, length-set, get_elem?, get_elem?-lt, get_elem?-none, sum-set, le-sum, All-of, All-set,
  Pairs-set, Bool-cases, Option-cases, if◌then◌else◌, leb,
}
use guide_xos_net.Memory.Ledger.{
  Allocation, Ledger, ok, invalid_argument, invalid_state, capacity, empty_entry, clear_at,
  removable, remove,
}
use guide_xos_net.Memory.Ledger.Valid.{
  Words, WellFormed, IfLive, share, one, IsValid, Separate-symm,
}

clear_at-IsValid :
    (l : Ledger) (i : ℕ) (e : Allocation)
    → IsValid l
    → get_elem? l.entries i ≡ some e
    → e.live ≡ true
    → IsValid (clear_at l e i)
clear_at-IsValid l i e v at live = record {
  size = length-set l.entries i empty_entry ∙ v.size;
  dated = v.dated;
  words = All-set Words l.entries i empty_entry (omega arith) v.words;
  formed = All-set (IfLive WellFormed) l.entries i empty_entry (inl refl) v.formed;
  apart =
      Pairs-set Separate-symm l.entries i empty_entry (All-of (λ y. inl refl) l.entries) v.apart;
  counted = ground (arith, sum-set one l.entries i empty_entry at, v.counted);
  physical = ground (
    arith,
    sum-set (share (λ e. e.physical_impact_bytes)) l.entries i empty_entry at,
    v.physical,
  );
  commit =
      ground
        (arith, sum-set (share (λ e. e.commit_impact_bytes)) l.entries i empty_entry at, v.commit);
  virtual_bytes = ground (
    arith,
    sum-set (share (λ e. e.virtual_reservation_impact_bytes)) l.entries i empty_entry at,
    v.virtual_bytes,
  );
  physical_fits = omega (arith, v.physical_fits);
  commit_fits = omega (arith, v.commit_fits);
  virtual_fits = omega (arith, v.virtual_fits);
}

-- On a well-formed ledger the guards of `remove` never refuse a live entry.
live-removable :
    (l : Ledger) (i : ℕ) (e : Allocation)
    → IsValid l
    → get_elem? l.entries i ≡ some e
    → e.live ≡ true
    → removable l e ≡ true
live-removable l i e v at live = ground (
  arith,
  le-sum one l.entries i at,
  le-sum (share (λ e. e.physical_impact_bytes)) l.entries i at,
  le-sum (share (λ e. e.commit_impact_bytes)) l.entries i at,
  le-sum (share (λ e. e.virtual_reservation_impact_bytes)) l.entries i at,
  v.counted,
  v.physical,
  v.commit,
  v.virtual_bytes,
)

-- On a well-formed ledger a live entry is removed.
pub remove_clears :
    (l : Ledger) (i : ℕ) (e : Allocation)
    → IsValid l
    → get_elem? l.entries i ≡ some e
    → e.live ≡ true
    → remove l i ≡ (ok, clear_at l e i)
unfolding remove
remove_clears l i e v at live =
    ground (arith, live-removable l i e v at live, get_elem?-lt l.entries i e at, v.size)

-- The entry at a slot is gone: its slot holds zeros, the count is less by one and each total by the
-- impact of the entry, and nothing else differs.
pub record Removed (l m : Ledger) (i : ℕ) (e : Allocation) : Type 0 where
  pub cleared : Written l.entries m.entries i empty_entry
  pub count : m.live_count + 1 ≡ l.live_count
  pub physical : m.physical_bytes + e.physical_impact_bytes ≡ l.physical_bytes
  pub commit : m.commit_bytes + e.commit_impact_bytes ≡ l.commit_bytes
  pub virtual_bytes :
      m.virtual_reservation_bytes + e.virtual_reservation_impact_bytes ≡ l.virtual_reservation_bytes
  pub rest : m ≡ record l {
    entries = m.entries;
    live_count = m.live_count;
    physical_bytes = m.physical_bytes;
    commit_bytes = m.commit_bytes;
    virtual_reservation_bytes = m.virtual_reservation_bytes;
  }

-- On a well-formed ledger, removing a live entry returns OK, writes zeros over exactly its slot, and
-- takes one off the count of live entries and the impacts of the entry off the three totals; nothing
-- else differs.
pub remove_live :
    (l : Ledger) (i : ℕ) (e : Allocation)
    → IsValid l
    → get_elem? l.entries i ≡ some e
    → e.live ≡ true
    → ((remove l i).0 ≡ ok) × Removed l (remove l i).1 i e
remove_live l i e v at live =
    let q = remove_clears l i e v at live in
    let k = live-removable l i e v at live in
    (
      ap (λ t. t.0) q,
      subst (λ t. Removed l t.1 i e) (sym q)
          (record {
            cleared = set-Written l.entries i empty_entry at;
            count = ground arith;
            physical = ground arith;
            commit = ground arith;
            virtual_bytes = ground arith;
            rest = refl;
          }),
    )

-- On a well-formed ledger `remove` refuses a slot out of range or one that is free, and then
-- changes nothing.
pub remove_dead :
    (l : Ledger) (i : ℕ)
    → IsValid l
    → ((e : Allocation) → get_elem? l.entries i ≡ some e → e.live ≡ false)
    → remove l i ≡ (if leb capacity i then invalid_argument else invalid_state, l)
unfolding remove
remove_dead l i v dead = elim (Option-cases (get_elem? l.entries i)) [
  | inl q ↦ ground (arith, get_elem?-none l.entries i q, v.size)
  | inr (e, q) ↦ ground (arith, dead e q)
]

-- `remove` keeps a well-formed ledger well formed, whatever it returns.
pub remove-IsValid : (l : Ledger) (i : ℕ) → IsValid l → IsValid (remove l i).1
remove-IsValid l i v = elim (Option-cases (get_elem? l.entries i)) [
  | inl q ↦ rw (unchanged q) v
  | inr (e, q) ↦ elim (Bool-cases e.live) [
    | inl live ↦ rw (remove_clears l i e v q live) (clear_at-IsValid l i e v q live)
    | inr dead ↦ rw (unchanged_dead e q dead) v
  ]
]
  where
    unchanged : get_elem? l.entries i ≡ none → (remove l i).1 ≡ l
    unchanged q = unfold remove in ground arith

    unchanged_dead :
        (e : Allocation) → get_elem? l.entries i ≡ some e → e.live ≡ false → (remove l i).1 ≡ l
    unchanged_dead e q d = unfold remove in ground arith
