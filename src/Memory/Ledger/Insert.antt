-- ===== src/Memory/Ledger/Insert.antt =====
-- `gxos_physical_ledger_insert`: when it accepts, and what it keeps.
use guide_xos_net.Prelude.{
  ℕ, ◌+◌, ◌*◌, ◌≤◌, ◌<◌, ◌≡◌, ◌≢◌, ◌⊎◌, ◌↔◌, inl, inr, refl, ◌∙◌, Bool, true, false, not, none,
  some, arith, length-set, get_elem?, sum-set, length-le-sum, All, All-map, All-zip, All-set,
  Pairs-set, any, any-false, All→any-false, find_slot, find_slot-some, find_slot-none, Option-cases,
}
use guide_xos_net.Memory.Ranges.{
  u64_max, page_size, range_end, add_u64, multiply_u64, multiply_u64-eq, multiply_u64-some,
}
use guide_xos_net.Memory.Ledger.{
  Allocation, Ledger, Status, ok, capacity, conflicts, pages_short, totals_overflow, exhaust,
  record_at, insert,
}
use guide_xos_net.Memory.Ledger.Valid.{
  Words, WellFormed, IfLive, Separate, share, one, IsValid, Separate-symm, conflicts-false,
  Separate→conflicts,
}

-- The entry that `insert` stores.
abbrev pub stored : Allocation → Allocation
stored a = record a { live = true }

-- What `insert` asks of an allocation and of the ledger.
pub record Acceptable (l : Ledger) (a : Allocation) : Type 0 where
  pub formed : WellFormed a
  pub covered : (a.pages ≡ 0) ⊎ (a.bytes ≤ a.pages * page_size) × (a.pages * page_size ≤ u64_max)
  pub apart : All (Separate (stored a)) l.entries
  pub room : l.live_count < capacity
  pub physical : l.physical_bytes + a.physical_impact_bytes ≤ u64_max
  pub commit : l.commit_bytes + a.commit_impact_bytes ≤ u64_max
  pub virtual_bytes : l.virtual_reservation_bytes + a.virtual_reservation_impact_bytes ≤ u64_max

pub record Checks (l : Ledger) (a : Allocation) : Type 0 where
  pub formed : WellFormed a
  pub covered : (a.pages ≡ 0) ⊎ (pages_short a ≡ false)
  pub apart : any (conflicts a) l.entries ≡ false
  pub room : l.live_count < capacity
  pub totals : totals_overflow l a ≡ false

abbrev pub free : Allocation → Bool
free e = not e.live

-- The code's tests in one record, and what is left after them.
pub insert-Checks :
    (l : Ledger) (a : Allocation)
    → (insert l a).0 ≡ ok
    → Checks l a
      × ((i : ℕ) × (e : Allocation) × (find_slot free l.entries ≡ some (i, e))
          × (insert l a ≡ (ok, some i, record_at l a i)))
unfolding insert range_end
insert-Checks l a h = elim (Option-cases (find_slot free l.entries)) [
  | inl e ↦ absurd (ground arith)
  | inr ((i, e), q) ↦ (
    record {
      formed = ground arith;
      covered = ground arith;
      apart = ground arith;
      room = ground arith;
      totals = ground arith;
    },
    (i, e, q, ground arith),
  )
]

pub insert-refused :
    (l : Ledger) (a : Allocation)
    → (insert l a).0 ≢ ok
    → ((insert l a).2 ≡ l) ⊎ ((insert l a).2 ≡ exhaust l)
unfolding insert
insert-refused l a h = ground arith

pages_short-false :
    (a : Allocation)
    → pages_short a ≡ false
    → (a.bytes ≤ a.pages * page_size) × (a.pages * page_size ≤ u64_max)
pages_short-false a h = elim (Option-cases (multiply_u64 a.pages page_size)) [
  | inl e ↦ absurd (ground arith)
  | inr (c, e) ↦ let m = multiply_u64-some a.pages page_size e in ground arith
]

covers→pages_short :
    (a : Allocation)
    → a.bytes ≤ a.pages * page_size
    → a.pages * page_size ≤ u64_max
    → pages_short a ≡ false
covers→pages_short a h k = ground (arith, multiply_u64-eq a.pages page_size k)

totals_overflow_iff :
    (l : Ledger) (a : Allocation)
    → IsValid l
    → Words a
    → (totals_overflow l a ≡ false) ↔ (
        (l.physical_bytes + a.physical_impact_bytes ≤ u64_max)
        × (l.commit_bytes + a.commit_impact_bytes ≤ u64_max)
        × (l.virtual_reservation_bytes + a.virtual_reservation_impact_bytes ≤ u64_max))
unfolding add_u64
totals_overflow_iff l a v w = (λ h. ground arith, λ h. ground arith)

free_slot : (l : Ledger) → IsValid l → find_slot free l.entries ≡ none → capacity ≤ l.live_count
free_slot l v e = omega (
  arith,
  length-le-sum one l.entries
      (All-map (λ x h. ground arith) l.entries (find_slot-none free l.entries e)),
  v.size,
  v.counted,
)

insert-accepts : (l : Ledger) (a : Allocation) → IsValid l → Checks l a → (insert l a).0 ≡ ok
unfolding insert range_end
insert-accepts l a v c = elim (Option-cases (find_slot free l.entries)) [
  | inl e ↦ absurd (omega (arith, free_slot l v e, c.room))
  | inr ((i, e), q) ↦ ground arith
]

-- On a well-formed ledger, for an allocation with 64-bit impacts, `insert` returns OK exactly
-- where the allocation is well formed, it counts no pages or pages that cover its bytes in 64 bits, its
-- range is apart from every live one, a slot is free and the three totals do not pass 64 bits.
pub insert-ok_iff :
    (l : Ledger) (a : Allocation) → IsValid l → Words a → ((insert l a).0 ≡ ok) ↔ Acceptable l a
insert-ok_iff l a v w = (forth, back)
  where
    forth : (insert l a).0 ≡ ok → Acceptable l a
    forth h =
        let c = (insert-Checks l a h).0 in
        let t = (totals_overflow_iff l a v w).0 c.totals in
        record {
          formed = c.formed;
          covered = elim c.covered [ inl z ↦ inl z | inr k ↦ inr (pages_short-false a k) ];
          apart =
              All-map (λ y. conflicts-false (stored a) y) l.entries
                (any-false (conflicts a) l.entries c.apart);
          room = c.room;
          physical = t.0;
          commit = t.1;
          virtual_bytes = t.2;
        }

    back : Acceptable l a → (insert l a).0 ≡ ok
    back k = insert-accepts l a v (record {
      formed = k.formed;
      covered = elim k.covered [ inl z ↦ inl z | inr (p, q) ↦ inr (covers→pages_short a p q) ];
      apart = All→any-false (conflicts a) l.entries (
          All-zip (λ y. Separate→conflicts (stored a) y refl (formed_stored k.formed)) l.entries
            v.formed k.apart);
      room = k.room;
      totals = (totals_overflow_iff l a v w).1 (k.physical, k.commit, k.virtual_bytes);
    })
      where
        formed_stored : WellFormed a → WellFormed (stored a)
        formed_stored f = ground arith

record_at-IsValid :
    (l : Ledger) (a : Allocation) (i : ℕ) (e : Allocation)
    → IsValid l
    → Words a
    → Acceptable l a
    → get_elem? l.entries i ≡ some e
    → e.live ≡ false
    → IsValid (record_at l a i)
record_at-IsValid l a i e v w k at dead = record {
  size = length-set l.entries i (stored a) ∙ v.size;
  dated = v.dated;
  words = All-set Words l.entries i (stored a) (ground arith) v.words;
  formed =
      All-set (IfLive WellFormed) l.entries i (stored a) (inr (ground (arith, k.formed))) v.formed;
  apart = Pairs-set Separate-symm l.entries i (stored a) k.apart v.apart;
  counted = ground (arith, sum-set one l.entries i (stored a) at, v.counted, k.room);
  physical = ground (
    arith,
    sum-set (share (λ e. e.physical_impact_bytes)) l.entries i (stored a) at,
    v.physical,
    k.physical,
  );
  commit = ground (
    arith,
    sum-set (share (λ e. e.commit_impact_bytes)) l.entries i (stored a) at,
    v.commit,
    k.commit,
  );
  virtual_bytes = ground (
    arith,
    sum-set (share (λ e. e.virtual_reservation_impact_bytes)) l.entries i (stored a) at,
    v.virtual_bytes,
    k.virtual_bytes,
  );
  physical_fits = omega arith;
  commit_fits = omega arith;
  virtual_fits = omega arith;
}

exhaust-IsValid : (l : Ledger) → IsValid l → IsValid (exhaust l)
exhaust-IsValid l v = record {
  size = v.size;
  dated = v.dated;
  words = v.words;
  formed = v.formed;
  apart = v.apart;
  counted = v.counted;
  physical = v.physical;
  commit = v.commit;
  virtual_bytes = v.virtual_bytes;
  physical_fits = v.physical_fits;
  commit_fits = v.commit_fits;
  virtual_fits = v.virtual_fits;
}

pub Status-ok : (s : Status) → (s ≡ ok) ⊎ (s ≢ ok)
Status-ok ok = inl refl
Status-ok _ = inr (λ e. cc)

-- `insert` keeps a well-formed ledger well formed for an allocation with 64-bit impacts, whatever
-- it returns.
pub insert-IsValid : (l : Ledger) (a : Allocation) → IsValid l → Words a → IsValid (insert l a).2
insert-IsValid l a v w = elim (Status-ok (insert l a).0) [
  | inl h ↦
      let (c, (i, e, q, r)) = insert-Checks l a h in
      let s = find_slot-some free l.entries q in
      rw r (record_at-IsValid l a i e v w ((insert-ok_iff l a v w).0 h) s.0 (ground arith))
  | inr h ↦ elim (insert-refused l a h) [ inl r ↦ rw r v | inr r ↦ rw r (exhaust-IsValid l v) ]
]
