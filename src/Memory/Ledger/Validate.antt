-- ===== src/Memory/Ledger/Validate.antt =====
-- `gxos_physical_ledger_validate` decides well-formedness.
use guide_xos_net.Prelude.{
  ℕ, ◌+◌, ◌≤◌, ◌<◌, ◌^◌, ◌≡◌, ◌↔◌, inl, inr, true, false, some, List, [], ◌∷◌, arith, length, sum,
  sum-le-length, All, All-map, All-zip, All-of, Pairs, any, any-false, All→any-false, Bool-cases,
  Option-cases,
}
use guide_xos_net.Memory.Ranges.{u64_max, add_u64, range_end, add_u64-eq}
use guide_xos_net.Memory.Ledger.{
  Allocation, Ledger, Totals, capacity, conflicts, malformed, add_totals, check_entry,
  validate_from, validate, zero_totals,
}
use guide_xos_net.Memory.Ledger.Valid.{
  Words, WellFormed, IfLive, Separate, share, one, IsValid, conflicts-false, Separate→conflicts,
}

abbrev physical_of : Allocation → ℕ
physical_of e = e.physical_impact_bytes

abbrev commit_of : Allocation → ℕ
commit_of e = e.commit_impact_bytes

abbrev virtual_of : Allocation → ℕ
virtual_of e = e.virtual_reservation_impact_bytes

-- `u` is `t` with the shares of `xs` added.
record Grown (xs : List Allocation) (t u : Totals) : Type 0 where
  live : u.live ≡ t.live + sum one xs
  physical : u.physical ≡ t.physical + sum (share physical_of) xs
  commit : u.commit ≡ t.commit + sum (share commit_of) xs
  virtual_bytes : u.virtual_bytes ≡ t.virtual_bytes + sum (share virtual_of) xs

record Bounded (t : Totals) : Type 0 where
  physical : t.physical ≤ u64_max
  commit : t.commit ≤ u64_max
  virtual_bytes : t.virtual_bytes ≤ u64_max

WellFormed-iff : (e : Allocation) → (malformed e ≡ false) ↔ WellFormed e
unfolding range_end
WellFormed-iff e = (λ h. ground arith, λ h. ground arith)

check_live :
    (e : Allocation) (rest : List Allocation) (t u : Totals)
    → e.live ≡ true
    → check_entry e rest t ≡ some u
    → (malformed e ≡ false) × (any (conflicts e) rest ≡ false) × (add_totals e t ≡ some u)
unfolding check_entry
check_live e rest t u live h = ground arith

add_totals-some :
    (e : Allocation) (t u : Totals)
    → Words e
    → e.live ≡ true
    → t.live + 1 < 2 ^ 32
    → Bounded t
    → add_totals e t ≡ some u
    → Grown (e ∷ []) t u × Bounded u
unfolding add_totals add_u64 sum
add_totals-some e t u w live k b h = (ground arith, ground arith)

-- What one round that goes on has checked.
check_entry-some :
    (e : Allocation) (rest : List Allocation) (t u : Totals)
    → Words e
    → t.live + 1 < 2 ^ 32
    → Bounded t
    → check_entry e rest t ≡ some u
    → IfLive WellFormed e × All (Separate e) rest × Grown (e ∷ []) t u × Bounded u
unfolding sum
check_entry-some e rest t u w k b h = elim (Bool-cases e.live) [
  | inl live ↦
      let c = check_live e rest t u live h in
      let g = add_totals-some e t u w live k b c.2 in
      (
        inr ((WellFormed-iff e).0 c.0),
        All-map (λ y q. conflicts-false e y q) rest (any-false (conflicts e) rest c.1),
        g.0,
        g.1,
      )
  | inr free ↦ let g = free_case free in (inl free, All-of (λ y. inl free) rest, g.0, g.1)
]
  where
    free_case : e.live ≡ false → Grown (e ∷ []) t u × Bounded u
    free_case free = unfold check_entry in (ground arith, ground arith)

validate_from-some :
    (xs : List Allocation) (t u : Totals)
    → All Words xs
    → t.live + length xs < 2 ^ 32
    → Bounded t
    → validate_from xs t ≡ some u
    → All (IfLive WellFormed) xs × Pairs Separate xs × Grown xs t u × Bounded u
unfolding validate_from sum
validate_from-some [] t u w k b h = (tt, tt, ground arith, ground arith)
validate_from-some (e ∷ rest) t u w k b h = elim (Option-cases (check_entry e rest t)) [
  | inl stop ↦ absurd (ground arith)
  | inr (t', go) ↦
      let c = check_entry-some e rest t t' w.0 (omega arith) b go in
      let ih = validate_from-some rest t' u w.1 (ground arith) c.3 (ground arith) in
      ((c.0, ih.0), (c.1, ih.1), ground arith, ih.3)
]

record Agree (l : Ledger) (u : Totals) : Type 0 where
  live : u.live ≡ l.live_count
  physical : u.physical ≡ l.physical_bytes
  commit : u.commit ≡ l.commit_bytes
  virtual_bytes : u.virtual_bytes ≡ l.virtual_reservation_bytes

agree_lem :
    (l : Ledger) (u : Totals)
    → validate_from l.entries zero_totals ≡ some u
    → validate l ≡ true
    → (0 < l.generation) × Agree l u
unfolding validate
agree_lem l u go h = ground arith

-- A ledger that validates is well formed.
pub validate→IsValid :
    (l : Ledger) → length l.entries ≡ capacity → All Words l.entries → validate l ≡ true → IsValid l
validate→IsValid l size w h = elim (Option-cases (validate_from l.entries zero_totals)) [
  | inl stop ↦ absurd (unfold validate in ground arith)
  | inr (u, go) ↦
      let c = validate_from-some l.entries zero_totals u w (omega (arith, size)) (omega arith) go in
      let a = agree u go in
      record {
        size = size;
        dated = a.0;
        words = w;
        formed = c.0;
        apart = c.1;
        counted = omega (arith, c.2.live, a.1.live);
        physical = omega (arith, c.2.physical, a.1.physical);
        commit = omega (arith, c.2.commit, a.1.commit);
        virtual_bytes = omega (arith, c.2.virtual_bytes, a.1.virtual_bytes);
        physical_fits = omega (arith, c.3.physical, a.1.physical);
        commit_fits = omega (arith, c.3.commit, a.1.commit);
        virtual_fits = omega (arith, c.3.virtual_bytes, a.1.virtual_bytes);
      }
]
  where
    agree :
        (u : Totals) → validate_from l.entries zero_totals ≡ some u → (0 < l.generation) × Agree l u
    agree u go = agree_lem l u go h

live_form : {e : Allocation} → e.live ≡ true → IfLive WellFormed e → WellFormed e
live_form live (inl free) = ground arith
live_form live (inr w) = w

-- The sums with one more entry counted.
abbrev grow : Allocation → Totals → Totals
grow e t = record {
  live = t.live + one e;
  physical = t.physical + share physical_of e;
  commit = t.commit + share commit_of e;
  virtual_bytes = t.virtual_bytes + share virtual_of e;
}

record Room (e : Allocation) (t : Totals) : Type 0 where
  live : t.live + one e < 2 ^ 32
  physical : t.physical + share physical_of e ≤ u64_max
  commit : t.commit + share commit_of e ≤ u64_max
  virtual_bytes : t.virtual_bytes + share virtual_of e ≤ u64_max

add_totals-grow :
    (e : Allocation) (t : Totals) → e.live ≡ true → Room e t → add_totals e t ≡ some (grow e t)
unfolding add_totals
add_totals-grow e t live r =
    let p = add_u64-eq t.physical e.physical_impact_bytes (ground arith) in
    let c = add_u64-eq t.commit e.commit_impact_bytes (ground arith) in
    let v = add_u64-eq t.virtual_bytes e.virtual_reservation_impact_bytes (ground arith) in
    ground arith

WellFormed-round :
    (e : Allocation) (rest : List Allocation) (t : Totals)
    → IfLive WellFormed e
    → All (IfLive WellFormed) rest
    → All (Separate e) rest
    → Room e t
    → check_entry e rest t ≡ some (grow e t)
unfolding check_entry
WellFormed-round e rest t f fs s r = elim (Bool-cases e.live) [
  | inl live ↦
      let we = live_form live f in
      let m = (WellFormed-iff e).1 we in
      let c =
        All→any-false (conflicts e) rest
          (All-zip (λ y. Separate→conflicts e y live we) rest fs s) in
      let g = add_totals-grow e t live r in simp (live, m, c, g)
  | inr free ↦ ground arith
]

sums : List Allocation → Totals → Totals
sums xs t = record {
  live = t.live + sum one xs;
  physical = t.physical + sum (share physical_of) xs;
  commit = t.commit + sum (share commit_of) xs;
  virtual_bytes = t.virtual_bytes + sum (share virtual_of) xs;
}

validate_from-sums :
    (xs : List Allocation) (t : Totals)
    → All (IfLive WellFormed) xs
    → Pairs Separate xs
    → t.live + sum one xs < 2 ^ 32
    → t.physical + sum (share physical_of) xs ≤ u64_max
    → t.commit + sum (share commit_of) xs ≤ u64_max
    → t.virtual_bytes + sum (share virtual_of) xs ≤ u64_max
    → validate_from xs t ≡ some (sums xs t)
unfolding validate_from sums sum
validate_from-sums [] t f s a b c d = ground arith
validate_from-sums (e ∷ rest) t f s a b c d =
    rw (WellFormed-round e rest t f.0 f.1 s.0 (ground arith), validate_from)
      (rw
        (validate_from-sums rest (grow e t) f.1 s.1 (omega arith) (omega arith) (omega arith)
          (omega arith))
        (ground arith))

-- A well-formed ledger validates.
pub IsValid→validate : (l : Ledger) → IsValid l → validate l ≡ true
unfolding validate sums
IsValid→validate l v =
    let few = sum-le-length one l.entries (All-of (λ e. ground arith) l.entries) in
    let k =
      validate_from-sums l.entries zero_totals v.formed v.apart (omega (arith, v.size, few))
        (omega (arith, v.physical, v.physical_fits)) (omega (arith, v.commit, v.commit_fits))
        (omega (arith, v.virtual_bytes, v.virtual_fits)) in
    ground arith

-- `validate` returns 1 exactly on the well-formed ledgers, those of 4096 entries with 64-bit impacts.
pub validate_iff :
    (l : Ledger)
    → length l.entries ≡ capacity
    → All Words l.entries
    → (validate l ≡ true) ↔ IsValid l
validate_iff l size w = (validate→IsValid l size w, IsValid→validate l)
