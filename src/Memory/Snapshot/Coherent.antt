-- ===== src/Memory/Snapshot/Coherent.antt =====
-- A current view that is returned OK is coherent.
use guide_xos_net.Prelude.{
  ℕ, ◌+◌, ◌*◌, ◌-◌, ◌≤◌, ◌<◌, ◌≡◌, inl, inr, refl, ap, subst, ◌∙◌, true, arith,
}
use guide_xos_net.Memory.Ranges.{u64_max}
use guide_xos_net.Memory.Ledger.{Ledger}
use guide_xos_net.Memory.Arena.State.{Arena}
use guide_xos_net.Memory.Arena.Valid.{IsValid}
use guide_xos_net.Memory.Arena.Tables.{available-add-reserved, reserved-le-length}
use guide_xos_net.Memory.Arena.Charges.{committed-le-reserved}
use guide_xos_net.Memory.Arena.Validate
use guide_xos_net.Memory.Arena.Validating.{Fixed, validate→IsValid}
use guide_xos_net.Memory.CommitModel.{
  CommitModel, create_no_pagefile, percentage_100, percentage_100_lem, Bounded,
  create_no_pagefile_cases,
}
use guide_xos_net.Memory.CommitModel
use guide_xos_net.Memory.Map.{Classification}
use guide_xos_net.Memory.Snapshot.{
  SnapshotStatus, snapshot_ok, PhysicalSnapshot, MemorySnapshot, zero_physical, zero_snapshot,
  physical_of, physical_create, snapshot_of, snapshot_create, is_coherent, no_commit, with_commit,
  with_physical, query_current,
}

physical-ok :
    (p : PhysicalSnapshot) (c : Classification) (l : Ledger) (g : ℕ)
    → (physical_create p c l g).0 ≡ snapshot_ok
    → (physical_create p c l g ≡ (snapshot_ok, physical_of c l g))
      × (0 < g)
      × (0 < c.total_ram_like_bytes)
      × (l.physical_bytes ≤ c.conventional_bytes)
      × (c.conventional_bytes - l.physical_bytes ≤ c.total_ram_like_bytes)
unfolding physical_create
physical-ok p c l g h = ground arith

create-ok :
    (s : MemorySnapshot) (p : PhysicalSnapshot) (a : Arena) (m : CommitModel) (g : ℕ)
    → (snapshot_create s p a m g).0 ≡ snapshot_ok
    → (snapshot_create s p a m g ≡ (snapshot_ok, snapshot_of p a m g))
      × (Validate.validate a ≡ true)
unfolding snapshot_create
create-ok s p a m g h = ground arith

coherent :
    (p : PhysicalSnapshot) (a : Arena) (m : CommitModel) (g : ℕ)
    → IsValid a
    → 0 < g
    → 0 < p.total_ram_like_bytes
    → p.total_ram_like_bytes ≤ u64_max
    → p.available_physical_bytes ≤ p.total_ram_like_bytes
    → p.accounted_used_bytes ≡ p.total_ram_like_bytes - p.available_physical_bytes
    → Bounded p.total_ram_like_bytes p.available_physical_bytes a.total_committed_bytes m
    → is_coherent (snapshot_of p a m g) ≡ true
unfolding is_coherent
coherent p a m g v pos some word free used b =
    let percent =
      percentage_100_lem (p.total_ram_like_bytes - p.available_physical_bytes)
        p.total_ram_like_bytes (omega arith) some word in
    let t = available-add-reserved a v in
    let r = reserved-le-length a v in
    let c = committed-le-reserved a v in ground (arith, percent.0, b.rest)

with_physical-ok :
    (t : SnapshotStatus × PhysicalSnapshot) (a : Arena) (g : ℕ)
    → (with_physical t a g).0 ≡ snapshot_ok
    → t.0 ≡ snapshot_ok
with_physical-ok t a g h = ground arith

with_commit-ok :
    (t : CommitModel.Status × CommitModel) (p : PhysicalSnapshot) (a : Arena) (g : ℕ)
    → (with_commit t p a g).0 ≡ snapshot_ok
    → t.0 ≡ CommitModel.ok
with_commit-ok t p a g h = ground arith

with_commit-eq :
    (t : CommitModel.Status × CommitModel) (p : PhysicalSnapshot) (a : Arena) (g : ℕ)
    → t.0 ≡ CommitModel.ok
    → with_commit t p a g ≡ snapshot_create zero_snapshot p a t.1 g
with_commit-eq t p a g h = ground arith

-- A view, field by field, of the classified memory, the ledger, the arena and a commit model.
pub record Shows (s : MemorySnapshot) (c : Classification) (l : Ledger) (a : Arena)
    (m : CommitModel) (g : ℕ) : Type 0 where
  pub valid : s.valid ≡ true
  pub dated : s.generation ≡ g
  pub physical : s.total_physical_bytes ≡ c.total_ram_like_bytes
  pub left : s.available_physical_bytes + l.physical_bytes ≡ c.conventional_bytes
  pub used : s.accounted_physical_usage_bytes + s.available_physical_bytes ≡ c.total_ram_like_bytes
  pub load :
      (s.memory_load_percent * c.total_ram_like_bytes ≤ 100 * s.accounted_physical_usage_bytes)
      × (100 * s.accounted_physical_usage_bytes
          < (s.memory_load_percent + 1) * c.total_ram_like_bytes)
  pub limit : s.commit_limit_bytes ≡ m.commit_limit
  pub commit : s.available_commit_bytes ≡ m.available_commit
  pub virtual_total : s.process_virtual_total_bytes ≡ a.length
  pub virtual_left : s.process_virtual_available_bytes + a.total_reserved_bytes ≡ a.length
  pub reserved : s.process_reserved_virtual_bytes ≡ a.total_reserved_bytes
  pub committed : s.process_committed_virtual_bytes ≡ a.total_committed_bytes

snapshot_of-Shows :
    (c : Classification) (l : Ledger) (a : Arena) (m : CommitModel) (g : ℕ)
    → IsValid a
    → 0 < c.total_ram_like_bytes
    → c.total_ram_like_bytes ≤ u64_max
    → l.physical_bytes ≤ c.conventional_bytes
    → c.conventional_bytes - l.physical_bytes ≤ c.total_ram_like_bytes
    → Shows (snapshot_of (physical_of c l g) a m g) c l a m g
snapshot_of-Shows c l a m g v some word fits free =
    let percent =
      percentage_100_lem (c.total_ram_like_bytes - (c.conventional_bytes - l.physical_bytes))
        c.total_ram_like_bytes (omega arith) some word in
    record {
      valid = refl;
      dated = refl;
      physical = refl;
      left = omega arith;
      used = omega arith;
      load = (percent.1, percent.2);
      limit = refl;
      commit = refl;
      virtual_total = refl;
      virtual_left = available-add-reserved a v;
      reserved = refl;
      committed = refl;
    }

-- Where the fields are 64-bit numbers and the arena has its 256 reservations and 4096 commitments,
-- a current view that `query_current` returns with OK is coherent and has the generation asked for. It
-- shows the classified memory, as available what the ledger leaves of the conventional memory, the
-- largest whole percentage in use, the commit of a model without a page file for the memory that is
-- left, and of the arena the length, what is not reserved, and the reserved and committed totals.
pub query_current-coherent :
    (view : MemorySnapshot) (c : Classification) (startup : MemorySnapshot) (l : Ledger) (a : Arena)
    (g : ℕ)
    → Fixed a
    → a.total_committed_bytes ≤ u64_max
    → c.total_ram_like_bytes ≤ u64_max
    → (query_current view c startup l a g).0 ≡ snapshot_ok
    → (is_coherent (query_current view c startup l a g).1 ≡ true)
      × ((m : CommitModel) × Bounded c.total_ram_like_bytes
            (c.conventional_bytes - l.physical_bytes)
            a.total_committed_bytes
            m
          × Shows (query_current view c startup l a g).1 c l a m g)
query_current-coherent view c startup l a g fixed small word h =
    let reached : query_current view c startup l a g
        ≡ with_physical (physical_create zero_physical c l g) a g =
      unfold query_current in ground arith in
    let h1 = subst (λ t. t.0 ≡ snapshot_ok) reached h in
    let p =
      physical-ok zero_physical c l g
        (with_physical-ok (physical_create zero_physical c l g) a g h1) in
    let n =
      create_no_pagefile no_commit c.total_ram_like_bytes (c.conventional_bytes - l.physical_bytes)
        a.total_committed_bytes g in
    let e : with_physical (physical_create zero_physical c l g) a g
        ≡ with_commit n (physical_of c l g) a g =
      ap (λ t. with_physical t a g) p.0 in
    let h2 = subst (λ t. t.0 ≡ snapshot_ok) e h1 in
    let k = with_commit-ok n (physical_of c l g) a g h2 in
    let b = bounded p k in
    let e2 : with_commit n (physical_of c l g) a g
        ≡ snapshot_create zero_snapshot (physical_of c l g) a n.1 g =
      with_commit-eq n (physical_of c l g) a g k in
    let s =
      create-ok zero_snapshot (physical_of c l g) a n.1 g (subst (λ t. t.0 ≡ snapshot_ok) e2 h2) in
    let all = reached ∙ e ∙ e2 ∙ s.0 in
    rw all (
      coherent (physical_of c l g) a n.1 g (validate→IsValid a fixed s.1) p.1 p.2 word p.4 refl b,
      (n.1, b, snapshot_of-Shows c l a n.1 g (validate→IsValid a fixed s.1) p.2 word p.3 p.4),
    )
  where
    bounded :
        (physical_create zero_physical c l g ≡ (snapshot_ok, physical_of c l g))
          × (0 < g)
          × (0 < c.total_ram_like_bytes)
          × (l.physical_bytes ≤ c.conventional_bytes)
          × (c.conventional_bytes - l.physical_bytes ≤ c.total_ram_like_bytes)
        → (create_no_pagefile no_commit c.total_ram_like_bytes
            (c.conventional_bytes - l.physical_bytes)
            a.total_committed_bytes
            g).0
          ≡ CommitModel.ok
        → Bounded c.total_ram_like_bytes
            (c.conventional_bytes - l.physical_bytes)
            a.total_committed_bytes
            (create_no_pagefile no_commit c.total_ram_like_bytes
              (c.conventional_bytes - l.physical_bytes)
              a.total_committed_bytes
              g).1
    bounded p k =
        elim (create_no_pagefile_cases no_commit c.total_ram_like_bytes
          (c.conventional_bytes - l.physical_bytes) a.total_committed_bytes g p.4 p.2 p.1 small) [
            | inl (_, e) ↦ absurd (ground arith)
            | inr q ↦ elim q [ inl (_, _, e) ↦ absurd (ground arith) | inr (_, _, _, b) ↦ b ]
          ]
