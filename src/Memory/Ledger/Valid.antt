-- ===== src/Memory/Ledger/Valid.antt =====
-- What a well-formed ledger is: live entries are well formed and apart, and the totals are the sums.
use guide_xos_net.Prelude.{
  ℕ, ◌≤◌, ◌<◌, ◌≡◌, ◌⊎◌, inl, refl, true, false, arith, length, sum, All, Pairs, length-replicate,
  All-replicate, Pairs-replicate, sum-replicate, if◌then◌else◌, bit,
}
use guide_xos_net.Memory.Ranges.{u64_max, Fits, Apart, overlap-false, overlap_of_Apart}
use guide_xos_net.Memory.Ledger.{
  Allocation, Ledger, init, capacity, class_count, owner_count, empty_entry, conflicts,
}

-- The impacts are 64-bit words.
pub record Words (e : Allocation) : Type 0 where
  pub physical : e.physical_impact_bytes ≤ u64_max
  pub commit : e.commit_impact_bytes ≤ u64_max
  pub virtual_bytes : e.virtual_reservation_impact_bytes ≤ u64_max

pub record WellFormed (e : Allocation) : Type 0 where
  pub sized : 0 < e.bytes
  pub dated : 0 < e.generation
  pub classed : e.allocation_class < class_count
  pub owned : e.owner < owner_count
  pub placed : (e.base ≡ 0) ⊎ Fits e.base e.bytes

abbrev pub IfLive : (Allocation → Type 0) → Allocation → Type 0
IfLive P e = (e.live ≡ false) ⊎ P e

-- Two entries share no address: one is free, has no base, or the ranges are apart.
abbrev pub Separate : Allocation → Allocation → Type 0
Separate x y =
    (x.live ≡ false)
    ⊎ (y.live ≡ false)
    ⊎ (x.base ≡ 0)
    ⊎ (y.base ≡ 0)
    ⊎ Apart x.base x.bytes y.base y.bytes

-- The share of an entry in a total.
abbrev pub share : (Allocation → ℕ) → Allocation → ℕ
share f e = if e.live then f e else 0

abbrev pub one : Allocation → ℕ
one e = bit e.live

pub record IsValid (l : Ledger) : Type 0 where
  pub size : length l.entries ≡ capacity
  pub dated : 0 < l.generation
  pub words : All Words l.entries
  pub formed : All (IfLive WellFormed) l.entries
  pub apart : Pairs Separate l.entries
  pub counted : l.live_count ≡ sum one l.entries
  pub physical : l.physical_bytes ≡ sum (share (λ e. e.physical_impact_bytes)) l.entries
  pub commit : l.commit_bytes ≡ sum (share (λ e. e.commit_impact_bytes)) l.entries
  pub virtual_bytes :
      l.virtual_reservation_bytes ≡ sum (share (λ e. e.virtual_reservation_impact_bytes)) l.entries
  pub physical_fits : l.physical_bytes ≤ u64_max
  pub commit_fits : l.commit_bytes ≤ u64_max
  pub virtual_fits : l.virtual_reservation_bytes ≤ u64_max

pub Separate-symm : (x y : Allocation) → Separate x y → Separate y x
Separate-symm x y s = ground arith

-- The code's overlap test between two entries.
pub conflicts-false : (x y : Allocation) → conflicts x y ≡ false → Separate x y
conflicts-false x y c = ground (arith, overlap-false x.base x.bytes y.base y.bytes)

pub Separate→conflicts :
    (x y : Allocation)
    → x.live ≡ true
    → WellFormed x
    → IfLive WellFormed y
    → Separate x y
    → conflicts x y ≡ false
Separate→conflicts x y lx wx wy s = ground (arith, overlap_of_Apart x.base x.bytes y.base y.bytes)

pub init-IsValid : (generation : ℕ) → 0 < generation → IsValid (init generation)
unfolding init
init-IsValid g h = record {
  size = length-replicate capacity empty_entry;
  dated = h;
  words = All-replicate Words capacity empty_entry (omega arith);
  formed = All-replicate (IfLive WellFormed) capacity empty_entry (inl refl);
  apart = Pairs-replicate Separate capacity empty_entry (inl refl);
  counted = omega (arith, sum-replicate one capacity empty_entry refl);
  physical =
      omega (arith, sum-replicate (share (λ e. e.physical_impact_bytes)) capacity empty_entry refl);
  commit =
      omega (arith, sum-replicate (share (λ e. e.commit_impact_bytes)) capacity empty_entry refl);
  virtual_bytes = omega (
    arith,
    sum-replicate (share (λ e. e.virtual_reservation_impact_bytes)) capacity empty_entry refl,
  );
  physical_fits = omega arith;
  commit_fits = omega arith;
  virtual_fits = omega arith;
}
