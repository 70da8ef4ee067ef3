-- ===== src/Memory/Map/Sound.antt =====
-- The descriptors that `gxos_uefi_memory_map_classify` accepts, and the sums that its totals stand for.
use guide_xos_net.Prelude.{
  ℕ, zero, suc, ◌+◌, ◌*◌, ◌≤◌, ◌<◌, ◌≡◌, inl, inr, refl, false, some, List, [], ◌∷◌, arith, length,
  get_or, sum, All, All-map, Pairs, if◌then◌else◌, ◌==◌, Option-cases,
}
use guide_xos_net.Memory.Ranges.{
  u64_max, page_size, add_u64, add_u64-eq, add_u64-some, multiply_u64, multiply_u64-eq,
  multiply_u64-some, Fits, Apart,
}
use guide_xos_net.Memory.Packing.{packing, Disjoint}
use guide_xos_net.Memory.Map.{
  Descriptor, MemoryMap, MemoryClass, class_index, memory_class_count, class_for_efi_type,
  is_ram_like, is_conventional, Classification, descriptor, extent, clashes, clashes_prior,
}

abbrev pub bytes_of : Descriptor → ℕ
bytes_of d = d.number_of_pages * page_size

abbrev pub class_of : Descriptor → MemoryClass
class_of d = class_for_efi_type d.memory_type

-- A descriptor of a range with a 64-bit end.
abbrev pub IsRange : Descriptor → Type 0
IsRange d = Fits d.physical_start (bytes_of d)

abbrev pub DescriptorsApart : Descriptor → Descriptor → Type 0
DescriptorsApart d e = Apart d.physical_start (bytes_of d) e.physical_start (bytes_of e)

-- `ds` are the first `n` descriptors of the map, the last one first: each a range, and apart.
abbrev pub Sound : MemoryMap → ℕ → List Descriptor → Type 0
Sound map zero [] = Unit
Sound map zero (d ∷ ds) = ⊥
Sound map (suc n) [] = ⊥
Sound map (suc n) (d ∷ ds) =
    (descriptor map n ≡ some d) × IsRange d × All (DescriptorsApart d) ds × Sound map n ds

-- What a descriptor adds to each total.
abbrev pub class_share : ℕ → Descriptor → ℕ
class_share k d = if class_index (class_of d) == k then bytes_of d else 0

abbrev pub page_share : ℕ → Descriptor → ℕ
page_share k d = if class_index (class_of d) == k then d.number_of_pages else 0

abbrev pub ram_share : Descriptor → ℕ
ram_share d = if is_ram_like (class_of d) then bytes_of d else 0

abbrev pub conventional_share : Descriptor → ℕ
conventional_share d = if is_conventional (class_of d) then bytes_of d else 0

-- The totals are the sums over the descriptors.
pub record Totals (ds : List Descriptor) (c : Classification) : Type 0 where
  pub bytes_slots : length c.class_bytes ≡ memory_class_count
  pub pages_slots : length c.class_pages ≡ memory_class_count
  pub by_bytes : (k : ℕ) → get_or c.class_bytes k 0 ≡ sum (class_share k) ds
  pub by_pages : (k : ℕ) → get_or c.class_pages k 0 ≡ sum (page_share k) ds
  pub ram : c.total_ram_like_bytes ≡ sum ram_share ds
  pub free : c.conventional_bytes ≡ sum conventional_share ds

pub extent-eq : (d : Descriptor) → IsRange d → extent d ≡ some (bytes_of d)
unfolding extent
extent-eq d r =
    let m = multiply_u64-eq d.number_of_pages page_size (omega (arith, r)) in
    let a = add_u64-eq d.physical_start (bytes_of d) r.1 in ground arith

pub extent-some :
    (d : Descriptor) {b : ℕ}
    → 0 < d.number_of_pages
    → extent d ≡ some b
    → (b ≡ bytes_of d) × IsRange d
unfolding extent
extent-some d {b} p h = elim (Option-cases (multiply_u64 d.number_of_pages page_size)) [
  | inl e ↦ absurd (ground arith)
  | inr (x, e) ↦
      let m = multiply_u64-some d.number_of_pages page_size e in
      let k : x ≡ bytes_of d = m.0 in
      elim (Option-cases (add_u64 d.physical_start x)) [
        | inl f ↦ absurd (ground arith)
        | inr (y, f) ↦
            let a = add_u64-some d.physical_start x f in
            (ground arith, (omega arith, omega (arith, a.0, a.1 (omega (arith, m)), m)))
      ]
]

clashes-Apart :
    (d e : Descriptor)
    → IsRange d
    → IsRange e
    → (clashes (some e) d.physical_start (d.physical_start + bytes_of d) ≡ false)
    → DescriptorsApart d e
unfolding clashes
clashes-Apart d e r q h = let x = extent-eq e q in ground arith

Apart-clashes :
    (d e : Descriptor)
    → IsRange d
    → IsRange e
    → DescriptorsApart d e
    → clashes (some e) d.physical_start (d.physical_start + bytes_of d) ≡ false
unfolding clashes
Apart-clashes d e r q h = let x = extent-eq e q in ground arith

Sound→ranges : (map : MemoryMap) (n : ℕ) (ds : List Descriptor) → Sound map n ds → All IsRange ds
Sound→ranges map zero [] s = tt
Sound→ranges map zero (d ∷ ds) s = absurd s
Sound→ranges map (suc n) [] s = absurd s
Sound→ranges map (suc n) (d ∷ ds) s = (s.1, Sound→ranges map n ds s.3)

-- The loop over the prior descriptors finds nothing exactly where the range is apart from them all.
pub clashes_prior-Apart :
    (map : MemoryMap) (d : Descriptor) (n : ℕ) (ds : List Descriptor)
    → IsRange d
    → Sound map n ds
    → clashes_prior map d.physical_start (d.physical_start + bytes_of d) n ≡ false
    → All (DescriptorsApart d) ds
unfolding clashes_prior
clashes_prior-Apart map d zero [] r s h = tt
clashes_prior-Apart map d zero (e ∷ ds) r s h = absurd s
clashes_prior-Apart map d (suc n) [] r s h = absurd s
clashes_prior-Apart map d (suc n) (e ∷ ds) r s h =
    let at = s.0 in
    let here : clashes (some e) d.physical_start (d.physical_start + bytes_of d) ≡ false =
      ground arith in
    (clashes-Apart d e r s.1 here, clashes_prior-Apart map d n ds r s.3 (ground arith))

pub Apart-clashes_prior :
    (map : MemoryMap) (d : Descriptor) (n : ℕ) (ds : List Descriptor)
    → IsRange d
    → Sound map n ds
    → All (DescriptorsApart d) ds
    → clashes_prior map d.physical_start (d.physical_start + bytes_of d) n ≡ false
unfolding clashes_prior
Apart-clashes_prior map d zero [] r s h = refl
Apart-clashes_prior map d zero (e ∷ ds) r s h = absurd s
Apart-clashes_prior map d (suc n) [] r s h = absurd s
Apart-clashes_prior map d (suc n) (e ∷ ds) r s h =
    let at = s.0 in
    let here = Apart-clashes d e r s.1 h.0 in
    let ih = Apart-clashes_prior map d n ds r s.3 h.1 in ground arith

-- The ranges are disjoint below 2 ^ 64, so that no total overflows.
pub bytes-le :
    (map : MemoryMap) (n : ℕ) (ds : List Descriptor) → Sound map n ds → sum bytes_of ds ≤ u64_max
bytes-le map n ds s = omega (
  arith,
  packing (λ d. d.physical_start) bytes_of ds 0 u64_max (pairs map n ds s)
      (All-map (λ d r. inr (omega arith, r.1)) ds (Sound→ranges map n ds s)),
)
  where
    pairs :
        (map : MemoryMap) (n : ℕ) (ds : List Descriptor)
        → Sound map n ds
        → Pairs (Disjoint (λ d. d.physical_start) bytes_of) ds
    pairs map zero [] s = tt
    pairs map zero (d ∷ ds) s = absurd s
    pairs map (suc n) [] s = absurd s
    pairs map (suc n) (d ∷ ds) s = (All-map (λ e a. inr (inr a)) ds s.2, pairs map n ds s.3)
