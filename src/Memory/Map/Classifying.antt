-- ===== src/Memory/Map/Classifying.antt =====
-- `gxos_uefi_memory_map_classify`: what it accepts, and what its totals are.
use guide_xos_net.Prelude.{
  ℕ, zero, suc, ◌+◌, ◌<◌, ◌≡◌, ◌≢◌, ◌⊎◌, inl, inr, refl, sym, ap, subst, true, false, List, [], ◌∷◌,
  arith, length-replicate, get_or-replicate, sum, Option-cases,
}
use guide_xos_net.Memory.Map.{
  Descriptor, MemoryMap, memory_class_count, Status, ok, Classification, nothing_classified,
  descriptor, extent, clashes_prior, classify_one, then_classify, classify_to, classify,
}
use guide_xos_net.Memory.Map.Sound.{
  Sound, bytes-le, extent-eq, extent-some, clashes_prior-Apart, Apart-clashes_prior, Totals,
}
use guide_xos_net.Memory.Map.Counting.{count_class-Totals}

-- One more sound descriptor is counted.
classify_one-counts :
    (map : MemoryMap) (n : ℕ) (d : Descriptor) (ds : List Descriptor) (c : Classification)
    → Sound map (suc n) (d ∷ ds)
    → Totals ds c
    → (c' : Classification) × (classify_one map n c ≡ (ok, c')) × Totals (d ∷ ds) c'
classify_one-counts map n d ds c s t =
    let (c', e, t') = count_class-Totals d ds c t (bytes-le map (suc n) (d ∷ ds) s) in
    let x = extent-eq d s.1 in
    let y = Apart-clashes_prior map d n ds s.1 s.3 s.2 in
    let at = s.0 in let pos = s.1.0 in (c', unfold classify_one in ground arith, t')

-- A round that counts has found a sound descriptor.
classify_one-Sound :
    (map : MemoryMap) (n : ℕ) (ds : List Descriptor) (c : Classification)
    → Sound map n ds
    → (classify_one map n c).0 ≡ ok
    → (d : Descriptor) × Sound map (suc n) (d ∷ ds)
unfolding classify_one
classify_one-Sound map n ds c s h = elim (Option-cases (descriptor map n)) [
  | inl e ↦ absurd (ground arith)
  | inr (d, e) ↦ elim (Option-cases (extent d)) [
    | inl f ↦ absurd (ground arith)
    | inr (b, f) ↦
        let pos : 0 < d.number_of_pages = ground arith in
        let x = extent-some d pos f in
        let y : clashes_prior map d.physical_start (d.physical_start + b) n ≡ false =
          ground arith in
        let z =
          subst (λ b. clashes_prior map d.physical_start (d.physical_start + b) n ≡ false) x.0 y in
        (d, (e, x.1, clashes_prior-Apart map d n ds x.1 s z, s))
  ]
]

unique :
    (map : MemoryMap) (n : ℕ) (ds es : List Descriptor) → Sound map n ds → Sound map n es → ds ≡ es
unique map zero [] [] s t = refl
unique map zero [] (e ∷ es) s t = absurd t
unique map zero (d ∷ ds) es s t = absurd s
unique map (suc n) [] es s t = absurd s
unique map (suc n) (d ∷ ds) [] s t = absurd t
unique map (suc n) (d ∷ ds) (e ∷ es) s t =
    let q = unique map n ds es s.3 t.3 in
    let a = s.0 in let b = t.0 in let same : d ≡ e = ground arith in ground arith

-- How the first rounds end.
abbrev Ended : MemoryMap → ℕ → Type 0
Ended map n =
    ((ds : List Descriptor) × (c : Classification) × Sound map n ds
      × (classify_to n map ≡ (ok, c))
      × Totals ds c)
    ⊎ (((classify_to n map).0 ≢ ok) × ((ds : List Descriptor) → Sound map n ds → ⊥))

Status-ok : (s : Status) → (s ≡ ok) ⊎ (s ≢ ok)
Status-ok ok = inl refl
Status-ok _ = inr (λ e. cc)

stuck :
    (f : Classification → Status × Classification) (t : Status × Classification)
    → t.0 ≢ ok
    → (then_classify f t).0 ≢ ok
stuck f t h e = ground arith

classify_to-ends : (map : MemoryMap) (n : ℕ) → Ended map n
unfolding classify_to sum
classify_to-ends map zero = inl (
  [],
  nothing_classified,
  tt,
  refl,
  record {
    bytes_slots = length-replicate {A = ℕ} memory_class_count 0;
    pages_slots = length-replicate {A = ℕ} memory_class_count 0;
    by_bytes = λ k. get_or-replicate {A = ℕ} memory_class_count k 0;
    by_pages = λ k. get_or-replicate {A = ℕ} memory_class_count k 0;
    ram = refl;
    free = refl;
  },
)
classify_to-ends map (suc n) = elim (classify_to-ends map n) [
  | inr (b, none_sound) ↦
      inr (stuck _ (classify_to n map) b, λ ds s. absurd (shorter ds none_sound s))
  | inl (ds, c, s, e, t) ↦ elim (Status-ok (classify_one map n c).0) [
    | inl good ↦
        let (d, s') = classify_one-Sound map n ds c s good in
        let (c', e', t') = classify_one-counts map n d ds c s' t in
        inl (d ∷ ds, c', s', rw (e, e') refl, t')
    | inr bad ↦ inr (rw e bad, λ es s'. bad_round ds c s t bad es s')
  ]
]
  where
    shorter :
        (es : List Descriptor)
        → ((ds : List Descriptor) → Sound map n ds → ⊥)
        → Sound map (suc n) es
        → ⊥
    shorter [] h s = s
    shorter (e ∷ es) h s = h es s.3

    bad_round :
        (ds : List Descriptor) (c : Classification)
        → Sound map n ds
        → Totals ds c
        → (classify_one map n c).0 ≢ ok
        → (es : List Descriptor) → Sound map (suc n) es
        → ⊥
    bad_round ds c s t bad [] s' = s'
    bad_round ds c s t bad (e ∷ es) s' =
        let q = unique map n es ds s'.3 s in
        let (c', x, t') = classify_one-counts map n e es c s' (subst (λ l. Totals l c) (sym q) t) in
        bad (ap (λ r. r.0) x)

-- A valid map is classified exactly where each of its descriptors is a range of pages with a 64-bit
-- end and the ranges are apart; no total then overflows, and each of them, the bytes and the pages of
-- each class, the RAM and the conventional memory, is the sum over the descriptors. Otherwise the
-- status is not OK.
pub classify_cases :
    (map : MemoryMap) (c : Classification)
    → map.valid ≡ true
    → ((ds : List Descriptor) × Sound map map.descriptor_count ds
        × ((classify c map).0 ≡ ok)
        × ((classify c map).1.valid ≡ true)
        × ((classify c map).1.descriptor_count ≡ map.descriptor_count)
        × Totals ds (classify c map).1)
      ⊎ (((classify c map).0 ≢ ok)
          × ((ds : List Descriptor) → Sound map map.descriptor_count ds → ⊥))
unfolding classify
classify_cases map c v = elim (classify_to-ends map map.descriptor_count) [
  | inl (ds, t, s, e, k) ↦ inl (ds, s, ground arith, ground arith, ground arith, final ds t c v e k)
  | inr (b, none_sound) ↦ inr (ground arith, none_sound)
]
  where
    final :
        (ds : List Descriptor) (t c : Classification)
        → map.valid ≡ true
        → classify_to map.descriptor_count map ≡ (ok, t)
        → Totals ds t
        → Totals ds (classify c map).1
    final ds t c v e k =
        let q : classify c map
            ≡ (ok, record t { descriptor_count = map.descriptor_count; valid = true }) =
          unfold classify in ground arith in
        subst (λ x. Totals ds x.1) (sym q)
          (record {
            bytes_slots = k.bytes_slots;
            pages_slots = k.pages_slots;
            by_bytes = k.by_bytes;
            by_pages = k.by_pages;
            ram = k.ram;
            free = k.free;
          })
