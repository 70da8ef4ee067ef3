-- ===== src/Memory/Map/Counting.antt =====
-- Counting a descriptor adds its share to every total.
use guide_xos_net.Prelude.{
  ℕ, ◌+◌, ◌≤◌, ◌<◌, ◌≡◌, refl, subst, ◌∙◌, List, ◌∷◌, arith, length, length-set, get_or,
  get_or-set_self, get_or-set_ne, set, sum, sum-le, if◌then◌else◌, ◌==◌,
}
use native.Mathlib.Decide.{ℕ_discrete}
use guide_xos_net.Memory.Ranges.{u64_max, add_u64-eq}
use guide_xos_net.Memory.Map.{
  Descriptor, MemoryClass, class_index, memory_class_count, is_ram_like, is_conventional, ok,
  Classification, count_ram, count_conventional, count_class,
}
use guide_xos_net.Memory.Map.Sound.{
  bytes_of, class_of, class_share, page_share, ram_share, conventional_share, Totals,
}

class_index-lt : (k : MemoryClass) → class_index k < memory_class_count
class_index-lt k = ground arith

-- One array of totals with a share added at the class of the descriptor.
added :
    (xs : List ℕ) (k total share i : ℕ)
    → k < length xs
    → total ≡ get_or xs k 0 + share
    → get_or (set xs k total) i 0 ≡ (if k == i then share else 0) + get_or xs i 0
added xs k total share i l e = elim (ℕ_discrete k i) [
  | yes same ↦
      let q = get_or-set_self xs k total 0 l in
      let at =
        subst (λ j. get_or (set xs k total) j 0 ≡ share + get_or xs j 0) same (omega arith) in
      ground arith
  | no other ↦ let q = get_or-set_ne xs k i total 0 other in ground arith
]

le-class : (k : ℕ) (d : Descriptor) → class_share k d ≤ bytes_of d
le-class k d = ground arith

le-pages : (k : ℕ) (d : Descriptor) → page_share k d ≤ bytes_of d
le-pages k d = ground arith

le-ram : (d : Descriptor) → ram_share d ≤ bytes_of d
le-ram d = ground arith

le-conventional : (d : Descriptor) → conventional_share d ≤ bytes_of d
le-conventional d = ground arith

count_ram-ok :
    (k : MemoryClass) (bytes : ℕ) (c : Classification)
    → c.total_ram_like_bytes + bytes ≤ u64_max
    → count_ram k bytes c ≡ (
      ok,
      record c {
        total_ram_like_bytes = c.total_ram_like_bytes + (if is_ram_like k then bytes else 0);
      },
    )
unfolding count_ram
count_ram-ok k bytes c h = let a = add_u64-eq c.total_ram_like_bytes bytes h in ground arith

count_conventional-ok :
    (k : MemoryClass) (bytes : ℕ) (c : Classification)
    → c.total_ram_like_bytes + bytes ≤ u64_max
    → c.conventional_bytes + bytes ≤ u64_max
    → count_conventional k bytes c ≡ (
      ok,
      record c {
        total_ram_like_bytes = c.total_ram_like_bytes + (if is_ram_like k then bytes else 0);
        conventional_bytes = c.conventional_bytes + (if is_conventional k then bytes else 0);
      },
    )
unfolding count_conventional
count_conventional-ok k bytes c h g =
    let a = add_u64-eq c.conventional_bytes bytes g in
    let x = count_ram-ok k bytes c h in
    let y =
      count_ram-ok k bytes (record c { conventional_bytes = c.conventional_bytes + bytes }) h in
    ground arith

pub count_class-Totals :
    (d : Descriptor) (ds : List Descriptor) (c : Classification)
    → Totals ds c
    → sum bytes_of (d ∷ ds) ≤ u64_max
    → (c' : Classification) × (count_class (class_of d) (bytes_of d) d.number_of_pages c ≡ (ok, c'))
      × Totals (d ∷ ds) c'
unfolding count_class sum
count_class-Totals d ds c t h =
    let k = class_index (class_of d) in
    let l = class_index-lt (class_of d) in
    let sb = sum-le (class_share k) bytes_of (le-class k) ds in
    let sp = sum-le (page_share k) bytes_of (le-pages k) ds in
    let b = add_u64-eq (get_or c.class_bytes k 0) (bytes_of d) (omega (arith, t.by_bytes k)) in
    let p = add_u64-eq (get_or c.class_pages k 0) d.number_of_pages (omega (arith, t.by_pages k)) in
    let c2 = record c {
      class_bytes = set c.class_bytes k (get_or c.class_bytes k 0 + bytes_of d);
      class_pages = set c.class_pages k (get_or c.class_pages k 0 + d.number_of_pages);
    } in
    let r =
      count_conventional-ok (class_of d) (bytes_of d) c2
        (omega (arith, t.ram, sum-le ram_share bytes_of le-ram ds))
        (omega (arith, t.free, sum-le conventional_share bytes_of le-conventional ds)) in
    (
      record c2 {
        total_ram_like_bytes =
            c.total_ram_like_bytes + (if is_ram_like (class_of d) then bytes_of d else 0);
        conventional_bytes =
            c.conventional_bytes + (if is_conventional (class_of d) then bytes_of d else 0);
      },
      rw (b, p, count_class) r,
      record {
        bytes_slots = length-set c.class_bytes k _ ∙ t.bytes_slots;
        pages_slots = length-set c.class_pages k _ ∙ t.pages_slots;
        by_bytes = λ i. omega (
          arith,
          t.by_bytes i,
          added c.class_bytes k _ (bytes_of d) i (omega (arith, t.bytes_slots)) refl,
        );
        by_pages = λ i. omega (
          arith,
          t.by_pages i,
          added c.class_pages k _ d.number_of_pages i (omega (arith, t.pages_slots)) refl,
        );
        ram = omega (arith, t.ram);
        free = omega (arith, t.free);
      },
    )
