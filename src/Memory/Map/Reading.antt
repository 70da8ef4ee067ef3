-- ===== src/Memory/Map/Reading.antt =====
-- Every descriptor of a parsed map can be read.
use guide_xos_net.Prelude.{
  ℕ, suc, ◌*◌, ◌/◌, ◌%◌, ◌≤◌, ◌≡◌, inl, inr, Bool, true, none, some, arith, ltb, ◌==◌,
  if◌then◌else◌, Bool-cases,
}
use native.Mathlib.Nat.{suc-mul, mul-le-mul_right, div-add-mod'}
use guide_xos_net.Memory.Ranges.{multiply_u64-eq}
use guide_xos_net.Memory.Map.{
  Descriptor, MemoryMap, descriptor_bytes, map_max_bytes, map_max_descriptors, parse, descriptor,
}

-- What `parse` has checked of the sizes.
pub record Parsed (map_bytes descriptor_size count : ℕ) : Type 0 where
  pub product : count * descriptor_size ≡ map_bytes
  pub wide : descriptor_bytes ≤ descriptor_size
  pub few : count ≤ map_max_descriptors
  pub small : map_bytes ≤ map_max_bytes

pub parse-Parsed :
    (present : Bool) (map_bytes descriptor_size : ℕ) {count : ℕ}
    → parse present map_bytes descriptor_size ≡ some count
    → Parsed map_bytes descriptor_size count
unfolding parse
parse-Parsed present map_bytes descriptor_size {count} h = record {
  product = product_of;
  wide = ground arith;
  few = ground arith;
  small = ground arith;
}
  where
    product_of : count * descriptor_size ≡ map_bytes
    product_of = elim (Bool-cases (map_bytes == 0)) [
      | inl z ↦ let n : count ≡ 0 = ground arith in rw n (ground arith)
      | inr p ↦
          let n : count ≡ map_bytes / descriptor_size = ground arith in
          let d : map_bytes % descriptor_size ≡ 0 = ground arith in
          rw n (omega (arith, div-add-mod' map_bytes descriptor_size))
    ]

-- In a valid map whose sizes `parse` accepts, with its bytes inside its backing, `descriptor` gives
-- for every index below the count what stands at that multiple of the descriptor size, and nothing
-- from the count on.
pub parse-descriptor :
    (map : MemoryMap) (read : ℕ → Descriptor) (index : ℕ)
    → map.valid ≡ true
    → map.backing ≡ some read
    → map.map_bytes ≤ map.backing_bytes
    → parse true map.map_bytes map.descriptor_size ≡ some map.descriptor_count
    → descriptor map index
      ≡ (if ltb index map.descriptor_count then some (read (index * map.descriptor_size)) else none)
parse-descriptor map read index v b k h = elim (Bool-cases (ltb index map.descriptor_count)) [
  | inr out ↦ unfold descriptor in ground arith
  | inl in_range ↦
      let p = parse-Parsed true map.map_bytes map.descriptor_size h in
      let low : suc index * map.descriptor_size ≤ map.descriptor_count * map.descriptor_size =
        mul-le-mul_right map.descriptor_size (ground arith) in
      let next = suc-mul index map.descriptor_size in
      let m = multiply_u64-eq index map.descriptor_size (omega (arith, p.product, p.small)) in
      unfold descriptor in ground (arith, p.product, p.wide)
]
