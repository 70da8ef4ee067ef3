-- ===== src/Memory/Ranges.antt =====
-- The checked arithmetic at the head of src/Gate4Harness/memory_accounting.c, which every component
-- of the memory accounting shares. A 64-bit value is a number; `none` is a function that returns 0,
-- and the number under `some` is what it writes through its result pointer.
use native.Mathlib.Nat.{div-lt_iff_lt-mul, mul_comm}
use native.Mathlib.Decide.{dec_lt, dec_le}
use guide_xos_net.Prelude.{
  zero, suc, ℕ, ◌+◌, ◌-◌, ◌*◌, ◌/◌, ◌%◌, ◌^◌, ◌≤◌, ◌<◌, ◌≡◌, ◌≢◌, ◌⊎◌, Bool, true, false, ◌&&◌,
  ◌||◌, not, Option, none, some, arith, ltb, leb, ◌==◌, if◌then◌else◌,
}

abbrev pub u64_max : ℕ
u64_max = 2 ^ 64 - 1

abbrev pub page_size : ℕ
page_size = 0x1000

-- `(uint32_t)x` and `(uint64_t)x`
abbrev pub u32 : ℕ → ℕ
u32 x = x % 2 ^ 32

abbrev pub u64 : ℕ → ℕ
u64 x = x % 2 ^ 64

unfoldable pub add_u64 : ℕ → ℕ → Option ℕ
add_u64 left right = if ltb (u64_max - right) left then none else some (left + right)

unfoldable pub multiply_u64 : ℕ → ℕ → Option ℕ
multiply_u64 left right =
    if not (left == 0) && ltb (u64_max / left) right then none else some (left * right)

unfoldable pub range_end : ℕ → ℕ → Option ℕ
range_end base bytes =
    if bytes == 0 || ltb (u64_max - bytes) base then none else some (base + bytes)

unfoldable pub ranges_overlap : ℕ → ℕ → ℕ → ℕ → Bool
unfolding range_end
ranges_overlap left_base left_bytes right_base right_bytes = elim (range_end left_base left_bytes) [
  | none ↦ true
  | some left_end ↦ elim (range_end right_base right_bytes) [
    | none ↦ true
    | some right_end ↦ ltb left_base right_end && ltb right_base left_end
  ]
]

unfoldable pub range_contains : ℕ → ℕ → ℕ → ℕ → Bool
unfolding range_end
range_contains outer_base outer_bytes inner_base inner_bytes =
    elim (range_end outer_base outer_bytes) [
      | none ↦ false
      | some outer_end ↦ elim (range_end inner_base inner_bytes) [
        | none ↦ false
        | some inner_end ↦ leb outer_base inner_base && leb inner_end outer_end
      ]
    ]

unfoldable pub align_up_u64 : ℕ → ℕ → Option ℕ
unfolding add_u64
align_up_u64 value alignment =
    if alignment == 0
    then none
    else let remainder = value % alignment in
      add_u64 value (if remainder == 0 then 0 else alignment - remainder)

-- `x & ~(GXOS_VM_PAGE_SIZE - 1U)` clears the twelve low bits. 0 is the failure.
unfoldable pub page_round_bytes : ℕ → ℕ
page_round_bytes bytes =
    if bytes == 0 || ltb (u64_max - (page_size - 1)) bytes
    then 0
    else (bytes + page_size - 1) / page_size * page_size

-- A range that `range_end` accepts.
abbrev pub Fits : ℕ → ℕ → Type 0
Fits base bytes = (0 < bytes) × (base + bytes ≤ u64_max)

-- Two half-open ranges with no common address.
abbrev pub Apart : ℕ → ℕ → ℕ → ℕ → Type 0
Apart b n c m = (b + n ≤ c) ⊎ (c + m ≤ b)

abbrev pub Within : ℕ → ℕ → ℕ → ℕ → Type 0
Within b n c m = Fits b n × Fits c m × (b ≤ c) × (c + m ≤ b + n)

pub overlap-false :
    (b n c m : ℕ) → ranges_overlap b n c m ≡ false → Fits b n × Fits c m × Apart b n c m
unfolding ranges_overlap
overlap-false b n c m h = ground arith

pub overlap_of_Apart :
    (b n c m : ℕ) → Fits b n → Fits c m → Apart b n c m → ranges_overlap b n c m ≡ false
unfolding ranges_overlap
overlap_of_Apart b n c m f g h = ground arith

pub overlap_comm : (b n c m : ℕ) → ranges_overlap b n c m ≡ false → ranges_overlap c m b n ≡ false
unfolding ranges_overlap
overlap_comm b n c m h = ground arith

pub contains→Within : (b n c m : ℕ) → n ≤ u64_max → range_contains b n c m ≡ true → Within b n c m
unfolding range_contains
contains→Within b n c m k h = ground arith

pub Within→contains : (b n c m : ℕ) → Within b n c m → range_contains b n c m ≡ true
unfolding range_contains
Within→contains b n c m h = ground arith

pub range_end-some : (b n : ℕ) → Fits b n → range_end b n ≡ some (b + n)
unfolding range_end
range_end-some b n f = ground arith

pub range_end-none : (b n : ℕ) → range_end b n ≡ none → Fits b n → ⊥
unfolding range_end
range_end-none b n h f = ground arith

pub add_u64-some :
    (a b : ℕ) {c : ℕ} → add_u64 a b ≡ some c → (c ≡ a + b) × (b ≤ u64_max → c ≤ u64_max)
unfolding add_u64
add_u64-some a b h = (ground arith, λ k. ground arith)

pub add_u64-none : (a b : ℕ) → add_u64 a b ≡ none → u64_max < a + b
unfolding add_u64
add_u64-none a b h = ground arith

pub page_round_lem :
    (n : ℕ)
    → 0 < n
    → n + page_size ≤ u64_max + 1
    → (n ≤ page_round_bytes n)
      × (page_round_bytes n < n + page_size)
      × (page_round_bytes n % page_size ≡ 0)
unfolding page_round_bytes
page_round_lem n p q = ground arith

pub add_u64-eq : (a b : ℕ) → a + b ≤ u64_max → add_u64 a b ≡ some (a + b)
unfolding add_u64
add_u64-eq a b h = ground arith

-- `multiply_u64` succeeds exactly where the product fits.
pub multiply_u64-eq : (a b : ℕ) → a * b ≤ u64_max → multiply_u64 a b ≡ some (a * b)
unfolding multiply_u64
multiply_u64-eq zero b h = ground arith
multiply_u64-eq (suc a) b h =
    let fits = div-lt_iff_lt-mul {k = suc a} {x = u64_max} {y = b} (omega arith) in
    elim (dec_lt (u64_max / suc a) b) [
      | yes p ↦ absurd (omega (arith, fits.0 p, mul_comm (suc a) b))
      | no q ↦ ground arith
    ]

pub multiply_u64-some :
    (a b : ℕ) {c : ℕ} → multiply_u64 a b ≡ some c → (c ≡ a * b) × (a * b ≤ u64_max)
unfolding multiply_u64
multiply_u64-some zero b h = ground arith
multiply_u64-some (suc a) b h =
    let fits = div-lt_iff_lt-mul {k = suc a} {x = u64_max} {y = b} (omega arith) in
    elim (dec_lt (u64_max / suc a) b) [
      | yes p ↦ absurd (ground arith)
      | no q ↦ (
        ground arith,
        elim (dec_le (suc a * b) u64_max) [
          | yes r ↦ r
          | no r ↦ absurd (q (fits.1 (omega (arith, mul_comm (suc a) b))))
        ],
      )
    ]

pub page_round-covers : (n : ℕ) → page_round_bytes n ≢ 0 → (0 < n) × (n ≤ page_round_bytes n)
unfolding page_round_bytes
page_round-covers n h = ground arith

pub overlap-true :
    (b n c m : ℕ) → Fits b n → Fits c m → ranges_overlap b n c m ≡ true → (b < c + m) × (c < b + n)
unfolding ranges_overlap
overlap-true b n c m f g h = ground arith
