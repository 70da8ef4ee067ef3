-- ===== src/Scheduler/Handles.antt =====
-- Handles: a magic number, the type of an object, its generation and its slot in one 64-bit number.
use guide_xos_net.Prelude.{
  ℕ, ◌+◌, ◌-◌, ◌*◌, ◌/◌, ◌%◌, ◌^◌, ◌<◌, ◌≡◌, not, ◌||◌, Option, none, some, arith, ltb, ◌==◌,
  if◌then◌else◌,
}

abbrev pub handle_magic : ℕ
handle_magic = 0xA7

abbrev pub max_objects : ℕ
max_objects = 16

abbrev pub type_thread : ℕ
type_thread = 1

abbrev pub type_event : ℕ
type_event = 2

abbrev pub type_notification : ℕ
type_notification = 3

abbrev pub type_stream : ℕ
type_stream = 4

-- The four parts have no bit in common, for an 8-bit type, a 16-bit generation and a slot of the
-- table, so that their bitwise sum is their sum.
unfoldable pub make_handle : ℕ → ℕ → ℕ → ℕ
make_handle object_type slot generation =
    handle_magic * 2 ^ 56 + object_type * 2 ^ 48 + generation * 2 ^ 16 + (slot + 1)

-- The slot and the generation.
unfoldable pub decode_handle : ℕ → ℕ → Option (ℕ × ℕ)
decode_handle handle expected_type =
    let magic = handle / 2 ^ 56 % 2 ^ 8 in
    let object_type = handle / 2 ^ 48 % 2 ^ 8 in
    let slot = handle % 2 ^ 16 in
    let generation = handle / 2 ^ 16 % 2 ^ 16 in
    if not (magic == handle_magic)
      || (not (object_type == expected_type)
          || (slot == 0 || (ltb max_objects slot || generation == 0)))
    then none
    else some (slot - 1, generation)

-- Decoding a handle gives back the slot and generation it was made of, if the type is the one
-- expected, and nothing if it is another one.
pub decode-make :
    (object_type expected slot generation : ℕ)
    → object_type < 2 ^ 8
    → slot < max_objects
    → 0 < generation
    → generation < 2 ^ 16
    → decode_handle (make_handle object_type slot generation) expected
      ≡ (if object_type == expected then some (slot, generation) else none)
unfolding decode_handle make_handle
decode-make object_type expected slot generation t s g h = ground arith
