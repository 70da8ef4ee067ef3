-- ===== src/Memory/Map/Acquire.antt =====
-- `gxos_uefi_memory_map_acquire`. The firmware is a parameter: three calls on a state of its own. A
-- pool buffer is its address, and 0 is the null pointer.
use guide_xos_net.Prelude.{
  ℕ, zero, suc, true, false, ◌||◌, ◌&&◌, not, Option, none, some, ltb, leb, ◌==◌, if◌then◌else◌,
}
use guide_xos_net.Memory.Map.{Descriptor, MemoryMap, descriptor_bytes, map_growth_size, parse}

abbrev pub efi_success : ℕ
efi_success = 0

abbrev pub efi_buffer_too_small : ℕ
efi_buffer_too_small = 0x8000000000000005

abbrev pub max_retries : ℕ
max_retries = 4

-- What GetMemoryMap returns, with what it writes through its pointers and into the buffer.
pub record Query (S : Type 0) : Type 0 where
  pub state : S
  pub status : ℕ
  pub bytes : ℕ
  pub key : ℕ
  pub size : ℕ
  pub version : ℕ
  pub contents : ℕ → Descriptor

pub record Firmware (S : Type 0) : Type 0 where
  pub get_memory_map : S → ℕ → ℕ → Query S
  pub allocate_pool : S → ℕ → S × ℕ × ℕ
  pub free_pool : S → ℕ → S × ℕ

-- GXOS_MEMORY_MAP_STATUS
pub data MapStatus : Type 0 where
  map_ok map_invalid_argument firmware_query allocation map_capacity : MapStatus
  map_malformed map_overflow retry_exhausted : MapStatus

abbrev pub empty_map : MemoryMap
empty_map = record {
  backing = none;
  backing_bytes = 0;
  map_bytes = 0;
  descriptor_size = 0;
  descriptor_version = 0;
  map_key = 0;
  descriptor_count = 0;
  generation = 0;
  valid = false;
}

-- How a round ends: with a result, or with what the next one starts from.
pub data Outcome (S : Type 0) : Type 0 where
  done : MapStatus × MemoryMap × S → Outcome S
  again : S → ℕ → ℕ → ℕ → Outcome S

module _ {S : Type 0} (f : Firmware S) where
  -- Each error path but two frees the buffer, and does not look at the status of that.
  abbrev pub give_up : MapStatus → S → ℕ → MapStatus × MemoryMap × S
  give_up status s buffer = (status, empty_map, (f.free_pool s buffer).0)

  abbrev pub filled : Query S → ℕ → ℕ → MemoryMap
  filled q required count = record {
    backing = some q.contents;
    backing_bytes = required;
    map_bytes = q.bytes;
    descriptor_size = q.size;
    descriptor_version = q.version;
    map_key = q.key;
    descriptor_count = count;
    generation = 1;
    valid = true;
  }

  abbrev pub or_default : ℕ → ℕ
  or_default size = if size == 0 then descriptor_bytes else size

  -- What follows the query into a new buffer, when it is not to be repeated.
  unfoldable pub accept : Query S → ℕ → ℕ → MapStatus × MemoryMap × S
  accept q buffer required =
      if not (q.status == efi_success)
      then give_up firmware_query q.state buffer
      else if ltb required q.bytes
      then give_up map_malformed q.state buffer
      else elim (parse true q.bytes q.size) [
        | none ↦ give_up map_malformed q.state buffer
        | some count ↦ (map_ok, filled q required count, q.state)
      ]

  -- Frees the buffer of the round before, if there is one; `none` is a status that is not success.
  abbrev pub drop_buffer : S → ℕ → Option S
  drop_buffer s buffer =
      if buffer == 0
      then some s
      else let (s', status) = f.free_pool s buffer in
        if status == efi_success then some s' else none

  -- One round, with the buffer of the one before and the sizes to ask for.
  unfoldable pub round : S → ℕ → ℕ → ℕ → Outcome S
  round s buffer map_bytes size = elim (map_growth_size map_bytes size) [
    | none ↦ done (map_overflow, empty_map, s)
    | some required ↦ elim (drop_buffer s buffer) [
      | none ↦ done (allocation, empty_map, (f.free_pool s buffer).0)
      | some s1 ↦
          let (s2, status, fresh) = f.allocate_pool s1 required in
          if not (status == efi_success) || fresh == 0
          then done (allocation, empty_map, s2)
          else let q = f.get_memory_map s2 required fresh in
            if not (q.status == efi_buffer_too_small)
            then done (accept q fresh required)
            else if leb q.bytes required
            then done (give_up retry_exhausted q.state fresh)
            else again q.state fresh q.bytes (or_default q.size)
    ]
  ]

  unfoldable pub acquire_rounds : ℕ → S → ℕ → ℕ → ℕ → MapStatus × MemoryMap × S
  acquire_rounds zero s buffer map_bytes size =
      if buffer == 0 then (retry_exhausted, empty_map, s) else give_up retry_exhausted s buffer
  acquire_rounds (suc n) s buffer map_bytes size = elim (round s buffer map_bytes size) [
    | done r ↦ r
    | again s' buffer' map_bytes' size' ↦ acquire_rounds n s' buffer' map_bytes' size'
  ]

  -- The first query, without a buffer, asks for the size.
  unfoldable pub acquire : S → MapStatus × MemoryMap × S
  acquire s =
      let q = f.get_memory_map s 0 0 in
      if not (q.status == efi_buffer_too_small) && not (q.status == efi_success)
      then (firmware_query, empty_map, q.state)
      else if q.bytes == 0
      then (if q.status == efi_success
          then (
            map_ok,
            record empty_map {
              descriptor_size = or_default q.size;
              descriptor_version = q.version;
              map_key = q.key;
              generation = 1;
              valid = true;
            },
            q.state,
          )
          else (map_malformed, empty_map, q.state))
      else acquire_rounds max_retries q.state 0 q.bytes (or_default q.size)
