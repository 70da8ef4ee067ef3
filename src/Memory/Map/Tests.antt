-- ===== src/Memory/Map/Tests.antt =====
-- A firmware with one descriptor, and the theorems on it.
use guide_xos_net.Prelude.{
  ℕ, Bool, false, ◌&&◌, inl, inr, ◌≡◌, ◌≢◌, ◌⊎◌, refl, true, none, some, List, arith, ltb, ◌==◌,
  if◌then◌else◌,
}
use guide_xos_net.Memory.Ranges.{add_u64, multiply_u64}
use guide_xos_net.Memory.Map.{
  Descriptor, MemoryMap, parse, descriptor, map_growth_size, nothing_classified, ok, classify,
}
use guide_xos_net.Memory.Map.Reading.{parse-descriptor}
use guide_xos_net.Memory.Map.Sound.{Sound, Totals}
use guide_xos_net.Memory.Map.Classifying.{classify_cases}
use guide_xos_net.Memory.Map.Acquire.{
  efi_success, efi_buffer_too_small, Query, Firmware, map_ok, round, acquire_rounds, accept,
  acquire,
}
use guide_xos_net.Memory.Map.Acquiring.{Readable, acquire-Readable}
use guide_xos_net.Memory.Map.Balance.{Pool, Balanced, acquire-Balanced}

-- Sixteen pages of conventional memory at 1 MiB.
abbrev conventional_range : Descriptor
conventional_range = record {
  memory_type = 7;
  pad = 0;
  physical_start = 0x100000;
  virtual_start = 0;
  number_of_pages = 16;
  attribute = 15;
}

-- The state is whether the one buffer is allocated.
abbrev query : Bool → ℕ → ℕ → Query Bool
query held bytes buffer = record {
  state = held;
  status = if buffer == 0 then efi_buffer_too_small else efi_success;
  bytes = 48;
  key = 9;
  size = 48;
  version = 1;
  contents = λ offset. conventional_range;
}

abbrev firmware : Firmware Bool
firmware = record {
  get_memory_map = query;
  allocate_pool = λ held bytes. if held then (held, 9, 0) else (true, efi_success, 0x9000);
  free_pool = λ held buffer. if held && buffer == 0x9000 then (false, efi_success) else (held, 2);
}

abbrev out : Bool → ℕ → Bool
out held buffer = held && buffer == 0x9000

pool : Pool firmware out
pool = record {
  queried = λ s bytes buffer b. refl;
  allocated = λ s bytes good some_address. new s good;
  refused = λ s bytes bad b. full s bad b;
  freed = λ s buffer held. given_back s buffer held;
}
  where
    new :
        (s : Bool)
        → (firmware.allocate_pool s 0).1 ≡ efi_success
        → (out s (firmware.allocate_pool s 0).2 ≡ false)
          × (out (firmware.allocate_pool s 0).0 (firmware.allocate_pool s 0).2 ≡ true)
          × ((b : ℕ)
              → (firmware.allocate_pool s 0).2 ≢ b
              → out (firmware.allocate_pool s 0).0 b ≡ out s b)
    new true e = absurd (ground arith)
    new false e = (refl, refl, λ b m. ground arith)

    full :
        (s : Bool)
        → ((firmware.allocate_pool s 0).1 ≢ efi_success) ⊎ ((firmware.allocate_pool s 0).2 ≡ 0)
        → (b : ℕ) → out (firmware.allocate_pool s 0).0 b ≡ out s b
    full true e b = refl
    full false (inl e) b = absurd (e refl)
    full false (inr e) b = absurd (ground arith)

    given_back :
        (s : Bool) (buffer : ℕ)
        → out s buffer ≡ true
        → ((firmware.free_pool s buffer).1 ≡ efi_success)
          × (out (firmware.free_pool s buffer).0 buffer ≡ false)
          × ((b : ℕ) → buffer ≢ b → out (firmware.free_pool s buffer).0 b ≡ out s b)
    given_back true buffer e = rw e (refl, refl, λ b m. ground arith)
    given_back false buffer e = absurd (ground arith)

acquired : (acquire firmware false).0 ≡ map_ok
unfolding acquire acquire_rounds round accept parse map_growth_size multiply_u64 add_u64
acquired = refl

acquire-Readable_example : Readable (acquire firmware false).1
acquire-Readable_example = acquire-Readable firmware false acquired

acquire-Balanced_example : Balanced firmware out pool false (acquire firmware false)
acquire-Balanced_example = acquire-Balanced firmware out pool false

abbrev map : MemoryMap
map = record {
  backing = some (λ offset. conventional_range);
  backing_bytes = 432;
  map_bytes = 48;
  descriptor_size = 48;
  descriptor_version = 1;
  map_key = 9;
  descriptor_count = 1;
  generation = 1;
  valid = true;
}

map_parses : parse true 48 48 ≡ some 1
unfolding parse
map_parses = refl

parse-descriptor_example : descriptor map 0 ≡ (if ltb 0 1 then some conventional_range else none)
parse-descriptor_example =
    parse-descriptor map (λ offset. conventional_range) 0 refl refl (omega arith) map_parses

classify_cases_example :
    ((ds : List Descriptor) × Sound map 1 ds
      × ((classify nothing_classified map).0 ≡ ok)
      × ((classify nothing_classified map).1.valid ≡ true)
      × ((classify nothing_classified map).1.descriptor_count ≡ 1)
      × Totals ds (classify nothing_classified map).1)
    ⊎ (((classify nothing_classified map).0 ≢ ok) × ((ds : List Descriptor) → Sound map 1 ds → ⊥))
classify_cases_example = classify_cases map nothing_classified refl
