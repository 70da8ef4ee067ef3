-- ===== src/Memory/Map.antt =====
-- The firmware's memory map in src/Gate4Harness/memory_accounting.c: its parsing, the access to a
-- descriptor, and the classification of the memory it describes.
pub mod Reading
pub mod Sound
pub mod Counting
pub mod Classifying
pub mod Acquire
pub mod Acquiring
pub mod Balance
mod Tests
use guide_xos_net.Prelude.{
  ℕ, zero, suc, ◌+◌, ◌-◌, ◌*◌, ◌/◌, ◌%◌, Bool, true, false, ◌||◌, ◌&&◌, not, Option, none, some,
  List, ltb, leb, ◌==◌, if◌then◌else◌, get_or, set, replicate,
}
use guide_xos_net.Memory.Ranges.{page_size, add_u64, multiply_u64}

-- EFI_MEMORY_DESCRIPTOR, which takes 40 bytes.
pub record Descriptor : Type 0 where
  pub memory_type : ℕ
  pub pad : ℕ
  pub physical_start : ℕ
  pub virtual_start : ℕ
  pub number_of_pages : ℕ
  pub attribute : ℕ

abbrev pub descriptor_bytes : ℕ
descriptor_bytes = 40

abbrev pub map_max_bytes : ℕ
map_max_bytes = 128 * 1024

abbrev pub map_max_descriptors : ℕ
map_max_descriptors = 2048

abbrev pub growth_slack_descriptors : ℕ
growth_slack_descriptors = 8

-- The backing memory is what a descriptor read at each offset gives; none is the null pointer.
pub record MemoryMap : Type 0 where
  pub backing : Option (ℕ → Descriptor)
  pub backing_bytes : ℕ
  pub map_bytes : ℕ
  pub descriptor_size : ℕ
  pub descriptor_version : ℕ
  pub map_key : ℕ
  pub descriptor_count : ℕ
  pub generation : ℕ
  pub valid : Bool

-- `none` is the size that is not `ok`.
unfoldable pub map_growth_size : ℕ → ℕ → Option ℕ
map_growth_size map_bytes descriptor_size =
    if ltb descriptor_size descriptor_bytes || ltb map_max_bytes descriptor_size
    then none
    else elim (multiply_u64 descriptor_size growth_slack_descriptors) [
      | none ↦ none
      | some slack ↦ elim (add_u64 map_bytes slack) [
        | none ↦ none
        | some size ↦ if ltb map_max_bytes size then none else some size
      ]
    ]

-- The first argument says whether there is a map; the result is the number of descriptors.
unfoldable pub parse : Bool → ℕ → ℕ → Option ℕ
parse present map_bytes descriptor_size =
    if ltb descriptor_size descriptor_bytes
      || (ltb map_max_bytes descriptor_size || ltb map_max_bytes map_bytes)
    then none
    else if map_bytes == 0
    then some 0
    else if not present || not (map_bytes % descriptor_size == 0)
    then none
    else let count = map_bytes / descriptor_size in
      if count == 0 || ltb map_max_descriptors count then none else some count

unfoldable pub descriptor : MemoryMap → ℕ → Option Descriptor
descriptor map index =
    if not map.valid || leb map.descriptor_count index then none else elim map.backing [
      | none ↦ none
      | some read ↦ elim (multiply_u64 index map.descriptor_size) [
        | none ↦ none
        | some offset ↦
            if ltb map.map_bytes offset
              || (ltb (map.map_bytes - offset) descriptor_bytes
                  || (ltb map.backing_bytes offset
                      || ltb (map.backing_bytes - offset) descriptor_bytes))
            then none
            else some (read offset)
      ]
    ]

pub data MemoryClass : Type 0 where
  conventional loader_code loader_data boot_services_code boot_services_data : MemoryClass
  runtime_services_code runtime_services_data acpi_reclaim acpi_nvs : MemoryClass
  reserved unusable mmio mmio_port_space persistent pal_code unknown : MemoryClass

-- The number of a class, its place in the arrays of totals.
abbrev pub class_index : MemoryClass → ℕ
class_index conventional = 0
class_index loader_code = 1
class_index loader_data = 2
class_index boot_services_code = 3
class_index boot_services_data = 4
class_index runtime_services_code = 5
class_index runtime_services_data = 6
class_index acpi_reclaim = 7
class_index acpi_nvs = 8
class_index reserved = 9
class_index unusable = 10
class_index mmio = 11
class_index mmio_port_space = 12
class_index persistent = 13
class_index pal_code = 14
class_index unknown = 15

abbrev pub memory_class_count : ℕ
memory_class_count = 16

unfoldable pub class_for_efi_type : ℕ → MemoryClass
class_for_efi_type t =
    if t == 7
    then conventional
    else if t == 1
    then loader_code
    else if t == 2
    then loader_data
    else if t == 3
    then boot_services_code
    else if t == 4
    then boot_services_data
    else if t == 5
    then runtime_services_code
    else if t == 6
    then runtime_services_data
    else if t == 9
    then acpi_reclaim
    else if t == 10
    then acpi_nvs
    else if t == 0
    then reserved
    else if t == 8
    then unusable
    else if t == 11
    then mmio
    else if t == 12
    then mmio_port_space
    else if t == 14
    then persistent
    else if t == 13
    then pal_code
    else unknown

abbrev pub is_ram_like : MemoryClass → Bool
is_ram_like reserved = false
is_ram_like unusable = false
is_ram_like mmio = false
is_ram_like mmio_port_space = false
is_ram_like unknown = false
is_ram_like _ = true

abbrev pub is_conventional : MemoryClass → Bool
is_conventional conventional = true
is_conventional _ = false

pub data Status : Type 0 where
  ok invalid_argument malformed overflow : Status

pub record Classification : Type 0 where
  pub valid : Bool
  pub descriptor_count : ℕ
  pub class_bytes : List ℕ
  pub class_pages : List ℕ
  pub total_ram_like_bytes : ℕ
  pub conventional_bytes : ℕ

abbrev pub nothing_classified : Classification
nothing_classified = record {
  valid = false;
  descriptor_count = 0;
  class_bytes = replicate memory_class_count 0;
  class_pages = replicate memory_class_count 0;
  total_ram_like_bytes = 0;
  conventional_bytes = 0;
}

-- The bytes of a descriptor's range, if they and the range's end are 64-bit numbers.
unfoldable pub extent : Descriptor → Option ℕ
extent d = elim (multiply_u64 d.number_of_pages page_size) [
  | none ↦ none
  | some bytes ↦ elim (add_u64 d.physical_start bytes) [ none ↦ none | some end ↦ some bytes ]
]

-- The test of a prior descriptor against the range from `start` to `end`.
unfoldable pub clashes : Option Descriptor → ℕ → ℕ → Bool
clashes none start end = true
clashes (some previous) start end =
    if previous.number_of_pages == 0 then true else elim (extent previous) [
      | none ↦ true
      | some bytes ↦ ltb start (previous.physical_start + bytes) && ltb previous.physical_start end
    ]

-- The loop over the descriptors before `index`.
unfoldable pub clashes_prior : MemoryMap → ℕ → ℕ → ℕ → Bool
clashes_prior map start end zero = false
clashes_prior map start end (suc index) =
    clashes_prior map start end index || clashes (descriptor map index) start end

-- Each of the four totals, in turn; a total that would pass 64 bits stops the classification.
unfoldable pub count_ram : MemoryClass → ℕ → Classification → Status × Classification
count_ram k bytes c =
    if is_ram_like k
    then elim (add_u64 c.total_ram_like_bytes bytes) [
      | none ↦ (overflow, c)
      | some total ↦ (ok, record c { total_ram_like_bytes = total })
    ]
    else (ok, c)

unfoldable pub count_conventional : MemoryClass → ℕ → Classification → Status × Classification
count_conventional k bytes c =
    if is_conventional k
    then elim (add_u64 c.conventional_bytes bytes) [
      | none ↦ (overflow, c)
      | some total ↦ count_ram k bytes (record c { conventional_bytes = total })
    ]
    else count_ram k bytes c

unfoldable pub count_class : MemoryClass → ℕ → ℕ → Classification → Status × Classification
count_class k bytes pages c = elim (add_u64 (get_or c.class_bytes (class_index k) 0) bytes) [
  | none ↦ (overflow, c)
  | some b ↦
      let c' = record c { class_bytes = set c.class_bytes (class_index k) b } in
      elim (add_u64 (get_or c.class_pages (class_index k) 0) pages) [
        | none ↦ (overflow, c')
        | some p ↦
            count_conventional k bytes
              (record c' { class_pages = set c.class_pages (class_index k) p })
      ]
]

-- One round of the loop.
unfoldable pub classify_one : MemoryMap → ℕ → Classification → Status × Classification
classify_one map index c = elim (descriptor map index) [
  | none ↦ (malformed, c)
  | some d ↦ if d.number_of_pages == 0 then (malformed, c) else elim (extent d) [
    | none ↦ (overflow, c)
    | some bytes ↦
        if clashes_prior map d.physical_start (d.physical_start + bytes) index
        then (malformed, c)
        else count_class (class_for_efi_type d.memory_type) bytes d.number_of_pages c
  ]
]

-- After a status that is not OK the loop has returned.
abbrev pub then_classify :
    (Classification → Status × Classification) → Status × Classification → Status × Classification
then_classify f (ok, c) = f c
then_classify f (s, c) = (s, c)

-- The first rounds of the loop.
unfoldable pub classify_to : ℕ → MemoryMap → Status × Classification
classify_to zero map = (ok, nothing_classified)
classify_to (suc index) map = then_classify (classify_one map index) (classify_to index map)

-- The first argument is what stands in the classification before.
unfoldable pub classify : Classification → MemoryMap → Status × Classification
classify c map =
    if not map.valid
    then (invalid_argument, c)
    else then_classify
        (λ c. (ok, record c { descriptor_count = map.descriptor_count; valid = true }))
        (classify_to map.descriptor_count map)
