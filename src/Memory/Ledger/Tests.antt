-- ===== src/Memory/Ledger/Tests.antt =====
-- Runs of the physical ledger's operations, and the theorems at those runs.
use guide_xos_net.Prelude.{◌≡◌, ◌≢◌, ◌↔◌, refl, true, false, some, arith, any, find_slot, get_elem?}
use guide_xos_net.Memory.Ranges.{add_u64, multiply_u64, range_end}
use guide_xos_net.Memory.Ledger.{Allocation, Ledger, ok, init, insert, remove, find, validate}
use guide_xos_net.Memory.Ledger.Valid.{Words, IsValid, init-IsValid}
use guide_xos_net.Memory.Ledger.Validate.{validate_iff}
use guide_xos_net.Memory.Ledger.Insert.{Acceptable, stored, insert-ok_iff, insert-IsValid}
use guide_xos_net.Memory.Ledger.Remove.{Removed, remove_live, remove-IsValid}
use guide_xos_net.Memory.Ledger.RoundTrip.{init-IsClean, find-insert, remove-insert}

-- The image of the payload: four pages at 1 MiB.
abbrev image : Allocation
image = record {
  live = false;
  base = 0x100000;
  bytes = 0x4000;
  pages = 4;
  allocation_class = 0;
  owner = 0;
  physical_impact_bytes = 0x4000;
  commit_impact_bytes = 0x4000;
  virtual_reservation_impact_bytes = 0;
  generation = 1;
}

-- A page that overlaps its end.
abbrev clash : Allocation
clash = record image { base = 0x103000; bytes = 0x1000; pages = 1 }

image-Words : Words image
image-Words = record { physical = omega arith; commit = omega arith; virtual_bytes = omega arith }

clash-Words : Words clash
clash-Words = record { physical = omega arith; commit = omega arith; virtual_bytes = omega arith }

fresh-IsValid : IsValid (init 1)
fresh-IsValid = init-IsValid 1 (omega arith)

image_ok : (insert (init 1) image).0 ≡ ok
unfolding insert init find_slot any add_u64 range_end multiply_u64
image_ok = refl

image_slot : (insert (init 1) image).1 ≡ some 0
unfolding insert init find_slot any add_u64 range_end multiply_u64
image_slot = refl

abbrev loaded : Ledger
loaded = (insert (init 1) image).2

loaded-IsValid : IsValid loaded
loaded-IsValid = insert-IsValid (init 1) image fresh-IsValid image-Words

loaded_entry : get_elem? loaded.entries 0 ≡ some (stored image)
unfolding insert init find_slot any add_u64 range_end multiply_u64
loaded_entry = refl

loaded_next : (e : Allocation) → get_elem? loaded.entries 1 ≡ some e → e.live ≡ false
unfolding insert init find_slot any add_u64 range_end multiply_u64
loaded_next e h = ground arith

validate_iff_example : (validate loaded ≡ true) ↔ IsValid loaded
validate_iff_example = validate_iff loaded loaded-IsValid.size loaded-IsValid.words

insert-ok_iff_example : ((insert loaded clash).0 ≡ ok) ↔ Acceptable loaded clash
insert-ok_iff_example = insert-ok_iff loaded clash loaded-IsValid clash-Words

insert-IsValid_example : IsValid (insert loaded clash).2
insert-IsValid_example = insert-IsValid loaded clash loaded-IsValid clash-Words

remove_live_example :
    ((remove loaded 0).0 ≡ ok) × Removed loaded (remove loaded 0).1 0 (stored image)
remove_live_example = remove_live loaded 0 (stored image) loaded-IsValid loaded_entry refl

remove-IsValid_example : IsValid (remove loaded 0).1
remove-IsValid_example = remove-IsValid loaded 0 loaded-IsValid

image_based : image.base ≢ 0
image_based e = ground arith

find-insert_example : find (insert (init 1) image).2 0x100000 0x4000 ≡ (insert (init 1) image).1
find-insert_example = find-insert (init 1) image fresh-IsValid image-Words image_based image_ok

remove-insert_example : remove (insert (init 1) image).2 0 ≡ (ok, init 1)
remove-insert_example =
    remove-insert (init 1) image 0 fresh-IsValid (init-IsClean 1) image-Words image_ok image_slot
