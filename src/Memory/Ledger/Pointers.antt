-- ===== src/Memory/Ledger/Pointers.antt =====
-- The null-pointer guards of the physical ledger's functions. A pointer is an option, and a pointer
-- that is only written through is the truth of its not being null.
use guide_xos_net.Prelude.{ℕ, Bool, true, false, Option, none, some, if◌then◌else◌, ◌==◌}
use guide_xos_net.Memory.Ledger.{
  Allocation, Ledger, Status, zero_length, invalid_argument, insert, remove, find, validate, init,
}

pub init_at : Option Ledger → ℕ → Option Ledger
init_at none g = none
init_at (some l) g = some (init g)

-- A null allocation is invalid; a null ledger or `slot_out` is reported as the length asks.
refused : Option Allocation → Status
refused none = invalid_argument
refused (some a) = if a.bytes == 0 then zero_length else invalid_argument

pub insert_at : Option Ledger → Option Allocation → Bool → Status × Option ℕ × Option Ledger
unfolding refused
insert_at (some l) (some a) true = let (s, slot, l') = insert l a in (s, slot, some l')
insert_at l a out = (refused a, none, l)

pub remove_at : Option Ledger → ℕ → Status × Option Ledger
remove_at none slot = (invalid_argument, none)
remove_at (some l) slot = let (s, l') = remove l slot in (s, some l')

pub find_at : Option Ledger → ℕ → ℕ → Bool → Option ℕ
find_at (some l) base bytes true = find l base bytes
find_at l base bytes out = none

pub validate_at : Option Ledger → Bool
validate_at none = false
validate_at (some l) = validate l
