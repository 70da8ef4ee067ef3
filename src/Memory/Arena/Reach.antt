-- ===== src/Memory/Arena/Reach.antt =====
-- The arenas that the operations reach, in any order and with any arguments.
use guide_xos_net.Prelude.{ℕ, ◌≤◌, ◌<◌, ◌≡◌, true, Option, some}
use guide_xos_net.Memory.Ranges.{Fits}
use guide_xos_net.Memory.Arena.State.{Arena, Status, init}
use guide_xos_net.Memory.Arena.Reserve.{reserve, reserve_fixed, reserve_any, release}
use guide_xos_net.Memory.Arena.Commit.{commit, decommit_page, decommit}
use guide_xos_net.Memory.Arena.Valid.{IsValid, init-IsValid}
use guide_xos_net.Memory.Arena.Reserving.{reserve-IsValid}
use guide_xos_net.Memory.Arena.Fixed.{reserve_fixed-IsValid}
use guide_xos_net.Memory.Arena.AnyReserving.{reserve_any_ends, reserve_any-IsValid}
use guide_xos_net.Memory.Arena.Releasing.{release-IsValid}
use guide_xos_net.Memory.Arena.Committing.{commit-IsValid}
use guide_xos_net.Memory.Arena.Decommitting.{decommit-IsValid}
use guide_xos_net.Memory.Arena.Paging.{decommit_page-IsValid}
use guide_xos_net.Memory.Arena.Tables.{reserved-le-length}
use guide_xos_net.Memory.Arena.Charges.{committed-le-reserved}
use guide_xos_net.Memory.Arena.Validate.{validate}
use guide_xos_net.Memory.Arena.Deciding.{IsValid→validate}

-- One call with any arguments, of any operation but `commit_page`, whatever it returns. The search of
-- `reserve_any` runs on fuel, and the call is one that ends, which on a well-formed arena is every one.
pub data Step (a : Arena) : Arena → Type 0 where
  by_reserve : (base bytes kind generation : ℕ) → Step a (reserve a base bytes kind generation).2
  by_reserve_fixed :
      (base bytes kind owner generation : ℕ)
      → Step a (reserve_fixed a base bytes kind owner generation).2
  by_reserve_any :
      (bytes kind owner generation : ℕ) (t : Status × Option ℕ × Option ℕ × Arena)
      → reserve_any a bytes kind owner generation ≡ some t
      → Step a t.3
  by_release : (slot : ℕ) → Step a (release a slot).1
  by_commit : (base bytes generation : ℕ) → Step a (commit a base bytes generation).1
  by_decommit : (base bytes : ℕ) → Step a (decommit a base bytes).1
  by_decommit_page : (page : ℕ) → Step a (decommit_page a page).2

pub data Reach (a : Arena) : Arena → Type 0 where
  here : Reach a a
  next : {b c : Arena} → Reach a b → Step b c → Reach a c

Step-IsValid : {a b : Arena} → Step a b → IsValid a → IsValid b
Step-IsValid {a} (by_reserve base bytes kind generation) v =
    reserve-IsValid a base bytes kind generation v
Step-IsValid {a} (by_reserve_fixed base bytes kind owner generation) v =
    reserve_fixed-IsValid a base bytes kind owner generation v
Step-IsValid {a} (by_reserve_any bytes kind owner generation t e) v =
    reserve_any-IsValid a bytes kind owner generation t v e
Step-IsValid {a} (by_release slot) v = release-IsValid a slot v
Step-IsValid {a} (by_commit base bytes generation) v = commit-IsValid a base bytes generation v
Step-IsValid {a} (by_decommit base bytes) v = decommit-IsValid a base bytes v
Step-IsValid {a} (by_decommit_page page) v = decommit_page-IsValid a page v

Reach-IsValid : {a b : Arena} → Reach a b → IsValid a → IsValid b
Reach-IsValid here v = v
Reach-IsValid (next r s) v = Step-IsValid s (Reach-IsValid r v)

-- From a fresh arena, whose range and generation are sound, any sequence of calls with any arguments,
-- of any operation but `commit_page`, leads to an arena that `validate` accepts, and that has no more
-- committed than reserved and no more reserved than it is long; and from there every call of
-- `reserve_any` ends.
pub Reach-validate :
    (base bytes generation : ℕ) (a : Arena)
    → Fits base bytes
    → 0 < generation
    → Reach (init base bytes generation) a
    → (validate a ≡ true)
      × (a.total_committed_bytes ≤ a.total_reserved_bytes)
      × (a.total_reserved_bytes ≤ a.length)
      × ((bytes kind owner date : ℕ)
          → (t : Status × Option ℕ × Option ℕ × Arena) × (reserve_any a bytes kind owner date
              ≡ some t))
Reach-validate base bytes generation a f g r =
    let v = Reach-IsValid r (init-IsValid base bytes generation f g) in
    (
      IsValid→validate a v,
      committed-le-reserved a v,
      reserved-le-length a v,
      λ bytes kind owner date. reserve_any_ends a bytes kind owner date v,
    )
