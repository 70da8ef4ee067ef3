-- ===== src/Memory/CommitModel/Tests.antt =====
-- Runs of the commit model and of the percentage, and the theorems at those runs.
use guide_xos_net.Prelude.{◌^◌, ◌+◌, ◌*◌, ◌≤◌, ◌<◌, ◌≡◌, ◌⊎◌, false, arith}
use guide_xos_net.Memory.Ranges.{u64_max}
use guide_xos_net.Memory.CommitModel.{
  CommitModel, ok, overflow, overcommit, create_no_pagefile, Bounded, create_no_pagefile_cases,
  percentage_100, percentage_100_lem,
}

abbrev blank : CommitModel
blank = record {
  commit_limit = 0;
  committed_bytes = 0;
  available_commit = 0;
  generation = 0;
  valid = false;
  no_pagefile = false;
}

-- A machine of 4 GiB with 3 GiB available and 16 KiB committed.
create_no_pagefile_cases_example :
    ((u64_max < 0xC0000000 + 0x4000)
      × (create_no_pagefile blank 0x100000000 0xC0000000 0x4000 2 ≡ (overflow, blank)))
    ⊎ ((0xC0000000 + 0x4000 ≤ u64_max)
        × (0x100000000 < 0x4000)
        × (create_no_pagefile blank 0x100000000 0xC0000000 0x4000 2 ≡ (overcommit, blank)))
    ⊎ ((0xC0000000 + 0x4000 ≤ u64_max)
        × (0x4000 ≤ 0x100000000)
        × ((create_no_pagefile blank 0x100000000 0xC0000000 0x4000 2).0 ≡ ok)
        × Bounded 0x100000000 0xC0000000 0x4000
            (create_no_pagefile blank 0x100000000 0xC0000000 0x4000 2).1)
create_no_pagefile_cases_example =
    create_no_pagefile_cases blank 0x100000000 0xC0000000 0x4000 2 (omega arith) (omega arith)
      (omega arith) (omega arith)

-- 100 times the used part does not fit into 64 bits here.
percentage_100_lem_example :
    (percentage_100 (2 ^ 62) (2 ^ 63) ≤ 100)
    × (percentage_100 (2 ^ 62) (2 ^ 63) * (2 ^ 63) ≤ 100 * (2 ^ 62))
    × (100 * (2 ^ 62) < (percentage_100 (2 ^ 62) (2 ^ 63) + 1) * (2 ^ 63))
percentage_100_lem_example =
    percentage_100_lem (2 ^ 62) (2 ^ 63) (omega arith) (omega arith) (omega arith)
