-- ===== src/Tests/Atomic.antt =====
-- Atomic sets of a few snapshots.
use zboot.Base.{◌≡◌, Option, none, some, List, [], ◌∷◌, Str, str_eq, find, filter}
use zboot.Text.{codes}
use zboot.Core.Types.{Snapshot}
use zboot.Core.Types.Atomic.{from_snapshots}
use zboot.Core.Types.Atomic.Grouping

abbrev taken : Str → Option Str → Option Str → Snapshot
taken ds set by = record { dataset = ds; name = codes "s"; set = set; created_by = by }

abbrev four : List Snapshot
four =
    taken (codes "p/b") (some (codes "u2")) none
    ∷ taken (codes "p/x") none none
    ∷ taken (codes "p/a") (some (codes "u1")) none
    ∷ taken (codes "p/c") (some (codes "u2")) (some (codes "fork"))
    ∷ []

from_snapshots_lem_example :
    find (Grouping.is_uuid (codes "u2")) (from_snapshots four)
    ≡ Grouping.gathered (codes "u2") (filter (Grouping.in_set (codes "u2")) four)
from_snapshots_lem_example = Grouping.from_snapshots_lem (codes "u2") four
