-- ===== src/Tests/Drop.antt =====
-- `zboot drop` on small systems, after the unit tests of cli/src/cmd/drop.rs.

use zboot.Base.{
  ◌≤◌, ◌<◌, ◌≡◌, ◌≢◌, ◌↔◌, refl, true, false, not, Option, none, some, List, [], ◌∷◌, map, Str,
  ◌==◌, str_eq, str_beq, str_beq_iff, Result, ok, err, arith, find, filter, any, any-false, length,
  All, if◌then◌else◌,
}
use zboot.Text.{codes, contains_char, first_part, last_part, is_whitespace}
use zboot.Core.Types.Keys.{IsKey}
use zboot.Core.Types.{ParseError, SnapshotRef, BoundKey, BoundList, parse_bound_list, render_key}
use zboot.Cli.Io.{Io, Error}
use zboot.Cli.Sub.{Runner, RunOutput}
use zboot.Cli.Drop.{
  Zfs, DatasetRow, PoolRow, Input, promoted_line, destroyed_line, orphaned_line, pick_target,
  locate_target_be, is_active, promote_dependent_clones, purge_be_from_bound_lists, dataset_leaf,
  dataset_pool, is_clone_of,
}
use zboot.Core.Types.Property.{Property}
use zboot.Cli.Drop.Promote
use zboot.Cli.Drop.Promote.{IsPromoting, Promotes}
use zboot.Cli.Drop.Purge
use zboot.Cli.Drop.Purge.{IsBinding}
use zboot.Cli.Drop.Run.{World, checked_target}
use zboot.Cli.Drop.Run.Guards

-- A system in memory.
record Fake : Type 0 where
  datasets : List DatasetRow
  pools : List PoolRow

abbrev be_row : Str → Option SnapshotRef → DatasetRow
be_row n o = record { name = n; is_be = true; origin = o; bound_to = none }

abbrev bound_row : Str → BoundList → DatasetRow
bound_row n l = record { name = n; is_be = false; origin = none; bound_to = some l }

abbrev with_name : Str → (DatasetRow → DatasetRow) → List DatasetRow → List DatasetRow
with_name n f [] = []
with_name n f (r ∷ rows) =
    let rest = with_name n f rows in if r.name == n then f r ∷ rest else r ∷ rest

abbrev bind_to : Str → Result ParseError BoundList → Io Fake (Unit {0})
bind_to n (ok l) s =
    (ok tt, record s { datasets = with_name n (λ r. record r { bound_to = some l }) s.datasets })
bind_to n (err e) s = (err (Error.parse e), s)

abbrev fake_zfs : Zfs Fake
fake_zfs = record {
  list_datasets = λ s. (ok s.datasets, s);
  list_pools = λ s. (ok s.pools, s);
  promote = λ n s.
      (ok tt, record s { datasets = with_name n (λ r. record r { origin = none }) s.datasets });
  destroy = λ n s. (ok tt, record s { datasets = filter (λ r. not (r.name == n)) s.datasets });
  set_bound_to = λ n v. bind_to n (parse_bound_list v);
  unset_bound_to = λ n s.
      (ok tt, record s { datasets = with_name n (λ r. record r { bound_to = none }) s.datasets });
}

-- No command can be started.
abbrev no_runner : Runner Fake
no_runner = record { run = λ _ _ s. (err Error.spawn, s) }

abbrev no_mounts : Fake → Option Str
no_mounts s = none

abbrev be1 : Str
be1 = codes "rpool/ROOT/BE1"

abbrev be2 : Str
be2 = codes "rpool/ROOT/BE2"

abbrev be3 : Str
be3 = codes "rpool/ROOT/BE3"

abbrev from_snap : Str → Option SnapshotRef
from_snap ds = some (record { dataset = ds; name = codes "s" })

abbrev key2 : BoundKey
key2 = record { pool = codes "rpool"; be = codes "BE2" }

abbrev chain : Fake
chain = record {
  datasets =
      be_row be1 none
      ∷ be_row be2 (from_snap be1)
      ∷ be_row be3 (from_snap be2)
      ∷ bound_row (codes "rpool/home") (key2 ∷ [])
      ∷ [];
  pools = record { name = codes "rpool"; bootfs = some be1 } ∷ [];
}

abbrev start : World Fake
start = record { sys = chain; out = [] }

-- The chain BE1, BE2, BE3 without BE2: BE3 is promoted first, and `rpool/home` is orphaned.
abbrev dropped : World Fake
dropped = record {
  sys = record {
    datasets =
        be_row be1 none
        ∷ be_row be3 none
        ∷ record { name = codes "rpool/home"; is_be = false; origin = none; bound_to = none }
        ∷ [];
    pools = record { name = codes "rpool"; bootfs = some be1 } ∷ [];
  };
  out = promoted_line be3 ∷ destroyed_line be2 ∷ orphaned_line (codes "rpool/home") ∷ [];
}

abbrev typed : Input
typed = Input.line (codes "rpool/ROOT/BE2\n")

-- The names of the datasets that there are.
abbrev existing : Fake → List Str
existing s = map (λ (d : DatasetRow). d.name) s.datasets

-- BE1 boots next.
refuses_active :
    (checked_target fake_zfs no_runner no_mounts (codes "BE1") typed start).0
    ≡ err (Error.active be1)
unfolding checked_target locate_target_be pick_target dataset_leaf dataset_pool is_active first_part
    last_part contains_char str_beq filter find any
refuses_active = refl

pick_be3 :
    pick_target (codes "BE3") chain.datasets ≡ ok (record { pool = codes "rpool"; dataset = be3 })
unfolding pick_target dataset_leaf dataset_pool first_part last_part contains_char str_beq filter
    find
pick_be3 = refl

bare_be3 : contains_char b'/' (codes "BE3") ≡ false
unfolding contains_char
bare_be3 = refl

pick_path : pick_target be3 chain.datasets ≡ ok (record { pool = codes "rpool"; dataset = be3 })
unfolding pick_target dataset_leaf dataset_pool first_part last_part contains_char str_beq filter
    find
pick_path = refl

path_be3 : contains_char b'/' be3 ≡ true
unfolding contains_char
path_be3 = refl

promote_dependent_clones_lem_example :
    (promote_dependent_clones fake_zfs be1 chain ≡ (ok [], chain))
    ↔ (Promotes fake_zfs be1 chain [] chain × (length {A = Str} [] < 256))
promote_dependent_clones_lem_example =
    Promote.promote_dependent_clones_lem fake_zfs be1 chain [] chain

-- A system whose state is the names of the clones of one dataset; a promoted clone leaves it.
abbrev without : Str → List Str → List Str
without n [] = []
without n (m ∷ ms) = let rest = without n ms in if m == n then rest else m ∷ rest

without-le : (n : Str) (ms : List Str) → length (without n ms) ≤ length ms
without-le n [] = omega arith
without-le n (m ∷ ms) = ground (arith, without-le n ms)

abbrev clone_rows : List Str → List DatasetRow
clone_rows = map (λ n. be_row n (from_snap be1))

abbrev clones_zfs : Zfs (List Str)
clones_zfs = record {
  list_datasets = λ s. (ok (clone_rows s), s);
  list_pools = λ s. (ok [], s);
  promote = λ n s. (ok tt, without n s);
  destroy = λ n s. (ok tt, s);
  set_bound_to = λ n v s. (ok tt, s);
  unset_bound_to = λ n s. (ok tt, s);
}

promotes_first :
    (s : List Str) (r : DatasetRow)
    → find (is_clone_of be1) (clone_rows s) ≡ some r
    → length (without r.name s) < length s
unfolding find
promotes_first [] r h = absurd (ground arith)
promotes_first (n ∷ s) r h = ground (
  arith,
  without-le n s,
  str_beq_iff be1 be1,
  str_beq_iff n n,
  str_beq_iff n r.name,
  without-le r.name s,
)

clones-IsPromoting : IsPromoting clones_zfs be1
clones-IsPromoting = record {
  clones = length;
  rows = clone_rows;
  listed = λ s. refl;
  promotes = λ s r h. (without r.name s, refl, promotes_first s r h);
}

promote_dependent_clones_total_example :
    (names : List Str) × (end : List Str) × (promote_dependent_clones clones_zfs be1
        (be2 ∷ be3 ∷ [])
      ≡ (ok names, end))
    × All (λ r. is_clone_of be1 r ≡ false) (clone_rows end)
unfolding clones-IsPromoting
promote_dependent_clones_total_example =
    Promote.promote_dependent_clones_total clones_zfs be1 clones-IsPromoting (be2 ∷ be3 ∷ [])
      (omega arith)

-- A system whose state is the lists of two datasets.
abbrev Lists : Type 0
Lists = Str → Option BoundList

abbrev home : Str
home = codes "rpool/home"

abbrev srv : Str
srv = codes "rpool/srv"

abbrev listing : Lists → List DatasetRow
listing s =
    record { name = home; is_be = false; origin = none; bound_to = s home }
    ∷ record { name = srv; is_be = false; origin = none; bound_to = s srv }
    ∷ []

abbrev update : Str → Option BoundList → Lists → Lists
update n o s j = if n == j then o else s j

abbrev write : Str → Result ParseError BoundList → Io Lists (Unit {0})
write n (ok l) s = (ok tt, update n (some l) s)
write n (err e) s = (err (Error.parse e), s)

abbrev lists_zfs : Zfs Lists
lists_zfs = record {
  list_datasets = λ s. (ok (listing s), s);
  list_pools = λ s. (ok [], s);
  promote = λ n s. (ok tt, s);
  destroy = λ n s. (ok tt, s);
  set_bound_to = λ n v. write n (parse_bound_list v);
  unset_bound_to = λ n s. (ok tt, update n none s);
}

lists-IsBinding : IsBinding lists_zfs
lists-IsBinding = record {
  bound = λ s. s;
  rows = listing;
  listed = λ s. refl;
  shown = λ s. (refl, (refl, tt));
  sets = λ s n v l e. (update n (some l) s, rw e, λ j. refl);
  unsets = λ s n. (update n none s, refl, λ j. refl);
}

abbrev key1 : BoundKey
key1 = record { pool = codes "rpool"; be = codes "BE1" }

abbrev two_lists : Lists
two_lists = update home (some (key2 ∷ [])) (update srv (some (key1 ∷ key2 ∷ [])) (λ _. none))

key1-IsKey : IsKey key1
unfolding render_key is_whitespace any
key1-IsKey = record {
  pool_there = cc;
  be_there = cc;
  pool_plain = omega arith;
  no_space = any-false is_whitespace (render_key key1) refl;
  no_comma = omega arith;
}

key2-IsKey : IsKey key2
unfolding render_key is_whitespace any
key2-IsKey = record {
  pool_there = cc;
  be_there = cc;
  pool_plain = omega arith;
  no_space = any-false is_whitespace (render_key key2) refl;
  no_comma = omega arith;
}

home_bound : two_lists home ≡ some (key2 ∷ [])
unfolding str_beq
home_bound = refl

srv_bound : two_lists srv ≡ some (key1 ∷ key2 ∷ [])
unfolding str_beq
srv_bound = refl

two_lists-keys : All (λ (r : DatasetRow). Purge.KeysIn r.bound_to) (listing two_lists)
two_lists-keys = (rw home_bound (key2-IsKey, tt), (rw srv_bound (key1-IsKey, (key2-IsKey, tt)), tt))

srv-ne-home : srv ≢ home
srv-ne-home e = cc

purge_be_from_bound_lists_lem_example :
    (t : Lists) × (purge_be_from_bound_lists lists_zfs key2 two_lists
      ≡ (ok (Purge.orphans_of key2 (listing two_lists)), t))
    × All (λ (r : DatasetRow). t r.name ≡ Purge.purged key2 r.bound_to) (listing two_lists)
    × ((j : Str) → All (λ (r : DatasetRow). r.name ≢ j) (listing two_lists) → t j ≡ two_lists j)
unfolding lists-IsBinding
purge_be_from_bound_lists_lem_example =
    Purge.purge_be_from_bound_lists_lem lists_zfs lists-IsBinding key2 two_lists
      ((srv-ne-home, tt), (tt, tt)) two_lists-keys

apart : be2 ≢ be1
apart h = absurd (ground (arith, unequal, (str_beq_iff be2 be1).1 h))
  where
    unequal : str_beq be2 be1 ≡ false
    unequal = unfold str_beq in refl

abbrev read_props : List (Str × Property)
read_props =
    (be2, Property.zboot_be true)
    ∷ (be1, Property.zboot_be false)
    ∷ (be2, Property.origin (from_snap be1))
    ∷ []
