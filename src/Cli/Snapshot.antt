-- ===== src/Cli/Snapshot.antt =====
-- cli/src/cmd/snapshot.rs: `zboot snapshot` takes a snapshot of the boot environment that boots next.
-- The clock is a parameter.
pub mod Collect
use zboot.Base.{
  ℕ, Bool, true, false, ◌&&◌, Option, none, some, List, [], ◌∷◌, ◌++◌, map, Str, ◌==◌, str_eq, find,
  is_empty, Result, ok, err, unwrap_or, lookup, fold_rows, all_to, if◌then◌else◌,
}
use zboot.Text.{codes, first_part, last_part}
use zboot.Core.Types.{
  Pool, PoolRole, BootEnvironment, new_boot_environment, SnapshotRef, render_snapshot_ref,
  Mountpoint, Canmount,
}
use zboot.Core.Types.Property.{Property, zboot_be, origin, mountpoint, canmount, zboot_role}
use zboot.Core.Parse.{parse_zpool_list}
use zboot.Cli.Io.{Io, Error, no_active_be, ◌>>=◌, pure, lift}
use zboot.Cli.Sub
use zboot.Cli.Sub.{Runner}
use zboot.Cli.Drop.RealZfs.{parsed_props, dataset_names}
use zboot.Cli.Civil.{default_snap_name}

pub record Observed : Type 0 where
  pub pools : List Pool
  pub bes : List BootEnvironment

-- What the loop over the properties finds out about a dataset.
pub record BeAcc : Type 0 where
  pub is_be : Bool
  pub origin : Option SnapshotRef
  pub mountpoint : Option Mountpoint
  pub canmount : Option Canmount

abbrev pub default_acc : BeAcc
default_acc = record { is_be = false; origin = none; mountpoint = none; canmount = none }

unfoldable pub note_prop : Property → BeAcc → BeAcc
note_prop (zboot_be b) acc = record acc { is_be = b }
note_prop (origin o) acc = record acc { origin = o }
note_prop (mountpoint m) acc = record acc { mountpoint = some m }
note_prop (canmount c) acc = record acc { canmount = some c }
note_prop _ acc = acc

unfoldable pub note_props : List (Str × Property) → List (Str × BeAcc) → List (Str × BeAcc)
unfolding note_prop fold_rows
note_props props by_ds = fold_rows note_prop props by_ds

unfoldable pub make_be : Str → BeAcc → BootEnvironment
unfolding new_boot_environment first_part last_part
make_be ds acc = record (new_boot_environment (first_part b'/' ds) (last_part b'/' ds)) {
  dataset = ds;
  origin = acc.origin;
  mountpoint = acc.mountpoint;
  canmount = acc.canmount;
}

abbrev pub be_entry : Str → Option BeAcc → List BootEnvironment → List BootEnvironment
be_entry ds none bes = bes
be_entry ds (some acc) bes = if acc.is_be then make_be ds acc ∷ bes else bes

-- The last loop of `bes_from_props`.
unfoldable pub collect_bes : List Str → List (Str × BeAcc) → List BootEnvironment
unfolding make_be lookup
collect_bes [] by_ds = []
collect_bes (ds ∷ datasets) by_ds = be_entry ds (lookup ds by_ds) (collect_bes datasets by_ds)

unfoldable pub bes_from_props : List Str → List (Str × Property) → List BootEnvironment
unfolding note_props collect_bes all_to
bes_from_props datasets props =
    collect_bes datasets (note_props props (all_to default_acc datasets))

-- `iter_mut().find(..)` and the assignment to its role.
unfoldable pub set_role : Str → PoolRole → List Pool → List Pool
set_role name role [] = []
set_role name role (p ∷ pools) =
    let rest = set_role name role pools in
    if p.name == name then record p { role = some role } ∷ pools else p ∷ rest

unfoldable pub annotate_role : Str × Property → List Pool → List Pool
unfolding set_role
annotate_role (name, zboot_role role) pools = set_role name role pools
annotate_role (name, _) pools = pools

unfoldable pub annotate_pool_roles : List (Str × Property) → List Pool → List Pool
unfolding annotate_role
annotate_pool_roles [] pools = pools
annotate_pool_roles (row ∷ props) pools = annotate_pool_roles props (annotate_role row pools)

abbrev pub is_active_be : Str → Str → BootEnvironment → Bool
is_active_be pool bootfs be = be.pool == pool && be.dataset == bootfs

unfoldable pub find_active_in : List BootEnvironment → List Pool → Option BootEnvironment
unfolding find
find_active_in bes [] = none
find_active_in bes (pool ∷ pools) =
    let rest = find_active_in bes pools in
    elim pool.bootfs [
      | none ↦ rest
      | some bootfs ↦ elim (find (is_active_be pool.name bootfs) bes) [
        | some be ↦ some be
        | none ↦ rest
      ]
    ]

unfoldable pub find_active_be : Observed → Option BootEnvironment
unfolding find_active_in
find_active_be observed = find_active_in observed.bes observed.pools

unfoldable pub pick_from_observed : Observed → Str → Result Error SnapshotRef
unfolding find_active_be
pick_from_observed observed snap_name = elim (find_active_be observed) [
  | none ↦ err no_active_be
  | some active ↦ ok (record { dataset = active.dataset; name = snap_name })
]

abbrev pub parsed_pools : Str → Result Error (List Pool)
parsed_pools text = elim (parse_zpool_list text) [ ok ps ↦ ok ps | err e ↦ err (Error.parse e) ]

module _ {S : Type 0} (r : Runner S) where
  unfoldable pub annotated_pools : List Pool → Io S (List Pool)
  unfolding annotate_pool_roles
  annotated_pools pools = do
    role_text ← Sub.capture r (codes "zpool") (
        codes "get"
        ∷ codes "-Hp"
        ∷ codes "-o"
        ∷ codes "name,property,value"
        ∷ codes "zboot:role"
        ∷ map (λ p. p.name) pools)
    role_props ← lift (parsed_props role_text)
    pure (annotate_pool_roles role_props pools)

  unfoldable pub dataset_props : List Str → Io S (List (Str × Property))
  dataset_props datasets = do
    text ← Sub.capture r (codes "zfs") (
        codes "get"
        ∷ codes "-Hp"
        ∷ codes "-o"
        ∷ codes "name,property,value"
        ∷ codes "origin,mountpoint,canmount,zboot:be,zboot:attached-to"
        ∷ datasets)
    lift (parsed_props text)

  unfoldable pub collect_state : Io S Observed
  unfolding annotated_pools dataset_props bes_from_props
  collect_state = do
    pools_text ←
        Sub.capture r (codes "zpool")
          (codes "list" ∷ codes "-Hp" ∷ codes "-o" ∷ codes "name,bootfs,guid" ∷ [])
    listed ← lift (parsed_pools pools_text)
    pools ← (if is_empty listed then pure listed else annotated_pools listed)
    datasets_text ← Sub.capture r (codes "zfs") (
        codes "list"
        ∷ codes "-Hp"
        ∷ codes "-o"
        ∷ codes "name"
        ∷ codes "-t"
        ∷ codes "filesystem"
        ∷ [])
    let datasets = dataset_names datasets_text
    zfs_props ← (if is_empty datasets then pure [] else dataset_props datasets)
    pure (record { pools = pools; bes = bes_from_props datasets zfs_props })

  unfoldable pub pick_snapshot : Option Str → ℕ → Io S SnapshotRef
  unfolding collect_state
  pick_snapshot name unix_secs = do
    observed ← collect_state
    lift (pick_from_observed observed (unwrap_or name (default_snap_name unix_secs)))

  unfoldable pub run_snapshot : Option Str → ℕ → Io S (Unit {0})
  unfolding pick_snapshot
  run_snapshot name unix_secs = do
    snap ← pick_snapshot name unix_secs
    Sub.run r (codes "zfs") (codes "snapshot" ∷ render_snapshot_ref snap ∷ [])
