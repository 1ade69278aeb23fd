-- ===== src/Cli/Fork.antt =====
-- cli/src/cmd/fork.rs: `zboot fork` clones a snapshot as a new boot environment, which shares what the
-- old one is attached to. The walk along origins is a loop: it takes fuel here, and `none` is a walk that
-- has not ended. Printed lines are left out.
pub mod Walk
pub mod Lineage
pub mod Plan
pub mod Chosen
pub mod Steps
pub mod Run
use zboot.Base.{
  ℕ, zero, suc, Bool, true, false, not, ◌&&◌, ◌||◌, Option, none, some, List, [], ◌∷◌, ◌++◌, map,
  Str, ◌==◌, nat_eq, str_eq, elem, sort_by, is_empty, length, unwrap_or, ok_or, Result, ok, err,
  if◌then◌else◌,
}
use zboot.Text.{codes, lines, split, trim, contains_char, first_part, last_part}
use zboot.Core.Types.{
  SnapshotRef, parse_snapshot_ref, render_snapshot_ref, BoundKey, key_eq, BoundList, append_key,
  render_bound_list,
}
use zboot.Core.Types.Property.{Property, origin, zboot_attached_to}
use zboot.Core.Types.Atomic.{str_leb}
use zboot.Cli.Io.{
  Io, Error, no_active_be, orphaned, bad_snapshot, bad_name, exists, not_converged, ◌>>=◌, ◌>>◌,
  pure, raise, done, lift, guard, attempt,
}
use zboot.Cli.Sub
use zboot.Cli.Sub.{Runner}
use zboot.Cli.ZfsOps.{clear_pair_pointer, second_or}
use zboot.Cli.Drop.RealZfs.{parsed_props, dataset_names}

-- The dataset of the first `origin` row of a dataset, if it has one.
abbrev pub origin_of : Property → Option (Option SnapshotRef)
origin_of (origin o) = some o
origin_of _ = none

unfoldable pub find_origin : List (Str × Property) → Str → Option (Option SnapshotRef)
find_origin [] ds = none
find_origin ((name, prop) ∷ props) ds =
    let rest = find_origin props ds in
    if name == ds then elim (origin_of prop) [ some o ↦ some o | none ↦ rest ] else rest

unfoldable pub parent_of : List (Str × Property) → Str → Option Str
unfolding find_origin
parent_of props ds = elim (find_origin props ds) [
  | none ↦ none
  | some o ↦ elim o [ none ↦ none | some snap ↦ some snap.dataset ]
]

-- The loop of `check_origin_lineage` on `current`, with the datasets that were visited.
unfoldable pub walk :
    ℕ → Str → List Str → List (Str × Property) → List Str → Str → Option (Result Error (Unit {0}))
unfolding elem parent_of
walk zero start datasets props visited current = none
walk (suc fuel) start datasets props visited current =
    if elem current visited then some (ok tt) else elim (parent_of props current) [
      | none ↦ some (ok tt)
      | some parent ↦
          if elem parent datasets
          then walk fuel start datasets props (current ∷ visited) parent
          else some (err (orphaned start parent))
    ]

unfoldable pub check_origin_lineage :
    Str → List Str → List (Str × Property) → Option (Result Error (Unit {0}))
unfolding walk elem
check_origin_lineage start datasets props =
    if elem start datasets
    then walk (suc (length datasets)) start datasets props [] start
    else some (err (orphaned start start))

pub record ForkPlan : Type 0 where
  pub source_snap : SnapshotRef
  pub target_dataset : Str
  pub source_key : BoundKey
  pub target_key : BoundKey
  pub bound_datasets_to_extend : List (Str × BoundList)

-- The list of a row that has the key.
abbrev pub list_with : BoundKey → Property → Option BoundList
list_with key (zboot_attached_to l) = if elem key l then some l else none
list_with key _ = none

unfoldable pub to_extend : BoundKey → List (Str × Property) → List (Str × BoundList)
unfolding elem
to_extend key [] = []
to_extend key ((ds, prop) ∷ props) =
    let rest = to_extend key props in
    elim (list_with key prop) [ none ↦ rest | some l ↦ (ds, l) ∷ rest ]

abbrev pub row_leb : Str × BoundList → Str × BoundList → Bool
row_leb x y = str_leb x.0 y.0

unfoldable pub sort_rows : List (Str × BoundList) → List (Str × BoundList)
unfolding sort_by str_leb
sort_rows rows = sort_by row_leb rows

abbrev pub key_in : Str → Str → BoundKey
key_in pool be = record { pool = pool; be = be }

unfoldable pub make_plan : SnapshotRef → Str → List (Str × Property) → ForkPlan
unfolding sort_rows to_extend first_part last_part
make_plan snap target_name props =
    let pool = first_part b'/' snap.dataset in
    let source_key = key_in pool (last_part b'/' snap.dataset) in
    record {
      source_snap = snap;
      target_dataset = pool ++ (codes "/ROOT/" ++ target_name);
      source_key = source_key;
      target_key = key_in pool target_name;
      bound_datasets_to_extend = sort_rows (to_extend source_key props);
    }

-- The first pool that boots something, in the lines of `zpool list`.
unfoldable pub active_in : List Str → Result Error Str
active_in [] = err no_active_be
active_in (l ∷ ls) =
    let rest = active_in ls in
    let bootfs = trim (second_or (codes "-") (split b'\t' l)) in
    if not (is_empty bootfs) && not (bootfs == codes "-") then ok bootfs else rest

unfoldable pub valid_name : Str → Bool
unfolding contains_char
valid_name name = not (is_empty name) && not (contains_char b'/' name || contains_char b'@' name)

module _ {S : Type 0} (r : Runner S) where
  unfoldable pub list_filesystems : Io S (List Str)
  list_filesystems = do
    text ← Sub.capture r (codes "zfs") (
        codes "list"
        ∷ codes "-Hp"
        ∷ codes "-o"
        ∷ codes "name"
        ∷ codes "-t"
        ∷ codes "filesystem"
        ∷ [])
    pure (dataset_names text)

  unfoldable pub zfs_get_props : List Str → Str → Io S Str
  zfs_get_props datasets props =
      if is_empty datasets
      then pure []
      else Sub.capture r (codes "zfs")
          (codes "get" ∷ codes "-Hp" ∷ codes "-o" ∷ codes "name,property,value" ∷ props ∷ datasets)

  unfoldable pub target_exists : Str → Io S Bool
  target_exists dataset = do
    out ←
        r.run (codes "zfs") (codes "list" ∷ codes "-Hp" ∷ codes "-o" ∷ codes "name" ∷ dataset ∷ [])
    pure (out.rc == 0)

  unfoldable pub active_be_dataset : Io S Str
  active_be_dataset = do
    text ←
        Sub.capture r (codes "zpool")
          (codes "list" ∷ codes "-Hp" ∷ codes "-o" ∷ codes "name,bootfs" ∷ [])
    lift (active_in (lines text))

  unfoldable pub resolve_bare : Str → Io S SnapshotRef
  unfolding active_be_dataset
  resolve_bare from = do active ← active_be_dataset; pure (record { dataset = active; name = from })

  unfoldable pub resolve_from : Str → Io S SnapshotRef
  unfolding resolve_bare contains_char
  resolve_from from =
      if contains_char b'@' from
      then lift (ok_or (parse_snapshot_ref from) (bad_snapshot from))
      else if is_empty from
      then raise (bad_snapshot from)
      else resolve_bare from

  unfoldable pub resolve_plan : SnapshotRef → Str → Io S ForkPlan
  unfolding check_origin_lineage make_plan
  resolve_plan snap target_name = do
    let target = first_part b'/' snap.dataset ++ (codes "/ROOT/" ++ target_name)
    taken ← target_exists target
    guard (not taken) (exists target)
    datasets ← list_filesystems
    props_text ← zfs_get_props datasets (codes "origin,zboot:be,zboot:attached-to")
    props ← lift (parsed_props props_text)
    lift (
        unwrap_or (check_origin_lineage snap.dataset datasets props)
          (err (not_converged snap.dataset)))
    pure (make_plan snap target_name props)

  unfoldable pub extend_lists : BoundKey → List (Str × BoundList) → Io S (Unit {0})
  extend_lists key [] = done
  extend_lists key ((ds, l) ∷ rows) = do
    Sub.run r (codes "zfs") (
        codes "set"
        ∷ (codes "zboot:attached-to=" ++ render_bound_list (append_key key l))
        ∷ ds
        ∷ [])
    extend_lists key rows

  abbrev pub clone_args : SnapshotRef → Str → List Str
  clone_args snap target =
      codes "clone"
      ∷ codes "-o"
      ∷ codes "canmount=noauto"
      ∷ codes "-o"
      ∷ codes "mountpoint=/"
      ∷ render_snapshot_ref snap
      ∷ target
      ∷ []

  unfoldable pub execute_plan : ForkPlan → Io S (Unit {0})
  unfolding extend_lists
  execute_plan plan = do
    Sub.run r (codes "zfs") (clone_args plan.source_snap plan.target_dataset)
    Sub.run r (codes "zfs") (codes "set" ∷ codes "zboot:be=true" ∷ plan.target_dataset ∷ [])
    attempt (clear_pair_pointer r plan.target_dataset)
    extend_lists plan.target_key plan.bound_datasets_to_extend

  unfoldable pub run_fork : Str → Str → Io S (Unit {0})
  unfolding resolve_from resolve_plan execute_plan
  run_fork from name = do
    snap ← resolve_from from
    guard (valid_name name) (bad_name name)
    plan ← resolve_plan snap name
    execute_plan plan
