-- ===== src/Cli/Push.antt =====
-- cli/src/cmd/push.rs: `zboot push` sends a boot environment to its peer, or to another pool. Printed lines
-- are left out. `Refused` has that nothing is lost without `--force`, `Done` what a successful push
-- leaves.
pub mod Refused
pub mod Done
pub mod Paired
use zboot.Base.{
  ℕ, Bool, true, false, not, ◌&&◌, Option, none, some, List, [], ◌∷◌, ◌++◌, Str, ◌==◌, str_eq,
  is_some, ok_or, Result, ok, err, if◌then◌else◌,
}
use zboot.Text.{codes, contains_char, first_part, last_part}
use zboot.Core.Replication.{PairPointer, parse_dataset, render_pointer}
use zboot.Cli.Io.{
  Io, Error, not_found, not_paired, dangling, bad_target, not_canonical, ◌>>=◌, ◌>>◌, pure, raise,
  guard, done, attempt, lift,
}
use zboot.Cli.Sub.{Runner}
use zboot.Cli.BeArg.{split_be_snap, resolve_be_dataset, discover_booted_dataset}
use zboot.Cli.ZfsOps.{
  dataset_exists, dataset_property, is_mounted, dataset_is_clone, require_role_root,
  set_property_tolerant, set_readonly_tolerant, ensure_root_container, read_pair_pointer,
  write_pair_pointer, clear_pair_pointer, or_false,
}
use zboot.Cli.ZfsOps.Snapshots.{list_snapshots_with_guids, snapshot_exists, set_be_contract}
use zboot.Cli.ZfsOps.Wire.{
  Wire, at_snap, send_recv_full, send_recv_full_standalone, send_recv_incremental,
  zfs_rollback_recursive,
}
use zboot.Cli.Replicate.{
  exists_or_false, is_readonly, refuse_mounted_rw, settle_divergence, settle_rewind, settle_bound,
  choose_anchor, clear_readonly, or_restore, prev_on_dest, prune_both,
}

pub record PushArgs : Type 0 where
  pub be : Option Str
  pub to : Option Str
  pub force : Bool

pub data PairedMode : Type 0 where
  existing bootstrap_paired ad_hoc_unpaired : PairedMode

unfoldable pub parse_to_target : Str → Str → Result Error (Str × PairedMode)
unfolding contains_char parse_dataset last_part
parse_to_target src_dataset spec =
    if contains_char b'/' spec
    then (if is_some (parse_dataset spec)
        then ok (spec, ad_hoc_unpaired)
        else err (bad_target spec))
    else ok (spec ++ (codes "/ROOT/" ++ last_part b'/' src_dataset), bootstrap_paired)

abbrev pub parse_pair_from_ds : Str → Result Error PairPointer
parse_pair_from_ds ds = ok_or (parse_dataset ds) (not_canonical ds)

-- What `push_one` works on.
pub record Job : Type 0 where
  pub src : Str
  pub dest : Str
  pub mode : PairedMode
  pub bounded_snap : Option Str
  pub force : Bool

-- What its checks find: whether the destination is there, and the bound to which it goes back.
pub record Checked : Type 0 where
  pub dest_exists : Bool
  pub rewind_only : Option Str

module _ {S : Type 0} (r : Runner S) (w : Wire S) where
  abbrev pub check_dest : Job → Bool → Io S Checked
  check_dest j dest_exists = do
    if dest_exists then refuse_mounted_rw r w j.dest else done
    if dest_exists then settle_divergence r w j.src j.dest j.force else done
    rewind_only ← settle_bound r w j.src j.dest j.force dest_exists j.bounded_snap
    pure (record { dest_exists = dest_exists; rewind_only = rewind_only })

  unfoldable pub push_checks : Job → Io S Checked
  unfolding refuse_mounted_rw settle_divergence settle_rewind
  push_checks j = do dest_exists ← exists_or_false r w j.dest; check_dest j dest_exists

  -- A destination that is mounted read-only stays so.
  unfoldable pub lift_readonly : Str → Bool → Io S Bool
  unfolding clear_readonly
  lift_readonly dest dest_exists = do
    mounted ← (if dest_exists then is_mounted r dest else pure false)
    mounted_ro ← (if mounted then is_readonly r w dest else pure false)
    if dest_exists && not mounted_ro then clear_readonly r w dest else pure false

  -- A clone without a base is sent alone. The snapshots that are left behind are looked up for a warning.
  unfoldable pub send_from : Str → Str → Str → Bool → Option Str → Io S (Unit {0})
  send_from src dest anchor was_readonly (some p) =
      or_restore r w was_readonly dest (send_recv_incremental w p anchor dest)
  send_from src dest anchor was_readonly none = do
    clone ← attempt (dataset_is_clone r src)
    if or_false clone
        then (attempt (list_snapshots_with_guids r src)
            >> or_restore r w was_readonly dest (send_recv_full_standalone w anchor dest))
        else or_restore r w was_readonly dest (send_recv_full w anchor dest)

  unfoldable pub transfer : Job → Checked → Str → Bool → Io S (Unit {0})
  unfolding send_from
  transfer j c anchor was_readonly = elim c.rewind_only [
    | some dest_bound ↦ or_restore r w was_readonly j.dest (zfs_rollback_recursive r dest_bound)
    | none ↦ do
      prev ← prev_on_dest r w j.src j.dest c.dest_exists
      send_from j.src j.dest anchor was_readonly prev
  ]

  -- A mark that need not take effect.
  abbrev pub mark : Str → Str → Io S (Unit {0})
  mark ds value = attempt (set_property_tolerant r ds (codes "zboot:primary") value) >> done

  -- The pointers of a new pair: the destination's only if it has none.
  unfoldable pub bootstrap_pair : Str → Str → Io S (Unit {0})
  bootstrap_pair src dest = do
    src_pair ← lift (parse_pair_from_ds dest)
    dest_pair ← lift (parse_pair_from_ds src)
    write_pair_pointer r src src_pair
    mark src (codes "on")
    dest_pointer ← read_pair_pointer r dest
    if is_some dest_pointer
        then mark src (codes "on")
        else (write_pair_pointer r dest dest_pair >> mark dest (codes "off"))

  unfoldable pub write_pointers : Job → PairedMode → Io S (Unit {0})
  unfolding bootstrap_pair
  write_pointers j existing = done
  write_pointers j bootstrap_paired = bootstrap_pair j.src j.dest
  write_pointers j ad_hoc_unpaired = attempt (clear_pair_pointer r j.dest) >> done

  -- What follows a transfer that was no rewind.
  unfoldable pub finish_push : Job → Str → Io S (Unit {0})
  unfolding write_pointers prune_both
  finish_push j anchor = do write_pointers j j.mode; prune_both r w j.src j.dest anchor

  -- Up to the safety rail of the destination: what is there then, before pointers and pruning.
  unfoldable pub deliver : ℕ → Job → Checked → Io S Str
  unfolding lift_readonly transfer choose_anchor
  deliver utc_ns j c = do
    anchor ← choose_anchor r w j.src j.bounded_snap utc_ns
    if c.dest_exists then done else ensure_root_container r (first_part b'/' j.dest)
    was_readonly ← lift_readonly j.dest c.dest_exists
    transfer j c anchor was_readonly
    set_be_contract r j.dest
    set_readonly_tolerant r j.dest (codes "on")
    pure anchor

  unfoldable pub push_work : ℕ → Job → Checked → Io S (Unit {0})
  unfolding deliver finish_push
  push_work utc_ns j c = do
    anchor ← deliver utc_ns j c
    if is_some c.rewind_only then done else finish_push j anchor

  unfoldable pub push_one : ℕ → Job → Io S (Unit {0})
  unfolding push_checks push_work
  push_one utc_ns j = do c ← push_checks j; push_work utc_ns j c

  -- The peer of the pointer has to be there.
  unfoldable pub paired_target : Str → Io S (Str × PairedMode)
  paired_target src_dataset = do
    found ← read_pair_pointer r src_dataset
    peer ← lift (ok_or found (not_paired src_dataset))
    there ← dataset_exists r (render_pointer peer)
    guard there (dangling (render_pointer peer))
    pure (render_pointer peer, existing)

  unfoldable pub named_target : Str → Str → Io S (Str × PairedMode)
  unfolding parse_to_target
  named_target src_dataset spec = do
    target ← lift (parse_to_target src_dataset spec)
    require_role_root r (first_part b'/' target.0)
    pure target

  -- A bounded copy is never a pair.
  abbrev pub bounded_mode : Option Str → PairedMode → PairedMode
  bounded_mode (some snap) bootstrap_paired = ad_hoc_unpaired
  bounded_mode _ mode = mode

  abbrev pub require_snapshot : Str → Option Str → Io S (Unit {0})
  require_snapshot ds none = done
  require_snapshot ds (some snap) = do
    there ← snapshot_exists r (at_snap ds snap)
    guard there (not_found (at_snap ds snap))

  abbrev pub target_of : Str → Option Str → Io S (Str × PairedMode)
  target_of src_dataset none = paired_target src_dataset
  target_of src_dataset (some spec) = named_target src_dataset spec

  abbrev pub given_or_booted : Option Str → Option Str → Result Error Str
  given_or_booted mounts none = discover_booted_dataset mounts
  given_or_booted mounts (some be) = ok be

  -- What is pushed where. The mark of the primary is read for a warning.
  unfoldable pub push_job : Option Str → PushArgs → Io S Job
  unfolding paired_target named_target split_be_snap
  push_job mounts args = do
    be_arg_owned ← lift (given_or_booted mounts args.be)
    let cut = split_be_snap be_arg_owned
    src_dataset ← lift (resolve_be_dataset mounts cut.0)
    there ← dataset_exists r src_dataset
    guard there (not_found src_dataset)
    require_role_root r (first_part b'/' src_dataset)
    attempt (dataset_property r src_dataset (codes "zboot:primary"))
    require_snapshot src_dataset cut.1
    target ← target_of src_dataset args.to
    pure (record {
      src = src_dataset;
      dest = target.0;
      mode = bounded_mode cut.1 target.1;
      bounded_snap = cut.1;
      force = args.force;
    })

  unfoldable pub run_push : Option Str → ℕ → PushArgs → Io S (Unit {0})
  unfolding push_job push_one
  run_push mounts utc_ns args = do j ← push_job mounts args; push_one utc_ns j
