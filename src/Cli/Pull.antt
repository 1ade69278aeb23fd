-- ===== src/Cli/Pull.antt =====
-- cli/src/cmd/pull.rs: `zboot pull` receives from the peer of a boot environment, or makes a new one from
-- another pool's. Printed lines are left out. `Refused` has that nothing is lost without `--force`, `Done`
-- what a successful pull leaves.
pub mod Refused
pub mod Done
use zboot.Base.{
  ℕ, Bool, true, false, not, Option, none, some, List, [], ◌∷◌, ◌++◌, Str, is_some, ok_or, Result,
  ok, err, if◌then◌else◌,
}
use zboot.Text.{codes, contains_char, first_part}
use zboot.Core.Replication.{PairPointer, parse_dataset, render_pointer}
use zboot.Cli.Io.{
  Io, Error, not_found, not_paired, dangling, bad_name, bad_target, not_canonical, exists, ◌>>=◌,
  ◌>>◌, pure, raise, guard, done, attempt, lift,
}
use zboot.Cli.Sub.{Runner}
use zboot.Cli.BeArg.{
  split_be_snap, resolve_be_dataset, discover_booted_dataset, discover_booted_pool,
}
use zboot.Cli.ZfsOps.{
  dataset_exists, require_role_root, set_property_tolerant, set_readonly_tolerant,
  ensure_root_container, read_pair_pointer, write_pair_pointer, clear_pair_pointer,
}
use zboot.Cli.ZfsOps.Snapshots.{snapshot_exists, set_be_contract}
use zboot.Cli.ZfsOps.Wire.{
  Wire, at_snap, send_recv_full, send_recv_incremental, zfs_rollback_recursive,
}
use zboot.Cli.Replicate.{
  exists_or_false, refuse_mounted_rw, settle_divergence, settle_rewind, settle_bound, choose_anchor,
  clear_readonly, or_restore, prev_on_dest, prune_both,
}

pub record PullArgs : Type 0 where
  pub be : Option Str
  pub name : Option Str
  pub force : Bool

-- What `receive_into` works on. `existed` says that the local dataset is overwritten.
pub record Reception : Type 0 where
  pub remote_src : Str
  pub local_dataset : Str
  pub bounded_snap : Option Str
  pub force : Bool
  pub existed : Bool

module _ {S : Type 0} (r : Runner S) (w : Wire S) where
  -- The bound to which the local dataset goes back.
  unfoldable pub receive_checks : Reception → Io S (Option Str)
  unfolding settle_divergence settle_rewind
  receive_checks c = do
    if c.existed then settle_divergence r w c.remote_src c.local_dataset c.force else done
    settle_bound r w c.remote_src c.local_dataset c.force c.existed c.bounded_snap

  abbrev pub receive_from : Reception → Str → Bool → Option Str → Io S (Unit {0})
  receive_from c anchor was_readonly (some p) =
      or_restore r w was_readonly c.local_dataset (send_recv_incremental w p anchor c.local_dataset)
  receive_from c anchor was_readonly none =
      or_restore r w was_readonly c.local_dataset (send_recv_full w anchor c.local_dataset)

  unfoldable pub receive_transfer : Reception → Option Str → Str → Bool → Io S (Unit {0})
  unfolding send_recv_incremental send_recv_full
  receive_transfer c (some local_bound) anchor was_readonly =
      or_restore r w was_readonly c.local_dataset (zfs_rollback_recursive r local_bound)
  receive_transfer c none anchor was_readonly = do
    prev ← prev_on_dest r w c.remote_src c.local_dataset c.existed
    receive_from c anchor was_readonly prev

  unfoldable pub receive_work : ℕ → Reception → Option Str → Io S (Unit {0})
  unfolding choose_anchor clear_readonly receive_transfer prune_both
  receive_work utc_ns c rewind_only = do
    anchor ← choose_anchor r w c.remote_src c.bounded_snap utc_ns
    was_readonly ← (if c.existed then clear_readonly r w c.local_dataset else pure false)
    receive_transfer c rewind_only anchor was_readonly
    set_be_contract r c.local_dataset
    set_readonly_tolerant r c.local_dataset (codes "on")
    if is_some rewind_only then done else prune_both r w c.remote_src c.local_dataset anchor

  unfoldable pub receive_into : ℕ → Reception → Io S (Unit {0})
  unfolding receive_checks receive_work
  receive_into utc_ns c = do rewind_only ← receive_checks c; receive_work utc_ns c rewind_only

  abbrev pub require_snapshot : Str → Option Str → Io S (Unit {0})
  require_snapshot ds none = done
  require_snapshot ds (some snap) = do
    there ← snapshot_exists r (at_snap ds snap)
    guard there (not_found (at_snap ds snap))

  -- The pointers of a new pair; a copy that is bounded is none.
  unfoldable pub pair_initial : Str → Str → Option Str → Io S (Unit {0})
  pair_initial remote_src local_dataset (some snap) =
      attempt (clear_pair_pointer r local_dataset) >> done
  pair_initial remote_src local_dataset none = do
    local_peer ← lift (ok_or (parse_dataset remote_src) (not_canonical remote_src))
    remote_peer ← lift (ok_or (parse_dataset local_dataset) (not_canonical local_dataset))
    write_pair_pointer r local_dataset local_peer
    attempt (set_property_tolerant r local_dataset (codes "zboot:primary") (codes "off"))
    remote_pointer ← read_pair_pointer r remote_src
    if is_some remote_pointer then done else write_pair_pointer r remote_src remote_peer

  unfoldable pub pull_initial : Option Str → ℕ → Str → Option Str → Str → Bool → Io S (Unit {0})
  unfolding receive_into pair_initial contains_char
  pull_initial mounts utc_ns remote_src bounded_snap local_name force = do
    guard (contains_char b'/' remote_src) (bad_target remote_src)
    there ← dataset_exists r remote_src
    guard there (not_found remote_src)
    require_snapshot remote_src bounded_snap
    require_role_root r (first_part b'/' remote_src)
    local_pool ← lift (discover_booted_pool mounts)
    require_role_root r local_pool
    let local_dataset = local_pool ++ (codes "/ROOT/" ++ local_name)
    taken ← exists_or_false r w local_dataset
    guard (not taken) (exists local_dataset)
    ensure_root_container r local_pool
    receive_into utc_ns (record {
      remote_src = remote_src;
      local_dataset = local_dataset;
      bounded_snap = bounded_snap;
      force = force;
      existed = false;
    })
    pair_initial remote_src local_dataset bounded_snap

  -- What an incremental pull asks before it receives.
  unfoldable pub pull_checks : Option Str → Str → Option Str → Bool → Io S Reception
  unfolding refuse_mounted_rw
  pull_checks mounts local_arg bounded_snap force = do
    local_dataset ← lift (resolve_be_dataset mounts local_arg)
    there ← dataset_exists r local_dataset
    guard there (not_found local_dataset)
    refuse_mounted_rw r w local_dataset
    found ← read_pair_pointer r local_dataset
    peer ← lift (ok_or found (not_paired local_dataset))
    reachable ← dataset_exists r (render_pointer peer)
    guard reachable (dangling (render_pointer peer))
    require_snapshot (render_pointer peer) bounded_snap
    pure (record {
      remote_src = render_pointer peer;
      local_dataset = local_dataset;
      bounded_snap = bounded_snap;
      force = force;
      existed = true;
    })

  unfoldable pub pull_incremental : Option Str → ℕ → Str → Option Str → Bool → Io S (Unit {0})
  unfolding pull_checks receive_into
  pull_incremental mounts utc_ns local_arg bounded_snap force = do
    c ← pull_checks mounts local_arg bounded_snap force
    receive_into utc_ns c

  -- Without an argument the running boot environment is meant, which has a name.
  abbrev pub given_or_booted : Option Str → PullArgs → Result Error Str
  given_or_booted mounts args = elim args.be [
    | some be ↦ ok be
    | none ↦ if is_some args.name then err (bad_name []) else discover_booted_dataset mounts
  ]

  abbrev pub pull_by_name : Option Str → ℕ → Str × Option Str → Bool → Option Str → Io S (Unit {0})
  pull_by_name mounts utc_ns cut force (some new_name) =
      pull_initial mounts utc_ns cut.0 cut.1 new_name force
  pull_by_name mounts utc_ns cut force none = pull_incremental mounts utc_ns cut.0 cut.1 force

  unfoldable pub run_pull : Option Str → ℕ → PullArgs → Io S (Unit {0})
  unfolding pull_initial pull_incremental split_be_snap
  run_pull mounts utc_ns args = do
    be_arg_owned ← lift (given_or_booted mounts args)
    pull_by_name mounts utc_ns (split_be_snap be_arg_owned) args.force args.name
