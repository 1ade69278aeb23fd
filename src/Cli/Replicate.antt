-- ===== src/Cli/Replicate.antt =====
-- The steps of a replication from one dataset to another, as `push_one` of cli/src/cmd/push.rs has them;
-- `receive_into` of cli/src/cmd/pull.rs and `push_one_pair` of cli/src/cmd/mirror.rs take the same steps in
-- their own order. Printed lines are left out. `Checks` has what the questions find out, `Contract` what a
-- destination is after it has received, `Pointers` that pairing it leaves that.
pub mod Checks
pub mod Contract
pub mod Pointers
use zboot.Base.{
  ℕ, Bool, true, false, not, ◌&&◌, Option, none, some, List, [], ◌∷◌, ◌++◌, Str, ◌==◌, str_eq,
  is_empty, is_some, Result, ok, err, if◌then◌else◌,
}
use zboot.Text.{codes}
use zboot.Cli.Io.{
  Io, Error, diverged, rewinds, mounted_rw, ◌>>=◌, ◌>>◌, pure, raise, guard, done, attempt,
}
use zboot.Cli.Sub.{Runner}
use zboot.Cli.ZfsOps.{dataset_exists, dataset_property, is_mounted, set_readonly_tolerant, or_false}
use zboot.Cli.ZfsOps.Snapshots.{
  snapshots_only_on_right, dest_snapshots_after_bound, previous_anchor_on_dest, take_snapshot,
  prune_old_anchors,
}
use zboot.Cli.ZfsOps.Wire.{
  Wire, at_snap, snap_of, or_empty, fresh_anchor_name, confirm_destructive_truncate,
}

module _ {S : Type 0} (r : Runner S) (w : Wire S) where
  -- A dataset that cannot be looked at counts as not there.
  abbrev pub exists_or_false : Str → Io S Bool
  exists_or_false ds = do found ← attempt (dataset_exists r ds); pure (or_false found)

  abbrev pub is_readonly : Str → Io S Bool
  is_readonly ds = do
    ro ← attempt (dataset_property r ds (codes "readonly"))
    pure (or_empty ro == codes "on")

  -- A mounted dataset has to be read-only.
  unfoldable pub refuse_mounted_rw : Str → Io S (Unit {0})
  refuse_mounted_rw dest = do
    mounted ← is_mounted r dest
    ro ← (if mounted then is_readonly dest else pure true)
    guard ro (mounted_rw dest)

  -- What would be destroyed has to be forced and confirmed.
  abbrev pub settle_losses : Str → Error → Bool → List Str → Io S (Unit {0})
  settle_losses dest e force lost =
      if is_empty lost then done else (guard force e >> confirm_destructive_truncate w dest)

  unfoldable pub settle_divergence : Str → Str → Bool → Io S (Unit {0})
  unfolding confirm_destructive_truncate
  settle_divergence src dest force = do
    dest_extras ← snapshots_only_on_right r src dest
    settle_losses dest (diverged dest) force dest_extras

  -- The bound to which the destination goes back, if it does.
  unfoldable pub settle_rewind : Str → Str → Bool → Str → Io S (Option Str)
  unfolding confirm_destructive_truncate
  settle_rewind src dest force snap_name = do
    to_destroy ← dest_snapshots_after_bound r src dest snap_name
    settle_losses dest (rewinds dest) force to_destroy
    pure (if is_empty to_destroy then none else some (at_snap dest snap_name))

  abbrev pub settle_bound : Str → Str → Bool → Bool → Option Str → Io S (Option Str)
  settle_bound src dest force dest_exists none = pure none
  settle_bound src dest force dest_exists (some snap_name) =
      if dest_exists then settle_rewind src dest force snap_name else pure none

  -- The snapshot that is named, or a fresh anchor. A rewind has a name.
  unfoldable pub choose_anchor : Str → Option Str → ℕ → Io S Str
  unfolding snap_of fresh_anchor_name
  choose_anchor src (some snap) utc_ns = pure (at_snap src snap)
  choose_anchor src none utc_ns = do
    let fresh = at_snap src (fresh_anchor_name utc_ns)
    take_snapshot r src (snap_of fresh)
    pure fresh

  -- The read-only mark is taken away; whether it was there.
  unfoldable pub clear_readonly : Str → Io S Bool
  clear_readonly dest = do
    val ← dataset_property r dest (codes "readonly")
    if val == codes "on"
        then (set_readonly_tolerant r dest (codes "off") >> pure true)
        else pure false

  abbrev pub restored : Bool → Str → Result Error (Unit {0}) × S → Result Error (Unit {0}) × S
  restored was_readonly dest (ok u, s) = (ok u, s)
  restored was_readonly dest (err e, s) =
      (err e, if was_readonly then (set_readonly_tolerant r dest (codes "on") s).1 else s)

  -- After a failure the mark is put back, as far as that succeeds.
  abbrev pub or_restore : Bool → Str → Io S (Unit {0}) → Io S (Unit {0})
  or_restore was_readonly dest m s = restored was_readonly dest (m s)

  abbrev pub prev_on_dest : Str → Str → Bool → Io S (Option Str)
  prev_on_dest src dest dest_exists =
      if dest_exists then previous_anchor_on_dest r src dest else pure none

  unfoldable pub prune_both : Str → Str → Str → Io S (Unit {0})
  unfolding snap_of
  prune_both src dest anchor = do
    prune_old_anchors r src anchor
    prune_old_anchors r dest (at_snap dest (snap_of anchor))
