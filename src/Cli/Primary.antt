-- ===== src/Cli/Primary.antt =====
-- cli/src/cmd/primary.rs: `zboot primary` makes one side of a pair the writable one and lets the boot
-- pointers follow. The steps after the checks are functions of their own; printed lines are left out,
-- and the time stamp of the snapshot's name is an argument. The text of `/proc/self/mounts` is one too.
use zboot.Base.{
  Bool, true, false, Option, none, some, [], ◌∷◌, ◌++◌, Str, ok_or, ◌==◌, str_eq, option_beq,
  if◌then◌else◌,
}
use zboot.Text.{codes, first_part}
use zboot.Core.Replication.{PairPointer, pointer_eq, parse_dataset, render_pointer}
use zboot.Cli.Io.{
  Io, not_found, not_paired, not_canonical, ◌>>=◌, ◌>>◌, pure, lift, done, guard, attempt,
}
use zboot.Cli.Sub
use zboot.Cli.Sub.{Runner}
use zboot.Cli.ZfsOps.{
  dataset_exists, dataset_property, pool_bootfs, set_property_tolerant, set_readonly_tolerant,
  read_pair_pointer, is_mounted, or_false,
}
use zboot.Cli.ZfsOps.Snapshots.{take_snapshot}
use zboot.Cli.BeArg.{resolve_be_dataset}

-- `.ok().flatten()`.
abbrev pub flat : Option (Option Str) → Option Str
flat none = none
flat (some o) = o

module _ {S : Type 0} (r : Runner S) where
  unfoldable pub read_primary_flag : Str → Io S Bool
  read_primary_flag ds = do
    val ← dataset_property r ds (codes "zboot:primary")
    pure (val == codes "on")

  unfoldable pub set_primary_flag : Str → Bool → Io S (Unit {0})
  set_primary_flag ds on =
      set_property_tolerant r ds (codes "zboot:primary") (if on then codes "on" else codes "off")

  -- Whether the peer is there and points back.
  unfoldable pub read_peer_back : Str → Io S (Option PairPointer)
  read_peer_back peer_ds = do
    there ← attempt (dataset_exists r peer_ds)
    if or_false there then read_pair_pointer r peer_ds else pure none

  unfoldable pub snapshot_peer : Str → Str → Io S (Unit {0})
  snapshot_peer peer_ds stamp = do
    mounted ← is_mounted r peer_ds
    if mounted then (take_snapshot r peer_ds (codes "pre-primary-" ++ stamp) >> done) else done

  unfoldable pub demote_peer : Str → Io S (Unit {0})
  demote_peer peer_ds = do
    mounted ← is_mounted r peer_ds
    if mounted then done else set_readonly_tolerant r peer_ds (codes "on")

  unfoldable pub flip : Str → Str → Bool → Str → Io S (Unit {0})
  flip be_dataset peer_ds is_mutual stamp = do
    if is_mutual then snapshot_peer peer_ds stamp else done
    set_primary_flag be_dataset true
    if is_mutual then set_primary_flag peer_ds false else done
    set_readonly_tolerant r be_dataset (codes "off")
    if is_mutual then demote_peer peer_ds else done

  unfoldable pub boots : Str → Str → Io S Bool
  boots pool ds = do
    bootfs ← attempt (pool_bootfs r pool)
    pure (option_beq (flat bootfs) (some ds))

  unfoldable pub follow_bootfs : Str → PairPointer → Io S (Unit {0})
  follow_bootfs be_dataset peer = do
    peer_was_bootfs ← boots peer.pool (render_pointer peer)
    if peer_was_bootfs
        then Sub.run r (codes "zpool") (codes "set" ∷ codes "bootfs=" ∷ peer.pool ∷ [])
        else done
    be_is_bootfs ← boots (first_part b'/' be_dataset) be_dataset
    if be_is_bootfs
        then done
        else Sub.run r (codes "zpool")
            (codes "set" ∷ (codes "bootfs=" ++ be_dataset) ∷ first_part b'/' be_dataset ∷ [])

  -- A boot environment that is primary already is left as it is.
  unfoldable pub make_primary : Str → Str → PairPointer → Bool → Io S (Unit {0})
  make_primary stamp be_dataset peer is_mutual = do
    cur_primary ← read_primary_flag be_dataset
    if cur_primary
        then done
        else (flip be_dataset (render_pointer peer) is_mutual stamp
            >> follow_bootfs be_dataset peer)

  unfoldable pub run_primary : Option Str → Str → Str → Io S (Unit {0})
  run_primary mounts stamp be = do
    be_dataset ← lift (resolve_be_dataset mounts be)
    there ← dataset_exists r be_dataset
    guard there (not_found be_dataset)
    found ← read_pair_pointer r be_dataset
    peer ← lift (ok_or found (not_paired be_dataset))
    peer_back ← read_peer_back (render_pointer peer)
    be_pointer ← lift (ok_or (parse_dataset be_dataset) (not_canonical be_dataset))
    make_primary stamp be_dataset peer (option_beq peer_back (some be_pointer))
