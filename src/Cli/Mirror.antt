-- ===== src/Cli/Mirror.antt =====
-- cli/src/cmd/mirror.rs: `zboot mirror` sends every primary boot environment to all that follow it. Printed
-- lines are left out. `Totals` has that every pair is tried and counted, `Outcome` what a pair comes to.
pub mod Totals
pub mod Outcome
use zboot.Base.{
  ℕ, zero, suc, ◌+◌, Bool, true, false, not, ◌&&◌, ◌||◌, Option, none, some, List, [], ◌∷◌, ◌++◌,
  Str, ◌==◌, str_eq, option_beq, is_empty, elem, sort_by, Result, ok, err, if◌then◌else◌,
}
use zboot.Text.{codes, lines, split, first_part}
use zboot.Core.Replication.{PairPointer, parse_dataset, render_pointer}
use zboot.Core.Types.Atomic.{str_leb}
use zboot.Cli.Io.{Io, Error, ◌>>=◌, ◌>>◌, pure, raise, guard, done, attempt, mounted_rw}
use zboot.Cli.Sub
use zboot.Cli.Sub.{Runner}
use zboot.Cli.ZfsOps.{
  pool_property, is_mounted, set_readonly_tolerant, ensure_root_container, read_pair_pointer,
  first_or, second_or,
}
use zboot.Cli.ZfsOps.Snapshots.{snapshots_only_on_right, set_be_contract}
use zboot.Cli.ZfsOps.Wire.{
  Wire, confirm_destructive_truncate, send_recv_full, send_recv_incremental,
}
use zboot.Cli.Push.{lift_readonly}
use zboot.Cli.Replicate.{
  exists_or_false, refuse_mounted_rw, choose_anchor, or_restore, prev_on_dest, prune_both,
}

pub data PushOutcome : Type 0 where
  synced no_op refused : PushOutcome

-- The lines that the verb counts.
pub record Counts : Type 0 where
  pub synced : ℕ
  pub noop : ℕ
  pub refused : ℕ
  pub skipped : ℕ

-- The rows with the value that is looked for.
unfoldable pub names_with : Str → List Str → List Str
names_with wanted [] = []
names_with wanted (line ∷ ls) =
    let rest = names_with wanted ls in
    if second_or [] (split b'\t' line) == wanted
    then first_or [] (split b'\t' line) ∷ rest
    else rest

-- The rows of trackers; a target that is there already is not taken again.
unfoldable pub add_trackers : Str → Str → List Str → List Str → List Str
unfolding elem
add_trackers primary render [] targets = targets
add_trackers primary render (line ∷ ls) targets =
    let name = first_or [] (split b'\t' line) in
    let value = second_or [] (split b'\t' line) in
    add_trackers primary render ls (
      if value == render && not (name == primary) && not (elem name targets)
      then targets ++ name ∷ []
      else targets)

-- `unwrap_or_default()` of a rendered pointer.
abbrev pub rendered : Option PairPointer → Str
rendered none = []
rendered (some p) = render_pointer p

abbrev pub count : Result Error PushOutcome → Counts → Counts
count (ok synced) n = record n { synced = n.synced + 1 }
count (ok no_op) n = record n { noop = n.noop + 1 }
count (ok refused) n = record n { refused = n.refused + 1 }
count (err e) n = record n { skipped = n.skipped + 1 }

abbrev pub no_counts : Counts
no_counts = record { synced = 0; noop = 0; refused = 0; skipped = 0 }

abbrev pub value_args : Str → Str → List Str
value_args prop pool =
    codes "get"
    ∷ codes "-Hp"
    ∷ codes "-r"
    ∷ codes "-t"
    ∷ codes "filesystem"
    ∷ codes "-o"
    ∷ codes "name,value"
    ∷ prop
    ∷ pool
    ∷ []

module _ {S : Type 0} (r : Runner S) (w : Wire S) where
  unfoldable pub list_pools : Io S (List Str)
  list_pools = do
    text ←
        Sub.capture r (codes "zpool") (codes "list" ∷ codes "-Hp" ∷ codes "-o" ∷ codes "name" ∷ [])
    pure (lines text)

  -- The rows of a property in one pool. A pool that zboot does not boot from has none.
  unfoldable pub rows_in : Str → Str → Io S (List Str)
  rows_in prop pool = do
    role ← attempt (pool_property r pool (codes "zboot:role"))
    if option_beq role (some (codes "root"))
        then (do text ← Sub.capture r (codes "zfs") (value_args prop pool); pure (lines text))
        else pure []

  unfoldable pub primaries_in : List Str → Io S (List Str)
  unfolding rows_in names_with
  primaries_in [] = pure []
  primaries_in (pool ∷ pools) = do
    rows ← rows_in (codes "zboot:primary") pool
    rest ← primaries_in pools
    pure (names_with (codes "on") rows ++ rest)

  unfoldable pub list_primary_bes : Io S (List Str)
  unfolding list_pools primaries_in str_leb sort_by
  list_primary_bes = do
    pools ← list_pools
    primaries ← primaries_in pools
    pure (sort_by str_leb primaries)

  -- The peer, if it is there.
  unfoldable pub canonical_peer : Str → Io S (List Str)
  canonical_peer primary = do
    found ← read_pair_pointer r primary
    elim found [
      | none ↦ pure []
      | some peer ↦ do
        there ← exists_or_false r w (render_pointer peer)
        pure (if there then render_pointer peer ∷ [] else [])
    ]

  unfoldable pub trackers_in : Str → Str → List Str → List Str → Io S (List Str)
  unfolding rows_in add_trackers
  trackers_in primary render [] targets = pure targets
  trackers_in primary render (pool ∷ pools) targets = do
    rows ← rows_in (codes "zboot:mirror") pool
    trackers_in primary render pools (add_trackers primary render rows targets)

  unfoldable pub list_outgoing_targets : Str → Io S (List Str)
  unfolding canonical_peer list_pools trackers_in str_leb sort_by
  list_outgoing_targets primary = do
    targets ← canonical_peer primary
    pools ← list_pools
    found ← trackers_in primary (rendered (parse_dataset primary)) pools targets
    pure (sort_by str_leb found)

  abbrev pub finish_pair : Str → Str → Str → Io S PushOutcome
  finish_pair src dst anchor = do
    set_be_contract r dst
    set_readonly_tolerant r dst (codes "on")
    prune_both r w src dst anchor
    pure synced

  -- A base that is the fresh anchor itself means that there is nothing to send.
  unfoldable pub send_pair : Str → Str → Str → Bool → Option Str → Io S PushOutcome
  unfolding send_recv_full send_recv_incremental prune_both
  send_pair src dst anchor was_readonly none =
      or_restore r w was_readonly dst (send_recv_full w anchor dst) >> finish_pair src dst anchor
  send_pair src dst anchor was_readonly (some p) =
      if p == anchor
      then (prune_both r w src dst anchor >> pure no_op)
      else (or_restore r w was_readonly dst (send_recv_incremental w p anchor dst)
          >> finish_pair src dst anchor)

  unfoldable pub sync_pair : ℕ → Str → Str → Bool → Io S PushOutcome
  unfolding choose_anchor lift_readonly send_pair
  sync_pair utc_ns src dst dest_exists = do
    anchor ← choose_anchor r w src none utc_ns
    if dest_exists then done else ensure_root_container r (first_part b'/' dst)
    was_readonly ← lift_readonly r w dst dest_exists
    prev ← prev_on_dest r w src dst dest_exists
    send_pair src dst anchor was_readonly prev

  -- Whether the push goes on.
  unfoldable pub may_sync : Str → Str → Bool → Io S Bool
  unfolding confirm_destructive_truncate
  may_sync src dst force = do
    dst_extras ← snapshots_only_on_right r src dst
    if is_empty dst_extras
        then pure true
        else if force
        then (confirm_destructive_truncate w dst >> pure true)
        else pure false

  unfoldable pub push_one_pair : ℕ → Str → Str → Bool → Io S PushOutcome
  unfolding refuse_mounted_rw may_sync sync_pair
  push_one_pair utc_ns src dst force = do
    dest_exists ← exists_or_false r w dst
    if dest_exists then refuse_mounted_rw r w dst else done
    go ← (if dest_exists then may_sync src dst force else pure true)
    if go then sync_pair utc_ns src dst dest_exists else pure refused

  -- The loop over the targets, which goes on after a failure. Each push reads the clock anew.
  unfoldable pub push_all : (S → ℕ) → Bool → Str → List Str → Counts → Io S Counts
  unfolding push_one_pair
  push_all clock force primary [] n s = (ok n, s)
  push_all clock force primary (target ∷ targets) n s =
      let res = push_one_pair (clock s) primary target force s in
      push_all clock force primary targets (count res.0 n) res.1

  unfoldable pub mirror_all : (S → ℕ) → Bool → List Str → Counts → Io S Counts
  unfolding list_outgoing_targets push_all
  mirror_all clock force [] n = pure n
  mirror_all clock force (primary ∷ primaries) n = do
    targets ← list_outgoing_targets primary
    m ←
        (if is_empty targets
          then pure (record n { skipped = n.skipped + 1 })
          else push_all clock force primary targets n)
    mirror_all clock force primaries m

  -- The counts that the summary shows.
  unfoldable pub run_mirror : (S → ℕ) → Bool → Io S Counts
  unfolding list_primary_bes mirror_all
  run_mirror clock force = do
    primaries ← list_primary_bes
    mirror_all clock force primaries no_counts
