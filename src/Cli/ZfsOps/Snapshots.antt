-- ===== src/Cli/ZfsOps/Snapshots.antt =====
-- The snapshot lists of cli/src/zfs_ops.rs: names with GUIDs in the order of creation, what one side
-- holds alone, what lies behind a bound, and the base of the next incremental send.
-- A set of GUIDs is a list of them. `Divergence` and `Latest` have what these
-- functions select.
pub mod Divergence
pub mod Latest
use zboot.Base.{
  ℕ, Bool, true, false, not, ◌&&◌, ◌||◌, Option, none, some, List, [], ◌∷◌, ◌++◌, map, Str, ◌==◌,
  nat_eq, str_eq, Result, ok, err, filter, elem, last, is_empty, if◌then◌else◌,
}
use zboot.Text.{codes, trim, lines, split, starts_with}
use zboot.Core.Parse.{parse_u64}
use zboot.Core.Replication.{is_replication_anchor}
use zboot.Cli.Io.{Io, Error, ◌>>=◌, ◌>>◌, pure, raise, done, attempt}
use zboot.Cli.Sub
use zboot.Cli.Sub.{Runner}
use zboot.Cli.ZfsOps.{dataset_property, first_or, second_or, set_property_tolerant}

-- A snapshot's full name and its GUID.
pub record Named : Type 0 where
  pub name : Str
  pub guid : Str

abbrev pub is_kept : Named → Bool
is_kept p = not (is_replication_anchor p.name)

abbrev pub guids_of : List Named → List Str
guids_of ps = map (λ (p : Named). p.guid) ps

abbrev pub names_of : List Named → List Str
names_of ps = map (λ (p : Named). p.name) ps

unfoldable pub only_on_right : List Named → List Named → List Str
unfolding filter elem
only_on_right left right =
    let left_guids = guids_of (filter is_kept left) in
    names_of (filter (λ p. not (elem p.guid left_guids)) (filter is_kept right))

-- `src_pairs[bound_pos + 1..]` at the first position of the bound.
unfoldable pub behind_bound : Str → List Named → Option (List Named)
behind_bound bound [] = none
behind_bound bound (p ∷ ps) = if p.name == bound then some ps else behind_bound bound ps

unfoldable pub snapshots_after_bound_pure : List Named → List Named → Str → List Str
unfolding behind_bound filter elem
snapshots_after_bound_pure src dest bound = elim (behind_bound bound src) [
  | none ↦ []
  | some after ↦
      names_of (filter (λ p. elem p.guid (guids_of (filter is_kept after))) (filter is_kept dest))
]

-- The loop of `previous_anchor_on_dest` with `latest_match`.
unfoldable pub latest_match : List Str → Option Str → List Named → Option Str
latest_match dest_guids latest [] = latest
latest_match dest_guids latest (p ∷ src) =
    latest_match dest_guids (if elem p.guid dest_guids then some p.name else latest) src

-- A line of `zfs list -o name,guid`.
abbrev pub named : List Str → Named
named cols = record { name = first_or [] cols; guid = second_or [] cols }

abbrev pub snapshot_args : Str → List Str
snapshot_args dataset =
    codes "list"
    ∷ codes "-Hp"
    ∷ codes "-t"
    ∷ codes "snapshot"
    ∷ codes "-o"
    ∷ codes "name,guid"
    ∷ codes "-d"
    ∷ codes "1"
    ∷ codes "-s"
    ∷ codes "creation"
    ∷ dataset
    ∷ []

module _ {S : Type 0} (r : Runner S) where
  unfoldable pub list_snapshots_with_guids : Str → Io S (List Named)
  list_snapshots_with_guids dataset = do
    out ← r.run (codes "zfs") (snapshot_args dataset)
    pure (if out.rc == 0 then map (λ l. named (split b'\t' l)) (lines out.stdout) else [])

  unfoldable pub snapshot_guid_set : Str → Io S (List Str)
  snapshot_guid_set dataset = do
    pairs ← list_snapshots_with_guids dataset
    pure (guids_of (filter is_kept pairs))

  unfoldable pub snapshots_only_on_right : Str → Str → Io S (List Str)
  snapshots_only_on_right left right = do
    left_pairs ← list_snapshots_with_guids left
    right_pairs ← list_snapshots_with_guids right
    pure (only_on_right left_pairs right_pairs)

  unfoldable pub dest_snapshots_after_bound : Str → Str → Str → Io S (List Str)
  dest_snapshots_after_bound src_dataset dest_dataset bound_name = do
    src_pairs ← list_snapshots_with_guids src_dataset
    dest_pairs ← list_snapshots_with_guids dest_dataset
    pure (snapshots_after_bound_pure src_pairs dest_pairs (src_dataset ++ b'@' ∷ bound_name))

  unfoldable pub previous_anchor_on_dest : Str → Str → Io S (Option Str)
  previous_anchor_on_dest source_dataset dest_dataset = do
    src ← list_snapshots_with_guids source_dataset
    dest ← list_snapshots_with_guids dest_dataset
    pure (latest_match (guids_of dest) none src)

  -- Every failure is `none`.
  unfoldable pub dirty_bytes_since_latest : Str → Io S (Option ℕ)
  dirty_bytes_since_latest dataset = do
    listed ← attempt (list_snapshots_with_guids dataset)
    elim listed [
      | none ↦ pure none
      | some pairs ↦ elim (last pairs) [
        | none ↦ pure none
        | some latest ↦ do
          val ← attempt (dataset_property r latest.name (codes "written"))
          elim val [ none ↦ pure none | some v ↦ pure (parse_u64 v) ]
      ]
    ]

  unfoldable pub snapshot_exists : Str → Io S Bool
  snapshot_exists full_path = do
    out ← r.run (codes "zfs") (
        codes "list"
        ∷ codes "-H"
        ∷ codes "-t"
        ∷ codes "snapshot"
        ∷ codes "-o"
        ∷ codes "name"
        ∷ full_path
        ∷ [])
    pure (out.rc == 0)

  unfoldable pub take_snapshot : Str → Str → Io S Str
  take_snapshot dataset name = do
    Sub.run r (codes "zfs") (codes "snapshot" ∷ (dataset ++ b'@' ∷ name) ∷ [])
    pure (dataset ++ b'@' ∷ name)

  -- One line of the listing: an anchor that is not to be kept is destroyed, and a failure ignored.
  unfoldable pub prune_line : Str → Str → Str → Io S (Unit {0})
  prune_line dataset keep snap =
      if not (starts_with snap (dataset ++ codes "@mirror-")) || snap == keep
      then done
      else (attempt (r.run (codes "zfs") (codes "destroy" ∷ snap ∷ [])) >> done)

  unfoldable pub prune_lines : Str → Str → List Str → Io S (Unit {0})
  prune_lines dataset keep [] = done
  prune_lines dataset keep (l ∷ ls) =
      prune_line dataset keep (trim l) >> prune_lines dataset keep ls

  unfoldable pub prune_old_anchors : Str → Str → Io S (Unit {0})
  prune_old_anchors dataset keep = do
    listing ← attempt (
        r.run (codes "zfs") (
          codes "list"
          ∷ codes "-Hp"
          ∷ codes "-t"
          ∷ codes "snapshot"
          ∷ codes "-o"
          ∷ codes "name"
          ∷ codes "-r"
          ∷ dataset
          ∷ []))
    elim listing [
      | none ↦ done
      | some out ↦ if out.rc == 0 then prune_lines dataset keep (lines out.stdout) else done
    ]

  unfoldable pub set_be_contract : Str → Io S (Unit {0})
  set_be_contract ds = do
    set_property_tolerant r ds (codes "canmount") (codes "noauto")
    set_property_tolerant r ds (codes "mountpoint") (codes "/")
    set_property_tolerant r ds (codes "zboot:be") (codes "true")
