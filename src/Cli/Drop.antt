-- ===== src/Cli/Drop.antt =====
-- cli/src/cmd/drop.rs: `zboot drop` destroys a boot environment, after it has promoted the clones
-- that depend on it, and takes it out of the lists of attached datasets.
-- `Zfs` is the trait of that name, the access to ZFS.
-- What the verb prints on standard output is a list of `Line`s in the state.
pub mod RealZfs
pub mod Target
pub mod Promote
pub mod Purge
pub mod Run
use zboot.Base.{
  ℕ, zero, suc, Bool, true, false, not, ◌&&◌, ◌||◌, Option, none, some, List, [], ◌∷◌, ◌++◌, map,
  Str, Result, ok, err, ◌==◌, str_eq, option_beq, is_empty, any, find, filter, elem, if◌then◌else◌,
}
use zboot.Text.{codes, trim, lines, split, split_whitespace, contains_char, first_part, last_part}
use zboot.Core.Types.{SnapshotRef, BoundKey, key_eq, BoundList, remove_key, render_bound_list}
use zboot.Core.Replication.{PairPointer, parse_dataset, render_pointer}
use zboot.Cli.Io.{
  Io, Error, not_found, ambiguous, active, live_root, unread, no_input, mismatch, not_converged,
  ◌>>=◌, ◌>>◌, pure, raise, lift, done, guard, attempt, continue, settle,
}
use zboot.Cli.Sub
use zboot.Cli.Sub.{Runner}
use zboot.Cli.ZfsOps.{pool_property, clear_pair_pointer, first_or, second_or}

pub record DatasetRow : Type 0 where
  pub name : Str
  pub is_be : Bool
  pub origin : Option SnapshotRef
  pub bound_to : Option BoundList

pub record PoolRow : Type 0 where
  pub name : Str
  pub bootfs : Option Str

pub record Zfs (S : Type 0) : Type 0 where
  pub list_datasets : Io S (List DatasetRow)
  pub list_pools : Io S (List PoolRow)
  pub promote : Str → Io S (Unit {0})
  pub destroy : Str → Io S (Unit {0})
  pub set_bound_to : Str → Str → Io S (Unit {0})
  pub unset_bound_to : Str → Io S (Unit {0})

pub record TargetBe : Type 0 where
  pub pool : Str
  pub dataset : Str

-- `read_line`: a failure, the end of the input, or a line with its newline.
pub data Input : Type 0 where
  failed eof : Input
  line : Str → Input

pub data Line : Type 0 where
  promoted_line destroyed_line orphaned_line : Str → Line
  cleared_line : Str → Str → Line

unfoldable pub dataset_pool : Str → Str
dataset_pool d = first_part b'/' d

unfoldable pub dataset_leaf : Str → Str
dataset_leaf d = last_part b'/' d

abbrev pub target_of : DatasetRow → TargetBe
target_of row = record { pool = dataset_pool row.name; dataset = row.name }

-- The match on the number of boot environments with the name.
unfoldable pub only_match : Str → List DatasetRow → Result Error TargetBe
only_match name [] = err (not_found name)
only_match name (row ∷ []) = ok (target_of row)
only_match name (a ∷ b ∷ rows) =
    err (ambiguous name (map (λ (r : DatasetRow). r.name) (a ∷ b ∷ rows)))

unfoldable pub exact_match : Str → Option DatasetRow → Result Error TargetBe
exact_match name none = err (not_found name)
exact_match name (some row) = ok (target_of row)

abbrev pub is_exact : Str → DatasetRow → Bool
is_exact name r = r.is_be && r.name == name

abbrev pub is_named : Str → DatasetRow → Bool
is_named name r = r.is_be && dataset_leaf r.name == name

unfoldable pub pick_target : Str → List DatasetRow → Result Error TargetBe
unfolding only_match exact_match
pick_target name rows =
    if contains_char b'/' name
    then exact_match name (find (is_exact name) rows)
    else only_match name (filter (is_named name) rows)

-- A row of the table of mounts: its source and its target.
abbrev pub mount_is : Str → List Str → Bool
mount_is dataset cols = second_or [] cols == codes "/" && first_or [] cols == dataset

-- `is_live_root` on the text of `/proc/self/mounts`, which may be unreadable.
unfoldable pub is_live_root : Option Str → Str → Bool
is_live_root none dataset = false
is_live_root (some mounts) dataset = any (λ l. mount_is dataset (split_whitespace l)) (lines mounts)

unfoldable pub confirm_with : Input → Str → Result Error (Unit {0})
confirm_with Input.failed expected = err unread
confirm_with Input.eof expected = err no_input
confirm_with (Input.line l) expected =
    if trim l == expected then ok tt else err (mismatch (trim l) expected)

abbrev pub is_clone_of : Str → DatasetRow → Bool
is_clone_of target r = elim r.origin [ none ↦ false | some o ↦ o.dataset == target ]

module _ {S : Type 0} (zfs : Zfs S) where
  unfoldable pub locate_target_be : Str → Io S TargetBe
  locate_target_be name = do rows ← zfs.list_datasets; lift (pick_target name rows)

  unfoldable pub is_active : Str → Io S Bool
  is_active dataset = do
    pools ← zfs.list_pools
    pure (any (λ p. option_beq p.bootfs (some dataset)) pools)

  -- The loop of promotions, with the rounds that are left.
  unfoldable pub promote_loop : ℕ → Str → List Str → Io S (List Str)
  promote_loop zero target promoted = raise (not_converged target)
  promote_loop (suc rounds) target promoted = do
    rows ← zfs.list_datasets
    elim (find (is_clone_of target) rows) [
      | none ↦ pure promoted
      | some r ↦ (zfs.promote r.name >> promote_loop rounds target (promoted ++ r.name ∷ []))
    ]

  unfoldable pub promote_dependent_clones : Str → Io S (List Str)
  promote_dependent_clones target = promote_loop 256 target []

  -- One round of the loop over the rows: what is written for a list that holds the key.
  unfoldable pub purge_row : Str → BoundList → List Str → Io S (List Str)
  purge_row name rest orphans =
      if is_empty rest
      then (zfs.unset_bound_to name >> pure (orphans ++ name ∷ []))
      else (zfs.set_bound_to name (render_bound_list rest) >> pure orphans)

  unfoldable pub purge_rows : BoundKey → List DatasetRow → List Str → Io S (List Str)
  purge_rows key [] orphans = pure orphans
  purge_rows key (row ∷ rows) orphans = elim row.bound_to [
    | none ↦ purge_rows key rows orphans
    | some l ↦ elim (elem key l) [
      | false ↦ purge_rows key rows orphans
      | true ↦ (purge_row row.name (remove_key key l).0 orphans >>= purge_rows key rows)
    ]
  ]

  unfoldable pub purge_be_from_bound_lists : BoundKey → Io S (List Str)
  purge_be_from_bound_lists key = do rows ← zfs.list_datasets; purge_rows key rows []
