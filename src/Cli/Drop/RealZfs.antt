-- ===== src/Cli/Drop/RealZfs.antt =====
-- `RealZfs` of cli/src/cmd/drop.rs: the trait `Zfs` by commands. `Listing` has what a listing shows,
-- `Rows` that it is what the datasets have, where the commands print that.
pub mod Listing
pub mod Fields
pub mod Printed
pub mod Rows
use zboot.Base.{
  Bool, true, false, ◌||◌, Option, none, some, List, [], ◌∷◌, ◌++◌, map, Str, Result, ok, err, ◌==◌,
  str_eq, filter, is_empty, not, if◌then◌else◌,
}
use zboot.Text.{codes, lines, trim, split}
use zboot.Core.Types.Property.{Property, zboot_be, origin, zboot_attached_to}
use zboot.Core.Parse.{parse_zfs_get}
use zboot.Cli.Io.{Io, Error, ◌>>=◌, ◌>>◌, pure, lift}
use zboot.Cli.Sub
use zboot.Cli.Sub.{Runner}
use zboot.Cli.ZfsOps.{first_or, second_or}
use zboot.Cli.Drop.{DatasetRow, PoolRow, Zfs}

abbrev pub new_row : Str → DatasetRow
new_row d = record { name = d; is_be = false; origin = none; bound_to = none }

-- The match on a property, on the row of its dataset.
unfoldable pub set_field : Property → DatasetRow → DatasetRow
set_field (zboot_be b) row = record row { is_be = b }
set_field (origin o) row = record row { origin = o }
set_field (zboot_attached_to bl) row = record row { bound_to = some bl }
set_field _ row = row

-- The first row of that name, if there is one, is changed.
unfoldable pub set_first : Str → Property → List DatasetRow → List DatasetRow
unfolding set_field
set_first name prop [] = []
set_first name prop (row ∷ rows) =
    let rest = set_first name prop rows in
    if row.name == name then set_field prop row ∷ rows else row ∷ rest

-- The loop over the properties.
unfoldable pub set_fields : List (Str × Property) → List DatasetRow → List DatasetRow
unfolding set_first
set_fields [] rows = rows
set_fields ((name, prop) ∷ props) rows = set_fields props (set_first name prop rows)

abbrev pub parsed_props : Str → Result Error (List (Str × Property))
parsed_props text = elim (parse_zfs_get text) [ ok ps ↦ ok ps | err e ↦ err (Error.parse e) ]

abbrev pub dataset_names : Str → List Str
dataset_names text = filter (λ s. not (is_empty s)) (map trim (lines text))

abbrev pub bootfs_of : Str → Option Str
bootfs_of raw = if raw == codes "-" || is_empty raw then none else some raw

-- A line of `zpool list`, trimmed.
abbrev pub pool_row : Str → PoolRow
pool_row l = record {
  name = first_or [] (split b'\t' l);
  bootfs = bootfs_of (second_or (codes "-") (split b'\t' l));
}

module _ {S : Type 0} (r : Runner S) where
  unfoldable pub rows_of : List Str → Io S (List DatasetRow)
  rows_of datasets = do
    props_text ← Sub.capture r (codes "zfs") (
        codes "get"
        ∷ codes "-Hp"
        ∷ codes "-o"
        ∷ codes "name,property,value"
        ∷ codes "zboot:be,origin,zboot:attached-to"
        ∷ datasets)
    props ← lift (parsed_props props_text)
    pure (set_fields props (map new_row datasets))

  unfoldable pub list_datasets : Io S (List DatasetRow)
  list_datasets = do
    names_text ← Sub.capture r (codes "zfs") (
        codes "list"
        ∷ codes "-Hp"
        ∷ codes "-o"
        ∷ codes "name"
        ∷ codes "-t"
        ∷ codes "filesystem"
        ∷ [])
    let datasets = dataset_names names_text
    if is_empty datasets then pure [] else rows_of datasets

  unfoldable pub list_pools : Io S (List PoolRow)
  list_pools = do
    text ←
        Sub.capture r (codes "zpool")
          (codes "list" ∷ codes "-Hp" ∷ codes "-o" ∷ codes "name,bootfs" ∷ [])
    pure (map pool_row (filter (λ l. not (is_empty l)) (map trim (lines text))))

  unfoldable pub real_zfs : Zfs S
  real_zfs = record {
    list_datasets = list_datasets;
    list_pools = list_pools;
    promote = λ dataset. Sub.run r (codes "zfs") (codes "promote" ∷ dataset ∷ []);
    destroy = λ dataset. Sub.run r (codes "zfs") (codes "destroy" ∷ codes "-r" ∷ dataset ∷ []);
    set_bound_to = λ dataset value.
        Sub.run r (codes "zfs")
          (codes "set" ∷ (codes "zboot:attached-to=" ++ value) ∷ dataset ∷ []);
    unset_bound_to = λ dataset.
        Sub.run r (codes "zfs") (codes "inherit" ∷ codes "zboot:attached-to" ∷ dataset ∷ []);
  }
