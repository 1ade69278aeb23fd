-- ===== src/Cli/Default/Discover.antt =====
-- What `zboot default` looks up (cli/src/cmd/default.rs): the pools that zboot boots from, their boot
-- environments, the one that is meant, and the attached datasets.
use zboot.Base.{
  Bool, true, false, Option, none, some, List, [], ◌∷◌, map, Str, ◌==◌, str_eq, any, find, filter,
  is_empty, Result, ok, err, if◌then◌else◌,
}
use zboot.Text.{codes, contains_char, first_part, last_part}
use zboot.Core.Types.{Pool, BoundList, Canmount}
use zboot.Core.Types.Property.{Property, zboot_role, zboot_be, zboot_attached_to, canmount}
use zboot.Core.Types.Atomic.{str_leb}
use zboot.Cli.Io.{Io, Error, not_found, ambiguous, ◌>>=◌, pure, lift}
use zboot.Cli.Sub
use zboot.Cli.Sub.{Runner}
use zboot.Cli.Snapshot.{parsed_pools}
use zboot.Cli.Drop.RealZfs.{parsed_props}

pub record PoolInfo : Type 0 where
  pub name : Str
  pub bootfs : Option Str

pub record BeInfo : Type 0 where
  pub pool : Str
  pub dataset : Str
  pub name : Str

pub record BoundDsInfo : Type 0 where
  pub dataset : Str
  pub bound_to : BoundList
  pub canmount : Option Canmount

-- Whether a row is of the role of this pool.
abbrev pub is_role_of : Str → Str × Property → Bool
is_role_of name (n, zboot_role _) = n == name
is_role_of name (n, _) = false

-- The first such row; `root` is the only role.
unfoldable pub has_root_role : List (Str × Property) → Pool → Bool
unfolding any
has_root_role role_props p = any (is_role_of p.name) role_props

unfoldable pub roots_of : List (Str × Property) → List Pool → List PoolInfo
unfolding has_root_role
roots_of role_props [] = []
roots_of role_props (p ∷ pools) =
    let rest = roots_of role_props pools in
    if has_root_role role_props p then record { name = p.name; bootfs = p.bootfs } ∷ rest else rest

abbrev pub split_dataset_pool_and_name : Str → Str × Str
split_dataset_pool_and_name dataset = (first_part b'/' dataset, last_part b'/' dataset)

abbrev pub be_info : Str → BeInfo
be_info ds = record { pool = first_part b'/' ds; dataset = ds; name = last_part b'/' ds }

-- Whether the row marks a boot environment of one of the pools.
unfoldable pub is_marked : List PoolInfo → Str × Property → Bool
unfolding any
is_marked pools (ds, zboot_be true) = any (λ p. p.name == first_part b'/' ds) pools
is_marked pools (ds, _) = false

unfoldable pub bes_in : List PoolInfo → List (Str × Property) → List BeInfo
unfolding is_marked
bes_in pools [] = []
bes_in pools (row ∷ props) =
    let rest = bes_in pools props in if is_marked pools row then be_info row.0 ∷ rest else rest

-- The answer to a bare name.
abbrev pub only_be : Str → List BeInfo → Result Error BeInfo
only_be name [] = err (not_found name)
only_be name (be ∷ []) = ok be
only_be name (be ∷ more ∷ others) = err (ambiguous name (map (λ b. b.dataset) (be ∷ more ∷ others)))

unfoldable pub resolve_target_be : List BeInfo → Str → Result Error BeInfo
unfolding find filter contains_char
resolve_target_be bes name_or_path =
    if contains_char b'/' name_or_path
    then elim (find (λ be. be.dataset == name_or_path) bes) [
      | some be ↦ ok be
      | none ↦ err (not_found name_or_path)
    ]
    else only_be name_or_path (filter (λ be. be.name == name_or_path) bes)

pub record BoundDsAcc : Type 0 where
  pub bound_to : Option BoundList
  pub canmount : Option Canmount

abbrev pub note_bound : Property → BoundDsAcc → BoundDsAcc
note_bound (zboot_attached_to bl) acc = record acc { bound_to = some bl }
note_bound (canmount c) acc = record acc { canmount = some c }
note_bound _ acc = acc

abbrev pub empty_acc : BoundDsAcc
empty_acc = record { bound_to = none; canmount = none }

-- `entry(ds).or_default()` of a map sorted by its keys, and the change of the entry.
unfoldable pub enter_bound : Str → Property → List (Str × BoundDsAcc) → List (Str × BoundDsAcc)
unfolding str_leb
enter_bound ds prop [] = (ds, note_bound prop empty_acc) ∷ []
enter_bound ds prop ((n, acc) ∷ by_ds) =
    let rest = enter_bound ds prop by_ds in
    if n == ds
    then (n, note_bound prop acc) ∷ by_ds
    else if str_leb ds n
    then (ds, note_bound prop empty_acc) ∷ (n, acc) ∷ by_ds
    else (n, acc) ∷ rest

unfoldable pub enter_all : List (Str × Property) → List (Str × BoundDsAcc) → List (Str × BoundDsAcc)
unfolding enter_bound
enter_all [] by_ds = by_ds
enter_all ((ds, prop) ∷ props) by_ds = enter_all props (enter_bound ds prop by_ds)

-- The datasets with a list.
unfoldable pub bound_of : List (Str × BoundDsAcc) → List BoundDsInfo
bound_of [] = []
bound_of ((ds, acc) ∷ by_ds) =
    let rest = bound_of by_ds in
    elim acc.bound_to [
      | none ↦ rest
      | some bl ↦ record { dataset = ds; bound_to = bl; canmount = acc.canmount } ∷ rest
    ]

abbrev pub pool_names : List PoolInfo → List Str
pool_names pools = map (λ p. p.name) pools

module _ {S : Type 0} (r : Runner S) where
  abbrev pub role_rows : List Pool → Io S (List (Str × Property))
  role_rows pools = do
    role_text ← Sub.capture r (codes "zpool") (
        codes "get"
        ∷ codes "-Hp"
        ∷ codes "-o"
        ∷ codes "name,property,value"
        ∷ codes "zboot:role"
        ∷ map (λ p. p.name) pools)
    lift (parsed_props role_text)

  unfoldable pub list_root_pools : Io S (List PoolInfo)
  unfolding roots_of
  list_root_pools = do
    pl ←
        Sub.capture r (codes "zpool")
          (codes "list" ∷ codes "-Hp" ∷ codes "-o" ∷ codes "name,bootfs,guid" ∷ [])
    pools ← lift (parsed_pools pl)
    role_props ← (if is_empty pools then pure [] else role_rows pools)
    pure (roots_of role_props pools)

  -- The rows of properties of all datasets of the pools.
  abbrev pub rows_below : Str → List PoolInfo → Io S (List (Str × Property))
  rows_below props pools = do
    text ← Sub.capture r (codes "zfs") (
        codes "get"
        ∷ codes "-Hpr"
        ∷ codes "-o"
        ∷ codes "name,property,value"
        ∷ props
        ∷ pool_names pools)
    lift (parsed_props text)

  unfoldable pub list_bes : List PoolInfo → Io S (List BeInfo)
  unfolding bes_in
  list_bes [] = pure []
  list_bes (p ∷ pools) = do
    props ← rows_below (codes "zboot:be") (p ∷ pools)
    pure (bes_in (p ∷ pools) props)

  unfoldable pub list_bound_datasets : List PoolInfo → Io S (List BoundDsInfo)
  unfolding enter_all bound_of
  list_bound_datasets [] = pure []
  list_bound_datasets (p ∷ pools) = do
    props ← rows_below (codes "zboot:attached-to,canmount") (p ∷ pools)
    pure (bound_of (enter_all props []))
