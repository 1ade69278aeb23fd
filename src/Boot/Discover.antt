-- ===== src/Boot/Discover.antt =====
-- boot/src/discover.rs: what the boot program finds: the pools that zboot boots from, their boot
-- environments, and the kernels of each. `run_cmd` runs a command by the runner; that it resolves the
-- program's path first is left out, and so are mounts, which process 1 alone makes. A directory is the
-- list of its names that are text, or `none` if it cannot be read.
pub mod Kernels
pub mod Active
use zboot.Base.{
  ℕ, Bool, true, false, not, ◌&&◌, ◌||◌, Option, none, some, List, [], ◌∷◌, ◌++◌, map, Str, ◌==◌,
  nat_eq, str_eq, option_beq, find, filter, any, is_empty, length, ltb, sort_by, lookup, fold_rows,
  all_to, Result, ok, err, if◌then◌else◌,
}
use zboot.Text.{codes, last_part, starts_with, strip_prefix}
use zboot.Core.Types.{
  Pool, PoolRole, root, BootEnvironment, new_boot_environment, parse_snapshot_ref,
  render_snapshot_ref, BoundList, render_key,
}
use zboot.Core.Types.Property.{Property, zboot_be, origin, zboot_attached_to, other}
use zboot.Core.Types.Atomic.{str_leb}
use zboot.Cli.Io.{Io, Error, ◌>>=◌, pure, lift}
use zboot.Cli.Sub
use zboot.Cli.Sub.{Runner}
use zboot.Cli.Drop.RealZfs.{parsed_props, dataset_names}
use zboot.Cli.Snapshot.{annotate_pool_roles, annotated_pools, parsed_pools}

pub record PoolJson : Type 0 where
  pub name : Str
  pub role : Str
  pub bootfs : Option Str
  pub guid : Option ℕ

pub record KernelEntry : Type 0 where
  pub vmlinuz : Str
  pub initrd : Option Str
  pub default : Bool

pub record BeJson : Type 0 where
  pub pool : Str
  pub dataset : Str
  pub name : Str
  pub origin : Option Str
  pub active : Bool
  pub readonly : Bool
  pub bound_to : List Str
  pub kernels : List KernelEntry
  pub mount_root : Option Str

pub record DiscoverV1 : Type 0 where
  pub pools : List PoolJson
  pub bes : List BeJson

pub record BeRecord : Type 0 where
  pub pool : Str
  pub dataset : Str
  pub is_be : Bool
  pub origin : Option Str
  pub bound_to : BoundList
  pub readonly : Bool

-- The boot environment that the menu shows.
unfoldable pub menu_be : BeJson → BootEnvironment
unfolding new_boot_environment parse_snapshot_ref
menu_be b = record (new_boot_environment b.pool b.name) {
  dataset = b.dataset;
  origin = elim b.origin [ none ↦ none | some text ↦ parse_snapshot_ref text ];
}

unfoldable pub forest_from_payload : DiscoverV1 → List BootEnvironment × List Str
unfolding menu_be filter
forest_from_payload payload =
    (map menu_be payload.bes, map (λ b. b.dataset) (filter (λ b. b.active) payload.bes))

-- What the loop over the properties finds out about a dataset.
pub record RecordAcc : Type 0 where
  pub is_be : Bool
  pub origin : Option Str
  pub bound_to : BoundList
  pub readonly : Bool

abbrev pub empty_record : RecordAcc
empty_record = record { is_be = false; origin = none; bound_to = []; readonly = false }

unfoldable pub note_record : Property → RecordAcc → RecordAcc
unfolding render_snapshot_ref
note_record (zboot_be b) acc = record acc { is_be = b }
note_record (origin o) acc = record acc {
  origin = elim o [ none ↦ none | some r ↦ some (render_snapshot_ref r) ];
}
note_record (zboot_attached_to l) acc = record acc { bound_to = l }
note_record (other name value) acc =
    if name == codes "readonly" then record acc { readonly = value == codes "on" } else acc
note_record _ acc = acc

abbrev pub record_of : Str → Str → RecordAcc → BeRecord
record_of pool ds acc = record {
  pool = pool;
  dataset = ds;
  is_be = acc.is_be;
  origin = acc.origin;
  bound_to = acc.bound_to;
  readonly = acc.readonly;
}

-- `remove` of a hash map: the entry of the key is gone.
unfoldable pub remove_entry : Str → List (Str × RecordAcc) → List (Str × RecordAcc)
unfolding filter
remove_entry k m = filter (λ e. not (e.0 == k)) m

abbrev pub cons_record : Str → Str → Option RecordAcc → List BeRecord → List BeRecord
cons_record pool ds none rest = rest
cons_record pool ds (some acc) rest = record_of pool ds acc ∷ rest

-- The last loop of `extract_bes`.
unfoldable pub take_records : Str → List Str → List (Str × RecordAcc) → List BeRecord
unfolding lookup remove_entry
take_records pool [] by_ds = []
take_records pool (ds ∷ datasets) by_ds =
    cons_record pool ds (lookup ds by_ds) (take_records pool datasets (remove_entry ds by_ds))

unfoldable pub extract_bes : Str → List Str → List (Str × Property) → List BeRecord
unfolding take_records fold_rows note_record all_to
extract_bes pool datasets props =
    take_records pool datasets (fold_rows note_record props (all_to empty_record datasets))

unfoldable pub role_label : Option PoolRole → Str
role_label (some root) = codes "root"
role_label none = codes "?"

abbrev pub pool_json : Pool → PoolJson
pool_json p = record { name = p.name; role = role_label p.role; bootfs = p.bootfs; guid = p.guid }

abbrev pub bootfs_in : Option Pool → Option Str
bootfs_in none = none
bootfs_in (some p) = p.bootfs

-- The first pool of that name boots the dataset.
unfoldable pub is_booted : List Pool → Str → Str → Bool
unfolding find
is_booted pools pool dataset =
    option_beq (bootfs_in (find (λ p. p.name == pool) pools)) (some dataset)

unfoldable pub be_json : List Pool → BeRecord → BeJson
unfolding is_booted last_part render_key
be_json pools rec = record {
  pool = rec.pool;
  dataset = rec.dataset;
  name = last_part b'/' rec.dataset;
  origin = rec.origin;
  active = is_booted pools rec.pool rec.dataset;
  readonly = rec.readonly;
  bound_to = map render_key rec.bound_to;
  kernels = [];
  mount_root = none;
}

unfoldable pub assemble : List Pool → List BeRecord → DiscoverV1
unfolding be_json role_label filter
assemble pools records = record {
  pools = map pool_json pools;
  bes = map (be_json pools) (filter (λ r. r.is_be) records);
}

abbrev pub is_root_pool : Pool → Bool
is_root_pool p = elim p.role [ none ↦ false | some root ↦ true ]

module _ {S : Type 0} (r : Runner S) where
  unfoldable pub list_filesystems_in : Str → Io S (List Str)
  list_filesystems_in pool = do
    text ← Sub.capture r (codes "zfs") (
        codes "list"
        ∷ codes "-Hp"
        ∷ codes "-r"
        ∷ codes "-o"
        ∷ codes "name"
        ∷ codes "-t"
        ∷ codes "filesystem"
        ∷ pool
        ∷ [])
    pure (dataset_names text)

  abbrev pub records_in : Str → List Str → Io S (List BeRecord)
  records_in pool datasets = do
    props_text ← Sub.capture r (codes "zfs") (
        codes "get"
        ∷ codes "-Hp"
        ∷ codes "-o"
        ∷ codes "name,property,value"
        ∷ codes "origin,zboot:be,zboot:attached-to,zboot:bound-mountpoint,zboot:created-by,readonly"
        ∷ datasets)
    props ← lift (parsed_props props_text)
    pure (extract_bes pool datasets props)

  -- The loop over the root pools.
  unfoldable pub be_records : List Pool → Io S (List BeRecord)
  unfolding list_filesystems_in extract_bes
  be_records [] = pure []
  be_records (pool ∷ pools) = do
    datasets ← list_filesystems_in pool.name
    found ← (if is_empty datasets then pure [] else records_in pool.name datasets)
    rest ← be_records pools
    pure (found ++ rest)

  -- `collect` without the mounts of process 1.
  unfoldable pub collect : Io S DiscoverV1
  unfolding be_records assemble annotated_pools filter
  collect = do
    pools_text ←
        Sub.capture r (codes "zpool")
          (codes "list" ∷ codes "-Hp" ∷ codes "-o" ∷ codes "name,bootfs,guid" ∷ [])
    listed ← lift (parsed_pools pools_text)
    pools ← (if is_empty listed then pure listed else annotated_pools r listed)
    let root_pools = filter is_root_pool pools
    records ← be_records root_pools
    pure (assemble root_pools records)
