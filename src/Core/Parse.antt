-- ===== src/Core/Parse.antt =====
-- core/src/parse.rs: the readers of the tab-separated output of `zfs` and `zpool`.
pub mod Values
pub mod Tables
use zboot.Base.{
  ℕ, zero, ◌+◌, ◌-◌, ◌*◌, ◌^◌, Bool, true, false, ◌||◌, ◌&&◌, Option, none, some, List, [], ◌∷◌,
  Str, ◌==◌, str_eq, nat_eq, ltb, leb, is_empty, Result, ok, err, and_then, ok_or, if◌then◌else◌,
}
use zboot.Text.{codes, lines, trim, trim_end_matches, split, splitn}
use zboot.Core.Types.{
  ParseError, PoolRole, root, Pool, Snapshot, new_snapshot, SnapshotRef, parse_snapshot_ref,
  Canmount, Mountpoint, parse_bound_list,
}
use zboot.Core.Types.Property.{
  Property, bootfs, cachefile, mountpoint, canmount, origin, zboot_role, zboot_be,
  zboot_attached_to, zboot_set, zboot_created_by, other,
}

unfoldable pub parse_optional_string : Str → Option Str
parse_optional_string s =
    if s == codes "-"
    then none
    else if is_empty s
    then none
    else if s == codes "none"
    then none
    else some s

unfoldable pub parse_optional_snapshot_ref : Str → Result ParseError (Option SnapshotRef)
unfolding parse_snapshot_ref
parse_optional_snapshot_ref s =
    if s == codes "-"
    then ok none
    else if is_empty s
    then ok none
    else and_then (ok_or (parse_snapshot_ref s) (ParseError.snapshot_ref s)) λ r. ok (some r)

unfoldable pub parse_mountpoint : Str → Mountpoint
parse_mountpoint s =
    if s == codes "none"
    then Mountpoint.none'
    else if s == codes "legacy"
    then Mountpoint.legacy
    else Mountpoint.path s

unfoldable pub parse_canmount : Str → Result ParseError Canmount
parse_canmount s =
    if s == codes "on"
    then ok Canmount.on
    else if s == codes "off"
    then ok Canmount.off
    else if s == codes "noauto"
    then ok Canmount.noauto
    else err (ParseError.value (codes "canmount") s)

unfoldable pub parse_pool_role : Str → Result ParseError PoolRole
parse_pool_role s =
    if s == codes "root" then ok root else err (ParseError.value (codes "zboot:role") s)

unfoldable pub parse_bool : Str → Result ParseError Bool
parse_bool s =
    if s == codes "true" || s == codes "on" || s == codes "yes"
    then ok true
    else if s == codes "false"
        || s == codes "off"
        || s == codes "no"
        || s == codes "-"
        || is_empty s
    then ok false
    else err (ParseError.value (codes "zboot:be") s)

-- The arms of the `match` in order.
unfoldable pub parse_property : Str → Str → Result ParseError Property
parse_property name value =
    if name == codes "bootfs"
    then ok (bootfs (parse_optional_string value))
    else if name == codes "mountpoint"
    then ok (mountpoint (parse_mountpoint value))
    else if name == codes "canmount" && value == codes "-"
    then ok (other name value)
    else if name == codes "canmount"
    then and_then (parse_canmount value) (λ c. ok (canmount c))
    else if name == codes "origin"
    then and_then (parse_optional_snapshot_ref value) (λ o. ok (origin o))
    else if name == codes "cachefile"
    then ok (cachefile (parse_optional_string value))
    else if name == codes "zboot:role"
    then and_then (parse_pool_role value) (λ r. ok (zboot_role r))
    else if name == codes "zboot:be"
    then and_then (parse_bool value) (λ b. ok (zboot_be b))
    else if name == codes "zboot:attached-to" && value == codes "-"
    then ok (other name value)
    else if name == codes "zboot:attached-to"
    then and_then (parse_bound_list value) (λ l. ok (zboot_attached_to l))
    else if name == codes "zboot:set"
    then ok (zboot_set value)
    else if name == codes "zboot:created-by"
    then ok (zboot_created_by value)
    else ok (other name value)

-- One line of `parse_zfs_get`: its columns, which `splitn(3, '\t')` gives.
unfoldable pub zfs_get_columns : Str → List Str → Result ParseError (Str × Property)
zfs_get_columns l (name ∷ prop_name ∷ value ∷ _) =
    and_then (parse_property prop_name (trim_end_matches (λ c. c == b'\r') value)) λ p. ok (name, p)
zfs_get_columns l _ = err (ParseError.line l)

unfoldable pub zfs_get_lines : List Str → Result ParseError (List (Str × Property))
unfolding zfs_get_columns
zfs_get_lines [] = ok []
zfs_get_lines (l ∷ ls) =
    let rest = zfs_get_lines ls in
    if is_empty (trim l)
    then rest
    else and_then (zfs_get_columns l (splitn 3 b'\t' l))
        λ row. and_then rest λ rows. ok (row ∷ rows)

unfoldable pub parse_zfs_get : Str → Result ParseError (List (Str × Property))
unfolding zfs_get_lines
parse_zfs_get text = zfs_get_lines (lines text)

-- `str::parse::<u64>`: an optional `+`, then decimal digits, with no overflow.
digits_u64 : ℕ → Str → Option ℕ
digits_u64 n [] = some n
digits_u64 n (c ∷ s) =
    let d = c - b'0' in
    let rest = digits_u64 (n * 10 + d) s in
    if ltb c b'0' || ltb b'9' c then none else if ltb (2 ^ 64 - 1) (n * 10 + d) then none else rest

some_digits : Str → Option ℕ
some_digits [] = none
some_digits (c ∷ s) = digits_u64 0 (c ∷ s)

unfoldable pub parse_u64 : Str → Option ℕ
unfolding some_digits digits_u64
parse_u64 [] = none
parse_u64 (c ∷ s) = if c == b'+' then some_digits s else some_digits (c ∷ s)

-- `parts.get(1)` and `parts.get(2)` may be missing.
second_column : List Str → Option Str
unfolding parse_optional_string
second_column (_ ∷ v ∷ _) = parse_optional_string v
second_column _ = none

third_column : List Str → Option ℕ
unfolding parse_u64
third_column (_ ∷ _ ∷ v ∷ _) = parse_u64 v
third_column _ = none

zpool_columns : Str → List Str → Result ParseError Pool
unfolding second_column third_column
zpool_columns l [] = err (ParseError.line l)
zpool_columns l (name ∷ cols) =
    if is_empty name
    then err (ParseError.line l)
    else ok (record {
      name = name;
      role = none;
      bootfs = second_column (name ∷ cols);
      guid = third_column (name ∷ cols);
    })

unfoldable pub zpool_lines : List Str → Result ParseError (List Pool)
unfolding zpool_columns
zpool_lines [] = ok []
zpool_lines (l ∷ ls) =
    let rest = zpool_lines ls in
    if is_empty (trim l)
    then rest
    else and_then (zpool_columns l (split b'\t' l)) λ pool. and_then rest λ pools. ok (pool ∷ pools)

unfoldable pub parse_zpool_list : Str → Result ParseError (List Pool)
unfolding zpool_lines
parse_zpool_list text = zpool_lines (lines text)

unfoldable pub snapshot_lines : List Str → Result ParseError (List Snapshot)
snapshot_lines [] = ok []
snapshot_lines (l ∷ ls) =
    let rest = snapshot_lines ls in
    let full = trim l in
    if is_empty full
    then rest
    else and_then (ok_or (parse_snapshot_ref full) (ParseError.snapshot_ref full))
        λ r. and_then rest λ snaps. ok (new_snapshot r.dataset r.name ∷ snaps)

unfoldable pub parse_zfs_list_snapshots : Str → Result ParseError (List Snapshot)
unfolding snapshot_lines
parse_zfs_list_snapshots text = snapshot_lines (lines text)
