-- ===== src/Cli/ZfsOps.antt =====
-- cli/src/zfs_ops.rs: questions about datasets and pools, and the standard changes.
pub mod Snapshots
pub mod Store
pub mod Wire
use zboot.Base.{
  Bool, true, false, not, ◌&&◌, ◌||◌, Option, none, some, List, [], ◌∷◌, ◌++◌, Str, ◌==◌, nat_eq,
  str_eq, is_empty, option_beq, if◌then◌else◌,
}
use zboot.Text.{codes, trim, lines, split}
use zboot.Core.Replication.{PairPointer, parse_dataset, render_pointer}
use zboot.Cli.Io.{
  Io, exited, not_set, not_root_pool, no_active_pool, ◌>>=◌, ◌>>◌, pure, raise, done, attempt,
}
use zboot.Cli.Sub
use zboot.Cli.Sub.{Runner}

-- `cols.next().unwrap_or(d)`, once and twice.
abbrev pub first_or : Str → List Str → Str
first_or d [] = d
first_or d (a ∷ _) = a

abbrev pub second_or : Str → List Str → Str
second_or d (_ ∷ b ∷ _) = b
second_or d _ = d

-- `unwrap_or(false)`.
abbrev pub or_false : Option Bool → Bool
or_false none = false
or_false (some b) = b

module _ {S : Type 0} (r : Runner S) where
  unfoldable pub dataset_exists : Str → Io S Bool
  dataset_exists ds = do
    out ← r.run (codes "zfs") (codes "list" ∷ codes "-H" ∷ codes "-o" ∷ codes "name" ∷ ds ∷ [])
    pure (out.rc == 0)

  -- The value of one property, trimmed.
  unfoldable pub dataset_property : Str → Str → Io S Str
  dataset_property ds prop = do
    let args = codes "get" ∷ codes "-Hp" ∷ codes "-o" ∷ codes "value" ∷ prop ∷ ds ∷ []
    out ← r.run (codes "zfs") args
    if out.rc == 0 then pure (trim out.stdout) else raise (exited (codes "zfs") args out.rc)

  unfoldable pub pool_property : Str → Str → Io S Str
  pool_property pool prop = do
    let args = codes "get" ∷ codes "-H" ∷ codes "-o" ∷ codes "value" ∷ prop ∷ pool ∷ []
    out ← r.run (codes "zpool") args
    if out.rc == 0 then pure (trim out.stdout) else raise (exited (codes "zpool") args out.rc)

  unfoldable pub pool_bootfs : Str → Io S (Option Str)
  pool_bootfs pool = do
    val ← pool_property pool (codes "bootfs")
    pure (if val == codes "-" || is_empty val then none else some val)

  -- The loop over the lines of `zpool list`: the first pool that boots something.
  unfoldable pub active_pool_in : List Str → Io S Str
  active_pool_in [] = raise no_active_pool
  active_pool_in (l ∷ ls) =
      let bootfs = second_or (codes "-") (split b'\t' l) in
      if not (bootfs == codes "-") && not (is_empty bootfs)
      then pure (first_or [] (split b'\t' l))
      else active_pool_in ls

  unfoldable pub discover_active_pool : Io S Str
  discover_active_pool = do
    text ←
        Sub.capture r (codes "zpool")
          (codes "list" ∷ codes "-Hp" ∷ codes "-o" ∷ codes "name,bootfs" ∷ [])
    active_pool_in (lines text)

  -- A property that cannot be read counts as not mounted.
  unfoldable pub is_mounted : Str → Io S Bool
  is_mounted dataset = do
    val ← attempt (dataset_property dataset (codes "mounted"))
    pure (option_beq val (some (codes "yes")))

  unfoldable pub dataset_is_clone : Str → Io S Bool
  dataset_is_clone ds = do
    origin ← dataset_property ds (codes "origin")
    pure (not (is_empty origin) && not (origin == codes "-"))

  unfoldable pub require_role_root : Str → Io S (Unit {0})
  require_role_root pool = do
    role ← pool_property pool (codes "zboot:role")
    if role == codes "root" then done else raise (not_root_pool pool)

  -- The result of `zfs set` is ignored; the value is read back and has to be the one that was set.
  unfoldable pub set_property_tolerant : Str → Str → Str → Io S (Unit {0})
  set_property_tolerant ds prop value = do
    attempt (r.run (codes "zfs") (codes "set" ∷ codes "-u" ∷ (prop ++ b'=' ∷ value) ∷ ds ∷ []))
    actual ← dataset_property ds prop
    if actual == value then done else raise (not_set ds prop actual)

  unfoldable pub set_readonly_tolerant : Str → Str → Io S (Unit {0})
  set_readonly_tolerant ds value = set_property_tolerant ds (codes "readonly") value

  -- A failure to look counts as a dataset that is not there.
  unfoldable pub ensure_root_container : Str → Io S (Unit {0})
  ensure_root_container pool = do
    found ← attempt (dataset_exists (pool ++ codes "/ROOT"))
    if or_false found
        then done
        else Sub.run r (codes "zfs") (
            codes "create"
            ∷ codes "-o"
            ∷ codes "canmount=off"
            ∷ codes "-o"
            ∷ codes "mountpoint=none"
            ∷ (pool ++ codes "/ROOT")
            ∷ [])

  -- The result of `zfs inherit` is ignored.
  unfoldable pub inherit_property_tolerant : Str → Str → Io S (Unit {0})
  inherit_property_tolerant ds prop = do
    attempt (r.run (codes "zfs") (codes "inherit" ∷ prop ∷ ds ∷ []))
    done

  unfoldable pub read_pair_pointer : Str → Io S (Option PairPointer)
  read_pair_pointer ds = do
    val ← dataset_property ds (codes "zboot:mirror")
    pure (parse_dataset val)

  unfoldable pub write_pair_pointer : Str → PairPointer → Io S (Unit {0})
  write_pair_pointer ds peer = set_property_tolerant ds (codes "zboot:mirror") (render_pointer peer)

  unfoldable pub clear_pair_pointer : Str → Io S (Unit {0})
  clear_pair_pointer ds = inherit_property_tolerant ds (codes "zboot:mirror")
