-- ===== src/Cli/Pools.antt =====
-- cli/src/pools.rs: which pools are imported, and importing those that zboot boots from. Commands are
-- run by the runner; printed lines are left out.
use zboot.Base.{
  Bool, true, false, not, ◌||◌, Option, none, some, List, [], ◌∷◌, Str, ◌==◌, nat_eq, str_eq, elem,
  option_beq, if◌then◌else◌,
}
use zboot.Text.{codes, lines, trim, trim_start_matches, is_whitespace, strip_prefix}
use zboot.Cli.Io.{Io, exited, ◌>>=◌, ◌>>◌, pure, raise, done, attempt}
use zboot.Cli.Sub
use zboot.Cli.Sub.{Runner, RunOutput}
use zboot.Cli.Drop.RealZfs.{dataset_names, bootfs_of}

abbrev pub import_rw_args : Str → List Str
import_rw_args pool = codes "import" ∷ codes "-N" ∷ codes "-f" ∷ pool ∷ []

abbrev pub import_ro_args : Str → List Str
import_ro_args pool =
    codes "import" ∷ codes "-N" ∷ codes "-f" ∷ codes "-o" ∷ codes "readonly=on" ∷ pool ∷ []

abbrev pub export_args : Str → List Str
export_args pool = codes "export" ∷ pool ∷ []

-- The name behind `pool: ` on a line of `zpool import`.
abbrev pub cons_name : Option Str → List Str → List Str
cons_name none names = names
cons_name (some name) names = name ∷ names

unfoldable pub importable_in : List Str → List Str
unfolding strip_prefix trim_start_matches is_whitespace
importable_in [] = []
importable_in (l ∷ ls) =
    cons_name (strip_prefix (codes "pool: ") (trim_start_matches is_whitespace l))
      (importable_in ls)

abbrev pub names_or_none : Option (List Str) → List Str
names_or_none none = []
names_or_none (some names) = names

-- What `zpool get` prints, if it can be asked and answers.
abbrev pub role_text : Option RunOutput → Option Str
role_text none = none
role_text (some out) = if out.rc == 0 then bootfs_of (trim out.stdout) else none

abbrev pub succeeded : Option RunOutput → Bool
succeeded none = false
succeeded (some out) = out.rc == 0

module _ {S : Type 0} (r : Runner S) where
  unfoldable pub pool_readonly : Str → Io S Bool
  pool_readonly pool = do
    let args = codes "get" ∷ codes "-Hp" ∷ codes "-o" ∷ codes "value" ∷ codes "readonly" ∷ pool ∷ []
    out ← r.run (codes "zpool") args
    if out.rc == 0
        then pure (trim out.stdout == codes "on")
        else raise (exited (codes "zpool") args out.rc)

  -- The return code is not looked at.
  unfoldable pub currently_imported : Io S (List Str)
  currently_imported = do
    out ← r.run (codes "zpool") (codes "list" ∷ codes "-H" ∷ codes "-o" ∷ codes "name" ∷ [])
    pure (dataset_names out.stdout)

  unfoldable pub is_pool_imported : Str → Io S Bool
  unfolding currently_imported elem
  is_pool_imported pool = do names ← currently_imported; pure (elem pool names)

  unfoldable pub ensure_pool_imported_rw : Str → Io S (Unit {0})
  unfolding is_pool_imported pool_readonly
  ensure_pool_imported_rw pool = do
    imported ← is_pool_imported pool
    ro ← (if imported then pool_readonly pool else pure false)
    if ro then Sub.run r (codes "zpool") (export_args pool) else done
    if ro || not imported then Sub.run r (codes "zpool") (import_rw_args pool) else done

  unfoldable pub importable_pools : Io S (List Str)
  unfolding importable_in
  importable_pools = do
    out ← r.run (codes "zpool") (codes "import" ∷ codes "-d" ∷ codes "/dev" ∷ [])
    pure (importable_in (lines out.stdout))

  unfoldable pub read_zboot_role : Str → Io S (Option Str)
  read_zboot_role pool = do
    out ← attempt (
        r.run (codes "zpool")
          (codes "get" ∷ codes "-Hp" ∷ codes "-o" ∷ codes "value" ∷ codes "zboot:role" ∷ pool ∷ []))
    pure (role_text out)

  unfoldable pub keep_if_root : Str → Io S Bool
  unfolding read_zboot_role
  keep_if_root pool = do
    role ← read_zboot_role pool
    if option_beq role (some (codes "root"))
        then pure true
        else attempt (r.run (codes "zpool") (export_args pool)) >> pure false

  -- A pool is imported to read its role; it stays only if it is `root`.
  unfoldable pub import_if_root : Str → Io S Bool
  unfolding keep_if_root
  import_if_root pool = do
    out ← attempt (r.run (codes "zpool") (import_ro_args pool))
    if succeeded out then keep_if_root pool else pure false

  -- The loop over the candidates, with the names that were seen.
  unfoldable pub import_roots : List Str → List Str → List Str → Io S (List Str)
  unfolding import_if_root elem
  import_roots already [] seen = pure []
  import_roots already (pool ∷ candidates) seen =
      if elem pool already || elem pool seen then import_roots already candidates seen else do
        root ← import_if_root pool
        newly ← import_roots already candidates (pool ∷ seen)
        pure (if root then pool ∷ newly else newly)

  unfoldable pub ensure_zboot_root_pools_imported : Io S (List Str)
  unfolding import_roots importable_pools currently_imported
  ensure_zboot_root_pools_imported = do
    already ← attempt currently_imported
    candidates ← attempt importable_pools
    import_roots (names_or_none already) (names_or_none candidates) []
