-- ===== src/Boot/Shell/Pools.antt =====
-- Pools of the boot shell (boot/src/shell.rs): a pool is imported for reading until a verb changes
-- something on it, which imports it for writing and notes that in `rw_pools`. The state is the system's
-- and that set. Of the verbs, `default` is here.
pub mod Writable
use zboot.Base.{
  ℕ, Bool, true, false, not, List, [], ◌∷◌, ◌++◌, Str, ◌==◌, str_eq, elem, filter, Option, none,
  some, ok, err, if◌then◌else◌,
}
use zboot.Text.{codes}
use zboot.Cli.Io.{Io, Error, ◌>>=◌, ◌>>◌, lift, done, raise, not_found, continue}
use zboot.Cli.Sub
use zboot.Cli.Sub.{Runner}
use zboot.Boot.Shell.{BootTarget, resolve_be}

abbrev pub Rw : Type 0 → Type 0
Rw S = S × List Str

module _ {S : Type 0} (r : Runner S) where
  abbrev pub on_sys : {A : Type 0} → Io S A → Io (Rw S) A
  on_sys m s = let out = m s.0 in (out.0, (out.1, s.1))

  unfoldable pub spawn : Str → List Str → Io (Rw S) (Unit {0})
  spawn prog args = on_sys (Sub.run r prog args)

  abbrev pub insert : Str → Io (Rw S) (Unit {0})
  insert pool s = (ok tt, (s.0, pool ∷ s.1))

  abbrev pub remove : Str → Io (Rw S) (Unit {0})
  remove pool s = (ok tt, (s.0, filter (λ q. not (q == pool)) s.1))

  abbrev pub export_args : Str → List Str
  export_args pool = codes "export" ∷ pool ∷ []

  abbrev pub rw_args : Str → List Str
  rw_args pool = codes "import" ∷ codes "-N" ∷ codes "-f" ∷ pool ∷ []

  abbrev pub ro_args : Str → List Str
  ro_args pool =
      codes "import" ∷ codes "-N" ∷ codes "-f" ∷ codes "-o" ∷ codes "readonly=on" ∷ pool ∷ []

  abbrev pub reimport_rw : Str → Io (Rw S) (Unit {0})
  reimport_rw pool = do
    spawn (codes "zpool") (export_args pool)
    spawn (codes "zpool") (rw_args pool)
    insert pool

  unfoldable pub ensure_pool_rw : Str → Io (Rw S) (Unit {0})
  unfolding spawn elem
  ensure_pool_rw pool s = (if elem pool s.1 then done else reimport_rw pool) s

  unfoldable pub downgrade_pool_readonly : Str → Io (Rw S) (Unit {0})
  unfolding spawn filter
  downgrade_pool_readonly pool = do
    spawn (codes "zpool") (export_args pool)
    spawn (codes "zpool") (ro_args pool)
    remove pool

  -- A missing argument names nothing.
  abbrev pub first_arg : List Str → Io (Rw S) Str
  first_arg [] = raise (not_found [])
  first_arg (arg ∷ args) = λ s. (ok arg, s)

  unfoldable pub verb_default : List Str → List BootTarget → Io (Rw S) (Unit {0})
  unfolding ensure_pool_rw spawn resolve_be
  verb_default args targets = do
    arg ← first_arg args
    target ← lift (resolve_be arg targets)
    ensure_pool_rw target.pool
    spawn (codes "zpool") (codes "set" ∷ (codes "bootfs=" ++ target.dataset) ∷ target.pool ∷ [])
