-- ===== src/Tests/Names.antt =====
-- Names by default, `zboot rollback` and the observations of `zboot snapshot` on small inputs.
use zboot.Base.{
  ◌≡◌, refl, ◌/◌, leb, true, false, none, some, List, [], ◌∷◌, ◌++◌, Str, str_eq, ok, arith,
}
use zboot.Text.{codes}
use zboot.Core.Types.Property.{Property, zboot_be}
use zboot.Core.Types.Atomic.{str_leb}
use zboot.Cli.Civil.{civil_from_unix, default_snap_name, default_rollback_name}
use zboot.Cli.Civil.Date
use zboot.Cli.Civil.Date.{IsCivil, IsClock}
use zboot.Cli.Civil.Order
use zboot.Cli.Snapshot.{Observed, bes_from_props}
use zboot.Cli.Snapshot.Collect
use zboot.Cli.Snapshot.Collect.{marked_bes, Answer}
use zboot.Cli.Rollback.{Spawner, RollbackArgs, fork_argv, default_argv}
use zboot.Cli.Rollback.Run

epoch_name : default_snap_name 0 ≡ codes "snapshot-19700101T000000Z"
unfolding default_snap_name
epoch_name = refl

leap_name : default_rollback_name 951782400 ≡ codes "rollback-20000229T000000Z"
unfolding default_rollback_name
leap_name = refl

civil_from_unix_lem_example : IsCivil (951782400 / 86400) (civil_from_unix 951782400)
civil_from_unix_lem_example = Date.civil_from_unix_lem 951782400 (omega arith)

str_leb-default_snap_name_example :
    str_leb (default_snap_name 951782400) (default_snap_name 1700000000) ≡ leb 951782400 1700000000
str_leb-default_snap_name_example =
    Order.str_leb-default_snap_name 951782400 1700000000 (omega arith) (omega arith)

-- A spawner that keeps the verbs that it was asked for; all of them succeed.
abbrev recorder : Spawner (List (List Str))
recorder = record {
  run = λ argv log. (ok (record { rc = 0; stdout = []; stderr = [] }), log ++ argv ∷ []);
  warn = λ name rc log. log;
  write = λ text log. (ok tt, log);
  write_stderr = λ text log. log;
}

abbrev back_to : RollbackArgs
back_to = record { to = codes "p/ROOT/a@s"; name = some (codes "b") }

abbrev both_verbs : List (List Str)
both_verbs = fork_argv (codes "b") (codes "p/ROOT/a@s") ∷ default_argv (codes "b") ∷ []

abbrev two_datasets : List Str
two_datasets = codes "p/home" ∷ codes "p/ROOT/a" ∷ []

abbrev two_rows : List (Str × Property)
two_rows =
    (codes "p/home", zboot_be false)
    ∷ (codes "p/ROOT/a", zboot_be true)
    ∷ (codes "q/ROOT/a", zboot_be true)
    ∷ []

bes_from_props_lem_example : bes_from_props two_datasets two_rows ≡ marked_bes two_rows two_datasets
bes_from_props_lem_example = Collect.bes_from_props_lem two_datasets two_rows

abbrev seen : Observed
seen = record {
  pools =
      record { name = codes "p"; role = none; bootfs = some (codes "p/ROOT/a"); guid = none } ∷ [];
  bes = bes_from_props two_datasets two_rows;
}
