-- ===== src/Cli/Rollback.antt =====
-- cli/src/cmd/rollback.rs: `zboot rollback` runs `zboot fork` and then `zboot default` as commands of
-- their own. `Spawner` is the trait of that name, with the output that the verb writes; both and the
-- clock are parameters.
pub mod Run
use zboot.Base.{
  ℕ, zero, Bool, true, false, ◌||◌, Option, none, some, List, [], ◌∷◌, ◌++◌, Str, ◌==◌, nat_eq,
  is_empty, is_some, Result, ok, err, unwrap_or, if◌then◌else◌,
}
use zboot.Text.{codes, contains_char, trim}
use zboot.Core.Types.{parse_snapshot_ref}
use zboot.Cli.Io.{
  Io, Error, bad_name, bad_snapshot, sub_verb, ◌>>=◌, ◌>>◌, pure, raise, lift, guard, done,
}
use zboot.Cli.Civil.{default_rollback_name}

pub record SubResult : Type 0 where
  pub rc : ℕ
  pub stdout : Str
  pub stderr : Str

pub record Spawner (S : Type 0) : Type 0 where
  pub run : List Str → Io S SubResult
  -- The warning, for the name and the code that it quotes.
  pub warn : Str → ℕ → S → S
  -- The output of the verb, which may fail, and the error output, whose failures are ignored.
  pub write : Str → Io S (Unit {0})
  pub write_stderr : Str → S → S

pub record RollbackArgs : Type 0 where
  pub to : Str
  pub name : Option Str

unfoldable pub validate_be_name : Str → Result Error (Unit {0})
unfolding contains_char
validate_be_name name =
    if is_empty name
    then err (bad_name name)
    else if contains_char b'/' name || contains_char b'@' name
    then err (bad_name name)
    else ok tt

abbrev pub fork_argv : Str → Str → List Str
fork_argv be_name to = codes "fork" ∷ be_name ∷ codes "--from" ∷ to ∷ []

abbrev pub default_argv : Str → List Str
default_argv be_name = codes "default" ∷ be_name ∷ []

module _ {S : Type 0} (sp : Spawner S) where
  unfoldable pub forward_stderr : Str → Io S (Unit {0})
  forward_stderr text s = (ok tt, if is_empty text then s else sp.write_stderr text s)

  -- The new boot environment stays, and does not boot next.
  abbrev pub give_up : ℕ → Str → Io S (Unit {0})
  give_up rc be_name s = (err (sub_verb (default_argv be_name) rc), sp.warn be_name rc s)

  unfoldable pub fork_first : Str → Str → Io S (Unit {0})
  unfolding forward_stderr
  fork_first be_name to = do
    sp.write (codes "rollback: forking " ++ (be_name ++ (codes " from " ++ to)))
    fork_res ← sp.run (fork_argv be_name to)
    sp.write fork_res.stdout
    forward_stderr fork_res.stderr
    if fork_res.rc == 0 then done else raise (sub_verb (fork_argv be_name to) fork_res.rc)

  unfoldable pub switch_then : Str → Io S (Unit {0})
  unfolding forward_stderr
  switch_then be_name = do
    sp.write (codes "rollback: switching to " ++ be_name)
    switch_res ← sp.run (default_argv be_name)
    sp.write switch_res.stdout
    forward_stderr switch_res.stderr
    if switch_res.rc == 0 then done else give_up switch_res.rc be_name
    sp.write (codes "rollback: complete — " ++ (be_name ++ codes " is now active"))

  -- `run_with_spawner` with the time that the clock shows.
  unfoldable pub run_with_spawner : RollbackArgs → ℕ → Io S (Unit {0})
  unfolding fork_first switch_then
  run_with_spawner args unix_secs = do
    guard (is_some (parse_snapshot_ref args.to)) (bad_snapshot args.to)
    let be_name = unwrap_or args.name (default_rollback_name unix_secs)
    lift (validate_be_name be_name)
    fork_first be_name args.to
    switch_then be_name
