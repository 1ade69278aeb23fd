-- ===== src/Cli/Rollback/Run.antt =====
-- What `zboot rollback` does in order, and that a name by default is a valid one.
use zboot.Base.{ℕ, ◌≡◌, refl, true, List, Str, nat_eq, is_some, ok, unwrap_or, arith}
use zboot.Text.{contains_char}
use zboot.Core.Types.{parse_snapshot_ref}
use zboot.Cli.Io.{Io}
use zboot.Cli.Civil.{default_rollback_name, civil_from_unix}
use zboot.Cli.Civil.Digits.{stamp-Lacks}
use zboot.Cli.Rollback.{Spawner, SubResult, RollbackArgs, validate_be_name, fork_argv, default_argv}

abbrev pub chosen_name : RollbackArgs → ℕ → Str
chosen_name args unix_secs = unwrap_or args.name (default_rollback_name unix_secs)

module _ {S V : Type 0} (sp : Spawner S) (view : S → V) where
  -- Output does not change what is looked at.
  pub record IsView : Type 0 where
    pub writes : (x : Str) (s : S) → view (sp.write x s).1 ≡ view s
    pub warns : (x : Str) (n : ℕ) (s : S) → view (sp.warn x n s) ≡ view s
    pub errors : (x : Str) (s : S) → view (sp.write_stderr x s) ≡ view s

  -- The verb ran once, ended with code 0, and is all that the view has seen between two states.
  pub record Ran (argv : List Str) (s t : S) : Type 0 where
    pub before : S
    pub after : S
    pub result : SubResult
    pub ran : sp.run argv before ≡ (ok result, after)
    pub zero_rc : result.rc ≡ 0
    pub from_start : view before ≡ view s
    pub to_end : view t ≡ view after

  module _ (w : IsView) where
    -- What a rollback that succeeds has done.
    pub record Rolled (args : RollbackArgs) (be_name : Str) (s t : S) : Type 0 where
      pub snapshot : is_some (parse_snapshot_ref args.to) ≡ true
      pub valid : validate_be_name be_name ≡ ok tt
      pub middle : S
      pub forked : Ran (fork_argv be_name args.to) s middle
      pub switched : Ran (default_argv be_name) middle t

-- The name by default passes the check on names at every time.
pub validate_be_name-default_rollback_name :
    (unix_secs : ℕ) → validate_be_name (default_rollback_name unix_secs) ≡ ok tt
unfolding validate_be_name default_rollback_name contains_char
validate_be_name-default_rollback_name unix_secs =
    let t = civil_from_unix unix_secs in
    rw
      (
        stamp-Lacks b'/' (λ d h e. omega (arith, e)) t refl refl,
        stamp-Lacks b'@' (λ d h e. omega (arith, e, h)) t refl refl,
      )
      refl
