-- ===== src/Cli/Drop/Run.antt =====
-- `run_inner` of cli/src/cmd/drop.rs: the verb as a sequence of its steps. `Guards` has what it refuses
-- and what it has done when it succeeds.
pub mod Frame
pub mod Guards
use zboot.Base.{
  Bool, true, false, not, Option, none, some, List, [], ◌∷◌, ◌++◌, Str, ◌==◌, str_eq, option_beq,
  Result, ok, err, if◌then◌else◌,
}
use zboot.Text.{codes, lines, split}
use zboot.Core.Types.{BoundKey}
use zboot.Core.Replication.{parse_dataset, render_pointer}
use zboot.Cli.Io.{
  Io, Error, active, live_root, ◌>>=◌, ◌>>◌, continue, pure, lift, done, guard, attempt, settle,
}
use zboot.Cli.Sub
use zboot.Cli.Sub.{Runner}
use zboot.Cli.ZfsOps.{pool_property, clear_pair_pointer, first_or, second_or}
use zboot.Cli.Drop.{
  Zfs, TargetBe, Input, Line, promoted_line, destroyed_line, orphaned_line, cleared_line,
  dataset_leaf, is_live_root, confirm_with, locate_target_be, is_active, promote_dependent_clones,
  purge_be_from_bound_lists,
}

-- The system, and the lines that were printed.
pub record World (S : Type 0) : Type 0 where
  pub sys : S
  pub out : List Line

module _ {S : Type 0} where
  abbrev pub with_out : {A : Type 0} → List Line → Result Error A × S → Result Error A × World S
  with_out out (r, s) = (r, record { sys = s; out = out })

  abbrev pub on_sys : {A : Type 0} → Io S A → Io (World S) A
  on_sys m w = with_out w.out (m w.sys)

  abbrev pub say : Line → Io (World S) (Unit {0})
  say l w = (ok tt, record w { out = w.out ++ l ∷ [] })

  abbrev pub say_all : (Str → Line) → List Str → Io (World S) (Unit {0})
  say_all f [] w = (ok tt, w)
  say_all f (n ∷ ns) w = say_all f ns (record w { out = w.out ++ f n ∷ [] })

module _ {S : Type 0} (r : Runner S) where
  -- One line of `zfs get` for `zboot:mirror`.
  unfoldable pub clear_line : Str → Str → List Str → Io (World S) (Unit {0})
  clear_line target dropped cols =
      if second_or [] cols == target
      then (attempt (on_sys (clear_pair_pointer r (first_or [] cols)))
          >> say (cleared_line (first_or [] cols) dropped))
      else done

  unfoldable pub clear_lines : Str → Str → List Str → Io (World S) (Unit {0})
  clear_lines target dropped [] = done
  clear_lines target dropped (l ∷ ls) =
      clear_line target dropped (split b'\t' l) >> clear_lines target dropped ls

  -- One pool: pools without the role, and pools that cannot be read, are passed over.
  unfoldable pub clear_pool : Str → Str → Str → Io (World S) (Unit {0})
  clear_pool target dropped pool = do
    role ← attempt (on_sys (pool_property r pool (codes "zboot:role")))
    if option_beq role (some (codes "root"))
        then (do
          text ← attempt (
              on_sys (
                Sub.capture r (codes "zfs") (
                  codes "get"
                  ∷ codes "-Hp"
                  ∷ codes "-r"
                  ∷ codes "-t"
                  ∷ codes "filesystem"
                  ∷ codes "-o"
                  ∷ codes "name,value"
                  ∷ codes "zboot:mirror"
                  ∷ pool
                  ∷ [])))
          elim text [ none ↦ done | some t ↦ clear_lines target dropped (lines t) ])
        else done

  unfoldable pub clear_pools : Str → Str → List Str → Io (World S) (Unit {0})
  clear_pools target dropped [] = done
  clear_pools target dropped (pool ∷ pools) =
      clear_pool target dropped pool >> clear_pools target dropped pools

  unfoldable pub clear_incoming_mirror_pointers : Str → Io (World S) (Unit {0})
  clear_incoming_mirror_pointers dropped = elim (parse_dataset dropped) [
    | none ↦ done
    | some pointer ↦ do
      pools ← attempt (
          on_sys (
            Sub.capture r (codes "zpool")
              (codes "list" ∷ codes "-Hp" ∷ codes "-o" ∷ codes "name" ∷ [])))
      elim pools [ none ↦ done | some t ↦ clear_pools (render_pointer pointer) dropped (lines t) ]
  ]

-- `mounts` is the text of `/proc/self/mounts` in a state of the system.
module _ {S : Type 0} (zfs : Zfs S) (r : Runner S) (mounts : S → Option Str) where
  -- The steps before the first change: the target, the two refusals and the confirmation.
  unfoldable pub checked_target : Str → Input → Io (World S) TargetBe
  checked_target name input = do
    target ← on_sys (locate_target_be zfs name)
    is_bootfs ← on_sys (is_active zfs target.dataset)
    guard (not is_bootfs) (active target.dataset)
    live ← on_sys (λ s. (ok (is_live_root (mounts s) target.dataset), s))
    guard (not live) (live_root target.dataset)
    lift (confirm_with input target.dataset)
    pure target

  unfoldable pub drop_target : TargetBe → Io (World S) (Unit {0})
  drop_target target = do
    promoted ← on_sys (promote_dependent_clones zfs target.dataset)
    say_all promoted_line promoted
    on_sys (zfs.destroy target.dataset)
    say (destroyed_line target.dataset)
    attempt (clear_incoming_mirror_pointers r target.dataset)
    orphans ← on_sys (
        purge_be_from_bound_lists zfs
          (record { pool = target.pool; be = dataset_leaf target.dataset }))
    say_all orphaned_line orphans

  unfoldable pub run_inner : Str → Input → Io (World S) (Unit {0})
  run_inner name input = do target ← checked_target name input; drop_target target
