-- ===== src/Cli/Drop/Run/Guards.antt =====
-- What `zboot drop` refuses, and what a successful run has done (cli/src/cmd/drop.rs, `run_inner`).
use zboot.Base.{
  ◌≡◌, refl, ap, ◌∙◌, false, not, Option, some, List, Str, str_eq, option_beq, any, ok, err,
}
use zboot.Text.{trim}
use zboot.Cli.Io.{
  Io, Error, continue-err, Quiet, Quiet-continue, Quiet-guard, guard, lift, active, live_root,
}
use zboot.Cli.Sub.{Runner}
use zboot.Cli.Drop.{
  Zfs, DatasetRow, PoolRow, TargetBe, Input, pick_target, is_live_root, confirm_with,
  locate_target_be, is_active,
}
use zboot.Cli.Drop.Run.{World, on_sys, checked_target, drop_target, run_inner}

-- Listings change nothing, whether they succeed or fail.
pub record IsQuiet {S : Type 0} (zfs : Zfs S) : Type 0 where
  pub datasets : Quiet zfs.list_datasets
  pub pools : Quiet zfs.list_pools

module _ {S : Type 0} (zfs : Zfs S) (r : Runner S) (mounts : S → Option Str) (q : IsQuiet zfs) where
  on_sys-Quiet : {A : Type 0} (m : Io S A) → Quiet m → Quiet (on_sys m)
  on_sys-Quiet m h w = ap (λ s. record w { sys = s }) (h w.sys)

  locate-Quiet : (name : Str) → Quiet (locate_target_be zfs name)
  unfolding locate_target_be
  locate-Quiet name s = Quiet-continue (zfs.list_datasets s) _ (λ rows s. refl) ∙ q.datasets s

  is_active-Quiet : (dataset : Str) → Quiet (is_active zfs dataset)
  unfolding is_active
  is_active-Quiet dataset s = Quiet-continue (zfs.list_pools s) _ (λ pools s. refl) ∙ q.pools s

  checked_target-Quiet :
      (name : Str) (input : Input) → Quiet (checked_target zfs r mounts name input)
  unfolding checked_target
  checked_target-Quiet name input w =
      Quiet-continue (on_sys (locate_target_be zfs name) w) _ (λ t u.
        Quiet-continue (on_sys (is_active zfs t.dataset) u) _ (λ b v.
          Quiet-continue (guard (not b) (active t.dataset) v) _ (λ _ x.
            Quiet-continue
              (guard (not (is_live_root (mounts x.sys) t.dataset)) (live_root t.dataset) x) _
              (λ _ y. Quiet-continue (lift (confirm_with input t.dataset) y) _ (λ _ z. refl))
            ∙ Quiet-guard _ _ x)
          ∙ Quiet-guard _ _ v)
        ∙ on_sys-Quiet (is_active zfs t.dataset) (is_active-Quiet t.dataset) u)
      ∙ on_sys-Quiet (locate_target_be zfs name) (locate-Quiet name) w

  -- Where listings change nothing: when a check refuses the target, the run fails with that error,
  -- and neither the system nor the output has changed.
  pub run_inner_refused :
      (name : Str) (input : Input) (w : World S) (e : Error)
      → (checked_target zfs r mounts name input w).0 ≡ err e
      → run_inner zfs r mounts name input w ≡ (err e, w)
  unfolding run_inner
  run_inner_refused name input w e h =
      continue-err (drop_target zfs r mounts) (λ i. (h i, checked_target-Quiet name input w i))

-- What has been checked in a state before anything changes.
pub record Allowed {S : Type 0} (zfs : Zfs S) (mounts : S → Option Str) (name : Str) (input : Input)
    (s : S) (t : TargetBe) : Type 0 where
  pub rows : List DatasetRow
  pub rows_listed : zfs.list_datasets s ≡ (ok rows, s)
  pub picked : pick_target name rows ≡ ok t
  pub pools : List PoolRow
  pub pools_listed : zfs.list_pools s ≡ (ok pools, s)
  pub not_active : any (λ (p : PoolRow). option_beq p.bootfs (some t.dataset)) pools ≡ false
  pub not_live : is_live_root (mounts s) t.dataset ≡ false
  pub typed : Str
  pub typed_line : input ≡ Input.line typed
  pub typed_path : trim typed ≡ t.dataset
