-- ===== src/Cli/Default/Run.antt =====
-- `zboot default` as a whole: what holds when it succeeds, and wherever it ends.
use zboot.Base.{◌≡◌, refl, ap, subst, ◌∙◌, not, List, Str, str_eq, is_empty, ok, All}
use zboot.Cli.Io.{Io, guard, continue, ◌>>◌, lift, no_root_pool}
use zboot.Cli.Sub.{Runner}
use zboot.Cli.After.{
  After, After-continue, After-imp, After-eq, After-lift, After-Keeps, After-ok, Keeps, Keeps-guard,
}
use zboot.Cli.Default.Discover.{PoolInfo, BeInfo, resolve_target_be, list_root_pools, list_bes}
use zboot.Cli.Default.{look_at_pair, ready_target, switch, run_default}
use zboot.Cli.Default.Quiet.{IsPools, Keeps-look_at_pair, Keeps-ready_target}
use zboot.Cli.Default.Lookup.{Proper, resolve_target_be-All, list_root_pools-After, list_bes-After}
use zboot.Cli.Default.Switch.{Sole, Stage, switch-After}

module _ {S : Type 0} (r : Runner S) where
  -- The pools that the first listing shows.
  abbrev pub Listed : S → List PoolInfo → Type 0
  Listed s pools = (t : S) × (list_root_pools r s ≡ (ok pools, t))

  -- What the lookups before the switch have found.
  pub record Chosen (name : Str) (s : S) (pools : List PoolInfo) (target : BeInfo) : Type 0 where
    pub listing : S
    pub listed : list_root_pools r s ≡ (ok pools, listing)
    pub bes : List BeInfo
    pub found : S
    pub found_bes : list_bes r pools listing ≡ (ok bes, found)
    pub resolved : resolve_target_be bes name ≡ ok target

module _ {S : Type 0} (r : Runner S) (z : IsPools r) where
  open z use {bootfs}

  module _ (read_mounts : Io S Str) (quiet : Keeps bootfs read_mounts) where
    run_default-After :
        (name : Str) (s : S)
        → After
            (run_default r read_mounts name s)
            (λ _ t.
              (pools : List PoolInfo) × (target : BeInfo) × Chosen r name s pools target
              × Sole pools target (bootfs s) (bootfs t))
            (λ t. Stage (Listed r s) (bootfs s) (bootfs t))
    unfolding run_default
    run_default-After name s =
        After-continue (list_root_pools r s) _
          (After-imp _ (After-eq _ (list_root_pools-After r z s)) (λ _ t h. h)
            (λ t e. Stage.untouched e))
          λ pools t (listed, (same, shown)).
            After-continue (guard (not (is_empty pools)) no_root_pool t) (λ _ u. u ≡ t)
              (After-imp _
                (After-Keeps (λ x. x) (guard (not (is_empty pools)) no_root_pool) t
                  (Keeps-guard (λ x. x) _ no_root_pool))
                (λ _ u e. e) (λ u e. Stage.untouched (ap bootfs e ∙ same)))
              λ _ u here.
                After-continue (list_bes r pools u) _
                  (After-imp _ (After-eq _ (list_bes-After r z pools u)) (λ _ v h. h)
                    (λ v e. Stage.untouched (e ∙ ap bootfs here ∙ same)))
                  λ bes v (found, (same', named)).
                    After-continue (lift (resolve_target_be bes name) v)
                      (λ target w. (w ≡ v) × (resolve_target_be bes name ≡ ok target))
                      (After-lift _ v (λ target e. (refl, e))
                        (Stage.untouched (same' ∙ ap bootfs here ∙ same)))
                      λ target w (there, resolved).
                        After-imp _
                          (rest pools target w (t, listed)
                            (ap bootfs there ∙ same' ∙ ap bootfs here ∙ same) shown
                            (resolve_target_be-All (λ be. Proper be.dataset) bes name target named
                              resolved))
                          (λ _ x sole. (
                            pools,
                            target,
                            record {
                              listing = t;
                              listed = listed;
                              bes = bes;
                              found = v;
                              found_bes = subst (λ y. list_bes r pools y ≡ (ok bes, v)) here found;
                              resolved = resolved;
                            },
                            sole,
                          ))
                          (λ x st. st)
      where
        rest :
            (pools : List PoolInfo) (target : BeInfo) (w : S)
            → Listed r s pools
            → bootfs w ≡ bootfs s
            → All (λ p. p.bootfs ≡ bootfs s p.name) pools
            → Proper target.dataset
            → After
                (continue
                  (look_at_pair r target.dataset w)
                  (λ _. ready_target r target >> switch r read_mounts pools target))
                (λ _ t. Sole pools target (bootfs s) (bootfs t))
                (λ t. Stage (Listed r s) (bootfs s) (bootfs t))
        rest pools target w from_list same shown named =
            After-continue (look_at_pair r target.dataset w) (λ _ x. bootfs x ≡ bootfs s)
              (After-imp _
                (After-Keeps bootfs (look_at_pair r target.dataset) w
                  (Keeps-look_at_pair r z target.dataset))
                (λ _ x e. e ∙ same) (λ x e. Stage.untouched (e ∙ same)))
              λ _ x same'.
                After-continue (ready_target r target x) (λ _ y. bootfs y ≡ bootfs s)
                  (After-imp _
                    (After-Keeps bootfs (ready_target r target) x (Keeps-ready_target r z target))
                    (λ _ y e. e ∙ same') (λ y e. Stage.untouched (e ∙ same')))
                  λ _ y same''.
                    switch-After r z read_mounts quiet (Listed r s) (bootfs s) pools target y
                      from_list same'' shown named

    -- Where the commands work as documented and reading the mounts changes nothing: after a `zboot default`
    -- that succeeds, the pool of the boot environment that the name means boots it, the other pools that
    -- zboot boots from boot nothing, and any other pool boots what it did or nothing.
    pub run_default_done :
        (name : Str) (s t : S)
        → run_default r read_mounts name s ≡ (ok tt, t)
        → (pools : List PoolInfo) × (target : BeInfo) × Chosen r name s pools target
          × Sole pools target (bootfs s) (bootfs t)
    run_default_done name s t h = After-ok h (run_default-After name s)
