-- ===== src/Cli/Default/Switch.antt =====
-- Whatever happens, `zboot default` clears the losers before it sets the winner, and if it succeeds the
-- winner is the only one of the pools that zboot boots from which boots anything.
use zboot.Base.{
  ◌≡◌, refl, ap, subst, sym, ◌∙◌, ◌⊎◌, inl, inr, Bool, true, false, Option, none, some, List, Str,
  ◌==◌, str_eq, str_beq_iff, option_beq, find, find_sound, find-In, ok, ok_or, All, All-imp, All-at,
  beq_refl, arith, if◌then◌else◌,
}
use zboot.Text.{codes}
use zboot.Cli.Io.{Io, done, not_found}
use zboot.Cli.Sub.{Runner}
use zboot.Cli.After.{After, After-continue, After-imp, After-lift, After-Keeps, Keeps}
use zboot.Cli.Default.Discover.{PoolInfo, BeInfo, list_bound_datasets}
use zboot.Cli.Default.{
  zpool_set, clear_losers, ex_active_bes, demote_all, set_winner, toggle_all, switch,
}
use zboot.Cli.Default.Quiet.{IsPools, Keeps-demote_all, Keeps-toggle_all, Keeps-list_bound_datasets}
use zboot.Cli.Default.Active.{
  Cleared, Fewer, Fewer-same, Fewer-trans, zpool_set-After, clear_losers-After,
}
use zboot.Cli.Default.Lookup.{Proper}

-- The target's pool boots the target, the other pools of the list boot nothing, and any other pool boots
-- what it did or nothing.
pub record Sole (pools : List PoolInfo) (target : BeInfo) (f g : Str → Option Str) : Type 0 where
  pub winner : g target.pool ≡ some target.dataset
  pub losers : Cleared target.pool pools g
  pub others : (q : Str) → (q == target.pool) ≡ false → (g q ≡ f q) ⊎ (g q ≡ none)

-- How far the verb has come: nothing is written; losers are being cleared, and the winner is not set; or
-- the winner is set, and all the losers among the pools that were listed are cleared.
pub data Stage (Listed : List PoolInfo → Type 0) (f g : Str → Option Str) : Type 0 where
  untouched : g ≡ f → Stage Listed f g
  clearing : (target : BeInfo) → Fewer target.pool f g → Stage Listed f g
  switched :
      (pools : List PoolInfo) (target : BeInfo)
      → Listed pools
      → Sole pools target f g
      → Stage Listed f g

put-Sole :
    (pools : List PoolInfo) (target : BeInfo) (f g h : Str → Option Str)
    → Fewer target.pool f g
    → Cleared target.pool pools g
    → h target.pool ≡ some target.dataset
    → ((q : Str) → (q == target.pool) ≡ false → h q ≡ g q)
    → Sole pools target f h
put-Sole pools target f g h less cleared won same = record {
  winner = won;
  losers = All-imp (λ p gone n. same p.name n ∙ gone n) pools cleared;
  others = λ q n. at q n (less q);
}
  where
    at :
        (q : Str)
        → (q == target.pool) ≡ false
        → (g q ≡ f q) ⊎ (((q == target.pool) ≡ false) × (g q ≡ none))
        → (h q ≡ f q) ⊎ (h q ≡ none)
    at q n (inl e) = inl (same q n ∙ e)
    at q n (inr (_, e)) = inr (same q n ∙ e)

-- The entry of the target is untouched while losers are cleared.
Fewer-target : (target : Str) (f g : Str → Option Str) → Fewer target f g → g target ≡ f target
Fewer-target target f g less = at (less target)
  where
    at :
        (g target ≡ f target) ⊎ (((target == target) ≡ false) × (g target ≡ none))
        → g target ≡ f target
    at (inl e) = e
    at (inr (n, e)) = absurd (ground (arith, n, beq_refl target))

module _ {S : Type 0} (r : Runner S) (z : IsPools r) where
  open z use {bootfs}

  set_winner-After :
      (f : Str → Option Str) (pools : List PoolInfo) (target : BeInfo) (p : PoolInfo) (s : S)
      → Proper target.dataset
      → p.bootfs ≡ f target.pool
      → Fewer target.pool f (bootfs s)
      → Cleared target.pool pools (bootfs s)
      → After
          (set_winner r target p s)
          (λ _ t. Sole pools target f (bootfs t))
          (λ t. Fewer target.pool f (bootfs t))
  unfolding set_winner
  set_winner-After f pools target p s named shown less cleared = at p.bootfs shown
    where
      write :
          After
            (zpool_set r target.pool (codes "bootfs") target.dataset s)
            (λ _ t. Sole pools target f (bootfs t))
            (λ t. Fewer target.pool f (bootfs t))
      write =
          After-imp _ (zpool_set-After r z target.pool target.dataset s)
            (λ _ t e.
              put-Sole pools target f (bootfs s) (bootfs t) less cleared
                (ap (λ h. h target.pool) e ∙ rw (beq_refl target.pool) named)
                (λ q n. ap (λ h. h q) e ∙ rw n refl))
            (λ t e.
              Fewer-trans target.pool f (bootfs s) (bootfs t) less (Fewer-same target.pool _ _ e))

      already :
          (b : Str)
          → some b ≡ f target.pool
          → (c : Bool) → (b == target.dataset) ≡ c
          → After
              ((if c then done else zpool_set r target.pool (codes "bootfs") target.dataset) s)
              (λ _ t. Sole pools target f (bootfs t))
              (λ t. Fewer target.pool f (bootfs t))
      already b shown true e = record {
        holds =
            put-Sole pools target f (bootfs s) (bootfs s) less cleared
              (Fewer-target target.pool f (bootfs s) less
                ∙ sym shown
                ∙ ap some ((str_beq_iff b target.dataset).0 e))
              (λ q n. refl);
      }
      already b shown false e = write

      at :
          (o : Option Str)
          → o ≡ f target.pool
          → After
              ((if option_beq o (some target.dataset)
                  then done
                  else zpool_set r target.pool (codes "bootfs") target.dataset)
                s)
              (λ _ t. Sole pools target f (bootfs t))
              (λ t. Fewer target.pool f (bootfs t))
      at none shown = write
      at (some b) shown = already b shown _ refl

  module _ (read_mounts : Io S Str) (quiet : Keeps bootfs read_mounts) where
    -- Behind the winner nothing is written any more.
    Sole-kept :
        {A : Type 0} {f : Str → Option Str} {pools : List PoolInfo} {target : BeInfo} (m : Io S A)
        (s : S)
        → Keeps bootfs m
        → Sole pools target f (bootfs s)
        → After (m s) (λ _ t. Sole pools target f (bootfs t)) (λ t. Sole pools target f (bootfs t))
    Sole-kept {f} {pools} {target} m s k h =
        After-imp _ (After-Keeps bootfs m s k) (λ _ t e. subst (Sole pools target f) (sym e) h)
          (λ t e. subst (Sole pools target f) (sym e) h)

    pub switch-After :
        (Listed : List PoolInfo → Type 0) (f : Str → Option Str) (pools : List PoolInfo)
        (target : BeInfo) (s : S)
        → Listed pools
        → bootfs s ≡ f
        → All (λ p. p.bootfs ≡ f p.name) pools
        → Proper target.dataset
        → After
            (switch r read_mounts pools target s)
            (λ _ t. Sole pools target f (bootfs t))
            (λ t. Stage Listed f (bootfs t))
    unfolding switch
    switch-After Listed f pools target s from_list start shown named =
        After-continue _ (λ p t. (t ≡ s) × (p.bootfs ≡ f target.pool))
          (After-lift _ s (λ p e. (refl, in_list p e)) (untouched start))
          λ p t (here, lists).
            After-continue (clear_losers r target.pool pools t)
              (λ _ u. Fewer target.pool f (bootfs u) × Cleared target.pool pools (bootfs u))
              (After-imp _
                (clear_losers-After r z target.pool pools t (
                  All-imp (λ q e n. ap (λ h. h q.name) (ap bootfs here ∙ start) ∙ sym e ∙ n) pools
                    shown))
                (λ _ u (less, gone). (from less here, gone))
                (λ u less. Stage.clearing target (from less here)))
              λ _ u (less, gone).
                After-continue (demote_all r read_mounts (ex_active_bes target.dataset pools) u)
                  (λ _ v. Fewer target.pool f (bootfs v) × Cleared target.pool pools (bootfs v))
                  (After-imp _
                    (After-Keeps bootfs
                      (demote_all r read_mounts (ex_active_bes target.dataset pools)) u
                      (Keeps-demote_all r z read_mounts quiet (ex_active_bes target.dataset pools)))
                    (λ _ v e. (
                      subst (Fewer target.pool f) (sym e) less,
                      subst (Cleared target.pool pools) (sym e) gone,
                    ))
                    (λ v e. Stage.clearing target (subst (Fewer target.pool f) (sym e) less)))
                  λ _ v (less', gone').
                    After-continue (set_winner r target p v) (λ _ w. Sole pools target f (bootfs w))
                      (After-imp _ (set_winner-After f pools target p v named lists less' gone')
                        (λ _ w sole. sole) (λ w less''. Stage.clearing target less''))
                      λ _ w sole.
                        After-continue (list_bound_datasets r pools w)
                          (λ _ x. Sole pools target f (bootfs x))
                          (After-imp _
                            (Sole-kept (list_bound_datasets r pools) w
                              (Keeps-list_bound_datasets r z pools) sole)
                            (λ _ x h. h) (λ x h. Stage.switched pools target from_list h))
                          λ bound x sole'.
                            After-imp _
                              (Sole-kept (toggle_all r _ bound) x (Keeps-toggle_all r z _ bound)
                                sole')
                              (λ _ y h. h) (λ y h. Stage.switched pools target from_list h)
      where
        in_list :
            (p : PoolInfo)
            → ok_or (find (λ p. p.name == target.pool) pools) (not_found target.pool) ≡ ok p
            → p.bootfs ≡ f target.pool
        in_list p e =
            let there : find (λ p. p.name == target.pool) pools ≡ some p = ground (arith, e) in
            All-at (λ p. p.bootfs ≡ f p.name) (find-In _ pools there) shown
            ∙ ap f ((str_beq_iff p.name target.pool).0 (find_sound _ pools there))

        from :
            {t u : S}
            → Fewer target.pool (bootfs t) (bootfs u)
            → t ≡ s
            → Fewer target.pool f (bootfs u)
        from {t} {u} less here =
            Fewer-trans target.pool f (bootfs t) (bootfs u)
              (Fewer-same target.pool f (bootfs t) (ap bootfs here ∙ start)) less
