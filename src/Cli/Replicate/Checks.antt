-- ===== src/Cli/Replicate/Checks.antt =====
-- What the questions before a replication find out, where the commands read as documented, and that without
-- `--force` they ask for nothing and change nothing (cli/src/cmd/push.rs, cli/src/cmd/pull.rs).
use zboot.Base.{
  ◌≡◌, refl, ap, ◌∙◌, Bool, true, false, not, ◌&&◌, none, some, List, [], ◌∷◌, map, Str, ◌==◌,
  nat_eq, str_eq, str_beq, option_beq, is_empty, ok, err, arith, Bool-cases, inl, inr,
  if◌then◌else◌,
}
use zboot.Text.{codes, lines, split}
use zboot.Cli.Io.{Error, continue-ok, settle, guard, pure, attempt, diverged, rewinds, mounted_rw}
use zboot.Cli.After.{After, After-asks, After-imp, After-continue}
use zboot.Cli.Sub.{Runner, RunOutput}
use zboot.Cli.ZfsOps.{dataset_property, is_mounted}
use zboot.Cli.ZfsOps.Snapshots.{
  Named, named, snapshot_args, list_snapshots_with_guids, only_on_right, snapshots_after_bound_pure,
  snapshots_only_on_right, dest_snapshots_after_bound,
}
use zboot.Cli.ZfsOps.Store.{IsStore, dataset_exists-reads}
use zboot.Cli.ZfsOps.Wire.{Wire, at_snap, or_empty}
use zboot.Cli.Replicate.{
  exists_or_false, is_readonly, refuse_mounted_rw, settle_losses, settle_divergence, settle_rewind,
}

-- The rows of a listing of snapshots.
abbrev pub listed_rows : RunOutput → List Named
listed_rows out = if out.rc == 0 then map (λ l. named (split b'\t' l)) (lines out.stdout) else []

-- `zfs list -t snapshot` shows the snapshots of a dataset and changes nothing.
pub record IsListing {S : Type 0} (r : Runner S) : Type 0 where
  pub snaps : S → Str → List Named
  pub shows :
      (s : S) (ds : Str)
      → (out : RunOutput) × (r.run (codes "zfs") (snapshot_args ds) s ≡ (ok out, s))
        × (listed_rows out ≡ snaps s ds)

module _ {S : Type 0} (r : Runner S) (w : Wire S) (z : IsStore r) (l : IsListing r) where
  open z use {there, value}
  open l use {snaps}

  -- A property of a dataset that is there.
  abbrev pub has : S → Str → Str → Str → Bool
  has s ds prop v = there s ds && value s ds prop == v

  abbrev pub is_rw_mounted : S → Str → Bool
  is_rw_mounted s ds =
      has s ds (codes "mounted") (codes "yes") && not (has s ds (codes "readonly") (codes "on"))

  pub listing-reads : (ds : Str) (s : S) → list_snapshots_with_guids r ds s ≡ (ok (snaps s ds), s)
  unfolding list_snapshots_with_guids
  listing-reads ds s =
      let (out, did, rows) = l.shows s ds in continue-ok _ did ∙ ap (λ x. (ok x, s)) rows

  pub extras-reads :
      (src dest : Str) (s : S)
      → snapshots_only_on_right r src dest s ≡ (ok (only_on_right (snaps s src) (snaps s dest)), s)
  unfolding snapshots_only_on_right
  extras-reads src dest s =
      continue-ok _ (listing-reads src s) ∙ continue-ok _ (listing-reads dest s)

  pub after_bound-reads :
      (src dest snap : Str) (s : S)
      → dest_snapshots_after_bound r src dest snap s
        ≡ (ok (snapshots_after_bound_pure (snaps s src) (snaps s dest) (at_snap src snap)), s)
  unfolding dest_snapshots_after_bound
  after_bound-reads src dest snap s =
      continue-ok _ (listing-reads src s) ∙ continue-ok _ (listing-reads dest s)

  pub exists-reads : (ds : Str) (s : S) → exists_or_false r w ds s ≡ (ok (there s ds), s)
  exists-reads ds s = continue-ok _ (ap settle (dataset_exists-reads r z ds s))

  -- What an attempt to read a property gives.
  property-settled :
      (ds prop : Str) (s : S)
      → attempt (dataset_property r ds prop) s
        ≡ (ok (if there s ds then some (value s ds prop) else none), s)
  unfolding dataset_property
  property-settled ds prop s =
      let (out, did, rc, shows) = z.gets s ds prop in
      elim (Bool-cases (there s ds)) [
        | inl e ↦ ap settle (continue-ok _ did) ∙ (rw (rc, e, shows e) refl)
        | inr e ↦ ap settle (continue-ok _ did) ∙ (rw (rc, e) refl)
      ]

  ask_some :
      (a : Bool) (v x : Str) → option_beq (if a then some v else none) (some x) ≡ (a && v == x)
  ask_some true v x = refl
  ask_some false v x = refl

  ask_or_empty :
      (a : Bool) (v x : Str)
      → is_empty x ≡ false
      → (or_empty (if a then some v else none) == x) ≡ (a && v == x)
  ask_or_empty true v x n = refl
  ask_or_empty false v [] n = absurd (ground (arith, n))
  ask_or_empty false v (c ∷ x) n = unfold str_beq in refl

  pub mounted-reads :
      (ds : Str) (s : S) → is_mounted r ds s ≡ (ok (has s ds (codes "mounted") (codes "yes")), s)
  unfolding is_mounted
  mounted-reads ds s =
      continue-ok _ (property-settled ds (codes "mounted") s)
      ∙ ap (λ b. (ok b, s)) (ask_some (there s ds) _ (codes "yes"))

  pub readonly-reads :
      (ds : Str) (s : S) → is_readonly r w ds s ≡ (ok (has s ds (codes "readonly") (codes "on")), s)
  readonly-reads ds s =
      continue-ok _ (property-settled ds (codes "readonly") s)
      ∙ ap (λ b. (ok b, s)) (ask_or_empty (there s ds) _ (codes "on") refl)

  guard-After :
      (b : Bool) (e : Error) (s : S)
      → After (guard b e s) (λ _ t. (t ≡ s) × (b ≡ true)) (λ t. t ≡ s)
  guard-After true e s = record { holds = (refl, refl) }
  guard-After false e s = record { holds = refl }

  ro_if_mounted :
      (b : Bool) (ds : Str) (s : S)
      → (if b then is_readonly r w ds else pure true) s
        ≡ (ok (not (b && not (has s ds (codes "readonly") (codes "on")))), s)
  ro_if_mounted true ds s = readonly-reads ds s ∙ ap (λ b. (ok b, s)) (ground arith)
  ro_if_mounted false ds s = refl

  pub refuse_mounted_rw-reads :
      (ds : Str) (s : S)
      → refuse_mounted_rw r w ds s ≡ (if is_rw_mounted s ds then err (mounted_rw ds) else ok tt, s)
  unfolding refuse_mounted_rw
  refuse_mounted_rw-reads ds s =
      continue-ok _ (mounted-reads ds s)
      ∙ continue-ok _ (ro_if_mounted (has s ds (codes "mounted") (codes "yes")) ds s)
      ∙ at (is_rw_mounted s ds)
    where
      at :
          (b : Bool)
          → guard (not b) (mounted_rw ds) s ≡ (if b then err (mounted_rw ds) else ok tt, s)
      at true = refl
      at false = refl

  pub refuse_mounted_rw-After :
      (ds : Str) (s : S)
      → After
          (refuse_mounted_rw r w ds s)
          (λ _ t. (t ≡ s) × (is_rw_mounted s ds ≡ false))
          (λ t. t ≡ s)
  unfolding refuse_mounted_rw
  refuse_mounted_rw-After ds s = After-asks _ (mounted-reads ds s) (
      After-asks _ (ro_if_mounted (has s ds (codes "mounted") (codes "yes")) ds s) (
        After-imp _ (guard-After (not (is_rw_mounted s ds)) (mounted_rw ds) s)
          (λ _ t (e, n). (e, ground (arith, n))) (λ t e. e)))

  -- Without `--force` nothing may be lost.
  pub settle_losses-After :
      (ds : Str) (e : Error) (force : Bool) (lost : List Str) (s : S)
      → force ≡ false
      → After
          (settle_losses r w ds e force lost s)
          (λ _ t. (t ≡ s) × (is_empty lost ≡ true))
          (λ t. t ≡ s)
  settle_losses-After ds e force [] s h = record { holds = (refl, refl) }
  settle_losses-After ds e false (_ ∷ _) s h = record { holds = refl }
  settle_losses-After ds e true (_ ∷ _) s h = absurd (ground (arith, h))

  pub settle_divergence-After :
      (src dest : Str) (force : Bool) (s : S)
      → force ≡ false
      → After
          (settle_divergence r w src dest force s)
          (λ _ t. (t ≡ s) × (is_empty (only_on_right (snaps s src) (snaps s dest)) ≡ true))
          (λ t. t ≡ s)
  unfolding settle_divergence
  settle_divergence-After src dest force s h =
      After-asks _ (extras-reads src dest s) (settle_losses-After dest (diverged dest) force _ s h)

  pub settle_rewind-After :
      (src dest snap : Str) (force : Bool) (s : S)
      → force ≡ false
      → After
          (settle_rewind r w src dest force snap s)
          (λ o t.
            (t ≡ s)
            × (o ≡ none)
            × (is_empty (snapshots_after_bound_pure (snaps s src) (snaps s dest) (at_snap src snap))
                ≡ true))
          (λ t. t ≡ s)
  unfolding settle_rewind
  settle_rewind-After src dest snap force s h = After-asks _ (after_bound-reads src dest snap s) (
      After-continue (settle_losses r w dest (rewinds dest) force lost s) _
        (settle_losses-After dest (rewinds dest) force lost s h)
        λ _ t (e, n). record { holds = (e, rw (n) refl, n) })
    where
      lost : List Str
      lost = snapshots_after_bound_pure (snaps s src) (snaps s dest) (at_snap src snap)
