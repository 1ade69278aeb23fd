-- ===== src/Cli/Push/Refused.antt =====
-- What `zboot push` refuses without `--force` (cli/src/cmd/push.rs).
use zboot.Base.{
  ℕ, ◌≡◌, refl, sym, ap, Bool, true, false, Option, none, some, Str, str_eq, is_empty, Result, err,
  ok, arith, Bool-cases, inl, inr,
}
use zboot.Cli.Io.{Error, continue}
use zboot.Cli.After.{After, After-asks, After-imp, After-continue, After-still}
use zboot.Cli.Sub.{Runner}
use zboot.Cli.ZfsOps.Snapshots.{only_on_right, snapshots_after_bound_pure}
use zboot.Cli.ZfsOps.Store.{IsStore}
use zboot.Cli.ZfsOps.Wire.{Wire, at_snap}
use zboot.Cli.Replicate.{refuse_mounted_rw, settle_divergence, settle_bound}
use zboot.Cli.Replicate.Checks.{
  IsListing, is_rw_mounted, exists-reads, refuse_mounted_rw-After, settle_divergence-After,
  settle_rewind-After,
}
use zboot.Cli.Push.{Job, Checked, check_dest, push_checks, push_work, push_one}

module _ {S : Type 0} (r : Runner S) (w : Wire S) (z : IsStore r) (l : IsListing r) where
  open z use {there, value}
  open l use {snaps}

  -- What stands against a push: the destination is there and is mounted for writing, has a snapshot that
  -- the source lacks, or has one that the source took after the bound.
  pub data Blocked (s : S) (j : Job) : Type 0 where
    mounted : is_rw_mounted r w z l s j.dest ≡ true → Blocked s j
    divergent :
        there s j.dest ≡ true
        → is_empty (only_on_right (snaps s j.src) (snaps s j.dest)) ≡ false
        → Blocked s j
    behind :
        there s j.dest ≡ true
        → (snap : Str) → j.bounded_snap ≡ some snap
        → is_empty
            (snapshots_after_bound_pure (snaps s j.src) (snaps s j.dest) (at_snap j.src snap))
          ≡ false
        → Blocked s j

  -- What the checks of a push that is not forced have found.
  pub record Allowed (s : S) (j : Job) (c : Checked) : Type 0 where
    pub found : c.dest_exists ≡ there s j.dest
    pub forward : c.rewind_only ≡ none
    pub unmounted : is_rw_mounted r w z l s j.dest ≡ false
    pub no_extras :
        there s j.dest ≡ true → is_empty (only_on_right (snaps s j.src) (snaps s j.dest)) ≡ true
    pub not_behind :
        there s j.dest ≡ true
        → (snap : Str) → j.bounded_snap ≡ some snap
        → is_empty
            (snapshots_after_bound_pure (snaps s j.src) (snaps s j.dest) (at_snap j.src snap))
          ≡ true

  Allowed-Blocked : (s : S) (j : Job) (c : Checked) → Allowed s j c → Blocked s j → ⊥
  Allowed-Blocked s j c a (Blocked.mounted m) = absurd (ground (arith, a.unmounted, m))
  Allowed-Blocked s j c a (Blocked.divergent t d) = absurd (ground (arith, a.no_extras t, d))
  Allowed-Blocked s j c a (Blocked.behind t snap b d) =
      absurd (ground (arith, a.not_behind t snap b, d))

  not_after : S → Job → Str → Bool
  not_after s j snap =
      is_empty (snapshots_after_bound_pure (snaps s j.src) (snaps s j.dest) (at_snap j.src snap))

  bound-After :
      (s : S) (j : Job) (bound : Option Str)
      → j.force ≡ false
      → After
          (settle_bound r w j.src j.dest j.force true bound s)
          (λ o t.
            (t ≡ s) × (o ≡ none) × ((snap : Str) → bound ≡ some snap → not_after s j snap ≡ true))
          (λ t. t ≡ s)
  unfolding not_after
  bound-After s j none h = record { holds = (refl, refl, λ snap e. absurd (ground (arith, e))) }
  bound-After s j (some snap) h =
      After-imp _ (settle_rewind-After r w z l j.src j.dest snap j.force s h)
        (λ o t (e, n, k). (e, n, λ snap' e'. ground (arith, e', k))) (λ t e. e)

  no_bound :
      (s : S) (j : Job) (bound : Option Str)
      → settle_bound r w j.src j.dest j.force false bound s ≡ (ok none, s)
  no_bound s j none = refl
  no_bound s j (some snap) = refl

  there-After :
      (s : S) (j : Job)
      → j.force ≡ false
      → there s j.dest ≡ true
      → After (check_dest r w j true s) (λ c t. (t ≡ s) × Allowed s j c) (λ t. t ≡ s)
  unfolding not_after
  there-After s j h here =
      After-still (refuse_mounted_rw r w j.dest s) _ _ (refuse_mounted_rw-After r w z l j.dest s)
        λ _ ro.
          After-still (settle_divergence r w j.src j.dest j.force s) _ _
            (settle_divergence-After r w z l j.src j.dest j.force s h)
            λ _ extras.
              After-continue (settle_bound r w j.src j.dest j.force true j.bounded_snap s) _
                (bound-After s j j.bounded_snap h)
                λ o t (e, forward, none_after). record {
                  holds = (
                    e,
                    record {
                      found = sym here;
                      forward = forward;
                      unmounted = ro;
                      no_extras = λ _. extras;
                      not_behind = λ _. none_after;
                    },
                  );
                }

  gone-After :
      (s : S) (j : Job)
      → there s j.dest ≡ false
      → After (check_dest r w j false s) (λ c t. (t ≡ s) × Allowed s j c) (λ t. t ≡ s)
  gone-After s j gone = After-asks _ (no_bound s j j.bounded_snap) (record {
    holds = (
      refl,
      record {
        found = sym gone;
        forward = refl;
        unmounted = rw (gone) refl;
        no_extras = λ t. absurd (ground (arith, gone, t));
        not_behind = λ t. absurd (ground (arith, gone, t));
      },
    );
  })

  pub push_checks-Allowed :
      (s : S) (j : Job)
      → j.force ≡ false
      → After (push_checks r w j s) (λ c t. (t ≡ s) × Allowed s j c) (λ t. t ≡ s)
  unfolding push_checks
  push_checks-Allowed s j h =
      After-asks _ (exists-reads r w z l j.dest s) (elim (Bool-cases (there s j.dest)) [
        | inl e ↦ rw (e) (there-After s j h e)
        | inr e ↦ rw (e) (gone-After s j e)
      ])

  -- Where the commands read as documented: a push that is not forced fails and changes nothing if
  -- the destination is there and is mounted for writing, has a snapshot that the source lacks, or
  -- has one that the source took after the bound.
  pub push_one_refused :
      (utc_ns : ℕ) (s : S) (j : Job)
      → j.force ≡ false
      → Blocked s j
      → (e : Error) × (push_one r w utc_ns j s ≡ (err e, s))
  unfolding push_one
  push_one_refused utc_ns s j h b = at (push_checks r w j s) (push_checks-Allowed s j h)
    where
      at :
          (x : Result Error Checked × S)
          → After x (λ c t. (t ≡ s) × Allowed s j c) (λ t. t ≡ s)
          → (e : Error) × (continue x (push_work r w utc_ns j) ≡ (err e, s))
      at (ok c, t) a = absurd (Allowed-Blocked s j c a.holds.1 b)
      at (err e, t) a = (e, ap (λ u. (err e, u)) a.holds)
