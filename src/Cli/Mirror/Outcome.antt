-- ===== src/Cli/Mirror/Outcome.antt =====
-- What a pair of `zboot mirror` comes to (cli/src/cmd/mirror.rs, `push_one_pair`).
use zboot.Base.{
  ℕ, ◌≡◌, refl, sym, ap, ◌∙◌, Bool, true, false, Str, str_eq, is_empty, Result, ok, err, Bool-cases,
  inl, inr, if◌then◌else◌,
}
use zboot.Cli.Io.{mounted_rw, Error, continue-err, continue-ok}
use zboot.Cli.Sub.{Runner}
use zboot.Cli.ZfsOps.Snapshots.{only_on_right}
use zboot.Cli.ZfsOps.Store.{IsStore}
use zboot.Cli.ZfsOps.Wire.{Wire}
use zboot.Cli.Replicate.Checks.{
  is_rw_mounted, IsListing, exists-reads, extras-reads, refuse_mounted_rw-reads,
}
use zboot.Cli.Mirror.{PushOutcome, refused, may_sync, push_one_pair}

module _ {S : Type 0} (r : Runner S) (w : Wire S) (z : IsStore r) (l : IsListing r) where
  open z use {there, value}
  open l use {snaps}

  may_sync-reads :
      (src dst : Str) (s : S)
      → is_empty (only_on_right (snaps s src) (snaps s dst)) ≡ false
      → may_sync r w src dst false s ≡ (ok false, s)
  unfolding may_sync
  may_sync-reads src dst s h = continue-ok _ (extras-reads r w z l src dst s) ∙ (rw (h) refl)

  -- Where the commands read as documented: without `--force`, a destination that is there and has a snapshot
  -- that the source lacks is left as it is, and the pair fails as mounted for writing if it is so, and is
  -- refused otherwise.
  pub push_one_pair_refused :
      (utc_ns : ℕ) (src dst : Str) (s : S)
      → there s dst ≡ true
      → is_empty (only_on_right (snaps s src) (snaps s dst)) ≡ false
      → push_one_pair r w utc_ns src dst false s
        ≡ (if is_rw_mounted r w z l s dst then err (mounted_rw dst) else ok refused, s)
  unfolding push_one_pair
  push_one_pair_refused utc_ns src dst s here lost =
      continue-ok _ (exists-reads r w z l dst s ∙ ap (λ b. (ok b, s)) here)
      ∙ elim (Bool-cases (is_rw_mounted r w z l s dst)) [
        | inl e ↦
            continue-err _ (refuse_mounted_rw-reads r w z l dst s ∙ ap allowed e)
            ∙ ap answer (sym e)
        | inr e ↦
            continue-ok _ (refuse_mounted_rw-reads r w z l dst s ∙ ap allowed e)
            ∙ continue-ok _ (may_sync-reads src dst s lost)
            ∙ ap answer (sym e)
      ]
    where
      allowed : Bool → Result Error (Unit {0}) × S
      allowed b = (if b then err (mounted_rw dst) else ok tt, s)

      answer : Bool → Result Error PushOutcome × S
      answer b = (if b then err (mounted_rw dst) else ok refused, s)
