-- ===== src/Cli/Pull/Refused.antt =====
-- What `zboot pull` refuses without `--force` (cli/src/cmd/pull.rs).
use zboot.Base.{
  ℕ, ◌≡◌, ap, Bool, true, false, Option, none, some, Str, is_empty, err, ok, Result, arith,
}
use zboot.Cli.Io.{Error, continue}
use zboot.Cli.After.{After, After-imp, After-still}
use zboot.Cli.Sub.{Runner}
use zboot.Cli.ZfsOps.Snapshots.{only_on_right, snapshots_after_bound_pure}
use zboot.Cli.ZfsOps.Store.{IsStore}
use zboot.Cli.ZfsOps.Wire.{Wire, at_snap}
use zboot.Cli.Replicate.{settle_divergence, settle_bound}
use zboot.Cli.Replicate.Checks.{IsListing, settle_divergence-After, settle_rewind-After}
use zboot.Cli.Pull.{Reception, receive_checks, receive_work, receive_into}

module _ {S : Type 0} (r : Runner S) (w : Wire S) (z : IsStore r) (l : IsListing r) where
  open l use {snaps}

  -- What would be lost: a snapshot of the local dataset that the remote one lacks, or one that the remote
  -- dataset took after the bound.
  pub data Losing (s : S) (c : Reception) : Type 0 where
    divergent :
        is_empty (only_on_right (snaps s c.remote_src) (snaps s c.local_dataset)) ≡ false
        → Losing s c
    behind :
        (snap : Str)
        → c.bounded_snap ≡ some snap
        → is_empty (
            snapshots_after_bound_pure
              (snaps s c.remote_src)
              (snaps s c.local_dataset)
              (at_snap c.remote_src snap))
          ≡ false
        → Losing s c

  lost_after : S → Reception → Str → Bool
  lost_after s c snap = is_empty (
      snapshots_after_bound_pure (snaps s c.remote_src) (snaps s c.local_dataset)
        (at_snap c.remote_src snap))

  bound-After :
      (s : S) (c : Reception) (bound : Option Str)
      → c.force ≡ false
      → After
          (settle_bound r w c.remote_src c.local_dataset c.force true bound s)
          (λ o t. (snap : Str) → bound ≡ some snap → lost_after s c snap ≡ true)
          (λ t. t ≡ s)
  unfolding lost_after
  bound-After s c none h = record { holds = λ snap e. absurd (ground (arith, e)) }
  bound-After s c (some snap) h =
      After-imp _ (settle_rewind-After r w z l c.remote_src c.local_dataset snap c.force s h)
        (λ o t (e, n, k) snap' e'. ground (arith, e', k)) (λ t e. e)

  receive_checks-After :
      (s : S) (c : Reception)
      → c.existed ≡ true
      → c.force ≡ false
      → After
          (receive_checks r w c s)
          (λ o t.
            (is_empty (only_on_right (snaps s c.remote_src) (snaps s c.local_dataset)) ≡ true)
            × ((snap : Str) → c.bounded_snap ≡ some snap → lost_after s c snap ≡ true))
          (λ t. t ≡ s)
  unfolding receive_checks lost_after
  receive_checks-After s c there h = rw (there) (
      After-still (settle_divergence r w c.remote_src c.local_dataset c.force s) _ _
        (settle_divergence-After r w z l c.remote_src c.local_dataset c.force s h)
        λ _ none_lost.
          After-imp _ (bound-After s c c.bounded_snap h) (λ o t k. (none_lost, k)) (λ t e. e))

  -- Where the commands read as documented: receiving into a dataset that would lose a snapshot fails without
  -- `--force`, and changes nothing.
  pub receive_into_refused :
      (utc_ns : ℕ) (s : S) (c : Reception)
      → c.existed ≡ true
      → c.force ≡ false
      → Losing s c
      → (e : Error) × (receive_into r w utc_ns c s ≡ (err e, s))
  unfolding receive_into lost_after
  receive_into_refused utc_ns s c there h b =
      at (receive_checks r w c s) (receive_checks-After s c there h) b
    where
      at :
          (x : Result Error (Option Str) × S)
          → After x
              (λ o t.
                (is_empty (only_on_right (snaps s c.remote_src) (snaps s c.local_dataset)) ≡ true)
                × ((snap : Str) → c.bounded_snap ≡ some snap → lost_after s c snap ≡ true))
              (λ t. t ≡ s)
          → Losing s c
          → (e : Error) × (continue x (receive_work r w utc_ns c) ≡ (err e, s))
      at (err e, t) a b = (e, ap (λ u. (err e, u)) a.holds)
      at (ok o, t) a (Losing.divergent d) = absurd (ground (arith, a.holds.0, d))
      at (ok o, t) a (Losing.behind snap e d) = absurd (ground (arith, a.holds.1 snap e, d))
