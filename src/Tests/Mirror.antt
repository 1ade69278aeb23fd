-- ===== src/Tests/Mirror.antt =====
-- `zboot mirror` on systems of two datasets.
use zboot.Base.{◌≡◌, refl, false, List, [], ◌∷◌, str_eq, str_beq, ok, err, if◌then◌else◌}
use zboot.Text.{codes, lines, split}
use zboot.Cli.Io.{mounted_rw}
use zboot.Cli.ZfsOps.Snapshots.{only_on_right}
use zboot.Cli.Replicate.Checks.{is_rw_mounted}
use zboot.Cli.Mirror.{refused, Counts, no_counts, push_one_pair, push_all}
use zboot.Cli.Mirror.Totals
use zboot.Cli.Mirror.Outcome
use zboot.Tests.Replicate.{Sys, sys, wire, sys-IsStore, sys-IsListing, be_a, be_b, ahead}

push_all_lem_example :
    (m : Counts) × (t : Sys) × (os : List Totals.Outcome) × (push_all sys wire
        (λ s. 7)
        false
        be_a
        (be_b ∷ codes "gone" ∷ [])
        no_counts
        ahead
      ≡ (ok m, t))
    × Totals.Tried sys wire (λ s. 7) false be_a (be_b ∷ codes "gone" ∷ []) ahead os t
    × Totals.Counted no_counts m os
push_all_lem_example =
    Totals.push_all_lem sys wire (λ s. 7) false be_a (be_b ∷ codes "gone" ∷ []) no_counts ahead

push_one_pair_refused_example : push_one_pair sys wire 7 be_a be_b false ahead ≡ (
  if is_rw_mounted sys wire sys-IsStore sys-IsListing ahead be_b
      then err (mounted_rw be_b)
      else ok refused,
  ahead,
)
unfolding str_beq only_on_right lines split zboot.Core.Replication.is_replication_anchor
push_one_pair_refused_example =
    Outcome.push_one_pair_refused sys wire sys-IsStore sys-IsListing 7 be_a be_b ahead refl refl
