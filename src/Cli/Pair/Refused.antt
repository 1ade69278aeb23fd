-- ===== src/Cli/Pair/Refused.antt =====
-- What a refused `zboot pair` leaves (cli/src/cmd/pair.rs).
use zboot.Base.{◌≡◌, refl, not, Str, err, ok_or, ◌==◌, str_eq, is_some, if◌then◌else◌}
use zboot.Core.Replication.{parse_dataset}
use zboot.Cli.Io.{
  Error, continue-err, Quiet, Quiet-bind, Quiet-guard, guard, lift, self_pair, same_pool, not_found,
  already_paired, not_canonical, done,
}
use zboot.Cli.Sub.{Runner}
use zboot.Cli.ZfsOps.{dataset_exists, read_pair_pointer}
use zboot.Cli.ZfsOps.Store.{IsStore, dataset_exists-Quiet, read_pair_pointer-Quiet}
use zboot.Cli.Pair.{
  PairArgs, pool_of, verify_compatible, require_dataset, pair_checks, pair_writes, run_pair,
}
use zboot.Cli.Pair.Checks.{unless_forced}

module _ {S : Type 0} (r : Runner S) (z : IsStore r) where
  require_dataset-Quiet : (ds : Str) → Quiet (require_dataset r ds)
  unfolding require_dataset
  require_dataset-Quiet ds =
      Quiet-bind (dataset_exists r ds) _ (dataset_exists-Quiet r z ds)
        (λ b. Quiet-guard b (not_found ds))

  pair_checks-Quiet : (args : PairArgs) → Quiet (pair_checks r args)
  unfolding pair_checks
  pair_checks-Quiet args =
      Quiet-bind (guard (not (args.a == args.b)) (self_pair args.a)) _ (Quiet-guard _ _) λ _.
        Quiet-bind (guard (not (pool_of args.a == pool_of args.b)) (same_pool (pool_of args.a))) _
          (Quiet-guard _ _)
          λ _. Quiet-bind (require_dataset r args.a) _ (require_dataset-Quiet args.a) λ _.
            Quiet-bind (require_dataset r args.b) _ (require_dataset-Quiet args.b) λ _.
              Quiet-bind (read_pair_pointer r args.a) _ (read_pair_pointer-Quiet r z args.a) λ o.
                Quiet-bind (guard (not (is_some o)) (already_paired args.a)) _ (Quiet-guard _ _)
                  λ _.
                    Quiet-bind (if args.force then done else verify_compatible r args.a args.b) _
                      (unless_forced r z args.force args.a args.b)
                      λ _.
                        Quiet-bind (lift (ok_or (parse_dataset args.b) (not_canonical args.b))) _
                          (λ s. refl)
                          λ _.
                            Quiet-bind (lift (ok_or (parse_dataset args.a) (not_canonical args.a)))
                              _ (λ s. refl)
                              λ _.
                                Quiet-bind (read_pair_pointer r args.b) _
                                  (read_pair_pointer-Quiet r z args.b) λ _ s. refl

  -- Where the commands read properties as documented: when a check refuses a `zboot pair`, it fails with
  -- that error, and nothing has changed.
  pub run_pair_refused :
      (args : PairArgs) (s : S) (e : Error)
      → (pair_checks r args s).0 ≡ err e
      → run_pair r args s ≡ (err e, s)
  unfolding run_pair
  run_pair_refused args s e h =
      continue-err (pair_writes r args) (λ i. (h i, pair_checks-Quiet args s i))
