-- ===== src/Cli/Pair/Checks.antt =====
-- What a successful `zboot pair` has checked before its first write (cli/src/cmd/pair.rs).
use zboot.Base.{
  ◌≡◌, refl, ap, subst, sym, ◌∙◌, Bool, true, false, not, Option, none, some, Str, Result, ok,
  ok_or, ◌==◌, str_eq, is_some, arith, if◌then◌else◌,
}
use zboot.Text.{codes}
use zboot.Core.Replication.{PairPointer, parse_dataset}
use zboot.Cli.Io.{
  Io, Error, continue-eq-ok, continue_cases, ok_injective, Quiet, Quiet-bind, Quiet-guard, guard,
  guard-eq-ok, lift, lift-eq-ok, attempt, not_canonical, self_pair, same_pool, not_found,
  already_paired, done,
}
use zboot.Cli.Sub.{Runner}
use zboot.Cli.ZfsOps.{dataset_exists, read_pair_pointer}
use zboot.Cli.ZfsOps.Snapshots.{list_snapshots_with_guids}
use zboot.Cli.ZfsOps.Store.{
  IsStore, dataset_exists-reads, read_pair_pointer-reads, listing-Quiet, attempt-Quiet,
}
use zboot.Cli.Pair.{PairArgs, Checked, pool_of, verify_compatible, require_dataset, pair_checks}

module _ {S : Type 0} (r : Runner S) (z : IsStore r) where
  open z use {there, value}

  pub record PairAllowed (s : S) (args : PairArgs) (c : Checked) : Type 0 where
    pub distinct : (args.a == args.b) ≡ false
    pub cross_pool : (pool_of args.a == pool_of args.b) ≡ false
    pub a_there : there s args.a ≡ true
    pub b_there : there s args.b ≡ true
    pub a_free : parse_dataset (value s args.a (codes "zboot:mirror")) ≡ none
    pub a_target : parse_dataset args.b ≡ some c.a_peer
    pub b_target : parse_dataset args.a ≡ some c.b_peer
    pub b_paired : c.b_was_paired ≡ is_some (parse_dataset (value s args.b (codes "zboot:mirror")))

  Quiet-eq : {A : Type 0} (m : Io S A) (s t : S) {a : A} → Quiet m → m s ≡ (ok a, t) → t ≡ s
  Quiet-eq {A} m s t q h = sym (ap (λ (x : Result Error A × S). x.1) h) ∙ q s

  verify_compatible-Quiet : (a b : Str) → Quiet (verify_compatible r a b)
  unfolding verify_compatible
  verify_compatible-Quiet a b =
      Quiet-bind (attempt (list_snapshots_with_guids r a)) _
        (attempt-Quiet r z _ (listing-Quiet r z a))
        (λ x.
          Quiet-bind (attempt (list_snapshots_with_guids r b)) _
            (attempt-Quiet r z _ (listing-Quiet r z b)) (λ y. Quiet-guard _ _))

  pub unless_forced :
      (force : Bool) (a b : Str) → Quiet (if force then done else verify_compatible r a b)
  unless_forced true a b = λ s. refl
  unless_forced false a b = verify_compatible-Quiet a b

  required :
      (ds : Str) (s t : S) → require_dataset r ds s ≡ (ok tt, t) → (there s ds ≡ true) × (t ≡ s)
  unfolding require_dataset
  required ds s t h =
      let (b, u, e, rest) = continue-eq-ok (dataset_exists r ds s) _ h in
      let (is, here) = ok_injective (sym (dataset_exists-reads r z ds s) ∙ e) in
      let (is_there, same) = guard-eq-ok b (not_found ds) u t rest in
      (is ∙ is_there, same ∙ sym here)

  pointed : {A : Type 0} (o : Option A) (e : Error) (a : A) → ok_or o e ≡ ok a → o ≡ some a
  pointed o e a h = ground (arith, h)

  not-true : (b : Bool) → not b ≡ true → b ≡ false
  not-true b h = ground (arith, h)

  no-pointer : (o : Option PairPointer) → not (is_some o) ≡ true → o ≡ none
  no-pointer none h = refl
  no-pointer (some p) h = absurd (ground arith)

  pub pair_checks-PairAllowed :
      (args : PairArgs) (s t : S) (c : Checked)
      → pair_checks r args s ≡ (ok c, t)
      → PairAllowed s args c × (t ≡ s)
  unfolding pair_checks
  pair_checks-PairAllowed args s t c h =
      continue_cases (guard (not (args.a == args.b)) (self_pair args.a) s) _ h λ _ s1 e1 h1.
        let (g1, q1) = guard-eq-ok (not (args.a == args.b)) (self_pair args.a) s s1 e1 in
        continue_cases
          (guard (not (pool_of args.a == pool_of args.b)) (same_pool (pool_of args.a)) s1) _ h1
          λ _ s2 e2 h2.
            let (g2, q2) =
              guard-eq-ok (not (pool_of args.a == pool_of args.b)) (same_pool (pool_of args.a)) s1
                s2 e2 in
            continue_cases (require_dataset r args.a s2) _ h2 λ _ s3 e3 h3.
              let (a_there, q3) = required args.a s2 s3 e3 in
              continue_cases (require_dataset r args.b s3) _ h3 λ _ s4 e4 h4.
                let (b_there, q4) = required args.b s3 s4 e4 in
                continue_cases (read_pair_pointer r args.a s4) _ h4 λ o s5 e5 h5.
                  let (q5, free) = read_pair_pointer-reads r z args.a o s4 s5 e5 in
                  continue_cases (guard (not (is_some o)) (already_paired args.a) s5) _ h5
                    λ _ s6 e6 h6.
                      let (g6, q6) =
                        guard-eq-ok (not (is_some o)) (already_paired args.a) s5 s6 e6 in
                      continue_cases
                        ((if args.force then done else verify_compatible r args.a args.b) s6) _ h6
                        λ _ s7 e7 h7.
                          let q7 =
                            Quiet-eq
                              (if args.force then done else verify_compatible r args.a args.b) s6 s7
                              (unless_forced args.force args.a args.b) e7 in
                          continue_cases
                            (lift (ok_or (parse_dataset args.b) (not_canonical args.b)) s7) _ h7
                            λ ap1 s8 e8 h8.
                              let (a_target, q8) =
                                lift-eq-ok (ok_or (parse_dataset args.b) (not_canonical args.b)) s7
                                  e8 in
                              continue_cases
                                (lift (ok_or (parse_dataset args.a) (not_canonical args.a)) s8) _ h8
                                λ bp1 s9 e9 h9.
                                  let (b_target, q9) =
                                    lift-eq-ok (ok_or (parse_dataset args.a) (not_canonical args.a))
                                      s8 e9 in
                                  continue_cases (read_pair_pointer r args.b s9) _ h9
                                    λ bo s10 e10 h10.
                                      let (q10, b_paired) =
                                        read_pair_pointer-reads r z args.b bo s9 s10 e10 in
                                      let (made, end) = ok_injective h10 in
                                      let at2 : s2 ≡ s = q2 ∙ q1 in
                                      let at3 : s3 ≡ s = q3 ∙ at2 in
                                      let at4 : s4 ≡ s = q4 ∙ at3 in
                                      let at9 : s9 ≡ s = q9 ∙ q8 ∙ q7 ∙ q6 ∙ q5 ∙ at4 in
                                      (
                                        subst (PairAllowed s args) made (record {
                                          distinct = not-true _ g1;
                                          cross_pool = not-true _ g2;
                                          a_there = subst (λ x. there x args.a ≡ true) at2 a_there;
                                          b_there = subst (λ x. there x args.b ≡ true) at3 b_there;
                                          a_free =
                                              subst
                                                (λ x.
                                                  parse_dataset
                                                    (value x args.a (codes "zboot:mirror"))
                                                  ≡ none)
                                                at4 (sym free ∙ no-pointer o g6);
                                          a_target = pointed (parse_dataset args.b) _ ap1 a_target;
                                          b_target = pointed (parse_dataset args.a) _ bp1 b_target;
                                          b_paired = ap is_some (
                                              b_paired
                                              ∙ ap
                                                  (λ x.
                                                    parse_dataset
                                                      (value x args.b (codes "zboot:mirror")))
                                                  at9);
                                        }),
                                        sym end ∙ q10 ∙ at9,
                                      )
