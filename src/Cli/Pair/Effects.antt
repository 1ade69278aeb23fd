-- ===== src/Cli/Pair/Effects.antt =====
-- What a successful `zboot pair` leaves (cli/src/cmd/pair.rs).
use zboot.Base.{
  ◌≡◌, refl, subst, ◌∙◌, true, false, ◌&&◌, Str, ok, ◌==◌, str_eq, str_beq, str_beq_iff, arith,
  Bool-cases, inl, inr,
}
use zboot.Text.{codes}
use zboot.Core.Replication.{render_pointer}
use zboot.Cli.Io.{continue_cases}
use zboot.Cli.Sub.{Runner}
use zboot.Cli.ZfsOps.{write_pair_pointer, set_property_tolerant}
use zboot.Cli.ZfsOps.Store.{IsStore, Written, write_pair_pointer-Written, set_property_tolerant_lem}
use zboot.Cli.Pair.{PairArgs, Checked, pair_checks, write_mutual, pair_writes, run_pair}
use zboot.Cli.Pair.Checks.{PairAllowed, pair_checks-PairAllowed}

module _ {S : Type 0} (r : Runner S) (z : IsStore r) where
  open z use {there, value}

  pub record Paired (s t : S) (args : PairArgs) (c : Checked) : Type 0 where
    pub a_points : value t args.a (codes "zboot:mirror") ≡ render_pointer c.a_peer
    pub when_mutual :
        c.b_was_paired ≡ false
        → (value t args.b (codes "zboot:mirror") ≡ render_pointer c.b_peer)
          × (value t args.a (codes "zboot:primary") ≡ codes "on")
          × (value t args.b (codes "zboot:primary") ≡ codes "off")
    pub when_tracking :
        c.b_was_paired ≡ true
        → (value t args.a (codes "zboot:primary") ≡ codes "off")
          × ((p : Str) → value t args.b p ≡ value s args.b p)
    pub elsewhere :
        (d p : Str) → (d == args.a) ≡ false → (d == args.b) ≡ false → value t d p ≡ value s d p

  off_row : (d ds p q : Str) → (d == ds) ≡ false → (d == ds && p == q) ≡ false
  off_row d ds p q h = rw h

  off_column : (d ds p q : Str) → (p == q) ≡ false → (d == ds && p == q) ≡ false
  off_column d ds p q h = ground (arith, h)

  flipped : (d ds : Str) → (d == ds) ≡ false → (ds == d) ≡ false
  flipped d ds h = ground (arith, h, str_beq_iff d ds, str_beq_iff ds d)

  not_primary : (codes "zboot:mirror" == codes "zboot:primary") ≡ false
  not_primary = unfold str_beq in refl

  -- The four writes of a mutual pair.
  mutual-Paired :
      (args : PairArgs) (c : Checked) (s s1 s2 s3 t : S)
      → (args.a == args.b) ≡ false
      → c.b_was_paired ≡ false
      → Written r z s s1 args.a (codes "zboot:mirror") (render_pointer c.a_peer)
      → Written r z s1 s2 args.b (codes "zboot:mirror") (render_pointer c.b_peer)
      → Written r z s2 s3 args.a (codes "zboot:primary") (codes "on")
      → Written r z s3 t args.b (codes "zboot:primary") (codes "off")
      → Paired s t args c
  mutual-Paired args c s s1 s2 s3 t apart fresh w1 w2 w3 w4 =
      let mirror = codes "zboot:mirror" in
      let primary = codes "zboot:primary" in
      let apart' = flipped args.a args.b apart in
      record {
        a_points =
            w4.others args.a mirror (off_row args.a args.b mirror primary apart)
            ∙ w3.others args.a mirror (off_column args.a args.a mirror primary not_primary)
            ∙ w2.others args.a mirror (off_row args.a args.b mirror mirror apart)
            ∙ w1.now;
        when_mutual = λ _. (
          w4.others args.b mirror (off_column args.b args.b mirror primary not_primary)
              ∙ w3.others args.b mirror (off_row args.b args.a mirror primary apart')
              ∙ w2.now,
          w4.others args.a primary (off_row args.a args.b primary primary apart) ∙ w3.now,
          w4.now,
        );
        when_tracking = λ h. absurd (ground (arith, fresh, h));
        elsewhere = λ d p da db.
            w4.others d p (off_row d args.b p primary db)
            ∙ w3.others d p (off_row d args.a p primary da)
            ∙ w2.others d p (off_row d args.b p mirror db)
            ∙ w1.others d p (off_row d args.a p mirror da);
      }

  tracking-Paired :
      (args : PairArgs) (c : Checked) (s s1 t : S)
      → (args.a == args.b) ≡ false
      → c.b_was_paired ≡ true
      → Written r z s s1 args.a (codes "zboot:mirror") (render_pointer c.a_peer)
      → Written r z s1 t args.a (codes "zboot:primary") (codes "off")
      → Paired s t args c
  tracking-Paired args c s s1 t apart was w1 w2 =
      let mirror = codes "zboot:mirror" in
      let primary = codes "zboot:primary" in
      let apart' = flipped args.a args.b apart in
      record {
        a_points =
            w2.others args.a mirror (off_column args.a args.a mirror primary not_primary) ∙ w1.now;
        when_mutual = λ h. absurd (ground (arith, was, h));
        when_tracking = λ _. (
          w2.now,
          λ p.
              w2.others args.b p (off_row args.b args.a p primary apart')
              ∙ w1.others args.b p (off_row args.b args.a p mirror apart'),
        );
        elsewhere = λ d p da db.
            w2.others d p (off_row d args.a p primary da)
            ∙ w1.others d p (off_row d args.a p mirror da);
      }

  pair_writes-Paired :
      (args : PairArgs) (c : Checked) (s t : S)
      → (args.a == args.b) ≡ false
      → pair_writes r args c s ≡ (ok tt, t)
      → Paired s t args c
  unfolding pair_writes write_mutual
  pair_writes-Paired args c s t apart h =
      continue_cases (write_pair_pointer r args.a c.a_peer s) _ h λ _ s1 e1 h1.
        let w1 = write_pair_pointer-Written r z args.a c.a_peer s s1 e1 in
        elim (Bool-cases c.b_was_paired) [
          | inl was ↦ tracking-Paired args c s s1 t apart was w1 (
              set_property_tolerant_lem r z args.a (codes "zboot:primary") (codes "off") s1 t
                (omega arith) (rw was at h1))
          | inr fresh ↦
              let both : write_mutual r args c s1 ≡ (ok tt, t) =
                unfold write_mutual in (rw fresh at h1) in
              continue_cases (write_pair_pointer r args.b c.b_peer s1) _ both λ _ s2 e2 h2.
                continue_cases
                  (set_property_tolerant r args.a (codes "zboot:primary") (codes "on") s2) _ h2
                  λ _ s3 e3 h3.
                    mutual-Paired args c s s1 s2 s3 t apart fresh w1
                      (write_pair_pointer-Written r z args.b c.b_peer s1 s2 e2)
                      (set_property_tolerant_lem r z args.a (codes "zboot:primary") (codes "on") s2
                        s3 (omega arith) e3)
                      (set_property_tolerant_lem r z args.b (codes "zboot:primary") (codes "off") s3
                        t (omega arith) h3)
        ]

  -- Where the commands read and write properties as documented: a `zboot pair` that succeeds was given
  -- two boot environments that exist, on different pools, the first of which had no pair. It leaves the
  -- first pointing at the second. If the second had no pair it points back, and the first is primary
  -- and the second is not; otherwise the first is not primary and the second is as it was. No other
  -- dataset has changed.
  pub run_pair_done :
      (args : PairArgs) (s t : S)
      → run_pair r args s ≡ (ok tt, t)
      → (c : Checked) × PairAllowed r z s args c × Paired s t args c
  unfolding run_pair
  run_pair_done args s t h = continue_cases (pair_checks r args s) _ h λ c s1 e1 h1.
      let (allowed, same) = pair_checks-PairAllowed r z args s s1 c e1 in
      (
        c,
        allowed,
        subst (λ x. Paired x t args c) same (pair_writes-Paired args c s1 t allowed.distinct h1),
      )
