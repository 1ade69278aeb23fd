-- ===== src/Cli/Push/Paired.antt =====
-- That a push which makes a new pair leaves both sides with a pointer (cli/src/cmd/push.rs).
use zboot.Base.{
  ℕ, ◌≡◌, ◌≢◌, refl, sym, ap, ◌∙◌, Bool, true, false, ◌&&◌, Option, none, some, Str, ◌==◌, str_eq,
  str_beq, str_beq_iff, is_some, ok, ok_or, arith, if◌then◌else◌,
}
use zboot.Text.{codes, trim}
use zboot.Core.Replication.{PairPointer, parse_dataset, render_pointer}
use zboot.Core.Replication.Pointers.{render-parse_pointer}
use zboot.Cli.Io.{
  Io, Error, continue_cases, lift, lift-eq-ok, ok_injective, attempt, done, pure, ◌>>=◌, ◌>>◌,
}
use zboot.Cli.After.{Keeps, Keeps-bind, Keeps-attempt}
use zboot.Cli.Sub.{Runner}
use zboot.Cli.ZfsOps.{set_property_tolerant, read_pair_pointer, write_pair_pointer}
use zboot.Cli.ZfsOps.Store.{IsStore, write_pair_pointer-Written, read_pair_pointer-reads}
use zboot.Cli.ZfsOps.Wire.{Wire}
use zboot.Cli.Replicate.{exists_or_false, refuse_mounted_rw, settle_divergence, prune_both}
use zboot.Cli.Replicate.Contract.{IsPruning, set-Keeps, prune_both-Keeps}
use zboot.Cli.Push.{
  deliver, push_work, Job, Checked, bootstrap_paired, parse_pair_from_ds, push_checks, mark,
  bootstrap_pair, write_pointers, finish_push, push_one,
}

accepted : (ds : Str) (q : PairPointer) → parse_pair_from_ds ds ≡ ok q → render_pointer q ≡ trim ds
accepted ds q h = at (parse_dataset ds) refl h
  where
    at :
        (o : Option PairPointer)
        → parse_dataset ds ≡ o
        → ok_or o (zboot.Cli.Io.not_canonical ds) ≡ ok q
        → render_pointer q ≡ trim ds
    at none e k = cc
    at (some p) e k = ground (arith, (render-parse_pointer ds p e).0, k)

module _ {S : Type 0} (r : Runner S) (w : Wire S) (z : IsStore r) where
  open z use {there, value}

  abbrev pointer : S → Str → Str
  pointer s ds = value s ds (codes "zboot:mirror")

  -- A destination that had no pointer in `s` points at the source in `t`; one that had has it still.
  pub record IsPeer (s t : S) (src dest : Str) : Type 0 where
    pub fresh : parse_dataset (pointer s dest) ≡ none → pointer t dest ≡ trim src
    pub old : parse_dataset (pointer s dest) ≢ none → pointer t dest ≡ pointer s dest

  mark-Keeps : (d ds v : Str) → Keeps (λ s. pointer s d) (mark r w ds v)
  unfolding str_beq
  mark-Keeps d ds v =
      Keeps-bind (λ s. pointer s d) (attempt (set_property_tolerant r ds (codes "zboot:primary") v))
        _
        (Keeps-attempt (λ s. pointer s d) (set_property_tolerant r ds (codes "zboot:primary") v)
          (set-Keeps r w z d (codes "zboot:mirror") ds (codes "zboot:primary") v (omega arith)
            (other (d == ds))))
        (λ _ s. refl)
    where
      other : (b : Bool) → (b && codes "zboot:mirror" == codes "zboot:primary") ≡ false
      other true = refl
      other false = refl

  -- What the action keeps, where it has ended well.
  kept :
      {A : Type 0} (m : Io S A) (d : Str) (s t : S) {a : A}
      → Keeps (λ u. pointer u d) m
      → m s ≡ (ok a, t)
      → pointer t d ≡ pointer s d
  kept m d s t k h = sym (ap (λ x. pointer x.1 d) h) ∙ k s

  abbrev rest_of : Str → Str → PairPointer → Bool → Io S (Unit {0})
  rest_of src dest dest_pair b =
      if b
      then mark r w src (codes "on")
      else (write_pair_pointer r dest dest_pair >> mark r w dest (codes "off"))

  last_writes :
      (src dest : Str) (dest_pair : PairPointer) (o : Option PairPointer) (s t : S)
      → (dest == src) ≡ false
      → render_pointer dest_pair ≡ trim src
      → o ≡ parse_dataset (pointer s dest)
      → rest_of src dest dest_pair (is_some o) s ≡ (ok tt, t)
      → (pointer t src ≡ pointer s src) × IsPeer s t src dest
  last_writes src dest dest_pair (some q) s t apart name found h = (
    kept (mark r w src (codes "on")) src s t (mark-Keeps src src (codes "on")) h,
    record {
      fresh = λ n. absurd (ground (arith, found ∙ n));
      old = λ _. kept (mark r w src (codes "on")) dest s t (mark-Keeps dest src (codes "on")) h;
    },
  )
  last_writes src dest dest_pair none s t apart name found h =
      continue_cases (write_pair_pointer r dest dest_pair s) _ h λ _ u e1 h1.
        let wr = write_pair_pointer-Written r z dest dest_pair s u e1 in
        (
          kept (mark r w dest (codes "off")) src u t (mark-Keeps src dest (codes "off")) h1
              ∙ wr.others src (codes "zboot:mirror")
                  (ground (arith, apart, str_beq_iff dest src, str_beq_iff src dest)),
          record {
            fresh = λ _.
                kept (mark r w dest (codes "off")) dest u t (mark-Keeps dest dest (codes "off")) h1
                ∙ wr.now
                ∙ name;
            old = λ n. absurd (n (sym found));
          },
        )

  IsPeer-start :
      {s u t : S} {src dest : Str}
      → pointer u dest ≡ pointer s dest
      → IsPeer u t src dest
      → IsPeer s t src dest
  IsPeer-start e p = record {
    fresh = λ n. p.fresh (ap parse_dataset e ∙ n);
    old = λ n. p.old (λ k. n (ap parse_dataset (sym e) ∙ k)) ∙ e;
  }

  IsPeer-end :
      {s u t : S} {src dest : Str}
      → pointer t dest ≡ pointer u dest
      → IsPeer s u src dest
      → IsPeer s t src dest
  IsPeer-end e p = record { fresh = λ n. e ∙ p.fresh n; old = λ n. e ∙ p.old n }

  bootstrap_pair_done :
      (src dest : Str) (s t : S)
      → (dest == src) ≡ false
      → bootstrap_pair r w src dest s ≡ (ok tt, t)
      → (pointer t src ≡ trim dest) × IsPeer s t src dest
  unfolding bootstrap_pair
  bootstrap_pair_done src dest s t apart h =
      continue_cases (lift (parse_pair_from_ds dest) s) _ h λ src_pair s1 e1 h1.
        continue_cases (lift (parse_pair_from_ds src) s1) _ h1 λ dest_pair s2 e2 h2.
          continue_cases (write_pair_pointer r src src_pair s2) _ h2 λ _ s3 e3 h3.
            continue_cases (mark r w src (codes "on") s3) _ h3 λ _ s4 e4 h4.
              continue_cases (read_pair_pointer r dest s4) _ h4 λ o s5 e5 h5.
                let (same, found) = read_pair_pointer-reads r z dest o s4 s5 e5 in
                let to_dest =
                  accepted dest src_pair (lift-eq-ok (parse_pair_from_ds dest) s e1).0 in
                let to_src = accepted src dest_pair (lift-eq-ok (parse_pair_from_ds src) s1 e2).0 in
                let (kept_src, peer) =
                  last_writes src dest dest_pair o s5 t apart to_src
                    (found ∙ ap (λ u. parse_dataset (pointer u dest)) (sym same)) h5 in
                let wr = write_pair_pointer-Written r z src src_pair s2 s3 e3 in
                let here =
                  (lift-eq-ok (parse_pair_from_ds src) s1 e2).1
                  ∙ (lift-eq-ok (parse_pair_from_ds dest) s e1).1 in
                (
                  kept_src
                      ∙ ap (λ u. pointer u src) same
                      ∙ kept (mark r w src (codes "on")) src s3 s4 (mark-Keeps src src (codes "on"))
                          e4
                      ∙ wr.now
                      ∙ to_dest,
                  IsPeer-start
                      (ap (λ u. pointer u dest) same
                        ∙ kept (mark r w src (codes "on")) dest s3 s4
                            (mark-Keeps dest src (codes "on")) e4
                        ∙ wr.others dest (codes "zboot:mirror") (rw (apart) refl)
                        ∙ ap (λ u. pointer u dest) here)
                      peer,
                )

  -- Without a bound nothing is rewound.
  forward :
      (j : Job) (s t : S) (k : Checked)
      → j.bounded_snap ≡ none
      → push_checks r w j s ≡ (ok k, t)
      → k.rewind_only ≡ none
  unfolding push_checks
  forward j s t k free h = continue_cases (exists_or_false r w j.dest s) _ h λ b s1 e1 h1.
      continue_cases ((if b then refuse_mounted_rw r w j.dest else done) s1) _ h1 λ _ s2 e2 h2.
        continue_cases ((if b then settle_divergence r w j.src j.dest j.force else done) s2) _ h2
          λ _ s3 e3 h3. sym (ap (λ (x : Checked). x.rewind_only) (ok_injective (rw (free) at h3)).0)

  module _ (pr : IsPruning r z) where
    finish_done :
        (j : Job) (anchor : Str) (s t : S)
        → (j.dest == j.src) ≡ false
        → j.mode ≡ bootstrap_paired
        → finish_push r w j anchor s ≡ (ok tt, t)
        → (pointer t j.src ≡ trim j.dest) × IsPeer s t j.src j.dest
    unfolding finish_push write_pointers
    finish_done j anchor s t apart mode h =
        continue_cases (write_pointers r w j j.mode s) _ h λ _ u e1 h1.
          let (to_dest, peer) = bootstrap_pair_done j.src j.dest s u apart (rw (mode) at e1) in
          let still : (d : Str) → pointer t d ≡ pointer u d = λ d.
            kept (prune_both r w j.src j.dest anchor) d u t
              (prune_both-Keeps r w z d (codes "zboot:mirror") pr j.src j.dest anchor) h1 in
          (still j.src ∙ to_dest, IsPeer-end (still j.dest) peer)

    -- The state in which the checks and the delivery of a push have ended.
    pub record Delivered (utc_ns : ℕ) (j : Job) (s u : S) : Type 0 where
      pub checked : Checked
      pub checked_at : S
      pub checks : push_checks r w j s ≡ (ok checked, checked_at)
      pub anchor : Str
      pub arrived : deliver r w utc_ns j checked checked_at ≡ (ok anchor, u)

    -- Where the commands read and write properties as documented: a push without a bound that succeeds and is
    -- to make a pair of two datasets leaves the source pointing at the destination; the destination points at
    -- the source if it had no pointer once it was delivered, and keeps a pointer that it had.
    pub push_one_paired :
        (utc_ns : ℕ) (j : Job) (s t : S)
        → (j.dest == j.src) ≡ false
        → j.mode ≡ bootstrap_paired
        → j.bounded_snap ≡ none
        → push_one r w utc_ns j s ≡ (ok tt, t)
        → (pointer t j.src ≡ trim j.dest)
          × (u : S) × Delivered utc_ns j s u
          × IsPeer u t j.src j.dest
    unfolding push_one push_work
    push_one_paired utc_ns j s t apart mode free h =
        continue_cases (push_checks r w j s) _ h λ k s1 e1 h1.
          continue_cases (deliver r w utc_ns j k s1) _ h1 λ anchor u e2 h2.
            let (to_dest, peer) = finish_done j anchor u t apart mode (
              ap (λ (o : Option Str). (if is_some o then done else finish_push r w j anchor) u)
                (sym (forward j s s1 k free e1))
              ∙ h2) in
            (
              to_dest,
              u,
              record { checked = k; checked_at = s1; checks = e1; anchor = anchor; arrived = e2 },
              peer,
            )
