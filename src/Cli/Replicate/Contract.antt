-- ===== src/Cli/Replicate/Contract.antt =====
-- The properties of a dataset that has received (cli/src/zfs_ops.rs, `set_be_contract`), and that pointers,
-- marks and the pruning of anchors leave them.
use zboot.Base.{
  ◌≡◌, refl, ap, ◌∙◌, false, not, ◌&&◌, ◌||◌, Option, none, some, List, [], ◌∷◌, ◌++◌, Str, ◌==◌,
  nat_eq, str_eq, str_beq, ok, arith, if◌then◌else◌,
}
use zboot.Text.{codes, lines, trim, starts_with}
use zboot.Text.Split.{Lacks}
use zboot.Cli.Io.{◌>>◌, continue_cases, done, raise, attempt, not_set}
use zboot.Cli.After.{Keeps, Keeps-bind, Keeps-attempt, Keeps-if}
use zboot.Cli.Sub.{Runner, RunOutput}
use zboot.Cli.ZfsOps.{dataset_property, set_property_tolerant, set_readonly_tolerant}
use zboot.Cli.ZfsOps.Snapshots.{prune_line, prune_lines, prune_old_anchors, set_be_contract}
use zboot.Cli.ZfsOps.Store.{
  IsStore, Written, set_args, set_property_tolerant_lem, dataset_property-Quiet,
}
use zboot.Cli.ZfsOps.Wire.{Wire, at_snap, snap_of}
use zboot.Cli.Replicate.{prune_both}

abbrev pub names_args : Str → List Str
names_args dataset =
    codes "list"
    ∷ codes "-Hp"
    ∷ codes "-t"
    ∷ codes "snapshot"
    ∷ codes "-o"
    ∷ codes "name"
    ∷ codes "-r"
    ∷ dataset
    ∷ []

-- The listing of snapshots and `zfs destroy` of one of them leave the properties of datasets.
pub record IsPruning {S : Type 0} (r : Runner S) (z : IsStore r) : Type 0 where
  pub lists_names :
      (ds : Str) (s : S) (d p : Str)
      → z.value (r.run (codes "zfs") (names_args ds) s).1 d p ≡ z.value s d p
  pub destroys :
      (snap : Str) (s : S) (d p : Str)
      → z.value (r.run (codes "zfs") (codes "destroy" ∷ snap ∷ []) s).1 d p ≡ z.value s d p

module _ {S : Type 0} (r : Runner S) (w : Wire S) (z : IsStore r) where
  open z use {there, value}

  -- What a dataset is that has received.
  pub record Received (s : S) (ds : Str) : Type 0 where
    pub canmount : value s ds (codes "canmount") ≡ codes "noauto"
    pub mountpoint : value s ds (codes "mountpoint") ≡ codes "/"
    pub be : value s ds (codes "zboot:be") ≡ codes "true"
    pub readonly : value s ds (codes "readonly") ≡ codes "on"

  kept :
      {s t : S} {ds q v : Str} (p : Str)
      → Written r z s t ds q v
      → (p == q) ≡ false
      → value t ds p ≡ value s ds p
  kept {ds} p wr h = wr.others ds p (ground (arith, h))

  pub contract_done :
      (ds : Str) (s s1 t : S)
      → set_be_contract r ds s ≡ (ok tt, s1)
      → set_readonly_tolerant r ds (codes "on") s1 ≡ (ok tt, t)
      → Received t ds
  unfolding set_be_contract set_readonly_tolerant str_beq
  contract_done ds s s1 t h last =
      continue_cases (set_property_tolerant r ds (codes "canmount") (codes "noauto") s) _ h
        λ _ a e h1.
          continue_cases (set_property_tolerant r ds (codes "mountpoint") (codes "/") a) _ h1
            λ _ b e1 e2.
              let w1 =
                set_property_tolerant_lem r z ds (codes "canmount") (codes "noauto") s a
                  (omega arith) e in
              let w2 =
                set_property_tolerant_lem r z ds (codes "mountpoint") (codes "/") a b (omega arith)
                  e1 in
              let w3 =
                set_property_tolerant_lem r z ds (codes "zboot:be") (codes "true") b s1
                  (omega arith) e2 in
              let w4 =
                set_property_tolerant_lem r z ds (codes "readonly") (codes "on") s1 t (omega arith)
                  last in
              record {
                canmount =
                    kept (codes "canmount") w4 refl
                    ∙ kept (codes "canmount") w3 refl
                    ∙ kept (codes "canmount") w2 refl
                    ∙ w1.now;
                mountpoint =
                    kept (codes "mountpoint") w4 refl ∙ kept (codes "mountpoint") w3 refl ∙ w2.now;
                be = kept (codes "zboot:be") w4 refl ∙ w3.now;
                readonly = w4.now;
              }

  module _ (d p : Str) where
    abbrev pub at : S → Str
    at s = value s d p

    property-Keeps : (ds prop : Str) → Keeps at (dataset_property r ds prop)
    property-Keeps ds prop s = ap at (dataset_property-Quiet r z ds prop s)

    -- A tolerant set leaves the other properties, whether it succeeds or not.
    pub set-Keeps :
        (ds prop v : Str)
        → Lacks b'=' prop
        → (d == ds && p == prop) ≡ false
        → Keeps at (set_property_tolerant r ds prop v)
    unfolding set_property_tolerant
    set-Keeps ds prop v plain apart =
        Keeps-bind at (attempt (r.run (codes "zfs") (set_args ds prop v))) _
          (Keeps-attempt at (r.run (codes "zfs") (set_args ds prop v))
            (λ s. z.sets s ds prop v d p plain apart))
          λ _. Keeps-bind at (dataset_property r ds prop) _ (property-Keeps ds prop) λ actual.
            Keeps-if at (actual == v) done (raise (not_set ds prop actual)) (λ s. refl) (λ s. refl)

    module _ (pr : IsPruning r z) where
      destroy-Keeps :
          (snap : Str)
          → Keeps at (attempt (r.run (codes "zfs") (codes "destroy" ∷ snap ∷ [])) >> done)
      destroy-Keeps snap =
          Keeps-bind at (attempt (r.run (codes "zfs") (codes "destroy" ∷ snap ∷ []))) _
            (Keeps-attempt at (r.run (codes "zfs") (codes "destroy" ∷ snap ∷ []))
              (λ s. pr.destroys snap s d p))
            (λ _ s. refl)

      line-Keeps : (ds keep snap : Str) → Keeps at (prune_line r ds keep snap)
      unfolding prune_line
      line-Keeps ds keep snap =
          Keeps-if at (not (starts_with snap (ds ++ codes "@mirror-")) || snap == keep) done _
            (λ s. refl) (destroy-Keeps snap)

      lines-Keeps : (ds keep : Str) (ls : List Str) → Keeps at (prune_lines r ds keep ls)
      unfolding prune_lines
      lines-Keeps ds keep [] = λ s. refl
      lines-Keeps ds keep (l ∷ ls) =
          Keeps-bind at (prune_line r ds keep (trim l)) _ (line-Keeps ds keep (trim l))
            (λ _. lines-Keeps ds keep ls)

      listed-Keeps :
          (ds keep : Str) (o : Option RunOutput)
          → Keeps at (elim o [
            | none ↦ done
            | some out ↦ if out.rc == 0 then prune_lines r ds keep (lines out.stdout) else done
          ])
      listed-Keeps ds keep none = λ s. refl
      listed-Keeps ds keep (some out) =
          Keeps-if at (out.rc == 0) (prune_lines r ds keep (lines out.stdout)) done
            (lines-Keeps ds keep (lines out.stdout)) (λ s. refl)

      prune-Keeps : (ds keep : Str) → Keeps at (prune_old_anchors r ds keep)
      unfolding prune_old_anchors
      prune-Keeps ds keep =
          Keeps-bind at (attempt (r.run (codes "zfs") (names_args ds))) _
            (Keeps-attempt at (r.run (codes "zfs") (names_args ds)) (λ s. pr.lists_names ds s d p))
            (listed-Keeps ds keep)

      pub prune_both-Keeps : (src dest anchor : Str) → Keeps at (prune_both r w src dest anchor)
      unfolding prune_both
      prune_both-Keeps src dest anchor =
          Keeps-bind at (prune_old_anchors r src anchor) _ (prune-Keeps src anchor)
            (λ _. prune-Keeps dest (at_snap dest (snap_of anchor)))
