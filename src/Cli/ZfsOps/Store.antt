-- ===== src/Cli/ZfsOps/Store.antt =====
-- What a runner does when it is asked for properties of datasets: the commands behind the helpers of
-- cli/src/zfs_ops.rs, and what the helpers do with it. `IsStore` states the documented behaviour of
-- `zfs list`, `zfs get` and `zfs set`; a `zfs set` need not take effect.
use zboot.Base.{
  if◌then◌else◌, ◌≡◌, refl, ap, subst, sym, ◌∙◌, Bool, true, false, ◌&&◌, Option, none, some, List,
  [], ◌∷◌, ◌++◌, Str, ◌==◌, nat_eq, str_eq, str_beq_iff, Result, ok, err, arith, Bool-cases, inl,
  inr,
}
use zboot.Text.{codes, trim}
use zboot.Text.Split.{Lacks}
use zboot.Core.Replication.{PairPointer, parse_dataset, render_pointer}
use zboot.Cli.Io.{
  pure, raise, Io, Error, continue-eq-ok, continue-ok, ok_injective, settle, attempt, Quiet,
  Quiet-bind,
}
use zboot.Cli.Sub.{Runner, RunOutput}
use zboot.Cli.ZfsOps.Snapshots.{snapshot_args, list_snapshots_with_guids}
use zboot.Cli.ZfsOps.{
  dataset_exists, dataset_property, set_property_tolerant, read_pair_pointer, write_pair_pointer,
}

abbrev pub list_args : Str → List Str
list_args ds = codes "list" ∷ codes "-H" ∷ codes "-o" ∷ codes "name" ∷ ds ∷ []

abbrev pub get_args : Str → Str → List Str
get_args ds prop = codes "get" ∷ codes "-Hp" ∷ codes "-o" ∷ codes "value" ∷ prop ∷ ds ∷ []

abbrev pub set_args : Str → Str → Str → List Str
set_args ds prop value = codes "set" ∷ codes "-u" ∷ (prop ++ b'=' ∷ value) ∷ ds ∷ []

pub record IsStore {S : Type 0} (r : Runner S) : Type 0 where
  pub there : S → Str → Bool
  pub value : S → Str → Str → Str
  pub lists :
      (s : S) (ds : Str)
      → (out : RunOutput) × (r.run (codes "zfs") (list_args ds) s ≡ (ok out, s))
        × ((out.rc == 0) ≡ there s ds)
  pub gets :
      (s : S) (ds prop : Str)
      → (out : RunOutput) × (r.run (codes "zfs") (get_args ds prop) s ≡ (ok out, s))
        × ((out.rc == 0) ≡ there s ds)
        × (there s ds ≡ true → trim out.stdout ≡ value s ds prop)
  pub sets :
      (s : S) (ds prop v d p : Str)
      → Lacks b'=' prop
      → (d == ds && p == prop) ≡ false
      → value (r.run (codes "zfs") (set_args ds prop v) s).1 d p ≡ value s d p
  pub sets_there :
      (s : S) (ds prop v d : Str)
      → there (r.run (codes "zfs") (set_args ds prop v) s).1 d ≡ there s d
  pub listings : (ds : Str) → Quiet (r.run (codes "zfs") (snapshot_args ds))

module _ {S : Type 0} (r : Runner S) (z : IsStore r) where
  open z use {there, value}

  -- The property has this value, and every other property is as before.
  pub record Written (s t : S) (ds prop v : Str) : Type 0 where
    pub now : value t ds prop ≡ v
    pub others : (d p : Str) → (d == ds && p == prop) ≡ false → value t d p ≡ value s d p
    pub existing : (d : Str) → there t d ≡ there s d

  pub dataset_exists-reads : (ds : Str) (s : S) → dataset_exists r ds s ≡ (ok (there s ds), s)
  unfolding dataset_exists
  dataset_exists-reads ds s =
      let (out, did, rc) = z.lists s ds in continue-ok _ did ∙ ap (λ b. (ok b, s)) rc

  pub dataset_property-reads :
      (ds prop v : Str) (s t : S)
      → dataset_property r ds prop s ≡ (ok v, t)
      → (t ≡ s) × (v ≡ value s ds prop) × (there s ds ≡ true)
  unfolding dataset_property
  dataset_property-reads ds prop v s t h =
      let (out, did, rc, shows) = z.gets s ds prop in
      let after = sym (continue-ok _ did) ∙ h in
      elim (Bool-cases (out.rc == 0)) [
        | inl e ↦
            let (value_is, here) = ok_injective (rw e at after) in
            (sym here, sym value_is ∙ shows (sym rc ∙ e), sym rc ∙ e)
        | inr e ↦ absurd (ground (arith, rw e at after))
      ]

  settle-state : {A : Type 0} (x : Result Error A × S) → (settle x).1 ≡ x.1
  settle-state (ok a, s) = refl
  settle-state (err e, s) = refl

  pub settle-ok : {A : Type 0} (x : Result Error A × S) → (o : Option A) × (settle x ≡ (ok o, x.1))
  settle-ok (ok a, s) = (some a, refl)
  settle-ok (err e, s) = (none, refl)

  -- Where the commands read and write properties as documented: a tolerant set of a property without
  -- `=` in its name that succeeds has taken effect, whatever `zfs set` returned, and has changed no
  -- other property.
  pub set_property_tolerant_lem :
      (ds prop v : Str) (s t : S)
      → Lacks b'=' prop
      → set_property_tolerant r ds prop v s ≡ (ok tt, t)
      → Written s t ds prop v
  unfolding set_property_tolerant
  set_property_tolerant_lem ds prop v s t plain h =
      let (o, tried) = settle-ok (r.run (codes "zfs") (set_args ds prop v) s) in
      let u = (r.run (codes "zfs") (set_args ds prop v) s).1 in
      let (actual, w, read, rest) =
        continue-eq-ok (dataset_property r ds prop u) _ (sym (continue-ok _ tried) ∙ h) in
      let (same, shown, _) = dataset_property-reads ds prop actual u w read in
      elim (Bool-cases (actual == v)) [
        | inl e ↦
            let end : t ≡ u = sym (ok_injective (rw e at rest)).1 ∙ same in
            subst (λ x. Written s x ds prop v) (sym end)
              (record {
                now = sym shown ∙ (str_beq_iff actual v).0 e;
                others = λ d p. z.sets s ds prop v d p plain;
                existing = z.sets_there s ds prop v;
              })
        | inr e ↦ absurd (ground (arith, rw e at rest))
      ]

  pub read_pair_pointer-reads :
      (ds : Str) (o : Option PairPointer) (s t : S)
      → read_pair_pointer r ds s ≡ (ok o, t)
      → (t ≡ s) × (o ≡ parse_dataset (value s ds (codes "zboot:mirror")))
  unfolding read_pair_pointer
  read_pair_pointer-reads ds o s t h =
      let (v, u, read, rest) =
        continue-eq-ok (dataset_property r ds (codes "zboot:mirror") s) _ h in
      let (same, shown, _) = dataset_property-reads ds (codes "zboot:mirror") v s u read in
      let (is, here) = ok_injective rest in (sym here ∙ same, sym is ∙ ap parse_dataset shown)

  pub write_pair_pointer-Written :
      (ds : Str) (peer : PairPointer) (s t : S)
      → write_pair_pointer r ds peer s ≡ (ok tt, t)
      → Written s t ds (codes "zboot:mirror") (render_pointer peer)
  unfolding write_pair_pointer
  write_pair_pointer-Written ds peer s t h =
      set_property_tolerant_lem ds (codes "zboot:mirror") (render_pointer peer) s t (omega arith) h

  pub listing-Quiet : (ds : Str) → Quiet (list_snapshots_with_guids r ds)
  unfolding list_snapshots_with_guids
  listing-Quiet ds =
      Quiet-bind (r.run (codes "zfs") (snapshot_args ds)) _ (z.listings ds) (λ out s. refl)

  pub attempt-Quiet : {A : Type 0} (m : Io S A) → Quiet m → Quiet (attempt m)
  attempt-Quiet m q s = settle-state (m s) ∙ q s

  pub dataset_property-Quiet : (ds prop : Str) → Quiet (dataset_property r ds prop)
  unfolding dataset_property
  dataset_property-Quiet ds prop s =
      let (out, did, rc, shows) = z.gets s ds prop in
      ap (λ x. x.1) (continue-ok _ did) ∙ branch (out.rc == 0) _ _ s
    where
      branch : (b : Bool) (x : Str) (e : Error) → Quiet {S = S} (if b then pure x else raise e)
      branch true x e s = refl
      branch false x e s = refl

  pub read_pair_pointer-Quiet : (ds : Str) → Quiet (read_pair_pointer r ds)
  unfolding read_pair_pointer
  read_pair_pointer-Quiet ds =
      Quiet-bind (dataset_property r ds (codes "zboot:mirror")) _
        (dataset_property-Quiet ds (codes "zboot:mirror")) (λ v s. refl)

  pub dataset_exists-Quiet : (ds : Str) → Quiet (dataset_exists r ds)
  dataset_exists-Quiet ds s = ap (λ x. x.1) (dataset_exists-reads ds s)
