-- ===== src/Cli/Fork/Steps.antt =====
-- What the parts of `zboot fork` have found and run when they succeed: the look at the target, the source
-- and the commands of the plan (cli/src/cmd/fork.rs).
use zboot.Base.{
  ◌≡◌, ◌≢◌, refl, ap, sym, ◌∙◌, subst, true, false, some, List, [], ◌∷◌, ◌++◌, Str, str_eq, nat_eq,
  nat_beq_iff, is_empty, elem, Result, ok, err, Bool-cases, inl, inr, arith,
}
use zboot.Text.{codes, lines, contains_char}
use zboot.Text.Split.{Lacks}
use zboot.Core.Types.{
  SnapshotRef, parse_snapshot_ref, BoundKey, BoundList, append_key, render_bound_list,
}
use zboot.Core.Replication.Pointers.{contains_char-false}
use zboot.Cli.Io.{
  Io, Error, continue_cases, lift-eq-ok, ok_injective, ok-ne-err, attempt, settle, continue, done,
}
use zboot.Cli.Sub
use zboot.Cli.Sub.{Runner, RunOutput}
use zboot.Cli.ZfsOps.{clear_pair_pointer, inherit_property_tolerant}
use zboot.Cli.Drop.RealZfs.{dataset_names}
use zboot.Cli.Fork.Chosen.{FirstBoot, active_in-FirstBoot, filled, has_char, ok_or_sound}
use zboot.Cli.Fork.{
  ForkPlan, target_exists, list_filesystems, zfs_get_props, active_in, active_be_dataset,
  resolve_bare, resolve_from, extend_lists, clone_args, execute_plan,
}

module _ {S : Type 0} (r : Runner S) where
  -- A command that ended with code 0.
  abbrev pub Ran : Str → List Str → S → S → Type 0
  Ran prog args s t = (out : RunOutput) × (r.run prog args s ≡ (ok out, t)) × (out.rc ≡ 0)

  -- `zfs list` of the dataset did not end with code 0.
  abbrev pub NotThere : Str → S → S → Type 0
  NotThere ds s t =
      (out : RunOutput) × (r.run (codes "zfs")
          (codes "list" ∷ codes "-Hp" ∷ codes "-o" ∷ codes "name" ∷ ds ∷ []) s
        ≡ (ok out, t))
      × (out.rc ≢ 0)

  pub target_exists-NotThere :
      (ds : Str) (s t : S) → target_exists r ds s ≡ (ok false, t) → NotThere ds s t
  unfolding target_exists
  target_exists-NotThere ds s t h = continue_cases (r.run (codes "zfs") _ s) _ h λ out u e g.
      let (not_zero, end) = ok_injective g in
      (
        out,
        e ∙ ap (λ x. (ok out, x)) end,
        λ z. ground (arith, not_zero, (nat_beq_iff out.rc 0).1 z),
      )

  pub list_filesystems_done :
      (s t : S) (datasets : List Str)
      → list_filesystems r s ≡ (ok datasets, t)
      → (out : RunOutput) × (r.run
            (codes "zfs")
            (codes "list"
              ∷ codes "-Hp"
              ∷ codes "-o"
              ∷ codes "name"
              ∷ codes "-t"
              ∷ codes "filesystem"
              ∷ [])
            s
          ≡ (ok out, t))
        × (out.rc ≡ 0)
        × (datasets ≡ dataset_names out.stdout)
  unfolding list_filesystems
  list_filesystems_done s t datasets h =
      continue_cases (Sub.capture r (codes "zfs") _ s) _ h λ text u e g.
        let (is, end) = ok_injective g in
        let (out, ran, z, same) = Sub.capture_done r _ _ e in
        (out, ran ∙ ap (λ x. (ok out, x)) end, z, sym is ∙ ap dataset_names same)

  -- Properties are asked for unless there is no dataset.
  pub zfs_get_props_done :
      (d : Str) (datasets : List Str) (props : Str) (s t : S) (text : Str)
      → elem d datasets ≡ true
      → zfs_get_props r datasets props s ≡ (ok text, t)
      → (out : RunOutput) × (r.run
            (codes "zfs")
            (codes "get"
              ∷ codes "-Hp"
              ∷ codes "-o"
              ∷ codes "name,property,value"
              ∷ props
              ∷ datasets)
            s
          ≡ (ok out, t))
        × (out.rc ≡ 0)
        × (text ≡ out.stdout)
  unfolding zfs_get_props elem
  zfs_get_props_done d [] props s t text m h = absurd (ground (arith, m))
  zfs_get_props_done d (x ∷ datasets) props s t text m h = Sub.capture_done r _ _ h

  -- Where the snapshot comes from: it is written out, or it is one of what the first pool that boots
  -- something boots.
  pub data Source (from : Str) (snap : SnapshotRef) : S → S → Type 0 where
    written :
        {s : S} → ¬ Lacks b'@' from → parse_snapshot_ref from ≡ some snap → Source from snap s s
    bare :
        {s t : S}
        → Lacks b'@' from
        → from ≢ []
        → (out : RunOutput)
        → r.run
            (codes "zpool")
            (codes "list" ∷ codes "-Hp" ∷ codes "-o" ∷ codes "name,bootfs" ∷ [])
            s
          ≡ (ok out, t)
        → out.rc ≡ 0
        → (ds : Str) → FirstBoot ds (lines out.stdout)
        → snap ≡ record { dataset = ds; name = from }
        → Source from snap s t

  -- Each list is written with the key behind its end, one after the other.
  pub data Extended (key : BoundKey) : List (Str × BoundList) → S → S → Type 0 where
    no_more : {s : S} → Extended key [] s s
    wrote :
        {ds : Str} {l : BoundList} {rows : List (Str × BoundList)} {s u t : S}
        → Ran
            (codes "zfs")
            (codes "set"
              ∷ (codes "zboot:attached-to=" ++ render_bound_list (append_key key l))
              ∷ ds
              ∷ [])
            s
            u
        → Extended key rows u t
        → Extended key ((ds, l) ∷ rows) s t

  extend_lists-Extended :
      (key : BoundKey) (rows : List (Str × BoundList)) (s t : S)
      → extend_lists r key rows s ≡ (ok tt, t)
      → Extended key rows s t
  unfolding extend_lists
  extend_lists-Extended key [] s t h = subst (Extended key [] s) (ok_injective h).1 Extended.no_more
  extend_lists-Extended key ((ds, l) ∷ rows) s t h =
      continue_cases (Sub.run r (codes "zfs") _ s) _ h
        λ _ u e g. Extended.wrote (Sub.run_done r _ _ e) (extend_lists-Extended key rows u t g)

  -- The commands of a plan: the clone and its mark succeed, taking away its pair pointer is tried, and
  -- the lists are written.
  pub record Executed (plan : ForkPlan) (s t : S) : Type 0 where
    pub cloned : S
    pub clones : Ran (codes "zfs") (clone_args r plan.source_snap plan.target_dataset) s cloned
    pub marked : S
    pub marks :
        Ran
          (codes "zfs")
          (codes "set" ∷ codes "zboot:be=true" ∷ plan.target_dataset ∷ [])
          cloned
          marked
    pub cleared : S
    pub clears :
        cleared
        ≡ (r.run
            (codes "zfs")
            (codes "inherit" ∷ codes "zboot:mirror" ∷ plan.target_dataset ∷ [])
            marked).1
    pub extends : Extended plan.target_key plan.bound_datasets_to_extend cleared t

  clear_pair_pointer-end :
      (ds : Str) (s : S)
      → (attempt (clear_pair_pointer r ds) s).1
        ≡ (r.run (codes "zfs") (codes "inherit" ∷ codes "zboot:mirror" ∷ ds ∷ []) s).1
  unfolding clear_pair_pointer inherit_property_tolerant
  clear_pair_pointer-end ds s =
      settle_end (continue (settle (tried s)) (λ _. done)) ∙ settled (tried s)
    where
      tried : Io S RunOutput
      tried = r.run (codes "zfs") (codes "inherit" ∷ codes "zboot:mirror" ∷ ds ∷ [])

      settle_end : (x : Result Error (Unit {0}) × S) → (settle x).1 ≡ x.1
      settle_end (ok a, u) = refl
      settle_end (err e, u) = refl

      settled : (x : Result Error RunOutput × S) → (continue (settle x) (λ _. done)).1 ≡ x.1
      settled (ok a, u) = refl
      settled (err e, u) = refl

  pub execute_plan-Executed :
      (plan : ForkPlan) (s t : S) → execute_plan r plan s ≡ (ok tt, t) → Executed plan s t
  unfolding execute_plan
  execute_plan-Executed plan s t h = continue_cases (Sub.run r (codes "zfs") _ s) _ h λ _ s1 e1 h1.
      continue_cases (Sub.run r (codes "zfs") _ s1) _ h1 λ _ s2 e2 h2.
        continue_cases (attempt (clear_pair_pointer r plan.target_dataset) s2) _ h2 λ _ s3 e3 h3.
          record {
            cloned = s1;
            clones = Sub.run_done r _ _ e1;
            marked = s2;
            marks = Sub.run_done r _ _ e2;
            cleared = s3;
            clears = ap (λ x. x.1) (sym e3) ∙ clear_pair_pointer-end plan.target_dataset s2;
            extends = extend_lists-Extended plan.target_key plan.bound_datasets_to_extend s3 t h3;
          }

  resolve_bare-Source :
      (from : Str) (s t : S) (snap : SnapshotRef)
      → Lacks b'@' from
      → from ≢ []
      → resolve_bare r from s ≡ (ok snap, t)
      → Source from snap s t
  unfolding resolve_bare active_be_dataset
  resolve_bare-Source from s t snap lacks full h =
      continue_cases (active_be_dataset r s) _ h λ ds s1 e1 h1.
        continue_cases (Sub.capture r (codes "zpool") _ s) _ e1 λ text u e g.
          let (out, ran, z, same) = Sub.capture_done r _ _ e in
          let (active, end) = lift-eq-ok _ u g in
          let (is, last) = ok_injective h1 in
          Source.bare lacks full out (ran ∙ ap (λ x. (ok out, x)) (sym end ∙ last)) z ds
            (active_in-FirstBoot (lines out.stdout) ds
              (ap (λ x. active_in (lines x)) (sym same) ∙ active))
            (sym is)

  pub resolve_from-Source :
      (from : Str) (s t : S) (snap : SnapshotRef)
      → resolve_from r from s ≡ (ok snap, t)
      → Source from snap s t
  unfolding resolve_from
  resolve_from-Source from s t snap h = elim (Bool-cases (contains_char b'@' from)) [
    | inl at ↦
        let (read, end) = lift-eq-ok _ s (rw at at h) in
        subst (Source from snap s) (sym end)
          (Source.written (has_char b'@' from at) (ok_or_sound _ (parse_snapshot_ref from) read))
    | inr n ↦ elim (Bool-cases (is_empty from)) [
      | inl e ↦ absurd (ok-ne-err (sym (rw (n, e) at h)))
      | inr f ↦
          resolve_bare-Source from s t snap (contains_char-false b'@' from n) (filled from f)
            (rw (n, f) at h)
    ]
  ]
