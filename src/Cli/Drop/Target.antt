-- ===== src/Cli/Drop/Target.antt =====
-- Which boot environment `zboot drop NAME` takes, and which confirmation it wants (cli/src/cmd/drop.rs).
use zboot.Base.{
  ◌≡◌, ◌↔◌, refl, sym, subst, true, false, List, [], ◌∷◌, Str, str_eq, str_beq_iff, ok, arith, find,
  find_sound, filter, filter-Picks, find-In, In-one, In, Option-cases, inl, inr, nat_eq,
}
use zboot.Text.{contains_char, trim}
use zboot.Cli.Drop.{
  DatasetRow, TargetBe, Input, target_of, is_exact, is_named, only_match, exact_match, pick_target,
  dataset_leaf, confirm_with,
}

only_match_sound :
    (name : Str) (rows : List DatasetRow) (t : TargetBe)
    → only_match name rows ≡ ok t
    → (r : DatasetRow) × (rows ≡ r ∷ []) × (t ≡ target_of r)
unfolding only_match
only_match_sound name [] t h = absurd (ground arith)
only_match_sound name (r ∷ []) t h = (r, refl, ground arith)
only_match_sound name (a ∷ b ∷ rows) t h = absurd (ground arith)

-- A name without a slash picks a boot environment with this leaf only if there is no other one in
-- any pool: every row that fits is the row that is taken.
pub pick_target-bare :
    (name : Str) (rows : List DatasetRow) (t : TargetBe)
    → contains_char b'/' name ≡ false
    → pick_target name rows ≡ ok t
    → (r : DatasetRow) × In r rows
      × (r.is_be ≡ true)
      × (dataset_leaf r.name ≡ name)
      × (t ≡ target_of r)
      × ((q : DatasetRow) → In q rows → is_named name q ≡ true → q ≡ r)
unfolding pick_target
pick_target-bare name rows t bare h =
    let (r, only, same) = only_match_sound name (filter (is_named name) rows) t (ground arith) in
    let picks = filter-Picks (is_named name) rows in
    let (listed, fits) = (picks r).0 (subst (In r) (sym only) In.here) in
    (
      r,
      listed,
      ground (arith, fits),
      ground (arith, fits, str_beq_iff (dataset_leaf r.name) name),
      same,
      λ q m e. In-one (subst (In q) only ((picks q).1 (m, e))),
    )

-- A name with a slash picks exactly the boot environment of that path.
pub pick_target-path :
    (name : Str) (rows : List DatasetRow) (t : TargetBe)
    → contains_char b'/' name ≡ true
    → pick_target name rows ≡ ok t
    → (r : DatasetRow) × In r rows × (r.is_be ≡ true) × (r.name ≡ name) × (t ≡ target_of r)
unfolding pick_target exact_match
pick_target-path name rows t path h = elim (Option-cases (find (is_exact name) rows)) [
  | inl e ↦ absurd (ground arith)
  | inr (r, e) ↦
      let fits = find_sound (is_exact name) rows e in
      (
        r,
        find-In (is_exact name) rows e,
        ground (arith, fits),
        ground (arith, fits, str_beq_iff r.name name),
        ground arith,
      )
]

-- The only input that is accepted is a line that is the dataset's path, up to whitespace around it.
pub confirm_with_iff :
    (input : Input) (expected : Str)
    → (confirm_with input expected ≡ ok tt)
      ↔ ((l : Str) × (input ≡ Input.line l) × (trim l ≡ expected))
unfolding confirm_with
confirm_with_iff input expected = (confirmed input, accepted)
  where
    confirmed :
        (i : Input)
        → confirm_with i expected ≡ ok tt
        → (l : Str) × (i ≡ Input.line l) × (trim l ≡ expected)
    confirmed Input.failed h = absurd (ground arith)
    confirmed Input.eof h = absurd (ground arith)
    confirmed (Input.line l) h = (l, refl, ground (arith, str_beq_iff (trim l) expected))

    accepted :
        (l : Str) × (input ≡ Input.line l) × (trim l ≡ expected)
        → confirm_with input expected ≡ ok tt
    accepted (l, e, same) = rw e (ground (arith, same, str_beq_iff (trim l) expected))
