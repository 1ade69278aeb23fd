-- ===== src/Cli/Drop/Promote.antt =====
-- The loop of promotions of `zboot drop` (cli/src/cmd/drop.rs, `promote_dependent_clones`).
use zboot.Base.{
  ℕ, zero, suc, ◌≤◌, ◌<◌, ◌≡◌, ◌↔◌, ap, subst, sym, ◌∙◌, false, none, some, List, [], ◌∷◌, ◌++◌,
  append_assoc, append-nil, Str, ok, arith, find, find-none, length, All, Option-cases, inl, inr,
}
use zboot.Cli.Io.{continue, continue-eq-ok, continue-ok, ok_injective, pure}
use zboot.Cli.Drop.{DatasetRow, Zfs, is_clone_of, promote_loop, promote_dependent_clones}

module _ {S : Type 0} (zfs : Zfs S) (target : Str) where
  -- The promotions that the loop is to make: as long as the listing shows a clone of the target, the
  -- first one is promoted; the names are in order, and the last listing shows no clone.
  pub data Promotes : S → List Str → S → Type 0 where
    settled :
        (s t : S) (rows : List DatasetRow)
        → zfs.list_datasets s ≡ (ok rows, t)
        → find (is_clone_of target) rows ≡ none
        → Promotes s [] t
    promoted :
        (s t u : S) (rows : List DatasetRow) (r : DatasetRow) (names : List Str) (end : S)
        → zfs.list_datasets s ≡ (ok rows, t)
        → find (is_clone_of target) rows ≡ some r
        → zfs.promote r.name t ≡ (ok tt, u)
        → Promotes u names end
        → Promotes s (r.name ∷ names) end

  loop_sound :
      (rounds : ℕ) (before : List Str) (s : S) (all : List Str) (end : S)
      → promote_loop zfs rounds target before s ≡ (ok all, end)
      → (names : List Str) × (all ≡ before ++ names)
        × Promotes s names end
        × (length names < rounds)
  unfolding promote_loop
  loop_sound zero before s all end h = absurd (ground arith)
  loop_sound (suc rounds) before s all end h =
      let less : length {A = Str} [] < suc rounds = omega arith in
      let (rows, t, listed, rest) = continue-eq-ok (zfs.list_datasets s) _ h in
      elim (Option-cases (find (is_clone_of target) rows)) [
        | inl e ↦
            let ends : pure {S = S} before t ≡ (ok all, end) = rw e at rest in
            let (same, here) = ok_injective ends in
            (
              [],
              sym same ∙ sym (append-nil before),
              subst (Promotes s []) here (settled s t rows listed e),
              less,
            )
        | inr (r, e) ↦
            let step : continue (zfs.promote r.name t)
                  (λ _. promote_loop zfs rounds target (before ++ r.name ∷ []))
                ≡ (ok all, end) =
              rw e at rest in
            let (_, u, done, more) = continue-eq-ok (zfs.promote r.name t) _ step in
            let (names, whole, path, few) =
              loop_sound rounds (before ++ r.name ∷ []) u all end more in
            (
              r.name ∷ names,
              whole ∙ append_assoc before (r.name ∷ []) names,
              promoted s t u rows r names end listed e done path,
              omega arith,
            )
      ]

  loop_complete :
      (rounds : ℕ) (before names : List Str) (s end : S)
      → Promotes s names end
      → length names < rounds
      → promote_loop zfs rounds target before s ≡ (ok (before ++ names), end)
  unfolding promote_loop
  loop_complete zero before names s end p h = absurd (omega arith)
  loop_complete (suc rounds) before _ _ _ (settled s t rows listed e) h =
      continue-ok _ listed ∙ rw e (rw (append-nil before))
  loop_complete (suc rounds) before _ _ _ (promoted s t u rows r names end listed e done p) h =
      continue-ok _ listed
      ∙ rw e (
          continue-ok _ done
          ∙ (loop_complete rounds (before ++ r.name ∷ []) names u end p (omega arith)
              ∙ ap (λ l. (ok l, end)) (append_assoc before (r.name ∷ []) names)))

-- What `zfs list` and `zfs promote` are relied on for: a listing succeeds and changes nothing, and a
-- listed clone of the target can be promoted, after which the target has fewer clones.
pub record IsPromoting {S : Type 0} (zfs : Zfs S) (target : Str) : Type 0 where
  pub clones : S → ℕ
  pub rows : S → List DatasetRow
  pub listed : (s : S) → zfs.list_datasets s ≡ (ok (rows s), s)
  pub promotes :
      (s : S) (r : DatasetRow)
      → find (is_clone_of target) (rows s) ≡ some r
      → (t : S) × (zfs.promote r.name s ≡ (ok tt, t)) × (clones t < clones s)

module _ {S : Type 0} (zfs : Zfs S) (target : Str) (z : IsPromoting zfs target) where
  open z use {clones, rows, listed, promotes}

  promotions_end :
      (bound : ℕ) (s : S)
      → clones s < bound
      → (names : List Str) × (end : S) × Promotes zfs target s names end × (length names ≤ clones s)
  promotions_end zero s h = absurd (omega arith)
  promotions_end (suc bound) s h = elim (Option-cases (find (is_clone_of target) (rows s))) [
    | inl e ↦ ([], s, settled s s (rows s) (listed s) e, omega arith)
    | inr (r, e) ↦
        let (u, did, fewer) = promotes s r e in
        let (names, end, path, few) = promotions_end bound u (omega arith) in
        (
          r.name ∷ names,
          end,
          promoted s s u (rows s) r names end (listed s) e did path,
          omega arith,
        )
  ]

  Promotes-none :
      {s end : S} {names : List Str}
      → Promotes zfs target s names end
      → All (λ r. is_clone_of target r ≡ false) (rows end)
  Promotes-none (settled s t shown shows e) =
      let (same, here) = ok_injective (sym (listed s) ∙ shows) in
      find-none (is_clone_of target) (rows t) (rw (← here) (rw same e))
  Promotes-none (promoted s t u shown r names end shows e did p) = Promotes-none p

-- `drop` promotes exactly the clones that stand first in each new listing until a listing shows no
-- clone of the target, and succeeds exactly if that takes fewer than 256 promotions.
pub promote_dependent_clones_lem :
    {S : Type 0} (zfs : Zfs S) (target : Str) (s : S) (names : List Str) (end : S)
    → (promote_dependent_clones zfs target s ≡ (ok names, end))
      ↔ (Promotes zfs target s names end × (length names < 256))
unfolding promote_dependent_clones
promote_dependent_clones_lem zfs target s names end = (
  λ h.
      let (ps, same, path, few) = loop_sound zfs target 256 [] s names end h in rw same (path, few),
  λ (path, few). loop_complete zfs target 256 [] names s end path few,
)

-- If listings succeed and each promotion of a listed clone succeeds and lowers the number of clones,
-- then with fewer than 256 clones of the target the promotions succeed, and leave a state in which
-- the listing shows no clone of the target.
pub promote_dependent_clones_total :
    {S : Type 0} (zfs : Zfs S) (target : Str) (z : IsPromoting zfs target) (s : S)
    → z.clones s < 256
    → (names : List Str) × (end : S) × (promote_dependent_clones zfs target s ≡ (ok names, end))
      × All (λ r. is_clone_of target r ≡ false) (z.rows end)
promote_dependent_clones_total zfs target z s h =
    let (names, end, path, few) = promotions_end zfs target z (suc (z.clones s)) s (omega arith) in
    (
      names,
      end,
      (promote_dependent_clones_lem zfs target s names end).1 (path, omega arith),
      Promotes-none zfs target z path,
    )
