-- ===== src/Cli/Drop/Purge.antt =====
-- What `purge_be_from_bound_lists` leaves (cli/src/cmd/drop.rs).
use zboot.Base.{
  ◌≡◌, ◌≢◌, refl, ap, subst, ◌∙◌, Bool, true, false, Option, none, some, List, [], ◌∷◌, ◌++◌,
  append_assoc, append-nil, Str, ◌==◌, str_eq, str_beq_iff, ok, arith, elem, is_empty, All, All-imp,
  Bool-cases, Option-cases, inl, inr, if◌then◌else◌, beq_refl,
}
use zboot.Core.Types.{BoundKey, key_eq, BoundList, remove_key, render_bound_list, parse_bound_list}
use zboot.Core.Types.Keys.{IsKey, remove_key-IsKey, parse-render_bound_list, elem-remove_key}
use zboot.Cli.Io.{continue-ok}
use zboot.Cli.Drop.{DatasetRow, Zfs, purge_row, purge_rows, purge_be_from_bound_lists}

-- What the verb relies on: a listing succeeds, changes nothing and shows every list; a list that was
-- written is read back by its parser; `zfs inherit` takes the list away; no other dataset changes.
pub record IsBinding {S : Type 0} (zfs : Zfs S) : Type 0 where
  pub bound : S → Str → Option BoundList
  pub rows : S → List DatasetRow
  pub listed : (s : S) → zfs.list_datasets s ≡ (ok (rows s), s)
  pub shown : (s : S) → All (λ (r : DatasetRow). bound s r.name ≡ r.bound_to) (rows s)
  pub sets :
      (s : S) (n v : Str) (l : BoundList)
      → parse_bound_list v ≡ ok l
      → (t : S) × (zfs.set_bound_to n v s ≡ (ok tt, t))
        × ((j : Str) → bound t j ≡ (if n == j then some l else bound s j))
  pub unsets :
      (s : S) (n : Str)
      → (t : S) × (zfs.unset_bound_to n s ≡ (ok tt, t))
        × ((j : Str) → bound t j ≡ (if n == j then none else bound s j))

-- A list without the key; a list that would be empty is none.
abbrev pub purged : BoundKey → Option BoundList → Option BoundList
purged key none = none
purged key (some l) =
    let rest = (remove_key key l).0 in
    if elem key l then (if is_empty rest then none else some rest) else some l

-- The dataset loses its only binding.
abbrev pub orphaned : BoundKey → Option BoundList → Bool
orphaned key none = false
orphaned key (some l) = if elem key l then is_empty (remove_key key l).0 else false

abbrev pub orphans_of : BoundKey → List DatasetRow → List Str
orphans_of key [] = []
orphans_of key (r ∷ rows) =
    let rest = orphans_of key rows in if orphaned key r.bound_to then r.name ∷ rest else rest

abbrev pub DistinctNames : List DatasetRow → Type 0
DistinctNames [] = Unit
DistinctNames (r ∷ rows) = All (λ (q : DatasetRow). q.name ≢ r.name) rows × DistinctNames rows

-- Every list that is shown can be written.
abbrev pub KeysIn : Option BoundList → Type 0
KeysIn none = Unit
KeysIn (some l) = All IsKey l

more_orphans :
    (b : Bool) (os rest : List Str) (n : Str)
    → (if b then os ++ n ∷ [] else os) ++ rest ≡ os ++ (if b then n ∷ rest else rest)
more_orphans true os rest n = append_assoc os (n ∷ []) rest
more_orphans false os rest n = refl

module _ {S : Type 0} (zfs : Zfs S) (z : IsBinding zfs) (key : BoundKey) where
  open z use {bound, sets, unsets}

  -- One row: its own list is purged, and nothing else changes.
  purge_one :
      (s : S) (n : Str) (l : BoundList) (orphans : List Str)
      → All IsKey l
      → (t : S) × (purge_row zfs n (remove_key key l).0 orphans s
          ≡ (ok (if is_empty (remove_key key l).0 then orphans ++ n ∷ [] else orphans), t))
        × ((j : Str)
            → bound t j ≡ (
                if n == j
                then (if is_empty (remove_key key l).0 then none else some (remove_key key l).0)
                else bound s j))
  unfolding purge_row
  purge_one s n l orphans keys = elim (Bool-cases (is_empty (remove_key key l).0)) [
    | inl last ↦
        let (t, did, after) = unsets s n in (t, rw last (continue-ok _ did), λ j. rw last (after j))
    | inr more ↦
        let fits = remove_key-IsKey key l keys in
        let (t, did, after) =
          sets s n (render_bound_list (remove_key key l).0) (remove_key key l).0
            (parse-render_bound_list _ fits) in
        (t, rw more (continue-ok _ did), λ j. rw more (after j))
  ]

  -- What the rows that are left do to the list of `j`.
  abbrev after_rows : List DatasetRow → Str → Option BoundList → Option BoundList
  after_rows [] j old = old
  after_rows (r ∷ rows) j old = if r.name == j then purged key r.bound_to else after_rows rows j old

  after_rows-absent :
      (rows : List DatasetRow) (j : Str) (old : Option BoundList)
      → All (λ (q : DatasetRow). q.name ≢ j) rows
      → after_rows rows j old ≡ old
  after_rows-absent [] j old h = refl
  after_rows-absent (r ∷ rows) j old (hr, h) =
      ground (arith, str_beq_iff r.name j, after_rows-absent rows j old h)

  step_after :
      (r : DatasetRow) (rows : List DatasetRow) (s u t : S)
      → All (λ (q : DatasetRow). q.name ≢ r.name) rows
      → ((j : Str) → bound u j ≡ (if r.name == j then purged key r.bound_to else bound s j))
      → ((j : Str) → bound t j ≡ after_rows rows j (bound u j))
      → (j : Str) → bound t j ≡ after_rows (r ∷ rows) j (bound s j)
  step_after r rows s u t fresh first later j = elim (Bool-cases (r.name == j)) [
    | inl same ↦
        let e = (str_beq_iff r.name j).0 same in
        let absent = subst (λ (n : Str). All (λ (q : DatasetRow). q.name ≢ n) rows) e fresh in
        ground (arith, same, first j, later j, after_rows-absent rows j (bound u j) absent)
    | inr other ↦ rw other (later j ∙ ap (after_rows rows j) (first j ∙ rw other))
  ]

  -- A row that keeps its list.
  kept :
      (r : DatasetRow) (s : S)
      → bound s r.name ≡ r.bound_to
      → purged key r.bound_to ≡ r.bound_to
      → (j : Str) → bound s j ≡ (if r.name == j then purged key r.bound_to else bound s j)
  kept r s here same j = elim (Bool-cases (r.name == j)) [
    | inl e ↦ rw (e, same, ← (str_beq_iff r.name j).0 e) here
    | inr e ↦ rw e
  ]

  still_shown :
      (r : DatasetRow) (rows : List DatasetRow) (s u : S) (new : Option BoundList)
      → All (λ (q : DatasetRow). q.name ≢ r.name) rows
      → ((j : Str) → bound u j ≡ (if r.name == j then new else bound s j))
      → All (λ (q : DatasetRow). bound s q.name ≡ q.bound_to) rows
      → All (λ (q : DatasetRow). bound u q.name ≡ q.bound_to) rows
  still_shown r [] s u new fresh after h = tt
  still_shown r (q ∷ rows) s u new (hq, fresh) after (e, h) = (
    ground (arith, after q.name, str_beq_iff r.name q.name, hq, e),
    still_shown r rows s u new fresh after h,
  )

  purge_rows_lem :
      (rows : List DatasetRow) (s : S) (orphans : List Str)
      → DistinctNames rows
      → All (λ (r : DatasetRow). KeysIn r.bound_to) rows
      → All (λ (r : DatasetRow). bound s r.name ≡ r.bound_to) rows
      → (t : S) × (purge_rows zfs key rows orphans s ≡ (ok (orphans ++ orphans_of key rows), t))
        × ((j : Str) → bound t j ≡ after_rows rows j (bound s j))
  unfolding purge_rows still_shown
  purge_rows_lem [] s orphans _ _ _ = (s, rw (append-nil orphans), λ j. refl)
  purge_rows_lem (r ∷ rows) s orphans (fresh, distinct) (keys, all_keys) (here, shown) =
      elim (Option-cases r.bound_to) [
        | inl e ↦
            let (t, did, after) = purge_rows_lem rows s orphans distinct all_keys shown in
            (t, rw e did, step_after r rows s s t fresh (kept r s here (rw e)) after)
        | inr (l, e) ↦ elim (Bool-cases (elem key l)) [
          | inl listed ↦
              let (u, one, first) = purge_one s r.name l orphans (rw e at keys) in
              let out = if is_empty (remove_key key l).0 then orphans ++ r.name ∷ [] else orphans in
              let (t, did, after) =
                purge_rows_lem rows u out distinct all_keys
                  (still_shown r rows s u _ fresh first shown) in
              (
                t,
                rw e (
                    rw listed (
                      continue-ok _ one
                      ∙ did
                      ∙ ap (λ o. (ok o, t))
                          (more_orphans (is_empty (remove_key key l).0) orphans
                            (orphans_of key rows) r.name))),
                step_after r rows s u t fresh (λ j. first j ∙ rw e (rw listed)) after,
              )
          | inr other ↦
              let (t, did, after) = purge_rows_lem rows s orphans distinct all_keys shown in
              (
                t,
                rw e (rw other did),
                step_after r rows s s t fresh (kept r s here (rw e (rw other))) after,
              )
        ]
      ]

  -- Each of the rows has the list that the rows make of it.
  after_rows-each :
      (rows : List DatasetRow) (old : Str → Option BoundList)
      → DistinctNames rows
      → All (λ (r : DatasetRow). after_rows rows r.name (old r.name) ≡ purged key r.bound_to) rows
  after_rows-each [] old _ = tt
  after_rows-each (r ∷ rows) old (fresh, distinct) =
      (rw (beq_refl r.name), others rows fresh (after_rows-each rows old distinct))
    where
      others :
          (qs : List DatasetRow)
          → All (λ (q : DatasetRow). q.name ≢ r.name) qs
          → All (λ (q : DatasetRow). after_rows rows q.name (old q.name) ≡ purged key q.bound_to) qs
          → All
              (λ (q : DatasetRow).
                after_rows (r ∷ rows) q.name (old q.name) ≡ purged key q.bound_to)
              qs
      others [] _ _ = tt
      others (q ∷ qs) (hq, h) (e, es) =
          (ground (arith, hq, e, str_beq_iff r.name q.name), others qs h es)

-- The dropped key is taken out of every list that is shown, a list that holds nothing else is taken
-- away, and the datasets of these lists are the orphans, in the order of the listing. Lists without
-- the key and datasets that are not shown keep their value. Conditions: names are distinct, the keys
-- of each list can be written, and lists are written and read back as `IsBinding` says.
pub purge_be_from_bound_lists_lem :
    {S : Type 0} (zfs : Zfs S) (z : IsBinding zfs) (key : BoundKey) (s : S)
    → DistinctNames (z.rows s)
    → All (λ (r : DatasetRow). KeysIn r.bound_to) (z.rows s)
    → (t : S) × (purge_be_from_bound_lists zfs key s ≡ (ok (orphans_of key (z.rows s)), t))
      × All (λ (r : DatasetRow). z.bound t r.name ≡ purged key r.bound_to) (z.rows s)
      × ((j : Str) → All (λ (r : DatasetRow). r.name ≢ j) (z.rows s) → z.bound t j ≡ z.bound s j)
unfolding purge_be_from_bound_lists
purge_be_from_bound_lists_lem zfs z key s distinct keys =
    let (t, did, after) = purge_rows_lem zfs z key (z.rows s) s [] distinct keys (z.shown s) in
    (
      t,
      continue-ok _ (z.listed s) ∙ did,
      All-imp (λ (r : DatasetRow) e. after r.name ∙ e) (z.rows s)
          (after_rows-each zfs z key (z.rows s) (z.bound s) distinct),
      λ j absent. after j ∙ after_rows-absent zfs z key (z.rows s) j (z.bound s j) absent,
    )

-- No list that is left holds the key.
pub purged-lacks :
    (key : BoundKey) (o : Option BoundList) (l : BoundList)
    → purged key o ≡ some l
    → elem key l ≡ false
purged-lacks key none l h = absurd (ground arith)
purged-lacks key (some m) l h = ground (arith, elem-remove_key key key m, beq_refl key)
