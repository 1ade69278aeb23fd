-- ===== src/Cli/Drop/RealZfs/Printed.antt =====
-- What `zfs get` prints of datasets, and the rows that `RealZfs` reads from it (cli/src/cmd/drop.rs).
use zboot.Base.{
  ◌≡◌, refl, sym, ap, ◌∙◌, Bool, Option, none, some, List, [], ◌∷◌, ◌++◌, map, Str, ◌==◌, str_eq,
  str_beq, str_beq_iff, nat_eq, subst, Result, ok, err, and_then, Bool-cases, inl, inr,
  if◌then◌else◌,
}
use zboot.Text.{codes}
use zboot.Core.Types.{ParseError, SnapshotRef, BoundList, parse_bound_list}
use zboot.Core.Types.Property.{Property, zboot_be, origin, zboot_attached_to, other}
use zboot.Core.Parse.{parse_property, parse_bool, parse_optional_snapshot_ref}
use zboot.Core.Parse.Tables.{Row, read_rows}
use zboot.Cli.Drop.{DatasetRow}
use zboot.Cli.Drop.RealZfs.Listing.{Distinct}
use zboot.Cli.Drop.RealZfs.{new_row, set_fields}
use zboot.Cli.Drop.RealZfs.Fields.{bound_prop, props_of, all_props, row_names, set_fields-all}

-- What is printed of a dataset: its name and three properties.
pub record Printed : Type 0 where
  pub name : Str
  pub be : Str
  pub from : Str
  pub attached_to : Str

abbrev pub printed_rows : Printed → List Row
printed_rows d =
    record { name = d.name; property = codes "zboot:be"; value = d.be }
    ∷ record { name = d.name; property = codes "origin"; value = d.from }
    ∷ record { name = d.name; property = codes "zboot:attached-to"; value = d.attached_to }
    ∷ []

abbrev pub all_printed : List Printed → List Row
all_printed [] = []
all_printed (d ∷ ds) = printed_rows d ++ all_printed ds

-- A list that is not set is printed as `-`.
abbrev pub read_bound : Str → Result ParseError (Option BoundList)
read_bound v = if v == codes "-" then ok none else and_then (parse_bound_list v) (λ l. ok (some l))

-- A dataset as its own properties say.
abbrev pub read_dataset : Printed → Result ParseError DatasetRow
read_dataset d = and_then (parse_bool d.be) λ be.
    and_then (parse_optional_snapshot_ref d.from) λ from.
      and_then (read_bound d.attached_to)
        λ bound. ok (record { name = d.name; is_be = be; origin = from; bound_to = bound })

-- Every dataset in order, up to the first that has a malformed property.
abbrev pub read_datasets : List Printed → Result ParseError (List DatasetRow)
read_datasets [] = ok []
read_datasets (d ∷ ds) =
    and_then (read_dataset d) λ row. and_then (read_datasets ds) λ rows. ok (row ∷ rows)

attached-read :
    (v : Str)
    → parse_property (codes "zboot:attached-to") v
      ≡ and_then (read_bound v) (λ o. ok (bound_prop o))
unfolding parse_property str_beq
attached-read v = elim (Bool-cases (v == codes "-")) [
  | inl e ↦
      rw (e) (ap (λ x. ok (other (codes "zboot:attached-to") x)) ((str_beq_iff v (codes "-")).0 e))
  | inr e ↦ rw (e) (at (parse_bound_list v))
]
  where
    at :
        (x : Result ParseError BoundList)
        → and_then x (λ l. ok (zboot_attached_to l))
          ≡ and_then (and_then x (λ l. ok (some l))) (λ o. ok (bound_prop o))
    at (ok l) = refl
    at (err e) = refl

origin-read :
    (v : Str)
    → parse_property (codes "origin") v
      ≡ and_then (parse_optional_snapshot_ref v) (λ o. ok (origin o))
unfolding parse_property str_beq
origin-read v = refl

be-read :
    (v : Str) → parse_property (codes "zboot:be") v ≡ and_then (parse_bool v) (λ b. ok (zboot_be b))
unfolding parse_property str_beq
be-read v = refl

-- The three values and the rest, read one after the other or the values first.
read_in_turn :
    (n : Str) (a : Result ParseError Bool) (o : Result ParseError (Option SnapshotRef))
    (l : Result ParseError (Option BoundList)) (m : Result ParseError (List (Str × Property)))
    → and_then (and_then a (λ b. ok (zboot_be b))) (λ p.
      and_then
        (and_then (and_then o (λ x. ok (origin x))) (λ q.
          and_then
            (and_then
              (and_then l (λ x. ok (bound_prop x)))
              (λ u. and_then m (λ rest. ok ((n, u) ∷ rest))))
            (λ rest. ok ((n, q) ∷ rest))))
        (λ rest. ok ((n, p) ∷ rest)))
      ≡ and_then
          (and_then a λ be. and_then o λ from.
            and_then l
              λ bound. ok (record { name = n; is_be = be; origin = from; bound_to = bound }))
          (λ row. and_then m (λ rest. ok (props_of row ++ rest)))
read_in_turn n (err e) o l m = refl
read_in_turn n (ok a) (err e) l m = refl
read_in_turn n (ok a) (ok o) (err e) m = refl
read_in_turn n (ok a) (ok o) (ok l) (err e) = refl
read_in_turn n (ok a) (ok o) (ok l) (ok m) = refl

read_rows-printed :
    (d : Printed) (more : List Row)
    → read_rows (printed_rows d ++ more)
      ≡ and_then
          (read_dataset d)
          (λ row. and_then (read_rows more) (λ rest. ok (props_of row ++ rest)))
read_rows-printed d more =
    rw (be-read d.be, origin-read d.from, attached-read d.attached_to)
      (read_in_turn d.name (parse_bool d.be) (parse_optional_snapshot_ref d.from)
        (read_bound d.attached_to) (read_rows more))

read_rows-all :
    (ds : List Printed)
    → read_rows (all_printed ds) ≡ and_then (read_datasets ds) (λ rows. ok (all_props rows))
read_rows-all [] = refl
read_rows-all (d ∷ ds) =
    read_rows-printed d (all_printed ds)
    ∙ ap (λ m. and_then (read_dataset d) (λ row. and_then m (λ rest. ok (props_of row ++ rest))))
        (read_rows-all ds)
    ∙ step (read_dataset d) (read_datasets ds)
  where
    step :
        (x : Result ParseError DatasetRow) (y : Result ParseError (List DatasetRow))
        → and_then x (λ row.
          and_then (and_then y (λ rows. ok (all_props rows))) (λ rest. ok (props_of row ++ rest)))
          ≡ and_then
              (and_then x (λ row. and_then y (λ rows. ok (row ∷ rows))))
              (λ rows. ok (all_props rows))
    step (err e) y = refl
    step (ok row) (err e) = refl
    step (ok row) (ok rows) = refl

abbrev pub names_of : List Printed → List Str
names_of ds = map (λ (d : Printed). d.name) ds

-- The rows that were read, if they were, have these names.
abbrev Names : List Str → Result ParseError (List DatasetRow) → Type 0
Names ns (ok rows) = row_names rows ≡ ns
Names ns (err e) = Unit

read_datasets-Names : (ds : List Printed) → Names (names_of ds) (read_datasets ds)
read_datasets-Names [] = refl
read_datasets-Names (d ∷ ds) =
    more (parse_bool d.be) (parse_optional_snapshot_ref d.from) (read_bound d.attached_to)
      (read_datasets ds) (read_datasets-Names ds)
  where
    more :
        (a : Result ParseError Bool) (o : Result ParseError (Option SnapshotRef))
        (l : Result ParseError (Option BoundList)) (y : Result ParseError (List DatasetRow))
        → Names (names_of ds) y
        → Names (d.name ∷ names_of ds) (
            and_then
              (and_then a λ be. and_then o λ from.
                and_then l λ bound.
                  ok (record { name = d.name; is_be = be; origin = from; bound_to = bound }))
              (λ row. and_then y λ rows. ok (row ∷ rows)))
    more (err e) o l y h = tt
    more (ok a) (err e) l y h = tt
    more (ok a) (ok o) (err e) y h = tt
    more (ok a) (ok o) (ok l) (err e) h = tt
    more (ok a) (ok o) (ok l) (ok rows) h = ap (λ ns. d.name ∷ ns) h

pub rows-read :
    (ds : List Printed)
    → Distinct (names_of ds)
    → and_then
        (read_rows (all_printed ds))
        (λ props. ok (set_fields props (map new_row (names_of ds))))
      ≡ read_datasets ds
rows-read ds d =
    ap (λ x. and_then x (λ props. ok (set_fields props (map new_row (names_of ds)))))
      (read_rows-all ds)
    ∙ at (read_datasets ds) (read_datasets-Names ds)
  where
    at :
        (x : Result ParseError (List DatasetRow))
        → Names (names_of ds) x
        → and_then
            (and_then x (λ rows. ok (all_props rows)))
            (λ props. ok (set_fields props (map new_row (names_of ds))))
          ≡ x
    at (err e) h = refl
    at (ok rows) h = ap ok (
        ap (λ ns. set_fields (all_props rows) (map new_row ns)) (sym h)
        ∙ set_fields-all rows (subst Distinct (sym h) d))
