-- ===== src/Cli/Drop/RealZfs/Fields.antt =====
-- The properties that make a row, and that they make it (cli/src/cmd/drop.rs).
use zboot.Base.{
  ◌≡◌, ◌≢◌, refl, sym, ap, ◌∙◌, Option, none, some, List, [], ◌∷◌, ◌++◌, map, Str, ◌==◌, str_eq,
  str_beq_iff, nat_eq, All, Bool-cases, inl, inr,
}
use zboot.Text.{codes}
use zboot.Core.Types.{BoundList}
use zboot.Core.Types.Property.{Property, zboot_be, origin, zboot_attached_to, other}
use zboot.Cli.Drop.{DatasetRow}
use zboot.Cli.Drop.RealZfs.Listing.{Distinct}
use zboot.Cli.Drop.RealZfs.{new_row, set_field, set_first, set_fields}

abbrev pub bound_prop : Option BoundList → Property
bound_prop none = other (codes "zboot:attached-to") (codes "-")
bound_prop (some l) = zboot_attached_to l

abbrev pub props_of : DatasetRow → List (Str × Property)
props_of row =
    (row.name, zboot_be row.is_be)
    ∷ (row.name, origin row.origin)
    ∷ (row.name, bound_prop row.bound_to)
    ∷ []

abbrev pub all_props : List DatasetRow → List (Str × Property)
all_props [] = []
all_props (row ∷ rows) = props_of row ++ all_props rows

abbrev pub row_names : List DatasetRow → List Str
row_names rows = map (λ (q : DatasetRow). q.name) rows

set_first-own :
    (n : Str) (p : Property) (row : DatasetRow) (rows : List DatasetRow)
    → row.name ≡ n
    → set_first n p (row ∷ rows) ≡ set_field p row ∷ rows
unfolding set_first
set_first-own n p row rows e = rw ((str_beq_iff row.name n).1 e) refl

own_first :
    (row : DatasetRow) (rest : List (Str × Property)) (others : List DatasetRow)
    → set_fields (props_of row ++ rest) (new_row row.name ∷ others) ≡ set_fields rest (row ∷ others)
unfolding set_fields set_field
own_first row rest others =
    ap (λ rows. set_fields rest (set_first n q (set_first n (origin row.origin) rows)))
      (set_first-own n (zboot_be row.is_be) (new_row n) others refl)
    ∙ ap (λ rows. set_fields rest (set_first n q rows))
        (set_first-own n (origin row.origin) _ others refl)
    ∙ ap (set_fields rest)
        (set_first-own n q _ others refl ∙ ap (λ r. r ∷ others) (bound row.bound_to))
  where
    n : Str
    n = row.name

    q : Property
    q = bound_prop row.bound_to

    bound :
        (o : Option BoundList)
        → set_field
            (bound_prop o)
            (record { name = n; is_be = row.is_be; origin = row.origin; bound_to = none })
          ≡ record { name = n; is_be = row.is_be; origin = row.origin; bound_to = o }
    bound none = refl
    bound (some l) = refl

set_fields-others :
    (props : List (Str × Property)) (row : DatasetRow) (rows : List DatasetRow)
    → All (λ (p : Str × Property). p.0 ≢ row.name) props
    → set_fields props (row ∷ rows) ≡ row ∷ set_fields props rows
unfolding set_fields set_first
set_fields-others [] row rows h = refl
set_fields-others ((n, p) ∷ props) row rows (hn, h) = elim (Bool-cases (row.name == n)) [
  | inl e ↦ absurd (hn (sym ((str_beq_iff row.name n).0 e)))
  | inr e ↦ rw (e) (set_fields-others props row (set_first n p rows) h)
]

apart :
    (rows : List DatasetRow) (n : Str)
    → All (λ (m : Str). m ≢ n) (row_names rows)
    → All (λ (p : Str × Property). p.0 ≢ n) (all_props rows)
apart [] n h = tt
apart (q ∷ rows) n (hq, h) = (hq, (hq, (hq, apart rows n h)))

pub set_fields-all :
    (rows : List DatasetRow)
    → Distinct (row_names rows)
    → set_fields (all_props rows) (map new_row (row_names rows)) ≡ rows
unfolding set_fields
set_fields-all [] d = refl
set_fields-all (row ∷ rows) (fresh, d) =
    own_first row (all_props rows) (map new_row (row_names rows))
    ∙ set_fields-others (all_props rows) row (map new_row (row_names rows))
        (apart rows row.name fresh)
    ∙ ap (λ rs. row ∷ rs) (set_fields-all rows d)
