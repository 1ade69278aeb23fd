-- ===== src/Cli/Drop/RealZfs/Listing.antt =====
-- What the rows of a listing show of the properties that were read (cli/src/cmd/drop.rs).
use zboot.Base.{
  ◌≡◌, ◌≢◌, refl, ap, ap₂, subst, sym, All, ◌∙◌, Bool, true, false, List, [], ◌∷◌, map, Str, ◌==◌,
  str_eq, str_beq_iff, Bool-cases, inl, inr, if◌then◌else◌,
}
use zboot.Core.Types.Property.{
  Property, bootfs, cachefile, mountpoint, canmount, origin, zboot_role, zboot_be,
  zboot_attached_to, zboot_set, zboot_created_by, other,
}
use zboot.Cli.Drop.{DatasetRow}
use zboot.Cli.Drop.RealZfs.{new_row, set_field, set_first, set_fields}

-- The properties of one dataset, in order.
abbrev pub own : Str → List (Str × Property) → List Property
own n [] = []
own n ((name, prop) ∷ props) = let rest = own n props in if n == name then prop ∷ rest else rest

abbrev pub apply_all : List Property → DatasetRow → DatasetRow
apply_all [] row = row
apply_all (p ∷ ps) row = apply_all ps (set_field p row)

set_field-name : (p : Property) (row : DatasetRow) → (set_field p row).name ≡ row.name
unfolding set_field
set_field-name (bootfs _) row = refl
set_field-name (cachefile _) row = refl
set_field-name (mountpoint _) row = refl
set_field-name (canmount _) row = refl
set_field-name (origin _) row = refl
set_field-name (zboot_role _) row = refl
set_field-name (zboot_be _) row = refl
set_field-name (zboot_attached_to _) row = refl
set_field-name (zboot_set _) row = refl
set_field-name (zboot_created_by _) row = refl
set_field-name (other _ _) row = refl

abbrev pub Distinct : List Str → Type 0
Distinct [] = Unit
Distinct (n ∷ ns) = All (λ (m : Str). m ≢ n) ns × Distinct ns

map-All {ℓ κ} :
    {A : Type ℓ} {B : Type κ} (f g : A → B) (xs : List A)
    → All (λ x. f x ≡ g x) xs
    → map f xs ≡ map g xs
map-All f g [] h = refl
map-All f g (x ∷ xs) (e, h) = ap₂ (λ a b. a ∷ b) e (map-All f g xs h)

all_of {ℓ κ} : {A : Type ℓ} {P : A → Type κ} (xs : List A) → ((x : A) → P x) → All P xs
all_of [] h = tt
all_of (x ∷ xs) h = (h x, all_of xs h)

-- What one property makes of the row of `n`.
abbrev stepped : Str → Property → (Str → DatasetRow) → Str → DatasetRow
stepped name prop f n = if n == name then set_field prop (f n) else f n

stepped-absent :
    (name : Str) (prop : Property) (f : Str → DatasetRow) (ns : List Str)
    → All (λ (m : Str). m ≢ name) ns
    → map (stepped name prop f) ns ≡ map f ns
stepped-absent name prop f [] h = refl
stepped-absent name prop f (n ∷ ns) (hn, h) =
    ap₂ (λ a b. a ∷ b) (unequal (n == name) refl) (stepped-absent name prop f ns h)
  where
    unequal : (b : Bool) → (n == name) ≡ b → stepped name prop f n ≡ f n
    unequal true e = absurd (hn ((str_beq_iff n name).0 e))
    unequal false e = rw e

set_first-map :
    (name : Str) (prop : Property) (f : Str → DatasetRow) (ns : List Str)
    → ((n : Str) → (f n).name ≡ n)
    → Distinct ns
    → set_first name prop (map f ns) ≡ map (stepped name prop f) ns
unfolding set_first
set_first-map name prop f [] named d = refl
set_first-map name prop f (n ∷ ns) named (fresh, d) = elim (Bool-cases (n == name)) [
  | inl e ↦
      rw (ap (λ m. m == name) (named n) ∙ e, e)
        (ap (λ rows. set_field prop (f n) ∷ rows)
          (sym (
            stepped-absent name prop f ns
              (subst (λ k. All (λ (m : Str). m ≢ k) ns) ((str_beq_iff n name).0 e) fresh))))
  | inr e ↦
      rw (ap (λ m. m == name) (named n) ∙ e, e)
        (ap (λ rows. f n ∷ rows) (set_first-map name prop f ns named d))
]

stepped-name :
    (name : Str) (prop : Property) (f : Str → DatasetRow)
    → ((n : Str) → (f n).name ≡ n)
    → (n : Str) → (stepped name prop f n).name ≡ n
stepped-name name prop f named n = elim (Bool-cases (n == name)) [
  | inl e ↦ rw e (set_field-name prop (f n) ∙ named n)
  | inr e ↦ rw e (named n)
]

stepped-apply :
    (name : Str) (prop : Property) (props : List (Str × Property)) (f : Str → DatasetRow) (n : Str)
    → apply_all (own n props) (stepped name prop f n)
      ≡ apply_all (own n ((name, prop) ∷ props)) (f n)
stepped-apply name prop props f n = elim (Bool-cases (n == name)) [ inl e ↦ rw e | inr e ↦ rw e ]

set_fields-map :
    (props : List (Str × Property)) (f : Str → DatasetRow) (ns : List Str)
    → Distinct ns
    → ((n : Str) → (f n).name ≡ n)
    → set_fields props (map f ns) ≡ map (λ n. apply_all (own n props) (f n)) ns
unfolding set_fields
set_fields-map [] f ns d named = refl
set_fields-map ((name, prop) ∷ props) f ns d named =
    ap (set_fields props) (set_first-map name prop f ns named d)
    ∙ set_fields-map props (stepped name prop f) ns d (stepped-name name prop f named)
    ∙ map-All _ _ ns (all_of ns (stepped-apply name prop props f))

-- A listing has one row for each dataset, in order, and it is made by the properties of that dataset
-- alone, in the order in which they were read. Condition: the names are distinct.
pub set_fields_lem :
    (props : List (Str × Property)) (names : List Str)
    → Distinct names
    → set_fields props (map new_row names) ≡ map (λ n. apply_all (own n props) (new_row n)) names
set_fields_lem props names d = set_fields-map props new_row names d (λ n. refl)
