-- ===== src/Boot/Discover/Active.antt =====
-- Which boot environments are found and which are active (boot/src/discover.rs).
use zboot.Base.{
  said, last_of, own_rows-field, Option, none, Bool, ap₂, ◌≢◌, find, option_beq, if◌then◌else◌, ◌≡◌,
  refl, sym, ap, ◌↔◌, ◌∙◌, subst, inl, inr, true, false, some, List, [], ◌∷◌, map, Str, ◌==◌,
  str_eq, str_beq_iff, Bool-cases, beq_refl, elem, In, In-map, In-map-inverse, filter, filter-Picks,
  lookup, all_to, fold_rows, own_rows, own_entry, lookup-fold_rows, lookup-all_to, arith,
}
use zboot.Text.{codes}
use zboot.Core.Types.{Pool, BoundList, render_snapshot_ref}
use zboot.Core.Types.Property.{
  Property, bootfs, cachefile, mountpoint, canmount, origin, zboot_role, zboot_be,
  zboot_attached_to, zboot_set, zboot_created_by, other,
}
use zboot.Boot.Discover.{
  BeRecord, RecordAcc, empty_record, note_record, record_of, remove_entry, take_records,
  extract_bes, is_booted, be_json, assemble, forest_from_payload,
}

-- No dataset is listed twice.
abbrev pub Distinct : List Str → Type 0
Distinct [] = Unit
Distinct (d ∷ ds) = (elem d ds ≡ false) × Distinct ds

-- What a property says of a dataset, if it says that.
abbrev pub be_said : Property → Option Bool
be_said (zboot_be b) = some b
be_said _ = none

abbrev pub origin_said : Property → Option (Option Str)
origin_said (origin none) = some none
origin_said (origin (some o)) = some (some (render_snapshot_ref o))
origin_said _ = none

abbrev pub bound_said : Property → Option BoundList
bound_said (zboot_attached_to l) = some l
bound_said _ = none

abbrev pub readonly_said : Property → Option Bool
readonly_said (other name value) =
    if name == codes "readonly" then some (value == codes "on") else none
readonly_said _ = none

-- The record of a dataset: of each field, what the last row of the dataset says that says it.
abbrev pub told_record : Str → List (Str × Property) → Str → BeRecord
told_record pool props ds = record {
  pool = pool;
  dataset = ds;
  is_be = last_of be_said ds props false;
  origin = last_of origin_said ds props none;
  bound_to = last_of bound_said ds props [];
  readonly = last_of readonly_said ds props false;
}

if_same :
    {V W : Type 0} (b : Bool) (field : V → W) (new old : V)
    → field new ≡ field old
    → field (if b then new else old) ≡ field old
if_same true field new old h = h
if_same false field new old h = refl

note-be : (p : Property) (v : RecordAcc) → (note_record p v).is_be ≡ said (be_said p) v.is_be
unfolding note_record
note-be (bootfs _) v = refl
note-be (cachefile _) v = refl
note-be (mountpoint _) v = refl
note-be (canmount _) v = refl
note-be (origin _) v = refl
note-be (zboot_role _) v = refl
note-be (zboot_be _) v = refl
note-be (zboot_attached_to _) v = refl
note-be (zboot_set _) v = refl
note-be (zboot_created_by _) v = refl
note-be (other n x) v = if_same (n == codes "readonly") (λ (a : RecordAcc). a.is_be) _ v refl

note-origin :
    (p : Property) (v : RecordAcc) → (note_record p v).origin ≡ said (origin_said p) v.origin
unfolding note_record
note-origin (bootfs _) v = refl
note-origin (cachefile _) v = refl
note-origin (mountpoint _) v = refl
note-origin (canmount _) v = refl
note-origin (origin none) v = refl
note-origin (origin (some _)) v = refl
note-origin (zboot_role _) v = refl
note-origin (zboot_be _) v = refl
note-origin (zboot_attached_to _) v = refl
note-origin (zboot_set _) v = refl
note-origin (zboot_created_by _) v = refl
note-origin (other n x) v = if_same (n == codes "readonly") (λ (a : RecordAcc). a.origin) _ v refl

note-bound :
    (p : Property) (v : RecordAcc) → (note_record p v).bound_to ≡ said (bound_said p) v.bound_to
unfolding note_record
note-bound (bootfs _) v = refl
note-bound (cachefile _) v = refl
note-bound (mountpoint _) v = refl
note-bound (canmount _) v = refl
note-bound (origin _) v = refl
note-bound (zboot_role _) v = refl
note-bound (zboot_be _) v = refl
note-bound (zboot_attached_to _) v = refl
note-bound (zboot_set _) v = refl
note-bound (zboot_created_by _) v = refl
note-bound (other n x) v = if_same (n == codes "readonly") (λ (a : RecordAcc). a.bound_to) _ v refl

note-readonly :
    (p : Property) (v : RecordAcc) → (note_record p v).readonly ≡ said (readonly_said p) v.readonly
unfolding note_record
note-readonly (bootfs _) v = refl
note-readonly (cachefile _) v = refl
note-readonly (mountpoint _) v = refl
note-readonly (canmount _) v = refl
note-readonly (origin _) v = refl
note-readonly (zboot_role _) v = refl
note-readonly (zboot_be _) v = refl
note-readonly (zboot_attached_to _) v = refl
note-readonly (zboot_set _) v = refl
note-readonly (zboot_created_by _) v = refl
note-readonly (other n x) v = at (n == codes "readonly")
  where
    at :
        (b : Bool)
        → (if b then record v { readonly = x == codes "on" } else v).readonly
          ≡ said (if b then some (x == codes "on") else none) v.readonly
    at true = refl
    at false = refl

-- The record that the rows of one dataset make.
abbrev own_record : Str → List (Str × Property) → Str → BeRecord
own_record pool props ds = record_of pool ds (own_rows note_record ds props empty_record)

own-told :
    (pool : Str) (props : List (Str × Property)) (ds : Str)
    → own_record pool props ds ≡ told_record pool props ds
own-told pool props ds = λ i. record {
  pool = pool;
  dataset = ds;
  is_be =
      own_rows-field be_said note_record (λ (a : RecordAcc). a.is_be) note-be ds props empty_record
        i;
  origin =
      own_rows-field origin_said note_record (λ (a : RecordAcc). a.origin) note-origin ds props
        empty_record i;
  bound_to =
      own_rows-field bound_said note_record (λ (a : RecordAcc). a.bound_to) note-bound ds props
        empty_record i;
  readonly =
      own_rows-field readonly_said note_record (λ (a : RecordAcc). a.readonly) note-readonly ds
        props empty_record i;
}

lookup-remove_entry :
    (j k : Str) (m : List (Str × RecordAcc))
    → (j == k) ≡ false
    → lookup j (remove_entry k m) ≡ lookup j m
unfolding lookup remove_entry filter
lookup-remove_entry j k [] n = refl
lookup-remove_entry j k ((a, v) ∷ m) n =
    ground
      (arith, lookup-remove_entry j k m n, str_beq_iff a k, str_beq_iff a j, str_beq_iff j k, n)

elem_fresh : (d k : Str) (ds : List Str) → elem k ds ≡ false → elem d ds ≡ true → (d == k) ≡ false
elem_fresh d k ds fresh there = elim (Bool-cases (d == k)) [
  | inl e ↦
      let same = subst (λ x. elem x ds ≡ true) ((str_beq_iff d k).0 e) there in
      absurd (ground (arith, fresh, same))
  | inr e ↦ e
]

take_records_lem :
    (pool : Str) (datasets : List Str) (props : List (Str × Property))
    (by_ds : List (Str × RecordAcc))
    → Distinct datasets
    → ((ds : Str)
        → elem ds datasets ≡ true
        → lookup ds by_ds ≡ some (own_rows note_record ds props empty_record))
    → take_records pool datasets by_ds ≡ map (own_record pool props) datasets
unfolding take_records elem
take_records_lem pool [] props by_ds n h = refl
take_records_lem pool (ds ∷ datasets) props by_ds (fresh, n) h =
    let rest = take_records_lem pool datasets props (remove_entry ds by_ds) n (λ d there.
      lookup-remove_entry d ds by_ds (elem_fresh d ds datasets fresh there)
      ∙ h d (ground (arith, there))) in
    rw (h ds (rw (beq_refl ds) refl), rest) refl

-- Where no dataset is listed twice: there is one record for each dataset, in order, and each of its fields is
-- what the last row of that dataset says that has the field's property.
pub extract_bes_lem :
    (pool : Str) (datasets : List Str) (props : List (Str × Property))
    → Distinct datasets
    → extract_bes pool datasets props ≡ map (told_record pool props) datasets
unfolding extract_bes
extract_bes_lem pool datasets props n =
    take_records_lem pool datasets props
      (fold_rows note_record props (all_to empty_record datasets)) n
      (λ ds there.
        let start : lookup ds (all_to empty_record datasets) ≡ some empty_record =
          rw (lookup-all_to ds empty_record datasets, there) refl in
        lookup-fold_rows note_record ds props (all_to empty_record datasets)
        ∙ ap (own_entry note_record ds props) start)
    ∙ each datasets
  where
    each : (xs : List Str) → map (own_record pool props) xs ≡ map (told_record pool props) xs
    each [] = refl
    each (x ∷ xs) = ap₂ (λ a rest. a ∷ rest) (own-told pool props x) (each xs)

-- The first pool of this name.
pub data FirstNamed (name : Str) : List Pool → Pool → Type 0 where
  first : {p : Pool} {pools : List Pool} → p.name ≡ name → FirstNamed name (p ∷ pools) p
  later :
      {p q : Pool} {pools : List Pool}
      → q.name ≢ name
      → FirstNamed name pools p
      → FirstNamed name (q ∷ pools) p

-- It boots the dataset next.
abbrev pub Boots : List Pool → Str → Str → Type 0
Boots pools pool ds = (p : Pool) × FirstNamed pool pools p × (p.bootfs ≡ some ds)

boots_iff : (o : Option Str) (ds : Str) → (option_beq o (some ds) ≡ true) ↔ (o ≡ some ds)
boots_iff none ds = (λ e. absurd (ground (arith, e)), λ e. absurd (ground (arith, e)))
boots_iff (some x) ds =
    (λ e. ap some ((str_beq_iff x ds).0 e), λ e. (str_beq_iff x ds).1 (ground (arith, e)))

is_booted-Boots :
    (pools : List Pool) (pool ds : Str) → (is_booted pools pool ds ≡ true) ↔ Boots pools pool ds
unfolding is_booted find
is_booted-Boots [] pool ds = (λ e. absurd (ground (arith, e)), λ (p, f, e). absurd (elim f [ ]))
is_booted-Boots (q ∷ pools) pool ds = elim (Bool-cases (q.name == pool)) [
  | inl e ↦ rw (e) (
    λ h. (q, FirstNamed.first ((str_beq_iff q.name pool).0 e), (boots_iff q.bootfs ds).0 h),
    λ (p, f, h). here f h e,
  )
  | inr n ↦ rw (n) (
    λ h.
        let (p, f, boots) = (is_booted-Boots pools pool ds).0 h in
        (
          p,
          FirstNamed.later (λ e. absurd (ground (arith, n, (str_beq_iff q.name pool).1 e))) f,
          boots,
        ),
    λ (p, f, h). (is_booted-Boots pools pool ds).1 (p, there f n, h),
  )
]
  where
    here :
        {p : Pool}
        → FirstNamed pool (q ∷ pools) p
        → p.bootfs ≡ some ds
        → (q.name == pool) ≡ true
        → option_beq q.bootfs (some ds) ≡ true
    here (FirstNamed.first _) h e = (boots_iff q.bootfs ds).1 h
    here (FirstNamed.later n _) h e = absurd (n ((str_beq_iff q.name pool).0 e))

    there :
        {p : Pool}
        → FirstNamed pool (q ∷ pools) p
        → (q.name == pool) ≡ false
        → FirstNamed pool pools p
    there (FirstNamed.first e) n = absurd (ground (arith, n, (str_beq_iff q.name pool).1 e))
    there (FirstNamed.later _ f) n = f

-- A dataset is active for the menu exactly if it is a boot environment's and the first pool of its pool's
-- name boots it next.
pub forest_from_payload_lem :
    (pools : List Pool) (records : List BeRecord) (ds : Str)
    → In ds (forest_from_payload (assemble pools records)).1 ↔ (
        (rec : BeRecord) × In rec records
        × (rec.is_be ≡ true)
        × Boots pools rec.pool ds
        × (rec.dataset ≡ ds))
unfolding forest_from_payload assemble be_json
forest_from_payload_lem pools records ds =
    let shown = map (be_json pools) (filter (λ r. r.is_be) records) in
    (
      λ m.
          let (b, n, e) = In-map-inverse (λ b. b.dataset) (filter (λ b. b.active) shown) m in
          let (n', on) = (filter-Picks (λ b. b.active) shown b).0 n in
          let (rec, k, same) = In-map-inverse (be_json pools) (filter (λ r. r.is_be) records) n' in
          let (k', is) = (filter-Picks (λ r. r.is_be) records rec).0 k in
          let there : rec.dataset ≡ ds = sym (e ∙ ap (λ x. x.dataset) same) in
          (
            rec,
            k',
            is,
            (is_booted-Boots pools rec.pool ds).0 (
                subst (λ x. is_booted pools rec.pool x ≡ true) there
                  (sym (ap (λ x. x.active) same) ∙ on)),
            there,
          ),
      λ (rec, k, is, on, there).
          let on' =
            subst (λ x. is_booted pools rec.pool x ≡ true) (sym there)
              ((is_booted-Boots pools rec.pool ds).1 on) in
          subst (λ x. In x (forest_from_payload (assemble pools records)).1) there
            (In-map (λ b. b.dataset)
              ((filter-Picks (λ b. b.active) shown (be_json pools rec)).1 (
                In-map (be_json pools) ((filter-Picks (λ r. r.is_be) records rec).1 (k, is)),
                on',
              ))),
    )
