-- ===== src/Cli/Snapshot/Collect.antt =====
-- What `zboot snapshot` observes and picks: `bes_from_props` and `find_active_be`.
use zboot.Base.{
  Bool, said, last_of, own_rows-field, if◌then◌else◌, ◌≡◌, ◌≢◌, subst, In-cases, refl, ap, sym, ◌∙◌,
  inl, inr, true, false, Option, none, some, List, [], ◌∷◌, Str, str_eq, str_beq_iff, elem, find,
  find_sound, find-none, find-In, lookup, all_to, lookup-all_to, lookup-fold_rows, own_rows,
  own_entry, In, All-at, In→elem, arith,
}
use zboot.Text.{first_part, last_part}
use zboot.Core.Types.{
  Pool, BootEnvironment, SnapshotRef, Mountpoint, Canmount, new_boot_environment,
}
use zboot.Core.Types.Property.{
  Property, bootfs, cachefile, mountpoint, canmount, origin, zboot_role, zboot_be,
  zboot_attached_to, zboot_set, zboot_created_by, other,
}
use zboot.Cli.Snapshot.{
  BeAcc, make_be, default_acc, note_prop, note_props, collect_bes, bes_from_props, is_active_be,
  find_active_in, find_active_be, Observed,
}

-- What a property says of a dataset, if it says that.
abbrev pub be_said : Property → Option Bool
be_said (zboot_be b) = some b
be_said _ = none

abbrev pub origin_said : Property → Option (Option SnapshotRef)
origin_said (origin o) = some o
origin_said _ = none

abbrev pub mountpoint_said : Property → Option (Option Mountpoint)
mountpoint_said (mountpoint m) = some (some m)
mountpoint_said _ = none

abbrev pub canmount_said : Property → Option (Option Canmount)
canmount_said (canmount c) = some (some c)
canmount_said _ = none

-- The boot environment of a dataset: of each field, what the last row of the dataset says that says it.
abbrev pub told_be : List (Str × Property) → Str → BootEnvironment
told_be props ds = record {
  pool = first_part b'/' ds;
  dataset = ds;
  name = last_part b'/' ds;
  origin = last_of origin_said ds props none;
  created_by = none;
  mountpoint = last_of mountpoint_said ds props none;
  canmount = last_of canmount_said ds props none;
}

-- One for each dataset of which the last row of `zboot:be` says so.
abbrev pub marked_bes : List (Str × Property) → List Str → List BootEnvironment
marked_bes props [] = []
marked_bes props (ds ∷ datasets) =
    let rest = marked_bes props datasets in
    if last_of be_said ds props false then told_be props ds ∷ rest else rest

note-be : (p : Property) (v : BeAcc) → (note_prop p v).is_be ≡ said (be_said p) v.is_be
unfolding note_prop
note-be (bootfs _) v = refl
note-be (cachefile _) v = refl
note-be (mountpoint _) v = refl
note-be (canmount _) v = refl
note-be (origin _) v = refl
note-be (zboot_role _) v = refl
note-be (zboot_be _) v = refl
note-be (zboot_attached_to _) v = refl
note-be (zboot_set _) v = refl
note-be (zboot_created_by _) v = refl
note-be (other _ _) v = refl

note-origin : (p : Property) (v : BeAcc) → (note_prop p v).origin ≡ said (origin_said p) v.origin
unfolding note_prop
note-origin (bootfs _) v = refl
note-origin (cachefile _) v = refl
note-origin (mountpoint _) v = refl
note-origin (canmount _) v = refl
note-origin (origin _) v = refl
note-origin (zboot_role _) v = refl
note-origin (zboot_be _) v = refl
note-origin (zboot_attached_to _) v = refl
note-origin (zboot_set _) v = refl
note-origin (zboot_created_by _) v = refl
note-origin (other _ _) v = refl

note-mountpoint :
    (p : Property) (v : BeAcc) → (note_prop p v).mountpoint ≡ said (mountpoint_said p) v.mountpoint
unfolding note_prop
note-mountpoint (bootfs _) v = refl
note-mountpoint (cachefile _) v = refl
note-mountpoint (mountpoint _) v = refl
note-mountpoint (canmount _) v = refl
note-mountpoint (origin _) v = refl
note-mountpoint (zboot_role _) v = refl
note-mountpoint (zboot_be _) v = refl
note-mountpoint (zboot_attached_to _) v = refl
note-mountpoint (zboot_set _) v = refl
note-mountpoint (zboot_created_by _) v = refl
note-mountpoint (other _ _) v = refl

note-canmount :
    (p : Property) (v : BeAcc) → (note_prop p v).canmount ≡ said (canmount_said p) v.canmount
unfolding note_prop
note-canmount (bootfs _) v = refl
note-canmount (cachefile _) v = refl
note-canmount (mountpoint _) v = refl
note-canmount (canmount _) v = refl
note-canmount (origin _) v = refl
note-canmount (zboot_role _) v = refl
note-canmount (zboot_be _) v = refl
note-canmount (zboot_attached_to _) v = refl
note-canmount (zboot_set _) v = refl
note-canmount (zboot_created_by _) v = refl
note-canmount (other _ _) v = refl

-- The four fields that the rows of one dataset make.
abbrev told : List (Str × Property) → Str → BeAcc
told props ds = record {
  is_be = last_of be_said ds props false;
  origin = last_of origin_said ds props none;
  mountpoint = last_of mountpoint_said ds props none;
  canmount = last_of canmount_said ds props none;
}

own-told :
    (props : List (Str × Property)) (ds : Str)
    → own_rows note_prop ds props default_acc ≡ told props ds
own-told props ds = λ i. record {
  is_be = own_rows-field be_said note_prop (λ (a : BeAcc). a.is_be) note-be ds props default_acc i;
  origin =
      own_rows-field origin_said note_prop (λ (a : BeAcc). a.origin) note-origin ds props
        default_acc i;
  mountpoint =
      own_rows-field mountpoint_said note_prop (λ (a : BeAcc). a.mountpoint) note-mountpoint ds
        props default_acc i;
  canmount =
      own_rows-field canmount_said note_prop (λ (a : BeAcc). a.canmount) note-canmount ds props
        default_acc i;
}

collect_bes_lem :
    (all datasets : List Str) (props : List (Str × Property))
    → ((ds : Str) → In ds datasets → elem ds all ≡ true)
    → collect_bes datasets (note_props props (all_to default_acc all)) ≡ marked_bes props datasets
unfolding collect_bes note_props make_be new_boot_environment
collect_bes_lem all [] props h = refl
collect_bes_lem all (ds ∷ datasets) props h =
    let start : lookup ds (all_to default_acc all) ≡ some default_acc =
      rw (lookup-all_to ds default_acc all, h ds In.here) refl in
    let found =
      lookup-fold_rows note_prop ds props (all_to default_acc all)
      ∙ ap (own_entry note_prop ds props) start
      ∙ ap some (own-told props ds) in
    rw (found, collect_bes_lem all datasets props (λ d m. h d (In.there m))) refl

-- The boot environments observed are those of the datasets listed of which the last row of `zboot:be` says
-- so, in the order of the list, each with its pool and its name and, for the other properties, what the last
-- row of the dataset says.
pub bes_from_props_lem :
    (datasets : List Str) (props : List (Str × Property))
    → bes_from_props datasets props ≡ marked_bes props datasets
unfolding bes_from_props
bes_from_props_lem datasets props = collect_bes_lem datasets datasets props (λ ds m. In→elem m)

-- The pool boots this boot environment next.
abbrev pub Boots : Pool → BootEnvironment → Type 0
Boots p be = (p.name ≡ be.pool) × (p.bootfs ≡ some be.dataset)

abbrev pub Answer : List Pool → List BootEnvironment → Option BootEnvironment → Type 0
Answer pools bes (some be) = In be bes × ((p : Pool) × In p pools × Boots p be)
Answer pools bes none = (p : Pool) → In p pools → (be : BootEnvironment) → In be bes → ¬ Boots p be

true_ne_false : true ≢ false
true_ne_false e = ground (arith, e)

-- A later pool's answer stands if the first pool boots none of them.
Answer-later :
    (pool : Pool) (pools : List Pool) {bes : List BootEnvironment}
    → ((be : BootEnvironment) → In be bes → ¬ Boots pool be)
    → (o : Option BootEnvironment) → Answer pools bes o
    → Answer (pool ∷ pools) bes o
Answer-later pool pools n (some be) (m, (p, at, boots)) = (m, (p, In.there at, boots))
Answer-later pool pools n none h = λ p m be mb b. elim (In-cases m) [
  | inl same ↦ n be mb (subst (λ q. Boots q be) same b)
  | inr later ↦ h p later be mb b
]

some_injective : {a b : Str} → ◌≡◌ {A = Option Str} (some a) (some b) → a ≡ b
some_injective e = ground (arith, e)

-- The test in the loop is what it means for a pool to boot next.
is_active_be_sound :
    (pool : Pool) (next : Str) (be : BootEnvironment)
    → pool.bootfs ≡ some next
    → is_active_be pool.name next be ≡ true
    → Boots pool be
is_active_be_sound pool next be e h = (
  ground (arith, str_beq_iff be.pool pool.name, h),
  e ∙ ap some (sym (ground (arith, str_beq_iff be.dataset next, h))),
)

is_active_be_complete :
    (pool : Pool) (next : Str) (be : BootEnvironment)
    → pool.bootfs ≡ some next
    → Boots pool be
    → is_active_be pool.name next be ≡ true
is_active_be_complete pool next be e (same, boots) =
    let there : next ≡ be.dataset = some_injective (sym e ∙ boots) in
    ground (arith, str_beq_iff be.pool pool.name, str_beq_iff be.dataset next, same, there)

find_active_in-Answer :
    (bes : List BootEnvironment) (pools : List Pool) → Answer pools bes (find_active_in bes pools)
unfolding find_active_in
find_active_in-Answer bes [] = λ p m. absurd (elim m [ ])
find_active_in-Answer bes (pool ∷ pools) = at (find_active_in-Answer bes pools) pool.bootfs refl
  where
    here :
        Answer pools bes (find_active_in bes pools)
        → (next : Str) → pool.bootfs ≡ some next
        → (o : Option BootEnvironment) → find (is_active_be pool.name next) bes ≡ o
        → Answer (pool ∷ pools) bes (elim o [ some be ↦ some be | none ↦ find_active_in bes pools ])
    here later next e (some be) f =
        (find-In _ bes f, (pool, In.here, is_active_be_sound pool next be e (find_sound _ bes f)))
    here later next e none f =
        Answer-later pool pools
          (λ be m b. true_ne_false (
            sym (is_active_be_complete pool next be e b)
            ∙ All-at (λ x. is_active_be pool.name next x ≡ false) m (find-none _ bes f)))
          (find_active_in bes pools) later

    at :
        Answer pools bes (find_active_in bes pools)
        → (o : Option Str) → pool.bootfs ≡ o
        → Answer (pool ∷ pools) bes (elim o [
          | none ↦ find_active_in bes pools
          | some next ↦ elim (find (is_active_be pool.name next) bes) [
            | some be ↦ some be
            | none ↦ find_active_in bes pools
          ]
        ])
    at later none e =
        Answer-later pool pools (λ be m (same, boots). absurd (ground (arith, e, boots)))
          (find_active_in bes pools) later
    at later (some next) e = here later next e _ refl

pub find_active_be_lem : (o : Observed) → Answer o.pools o.bes (find_active_be o)
unfolding find_active_be
find_active_be_lem o = find_active_in-Answer o.bes o.pools
