-- ===== src/Cli/Fork/Plan.antt =====
-- Which lists the plan of `zboot fork` extends (cli/src/cmd/fork.rs).
use zboot.Base.{
  ◌≡◌, refl, ap, ap₂, sym, ◌∙◌, subst, inl, inr, ◌↔◌, true, Option, none, some, List, [], ◌∷◌, Str,
  elem, In, In-cases, In-nil, Ordered, sort_by-In, sort_by-Ordered, str_eq, arith,
}
use zboot.Text.{first_part, last_part}
use zboot.Core.Types.{SnapshotRef, BoundKey, key_eq, BoundList}
use zboot.Core.Types.Atomic.Grouping.{str_leb_total}
use zboot.Core.Types.Property.{
  Property, bootfs, cachefile, mountpoint, canmount, origin, zboot_role, zboot_be,
  zboot_attached_to, zboot_set, zboot_created_by, other,
}
use zboot.Cli.Fork.{list_with, to_extend, row_leb, sort_rows, key_in, make_plan}

list_with-some :
    (key : BoundKey) (prop : Property) (l : BoundList)
    → list_with key prop ≡ some l
    → (prop ≡ zboot_attached_to l) × (elem key l ≡ true)
list_with-some key (zboot_attached_to m) l h =
    (ap zboot_attached_to (ground (arith, h)), ground (arith, h))
list_with-some key (bootfs _) l h = absurd (ground (arith, h))
list_with-some key (cachefile _) l h = absurd (ground (arith, h))
list_with-some key (mountpoint _) l h = absurd (ground (arith, h))
list_with-some key (canmount _) l h = absurd (ground (arith, h))
list_with-some key (origin _) l h = absurd (ground (arith, h))
list_with-some key (zboot_role _) l h = absurd (ground (arith, h))
list_with-some key (zboot_be _) l h = absurd (ground (arith, h))
list_with-some key (zboot_set _) l h = absurd (ground (arith, h))
list_with-some key (zboot_created_by _) l h = absurd (ground (arith, h))
list_with-some key (other _ _) l h = absurd (ground (arith, h))

list_with-attached :
    (key : BoundKey) (prop : Property) (l : BoundList)
    → prop ≡ zboot_attached_to l
    → elem key l ≡ true
    → list_with key prop ≡ some l
list_with-attached key prop l e has = rw (e, has) refl

some_injective : {a b : BoundList} → ◌≡◌ {A = Option BoundList} (some a) (some b) → a ≡ b
some_injective e = ground (arith, e)

-- The rows that attach a dataset to the key.
abbrev pub Attaches : BoundKey → List (Str × Property) → Str × BoundList → Type 0
Attaches key props x = In (x.0, zboot_attached_to x.1) props × (elem key x.1 ≡ true)

to_extend-In :
    (key : BoundKey) (props : List (Str × Property)) (x : Str × BoundList)
    → In x (to_extend key props) ↔ Attaches key props x
unfolding to_extend
to_extend-In key [] x = (λ m. absurd (In-nil m), λ (m, _). absurd (In-nil m))
to_extend-In key ((ds, prop) ∷ props) x = at (list_with key prop) refl (to_extend-In key props x)
  where
    later : Attaches key props x → Attaches key ((ds, prop) ∷ props) x
    later (m, e) = (In.there m, e)

    at :
        (o : Option BoundList)
        → list_with key prop ≡ o
        → In x (to_extend key props) ↔ Attaches key props x
        → In x (elim o [ none ↦ to_extend key props | some l ↦ (ds, l) ∷ to_extend key props ])
          ↔ Attaches key ((ds, prop) ∷ props) x
    at none e ih = (
      λ m. later (ih.0 m),
      λ (m, k). elim (In-cases m) [
        | inl same ↦
            let is = sym e ∙ list_with-attached key prop x.1 (sym (ap (λ y. y.1) same)) k in
            absurd (ground (arith, is))
        | inr m' ↦ ih.1 (m', k)
      ],
    )
    at (some l) e ih =
        let (is, has) = list_with-some key prop l e in
        (
          λ m. elim (In-cases m) [
            | inl same ↦
                subst (λ y. Attaches key ((ds, prop) ∷ props) y) (sym same)
                  (
                    subst (λ q. In (ds, zboot_attached_to l) ((ds, q) ∷ props)) (sym is) In.here,
                    has,
                  )
            | inr m' ↦ later (ih.0 m')
          ],
          λ (m, k). elim (In-cases m) [
            | inl same ↦
                let lists : x.1 ≡ l =
                  some_injective
                    (sym (list_with-attached key prop x.1 (sym (ap (λ y. y.1) same)) k) ∙ e) in
                subst (λ y. In y ((ds, l) ∷ to_extend key props))
                  (sym (ap₂ (λ a b. (a, b)) (ap (λ y. y.0) same) lists)) In.here
            | inr m' ↦ In.there (ih.1 (m', k))
          ],
        )

-- The plan extends, in the order of their names, exactly the lists that have the boot environment whose
-- snapshot is cloned.
pub make_plan_lem :
    (snap : SnapshotRef) (name : Str) (props : List (Str × Property))
    → Ordered row_leb (make_plan snap name props).bound_datasets_to_extend
      × ((x : Str × BoundList)
          → In x (make_plan snap name props).bound_datasets_to_extend
            ↔ Attaches
                (key_in (first_part b'/' snap.dataset) (last_part b'/' snap.dataset))
                props
                x)
unfolding make_plan sort_rows
make_plan_lem snap name props =
    let key = key_in (first_part b'/' snap.dataset) (last_part b'/' snap.dataset) in
    (
      sort_by-Ordered row_leb (λ x y. str_leb_total x.0 y.0) (to_extend key props),
      λ x.
          let sorted = sort_by-In row_leb (to_extend key props) x in
          let picked = to_extend-In key props x in
          (λ m. picked.0 (sorted.0 m), λ a. sorted.1 (picked.1 a)),
    )
