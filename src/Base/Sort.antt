-- ===== src/Base/Sort.antt =====
-- `sort_by`, the stable sort, for a Boolean order.
use mathlib.Core.Path.{◌≡◌, refl}
use mathlib.Core.Logic.{◌↔◌}
use mathlib.Core.Bool.{Bool, true, false}
use mathlib.Core.List.{List, [], ◌∷◌}
use zboot.Base.Tests.{if◌then◌else◌}
use zboot.Base.Lists.{In}
use zboot.Base.Sublists.{In-swap, In-under}

module _ {A : Type 0} (le : A → A → Bool) where
  unfoldable pub insert_by : A → List A → List A
  insert_by x [] = x ∷ []
  insert_by x (y ∷ ys) = let rest = insert_by x ys in if le x y then x ∷ y ∷ ys else y ∷ rest

  unfoldable pub sort_by : List A → List A
  unfolding insert_by
  sort_by [] = []
  sort_by (x ∷ xs) = insert_by x (sort_by xs)

  -- Each element is in order with the next one.
  abbrev pub Ordered : List A → Type 0
  Ordered [] = Unit
  Ordered (x ∷ []) = Unit
  Ordered (x ∷ y ∷ ys) = (le x y ≡ true) × Ordered (y ∷ ys)

  insert_by-In : (x : A) (ys : List A) (a : A) → In a (insert_by x ys) ↔ In a (x ∷ ys)
  unfolding insert_by
  insert_by-In x [] a = (λ m. m, λ m. m)
  insert_by-In x (y ∷ ys) a = at (le x y) (insert_by-In x ys a)
    where
      at :
          (b : Bool)
          → In a (insert_by x ys) ↔ In a (x ∷ ys)
          → In a (if b then x ∷ y ∷ ys else y ∷ insert_by x ys) ↔ In a (x ∷ y ∷ ys)
      at true ih = (λ m. m, λ m. m)
      at false ih = (λ m. In-swap (In-under ih.0 m), λ m. In-under ih.1 (In-swap m))

  -- Sorting keeps what is in the list.
  pub sort_by-In : (xs : List A) (a : A) → In a (sort_by xs) ↔ In a xs
  unfolding sort_by
  sort_by-In [] a = (λ m. m, λ m. m)
  sort_by-In (x ∷ xs) a =
      let ih = sort_by-In xs a in
      let step = insert_by-In x (sort_by xs) a in
      (λ m. In-under ih.0 (step.0 m), λ m. step.1 (In-under ih.1 m))

  module _ (total : (x y : A) → le x y ≡ false → le y x ≡ true) where
    behind :
        (x y : A) (ys : List A)
        → le x y ≡ false
        → Ordered (y ∷ ys)
        → Ordered (insert_by x ys)
        → Ordered (y ∷ insert_by x ys)
    unfolding insert_by
    behind x y [] n h ih = (total x y n, tt)
    behind x y (z ∷ zs) n h ih = at (le x z) ih
      where
        at :
            (b : Bool)
            → Ordered (if b then x ∷ z ∷ zs else z ∷ insert_by x zs)
            → Ordered (y ∷ (if b then x ∷ z ∷ zs else z ∷ insert_by x zs))
        at true ih = (total x y n, ih)
        at false ih = (h.0, ih)

    tail : (y : A) (ys : List A) → Ordered (y ∷ ys) → Ordered ys
    tail y [] h = tt
    tail y (z ∷ zs) h = h.1

    insert_by-Ordered : (x : A) (ys : List A) → Ordered ys → Ordered (insert_by x ys)
    unfolding insert_by
    insert_by-Ordered x [] h = tt
    insert_by-Ordered x (y ∷ ys) h =
        at (le x y) refl (behind x y ys) (insert_by-Ordered x ys (tail y ys h))
      where
        at :
            (b : Bool)
            → le x y ≡ b
            → (le x y ≡ false
                → Ordered (y ∷ ys)
                → Ordered (insert_by x ys)
                → Ordered (y ∷ insert_by x ys))
            → Ordered (insert_by x ys)
            → Ordered (if b then x ∷ y ∷ ys else y ∷ insert_by x ys)
        at true e k ih = (e, h)
        at false e k ih = k e h ih

    -- The result of a sort by a total order is in order.
    pub sort_by-Ordered : (xs : List A) → Ordered (sort_by xs)
    unfolding sort_by
    sort_by-Ordered [] = tt
    sort_by-Ordered (x ∷ xs) = insert_by-Ordered x (sort_by xs) (sort_by-Ordered xs)
