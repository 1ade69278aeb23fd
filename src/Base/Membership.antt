-- ===== src/Base/Membership.antt =====
-- Laws of `contains` and of removing an element.

use mathlib.Core.Path.{◌≡◌, refl}
use mathlib.Core.Logic.{inl, inr}
use mathlib.Core.Bool.{true, false, ◌||◌, not}
use mathlib.Core.List.{List, [], ◌∷◌, ◌++◌}
use native.Mathlib.Omega.{arith}
use zboot.Base.Tests.{if◌then◌else◌, Bool-cases}
use zboot.Base.Equality.{Eq, ◌==◌, elem, nat_eq}
use zboot.Base.Lists.{length, filter, length-filter, In}

module _ {ℓ} {A : Type ℓ} ⦃e : Eq A⦄ where
  pub beq_refl : (a : A) → (a == a) ≡ true
  beq_refl a = (e.beq_iff a a).1 refl

  pub elem-append : (a : A) (xs ys : List A) → elem a (xs ++ ys) ≡ (elem a xs || elem a ys)
  unfolding elem
  elem-append a [] ys = refl
  elem-append a (x ∷ xs) ys = ground (arith, elem-append a xs ys)

  -- `retain(|x| x != k)` takes out `k` and nothing else.
  pub elem-filter_ne :
      (k j : A) (l : List A)
      → elem j (filter (λ x. not (x == k)) l) ≡ (if k == j then false else elem j l)
  unfolding elem filter
  elem-filter_ne k j [] = ground arith
  elem-filter_ne k j (x ∷ l) =
      ground (arith, elem-filter_ne k j l, e.beq_iff x k, e.beq_iff x j, e.beq_iff k j)

  -- It shortens the list exactly if `k` was there.
  pub length-filter_ne :
      (k : A) (l : List A) → not (length l == length (filter (λ x. not (x == k)) l)) ≡ elem k l
  unfolding elem filter
  length-filter_ne k [] = refl
  length-filter_ne k (x ∷ l) =
      ground (arith, length-filter_ne k l, length-filter (λ x. not (x == k)) l)

  pub In→elem : {a : A} {xs : List A} → In a xs → elem a xs ≡ true
  unfolding elem
  In→elem {a} In.here = rw (beq_refl a)
  In→elem {a} (In.there m) = ground (arith, In→elem m)

  pub elem→In : (a : A) (xs : List A) → elem a xs ≡ true → In a xs
  unfolding elem
  elem→In a [] h = absurd (ground arith)
  elem→In a (x ∷ xs) h = elim (Bool-cases (x == a)) [
    | inl same ↦ rw (← (e.beq_iff x a).0 same) In.here
    | inr other ↦ In.there (elem→In a xs (ground arith))
  ]
