-- ===== src/Base/Sublists.antt =====
-- Sublists chosen by a predicate, up to order and repetition.
use mathlib.Core.Path.{◌≡◌, refl, subst}
use mathlib.Core.Logic.{◌↔◌, ◌⊎◌, inl, inr}
use mathlib.Core.Bool.{Bool, true, false}
use mathlib.Core.Option.{some}
use mathlib.Core.List.{List, [], ◌∷◌, map}
use native.Mathlib.Omega.{arith}
use zboot.Base.Tests.{if◌then◌else◌, Bool-cases}
use zboot.Base.Lists.{In, filter, find}

module _ {ℓ} {A : Type ℓ} where
  pub In-cases : {a x : A} {xs : List A} → In a (x ∷ xs) → (a ≡ x) ⊎ In a xs
  In-cases In.here = inl refl
  In-cases (In.there m) = inr m

  pub In-nil : {a : A} → In a [] → ⊥
  In-nil m = elim m [ ]

  pub In-one : {a x : A} → In a (x ∷ []) → a ≡ x
  In-one In.here = refl
  In-one (In.there m) = absurd (In-nil m)

  pub In-swap : {a x y : A} {xs : List A} → In a (x ∷ y ∷ xs) → In a (y ∷ x ∷ xs)
  In-swap In.here = In.there In.here
  In-swap (In.there In.here) = In.here
  In-swap (In.there (In.there m)) = In.there (In.there m)

  pub In-under : {a y : A} {u v : List A} → (In a u → In a v) → In a (y ∷ u) → In a (y ∷ v)
  In-under f In.here = In.here
  In-under f (In.there m) = In.there (f m)

  pub find-In : (p : A → Bool) (xs : List A) {a : A} → find p xs ≡ some a → In a xs
  unfolding find
  find-In p [] h = absurd (ground arith)
  find-In p (x ∷ xs) {a} h = elim (Bool-cases (p x)) [
    | inl e ↦ let same : x ≡ a = ground (arith, e) in subst (λ b. In b (x ∷ xs)) same In.here
    | inr e ↦ In.there (find-In p xs {a = a} (ground (arith, e)))
  ]

module _ {ℓ κ} {A : Type ℓ} (D : A → Type κ) where
  -- `l` holds exactly those elements of `xs` that satisfy `D`.
  abbrev pub Picks : List A → List A → Type (ℓ ⊔ κ)
  Picks xs l = (a : A) → In a l ↔ (In a xs × D a)

  pub Picks-nil : Picks [] []
  Picks-nil a = (λ m. absurd (In-nil m), λ (m, d). m)

  keep_from : {a x : A} {xs l : List A} → D x → Picks xs l → In a (x ∷ l) → In a (x ∷ xs) × D a
  keep_from dx p In.here = (In.here, dx)
  keep_from {a} dx p (In.there m) = let (m', d) = (p a).0 m in (In.there m', d)

  keep_to : {a x : A} {xs l : List A} → Picks xs l → In a (x ∷ xs) → D a → In a (x ∷ l)
  keep_to p In.here d = In.here
  keep_to {a} p (In.there m) d = In.there ((p a).1 (m, d))

  pub Picks-keep : {x : A} {xs l : List A} → D x → Picks xs l → Picks (x ∷ xs) (x ∷ l)
  Picks-keep dx p a = (keep_from dx p, λ (m, d). keep_to p m d)

  skip_to : {a x : A} {xs l : List A} → ¬ D x → Picks xs l → In a (x ∷ xs) → D a → In a l
  skip_to n p In.here d = absurd (n d)
  skip_to {a} n p (In.there m) d = (p a).1 (m, d)

  pub Picks-skip : {x : A} {xs l : List A} → ¬ D x → Picks xs l → Picks (x ∷ xs) l
  Picks-skip n p a = (λ m. let (m', d) = (p a).0 m in (In.there m', d), λ (m, d). skip_to n p m d)

-- `filter` picks what passes the test.
pub filter-Picks {ℓ} :
    {A : Type ℓ} (p : A → Bool) (xs : List A) → Picks (λ a. p a ≡ true) xs (filter p xs)
unfolding filter
filter-Picks p [] = Picks-nil (λ a. p a ≡ true)
filter-Picks p (x ∷ xs) = at (p x) refl (filter-Picks p xs)
  where
    at :
        (b : Bool)
        → p x ≡ b
        → Picks (λ a. p a ≡ true) xs (filter p xs)
        → Picks (λ a. p a ≡ true) (x ∷ xs) (if b then x ∷ filter p xs else filter p xs)
    at true e h = Picks-keep (λ a. p a ≡ true) e h
    at false e h = Picks-skip (λ a. p a ≡ true) (λ t. ground (arith, e, t)) h

module _ {ℓ κ} {A : Type ℓ} {B : Type κ} (f : A → B) where
  pub In-map : {a : A} {xs : List A} → In a xs → In (f a) (map f xs)
  In-map In.here = In.here
  In-map (In.there m) = In.there (In-map m)

  pub In-map-inverse : (xs : List A) {b : B} → In b (map f xs) → (a : A) × In a xs × (b ≡ f a)
  In-map-inverse [] m = absurd (In-nil m)
  In-map-inverse (x ∷ xs) m = elim (In-cases m) [
    | inl e ↦ (x, In.here, e)
    | inr m' ↦ let (a, n, e) = In-map-inverse xs m' in (a, In.there n, e)
  ]
