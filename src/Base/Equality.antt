-- ===== src/Base/Equality.antt =====
-- Rust's `==`: one operator for every type whose equality the program tests.
use Prim.Native.Nat.{ℕ}
use mathlib.Core.Path.{◌≡◌, refl}
use mathlib.Core.Logic.{◌↔◌}
use mathlib.Core.Bool.{Bool, true, false, ◌&&◌, ◌||◌}
use mathlib.Core.Option.{Option, none, some}
use mathlib.Core.List.{List, [], ◌∷◌}
use native.Mathlib.Omega.{arith}
use zboot.Base.Tests.{nat_beq}

pub record Eq {ℓ} (T : Type ℓ) : Type ℓ where
  pub beq : T → T → Bool
  pub beq_iff : (x y : T) → (beq x y ≡ true) ↔ (x ≡ y)

abbrev pub ◌==◌ {ℓ} : {T : Type ℓ} ⦃e : Eq T⦄ → T → T → Bool
◌==◌ ⦃e⦄ x y = e.beq x y

infix 50 ◌==◌
pub nat_beq_iff : (a b : ℕ) → (nat_beq a b ≡ true) ↔ (a ≡ b)
nat_beq_iff a b = ground arith

instance abbrev pub nat_eq : Eq ℕ
nat_eq = record { beq = nat_beq; beq_iff = nat_beq_iff }

-- A string is the list of its characters, each by its code point.
abbrev pub Str : Type 0
Str = List ℕ

unfoldable pub str_beq : Str → Str → Bool
str_beq [] [] = true
str_beq (a ∷ s) (b ∷ t) = nat_beq a b && str_beq s t
str_beq _ _ = false

str_beq_sound : (s t : Str) → str_beq s t ≡ true → s ≡ t
unfolding str_beq
str_beq_sound [] [] h = refl
str_beq_sound [] (b ∷ t) h = ground arith
str_beq_sound (a ∷ s) [] h = ground arith
str_beq_sound (a ∷ s) (b ∷ t) h = ground (arith, str_beq_sound s t)

str_beq_refl : (s : Str) → str_beq s s ≡ true
unfolding str_beq
str_beq_refl [] = refl
str_beq_refl (a ∷ s) = ground (arith, str_beq_refl s)

pub str_beq_iff : (s t : Str) → (str_beq s t ≡ true) ↔ (s ≡ t)
str_beq_iff s t = (str_beq_sound s t, λ e. rw e (str_beq_refl t))

instance abbrev pub str_eq : Eq Str
str_eq = record { beq = str_beq; beq_iff = str_beq_iff }

module _ {ℓ} {A : Type ℓ} ⦃e : Eq A⦄ where
  -- `Option<A> == Option<A>`.
  abbrev pub option_beq : Option A → Option A → Bool
  option_beq none none = true
  option_beq (some a) (some b) = a == b
  option_beq _ _ = false

  -- `Vec::contains`.
  unfoldable pub elem : A → List A → Bool
  elem a [] = false
  elem a (x ∷ xs) = x == a || elem a xs
