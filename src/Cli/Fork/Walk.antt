-- ===== src/Cli/Fork/Walk.antt =====
-- The walk of `check_origin_lineage` (cli/src/cmd/fork.rs) ends: it goes through every dataset once at
-- most.
use zboot.Base.{
  ℕ, zero, suc, ◌≡◌, refl, inl, inr, ◌+◌, ◌≤◌, ◌<◌, Bool, true, false, not, Option, none, some,
  is_some, Bool-cases, List, [], ◌∷◌, Str, ◌==◌, str_eq, nat_eq, elem, filter, length,
  length-filter, length-filter_ne, elem-filter_ne, str_beq_iff, Result, ok, err, All, arith,
  if◌then◌else◌,
}
use zboot.Core.Types.Property.{Property}
use zboot.Cli.Io.{Error, orphaned}
use zboot.Cli.Fork.{parent_of, walk, check_origin_lineage}

-- No element occurs twice.
abbrev Distinct : List Str → Type 0
Distinct [] = Unit
Distinct (x ∷ xs) = (elem x xs ≡ false) × Distinct xs

without-shorter :
    (k : Str) (l : List Str) → elem k l ≡ true → length (filter (λ x. not (x == k)) l) < length l
without-shorter k l h = ground (arith, length-filter_ne k l, length-filter (λ x. not (x == k)) l)

others-without :
    (x : Str) (v d : List Str)
    → elem x v ≡ false
    → All (λ y. elem y d ≡ true) v
    → All (λ y. elem y (filter (λ z. not (z == x)) d) ≡ true) v
unfolding elem
others-without x [] d fresh h = tt
others-without x (y ∷ v) d fresh (hy, h) = (
  ground (arith, elem-filter_ne x y d, str_beq_iff x y, str_beq_iff y x, fresh, hy),
  others-without x v d (ground (arith, fresh)) h,
)

-- Distinct elements of a list are no more than it has.
Distinct-length : (v d : List Str) → Distinct v → All (λ x. elem x d ≡ true) v → length v ≤ length d
Distinct-length [] d n h = omega arith
Distinct-length (x ∷ v) d (fresh, n) (hx, h) =
    let fewer = without-shorter x d hx in
    let rest : length v ≤ length (filter (λ y. not (y == x)) d) =
      Distinct-length v (filter (λ y. not (y == x)) d) n (others-without x v d fresh h) in
    omega (arith, fewer, rest)

abbrev pub Live : List Str → Str → Type 0
Live datasets d = elem d datasets ≡ true

module _ (start : Str) (datasets : List Str) where
  -- One turn of the walk, with what comes behind it.
  abbrev pub turn :
      Bool
      → Option Str
      → (Str → Option (Result Error (Unit {0})))
      → Option (Result Error (Unit {0}))
  turn seen parent rest = if seen then some (ok tt) else elim parent [
    | none ↦ some (ok tt)
    | some p ↦ if elem p datasets then rest p else some (err (orphaned start p))
  ]

  turn-total :
      (seen : Bool) (parent : Option Str) (rest : Str → Option (Result Error (Unit {0})))
      → (seen ≡ false → (p : Str) → Live datasets p → is_some (rest p) ≡ true)
      → is_some (turn seen parent rest) ≡ true
  turn-total true parent rest h = refl
  turn-total false none rest h = refl
  turn-total false (some p) rest h = elim (Bool-cases (elem p datasets)) [
    | inl e ↦ rw e (h refl p e)
    | inr e ↦ rw e
  ]

module _ (start : Str) (datasets : List Str) (props : List (Str × Property)) where
  -- The walk has not gone through more datasets than there are.
  walk-total :
      (fuel : ℕ) (visited : List Str) (current : Str)
      → length datasets < fuel + length visited
      → Distinct visited
      → All (Live datasets) visited
      → Live datasets current
      → is_some (walk fuel start datasets props visited current) ≡ true
  unfolding walk
  walk-total zero visited current room n h live =
      absurd (omega (arith, room, Distinct-length visited datasets n h))
  walk-total (suc fuel) visited current room n h live =
      turn-total start datasets (elem current visited) (parent_of props current)
        (walk fuel start datasets props (current ∷ visited))
        (λ fresh p there.
          walk-total fuel (current ∷ visited) p (omega (arith, room)) (fresh, n) (live, h) there)

  -- The walk along origins always ends.
  pub check_origin_lineage_total : is_some (check_origin_lineage start datasets props) ≡ true
  unfolding check_origin_lineage
  check_origin_lineage_total = at (elem start datasets) refl
    where
      at :
          (b : Bool)
          → elem start datasets ≡ b
          → is_some (
              if b
              then walk (suc (length datasets)) start datasets props [] start
              else some (err (orphaned start start)))
            ≡ true
      at true live = walk-total (suc (length datasets)) [] start (omega arith) tt tt live
      at false gone = refl
