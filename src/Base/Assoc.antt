-- ===== src/Base/Assoc.antt =====
-- Hash maps as lists of keys and values. A key's entry is its first one.
use mathlib.Core.Path.{◌≡◌, refl, ap, ◌∙◌}
use mathlib.Core.Bool.{Bool, true, false}
use mathlib.Core.Option.{Option, none, some}
use mathlib.Core.List.{List, [], ◌∷◌}
use native.Mathlib.Omega.{arith}
use zboot.Base.Tests.{if◌then◌else◌}
use zboot.Base.Equality.{Str, ◌==◌, str_eq, elem, str_beq_iff}

module _ {V : Type 0} where
  unfoldable pub lookup : Str → List (Str × V) → Option V
  lookup k [] = none
  lookup k ((n, v) ∷ m) = if n == k then some v else lookup k m

  -- `if let Some(v) = map.get_mut(k) { f(v) }`.
  unfoldable pub update : Str → (V → V) → List (Str × V) → List (Str × V)
  update k f [] = []
  update k f ((n, v) ∷ m) =
      let rest = update k f m in if n == k then (n, f v) ∷ m else (n, v) ∷ rest

  -- `keys.map(|k| (k, d)).collect()`.
  unfoldable pub all_to : V → List Str → List (Str × V)
  all_to d [] = []
  all_to d (k ∷ ks) = (k, d) ∷ all_to d ks

  abbrev pub changed : Bool → (V → V) → Option V → Option V
  changed b f none = none
  changed b f (some v) = some (if b then f v else v)

  pub lookup-update :
      (j k : Str) (f : V → V) (m : List (Str × V))
      → lookup j (update k f m) ≡ changed (k == j) f (lookup j m)
  unfolding lookup update
  lookup-update j k f [] = refl
  lookup-update j k f ((n, v) ∷ m) =
      ground (arith, lookup-update j k f m, str_beq_iff n k, str_beq_iff n j, str_beq_iff k j)

  pub lookup-all_to :
      (j : Str) (d : V) (ks : List Str)
      → lookup j (all_to d ks) ≡ (if elem j ks then some d else none)
  unfolding lookup all_to elem
  lookup-all_to j d [] = refl
  lookup-all_to j d (k ∷ ks) = ground (arith, lookup-all_to j d ks)

module _ {P V : Type 0} (f : P → V → V) where
  -- The loop over rows, each of which changes the entry of its key if there is one.
  unfoldable pub fold_rows : List (Str × P) → List (Str × V) → List (Str × V)
  unfolding update
  fold_rows [] m = m
  fold_rows ((k, p) ∷ rows) m = fold_rows rows (update k (f p) m)

  -- What the rows of one key make of its entry, in their order.
  abbrev pub own_rows : Str → List (Str × P) → V → V
  own_rows k [] v = v
  own_rows k ((n, p) ∷ rows) v = own_rows k rows (if n == k then f p v else v)

  abbrev pub own_entry : Str → List (Str × P) → Option V → Option V
  own_entry k rows none = none
  own_entry k rows (some v) = some (own_rows k rows v)

  -- The loop gives each key what its own rows make.
  pub lookup-fold_rows :
      (k : Str) (rows : List (Str × P)) (m : List (Str × V))
      → lookup k (fold_rows rows m) ≡ own_entry k rows (lookup k m)
  unfolding fold_rows
  lookup-fold_rows k [] m = at (lookup k m)
    where
      at : (o : Option V) → o ≡ own_entry k [] o
      at none = refl
      at (some v) = refl
  lookup-fold_rows k ((n, p) ∷ rows) m =
      lookup-fold_rows k rows (update n (f p) m)
      ∙ ap (own_entry k rows) (lookup-update k n (f p) m)
      ∙ at (lookup k m)
    where
      at :
          (o : Option V)
          → own_entry k rows (changed (n == k) (f p) o) ≡ own_entry k ((n, p) ∷ rows) o
      at none = refl
      at (some v) = refl

abbrev pub said : {W : Type 0} → Option W → W → W
said none w = w
said (some new) w = new

module _ {P W : Type 0} (says : P → Option W) where
  -- What the last row of the key says that says anything.
  abbrev pub last_of : Str → List (Str × P) → W → W
  last_of k [] w = w
  last_of k ((n, p) ∷ rows) w = last_of k rows (if n == k then said (says p) w else w)

  pub own_rows-field :
      {V : Type 0} (f : P → V → V) (field : V → W)
      → ((p : P) (v : V) → field (f p v) ≡ said (says p) (field v))
      → (k : Str) (rows : List (Str × P)) (v : V)
      → field (own_rows f k rows v) ≡ last_of k rows (field v)
  own_rows-field f field h k [] v = refl
  own_rows-field f field h k ((n, p) ∷ rows) v =
      own_rows-field f field h k rows (if n == k then f p v else v)
      ∙ ap (last_of k rows) (at (n == k))
    where
      at :
          (b : Bool)
          → field (if b then f p v else v) ≡ (if b then said (says p) (field v) else field v)
      at true = h p v
      at false = refl
