-- ===== src/Text/Split.antt =====
-- Laws of the splitting methods.
use zboot.Base.{
  ℕ, ◌≡◌, ◌≢◌, refl, ap, sym, All-append, false, List, [], ◌∷◌, ◌++◌, none, some, Str, arith,
  is_empty, All, Option-cases, inl, inr, nat_eq, str_beq, append-nil,
}
use zboot.Text.{codes, split_once, rsplit_once, split, last_part, join, strip_prefix}

-- `c` does not occur.
abbrev pub Lacks : ℕ → Str → Type 0
Lacks c = All (λ x. x ≢ c)

module _ (sep : ℕ) where
  -- The first separator is where the cut is made.
  pub split_once-append : (a b : Str) → Lacks sep a → split_once sep (a ++ sep ∷ b) ≡ some (a, b)
  unfolding split_once
  split_once-append [] b h = ground arith
  split_once-append (c ∷ a) b (hc, ha) = ground (arith, split_once-append a b ha)

  pub split_once_sound :
      (s : Str) (a b : Str) → split_once sep s ≡ some (a, b) → (s ≡ a ++ sep ∷ b) × Lacks sep a
  unfolding split_once
  split_once_sound [] a b h = ground arith
  split_once_sound (c ∷ s) [] b h = ground (arith, split_once_sound s [] b)
  split_once_sound (c ∷ s) (d ∷ a) b h = ground (arith, split_once_sound s a b)

  pub rsplit_once-Lacks : (s : Str) → Lacks sep s → rsplit_once sep s ≡ none
  unfolding rsplit_once
  rsplit_once-Lacks [] h = refl
  rsplit_once-Lacks (c ∷ s) (hc, hs) = ground (arith, rsplit_once-Lacks s hs)

  -- The last separator is where the cut is made.
  pub rsplit_once-append : (a b : Str) → Lacks sep b → rsplit_once sep (a ++ sep ∷ b) ≡ some (a, b)
  unfolding rsplit_once
  rsplit_once-append [] b h = ground (arith, rsplit_once-Lacks b h)
  rsplit_once-append (c ∷ a) b h = ground (arith, rsplit_once-append a b h)

  pub rsplit_once-none : (s : Str) → rsplit_once sep s ≡ none → Lacks sep s
  unfolding rsplit_once
  rsplit_once-none [] h = tt
  rsplit_once-none (c ∷ s) h = ground (arith, rsplit_once-none s)

  pub rsplit_once_sound :
      (s : Str) (a b : Str) → rsplit_once sep s ≡ some (a, b) → (s ≡ a ++ sep ∷ b) × Lacks sep b
  unfolding rsplit_once
  rsplit_once_sound [] a b h = ground arith
  rsplit_once_sound (c ∷ s) [] b h = ground (arith, rsplit_once_sound s [] b, rsplit_once-none s)
  rsplit_once_sound (c ∷ s) (d ∷ a) b h = ground (arith, rsplit_once_sound s a b)

  -- A part without separators is split off whole.
  pub split-Lacks : (a : Str) → Lacks sep a → split sep a ≡ a ∷ []
  unfolding split
  split-Lacks [] h = refl
  split-Lacks (c ∷ a) (hc, ha) = ground (arith, split-Lacks a ha)

  pub split-append : (a b : Str) → Lacks sep a → split sep (a ++ sep ∷ b) ≡ a ∷ split sep b
  unfolding split
  split-append [] b h = ground arith
  split-append (c ∷ a) b (hc, ha) = ground (arith, split-append a b ha)

  -- Splitting a join gives the parts back, if there is one and none holds the separator.
  pub split-join :
      (p : Str) (ps : List Str)
      → All (Lacks sep) (p ∷ ps)
      → split sep (join (sep ∷ []) (p ∷ ps)) ≡ p ∷ ps
  unfolding join
  split-join p [] (h, _) = split-Lacks p h
  split-join p (q ∷ ps) (h, hs) = rw (split-append p _ h) (ap (λ r. p ∷ r) (split-join q ps hs))

  -- The text behind the last separator holds none.
  pub last_part-Lacks : (s : Str) → Lacks sep (last_part sep s)
  unfolding last_part
  last_part-Lacks s = elim (Option-cases (rsplit_once sep s)) [
    | inl e ↦ rw (e, last_part) (rsplit_once-none s e)
    | inr ((a, b), e) ↦ rw (e, last_part) (rsplit_once_sound s a b e).1
  ]

-- A prefix comes off what was put behind it.
pub strip_prefix-append : (p s : Str) → strip_prefix p (p ++ s) ≡ some s
unfolding strip_prefix
strip_prefix-append [] s = refl
strip_prefix-append (c ∷ p) s = ground (arith, strip_prefix-append p s)

pub strip_prefix_sound : (p s : Str) {r : Str} → strip_prefix p s ≡ some r → s ≡ p ++ r
unfolding strip_prefix
strip_prefix_sound [] s h = ground arith
strip_prefix_sound (c ∷ p) [] h = ground arith
strip_prefix_sound (c ∷ p) (d ∷ s) {r} h = ground (arith, strip_prefix_sound p s {r = r})

-- A join begins with its first part.
pub join-head : (sep p : Str) (ps : List Str) → (r : Str) × (join sep (p ∷ ps) ≡ p ++ r)
unfolding join
join-head sep p [] = ([], sym (append-nil p))
join-head sep p (q ∷ ps) = (sep ++ join sep (q ∷ ps), refl)

-- What holds of every character of the parts and of the separator holds in the join.
pub join-All :
    (P : ℕ → Type 0) (sep : Str) (ps : List Str) → All P sep → All (All P) ps → All P (join sep ps)
unfolding join
join-All P sep [] hs h = tt
join-All P sep (p ∷ []) hs (hp, _) = hp
join-All P sep (p ∷ q ∷ ps) hs (hp, h) =
    All-append P p _ hp (All-append P sep _ hs (join-All P sep (q ∷ ps) hs h))

-- A text with something on both sides of a character is neither empty nor a dash.
pub append-ne-dash :
    (a : Str) (c : ℕ) (b : Str)
    → a ≢ []
    → (is_empty (a ++ c ∷ b) ≡ false) × (str_beq (a ++ c ∷ b) (codes "-") ≡ false)
unfolding str_beq
append-ne-dash [] c b h = absurd (h refl)
append-ne-dash (x ∷ []) c b h = (refl, ground arith)
append-ne-dash (x ∷ y ∷ a) c b h = (refl, ground arith)
