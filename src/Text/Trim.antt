-- ===== src/Text/Trim.antt =====
-- Laws of `trim`.
use zboot.Base.{ℕ, Bool, ◌≡◌, refl, false, [], ◌∷◌, Str, arith, is_empty, All}
use zboot.Text.{is_whitespace, trim, trim_start_matches, trim_end_matches}

-- No character is whitespace.
abbrev pub NoSpace : Str → Type 0
NoSpace = All (λ c. is_whitespace c ≡ false)

trim_start-NoSpace : (s : Str) → NoSpace s → trim_start_matches is_whitespace s ≡ s
unfolding trim_start_matches
trim_start-NoSpace [] h = refl
trim_start-NoSpace (c ∷ s) (hc, hs) = rw hc

trim_end-NoSpace : (s : Str) → NoSpace s → trim_end_matches is_whitespace s ≡ s
unfolding trim_end_matches
trim_end-NoSpace [] h = refl
trim_end-NoSpace (c ∷ s) (hc, hs) = ground (arith, trim_end-NoSpace s hs)

-- Trimming changes no text that holds no whitespace.
pub trim-NoSpace : (s : Str) → NoSpace s → trim s ≡ s
unfolding trim
trim-NoSpace s h = rw (trim_start-NoSpace s h) (trim_end-NoSpace s h)

-- A text that begins with no whitespace is not blank.
pub trim-cons : (c : ℕ) (s : Str) → is_whitespace c ≡ false → is_empty (trim (c ∷ s)) ≡ false
unfolding trim
trim-cons c s h = rw (h, h) (ground arith)

pub trim_end-Lacks : (p : ℕ → Bool) (s : Str) → All (λ c. p c ≡ false) s → trim_end_matches p s ≡ s
unfolding trim_end_matches
trim_end-Lacks p [] h = refl
trim_end-Lacks p (c ∷ s) (hc, hs) = ground (arith, trim_end-Lacks p s hs)
