-- ===== src/Text.antt =====
-- The methods of Rust's `str` that the program calls, on lists of characters.
-- `Trim`, `Split` and `Lines` hold their laws.
pub mod Trim
pub mod Split
pub mod Lines
use Prim.Native.Char.{code}
use zboot.Base.{
  ℕ, zero, suc, String, Bool, true, false, ◌&&◌, ◌||◌, Option, none, some, List, [], ◌∷◌, ◌++◌, Str,
  ◌==◌, nat_eq, str_eq, leb, is_empty, filter, not, if◌then◌else◌,
}

-- A literal: its characters' code points.
abbrev pub codes : String → Str
codes String.[] = []
codes (String.◌∷◌ c s) = code c ∷ codes s

-- `char::is_whitespace`: Unicode's White_Space.
unfoldable pub is_whitespace : ℕ → Bool
is_whitespace c =
    (leb 9 c && leb c 13)
    || c == 32
    || c == 0x85
    || c == 0xa0
    || c == 0x1680
    || (leb 0x2000 c && leb c 0x200a)
    || c == 0x2028
    || c == 0x2029
    || c == 0x202f
    || c == 0x205f
    || c == 0x3000

unfoldable pub trim_start_matches : (ℕ → Bool) → Str → Str
trim_start_matches p [] = []
trim_start_matches p (c ∷ s) = if p c then trim_start_matches p s else c ∷ s

unfoldable pub trim_end_matches : (ℕ → Bool) → Str → Str
trim_end_matches p [] = []
trim_end_matches p (c ∷ s) = let r = trim_end_matches p s in if is_empty r && p c then [] else c ∷ r

unfoldable pub trim : Str → Str
unfolding trim_start_matches trim_end_matches is_whitespace
trim s = trim_end_matches is_whitespace (trim_start_matches is_whitespace s)

-- `s.contains(c)`.
unfoldable pub contains_char : ℕ → Str → Bool
contains_char c [] = false
contains_char c (x ∷ s) = x == c || contains_char c s

abbrev pub in_front : ℕ → Option (Str × Str) → Option (Str × Str)
in_front c none = none
in_front c (some (a, b)) = some (c ∷ a, b)

unfoldable pub split_once : ℕ → Str → Option (Str × Str)
split_once sep [] = none
split_once sep (c ∷ s) =
    let rest = split_once sep s in if c == sep then some ([], s) else in_front c rest

abbrev pub or_cut : ℕ → ℕ → Str → Option (Str × Str) → Option (Str × Str)
or_cut sep c s (some (a, b)) = some (c ∷ a, b)
or_cut sep c s none = if c == sep then some ([], s) else none

-- `rsplit_once` cuts at the last separator.
unfoldable pub rsplit_once : ℕ → Str → Option (Str × Str)
rsplit_once sep [] = none
rsplit_once sep (c ∷ s) = or_cut sep c s (rsplit_once sep s)

abbrev pub extend : ℕ → List Str → List Str
extend c [] = (c ∷ []) ∷ []
extend c (p ∷ ps) = (c ∷ p) ∷ ps

unfoldable pub split_matches : (ℕ → Bool) → Str → List Str
split_matches p [] = [] ∷ []
split_matches p (c ∷ s) = let rest = split_matches p s in if p c then [] ∷ rest else extend c rest

unfoldable pub split : ℕ → Str → List Str
unfolding split_matches
split sep = split_matches (λ c. c == sep)

-- `splitn(n, sep)`: at most `n` parts, the last one uncut.
unfoldable pub splitn : ℕ → ℕ → Str → List Str
unfolding split_once
splitn zero sep s = []
splitn (suc zero) sep s = s ∷ []
splitn (suc (suc n)) sep s = elim (split_once sep s) [
  | none ↦ s ∷ []
  | some (a, b) ↦ a ∷ splitn (suc n) sep b
]

unfoldable pub split_whitespace : Str → List Str
unfolding split_matches is_whitespace filter
split_whitespace s = filter (λ w. not (is_empty w)) (split_matches is_whitespace s)

-- `split(sep).next().unwrap_or(s)`: the text before the first separator.
unfoldable pub first_part : ℕ → Str → Str
unfolding split_once
first_part sep s = elim (split_once sep s) [ none ↦ s | some (a, b) ↦ a ]

-- `rsplit(sep).next().unwrap_or(s)`: the text behind the last separator.
unfoldable pub last_part : ℕ → Str → Str
unfolding rsplit_once
last_part sep s = elim (rsplit_once sep s) [ none ↦ s | some (a, b) ↦ b ]

strip_cr : Str → Str
strip_cr [] = []
strip_cr (c ∷ []) = if c == b'\r' then [] else c ∷ []
strip_cr (c ∷ d ∷ s) = c ∷ strip_cr (d ∷ s)

-- A line that ends in a newline loses a carriage return before it; the text behind the last
-- newline is a line if it is not empty.
end_lines : List Str → List Str
unfolding strip_cr
end_lines [] = []
end_lines (p ∷ []) = if is_empty p then [] else p ∷ []
end_lines (p ∷ q ∷ r) = strip_cr p ∷ end_lines (q ∷ r)

unfoldable pub lines : Str → List Str
unfolding split end_lines
lines s = end_lines (split b'\n' s)

unfoldable pub strip_prefix : Str → Str → Option Str
strip_prefix [] s = some s
strip_prefix (p ∷ ps) [] = none
strip_prefix (p ∷ ps) (c ∷ s) = if p == c then strip_prefix ps s else none

unfoldable pub starts_with : Str → Str → Bool
unfolding strip_prefix
starts_with s prefix = elim (strip_prefix prefix s) [ none ↦ false | some _ ↦ true ]

unfoldable pub join : Str → List Str → Str
join sep [] = []
join sep (p ∷ []) = p
join sep (p ∷ q ∷ ps) = p ++ (sep ++ join sep (q ∷ ps))

unfoldable pub ends_with : Str → Str → Bool
ends_with [] suffix = is_empty suffix
ends_with (c ∷ s) suffix = (c ∷ s) == suffix || ends_with s suffix
