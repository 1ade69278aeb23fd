-- ===== src/Core/Replication/Pointers.antt =====
-- Laws of pair pointers and anchors (core/src/replication.rs).
use zboot.Base.{
  ℕ, ◌≡◌, ◌≢◌, refl, false, Option, none, some, [], ◌∷◌, ◌++◌, Str, arith, Option-cases, inl, inr,
  nat_eq,
}
use zboot.Text.{codes, trim, split_once, strip_prefix, contains_char}
use zboot.Text.Trim.{NoSpace, trim-NoSpace}
use zboot.Text.Split.{
  append-ne-dash, Lacks, split_once-append, strip_prefix-append, split_once_sound,
  strip_prefix_sound, rsplit_once-append, rsplit_once-Lacks,
}
use zboot.Core.Replication.{
  PairPointer, parse_dataset, render_pointer, checked_pointer, is_replication_anchor,
}

-- A pointer that can be written: the parts are there, hold no slash, and the text has no whitespace.
pub record IsPointer (p : PairPointer) : Type 0 where
  pub pool_there : p.pool ≢ []
  pub be_there : p.be ≢ []
  pub pool_plain : Lacks b'/' p.pool
  pub be_plain : Lacks b'/' p.be
  pub no_space : NoSpace (render_pointer p)

pub contains_char-Lacks : (c : ℕ) (s : Str) → Lacks c s → contains_char c s ≡ false
unfolding contains_char
contains_char-Lacks c [] h = refl
contains_char-Lacks c (x ∷ s) (hx, h) = ground (arith, contains_char-Lacks c s h)

pub contains_char-false : (c : ℕ) (s : Str) → contains_char c s ≡ false → Lacks c s
unfolding contains_char
contains_char-false c [] h = tt
contains_char-false c (x ∷ s) h = ground (arith, contains_char-false c s)

-- A pointer that can be written is read back from its print.
pub parse-render_pointer :
    (p : PairPointer) → IsPointer p → parse_dataset (render_pointer p) ≡ some p
unfolding parse_dataset render_pointer
parse-render_pointer p v =
    let cut = split_once-append b'/' p.pool (codes "ROOT/" ++ p.be) v.pool_plain in
    let stripped = strip_prefix-append (codes "ROOT/") p.be in
    let plain = contains_char-Lacks b'/' p.be v.be_plain in
    rw (trim-NoSpace (render_pointer p) v.no_space) (
      ground (
        arith,
        cut,
        stripped,
        plain,
        append-ne-dash p.pool b'/' (codes "ROOT/" ++ p.be) v.pool_there,
      ))

-- The part of `parse_dataset` behind its early returns.
cut_pointer : Str → Option PairPointer
cut_pointer s = elim (split_once b'/' s) [
  | none ↦ none
  | some (pool, rest) ↦ checked_pointer pool (strip_prefix (codes "ROOT/") rest)
]

from_cut :
    (s : Str) (p : PairPointer)
    → cut_pointer s ≡ some p
    → (s ≡ render_pointer p) × (p.pool ≢ []) × (p.be ≢ []) × Lacks b'/' p.pool × Lacks b'/' p.be
unfolding cut_pointer checked_pointer render_pointer
from_cut s p h = elim (Option-cases (split_once b'/' s)) [
  | inl e ↦ absurd (ground arith)
  | inr ((pool, rest), e) ↦
      let (whole, plain) = split_once_sound b'/' s pool rest e in
      elim (Option-cases (strip_prefix (codes "ROOT/") rest)) [
        | inl e' ↦ absurd (ground arith)
        | inr (be, e') ↦
            let tail = strip_prefix_sound (codes "ROOT/") rest e' in
            let same_pool : p.pool ≡ pool = ground arith in
            let same_be : p.be ≡ be = ground arith in
            let no_slash : contains_char b'/' be ≡ false = ground arith in
            (
              rw (same_pool, same_be, whole, tail) refl,
              ground arith,
              ground arith,
              rw same_pool plain,
              rw same_be (contains_char-false b'/' be no_slash),
            )
      ]
]

-- Whatever is accepted is a dataset `<pool>/ROOT/<be>` with no more slashes, up to the whitespace around it.
pub render-parse_pointer :
    (s : Str) (p : PairPointer)
    → parse_dataset s ≡ some p
    → (trim s ≡ render_pointer p)
      × (p.pool ≢ [])
      × (p.be ≢ [])
      × Lacks b'/' p.pool
      × Lacks b'/' p.be
unfolding parse_dataset
render-parse_pointer s p h = from_cut (trim s) p (unfold cut_pointer in ground arith)

-- Whether a snapshot is an anchor is told by its name alone, with its dataset in front or not.
pub is_replication_anchor-full :
    (dataset name : Str)
    → Lacks b'@' name
    → is_replication_anchor (dataset ++ b'@' ∷ name) ≡ is_replication_anchor name
unfolding is_replication_anchor
is_replication_anchor-full dataset name h =
    ground (arith, rsplit_once-append b'@' dataset name h, rsplit_once-Lacks b'@' name h)
