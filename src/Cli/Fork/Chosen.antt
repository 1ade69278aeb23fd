-- ===== src/Cli/Fork/Chosen.antt =====
-- Which names `zboot fork` accepts, and which dataset is the first that a pool boots (cli/src/cmd/fork.rs,
-- `active_be_dataset`).
use zboot.Base.{
  ℕ, ◌≡◌, ◌≢◌, refl, subst, true, false, not, ◌&&◌, ◌==◌, Option, none, some, List, [], ◌∷◌, Str,
  str_eq, str_beq_iff, nat_eq, is_empty, ok, ok_or, Bool-cases, inl, inr, arith,
}
use zboot.Text.{codes, split, trim, contains_char}
use zboot.Text.Split.{Lacks}
use zboot.Core.Replication.Pointers.{contains_char-false}
use zboot.Cli.Io.{Error}
use zboot.Cli.ZfsOps.{second_or}
use zboot.Cli.Fork.{valid_name, active_in}

-- A name of one component of a dataset.
abbrev pub IsName : Str → Type 0
IsName name = (name ≢ []) × Lacks b'/' name × Lacks b'@' name

pub filled : (s : Str) → is_empty s ≡ false → s ≢ []
filled [] n e = absurd (ground (arith, n))
filled (c ∷ s) n e = ground (arith, e)

pub valid_name-IsName : (name : Str) → valid_name name ≡ true → IsName name
unfolding valid_name
valid_name-IsName name h = (
  filled name (ground (arith, h)),
  contains_char-false b'/' name (ground (arith, h)),
  contains_char-false b'@' name (ground (arith, h)),
)

-- What a line of `zpool list -o name,bootfs` says the pool boots.
abbrev pub booted : Str → Str
booted l = trim (second_or (codes "-") (split b'\t' l))

abbrev pub IsBoot : Str → Type 0
IsBoot ds = (ds ≢ []) × (ds ≢ codes "-")

-- The dataset of the first pool that boots one.
pub data FirstBoot (ds : Str) : List Str → Type 0 where
  this : {l : Str} {ls : List Str} → booted l ≡ ds → IsBoot ds → FirstBoot ds (l ∷ ls)
  later : {l : Str} {ls : List Str} → ¬ IsBoot (booted l) → FirstBoot ds ls → FirstBoot ds (l ∷ ls)

IsBoot-sound : (s : Str) → (not (is_empty s) && not (s == codes "-")) ≡ true → IsBoot s
IsBoot-sound s h =
    (filled s (ground (arith, h)), λ e. ground (arith, h, (str_beq_iff s (codes "-")).1 e))

no_code : (x : Str) → is_empty x ≡ true → x ≡ []
no_code [] e = refl
no_code (c ∷ x) e = absurd (ground (arith, e))

IsBoot-complete : (s : Str) → (not (is_empty s) && not (s == codes "-")) ≡ false → ¬ IsBoot s
IsBoot-complete s h (full, plain) = elim (Bool-cases (s == codes "-")) [
  | inl e ↦ plain ((str_beq_iff s (codes "-")).0 e)
  | inr n ↦ full (no_code s (ground (arith, h, n)))
]

pub active_in-FirstBoot : (ls : List Str) (ds : Str) → active_in ls ≡ ok ds → FirstBoot ds ls
unfolding active_in
active_in-FirstBoot [] ds h = absurd (ground (arith, h))
active_in-FirstBoot (l ∷ ls) ds h =
    elim (Bool-cases (not (is_empty (booted l)) && not (booted l == codes "-"))) [
      | inl t ↦
          let same : booted l ≡ ds = ground (arith, rw t at h) in
          FirstBoot.this same (subst IsBoot same (IsBoot-sound (booted l) t))
      | inr f ↦
          FirstBoot.later (IsBoot-complete (booted l) f) (active_in-FirstBoot ls ds (rw f at h))
    ]

pub has_char : (c : ℕ) (s : Str) → contains_char c s ≡ true → ¬ Lacks c s
unfolding contains_char
has_char c [] h = absurd (ground (arith, h))
has_char c (x ∷ s) h = λ (other, lacks). elim (Bool-cases (contains_char c s)) [
  | inl t ↦ has_char c s t lacks
  | inr f ↦ other (ground (arith, h, f))
]

pub ok_or_sound : {A : Type 0} (e : Error) {a : A} (o : Option A) → ok_or o e ≡ ok a → o ≡ some a
ok_or_sound e (some b) h = ground (arith, h)
ok_or_sound e none h = absurd (ground (arith, h))
