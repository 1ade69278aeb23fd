-- ===== src/Boot/Shell/Pick.antt =====
-- Which boot environment and which kernel an argument means (boot/src/shell.rs, `resolve_pick`).
use zboot.Base.{
  ℕ, ◌≡◌, refl, sym, ap, ◌∙◌, Option, none, some, List, [], ◌∷◌, Str, ◌==◌, str_eq, nat_eq,
  str_beq_iff, In, find, find-In, find_sound, Option-cases, subst, ◌⊎◌, inl, inr, Result, ok, err,
  arith,
}
use zboot.Text.{split_once}
use zboot.Core.Parse.{parse_u64}
use zboot.Cli.Io.{Error, panicked, no_index, not_found, no_kernel}
use zboot.Boot.Shell.{
  KernelChoice, BootTarget, first_kernel, default_kernel, find_kernel, dataset_of, resolve_be,
  pick_kernel, resolve_pick,
}

Result-cases :
    {A : Type 0} (r : Result Error A) → ((e : Error) × (r ≡ err e)) ⊎ ((a : A) × (r ≡ ok a))
Result-cases (ok a) = inr (a, refl)
Result-cases (err e) = inl (e, refl)

some_injective : {A : Type 0} {a b : A} → some a ≡ some b → a ≡ b
some_injective h = ground (arith, h)

-- What the argument names: a number, or a dataset in front of a colon.
abbrev pub Names : Str → Option ℕ → BootTarget → Type 0
Names arg (some n) t = t.idx ≡ n
Names arg none t = t.dataset ≡ dataset_of arg

found :
    {A : Type 0} (o : Option A) (e : Error) {a : A}
    → ◌≡◌ {A = Result Error A} (elim o [ some t ↦ ok t | none ↦ err e ]) (ok a)
    → o ≡ some a
found none e h = absurd (ground (arith, h))
found (some b) e h = ground (arith, h)

resolve_be_sound :
    (arg : Str) (targets : List BootTarget) (t : BootTarget)
    → resolve_be arg targets ≡ ok t
    → In t targets × Names arg (parse_u64 arg) t
unfolding resolve_be
resolve_be_sound arg targets t h = at (parse_u64 arg) h
  where
    at :
        (n : Option ℕ)
        → ◌≡◌ {A = Result Error BootTarget}
            (elim n [
              | some n ↦ (elim (find (λ t. t.idx == n) targets) [
                | some t ↦ ok t
                | none ↦ err (no_index n)
              ])
              | none ↦ (elim (find (λ t. t.dataset == dataset_of arg) targets) [
                | some t ↦ ok t
                | none ↦ err (not_found arg)
              ])
            ])
            (ok t)
        → In t targets × Names arg n t
    at (some n) h =
        let e = found (find (λ t. t.idx == n) targets) (no_index n) h in
        let same = find_sound (λ t. t.idx == n) targets e in
        (find-In (λ t. t.idx == n) targets e, ground (arith, same))
    at none h =
        let e = found (find (λ t. t.dataset == dataset_of arg) targets) (not_found arg) h in
        (
          find-In (λ t. t.dataset == dataset_of arg) targets e,
          (str_beq_iff t.dataset (dataset_of arg)).0
              (find_sound (λ t. t.dataset == dataset_of arg) targets e),
        )

first_kernel-In : (ks : List KernelChoice) {k : KernelChoice} → first_kernel ks ≡ some k → In k ks
first_kernel-In [] h = absurd (ground (arith, h))
first_kernel-In (j ∷ ks) {k} h = subst (λ x. In x (j ∷ ks)) (some_injective h) In.here

default_kernel-In : (t : BootTarget) (k : KernelChoice) → default_kernel t ≡ some k → In k t.kernels
unfolding default_kernel
default_kernel-In t k h = elim (Option-cases (find (λ k. k.is_default) t.kernels)) [
  | inl e ↦ first_kernel-In t.kernels (rw (e, default_kernel) at h)
  | inr (j, e) ↦ find-In (λ k. k.is_default) t.kernels (e ∙ (rw (e, default_kernel) at h))
]

-- The kernel that a colon names.
abbrev pub NamesKernel : Option (Str × Str) → KernelChoice → Type 0
NamesKernel none k = Unit
NamesKernel (some (_, kn)) k = k.vmlinuz ≡ kn

pick_kernel_sound :
    (arg : Str) (be : BootTarget) (k : KernelChoice)
    → pick_kernel arg be ≡ ok k
    → In k be.kernels × NamesKernel (split_once b':' arg) k
unfolding pick_kernel find_kernel
pick_kernel_sound arg be k h = at (split_once b':' arg) h
  where
    at :
        (cut : Option (Str × Str))
        → ◌≡◌ {A = Result Error KernelChoice}
            (elim cut [
              | some (_, kn) ↦ (elim (find_kernel be kn) [
                | some k ↦ ok k
                | none ↦ err (no_kernel be.dataset kn)
              ])
              | none ↦ (elim (default_kernel be) [ some k ↦ ok k | none ↦ err panicked ])
            ])
            (ok k)
        → In k be.kernels × NamesKernel cut k
    at (some (d, kn)) h =
        let e = found (find_kernel be kn) (no_kernel be.dataset kn) h in
        (
          find-In (λ k. k.vmlinuz == kn) be.kernels e,
          (str_beq_iff k.vmlinuz kn).0 (find_sound (λ k. k.vmlinuz == kn) be.kernels e),
        )
    at none h = (default_kernel-In be k (found (default_kernel be) panicked h), tt)

-- What is picked is one of the targets, with the number or the dataset that the argument says, and one of
-- its kernels, the one behind the colon if there is one.
pub resolve_pick_sound :
    (arg : Str) (targets : List BootTarget) (be : BootTarget) (k : KernelChoice)
    → resolve_pick arg targets ≡ ok (be, k)
    → In be targets
      × Names arg (parse_u64 arg) be
      × In k be.kernels
      × NamesKernel (split_once b':' arg) k
unfolding resolve_pick
resolve_pick_sound arg targets be k h = elim (Result-cases (resolve_be arg targets)) [
  | inl (e, r) ↦ absurd (ground (arith, r, h))
  | inr (b, r) ↦ elim (Result-cases (pick_kernel arg b)) [
    | inl (e, p) ↦ absurd (ground (arith, r, p, h))
    | inr (j, p) ↦
        let same : (b ≡ be) × (j ≡ k) = ground (arith, r, p, h) in
        let (n, m) = resolve_be_sound arg targets be (r ∙ ap ok same.0) in
        let p' =
          pick_kernel_sound arg be k (ap (pick_kernel arg) (sym same.0) ∙ p ∙ ap ok same.1) in
        (n, m, p'.0, p'.1)
  ]
]
