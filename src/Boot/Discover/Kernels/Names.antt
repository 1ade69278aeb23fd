-- ===== src/Boot/Discover/Kernels/Names.antt =====
-- What the names of kernels and of their initrds say (boot/src/discover.rs).
use zboot.Base.{
  ℕ, ◌≡◌, ◌≢◌, refl, nat_eq, ◌↔◌, ◌<◌, ◌⊎◌, ap, ◌∙◌, Bool, true, false, ◌==◌, Option, none, some,
  [], ◌∷◌, ◌++◌, Str, str_eq, str_beq, str_beq_iff, any, ltb, is_empty, Bool-cases, Option-cases,
  inl, inr, arith, if◌then◌else◌,
}
use zboot.Text.{codes, starts_with, ends_with, strip_prefix}
use zboot.Text.Split.{strip_prefix-append, strip_prefix_sound}
use zboot.Core.Types.Atomic.{str_leb}
use zboot.Boot.Discover.Kernels.{
  is_kernel, key_leb, kernel_sort_key, kernel_leb, initrd_name, pair_initrd, is_default,
}

abbrev pub StartsWith : Str → Str → Type 0
StartsWith s p = (r : Str) × (s ≡ p ++ r)

abbrev pub EndsWith : Str → Str → Type 0
EndsWith s e = (a : Str) × (s ≡ a ++ e)

starts_with_iff : (s p : Str) → (starts_with s p ≡ true) ↔ StartsWith s p
unfolding starts_with
starts_with_iff s p = (
  λ h. at (strip_prefix p s) refl h,
  λ (r, e).
      ap (λ x. starts_with x p) e
      ∙ ap (λ (o : Option Str). elim o [ none ↦ false | some _ ↦ true ]) (strip_prefix-append p r),
)
  where
    at :
        (o : Option Str)
        → strip_prefix p s ≡ o
        → elim o [ none ↦ false | some _ ↦ true ] ≡ true
        → StartsWith s p
    at none e h = absurd (ground (arith, h))
    at (some r) e h = (r, strip_prefix_sound p s e)

nil_only : (e : Str) → is_empty e ≡ true → [] ≡ e
nil_only [] h = refl
nil_only (c ∷ e) h = absurd (ground (arith, h))

ends_with_sound : (s e : Str) → ends_with s e ≡ true → EndsWith s e
unfolding ends_with
ends_with_sound [] e h = ([], nil_only e h)
ends_with_sound (c ∷ s) e h = elim (Bool-cases ((c ∷ s) == e)) [
  | inl t ↦ ([], (str_beq_iff (c ∷ s) e).0 t)
  | inr f ↦ let (a, same) = ends_with_sound s e (rw f at h) in (c ∷ a, ap (λ x. c ∷ x) same)
]

ends_with-append : (a e : Str) → ends_with (a ++ e) e ≡ true
unfolding ends_with
ends_with-append [] [] = refl
ends_with-append [] (c ∷ e) = ground (arith, (str_beq_iff (c ∷ e) (c ∷ e)).1 refl)
ends_with-append (c ∷ a) e = ground (arith, ends_with-append a e)

not_ends_with : (s e : Str) → ends_with s e ≡ false → ¬ EndsWith s e
not_ends_with s e h (a, same) =
    absurd (ground (arith, h, ap (λ x. ends_with x e) same, ends_with-append a e))

ends_with-false : (s e : Str) → ¬ EndsWith s e → ends_with s e ≡ false
ends_with-false s e n = elim (Bool-cases (ends_with s e)) [
  | inl t ↦ absurd (n (ends_with_sound s e t))
  | inr f ↦ f
]

-- The name of a kernel, and no remains of a package manager.
pub record IsKernel (s : Str) : Type 0 where
  pub begins : StartsWith s (codes "vmlinuz")
  pub no_sig : ¬ EndsWith s (codes ".sig")
  pub no_bak : ¬ EndsWith s (codes ".bak")
  pub no_old : ¬ EndsWith s (codes ".dpkg-old")
  pub no_new : ¬ EndsWith s (codes ".dpkg-new")

pub is_kernel_iff : (s : Str) → (is_kernel s ≡ true) ↔ IsKernel s
unfolding is_kernel any
is_kernel_iff s = (
  λ h. record {
    begins = (starts_with_iff s (codes "vmlinuz")).0 (ground (arith, h));
    no_sig = not_ends_with s (codes ".sig") (ground (arith, h));
    no_bak = not_ends_with s (codes ".bak") (ground (arith, h));
    no_old = not_ends_with s (codes ".dpkg-old") (ground (arith, h));
    no_new = not_ends_with s (codes ".dpkg-new") (ground (arith, h));
  },
  λ k.
      rw
        (
          (starts_with_iff s (codes "vmlinuz")).1 k.begins,
          ends_with-false s (codes ".sig") k.no_sig,
          ends_with-false s (codes ".bak") k.no_bak,
          ends_with-false s (codes ".dpkg-old") k.no_old,
          ends_with-false s (codes ".dpkg-new") k.no_new,
        )
        refl,
)

-- The initrd that goes with a kernel, by the names.
pub data GoesWith (s c : Str) : Type 0 where
  current : s ≡ codes "vmlinuz" → c ≡ codes "initrd.img" → GoesWith s c
  previous : s ≡ codes "vmlinuz.old" → c ≡ codes "initrd.img.old" → GoesWith s c
  versioned : (v : Str) → s ≡ codes "vmlinuz-" ++ v → c ≡ codes "initrd.img-" ++ v → GoesWith s c

initrd_name_sound : (s c : Str) → initrd_name s ≡ some c → GoesWith s c
unfolding initrd_name
initrd_name_sound s c h = elim (Bool-cases (s == codes "vmlinuz")) [
  | inl t ↦ GoesWith.current ((str_beq_iff _ _).0 t) (ground (arith, rw t at h))
  | inr n ↦ elim (Bool-cases (s == codes "vmlinuz.old")) [
    | inl t ↦ GoesWith.previous ((str_beq_iff _ _).0 t) (ground (arith, rw (n, t) at h))
    | inr f ↦ elim (Option-cases (strip_prefix (codes "vmlinuz-") s)) [
      | inl e ↦ absurd (ground (arith, rw (n, f, e) at h))
      | inr (v, e) ↦
          GoesWith.versioned v (strip_prefix_sound (codes "vmlinuz-") s e)
            (ground (arith, rw (n, f, e) at h))
    ]
  ]
]

initrd_name_complete : (s c : Str) → GoesWith s c → initrd_name s ≡ some c
unfolding initrd_name str_beq
initrd_name_complete s c (GoesWith.current e f) = rw (e, f) refl
initrd_name_complete s c (GoesWith.previous e f) = rw (e, f) refl
initrd_name_complete s c (GoesWith.versioned v e f) = rw (e, f) refl

module _ (there : Str → Bool) where
  -- The initrd of an entry is one that goes with the kernel and is there; no such one is left out.
  abbrev pub Paired : Str → Option Str → Type 0
  Paired s (some c) = GoesWith s c × (there c ≡ true)
  Paired s none = (c : Str) → GoesWith s c → there c ≡ false

  pub pair_initrd-Paired : (s : Str) → Paired s (pair_initrd there s)
  unfolding pair_initrd
  pair_initrd-Paired s = at (initrd_name s) refl
    where
      at :
          (o : Option Str)
          → initrd_name s ≡ o
          → Paired s (elim o [
            | none ↦ none
            | some candidate ↦ if there candidate then some candidate else none
          ])
      at none e = λ c g. absurd (ground (arith, e, initrd_name_complete s c g))
      at (some c) e = elim (Bool-cases (there c)) [
        | inl t ↦ rw t (initrd_name_sound s c e, t)
        | inr f ↦ rw f (λ d g. ground (arith, f, e, initrd_name_complete s d g))
      ]

-- The name that the link `vmlinuz` has, or without a link the name `vmlinuz`.
abbrev pub Linked : Option Str → Str → Type 0
Linked (some target) s = s ≡ target
Linked none s = s ≡ codes "vmlinuz"

pub is_default_iff :
    (there : Str → Bool) (link : Option Str) (s : Str)
    → (is_default there link s ≡ true) ↔ Linked link s
is_default_iff there none s = str_beq_iff s (codes "vmlinuz")
is_default_iff there (some target) s = str_beq_iff s target

-- The group of a name and the version in it.
pub data Grouped (s : Str) : ℕ → Str → Type 0 where
  current : s ≡ codes "vmlinuz" → Grouped s 0 []
  previous : s ≡ codes "vmlinuz.old" → Grouped s 1 []
  versioned : (v : Str) → s ≡ codes "vmlinuz-" ++ v → Grouped s 2 v
  other_name :
      s ≢ codes "vmlinuz"
      → s ≢ codes "vmlinuz.old"
      → ¬ StartsWith s (codes "vmlinuz-")
      → Grouped s 3 s

-- The first name is in an earlier group, or in the same group with a version that is not smaller.
abbrev pub Before : Str → Str → Type 0
Before j k =
    (m n : ℕ) × (v w : Str) × Grouped j m v
    × Grouped k n w
    × ((m < n) ⊎ ((m ≡ n) × (str_leb w v ≡ true)))

no_prefix : (p s : Str) → strip_prefix p s ≡ none → ¬ StartsWith s p
no_prefix p s h (r, e) = absurd (ground (arith, h, ap (strip_prefix p) e, strip_prefix-append p r))

differs : (s t : Str) → (s == t) ≡ false → s ≢ t
differs s t n e = ground (arith, n, (str_beq_iff s t).1 e)

kernel_sort_key-Grouped : (s : Str) → Grouped s (kernel_sort_key s).0 (kernel_sort_key s).1
unfolding kernel_sort_key
kernel_sort_key-Grouped s = elim (Bool-cases (s == codes "vmlinuz")) [
  | inl t ↦ rw t (Grouped.current ((str_beq_iff _ _).0 t))
  | inr n ↦ elim (Bool-cases (s == codes "vmlinuz.old")) [
    | inl t ↦ rw (n, t) (Grouped.previous ((str_beq_iff _ _).0 t))
    | inr f ↦
        rw (n, f) (at (differs _ _ n) (differs _ _ f) (strip_prefix (codes "vmlinuz-") s) refl)
  ]
]
  where
    key : Option Str → ℕ × Str
    key (some suffix) = (2, suffix)
    key none = (3, s)

    at :
        s ≢ codes "vmlinuz"
        → s ≢ codes "vmlinuz.old"
        → (o : Option Str) → strip_prefix (codes "vmlinuz-") s ≡ o
        → Grouped s (key o).0 (key o).1
    at n f none e = Grouped.other_name n f (no_prefix (codes "vmlinuz-") s e)
    at n f (some v) e = Grouped.versioned v (strip_prefix_sound (codes "vmlinuz-") s e)

key_leb_sound :
    (a b : ℕ × Str) → key_leb a b ≡ true → (a.0 < b.0) ⊎ ((a.0 ≡ b.0) × (str_leb b.1 a.1 ≡ true))
key_leb_sound a b h = elim (Bool-cases (ltb a.0 b.0)) [
  | inl t ↦ inl (ground (arith, t))
  | inr n ↦ elim (Bool-cases (ltb b.0 a.0)) [
    | inl t ↦ absurd (ground (arith, rw (n, t) at h))
    | inr f ↦ inr (ground (arith, n, f), rw (n, f) at h)
  ]
]

pub kernel_leb-Before : (j k : Str) → kernel_leb j k ≡ true → Before j k
unfolding kernel_leb
kernel_leb-Before j k h = (
  (kernel_sort_key j).0,
  (kernel_sort_key k).0,
  (kernel_sort_key j).1,
  (kernel_sort_key k).1,
  kernel_sort_key-Grouped j,
  kernel_sort_key-Grouped k,
  key_leb_sound (kernel_sort_key j) (kernel_sort_key k) h,
)
