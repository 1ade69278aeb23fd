-- ===== src/Cli/ZfsOps/Snapshots/Divergence.antt =====
-- What the selections of snapshots hold (cli/src/zfs_ops.rs).
use zboot.Base.{
  ◌≡◌, subst, sym, ◌↔◌, inl, inr, Bool, true, false, not, some, List, [], ◌∷◌, map, Str, ◌==◌,
  str_eq, str_beq_iff, arith, filter, filter-Picks, elem, elem→In, In→elem, In, In-cases, In-nil,
  Bool-cases, Option-cases,
}
use zboot.Core.Replication.{is_replication_anchor}
use zboot.Cli.ZfsOps.Snapshots.{
  Named, is_kept, guids_of, names_of, only_on_right, behind_bound, snapshots_after_bound_pure,
}

map-In {ℓ κ} :
    {A : Type ℓ} {B : Type κ} (f : A → B) (xs : List A) (b : B)
    → In b (map f xs) ↔ ((a : A) × In a xs × (f a ≡ b))
map-In f xs b = (to xs, λ (a, m, e). subst (λ c. In c (map f xs)) e (from m))
  where
    to : (ys : List _) → In b (map f ys) → (a : _) × In a ys × (f a ≡ b)
    to [] m = absurd (In-nil m)
    to (y ∷ ys) m = elim (In-cases m) [
      | inl e ↦ (y, In.here, sym e)
      | inr n ↦ let (a, k, e) = to ys n in (a, In.there k, e)
    ]

    from : {a : _} {ys : List _} → In a ys → In (f a) (map f ys)
    from In.here = In.here
    from (In.there m) = In.there (from m)

-- A snapshot that is no anchor.
abbrev pub Listed : Named → List Named → Type 0
Listed p ps = In p ps × (is_replication_anchor p.name ≡ false)

-- The snapshots after the first one of that name.
pub data Follows (bound : Str) : List Named → List Named → Type 0 where
  at : (p : Named) (ps : List Named) → p.name ≡ bound → Follows bound (p ∷ ps) ps
  later :
      (p : Named) (ps after : List Named)
      → (p.name == bound) ≡ false
      → Follows bound ps after
      → Follows bound (p ∷ ps) after

kept-Listed : (ps : List Named) (p : Named) → In p (filter is_kept ps) ↔ Listed p ps
kept-Listed ps p = (
  λ m. let (n, e) = (filter-Picks is_kept ps p).0 m in (n, ground (arith, e)),
  λ (m, e). (filter-Picks is_kept ps p).1 (m, rw e),
)

shared :
    (ps : List Named) (g : Str)
    → (elem g (guids_of (filter is_kept ps)) ≡ true) ↔ ((q : Named) × Listed q ps × (q.guid ≡ g))
shared ps g = (
  λ h.
      let (q, m, e) = (map-In (λ (p : Named). p.guid) (filter is_kept ps) g).0 (elem→In g _ h) in
      (q, (kept-Listed ps q).0 m, e),
  λ (q, l, e).
      In→elem
        ((map-In (λ (p : Named). p.guid) (filter is_kept ps) g).1 (q, (kept-Listed ps q).1 l, e)),
)

chosen :
    (test : Named → Bool) (ps : List Named) (n : Str)
    → In n (names_of (filter test (filter is_kept ps)))
      ↔ ((p : Named) × Listed p ps × (p.name ≡ n) × (test p ≡ true))
chosen test ps n = (
  λ m.
      let (p, k, e) = (map-In (λ (p : Named). p.name) (filter test (filter is_kept ps)) n).0 m in
      let (k', t) = (filter-Picks test (filter is_kept ps) p).0 k in
      (p, (kept-Listed ps p).0 k', e, t),
  λ (p, l, e, t).
      (map-In (λ (p : Named). p.name) (filter test (filter is_kept ps)) n).1
        (p, (filter-Picks test (filter is_kept ps) p).1 ((kept-Listed ps p).1 l, t), e),
)

-- The divergence between two datasets is exactly the snapshots of the right one that are no anchors
-- and whose GUID no snapshot of the left one has, anchors aside.
pub only_on_right_lem :
    (left right : List Named) (n : Str)
    → In n (only_on_right left right) ↔ (
        (p : Named) × Listed p right
        × (p.name ≡ n)
        × (¬ ((q : Named) × Listed q left × (q.guid ≡ p.guid))))
unfolding only_on_right
only_on_right_lem left right n = (
  λ m.
      let (p, l, e, t) =
        (chosen (λ p. not (elem p.guid (guids_of (filter is_kept left)))) right n).0 m in
      (p, l, e, λ w. absurd (ground (arith, t, (shared left p.guid).1 w))),
  λ (p, l, e, alone). (chosen (λ p. not (elem p.guid (guids_of (filter is_kept left)))) right n).1 (
    p,
    l,
    e,
    elim (Bool-cases (elem p.guid (guids_of (filter is_kept left)))) [
      | inl t ↦ absurd (alone ((shared left p.guid).0 t))
      | inr f ↦ rw f
    ],
  ),
)

behind_bound-Follows :
    (bound : Str) (src after : List Named)
    → (behind_bound bound src ≡ some after) ↔ Follows bound src after
unfolding behind_bound
behind_bound-Follows bound src after = (to src, from)
  where
    to : (ps : List Named) → behind_bound bound ps ≡ some after → Follows bound ps after
    to [] h = absurd (ground arith)
    to (p ∷ ps) h = elim (Bool-cases (p.name == bound)) [
      | inl e ↦
          let same : ps ≡ after = ground (arith, e) in
          subst (Follows bound (p ∷ ps)) same (Follows.at p ps ((str_beq_iff p.name bound).0 e))
      | inr e ↦ Follows.later p ps after e (to ps (ground (arith, e)))
    ]

    from : {ps : List Named} → Follows bound ps after → behind_bound bound ps ≡ some after
    from (at p ps e) = ground (arith, e, str_beq_iff p.name bound)
    from (later p ps after e f) = ground (arith, e, from f)

-- A bounded push or pull would destroy exactly the snapshots of the destination that are no anchors
-- and have the GUID of a snapshot, no anchor either, that the source has after the bound; without the
-- bound on the source there are none.
pub snapshots_after_bound_pure_lem :
    (src dest : List Named) (bound n : Str)
    → In n (snapshots_after_bound_pure src dest bound) ↔ (
        (after : List Named) × Follows bound src after
        × (p : Named) × Listed p dest
        × (p.name ≡ n)
        × (q : Named) × Listed q after
        × (q.guid ≡ p.guid))
unfolding snapshots_after_bound_pure
snapshots_after_bound_pure_lem src dest bound n = elim (Option-cases (behind_bound bound src)) [
  | inl e ↦ (
    λ m. absurd (In-nil (rw (e, snapshots_after_bound_pure) at m)),
    λ (after, f, p, l, same, q, k, eq).
        absurd (ground (arith, e, (behind_bound-Follows bound src after).1 f)),
  )
  | inr (after, e) ↦ (
    λ m.
        let (p, l, same, t) =
          (chosen (λ p. elem p.guid (guids_of (filter is_kept after))) dest n).0
            (rw (e, snapshots_after_bound_pure) at m) in
        let (q, k, eq) = (shared after p.guid).0 t in
        (after, (behind_bound-Follows bound src after).0 e, p, l, same, q, k, eq),
    λ (rest, f, p, l, same, q, k, eq).
        let other : rest ≡ after = ground (arith, e, (behind_bound-Follows bound src rest).1 f) in
        rw (e, snapshots_after_bound_pure)
          ((chosen (λ p. elem p.guid (guids_of (filter is_kept after))) dest n).1
            (p, l, same, (shared after p.guid).1 (q, subst (λ ps. Listed q ps) other k, eq))),
  )
]
