-- ===== src/Cli/ZfsOps/Snapshots/Latest.antt =====
-- The base of the next incremental send (cli/src/zfs_ops.rs, `previous_anchor_on_dest`).
use zboot.Base.{
  ◌≡◌, refl, ap, ◌↔◌, ◌⊎◌, inl, inr, true, false, Option, none, some, List, [], ◌∷◌, ◌++◌, Str,
  str_eq, arith, elem, Bool-cases, All, if◌then◌else◌,
}
use zboot.Cli.ZfsOps.Snapshots.{Named, latest_match}

-- The last snapshot of a list whose GUID is among the given ones.
pub record IsLatest (guids : List Str) (src : List Named) (n : Str) : Type 0 where
  pub before : List Named
  pub found : Named
  pub after : List Named
  pub whole : src ≡ before ++ found ∷ after
  pub called : found.name ≡ n
  pub held : elem found.guid guids ≡ true
  pub none_after : All (λ (q : Named). elem q.guid guids ≡ false) after

latest_match-All :
    (guids : List Str) (o : Option Str) (src : List Named)
    → All (λ (q : Named). elem q.guid guids ≡ false) src
    → latest_match guids o src ≡ o
unfolding latest_match
latest_match-All guids o [] h = refl
latest_match-All guids o (p ∷ src) (e, h) = rw e (latest_match-All guids o src h)

latest_match-found :
    (guids : List Str) (o : Option Str) (src : List Named) (n : Str)
    → latest_match guids o src ≡ some n
    → IsLatest guids src n ⊎ (All (λ (q : Named). elem q.guid guids ≡ false) src × (o ≡ some n))
unfolding latest_match
latest_match-found guids o [] n h = inr (tt, h)
latest_match-found guids o (p ∷ src) n h = elim (Bool-cases (elem p.guid guids)) [
  | inl e ↦ elim (latest_match-found guids (some p.name) src n (rw e at h)) [
    | inl l ↦ inl (record {
      before = p ∷ l.before;
      found = l.found;
      after = l.after;
      whole = ap (λ ps. p ∷ ps) l.whole;
      called = l.called;
      held = l.held;
      none_after = l.none_after;
    })
    | inr (rest, same) ↦ inl (record {
      before = [];
      found = p;
      after = src;
      whole = refl;
      called = ground (arith, same);
      held = e;
      none_after = rest;
    })
  ]
  | inr e ↦ elim (latest_match-found guids o src n (rw e at h)) [
    | inl l ↦ inl (record {
      before = p ∷ l.before;
      found = l.found;
      after = l.after;
      whole = ap (λ ps. p ∷ ps) l.whole;
      called = l.called;
      held = l.held;
      none_after = l.none_after;
    })
    | inr (rest, same) ↦ inr ((e, rest), same)
  ]
]

latest_match-reach :
    (guids : List Str) (o : Option Str) (before : List Named) (p : Named) (after : List Named)
    → elem p.guid guids ≡ true
    → All (λ (q : Named). elem q.guid guids ≡ false) after
    → latest_match guids o (before ++ p ∷ after) ≡ some p.name
unfolding latest_match
latest_match-reach guids o [] p after e h =
    rw (e, latest_match) (latest_match-All guids (some p.name) after h)
latest_match-reach guids o (q ∷ before) p after e h =
    latest_match-reach guids (if elem q.guid guids then some q.name else o) before p after e h

-- The base of the next incremental send is a snapshot exactly if it is the last one of the source
-- whose GUID the destination has.
pub latest_match_lem :
    (guids : List Str) (src : List Named) (n : Str)
    → (latest_match guids none src ≡ some n) ↔ IsLatest guids src n
latest_match_lem guids src n = (
  λ h. elim (latest_match-found guids none src n h) [
    | inl l ↦ l
    | inr (_, e) ↦ absurd (ground (arith, e))
  ],
  λ l.
      rw
        (
          l.whole,
          latest_match-reach guids none l.before l.found l.after l.held l.none_after,
          l.called,
        )
        refl,
)
