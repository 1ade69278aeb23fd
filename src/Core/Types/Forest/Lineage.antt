-- ===== src/Core/Types/Forest/Lineage.antt =====
-- What `descendants_of` and `roots` find (core/src/types.rs).
use zboot.Base.{
  ℕ, zero, suc, ◌<◌, ◌≡◌, ◌↔◌, refl, Bool, true, false, Option, none, some, List, [], ◌∷◌, Str,
  ◌==◌, str_eq, str_beq_iff, arith, Bool-cases, Option-cases, inl, inr, In, All, Picks, Picks-nil,
  Picks-keep, Picks-skip,
}
use zboot.Core.Types.{BootEnvironment, SnapshotRef}
use zboot.Core.Types.Forest.{dataset_index, chase, descendants_in, descendants_of}

-- A chain of origins that leads to the ancestor.
pub data Descends (bes : List BootEnvironment) (ancestor : Str) : Option SnapshotRef → Type 0 where
  direct : (snap : SnapshotRef) → snap.dataset ≡ ancestor → Descends bes ancestor (some snap)
  through :
      (snap : SnapshotRef) (parent : BootEnvironment)
      → dataset_index bes snap.dataset ≡ some parent
      → Descends bes ancestor parent.origin
      → Descends bes ancestor (some snap)

-- Every origin inside the forest has a smaller rank than what was cloned from it: there is no cycle.
pub record IsAcyclic (bes : List BootEnvironment) : Type 0 where
  pub rank : Option SnapshotRef → ℕ
  pub falls :
      (snap : SnapshotRef) (parent : BootEnvironment)
      → dataset_index bes snap.dataset ≡ some parent
      → rank parent.origin < rank (some snap)

module _ (bes : List BootEnvironment) (ancestor : Str) where
  chase_sound :
      (fuel : ℕ) (cur : Option SnapshotRef)
      → chase fuel bes ancestor cur ≡ some true
      → Descends bes ancestor cur
  unfolding chase
  chase_sound fuel none h = absurd (ground arith)
  chase_sound zero (some snap) h = absurd (ground arith)
  chase_sound (suc fuel) (some snap) h = elim (Bool-cases (snap.dataset == ancestor)) [
    | inl same ↦ direct snap ((str_beq_iff snap.dataset ancestor).0 same)
    | inr other ↦ elim (Option-cases (dataset_index bes snap.dataset)) [
      | inl gone ↦ absurd (ground arith)
      | inr (parent, e) ↦ through snap parent e (chase_sound fuel parent.origin (ground arith))
    ]
  ]

  -- A walk that ends on a descendant says so.
  chase_complete :
      (fuel : ℕ) (cur : Option SnapshotRef) (b : Bool)
      → Descends bes ancestor cur
      → chase fuel bes ancestor cur ≡ some b
      → b ≡ true
  unfolding chase
  chase_complete zero _ b (direct snap e) h = ground arith
  chase_complete (suc fuel) _ b (direct snap e) h =
      ground (arith, str_beq_iff snap.dataset ancestor)
  chase_complete zero _ b (through snap parent e d) h = ground arith
  chase_complete (suc fuel) _ b (through snap parent e d) h =
      ground (arith, chase_complete fuel parent.origin b d)

  chase_total :
      (acyclic : IsAcyclic bes) (fuel : ℕ) (cur : Option SnapshotRef)
      → acyclic.rank cur < fuel
      → (b : Bool) × (chase fuel bes ancestor cur ≡ some b)
  unfolding chase
  chase_total acyclic fuel none h = (false, refl)
  chase_total acyclic zero (some snap) h = absurd (omega arith)
  chase_total acyclic (suc fuel) (some snap) h = elim (Bool-cases (snap.dataset == ancestor)) [
    | inl same ↦ (true, rw same)
    | inr other ↦ elim (Option-cases (dataset_index bes snap.dataset)) [
      | inl gone ↦ (false, rw other (ground arith))
      | inr (parent, e) ↦
          let lower = acyclic.falls snap parent e in
          let (b, walk) = chase_total acyclic fuel parent.origin (omega arith) in
          (b, rw other (ground arith))
    ]
  ]

module _ (bes : List BootEnvironment) (ancestor : Str) where
  descendants_in_lem :
      (acyclic : IsAcyclic bes) (fuel : ℕ) (rest : List BootEnvironment)
      → All (λ be. acyclic.rank be.origin < fuel) rest
      → (l : List BootEnvironment) × (descendants_in fuel bes ancestor rest ≡ some l)
        × Picks (λ be. Descends bes ancestor be.origin) rest l
  unfolding descendants_in
  descendants_in_lem acyclic fuel [] h =
      ([], refl, Picks-nil (λ be. Descends bes ancestor be.origin))
  descendants_in_lem acyclic fuel (be ∷ rest) (hb, h) =
      let (l, e, pick) = descendants_in_lem acyclic fuel rest h in
      let (b, walk) = chase_total bes ancestor acyclic fuel be.origin hb in
      elim (Bool-cases b) [
        | inl found ↦ (
          be ∷ l,
          ground (arith, walk, e, found),
          Picks-keep (λ x. Descends bes ancestor x.origin)
              (chase_sound bes ancestor fuel be.origin (ground (arith, walk, found))) pick,
        )
        | inr lost ↦ (
          l,
          ground (arith, walk, e, lost),
          Picks-skip (λ x. Descends bes ancestor x.origin)
              (λ d.
                absurd (ground (arith, chase_complete bes ancestor fuel be.origin b d walk, lost)))
              pick,
        )
      ]

-- On a forest without cycles, with fuel above every rank, the walk ends, and it returns exactly the
-- boot environments of the forest from which a chain of origins leads to the ancestor.
pub descendants_of_lem :
    (bes : List BootEnvironment) (ancestor : Str) (acyclic : IsAcyclic bes) (fuel : ℕ)
    → All (λ be. acyclic.rank be.origin < fuel) bes
    → (l : List BootEnvironment) × (descendants_of fuel bes ancestor ≡ some l)
      × ((be : BootEnvironment) → In be l ↔ (In be bes × Descends bes ancestor be.origin))
unfolding descendants_of
descendants_of_lem bes ancestor acyclic fuel h = descendants_in_lem bes ancestor acyclic fuel bes h
