-- ===== src/Core/Types/Forest.antt =====
-- `Forest` of core/src/types.rs: boot environments with their lineage by origins.
-- The walk of `descendants_of` is a `while` loop: it takes fuel here, and `none` is a walk that has
-- not ended. `Lineage` shows what the walk finds and that it ends on a forest without cycles.
pub mod Lineage
use zboot.Base.{
  ℕ, zero, suc, Bool, true, false, not, Option, none, some, List, [], ◌∷◌, Str, ◌==◌, str_eq, find,
  filter, is_some, if◌then◌else◌,
}
use zboot.Core.Types.{BootEnvironment, SnapshotRef}

-- `dataset_index`: in a hash map collected from pairs the last entry of a key stays.
unfoldable pub dataset_index : List BootEnvironment → Str → Option BootEnvironment
dataset_index [] ds = none
dataset_index (be ∷ bes) ds = elim (dataset_index bes ds) [
  | some later ↦ some later
  | none ↦ if be.dataset == ds then some be else none
]

unfoldable pub find_by_dataset : List BootEnvironment → Str → Option BootEnvironment
unfolding find
find_by_dataset bes ds = find (λ be. be.dataset == ds) bes

unfoldable pub is_root : List BootEnvironment → BootEnvironment → Bool
unfolding dataset_index
is_root bes be = elim be.origin [
  | none ↦ true
  | some snap ↦ not (is_some (dataset_index bes snap.dataset))
]

unfoldable pub roots : List BootEnvironment → List BootEnvironment
unfolding is_root filter
roots bes = filter (is_root bes) bes

unfoldable pub is_child : Str → BootEnvironment → Bool
is_child ds be = elim be.origin [ none ↦ false | some s ↦ s.dataset == ds ]

unfoldable pub children_of : List BootEnvironment → Str → List BootEnvironment
unfolding is_child filter
children_of bes ds = filter (is_child ds) bes

-- The loop of `descendants_of` on `current`.
unfoldable pub chase : ℕ → List BootEnvironment → Str → Option SnapshotRef → Option Bool
chase fuel bes ancestor none = some false
chase zero bes ancestor (some snap) = none
chase (suc fuel) bes ancestor (some snap) =
    if snap.dataset == ancestor then some true else elim (dataset_index bes snap.dataset) [
      | none ↦ some false
      | some parent ↦ chase fuel bes ancestor parent.origin
    ]

abbrev pub keep_if :
    BootEnvironment → Option Bool → Option (List BootEnvironment) → Option (List BootEnvironment)
keep_if be none rest = none
keep_if be (some b) none = none
keep_if be (some b) (some kept) = some (if b then be ∷ kept else kept)

unfoldable pub descendants_in :
    ℕ → List BootEnvironment → Str → List BootEnvironment → Option (List BootEnvironment)
unfolding chase
descendants_in fuel bes ancestor [] = some []
descendants_in fuel bes ancestor (be ∷ rest) =
    keep_if be (chase fuel bes ancestor be.origin) (descendants_in fuel bes ancestor rest)

unfoldable pub descendants_of : ℕ → List BootEnvironment → Str → Option (List BootEnvironment)
unfolding descendants_in
descendants_of fuel bes ancestor = descendants_in fuel bes ancestor bes
