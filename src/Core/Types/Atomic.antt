-- ===== src/Core/Types/Atomic.antt =====
-- `AtomicSet` of core/src/types.rs: the snapshots that were taken together. The hash map by UUID is an
-- association list, whose order the sort by UUID forgets. `Grouping` has what a set holds.
pub mod Grouping
use zboot.Base.{
  ℕ, Bool, true, false, Option, none, some, List, [], ◌∷◌, ◌++◌, Str, ◌==◌, str_eq, ltb, is_some,
  if◌then◌else◌,
}
use zboot.Core.Types.{SnapshotRef, Snapshot, snapshot_as_ref}

pub record AtomicSet : Type 0 where
  pub uuid : Str
  pub members : List SnapshotRef
  pub created_by : Option Str

-- What the `entry` becomes: the member is pushed, and an unknown creator is filled in.
unfoldable pub push_member : Snapshot → AtomicSet → AtomicSet
push_member snap s = record {
  uuid = s.uuid;
  members = s.members ++ snapshot_as_ref snap ∷ [];
  created_by = if is_some s.created_by then s.created_by else snap.created_by;
}

abbrev pub empty_set : Str → Snapshot → AtomicSet
empty_set uuid snap = record { uuid = uuid; members = []; created_by = snap.created_by }

-- `entry(..).or_insert_with(..)` and the changes to the entry.
unfoldable pub enter : Str → Snapshot → List AtomicSet → List AtomicSet
unfolding push_member
enter uuid snap [] = push_member snap (empty_set uuid snap) ∷ []
enter uuid snap (s ∷ sets) =
    let rest = enter uuid snap sets in
    if s.uuid == uuid then push_member snap s ∷ sets else s ∷ rest

-- The loop over the snapshots; those without a set are passed over.
unfoldable pub group : List AtomicSet → List Snapshot → List AtomicSet
unfolding enter
group sets [] = sets
group sets (snap ∷ snaps) = elim snap.set [
  | none ↦ group sets snaps
  | some uuid ↦ group (enter uuid snap sets) snaps
]

-- The order of strings; code points are in the order of their UTF-8 bytes.
unfoldable pub str_leb : Str → Str → Bool
str_leb [] t = true
str_leb (a ∷ s) [] = false
str_leb (a ∷ s) (b ∷ t) =
    let rest = str_leb s t in if ltb a b then true else if ltb b a then false else rest

-- `sort_by` is the stable sort; sets have different UUIDs.
unfoldable pub insert_set : AtomicSet → List AtomicSet → List AtomicSet
insert_set s [] = s ∷ []
insert_set s (x ∷ sets) =
    let rest = insert_set s sets in if str_leb s.uuid x.uuid then s ∷ x ∷ sets else x ∷ rest

unfoldable pub sort_sets : List AtomicSet → List AtomicSet
unfolding insert_set
sort_sets [] = []
sort_sets (s ∷ sets) = insert_set s (sort_sets sets)

unfoldable pub from_snapshots : List Snapshot → List AtomicSet
unfolding group sort_sets
from_snapshots snaps = sort_sets (group [] snaps)
