-- ===== src/Core/Types/Atomic/Grouping.antt =====
-- What the atomic sets of a list of snapshots hold (core/src/types.rs, `AtomicSet::from_snapshots`).
use zboot.Base.{
  ◌≡◌, refl, ap, ap₂, sym, ◌∙◌, Bool, true, false, Option, none, some, List, [], ◌∷◌, ◌++◌, map,
  append_assoc, append-nil, Str, ◌==◌, str_eq, str_beq_iff, option_beq, arith, find, filter,
  is_some, Bool-cases, Option-cases, inl, inr, if◌then◌else◌,
}
use zboot.Core.Types.{Snapshot, snapshot_as_ref}
use zboot.Core.Types.Atomic.{
  AtomicSet, push_member, empty_set, enter, group, str_leb, insert_set, sort_sets, from_snapshots,
}

abbrev pub is_uuid : Str → AtomicSet → Bool
is_uuid u s = s.uuid == u

-- The snapshots of one set.
abbrev pub in_set : Str → Snapshot → Bool
in_set u snap = option_beq snap.set (some u)

-- The first creator that is known.
abbrev pub first_creator : List Snapshot → Option Str
first_creator [] = none
first_creator (snap ∷ snaps) =
    let rest = first_creator snaps in if is_some snap.created_by then snap.created_by else rest

-- The set that the snapshots of a UUID make; none if there are none.
abbrev pub gathered : Str → List Snapshot → Option AtomicSet
gathered u [] = none
gathered u (snap ∷ snaps) = some (record {
  uuid = u;
  members = map snapshot_as_ref (snap ∷ snaps);
  created_by = first_creator (snap ∷ snaps);
})

-- The entry with the members of more snapshots.
abbrev more : Option AtomicSet → Str → List Snapshot → Option AtomicSet
more none u snaps = gathered u snaps
more (some s) u snaps = some (record {
  uuid = s.uuid;
  members = s.members ++ map snapshot_as_ref snaps;
  created_by = if is_some s.created_by then s.created_by else first_creator snaps;
})

abbrev extended : Str → Snapshot → Option AtomicSet → AtomicSet
extended u snap none = push_member snap (empty_set u snap)
extended u snap (some s) = push_member snap s

find-enter :
    (u uuid : Str) (snap : Snapshot) (sets : List AtomicSet)
    → find (is_uuid u) (enter uuid snap sets) ≡ (
        if uuid == u
        then some (extended uuid snap (find (is_uuid u) sets))
        else find (is_uuid u) sets)
unfolding enter find push_member
find-enter u uuid snap [] = elim (Bool-cases (uuid == u)) [ inl e ↦ rw e | inr e ↦ rw e ]
find-enter u uuid snap (s ∷ sets) = ground (
  arith,
  find-enter u uuid snap sets,
  str_beq_iff s.uuid uuid,
  str_beq_iff s.uuid u,
  str_beq_iff uuid u,
)

str_leb_refl : (s : Str) → str_leb s s ≡ true
unfolding str_leb
str_leb_refl [] = refl
str_leb_refl (a ∷ s) = ground (arith, str_leb_refl s)

find-insert_set :
    (u : Str) (s : AtomicSet) (sets : List AtomicSet)
    → find (is_uuid u) (insert_set s sets) ≡ find (is_uuid u) (s ∷ sets)
unfolding insert_set find
find-insert_set u s [] = refl
find-insert_set u s (x ∷ sets) = ground (
  arith,
  find-insert_set u s sets,
  str_leb_refl s.uuid,
  str_beq_iff s.uuid u,
  str_beq_iff x.uuid u,
)

creator_again :
    (a b c : Option Str)
    → (if is_some (if is_some a then a else b) then (if is_some a then a else b) else c)
      ≡ (if is_some a then a else if is_some b then b else c)
creator_again none none c = refl
creator_again none (some b) c = refl
creator_again (some a) b c = refl

more-extended :
    (o : Option AtomicSet) (u : Str) (snap : Snapshot) (mine : List Snapshot)
    → more (some (extended u snap o)) u mine ≡ more o u (snap ∷ mine)
unfolding push_member
more-extended none u snap mine =
    ap
      (λ c. some (record { uuid = u; members = map snapshot_as_ref (snap ∷ mine); created_by = c }))
      (creator_again snap.created_by snap.created_by (first_creator mine)
        ∙ same snap.created_by (first_creator mine))
  where
    same :
        (a c : Option Str)
        → (if is_some a then a else if is_some a then a else c) ≡ (if is_some a then a else c)
    same none c = refl
    same (some a) c = refl
more-extended (some s) u snap mine =
    ap₂ (λ m c. some (record { uuid = s.uuid; members = m; created_by = c }))
      (append_assoc s.members (snapshot_as_ref snap ∷ []) (map snapshot_as_ref mine))
      (creator_again s.created_by snap.created_by (first_creator mine))

more-nil : (o : Option AtomicSet) (u : Str) → more o u [] ≡ o
more-nil none u = refl
more-nil (some s) u =
    ap₂ (λ m c. some (record { uuid = s.uuid; members = m; created_by = c })) (append-nil s.members)
      (kept s.created_by)
  where
    kept : (a : Option Str) → (if is_some a then a else none) ≡ a
    kept none = refl
    kept (some a) = refl

group-step :
    (sets : List AtomicSet) (snap : Snapshot) (snaps : List Snapshot) {o : Option Str}
    → snap.set ≡ o
    → group sets (snap ∷ snaps)
      ≡ (elim o [ none ↦ group sets snaps | some uuid ↦ group (enter uuid snap sets) snaps ])
unfolding group
group-step sets snap snaps e =
    ap
      (λ (o : Option Str). elim o [
        | none ↦ group sets snaps
        | some uuid ↦ group (enter uuid snap sets) snaps
      ])
      e

filter-step :
    (u : Str) (snap : Snapshot) (snaps : List Snapshot) {o : Option Str}
    → snap.set ≡ o
    → filter (in_set u) (snap ∷ snaps)
      ≡ (if option_beq o (some u) then snap ∷ filter (in_set u) snaps else filter (in_set u) snaps)
unfolding filter
filter-step u snap snaps e =
    ap
      (λ (o : Option Str).
        if option_beq o (some u) then snap ∷ filter (in_set u) snaps else filter (in_set u) snaps)
      e

find-group :
    (u : Str) (sets : List AtomicSet) (snaps : List Snapshot)
    → find (is_uuid u) (group sets snaps) ≡ more (find (is_uuid u) sets) u (filter (in_set u) snaps)
find-group u sets [] = unfold group filter in sym (more-nil (find (is_uuid u) sets) u)
find-group u sets (snap ∷ snaps) = elim (Option-cases snap.set) [
  | inl e ↦
      ap (find (is_uuid u)) (group-step sets snap snaps e)
      ∙ find-group u sets snaps
      ∙ ap (more (find (is_uuid u) sets) u) (sym (filter-step u snap snaps e))
  | inr (uuid, e) ↦
      ap (find (is_uuid u)) (group-step sets snap snaps e)
      ∙ find-group u (enter uuid snap sets) snaps
      ∙ ap (λ o. more o u (filter (in_set u) snaps)) (find-enter u uuid snap sets)
      ∙ entered uuid
      ∙ ap (more (find (is_uuid u) sets) u) (sym (filter-step u snap snaps e))
]
  where
    entered :
        (uuid : Str)
        → more
            (if uuid == u
              then some (extended uuid snap (find (is_uuid u) sets))
              else find (is_uuid u) sets)
            u
            (filter (in_set u) snaps)
          ≡ more
              (find (is_uuid u) sets)
              u
              (if uuid == u then snap ∷ filter (in_set u) snaps else filter (in_set u) snaps)
    entered uuid = elim (Bool-cases (uuid == u)) [
      | inl same ↦
          rw (same, (str_beq_iff uuid u).0 same)
            (more-extended (find (is_uuid u) sets) u snap (filter (in_set u) snaps))
      | inr other ↦ rw other refl
    ]

find-sort_sets :
    (u : Str) (sets : List AtomicSet) → find (is_uuid u) (sort_sets sets) ≡ find (is_uuid u) sets
unfolding sort_sets find
find-sort_sets u [] = refl
find-sort_sets u (s ∷ sets) =
    find-insert_set u s (sort_sets sets) ∙ unfold find in rw (find-sort_sets u sets) refl

-- The set of a UUID has the references of exactly the snapshots with this UUID, in their order, and the
-- first creator that one of them names; there is no set of a UUID that no snapshot has.
pub from_snapshots_lem :
    (u : Str) (snaps : List Snapshot)
    → find (is_uuid u) (from_snapshots snaps) ≡ gathered u (filter (in_set u) snaps)
unfolding from_snapshots
from_snapshots_lem u snaps =
    find-sort_sets u (group [] snaps) ∙ find-group u [] snaps ∙ unfold find in refl

-- The sets stand in the order of their UUIDs.
abbrev pub Sorted : List AtomicSet → Type 0
Sorted [] = Unit
Sorted (s ∷ []) = Unit
Sorted (s ∷ x ∷ sets) = (str_leb s.uuid x.uuid ≡ true) × Sorted (x ∷ sets)

pub str_leb_total : (s t : Str) → str_leb s t ≡ false → str_leb t s ≡ true
unfolding str_leb
str_leb_total [] t h = absurd (ground (arith, h))
str_leb_total (a ∷ s) [] h = refl
str_leb_total (a ∷ s) (b ∷ t) h = ground (arith, h, str_leb_total s t)

behind :
    (x s : AtomicSet) (sets : List AtomicSet)
    → str_leb s.uuid x.uuid ≡ false
    → Sorted (x ∷ sets)
    → Sorted (insert_set s sets)
    → Sorted (x ∷ insert_set s sets)
unfolding insert_set
behind x s [] h sorted below = (str_leb_total s.uuid x.uuid h, tt)
behind x s (y ∷ sets) h sorted below = elim (Bool-cases (str_leb s.uuid y.uuid)) [
  | inl e ↦ rw (e, insert_set) (str_leb_total s.uuid x.uuid h, (e, sorted.1))
  | inr e ↦ rw (e, insert_set) (sorted.0, rw (e, insert_set) at below)
]

insert_set-Sorted :
    (s : AtomicSet) (sets : List AtomicSet) → Sorted sets → Sorted (insert_set s sets)
unfolding insert_set
insert_set-Sorted s [] h = tt
insert_set-Sorted s (x ∷ sets) h = elim (Bool-cases (str_leb s.uuid x.uuid)) [
  | inl e ↦ rw (e, insert_set) (e, h)
  | inr e ↦ rw (e, insert_set) (behind x s sets e h (insert_set-Sorted s sets (rest x sets h)))
]
  where
    rest : (x : AtomicSet) (sets : List AtomicSet) → Sorted (x ∷ sets) → Sorted sets
    rest x [] h = tt
    rest x (y ∷ sets) h = h.1

sort_sets-Sorted : (sets : List AtomicSet) → Sorted (sort_sets sets)
unfolding sort_sets
sort_sets-Sorted [] = tt
sort_sets-Sorted (s ∷ sets) = insert_set-Sorted s (sort_sets sets) (sort_sets-Sorted sets)

-- The sets come in the order of their UUIDs.
pub from_snapshots-Sorted : (snaps : List Snapshot) → Sorted (from_snapshots snaps)
unfolding from_snapshots
from_snapshots-Sorted snaps = sort_sets-Sorted (group [] snaps)
