-- ===== src/Tests/Core.antt =====
-- The core's theorems at the inputs of its unit tests (core/src).
use zboot.Base.{
  ℕ, ◌<◌, ◌≡◌, ◌↔◌, refl, true, Option, none, some, List, [], ◌∷◌, Str, ◌==◌, str_eq, str_beq, ok,
  err, arith, any, any-false, str_beq_iff, All, In, if◌then◌else◌,
}
use zboot.Text.{codes, trim, split, is_whitespace, split_once, strip_prefix, contains_char}
use zboot.Core.Types.{
  ParseError, SnapshotRef, parse_snapshot_ref, BoundKey, key_eq, parse_bound_list,
  render_bound_list, render_key, parse_key, parse_keys, Canmount, BootEnvironment,
}
use zboot.Core.Types.Keys
use zboot.Core.Types.Keys.{IsRef, IsKey}
use zboot.Core.Types.Property.{Property, zboot_attached_to}
use zboot.Core.Types.Forest.{descendants_of, dataset_index}
use zboot.Core.Types.Forest.Lineage
use zboot.Core.Types.Forest.Lineage.{IsAcyclic, Descends}
use zboot.Core.Parse.{parse_property, parse_canmount}
use zboot.Core.Replication.{PairPointer, parse_dataset, from_guids, difference, diverged}

abbrev snap : SnapshotRef
snap = record { dataset = codes "rpool/ROOT/be1"; name = codes "snap1" }

parse_snap : parse_snapshot_ref (codes "rpool/ROOT/be1@snap1") ≡ some snap
unfolding parse_snapshot_ref
parse_snap = refl

abbrev key1 : BoundKey
key1 = record { pool = codes "rpool"; be = codes "be1" }

abbrev key2 : BoundKey
key2 = record { pool = codes "rpool2"; be = codes "be2" }

key1-IsKey : IsKey key1
unfolding render_key is_whitespace any
key1-IsKey = record {
  pool_there = cc;
  be_there = cc;
  pool_plain = omega arith;
  no_space = any-false is_whitespace (render_key key1) refl;
  no_comma = omega arith;
}

key2-IsKey : IsKey key2
unfolding render_key is_whitespace any
key2-IsKey = record {
  pool_there = cc;
  be_there = cc;
  pool_plain = omega arith;
  no_space = any-false is_whitespace (render_key key2) refl;
  no_comma = omega arith;
}

parse-render_bound_list_example :
    parse_bound_list (render_bound_list (key1 ∷ key2 ∷ [])) ≡ ok (key1 ∷ key2 ∷ [])
parse-render_bound_list_example =
    Keys.parse-render_bound_list (key1 ∷ key2 ∷ []) (key1-IsKey, (key2-IsKey, tt))

read_bootfs :
    parse_property (codes "canmount") (codes "noauto") ≡ ok (Property.canmount Canmount.noauto)
unfolding parse_property parse_canmount str_beq
read_bootfs = refl

read_garbage :
    parse_property (codes "canmount") (codes "wat")
    ≡ err (ParseError.value (codes "canmount") (codes "wat"))
unfolding parse_property parse_canmount str_beq
read_garbage = refl

read_attached :
    parse_property (codes "zboot:attached-to") (codes "rpool:be1")
    ≡ ok (zboot_attached_to (key1 ∷ []))
unfolding parse_property parse_bound_list parse_keys parse_key trim split split_once str_beq
read_attached = refl

abbrev pointer : PairPointer
pointer = record { pool = codes "rpool2"; be = codes "be1" }

read_pointer : parse_dataset (codes " rpool2/ROOT/be1\n") ≡ some pointer
unfolding parse_dataset trim split_once strip_prefix contains_char str_beq
read_pointer = refl

abbrev mine : List Str
mine = codes "g1" ∷ codes "g2" ∷ []

abbrev theirs : List Str
theirs = codes "g1" ∷ codes "g3" ∷ []

apart : from_guids mine (some theirs) true ≡ diverged 1 1
unfolding from_guids difference str_beq
apart = refl

abbrev a_be : Str → Option SnapshotRef → BootEnvironment
a_be n o = record {
  pool = codes "p";
  dataset = n;
  name = n;
  origin = o;
  created_by = none;
  mountpoint = none;
  canmount = none;
}

abbrev origin_at : Str → Option SnapshotRef
origin_at n = some (record { dataset = n; name = codes "s" })

abbrev chain : List BootEnvironment
chain = a_be (codes "a") none ∷ a_be (codes "b") (origin_at (codes "a")) ∷ []

abbrev rank_of : Option SnapshotRef → ℕ
rank_of none = 0
rank_of (some o) = if o.dataset == codes "a" then 1 else 2

rank_of-falls :
    (snap : SnapshotRef) (parent : BootEnvironment)
    → dataset_index chain snap.dataset ≡ some parent
    → rank_of parent.origin < rank_of (some snap)
unfolding dataset_index str_beq
rank_of-falls snap parent h = ground (
  arith,
  str_beq_iff (codes "a") snap.dataset,
  str_beq_iff (codes "b") snap.dataset,
  str_beq_iff snap.dataset (codes "a"),
)

abbrev chain-IsAcyclic : IsAcyclic chain
chain-IsAcyclic = record { rank = rank_of; falls = rank_of-falls }

ranks-Within : All (λ (be : BootEnvironment). rank_of be.origin < 3) chain
unfolding str_beq
ranks-Within = (omega arith, (omega arith, tt))

descendants_of_lem_example :
    (l : List BootEnvironment) × (descendants_of 3 chain (codes "a") ≡ some l)
    × ((be : BootEnvironment) → In be l ↔ (In be chain × Descends chain (codes "a") be.origin))
descendants_of_lem_example =
    Lineage.descendants_of_lem chain (codes "a") chain-IsAcyclic 3 ranks-Within
