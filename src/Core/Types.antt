-- ===== src/Core/Types.antt =====
-- core/src/types.rs: pools, boot environments, snapshots and bound lists.
-- `Keys` has the laws of bound lists, `Forest` the lineage queries, `Atomic` the atomic sets.
pub mod Keys
pub mod Property
pub mod Forest
pub mod Atomic
use zboot.Base.{
  ℕ, ◌≡◌, ◌↔◌, refl, Bool, true, false, ◌&&◌, not, Option, none, some, List, [], ◌∷◌, ◌++◌, map,
  arith, Eq, ◌==◌, str_eq, nat_eq, str_beq_iff, elem, Str, Result, ok, err, and_then, is_empty,
  length, any, filter, if◌then◌else◌,
}
use zboot.Text.{codes, split_once, split, trim, join}

-- `ParseError` of core/src/parse.rs, each with the text that it quotes.
pub data ParseError : Type 0 where
  line bound_list snapshot_ref : Str → ParseError
  value : Str → Str → ParseError

pub data PoolRole : Type 0 where
  root : PoolRole

pub record Pool : Type 0 where
  pub name : Str
  pub role : Option PoolRole
  pub bootfs : Option Str
  pub guid : Option ℕ

pub record SnapshotRef : Type 0 where
  pub dataset : Str
  pub name : Str

unfoldable pub parse_snapshot_ref : Str → Option SnapshotRef
unfolding split_once
parse_snapshot_ref s = elim (split_once b'@' s) [
  | none ↦ none
  | some (ds, name) ↦
      if is_empty ds
      then none
      else if is_empty name
      then none
      else some (record { dataset = ds; name = name })
]

unfoldable pub render_snapshot_ref : SnapshotRef → Str
render_snapshot_ref r = r.dataset ++ b'@' ∷ r.name

pub record Snapshot : Type 0 where
  pub dataset : Str
  pub name : Str
  pub set : Option Str
  pub created_by : Option Str

-- `Snapshot::new`.
abbrev pub new_snapshot : Str → Str → Snapshot
new_snapshot ds n = record { dataset = ds; name = n; set = none; created_by = none }

-- `Snapshot::as_ref`.
abbrev pub snapshot_as_ref : Snapshot → SnapshotRef
snapshot_as_ref s = record { dataset = s.dataset; name = s.name }

pub data Canmount : Type 0 where
  on off noauto : Canmount

unfoldable pub render_canmount : Canmount → Str
render_canmount on = codes "on"
render_canmount off = codes "off"
render_canmount noauto = codes "noauto"

pub data Mountpoint : Type 0 where
  none' legacy : Mountpoint
  path : Str → Mountpoint

pub record BootEnvironment : Type 0 where
  pub pool : Str
  pub dataset : Str
  pub name : Str
  pub origin : Option SnapshotRef
  pub created_by : Option Str
  pub mountpoint : Option Mountpoint
  pub canmount : Option Canmount

-- `BootEnvironment::new`.
unfoldable pub new_boot_environment : Str → Str → BootEnvironment
new_boot_environment pool name = record {
  pool = pool;
  dataset = pool ++ (codes "/ROOT/" ++ name);
  name = name;
  origin = none;
  created_by = none;
  mountpoint = none;
  canmount = none;
}

pub record BoundKey : Type 0 where
  pub pool : Str
  pub be : Str

abbrev pub key_beq : BoundKey → BoundKey → Bool
key_beq a b = a.pool == b.pool && a.be == b.be

pub key_beq_iff : (a b : BoundKey) → (key_beq a b ≡ true) ↔ (a ≡ b)
key_beq_iff a b = ground (arith, str_beq_iff a.pool b.pool, str_beq_iff a.be b.be)

instance abbrev pub key_eq : Eq BoundKey
key_eq = record { beq = key_beq; beq_iff = key_beq_iff }

unfoldable pub render_key : BoundKey → Str
render_key k = k.pool ++ b':' ∷ k.be

-- A `BoundList` is the vector that it wraps.
abbrev pub BoundList : Type 0
BoundList = List BoundKey

unfoldable pub parse_key : Str → Result ParseError BoundKey
unfolding split_once
parse_key part = elim (split_once b':' part) [
  | none ↦ err (bound_list part)
  | some (pool, be) ↦
      if is_empty pool
      then err (bound_list part)
      else if is_empty be
      then err (bound_list part)
      else ok (record { pool = pool; be = be })
]

-- The loop of `BoundList::parse` over the parts between commas.
unfoldable pub parse_keys : List Str → Result ParseError BoundList
unfolding parse_key trim
parse_keys [] = ok []
parse_keys (part ∷ parts) =
    and_then (parse_key (trim part)) λ k. and_then (parse_keys parts) λ ks. ok (k ∷ ks)

unfoldable pub parse_bound_list : Str → Result ParseError BoundList
unfolding parse_keys split trim
parse_bound_list s =
    let trimmed = trim s in
    if is_empty trimmed
    then ok []
    else if trimmed == codes "-"
    then ok []
    else parse_keys (split b',' trimmed)

unfoldable pub render_bound_list : BoundList → Str
unfolding render_key join
render_bound_list l = join (codes ",") (map render_key l)

unfoldable pub append_key : BoundKey → BoundList → BoundList
unfolding elem
append_key key l = if elem key l then l else l ++ key ∷ []

unfoldable pub remove_key : BoundKey → BoundList → BoundList × Bool
unfolding filter
remove_key key l =
    let kept = filter (λ k. not (k == key)) l in (kept, not (length l == length kept))
