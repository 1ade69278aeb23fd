-- ===== src/Core/Replication.antt =====
-- core/src/replication.rs: pair pointers, the status of a pair, replication anchors.
pub mod Pointers
pub mod Status
use zboot.Base.{
  ℕ, zero, ◌≡◌, ◌↔◌, Bool, true, false, ◌&&◌, ◌||◌, not, Option, none, some, List, [], ◌∷◌, ◌++◌,
  Str, Eq, ◌==◌, str_eq, str_beq_iff, nat_eq, elem, filter, length, is_empty, ltb, arith,
  if◌then◌else◌,
}
use zboot.Text.{codes, trim, split_once, rsplit_once, strip_prefix, starts_with, contains_char}

pub record PairPointer : Type 0 where
  pub pool : Str
  pub be : Str

abbrev pub pointer_beq : PairPointer → PairPointer → Bool
pointer_beq a b = a.pool == b.pool && a.be == b.be

pub pointer_beq_iff : (a b : PairPointer) → (pointer_beq a b ≡ true) ↔ (a ≡ b)
pointer_beq_iff a b = ground (arith, str_beq_iff a.pool b.pool, str_beq_iff a.be b.be)

instance abbrev pub pointer_eq : Eq PairPointer
pointer_eq = record { beq = pointer_beq; beq_iff = pointer_beq_iff }

-- The checks on the two sides of the first slash.
unfoldable pub checked_pointer : Str → Option Str → Option PairPointer
checked_pointer pool none = none
checked_pointer pool (some be) =
    if is_empty pool || is_empty be || contains_char b'/' be
    then none
    else some (record { pool = pool; be = be })

unfoldable pub parse_dataset : Str → Option PairPointer
unfolding checked_pointer
parse_dataset s =
    let trimmed = trim s in
    if is_empty trimmed
    then none
    else if trimmed == codes "-"
    then none
    else elim (split_once b'/' trimmed) [
      | none ↦ none
      | some (pool, rest) ↦ checked_pointer pool (strip_prefix (codes "ROOT/") rest)
    ]

unfoldable pub render_pointer : PairPointer → Str
render_pointer p = p.pool ++ (codes "/ROOT/" ++ p.be)

pub data PairStatus : Type 0 where
  in_sync target_missing pool_not_imported asymmetric : PairStatus
  ahead behind : ℕ → PairStatus
  diverged : ℕ → ℕ → PairStatus

-- `a.difference(b)` of two sets, each the list of its elements without repetition.
unfoldable pub difference : List Str → List Str → List Str
unfolding filter elem
difference a b = filter (λ g. not (elem g b)) a

unfoldable pub status_of_counts : ℕ → ℕ → PairStatus
status_of_counts a b =
    if a == 0 && b == 0
    then in_sync
    else if b == 0
    then ahead a
    else if a == 0
    then behind b
    else diverged a b

unfoldable pub from_guids : List Str → Option (List Str) → Bool → PairStatus
unfolding difference status_of_counts
from_guids local_guids none peer_exists = pool_not_imported
from_guids local_guids (some peer) peer_exists =
    if not peer_exists
    then target_missing
    else status_of_counts (length (difference local_guids peer))
        (length (difference peer local_guids))

unfoldable pub is_replication_anchor : Str → Bool
unfolding rsplit_once starts_with
is_replication_anchor snap_or_name = elim (rsplit_once b'@' snap_or_name) [
  | none ↦ starts_with snap_or_name (codes "mirror-")
  | some (_, n) ↦ starts_with n (codes "mirror-")
]
