-- ===== src/Core/Replication/Status.antt =====
-- What `PairStatus::from_guids` says of two sets of snapshots (core/src/replication.rs).
use zboot.Base.{
  ℕ, ◌≡◌, ◌↔◌, refl, true, some, List, [], ◌∷◌, Str, arith, ◌==◌, str_eq, nat_eq, str_beq_iff, elem,
  filter, length, Bool-cases, beq_refl, inl, inr,
}
use zboot.Core.Replication.{
  PairStatus, in_sync, target_missing, pool_not_imported, asymmetric, ahead, behind, diverged,
  difference, status_of_counts, from_guids,
}

-- The same pair, seen from its other side.
abbrev pub mirrored : PairStatus → PairStatus
mirrored (ahead n) = behind n
mirrored (behind n) = ahead n
mirrored (diverged a b) = diverged b a
mirrored in_sync = in_sync
mirrored target_missing = target_missing
mirrored pool_not_imported = pool_not_imported
mirrored asymmetric = asymmetric

-- The two sides of a pair whose datasets exist see each other's status, with ahead and behind swapped.
pub from_guids-swap :
    (mine theirs : List Str)
    → from_guids theirs (some mine) true ≡ mirrored (from_guids mine (some theirs) true)
unfolding from_guids
from_guids-swap mine theirs =
    swap (length (difference mine theirs)) (length (difference theirs mine))
  where
    swap : (a b : ℕ) → status_of_counts b a ≡ mirrored (status_of_counts a b)
    swap a b = ground arith

-- `a` holds nothing that `b` lacks.
abbrev pub Within : List Str → List Str → Type 0
Within a b = (g : Str) → elem g a ≡ true → elem g b ≡ true

difference-zero : (a b : List Str) → length (difference a b) ≡ 0 → Within a b
unfolding difference elem filter
difference-zero [] b h g m = absurd (ground arith)
difference-zero (x ∷ a) b h g m = elim (Bool-cases (elem x b)) [
  | inl old ↦ elim (Bool-cases (x == g)) [
    | inl same ↦ rw (← (str_beq_iff x g).0 same) old
    | inr other ↦ difference-zero a b (ground arith) g (ground arith)
  ]
  | inr new ↦ absurd (ground arith)
]

zero_at :
    (x : Str) (a b : List Str)
    → elem x b ≡ true
    → length (difference a b) ≡ 0
    → length (difference (x ∷ a) b) ≡ 0
unfolding difference filter
zero_at x a b listed rest = ground arith

zero-difference : (a b : List Str) → Within a b → length (difference a b) ≡ 0
zero-difference [] b w = unfold difference filter in refl
zero-difference (x ∷ a) b w = zero_at x a b (w x head) (zero-difference a b (λ g m. w g (tail g m)))
  where
    head : elem x (x ∷ a) ≡ true
    head = unfold elem in rw (beq_refl x)

    tail : (g : Str) → elem g a ≡ true → elem g (x ∷ a) ≡ true
    tail g m = unfold elem in ground (arith, m)

-- A reachable peer is in sync exactly if both sides hold the same snapshots.
pub from_guids_sync :
    (mine theirs : List Str)
    → (from_guids mine (some theirs) true ≡ in_sync) ↔ (Within mine theirs × Within theirs mine)
from_guids_sync mine theirs = (
  λ h. (
    difference-zero mine theirs (unfold from_guids in ground (arith, h)),
    difference-zero theirs mine (unfold from_guids in ground (arith, h)),
  ),
  λ (l, r).
      unfold from_guids in
      ground (arith, zero-difference mine theirs l, zero-difference theirs mine r),
)

-- If a reachable peer has diverged, neither side's snapshots are among the other's, and the status
-- counts what each side has alone.
pub from_guids_diverged :
    (mine theirs : List Str) (a b : ℕ)
    → from_guids mine (some theirs) true ≡ diverged a b
    → (¬ Within mine theirs)
      × (¬ Within theirs mine)
      × (a ≡ length (difference mine theirs))
      × (b ≡ length (difference theirs mine))
unfolding status_of_counts
from_guids_diverged mine theirs a b h =
    let counts : status_of_counts (length (difference mine theirs))
          (length (difference theirs mine))
        ≡ diverged a b =
      (unfold from_guids in h) in
    (
      λ w. absurd (ground (arith, counts, zero-difference mine theirs w)),
      λ w. absurd (ground (arith, counts, zero-difference theirs mine w)),
      ground (arith, counts),
      ground (arith, counts),
    )
