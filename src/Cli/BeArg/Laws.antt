-- ===== src/Cli/BeArg/Laws.antt =====
-- How an argument is cut at its last `@`, and which dataset a bare name stands for (cli/src/be_arg.rs).
use zboot.Base.{
  ◌≡◌, ◌≢◌, refl, false, Option, some, [], ◌∷◌, ◌++◌, Str, ok, arith, Option-cases, inl, inr,
}
use zboot.Text.{rsplit_once, contains_char}
use zboot.Text.Split.{Lacks, rsplit_once-append, rsplit_once_sound}
use zboot.Core.Replication.{parse_dataset, render_pointer}
use zboot.Core.Replication.Pointers.{IsPointer, parse-render_pointer}
use zboot.Cli.BeArg.{split_parts, split_be_snap, discover_booted_pool, resolve_be_dataset}

-- A snapshot without `@` comes off the boot environment that it was put behind, even if that one has
-- an `@` itself. Both are not empty.
pub split_be_snap-append :
    (be snap : Str)
    → be ≢ []
    → snap ≢ []
    → Lacks b'@' snap
    → split_be_snap (be ++ b'@' ∷ snap) ≡ (be, some snap)
unfolding split_be_snap
split_be_snap-append be snap hb hs h = rw (rsplit_once-append b'@' be snap h) (parts be snap hb hs)
  where
    parts :
        (a b : Str) → a ≢ [] → b ≢ [] → split_parts (be ++ b'@' ∷ snap) (some (a, b)) ≡ (a, some b)
    parts a b ha hb = unfold split_parts in ground (arith, ha, hb)

-- Whatever is found behind an `@` was the end of the argument, holds no `@` and is not empty.
pub split_be_snap_sound :
    (arg be snap : Str)
    → split_be_snap arg ≡ (be, some snap)
    → (arg ≡ be ++ b'@' ∷ snap) × (be ≢ []) × (snap ≢ []) × Lacks b'@' snap
unfolding split_be_snap split_parts
split_be_snap_sound arg be snap h = elim (Option-cases (rsplit_once b'@' arg)) [
  | inl e ↦ absurd (ground (arith, e, h))
  | inr ((a, b), e) ↦
      let (whole, plain) = rsplit_once_sound b'@' arg a b e in
      let same_be : be ≡ a = ground (arith, e, h) in
      let same_snap : snap ≡ b = ground (arith, e, h) in
      (
        rw (same_be, same_snap) whole,
        ground (arith, e, h),
        ground (arith, e, h),
        rw same_snap plain,
      )
]

-- A bare name is the boot environment of that name on the pool of the dataset at `/`: the pair pointer
-- to the dataset that it resolves to has these two parts. The parts are those of a pointer.
pub resolve_be_dataset-bare :
    (mounts : Option Str) (pool be : Str)
    → discover_booted_pool mounts ≡ ok pool
    → contains_char b'/' be ≡ false
    → IsPointer (record { pool = pool; be = be })
    → (ds : Str) × (resolve_be_dataset mounts be ≡ ok ds)
      × (parse_dataset ds ≡ some (record { pool = pool; be = be }))
unfolding resolve_be_dataset
resolve_be_dataset-bare mounts pool be h bare v = (
  render_pointer (record { pool = pool; be = be }),
  rw (bare, h) (unfold render_pointer in refl),
  parse-render_pointer (record { pool = pool; be = be }) v,
)
