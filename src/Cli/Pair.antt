-- ===== src/Cli/Pair.antt =====
-- cli/src/cmd/pair.rs: `zboot pair` writes the `zboot:mirror` pointers of two boot environments, and
-- `zboot unpair` clears them. Printed lines are left out. `Checks` and `Effects` have what a successful
-- `zboot pair` has checked and what it leaves, `Refused` that a refusal
-- changes nothing, and `Clearing` what `zboot unpair` leaves.
pub mod Checks
pub mod Effects
pub mod Clearing
pub mod Refused
use zboot.Base.{
  Bool, true, false, not, ◌||◌, Option, none, some, List, [], ◌∷◌, ◌++◌, Str, Result, ok, err,
  ok_or, ◌==◌, str_eq, option_beq, is_some, is_empty, filter, if◌then◌else◌,
}
use zboot.Text.{codes, first_part}
use zboot.Core.Replication.{PairPointer, pointer_eq, parse_dataset, render_pointer, difference}
use zboot.Cli.Io.{
  Io, Error, self_pair, same_pool, not_found, already_paired, diverged, not_canonical, not_paired,
  ◌>>=◌, ◌>>◌, pure, lift, done, guard, attempt,
}
use zboot.Cli.Sub.{Runner}
use zboot.Cli.ZfsOps.{
  dataset_exists, set_property_tolerant, inherit_property_tolerant, read_pair_pointer,
  write_pair_pointer, clear_pair_pointer, or_false,
}
use zboot.Cli.ZfsOps.Snapshots.{Named, is_kept, guids_of, list_snapshots_with_guids}

pub record PairArgs : Type 0 where
  pub a : Str
  pub b : Str
  pub force : Bool

unfoldable pub pool_of : Str → Str
pool_of ds = first_part b'/' ds

-- `unwrap_or_default()`.
abbrev pub or_none : Option (List Named) → List Named
or_none none = []
or_none (some ps) = ps

-- What the checks find: the two pointers, and whether the second side has one already.
pub record Checked : Type 0 where
  pub a_peer : PairPointer
  pub b_peer : PairPointer
  pub b_was_paired : Bool

module _ {S : Type 0} (r : Runner S) where
  unfoldable pub verify_compatible : Str → Str → Io S (Unit {0})
  verify_compatible a b = do
    a_pairs ← attempt (list_snapshots_with_guids r a)
    b_pairs ← attempt (list_snapshots_with_guids r b)
    let a_set = guids_of (filter is_kept (or_none a_pairs))
    let b_set = guids_of (filter is_kept (or_none b_pairs))
    guard (is_empty (difference a_set b_set) || is_empty (difference b_set a_set)) (diverged a)

  unfoldable pub require_dataset : Str → Io S (Unit {0})
  require_dataset ds = do there ← dataset_exists r ds; guard there (not_found ds)

  -- The steps before the first write.
  unfoldable pub pair_checks : PairArgs → Io S Checked
  pair_checks args = do
    guard (not (args.a == args.b)) (self_pair args.a)
    guard (not (pool_of args.a == pool_of args.b)) (same_pool (pool_of args.a))
    require_dataset args.a
    require_dataset args.b
    a_pointer ← read_pair_pointer r args.a
    guard (not (is_some a_pointer)) (already_paired args.a)
    if args.force then done else verify_compatible args.a args.b
    a_peer ← lift (ok_or (parse_dataset args.b) (not_canonical args.b))
    b_peer ← lift (ok_or (parse_dataset args.a) (not_canonical args.a))
    b_pointer ← read_pair_pointer r args.b
    pure (record { a_peer = a_peer; b_peer = b_peer; b_was_paired = is_some b_pointer })

  -- The writes of a mutual pair after the first side's pointer.
  unfoldable pub write_mutual : PairArgs → Checked → Io S (Unit {0})
  write_mutual args c = do
    write_pair_pointer r args.b c.b_peer
    set_property_tolerant r args.a (codes "zboot:primary") (codes "on")
    set_property_tolerant r args.b (codes "zboot:primary") (codes "off")

  unfoldable pub pair_writes : PairArgs → Checked → Io S (Unit {0})
  pair_writes args c = do
    write_pair_pointer r args.a c.a_peer
    if c.b_was_paired
        then set_property_tolerant r args.a (codes "zboot:primary") (codes "off")
        else write_mutual args c

  unfoldable pub run_pair : PairArgs → Io S (Unit {0})
  run_pair args = do c ← pair_checks args; pair_writes args c

  -- The pointer and the mark of the primary side go; a failure of the second is ignored.
  unfoldable pub clear_side : Str → Io S (Unit {0})
  clear_side ds = do
    clear_pair_pointer r ds
    attempt (inherit_property_tolerant r ds (codes "zboot:primary"))
    done

  -- A peer that points elsewhere, or nowhere, is left alone.
  unfoldable pub clear_peer : Str → Str → Io S (Unit {0})
  clear_peer be peer_ds = do
    peer_pointer ← read_pair_pointer r peer_ds
    elim peer_pointer [
      | none ↦ done
      | some p ↦ if option_beq (parse_dataset be) (some p) then clear_side peer_ds else done
    ]

  unfoldable pub run_unpair : Str → Io S (Unit {0})
  run_unpair be = do
    found ← read_pair_pointer r be
    pointer ← lift (ok_or found (not_paired be))
    clear_side be
    there ← attempt (dataset_exists r (render_pointer pointer))
    if or_false there then clear_peer be (render_pointer pointer) else done
