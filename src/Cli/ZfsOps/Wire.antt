-- ===== src/Cli/ZfsOps/Wire.antt =====
-- Sending and receiving, of cli/src/zfs_ops.rs: the pipes of `zfs send` and `zfs receive`, the rollback to
-- a bound, the name of a fresh anchor, and the confirmation that is typed before snapshots are
-- destroyed. `Wire` is what these take from the system besides a runner: a pair of processes with a
-- pipe between them, whose return codes it gives, and a line of standard input. The nanoseconds of the
-- clock are an argument.
use zboot.Base.{ℕ, Option, none, some, List, [], ◌∷◌, ◌++◌, Str, ◌==◌, nat_eq, str_eq}
use zboot.Text.{codes, trim, split_once}
use zboot.Cli.Civil.{decimal}
use zboot.Cli.Io.{Io, exited, mismatch, ◌>>=◌, ◌>>◌, guard}
use zboot.Cli.Sub
use zboot.Cli.Sub.{Runner}

pub record Wire (S : Type 0) : Type 0 where
  pub pipe : List Str → List Str → Io S (ℕ × ℕ)
  pub read_line : Io S Str

-- 20 digits are enough for the nanoseconds of the next 3000 years.
unfoldable pub fresh_anchor_name : ℕ → Str
unfolding decimal
fresh_anchor_name utc_ns = codes "mirror-" ++ decimal utc_ns

abbrev pub at_snap : Str → Str → Str
at_snap ds snap = ds ++ b'@' ∷ snap

-- `anchor.split_once('@').unwrap().1`; every anchor has an `@`.
unfoldable pub snap_of : Str → Str
unfolding split_once
snap_of anchor = elim (split_once b'@' anchor) [ none ↦ [] | some (_, name) ↦ name ]

-- `unwrap_or_default()`.
abbrev pub or_empty : Option Str → Str
or_empty none = []
or_empty (some s) = s

module _ {S : Type 0} (w : Wire S) where
  -- The two return codes are looked at after both processes have ended.
  unfoldable pub send_recv : List Str → Str → Io S (Unit {0})
  send_recv send dest = do
    let receive = codes "receive" ∷ codes "-F" ∷ codes "-u" ∷ dest ∷ []
    rcs ← w.pipe send receive
    guard (rcs.0 == 0) (exited (codes "zfs") send rcs.0)
    guard (rcs.1 == 0) (exited (codes "zfs") receive rcs.1)

  unfoldable pub send_recv_full_standalone : Str → Str → Io S (Unit {0})
  unfolding send_recv
  send_recv_full_standalone anchor dest = send_recv (codes "send" ∷ codes "-p" ∷ anchor ∷ []) dest

  unfoldable pub send_recv_full : Str → Str → Io S (Unit {0})
  unfolding send_recv
  send_recv_full anchor dest = send_recv (codes "send" ∷ codes "-R" ∷ anchor ∷ []) dest

  unfoldable pub send_recv_incremental : Str → Str → Str → Io S (Unit {0})
  unfolding send_recv
  send_recv_incremental prev new_anchor dest =
      send_recv (codes "send" ∷ codes "-I" ∷ prev ∷ new_anchor ∷ []) dest

  -- The line has to be the dataset; the end of the input is an empty line.
  unfoldable pub confirm_destructive_truncate : Str → Io S (Unit {0})
  unfolding trim
  confirm_destructive_truncate target_dataset = do
    line ← w.read_line
    guard (trim line == target_dataset) (mismatch (trim line) target_dataset)

module _ {S : Type 0} (r : Runner S) where
  unfoldable pub zfs_rollback_recursive : Str → Io S (Unit {0})
  zfs_rollback_recursive dest_snap =
      Sub.run r (codes "zfs") (codes "rollback" ∷ codes "-r" ∷ dest_snap ∷ [])
