-- ===== src/Lib.antt =====
-- The boot environments of zboot: the data of core/, verbs of cli/, and what boot/ finds and starts.
--
-- The program keeps no store of its own: its state is the properties of ZFS datasets and pools, which
-- it reads by running `zfs` and `zpool` and parsing their output, and changes by running them again.
--   Base, Text       lists, equality, results; text as a list of codes, with the functions of Rust's
--                    `str` that the program calls
--   Core.Types       core/src/types.rs: `Pool`, `BootEnvironment`, `Snapshot`, `BoundList`, `Property`,
--                    `AtomicSet`, and `Forest`, the lineage of boot environments by their origins
--   Core.Parse       core/src/parse.rs: `parse_zfs_get`, `parse_zpool_list`, `parse_zfs_list_snapshots`
--   Core.Replication core/src/replication.rs: `PairPointer`, `PairStatus::from_guids`, anchors
--   Cli.Io           an action on the state that may fail, for `anyhow::Result` and `?`
--   Cli.Sub          cli/src/sub.rs: `run` and `capture` over the trait `Runner`
--   Cli.ZfsOps       cli/src/zfs_ops.rs: properties, tolerant setters, pair pointers, snapshot lists
--   Cli.BeArg        cli/src/be_arg.rs: `split_be_snap`, `resolve_be_dataset`
--   Cli.Pair, Cli.Primary, Cli.Rename, Cli.Attach
--                    the verbs of cli/src/cmd/pair.rs, primary.rs, rename.rs and attach.rs
--   Cli.Drop         cli/src/cmd/drop.rs: the verb `drop` over the trait `Zfs`, and `RealZfs`
--   Cli.After        what holds after an action that may fail, and what an action leaves as it is
--   Cli.Pools        cli/src/pools.rs: which pools are imported, and importing root pools
--   Cli.Default      cli/src/cmd/default.rs: `Discover` has the lookups, `Active` the writes of `bootfs`,
--                    `Switch` and `Run` the verb
--   Cli.Fork         cli/src/cmd/fork.rs: `Walk` and `Lineage` the check of origins, `Plan` what is extended,
--                    `Chosen`, `Steps` and `Run` the verb
--   Cli.Civil        the date of a name by default: `civil_from_unix` of cli/src/cmd/snapshot.rs and
--                    cli/src/cmd/rollback.rs against the calendar of `Civil.Calendar`
--   Cli.Snapshot, Cli.Rollback
--                    the verbs of cli/src/cmd/snapshot.rs and rollback.rs, the latter over `Spawner`
--   Cli.Cmdline      cli/src/cmd/cmdline.rs: the verb `cmdline`, over an `Editor` of one file
--   Cli.ZfsOps.Wire  the pipes of `zfs send` and `zfs receive`, the rollback and the typed confirmation of
--                    cli/src/zfs_ops.rs
--   Cli.Replicate    the steps that `push_one`, `receive_into` and `push_one_pair` share
--   Cli.Push, Cli.Pull, Cli.Mirror
--                    the verbs of cli/src/cmd/push.rs, pull.rs and mirror.rs
--   Boot.Discover    boot/src/discover.rs: the records of boot environments, what is active, and the order of
--                    the kernels (`Kernels`)
--   Boot.Kexec       boot/src/kexec.rs: the plan, the command line of the kernel, the handing over
--   Boot.Shell       boot/src/shell.rs: the words of a line (`Words`), what they pick (`Pick`),
--                    and the pools that were imported for writing (`Pools`)
--   Tests            concrete systems and inputs
-- A function of the program keeps its name; a method carries the name of its type at the end, so
-- `SnapshotRef::parse` is `parse_snapshot_ref`, and the body of a loop is a function of its own.
--
-- What lies outside is a parameter: the type of the system's state, the `Runner` that starts
-- commands, the `Wire` (two commands joined by a pipe, and the line that is typed to confirm), the
-- `Zfs` of the verb `drop`, the text of `/proc/self/mounts`, and the line that was typed. The
-- theorems that need more of them name it: `IsQuiet` (listings change nothing), `IsSpared` (what a
-- listing, a question for a property and a change of `zboot:mirror` or `zboot:attached-to` leave as
-- it is), `IsPromoting` (a listed clone can be promoted, and there are fewer clones then),
-- `IsBinding` (a list that was written is read back), `IsStore` (`zfs list` and `zfs get` report the
-- datasets and their properties, and `zfs set` touches no other property; that it takes effect is
-- not assumed), `IsClearing` (`zfs inherit` of a pair property takes it away where it takes effect,
-- and touches nothing else), `IsPools` (which commands leave `bootfs`, and that setting it does so
-- or changes nothing), `IsView` (output does not change what is looked at), `IsDry` (the question
-- for the kernel's command line and the line that stands for a start change nothing that is looked
-- at), `IsKept` (an editor that leaves its file as it was), `IsImporting` (what `zpool` does to the
-- pool that it is given), `IsListing` (`zfs list -t snapshot` shows the snapshots and changes
-- nothing), `IsPruning` (destroying a snapshot leaves the properties of datasets) and `IsDatasets`
-- (`zfs list` and `zfs get` print what the datasets have, each name once). An error is the place
-- that raises it with the values it quotes; the wording, the context that is put in front and the
-- trace on standard error are left out.
--
-- Bounds: the loop of promotions has the 256 rounds of the source. `descendants_of` is a `while`
-- loop without a bound in the source, so it takes fuel here; with fuel above the rank of every
-- origin, on a forest without cycles, the walk ends. The walk of `check_origin_lineage` is a `loop`
-- that keeps what it has visited; the number of datasets and one more is enough fuel for it.
-- The nanoseconds in the name of an anchor are an argument, printed with 20 digits at most, which is
-- enough for a `u64`; the program has them as `u128`, and they pass 20 digits in the year 5138.
-- Strings are lists of code points, `is_whitespace` is Unicode's, and `u64` values are read with
-- their overflow check.
--
-- Not modelled: the rest of boot/ (the menu, most verbs of the shell, mounts and system calls of
-- process 1), the other verbs of cli/src/cmd, what the pipe of `zfs send` carries, floating-point
-- sizes (`human_bytes`), and the layout of printed reports.
pub mod Base
pub mod Boot
pub mod Text
pub mod Core
pub mod Cli
pub mod Tests
