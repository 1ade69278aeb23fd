-- ===== src/Cli.antt =====
-- The userspace program (cli/src): the verbs and the helpers that they share.
pub mod Io
pub mod After
pub mod Sub
pub mod ZfsOps
pub mod BeArg
pub mod Pair
pub mod Primary
pub mod Rename
pub mod Attach
pub mod Drop
pub mod Civil
pub mod Snapshot
pub mod Rollback
pub mod Pools
pub mod Default
pub mod Fork
pub mod Cmdline
pub mod Replicate
pub mod Push
pub mod Pull
pub mod Mirror
