-- ===== src/Tests.antt =====
-- Tests on concrete inputs, and the theorems applied where their hypotheses hold.
mod Core
mod Atomic
mod Drop
mod Helpers
mod Pair
mod Attach
mod Default
mod Names
mod Fork
mod Boot
mod Kexec
mod Shell
mod Cmdline
mod Rw
mod Replicate
mod Mirror
mod Listing
