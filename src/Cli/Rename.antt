-- ===== src/Cli/Rename.antt =====
-- cli/src/cmd/rename.rs: `zboot rename` renames a boot environment, advances the boot pointer of its
-- pool and rewrites the mirror pointers that name it. Printed lines are left out.
use zboot.Base.{
  not, Option, some, List, [], ◌∷◌, ◌++◌, Str, ok_or, ◌==◌, str_eq, option_beq, if◌then◌else◌,
}
use zboot.Text.{codes, first_part, contains_char, lines, split}
use zboot.Core.Replication.{PairPointer, parse_dataset, render_pointer}
use zboot.Cli.Io.{
  Io, not_found, bad_name, exists, not_canonical, ◌>>=◌, ◌>>◌, pure, lift, done, guard, attempt,
}
use zboot.Cli.Sub
use zboot.Cli.Sub.{Runner}
use zboot.Cli.ZfsOps.{
  dataset_exists, pool_property, pool_bootfs, write_pair_pointer, first_or, second_or, or_false,
}
use zboot.Cli.BeArg.{resolve_be_dataset}
use zboot.Cli.Primary.{flat}

-- The names of the lines whose value is the pointer.
unfoldable pub hits_in : Str → List Str → List Str
hits_in target [] = []
hits_in target (l ∷ ls) =
    let rest = hits_in target ls in
    if second_or [] (split b'\t' l) == target then first_or [] (split b'\t' l) ∷ rest else rest

module _ {S : Type 0} (r : Runner S) where
  -- One pool; a pool without the role, or whose role cannot be read, is passed over.
  unfoldable pub incoming_in : Str → Str → Io S (List Str)
  incoming_in target pool = do
    role ← attempt (pool_property r pool (codes "zboot:role"))
    if option_beq role (some (codes "root"))
        then (do
          out ← Sub.capture r (codes "zfs") (
              codes "get"
              ∷ codes "-Hp"
              ∷ codes "-r"
              ∷ codes "-t"
              ∷ codes "filesystem"
              ∷ codes "-o"
              ∷ codes "name,value"
              ∷ codes "zboot:mirror"
              ∷ pool
              ∷ [])
          pure (hits_in target (lines out)))
        else pure []

  unfoldable pub incoming_over : Str → List Str → List Str → Io S (List Str)
  incoming_over target hits [] = pure hits
  incoming_over target hits (pool ∷ pools) = do
    more ← incoming_in target pool
    incoming_over target (hits ++ more) pools

  unfoldable pub find_incoming_pointers : PairPointer → Io S (List Str)
  find_incoming_pointers target = do
    pools ←
        Sub.capture r (codes "zpool") (codes "list" ∷ codes "-Hp" ∷ codes "-o" ∷ codes "name" ∷ [])
    incoming_over (render_pointer target) [] (lines pools)

  unfoldable pub advance_bootfs : Str → Str → Str → Io S (Unit {0})
  advance_bootfs pool old_ds new_ds = do
    bootfs ← attempt (pool_bootfs r pool)
    if option_beq (flat bootfs) (some old_ds)
        then Sub.run r (codes "zpool") (codes "set" ∷ (codes "bootfs=" ++ new_ds) ∷ pool ∷ [])
        else done

  unfoldable pub rewrite_pointers : PairPointer → List Str → Io S (Unit {0})
  rewrite_pointers new_pointer [] = done
  rewrite_pointers new_pointer (ds ∷ rest) =
      write_pair_pointer r ds new_pointer >> rewrite_pointers new_pointer rest

  -- The steps after the checks: the incoming pointers are looked up before the rename.
  unfoldable pub rename_dataset : Str → Str → PairPointer → PairPointer → Io S (Unit {0})
  rename_dataset old_ds new_ds old_pointer new_pointer = do
    incoming ← find_incoming_pointers old_pointer
    Sub.run r (codes "zfs") (codes "rename" ∷ old_ds ∷ new_ds ∷ [])
    advance_bootfs (first_part b'/' old_ds) old_ds new_ds
    rewrite_pointers new_pointer incoming

  unfoldable pub run_rename : Option Str → Str → Str → Io S (Unit {0})
  run_rename mounts be new_name = do
    old_ds ← lift (resolve_be_dataset mounts be)
    there ← dataset_exists r old_ds
    guard there (not_found old_ds)
    guard (not (contains_char b'/' new_name)) (bad_name new_name)
    let new_ds = first_part b'/' old_ds ++ (codes "/ROOT/" ++ new_name)
    taken ← attempt (dataset_exists r new_ds)
    guard (not (or_false taken)) (exists new_ds)
    old_pointer ← lift (ok_or (parse_dataset old_ds) (not_canonical old_ds))
    new_pointer ← lift (ok_or (parse_dataset new_ds) (not_canonical new_ds))
    rename_dataset old_ds new_ds old_pointer new_pointer
