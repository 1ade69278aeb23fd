-- ===== src/Cli/BeArg.antt =====
-- cli/src/be_arg.rs: the arguments that name a boot environment, with the snapshot behind it; and, of
-- cli/src/zfs_ops.rs, the dataset that is mounted at `/`, against which bare names are taken.
-- The text of `/proc/self/mounts` is an argument. `Laws` has what the functions take apart.
pub mod Laws
use zboot.Base.{
  Bool, true, false, not, ◌||◌, Option, none, some, List, [], ◌∷◌, ◌++◌, Str, Result, ok, err,
  and_then, ◌==◌, str_eq, is_empty, if◌then◌else◌,
}
use zboot.Text.{codes, lines, split_whitespace, rsplit_once, contains_char, first_part}
use zboot.Cli.Io.{Error, no_root, no_mounts_read, not_zfs_root}
use zboot.Cli.ZfsOps.{first_or, second_or}

-- The guard of the match on the parts around the last `@`.
unfoldable pub split_parts : Str → Option (Str × Str) → Str × Option Str
split_parts arg none = (arg, none)
split_parts arg (some (be, snap)) =
    if is_empty be || is_empty snap then (arg, none) else (be, some snap)

unfoldable pub split_be_snap : Str → Str × Option Str
unfolding split_parts rsplit_once
split_be_snap arg = split_parts arg (rsplit_once b'@' arg)

-- The loop over the lines of the table of mounts.
unfoldable pub root_source : List Str → Result Error Str
root_source [] = err no_root
root_source (l ∷ ls) =
    let rest = root_source ls in
    let source = first_or [] (split_whitespace l) in
    if second_or [] (split_whitespace l) == codes "/"
    then (if contains_char b'/' source then ok source else err (not_zfs_root source))
    else rest

unfoldable pub discover_booted_dataset : Option Str → Result Error Str
unfolding root_source
discover_booted_dataset none = err no_mounts_read
discover_booted_dataset (some mounts) = root_source (lines mounts)

unfoldable pub discover_booted_pool : Option Str → Result Error Str
unfolding discover_booted_dataset first_part
discover_booted_pool mounts =
    and_then (discover_booted_dataset mounts) λ ds. ok (first_part b'/' ds)

unfoldable pub resolve_be_dataset : Option Str → Str → Result Error Str
unfolding discover_booted_pool contains_char
resolve_be_dataset mounts arg =
    if contains_char b'/' arg
    then ok arg
    else and_then (discover_booted_pool mounts) λ pool. ok (pool ++ (codes "/ROOT/" ++ arg))
