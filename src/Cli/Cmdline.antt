-- ===== src/Cli/Cmdline.antt =====
-- cli/src/cmd/cmdline.rs: `zboot cmdline` reads and writes the property `zboot:kernel-cmdline`. The editor
-- and its file are a parameter; printed lines are left out.
pub mod Edit
use zboot.Base.{
  ℕ, Bool, true, false, Option, none, some, List, [], ◌∷◌, ◌++◌, Str, ◌==◌, nat_eq, str_eq,
  is_empty, ok, if◌then◌else◌,
}
use zboot.Text.{codes, trim, lines, splitn, starts_with}
use zboot.Cli.Io.{
  Io, Error, exited, no_root, not_zfs_root, not_found, ◌>>=◌, ◌>>◌, pure, raise, guard, done,
}
use zboot.Cli.Sub
use zboot.Cli.Sub.{Runner}

pub data CmdlineAction : Type 0 where
  get clear edit : CmdlineAction
  set : Str → CmdlineAction

pub record CmdlineArgs : Type 0 where
  pub action : Option CmdlineAction
  pub be : Option Str
  pub root : Option Str

-- The temporary file and `$EDITOR` on it, which ends with a code.
pub record Editor (S : Type 0) : Type 0 where
  pub name : Str
  pub path : Str
  pub write_file : Str → Io S (Unit {0})
  pub open_file : Io S ℕ
  pub read_file : Io S Str
  pub remove_file : S → S

-- The first two columns of a line, with `-` for what is not there.
abbrev pub two_columns : List Str → Str × Str
two_columns [] = (codes "-", codes "-")
two_columns (value ∷ []) = (value, codes "-")
two_columns (value ∷ source ∷ _) = (value, source)

abbrev pub first_line : {S : Type 0} → Str → List Str → Io S Str
first_line ds [] = raise (not_found ds)
first_line ds (line ∷ _) = pure line

abbrev pub property_args : Str → List Str
property_args ds =
    codes "get"
    ∷ codes "-H"
    ∷ codes "-o"
    ∷ codes "value,source"
    ∷ codes "zboot:kernel-cmdline"
    ∷ ds
    ∷ []

abbrev pub initial_of : Str → Str
initial_of current = if current == codes "-" then [] else current

module _ {S : Type 0} (editor : Editor S) where
  abbrev pub close : Io S (Unit {0})
  close s = (ok tt, editor.remove_file s)

  -- The text that the editor leaves.
  unfoldable pub edit_text : Str → Io S Str
  edit_text initial = do
    editor.write_file (initial ++ b'\n' ∷ [])
    rc ← editor.open_file
    if rc == 0 then done else close >> raise (exited editor.name (editor.path ∷ []) rc)
    new_text ← editor.read_file
    close
    pure new_text

module _ {S : Type 0} (r : Runner S) where
  unfoldable pub read_property : Str → Io S (Str × Str)
  unfolding lines splitn
  read_property ds = do
    stdout ← Sub.capture r (codes "zfs") (property_args ds)
    line ← first_line ds (lines stdout)
    pure (two_columns (splitn 2 b'\t' line))

  -- The source of `/`, as `findmnt` shows it.
  unfoldable pub active_be : Io S Str
  unfolding trim starts_with
  active_be = do
    stdout ←
        Sub.capture r (codes "findmnt") (codes "-n" ∷ codes "-o" ∷ codes "source" ∷ codes "/" ∷ [])
    let s = trim stdout
    if is_empty s
        then raise no_root
        else if starts_with s (codes "/")
        then raise (not_zfs_root s)
        else pure s

  abbrev pub resolve_root : Option Str → Io S Str
  resolve_root (some pool) = pure (pool ++ codes "/ROOT")
  resolve_root none = active_be

  unfoldable pub resolve_target : CmdlineArgs → Io S Str
  unfolding active_be
  resolve_target args = elim args.be [ some be ↦ pure be | none ↦ resolve_root args.root ]

  unfoldable pub get_cmdline : Str → Io S (Unit {0})
  unfolding read_property
  get_cmdline ds = do shown ← read_property ds; done

  unfoldable pub set_cmdline : Str → Str → Io S (Unit {0})
  set_cmdline ds value =
      Sub.run r (codes "zfs") (codes "set" ∷ (codes "zboot:kernel-cmdline=" ++ value) ∷ ds ∷ [])

  unfoldable pub clear_cmdline : Str → Io S (Unit {0})
  clear_cmdline ds =
      Sub.run r (codes "zfs") (codes "inherit" ∷ codes "zboot:kernel-cmdline" ∷ ds ∷ [])

  module _ (editor : Editor S) where
    abbrev pub save : Str → Str → Str → Io S (Unit {0})
    save ds initial new_value =
        if new_value == initial
        then done
        else if is_empty new_value
        then clear_cmdline ds
        else set_cmdline ds new_value

    unfoldable pub edit_cmdline : Str → Io S (Unit {0})
    unfolding read_property edit_text clear_cmdline set_cmdline trim
    edit_cmdline ds = do
      shown ← read_property ds
      let initial = initial_of shown.0
      new_text ← edit_text editor initial
      save ds initial (trim new_text)

    abbrev pub act : Option CmdlineAction → Str → Io S (Unit {0})
    act none ds = get_cmdline ds
    act (some get) ds = get_cmdline ds
    act (some (set value)) ds = set_cmdline ds value
    act (some clear) ds = clear_cmdline ds
    act (some edit) ds = edit_cmdline ds

    unfoldable pub run_cmdline : CmdlineArgs → Io S (Unit {0})
    unfolding resolve_target get_cmdline edit_cmdline
    run_cmdline args = resolve_target args >>= act args.action
