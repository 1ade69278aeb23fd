-- ===== src/Cli/Attach.antt =====
-- cli/src/cmd/attach.rs: `zboot attach --to` binds a dataset to boot environments and sets `canmount` by
-- whether the active one is among them; `zboot detach` clears the list. Showing the properties, and
-- printed lines, are left out.
pub mod Bindings
use zboot.Base.{
  Bool, true, false, not, ◌||◌, Option, none, some, List, [], ◌∷◌, ◌++◌, map, Str, Result, ok, err,
  ◌==◌, str_eq, filter, elem, is_empty, if◌then◌else◌,
}
use zboot.Text.{codes, first_part, last_part, lines, split, trim}
use zboot.Core.Types.{BoundKey, key_eq, BoundList, parse_bound_list, render_bound_list, render_key}
use zboot.Cli.Io.{Io, Error, no_bootfs, unknown, ◌>>=◌, ◌>>◌, pure, raise, lift, guard}
use zboot.Cli.Sub
use zboot.Cli.Sub.{Runner}

abbrev pub key_dataset : BoundKey → Str
key_dataset k = k.pool ++ (codes "/ROOT/" ++ k.be)

-- The dataset of a line whose value is `true`.
abbrev pub marked : List Str → Option Str
marked (name ∷ value ∷ _) = if trim value == codes "true" then some name else none
marked _ = none

unfoldable pub have_be : List Str → List Str
have_be [] = []
have_be (l ∷ ls) =
    let rest = have_be ls in elim (marked (split b'\t' l)) [ none ↦ rest | some name ↦ name ∷ rest ]

unfoldable pub missing_in : List Str → BoundList → BoundList
unfolding filter elem
missing_in have l = filter (λ k. not (elem (key_dataset k) have)) l

abbrev pub parsed_list : Str → Result Error BoundList
parsed_list s = elim (parse_bound_list s) [ ok l ↦ ok l | err e ↦ err (Error.parse e) ]

unfoldable pub desired_canmount : BoundKey → BoundList → Str
unfolding elem
desired_canmount active l = if elem active l then codes "on" else codes "off"

module _ {S : Type 0} (r : Runner S) where
  -- The return code of `zfs get` is not looked at: a missing dataset has no row.
  unfoldable pub ensure_bes_exist : BoundList → Io S (Unit {0})
  ensure_bes_exist l = do
    out ← r.run (codes "zfs") (
        codes "get"
        ∷ codes "-Hp"
        ∷ codes "-o"
        ∷ codes "name,value"
        ∷ codes "zboot:be"
        ∷ map key_dataset l)
    let missing = missing_in (have_be (lines out.stdout)) l
    guard (is_empty missing) (unknown (map render_key missing))

  unfoldable pub active_be : Str → Io S BoundKey
  active_be pool = do
    text ←
        Sub.capture r (codes "zpool")
          (codes "get" ∷ codes "-Hp" ∷ codes "-o" ∷ codes "value" ∷ codes "bootfs" ∷ pool ∷ [])
    let bootfs = trim text
    if is_empty bootfs || bootfs == codes "-"
        then raise (no_bootfs pool)
        else pure (record { pool = pool; be = last_part b'/' bootfs })

  unfoldable pub attach_writes : Str → BoundList → BoundKey → Io S (Unit {0})
  attach_writes dataset l active = do
    Sub.run r (codes "zfs")
        (codes "set" ∷ (codes "zboot:attached-to=" ++ render_bound_list l) ∷ dataset ∷ [])
    Sub.run r (codes "zfs")
        (codes "set" ∷ (codes "canmount=" ++ desired_canmount active l) ∷ dataset ∷ [])

  unfoldable pub run_set : Str → Str → Io S (Unit {0})
  run_set dataset list_str = do
    new_list ← lift (parsed_list list_str)
    ensure_bes_exist new_list
    active ← active_be (first_part b'/' dataset)
    attach_writes dataset new_list active

  unfoldable pub run_clear : Str → Io S (Unit {0})
  run_clear dataset =
      Sub.run r (codes "zfs") (codes "inherit" ∷ codes "zboot:attached-to" ∷ dataset ∷ [])
