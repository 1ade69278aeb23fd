-- ===== src/Cli/Default.antt =====
-- cli/src/cmd/default.rs: `zboot default` sets which boot environment boots next. `Discover` finds the
-- pools, boot environments and attached datasets; this file has the verb. The text of
-- /proc/self/mounts is a parameter; printed lines are left out.
pub mod Discover
pub mod Quiet
pub mod Lookup
pub mod Active
pub mod Switch
pub mod Run
use zboot.Base.{
  Bool, true, false, not, ◌&&◌, Option, none, some, List, [], ◌∷◌, ◌++◌, Str, ◌==◌, nat_eq, str_eq,
  option_beq, find, elem, is_empty, is_some, ok_or, Result, ok, err, unwrap_or, if◌then◌else◌,
}
use zboot.Text.{codes, lines, trim, first_part, split_whitespace}
use zboot.Core.Types.{BoundKey, key_eq, Canmount, on, off, render_canmount}
use zboot.Core.Replication.{PairPointer}
use zboot.Cli.Io.{
  Io, Error, exited, no_root_pool, not_found, ◌>>=◌, ◌>>◌, pure, raise, done, guard, lift, attempt,
  or_else,
}
use zboot.Cli.Sub
use zboot.Cli.Sub.{Runner}
use zboot.Cli.ZfsOps.{dataset_property, read_pair_pointer, or_false, first_or}
use zboot.Cli.Pools.{is_pool_imported, ensure_pool_imported_rw}
use zboot.Cli.Default.Discover.{
  PoolInfo, BeInfo, BoundDsInfo, list_root_pools, list_bes, resolve_target_be, list_bound_datasets,
}

unfoldable pub ex_active_bes : Str → List PoolInfo → List Str
ex_active_bes target [] = []
ex_active_bes target (p ∷ pools) =
    let rest = ex_active_bes target pools in
    elim p.bootfs [ none ↦ rest | some bootfs ↦ if bootfs == target then rest else bootfs ∷ rest ]

abbrev pub has_line : Str → List Str → Bool
has_line dataset [] = false
has_line dataset (l ∷ ls) =
    let rest = has_line dataset ls in
    elim (split_whitespace l) [ [] ↦ rest | w ∷ _ ↦ if w == dataset then true else rest ]

abbrev pub canmount_beq : Canmount → Canmount → Bool
canmount_beq on on = true
canmount_beq off off = true
canmount_beq Canmount.noauto Canmount.noauto = true
canmount_beq _ _ = false

-- `bd.canmount == Some(desired)`.
abbrev pub has_canmount : Option Canmount → Canmount → Bool
has_canmount none c = false
has_canmount (some b) c = canmount_beq b c

unfoldable pub desired_for : BoundKey → BoundDsInfo → Canmount
unfolding elem
desired_for key bd = if elem key bd.bound_to then on else off

module _ {S : Type 0} (r : Runner S) where
  unfoldable pub zpool_set : Str → Str → Str → Io S (Unit {0})
  zpool_set pool prop value = do
    let args = codes "set" ∷ (prop ++ b'=' ∷ value) ∷ pool ∷ []
    out ← r.run (codes "zpool") args
    if out.rc == 0 then done else raise (exited (codes "zpool") args out.rc)

  unfoldable pub zfs_set : Str → Str → Str → Io S (Unit {0})
  zfs_set dataset prop value = do
    let args = codes "set" ∷ (prop ++ b'=' ∷ value) ∷ dataset ∷ []
    out ← r.run (codes "zfs") args
    if out.rc == 0 then done else raise (exited (codes "zfs") args out.rc)

  unfoldable pub target_be_readonly_on : Str → Io S Bool
  target_be_readonly_on dataset = do
    out ←
        Sub.capture r (codes "zfs")
          (codes "get" ∷ codes "-Hp" ∷ codes "-o" ∷ codes "value" ∷ codes "readonly" ∷ dataset ∷ [])
    pure (trim out == codes "on")

  -- The warning about the mirror side of a pair asks for its pointer; failures are ignored.
  unfoldable pub look_at_pair : Str → Io S (Unit {0})
  look_at_pair dataset = do
    primary_val ← attempt (dataset_property r dataset (codes "zboot:primary"))
    if option_beq primary_val (some (codes "off"))
        then attempt (read_pair_pointer r dataset) >> done
        else done

  unfoldable pub ready_target : BeInfo → Io S (Unit {0})
  unfolding target_be_readonly_on zfs_set
  ready_target target = do
    imported ← attempt (is_pool_imported r target.pool)
    if or_false imported then ensure_pool_imported_rw r target.pool else done
    readonly ← (if or_false imported then target_be_readonly_on target.dataset else pure false)
    if readonly then zfs_set target.dataset (codes "readonly") (codes "off") else done

  -- An empty value is refused by some versions; a dash is the second try.
  unfoldable pub clear_bootfs : Str → Io S (Unit {0})
  unfolding zpool_set
  clear_bootfs pool =
      or_else (zpool_set pool (codes "bootfs") []) (zpool_set pool (codes "bootfs") (codes "-"))

  unfoldable pub clear_loser : Str → PoolInfo → Io S (Unit {0})
  unfolding clear_bootfs
  clear_loser target_pool p =
      if p.name == target_pool then done else if is_some p.bootfs then clear_bootfs p.name else done

  unfoldable pub clear_losers : Str → List PoolInfo → Io S (Unit {0})
  unfolding clear_loser
  clear_losers target_pool [] = done
  clear_losers target_pool (p ∷ pools) = do
    clear_loser target_pool p
    clear_losers target_pool pools

  unfoldable pub set_winner : BeInfo → PoolInfo → Io S (Unit {0})
  unfolding zpool_set
  set_winner target target_pool =
      if option_beq target_pool.bootfs (some target.dataset)
      then done
      else zpool_set target.pool (codes "bootfs") target.dataset

  unfoldable pub toggle : BoundKey → BoundDsInfo → Io S (Unit {0})
  unfolding desired_for zfs_set
  toggle key bd =
      let desired = desired_for key bd in
      if has_canmount bd.canmount desired
      then done
      else zfs_set bd.dataset (codes "canmount") (render_canmount desired)

  unfoldable pub toggle_all : BoundKey → List BoundDsInfo → Io S (Unit {0})
  unfolding toggle
  toggle_all key [] = done
  toggle_all key (bd ∷ bound) = do toggle key bd; toggle_all key bound

  module _ (read_mounts : Io S Str) where
    abbrev pub has_mount : Str → Option Str → Bool
    has_mount dataset none = false
    has_mount dataset (some mounts) = has_line dataset (lines mounts)

    unfoldable pub is_dataset_mounted : Str → Io S Bool
    is_dataset_mounted dataset = do mounts ← attempt read_mounts; pure (has_mount dataset mounts)

    -- Failures to set the property are ignored.
    unfoldable pub demote_unmounted : Str → Io S (Unit {0})
    unfolding is_dataset_mounted zfs_set
    demote_unmounted ds = do
      mounted ← is_dataset_mounted ds
      if mounted then done else attempt (zfs_set ds (codes "readonly") (codes "on")) >> done

    -- A boot environment that has lost its place becomes read-only, if its pool is imported and it is
    -- not mounted.
    unfoldable pub demote : Str → Io S (Unit {0})
    unfolding demote_unmounted
    demote ds = do
      imported ← attempt (is_pool_imported r (first_part b'/' ds))
      if or_false imported then demote_unmounted ds else done

    unfoldable pub demote_all : List Str → Io S (Unit {0})
    unfolding demote
    demote_all [] = done
    demote_all (ds ∷ rest) = do demote ds; demote_all rest

    -- From the write of `bootfs` on: the losers first, the winner last, then what is attached.
    unfoldable pub switch : List PoolInfo → BeInfo → Io S (Unit {0})
    unfolding find clear_losers ex_active_bes demote_all set_winner toggle_all
    switch pools target = do
      target_pool ← lift (ok_or (find (λ p. p.name == target.pool) pools) (not_found target.pool))
      clear_losers target.pool pools
      demote_all (ex_active_bes target.dataset pools)
      set_winner target target_pool
      bound ← list_bound_datasets r pools
      toggle_all (record { pool = target.pool; be = target.name }) bound

    unfoldable pub run_default : Str → Io S (Unit {0})
    unfolding look_at_pair ready_target switch
    run_default name = do
      pools ← list_root_pools r
      guard (not (is_empty pools)) no_root_pool
      bes ← list_bes r pools
      target ← lift (resolve_target_be bes name)
      look_at_pair target.dataset
      ready_target target
      switch pools target
