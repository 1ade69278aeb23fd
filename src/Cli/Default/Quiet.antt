-- ===== src/Cli/Default/Quiet.antt =====
-- The parts of `zboot default` that write no `bootfs`. `IsPools` states the documented behaviour of the
-- commands: which of them leave every pool's `bootfs`, and what `zpool set bootfs=` does.
use zboot.Base.{
  ◌≡◌, refl, ◌⊎◌, Bool, true, false, Option, some, List, [], ◌∷◌, ◌++◌, Str, ◌==◌, nat_eq, str_eq,
  option_beq, Result, ok, err, All, not, ◌||◌, if◌then◌else◌,
}
use zboot.Text.{codes, first_part}
use zboot.Core.Types.{Pool, BoundKey}
use zboot.Core.Types.Property.{Property}
use zboot.Core.Parse.{parse_zpool_list, parse_zfs_get}
use zboot.Cli.Io.{Io, Error, pure, done, attempt, ◌>>◌}
use zboot.Cli.Sub
use zboot.Cli.Sub.{Runner, RunOutput}
use zboot.Cli.ZfsOps.{dataset_property, read_pair_pointer, or_false}
use zboot.Cli.Drop.RealZfs.{bootfs_of}
use zboot.Cli.Pools.{
  is_pool_imported, currently_imported, pool_readonly, ensure_pool_imported_rw, export_args,
  import_rw_args,
}
use zboot.Cli.After.{Keeps, Keeps-bind, Keeps-attempt, Keeps-if, Keeps-capture, Keeps-run}
use zboot.Cli.Default.Discover.{PoolInfo, BeInfo, BoundDsInfo, list_bound_datasets, rows_below}
use zboot.Cli.Default.{
  look_at_pair, ready_target, target_be_readonly_on, zfs_set, is_dataset_mounted, demote_unmounted,
  demote, demote_all, toggle, toggle_all,
}

abbrev pub put : {V : Type 0} → Str → V → (Str → V) → Str → V
put pool v f q = if q == pool then v else f q

abbrev pub set_bootfs_args : Str → Str → List Str
set_bootfs_args pool v = codes "set" ∷ (codes "bootfs" ++ b'=' ∷ v) ∷ pool ∷ []

abbrev pub list_pools_args : List Str
list_pools_args = codes "list" ∷ codes "-Hp" ∷ codes "-o" ∷ codes "name,bootfs,guid" ∷ []

-- The command started and ended with code 0.
abbrev pub did : {S : Type 0} → Result Error RunOutput × S → Bool
did (ok out, s) = out.rc == 0
did (err e, s) = false

pub record IsPools {S : Type 0} (r : Runner S) : Type 0 where
  pub bootfs : S → Str → Option Str
  pub gets : (prog : Str) (args : List Str) → Keeps bootfs (r.run prog (codes "get" ∷ args))
  pub lists : (prog : Str) (args : List Str) → Keeps bootfs (r.run prog (codes "list" ∷ args))
  pub zfs_sets : (args : List Str) → Keeps bootfs (r.run (codes "zfs") (codes "set" ∷ args))
  pub imports : (args : List Str) → Keeps bootfs (r.run (codes "zpool") (codes "import" ∷ args))
  pub exports : (args : List Str) → Keeps bootfs (r.run (codes "zpool") (codes "export" ∷ args))
  -- Setting `bootfs` either does it or changes nothing; an empty value and a dash unset it.
  pub sets :
      (pool v : Str) (s : S)
      → (let x = r.run (codes "zpool") (set_bootfs_args pool v) s in
          ((did x ≡ true) × (bootfs x.1 ≡ put pool (bootfs_of v) (bootfs s)))
          ⊎ ((did x ≡ false) × (bootfs x.1 ≡ bootfs s)))
  -- The list of the pools shows what they boot.
  pub shows :
      (s t : S) (out : RunOutput) (ps : List Pool)
      → r.run (codes "zpool") list_pools_args s ≡ (ok out, t)
      → parse_zpool_list out.stdout ≡ ok ps
      → All (λ p. p.bootfs ≡ bootfs s p.name) ps
  -- The name of a dataset is neither empty nor a dash.
  pub names :
      (args : List Str) (s t : S) (out : RunOutput) (rows : List (Str × Property))
      → r.run (codes "zfs") (codes "get" ∷ args) s ≡ (ok out, t)
      → parse_zfs_get out.stdout ≡ ok rows
      → All (λ row. bootfs_of row.0 ≡ some row.0) rows

module _ {S : Type 0} (r : Runner S) (z : IsPools r) where
  open z use {bootfs}

  Keeps-dataset_property : (ds prop : Str) → Keeps bootfs (dataset_property r ds prop)
  unfolding dataset_property
  Keeps-dataset_property ds prop =
      Keeps-bind bootfs (r.run (codes "zfs") _) _ (z.gets (codes "zfs") _)
        (λ out. Keeps-if bootfs (out.rc == 0) _ _ (λ s. refl) (λ s. refl))

  pub Keeps-look_at_pair : (ds : Str) → Keeps bootfs (look_at_pair r ds)
  unfolding look_at_pair read_pair_pointer
  Keeps-look_at_pair ds =
      Keeps-bind bootfs (attempt (dataset_property r ds (codes "zboot:primary"))) _
        (Keeps-attempt bootfs _ (Keeps-dataset_property ds (codes "zboot:primary")))
        (λ val.
          Keeps-if bootfs (option_beq val (some (codes "off"))) _ done
            (Keeps-bind bootfs (attempt (read_pair_pointer r ds)) _
              (Keeps-attempt bootfs (read_pair_pointer r ds) (
                Keeps-bind bootfs (dataset_property r ds (codes "zboot:mirror")) _
                  (Keeps-dataset_property ds (codes "zboot:mirror")) (λ v s. refl)))
              (λ o s. refl))
            (λ s. refl))

  Keeps-imported : (pool : Str) → Keeps bootfs (is_pool_imported r pool)
  unfolding is_pool_imported currently_imported
  Keeps-imported pool =
      Keeps-bind bootfs (currently_imported r) _
        (Keeps-bind bootfs (r.run (codes "zpool") _) _ (z.lists (codes "zpool") _) (λ out s. refl))
        (λ names s. refl)

  Keeps-ensure_rw : (pool : Str) → Keeps bootfs (ensure_pool_imported_rw r pool)
  unfolding ensure_pool_imported_rw pool_readonly
  Keeps-ensure_rw pool =
      Keeps-bind bootfs (is_pool_imported r pool) _ (Keeps-imported pool) λ imported.
        Keeps-bind bootfs (if imported then pool_readonly r pool else pure false) _
          (Keeps-if bootfs imported (pool_readonly r pool) (pure false)
            (Keeps-bind bootfs (r.run (codes "zpool") _) _ (z.gets (codes "zpool") _)
              (λ out. Keeps-if bootfs (out.rc == 0) _ _ (λ s. refl) (λ s. refl)))
            (λ s. refl))
          λ ro.
            Keeps-bind bootfs (if ro then export else done) _
              (Keeps-if bootfs ro export done
                (Keeps-run bootfs r (codes "zpool") (export_args pool) (z.exports _)) (λ s. refl))
              λ _.
                Keeps-if bootfs (ro || not imported) import done
                  (Keeps-run bootfs r (codes "zpool") (import_rw_args pool) (z.imports _))
                  (λ s. refl)
    where
      export : Io S (Unit {0})
      export = Sub.run r (codes "zpool") (export_args pool)

      import : Io S (Unit {0})
      import = Sub.run r (codes "zpool") (import_rw_args pool)

  Keeps-zfs_set : (ds prop v : Str) → Keeps bootfs (zfs_set r ds prop v)
  unfolding zfs_set
  Keeps-zfs_set ds prop v =
      Keeps-bind bootfs (r.run (codes "zfs") _) _ (z.zfs_sets _)
        (λ out. Keeps-if bootfs (out.rc == 0) _ _ (λ s. refl) (λ s. refl))

  Keeps-readonly : (ds : Str) → Keeps bootfs (target_be_readonly_on r ds)
  unfolding target_be_readonly_on
  Keeps-readonly ds =
      Keeps-bind bootfs (Sub.capture r (codes "zfs") _) _
        (Keeps-capture bootfs r (codes "zfs") _ (z.gets (codes "zfs") _)) (λ out s. refl)

  pub Keeps-ready_target : (be : BeInfo) → Keeps bootfs (ready_target r be)
  unfolding ready_target
  Keeps-ready_target be =
      Keeps-bind bootfs (attempt (is_pool_imported r be.pool)) _
        (Keeps-attempt bootfs (is_pool_imported r be.pool) (Keeps-imported be.pool))
        λ i.
          Keeps-bind bootfs (if or_false i then ensure_pool_imported_rw r be.pool else done) _
            (Keeps-if bootfs (or_false i) (ensure_pool_imported_rw r be.pool) done
              (Keeps-ensure_rw be.pool) (λ s. refl))
            λ _.
              Keeps-bind bootfs
                (if or_false i then target_be_readonly_on r be.dataset else pure false) _
                (Keeps-if bootfs (or_false i) (target_be_readonly_on r be.dataset) (pure false)
                  (Keeps-readonly be.dataset) (λ s. refl))
                λ ro.
                  Keeps-if bootfs ro (zfs_set r be.dataset (codes "readonly") (codes "off")) done
                    (Keeps-zfs_set be.dataset (codes "readonly") (codes "off")) (λ s. refl)

  Keeps-toggle : (key : BoundKey) (bd : BoundDsInfo) → Keeps bootfs (toggle r key bd)
  unfolding toggle
  Keeps-toggle key bd =
      Keeps-if bootfs _ done (zfs_set r bd.dataset (codes "canmount") _) (λ s. refl)
        (Keeps-zfs_set bd.dataset (codes "canmount") _)

  pub Keeps-toggle_all : (key : BoundKey) (l : List BoundDsInfo) → Keeps bootfs (toggle_all r key l)
  unfolding toggle_all
  Keeps-toggle_all key [] s = refl
  Keeps-toggle_all key (bd ∷ l) s =
      Keeps-bind bootfs (toggle r key bd) _ (Keeps-toggle key bd) (λ _. Keeps-toggle_all key l) s

  module _ (read_mounts : Io S Str) (quiet : Keeps bootfs read_mounts) where
    Keeps-mounted : (ds : Str) → Keeps bootfs (is_dataset_mounted r read_mounts ds)
    unfolding is_dataset_mounted
    Keeps-mounted ds =
        Keeps-bind bootfs (attempt read_mounts) _ (Keeps-attempt bootfs read_mounts quiet)
          (λ m s. refl)

    Keeps-demote : (ds : Str) → Keeps bootfs (demote r read_mounts ds)
    unfolding demote demote_unmounted
    Keeps-demote ds =
        Keeps-bind bootfs (attempt (is_pool_imported r (first_part b'/' ds))) _
          (Keeps-attempt bootfs (is_pool_imported r (first_part b'/' ds))
            (Keeps-imported (first_part b'/' ds)))
          λ i.
            Keeps-if bootfs (or_false i) (demote_unmounted r read_mounts ds) done
              (Keeps-bind bootfs (is_dataset_mounted r read_mounts ds) _ (Keeps-mounted ds) λ m.
                Keeps-if bootfs m done (attempt set_on >> done) (λ s. refl)
                  (Keeps-bind bootfs (attempt set_on) _
                    (Keeps-attempt bootfs set_on (Keeps-zfs_set ds (codes "readonly") (codes "on")))
                    (λ o s. refl)))
              (λ s. refl)
      where
        set_on : Io S (Unit {0})
        set_on = zfs_set r ds (codes "readonly") (codes "on")

    pub Keeps-demote_all : (l : List Str) → Keeps bootfs (demote_all r read_mounts l)
    unfolding demote_all
    Keeps-demote_all [] s = refl
    Keeps-demote_all (ds ∷ l) s =
        Keeps-bind bootfs (demote r read_mounts ds) _ (Keeps-demote ds) (λ _. Keeps-demote_all l) s

  Keeps-rows : (props : Str) (pools : List PoolInfo) → Keeps bootfs (rows_below r props pools)
  Keeps-rows props pools =
      Keeps-bind bootfs (Sub.capture r (codes "zfs") _) _
        (Keeps-capture bootfs r (codes "zfs") _ (z.gets (codes "zfs") _)) (λ t s. refl)

  pub Keeps-list_bound_datasets :
      (pools : List PoolInfo) → Keeps bootfs (list_bound_datasets r pools)
  unfolding list_bound_datasets
  Keeps-list_bound_datasets [] s = refl
  Keeps-list_bound_datasets (p ∷ pools) s =
      Keeps-bind bootfs (rows_below r (codes "zboot:attached-to,canmount") (p ∷ pools)) _
        (Keeps-rows (codes "zboot:attached-to,canmount") (p ∷ pools)) (λ t s. refl) s
