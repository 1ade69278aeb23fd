-- ===== src/Cli/Drop/Run/Frame.antt =====
-- What `zboot drop` leaves alone once it has destroyed its target (cli/src/cmd/drop.rs).
use zboot.Base.{
  ◌≡◌, refl, sym, ap, ◌∙◌, Bool, true, false, Option, none, some, List, [], ◌∷◌, ◌++◌, Str, ◌==◌,
  str_eq, nat_eq, option_beq, is_empty, elem, Result, ok,
}
use zboot.Text.{codes, lines, trim, split}
use zboot.Core.Types.{BoundKey, key_eq, BoundList, remove_key, render_bound_list}
use zboot.Core.Replication.{parse_dataset, render_pointer}
use zboot.Cli.Io.{Io, Error, attempt, done, pure, raise, ◌>>=◌, ◌>>◌}
use zboot.Cli.After.{Keeps, Keeps-bind, Keeps-attempt, Keeps-if, Keeps-capture}
use zboot.Cli.Sub
use zboot.Cli.Sub.{Runner, RunOutput}
use zboot.Cli.ZfsOps.{
  pool_property, clear_pair_pointer, inherit_property_tolerant, first_or, second_or,
}
use zboot.Cli.Drop.{
  TargetBe, destroyed_line, orphaned_line, dataset_leaf, Zfs, DatasetRow, Line, purge_row,
  purge_rows, purge_be_from_bound_lists,
}
use zboot.Cli.Drop.Run.{
  World, on_sys, say, say_all, clear_line, clear_lines, clear_pool, clear_pools,
  clear_incoming_mirror_pointers,
}

-- What neither a listing, nor a question for a property, nor a change of `zboot:mirror` or of
-- `zboot:attached-to` changes, such as which datasets there are.
pub record IsSpared {S V : Type 0} (zfs : Zfs S) (r : Runner S) (view : S → V) : Type 0 where
  pub lists : Keeps view zfs.list_datasets
  pub binds : (ds v : Str) → Keeps view (zfs.set_bound_to ds v)
  pub unbinds : (ds : Str) → Keeps view (zfs.unset_bound_to ds)
  pub names :
      Keeps view
        (r.run (codes "zpool") (codes "list" ∷ codes "-Hp" ∷ codes "-o" ∷ codes "name" ∷ []))
  pub asks_role :
      (pool : Str)
      → Keeps view (
          r.run (codes "zpool") (
            codes "get" ∷ codes "-H" ∷ codes "-o" ∷ codes "value" ∷ codes "zboot:role" ∷ pool ∷ []))
  pub asks_mirror :
      (pool : Str)
      → Keeps view (
          r.run (codes "zfs") (
            codes "get"
            ∷ codes "-Hp"
            ∷ codes "-r"
            ∷ codes "-t"
            ∷ codes "filesystem"
            ∷ codes "-o"
            ∷ codes "name,value"
            ∷ codes "zboot:mirror"
            ∷ pool
            ∷ []))
  pub unpairs :
      (ds : Str)
      → Keeps view (r.run (codes "zfs") (codes "inherit" ∷ codes "zboot:mirror" ∷ ds ∷ []))

module _ {S V : Type 0} (zfs : Zfs S) (r : Runner S) (view : S → V) (k : IsSpared zfs r view) where
  abbrev pub world : World S → V
  world w = view w.sys

  on_sys-Keeps : {A : Type 0} (m : Io S A) → Keeps view m → Keeps world (on_sys m)
  on_sys-Keeps m h w = h w.sys

  asked-Keeps : {A : Type 0} (m : Io S A) → Keeps view m → Keeps world (attempt (on_sys m))
  asked-Keeps m h = Keeps-attempt world (on_sys m) (on_sys-Keeps m h)

  abbrev mirror_args : Str → List Str
  mirror_args pool =
      codes "get"
      ∷ codes "-Hp"
      ∷ codes "-r"
      ∷ codes "-t"
      ∷ codes "filesystem"
      ∷ codes "-o"
      ∷ codes "name,value"
      ∷ codes "zboot:mirror"
      ∷ pool
      ∷ []

  abbrev name_args : List Str
  name_args = codes "list" ∷ codes "-Hp" ∷ codes "-o" ∷ codes "name" ∷ []

  pub say_all-Keeps : (f : Str → Line) (ns : List Str) → Keeps world (say_all {S = S} f ns)
  say_all-Keeps f [] w = refl
  say_all-Keeps f (n ∷ ns) w = say_all-Keeps f ns (record w { out = w.out ++ f n ∷ [] })

  unpair-Keeps : (ds : Str) → Keeps view (clear_pair_pointer r ds)
  unfolding clear_pair_pointer inherit_property_tolerant
  unpair-Keeps ds =
      Keeps-bind view
        (attempt (r.run (codes "zfs") (codes "inherit" ∷ codes "zboot:mirror" ∷ ds ∷ []))) _
        (Keeps-attempt view _ (k.unpairs ds)) (λ _ s. refl)

  role-Keeps : (pool : Str) → Keeps view (pool_property r pool (codes "zboot:role"))
  unfolding pool_property
  role-Keeps pool = Keeps-bind view (r.run (codes "zpool") _) _ (k.asks_role pool) (λ out.
      Keeps-if view (out.rc == 0) (pure (trim out.stdout)) (raise _) (λ s. refl) (λ s. refl))

  line-Keeps :
      (target dropped : Str) (cols : List Str) → Keeps world (clear_line r target dropped cols)
  unfolding clear_line
  line-Keeps target dropped cols =
      Keeps-if world (second_or [] cols == target) _ done
        (Keeps-bind world (attempt (on_sys (clear_pair_pointer r (first_or [] cols)))) _
          (asked-Keeps (clear_pair_pointer r (first_or [] cols)) (unpair-Keeps (first_or [] cols)))
          (λ _ w. refl))
        (λ w. refl)

  lines-Keeps :
      (target dropped : Str) (ls : List Str) → Keeps world (clear_lines r target dropped ls)
  unfolding clear_lines
  lines-Keeps target dropped [] = λ w. refl
  lines-Keeps target dropped (l ∷ ls) =
      Keeps-bind world (clear_line r target dropped (split b'\t' l)) _
        (line-Keeps target dropped (split b'\t' l)) (λ _. lines-Keeps target dropped ls)

  text-Keeps :
      (target dropped : Str) (o : Option Str)
      → Keeps world (elim o [ none ↦ done | some t ↦ clear_lines r target dropped (lines t) ])
  text-Keeps target dropped none = λ w. refl
  text-Keeps target dropped (some t) = lines-Keeps target dropped (lines t)

  pool-Keeps : (target dropped pool : Str) → Keeps world (clear_pool r target dropped pool)
  unfolding clear_pool
  pool-Keeps target dropped pool =
      Keeps-bind world (attempt (on_sys (pool_property r pool (codes "zboot:role")))) _
        (asked-Keeps (pool_property r pool (codes "zboot:role")) (role-Keeps pool))
        λ role.
          Keeps-if world (option_beq role (some (codes "root"))) _ done
            (Keeps-bind world (attempt (on_sys (Sub.capture r (codes "zfs") (mirror_args pool)))) _
              (asked-Keeps (Sub.capture r (codes "zfs") (mirror_args pool))
                (Keeps-capture view r (codes "zfs") (mirror_args pool) (k.asks_mirror pool)))
              (text-Keeps target dropped))
            (λ w. refl)

  pools-Keeps :
      (target dropped : Str) (pools : List Str) → Keeps world (clear_pools r target dropped pools)
  unfolding clear_pools
  pools-Keeps target dropped [] = λ w. refl
  pools-Keeps target dropped (pool ∷ pools) =
      Keeps-bind world (clear_pool r target dropped pool) _ (pool-Keeps target dropped pool)
        (λ _. pools-Keeps target dropped pools)

  pub clear-Keeps : (dropped : Str) → Keeps world (clear_incoming_mirror_pointers r dropped)
  unfolding clear_incoming_mirror_pointers
  clear-Keeps dropped = at (parse_dataset dropped)
    where
      listed :
          (target : Str) (o : Option Str)
          → Keeps world (elim o [ none ↦ done | some t ↦ clear_pools r target dropped (lines t) ])
      listed target none = λ w. refl
      listed target (some t) = pools-Keeps target dropped (lines t)

      at :
          (o : Option zboot.Core.Replication.PairPointer)
          → Keeps world (elim o [
            | none ↦ done
            | some pointer ↦
                (attempt (
                    on_sys (
                      Sub.capture r
                        (codes "zpool")
                        (codes "list" ∷ codes "-Hp" ∷ codes "-o" ∷ codes "name" ∷ [])))
                  >>= λ pools. elim pools [
                    | none ↦ done
                    | some t ↦ clear_pools r (render_pointer pointer) dropped (lines t)
                  ])
          ])
      at none = λ w. refl
      at (some pointer) =
          Keeps-bind world (attempt (on_sys (Sub.capture r (codes "zpool") name_args))) _
            (asked-Keeps (Sub.capture r (codes "zpool") name_args)
              (Keeps-capture view r (codes "zpool") name_args k.names))
            (listed (render_pointer pointer))

  row-Keeps :
      (n : Str) (rest : BoundList) (orphans : List Str) → Keeps view (purge_row zfs n rest orphans)
  unfolding purge_row
  row-Keeps n rest orphans =
      Keeps-if view (is_empty rest) _ _
        (Keeps-bind view (zfs.unset_bound_to n) _ (k.unbinds n) (λ _ s. refl))
        (Keeps-bind view (zfs.set_bound_to n (render_bound_list rest)) _
          (k.binds n (render_bound_list rest)) (λ _ s. refl))

  rows-Keeps :
      (key : BoundKey) (rows : List DatasetRow) (orphans : List Str)
      → Keeps view (purge_rows zfs key rows orphans)
  unfolding purge_rows
  rows-Keeps key [] orphans = λ s. refl
  rows-Keeps key (row ∷ rows) orphans = at (λ os. rows-Keeps key rows os) row.bound_to
    where
      listed :
          ((os : List Str) → Keeps view (purge_rows zfs key rows os))
          → (l : BoundList) (b : Bool)
          → Keeps view (elim b [
            | false ↦ purge_rows zfs key rows orphans
            | true ↦
                (purge_row zfs row.name (remove_key key l).0 orphans >>= purge_rows zfs key rows)
          ])
      listed rest l false = rest orphans
      listed rest l true =
          Keeps-bind view (purge_row zfs row.name (remove_key key l).0 orphans) _
            (row-Keeps row.name (remove_key key l).0 orphans) rest

      at :
          ((os : List Str) → Keeps view (purge_rows zfs key rows os))
          → (o : Option BoundList)
          → Keeps view (elim o [
            | none ↦ purge_rows zfs key rows orphans
            | some l ↦ elim (elem key l) [
              | false ↦ purge_rows zfs key rows orphans
              | true ↦
                  (purge_row zfs row.name (remove_key key l).0 orphans >>= purge_rows zfs key rows)
            ]
          ])
      at rest none = rest orphans
      at rest (some l) = listed rest l (elem key l)

  purge-Keeps : (key : BoundKey) → Keeps view (purge_be_from_bound_lists zfs key)
  unfolding purge_be_from_bound_lists
  purge-Keeps key = Keeps-bind view zfs.list_datasets _ k.lists (λ rows. rows-Keeps key rows [])

  pub purge_world-Keeps :
      (key : BoundKey) → Keeps world (on_sys (purge_be_from_bound_lists zfs key))
  purge_world-Keeps key = on_sys-Keeps (purge_be_from_bound_lists zfs key) (purge-Keeps key)

  -- The steps of `drop_target` behind the destruction.
  abbrev purging : TargetBe → Io (World S) (Unit {0})
  purging target = do
    orphans ← on_sys (
        purge_be_from_bound_lists zfs
          (record { pool = target.pool; be = dataset_leaf target.dataset }))
    say_all orphaned_line orphans

  abbrev clearing : TargetBe → Io (World S) (Unit {0})
  clearing target = do attempt (clear_incoming_mirror_pointers r target.dataset); purging target

  abbrev pub behind : TargetBe → Io (World S) (Unit {0})
  behind target = do say (destroyed_line target.dataset); clearing target

  purging-Keeps : (target : TargetBe) → Keeps world (purging target)
  purging-Keeps target =
      let key : BoundKey = (record { pool = target.pool; be = dataset_leaf target.dataset }) in
      Keeps-bind world (on_sys (purge_be_from_bound_lists zfs key)) (say_all orphaned_line)
        (purge_world-Keeps key) (say_all-Keeps orphaned_line)

  clearing-Keeps : (target : TargetBe) → Keeps world (clearing target)
  clearing-Keeps target =
      Keeps-bind world (attempt (clear_incoming_mirror_pointers r target.dataset))
        (λ _. purging target)
        (Keeps-attempt world (clear_incoming_mirror_pointers r target.dataset)
          (clear-Keeps target.dataset))
        (λ _. purging-Keeps target)

  pub rest_view :
      (target : TargetBe) (w w' : World S)
      → behind target w ≡ (ok tt, w')
      → view w'.sys ≡ view w.sys
  rest_view target w w' h =
      sym (ap (λ (x : Result Error (Unit {0}) × World S). world x.1) h)
      ∙ Keeps-bind world (say (destroyed_line target.dataset)) (λ _. clearing target) (λ v. refl)
          (λ _. clearing-Keeps target) w
