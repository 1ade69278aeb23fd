-- ===== src/Tests/Default.antt =====
-- `zboot default` on two pools: `rpool` boots `be1` or nothing, `spool` boots `be2` or nothing.
use zboot.Base.{
  ℕ, ◌≡◌, refl, ap, sym, ◌∙◌, subst, ◌⊎◌, inl, inr, Bool, true, false, ◌&&◌, Option, none, some,
  Bool-cases, List, [], ◌∷◌, Str, ◌==◌, str_eq, nat_eq, str_beq, str_beq_iff, is_empty, Result, ok,
  All, arith, if◌then◌else◌,
}
use zboot.Text.{
  codes, strip_prefix, lines, trim, split, splitn, split_once, is_whitespace, trim_end_matches,
  first_part, last_part,
}
use zboot.Core.Types.{Pool, ParseError, parse_bound_list, parse_key}
use zboot.Core.Types.Property.{Property, zboot_be, zboot_attached_to}
use zboot.Core.Parse.{
  parse_zpool_list, parse_zfs_get, parse_optional_string, parse_u64, parse_property, parse_bool,
  parse_pool_role,
}
use zboot.Cli.Io.{Io, Error, ok_injective}
use zboot.Cli.Sub
use zboot.Cli.ZfsOps.{dataset_property}
use zboot.Cli.Pools.{is_pool_imported}
use zboot.Cli.Sub.{Runner, RunOutput}
use zboot.Cli.Drop.RealZfs.{bootfs_of}
use zboot.Cli.Default.{run_default}
use zboot.Cli.Default.Quiet.{IsPools, put, did}
use zboot.Cli.Default.Run
use zboot.Cli.Default.Run.{Chosen}
use zboot.Cli.Default.Switch.{Sole}
use zboot.Cli.Default.Discover.{
  PoolInfo, BeInfo, list_root_pools, list_bes, list_bound_datasets, resolve_target_be,
}

-- Whether `rpool` boots `be1`, and `spool` boots `be2`.
abbrev World : Type 0
World = Bool × Bool

abbrev boots : World → Str → Option Str
boots (a, b) q =
    if q == codes "rpool"
    then (if a then some (codes "rpool/ROOT/be1") else none)
    else if q == codes "spool"
    then (if b then some (codes "spool/ROOT/be2") else none)
    else none

abbrev printed : ℕ → Str → RunOutput
printed rc text = record { rc = rc; stdout = text; stderr = [] }

abbrev pool_list : World → Str
pool_list (true, true) = codes "rpool\trpool/ROOT/be1\t1\nspool\tspool/ROOT/be2\t2\n"
pool_list (true, false) = codes "rpool\trpool/ROOT/be1\t1\nspool\t-\t2\n"
pool_list (false, true) = codes "rpool\t-\t1\nspool\tspool/ROOT/be2\t2\n"
pool_list (false, false) = codes "rpool\t-\t1\nspool\t-\t2\n"

abbrev dataset_rows : Str
dataset_rows =
    codes
      "rpool/ROOT/be1\tzboot:be\ttrue\nspool/ROOT/be2\tzboot:be\ttrue\nspool/home\tzboot:attached-to\tspool:be2\n"

abbrev role_rows : Str
role_rows = codes "rpool\tzboot:role\troot\nspool\tzboot:role\troot\n"

abbrev set_step : Str → Str → World → Result Error RunOutput × World
set_step v pool (a, b) =
    if pool == codes "rpool" && is_empty v
    then (ok (printed 0 []), (false, b))
    else if pool == codes "spool" && v == codes "spool/ROOT/be2"
    then (ok (printed 0 []), (a, true))
    else (ok (printed 1 []), (a, b))

abbrev set_command : List Str → World → Result Error RunOutput × World
set_command (assignment ∷ pool ∷ _) w = elim (strip_prefix (codes "bootfs=") assignment) [
  | none ↦ (ok (printed 1 []), w)
  | some v ↦ set_step v pool w
]
set_command _ w = (ok (printed 1 []), w)

abbrev answer : Str → Str → World → RunOutput
answer prog command w =
    if prog == codes "zfs"
    then printed 0 dataset_rows
    else if command == codes "get"
    then printed 0 role_rows
    else printed 0 (pool_list w)

abbrev command_step : Str → List Str → World → Result Error RunOutput × World
command_step prog [] w = (ok (printed 1 []), w)
command_step prog (command ∷ args) w =
    if command == codes "set" && prog == codes "zpool"
    then set_command args w
    else (ok (answer prog command w), w)

abbrev two_pools : Runner World
two_pools = record { run = command_step }

puts_loser : (a b : Bool) (q : Str) → boots (false, b) q ≡ put (codes "rpool") none (boots (a, b)) q
puts_loser a b q = elim (Bool-cases (q == codes "rpool")) [ inl e ↦ rw e | inr e ↦ rw e ]

puts_winner :
    (a b : Bool) (q : Str)
    → boots (a, true) q ≡ put (codes "spool") (some (codes "spool/ROOT/be2")) (boots (a, b)) q
unfolding str_beq
puts_winner a b q = elim (Bool-cases (q == codes "rpool")) [
  | inl e ↦ rw ((str_beq_iff q (codes "rpool")).0 e) refl
  | inr e ↦ elim (Bool-cases (q == codes "spool")) [ inl f ↦ rw (e, f) | inr f ↦ rw (e, f) ]
]

Puts : Str → Str → World → Result Error RunOutput × World → Type 0
Puts pool v w x =
    ((did x ≡ true) × (boots x.1 ≡ put pool (bootfs_of v) (boots w)))
    ⊎ ((did x ≡ false) × (boots x.1 ≡ boots w))

set_step-Puts : (pool v : Str) (w : World) → Puts pool v w (set_step v pool w)
unfolding Puts str_beq
set_step-Puts pool v (a, b) =
    at (pool == codes "rpool") (is_empty v) refl refl (pool == codes "spool")
      (v == codes "spool/ROOT/be2") refl refl
  where
    no_text : (v : Str) → is_empty v ≡ true → v ≡ []
    no_text [] e = refl
    no_text (c ∷ v) e = absurd (ground (arith, e))

    at :
        (c d : Bool)
        → (pool == codes "rpool") ≡ c
        → is_empty v ≡ d
        → (e f : Bool) → (pool == codes "spool") ≡ e
        → (v == codes "spool/ROOT/be2") ≡ f
        → Puts pool v
            (a, b)
            (if c && d
              then (ok (printed 0 []), (false, b))
              else if e && f
              then (ok (printed 0 []), (a, true))
              else (ok (printed 1 []), (a, b)))
    at true true p n e f p2 n2 =
        let is = (str_beq_iff pool (codes "rpool")).0 p in
        inl (refl, rw (is, no_text v n) (λ i q. puts_loser a b q i))
    at true false p n true true p2 n2 =
        let is = (str_beq_iff pool (codes "spool")).0 p2 in
        let text = (str_beq_iff v (codes "spool/ROOT/be2")).0 n2 in
        inl (refl, rw (is, text) (λ i q. puts_winner a b q i))
    at false d p n true true p2 n2 =
        let is = (str_beq_iff pool (codes "spool")).0 p2 in
        let text = (str_beq_iff v (codes "spool/ROOT/be2")).0 n2 in
        inl (refl, rw (is, text) (λ i q. puts_winner a b q i))
    at true false p n true false p2 n2 = inr (refl, refl)
    at true false p n false f p2 n2 = inr (refl, refl)
    at false d p n true false p2 n2 = inr (refl, refl)
    at false d p n false f p2 n2 = inr (refl, refl)

pools_listed : World → List Pool
pools_listed w =
    record { name = codes "rpool"; role = none; bootfs = boots w (codes "rpool"); guid = some 1 }
    ∷ record { name = codes "spool"; role = none; bootfs = boots w (codes "spool"); guid = some 2 }
    ∷ []

parse-pool_list : (w : World) → parse_zpool_list (pool_list w) ≡ ok (pools_listed w)
unfolding parse_zpool_list lines trim split is_whitespace str_beq parse_optional_string parse_u64
    pools_listed
parse-pool_list (true, true) = refl
parse-pool_list (true, false) = refl
parse-pool_list (false, true) = refl
parse-pool_list (false, false) = refl

rows_listed : List (Str × Property)
rows_listed =
    (codes "rpool/ROOT/be1", zboot_be true)
    ∷ (codes "spool/ROOT/be2", zboot_be true)
    ∷ (
      codes "spool/home",
      zboot_attached_to (record { pool = codes "spool"; be = codes "be2" } ∷ []),
    )
    ∷ []

parse-dataset_rows : parse_zfs_get dataset_rows ≡ ok rows_listed
unfolding parse_zfs_get lines trim split splitn split_once is_whitespace str_beq parse_property
    parse_bool parse_bound_list parse_key trim_end_matches rows_listed
parse-dataset_rows = refl

ok_same : {A : Type 0} {x y : A} → ◌≡◌ {A = Result ParseError A} (ok x) (ok y) → x ≡ y
ok_same e = ground (arith, e)

printed_same :
    {x : RunOutput} {out : RunOutput} {s t : World}
    → ◌≡◌ {A = Result Error RunOutput × World} (ok x, s) (ok out, t)
    → x.stdout ≡ out.stdout
printed_same e = ap (λ o. o.stdout) (ok_injective e).0

shows_pools :
    (s t : World) (out : RunOutput) (ps : List Pool)
    → ◌≡◌ {A = Result Error RunOutput × World} (ok (printed 0 (pool_list s)), s) (ok out, t)
    → parse_zpool_list out.stdout ≡ ok ps
    → All (λ p. p.bootfs ≡ boots s p.name) ps
unfolding pools_listed
shows_pools s t out ps e h =
    let is = sym (parse-pool_list s) ∙ ap parse_zpool_list (printed_same e) ∙ h in
    subst (All (λ p. p.bootfs ≡ boots s p.name)) (ok_same is) (refl, (refl, tt))

names_rows :
    (s t : World) (out : RunOutput) (rows : List (Str × Property))
    → ◌≡◌ {A = Result Error RunOutput × World} (ok (printed 0 dataset_rows), s) (ok out, t)
    → parse_zfs_get out.stdout ≡ ok rows
    → All (λ row. bootfs_of row.0 ≡ some row.0) rows
unfolding rows_listed str_beq
names_rows s t out rows e h =
    let is = sym parse-dataset_rows ∙ ap parse_zfs_get (printed_same e) ∙ h in
    subst (All (λ row. bootfs_of row.0 ≡ some row.0)) (ok_same is) (refl, (refl, (refl, tt)))

two_pools-IsPools : IsPools two_pools
unfolding str_beq strip_prefix Puts
two_pools-IsPools = record {
  bootfs = boots;
  gets = λ prog args s. refl;
  lists = λ prog args s. refl;
  zfs_sets = λ args s. refl;
  imports = λ args s. refl;
  exports = λ args s. refl;
  sets = λ pool v s. set_step-Puts pool v s;
  shows = shows_pools;
  names = λ args s t out rows. names_rows s t out rows;
}

no_mounts : Io World Str
no_mounts s = (ok [], s)

to_be2 : run_default two_pools no_mounts (codes "be2") (true, false) ≡ (ok tt, (false, true))
unfolding run_default no_mounts list_root_pools list_bes list_bound_datasets resolve_target_be
    parse_zpool_list parse_zfs_get lines trim split splitn split_once is_whitespace str_beq
    parse_optional_string parse_u64 parse_property parse_bool parse_bound_list parse_key
    trim_end_matches strip_prefix Sub.capture parse_pool_role first_part last_part dataset_property
    is_pool_imported
to_be2 = refl

run_default_done_example :
    (pools : List PoolInfo) × (target : BeInfo) × Chosen two_pools
      (codes "be2")
      (true, false)
      pools
      target
    × Sole pools target (boots (true, false)) (boots (false, true))
unfolding no_mounts two_pools-IsPools
run_default_done_example =
    Run.run_default_done two_pools two_pools-IsPools no_mounts (λ s. refl) (codes "be2")
      (true, false) (false, true) to_be2
