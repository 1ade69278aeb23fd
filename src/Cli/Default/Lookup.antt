-- ===== src/Cli/Default/Lookup.antt =====
-- What `zboot default` looks up: pools with what they boot, and a target whose name is a dataset's.
use zboot.Base.{
  ◌≡◌, refl, subst, ◌∙◌, Bool, true, false, Option, none, some, List, [], ◌∷◌, Str, ◌==◌, str_eq,
  is_empty, find, find-In, filter, filter-keeps, Result, ok, err, All, All-at, arith, if◌then◌else◌,
}
use zboot.Text.{codes, contains_char}
use zboot.Core.Types.{Pool}
use zboot.Core.Types.Property.{Property}
use zboot.Core.Parse.{parse_zpool_list, parse_zfs_get}
use zboot.Cli.Io.{Error, pure, lift, not_found}
use zboot.Cli.Sub
use zboot.Cli.Sub.{Runner, RunOutput}
use zboot.Cli.Snapshot.{parsed_pools}
use zboot.Cli.Drop.RealZfs.{bootfs_of, parsed_props}
use zboot.Cli.After.{
  After, After-continue, After-imp, After-lift, After-Keeps, capture-After, Keeps, Keeps-if,
  Keeps-bind, Keeps-capture,
}
use zboot.Cli.Default.Discover.{
  PoolInfo, BeInfo, be_info, roots_of, has_root_role, bes_in, is_marked, only_be, resolve_target_be,
  role_rows, list_root_pools, list_bes, rows_below,
}
use zboot.Cli.Default.Quiet.{IsPools, list_pools_args}

roots_of-All :
    (f : Str → Option Str) (rows : List (Str × Property)) (ps : List Pool)
    → All (λ p. p.bootfs ≡ f p.name) ps
    → All (λ p. p.bootfs ≡ f p.name) (roots_of rows ps)
unfolding roots_of
roots_of-All f rows [] h = tt
roots_of-All f rows (p ∷ ps) (hp, h) = at (has_root_role rows p) (roots_of-All f rows ps h)
  where
    at :
        (b : Bool)
        → All (λ p. p.bootfs ≡ f p.name) (roots_of rows ps)
        → All
            (λ p. p.bootfs ≡ f p.name)
            (if b
              then record { name = p.name; bootfs = p.bootfs } ∷ roots_of rows ps
              else roots_of rows ps)
    at true r = (hp, r)
    at false r = r

-- A dataset whose name can be told from `unset`.
abbrev pub Proper : Str → Type 0
Proper ds = bootfs_of ds ≡ some ds

bes_in-Proper :
    (pools : List PoolInfo) (rows : List (Str × Property))
    → All (λ row. Proper row.0) rows
    → All (λ be. Proper be.dataset) (bes_in pools rows)
unfolding bes_in
bes_in-Proper pools [] h = tt
bes_in-Proper pools (row ∷ rows) (hr, h) = at (is_marked pools row) (bes_in-Proper pools rows h)
  where
    at :
        (b : Bool)
        → All (λ be. Proper be.dataset) (bes_in pools rows)
        → All
            (λ be. Proper be.dataset)
            (if b then be_info row.0 ∷ bes_in pools rows else bes_in pools rows)
    at true r = (hr, r)
    at false r = r

pub resolve_target_be-All :
    (P : BeInfo → Type 0) (bes : List BeInfo) (name : Str) (be : BeInfo)
    → All P bes
    → resolve_target_be bes name ≡ ok be
    → P be
unfolding resolve_target_be
resolve_target_be-All P bes name be h e = at (contains_char b'/' name) e
  where
    found :
        (o : Option BeInfo)
        → find (λ b. b.dataset == name) bes ≡ o
        → ◌≡◌ {A = Result Error BeInfo}
            (elim o [ some b ↦ ok b | none ↦ err (not_found name) ])
            (ok be)
        → P be
    found none f e = absurd (ground (arith, e))
    found (some b) f e =
        subst P (ground (arith, e)) (All-at P (find-In (λ b. b.dataset == name) bes f) h)

    only : (l : List BeInfo) → All P l → only_be name l ≡ ok be → P be
    only [] hl e = absurd (ground (arith, e))
    only (b ∷ []) (hb, _) e = subst P (ground (arith, e)) hb
    only (b ∷ c ∷ l) hl e = absurd (ground (arith, e))

    at :
        (b : Bool)
        → (if b
            then elim (find (λ b. b.dataset == name) bes) [
              | some b ↦ ok b
              | none ↦ err (not_found name)
            ]
            else only_be name (filter (λ b. b.name == name) bes))
          ≡ ok be
        → P be
    at true e = found _ refl e
    at false e = only _ (filter-keeps P (λ b. b.name == name) bes h) e

parsed_pools-ok :
    (text : Str) (ps : List Pool) → parsed_pools text ≡ ok ps → parse_zpool_list text ≡ ok ps
parsed_pools-ok text ps e = ground (arith, e)

parsed_props-ok :
    (text : Str) (ps : List (Str × Property))
    → parsed_props text ≡ ok ps
    → parse_zfs_get text ≡ ok ps
parsed_props-ok text ps e = ground (arith, e)

module _ {S : Type 0} (r : Runner S) (z : IsPools r) where
  open z use {bootfs}

  role_rows-Keeps : (ps : List Pool) → Keeps bootfs (role_rows r ps)
  role_rows-Keeps ps =
      Keeps-bind bootfs (Sub.capture r (codes "zpool") _) _
        (Keeps-capture bootfs r (codes "zpool") _ (z.gets (codes "zpool") _)) (λ t s. refl)

  -- The list of pools that zboot boots from shows what they boot.
  pub list_root_pools-After :
      (s : S)
      → After
          (list_root_pools r s)
          (λ pools t. (bootfs t ≡ bootfs s) × All (λ p. p.bootfs ≡ bootfs s p.name) pools)
          (λ t. bootfs t ≡ bootfs s)
  unfolding list_root_pools
  list_root_pools-After s =
      After-continue _ _
        (capture-After bootfs r (codes "zpool") list_pools_args s (z.lists (codes "zpool") _))
        λ pl t (same, (out, e, text)).
          After-continue (lift (parsed_pools pl) t)
            (λ ps u. (bootfs u ≡ bootfs s) × All (λ p. p.bootfs ≡ bootfs s p.name) ps)
            (After-lift (parsed_pools pl) t
              (λ ps parsed. (
                same,
                z.shows s t out ps e
                    (subst (λ x. parse_zpool_list x ≡ ok ps) text (parsed_pools-ok pl ps parsed)),
              ))
              same)
            λ ps u (same', shown).
              After-continue ((if is_empty ps then pure [] else role_rows r ps) u)
                (λ _ w. bootfs w ≡ bootfs s)
                (After-imp _
                  (After-Keeps bootfs (if is_empty ps then pure [] else role_rows r ps) u (
                    Keeps-if bootfs (is_empty ps) (pure []) (role_rows r ps) (λ x. refl)
                      (role_rows-Keeps ps)))
                  (λ _ w e. e ∙ same') (λ w e. e ∙ same'))
                λ rows w same''. record { holds = (same'', roots_of-All (bootfs s) rows ps shown) }

  -- The boot environments that are found have names of datasets.
  pub list_bes-After :
      (pools : List PoolInfo) (s : S)
      → After
          (list_bes r pools s)
          (λ bes t. (bootfs t ≡ bootfs s) × All (λ be. Proper be.dataset) bes)
          (λ t. bootfs t ≡ bootfs s)
  unfolding list_bes
  list_bes-After [] s = record { holds = (refl, tt) }
  list_bes-After (p ∷ pools) s =
      After-continue (rows_below r (codes "zboot:be") (p ∷ pools) s)
        (λ rows t. (bootfs t ≡ bootfs s) × All (λ row. Proper row.0) rows)
        (After-continue _ _ (capture-After bootfs r (codes "zfs") _ s (z.gets (codes "zfs") _))
          λ text t (same, (out, e, shown)).
            After-lift (parsed_props text) t
              (λ rows parsed. (
                same,
                z.names _ s t out rows e (
                    subst (λ x. parse_zfs_get x ≡ ok rows) shown
                      (parsed_props-ok text rows parsed)),
              ))
              same)
        λ rows t (same, named). record { holds = (same, bes_in-Proper (p ∷ pools) rows named) }
