-- ===== src/Tests/Fork.antt =====
-- `zboot fork` of a snapshot on one pool.
use zboot.Base.{
  ℕ, suc, ◌≡◌, ◌↔◌, refl, true, none, some, is_some, List, [], ◌∷◌, Str, ◌==◌, str_eq, nat_eq,
  str_beq, elem, In, Ordered, Result, ok, err, if◌then◌else◌,
}
use zboot.Text.{codes}
use zboot.Core.Types.{SnapshotRef, BoundList}
use zboot.Core.Types.Property.{Property, origin, zboot_attached_to}
use zboot.Cli.Io.{Error, orphaned}
use zboot.Cli.Sub
use zboot.Cli.Sub.{Runner, RunOutput}
use zboot.Cli.Fork.{check_origin_lineage, make_plan, row_leb, key_in}
use zboot.Cli.Fork.Walk
use zboot.Cli.Fork.Lineage
use zboot.Cli.Fork.Lineage.{Leads}
use zboot.Cli.Fork.Plan
use zboot.Cli.Fork.Plan.{Attaches}
use zboot.Cli.Fork.Run

abbrev ref : Str → Str → SnapshotRef
ref ds name = record { dataset = ds; name = name }

abbrev datasets : List Str
datasets = codes "p/ROOT/a" ∷ codes "p/ROOT/b" ∷ codes "p/home" ∷ []

-- `b` is a clone of `a`, and `home` is attached to it.
abbrev rows : List (Str × Property)
rows =
    (codes "p/ROOT/a", origin none)
    ∷ (codes "p/ROOT/b", origin (some (ref (codes "p/ROOT/a") (codes "s"))))
    ∷ (codes "p/home", zboot_attached_to (key_in (codes "p") (codes "b") ∷ []))
    ∷ []

-- The dataset that `b` was cloned from is gone.
abbrev orphans : List Str
orphans = codes "p/ROOT/b" ∷ []

orphan :
    check_origin_lineage (codes "p/ROOT/b") orphans rows
    ≡ some (err (orphaned (codes "p/ROOT/b") (codes "p/ROOT/a")))
unfolding check_origin_lineage str_beq elem
orphan = refl

check_origin_lineage_total_example :
    is_some (check_origin_lineage (codes "p/ROOT/b") datasets rows) ≡ true
check_origin_lineage_total_example =
    Walk.check_origin_lineage_total (codes "p/ROOT/b") datasets rows

check_origin_lineage_lem_example :
    (check_origin_lineage (codes "p/ROOT/b") datasets rows ≡ some (ok tt)) ↔ (
      (d : Str)
      → Leads (codes "p/ROOT/b") datasets rows (codes "p/ROOT/b") d
      → elem d datasets ≡ true)
check_origin_lineage_lem_example = Lineage.check_origin_lineage_lem (codes "p/ROOT/b") datasets rows

abbrev extended : List (Str × BoundList)
extended =
    (make_plan (ref (codes "p/ROOT/b") (codes "s")) (codes "c") rows).bound_datasets_to_extend

make_plan_lem_example :
    Ordered row_leb extended
    × ((x : Str × BoundList) → In x extended ↔ Attaches (key_in (codes "p") (codes "b")) rows x)
unfolding make_plan
make_plan_lem_example = Plan.make_plan_lem (ref (codes "p/ROOT/b") (codes "s")) (codes "c") rows

abbrev printed : ℕ → Str → RunOutput
printed rc text = record { rc = rc; stdout = text; stderr = [] }

-- The target is not there; the state counts the changes.
abbrev command_step : List Str → ℕ → Result Error RunOutput × ℕ
command_step (a ∷ b ∷ c ∷ d ∷ e ∷ []) n = (ok (printed 1 []), n)
command_step (a ∷ b ∷ c ∷ d ∷ e ∷ f ∷ []) n =
    if a == codes "list"
    then (ok (printed 0 (codes "p/ROOT/b\np/home\n")), n)
    else (ok (printed 0 (codes "p/ROOT/b\torigin\t-\np/home\tzboot:attached-to\tp:b\n")), n)
command_step (a ∷ rest) n =
    if a == codes "get"
    then (ok (printed 0 (codes "p/ROOT/b\torigin\t-\np/home\tzboot:attached-to\tp:b\n")), n)
    else (ok (printed 0 []), suc n)
command_step [] n = (ok (printed 1 []), n)

abbrev one_pool : Runner ℕ
one_pool = record { run = λ prog args n. command_step args n }
