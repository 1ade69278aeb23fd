-- ===== src/Cli/Fork/Run.antt =====
-- `zboot fork` as a whole: what it has checked and done when it succeeds (cli/src/cmd/fork.rs).
use zboot.Base.{◌≡◌, true, List, [], ◌∷◌, ◌++◌, Str, str_eq, elem, ok}
use zboot.Text.{codes, first_part}
use zboot.Core.Types.{SnapshotRef}
use zboot.Core.Types.Property.{Property}
use zboot.Cli.Sub.{Runner, RunOutput}
use zboot.Cli.Drop.RealZfs.{parsed_props, dataset_names}
use zboot.Cli.Fork.Lineage.{Leads}
use zboot.Cli.Fork.Chosen.{IsName}
use zboot.Cli.Fork.Steps.{NotThere, Source, Executed}
use zboot.Cli.Fork.{ForkPlan, make_plan}

abbrev target_of : SnapshotRef → Str → Str
target_of snap name = first_part b'/' snap.dataset ++ (codes "/ROOT/" ++ name)

module _ {S : Type 0} (r : Runner S) where
  -- What stands behind a plan: the target was not there, and the snapshot's dataset and its ancestors
  -- were among the datasets listed.
  pub record Planned (snap : SnapshotRef) (name : Str) (s t : S) (plan : ForkPlan) : Type 0 where
    pub looked : S
    pub fresh : NotThere r (target_of snap name) s looked
    pub list_out : RunOutput
    pub listing : S
    pub listed :
        r.run
          (codes "zfs")
          (codes "list"
            ∷ codes "-Hp"
            ∷ codes "-o"
            ∷ codes "name"
            ∷ codes "-t"
            ∷ codes "filesystem"
            ∷ [])
          looked
        ≡ (ok list_out, listing)
    pub list_rc : list_out.rc ≡ 0
    pub datasets : List Str
    pub names : datasets ≡ dataset_names list_out.stdout
    pub got_out : RunOutput
    pub got :
        r.run
          (codes "zfs")
          (codes "get"
            ∷ codes "-Hp"
            ∷ codes "-o"
            ∷ codes "name,property,value"
            ∷ codes "origin,zboot:be,zboot:attached-to"
            ∷ datasets)
          listing
        ≡ (ok got_out, t)
    pub got_rc : got_out.rc ≡ 0
    pub props : List (Str × Property)
    pub parsed : parsed_props got_out.stdout ≡ ok props
    pub lineage :
        (d : Str) → Leads snap.dataset datasets props snap.dataset d → elem d datasets ≡ true
    pub planned : plan ≡ make_plan snap name props

  -- What a fork that succeeds has found and done.
  pub record Forked (from name : Str) (s t : S) : Type 0 where
    pub snap : SnapshotRef
    pub start : S
    pub source : Source r from snap s start
    pub valid : IsName name
    pub plan : ForkPlan
    pub middle : S
    pub planned : Planned snap name start middle plan
    pub executed : Executed r plan middle t
