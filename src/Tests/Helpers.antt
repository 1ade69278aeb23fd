-- ===== src/Tests/Helpers.antt =====
-- Snapshot lists and the arguments of the verbs on small inputs.
use zboot.Base.{
  ◌≡◌, ◌≢◌, ◌↔◌, refl, false, Option, some, List, [], ◌∷◌, Str, str_eq, nat_eq, str_beq, ok, filter,
  elem, In,
}
use zboot.Text.{
  codes, rsplit_once, lines, split_whitespace, contains_char, first_part, is_whitespace,
}
use zboot.Core.Types.{key_eq}
use zboot.Core.Replication.{is_replication_anchor}
use zboot.Cli.ZfsOps.Snapshots.{Named, only_on_right, snapshots_after_bound_pure}
use zboot.Cli.ZfsOps.Snapshots.Divergence
use zboot.Cli.ZfsOps.Snapshots.Divergence.{Listed, Follows}
use zboot.Cli.BeArg.{
  split_be_snap, discover_booted_pool, discover_booted_dataset, root_source, split_parts,
}

abbrev named_at : Str → Str → Named
named_at n g = record { name = n; guid = g }

abbrev left_list : List Named
left_list = named_at (codes "p/x@a") (codes "1") ∷ named_at (codes "p/x@b") (codes "2") ∷ []

abbrev right_list : List Named
right_list =
    named_at (codes "q/x@a") (codes "1")
    ∷ named_at (codes "q/x@mirror-7") (codes "7")
    ∷ named_at (codes "q/x@c") (codes "3")
    ∷ []

right_has_c : only_on_right left_list right_list ≡ codes "q/x@c" ∷ []
unfolding only_on_right is_replication_anchor str_beq filter elem
right_has_c = refl

only_on_right_lem_example : In (codes "q/x@c") (only_on_right left_list right_list) ↔ (
    (p : Named) × Listed p right_list
    × (p.name ≡ codes "q/x@c")
    × (¬ ((q : Named) × Listed q left_list × (q.guid ≡ p.guid))))
only_on_right_lem_example = Divergence.only_on_right_lem left_list right_list (codes "q/x@c")

snapshots_after_bound_pure_lem_example :
    In (codes "q/x@c") (snapshots_after_bound_pure left_list right_list (codes "p/x@a")) ↔ (
      (after : List Named) × Follows (codes "p/x@a") left_list after
      × (p : Named) × Listed p right_list
      × (p.name ≡ codes "q/x@c")
      × (q : Named) × Listed q after
      × (q.guid ≡ p.guid))
snapshots_after_bound_pure_lem_example =
    Divergence.snapshots_after_bound_pure_lem left_list right_list (codes "p/x@a") (codes "q/x@c")

be_there : codes "p/ROOT/x" ≢ []
be_there = cc

snap_there : codes "s" ≢ []
snap_there = cc

cut_at : split_be_snap (codes "x@s") ≡ (codes "x", some (codes "s"))
unfolding split_be_snap split_parts rsplit_once
cut_at = refl

abbrev mounts : Option Str
mounts = some (codes "proc /proc proc\nrpool/ROOT/be1 / zfs rw\n")

booted : discover_booted_pool mounts ≡ ok (codes "rpool")
unfolding discover_booted_pool discover_booted_dataset root_source lines split_whitespace first_part
    contains_char str_beq is_whitespace
booted = refl

bare_be2 : contains_char b'/' (codes "be2") ≡ false
unfolding contains_char
bare_be2 = refl
