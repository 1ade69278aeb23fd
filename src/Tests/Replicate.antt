-- ===== src/Tests/Replicate.antt =====
-- Replication between two datasets, on a system that keeps properties and listings of snapshots.
use zboot.Base.{
  ◌∙◌, ℕ, ◌≡◌, refl, Bool, true, false, ◌&&◌, ◌||◌, Option, none, some, List, [], ◌∷◌, ◌++◌, Str,
  ◌==◌, str_eq, nat_eq, str_beq, elem, filter, Result, ok, err, if◌then◌else◌,
}
use zboot.Text.{codes, trim, lines, split, split_once, contains_char, first_part, is_whitespace}
use zboot.Text.Split.{Lacks, split_once-append}
use zboot.Cli.Io.{Error, raise, unread}
use zboot.Cli.Sub.{Runner, RunOutput}
use zboot.Cli.ZfsOps.Snapshots.{only_on_right}
use zboot.Cli.ZfsOps.Store.{IsStore}
use zboot.Cli.ZfsOps.Wire.{Wire, at_snap, fresh_anchor_name}
use zboot.Cli.Pair.Clearing.{IsClearing}
use zboot.Cli.Replicate.Checks.{IsListing, listed_rows}
use zboot.Cli.Replicate.Contract.{IsPruning, Received}
use zboot.Cli.Push.{
  Job, bootstrap_paired, push_one, push_checks, push_work, lift_readonly, transfer, send_from,
  bootstrap_pair, write_pointers, finish_push,
}
use zboot.Cli.Push.Refused
use zboot.Cli.Push.Refused.{Blocked}
use zboot.Cli.Push.Done
use zboot.Cli.Push.Paired
use zboot.Cli.Pull.{Reception, receive_into, receive_checks, receive_work, receive_transfer}
use zboot.Cli.Pull.Refused as Pulls
use zboot.Cli.Pull.Refused.{Losing}
use zboot.Cli.Pull.Done as PullDone

pub record Sys : Type 0 where
  pub exists : Str → Bool
  pub prop : Str → Str → Str
  pub listing : Str → Str

abbrev pub answer : ℕ → Str → RunOutput
answer rc text = record { rc = rc; stdout = text; stderr = [] }

abbrev pub rc_of : Bool → ℕ
rc_of true = 0
rc_of false = 1

abbrev pub put : Str → Option (Str × Str) → Sys → Sys
put ds none s = s
put ds (some (p, v)) s = record s { prop = λ d q. if d == ds && q == p then v else s.prop d q }

-- The commands are told apart by their number of arguments: `set`, `list`, `get`, the listing with GUIDs, and
-- `inherit`. The others succeed and do nothing.
abbrev pub sys_run : List Str → Sys → Result Error RunOutput × Sys
sys_run (_ ∷ _ ∷ pv ∷ ds ∷ []) s = (ok (answer 0 []), put ds (split_once b'=' pv) s)
sys_run (_ ∷ _ ∷ _ ∷ _ ∷ ds ∷ []) s = (ok (answer (rc_of (s.exists ds)) ds), s)
sys_run (_ ∷ _ ∷ _ ∷ _ ∷ p ∷ ds ∷ []) s = (ok (answer (rc_of (s.exists ds)) (s.prop ds p)), s)
sys_run (_ ∷ _ ∷ _ ∷ _ ∷ _ ∷ _ ∷ _ ∷ _ ∷ _ ∷ _ ∷ ds ∷ []) s = (ok (answer 0 (s.listing ds)), s)
sys_run (_ ∷ p ∷ ds ∷ []) s = (ok (answer 0 []), put ds (some (p, codes "-")) s)
sys_run _ s = (ok (answer 0 []), s)

abbrev pub sys : Runner Sys
sys = record { run = λ prog args s. sys_run args s }

-- A pipe whose two ends succeed, and no one who types.
abbrev pub wire : Wire Sys
wire = record { pipe = λ send receive s. (ok (0, 0), s); read_line = raise unread }

pub rc_of-zero : (b : Bool) → (rc_of b == 0) ≡ b
rc_of-zero true = refl
rc_of-zero false = refl

pub sys-sets :
    (s : Sys) (ds prop v d p : Str)
    → Lacks b'=' prop
    → (d == ds && p == prop) ≡ false
    → trim ((put ds (split_once b'=' (prop ++ b'=' ∷ v)) s).prop d p) ≡ trim (s.prop d p)
sys-sets s ds prop v d p plain h = rw (split_once-append b'=' prop v plain, h) refl

pub put-exists :
    (ds : Str) (o : Option (Str × Str)) (s : Sys) (d : Str) → (put ds o s).exists d ≡ s.exists d
put-exists ds none s d = refl
put-exists ds (some (p, v)) s d = refl

abbrev pub sys-IsStore : IsStore sys
sys-IsStore = record {
  there = λ s ds. s.exists ds;
  value = λ s ds p. trim (s.prop ds p);
  lists = λ s ds. (answer (rc_of (s.exists ds)) ds, refl, rc_of-zero (s.exists ds));
  gets = λ s ds p.
      (answer (rc_of (s.exists ds)) (s.prop ds p), refl, rc_of-zero (s.exists ds), λ _. refl);
  sets = sys-sets;
  sets_there = λ s ds p v d. put-exists ds (split_once b'=' (p ++ b'=' ∷ v)) s d;
  listings = λ ds s. refl;
}

abbrev pub sys-IsListing : IsListing sys
sys-IsListing = record {
  snaps = λ s ds. listed_rows (answer 0 (s.listing ds));
  shows = λ s ds. (answer 0 (s.listing ds), refl, refl);
}

trim_dash : trim (codes "-") ≡ codes "-"
unfolding trim is_whitespace
trim_dash = refl

cleared_value :
    (b : Bool) (old : Str)
    → trim (if b then codes "-" else old) ≡ (if b then codes "-" else trim old)
cleared_value true old = trim_dash
cleared_value false old = refl

cleared_at :
    (d ds p prop old : Str)
    → trim (if d == ds && p == prop then codes "-" else old)
      ≡ (if d == ds && (p == prop && true) then codes "-" else trim old)
cleared_at d ds p prop old = cleared_value (d == ds && p == prop) old ∙ at (d == ds) (p == prop)
  where
    at :
        (a b : Bool)
        → (if a && b then codes "-" else trim old)
          ≡ (if a && (b && true) then codes "-" else trim old)
    at true true = refl
    at true false = refl
    at false b = refl

abbrev sys-IsClearing : IsClearing sys sys-IsStore
sys-IsClearing = record {
  takes = λ ds prop. true;
  inherits = λ s ds prop d p is. cleared_at d ds p prop (s.prop d p);
  inherits_there = λ s ds prop d is. refl;
}

abbrev sys-IsPruning : IsPruning sys sys-IsStore
sys-IsPruning = record { lists_names = λ ds s d p. refl; destroys = λ snap s d p. refl }

abbrev pub be_a : Str
be_a = codes "p/ROOT/x"

abbrev pub be_b : Str
be_b = codes "q/ROOT/x"

-- Both are there and read-only, the second has the snapshots of this listing.
abbrev pub two_bes : Str → Sys
two_bes text = record {
  exists = λ ds. ds == be_a || ds == be_b;
  prop = λ ds p. if p == codes "readonly" then codes "on" else codes "-";
  listing = λ ds. if ds == be_b then text else [];
}

abbrev job : Job
job = record {
  src = be_a;
  dest = be_b;
  mode = bootstrap_paired;
  bounded_snap = none;
  force = false;
}

abbrev pushed : Sys
pushed = (push_one sys wire 7 job (two_bes [])).1

push_succeeds : (push_one sys wire 7 job (two_bes [])).0 ≡ ok tt
unfolding push_one push_checks push_work zboot.Cli.Push.deliver lift_readonly transfer send_from
    bootstrap_pair write_pointers finish_push zboot.Cli.Replicate.choose_anchor
    zboot.Cli.Replicate.clear_readonly zboot.Cli.Replicate.prune_both
    zboot.Cli.Replicate.refuse_mounted_rw zboot.Cli.Replicate.settle_divergence
    zboot.Cli.ZfsOps.dataset_exists zboot.Cli.ZfsOps.is_mounted zboot.Cli.ZfsOps.dataset_property
    zboot.Cli.ZfsOps.Snapshots.snapshots_only_on_right
    zboot.Cli.ZfsOps.Snapshots.list_snapshots_with_guids only_on_right lines
    zboot.Cli.ZfsOps.Snapshots.take_snapshot zboot.Cli.Sub.run
    zboot.Cli.ZfsOps.set_readonly_tolerant zboot.Cli.ZfsOps.set_property_tolerant
    zboot.Cli.ZfsOps.Snapshots.previous_anchor_on_dest zboot.Cli.ZfsOps.Snapshots.latest_match
    zboot.Cli.ZfsOps.dataset_is_clone zboot.Cli.ZfsOps.Wire.send_recv_full
    zboot.Cli.ZfsOps.Wire.send_recv zboot.Cli.ZfsOps.Snapshots.set_be_contract
    zboot.Core.Replication.parse_dataset zboot.Core.Replication.checked_pointer
    zboot.Core.Replication.render_pointer zboot.Cli.ZfsOps.read_pair_pointer
    zboot.Cli.ZfsOps.write_pair_pointer zboot.Cli.ZfsOps.Snapshots.prune_old_anchors
    zboot.Cli.ZfsOps.Snapshots.prune_lines split_once split contains_char first_part is_whitespace
    trim str_beq zboot.Text.strip_prefix elem filter
push_succeeds = refl

push_one_done_example : Received sys wire sys-IsStore pushed be_b
push_one_done_example =
    Done.push_one_done sys wire sys-IsStore sys-IsClearing sys-IsPruning 7 job (two_bes []) pushed
      (λ i. (push_succeeds i, pushed))

b-ne-a : (be_b == be_a) ≡ false
unfolding str_beq
b-ne-a = refl

push_one_paired_example :
    (trim (pushed.prop be_a (codes "zboot:mirror")) ≡ trim be_b)
    × (u : Sys) × Paired.Delivered sys wire sys-IsStore sys-IsPruning 7 job (two_bes []) u
    × Paired.IsPeer sys wire sys-IsStore u pushed be_a be_b
push_one_paired_example =
    Paired.push_one_paired sys wire sys-IsStore sys-IsPruning 7 job (two_bes []) pushed b-ne-a refl
      refl (λ i. (push_succeeds i, pushed))

abbrev pub ahead : Sys
ahead = two_bes (codes "q/ROOT/x@new\t9\n")

ahead-Blocked : Blocked sys wire sys-IsStore sys-IsListing ahead job
unfolding str_beq only_on_right lines split zboot.Core.Replication.is_replication_anchor
ahead-Blocked = Blocked.divergent refl refl

push_one_refused_example : (e : Error) × (push_one sys wire 7 job ahead ≡ (err e, ahead))
push_one_refused_example =
    Refused.push_one_refused sys wire sys-IsStore sys-IsListing 7 ahead job refl ahead-Blocked

abbrev reception : Reception
reception = record {
  remote_src = be_a;
  local_dataset = be_b;
  bounded_snap = none;
  force = false;
  existed = true;
}

receives : (receive_into sys wire 7 reception (two_bes [])).0 ≡ ok tt
unfolding receive_into receive_checks receive_work receive_transfer
    zboot.Cli.Replicate.choose_anchor zboot.Cli.Replicate.clear_readonly
    zboot.Cli.Replicate.prune_both zboot.Cli.Replicate.refuse_mounted_rw
    zboot.Cli.Replicate.settle_divergence zboot.Cli.ZfsOps.dataset_exists
    zboot.Cli.ZfsOps.is_mounted zboot.Cli.ZfsOps.dataset_property
    zboot.Cli.ZfsOps.Snapshots.snapshots_only_on_right
    zboot.Cli.ZfsOps.Snapshots.list_snapshots_with_guids only_on_right lines
    zboot.Cli.ZfsOps.Snapshots.take_snapshot zboot.Cli.Sub.run
    zboot.Cli.ZfsOps.set_readonly_tolerant zboot.Cli.ZfsOps.set_property_tolerant
    zboot.Cli.ZfsOps.Snapshots.previous_anchor_on_dest zboot.Cli.ZfsOps.Snapshots.latest_match
    zboot.Cli.ZfsOps.dataset_is_clone zboot.Cli.ZfsOps.Wire.send_recv_full
    zboot.Cli.ZfsOps.Wire.send_recv zboot.Cli.ZfsOps.Snapshots.set_be_contract
    zboot.Core.Replication.parse_dataset zboot.Core.Replication.checked_pointer
    zboot.Core.Replication.render_pointer zboot.Cli.ZfsOps.read_pair_pointer
    zboot.Cli.ZfsOps.write_pair_pointer zboot.Cli.ZfsOps.Snapshots.prune_old_anchors
    zboot.Cli.ZfsOps.Snapshots.prune_lines split_once split contains_char first_part is_whitespace
    trim str_beq zboot.Text.strip_prefix elem filter
receives = refl

receive_into_done_example :
    Received sys wire sys-IsStore (receive_into sys wire 7 reception (two_bes [])).1 be_b
receive_into_done_example =
    PullDone.receive_into_done sys wire sys-IsStore sys-IsClearing sys-IsPruning 7 reception
      (two_bes []) (receive_into sys wire 7 reception (two_bes [])).1
      (λ i. (receives i, (receive_into sys wire 7 reception (two_bes [])).1))

ahead-Losing : Losing sys wire sys-IsStore sys-IsListing ahead reception
unfolding str_beq only_on_right lines split zboot.Core.Replication.is_replication_anchor
ahead-Losing = Losing.divergent refl

receive_into_refused_example :
    (e : Error) × (receive_into sys wire 7 reception ahead ≡ (err e, ahead))
receive_into_refused_example =
    Pulls.receive_into_refused sys wire sys-IsStore sys-IsListing 7 ahead reception refl refl
      ahead-Losing
