-- ===== src/Tests/Pair.antt =====
-- A store of properties behind a runner, and the pair verbs on it.
use zboot.Base.{
  ◌∙◌, ℕ, ◌≡◌, refl, Bool, true, false, ◌&&◌, ◌||◌, Option, none, some, List, [], ◌∷◌, ◌++◌, Str,
  ◌==◌, str_eq, nat_eq, str_beq, Result, ok, err, if◌then◌else◌,
}
use zboot.Text.{codes, trim, split_once, contains_char, first_part, strip_prefix, is_whitespace}
use zboot.Text.Split.{Lacks, split_once-append}
use zboot.Core.Types.{key_eq}
use zboot.Core.Replication.{PairPointer, parse_dataset, render_pointer, checked_pointer}
use zboot.Cli.Io.{Error}
use zboot.Cli.Sub.{Runner, RunOutput}
use zboot.Cli.ZfsOps.{
  dataset_exists, dataset_property, set_property_tolerant, read_pair_pointer, write_pair_pointer,
  clear_pair_pointer, inherit_property_tolerant,
}
use zboot.Cli.ZfsOps.Store.{IsStore}
use zboot.Cli.Pair.{
  PairArgs, Checked, run_pair, run_unpair, clear_side, clear_peer, pair_checks, pair_writes,
  write_mutual, require_dataset, pool_of,
}
use zboot.Cli.Pair.Effects
use zboot.Cli.Pair.Effects.{Paired}
use zboot.Cli.Pair.Checks.{PairAllowed}
use zboot.Cli.Pair.Clearing
use zboot.Cli.Pair.Clearing.{IsClearing, Unpaired}

-- Datasets and their properties.
record Props : Type 0 where
  exists : Str → Bool
  prop : Str → Str → Str

abbrev answer : ℕ → Str → RunOutput
answer rc text = record { rc = rc; stdout = text; stderr = [] }

abbrev rc_of : Bool → ℕ
rc_of true = 0
rc_of false = 1

abbrev put : Str → Option (Str × Str) → Props → Props
put ds none s = s
put ds (some (p, v)) s = record s { prop = λ d q. if d == ds && q == p then v else s.prop d q }

-- The commands are told apart by their number of arguments.
abbrev fake_run : List Str → Props → Result Error RunOutput × Props
fake_run (_ ∷ _ ∷ pv ∷ ds ∷ []) s = (ok (answer 0 []), put ds (split_once b'=' pv) s)
fake_run (_ ∷ _ ∷ _ ∷ _ ∷ ds ∷ []) s = (ok (answer (rc_of (s.exists ds)) ds), s)
fake_run (_ ∷ _ ∷ _ ∷ _ ∷ p ∷ ds ∷ []) s = (ok (answer (rc_of (s.exists ds)) (s.prop ds p)), s)
fake_run (_ ∷ p ∷ ds ∷ []) s = (ok (answer 0 []), put ds (some (p, codes "-")) s)
fake_run _ s = (ok (answer 1 []), s)

abbrev fake : Runner Props
fake = record { run = λ prog args s. fake_run args s }

rc_of-zero : (b : Bool) → (rc_of b == 0) ≡ b
rc_of-zero true = refl
rc_of-zero false = refl

fake-sets :
    (s : Props) (ds prop v d p : Str)
    → Lacks b'=' prop
    → (d == ds && p == prop) ≡ false
    → trim ((put ds (split_once b'=' (prop ++ b'=' ∷ v)) s).prop d p) ≡ trim (s.prop d p)
fake-sets s ds prop v d p plain h = rw (split_once-append b'=' prop v plain, h) refl

put-exists :
    (ds : Str) (o : Option (Str × Str)) (s : Props) (d : Str) → (put ds o s).exists d ≡ s.exists d
put-exists ds none s d = refl
put-exists ds (some (p, v)) s d = refl

abbrev fake-IsStore : IsStore fake
fake-IsStore = record {
  there = λ s ds. s.exists ds;
  value = λ s ds p. trim (s.prop ds p);
  lists = λ s ds. (answer (rc_of (s.exists ds)) ds, refl, rc_of-zero (s.exists ds));
  gets = λ s ds p.
      (answer (rc_of (s.exists ds)) (s.prop ds p), refl, rc_of-zero (s.exists ds), λ _. refl);
  sets = fake-sets;
  sets_there = λ s ds p v d. put-exists ds (split_once b'=' (p ++ b'=' ∷ v)) s d;
  listings = λ ds s. refl;
}

abbrev be_a : Str
be_a = codes "p/ROOT/x"

abbrev be_b : Str
be_b = codes "q/ROOT/x"

abbrev unpaired : Props
unpaired = record { exists = λ ds. ds == be_a || ds == be_b; prop = λ ds p. codes "-" }

abbrev pair_args : PairArgs
pair_args = record { a = be_a; b = be_b; force = true }

abbrev paired : Props
paired = (run_pair fake pair_args unpaired).1

pair_runs : run_pair fake pair_args unpaired ≡ (ok tt, paired)
unfolding run_pair pair_checks pair_writes write_mutual require_dataset pool_of dataset_exists
    dataset_property set_property_tolerant read_pair_pointer write_pair_pointer parse_dataset
    checked_pointer render_pointer str_beq trim split_once strip_prefix contains_char first_part
    is_whitespace
pair_runs = refl

run_pair_done_example :
    (c : Checked) × PairAllowed fake fake-IsStore unpaired pair_args c
    × Paired fake fake-IsStore unpaired paired pair_args c
run_pair_done_example = Effects.run_pair_done fake fake-IsStore pair_args unpaired paired pair_runs

trim_dash : trim (codes "-") ≡ codes "-"
unfolding trim is_whitespace
trim_dash = refl

cleared_value :
    (b : Bool) (old : Str)
    → trim (if b then codes "-" else old) ≡ (if b then codes "-" else trim old)
cleared_value true old = trim_dash
cleared_value false old = refl

cleared_at :
    (d ds p prop old : Str)
    → trim (if d == ds && p == prop then codes "-" else old)
      ≡ (if d == ds && (p == prop && true) then codes "-" else trim old)
cleared_at d ds p prop old = cleared_value (d == ds && p == prop) old ∙ at (d == ds) (p == prop)
  where
    at :
        (a b : Bool)
        → (if a && b then codes "-" else trim old)
          ≡ (if a && (b && true) then codes "-" else trim old)
    at true true = refl
    at true false = refl
    at false b = refl

abbrev fake-IsClearing : IsClearing fake fake-IsStore
fake-IsClearing = record {
  takes = λ ds prop. true;
  inherits = λ s ds prop d p is. cleared_at d ds p prop (s.prop d p);
  inherits_there = λ s ds prop d is. refl;
}

abbrev unpaired_again : Props
unpaired_again = (run_unpair fake be_a paired).1

unpair_runs : run_unpair fake be_a paired ≡ (ok tt, unpaired_again)
unfolding run_unpair clear_side clear_peer clear_pair_pointer inherit_property_tolerant run_pair
    pair_checks pair_writes write_mutual require_dataset pool_of dataset_exists dataset_property
    set_property_tolerant read_pair_pointer write_pair_pointer parse_dataset checked_pointer
    render_pointer str_beq trim split_once strip_prefix contains_char first_part is_whitespace
unpair_runs = refl

run_unpair_done_example :
    (p : PairPointer) × (parse_dataset (fake-IsStore.value paired be_a (codes "zboot:mirror"))
      ≡ some p)
    × Unpaired fake fake-IsStore fake-IsClearing paired unpaired_again be_a p
run_unpair_done_example =
    Clearing.run_unpair_done fake fake-IsStore fake-IsClearing be_a paired unpaired_again
      unpair_runs

abbrev near_args : PairArgs
near_args = record { a = be_a; b = codes "p/ROOT/y"; force = false }

same_pool_refused : (pair_checks fake near_args unpaired).0 ≡ err (Error.same_pool (codes "p"))
unfolding pair_checks pool_of first_part str_beq
same_pool_refused = refl
