-- ===== src/Cli/Mirror/Totals.antt =====
-- That `zboot mirror` tries every target and counts what came of it (cli/src/cmd/mirror.rs).
use zboot.Base.{ℕ, ◌+◌, ◌≡◌, refl, List, [], ◌∷◌, Str, Bool, Result, ok, err, arith}
use zboot.Cli.Io.{Error}
use zboot.Cli.Sub.{Runner}
use zboot.Cli.ZfsOps.Wire.{Wire}
use zboot.Cli.Mirror.{PushOutcome, synced, no_op, refused, Counts, count, push_one_pair, push_all}

abbrev pub Outcome : Type 0
Outcome = Result Error PushOutcome

-- How many pushes came to each end.
abbrev pub synced_in : List Outcome → ℕ
synced_in [] = 0
synced_in (ok synced ∷ os) = synced_in os + 1
synced_in (_ ∷ os) = synced_in os

abbrev pub no_op_in : List Outcome → ℕ
no_op_in [] = 0
no_op_in (ok no_op ∷ os) = no_op_in os + 1
no_op_in (_ ∷ os) = no_op_in os

abbrev pub refused_in : List Outcome → ℕ
refused_in [] = 0
refused_in (ok refused ∷ os) = refused_in os + 1
refused_in (_ ∷ os) = refused_in os

abbrev pub failed_in : List Outcome → ℕ
failed_in [] = 0
failed_in (err e ∷ os) = failed_in os + 1
failed_in (_ ∷ os) = failed_in os

-- The counters have grown by these outcomes.
pub record Counted (n m : Counts) (os : List Outcome) : Type 0 where
  pub synced : m.synced ≡ n.synced + synced_in os
  pub noop : m.noop ≡ n.noop + no_op_in os
  pub refused : m.refused ≡ n.refused + refused_in os
  pub skipped : m.skipped ≡ n.skipped + failed_in os

count-Counted :
    (o : Outcome) (n m : Counts) (os : List Outcome)
    → Counted (count o n) m os
    → Counted n m (o ∷ os)
count-Counted (ok PushOutcome.synced) n m os c = record {
  synced = omega (arith, c.synced);
  noop = c.noop;
  refused = c.refused;
  skipped = c.skipped;
}
count-Counted (ok no_op) n m os c = record {
  synced = c.synced;
  noop = omega (arith, c.noop);
  refused = c.refused;
  skipped = c.skipped;
}
count-Counted (ok PushOutcome.refused) n m os c = record {
  synced = c.synced;
  noop = c.noop;
  refused = omega (arith, c.refused);
  skipped = c.skipped;
}
count-Counted (err e) n m os c = record {
  synced = c.synced;
  noop = c.noop;
  refused = c.refused;
  skipped = omega (arith, c.skipped);
}

module _ {S : Type 0} (r : Runner S) (w : Wire S) (clock : S → ℕ) (force : Bool) where
  -- Every target is tried once, in order, each in the state in which the one before has ended.
  pub data Tried (primary : Str) : List Str → S → List Outcome → S → Type 0 where
    none_left : {s : S} → Tried primary [] s [] s
    next :
        {target : Str} {targets : List Str} {s u t : S} {o : Outcome} {os : List Outcome}
        → push_one_pair r w (clock s) primary target force s ≡ (o, u)
        → Tried primary targets u os t
        → Tried primary (target ∷ targets) s (o ∷ os) t

  -- The loop over the targets comes to its end whatever the pushes do: every target has been tried once, in
  -- order, and each of the four counters has grown by the number of the pushes that came to its end.
  pub push_all_lem :
      (primary : Str) (targets : List Str) (n : Counts) (s : S)
      → (m : Counts) × (t : S) × (os : List Outcome) × (push_all r w clock force primary targets n s
          ≡ (ok m, t))
        × Tried primary targets s os t
        × Counted n m os
  unfolding push_all
  push_all_lem primary [] n s = (
    n,
    s,
    [],
    refl,
    Tried.none_left,
    record {
      synced = omega arith;
      noop = omega arith;
      refused = omega arith;
      skipped = omega arith;
    },
  )
  push_all_lem primary (target ∷ targets) n s =
      let res = push_one_pair r w (clock s) primary target force s in
      let (m, t, os, e, tried, counted) = push_all_lem primary targets (count res.0 n) res.1 in
      (m, t, res.0 ∷ os, e, Tried.next refl tried, count-Counted res.0 n m os counted)
