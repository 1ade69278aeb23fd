-- ===== src/Cli/Io.antt =====
-- What a verb does: an action on the state of the system that may fail. A state that was reached
-- before a failure stays. An `anyhow::Error` is named here for the place that raises it; the texts
-- that `with_context` puts in front are left out.
use zboot.Base.{
  ◌≡◌, refl, sym, ◌∙◌, arith, Str, List, ℕ, Option, none, some, Result, ok, err, Bool, true, false,
}
use zboot.Core.Types.{ParseError}

pub data Error : Type 0 where
  -- the command could not be started
  spawn : Error
  -- the command ended with a code that is not 0
  exited : Str → List Str → ℕ → Error
  parse : ParseError → Error
  -- a dataset, a snapshot or a boot environment that is not there, or is there twice
  not_found : Str → Error
  ambiguous : Str → List Str → Error
  -- a refusal to act on the dataset that boots next, or that runs
  active live_root : Str → Error
  -- the confirmation on standard input
  unread no_input : Error
  mismatch : Str → Str → Error
  -- a dataset whose line of origins leads to one that is gone
  orphaned : Str → Str → Error
  -- the loop of promotions reached its bound
  not_converged : Str → Error
  -- a pair that is none, exists already or would diverge
  self_pair same_pool already_paired not_paired not_canonical diverged : Str → Error
  -- a property that reads back otherwise than it was set
  not_set : Str → Str → Str → Error
  not_root_pool no_bootfs exists bad_name : Str → Error
  -- no pool boots anything, or the root is no dataset
  no_active_pool no_active_be no_root_pool no_root no_mounts_read : Error
  not_zfs_root : Str → Error
  -- a verb that was started as a command of its own and ended with a code that is not 0
  sub_verb : List Str → ℕ → Error
  -- a text that is no snapshot
  bad_snapshot : Str → Error
  -- boot environments that are not there
  unknown : List Str → Error
  -- in the boot shell: an open quote, a number or a kernel that is not there, and a panic
  unterminated panicked : Error
  no_index : ℕ → Error
  no_kernel : Str → Str → Error
  -- in replication: a destination that is mounted for writing, one that lies behind the bound, a
  -- pointer to a dataset that is gone, and a name of a target that is none
  mounted_rw rewinds dangling bad_target : Str → Error
  -- the new kernel did not take over
  not_rebooted : Error

abbrev pub Io : Type 0 → Type 0 → Type 0
Io S A = S → Result Error A × S

module _ {S A B : Type 0} where
  abbrev pub continue : Result Error A × S → (A → Io S B) → Result Error B × S
  continue (ok a, s) f = f a s
  continue (err e, s) f = (err e, s)

  infixl 5 ◌>>=◌ ◌>>◌
  abbrev pub ◌>>=◌ : Io S A → (A → Io S B) → Io S B
  ◌>>=◌ m f s = continue (m s) f

  abbrev pub ◌>>◌ : Io S A → Io S B → Io S B
  ◌>>◌ m n s = continue (m s) (λ _. n)

module _ {S A : Type 0} where
  abbrev pub pure : A → Io S A
  pure a s = (ok a, s)

  abbrev pub raise : Error → Io S A
  raise e s = (err e, s)

  abbrev pub lift : Result Error A → Io S A
  lift r s = (r, s)

  -- `.ok()`: a failure becomes `none`.
  abbrev pub settle : Result Error A × S → Result Error (Option A) × S
  settle (ok a, s) = (ok (some a), s)
  settle (err e, s) = (ok none, s)

  abbrev pub attempt : Io S A → Io S (Option A)
  attempt m s = settle (m s)

  abbrev pub either_or : Result Error A × S → Io S A → Result Error A × S
  either_or (ok a, s) n = (ok a, s)
  either_or (err e, s) n = n s

  -- `or_else`: after a failure, another try.
  abbrev pub or_else : Io S A → Io S A → Io S A
  or_else m n s = either_or (m s) n

module _ {S : Type 0} where
  abbrev pub done : Io S (Unit {0})
  done s = (ok tt, s)

  abbrev pub guard : Bool → Error → Io S (Unit {0})
  guard true e s = (ok tt, s)
  guard false e s = (err e, s)

-- Inversion of a bind that succeeded.
pub continue-eq-ok :
    {S A B : Type 0} (r : Result Error A × S) (f : A → Io S B) {b : B} {t : S}
    → continue r f ≡ (ok b, t)
    → (a : A) × (s : S) × (r ≡ (ok a, s)) × (f a s ≡ (ok b, t))
continue-eq-ok (ok a, s) f h = (a, s, refl, h)
continue-eq-ok (err e, s) f h = cc

pub ok_injective :
    {S A : Type 0} {a b : A} {s t : S}
    → ◌≡◌ {A = Result Error A × S} (ok a, s) (ok b, t)
    → (a ≡ b) × (s ≡ t)
ok_injective e = ground (arith, e)

pub ok-ne-err :
    {S A : Type 0} {a : A} {e : Error} {s t : S}
    → ◌≡◌ {A = Result Error A × S} (ok a, s) (err e, t)
    → ⊥
ok-ne-err h = cc

-- A bind whose first part succeeds goes on with the rest.
pub continue-ok :
    {S A B : Type 0} {r : Result Error A × S} {a : A} {s : S} (f : A → Io S B)
    → r ≡ (ok a, s)
    → continue r f ≡ f a s
continue-ok f e = rw e

pub continue-err :
    {S A B : Type 0} {r : Result Error A × S} {x : Error} {s : S} (f : A → Io S B)
    → r ≡ (err x, s)
    → continue r f ≡ (err x, s)
continue-err f e = rw e

-- An action that leaves the state as it is, whether it succeeds or fails.
abbrev pub Quiet : {S A : Type 0} → Io S A → Type 0
Quiet {S} m = (s : S) → (m s).1 ≡ s

pub Quiet-continue :
    {S A B : Type 0} (r : Result Error A × S) (f : A → Io S B)
    → ((a : A) → Quiet (f a))
    → (continue r f).1 ≡ r.1
Quiet-continue (ok a, s) f q = q a s
Quiet-continue (err e, s) f q = refl

pub Quiet-bind :
    {S A B : Type 0} (m : Io S A) (f : A → Io S B)
    → Quiet m
    → ((a : A) → Quiet (f a))
    → Quiet (m >>= f)
Quiet-bind m f qm qf s = Quiet-continue (m s) f qf ∙ qm s

pub Quiet-guard : {S : Type 0} (b : Bool) (e : Error) → Quiet (guard {S = S} b e)
Quiet-guard true e s = refl
Quiet-guard false e s = refl

pub guard-eq-ok :
    {S : Type 0} (b : Bool) (e : Error) (s t : S) → guard b e s ≡ (ok tt, t) → (b ≡ true) × (t ≡ s)
guard-eq-ok true e s t h = (refl, sym (ok_injective h).1)
guard-eq-ok false e s t h = cc

pub lift-eq-ok :
    {S A : Type 0} (r : Result Error A) (s : S) {a : A} {t : S}
    → lift r s ≡ (ok a, t)
    → (r ≡ ok a) × (t ≡ s)
lift-eq-ok (ok b) s h = ground (arith, h)
lift-eq-ok (err e) s h = cc

-- The same inversion for a long chain of binds: the rest takes the parts as variables.
pub continue_cases :
    {S A B : Type 0} {C : Type 0} {b : B} {t : S} (r : Result Error A × S) (f : A → Io S B)
    → continue r f ≡ (ok b, t)
    → ((a : A) (s : S) → r ≡ (ok a, s) → f a s ≡ (ok b, t) → C)
    → C
continue_cases r f h k = let (a, s, e, rest) = continue-eq-ok r f h in k a s e rest
