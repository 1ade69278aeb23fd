-- ===== src/Cli/After.antt =====
-- What holds after an action: one statement for its success and one for its failure. And actions that
-- leave what is looked at as it is.
use zboot.Base.{
  ◌≡◌, refl, sym, subst, ◌∙◌, Bool, true, false, List, Str, ◌==◌, nat_eq, Result, ok, err,
  if◌then◌else◌,
}
use zboot.Cli.Io.{
  Io, Error, ◌>>=◌, continue, attempt, settle, either_or, lift, guard, raise, exited, pure,
}
use zboot.Cli.Sub
use zboot.Cli.Sub.{Runner, RunOutput}

abbrev pub Holds : {S A : Type 0} → Result Error A × S → (A → S → Type 0) → (S → Type 0) → Type 0
Holds (ok a, t) Q E = Q a t
Holds (err e, t) Q E = E t

pub record After {S A : Type 0} (r : Result Error A × S) (Q : A → S → Type 0) (E : S → Type 0)
    : Type 0 where
  pub holds : Holds r Q E

module _ {S A : Type 0} where
  pub After-intro :
      (r : Result Error A × S) {Q : A → S → Type 0} {E : S → Type 0}
      → ((a : A) (t : S) → r ≡ (ok a, t) → Q a t)
      → ((e : Error) (t : S) → r ≡ (err e, t) → E t)
      → After r Q E
  After-intro (ok a, t) f g = record { holds = f a t refl }
  After-intro (err e, t) f g = record { holds = g e t refl }

  pub After-ok :
      {r : Result Error A × S} {a : A} {t : S} {Q : A → S → Type 0} {E : S → Type 0}
      → r ≡ (ok a, t)
      → After r Q E
      → Q a t
  After-ok {Q} {E} e h = subst (λ r. Holds r Q E) e h.holds

  -- What holds either way holds of the state in the end.
  pub After-always :
      (r : Result Error A × S) {Q : A → S → Type 0} {E : S → Type 0} (P : S → Type 0)
      → After r Q E
      → ((a : A) (t : S) → Q a t → P t)
      → ((t : S) → E t → P t)
      → P r.1
  After-always (ok a, t) P h f g = f a t h.holds
  After-always (err e, t) P h f g = g t h.holds

  pub After-imp :
      (r : Result Error A × S) {Q R : A → S → Type 0} {E F : S → Type 0}
      → After r Q E
      → ((a : A) (t : S) → Q a t → R a t)
      → ((t : S) → E t → F t)
      → After r R F
  After-imp (ok a, t) h f g = record { holds = f a t h.holds }
  After-imp (err e, t) h f g = record { holds = g t h.holds }

  pub After-either :
      (r : Result Error A × S) (n : Io S A) {Q : A → S → Type 0} {E F : S → Type 0}
      → After r Q E
      → ((t : S) → E t → After (n t) Q F)
      → After (either_or r n) Q F
  After-either (ok a, t) n h k = record { holds = h.holds }
  After-either (err e, t) n h k = k t h.holds

  -- An action that cannot fail.
  pub After-total :
      (r : Result Error A × S) {Q : A → S → Type 0}
      → After r Q (λ _. ⊥)
      → (a : A) × (t : S) × (r ≡ (ok a, t)) × Q a t
  After-total (ok a, t) h = (a, t, refl, h.holds)
  After-total (err e, t) h = absurd h.holds

  -- What is attempted does not fail.
  pub After-attempt : (r : Result Error A × S) → After (settle r) (λ _ t. t ≡ r.1) (λ _. ⊥)
  After-attempt (ok a, t) = record { holds = refl }
  After-attempt (err e, t) = record { holds = refl }

  -- The equation of a success is kept.
  pub After-eq :
      (r : Result Error A × S) {Q : A → S → Type 0} {E : S → Type 0}
      → After r Q E
      → After r (λ a t. (r ≡ (ok a, t)) × Q a t) E
  After-eq (ok a, t) h = record { holds = (refl, h.holds) }
  After-eq (err e, t) h = record { holds = h.holds }

  pub After-lift :
      (r : Result Error A) (s : S) {Q : A → S → Type 0} {E : S → Type 0}
      → ((a : A) → r ≡ ok a → Q a s)
      → E s
      → After (lift r s) Q E
  After-lift (ok a) s f e = record { holds = f a refl }
  After-lift (err x) s f e = record { holds = e }

module _ {S A B : Type 0} where
  pub After-continue :
      (r : Result Error A × S) {f : A → Io S B} (M : A → S → Type 0) {Q : B → S → Type 0}
      {E : S → Type 0}
      → After r M E
      → ((a : A) (t : S) → M a t → After (f a t) Q E)
      → After (continue r f) Q E
  After-continue (ok a, t) M h k = k a t h.holds
  After-continue (err e, t) M h k = record { holds = h.holds }

  -- What is asked leaves the state as it is, so the rest starts from it.
  pub After-asks :
      {x : Result Error A × S} (f : A → Io S B) {s : S} {a : A} {Q : B → S → Type 0}
      {E : S → Type 0}
      → x ≡ (ok a, s)
      → After (f a s) Q E
      → After (continue x f) Q E
  After-asks f {Q} {E} e h = subst (λ r. After (continue r f) Q E) (sym e) h

  -- The same for an action that asks and may fail.
  pub After-still :
      (r : Result Error A × S) (f : A → Io S B) {s : S} (M : A → Type 0) {Q : B → S → Type 0}
      {E : S → Type 0}
      → After r (λ a t. (t ≡ s) × M a) E
      → ((a : A) → M a → After (f a s) Q E)
      → After (continue r f) Q E
  After-still (ok a, t) f M {Q} {E} h k =
      subst (λ u. After (f a u) Q E) (sym h.holds.0) (k a h.holds.1)
  After-still (err e, t) f M h k = record { holds = h.holds }

module _ {S V : Type 0} (view : S → V) where
  abbrev pub Keeps : {A : Type 0} → Io S A → Type 0
  Keeps m = (s : S) → view (m s).1 ≡ view s

  Keeps-continue :
      {A B : Type 0} (r : Result Error A × S) (f : A → Io S B)
      → ((a : A) → Keeps (f a))
      → view (continue r f).1 ≡ view r.1
  Keeps-continue (ok a, s) f k = k a s
  Keeps-continue (err e, s) f k = refl

  pub Keeps-bind :
      {A B : Type 0} (m : Io S A) (f : A → Io S B)
      → Keeps m
      → ((a : A) → Keeps (f a))
      → Keeps (m >>= f)
  Keeps-bind m f km kf s = Keeps-continue (m s) f kf ∙ km s

  settle-view : {A : Type 0} (r : Result Error A × S) → view (settle r).1 ≡ view r.1
  settle-view (ok a, s) = refl
  settle-view (err e, s) = refl

  pub Keeps-attempt : {A : Type 0} (m : Io S A) → Keeps m → Keeps (attempt m)
  Keeps-attempt m k s = settle-view (m s) ∙ k s

  pub Keeps-if :
      {A : Type 0} (b : Bool) (m n : Io S A) → Keeps m → Keeps n → Keeps (if b then m else n)
  Keeps-if true m n km kn = km
  Keeps-if false m n km kn = kn

  pub Keeps-guard : (b : Bool) (e : Error) → Keeps (guard {S = S} b e)
  Keeps-guard true e s = refl
  Keeps-guard false e s = refl

  -- A failure and a success alike leave what the action keeps.
  pub After-Keeps :
      {A : Type 0} (m : Io S A) (s : S)
      → Keeps m
      → After (m s) (λ _ t. view t ≡ view s) (λ t. view t ≡ view s)
  After-Keeps m s k = at (m s) (k s)
    where
      at :
          {A : Type 0} (r : Result Error A × S)
          → view r.1 ≡ view s
          → After r (λ _ t. view t ≡ view s) (λ t. view t ≡ view s)
      at (ok a, t) h = record { holds = h }
      at (err e, t) h = record { holds = h }

  module _ (r : Runner S) where
    pub Keeps-capture :
        (prog : Str) (args : List Str) → Keeps (r.run prog args) → Keeps (Sub.capture r prog args)
    unfolding Sub.capture
    Keeps-capture prog args k = Keeps-bind (r.run prog args) _ k (λ out.
        Keeps-if (out.rc == 0) (pure out.stdout) (raise (exited prog args out.rc)) (λ s. refl)
          (λ s. refl))

    pub Keeps-run :
        (prog : Str) (args : List Str) → Keeps (r.run prog args) → Keeps (Sub.run r prog args)
    unfolding Sub.run
    Keeps-run prog args k = Keeps-bind (r.run prog args) _ k (λ out.
        Keeps-if (out.rc == 0) (pure tt) (raise (exited prog args out.rc)) (λ s. refl) (λ s. refl))

    -- What is captured is what the command printed.
    pub capture-After :
        (prog : Str) (args : List Str) (s : S)
        → Keeps (r.run prog args)
        → After
            (Sub.capture r prog args s)
            (λ text t.
              (view t ≡ view s)
              × ((out : RunOutput) × (r.run prog args s ≡ (ok out, t)) × (text ≡ out.stdout)))
            (λ t. view t ≡ view s)
    unfolding Sub.capture
    capture-After prog args s k =
        After-continue _ _ (After-eq _ (After-Keeps (r.run prog args) s k))
          λ out t (e, same). at (out.rc == 0) out t e same
      where
        at :
            (b : Bool) (out : RunOutput) (t : S)
            → r.run prog args s ≡ (ok out, t)
            → view t ≡ view s
            → After
                ((if b then pure out.stdout else raise (exited prog args out.rc)) t)
                (λ text t.
                  (view t ≡ view s)
                  × ((out : RunOutput) × (r.run prog args s ≡ (ok out, t)) × (text ≡ out.stdout)))
                (λ t. view t ≡ view s)
        at true out t e same = record { holds = (same, (out, e, refl)) }
        at false out t e same = record { holds = same }
