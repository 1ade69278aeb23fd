-- ===== src/Tests/Rw.antt =====
-- Pools of the boot shell on a system that knows which pools are writable.
use zboot.Base.{
  ℕ, ◌≡◌, refl, ap, sym, ◌∙◌, Bool, true, false, List, [], ◌∷◌, Str, ◌==◌, str_eq, str_beq,
  beq_refl, elem, ok, arith, if◌then◌else◌,
}
use zboot.Text.{codes}
use zboot.Cli.Io.{Io, ok_injective}
use zboot.Cli.After.{After}
use zboot.Cli.Sub
use zboot.Cli.Sub.{Runner, RunOutput}
use zboot.Boot.Shell.Pools.{ensure_pool_rw, downgrade_pool_readonly}
use zboot.Boot.Shell.Pools.Writable
use zboot.Boot.Shell.Pools.Writable.{IsImporting, Noted}

abbrev Modes : Type 0
Modes = Str → Bool

abbrev put : Str → Bool → Modes → Modes
put pool b s = λ q. if q == pool then b else s q

abbrev code : ℕ → RunOutput
code n = record { rc = n; stdout = []; stderr = [] }

-- An export, an import for writing, and one for reading, which fails.
abbrev answer : List Str → Io Modes RunOutput
answer (_ ∷ pool ∷ []) s = (ok (code 0), put pool false s)
answer (_ ∷ _ ∷ _ ∷ pool ∷ []) s = (ok (code 0), put pool true s)
answer _ s = (ok (code 1), s)

abbrev system : Runner Modes
system = record { run = λ prog args. answer args }

abbrev writable : Str → Modes → Bool
writable q s = s q

abbrev pool : Str
pool = codes "p"

abbrev all_ro : Modes
all_ro q = false

system-IsImporting : IsImporting system writable
system-IsImporting = record {
  exports = λ p q s n. rw (n) refl;
  imports = λ p q s n. rw (n) refl;
  imports_ro = λ p q s n. refl;
  makes_rw = λ p s t out e z. ap (λ u. u p) (sym (ok_injective e).1) ∙ rw (beq_refl p) refl;
}

ensure_pool_rw_lem_example :
    After
      (ensure_pool_rw system pool (all_ro, []))
      (λ _ t. Noted system writable t × (writable pool t.0 ≡ true))
      (Noted system writable)
unfolding elem
ensure_pool_rw_lem_example =
    Writable.ensure_pool_rw_lem system writable system-IsImporting pool (all_ro, [])
      (λ q there. absurd (ground (arith, there)))

-- A pool that could not be imported again is still noted, though it is not there any more.
stays_noted :
    (downgrade_pool_readonly system pool (put pool true all_ro, pool ∷ [])).1.1 ≡ pool ∷ []
unfolding downgrade_pool_readonly Sub.run
stays_noted = refl

is_gone : (downgrade_pool_readonly system pool (put pool true all_ro, pool ∷ [])).1.0 pool ≡ false
unfolding downgrade_pool_readonly Sub.run str_beq
is_gone = refl
