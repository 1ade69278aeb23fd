-- ===== src/Cli/Fork/Lineage.antt =====
-- What the walk of `zboot fork` along origins finds (cli/src/cmd/fork.rs, `check_origin_lineage`): it accepts
-- exactly the datasets which are there with all their ancestors.
use zboot.Base.{
  ℕ, zero, suc, ◌≡◌, ◌≢◌, ◌↔◌, refl, sym, ◌∙◌, subst, ◌⊎◌, inl, inr, Bool, true, false, Option,
  none, some, is_some, Bool-cases, List, [], ◌∷◌, Str, ◌==◌, str_eq, nat_eq, elem, length,
  str_beq_iff, beq_refl, Result, ok, err, All, arith, if◌then◌else◌,
}
use zboot.Core.Types.Property.{Property}
use zboot.Cli.Io.{Error, orphaned}
use zboot.Cli.Fork.{parent_of, walk, check_origin_lineage}
use zboot.Cli.Fork.Walk.{Live, turn, check_origin_lineage_total}

some_injective : {a b : Str} → ◌≡◌ {A = Option Str} (some a) (some b) → a ≡ b
some_injective e = ground (arith, e)

empty : (d : Str) → elem d [] ≢ true
unfolding elem
empty d e = ground (arith, e)

module _ (start : Str) (datasets : List Str) (props : List (Str × Property)) where
  -- `d` is the dataset itself or an ancestor of it.
  pub data Leads (a : Str) : Str → Type 0 where
    self : Leads a a
    up : {b p : Str} → Leads a b → parent_of props b ≡ some p → Leads a p

  -- What the walk means for what is reached from the start.
  abbrev Verdict : Option (Result Error (Unit {0})) → Type 0
  Verdict none = Unit
  Verdict (some (ok _)) = (d : Str) → Leads start d → Live datasets d
  Verdict (some (err e)) =
      (d : Str) × Leads start d × (elem d datasets ≡ false) × (e ≡ orphaned start d)

  -- The datasets that were visited are there, and their parents are visited or come next.
  record Trail (visited : List Str) (current : Str) : Type 0 where
    live : All (Live datasets) (current ∷ visited)
    closed :
        (d p : Str)
        → elem d visited ≡ true
        → parent_of props d ≡ some p
        → elem p (current ∷ visited) ≡ true
    begun : elem start (current ∷ visited) ≡ true
    reached : Leads start current

  elem-Live : (l : List Str) (d : Str) → All (Live datasets) l → elem d l ≡ true → Live datasets d
  unfolding elem
  elem-Live [] d h e = absurd (ground (arith, e))
  elem-Live (x ∷ l) d (hx, h) e = elim (Bool-cases (x == d)) [
    | inl same ↦ subst (Live datasets) ((str_beq_iff x d).0 same) hx
    | inr other ↦ elem-Live l d h (ground (arith, e, other))
  ]

  -- A list that has the start and the parents of its members has all that is reached.
  closed-Leads :
      (l : List Str)
      → elem start l ≡ true
      → ((d p : Str) → elem d l ≡ true → parent_of props d ≡ some p → elem p l ≡ true)
      → (d : Str) → Leads start d
      → elem d l ≡ true
  closed-Leads l begun closed d Leads.self = begun
  closed-Leads l begun closed d (Leads.up {b} {p} way e) =
      closed b p (closed-Leads l begun closed b way) e

  elem-cons : (d x : Str) (l : List Str) → elem d (x ∷ l) ≡ true → (d ≡ x) ⊎ (elem d l ≡ true)
  unfolding elem
  elem-cons d x l e = elim (Bool-cases (x == d)) [
    | inl same ↦ inl (sym ((str_beq_iff x d).0 same))
    | inr other ↦ inr (ground (arith, e, other))
  ]

  elem-there : (d x : Str) (l : List Str) → elem d l ≡ true → elem d (x ∷ l) ≡ true
  unfolding elem
  elem-there d x l e = ground (arith, e)

  elem-here : (x : Str) (l : List Str) → elem x (x ∷ l) ≡ true
  unfolding elem
  elem-here x l = rw (beq_refl x) refl

  -- The trail ends where the parents of all its members are its members.
  Trail-end :
      {visited : List Str} {current : Str}
      → Trail visited current
      → ((p : Str) → parent_of props current ≡ some p → elem p (current ∷ visited) ≡ true)
      → (d : Str) → Leads start d
      → Live datasets d
  Trail-end {visited} {current} t last d way = elem-Live (current ∷ visited) d t.live (
      closed-Leads (current ∷ visited) t.begun (λ b p m e. at b p e (elem-cons b current visited m))
        d way)
    where
      at :
          (b p : Str)
          → parent_of props b ≡ some p
          → (b ≡ current) ⊎ (elem b visited ≡ true)
          → elem p (current ∷ visited) ≡ true
      at b p e (inl same) = last p (subst (λ x. parent_of props x ≡ some p) same e)
      at b p e (inr m) = t.closed b p m e

  Trail-up :
      {visited : List Str} {current : Str} (p : Str)
      → Trail visited current
      → parent_of props current ≡ some p
      → Live datasets p
      → Trail (current ∷ visited) p
  Trail-up {visited} {current} p t above live = record {
    live = (live, t.live);
    closed = λ d q m e. at d q e (elem-cons d current visited m);
    begun = elem-there start p (current ∷ visited) t.begun;
    reached = Leads.up t.reached above;
  }
    where
      at :
          (d q : Str)
          → parent_of props d ≡ some q
          → (d ≡ current) ⊎ (elem d visited ≡ true)
          → elem q (p ∷ current ∷ visited) ≡ true
      at d q e (inl same) =
          let is : p ≡ q =
            some_injective (sym above ∙ subst (λ x. parent_of props x ≡ some q) same e) in
          subst (λ x. elem x (p ∷ current ∷ visited) ≡ true) is (elem-here p (current ∷ visited))
      at d q e (inr m) = elem-there q p (current ∷ visited) (t.closed d q m e)

  turn-Verdict :
      {visited : List Str} {current : Str} (seen : Bool) (parent : Option Str)
      (rest : Str → Option (Result Error (Unit {0})))
      → Trail visited current
      → elem current visited ≡ seen
      → parent_of props current ≡ parent
      → ((p : Str) → Trail (current ∷ visited) p → Verdict (rest p))
      → Verdict (turn start datasets seen parent rest)
  turn-Verdict {current} true parent rest t s e h =
      Trail-end t (λ p above. t.closed current p s above)
  turn-Verdict false none rest t s e h = Trail-end t (λ p above. absurd (ground (arith, e, above)))
  turn-Verdict false (some p) rest t s e h = at (elem p datasets) refl
    where
      at :
          (b : Bool)
          → elem p datasets ≡ b
          → Verdict (if b then rest p else some (err (orphaned start p)))
      at true live = h p (Trail-up p t e live)
      at false gone = (p, Leads.up t.reached e, gone, refl)

  walk-Verdict :
      (fuel : ℕ) (visited : List Str) (current : Str)
      → Trail visited current
      → Verdict (walk fuel start datasets props visited current)
  unfolding walk
  walk-Verdict zero visited current t = tt
  walk-Verdict (suc fuel) visited current t =
      turn-Verdict (elem current visited) (parent_of props current)
        (walk fuel start datasets props (current ∷ visited)) t refl refl
        (λ p t'. walk-Verdict fuel (current ∷ visited) p t')

  check_origin_lineage-Verdict : Verdict (check_origin_lineage start datasets props)
  unfolding check_origin_lineage
  check_origin_lineage-Verdict = at (elem start datasets) refl
    where
      at :
          (b : Bool)
          → elem start datasets ≡ b
          → Verdict (
              if b
              then walk (suc (length datasets)) start datasets props [] start
              else some (err (orphaned start start)))
      at true live = walk-Verdict (suc (length datasets)) [] start (record {
        live = (live, tt);
        closed = λ d p m e. absurd (empty d m);
        begun = elem-here start [];
        reached = Leads.self;
      })
      at false gone = (start, Leads.self, gone, refl)

  -- The check accepts exactly if the dataset and all its ancestors are there.
  pub check_origin_lineage_lem :
      (check_origin_lineage start datasets props ≡ some (ok tt))
      ↔ ((d : Str) → Leads start d → elem d datasets ≡ true)
  check_origin_lineage_lem = (
    λ e. subst Verdict e check_origin_lineage-Verdict,
    λ live.
        at live (check_origin_lineage start datasets props)
          (check_origin_lineage_total start datasets props) check_origin_lineage-Verdict,
  )
    where
      at :
          ((d : Str) → Leads start d → elem d datasets ≡ true)
          → (o : Option (Result Error (Unit {0}))) → is_some o ≡ true
          → Verdict o
          → o ≡ some (ok tt)
      at live none t v = absurd (ground (arith, t))
      at live (some (ok u)) t v = refl
      at live (some (err e)) t (d, way, gone, _) = absurd (ground (arith, gone, live d way))

  -- A refusal names a dataset that is gone: the dataset itself or an ancestor of it.
  pub check_origin_lineage_refused :
      (e : Error)
      → check_origin_lineage start datasets props ≡ some (err e)
      → (d : Str) × Leads start d × (elem d datasets ≡ false) × (e ≡ orphaned start d)
  check_origin_lineage_refused e h = subst Verdict h check_origin_lineage-Verdict
