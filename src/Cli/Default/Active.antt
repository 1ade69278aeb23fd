-- ===== src/Cli/Default/Active.antt =====
-- The writes of `bootfs` by `zboot default`: the losers are cleared first, the winner is set last.
use zboot.Base.{
  ◌≡◌, refl, ap, subst, sym, ◌∙◌, ◌⊎◌, inl, inr, true, false, Option, none, some, Bool-cases, List,
  [], ◌∷◌, Str, ◌==◌, nat_eq, str_eq, str_beq, str_beq_iff, is_some, Result, ok, err, All, All-imp,
  beq_refl, arith, if◌then◌else◌,
}
use zboot.Text.{codes}
use zboot.Cli.Io.{done, raise, exited, continue, Error}
use zboot.Cli.Sub.{Runner, RunOutput}
use zboot.Cli.Drop.RealZfs.{bootfs_of}
use zboot.Cli.After.{After, After-continue, After-imp, After-either}
use zboot.Cli.Default.Discover.{PoolInfo}
use zboot.Cli.Default.{zpool_set, clear_bootfs, clear_loser, clear_losers}
use zboot.Cli.Default.Quiet.{IsPools, put, did, set_bootfs_args}

-- The pools other than the target boot nothing.
abbrev pub Cleared : Str → List PoolInfo → (Str → Option Str) → Type 0
Cleared target pools f = All (λ p. (p.name == target) ≡ false → f p.name ≡ none) pools

-- Pools other than the target may have been cleared, and nothing else.
abbrev pub Fewer : Str → (Str → Option Str) → (Str → Option Str) → Type 0
Fewer target f g = (q : Str) → (g q ≡ f q) ⊎ (((q == target) ≡ false) × (g q ≡ none))

pub Fewer-same : (target : Str) (f g : Str → Option Str) → g ≡ f → Fewer target f g
Fewer-same target f g e q = inl (ap (λ h. h q) e)

pub Fewer-trans :
    (target : Str) (f g h : Str → Option Str)
    → Fewer target f g
    → Fewer target g h
    → Fewer target f h
Fewer-trans target f g h a b q = at (a q) (b q)
  where
    at :
        (g q ≡ f q) ⊎ (((q == target) ≡ false) × (g q ≡ none))
        → (h q ≡ g q) ⊎ (((q == target) ≡ false) × (h q ≡ none))
        → (h q ≡ f q) ⊎ (((q == target) ≡ false) × (h q ≡ none))
    at (inl x) (inl y) = inl (y ∙ x)
    at (inr (n, x)) (inl y) = inr (n, y ∙ x)
    at _ (inr y) = inr y

Fewer-none :
    (target : Str) (f g : Str → Option Str) (q : Str) → Fewer target f g → f q ≡ none → g q ≡ none
Fewer-none target f g q a e = at (a q)
  where
    at : (g q ≡ f q) ⊎ (((q == target) ≡ false) × (g q ≡ none)) → g q ≡ none
    at (inl x) = x ∙ e
    at (inr (n, x)) = x

put-Fewer :
    (target pool : Str) (f : Str → Option Str)
    → (pool == target) ≡ false
    → Fewer target f (put pool none f)
put-Fewer target pool f n q = elim (Bool-cases (q == pool)) [
  | inl e ↦ let same = (str_beq_iff q pool).0 e in inr (rw same n, rw e)
  | inr e ↦ inl (rw e)
]

module _ {S : Type 0} (r : Runner S) (z : IsPools r) where
  open z use {bootfs}

  pub zpool_set-After :
      (pool v : Str) (s : S)
      → After
          (zpool_set r pool (codes "bootfs") v s)
          (λ _ t. bootfs t ≡ put pool (bootfs_of v) (bootfs s))
          (λ t. bootfs t ≡ bootfs s)
  unfolding zpool_set
  zpool_set-After pool v s = at (r.run (codes "zpool") (set_bootfs_args pool v) s) (z.sets pool v s)
    where
      at :
          (x : Result Error RunOutput × S)
          → ((did x ≡ true) × (bootfs x.1 ≡ put pool (bootfs_of v) (bootfs s)))
            ⊎ ((did x ≡ false) × (bootfs x.1 ≡ bootfs s))
          → After
              (continue x (λ out.
                if out.rc == 0
                then done
                else raise (exited (codes "zpool") (set_bootfs_args pool v) out.rc)))
              (λ _ t. bootfs t ≡ put pool (bootfs_of v) (bootfs s))
              (λ t. bootfs t ≡ bootfs s)
      at (ok out, t) (inl (d, e)) = rw d (record { holds = e })
      at (ok out, t) (inr (d, e)) = rw d (record { holds = e })
      at (err x, t) (inl (d, e)) = absurd (ground (arith, d))
      at (err x, t) (inr (d, e)) = record { holds = e }

  clear_bootfs-After :
      (pool : Str) (s : S)
      → After
          (clear_bootfs r pool s)
          (λ _ t. bootfs t ≡ put pool none (bootfs s))
          (λ t. bootfs t ≡ bootfs s)
  unfolding clear_bootfs str_beq
  clear_bootfs-After pool s = After-either _ _ (zpool_set-After pool [] s) (λ t same.
      After-imp _ (zpool_set-After pool (codes "-") t) (λ _ u e. e ∙ ap (put pool none) same)
        (λ u e. e ∙ same))

  clear_loser-After :
      (target : Str) (p : PoolInfo) (s : S)
      → (p.bootfs ≡ none → bootfs s p.name ≡ none)
      → After
          (clear_loser r target p s)
          (λ _ t.
            Fewer target (bootfs s) (bootfs t)
            × ((p.name == target) ≡ false → bootfs t p.name ≡ none))
          (λ t. Fewer target (bootfs s) (bootfs t))
  unfolding clear_loser
  clear_loser-After target p s shown = elim (Bool-cases (p.name == target)) [
    | inl e ↦
        rw e (record { holds = (Fewer-same target _ _ refl, λ n. absurd (ground (arith, n))) })
    | inr e ↦ rw e (at e p.bootfs shown)
  ]
    where
      at :
          (p.name == target) ≡ false
          → (o : Option Str) → (o ≡ none → bootfs s p.name ≡ none)
          → After
              ((if is_some o then clear_bootfs r p.name else done) s)
              (λ _ t. Fewer target (bootfs s) (bootfs t) × (false ≡ false → bootfs t p.name ≡ none))
              (λ t. Fewer target (bootfs s) (bootfs t))
      at n none shown = record { holds = (Fewer-same target _ _ refl, λ _. shown refl) }
      at n (some b) shown =
          After-imp _ (clear_bootfs-After p.name s)
            (λ _ t e. (
              subst (Fewer target (bootfs s)) (sym e) (put-Fewer target p.name (bootfs s) n),
              λ _. ap (λ f. f p.name) e ∙ rw (beq_refl p.name) refl,
            ))
            (λ t e. Fewer-same target _ _ e)

  -- Where what the pools boot is as listed: the losers are cleared, and a failure has cleared some.
  pub clear_losers-After :
      (target : Str) (pools : List PoolInfo) (s : S)
      → All (λ p. p.bootfs ≡ none → bootfs s p.name ≡ none) pools
      → After
          (clear_losers r target pools s)
          (λ _ t. Fewer target (bootfs s) (bootfs t) × Cleared target pools (bootfs t))
          (λ t. Fewer target (bootfs s) (bootfs t))
  unfolding clear_losers
  clear_losers-After target [] s h = record { holds = (Fewer-same target _ _ refl, tt) }
  clear_losers-After target (p ∷ pools) s (hp, h) =
      After-continue _
        (λ _ t.
          Fewer target (bootfs s) (bootfs t)
          × ((p.name == target) ≡ false → bootfs t p.name ≡ none))
        (clear_loser-After target p s hp)
        λ _ t (less, gone).
          After-imp _
            (clear_losers-After target pools t (
              All-imp (λ q known none_here. Fewer-none target _ _ q.name less (known none_here))
                pools h))
            (λ _ u (more, cleared). (
              Fewer-trans target _ _ _ less more,
              (λ n. Fewer-none target _ _ p.name more (gone n), cleared),
            ))
            (λ u more. Fewer-trans target _ _ _ less more)
