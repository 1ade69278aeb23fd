-- ===== src/Boot/Shell/Pools/Writable.antt =====
-- That the pools noted as writable are (boot/src/shell.rs, `ensure_pool_rw`, `downgrade_pool_readonly`).
use zboot.Base.{
  ◌≡◌, refl, sym, ap, ◌∙◌, Bool, true, false, List, ◌∷◌, Str, ◌==◌, str_eq, str_beq_iff, elem, ok,
  err, Result, arith, Bool-cases, inl, inr, nat_eq, subst,
}
use zboot.Text.{codes}
use zboot.Cli.Io.{Error, continue_cases, ok_injective, ok-ne-err}
use zboot.Cli.After.{After, After-continue, After-imp, Keeps-run}
use zboot.Cli.Sub
use zboot.Cli.Sub.{Runner, RunOutput}
use zboot.Boot.Shell.Pools.{Rw, spawn, export_args, rw_args, ro_args, reimport_rw, ensure_pool_rw}

module _ {S : Type 0} (r : Runner S) (writable : Str → S → Bool) where
  -- An action on one pool leaves the others as they are.
  abbrev pub Only : Str → List Str → Type 0
  Only pool args =
      (q : Str) (s : S)
      → (q == pool) ≡ false
      → writable q (r.run (codes "zpool") args s).1 ≡ writable q s

  -- What `zpool` does: an export and an import touch one pool, and an import without `readonly=on` that
  -- succeeds makes it writable.
  pub record IsImporting : Type 0 where
    pub exports : (pool : Str) → Only pool (export_args r pool)
    pub imports : (pool : Str) → Only pool (rw_args r pool)
    pub imports_ro : (pool : Str) → Only pool (ro_args r pool)
    pub makes_rw :
        (pool : Str) (s t : S) (out : RunOutput)
        → r.run (codes "zpool") (rw_args r pool) s ≡ (ok out, t)
        → out.rc ≡ 0
        → writable pool t ≡ true

  -- Every pool that is noted is writable.
  abbrev pub Noted : Rw S → Type 0
  Noted s = (q : Str) → elem q s.1 ≡ true → writable q s.0 ≡ true

  -- The same of all pools but one.
  abbrev pub NotedBut : Str → Rw S → Type 0
  NotedBut pool s = (q : Str) → (q == pool) ≡ false → elem q s.1 ≡ true → writable q s.0 ≡ true

  run-ok :
      (args : List Str) (s t : S)
      → Sub.run r (codes "zpool") args s ≡ (ok tt, t)
      → (out : RunOutput) × (r.run (codes "zpool") args s ≡ (ok out, t)) × (out.rc ≡ 0)
  unfolding Sub.run
  run-ok args s t h = continue_cases (r.run (codes "zpool") args s) _ h λ out s1 e rest.
      elim (Bool-cases (out.rc == 0)) [
        | inl z ↦
            let same : s1 ≡ t = (ok_injective (rw (z) at rest)).1 in
            (out, e ∙ ap (λ u. (ok out, u)) same, ground (arith, z))
        | inr z ↦ absurd (ok-ne-err (sym (rw (z) at rest)))
      ]

  spawn-After :
      (pool : Str) (args : List Str) (s : Rw S)
      → Only pool args
      → NotedBut pool s
      → After
          (spawn r (codes "zpool") args s)
          (λ _ t.
            (NotedBut pool t × (t.1 ≡ s.1)) × (Sub.run r (codes "zpool") args s.0 ≡ (ok tt, t.0)))
          (λ t. NotedBut pool t × (t.1 ≡ s.1))
  unfolding spawn
  spawn-After pool args s only n = at (Sub.run r (codes "zpool") args s.0) refl
    where
      noted : (x : S) → x ≡ (Sub.run r (codes "zpool") args s.0).1 → NotedBut pool (x, s.1)
      noted x e q other there =
          ap (writable q) e
          ∙ Keeps-run (writable q) r (codes "zpool") args (λ u. only q u other) s.0
          ∙ n q other there

      at :
          (x : Result Error (Unit {0}) × S)
          → Sub.run r (codes "zpool") args s.0 ≡ x
          → After
              (x.0, (x.1, s.1))
              (λ _ t.
                (NotedBut pool t × (t.1 ≡ s.1))
                × (Sub.run r (codes "zpool") args s.0 ≡ (ok tt, t.0)))
              (λ t. NotedBut pool t × (t.1 ≡ s.1))
      at (ok tt, t) e = record { holds = ((noted t (ap (λ x. x.1) (sym e)), refl), e) }
      at (err x, t) e = record { holds = (noted t (ap (λ x. x.1) (sym e)), refl) }

  but-Noted : (pool : Str) (s : Rw S) → elem pool s.1 ≡ false → NotedBut pool s → Noted s
  but-Noted pool s out n q there = elim (Bool-cases (q == pool)) [
    | inl e ↦
        let same = subst (λ x. elem x s.1 ≡ true) ((str_beq_iff q pool).0 e) there in
        absurd (ground (arith, same, out))
    | inr e ↦ n q e there
  ]

  beq-flip : (a b : Str) → (a == b) ≡ false → (b == a) ≡ false
  beq-flip a b e = elim (Bool-cases (b == a)) [
    | inl t ↦ absurd (ground (arith, e, (str_beq_iff a b).1 (sym ((str_beq_iff b a).0 t))))
    | inr f ↦ f
  ]

  insert-Noted :
      (pool : Str) (s : Rw S) → writable pool s.0 ≡ true → NotedBut pool s → Noted (s.0, pool ∷ s.1)
  unfolding elem
  insert-Noted pool s w n q there = elim (Bool-cases (q == pool)) [
    | inl e ↦ ap (λ x. writable x s.0) ((str_beq_iff q pool).0 e) ∙ w
    | inr e ↦
        let other : (pool == q) ≡ false = beq-flip q pool e in n q e (ground (arith, there, other))
  ]

  module _ (w : IsImporting) where
    reimport_rw-After :
        (pool : Str) (s : Rw S)
        → elem pool s.1 ≡ false
        → Noted s
        → After (reimport_rw r pool s) (λ _ t. Noted t × (writable pool t.0 ≡ true)) Noted
    reimport_rw-After pool s out n =
        let bad = λ (t : Rw S) (h : NotedBut pool t × (t.1 ≡ s.1)).
          but-Noted pool t (ap (elem pool) h.1 ∙ out) h.0 in
        After-continue (spawn r (codes "zpool") (export_args r pool) s) _
          (After-imp _ (spawn-After pool (export_args r pool) s (w.exports pool) (λ q _. n q))
            (λ _ t h. h.0) bad)
          λ _ s1 (n1, same1).
            After-continue (spawn r (codes "zpool") (rw_args r pool) s1) _
              (After-imp _ (spawn-After pool (rw_args r pool) s1 (w.imports pool) n1) (λ _ t h. h)
                (λ t (h, same). bad t (h, same ∙ same1)))
              λ _ s2 ((n2, same2), ran).
                let (out', e, z) = run-ok (rw_args r pool) s1.0 s2.0 ran in
                let now = w.makes_rw pool s1.0 s2.0 out' e z in
                record { holds = (insert-Noted pool s2 now n2, now) }

    -- Where `zpool` exports and imports the pool that it is given and no other: if every pool that is noted
    -- is writable, this holds after `ensure_pool_rw` too, whether it fails or not, and if it does not, the
    -- pool is writable.
    pub ensure_pool_rw_lem :
        (pool : Str) (s : Rw S)
        → Noted s
        → After (ensure_pool_rw r pool s) (λ _ t. Noted t × (writable pool t.0 ≡ true)) Noted
    unfolding ensure_pool_rw
    ensure_pool_rw_lem pool s n = elim (Bool-cases (elem pool s.1)) [
      | inl e ↦ rw (e) (record { holds = (n, n pool e) })
      | inr e ↦ rw (e) (reimport_rw-After pool s e n)
    ]
