-- ===== src/Cli/Pair/Clearing.antt =====
-- What `zboot unpair` leaves (cli/src/cmd/pair.rs).
use zboot.Base.{
  refl, str_beq, str_beq_iff, ◌≡◌, ◌⊎◌, ap, subst, sym, ◌∙◌, Bool, true, false, ◌&&◌, ◌||◌, Option,
  none, some, List, [], ◌∷◌, Str, ok, ok_or, ◌==◌, str_eq, option_beq, arith, Bool-cases,
  Option-cases, inl, inr, if◌then◌else◌,
}
use zboot.Text.{codes}
use zboot.Core.Replication.{PairPointer, pointer_eq, parse_dataset, render_pointer}
use zboot.Cli.Io.{
  continue, continue-ok, continue_cases, ok_injective, lift, lift-eq-ok, attempt, settle,
  not_paired, done,
}
use zboot.Cli.Sub.{Runner}
use zboot.Cli.ZfsOps.{
  dataset_exists, read_pair_pointer, clear_pair_pointer, inherit_property_tolerant, or_false,
}
use zboot.Cli.ZfsOps.Store.{IsStore, dataset_exists-reads, read_pair_pointer-reads, settle-ok}
use zboot.Cli.Pair.{clear_side, clear_peer, run_unpair}

abbrev pub inherit_args : Str → Str → List Str
inherit_args ds prop = codes "inherit" ∷ prop ∷ ds ∷ []

abbrev pub is_pair_property : Str → Bool
is_pair_property p = p == codes "zboot:mirror" || p == codes "zboot:primary"

-- `zfs inherit` of one of the two pair properties takes the value away where it takes effect (it may fail,
-- or an ancestor may have a value), and touches nothing else.
pub record IsClearing {S : Type 0} (r : Runner S) (z : IsStore r) : Type 0 where
  pub takes : Str → Str → Bool
  pub inherits :
      (s : S) (ds prop d p : Str)
      → is_pair_property prop ≡ true
      → z.value (r.run (codes "zfs") (inherit_args ds prop) s).1 d p
        ≡ (if d == ds && (p == prop && takes ds prop) then codes "-" else z.value s d p)
  pub inherits_there :
      (s : S) (ds prop d : Str)
      → is_pair_property prop ≡ true
      → z.there (r.run (codes "zfs") (inherit_args ds prop) s).1 d ≡ z.there s d

abbrev pub is_pointer_to : Str → Option PairPointer → Bool
is_pointer_to be none = false
is_pointer_to be (some p) = option_beq (parse_dataset be) (some p)

module _ {S : Type 0} (r : Runner S) (z : IsStore r) (c : IsClearing r z) where
  open z use {there, value}

  inherited :
      (s : S) (ds prop : Str)
      → inherit_property_tolerant r ds prop s
        ≡ (ok tt, (r.run (codes "zfs") (inherit_args ds prop) s).1)
  unfolding inherit_property_tolerant
  inherited s ds prop =
      let (o, e) = settle-ok r z (r.run (codes "zfs") (inherit_args ds prop) s) in continue-ok _ e

  -- One side without its pair properties, where `zfs inherit` takes effect; it is tried on both.
  pub record Cleared (s t : S) (ds : Str) : Type 0 where
    pub values :
        (d p : Str)
        → value t d p
          ≡ (if d == ds && (is_pair_property p && c.takes ds p) then codes "-" else value s d p)
    pub existing : (d : Str) → there t d ≡ there s d

  clear_side-Cleared :
      (ds : Str) (s : S) → (t : S) × (clear_side r ds s ≡ (ok tt, t)) × Cleared s t ds
  unfolding clear_side clear_pair_pointer
  clear_side-Cleared ds s =
      let mirror = codes "zboot:mirror" in
      let primary = codes "zboot:primary" in
      let u = (r.run (codes "zfs") (inherit_args ds mirror) s).1 in
      let t = (r.run (codes "zfs") (inherit_args ds primary) u).1 in
      (
        t,
        continue-ok _ (inherited s ds mirror) ∙ continue-ok _ (ap settle (inherited u ds primary)),
        record {
          values = λ d p.
              both d p (c.inherits u ds primary d p primary_is)
                (c.inherits s ds mirror d p mirror_is);
          existing = λ d.
              c.inherits_there u ds primary d primary_is ∙ c.inherits_there s ds mirror d mirror_is;
        },
      )
    where
      mirror_is : is_pair_property (codes "zboot:mirror") ≡ true
      mirror_is = unfold str_beq in refl

      primary_is : is_pair_property (codes "zboot:primary") ≡ true
      primary_is = unfold str_beq in refl

      same : (p q : Str) → (p == q) ≡ true → c.takes ds p ≡ c.takes ds q
      same p q e = ap (c.takes ds) ((str_beq_iff p q).0 e)

      both :
          (d p : Str) {x y : Str}
          → x ≡ (
              if d == ds && (p == codes "zboot:primary" && c.takes ds (codes "zboot:primary"))
              then codes "-"
              else y)
          → y ≡ (
              if d == ds && (p == codes "zboot:mirror" && c.takes ds (codes "zboot:mirror"))
              then codes "-"
              else value s d p)
          → x ≡ (if d == ds && (is_pair_property p && c.takes ds p) then codes "-" else value s d p)
      both d p e f =
          ground (arith, e, f, same p (codes "zboot:primary"), same p (codes "zboot:mirror"))

  -- The peer points back.
  abbrev pub points_back : S → Str → Str → Bool
  points_back s be ds = is_pointer_to be (parse_dataset (value s ds (codes "zboot:mirror")))

  clear_peer_lem :
      (be ds : Str) (s t : S)
      → clear_peer r be ds s ≡ (ok tt, t)
      → ((points_back s be ds ≡ true) × Cleared s t ds) ⊎ ((points_back s be ds ≡ false) × (t ≡ s))
  unfolding clear_peer
  clear_peer_lem be ds s t h = continue_cases (read_pair_pointer r ds s) _ h λ o u e rest.
      let (same, read) = read_pair_pointer-reads r z ds o s u e in
      elim (Option-cases (parse_dataset (value s ds (codes "zboot:mirror")))) [
        | inl gone ↦
            let end : (ok tt, u) ≡ (ok tt, t) = (rw (read ∙ gone) at rest) in
            inr (ap (is_pointer_to be) gone, sym (ok_injective end).1 ∙ same)
        | inr (p, found) ↦ elim (Bool-cases (option_beq (parse_dataset be) (some p))) [
          | inl back ↦
              let did : clear_side r ds u ≡ (ok tt, t) = rw back at (rw (read ∙ found) at rest) in
              let (x, run, cleared) = clear_side-Cleared ds u in
              let here : x ≡ t = (ok_injective (sym run ∙ did)).1 in
              inl (
                ap (is_pointer_to be) found ∙ back,
                subst (λ a. Cleared a t ds) same (subst (λ b. Cleared u b ds) here cleared),
              )
          | inr away ↦
              let end : (ok tt, u) ≡ (ok tt, t) = rw away at (rw (read ∙ found) at rest) in
              inr (ap (is_pointer_to be) found ∙ away, sym (ok_injective end).1 ∙ same)
        ]
      ]

  -- What an unpaired side leaves: its own pair properties are gone, and those of a peer that is there
  -- and points back, once the first side is cleared.
  pub record Unpaired (s t : S) (be : Str) (p : PairPointer) : Type 0 where
    pub middle : S
    pub own_cleared : Cleared s middle be
    pub peer_cleared :
        (there s (render_pointer p) && points_back middle be (render_pointer p)) ≡ true
        → Cleared middle t (render_pointer p)
    pub peer_kept :
        (there s (render_pointer p) && points_back middle be (render_pointer p)) ≡ false
        → t ≡ middle

  -- Where the commands read and clear properties as documented: a `zboot unpair` that succeeds was given a
  -- boot environment with a pointer. Its pointer and its primary mark are gone where `zfs inherit` takes
  -- effect on them, and so are those of the peer exactly if the peer exists and points back then; nothing
  -- else has changed.
  pub run_unpair_done :
      (be : Str) (s t : S)
      → run_unpair r be s ≡ (ok tt, t)
      → (p : PairPointer) × (parse_dataset (value s be (codes "zboot:mirror")) ≡ some p)
        × Unpaired s t be p
  unfolding run_unpair
  run_unpair_done be s t h = continue_cases (read_pair_pointer r be s) _ h λ o s1 e1 h1.
      let (q1, read) = read_pair_pointer-reads r z be o s s1 e1 in
      continue_cases (lift (ok_or o (not_paired be)) s1) _ h1 λ p s2 e2 h2.
        let (found, q2) = lift-eq-ok (ok_or o (not_paired be)) s1 e2 in
        continue_cases (clear_side r be s2) _ h2 λ _ s3 e3 h3.
          let (x, run, cleared) = clear_side-Cleared be s2 in
          let middle : x ≡ s3 = (ok_injective (sym run ∙ e3)).1 in
          let own : Cleared s s3 be =
            subst (λ a. Cleared a s3 be) (q2 ∙ q1) (subst (λ b. Cleared s2 b be) middle cleared) in
          (
            p,
            sym read ∙ pointed o p found,
            finish be p s s3 t own (own.existing (render_pointer p)) h3,
          )
    where
      pointed :
          (o : Option PairPointer) (p : PairPointer) → ok_or o (not_paired be) ≡ ok p → o ≡ some p
      pointed o p e = ground (arith, e)

      finish :
          (be : Str) (p : PairPointer) (s m t : S)
          → Cleared s m be
          → there m (render_pointer p) ≡ there s (render_pointer p)
          → continue
              (attempt (dataset_exists r (render_pointer p)) m)
              (λ o. if or_false o then clear_peer r be (render_pointer p) else done)
            ≡ (ok tt, t)
          → Unpaired s t be p
      finish be p s m t own same h =
          let peer = render_pointer p in
          let asked = ap settle (dataset_exists-reads r z peer m) in
          let rest : (if there m peer then clear_peer r be peer else done) m ≡ (ok tt, t) =
            sym (continue-ok _ asked) ∙ h in
          elim (Bool-cases (there m peer)) [
            | inl is ↦
                let after = clear_peer_lem be peer m t (rw is at rest) in
                record {
                  middle = m;
                  own_cleared = own;
                  peer_cleared = λ b. elim after [
                    | inl (_, cleared) ↦ cleared
                    | inr (away, _) ↦ absurd (ground (arith, b, away))
                  ];
                  peer_kept = λ b. elim after [
                    | inl (back, _) ↦ absurd (ground (arith, b, back, sym same ∙ is))
                    | inr (_, kept) ↦ kept
                  ];
                }
            | inr gone ↦ record {
              middle = m;
              own_cleared = own;
              peer_cleared = λ b. absurd (ground (arith, b, sym same ∙ gone));
              peer_kept = λ _. sym (ok_injective (rw gone at rest)).1;
            }
          ]
