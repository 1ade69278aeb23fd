-- ===== src/Cli/Attach/Bindings.antt =====
-- What a successful `zboot attach --to` has checked and written (cli/src/cmd/attach.rs).
use zboot.Base.{
  ◌≡◌, ap, subst, sym, ◌∙◌, true, some, ◌==◌, ◌||◌, List, [], ◌∷◌, ◌++◌, map, Str, Result, ok, err,
  str_eq, str_beq_iff, ◌≢◌, false, arith, All, In, elem, elem→In, In-nil, In-cases, filter,
  is_empty, Bool-cases, Option-cases, inl, inr, if◌then◌else◌,
}
use zboot.Text.{codes, first_part, lines, split, trim, last_part}
use zboot.Core.Types.{
  ParseError, BoundKey, key_eq, BoundList, parse_bound_list, render_bound_list, render_key,
}
use zboot.Cli.Io.{
  Error, unknown, continue_cases, lift, lift-eq-ok, guard-eq-ok, ok-ne-err, ok_injective,
}
use zboot.Cli.Sub
use zboot.Cli.Sub.{Runner, RunOutput}
use zboot.Cli.Attach.{
  key_dataset, marked, have_be, missing_in, parsed_list, desired_canmount, ensure_bes_exist,
  active_be, attach_writes, run_set,
}

-- A row of the output has the key's dataset in its first field and `true` in the second.
abbrev pub HasRow : Str → BoundKey → Type 0
HasRow text k =
    (l : Str) × In l (lines text)
    × (value : Str) × (rest : List Str) × (split b'\t' l ≡ key_dataset k ∷ value ∷ rest)
    × (trim value ≡ codes "true")

-- What a row that is marked has in its fields.
marked_sound :
    (fields : List Str) (ds : Str)
    → marked fields ≡ some ds
    → (value : Str) × (rest : List Str) × (fields ≡ ds ∷ value ∷ rest) × (trim value ≡ codes "true")
marked_sound [] ds h = absurd (ground (arith, h))
marked_sound (_ ∷ []) ds h = absurd (ground (arith, h))
marked_sound (name ∷ value ∷ rest) ds h = elim (Bool-cases (trim value == codes "true")) [
  | inl e ↦
      let same : name ≡ ds = ground (arith, rw e at h) in
      (value, rest, ap (λ x. x ∷ value ∷ rest) same, (str_beq_iff _ _).0 e)
  | inr e ↦ absurd (ground (arith, rw e at h))
]

-- The boot environment that the pool boots next, which `zpool get` has printed.
abbrev pub Next : {S : Type 0} → Runner S → Str → S → S → BoundKey → Type 0
Next r pool s t active =
    (out : RunOutput) × (r.run (codes "zpool")
        (codes "get" ∷ codes "-Hp" ∷ codes "-o" ∷ codes "value" ∷ codes "bootfs" ∷ pool ∷ []) s
      ≡ (ok out, t))
    × (out.rc ≡ 0)
    × (trim out.stdout ≢ [])
    × (trim out.stdout ≢ codes "-")
    × (active ≡ record { pool = pool; be = last_part b'/' (trim out.stdout) })

not_empty : (s : Str) → is_empty s ≡ false → s ≢ []
not_empty [] n e = absurd (ground (arith, n))
not_empty (c ∷ s) n e = ground (arith, e)

not_dash : (s : Str) → (s == codes "-") ≡ false → s ≢ codes "-"
not_dash s n e = ground (arith, n, (str_beq_iff s (codes "-")).1 e)

active_be-Next :
    {S : Type 0} (r : Runner S) (pool : Str) (s t : S) (active : BoundKey)
    → active_be r pool s ≡ (ok active, t)
    → Next r pool s t active
unfolding active_be
active_be-Next r pool s t active h =
    continue_cases
      (Sub.capture r (codes "zpool")
        (codes "get" ∷ codes "-Hp" ∷ codes "-o" ∷ codes "value" ∷ codes "bootfs" ∷ pool ∷ []) s)
      _ h
      λ text u e g. elim (Bool-cases (is_empty (trim text) || trim text == codes "-")) [
        | inl b ↦ absurd (ok-ne-err (sym (rw b at g)))
        | inr n ↦
            let (out, ran, zero_there, same) = Sub.capture_done r _ _ e in
            let (is, end) = ok_injective (rw n at g) in
            let printed : trim out.stdout ≡ trim text = ap trim (sym same) in
            (
              out,
              ran ∙ ap (λ x. (ok out, x)) end,
              zero_there,
              λ q. not_empty (trim text) (ground (arith, n)) (sym printed ∙ q),
              λ q. not_dash (trim text) (ground (arith, n)) (sym printed ∙ q),
              sym is ∙ ap (λ x. record { pool = pool; be = last_part b'/' (trim x) }) same,
            )
      ]

have_be-row :
    (ls : List Str) (ds : Str)
    → In ds (have_be ls)
    → (l : Str) × In l ls × (marked (split b'\t' l) ≡ some ds)
unfolding have_be
have_be-row [] ds m = absurd (In-nil m)
have_be-row (l ∷ ls) ds m = elim (Option-cases (marked (split b'\t' l))) [
  | inl e ↦ let (q, n, h) = have_be-row ls ds (rw (e, have_be) at m) in (q, In.there n, h)
  | inr (name, e) ↦ elim (In-cases (rw (e, have_be) at m)) [
    | inl same ↦ (l, In.here, e ∙ ap some (sym same))
    | inr n ↦ let (q, k, h) = have_be-row ls ds n in (q, In.there k, h)
  ]
]

missing_in-none :
    (have : List Str) (l : BoundList)
    → is_empty (missing_in have l) ≡ true
    → All (λ (k : BoundKey). elem (key_dataset k) have ≡ true) l
unfolding missing_in filter
missing_in-none have [] h = tt
missing_in-none have (k ∷ l) h = elim (Bool-cases (elem (key_dataset k) have)) [
  | inl e ↦ (e, missing_in-none have l (unfold missing_in filter in (rw e at h)))
  | inr e ↦ absurd (ground (arith, rw e at h))
]

rows_found :
    (text : Str) (l : BoundList)
    → All (λ (k : BoundKey). elem (key_dataset k) (have_be (lines text)) ≡ true) l
    → All (HasRow text) l
rows_found text [] h = tt
rows_found text (k ∷ l) (e, h) =
    let (row, m, is) = have_be-row (lines text) (key_dataset k) (elem→In (key_dataset k) _ e) in
    let (value, rest, fields, true_there) = marked_sound (split b'\t' row) (key_dataset k) is in
    ((row, m, value, rest, fields, true_there), rows_found text l h)

parsed_list_sound : (s : Str) (l : BoundList) → parsed_list s ≡ ok l → parse_bound_list s ≡ ok l
parsed_list_sound s l h = at (parse_bound_list s) h
  where
    at :
        (x : Result ParseError BoundList)
        → (elim x [ ok l ↦ ok l | err e ↦ err (Error.parse e) ]) ≡ ok l
        → x ≡ ok l
    at (ok m) e = ground (arith, e)
    at (err x) e = absurd (ground (arith, e))

-- A `zboot attach --to` that succeeds was given a well-formed list of which every entry has a row in the
-- output of `zfs get zboot:be` with its dataset and, but for space around it, `true`. Then it read what the
-- pool boots next, which is neither empty nor a dash. Then it wrote the list, and last `canmount=on` if what
-- the pool boots next is in the list and `canmount=off` if not; these three commands ended with code 0.
pub run_set_done :
    {S : Type 0} (r : Runner S) (dataset list_str : Str) (s t : S)
    → run_set r dataset list_str s ≡ (ok tt, t)
    → (l : BoundList) × (parse_bound_list list_str ≡ ok l)
      × (out : RunOutput) × (s1 : S) × (r.run
            (codes "zfs")
            (codes "get"
              ∷ codes "-Hp"
              ∷ codes "-o"
              ∷ codes "name,value"
              ∷ codes "zboot:be"
              ∷ map key_dataset l)
            s
          ≡ (ok out, s1))
      × All (HasRow out.stdout) l
      × (active : BoundKey) × (s2 : S) × Next r (first_part b'/' dataset) s1 s2 active
      × (wrote : RunOutput) × (s3 : S) × (r.run
            (codes "zfs")
            (codes "set" ∷ (codes "zboot:attached-to=" ++ render_bound_list l) ∷ dataset ∷ [])
            s2
          ≡ (ok wrote, s3))
      × (wrote.rc ≡ 0)
      × (last : RunOutput) × (r.run
            (codes "zfs")
            (codes "set"
              ∷ (codes "canmount=" ++ (if elem active l then codes "on" else codes "off"))
              ∷ dataset
              ∷ [])
            s3
          ≡ (ok last, t))
      × (last.rc ≡ 0)
unfolding run_set ensure_bes_exist attach_writes desired_canmount
run_set_done r dataset list_str s t h =
    continue_cases (lift (parsed_list list_str) s) _ h λ l s0 e0 h0.
      let (parsed, q0) = lift-eq-ok (parsed_list list_str) s e0 in
      continue_cases (ensure_bes_exist r l s0) _ h0 λ _ s1 e1 h1.
        continue_cases
          (r.run (codes "zfs")
            (codes "get"
              ∷ codes "-Hp"
              ∷ codes "-o"
              ∷ codes "name,value"
              ∷ codes "zboot:be"
              ∷ map key_dataset l)
            s0)
          _ e1
          λ out u e2 g.
            let missing = missing_in (have_be (lines out.stdout)) l in
            let (nothing, q1) =
              guard-eq-ok (is_empty missing) (unknown (map render_key missing)) u s1 g in
            continue_cases (active_be r (first_part b'/' dataset) s1) _ h1 λ active s2 e3 h2.
              continue_cases
                (Sub.run r (codes "zfs")
                  (codes "set" ∷ (codes "zboot:attached-to=" ++ render_bound_list l) ∷ dataset ∷ [])
                  s2)
                _ h2
                λ _ s3 e4 h3.
                  let (wrote, ran, zero_there) = Sub.run_done r _ _ e4 in
                  let (last, ended, zero_last) = Sub.run_done r _ _ h3 in
                  (
                    l,
                    parsed_list_sound list_str l parsed,
                    out,
                    s1,
                    subst
                        (λ x.
                          r.run (codes "zfs")
                            (codes "get"
                              ∷ codes "-Hp"
                              ∷ codes "-o"
                              ∷ codes "name,value"
                              ∷ codes "zboot:be"
                              ∷ map key_dataset l)
                            x
                          ≡ (ok out, s1))
                        q0 (e2 ∙ ap (λ x. (ok out, x)) (sym q1)),
                    rows_found out.stdout l
                        (missing_in-none (have_be (lines out.stdout)) l nothing),
                    active,
                    s2,
                    active_be-Next r (first_part b'/' dataset) s1 s2 active e3,
                    wrote,
                    s3,
                    ran,
                    zero_there,
                    last,
                    ended,
                    zero_last,
                  )
