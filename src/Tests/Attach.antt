-- ===== src/Tests/Attach.antt =====
-- `zboot attach --to` on a small system.
use zboot.Base.{
  ◌≡◌, refl, List, [], ◌∷◌, ◌++◌, map, Str, ◌==◌, str_eq, nat_eq, str_beq, Result, ok, err, filter,
  elem, All, if◌then◌else◌, any,
}
use zboot.Text.{codes, trim, split_once, lines, split, first_part, last_part, is_whitespace, join}
use zboot.Core.Types.{
  BoundKey, key_eq, BoundList, parse_bound_list, parse_keys, parse_key, render_bound_list,
  render_key,
}
use zboot.Cli.Io.{Error}
use zboot.Cli.Sub
use zboot.Cli.Sub.{Runner, RunOutput}
use zboot.Cli.Attach.{
  run_set, ensure_bes_exist, active_be, attach_writes, desired_canmount, have_be, missing_in,
  key_dataset,
}
use zboot.Cli.Attach.Bindings
use zboot.Cli.Attach.Bindings.{HasRow, Next}

-- The last arguments of the changes that were made.
abbrev Log : Type 0
Log = List (List Str)

abbrev said : Str → RunOutput
said text = record { rc = 0; stdout = text; stderr = [] }

-- `rpool` boots `be1`, and `be1` and `be2` are boot environments.
abbrev answer : List Str → Log → Result Error RunOutput × Log
answer (cmd ∷ rest) s =
    if cmd == codes "set"
    then (ok (said []), s ++ rest ∷ [])
    else if any (λ a. a == codes "bootfs") rest
    then (ok (said (codes "rpool/ROOT/be1\n")), s)
    else (ok (said (codes "rpool/ROOT/be1\ttrue\nrpool/ROOT/be2\ttrue\n")), s)
answer [] s = (err Error.spawn, s)

abbrev fake : Runner Log
fake = record { run = λ prog args s. answer args s }

abbrev home : Str
home = codes "rpool/home"

abbrev logged : Log
logged =
    (codes "zboot:attached-to=rpool:be1,rpool:be2" ∷ home ∷ [])
    ∷ (codes "canmount=on" ∷ home ∷ [])
    ∷ []

attach_runs : run_set fake home (codes "rpool:be1, rpool:be2") [] ≡ (ok tt, logged)
unfolding run_set ensure_bes_exist active_be attach_writes desired_canmount have_be missing_in
    parse_bound_list parse_keys parse_key render_bound_list render_key zboot.Cli.Sub.run
    zboot.Cli.Sub.capture str_beq trim split_once split lines first_part last_part is_whitespace
    join filter elem any
attach_runs = refl

run_set_done_example :
    (l : BoundList) × (parse_bound_list (codes "rpool:be1, rpool:be2") ≡ ok l)
    × (out : RunOutput) × (s1 : Log) × (fake.run
          (codes "zfs")
          (codes "get"
            ∷ codes "-Hp"
            ∷ codes "-o"
            ∷ codes "name,value"
            ∷ codes "zboot:be"
            ∷ map key_dataset l)
          []
        ≡ (ok out, s1))
    × All (HasRow out.stdout) l
    × (active : BoundKey) × (s2 : Log) × Next fake (first_part b'/' home) s1 s2 active
    × (wrote : RunOutput) × (s3 : Log) × (fake.run
          (codes "zfs")
          (codes "set" ∷ (codes "zboot:attached-to=" ++ render_bound_list l) ∷ home ∷ [])
          s2
        ≡ (ok wrote, s3))
    × (wrote.rc ≡ 0)
    × (last : RunOutput) × (fake.run
          (codes "zfs")
          (codes "set"
            ∷ (codes "canmount=" ++ (if elem active l then codes "on" else codes "off"))
            ∷ home
            ∷ [])
          s3
        ≡ (ok last, logged))
    × (last.rc ≡ 0)
run_set_done_example =
    Bindings.run_set_done fake home (codes "rpool:be1, rpool:be2") [] logged attach_runs
