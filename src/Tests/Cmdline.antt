-- ===== src/Tests/Cmdline.antt =====
-- `zboot cmdline edit` with an editor that keeps its file, on a system that counts the writes.
use zboot.Base.{
  ℕ, suc, zero, ◌≡◌, refl, ap, sym, ◌∙◌, List, [], ◌∷◌, ◌++◌, Str, ◌==◌, str_eq, str_beq, ok, subst,
  if◌then◌else◌,
}
use zboot.Text.{codes, trim}
use zboot.Cli.Io.{Io, ok_injective}
use zboot.Cli.Sub
use zboot.Cli.Sub.{Runner, RunOutput}
use zboot.Cli.Cmdline.{Editor, initial_of, read_property, edit_cmdline}
use zboot.Cli.Cmdline.Edit
use zboot.Cli.Cmdline.Edit.{IsKept}

-- The file, and how often a property was written.
abbrev State : Type 0
State = Str × ℕ

abbrev answer : Str → List Str → Io State RunOutput
answer value [] s = (ok (record { rc = 1; stdout = []; stderr = [] }), s)
answer value (cmd ∷ args) s =
    if cmd == codes "get"
    then (ok (record { rc = 0; stdout = value ++ codes "\tlocal\n"; stderr = [] }), s)
    else (ok (record { rc = 0; stdout = []; stderr = [] }), (s.0, suc s.1))

abbrev system : Str → Runner State
system value = record { run = λ prog args. answer value args }

abbrev keeping : Editor State
keeping = record {
  name = codes "vi";
  path = codes "/tmp/f";
  write_file = λ x s. (ok tt, (x, s.1));
  open_file = λ s. (ok 0, s);
  read_file = λ s. (ok s.0, s);
  remove_file = λ s. ([], s.1);
}

abbrev be : Str
be = codes "p/ROOT/a"

-- A value with a space at its end is written anew, without the space, though nothing was changed.
rewrites_spaced : edit_cmdline (system (codes "quiet ")) keeping be ([], 0) ≡ (ok tt, ([], 1))
unfolding edit_cmdline str_beq Sub.run Sub.capture
rewrites_spaced = refl

keeping-IsKept : IsKept (system (codes "quiet")) keeping (λ s. s.1) be
unfolding str_beq
keeping-IsKept = record {
  asks = λ s. refl;
  writes = λ x s. refl;
  opens = λ s. refl;
  reads = λ s. refl;
  removes = λ s. refl;
  kept = λ x s s1 s2 s3 rc text e1 e2 e3.
      sym (ok_injective e3).0 ∙ ap (λ u. u.0) (sym (ok_injective e2).1 ∙ sym (ok_injective e1).1);
}

reads_quiet :
    (s : State)
    → read_property (system (codes "quiet")) be s ≡ (ok (codes "quiet", codes "local"), s)
unfolding read_property str_beq Sub.capture
reads_quiet s = refl

edit_cmdline_kept_example : (edit_cmdline (system (codes "quiet")) keeping be ([], 0)).1.1 ≡ zero
unfolding str_beq trim
edit_cmdline_kept_example =
    Edit.edit_cmdline_kept (system (codes "quiet")) keeping (λ s. s.1) be keeping-IsKept ([], 0)
      (λ value source t h.
        let same = (ok_injective (sym (reads_quiet ([], 0)) ∙ h)).0 in
        subst (λ x. trim (initial_of x) ≡ initial_of x) (ap (λ x. x.0) same) refl)
