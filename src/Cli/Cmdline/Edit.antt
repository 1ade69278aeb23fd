-- ===== src/Cli/Cmdline/Edit.antt =====
-- Leaving the editor without a change (cli/src/cmd/cmdline.rs, `edit`).
use zboot.Base.{
  ℕ, ◌≡◌, refl, ap, ◌∙◌, Bool, true, false, List, [], ◌∷◌, ◌++◌, Str, ◌==◌, nat_eq, str_eq, ok,
  beq_refl, Bool-cases, inl, inr, if◌then◌else◌,
}
use zboot.Text.{codes, lines, trim, trim_start_matches, trim_end_matches, is_whitespace}
use zboot.Cli.Io.{Io, continue, pure, raise, done, exited, ◌>>=◌, ◌>>◌}
use zboot.Cli.After.{
  After, After-continue, After-Keeps, After-eq, After-always, After-imp, Keeps, Keeps-bind,
  Keeps-capture,
}
use zboot.Cli.Sub
use zboot.Cli.Sub.{Runner}
use zboot.Cli.Cmdline.{
  Editor, property_args, first_line, read_property, close, edit_text, initial_of, save,
  edit_cmdline,
}

module _ (p : ℕ → Bool) (c : ℕ) (e : p c ≡ true) where
  trim_end-append : (s : Str) → trim_end_matches p (s ++ c ∷ []) ≡ trim_end_matches p s
  unfolding trim_end_matches
  trim_end-append [] = rw (e) refl
  trim_end-append (d ∷ s) = rw (trim_end-append s) refl

  trim_start-append :
      (s : Str)
      → trim_end_matches p (trim_start_matches p (s ++ c ∷ []))
        ≡ trim_end_matches p (trim_start_matches p s)
  unfolding trim_start_matches
  trim_start-append [] = rw (e) refl
  trim_start-append (d ∷ s) = elim (Bool-cases (p d)) [
    | inl t ↦ rw (t) (trim_start-append s)
    | inr f ↦ rw (f) (trim_end-append (d ∷ s))
  ]

-- A space behind a text does not matter to `trim`.
trim-append : (s : Str) (c : ℕ) → is_whitespace c ≡ true → trim (s ++ c ∷ []) ≡ trim s
unfolding trim
trim-append s c e = trim_start-append is_whitespace c e s

newline : is_whitespace b'\n' ≡ true
unfolding is_whitespace
newline = refl

-- What an action does that leaves the view as it was at the start.
Keeps-from :
    {S V A : Type 0} (view : S → V) (v : V) (m : Io S A) (s : S)
    → Keeps view m
    → view s ≡ v
    → After (m s) (λ a t. (m s ≡ (ok a, t)) × (view t ≡ v)) (λ t. view t ≡ v)
Keeps-from view v m s k e =
    After-imp _ (After-eq _ (After-Keeps view m s k)) (λ a t (h, n). (h, n ∙ e)) (λ t n. n ∙ e)

module _ {S V : Type 0} (r : Runner S) (editor : Editor S) (view : S → V) (ds : Str) where
  -- Reading the property and the work on the file do not change what is looked at, and the file is read
  -- as it was written.
  pub record IsKept : Type 0 where
    pub asks : Keeps view (r.run (codes "zfs") (property_args ds))
    pub writes : (x : Str) → Keeps view (editor.write_file x)
    pub opens : Keeps view editor.open_file
    pub reads : Keeps view editor.read_file
    pub removes : (s : S) → view (editor.remove_file s) ≡ view s
    pub kept :
        (x : Str) (s s1 s2 s3 : S) (rc : ℕ) (text : Str)
        → editor.write_file x s ≡ (ok tt, s1)
        → editor.open_file s1 ≡ (ok rc, s2)
        → editor.read_file s2 ≡ (ok text, s3)
        → text ≡ x

  module _ (w : IsKept) where
    read-view : Keeps view (read_property r ds)
    unfolding read_property
    read-view =
        Keeps-bind view (Sub.capture r (codes "zfs") (property_args ds)) _
          (Keeps-capture view r (codes "zfs") (property_args ds) w.asks)
          λ stdout.
            Keeps-bind view (first_line ds (lines stdout)) _ (line-view (lines stdout))
              λ line s. refl
      where
        line-view : (ls : List Str) → Keeps view (first_line ds ls)
        line-view [] s = refl
        line-view (l ∷ ls) s = refl

    edit_text-After :
        (initial : Str) (s : S)
        → After
            (edit_text editor initial s)
            (λ text t. (text ≡ initial ++ b'\n' ∷ []) × (view t ≡ view s))
            (λ t. view t ≡ view s)
    unfolding edit_text
    edit_text-After initial s =
        let text0 = initial ++ b'\n' ∷ [] in
        After-continue (editor.write_file text0 s) _
          (Keeps-from view (view s) (editor.write_file text0) s (w.writes text0) refl)
          λ _ s1 (e1, v1).
            After-continue (editor.open_file s1) _
              (Keeps-from view (view s) editor.open_file s1 w.opens v1)
              λ rc s2 (e2, v2). at rc s1 s2 e1 e2 v2 (rc == 0)
      where
        at :
            (rc : ℕ) (s1 s2 : S)
            → editor.write_file (initial ++ b'\n' ∷ []) s ≡ (ok tt, s1)
            → editor.open_file s1 ≡ (ok rc, s2)
            → view s2 ≡ view s
            → (b : Bool)
            → After
                (continue
                  ((if b
                      then done
                      else close editor >> raise (exited editor.name (editor.path ∷ []) rc))
                    s2)
                  (λ _. editor.read_file >>= (λ text. close editor >> pure text)))
                (λ text t. (text ≡ initial ++ b'\n' ∷ []) × (view t ≡ view s))
                (λ t. view t ≡ view s)
        at rc s1 s2 e1 e2 v false = record { holds = w.removes s2 ∙ v }
        at rc s1 s2 e1 e2 v true =
            After-continue (editor.read_file s2) _
              (Keeps-from view (view s) editor.read_file s2 w.reads v)
              λ text s3 (e3, v3). record {
                holds = (w.kept _ s s1 s2 s3 rc text e1 e2 e3, w.removes s3 ∙ v3);
              }

    -- Where reading the property and the work on the file do not change what is looked at and the file is
    -- read as it was written: if the value has no space around it, `zboot cmdline edit` that is left
    -- without a change has changed nothing, whether it fails or not.
    pub edit_cmdline_kept :
        (s : S)
        → ((value source : Str) (t : S)
            → read_property r ds s ≡ (ok (value, source), t)
            → trim (initial_of value) ≡ initial_of value)
        → view (edit_cmdline r editor ds s).1 ≡ view s
    unfolding edit_cmdline
    edit_cmdline_kept s trimmed =
        After-always (edit_cmdline r editor ds s) (λ t. view t ≡ view s)
          (After-continue (read_property r ds s) _
            (Keeps-from view (view s) (read_property r ds) s read-view refl)
            λ shown s1 (e1, v1).
              let initial = initial_of shown.0 in
              After-continue (edit_text editor initial s1) _ (widen initial s1 v1)
                λ text s2 (same, v2). saved initial text s2 same (trimmed shown.0 shown.1 s1 e1) v2)
          (λ _ t h. h) (λ t h. h)
      where
        widen :
            (initial : Str) (s1 : S)
            → view s1 ≡ view s
            → After
                (edit_text editor initial s1)
                (λ text t. (text ≡ initial ++ b'\n' ∷ []) × (view t ≡ view s))
                (λ t. view t ≡ view s)
        widen initial s1 v =
            After-imp _ (edit_text-After initial s1) (λ text t (e, h). (e, h ∙ v)) (λ t h. h ∙ v)

        saved :
            (initial text : Str) (s2 : S)
            → text ≡ initial ++ b'\n' ∷ []
            → trim initial ≡ initial
            → view s2 ≡ view s
            → After
                (save r editor ds initial (trim text) s2)
                (λ _ t. view t ≡ view s)
                (λ t. view t ≡ view s)
        saved initial text s2 same plain v =
            let back : trim text ≡ initial =
              ap trim same ∙ trim-append initial b'\n' newline ∙ plain in
            rw (back, beq_refl initial) (record { holds = v })
