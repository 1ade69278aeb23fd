-- ===== src/Cli/Drop/RealZfs/Rows.antt =====
-- What a listing of `RealZfs` is, where `zfs list` and `zfs get` print what the datasets have
-- (cli/src/cmd/drop.rs).
use zboot.Base.{
  ◌≡◌, refl, ap, ◌∙◌, true, false, not, List, [], ◌∷◌, map, filter, Str, ◌==◌, str_eq, nat_eq,
  is_empty, All, All-imp, Result, ok, err, and_then, if◌then◌else◌,
}
use zboot.Text.{codes, trim}
use zboot.Text.Split.{Lacks}
use zboot.Text.Lines.{unlines, lines-unlines}
use zboot.Core.Types.{ParseError}
use zboot.Core.Types.Property.{Property}
use zboot.Core.Parse.{parse_zfs_get}
use zboot.Core.Parse.Tables.{IsRow, table, read_rows, parse_zfs_get-table}
use zboot.Cli.Io.{Error, continue-ok, lift, pure, ◌>>=◌}
use zboot.Cli.Sub
use zboot.Cli.Sub.{Runner, RunOutput}
use zboot.Cli.Drop.{DatasetRow}
use zboot.Cli.Drop.RealZfs.Listing.{Distinct}
use zboot.Cli.Drop.RealZfs.{new_row, set_fields, dataset_names, rows_of, list_datasets}
use zboot.Cli.Drop.RealZfs.Printed.{Printed, all_printed, names_of, read_datasets, rows-read}

abbrev pub list_args : List Str
list_args =
    codes "list" ∷ codes "-Hp" ∷ codes "-o" ∷ codes "name" ∷ codes "-t" ∷ codes "filesystem" ∷ []

abbrev pub get_args : List Str → List Str
get_args datasets =
    codes "get"
    ∷ codes "-Hp"
    ∷ codes "-o"
    ∷ codes "name,property,value"
    ∷ codes "zboot:be,origin,zboot:attached-to"
    ∷ datasets

-- A name as `zfs list` prints it.
pub record IsListed (n : Str) : Type 0 where
  pub trimmed : trim n ≡ n
  pub there : is_empty n ≡ false
  pub plain : Lacks b'\n' n
  pub no_cr : Lacks b'\r' n

-- `zfs list` prints the name of every dataset, each once, and `zfs get` of these names prints the three
-- properties of each, in the order in which they are asked for; neither changes anything.
pub record IsDatasets {S : Type 0} (r : Runner S) : Type 0 where
  pub printed : S → List Printed
  pub lists :
      (s : S)
      → (out : RunOutput) × (r.run (codes "zfs") list_args s ≡ (ok out, s))
        × ((out.rc == 0) ≡ true)
        × (out.stdout ≡ unlines (names_of (printed s)))
  pub gets :
      (s : S)
      → is_empty (printed s) ≡ false
      → (out : RunOutput) × (r.run (codes "zfs") (get_args (names_of (printed s))) s ≡ (ok out, s))
        × ((out.rc == 0) ≡ true)
        × (out.stdout ≡ table (all_printed (printed s)))
  pub listed : (s : S) → All IsListed (names_of (printed s))
  pub rows : (s : S) → All IsRow (all_printed (printed s))
  pub distinct : (s : S) → Distinct (names_of (printed s))

dataset_names-unlines : (ns : List Str) → All IsListed ns → dataset_names (unlines ns) ≡ ns
unfolding filter
dataset_names-unlines ns h =
    rw (lines-unlines ns (All-imp (λ n v. v.plain) ns h) (All-imp (λ n v. v.no_cr) ns h))
      (all_kept ns h)
  where
    all_kept : (ms : List Str) → All IsListed ms → filter (λ m. not (is_empty m)) (map trim ms) ≡ ms
    all_kept [] h = refl
    all_kept (m ∷ ms) (v, h) = rw (v.trimmed, v.there) (ap (λ rest. m ∷ rest) (all_kept ms h))

abbrev pub or_parse_error : {A : Type 0} → Result ParseError A → Result Error A
or_parse_error (ok a) = ok a
or_parse_error (err e) = err (Error.parse e)

module _ {S : Type 0} (r : Runner S) (z : IsDatasets r) where
  open z use {printed}

  capture-reads :
      (args : List Str) (s : S) (out : RunOutput)
      → r.run (codes "zfs") args s ≡ (ok out, s)
      → (out.rc == 0) ≡ true
      → Sub.capture r (codes "zfs") args s ≡ (ok out.stdout, s)
  unfolding Sub.capture
  capture-reads args s out did rc = continue-ok _ did ∙ (rw (rc) refl)

  -- The second question, for the datasets that the first one has found.
  listing_of :
      (s : S) (ds : List Printed)
      → Distinct (names_of ds)
      → All IsRow (all_printed ds)
      → (is_empty ds ≡ false
          → (out : RunOutput) × (r.run (codes "zfs") (get_args (names_of ds)) s ≡ (ok out, s))
            × ((out.rc == 0) ≡ true)
            × (out.stdout ≡ table (all_printed ds)))
      → (if is_empty (names_of ds) then pure [] else rows_of r (names_of ds)) s
        ≡ (or_parse_error (read_datasets ds), s)
  unfolding rows_of
  listing_of s [] distinct rows gets = refl
  listing_of s (d ∷ ds) distinct rows gets =
      let (out, did, rc, text) = gets refl in
      continue-ok _ (capture-reads (get_args (names_of (d ∷ ds))) s out did rc)
      ∙ ap shown_by (ap parse_zfs_get text ∙ parse_zfs_get-table (all_printed (d ∷ ds)) rows)
      ∙ at (read_rows (all_printed (d ∷ ds))) (read_datasets (d ∷ ds)) (rows-read (d ∷ ds) distinct)
    where
      shown_by : Result ParseError (List (Str × Property)) → Result Error (List DatasetRow) × S
      shown_by x =
          (lift (elim x [ ok ps ↦ ok ps | err e ↦ err (Error.parse e) ]) >>= λ props.
          pure (set_fields props (map new_row (names_of (d ∷ ds)))))
            s

      at :
          (x : Result ParseError (List (Str × Property))) (y : Result ParseError (List DatasetRow))
          → and_then x (λ props. ok (set_fields props (map new_row (names_of (d ∷ ds))))) ≡ y
          → shown_by x ≡ (or_parse_error y, s)
      at (ok props) y h = ap (λ v. (or_parse_error v, s)) h
      at (err e) y h = ap (λ v. (or_parse_error v, s)) h

  -- A listing of `RealZfs` changes nothing and is the rows of the datasets, each as its own properties say,
  -- or the first malformed property. Condition: the commands print what the datasets have.
  pub list_datasets_lem :
      (s : S) → list_datasets r s ≡ (or_parse_error (read_datasets (printed s)), s)
  unfolding list_datasets
  list_datasets_lem s =
      let (out, did, rc, text) = z.lists s in
      continue-ok _ (capture-reads list_args s out did rc)
      ∙ (rw (text, dataset_names-unlines (names_of (printed s)) (z.listed s))
          (listing_of s (printed s) (z.distinct s) (z.rows s) (z.gets s)))
