-- ===== src/Tests/Listing.antt =====
-- The listing of `RealZfs` on a system of two datasets.
use zboot.Base.{ℕ, ◌≡◌, ◌≢◌, refl, false, arith, List, [], ◌∷◌, Str, ok}
use zboot.Text.{codes, is_whitespace, trim}
use zboot.Text.Split.{Lacks}
use zboot.Text.Lines.{unlines}
use zboot.Core.Parse.Tables.{IsRow, row_line, table}
use zboot.Cli.Sub.{Runner}
use zboot.Cli.Drop.RealZfs.{list_datasets}
use zboot.Cli.Drop.RealZfs.Printed.{Printed, all_printed, names_of, read_datasets}
use zboot.Cli.Drop.RealZfs.Rows
use zboot.Cli.Drop.RealZfs.Rows.{IsListed, IsDatasets, or_parse_error}

abbrev two : List Printed
two =
    record { name = codes "p/x"; be = codes "true"; from = codes "-"; attached_to = codes "-" }
    ∷ record { name = codes "p/home"; be = codes "-"; from = codes "-"; attached_to = codes "p:x" }
    ∷ []

-- `zfs list` has six arguments here, `zfs get` more.
abbrev shown : List Str → Str
shown (_ ∷ _ ∷ _ ∷ _ ∷ _ ∷ _ ∷ []) = unlines (names_of two)
shown _ = table (all_printed two)

abbrev printer : Runner (Unit {0})
printer = record {
  run = λ prog args s. (ok (record { rc = 0; stdout = shown args; stderr = [] }), s);
}

made-IsRow :
    (c : ℕ) (cs p v : Str)
    → is_whitespace c ≡ false
    → Lacks b'\t' (c ∷ cs)
    → Lacks b'\t' p
    → Lacks b'\n' (row_line (record { name = c ∷ cs; property = p; value = v }))
    → Lacks b'\r' (row_line (record { name = c ∷ cs; property = p; value = v }))
    → IsRow (record { name = c ∷ cs; property = p; value = v })
made-IsRow c cs p v dark name prop line cr = record {
  first = c;
  others = cs;
  name_cons = refl;
  first_dark = dark;
  name_plain = name;
  property_plain = prop;
  line_plain = line;
  line_no_cr = cr;
}

x-IsListed : IsListed (codes "p/x")
unfolding trim is_whitespace
x-IsListed = record { trimmed = refl; there = refl; plain = omega arith; no_cr = omega arith }

home-IsListed : IsListed (codes "p/home")
unfolding trim is_whitespace
home-IsListed = record { trimmed = refl; there = refl; plain = omega arith; no_cr = omega arith }

home-ne-x : codes "p/home" ≢ codes "p/x"
home-ne-x e = cc

unfoldable printer-IsDatasets : IsDatasets printer
unfolding is_whitespace
printer-IsDatasets = record {
  printed = λ s. two;
  lists = λ s. (_, refl, refl, refl);
  gets = λ s there. (_, refl, refl, refl);
  listed = λ s. (x-IsListed, (home-IsListed, tt));
  rows = λ s. (
    made-IsRow _ _ _ _ refl (omega arith) (omega arith) (omega arith) (omega arith),
    (
      made-IsRow _ _ _ _ refl (omega arith) (omega arith) (omega arith) (omega arith),
      (
        made-IsRow _ _ _ _ refl (omega arith) (omega arith) (omega arith) (omega arith),
        (
          made-IsRow _ _ _ _ refl (omega arith) (omega arith) (omega arith) (omega arith),
          (
            made-IsRow _ _ _ _ refl (omega arith) (omega arith) (omega arith) (omega arith),
            (made-IsRow _ _ _ _ refl (omega arith) (omega arith) (omega arith) (omega arith), tt),
          ),
        ),
      ),
    ),
  );
  distinct = λ s. ((home-ne-x, tt), (tt, tt));
}

list_datasets_lem_example : list_datasets printer tt ≡ (or_parse_error (read_datasets two), tt)
unfolding printer-IsDatasets
list_datasets_lem_example = Rows.list_datasets_lem printer printer-IsDatasets tt
