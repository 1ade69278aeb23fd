-- ===== src/Core/Parse/Tables.antt =====
-- `parse_zfs_get` reads every table that `zfs get -Hp` can print (core/src/parse.rs).
use zboot.Base.{
  ℕ, ◌≡◌, ◌≢◌, refl, false, List, [], ◌∷◌, ◌++◌, map, Str, ◌==◌, str_eq, nat_eq, is_empty, arith,
  Result, ok, and_then, and_then_assoc, All, All-right, All-imp, All-map,
}
use zboot.Text.{splitn, trim, is_whitespace}
use zboot.Text.Split.{Lacks, split_once-append}
use zboot.Text.Trim.{trim-cons, trim_end-Lacks}
use zboot.Text.Lines.{unlines, lines-unlines}
use zboot.Core.Types.{ParseError}
use zboot.Core.Types.Property.{Property}
use zboot.Core.Parse.{parse_property, parse_zfs_get, zfs_get_lines, zfs_get_columns}

-- The three columns of a row.
pub record Row : Type 0 where
  pub name : Str
  pub property : Str
  pub value : Str

abbrev pub row_line : Row → Str
row_line r = r.name ++ b'\t' ∷ (r.property ++ b'\t' ∷ r.value)

-- The name begins with no whitespace, the first two columns hold no tab, and no column a line end.
-- The value may hold tabs.
pub record IsRow (r : Row) : Type 0 where
  pub first : ℕ
  pub others : Str
  pub name_cons : r.name ≡ first ∷ others
  pub first_dark : is_whitespace first ≡ false
  pub name_plain : Lacks b'\t' r.name
  pub property_plain : Lacks b'\t' r.property
  pub line_plain : Lacks b'\n' (row_line r)
  pub line_no_cr : Lacks b'\r' (row_line r)

abbrev pub table : List Row → Str
table rows = unlines (map row_line rows)

-- Each row's value is read by its property's reader; the first malformed value stops the reading.
abbrev pub read_rows : List Row → Result ParseError (List (Str × Property))
read_rows [] = ok []
read_rows (r ∷ rows) =
    and_then (parse_property r.property r.value)
      λ p. and_then (read_rows rows) λ rest. ok ((r.name, p) ∷ rest)

splitn-row :
    (a b c : Str)
    → Lacks b'\t' a
    → Lacks b'\t' b
    → splitn 3 b'\t' (a ++ b'\t' ∷ (b ++ b'\t' ∷ c)) ≡ a ∷ b ∷ c ∷ []
unfolding splitn
splitn-row a b c ha hb =
    ground (arith, split_once-append b'\t' a (b ++ b'\t' ∷ c) ha, split_once-append b'\t' b c hb)

row_line-dark : (r : Row) → IsRow r → is_empty (trim (row_line r)) ≡ false
row_line-dark r v =
    rw v.name_cons
      (trim-cons v.first (v.others ++ b'\t' ∷ (r.property ++ b'\t' ∷ r.value)) v.first_dark)

columns-row :
    (r : Row)
    → IsRow r
    → zfs_get_columns (row_line r) (splitn 3 b'\t' (row_line r))
      ≡ and_then (parse_property r.property r.value) (λ p. ok (r.name, p))
unfolding zfs_get_columns
columns-row r v =
    let tail = All-right (λ c. c ≢ b'\r') r.name _ v.line_no_cr in
    let value = All-right (λ c. c ≢ b'\r') r.property _ tail.1 in
    rw (
      splitn-row r.name r.property r.value v.name_plain v.property_plain,
      trim_end-Lacks (λ c. c == b'\r') r.value
          (All-imp (λ c (n : c ≢ b'\r'). ground arith) r.value value.1),
    )

zfs_get_lines-table :
    (rows : List Row) → All IsRow rows → zfs_get_lines (map row_line rows) ≡ read_rows rows
unfolding zfs_get_lines
zfs_get_lines-table [] h = refl
zfs_get_lines-table (r ∷ rows) (v, h) =
    rw (row_line-dark r v, columns-row r v, zfs_get_lines-table rows h)
      (and_then_assoc (parse_property r.property r.value) _ _)

-- A printed table of rows that can be told apart is read row by row, up to the first value that is
-- malformed.
pub parse_zfs_get-table :
    (rows : List Row) → All IsRow rows → parse_zfs_get (table rows) ≡ read_rows rows
unfolding parse_zfs_get
parse_zfs_get-table rows h =
    rw
      (lines-unlines (map row_line rows)
        (All-map (Lacks b'\n') row_line rows (All-imp (λ r v. v.line_plain) rows h))
        (All-map (Lacks b'\r') row_line rows (All-imp (λ r v. v.line_no_cr) rows h)))
      (zfs_get_lines-table rows h)
