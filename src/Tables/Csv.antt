-- ===== src/Tables/Csv.antt =====
-- A reader of RFC 4180 gets back the cells of an exported table (src/documents/TableFormatter.ts).
use personal_knowledge_mcp.Base.{
  Bool, List, Option, Text, [], append-nil, append_assoc, ap, arith, false, if-elim, map, none,
  refl, some, subst, sym, ℕ, ◌||◌, ◌++◌, ◌∙◌, ◌∷◌, ◌≡◌, ◌≤◌, length, suc, zero, take, ◌-◌,
}
use personal_knowledge_mcp.Tables.Reader.{
  Sheet, after, all_records, bare, field_start, keep, quote_seen, quoted, read, read_csv, skip,
  end_field, end_record,
}
use personal_knowledge_mcp.Tables.Formatter.{
  TableData, carriage_return, comma, double_quotes, escape_csv, includes, join, line_feed, quote,
  row_fields, fields_of, to_csv, needs_quotes, empty_cells, expand_cells, spread, TableCell,
  TableRow,
}

-- The characters of a field before what is read.
abbrev prefixed : Text → Option Sheet → Option Sheet
prefixed [] r = r
prefixed (c ∷ v) r = after (keep c) (prefixed v r)

-- What follows a field.
abbrev IsClosed : Text → Type 0
IsClosed t = (read bare t ≡ read field_start t) × (read quote_seen t ≡ read field_start t)

after-skip : (r : Option Sheet) → after skip r ≡ r
after-skip none = refl
after-skip (some s) = refl

quoted-double :
    (v t : Text) → read quoted (double_quotes v ++ (quote ∷ t)) ≡ prefixed v (read quote_seen t)
unfolding read double_quotes
quoted-double [] t = after-skip (read quote_seen t)
quoted-double (c ∷ v) t = ground (
  arith,
  quoted-double v t,
  after-skip (after (keep c) (read quoted (double_quotes v ++ (quote ∷ t)))),
)

bare-plain :
    (v t : Text)
    → includes comma v ≡ false
    → includes quote v ≡ false
    → includes line_feed v ≡ false
    → includes carriage_return v ≡ false
    → read bare (v ++ t) ≡ prefixed v (read bare t)
unfolding read includes
bare-plain [] t h k l m = refl
bare-plain (c ∷ v) t h k l m = ground (arith, bare-plain v t)

start-bare :
    (c : ℕ) (v : Text)
    → includes quote (c ∷ v) ≡ false
    → read field_start (c ∷ v) ≡ read bare (c ∷ v)
unfolding read includes
start-bare c v h = ground arith

start-plain :
    (v t : Text)
    → includes comma v ≡ false
    → includes quote v ≡ false
    → includes line_feed v ≡ false
    → includes carriage_return v ≡ false
    → IsClosed t
    → read field_start (v ++ t) ≡ prefixed v (read field_start t)
unfolding includes read
start-plain [] t h k l m closed = refl
start-plain (c ∷ v) t h k l m closed =
    ground (arith, bare-plain (c ∷ v) t h k l m, ap (prefixed (c ∷ v)) closed.0)

or-left : (a b : Bool) → (a || b) ≡ false → a ≡ false
or-left a b h = ground arith

or-right : (a b : Bool) → (a || b) ≡ false → b ≡ false
or-right a b h = ground arith

read-escape :
    (v t : Text)
    → IsClosed t
    → read field_start (escape_csv v ++ t) ≡ prefixed v (read field_start t)
unfolding read escape_csv
read-escape v t closed =
    if-elim (λ w. read field_start (w ++ t) ≡ prefixed v (read field_start t)) (needs_quotes v)
      (quote ∷ (double_quotes v ++ (quote ∷ []))) v
      (λ e.
        after-skip (read quoted ((double_quotes v ++ (quote ∷ [])) ++ t))
        ∙ (ap (read quoted) (append_assoc (double_quotes v) (quote ∷ []) t)
            ∙ (quoted-double v t ∙ ap (prefixed v) closed.1)))
      (λ e.
        start-plain v t (or-left (includes comma v) _ e)
          (or-left (includes quote v) _ (or-right (includes comma v) _ e))
          (or-left (includes line_feed v) _
            (or-right (includes quote v) _ (or-right (includes comma v) _ e)))
          (or-right (includes line_feed v) _
            (or-right (includes quote v) _ (or-right (includes comma v) _ e)))
          closed)

unfoldable pub record_before : Text → List Text → Option Sheet → Option Sheet
record_before f [] r = prefixed f r
record_before f (g ∷ fs) r = prefixed f (after end_field (record_before g fs r))

comma-IsClosed : (t : Text) → IsClosed (comma ∷ t)
unfolding read
comma-IsClosed t = (refl, refl)

line_end-IsClosed : (t : Text) → IsClosed (carriage_return ∷ line_feed ∷ t)
unfolding read
line_end-IsClosed t = (refl, refl)

nil-IsClosed : IsClosed []
unfolding read
nil-IsClosed = (refl, refl)

prefixed-some :
    (v : Text) (s : Sheet) → prefixed v (some s) ≡ some (record s { field = v ++ s.field })
prefixed-some [] s = refl
prefixed-some (c ∷ v) s = ap (after (keep c)) (prefixed-some v s)

record_before-some :
    (f : Text) (fs : List Text) (rs : List (List Text))
    → record_before f fs (some (record { field = []; fields = []; records = rs }))
      ≡ some (record { field = f; fields = fs; records = rs })
unfolding record_before
record_before-some f [] rs =
    prefixed-some f _
    ∙ ap (λ v. some (record { field = v; fields = []; records = rs })) (append-nil f)
record_before-some f (g ∷ fs) rs =
    ap (λ r. prefixed f (after end_field r)) (record_before-some g fs rs)
    ∙ (prefixed-some f _
        ∙ ap (λ v. some (record { field = v; fields = g ∷ fs; records = rs })) (append-nil f))

read-fields :
    (f : Text) (fs : List Text) (t : Text)
    → IsClosed t
    → read field_start (join (comma ∷ []) (map escape_csv (f ∷ fs)) ++ t)
      ≡ record_before f fs (read field_start t)
unfolding join record_before read
read-fields f [] t h = read-escape f t h
read-fields f (g ∷ fs) t h =
    ap (read field_start)
      (append_assoc (escape_csv f) (comma ∷ join (comma ∷ []) (map escape_csv (g ∷ fs))) t)
    ∙ (read-escape f (comma ∷ (join (comma ∷ []) (map escape_csv (g ∷ fs)) ++ t))
          (comma-IsClosed (join (comma ∷ []) (map escape_csv (g ∷ fs)) ++ t))
        ∙ ap (λ r. prefixed f (after end_field r)) (read-fields g fs t h))

abbrev csv_lines : List (List Text) → Text
csv_lines rows =
    join (carriage_return ∷ line_feed ∷ [])
      (map (λ fields. join (comma ∷ []) (map escape_csv fields)) rows)

abbrev AreFilled : List (List Text) → Type 0
AreFilled [] = Unit
AreFilled ([] ∷ rows) = ⊥
AreFilled ((f ∷ fs) ∷ rows) = AreFilled rows

read-lines :
    (f : Text) (fs : List Text) (rows : List (List Text))
    → AreFilled rows
    → read field_start (csv_lines ((f ∷ fs) ∷ rows))
      ≡ some (record { field = f; fields = fs; records = rows })
unfolding join read
read-lines f fs [] h =
    ap (read field_start) (sym (append-nil (join (comma ∷ []) (map escape_csv (f ∷ fs)))))
    ∙ (read-fields f fs [] nil-IsClosed ∙ record_before-some f fs [])
read-lines f fs ([] ∷ rows) h = absurd h
read-lines f fs ((g ∷ gs) ∷ rows) h =
    read-fields f fs (carriage_return ∷ line_feed ∷ csv_lines ((g ∷ gs) ∷ rows))
      (line_end-IsClosed (csv_lines ((g ∷ gs) ∷ rows)))
    ∙ (ap (record_before f fs) (ap (λ r. after skip (after end_record r)) (read-lines g gs rows h))
        ∙ record_before-some f fs ((g ∷ gs) ∷ rows))

AreFilled-expand :
    (n : ℕ) (cells : List TableCell) (rows : List (List Text))
    → AreFilled rows
    → AreFilled (map (λ cell. cell.content) (expand_cells cells (suc n)) ∷ rows)
unfolding expand_cells spread
AreFilled-expand n [] rows h =
    let Padded : ℕ → Type 0 =
      (λ m. AreFilled (map (λ cell. cell.content) (take (suc n) (empty_cells m)) ∷ rows)) in
    let e : suc n ≡ suc n - 0 = omega arith in subst Padded e h
AreFilled-expand n (c ∷ cs) rows h = h

fields_of-AreFilled : (n : ℕ) (rows : List TableRow) → AreFilled (fields_of (suc n) rows)
unfolding fields_of
fields_of-AreFilled n [] = tt
fields_of-AreFilled n (row ∷ rows) =
    AreFilled-expand n row.cells (fields_of (suc n) rows) (fields_of-AreFilled n rows)

read-rows :
    (rows : List (List Text))
    → AreFilled rows
    → 1 ≤ length rows
    → all_records (read field_start (csv_lines rows)) ≡ some rows
read-rows [] h k = absurd (omega (arith, k))
read-rows ([] ∷ rows) h k = absurd h
read-rows ((f ∷ fs) ∷ rows) h k = ap all_records (read-lines f fs rows h)

length-fields_of : (n : ℕ) (rows : List TableRow) → length (fields_of n rows) ≡ length rows
unfolding fields_of
length-fields_of n [] = refl
length-fields_of n (r ∷ rows) = ap suc (length-fields_of n rows)

positive-AreFilled : (n : ℕ) (rows : List TableRow) → 1 ≤ n → AreFilled (fields_of n rows)
positive-AreFilled zero rows h = absurd (omega (arith, h))
positive-AreFilled (suc n) rows h = fields_of-AreFilled n rows

-- Let a table have at least one column and at least one row. A reader of the format of RFC 4180,
-- which refuses any other text, gets from the table's CSV one record for each row, and in it the
-- contents of the row's cells, spread over their spans and padded or cut to the number of
-- columns, whatever characters they contain.
pub read_csv-to_csv :
    (table : TableData)
    → 1 ≤ table.column_count
    → 1 ≤ length table.rows
    → read_csv (to_csv table) ≡ some (row_fields table)
unfolding read_csv to_csv
read_csv-to_csv table h k =
    read-rows (row_fields table) (positive-AreFilled table.column_count table.rows h)
      (subst (λ n. 1 ≤ n) (sym (length-fields_of table.column_count table.rows)) k)
