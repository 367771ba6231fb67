-- ===== src/Tables/Formatter.antt =====
-- Tables as CSV (src/documents/TableFormatter.ts, with the types of src/documents/types.ts).
use personal_knowledge_mcp.Base.{
  Bool, List, Option, Text, [], false, if◌then◌else◌, map, none, some, take, length, ℕ, suc, zero,
  ◌-◌, ◌==◌, ◌||◌, ◌++◌, ◌∷◌,
}

pub record TableCell : Type 0 where
  pub content : Text
  pub row_span : Option ℕ
  pub col_span : Option ℕ

pub record TableRow : Type 0 where
  pub cells : List TableCell
  pub is_header : Bool

pub record TableData : Type 0 where
  pub rows : List TableRow
  pub column_count : ℕ
  pub caption : Option Text

abbrev empty_cell : TableCell
empty_cell = record { content = []; row_span = none; col_span = none }

abbrev pub empty_cells : ℕ → List TableCell
empty_cells zero = []
empty_cells (suc n) = empty_cell ∷ empty_cells n

abbrev span_of : TableCell → ℕ
span_of cell = elim cell.col_span [ none ↦ 1 | some n ↦ n ]

unfoldable pub spread : List TableCell → List TableCell
spread [] = []
spread (cell ∷ cells) = cell ∷ (empty_cells (span_of cell - 1) ++ spread cells)

unfoldable pub expand_cells : List TableCell → ℕ → List TableCell
unfolding spread
expand_cells cells column_count =
    let expanded = spread cells in
    take column_count (expanded ++ empty_cells (column_count - length expanded))

abbrev pub comma : ℕ
comma = 44

abbrev pub quote : ℕ
quote = 34

abbrev pub line_feed : ℕ
line_feed = 10

abbrev pub carriage_return : ℕ
carriage_return = 13

-- `value.includes(c)`.
unfoldable pub includes : ℕ → Text → Bool
includes x [] = false
includes x (c ∷ value) = c == x || includes x value

unfoldable pub double_quotes : Text → Text
double_quotes [] = []
double_quotes (c ∷ value) =
    let rest = double_quotes value in if c == quote then quote ∷ quote ∷ rest else c ∷ rest

abbrev pub needs_quotes : Text → Bool
needs_quotes value =
    includes comma value
    || (includes quote value || (includes line_feed value || includes carriage_return value))

unfoldable pub escape_csv : Text → Text
unfolding double_quotes
escape_csv value =
    if needs_quotes value then quote ∷ (double_quotes value ++ (quote ∷ [])) else value

-- `parts.join(separator)`.
unfoldable pub join : Text → List Text → Text
join separator [] = []
join separator (part ∷ []) = part
join separator (part ∷ next ∷ parts) = part ++ (separator ++ join separator (next ∷ parts))

unfoldable pub fields_of : ℕ → List TableRow → List (List Text)
unfolding expand_cells
fields_of n [] = []
fields_of n (row ∷ rows) = map (λ cell. cell.content) (expand_cells row.cells n) ∷ fields_of n rows

abbrev pub row_fields : TableData → List (List Text)
row_fields table = fields_of table.column_count table.rows

unfoldable pub to_csv : TableData → Text
unfolding escape_csv join fields_of
to_csv table =
    join (carriage_return ∷ line_feed ∷ [])
      (map (λ fields. join (comma ∷ []) (map escape_csv fields)) (row_fields table))
