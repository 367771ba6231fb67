-- ===== src/Tests/Exports.antt =====
-- A small table as CSV (src/documents/TableFormatter.ts).
use personal_knowledge_mcp.Base.{Text, [], arith, codes, false, none, refl, some, true, ◌∷◌, ◌≡◌}
use personal_knowledge_mcp.Tables.Csv.{read_csv-to_csv}
use personal_knowledge_mcp.Tables.Reader.{read_csv}
use personal_knowledge_mcp.Tables.Formatter.{
  TableCell, TableData, quote, row_fields, to_csv, expand_cells, spread, fields_of,
}

abbrev cell : Text → TableCell
cell s = record { content = s; row_span = none; col_span = none }

abbrev prices : TableData
prices = record {
  rows =
      record {
        cells = record { content = codes "a,b"; row_span = none; col_span = some 2 } ∷ [];
        is_header = true;
      }
      ∷ record { cells = cell (quote ∷ []) ∷ cell (codes "x") ∷ []; is_header = false }
      ∷ [];
  column_count = 2;
  caption = none;
}

prices_fields : row_fields prices ≡ (codes "a,b" ∷ [] ∷ []) ∷ ((quote ∷ []) ∷ codes "x" ∷ []) ∷ []
unfolding fields_of expand_cells spread
prices_fields = refl

read_csv-to_csv_example : read_csv (to_csv prices) ≡ some (row_fields prices)
read_csv-to_csv_example = read_csv-to_csv prices (omega arith) (omega arith)
