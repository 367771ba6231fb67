-- ===== src/Tables/Reader.antt =====
-- A reader of CSV as RFC 4180 describes it, against which the export of
-- src/documents/TableFormatter.ts is compared. It refuses a text that is not in that form.
use personal_knowledge_mcp.Base.{List, Option, Text, [], if◌then◌else◌, none, some, ℕ, ◌==◌, ◌∷◌}
use personal_knowledge_mcp.Tables.Formatter.{carriage_return, comma, line_feed, quote}

pub data Mode : Type 0 where
  field_start : Mode
  bare : Mode
  quoted : Mode
  quote_seen : Mode
  return_seen : Mode

pub data Action : Type 0 where
  keep : ℕ → Action
  skip : Action
  end_field : Action
  end_record : Action

-- The field being read, the fields after it in its record, and the records after that.
pub record Sheet : Type 0 where
  pub field : Text
  pub fields : List Text
  pub records : List (List Text)

abbrev unquoted : Mode → ℕ → Option (Mode × Action)
unquoted m c =
    if c == comma
    then some (field_start, end_field)
    else if c == carriage_return
    then some (return_seen, skip)
    else if c == quote
    then none
    else if c == line_feed
    then none
    else some (bare, keep c)

abbrev react : Mode → ℕ → Option (Mode × Action)
react field_start c = if c == quote then some (quoted, skip) else unquoted field_start c
react bare c = unquoted bare c
react quoted c = if c == quote then some (quote_seen, skip) else some (quoted, keep c)
react quote_seen c =
    if c == quote
    then some (quoted, keep c)
    else if c == comma
    then some (field_start, end_field)
    else if c == carriage_return
    then some (return_seen, skip)
    else none
react return_seen c = if c == line_feed then some (field_start, end_record) else none

abbrev act : Action → Sheet → Sheet
act (keep c) s = record s { field = c ∷ s.field }
act skip s = s
act end_field s = record { field = []; fields = s.field ∷ s.fields; records = s.records }
act end_record s = record { field = []; fields = []; records = (s.field ∷ s.fields) ∷ s.records }

abbrev last_sheet : Sheet
last_sheet = record { field = []; fields = []; records = [] }

abbrev at_end : Mode → Option Sheet
at_end quoted = none
at_end return_seen = none
at_end m = some last_sheet

abbrev pub after : Action → Option Sheet → Option Sheet
after a none = none
after a (some s) = some (act a s)

abbrev follow : Option (Mode × Action) → (Mode → Option Sheet) → Option Sheet
follow none k = none
follow (some (m, a)) k = after a (k m)

unfoldable pub read : Mode → Text → Option Sheet
read m [] = at_end m
read m (c ∷ text) = follow (react m c) (λ n. read n text)

abbrev pub all_records : Option Sheet → Option (List (List Text))
all_records none = none
all_records (some s) = some ((s.field ∷ s.fields) ∷ s.records)

unfoldable pub read_csv : Text → Option (List (List Text))
unfolding read
read_csv text = all_records (read field_start text)
