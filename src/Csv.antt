-- ===== src/Csv.antt =====
-- common/utils/csv.ts: the files that the reports are exported to.
pub mod Parser
use restosync_api.Base.{
  ℕ, Bool, true, false, ◌||◌, Option, none, some, List, [], ◌∷◌, ◌++◌, map, ◌==◌, some_by,
  if◌then◌else◌,
}
use restosync_api.Base.Text.{Text, same_text}

-- A value as `String(value)` or `toISOString()` prints it; `none` for `null` and `undefined`
abbrev pub Value : Type 0
Value = Option Text

-- A row is an object: its keys in their order, with their values.
abbrev pub Row : Type 0
Row = List (Text × Value)

-- `row[key]`
unfoldable pub value_at : Text → Row → Value
value_at key [] = none
value_at key ((name, value) ∷ rest) =
    let later = value_at key rest in if same_text name key then value else later

-- `/[",\n\r]/`
abbrev pub is_special : ℕ → Bool
is_special c = c == 34 || c == 44 || c == 10 || c == 13

-- `s.replace(/"/g, '""')`
unfoldable pub doubled : Text → Text
doubled [] = []
doubled (c ∷ s) = let rest = doubled s in if c == 34 then 34 ∷ 34 ∷ rest else c ∷ rest

unfoldable pub escape_csv_field : Value → Text
unfolding doubled
escape_csv_field none = []
escape_csv_field (some s) = if some_by is_special s then 34 ∷ (doubled s ++ 34 ∷ []) else s

-- `items.join(separator)`
unfoldable pub join : Text → List Text → Text
join separator [] = []
join separator (s ∷ []) = s
join separator (s ∷ t ∷ rest) = s ++ (separator ++ join separator (t ∷ rest))

unfoldable pub headers : List Row → Option (List Text) → List Text
headers rows (some columns) = columns
headers [] none = []
headers (row ∷ rows) none = map (λ (entry : Text × Value). entry.0) row

abbrev pub comma : Text
comma = 44 ∷ []

abbrev pub crlf : Text
crlf = 13 ∷ 10 ∷ []

unfoldable pub line_of : List Text → Row → Text
line_of names row = join comma (map (λ key. escape_csv_field (value_at key row)) names)

unfoldable pub print_csv : List Text → List Row → Text
unfolding line_of
print_csv [] rows = []
print_csv (name ∷ names) rows = join crlf (
    join comma (map (λ key. escape_csv_field (some key)) (name ∷ names))
    ∷ map (line_of (name ∷ names)) rows)

unfoldable pub to_csv : List Row → Option (List Text) → Text
unfolding print_csv headers
to_csv rows columns = print_csv (headers rows columns) rows
