-- ===== src/Csv/Parser.antt =====
-- common/utils/csv.ts: a reader of the format of RFC 4180, which does not depend on the writer, and
-- what it makes of a file that was written.
use mathlib.Core.List.{append_assoc, append-nil}
use restosync_api.Base.{
  ℕ, ◌≡◌, ◌≢◌, refl, sym, ap, ◌∙◌, false, Option, none, some, List, [], ◌∷◌, ◌++◌, map, arith, ◌==◌,
  some_by, if◌then◌else◌, Bool-cases, inl, inr, ◌⊎◌,
}
use restosync_api.Base.Text.{Text}
use restosync_api.Csv.{
  Value, Row, value_at, is_special, doubled, escape_csv_field, join, headers, comma, crlf, line_of,
  print_csv, to_csv,
}

-- Where the reader stands: in front of a field, in a bare field, in quotes, behind a quote in
-- quotes, or behind a carriage return.
pub data Place : Type 0 where
  front bare quotes behind after_cr : Place

-- What a character does to what is read after it.
pub data Effect : Type 0 where
  skip add end_field end_record : Effect

abbrev bare_place : ℕ → Place
bare_place c = if c == 44 then front else (if c == 13 then after_cr else bare)

abbrev bare_effect : ℕ → Effect
bare_effect c = if c == 44 then end_field else (if c == 13 then skip else add)

unfoldable pub next_place : Place → ℕ → Place
next_place front c = if c == 34 then quotes else bare_place c
next_place bare c = bare_place c
next_place quotes c = if c == 34 then behind else quotes
next_place behind c = if c == 34 then quotes else bare_place c
next_place after_cr c = if c == 10 then front else bare_place c

unfoldable pub effect : Place → ℕ → Effect
effect front c = if c == 34 then skip else bare_effect c
effect bare c = bare_effect c
effect quotes c = if c == 34 then skip else add
effect behind c = if c == 34 then add else bare_effect c
effect after_cr c = if c == 10 then end_record else bare_effect c

-- The field that is being read, with the fields of its record and the records that follow
pub record Reading : Type 0 where
  pub field : Text
  pub fields : List Text
  pub records : List (List Text)

abbrev first_record : Reading → List Text
first_record r = r.field ∷ r.fields

abbrev prepend : Text → Reading → Reading
prepend s r = record r { field = s ++ r.field }

abbrev begin_field : Text → Reading → Reading
begin_field s r = record { field = s; fields = first_record r; records = r.records }

abbrev begin_record : Text → Reading → Reading
begin_record s r = record { field = s; fields = []; records = first_record r ∷ r.records }

abbrev nothing : Reading
nothing = record { field = []; fields = []; records = [] }

abbrev perform : Effect → ℕ → Reading → Reading
perform skip c r = r
perform add c r = prepend (c ∷ []) r
perform end_field c r = begin_field [] r
perform end_record c r = begin_record [] r

unfoldable pub read_from : Place → Text → Reading
unfolding next_place effect
read_from place [] = nothing
read_from place (c ∷ s) = perform (effect place c) c (read_from (next_place place c) s)

-- The records of a file, and their fields
unfoldable pub parse_csv : Text → List (List Text)
unfolding read_from
parse_csv s = let r = read_from front s in first_record r ∷ r.records

-- `null` and `undefined` are written as the empty field.
abbrev pub text_of : Value → Text
text_of none = []
text_of (some s) = s

-- The end of a field: the end of the file, a comma or a line break
abbrev IsEnd : Text → Type 0
IsEnd [] = Unit
IsEnd (c ∷ s) = (c ≡ 44) ⊎ (c ≡ 13)

-- Behind a closing quote and in front of an empty field, the end of a field is read as in a bare one.
behind_end : (t : Text) → IsEnd t → read_from behind t ≡ read_from bare t
unfolding read_from
behind_end [] h = refl
behind_end (c ∷ t) (inl e) = rw e refl
behind_end (c ∷ t) (inr e) = rw e refl

front_end : (t : Text) → IsEnd t → read_from front t ≡ read_from bare t
unfolding read_from
front_end [] h = refl
front_end (c ∷ t) (inl e) = rw e refl
front_end (c ∷ t) (inr e) = rw e refl

read-bare :
    (s t : Text)
    → some_by is_special s ≡ false
    → read_from bare (s ++ t) ≡ prepend s (read_from bare t)
unfolding read_from
read-bare [] t h = refl
read-bare (c ∷ s) t h =
    let here : is_special c ≡ false = ground arith in
    let later = read-bare s t (ground arith) in
    let a : next_place bare c ≡ bare = ground arith in
    let b : effect bare c ≡ add = ground arith in rw (a, b, later) refl

read-quotes : (s t : Text) → read_from quotes (doubled s ++ 34 ∷ t) ≡ prepend s (read_from behind t)
unfolding read_from doubled
read-quotes [] t = refl
read-quotes (c ∷ s) t = elim (Bool-cases (c == 34)) [
  | inl e ↦
      let q : c ≡ 34 = ground arith in
      let later = read-quotes s t in
      rw (e, later) (ap (λ n. prepend (n ∷ s) (read_from behind t)) (sym q))
  | inr e ↦ let later = read-quotes s t in rw (e, e, later) refl
]

-- A field without a quote, a comma or a line break is read in front as behind it.
front-bare :
    (s t : Text)
    → some_by is_special s ≡ false
    → IsEnd t
    → read_from front (s ++ t) ≡ read_from bare (s ++ t)
unfolding read_from
front-bare [] t h end = front_end t end
front-bare (c ∷ s) t h end =
    let here : is_special c ≡ false = ground arith in
    let a : next_place front c ≡ next_place bare c = ground arith in
    let b : effect front c ≡ effect bare c = ground arith in rw (a, b) refl

read-quoted :
    (s t : Text)
    → IsEnd t
    → read_from front (34 ∷ (doubled s ++ 34 ∷ t)) ≡ prepend s (read_from bare t)
unfolding read_from
read-quoted s t end = read-quotes s t ∙ ap (prepend s) (behind_end t end)

read-field :
    (value : Value) (t : Text)
    → IsEnd t
    → read_from front (escape_csv_field value ++ t) ≡ prepend (text_of value) (read_from bare t)
unfolding escape_csv_field
read-field none t end = front_end t end
read-field (some s) t end = elim (Bool-cases (some_by is_special s)) [
  | inr e ↦ rw e (front-bare s t e end ∙ read-bare s t e)
  | inl e ↦ rw e (
      ap (λ u. read_from front (34 ∷ u)) (append_assoc (doubled s) (34 ∷ []) t)
      ∙ read-quoted s t end)
]

-- The end of a line or of the file, where no more of the record is read
abbrev IsLineEnd : Text → Type 0
IsLineEnd t = IsEnd t × ((read_from bare t).field ≡ []) × ((read_from bare t).fields ≡ [])

-- The line of the values `f` of some keys
read-line :
    (f : Text → Value) (key : Text) (keys : List Text) (t : Text)
    → IsLineEnd t
    → read_from front (join comma (map (λ k. escape_csv_field (f k)) (key ∷ keys)) ++ t) ≡ record {
      field = text_of (f key);
      fields = map (λ k. text_of (f k)) keys;
      records = (read_from bare t).records;
    }
unfolding join read_from
read-line f key [] t (end, no_field, no_fields) =
    read-field (f key) t end ∙ rw (no_field, no_fields, append-nil (text_of (f key))) refl
read-line f key (next ∷ keys) t end =
    let later = join comma (map (λ k. escape_csv_field (f k)) (next ∷ keys)) in
    ap (read_from front) (append_assoc (escape_csv_field (f key)) (44 ∷ later) t)
    ∙ read-field (f key) (44 ∷ (later ++ t)) (inl refl)
    ∙ ap (λ r. prepend (text_of (f key)) (begin_field [] r)) (read-line f next keys t end)
    ∙ rw (append-nil (text_of (f key))) refl

break_end : (s : Text) → IsLineEnd (13 ∷ 10 ∷ s)
unfolding read_from
break_end s = (inr refl, refl, refl)

read-lines :
    (key : Text) (keys : List Text) (f : Text → Value) (rows : List Row)
    → read_from front (
        join crlf (
          join comma (map (λ k. escape_csv_field (f k)) (key ∷ keys))
          ∷ map (line_of (key ∷ keys)) rows))
      ≡ record {
        field = text_of (f key);
        fields = map (λ k. text_of (f k)) keys;
        records = map (λ row. map (λ k. text_of (value_at k row)) (key ∷ keys)) rows;
      }
unfolding join line_of read_from
read-lines key keys f [] =
    ap (read_from front)
      (sym (append-nil (join comma (map (λ k. escape_csv_field (f k)) (key ∷ keys)))))
    ∙ read-line f key keys [] (tt, refl, refl)
read-lines key keys f (row ∷ rows) =
    let later = join crlf (map (line_of (key ∷ keys)) (row ∷ rows)) in
    read-line f key keys (13 ∷ 10 ∷ later) (break_end later)
    ∙ ap
        (λ r. record {
          field = text_of (f key);
          fields = map (λ k. text_of (f k)) keys;
          records = first_record r ∷ r.records;
        })
        (read-lines key keys (λ k. value_at k row) rows)

-- If there is at least one column, a reader of RFC 4180's format reads from the text of `toCsv`
-- the column names and, for each row, the texts of its values in the order of the columns, where
-- a missing value is the empty text, whatever commas, quotes and line breaks the names and values
-- contain.
pub parse_csv-to_csv :
    (rows : List Row) (columns : Option (List Text))
    → headers rows columns ≢ []
    → parse_csv (to_csv rows columns)
      ≡ headers rows columns
        ∷ map (λ row. map (λ key. text_of (value_at key row)) (headers rows columns)) rows
unfolding parse_csv to_csv
parse_csv-to_csv rows columns = named (headers rows columns)
  where
    same : (names : List Text) → map (λ k. k) names ≡ names
    same [] = refl
    same (k ∷ names) = ap (λ ns. k ∷ ns) (same names)

    named :
        (names : List Text)
        → names ≢ []
        → parse_csv (print_csv names rows)
          ≡ names ∷ map (λ row. map (λ key. text_of (value_at key row)) names) rows
    named [] h = absurd (h refl)
    named (name ∷ names) h =
        ap (λ r. first_record r ∷ r.records) (read-lines name names some rows)
        ∙ ap
            (λ ns.
              (name ∷ ns)
              ∷ map (λ row. map (λ key. text_of (value_at key row)) (name ∷ names)) rows)
            (same names)
