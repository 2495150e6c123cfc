-- ===== src/Export/Csv.antt =====
-- Reading back what the CSV export of packages/indexer/src/export.ts writes, and what a spreadsheet
-- makes of its cells.
use stellar_agentic.Base.{
  ℕ, ◌≡◌, refl, sym, ap, ◌∙◌, Bool, true, false, Option, none, some, List, [], ◌∷◌, ◌++◌, map, ◌==◌,
  ==_iff, if◌then◌else◌, Bool-cases, inl, inr, is_nil, append_nil, append_assoc,
}
use stellar_agentic.Base.Numbers.{Bytes}
use stellar_agentic.Export.Cells.{
  is_formula, text_cell, escape_quotes, raw_text, shown, csv_cell, join,
}
use stellar_agentic.Export.{VerifiableExportRow, csv_values, csv_row}
use stellar_agentic.Ledger.{Runtime}

-- A reader of quoted records: before a cell, inside one, and at a quote inside one.
pub data Reading : Type 0 where
  before inside at_quote : Reading

abbrev pub cons_byte : ℕ → Option (List Bytes) → Option (List Bytes)
cons_byte c (some (x ∷ xs)) = some ((c ∷ x) ∷ xs)
cons_byte c _ = none

abbrev pub cons_cell : Option (List Bytes) → Option (List Bytes)
cons_cell none = none
cons_cell (some xs) = some ([] ∷ xs)

-- The cells of a record: separated by commas, each in quotes, a quote inside written twice.
unfoldable pub read_record : Reading → Bytes → Option (List Bytes)
read_record before [] = none
read_record before (c ∷ cs) = if c == b'"' then read_record inside cs else none
read_record inside [] = none
read_record inside (c ∷ cs) =
    let quoted = read_record at_quote cs in
    let more = cons_byte c (read_record inside cs) in if c == b'"' then quoted else more
read_record at_quote [] = some ([] ∷ [])
read_record at_quote (c ∷ cs) =
    let more = cons_byte b'"' (read_record inside cs) in
    let next = cons_cell (read_record before cs) in
    if c == b'"' then more else if c == b',' then next else none

-- The text in front of the first cell.
abbrev prepend : Bytes → Option (List Bytes) → Option (List Bytes)
prepend [] o = o
prepend (c ∷ cs) o = cons_byte c (prepend cs o)

read-escape_quotes :
    (s rest : Bytes)
    → read_record inside (escape_quotes s ++ b'"' ∷ rest) ≡ prepend s (read_record at_quote rest)
unfolding read_record escape_quotes
read-escape_quotes [] rest = refl
read-escape_quotes (c ∷ cs) rest = elim (Bool-cases (c == b'"')) [
  | inl e ↦ rw (e) (
      ap (cons_byte b'"') (read-escape_quotes cs rest)
      ∙ ap (λ d. cons_byte d (prepend cs (read_record at_quote rest))) (sym ((==_iff c b'"').0 e)))
  | inr e ↦ rw (e, e) (ap (cons_byte c) (read-escape_quotes cs rest))
]

prepend-some :
    (s : Bytes) (x : Bytes) (xs : List Bytes) → prepend s (some (x ∷ xs)) ≡ some ((s ++ x) ∷ xs)
prepend-some [] x xs = refl
prepend-some (c ∷ cs) x xs = ap (cons_byte c) (prepend-some cs x xs)

abbrev cells_of : List (Option Bytes × Bool) → List Bytes
cells_of cs = map (λ c. csv_cell c.0 c.1) cs

abbrev pub shown_of : List (Option Bytes × Bool) → List Bytes
shown_of cs = map (λ c. shown c.0 c.1) cs

-- A record of cells is read back as what the cells show.
pub read_record-join :
    (c : Option Bytes × Bool) (cs : List (Option Bytes × Bool))
    → read_record before (join b',' (cells_of (c ∷ cs))) ≡ some (shown_of (c ∷ cs))
unfolding read_record join csv_cell
read_record-join c [] =
    read-escape_quotes (shown c.0 c.1) []
    ∙ prepend-some (shown c.0 c.1) [] []
    ∙ ap (λ s. some (s ∷ [])) (append_nil (shown c.0 c.1))
read_record-join c (d ∷ ds) =
    let s = shown c.0 c.1 in
    let rest = join b',' (cells_of (d ∷ ds)) in
    ap (read_record inside) (append_assoc (escape_quotes s) (b'"' ∷ []) (b',' ∷ rest))
    ∙ read-escape_quotes s (b',' ∷ rest)
    ∙ ap (λ o. prepend s (cons_cell o)) (read_record-join d ds)
    ∙ prepend-some s [] (shown_of (d ∷ ds))
    ∙ ap (λ t. some (t ∷ shown_of (d ∷ ds))) (append_nil s)

read_values :
    (cs : List (Option Bytes × Bool))
    → is_nil cs ≡ false
    → read_record before (join b',' (cells_of cs)) ≡ some (shown_of cs)
read_values [] h = cc
read_values (c ∷ cs) h = read_record-join c cs

-- A row of the CSV export, read by a reader of quoted records, gives back the texts that its columns
-- show, in their order: no comma, quote or line break in a value changes the columns.
pub csv_row-read :
    (rt : Runtime) (v : VerifiableExportRow)
    → read_record before (csv_row rt v) ≡ some (shown_of (csv_values rt v))
unfolding csv_row csv_values
csv_row-read rt v = read_values (csv_values rt v) refl

-- What a spreadsheet reads as a formula stands in no textual cell: such a cell does not begin with
-- one of `=`, `+`, `-` and `@`, whatever the value is.
pub shown_inert : (value : Option Bytes) → is_formula (shown value true) ≡ false
unfolding shown text_cell
shown_inert value = elim (Bool-cases (is_formula (raw_text value))) [
  | inl e ↦ rw e refl
  | inr e ↦ rw (e, e) refl
]
