-- ===== src/Export/Cells.antt =====
-- The cells of the exports in packages/indexer/src/export.ts: quoting for CSV, the blanks of IIF and
-- the name of a file.
use stellar_agentic.Base.{
  ℕ, Bool, true, false, ◌&&◌, ◌||◌, Option, none, some, List, [], ◌∷◌, ◌++◌, ◌==◌, leb,
  if◌then◌else◌,
}
use stellar_agentic.Base.Numbers.{Bytes}

-- `/^[=+\-@]/`
abbrev pub is_formula : Bytes → Bool
is_formula [] = false
is_formula (c ∷ cs) = c == b'=' || c == b'+' || c == b'-' || c == b'@'

unfoldable pub text_cell : Bytes → Bytes
text_cell value = if is_formula value then b'\'' ∷ value else value

-- `.replace(/"/g, '""')`
unfoldable pub escape_quotes : Bytes → Bytes
escape_quotes [] = []
escape_quotes (c ∷ cs) =
    let rest = escape_quotes cs in if c == b'"' then b'"' ∷ b'"' ∷ rest else c ∷ rest

abbrev pub raw_text : Option Bytes → Bytes
raw_text none = []
raw_text (some s) = s

-- What a cell shows: the text, made inert where the column is textual.
unfoldable pub shown : Option Bytes → Bool → Bytes
unfolding text_cell
shown value textual = if textual then text_cell (raw_text value) else raw_text value

unfoldable pub csv_cell : Option Bytes → Bool → Bytes
unfolding shown escape_quotes
csv_cell value textual = b'"' ∷ escape_quotes (shown value textual) ++ b'"' ∷ []

-- `.join(separator)`
unfoldable pub join : ℕ → List Bytes → Bytes
join sep [] = []
join sep (x ∷ []) = x
join sep (x ∷ y ∷ ys) = x ++ sep ∷ join sep (y ∷ ys)

abbrev pub is_break : ℕ → Bool
is_break c = c == b'\t' || c == b'\r' || c == b'\n'

-- `.replace(/[\t\r\n]+/g, " ")`: the flag says that a run has begun.
unfoldable pub squash : Bool → Bytes → Bytes
squash run [] = []
squash run (c ∷ cs) =
    let inside = squash true cs in
    let outside = squash false cs in
    if is_break c then (if run then inside else b' ' ∷ inside) else c ∷ outside

unfoldable pub iif_cell : Option Bytes → Bytes
unfolding squash
iif_cell none = []
iif_cell (some s) = squash false s

abbrev pub is_safe : ℕ → Bool
is_safe c =
    leb b'A' c && leb c b'Z'
    || leb b'a' c && leb c b'z'
    || leb b'0' c && leb c b'9'
    || c == b'_'
    || c == b'.'
    || c == b'-'

-- `.replace(/[^A-Za-z0-9_.-]+/g, "_")`
unfoldable pub underscore : Bool → Bytes → Bytes
underscore run [] = []
underscore run (c ∷ cs) =
    let inside = underscore true cs in
    let outside = underscore false cs in
    if is_safe c then c ∷ outside else (if run then inside else b'_' ∷ inside)

unfoldable pub safe_name : Bytes → Bytes
unfolding underscore
safe_name s = underscore false s
