-- ===== src/Export/Iif.antt =====
-- The rows of the IIF export and the names of files in packages/indexer/src/export.ts.
use stellar_agentic.Base.{
  is_nil, append_nil, All-append, ℕ, ◌≡◌, refl, sym, ap, ap₂, length, ◌∙◌, Bool, true, false,
  Option, none, some, List, [], ◌∷◌, ◌++◌, map, ◌==◌, if◌then◌else◌, Bool-cases, inl, inr, arith,
  All, All-append,
}
use stellar_agentic.Base.Numbers.{Bytes}
use stellar_agentic.Export.Cells.{is_break, squash, iif_cell, join, is_safe, underscore, safe_name}
use stellar_agentic.Export.{
  StatementExportFormat, csv, json, iif, describe_statement_export, IifRow, UtcDate, trns, spl,
  endtrns, iif_values, iif_data_row,
}
use stellar_agentic.Ledger.{Runtime}
use stellar_agentic.Statement.{Statement, StatementLine}

abbrev cons_byte : ℕ → List Bytes → List Bytes
cons_byte c [] = (c ∷ []) ∷ []
cons_byte c (x ∷ xs) = (c ∷ x) ∷ xs

-- The parts of a line between its tabs.
unfoldable pub split_tabs : Bytes → List Bytes
split_tabs [] = [] ∷ []
split_tabs (c ∷ cs) = let rest = split_tabs cs in if c == b'\t' then [] ∷ rest else cons_byte c rest

abbrev HasNoBreak : Bytes → Type 0
HasNoBreak s = All (λ c. is_break c ≡ false) s

squash-HasNoBreak : (run : Bool) (s : Bytes) → HasNoBreak (squash run s)
unfolding squash
squash-HasNoBreak run [] = tt
squash-HasNoBreak run (c ∷ cs) = elim (Bool-cases (is_break c)) [
  | inl e ↦ elim (Bool-cases run) [
    | inl t ↦ rw (e, t) (squash-HasNoBreak true cs)
    | inr t ↦ rw (e, t) (refl, squash-HasNoBreak true cs)
  ]
  | inr e ↦ rw e (e, squash-HasNoBreak false cs)
]

iif_cell-HasNoBreak : (v : Option Bytes) → HasNoBreak (iif_cell v)
unfolding iif_cell
iif_cell-HasNoBreak none = tt
iif_cell-HasNoBreak (some s) = squash-HasNoBreak false s

abbrev prepend : Bytes → List Bytes → List Bytes
prepend [] xs = xs
prepend (c ∷ cs) xs = cons_byte c (prepend cs xs)

prepend-cons : (s x : Bytes) (xs : List Bytes) → prepend s (x ∷ xs) ≡ (s ++ x) ∷ xs
prepend-cons [] x xs = refl
prepend-cons (c ∷ cs) x xs = ap (cons_byte c) (prepend-cons cs x xs)

no_tab : (c : ℕ) → is_break c ≡ false → (c == b'\t') ≡ false
no_tab c h = ground arith

split-append :
    (s rest : Bytes) → HasNoBreak s → split_tabs (s ++ rest) ≡ prepend s (split_tabs rest)
unfolding split_tabs
split-append [] rest h = refl
split-append (c ∷ cs) rest h = rw (no_tab c h.0) (ap (cons_byte c) (split-append cs rest h.1))

split-join :
    (v : Option Bytes) (vs : List (Option Bytes))
    → split_tabs (join b'\t' (map iif_cell (v ∷ vs))) ≡ map iif_cell (v ∷ vs)
unfolding join split_tabs
split-join v [] =
    ap split_tabs (sym (append_nil (iif_cell v)))
    ∙ split-append (iif_cell v) [] (iif_cell-HasNoBreak v)
    ∙ prepend-cons (iif_cell v) [] []
    ∙ ap (λ s. s ∷ []) (append_nil (iif_cell v))
split-join v (w ∷ ws) =
    let rest = join b'\t' (map iif_cell (w ∷ ws)) in
    split-append (iif_cell v) (b'\t' ∷ rest) (iif_cell-HasNoBreak v)
    ∙ prepend-cons (iif_cell v) [] (split_tabs rest)
    ∙ ap₂ (λ s ss. s ∷ ss) (append_nil (iif_cell v)) (split-join w ws)

split_values :
    (vs : List (Option Bytes))
    → is_nil vs ≡ false
    → split_tabs (join b'\t' (map iif_cell vs)) ≡ map iif_cell vs
split_values [] h = cc
split_values (v ∷ vs) h = split-join v vs

-- A data row of the IIF export splits at its tabs into the cells of its ten values, in their order,
-- whatever the texts of the line are.
pub iif_data_row-split :
    (rt : Runtime) (utc : Bytes → Option UtcDate) (t : IifRow) (s : Statement) (l : StatementLine)
    → (split_tabs (iif_data_row rt utc t s l) ≡ map iif_cell (iif_values rt utc t s l))
      × (length (iif_values rt utc t s l) ≡ 10)
unfolding iif_data_row iif_values
iif_data_row-split rt utc trns s l = (split_values (iif_values rt utc trns s l) refl, refl)
iif_data_row-split rt utc spl s l = (split_values (iif_values rt utc spl s l) refl, refl)
iif_data_row-split rt utc endtrns s l = (split_values (iif_values rt utc endtrns s l) refl, refl)

underscore-safe : (run : Bool) (s : Bytes) → All (λ c. is_safe c ≡ true) (underscore run s)
unfolding underscore
underscore-safe run [] = tt
underscore-safe run (c ∷ cs) = elim (Bool-cases (is_safe c)) [
  | inl e ↦ rw e (e, underscore-safe false cs)
  | inr e ↦ elim (Bool-cases run) [
    | inl t ↦ rw (e, t) (underscore-safe true cs)
    | inr t ↦ rw (e, t) (refl, underscore-safe true cs)
  ]
]

-- The name of a file is made of letters, digits, dots, dashes and underscores only: of the id of the
-- statement, no separator of paths and no blank gets into it.
pub filename-safe :
    (s : Statement) (f : StatementExportFormat)
    → All (λ c. is_safe c ≡ true) (describe_statement_export s f).filename
unfolding describe_statement_export safe_name
filename-safe s csv =
    All-append _ _ _ (underscore-safe false s.statement_id) (refl, (refl, (refl, (refl, tt))))
filename-safe s json =
    All-append _ _ _ (underscore-safe false s.statement_id)
      (refl, (refl, (refl, (refl, (refl, (refl, tt))))))
filename-safe s iif =
    All-append _ _ _ (underscore-safe false s.statement_id) (refl, (refl, (refl, (refl, tt))))
