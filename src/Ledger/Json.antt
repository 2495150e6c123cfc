-- ===== src/Ledger/Json.antt =====
-- `JsonValue` of packages/indexer/src/types.ts, and the readers of a state in
-- packages/indexer/src/ledger.ts.
use stellar_agentic.Base.{Bool, Option, none, some, if◌then◌else◌}
use stellar_agentic.Base.Numbers.{Bytes, Number}
use stellar_agentic.Base.Texts.{same_bytes, codes}

mutual
  pub data JsonValue : Type 0 where
    null : JsonValue
    boolean : Bool → JsonValue
    number : Number → JsonValue
    string : Bytes → JsonValue
    array : JsonArray → JsonValue
    object : JsonFields → JsonValue

  pub data JsonArray : Type 0 where
    nil : JsonArray
    cons : JsonValue → JsonArray → JsonArray

  pub data JsonFields : Type 0 where
    end : JsonFields
    field : Bytes → JsonValue → JsonFields → JsonFields

-- `value[key]` of an object.
abbrev pub get_field : Bytes → JsonFields → Option JsonValue
get_field k end = none
get_field k (field j v fs) = if same_bytes j k then some v else get_field k fs

-- `object`
abbrev pub fields_of : Option JsonValue → Option JsonFields
fields_of (some (object fs)) = some fs
fields_of _ = none

-- `state?.[key]`
abbrev pub state_field : Option JsonFields → Bytes → Option JsonValue
state_field none k = none
state_field (some fs) k = get_field k fs

abbrev pub string_of : Option JsonValue → Option Bytes
string_of (some (string s)) = some s
string_of _ = none

unfoldable pub text : Option JsonFields → Bytes → Option Bytes
text state key = string_of (state_field state key)

-- The content of a value `{ Some: ... }`, as a text or as an array that starts with one.
some_text : Option JsonValue → Option Bytes
some_text (some (string s)) = some s
some_text (some (array (cons (string s) _))) = some s
some_text _ = none

unfoldable pub optional_text : Option JsonFields → Bytes → Option Bytes
unfolding some_text
optional_text state key = elim (state_field state key) [
  | some (string s) ↦ some s
  | v ↦ some_text (state_field (fields_of v) (codes "Some"))
]
