-- ===== src/Ledger/Samples.antt =====
-- A runtime, events and positions for the tests of the ledger of packages/indexer/src/ledger.ts.
use stellar_agentic.Base.{
  ℕ, ◌≡◌, refl, true, false, Option, none, some, List, [], ◌∷◌, Ordering, arith,
}
use stellar_agentic.Base.Int.{ℤ, pos, pos_part}
use stellar_agentic.Base.Numbers.{Bytes, whole, all_digits, bigint}
use stellar_agentic.Base.Texts.{codes, lexicographic}
use stellar_agentic.Ledger.Json.{JsonValue, object, field, string, end}
use stellar_agentic.Ledger.Snapshots.{is_le}
use stellar_agentic.Ledger.{
  Runtime, StoredEvent, DecodedEvent, channel_event, opened, paid, convpaid, state_channel,
  payment_channel, TransactionFee, BalancePosition, ReconciliationRequest,
}

pub lexicographic_reflected :
    (s t : Bytes) → is_le (lexicographic s t) ≡ false → lexicographic t s ≡ Ordering.lt
lexicographic_reflected [] [] h = cc
lexicographic_reflected [] (y ∷ ys) h = cc
lexicographic_reflected (x ∷ xs) [] h = refl
lexicographic_reflected (x ∷ xs) (y ∷ ys) h = ground (arith, lexicographic_reflected xs ys)

pub lexicographic_trans :
    (s t u : Bytes)
    → is_le (lexicographic s t) ≡ true
    → is_le (lexicographic t u) ≡ true
    → is_le (lexicographic s u) ≡ true
lexicographic_trans [] t [] h k = refl
lexicographic_trans [] t (z ∷ zs) h k = refl
lexicographic_trans (x ∷ xs) [] u h k = cc
lexicographic_trans (x ∷ xs) (y ∷ ys) [] h k = cc
lexicographic_trans (x ∷ xs) (y ∷ ys) (z ∷ zs) h k = ground (arith, lexicographic_trans xs ys zs)

-- Decimal digits, and nothing else.
unfoldable pub parse_digits : Bytes → Option ℤ
unfolding bigint
parse_digits s = elim (all_digits s) [ true ↦ some (pos (bigint s)) | false ↦ none ]

unfoldable pub runtime : Runtime
unfolding parse_digits
runtime = record { parse = parse_digits; print = λ z. pos_part z ∷ []; locale = lexicographic }

abbrev pub event_at : Bytes → ℕ → Bytes → Bytes → DecodedEvent → StoredEvent
event_at id ledger namespace action payload = record {
  event_id = id;
  contract_kind = payment_channel;
  contract_address = codes "C";
  ledger = ledger;
  ledger_closed_at = [];
  tx_hash = codes "t";
  paging_token = id;
  namespace = namespace;
  action = action;
  entity_type = none;
  entity_id = none;
  payload = payload;
}

abbrev state : JsonValue
state = object (
    field (codes "token") (string (codes "USD"))
      (field (codes "owner") (string (codes "O")) (field (codes "agent") (string (codes "A")) end)))

-- A channel's funding, a payment and a conversion of it, the latter with an amount that is no number,
-- and its state.
abbrev pub events : List StoredEvent
events =
    event_at (codes "3") 3 (codes "channel") (codes "convpaid") (
      channel_event (codes "c")
        (convpaid (codes "A") (codes "R") (codes "4") (codes "EUR") (codes "x") []))
    ∷ event_at (codes "2") 2 (codes "channel") (codes "paid")
        (channel_event (codes "c") (paid (codes "A") (codes "R") (codes "7") []))
    ∷ event_at (codes "1") 1 (codes "channel") (codes "opened")
        (channel_event (codes "c") (opened (codes "A") (codes "O") (codes "10")))
    ∷ event_at (codes "0") 1 (codes "state") (codes "channel") (state_channel (codes "c") state)
    ∷ []

abbrev pub fee : TransactionFee
fee = record {
  tx_hash = codes "t";
  ledger = 1;
  ledger_closed_at = [];
  payer = codes "A";
  charged = codes "5";
  asset = none;
  agent = none;
  owner = none;
}

abbrev pub fees : List TransactionFee
fees = fee ∷ []

abbrev pub event : StoredEvent
event =
    event_at (codes "2") 2 (codes "channel") (codes "paid")
      (channel_event (codes "c") (paid (codes "A") (codes "R") (codes "7") []))

abbrev position : Bytes → Bytes → Bytes → BalancePosition
position account asset value = record { account = account; asset = asset; amount = value }

-- The balances of the contract and of the recipient, at the third ledger.
abbrev pub request : ReconciliationRequest
request = record {
  from_ledger = none;
  as_of_ledger = whole (pos 3);
  opening_positions = none;
  on_chain_positions =
      position (codes "C") (codes "USD") (codes "3")
      ∷ position (codes "R") (codes "USD") (codes "7")
      ∷ [];
  accounts = some (codes "C" ∷ codes "R" ∷ []);
}
