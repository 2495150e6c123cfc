-- ===== src/Ledger/Channels.antt =====
-- The channel branch of `normalizeLedger` in packages/indexer/src/ledger.ts.
use stellar_agentic.Base.{Option, none, some, List, [], ◌∷◌, ◌++◌, Result, ok, err, ◌>>=◌}
use stellar_agentic.Base.Int.{ℤ}
use stellar_agentic.Base.Numbers.{Bytes}
use stellar_agentic.Base.Texts.{codes, truthy}
use stellar_agentic.Ledger.Entries.{
  LedgerError, amount, Posting, posting, EconomicContext, entry, issue,
}
use stellar_agentic.Ledger.Json.{JsonFields, text}
use stellar_agentic.Ledger.{
  Runtime, neg, StoredEvent, ChannelAction, opened, paid, convpaid, topup, closed, channel_funding,
  channel_top_up, channel_payment, channel_conversion, channel_refund, LedgerAccountRole,
  owner_role, recipient_role, contract_role, conversion_role, channel_reference, LedgerEntry,
  missing_channel_state, LedgerIssue,
}

-- What one event adds: nothing, an entry or an issue.
pub data Outcome : Type 0 where
  nothing : Outcome
  posted : LedgerEntry → Outcome
  reported : LedgerIssue → Outcome

-- An amount of an asset that goes from an account to another.
abbrev pub transfer :
    Bytes → LedgerAccountRole → Bytes → LedgerAccountRole → Bytes → ℤ → List Posting
transfer source source_role target target_role asset value =
    posting source source_role asset (neg value) ∷ posting target target_role asset value ∷ []

abbrev pub native_asset : Bytes
native_asset = codes "native:XLM"

abbrev pub network_account : Bytes
network_account = codes "stellar:network-fees"

-- `'owner' in payload`
abbrev pub payload_owner : ChannelAction → Option Bytes
payload_owner (opened _ owner _) = some owner
payload_owner (topup owner _) = some owner
payload_owner (closed owner _) = some owner
payload_owner _ = none

-- `'agent' in payload`
abbrev pub payload_agent : ChannelAction → Option Bytes
payload_agent (opened agent _ _) = some agent
payload_agent (paid agent _ _ _) = some agent
payload_agent (convpaid agent _ _ _ _ _) = some agent
payload_agent _ = none

-- `x in payload ? payload.x : y`
abbrev pub or_else : Option Bytes → Option Bytes → Option Bytes
or_else (some v) w = some v
or_else none w = w

abbrev pub or_value : Option Bytes → Bytes → Bytes
or_value (some v) w = v
or_value none w = w

abbrev pub all_three : Option Bytes → Option Bytes → Option Bytes → Option (Bytes × Bytes × Bytes)
all_three (some a) (some b) (some c) = some (a, b, c)
all_three _ _ _ = none

-- A context without a conversion.
abbrev pub simple_context :
    Bytes → Bytes → Bytes → Option Bytes → Bytes → ℤ → List Posting → EconomicContext
simple_context agent owner counterparty memo asset value postings = record {
  agent = some agent;
  owner = some owner;
  counterparty = some counterparty;
  source_asset = asset;
  source_amount = value;
  destination_asset = none;
  destination_amount = none;
  memo = memo;
  postings = postings;
  metadata = none;
}

abbrev pub post : Result LedgerError LedgerEntry → Result LedgerError Outcome
post (ok e) = ok (posted e)
post (err e) = err e

-- `issues.push(issue(event, "MISSING_CHANNEL_STATE", ...))`
unfoldable pub missing_channel : StoredEvent → Bytes → Outcome
unfolding issue
missing_channel event id = reported (
    issue event missing_channel_state
      (codes "channel " ++ id ++ codes " has no asset/owner/agent snapshot"))

-- The asset, the owner and the agent of a channel's event, none of them empty.
unfoldable pub channel_parties : Option JsonFields → ChannelAction → Option (Bytes × Bytes × Bytes)
unfolding text
channel_parties state action =
    all_three (truthy (text state (codes "token")))
      (truthy (or_else (payload_owner action) (text state (codes "owner"))))
      (truthy (or_else (payload_agent action) (text state (codes "agent"))))

module _ (rt : Runtime) where
  -- The entry of a channel's event, with the asset, the owner and the agent of its state.
  unfoldable pub channel_entry :
      StoredEvent → Bytes → Bytes → Bytes → Bytes → ChannelAction → Result LedgerError LedgerEntry
  channel_entry event id asset owner agent (opened _ _ deposit) = do
    value ← amount rt deposit event.event_id
    entry event channel_funding channel_reference id (
        simple_context agent owner event.contract_address none asset value
          (transfer owner owner_role event.contract_address contract_role asset value))
  channel_entry event id asset owner agent (topup _ added) = do
    value ← amount rt added event.event_id
    entry event channel_top_up channel_reference id (
        simple_context agent owner event.contract_address none asset value
          (transfer owner owner_role event.contract_address contract_role asset value))
  channel_entry event id asset owner agent (paid _ recipient spent memo) = do
    value ← amount rt spent event.event_id
    entry event channel_payment channel_reference id (
        simple_context agent owner recipient (some memo) asset value
          (transfer event.contract_address contract_role recipient recipient_role asset value))
  channel_entry event id asset owner agent (convpaid _ recipient spent token received memo) = do
    source ← amount rt spent event.event_id
    destination ← amount rt received event.event_id
    let clearing = codes "conversion:" ++ event.event_id
    entry event channel_conversion channel_reference id
        (record (simple_context agent owner recipient (some memo) asset source (
          transfer event.contract_address contract_role clearing conversion_role asset source
          ++ transfer clearing conversion_role recipient recipient_role token destination)) {
            destination_asset = some token;
            destination_amount = some destination;
          })
  channel_entry event id asset owner agent (closed _ refund) = do
    value ← amount rt refund event.event_id
    entry event channel_refund channel_reference id (
        simple_context agent owner owner none asset value
          (transfer event.contract_address contract_role owner owner_role asset value))

  unfoldable pub channel_outcome :
      StoredEvent
      → Bytes
      → ChannelAction
      → Option (Bytes × Bytes × Bytes)
      → Result LedgerError Outcome
  channel_outcome event id action none = ok (missing_channel event id)
  channel_outcome event id action (some (asset, owner, agent)) =
      post (channel_entry event id asset owner agent action)

  unfoldable pub handle_channel :
      StoredEvent → Bytes → Option JsonFields → ChannelAction → Result LedgerError Outcome
  handle_channel event id state action =
      channel_outcome event id action (channel_parties state action)
