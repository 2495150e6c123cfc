-- ===== src/Ledger/Snapshots.antt =====
-- The state snapshots among the events of packages/indexer/src/ledger.ts, and the one that holds at
-- an event.
use Prim.Native.Nat.{compare}
use stellar_agentic.Base.{
  ℕ, Bool, true, false, not, ◌||◌, Option, none, some, List, [], ◌∷◌, ◌++◌, map, Ordering,
  if◌then◌else◌,
}
use stellar_agentic.Base.Numbers.{Bytes}
use stellar_agentic.Base.Sorting.{sort}
use stellar_agentic.Base.Texts.{same_bytes, codes, truthy, Dict, get, put}
use stellar_agentic.Ledger.Json.{JsonValue, JsonFields, fields_of}
use stellar_agentic.Ledger.{
  Runtime, StoredEvent, DecodedEvent, channel_event, escrow_event, state_channel, state_job,
  state_limit, state_agent,
}

pub record Snapshot : Type 0 where
  pub ledger : ℕ
  pub paging_token : Bytes
  pub tx_hash : Bytes
  pub state : JsonFields

-- The two kinds of snapshot that are collected.
pub data SnapshotAction : Type 0 where
  channel job : SnapshotAction

abbrev action_text : SnapshotAction → Bytes
action_text channel = codes "channel"
action_text job = codes "job"

-- `payload.channelId` or `payload.jobId`, if the payload has it.
abbrev pub payload_id : SnapshotAction → DecodedEvent → Option Bytes
payload_id channel (channel_event i _) = some i
payload_id channel (state_channel i _) = some i
payload_id job (escrow_event i _) = some i
payload_id job (state_job i _) = some i
payload_id _ _ = none

-- `payload.state`, if the payload has it.
abbrev pub payload_state : DecodedEvent → Option JsonValue
payload_state (state_channel _ s) = some s
payload_state (state_job _ s) = some s
payload_state (state_limit _ s) = some s
payload_state (state_agent _ s) = some s
payload_state _ = none

module _ (rt : Runtime) where
  -- The comparator of ledgers and paging tokens, by the sign of what it returns.
  abbrev pub compare_position : ℕ → Bytes → ℕ → Bytes → Ordering
  compare_position l t m u = elim (compare l m) [
    | Ordering.eq ↦ rt.locale t u
    | Ordering.lt ↦ Ordering.lt
    | Ordering.gt ↦ Ordering.gt
  ]

abbrev pub is_lt : Ordering → Bool
is_lt Ordering.lt = true
is_lt _ = false

abbrev pub is_le : Ordering → Bool
is_le Ordering.gt = false
is_le _ = true

module _ (rt : Runtime) where
  abbrev pub snapshot_le : Snapshot → Snapshot → Bool
  snapshot_le a b = is_le (compare_position rt a.ledger a.paging_token b.ledger b.paging_token)

  abbrev or_empty : Option (List Snapshot) → List Snapshot
  or_empty none = []
  or_empty (some vs) = vs

  -- The snapshot that an event carries, with the id of what it is of.
  unfoldable pub snapshot_of : SnapshotAction → StoredEvent → Option (Bytes × Snapshot)
  snapshot_of a e =
      if not (same_bytes e.namespace (codes "state")) || not (same_bytes e.action (action_text a))
      then none
      else elim (truthy (payload_id a e.payload)) [
        | none ↦ none
        | some i ↦ elim (fields_of (payload_state e.payload)) [
          | none ↦ none
          | some fs ↦ some (
            i,
            record {
              ledger = e.ledger;
              paging_token = e.paging_token;
              tx_hash = e.tx_hash;
              state = fs;
            },
          )
        ]
      ]

  add_snapshot : Option (Bytes × Snapshot) → Dict (List Snapshot) → Dict (List Snapshot)
  add_snapshot none d = d
  add_snapshot (some (i, s)) d = put i (or_empty (get i d) ++ s ∷ []) d

  -- The loop over the events.
  collect_snapshots :
      SnapshotAction → List StoredEvent → Dict (List Snapshot) → Dict (List Snapshot)
  unfolding add_snapshot
  collect_snapshots a [] d = d
  collect_snapshots a (e ∷ es) d = collect_snapshots a es (add_snapshot (snapshot_of a e) d)

  unfoldable pub snapshots : List StoredEvent → SnapshotAction → Dict (List Snapshot)
  unfolding collect_snapshots
  snapshots events a = map (λ p. (p.0, sort snapshot_le p.1)) (collect_snapshots a events [])

  same_transaction : Bytes → List Snapshot → Option Snapshot
  same_transaction tx [] = none
  same_transaction tx (s ∷ ss) = if same_bytes s.tx_hash tx then some s else same_transaction tx ss

  -- The loop that stops at the first snapshot behind the event.
  latest_snapshot : StoredEvent → List Snapshot → Option Snapshot → Option Snapshot
  latest_snapshot e [] latest = latest
  latest_snapshot e (s ∷ ss) latest =
      let rest = latest_snapshot e ss (some s) in
      if is_lt (compare_position rt e.ledger e.paging_token s.ledger s.paging_token)
      then latest
      else rest

  abbrev state_in : Option Snapshot → Option JsonFields
  state_in none = none
  state_in (some s) = some s.state

  unfoldable pub state_for : StoredEvent → Option (List Snapshot) → Option JsonFields
  unfolding same_transaction latest_snapshot
  state_for e none = none
  state_for e (some vs) = elim (same_transaction e.tx_hash vs) [
    | some s ↦ some s.state
    | none ↦ state_in (latest_snapshot e vs none)
  ]
