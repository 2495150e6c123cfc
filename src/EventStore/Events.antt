-- ===== src/EventStore/Events.antt =====
-- The operations of `InMemoryEventStore` in packages/indexer/src/store.ts that read its events.
use stellar_agentic.Base.{
  ℕ, Bool, true, false, ◌&&◌, ◌||◌, Option, none, some, List, [], ◌∷◌, keep, first, length,
  if◌then◌else◌, Result, ok, err, ◌>>=◌,
}
use stellar_agentic.Base.Int.{ℤ, pos, ◌+ℤ◌}
use stellar_agentic.Base.Numbers.{Bytes}
use stellar_agentic.Base.Sorting.{sort}
use stellar_agentic.Base.Texts.{same_bytes, codes, get, member}
use stellar_agentic.EventStore.{Store, Participant, StoreError, bad_payment, values_of}
use stellar_agentic.Ledger.Json.{JsonValue}
use stellar_agentic.Ledger.Normalize.{event_le}
use stellar_agentic.Ledger.Snapshots.{compare_position, is_le, payload_state}
use stellar_agentic.Ledger.{
  Runtime, StoredEvent, DecodedEvent, channel_event, paid, convpaid, EntityType, channel_entity,
  job_entity, agent_entity,
}

abbrev same_entity : EntityType → EntityType → Bool
same_entity channel_entity channel_entity = true
same_entity job_entity job_entity = true
same_entity agent_entity agent_entity = true
same_entity _ _ = false

abbrev is_entity : EntityType → StoredEvent → Bool
is_entity t e = elim e.entity_type [ none ↦ false | some u ↦ same_entity u t ]

abbrev has_entity_id : Bytes → StoredEvent → Bool
has_entity_id i e = elim e.entity_id [ none ↦ false | some j ↦ same_bytes j i ]

abbrev parties_of : Store → Bytes → List Participant
parties_of s i = elim (get i s.parties) [ none ↦ [] | some ps ↦ ps ]

some_party : (Participant → Bool) → List Participant → Bool
some_party f [] = false
some_party f (p ∷ ps) = f p || some_party f ps

-- The agents that the address was created for.
created_agents : Store → Bytes → List StoredEvent → List Bytes
unfolding some_party
created_agents s a [] = []
created_agents s a (e ∷ es) =
    let rest = created_agents s a es in
    if same_bytes e.namespace (codes "factory")
      && same_bytes e.action (codes "created")
      && is_entity agent_entity e
      && some_party (λ p. same_bytes p.role (codes "agent") && same_bytes p.address a)
          (parties_of s e.event_id)
    then elim e.entity_id [ some (c ∷ cs) ↦ (c ∷ cs) ∷ rest | _ ↦ rest ]
    else rest

abbrev is_created : List Bytes → StoredEvent → Bool
is_created ids e =
    is_entity agent_entity e && elim e.entity_id [ none ↦ false | some i ↦ member i ids ]

module _ (rt : Runtime) where
  unfoldable pub events_for_agent : Store → Bytes → List StoredEvent
  unfolding created_agents some_party
  events_for_agent s a =
      let ids = created_agents s a (values_of s.events) in
      sort (event_le rt) (
        keep
          (λ e.
            some_party (λ p. same_bytes p.address a) (parties_of s e.event_id) || is_created ids e)
          (values_of s.events))

pub record ChannelSpend : Type 0 where
  pub channel_id : Bytes
  pub total_spent : ℤ
  pub payments : List StoredEvent

-- `payload.amount` of a payment; the action of a stored event is the one of its payload.
payment_amount : DecodedEvent → Option Bytes
payment_amount (channel_event _ (paid _ _ spent _)) = some spent
payment_amount (channel_event _ (convpaid _ _ spent _ _ _)) = some spent
payment_amount _ = none

module _ (rt : Runtime) where
  parsed_amount : Option Bytes → Option ℤ
  parsed_amount none = none
  parsed_amount (some s) = rt.parse s

  -- The sum, which throws at an amount that is no integer.
  unfoldable pub sum_payments : List StoredEvent → ℤ → Result StoreError ℤ
  unfolding payment_amount parsed_amount
  sum_payments [] sum = ok sum
  sum_payments (e ∷ es) sum = elim (parsed_amount (payment_amount e.payload)) [
    | none ↦ err bad_payment
    | some z ↦ sum_payments es (sum +ℤ z)
  ]

  abbrev is_payment : Bytes → StoredEvent → Bool
  is_payment i e =
      is_entity channel_entity e
      && has_entity_id i e
      && (same_bytes e.action (codes "paid") || same_bytes e.action (codes "convpaid"))

  unfoldable pub spend_history : Store → Bytes → Result StoreError ChannelSpend
  unfolding sum_payments
  spend_history s i = do
    let payments = sort (event_le rt) (keep (is_payment i) (values_of s.events))
    total ← sum_payments payments (pos 0)
    ok (record { channel_id = i; total_spent = total; payments = payments })

pub data JobStatus : Type 0 where
  open_job in_progress pending_release completed refunded_job disputed_job unknown_job : JobStatus

pub record JobLifecycle : Type 0 where
  pub job_id : Bytes
  pub status : JobStatus
  pub events : List StoredEvent

-- The status that an action leads to.
unfoldable pub next_status : Bytes → JobStatus → JobStatus
next_status action status =
    if same_bytes action (codes "created")
    then open_job
    else if same_bytes action (codes "accepted")
    then in_progress
    else if same_bytes action (codes "result")
    then pending_release
    else if same_bytes action (codes "released")
    then completed
    else if same_bytes action (codes "refunded")
    then refunded_job
    else if same_bytes action (codes "disputed")
    then disputed_job
    else status

unfoldable pub status_after : List StoredEvent → JobStatus → JobStatus
unfolding next_status
status_after [] status = status
status_after (e ∷ es) status = status_after es (next_status e.action status)

module _ (rt : Runtime) where
  unfoldable pub job_lifecycle : Store → Bytes → JobLifecycle
  unfolding status_after
  job_lifecycle s i =
      let events = sort (event_le rt) (
        keep
          (λ e.
            is_entity job_entity e && has_entity_id i e && same_bytes e.namespace (codes "escrow"))
          (values_of s.events)) in
      record { job_id = i; status = status_after events unknown_job; events = events }

  abbrev newest_le : StoredEvent → StoredEvent → Bool
  newest_le a b = is_le (compare_position rt b.ledger b.paging_token a.ledger a.paging_token)

  -- The state of the newest snapshot of an entity.
  unfoldable pub latest_snapshot_of : Store → Bytes → EntityType → Bytes → Option JsonValue
  latest_snapshot_of s action t i =
      elim (first (
        sort newest_le (
          keep
            (λ e.
              same_bytes e.namespace (codes "state")
              && same_bytes e.action action
              && is_entity t e
              && has_entity_id i e)
            (values_of s.events)))) [ none ↦ none | some e ↦ payload_state e.payload ]

  unfoldable pub channel_state : Store → Bytes → Option JsonValue
  unfolding latest_snapshot_of
  channel_state s i = latest_snapshot_of s (codes "channel") channel_entity i

  unfoldable pub job_state : Store → Bytes → Option JsonValue
  unfolding latest_snapshot_of
  job_state s i = latest_snapshot_of s (codes "job") job_entity i

  unfoldable pub rate_limit_state : Store → Bytes → Option JsonValue
  unfolding latest_snapshot_of
  rate_limit_state s i = latest_snapshot_of s (codes "limit") agent_entity i

  unfoldable pub agent_info_state : Store → Bytes → Option JsonValue
  unfolding latest_snapshot_of
  agent_info_state s i = latest_snapshot_of s (codes "agent") agent_entity i

unfoldable pub event_count : Store → ℕ
event_count s = length s.events
