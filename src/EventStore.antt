-- ===== src/EventStore.antt =====
-- packages/indexer/src/store.ts, `class InMemoryEventStore`: its maps and its operations, over the
-- ledger and the statements. The raw XDR of an event is left out. The ledgers of a range are natural
-- numbers.
pub mod Queries
pub mod Events
pub mod Refresh
pub mod Fees
pub mod Batches
pub mod Reports
pub mod Keys
pub mod Ranges
mod Tests
use stellar_agentic.Base.{
  drop, first_of, ℕ, zero, suc, ◌+◌, Bool, true, false, not, ◌&&◌, ◌||◌, Option, none, some, List,
  [], ◌∷◌, ◌++◌, map, keep, ltb, leb, if◌then◌else◌,
}
use stellar_agentic.Base.Int.{ℤ, pos, ltb_ℤ}
use stellar_agentic.Base.Numbers.{Bytes, Number, whole, natural, is_safe_integer, ltb_number}
use stellar_agentic.Base.Sorting.{sort}
use stellar_agentic.Base.Texts.{same_bytes, codes, Dict, get, put, member}
use stellar_agentic.Ledger.Json.{JsonValue, JsonFields, object, string, get_field}
use stellar_agentic.Ledger.Normalize.{event_le, normalize_ledger}
use stellar_agentic.Ledger.Snapshots.{compare_position, is_le, payload_state}
use stellar_agentic.Ledger.{
  Runtime, ContractKind, StoredEvent, DecodedEvent, channel_event, escrow_event, rl_recorded,
  rl_killed, factory_created, factory_deactivated, factory_reactivated, state_channel, state_job,
  state_limit, state_agent, ChannelAction, opened, paid, convpaid, topup, closed, EscrowAction,
  created, accepted, result, released, refunded, disputed, resolved, EntityType, channel_entity,
  job_entity, agent_entity, LedgerEntry, LedgerIssue, TransactionFee, NormalizedLedger,
}

-- An event as the decoder gives it: its metadata and its payload.
pub record IncomingEvent : Type 0 where
  pub event_id : Bytes
  pub contract_kind : ContractKind
  pub contract_address : Bytes
  pub ledger : ℕ
  pub ledger_closed_at : Bytes
  pub tx_hash : Bytes
  pub paging_token : Bytes
  pub namespace : Bytes
  pub action : Bytes
  pub payload : DecodedEvent

-- By the id that the payload has.
unfoldable pub entity : DecodedEvent → EntityType × Bytes
entity (channel_event i _) = (channel_entity, i)
entity (escrow_event i _) = (job_entity, i)
entity (rl_recorded a _) = (agent_entity, a)
entity (rl_killed a) = (agent_entity, a)
entity (factory_created i _ _) = (agent_entity, i)
entity (factory_deactivated i _) = (agent_entity, i)
entity (factory_reactivated i _) = (agent_entity, i)
entity (state_channel i _) = (channel_entity, i)
entity (state_job i _) = (job_entity, i)
entity (state_limit a _) = (agent_entity, a)
entity (state_agent i _) = (agent_entity, i)

pub record Participant : Type 0 where
  pub address : Bytes
  pub role : Bytes

abbrev at : Bytes → Bytes → Participant
at address role = record { address = address; role = role }

-- The fields of a payload that name an address, in the order of their roles.
unfoldable pub named_participants : DecodedEvent → List Participant
named_participants (channel_event _ (opened a o _)) =
    at a (codes "agent") ∷ at o (codes "owner") ∷ []
named_participants (channel_event _ (paid a r _ _)) =
    at a (codes "agent") ∷ at r (codes "recipient") ∷ []
named_participants (channel_event _ (convpaid a r _ _ _ _)) =
    at a (codes "agent") ∷ at r (codes "recipient") ∷ []
named_participants (channel_event _ (topup o _)) = at o (codes "owner") ∷ []
named_participants (channel_event _ (closed o _)) = at o (codes "owner") ∷ []
named_participants (escrow_event _ (created r _)) = at r (codes "requester") ∷ []
named_participants (escrow_event _ (accepted w)) = at w (codes "worker") ∷ []
named_participants (escrow_event _ (result w)) = at w (codes "worker") ∷ []
named_participants (escrow_event _ (released w _)) = at w (codes "worker") ∷ []
named_participants (escrow_event _ (refunded r _)) = at r (codes "requester") ∷ []
named_participants (escrow_event _ (disputed r)) = at r (codes "requester") ∷ []
named_participants (escrow_event _ (resolved _ _)) = []
named_participants (rl_recorded a _) = at a (codes "agent") ∷ []
named_participants (rl_killed a) = at a (codes "agent") ∷ []
named_participants (factory_created _ a o) = at a (codes "agent") ∷ at o (codes "owner") ∷ []
named_participants (factory_deactivated _ o) = at o (codes "owner") ∷ []
named_participants (factory_reactivated _ o) = at o (codes "owner") ∷ []
named_participants (state_limit a _) = at a (codes "agent") ∷ []
named_participants _ = []

abbrev state_roles : List Bytes
state_roles =
    codes "agent"
    ∷ codes "address"
    ∷ codes "owner"
    ∷ codes "recipient"
    ∷ codes "requester"
    ∷ codes "worker"
    ∷ codes "arbiter"
    ∷ []

in_role : Option JsonValue → Bytes → List Participant
in_role (some (string s)) role = at s role ∷ []
in_role _ role = []

field_participants : JsonFields → List Bytes → List Participant
unfolding in_role
field_participants fs [] = []
field_participants fs (r ∷ rs) = in_role (get_field r fs) r ++ field_participants fs rs

unfoldable pub state_participants : JsonValue → List Participant
unfolding field_participants
state_participants (object fs) = field_participants fs state_roles
state_participants _ = []

of_state : Option JsonValue → List Participant
unfolding state_participants
of_state none = []
of_state (some v) = state_participants v

unfoldable pub participants : DecodedEvent → List Participant
unfolding named_participants of_state
participants e = named_participants e ++ of_state (payload_state e)

pub record Store : Type 0 where
  pub events : Dict StoredEvent
  pub parties : Dict (List Participant)
  pub checkpoints : Dict ℕ
  pub fees : Dict TransactionFee
  pub cached_entries : List LedgerEntry
  pub cached_issues : List LedgerIssue

unfoldable pub empty_store : Store
empty_store = record {
  events = [];
  parties = [];
  checkpoints = [];
  fees = [];
  cached_entries = [];
  cached_issues = [];
}

unfoldable pub checkpoint : Store → Bytes → Option ℕ
checkpoint s stream = get stream s.checkpoints

-- The values of a map, in its order.
abbrev pub values_of {ℓ} : {V : Type ℓ} → Dict V → List V
values_of [] = []
values_of ((_, v) ∷ d) = v ∷ values_of d

abbrev pub within_range : ℕ → ℕ → ℕ → Bool
within_range lo hi l = leb lo l && leb l hi

-- `Map.prototype.delete` for each of the keys.
abbrev without : List Bytes → Dict (List Participant) → Dict (List Participant)
without ids d = keep (λ p. not (member p.0 ids)) d

ids_within : ℕ → ℕ → Dict StoredEvent → List Bytes
ids_within lo hi [] = []
ids_within lo hi ((i, e) ∷ d) =
    if within_range lo hi (StoredEvent.ledger e) then i ∷ ids_within lo hi d else ids_within lo hi d

-- The two loops that delete what the range holds.
unfoldable pub delete_range : ℕ → ℕ → Store → Store
unfolding ids_within
delete_range lo hi s = record s {
  events = keep (λ p. not (within_range lo hi (StoredEvent.ledger p.1))) s.events;
  parties = without (ids_within lo hi s.events) s.parties;
  fees = keep (λ p. not (within_range lo hi (TransactionFee.ledger p.1))) s.fees;
}

unfoldable pub stored : IncomingEvent → StoredEvent
unfolding entity
stored e = record {
  event_id = e.event_id;
  contract_kind = e.contract_kind;
  contract_address = e.contract_address;
  ledger = e.ledger;
  ledger_closed_at = e.ledger_closed_at;
  tx_hash = e.tx_hash;
  paging_token = e.paging_token;
  namespace = e.namespace;
  action = e.action;
  entity_type = some (entity e.payload).0;
  entity_id = some (entity e.payload).1;
  payload = e.payload;
}

abbrev insert_event : IncomingEvent → Store → Store
insert_event e s = record s {
  events = put e.event_id (stored e) s.events;
  parties = put e.event_id (participants e.payload) s.parties;
}

abbrev pub is_outside : ℕ → ℕ → IncomingEvent → Bool
is_outside lo hi e = ltb (IncomingEvent.ledger e) lo || ltb hi (IncomingEvent.ledger e)

-- An event out of the range is left out.
abbrev pub insert_unless : Bool → IncomingEvent → Store → Store
insert_unless true e s = s
insert_unless false e s = insert_event e s

-- The loop over the events.
unfoldable pub insert_events : ℕ → ℕ → List IncomingEvent → Store → Store
unfolding stored participants
insert_events lo hi [] s = s
insert_events lo hi (e ∷ es) s = insert_events lo hi es (insert_unless (is_outside lo hi e) e s)

-- The whole update, once the range is not empty.
unfoldable pub replace_events : ℕ → ℕ → List IncomingEvent → Store → Store
unfolding delete_range insert_events
replace_events lo hi es s = insert_events lo hi es (delete_range lo hi s)

unfoldable pub set_checkpoint : Bytes → ℕ → Store → Store
set_checkpoint stream next s = record s { checkpoints = put stream next s.checkpoints }

-- `slice(offset, offset + limit)`
abbrev pub slice {ℓ} : {A : Type ℓ} → ℕ → ℕ → List A → List A
slice offset limit xs = first_of limit (drop offset xs)

pub data StoreError : Type 0 where
  bad_charge : (tx_hash : Bytes) → StoreError
  negative_fee : (tx_hash : Bytes) → StoreError
  invalid_ledger : (tx_hash : Bytes) → StoreError
  bad_limit bad_offset bad_batch_size bad_payment : StoreError

-- A fee as it comes in: its ledger is not checked yet.
pub record IncomingFee : Type 0 where
  pub tx_hash : Bytes
  pub ledger : Number
  pub ledger_closed_at : Bytes
  pub payer : Bytes
  pub charged : Bytes
  pub asset : Option Bytes
  pub agent : Option Bytes
  pub owner : Option Bytes

unfoldable pub stored_fee : IncomingFee → TransactionFee
stored_fee f = record {
  tx_hash = f.tx_hash;
  ledger = natural f.ledger;
  ledger_closed_at = f.ledger_closed_at;
  payer = f.payer;
  charged = f.charged;
  asset = f.asset;
  agent = f.agent;
  owner = f.owner;
}

module _ (rt : Runtime) where
  abbrev pub fee_le : TransactionFee → TransactionFee → Bool
  fee_le a b = is_le (compare_position rt a.ledger a.tx_hash b.ledger b.tx_hash)

  unfoldable pub all_events : Store → ℕ → ℕ → List StoredEvent
  all_events s limit offset = slice offset limit (sort (event_le rt) (values_of s.events))

  -- The ledger of the events and the fees that are stored.
  unfoldable pub normalized : Store → NormalizedLedger
  unfolding all_events
  normalized s = normalize_ledger rt (all_events s 1000000 0) (sort fee_le (values_of s.fees))

  unfoldable pub rebuild_ledger : Store → Store
  unfolding normalized
  rebuild_ledger s = record s {
    cached_entries = (normalized s).entries;
    cached_issues = (normalized s).issues;
  }

  unfoldable pub replace_range : Store → ℕ → ℕ → List IncomingEvent → Bytes → Store
  unfolding replace_events rebuild_ledger set_checkpoint
  replace_range s lo hi es stream =
      if ltb hi lo
      then s
      else rebuild_ledger (set_checkpoint stream (hi + 1) (replace_events lo hi es s))

  -- The checks on a fee.
  unfoldable pub check_fee : IncomingFee → Option ℤ → Option StoreError
  check_fee f none = some (bad_charge f.tx_hash)
  check_fee f (some z) =
      if ltb_ℤ z (pos 0)
      then some (negative_fee f.tx_hash)
      else if not (is_safe_integer f.ledger) || ltb_number f.ledger (whole (pos 0))
      then some (invalid_ledger f.tx_hash)
      else none

  -- The loop over the fees: one that is refused ends it, and those before it stay.
  unfoldable pub insert_fees :
      List IncomingFee → Dict TransactionFee → Dict TransactionFee × Option StoreError
  unfolding check_fee stored_fee
  insert_fees [] d = (d, none)
  insert_fees (f ∷ fs) d = elim (check_fee f (rt.parse f.charged)) [
    | some e ↦ (d, some e)
    | none ↦ insert_fees fs (put f.tx_hash (stored_fee f) d)
  ]

  -- After an error the ledger is not rebuilt.
  unfoldable pub after_fees :
      Store → Dict TransactionFee × Option StoreError → Store × Option StoreError
  unfolding rebuild_ledger
  after_fees s (d, some e) = (record s { fees = d }, some e)
  after_fees s (d, none) = (rebuild_ledger (record s { fees = d }), none)

  unfoldable pub record_transaction_fees : Store → List IncomingFee → Store × Option StoreError
  unfolding insert_fees after_fees
  record_transaction_fees s fs = after_fees s (insert_fees fs s.fees)
