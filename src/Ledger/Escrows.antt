-- ===== src/Ledger/Escrows.antt =====
-- The escrow branch of `normalizeLedger` in packages/indexer/src/ledger.ts.
use stellar_agentic.Base.{
  Bool, true, false, Option, none, some, ◌++◌, if◌then◌else◌, Result, ok, ◌>>=◌,
}
use stellar_agentic.Base.Int.{ℤ}
use stellar_agentic.Base.Numbers.{Bytes}
use stellar_agentic.Base.Texts.{codes, truthy}
use stellar_agentic.Ledger.Entries.{LedgerError, amount, entry, issue}
use stellar_agentic.Ledger.Json.{
  JsonValue, JsonFields, boolean, string, object, end, field, text, optional_text,
}
use stellar_agentic.Ledger.{
  Runtime, StoredEvent, EscrowAction, created, accepted, result, released, refunded, disputed,
  resolved, escrow_lock, escrow_release, escrow_refund, requester_role, worker_role, contract_role,
  job_reference, LedgerEntry, missing_job_state,
}
use stellar_agentic.Ledger.Channels.{
  Outcome, nothing, reported, transfer, or_else, or_value, all_three, simple_context, post,
}

abbrev pub payload_requester : EscrowAction → Option Bytes
payload_requester (created requester _) = some requester
payload_requester (refunded requester _) = some requester
payload_requester (disputed requester) = some requester
payload_requester _ = none

abbrev pub payload_worker : EscrowAction → Option Bytes
payload_worker (accepted worker) = some worker
payload_worker (result worker) = some worker
payload_worker (released worker _) = some worker
payload_worker _ = none

abbrev pub payload_amount : EscrowAction → Option Bytes
payload_amount (created _ value) = some value
payload_amount (released _ value) = some value
payload_amount (refunded _ value) = some value
payload_amount _ = none

-- The actions of an escrow that are reported when the state of the job is missing.
abbrev pub moves_money : EscrowAction → Bool
moves_money (created _ _) = true
moves_money (released _ _) = true
moves_money (refunded _ _) = true
moves_money (resolved _ _) = true
moves_money _ = false

-- The issues of a job whose state is missing, and of a resolution without a recipient.
unfoldable pub missing_job : StoredEvent → Bytes → Outcome
unfolding issue
missing_job event id = reported (
    issue event missing_job_state
      (codes "job " ++ id ++ codes " has no asset/requester/amount snapshot"))

unfoldable pub missing_worker : StoredEvent → Bytes → Outcome
unfolding issue
missing_worker event id =
    reported
      (issue event missing_job_state (codes "job " ++ id ++ codes " resolution has no worker"))

-- The asset, the requester and the amount in the state of an escrow's event, none of them empty.
unfoldable pub job_parties : Option JsonFields → EscrowAction → Option (Bytes × Bytes × Bytes)
unfolding text
job_parties state action =
    all_three (truthy (text state (codes "token")))
      (truthy (or_else (payload_requester action) (text state (codes "requester"))))
      (truthy (text state (codes "amount")))

resolution_metadata : Bytes → JsonValue
resolution_metadata arbiter =
    object (
      field (codes "arbiter") (string arbiter) (field (codes "resolvedDispute") (boolean true) end))

-- A resolution in favour of the worker, or of the requester.
unfoldable pub resolve_entry :
    StoredEvent → Bytes → Bytes → Bytes → ℤ → Bytes → Bool → Bytes → Result LedgerError LedgerEntry
unfolding resolution_metadata
resolve_entry event id asset requester value arbiter favor_worker recipient =
    entry event (if favor_worker then escrow_release else escrow_refund) job_reference id
      (record (simple_context requester requester recipient none asset value (
        transfer event.contract_address contract_role recipient
          (if favor_worker then worker_role else requester_role) asset value)) {
            metadata = some (resolution_metadata arbiter);
          })

-- What an escrow's event adds, with its asset, its requester, its worker and its value.
unfoldable pub escrow_outcome :
    StoredEvent
    → Bytes
    → Bytes
    → Bytes
    → Option Bytes
    → ℤ
    → EscrowAction
    → Result LedgerError Outcome
unfolding missing_worker
escrow_outcome event id asset requester worker value (created _ _) = post (
    entry event escrow_lock job_reference id (
      simple_context requester requester event.contract_address none asset value
        (transfer requester requester_role event.contract_address contract_role asset value)))
escrow_outcome event id asset requester none value (released _ _) = ok nothing
escrow_outcome event id asset requester (some worker) value (released _ _) = post (
    entry event escrow_release job_reference id (
      simple_context requester requester worker none asset value
        (transfer event.contract_address contract_role worker worker_role asset value)))
escrow_outcome event id asset requester worker value (refunded _ _) = post (
    entry event escrow_refund job_reference id (
      simple_context requester requester requester none asset value
        (transfer event.contract_address contract_role requester requester_role asset value)))
escrow_outcome event id asset requester none value (resolved arbiter true) =
    ok (missing_worker event id)
escrow_outcome event id asset requester (some worker) value (resolved arbiter true) =
    post (resolve_entry event id asset requester value arbiter true worker)
escrow_outcome event id asset requester worker value (resolved arbiter false) =
    post (resolve_entry event id asset requester value arbiter false requester)
escrow_outcome event id asset requester worker value _ = ok nothing

unfoldable pub job_worker : Option JsonFields → EscrowAction → Option Bytes
unfolding optional_text
job_worker state action =
    truthy (or_else (payload_worker action) (optional_text state (codes "worker")))

module _ (rt : Runtime) where
  unfoldable pub job_outcome :
      StoredEvent
      → Bytes
      → Option JsonFields
      → EscrowAction
      → Option (Bytes × Bytes × Bytes)
      → Result LedgerError Outcome
  job_outcome event id state action none =
      ok (if moves_money action then missing_job event id else nothing)
  job_outcome event id state action (some (asset, requester, state_amount)) =
      amount rt (or_value (payload_amount action) state_amount) event.event_id >>= λ value.
      escrow_outcome event id asset requester (job_worker state action) value action

  unfoldable pub handle_escrow :
      StoredEvent → Bytes → Option JsonFields → EscrowAction → Result LedgerError Outcome
  handle_escrow event id state action = job_outcome event id state action (job_parties state action)
