-- ===== src/Ledger/Accounting.antt =====
-- What an event adds to the ledger of packages/indexer/src/ledger.ts: one balanced entry or one
-- issue of its own, if it moves money.
use stellar_agentic.Base.{
  ℕ, suc, ◌≡◌, refl, ap, ◌∙◌, Bool, true, false, Option, none, some, List, [], ◌∷◌, ◌++◌,
  if◌then◌else◌, Result, ok, err, ◌>>=◌,
}
use stellar_agentic.Base.Int.{ℤ, pos, ◌+ℤ◌, int_laws}
use stellar_agentic.Base.Numbers.{Bytes}
use stellar_agentic.Base.Texts.{same_bytes, codes, Dict, get}
use stellar_agentic.Ledger.Balance.{net, IsBalanced, validate_entry_iff}
use stellar_agentic.Ledger.Channels.{
  Outcome, or_value, nothing, posted, reported, transfer, channel_entry, post, handle_channel,
  channel_outcome, missing_channel,
}
use stellar_agentic.Ledger.Entries.{
  LedgerError, bad_amount, unbalanced, read_amount, amount, Posting, EconomicContext, name_postings,
  entry, draft_entry, validated, issue,
}
use stellar_agentic.Ledger.Escrows.{
  handle_escrow, job_outcome, job_worker, missing_job, missing_worker, moves_money, payload_amount,
  escrow_outcome, resolve_entry,
}
use stellar_agentic.Ledger.Json.{JsonFields}
use stellar_agentic.Ledger.Normalize.{handle, handle_payload}
use stellar_agentic.Ledger.Snapshots.{Snapshot, state_for}
use stellar_agentic.Ledger.{
  Runtime, neg, StoredEvent, DecodedEvent, rl_recorded, rl_killed, factory_created,
  factory_deactivated, factory_reactivated, state_channel, state_job, state_limit, state_agent,
  channel_event, escrow_event, ChannelAction, opened, paid, convpaid, topup, closed, EscrowAction,
  created, accepted, disputed, released, refunded, resolved, LedgerEntryKind, LedgerAccountRole,
  ReferenceType, LedgerEntry,
}

-- The events that move money: those of channels, and those of escrows that lock it or give it out. A
-- release without a worker is none.
abbrev pub moves : DecodedEvent → Bool
moves (channel_event _ _) = true
moves (escrow_event _ (created _ _)) = true
moves (escrow_event _ (released [] _)) = false
moves (escrow_event _ (released (_ ∷ _) _)) = true
moves (escrow_event _ (refunded _ _)) = true
moves (escrow_event _ (resolved _ _)) = true
moves _ = false

-- An entry of the event, or the error that an amount of it cannot be read.
unfoldable pub EntrySound : StoredEvent → Result LedgerError LedgerEntry → Type 0
EntrySound e (ok x) = (x.event_id ≡ some e.event_id) × (x.ledger ≡ e.ledger) × IsBalanced x
EntrySound e (err (bad_amount i v)) = i ≡ e.event_id
EntrySound e (err (unbalanced _ _ _)) = ◌≡◌ {A = Bool} true false

-- What an event may add: a balanced entry or an issue of its own, and nothing if it moves no money.
unfoldable pub OutcomeSound : StoredEvent → Outcome → Type 0
unfolding EntrySound
OutcomeSound e nothing = moves e.payload ≡ false
OutcomeSound e (posted x) = EntrySound e (ok x)
OutcomeSound e (reported i) = (i.event_id ≡ e.event_id) × (i.ledger ≡ e.ledger)

unfoldable pub HandlingSound : StoredEvent → Result LedgerError Outcome → Type 0
unfolding OutcomeSound
HandlingSound e (ok o) = OutcomeSound e o
HandlingSound e (err x) = EntrySound e (err x)

cancel : (b : Bool) (z r : ℤ) → (if b then neg z else pos 0) +ℤ ((if b then z else pos 0) +ℤ r) ≡ r
cancel true z r = omega int_laws
cancel false z r = omega int_laws

-- A transfer in front of other postings changes no sum.
net-transfer :
    (a id s t asset : Bytes) (sr tr : LedgerAccountRole) (z : ℤ) (n : ℕ) (ps : List Posting)
    → net a (name_postings id n (transfer s sr t tr asset z ++ ps))
      ≡ net a (name_postings id (suc (suc n)) ps)
unfolding name_postings
net-transfer a id s t asset sr tr z n ps =
    cancel (same_bytes asset a) z (net a (name_postings id (suc (suc n)) ps))

-- The postings of a context sum to zero, whatever their ids are.
abbrev pub BalancedPostings : List Posting → Type 0
BalancedPostings ps = (id : Bytes) (n : ℕ) (a : Bytes) → net a (name_postings id n ps) ≡ pos 0

transfer-Balanced :
    (s t asset : Bytes) (sr tr : LedgerAccountRole) (z : ℤ) (ps : List Posting)
    → BalancedPostings ps
    → BalancedPostings (transfer s sr t tr asset z ++ ps)
transfer-Balanced s t asset sr tr z ps h id n a =
    net-transfer a id s t asset sr tr z n ps ∙ h id (suc (suc n)) a

empty-Balanced : BalancedPostings []
unfolding name_postings
empty-Balanced id n a = refl

pub validated-ok : (x : LedgerEntry) → IsBalanced x → validated x ≡ ok x
unfolding validated
validated-ok x h = rw ((validate_entry_iff x).1 h) refl

pub one_transfer :
    (s t asset : Bytes) (sr tr : LedgerAccountRole) (z : ℤ)
    → BalancedPostings (transfer s sr t tr asset z)
one_transfer s t asset sr tr z = transfer-Balanced s t asset sr tr z [] empty-Balanced

module _ (event : StoredEvent) where
  draft_entry-IsBalanced :
      (kind : LedgerEntryKind) (r : ReferenceType) (id : Bytes) (c : EconomicContext)
      → BalancedPostings c.postings
      → IsBalanced (draft_entry event kind r id c)
  unfolding draft_entry
  draft_entry-IsBalanced kind r id c h a = h (codes "event:" ++ event.event_id) 0 a

  entry-Sound :
      (kind : LedgerEntryKind) (r : ReferenceType) (id : Bytes) (c : EconomicContext)
      → BalancedPostings c.postings
      → EntrySound event (entry event kind r id c)
  unfolding entry draft_entry EntrySound
  entry-Sound kind r id c h =
      let b = draft_entry-IsBalanced kind r id c h in
      rw (validated-ok (draft_entry event kind r id c) b) (refl, refl, b)

  bind-Sound :
      (value : Bytes) (o : Option ℤ) (f : ℤ → Result LedgerError LedgerEntry)
      → ((z : ℤ) → EntrySound event (f z))
      → EntrySound event (read_amount value event.event_id o >>= f)
  unfolding read_amount EntrySound
  bind-Sound value none f h = refl
  bind-Sound value (some z) f h = h z

  amount-Sound :
      (rt : Runtime) (value : Bytes) (f : ℤ → Result LedgerError LedgerEntry)
      → ((z : ℤ) → EntrySound event (f z))
      → EntrySound event (amount rt value event.event_id >>= f)
  unfolding amount
  amount-Sound rt value = bind-Sound value (rt.parse value)

  post-Sound :
      (m : Result LedgerError LedgerEntry) → EntrySound event m → HandlingSound event (post m)
  unfolding HandlingSound
  post-Sound (ok x) h = h
  post-Sound (err x) h = h

  channel_entry-Sound :
      (rt : Runtime) (id asset owner agent : Bytes) (action : ChannelAction)
      → EntrySound event (channel_entry rt event id asset owner agent action)
  unfolding channel_entry
  channel_entry-Sound rt id asset owner agent (opened _ _ deposit) =
      amount-Sound rt deposit _ λ z. entry-Sound _ _ _ _ (one_transfer _ _ _ _ _ z)
  channel_entry-Sound rt id asset owner agent (topup _ added) =
      amount-Sound rt added _ λ z. entry-Sound _ _ _ _ (one_transfer _ _ _ _ _ z)
  channel_entry-Sound rt id asset owner agent (paid _ _ spent _) =
      amount-Sound rt spent _ λ z. entry-Sound _ _ _ _ (one_transfer _ _ _ _ _ z)
  channel_entry-Sound rt id asset owner agent (convpaid _ _ spent _ received _) =
      amount-Sound rt spent _ λ z.
        amount-Sound rt received _
          λ y. entry-Sound _ _ _ _ (transfer-Balanced _ _ _ _ _ z _ (one_transfer _ _ _ _ _ y))
  channel_entry-Sound rt id asset owner agent (closed _ refund) =
      amount-Sound rt refund _ λ z. entry-Sound _ _ _ _ (one_transfer _ _ _ _ _ z)

  resolved-Sound :
      (id asset requester arbiter : Bytes) (worker : Option Bytes) (z : ℤ) (favor : Bool)
      → HandlingSound event
          (escrow_outcome event id asset requester worker z (resolved arbiter favor))
  unfolding escrow_outcome resolve_entry missing_worker issue HandlingSound
  resolved-Sound id asset requester arbiter none z true = (refl, refl)
  resolved-Sound id asset requester arbiter (some _) z true =
      post-Sound _ (entry-Sound _ _ _ _ (one_transfer _ _ _ _ _ z))
  resolved-Sound id asset requester arbiter none z false =
      post-Sound _ (entry-Sound _ _ _ _ (one_transfer _ _ _ _ _ z))
  resolved-Sound id asset requester arbiter (some _) z false =
      post-Sound _ (entry-Sound _ _ _ _ (one_transfer _ _ _ _ _ z))

  escrow_outcome-Sound :
      (state : Option JsonFields) (id asset requester job_id : Bytes) (z : ℤ)
      (action : EscrowAction)
      → event.payload ≡ escrow_event job_id action
      → HandlingSound event
          (escrow_outcome event id asset requester (job_worker state action) z action)
  unfolding escrow_outcome job_worker HandlingSound
  escrow_outcome-Sound state id asset requester job_id z (created _ _) h =
      post-Sound _ (entry-Sound _ _ _ _ (one_transfer _ _ _ _ _ z))
  escrow_outcome-Sound state id asset requester job_id z (accepted _) h = ap moves h
  escrow_outcome-Sound state id asset requester job_id z (EscrowAction.result _) h = ap moves h
  escrow_outcome-Sound state id asset requester job_id z (released [] _) h = ap moves h
  escrow_outcome-Sound state id asset requester job_id z (released (_ ∷ _) _) h =
      post-Sound _ (entry-Sound _ _ _ _ (one_transfer _ _ _ _ _ z))
  escrow_outcome-Sound state id asset requester job_id z (refunded _ _) h =
      post-Sound _ (entry-Sound _ _ _ _ (one_transfer _ _ _ _ _ z))
  escrow_outcome-Sound state id asset requester job_id z (disputed _) h = ap moves h
  escrow_outcome-Sound state id asset requester job_id z (resolved arbiter favor) h =
      resolved-Sound id asset requester arbiter (job_worker state (resolved arbiter favor)) z favor

  channel_outcome-Sound :
      (rt : Runtime) (id : Bytes) (action : ChannelAction)
      (parties : Option (Bytes × Bytes × Bytes))
      → HandlingSound event (channel_outcome rt event id action parties)
  unfolding channel_outcome missing_channel issue HandlingSound
  channel_outcome-Sound rt id action none = (refl, refl)
  channel_outcome-Sound rt id action (some (asset, owner, agent)) =
      post-Sound _ (channel_entry-Sound rt id asset owner agent action)

  missing_job-Sound :
      (id job_id : Bytes) (action : EscrowAction)
      → event.payload ≡ escrow_event job_id action
      → HandlingSound event (ok (if moves_money action then missing_job event id else nothing))
  unfolding missing_job issue HandlingSound
  missing_job-Sound id job_id (created _ _) h = (refl, refl)
  missing_job-Sound id job_id (accepted _) h = ap moves h
  missing_job-Sound id job_id (EscrowAction.result _) h = ap moves h
  missing_job-Sound id job_id (released _ _) h = (refl, refl)
  missing_job-Sound id job_id (refunded _ _) h = (refl, refl)
  missing_job-Sound id job_id (disputed _) h = ap moves h
  missing_job-Sound id job_id (resolved _ _) h = (refl, refl)

  value-Sound :
      (value : Bytes) (o : Option ℤ) (f : ℤ → Result LedgerError Outcome)
      → ((z : ℤ) → HandlingSound event (f z))
      → HandlingSound event (read_amount value event.event_id o >>= f)
  unfolding read_amount HandlingSound
  value-Sound value none f h = refl
  value-Sound value (some z) f h = h z

  job_outcome-Sound :
      (rt : Runtime) (id : Bytes) (state : Option JsonFields) (action : EscrowAction)
      → event.payload ≡ escrow_event id action
      → (parties : Option (Bytes × Bytes × Bytes))
      → HandlingSound event (job_outcome rt event id state action parties)
  unfolding job_outcome amount
  job_outcome-Sound rt id state action h none = missing_job-Sound id id action h
  job_outcome-Sound rt id state action h (some (asset, requester, v)) =
      value-Sound (or_value (payload_amount action) v) _ _
        λ z. escrow_outcome-Sound state id asset requester id z action h

  handle_payload-Sound :
      (rt : Runtime) (channels jobs : Dict (List Snapshot)) (payload : DecodedEvent)
      → event.payload ≡ payload
      → HandlingSound event (handle_payload rt channels jobs event payload)
  unfolding handle_payload handle_channel handle_escrow HandlingSound
  handle_payload-Sound rt channels jobs (channel_event id action) h =
      channel_outcome-Sound rt id action _
  handle_payload-Sound rt channels jobs (escrow_event id action) h =
      job_outcome-Sound rt id (state_for rt event (get id jobs)) action h _
  handle_payload-Sound rt channels jobs (rl_recorded _ _) h = ap moves h
  handle_payload-Sound rt channels jobs (rl_killed _) h = ap moves h
  handle_payload-Sound rt channels jobs (factory_created _ _ _) h = ap moves h
  handle_payload-Sound rt channels jobs (factory_deactivated _ _) h = ap moves h
  handle_payload-Sound rt channels jobs (factory_reactivated _ _) h = ap moves h
  handle_payload-Sound rt channels jobs (state_channel _ _) h = ap moves h
  handle_payload-Sound rt channels jobs (state_job _ _) h = ap moves h
  handle_payload-Sound rt channels jobs (state_limit _ _) h = ap moves h
  handle_payload-Sound rt channels jobs (state_agent _ _) h = ap moves h

  -- The handling of an event adds a balanced entry or an issue that carry the id and the ledger of
  -- the event; it adds nothing only if the event moves no money; and all that it can throw is that
  -- an amount of the event is no integer, never that an entry is unbalanced.
  pub handle-HandlingSound :
      (rt : Runtime) (channels jobs : Dict (List Snapshot))
      → HandlingSound event (handle rt channels jobs event)
  unfolding handle
  handle-HandlingSound rt channels jobs = handle_payload-Sound rt channels jobs event.payload refl
