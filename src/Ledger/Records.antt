-- ===== src/Ledger/Records.antt =====
-- The ledger that `normalizeLedger` of packages/indexer/src/ledger.ts returns: balanced throughout,
-- and with the records of each event counted.
use stellar_agentic.Base.{
  ℕ, ◌+◌, ◌≤◌, ◌≡◌, refl, ◌∙◌, ◌⊎◌, Bool, true, false, ◌&&◌, Option, none, some, List, [], ◌∷◌,
  ◌++◌, if◌then◌else◌, Result, ok, err, ◌>>=◌, arith, All, All-append, Ordering, count,
  count-append,
}
use stellar_agentic.Base.Int.{ℤ}
use stellar_agentic.Base.Numbers.{Bytes}
use stellar_agentic.Base.Sorting.{sort, sort-All, count-sort, IsSorted, IsTotal, sort-IsSorted}
use stellar_agentic.Base.Texts.{same_bytes, Dict}
use stellar_agentic.Ledger.Accounting.{
  moves, EntrySound, OutcomeSound, HandlingSound, handle-HandlingSound, one_transfer, validated-ok,
}
use stellar_agentic.Ledger.Balance.{IsBalanced}
use stellar_agentic.Ledger.Channels.{Outcome, nothing, posted, reported, network_account}
use stellar_agentic.Ledger.Entries.{LedgerError, read_amount, amount, validated, issue, caught}
use stellar_agentic.Ledger.Normalize.{
  handle, outcome_of, add_outcome, handle_events, fee_id, fee_asset, draft_fee_entry, fee_entry,
  add_fee, fee_entries, event_le, entry_le, issue_le, normalize_ledger,
}
use stellar_agentic.Ledger.Snapshots.{Snapshot, snapshots, channel, job, compare_position, is_le}
use stellar_agentic.Ledger.{
  fee_payer_role, network_role, Runtime, StoredEvent, LedgerEntry, LedgerIssue, TransactionFee,
  NormalizedLedger,
}

abbrev pub has_event_id : Bytes → Option Bytes → Bool
has_event_id id none = false
has_event_id id (some i) = same_bytes i id

-- How many entries and issues carry the id of an event.
abbrev pub records : Bytes → NormalizedLedger → ℕ
records id n =
    count (λ e. has_event_id id (LedgerEntry.event_id e)) n.entries
    + count (λ i. same_bytes (LedgerIssue.event_id i) id) n.issues

abbrev pub has_id : Bytes → StoredEvent → Bool
has_id id e = same_bytes e.event_id id

-- An event with the id that moves money.
abbrev pub moves_as : Bytes → StoredEvent → Bool
moves_as id e = same_bytes e.event_id id && moves e.payload

outcome_of-Sound :
    (rt : Runtime) (e : StoredEvent) (m : Result LedgerError Outcome)
    → HandlingSound e m
    → OutcomeSound e (outcome_of rt e m)
unfolding outcome_of HandlingSound caught issue
outcome_of-Sound rt e (ok o) h = h
outcome_of-Sound rt e (err x) h = (refl, refl)

add_outcome-records :
    (id : Bytes) (e : StoredEvent) (o : Outcome) (n : NormalizedLedger)
    → OutcomeSound e o
    → (records id n + (if moves_as id e then 1 else 0) ≤ records id (add_outcome o n))
      × (records id (add_outcome o n) ≤ records id n + (if has_id id e then 1 else 0))
unfolding OutcomeSound add_outcome
add_outcome-records id e nothing n h = ground arith
add_outcome-records id e (posted x) n h = rw h.0 (ground arith)
add_outcome-records id e (reported i) n h = rw h.0 (ground arith)

module _ (rt : Runtime) (channels jobs : Dict (List Snapshot)) where
  sound : (e : StoredEvent) → OutcomeSound e (outcome_of rt e (handle rt channels jobs e))
  sound e = outcome_of-Sound rt e _ (handle-HandlingSound e rt channels jobs)

  handle_events-records :
      (id : Bytes) (es : List StoredEvent)
      → (count (moves_as id) es ≤ records id (handle_events rt channels jobs es))
        × (records id (handle_events rt channels jobs es) ≤ count (has_id id) es)
  unfolding handle_events
  handle_events-records id [] = ground arith
  handle_events-records id (e ∷ es) =
      let r = handle_events-records id es in
      let s = add_outcome-records id e _ (handle_events rt channels jobs es) (sound e) in
      (omega (arith, r.0, s.0), omega (arith, r.1, s.1))

  add_outcome-IsBalanced :
      (e : StoredEvent) (o : Outcome) (n : NormalizedLedger)
      → OutcomeSound e o
      → All IsBalanced n.entries
      → All IsBalanced (add_outcome o n).entries
  unfolding OutcomeSound add_outcome EntrySound
  add_outcome-IsBalanced e nothing n h a = a
  add_outcome-IsBalanced e (posted x) n h a = (h.2, a)
  add_outcome-IsBalanced e (reported i) n h a = a

  handle_events-IsBalanced :
      (es : List StoredEvent) → All IsBalanced (handle_events rt channels jobs es).entries
  unfolding handle_events
  handle_events-IsBalanced [] = tt
  handle_events-IsBalanced (e ∷ es) =
      add_outcome-IsBalanced e _ (handle_events rt channels jobs es) (sound e)
        (handle_events-IsBalanced es)

-- The entry of a fee carries no event's id.
abbrev FeeSound : Result LedgerError LedgerEntry → Type 0
FeeSound (ok x) = (x.event_id ≡ none) × IsBalanced x
FeeSound (err _) = Unit

draft_fee_entry-IsBalanced : (f : TransactionFee) (z : ℤ) → IsBalanced (draft_fee_entry f z)
unfolding draft_fee_entry
draft_fee_entry-IsBalanced f z a =
    one_transfer f.payer network_account (fee_asset f.asset) fee_payer_role network_role z
      (fee_id f) 0 a

validated_fee-Sound : (f : TransactionFee) (z : ℤ) → FeeSound (validated (draft_fee_entry f z))
unfolding draft_fee_entry
validated_fee-Sound f z =
    let b = draft_fee_entry-IsBalanced f z in rw (validated-ok (draft_fee_entry f z) b) (refl, b)

read_fee-Sound :
    (f : TransactionFee) (o : Option ℤ)
    → FeeSound (read_amount f.charged (fee_id f) o >>= λ z. validated (draft_fee_entry f z))
unfolding read_amount
read_fee-Sound f none = tt
read_fee-Sound f (some z) = validated_fee-Sound f z

fee_entry-Sound : (rt : Runtime) (f : TransactionFee) → FeeSound (fee_entry rt f)
unfolding fee_entry amount
fee_entry-Sound rt f = read_fee-Sound f (rt.parse f.charged)

add_fee-IsBalanced :
    (m : Result LedgerError LedgerEntry) (es : List LedgerEntry)
    → FeeSound m
    → All IsBalanced es
    → All IsBalanced (add_fee m es)
unfolding add_fee
add_fee-IsBalanced (ok x) es h a = (h.1, a)
add_fee-IsBalanced (err _) es h a = a

fee_entries-IsBalanced :
    (rt : Runtime) (fs : List TransactionFee) → All IsBalanced (fee_entries rt fs)
unfolding fee_entries
fee_entries-IsBalanced rt [] = tt
fee_entries-IsBalanced rt (f ∷ fs) =
    add_fee-IsBalanced _ _ (fee_entry-Sound rt f) (fee_entries-IsBalanced rt fs)

abbrev entry_has : Bytes → LedgerEntry → Bool
entry_has id e = has_event_id id e.event_id

add_fee-count :
    (id : Bytes) (m : Result LedgerError LedgerEntry) (es : List LedgerEntry)
    → FeeSound m
    → count (entry_has id) (add_fee m es) ≡ count (entry_has id) es
unfolding add_fee
add_fee-count id (ok x) es h = rw h.0 (omega arith)
add_fee-count id (err _) es h = refl

fee_entries-count :
    (rt : Runtime) (id : Bytes) (fs : List TransactionFee)
    → count (entry_has id) (fee_entries rt fs) ≡ 0
unfolding fee_entries
fee_entries-count rt id [] = refl
fee_entries-count rt id (f ∷ fs) =
    add_fee-count id _ (fee_entries rt fs) (fee_entry-Sound rt f) ∙ fee_entries-count rt id fs

-- Every entry of a normalized ledger is balanced: its postings sum to zero for every asset, whatever
-- the events and the fees are.
pub normalize_ledger-IsBalanced :
    (rt : Runtime) (events : List StoredEvent) (fees : List TransactionFee)
    → All IsBalanced (normalize_ledger rt events fees).entries
unfolding normalize_ledger
normalize_ledger-IsBalanced rt events fees = sort-All (entry_le rt) IsBalanced _ (
    All-append IsBalanced _ _ (handle_events-IsBalanced rt _ _ (sort (event_le rt) events))
      (fee_entries-IsBalanced rt fees))

-- The sorts and the fees change no count of the records of an event.
records_total :
    (rt : Runtime) (events : List StoredEvent) (fees : List TransactionFee) (id : Bytes)
    → records id (normalize_ledger rt events fees)
      ≡ records id (
          handle_events rt
            (snapshots rt events channel)
            (snapshots rt events job)
            (sort (event_le rt) events))
unfolding normalize_ledger
records_total rt events fees id =
    let n =
      handle_events rt (snapshots rt events channel) (snapshots rt events job)
        (sort (event_le rt) events) in
    omega (
      arith,
      count-sort (entry_le rt) (entry_has id) (n.entries ++ fee_entries rt fees),
      count-append (entry_has id) n.entries (fee_entries rt fees),
      fee_entries-count rt id fees,
      count-sort (issue_le rt) (λ i. same_bytes (LedgerIssue.event_id i) id) n.issues,
    )

-- No event that moves money is lost and none is recorded twice: under each id, the normalized ledger
-- has at least as many entries and issues as there are events of the id that move money, and at most
-- as many as there are events of the id. (The events that move money are those of channels and the
-- `created`, `refunded`, `resolved` and, where the worker is not empty, `released` ones of escrows.)
pub normalize_ledger-records :
    (rt : Runtime) (events : List StoredEvent) (fees : List TransactionFee) (id : Bytes)
    → (count (moves_as id) events ≤ records id (normalize_ledger rt events fees))
      × (records id (normalize_ledger rt events fees) ≤ count (has_id id) events)
normalize_ledger-records rt events fees id =
    let r =
      handle_events-records rt (snapshots rt events channel) (snapshots rt events job) id
        (sort (event_le rt) events) in
    (
      omega (
        arith,
        r.0,
        records_total rt events fees id,
        count-sort (event_le rt) (moves_as id) events,
      ),
      omega (
        arith,
        r.1,
        records_total rt events fees id,
        count-sort (event_le rt) (has_id id) events,
      ),
    )

-- The orders of the comparators are total where the language's comparison of texts is.
module _ (rt : Runtime)
    (reflected : (s t : Bytes) → is_le (rt.locale s t) ≡ false → rt.locale t s ≡ Ordering.lt)
    (trans : (s t u : Bytes)
      → is_le (rt.locale s t) ≡ true
      → is_le (rt.locale t u) ≡ true
      → is_le (rt.locale s u) ≡ true) where
  abbrev position_le : ℕ × Bytes → ℕ × Bytes → Bool
  position_le a b = is_le (compare_position rt a.0 a.1 b.0 b.1)

  position_le_total : (a b : ℕ × Bytes) → (position_le a b ≡ true) ⊎ (position_le b a ≡ true)
  position_le_total a b = ground (arith, reflected a.1 b.1)

  position_le_trans :
      (a b c : ℕ × Bytes) → position_le a b ≡ true → position_le b c ≡ true → position_le a c ≡ true
  position_le_trans a b c h k = ground (arith, trans a.1 b.1 c.1)

  entry_le-IsTotal : IsTotal (entry_le rt)
  entry_le-IsTotal = record {
    total = λ x y. position_le_total (x.ledger, x.entry_id) (y.ledger, y.entry_id);
    trans = λ x y z.
        position_le_trans (x.ledger, x.entry_id) (y.ledger, y.entry_id) (z.ledger, z.entry_id);
  }

  issue_le-IsTotal : IsTotal (issue_le rt)
  issue_le-IsTotal = record {
    total = λ x y. position_le_total (x.ledger, x.issue_id) (y.ledger, y.issue_id);
    trans = λ x y z.
        position_le_trans (x.ledger, x.issue_id) (y.ledger, y.issue_id) (z.ledger, z.issue_id);
  }

  -- Where `localeCompare` is a total order of the texts, the entries of a normalized ledger come in
  -- the order of their ledgers, those of one ledger in the order of their ids, and so do the issues.
  pub normalize_ledger-IsSorted :
      (events : List StoredEvent) (fees : List TransactionFee)
      → IsSorted (entry_le rt) (normalize_ledger rt events fees).entries
        × IsSorted (issue_le rt) (normalize_ledger rt events fees).issues
  unfolding normalize_ledger
  normalize_ledger-IsSorted events fees = (
    sort-IsSorted (entry_le rt) entry_le-IsTotal _,
    sort-IsSorted (issue_le rt) issue_le-IsTotal _,
  )
