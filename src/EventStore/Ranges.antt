-- ===== src/EventStore/Ranges.antt =====
-- Replacing a range of ledgers in a store of packages/indexer/src/store.ts, and replacing it again.
use stellar_agentic.Base.{
  arith, ◌&&◌, ◌≤◌, leb, ℕ, ◌+◌, ◌≡◌, refl, sym, ap, subst, ◌∙◌, ◌⊎◌, Bool, true, false, Option,
  none, some, List, [], ◌∷◌, ltb, if◌then◌else◌, Bool-cases, inl, inr,
}
use stellar_agentic.Base.Numbers.{Bytes}
use stellar_agentic.Base.Texts.{
  same_bytes, same_bytes-eq, same_bytes_refl, Dict, get, put, get-put_self, get-put_ne, NodupKeys,
}
use stellar_agentic.EventStore.{
  Store, IncomingEvent, within_range, delete_range, stored, is_outside, insert_unless,
  insert_events, replace_events, set_checkpoint, rebuild_ledger, replace_range, checkpoint,
}
use stellar_agentic.Ledger.{TransactionFee, Runtime, StoredEvent}
use stellar_agentic.EventStore.Keys.{deleted, get-keep, IsKeyed, replace_events-IsKeyed}

-- What the insertions do to what stands under a key.
abbrev overwritten : ℕ → ℕ → Bytes → List IncomingEvent → Option StoredEvent → Option StoredEvent
overwritten lo hi k [] o = o
overwritten lo hi k (e ∷ es) o = overwritten lo hi k es (
    if is_outside lo hi e
    then o
    else if same_bytes (IncomingEvent.event_id e) k
    then some (stored e)
    else o)

get-put_cases :
    {V : Type 0} (k j : Bytes) (v : V) (d : Dict V)
    → get k (put j v d) ≡ (if same_bytes j k then some v else get k d)
get-put_cases k j v d = elim (Bool-cases (same_bytes j k)) [
  | inl e ↦ rw (sym (same_bytes-eq j k e), get-put_self j v d, same_bytes_refl j) refl
  | inr e ↦ rw (get-put_ne k j v d e, e) refl
]

get-insert_unless :
    (k : Bytes) (b : Bool) (e : IncomingEvent) (s : Store)
    → get k (insert_unless b e s).events ≡ (
        if b
        then get k s.events
        else if same_bytes e.event_id k
        then some (stored e)
        else get k s.events)
get-insert_unless k true e s = refl
get-insert_unless k false e s = get-put_cases k e.event_id (stored e) s.events

get-insert_events :
    (lo hi : ℕ) (k : Bytes) (es : List IncomingEvent) (s : Store)
    → get k (insert_events lo hi es s).events ≡ overwritten lo hi k es (get k s.events)
unfolding insert_events
get-insert_events lo hi k [] s = refl
get-insert_events lo hi k (e ∷ es) s =
    get-insert_events lo hi k es (insert_unless (is_outside lo hi e) e s)
    ∙ ap (overwritten lo hi k es) (get-insert_unless k (is_outside lo hi e) e s)

abbrev in_events : ℕ → ℕ → StoredEvent → Bool
in_events lo hi v = within_range lo hi (StoredEvent.ledger v)

get-replace_events :
    (lo hi : ℕ) (k : Bytes) (es : List IncomingEvent) (s : Store)
    → IsKeyed s
    → get k (replace_events lo hi es s).events
      ≡ overwritten lo hi k es (deleted (in_events lo hi) (get k s.events))
unfolding replace_events delete_range
get-replace_events lo hi k es s u =
    get-insert_events lo hi k es (delete_range lo hi s)
    ∙ ap (overwritten lo hi k es) (get-keep (in_events lo hi) k s.events u)

-- Either nothing is inserted under a key, or what is inserted does not depend on what stood there.
overwritten-cases :
    (lo hi : ℕ) (k : Bytes) (es : List IncomingEvent)
    → ((o : Option StoredEvent) → overwritten lo hi k es o ≡ o)
      ⊎ ((v : StoredEvent) × ((o : Option StoredEvent) → overwritten lo hi k es o ≡ some v))
overwritten-cases lo hi k [] = inl λ o. refl
overwritten-cases lo hi k (e ∷ es) = elim (overwritten-cases lo hi k es) [
  | inr (v, h) ↦ inr (v, λ o. h _)
  | inl h ↦ elim (Bool-cases (is_outside lo hi e)) [
    | inl t ↦ inl λ o. h _ ∙ rw t refl
    | inr t ↦ elim (Bool-cases (same_bytes e.event_id k)) [
      | inl m ↦ inr (stored e, λ o. h _ ∙ rw (t, m) refl)
      | inr m ↦ inl λ o. h _ ∙ rw (t, m) refl
    ]
  ]
]

deleted_twice :
    (f : StoredEvent → Bool) (o : Option StoredEvent) → deleted f (deleted f o) ≡ deleted f o
deleted_twice f none = refl
deleted_twice f (some v) = elim (Bool-cases (f v)) [ inl e ↦ rw e refl | inr e ↦ rw (e, e) refl ]

overwritten_twice :
    (lo hi : ℕ) (k : Bytes) (es : List IncomingEvent) (f : StoredEvent → Bool)
    (o : Option StoredEvent)
    → overwritten lo hi k es (deleted f (overwritten lo hi k es (deleted f o)))
      ≡ overwritten lo hi k es (deleted f o)
overwritten_twice lo hi k es f o = elim (overwritten-cases lo hi k es) [
  | inl h ↦ h _ ∙ ap (deleted f) (h _) ∙ deleted_twice f o ∙ sym (h _)
  | inr (v, h) ↦ h _ ∙ sym (h _)
]

replace_events_twice :
    (lo hi : ℕ) (k : Bytes) (es : List IncomingEvent) (s t : Store)
    → IsKeyed s
    → t.events ≡ (replace_events lo hi es s).events
    → get k (replace_events lo hi es t).events ≡ get k (replace_events lo hi es s).events
replace_events_twice lo hi k es s t u same =
    get-replace_events lo hi k es t
      (subst NodupKeys (sym same) (replace_events-IsKeyed lo hi es s u))
    ∙ ap (λ d. overwritten lo hi k es (deleted (in_events lo hi) (get k d))) same
    ∙ ap (λ o. overwritten lo hi k es (deleted (in_events lo hi) o))
        (get-replace_events lo hi k es s u)
    ∙ overwritten_twice lo hi k es (in_events lo hi) (get k s.events)
    ∙ sym (get-replace_events lo hi k es s u)

-- Whether a ledger is in the range.
abbrev pub is_inside : ℕ → ℕ → ℕ → Bool
is_inside lo hi l = leb lo l && leb l hi

-- The later of an event that was found behind this one and this one, if it is looked for.
abbrev pub later : Option IncomingEvent → Bool → IncomingEvent → Option IncomingEvent
later (some f) wanted e = some f
later none true e = some e
later none false e = none

-- The last event in the range with the id.
abbrev pub latest : ℕ → ℕ → Bytes → List IncomingEvent → Option IncomingEvent
latest lo hi k [] = none
latest lo hi k (e ∷ es) =
    later (latest lo hi k es) (is_inside lo hi (IncomingEvent.ledger e) && same_bytes e.event_id k)
      e

-- What stands under an id where the event is put in its place.
abbrev pub replaced_by : Option IncomingEvent → Option StoredEvent → Option StoredEvent
replaced_by none o = o
replaced_by (some e) o = some (stored e)

-- What was stored, if its ledger is out of the range.
abbrev pub surviving : {V : Type 0} → (V → ℕ) → ℕ → ℕ → Option V → Option V
surviving ledger lo hi none = none
surviving ledger lo hi (some v) = if is_inside lo hi (ledger v) then none else some v

overwritten-later :
    (lo hi : ℕ) (k : Bytes) (e : IncomingEvent) (found : Option IncomingEvent)
    (o : Option StoredEvent)
    → replaced_by found (
        if is_outside lo hi e
        then o
        else if same_bytes (IncomingEvent.event_id e) k
        then some (stored e)
        else o)
      ≡ replaced_by (later found (is_inside lo hi e.ledger && same_bytes e.event_id k) e) o
overwritten-later lo hi k e (some f) o = refl
overwritten-later lo hi k e none o = elim (Bool-cases (is_outside lo hi e)) [
  | inl t ↦ let out : is_inside lo hi e.ledger ≡ false = ground (arith, t) in rw (t, out) refl
  | inr t ↦
      let inside : is_inside lo hi e.ledger ≡ true = ground (arith, t) in
      elim (Bool-cases (same_bytes e.event_id k)) [
        | inl m ↦ rw (t, inside, m) refl
        | inr m ↦ rw (t, inside, m) refl
      ]
]

overwritten-latest :
    (lo hi : ℕ) (k : Bytes) (es : List IncomingEvent) (o : Option StoredEvent)
    → overwritten lo hi k es o ≡ replaced_by (latest lo hi k es) o
overwritten-latest lo hi k [] o = refl
overwritten-latest lo hi k (e ∷ es) o =
    overwritten-latest lo hi k es _ ∙ overwritten-later lo hi k e (latest lo hi k es) o

surviving-deleted :
    {V : Type 0} (ledger : V → ℕ) (lo hi : ℕ) (o : Option V)
    → deleted (λ v. within_range lo hi (ledger v)) o ≡ surviving ledger lo hi o
surviving-deleted ledger lo hi none = refl
surviving-deleted ledger lo hi (some v) = refl

-- The insertions touch neither the fees nor the checkpoints.
abbrev Untouched : Store → Store → Type 0
Untouched s t = (t.fees ≡ s.fees) × (t.checkpoints ≡ s.checkpoints)

insert_unless-Untouched :
    (b : Bool) (e : IncomingEvent) (s : Store) → Untouched s (insert_unless b e s)
insert_unless-Untouched true e s = (refl, refl)
insert_unless-Untouched false e s = (refl, refl)

insert_events-Untouched :
    (lo hi : ℕ) (es : List IncomingEvent) (s : Store) → Untouched s (insert_events lo hi es s)
unfolding insert_events
insert_events-Untouched lo hi [] s = (refl, refl)
insert_events-Untouched lo hi (e ∷ es) s =
    let first_one = insert_unless-Untouched (is_outside lo hi e) e s in
    let rest = insert_events-Untouched lo hi es (insert_unless (is_outside lo hi e) e s) in
    (rest.0 ∙ first_one.0, rest.1 ∙ first_one.1)

replace_events-checkpoints :
    (lo hi : ℕ) (es : List IncomingEvent) (s : Store)
    → (replace_events lo hi es s).checkpoints ≡ s.checkpoints
unfolding replace_events delete_range
replace_events-checkpoints lo hi es s = (insert_events-Untouched lo hi es (delete_range lo hi s)).1

get-replaced_fees :
    (lo hi : ℕ) (k : Bytes) (es : List IncomingEvent) (s : Store)
    → NodupKeys s.fees
    → get k (replace_events lo hi es s).fees ≡ surviving TransactionFee.ledger lo hi (get k s.fees)
unfolding replace_events delete_range
get-replaced_fees lo hi k es s u =
    ap (get k) (insert_events-Untouched lo hi es (delete_range lo hi s)).0
    ∙ get-keep (λ f. within_range lo hi (TransactionFee.ledger f)) k s.fees u
    ∙ surviving-deleted TransactionFee.ledger lo hi (get k s.fees)

-- Replacing a range that is not empty, in a store that has each id and each transaction once, leaves
-- under an id the last given event in the range that has it; where there is none, what stood there,
-- unless its ledger is in the range. A fee stays where its ledger is out of the range. The stream's
-- checkpoint is the ledger behind the range, and the other checkpoints stay. Replacing the range again
-- with the same events leaves under every id what the first time left.
pub replace_range_correct :
    (rt : Runtime) (s : Store) (lo hi : ℕ) (es : List IncomingEvent) (stream k other : Bytes)
    → IsKeyed s
    → NodupKeys s.fees
    → lo ≤ hi
    → let t = replace_range rt s lo hi es stream in
      (get k t.events
        ≡ replaced_by (latest lo hi k es) (surviving StoredEvent.ledger lo hi (get k s.events)))
      × (get k t.fees ≡ surviving TransactionFee.ledger lo hi (get k s.fees))
      × (checkpoint t other
          ≡ (if same_bytes stream other then some (hi + 1) else checkpoint s other))
      × (get k (replace_range rt t lo hi es stream).events ≡ get k t.events)
unfolding replace_range rebuild_ledger set_checkpoint checkpoint
replace_range_correct rt s lo hi es stream k other u v h =
    let some_ledger : ltb hi lo ≡ false = ground (arith, h) in
    rw some_ledger (
      get-replace_events lo hi k es s u
          ∙ overwritten-latest lo hi k es _
          ∙ ap (replaced_by (latest lo hi k es))
              (surviving-deleted StoredEvent.ledger lo hi (get k s.events)),
      get-replaced_fees lo hi k es s v,
      get-put_cases other stream (hi + 1) _
          ∙ ap (λ d. if same_bytes stream other then some (hi + 1) else get other d)
              (replace_events-checkpoints lo hi es s),
      replace_events_twice lo hi k es s
          (rebuild_ledger rt (set_checkpoint stream (hi + 1) (replace_events lo hi es s))) u refl,
    )
