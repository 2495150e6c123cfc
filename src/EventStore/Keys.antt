-- ===== src/EventStore/Keys.antt =====
-- The events of a store of packages/indexer/src/store.ts stay keyed by their ids while a range of ledgers is
-- replaced, and what a deletion leaves under a key.
use stellar_agentic.Base.{
  ℕ, ◌≡◌, refl, subst, ◌∙◌, Bool, true, false, not, Option, none, some, List, [], ◌∷◌, keep,
  if◌then◌else◌, Bool-cases, inl, inr,
}
use stellar_agentic.Base.Numbers.{Bytes}
use stellar_agentic.Base.Texts.{same_bytes, same_bytes-eq, Dict, get, NodupKeys, put-NodupKeys}
use stellar_agentic.EventStore.{
  Store, IncomingEvent, within_range, delete_range, stored, is_outside, insert_unless,
  insert_events, replace_events,
}
use stellar_agentic.Ledger.{StoredEvent}

module _ {V : Type 0} where
  -- The deletion, seen at one key.
  abbrev pub deleted : (V → Bool) → Option V → Option V
  deleted f none = none
  deleted f (some v) = if f v then none else some v

  deleted_absent : (f : V → Bool) (o : Option V) → o ≡ none → deleted f o ≡ none
  deleted_absent f o h = rw h refl

  pub get-keep :
      (f : V → Bool) (k : Bytes) (d : Dict V)
      → NodupKeys d
      → get k (keep (λ p. not (f p.1)) d) ≡ deleted f (get k d)
  get-keep f k [] u = refl
  get-keep f k ((j, v) ∷ d) u = elim (Bool-cases (same_bytes j k)) [
    | inl e ↦ elim (Bool-cases (f v)) [
      | inl t ↦
          let absent = subst (λ i. get i d ≡ none) (same_bytes-eq j k e) u.0 in
          rw (t, e, t) (get-keep f k d u.1 ∙ deleted_absent f (get k d) absent)
      | inr t ↦ rw (t, e, t) refl
    ]
    | inr e ↦ elim (Bool-cases (f v)) [
      | inl t ↦ rw (t, e) (get-keep f k d u.1)
      | inr t ↦ rw (t, e) (get-keep f k d u.1)
    ]
  ]

keep-NodupKeys :
    (f : StoredEvent → Bool) (d : Dict StoredEvent)
    → NodupKeys d
    → NodupKeys (keep (λ p. not (f p.1)) d)
keep-NodupKeys f [] u = tt
keep-NodupKeys f ((j, v) ∷ d) u = elim (Bool-cases (f v)) [
  | inl t ↦ rw t (keep-NodupKeys f d u.1)
  | inr t ↦ rw t (get-keep f j d u.1 ∙ deleted_absent f (get j d) u.0, keep-NodupKeys f d u.1)
]

-- No event stands twice in the store.
abbrev pub IsKeyed : Store → Type 0
IsKeyed s = NodupKeys s.events

insert_unless-IsKeyed :
    (b : Bool) (e : IncomingEvent) (s : Store) → IsKeyed s → IsKeyed (insert_unless b e s)
insert_unless-IsKeyed true e s u = u
insert_unless-IsKeyed false e s u = put-NodupKeys e.event_id (stored e) s.events u

insert_events-IsKeyed :
    (lo hi : ℕ) (es : List IncomingEvent) (s : Store)
    → IsKeyed s
    → IsKeyed (insert_events lo hi es s)
unfolding insert_events
insert_events-IsKeyed lo hi [] s u = u
insert_events-IsKeyed lo hi (e ∷ es) s u =
    insert_events-IsKeyed lo hi es (insert_unless (is_outside lo hi e) e s)
      (insert_unless-IsKeyed (is_outside lo hi e) e s u)

pub replace_events-IsKeyed :
    (lo hi : ℕ) (es : List IncomingEvent) (s : Store)
    → IsKeyed s
    → IsKeyed (replace_events lo hi es s)
unfolding replace_events delete_range
replace_events-IsKeyed lo hi es s u =
    insert_events-IsKeyed lo hi es (delete_range lo hi s)
      (keep-NodupKeys (λ v. within_range lo hi (StoredEvent.ledger v)) s.events u)
