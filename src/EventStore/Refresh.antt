-- ===== src/EventStore/Refresh.antt =====
-- The ledger that a store of packages/indexer/src/store.ts caches accounts for what it holds.
use stellar_agentic.Base.{
  ℕ, zero, suc, ◌+◌, ◌≤◌, ◌≡◌, refl, ap, ap₂, ◌∙◌, Bool, false, List, [], ◌∷◌, ltb, length, count,
  first_of, drop-zero, Bool-cases, inl, inr, All, arith,
}
use stellar_agentic.Base.Numbers.{Bytes}
use stellar_agentic.Base.Sorting.{insert, sort, count-sort}
use stellar_agentic.Base.Texts.{Dict}
use stellar_agentic.EventStore.{
  Store, IncomingEvent, normalized, rebuild_ledger, replace_events, set_checkpoint, replace_range,
  all_events, fee_le, values_of,
}
use stellar_agentic.Ledger.Balance.{IsBalanced}
use stellar_agentic.Ledger.Normalize.{event_le}
use stellar_agentic.Ledger.Records.{
  normalize_ledger-IsBalanced, normalize_ledger-records, records, moves_as, has_id,
}
use stellar_agentic.Ledger.{Runtime, NormalizedLedger}

-- The caches are the normalized ledger of what is stored.
pub record IsFresh (rt : Runtime) (s : Store) : Type 0 where
  pub entries : s.cached_entries ≡ (normalized rt s).entries
  pub issues : s.cached_issues ≡ (normalized rt s).issues

pub rebuild_ledger-IsFresh : (rt : Runtime) (s : Store) → IsFresh rt (rebuild_ledger rt s)
unfolding rebuild_ledger normalized all_events
rebuild_ledger-IsFresh rt s = record { entries = refl; issues = refl }

replace_range-IsFresh :
    (rt : Runtime) (s : Store) (lo hi : ℕ) (es : List IncomingEvent) (stream : Bytes)
    → lo ≤ hi
    → IsFresh rt (replace_range rt s lo hi es stream)
unfolding replace_range
replace_range-IsFresh rt s lo hi es stream h =
    let some_ledger : ltb hi lo ≡ false = ground (arith, h) in
    rw some_ledger
      (rebuild_ledger-IsFresh rt (set_checkpoint stream (hi + 1) (replace_events lo hi es s)))

length-insert :
    {A : Type 0} (le : A → A → Bool) (x : A) (xs : List A)
    → length (insert le x xs) ≡ suc (length xs)
unfolding insert
length-insert le x [] = refl
length-insert le x (y ∷ ys) = elim (Bool-cases (le x y)) [
  | inl e ↦ rw e refl
  | inr e ↦ rw e (ap suc (length-insert le x ys))
]

length-sort : {A : Type 0} (le : A → A → Bool) (xs : List A) → length (sort le xs) ≡ length xs
unfolding sort
length-sort le [] = refl
length-sort le (x ∷ xs) = length-insert le x (sort le xs) ∙ ap suc (length-sort le xs)

length-values_of : {V : Type 0} (d : Dict V) → length (values_of d) ≡ length d
length-values_of [] = refl
length-values_of ((k, v) ∷ d) = ap suc (length-values_of d)

first_of-all : {A : Type 0} (n : ℕ) (xs : List A) → length xs ≤ n → first_of n xs ≡ xs
first_of-all zero [] h = refl
first_of-all zero (x ∷ xs) h = absurd (omega (arith, h))
first_of-all (suc n) [] h = refl
first_of-all (suc n) (x ∷ xs) h = ap (◌∷◌ x) (first_of-all n xs (omega (arith, h)))

-- Within the limit of `rebuildLedger` the events are all read.
all_events-every :
    (rt : Runtime) (s : Store)
    → length s.events ≤ 1000000
    → all_events rt s 1000000 0 ≡ sort (event_le rt) (values_of s.events)
unfolding all_events
all_events-every rt s h =
    ap (first_of 1000000) (drop-zero (sort (event_le rt) (values_of s.events)))
    ∙ first_of-all 1000000 (sort (event_le rt) (values_of s.events)) (
        omega (arith, h, length-sort (event_le rt) (values_of s.events), length-values_of s.events))

-- The ledger that the store answers from.
abbrev pub cached : Store → NormalizedLedger
cached s = record { entries = s.cached_entries; issues = s.cached_issues }

-- The ledger of a store: balanced, and with the records of the events that the store holds.
pub record Accounts (s : Store) (id : Bytes) : Type 0 where
  pub balanced : All IsBalanced s.cached_entries
  pub complete : count (moves_as id) (values_of s.events) ≤ records id (cached s)
  pub single : records id (cached s) ≤ count (has_id id) (values_of s.events)

fresh-Accounts :
    (rt : Runtime) (s : Store) (id : Bytes)
    → length s.events ≤ 1000000
    → IsFresh rt s
    → Accounts s id
unfolding normalized
fresh-Accounts rt s id h f =
    let fees = sort (fee_le rt) (values_of s.fees) in
    let events = all_events rt s 1000000 0 in
    let every = all_events-every rt s h in
    let bounds = normalize_ledger-records rt events fees id in
    let kept = ap (count (moves_as id)) every ∙ count-sort (event_le rt) (moves_as id) _ in
    let held = ap (count (has_id id)) every ∙ count-sort (event_le rt) (has_id id) _ in
    let same = ap₂ (λ e i. records id (record { entries = e; issues = i })) f.entries f.issues in
    record {
      balanced = rw f.entries (normalize_ledger-IsBalanced rt events fees);
      complete = omega (arith, bounds.0, kept, same);
      single = omega (arith, bounds.1, held, same);
    }

-- After a range of ledgers is replaced, the ledger that the store answers from accounts for the events
-- that the store then holds, if these are a million at most: each of its entries is balanced, and
-- under each id it has at least as many entries and issues as the store holds events of the id that
-- move money, and at most as many as it holds events of the id.
pub replace_range-Accounts :
    (rt : Runtime) (s : Store) (lo hi : ℕ) (es : List IncomingEvent) (stream id : Bytes)
    → lo ≤ hi
    → length (replace_range rt s lo hi es stream).events ≤ 1000000
    → Accounts (replace_range rt s lo hi es stream) id
replace_range-Accounts rt s lo hi es stream id h small =
    fresh-Accounts rt (replace_range rt s lo hi es stream) id small
      (replace_range-IsFresh rt s lo hi es stream h)
