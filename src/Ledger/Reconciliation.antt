-- ===== src/Ledger/Reconciliation.antt =====
-- What a reconciliation of packages/indexer/src/ledger.ts tells: the balances that it compares, and
-- the keys under which it compares them.
use mathlib.Core.Option.{some-injective}
use stellar_agentic.Base.{
  ◌≡◌, refl, sym, ap, subst, ◌∙◌, ◌↔◌, inl, inr, Bool, true, false, not, ◌&&◌, ◌||◌, Option, none,
  some, List, [], ◌∷◌, ◌++◌, map, keep, ◌==◌, if◌then◌else◌, ok, >>=-eq_ok, ok_injective,
  Bool-cases, All, count, arith,
}
use stellar_agentic.Base.Int.{ℤ, pos, ◌+ℤ◌, ◌-ℤ◌, int_laws}
use stellar_agentic.Base.Numbers.{Bytes}
use stellar_agentic.Base.Sorting.{count-sort}
use stellar_agentic.Base.Texts.{same_bytes, same_bytes-eq, member, Dict, get, put, keys}
use stellar_agentic.Ledger.Balance.{total, total-put, add_assoc, zero_add, add_zero, is_zero-eq}
use stellar_agentic.Ledger.Entries.{default, is_zero}
use stellar_agentic.Ledger.Reconcile.{
  position_key, split_key, passes, positions, or_none, add_postings, activity_of, distinct, line_of,
  is_matched, is_matched_status, status_of, difference_of, every_matched, from_of, in_range,
  check_request, line_le, line_keys, lines_of, reconcile_ledger,
}
use stellar_agentic.Ledger.{
  Runtime, LedgerPosting, LedgerEntry, ReconciliationRequest, matched, discrepancy,
  ReconciliationLine, ReconciliationResult,
}

-- A key gives back the account and the asset that it was made of, where the account has no zero byte.
pub split_key-position_key :
    (account asset : Bytes)
    → All (λ c. (c == 0) ≡ false) account
    → split_key (position_key account asset) ≡ (account, asset)
unfolding position_key split_key
split_key-position_key [] asset h = refl
split_key-position_key (c ∷ cs) asset h =
    rw h.0 (ap (λ p. (c ∷ p.0, p.1)) (split_key-position_key cs asset h.1))

-- What the postings that pass the filter add under a key.
abbrev pub moved : Option (List Bytes) → Bytes → List LedgerPosting → ℤ
moved accounts k [] = pos 0
moved accounts k (p ∷ ps) =
    (if passes accounts p.account && same_bytes (position_key p.account p.asset) k
      then p.amount
      else pos 0)
    +ℤ moved accounts k ps

-- What the entries add under a key.
abbrev pub moved_by : Option (List Bytes) → Bytes → List LedgerEntry → ℤ
moved_by accounts k [] = pos 0
moved_by accounts k (e ∷ es) = moved accounts k e.postings +ℤ moved_by accounts k es

step_total :
    (k key : Bytes) (b : Bool) (z : ℤ) (d : Dict ℤ)
    → total k (if not b then d else put key (total key d +ℤ z) d)
      ≡ total k d +ℤ (if b && same_bytes key k then z else pos 0)
step_total k key true z d = total-put k key z d
step_total k key false z d = omega int_laws

total-add_postings :
    (accounts : Option (List Bytes)) (k : Bytes) (ps : List LedgerPosting) (d : Dict ℤ)
    → total k (add_postings accounts ps d) ≡ total k d +ℤ moved accounts k ps
unfolding add_postings
total-add_postings accounts k [] d = omega int_laws
total-add_postings accounts k (p ∷ ps) d =
    let key = position_key p.account p.asset in
    let b = passes accounts p.account in
    total-add_postings accounts k ps (if not b then d else put key (total key d +ℤ p.amount) d)
    ∙ ap (λ t. t +ℤ moved accounts k ps) (step_total k key b p.amount d)
    ∙ add_assoc (total k d) (if b && same_bytes key k then p.amount else pos 0)
        (moved accounts k ps)

-- The activity under a key is what the postings add under it.
pub total-activity_of :
    (accounts : Option (List Bytes)) (k : Bytes) (es : List LedgerEntry) (d : Dict ℤ)
    → total k (activity_of accounts es d) ≡ total k d +ℤ moved_by accounts k es
unfolding activity_of
total-activity_of accounts k [] d = omega int_laws
total-activity_of accounts k (e ∷ es) d =
    total-activity_of accounts k es (add_postings accounts e.postings d)
    ∙ ap (λ t. t +ℤ moved_by accounts k es) (total-add_postings accounts k e.postings d)
    ∙ add_assoc (total k d) (moved accounts k e.postings) (moved_by accounts k es)

-- A key that is not among the keys of a map has the total zero.
total-not_member : (k : Bytes) (d : Dict ℤ) → member k (keys d) ≡ false → total k d ≡ pos 0
total-not_member k [] h = refl
total-not_member k ((j, v) ∷ d) h = ground (arith, total-not_member k d)

member-append :
    (k : Bytes) (xs ys : List Bytes) → member k (xs ++ ys) ≡ (member k xs || member k ys)
member-append k [] ys = refl
member-append k (x ∷ xs) ys = ground (arith, member-append k xs ys)

not_member-append :
    (k : Bytes) (xs ys : List Bytes)
    → member k (xs ++ ys) ≡ false
    → (member k xs ≡ false) × (member k ys ≡ false)
not_member-append k xs ys h = ground (arith, member-append k xs ys)

member-distinct :
    (k : Bytes) (seen ks : List Bytes)
    → member k seen ≡ false
    → member k ks ≡ true
    → member k (distinct seen ks) ≡ true
unfolding distinct
member-distinct k seen [] n h = h
member-distinct k seen (j ∷ ks) n h = elim (Bool-cases (same_bytes j k)) [
  | inl e ↦
      let fresh = subst (λ i. member i seen ≡ false) (sym (same_bytes-eq j k e)) n in
      rw (fresh, e) refl
  | inr e ↦
      let later : member k ks ≡ true = ground arith in
      elim (Bool-cases (member j seen)) [
        | inl s ↦ rw s (member-distinct k seen ks n later)
        | inr s ↦ rw (s, e) (member-distinct k (j ∷ seen) ks (ground arith) later)
      ]
]

member-keep :
    (f : Bytes → Bool) (k : Bytes) (ks : List Bytes)
    → f k ≡ true
    → member k ks ≡ true
    → member k (keep f ks) ≡ true
member-keep f k [] p h = h
member-keep f k (j ∷ ks) p h = elim (Bool-cases (same_bytes j k)) [
  | inl e ↦ let kept = subst (λ i. f i ≡ true) (sym (same_bytes-eq j k e)) p in rw (kept, e) refl
  | inr e ↦
      let later : member k ks ≡ true = ground arith in
      elim (Bool-cases (f j)) [
        | inl t ↦ rw (t, e) (member-keep f k ks p later)
        | inr t ↦ rw t (member-keep f k ks p later)
      ]
]

unmatched : ReconciliationLine → Bool
unmatched l = not (is_matched l)

every_matched-count :
    (ls : List ReconciliationLine) → every_matched ls ≡ true → count unmatched ls ≡ 0
unfolding unmatched
every_matched-count [] h = refl
every_matched-count (l ∷ ls) h = ground (arith, every_matched-count ls)

matched_at :
    (f : Bytes → ReconciliationLine) (k : Bytes) (ks : List Bytes)
    → count unmatched (map f ks) ≡ 0
    → member k ks ≡ true
    → is_matched (f k) ≡ true
unfolding unmatched
matched_at f k [] h m = cc
matched_at f k (j ∷ ks) h m = elim (Bool-cases (same_bytes j k)) [
  | inl e ↦ subst (λ i. is_matched (f i) ≡ true) (same_bytes-eq j k e) (ground arith)
  | inr e ↦ matched_at f k ks (omega (arith, h)) (ground arith)
]

restore : (v x : ℤ) → v ≡ x +ℤ (v -ℤ x)
restore v x = omega int_laws

difference_zero : (v x : ℤ) → is_zero (v -ℤ x) ≡ true → v ≡ x
difference_zero v x h = restore v x ∙ ap (◌+ℤ◌ x) (is_zero-eq (v -ℤ x) h) ∙ add_zero x

zero_difference : (x : ℤ) → x -ℤ x ≡ pos 0
zero_difference x = omega int_laws

status_of-matched :
    (o : Option ℤ) (x : ℤ)
    → (is_matched_status (status_of (difference_of o x)) ≡ true) ↔ (o ≡ some x)
unfolding status_of difference_of
status_of-matched none x = (λ h. cc, λ h. cc)
status_of-matched (some v) x = (
  λ h. ap some (difference_zero v x (ground arith)),
  λ h.
      subst (λ u. is_matched_status (if is_zero (u -ℤ x) then matched else discrepancy) ≡ true)
        (sym (some-injective _ _ h)) (rw (zero_difference x) refl),
)

-- A line is matched exactly if the balance on the chain is the expected one.
line_of-is_matched :
    (opening observed activity : Dict ℤ) (k : Bytes)
    → (is_matched (line_of opening observed activity k) ≡ true)
      ↔ (get k observed ≡ some (total k opening +ℤ total k activity))
unfolding line_of
line_of-is_matched opening observed activity k =
    status_of-matched (get k observed) (total k opening +ℤ total k activity)

-- The keys that no line is made of have no total.
module _ (rt : Runtime) (accounts : Option (List Bytes)) (opening observed activity : Dict ℤ) where
  lines_of_sound :
      every_matched (lines_of rt accounts opening observed activity) ≡ true
      → (k : Bytes) → passes accounts (split_key k).0 ≡ true
      → total k observed ≡ total k opening +ℤ total k activity
  unfolding lines_of line_keys
  lines_of_sound h k p =
      let ks = keys opening ++ keys observed ++ keys activity in
      let f : Bytes → Bool = λ i. passes accounts (split_key i).0 in
      let line = line_of opening observed activity in
      let none_left =
        sym (count-sort (line_le rt) unmatched (map line (keep f (distinct [] ks))))
        ∙ every_matched-count _ h in
      elim (Bool-cases (member k ks)) [
        | inl m ↦ ap default (
            (line_of-is_matched opening observed activity k).0 (
              matched_at line k _ none_left (member-keep f k _ p (member-distinct k [] ks refl m))))
        | inr m ↦
            let apart = not_member-append k (keys opening ++ keys observed) (keys activity) m in
            let apart' = not_member-append k (keys opening) (keys observed) apart.0 in
            rw
              (
                total-not_member k opening apart'.0,
                total-not_member k observed apart'.1,
                total-not_member k activity apart.1,
              )
              (sym (add_zero (pos 0)))
      ]

-- If a reconciliation says that the ledger is reconciled, then under every key whose account passes
-- the filter the balance on the chain is the opening balance and what the postings of the entries in
-- the range of ledgers add, a balance that is not given counting as zero.
pub reconcile_ledger_sound :
    (rt : Runtime) (entries : List LedgerEntry) (r : ReconciliationRequest)
    (res : ReconciliationResult) (opening observed : Dict ℤ)
    → reconcile_ledger rt entries r ≡ ok res
    → positions rt (or_none r.opening_positions) ≡ ok opening
    → positions rt r.on_chain_positions ≡ ok observed
    → res.reconciled ≡ true
    → (k : Bytes) → passes r.accounts (split_key k).0 ≡ true
    → total k observed
      ≡ total k opening
        +ℤ moved_by r.accounts k (keep (in_range (from_of r) r.as_of_ledger) entries)
unfolding reconcile_ledger
reconcile_ledger_sound rt entries r res opening observed h ho hc t k p =
    let a = >>=-eq_ok (check_request r) _ h in
    let b = >>=-eq_ok (positions rt (or_none r.opening_positions)) _ a.2 in
    let c = >>=-eq_ok (positions rt r.on_chain_positions) _ b.2 in
    let relevant = keep (in_range (from_of r) r.as_of_ledger) entries in
    let activity = activity_of r.accounts relevant [] in
    let matching = ap ReconciliationResult.reconciled (ok_injective c.2) ∙ t in
    let agreed = lines_of_sound rt r.accounts b.0 c.0 activity matching k p in
    let sum =
      total-activity_of r.accounts k relevant [] ∙ zero_add (moved_by r.accounts k relevant) in
    ap (total k) (ok_injective (sym hc ∙ c.1))
    ∙ agreed
    ∙ ap (◌+ℤ◌ (total k b.0)) sum
    ∙ ap (λ d. total k d +ℤ moved_by r.accounts k relevant) (ok_injective (sym b.1 ∙ ho))
