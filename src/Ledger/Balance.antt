-- ===== src/Ledger/Balance.antt =====
-- What `validateEntry` of packages/indexer/src/ledger.ts accepts: the postings of an entry sum to
-- zero for every asset.
use stellar_agentic.Base.{
  ◌≡◌, refl, sym, ap, subst, ◌∙◌, ◌↔◌, true, none, some, List, [], ◌∷◌, if◌then◌else◌, ok,
  Bool-cases, inl, inr, arith,
}
use stellar_agentic.Base.Int.{ℤ, pos, ◌+ℤ◌, int_laws}
use stellar_agentic.Base.Numbers.{Bytes}
use stellar_agentic.Base.Texts.{
  same_bytes, same_bytes-eq, same_bytes_refl, Dict, get, put, get-put_self, get-put_ne, NodupKeys,
  put-NodupKeys,
}
use stellar_agentic.Ledger.Entries.{default, is_zero, entry_totals, check_totals, validate_entry}
use stellar_agentic.Ledger.{LedgerPosting, LedgerEntry}

-- What the postings add to an asset.
abbrev pub net : Bytes → List LedgerPosting → ℤ
net a [] = pos 0
net a (p ∷ ps) = (if same_bytes p.asset a then p.amount else pos 0) +ℤ net a ps

abbrev pub IsBalanced : LedgerEntry → Type 0
IsBalanced e = (a : Bytes) → net a e.postings ≡ pos 0

-- The total under a key of a map.
abbrev pub total : Bytes → Dict ℤ → ℤ
total a d = default (get a d)

pub add_assoc : (a b c : ℤ) → (a +ℤ b) +ℤ c ≡ a +ℤ (b +ℤ c)
add_assoc a b c = omega int_laws

pub zero_add : (a : ℤ) → pos 0 +ℤ a ≡ a
zero_add a = omega int_laws

pub add_zero : (x : ℤ) → x +ℤ pos 0 ≡ x
add_zero x = omega int_laws

-- `map.set(key, (map.get(key) ?? 0n) + amount)`, read back at any key.
pub total-put :
    (a k : Bytes) (z : ℤ) (d : Dict ℤ)
    → total a (put k (total k d +ℤ z) d) ≡ total a d +ℤ (if same_bytes k a then z else pos 0)
total-put a k z d = elim (Bool-cases (same_bytes k a)) [
  | inl e ↦
      rw (sym (same_bytes-eq k a e), get-put_self k (total k d +ℤ z) d, same_bytes_refl k) refl
  | inr e ↦ rw (get-put_ne a k (total k d +ℤ z) d e, e) (omega int_laws)
]

pub total-entry_totals :
    (a : Bytes) (ps : List LedgerPosting) (d : Dict ℤ)
    → total a (entry_totals ps d) ≡ total a d +ℤ net a ps
unfolding entry_totals
total-entry_totals a [] d = omega int_laws
total-entry_totals a (p ∷ ps) d =
    total-entry_totals a ps (put p.asset (total p.asset d +ℤ p.amount) d)
    ∙ ap (λ t. t +ℤ net a ps) (total-put a p.asset p.amount d)
    ∙ add_assoc (total a d) (if same_bytes p.asset a then p.amount else pos 0) (net a ps)

entry_totals-NodupKeys :
    (ps : List LedgerPosting) (d : Dict ℤ) → NodupKeys d → NodupKeys (entry_totals ps d)
unfolding entry_totals
entry_totals-NodupKeys [] d u = u
entry_totals-NodupKeys (p ∷ ps) d u =
    entry_totals-NodupKeys ps _ (put-NodupKeys p.asset (total p.asset d +ℤ p.amount) d u)

pub is_zero-eq : (z : ℤ) → is_zero z ≡ true → z ≡ pos 0
is_zero-eq z h = ground arith

check_totals-head :
    (i k : Bytes) (z : ℤ) (d : Dict ℤ)
    → check_totals i ((k, z) ∷ d) ≡ ok tt
    → (z ≡ pos 0) × (check_totals i d ≡ ok tt)
unfolding check_totals
check_totals-head i k z d h = ground (arith, is_zero-eq z)

check_totals-zero :
    (i : Bytes) (d : Dict ℤ) → check_totals i d ≡ ok tt → (a : Bytes) → total a d ≡ pos 0
check_totals-zero i [] h a = refl
check_totals-zero i ((k, z) ∷ d) h a =
    let t = check_totals-head i k z d h in
    elim (Bool-cases (same_bytes k a)) [
      | inl e ↦ rw e t.0
      | inr e ↦ rw e (check_totals-zero i d t.1 a)
    ]

total_head : (k : Bytes) (z : ℤ) (d : Dict ℤ) → total k ((k, z) ∷ d) ≡ z
total_head k z d = rw (same_bytes_refl k) refl

total_tail :
    (a k : Bytes) (z : ℤ) (d : Dict ℤ)
    → get k d ≡ none
    → total a ((k, z) ∷ d) ≡ pos 0
    → total a d ≡ pos 0
total_tail a k z d fresh h = elim (Bool-cases (same_bytes k a)) [
  | inl e ↦ subst (λ b. total b d ≡ pos 0) (same_bytes-eq k a e) (ap default fresh)
  | inr e ↦ subst (λ b. default (if b then some z else get a d) ≡ pos 0) e h
]

check_totals-ok :
    (i : Bytes) (d : Dict ℤ)
    → NodupKeys d
    → ((a : Bytes) → total a d ≡ pos 0)
    → check_totals i d ≡ ok tt
unfolding check_totals
check_totals-ok i [] u h = refl
check_totals-ok i ((k, z) ∷ d) u h =
    rw (sym (total_head k z d) ∙ h k) (check_totals-ok i d u.1 λ a. total_tail a k z d u.0 (h a))

-- `validateEntry` lets an entry pass exactly if its postings sum to zero for every asset.
pub validate_entry_iff : (e : LedgerEntry) → (validate_entry e ≡ ok tt) ↔ IsBalanced e
unfolding validate_entry
validate_entry_iff e = (
  λ h a.
      sym (total-entry_totals a e.postings [] ∙ zero_add (net a e.postings))
      ∙ check_totals-zero e.entry_id (entry_totals e.postings []) h a,
  λ h.
      check_totals-ok e.entry_id (entry_totals e.postings [])
        (entry_totals-NodupKeys e.postings [] tt)
        λ a. total-entry_totals a e.postings [] ∙ zero_add (net a e.postings) ∙ h a,
)
