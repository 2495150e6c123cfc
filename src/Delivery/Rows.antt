-- ===== src/Delivery/Rows.antt =====
-- The rows of the deliveries of packages/indexer/src/delivery.ts: no two of them share an id or an
-- idempotency key.
use stellar_agentic.Base.{
  ◌≡◌, refl, sym, ap, ◌∙◌, Bool, true, false, Option, none, some, List, [], ◌∷◌, ◌++◌, find, update,
  if◌then◌else◌, Bool-cases, inl, inr, ◌⊎◌, subst, All, All-imp, All-append, update-All, arith,
  or-eq_false,
}
use stellar_agentic.Base.Numbers.{Bytes}
use stellar_agentic.Base.Texts.{same_bytes, same_bytes-eq, same_bytes_refl}
use stellar_agentic.Delivery.Claims.{has_delivery_id, is_claimed, same_status}
use stellar_agentic.Delivery.Tables.{is_taken}
use stellar_agentic.Delivery.{delivering, ReportDelivery}

-- One step of a search.
search-none :
    {A : Type 0} (b : Bool) (x : A) (o : Option A)
    → (if b then some x else o) ≡ none
    → (b ≡ false) × (o ≡ none)
search-none true x o h = absurd (cc h)
search-none false x o h = (refl, h)

search-some :
    {A : Type 0} (b : Bool) (x r : A) (o : Option A)
    → (if b then some x else o) ≡ some r
    → ((b ≡ true) × (x ≡ r)) ⊎ ((b ≡ false) × (o ≡ some r))
search-some true x r o h = inl (refl, cc h)
search-some false x r o h = inr (refl, h)

pub find-none :
    {A : Type 0} (f : A → Bool) (xs : List A) → find f xs ≡ none → All (λ x. f x ≡ false) xs
find-none f [] h = tt
find-none f (x ∷ xs) h = let k = search-none (f x) x (find f xs) h in (k.0, find-none f xs k.1)

-- What is found passes the test, and what holds of every element holds of it.
pub find-some {κ} :
    {A : Type 0} (P : A → Type κ) (f : A → Bool) (xs : List A) (r : A)
    → find f xs ≡ some r
    → All P xs
    → (f r ≡ true) × P r
find-some P f [] r h a = absurd (cc h)
find-some P f (x ∷ xs) r h a = elim (search-some (f x) x r (find f xs) h) [
  | inl (e, same) ↦ (ap f (sym same) ∙ e, subst P same a.0)
  | inr (e, k) ↦ find-some P f xs r k a.1
]

same_bytes_sym : (a b : Bytes) → same_bytes a b ≡ false → same_bytes b a ≡ false
same_bytes_sym a b h = elim (Bool-cases (same_bytes b a)) [
  | inl e ↦ absurd (
      let k = subst (λ c. same_bytes c b ≡ false) (sym (same_bytes-eq b a e)) h in
      let l = same_bytes_refl b in cc)
  | inr e ↦ e
]

taken_sym : (d e : ReportDelivery) → is_taken d e ≡ false → is_taken e d ≡ false
taken_sym d e h =
    let k = or-eq_false (same_bytes e.delivery_id d.delivery_id) _ h in
    rw
      (
        same_bytes_sym e.delivery_id d.delivery_id k.0,
        same_bytes_sym e.idempotency_key d.idempotency_key k.1,
      )
      refl

-- No two rows share an id or a key.
unfoldable pub Distinct : List ReportDelivery → Type 0
Distinct [] = Unit
Distinct (d ∷ ds) = All (λ e. is_taken d e ≡ false) ds × Distinct ds

pub append-Distinct :
    (d : ReportDelivery) (ds : List ReportDelivery)
    → All (λ e. is_taken d e ≡ false) ds
    → Distinct ds
    → Distinct (ds ++ d ∷ [])
unfolding Distinct
append-Distinct d [] a u = (tt, tt)
append-Distinct d (e ∷ ds) a u = (
  All-append (λ x. is_taken e x ≡ false) ds (d ∷ []) u.0 (taken_sym d e a.0, tt),
  append-Distinct d ds a.1 u.1,
)

-- A change of rows that keeps their ids and keys.
abbrev pub KeepsKeys : (ReportDelivery → ReportDelivery) → Type 0
KeepsKeys g =
    (d : ReportDelivery)
    → ((g d).delivery_id ≡ d.delivery_id) × ((g d).idempotency_key ≡ d.idempotency_key)

module _ (f : ReportDelivery → Bool) (g : ReportDelivery → ReportDelivery)
    (keeps : KeepsKeys g) where
  update-taken : (d e : ReportDelivery) → is_taken d e ≡ false → is_taken d (g e) ≡ false
  update-taken d e h = rw ((keeps e).0, (keeps e).1) h

  updated-taken : (d e : ReportDelivery) → is_taken d e ≡ false → is_taken (g d) e ≡ false
  updated-taken d e h = rw ((keeps d).0, (keeps d).1) h

  pub update-Distinct : (ds : List ReportDelivery) → Distinct ds → Distinct (update f g ds)
  unfolding Distinct
  update-Distinct [] u = tt
  update-Distinct (d ∷ ds) u =
      let others =
        update-All (λ e. is_taken d e ≡ false) f g ds (λ e _ h. update-taken d e h) u.0 in
      elim (Bool-cases (f d)) [
        | inl t ↦
            rw t
              (All-imp (update f g ds) (λ e h. updated-taken d e h) others, update-Distinct ds u.1)
        | inr t ↦ rw t (others, update-Distinct ds u.1)
      ]

claimed_id :
    (id : Bytes) (d : ReportDelivery) → is_claimed id d ≡ true → has_delivery_id id d ≡ true
claimed_id id d h = ground arith

claimed_status :
    (id : Bytes) (d : ReportDelivery)
    → is_claimed id d ≡ true
    → same_status d.status delivering ≡ true
claimed_status id d h = ground arith

-- Two rows of one id are taken by one another.
same_id-taken :
    (id : Bytes) (d e : ReportDelivery)
    → has_delivery_id id d ≡ true
    → has_delivery_id id e ≡ true
    → is_taken d e ≡ false
    → ⊥
same_id-taken id d e h k t =
    let same = same_bytes-eq e.delivery_id id k ∙ sym (same_bytes-eq d.delivery_id id h) in
    let l = (or-eq_false (same_bytes e.delivery_id d.delivery_id) _ t).0 in
    let m = ap (λ i. same_bytes i d.delivery_id) same ∙ same_bytes_refl d.delivery_id in cc

-- Where a row under an id is being delivered, every row under the id is.
pub claimed-only :
    (id : Bytes) (ds : List ReportDelivery) (r : ReportDelivery)
    → find (is_claimed id) ds ≡ some r
    → Distinct ds
    → All (λ d. has_delivery_id id d ≡ true → same_status d.status delivering ≡ true) ds
unfolding Distinct
claimed-only id [] r h u = tt
claimed-only id (d ∷ ds) r h u =
    elim (search-some (is_claimed id d) d r (find (is_claimed id) ds) h) [
      | inl (e, same) ↦ (
        λ _. claimed_status id d e,
        All-imp ds (λ x t k. absurd (same_id-taken id d x (claimed_id id d e) k t)) u.0,
      )
      | inr (e, k) ↦ (
        λ own. absurd (
            let found = find-some (λ x. is_taken d x ≡ false) (is_claimed id) ds r k u.0 in
            same_id-taken id d r own (claimed_id id r found.0) found.1),
        claimed-only id ds r k u.1,
      )
    ]
