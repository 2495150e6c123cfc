-- ===== src/Delivery/Invariant.antt =====
-- Each operation of `ReportDeliveryStore` in packages/indexer/src/delivery.ts keeps the deliveries sound.
use stellar_agentic.Base.{
  ◌++◌, ℕ, ◌≡◌, refl, sym, subst, Bool, true, false, some, List, [], ◌∷◌, find, update, update-All,
  Bool-cases, inl, inr, All, All-append, arith,
}
use stellar_agentic.Base.Numbers.{Bytes, Real, at_most_integer}
use stellar_agentic.Base.Int.{pos}
use stellar_agentic.Delivery.Claims.{
  same_status, has_delivery_id, is_claimed, is_row, claimed, finished, failed, failed_status,
  is_dead, replayed,
}
use stellar_agentic.Delivery.Calls.{Closed}
use stellar_agentic.Delivery.Rows.{Distinct, append-Distinct, update-Distinct, claimed-only}
use stellar_agentic.Delivery.States.{
  StatusSound, RowSound, HasKey, QueuedSound, same_status-eq, is_open, open-undelivered,
}
use stellar_agentic.Delivery.Tables.{is_taken}
use stellar_agentic.Delivery.{DeliveryStatus, delivering, dead_letter, ReportDelivery}

-- Every delivery is sound, and no two share an id or an idempotency key.
pub record Inv (ds : List ReportDelivery) : Type 0 where
  pub sound : All RowSound ds
  pub distinct : Distinct ds

-- A change of some rows.
update-Inv :
    (f : ReportDelivery → Bool) (g : ReportDelivery → ReportDelivery) (ds : List ReportDelivery)
    → ((d : ReportDelivery)
        → ((g d).delivery_id ≡ d.delivery_id) × ((g d).idempotency_key ≡ d.idempotency_key))
    → ((d : ReportDelivery) → f d ≡ true → RowSound d → RowSound (g d))
    → Inv ds
    → Inv (update f g ds)
update-Inv f g ds keeps h i = record {
  sound = update-All RowSound f g ds h i.sound;
  distinct = update-Distinct f g keeps ds i.distinct;
}

claimed-HasKey :
    (lease timestamp : Bytes) (d : ReportDelivery) → HasKey d → HasKey (claimed lease timestamp d)
unfolding HasKey
claimed-HasKey lease timestamp d h = h

finished-HasKey :
    (timestamp : Bytes) (d : ReportDelivery) → HasKey d → HasKey (finished timestamp d)
unfolding HasKey
finished-HasKey timestamp d h = h

failed-HasKey :
    (status : DeliveryStatus) (next error timestamp : Bytes) (d : ReportDelivery)
    → HasKey d
    → HasKey (failed status next error timestamp d)
unfolding HasKey
failed-HasKey status next error timestamp d h = h

replayed-HasKey :
    (timestamp : Bytes) (d : ReportDelivery) → HasKey d → HasKey (replayed timestamp d)
unfolding HasKey
replayed-HasKey timestamp d h = h

claimed-Sound :
    (lease timestamp : Bytes) (row d : ReportDelivery)
    → is_open row.status ≡ true
    → is_row row d ≡ true
    → RowSound d
    → RowSound (claimed lease timestamp d)
unfolding RowSound StatusSound
claimed-Sound lease timestamp row d o h r =
    let same : same_status d.status row.status ≡ true = ground (arith, h) in
    let open_d = subst (λ s. is_open s ≡ true) (sym (same_status-eq d.status row.status same)) o in
    (
      omega arith,
      (lease, refl),
      open-undelivered d.status d.attempt_count d.lease_until d.last_error d.delivered_at open_d r,
    )

finished-Sound :
    (id timestamp : Bytes) (d : ReportDelivery)
    → is_claimed id d ≡ true
    → RowSound d
    → RowSound (finished timestamp d)
unfolding RowSound StatusSound
finished-Sound id timestamp d h r =
    let same : same_status d.status delivering ≡ true = ground (arith, h) in
    let s =
      subst (λ s. StatusSound s d.attempt_count d.lease_until d.last_error d.delivered_at)
        (same_status-eq d.status delivering same) r in
    (s.0, refl, refl, (timestamp, refl))

failed-Sound :
    (max : Real) (n : ℕ) (next error timestamp : Bytes) (d : ReportDelivery)
    → same_status d.status delivering ≡ true
    → RowSound d
    → RowSound (failed (failed_status max n) next error timestamp d)
unfolding RowSound StatusSound
failed-Sound max n next error timestamp d h r =
    let s =
      subst (λ s. StatusSound s d.attempt_count d.lease_until d.last_error d.delivered_at)
        (same_status-eq d.status delivering h) r in
    elim (Bool-cases (at_most_integer max (pos n))) [
      | inl e ↦ rw e (s.0, refl, (error, refl), s.2)
      | inr e ↦ rw e (refl, s.2)
    ]

replayed-Sound :
    (id timestamp : Bytes) (d : ReportDelivery)
    → is_dead id d ≡ true
    → RowSound d
    → RowSound (replayed timestamp d)
unfolding RowSound StatusSound
replayed-Sound id timestamp d h r =
    let same : same_status d.status dead_letter ≡ true = ground (arith, h) in
    let s =
      subst (λ s. StatusSound s d.attempt_count d.lease_until d.last_error d.delivered_at)
        (same_status-eq d.status dead_letter same) r in
    (refl, s.3)

finished-Inv :
    (id timestamp : Bytes) (ds : List ReportDelivery)
    → Inv ds
    → Inv (update (is_claimed id) (finished timestamp) ds)
finished-Inv id timestamp ds i =
    update-Inv (is_claimed id) (finished timestamp) ds (λ d. (refl, refl))
      (finished-Sound id timestamp) i

replayed-Inv :
    (id timestamp : Bytes) (ds : List ReportDelivery)
    → Inv ds
    → Inv (update (is_dead id) (replayed timestamp) ds)
replayed-Inv id timestamp ds i =
    update-Inv (is_dead id) (replayed timestamp) ds (λ d. (refl, refl))
      (replayed-Sound id timestamp) i

-- A failure updates every row under the id, but they are all being delivered.
failed-rows :
    (id next error timestamp : Bytes) (max : Real) (n : ℕ) (ds : List ReportDelivery)
    → All (λ d. has_delivery_id id d ≡ true → same_status d.status delivering ≡ true) ds
    → All RowSound ds
    → All RowSound
        (update (has_delivery_id id) (failed (failed_status max n) next error timestamp) ds)
failed-rows id next error timestamp max n [] c s = tt
failed-rows id next error timestamp max n (d ∷ ds) c s =
    let rest = failed-rows id next error timestamp max n ds c.1 s.1 in
    elim (Bool-cases (has_delivery_id id d)) [
      | inl e ↦ rw e (failed-Sound max n next error timestamp d (c.0 e) s.0, rest)
      | inr e ↦ rw e (s.0, rest)
    ]

failed-Inv :
    (id next error timestamp : Bytes) (max : Real) (n : ℕ) (r : ReportDelivery)
    (ds : List ReportDelivery)
    → find (is_claimed id) ds ≡ some r
    → Inv ds
    → Inv (update (has_delivery_id id) (failed (failed_status max n) next error timestamp) ds)
failed-Inv id next error timestamp max n r ds found i = record {
  sound =
      failed-rows id next error timestamp max n ds (claimed-only id ds r found i.distinct) i.sound;
  distinct =
      update-Distinct (has_delivery_id id) (failed (failed_status max n) next error timestamp)
        (λ d. (refl, refl)) ds i.distinct;
}

appended-Inv :
    (d : ReportDelivery) (ds : List ReportDelivery)
    → All (λ e. is_taken d e ≡ false) ds
    → QueuedSound d
    → Inv ds
    → Inv (ds ++ d ∷ [])
unfolding QueuedSound
appended-Inv d ds free s i = record {
  sound = All-append RowSound ds (d ∷ []) i.sound (s.0, tt);
  distinct = append-Distinct d ds free i.distinct;
}

pub closed-Inv : Closed Inv
closed-Inv = record {
  claimed_kept = λ lease timestamp row ds o.
      update-Inv (is_row row) (claimed lease timestamp) ds (λ d. (refl, refl))
        (λ d. claimed-Sound lease timestamp row d o);
  finished_kept = finished-Inv;
  failed_kept = failed-Inv;
  replayed_kept = replayed-Inv;
  queued_kept = appended-Inv;
}

-- The keys stay too, since no change touches what they name.
pub closed-HasKey : Closed (All HasKey)
unfolding QueuedSound
closed-HasKey = record {
  claimed_kept = λ lease timestamp row ds o.
      update-All HasKey (is_row row) (claimed lease timestamp) ds
        (λ d _. claimed-HasKey lease timestamp d);
  finished_kept = λ id timestamp ds.
      update-All HasKey (is_claimed id) (finished timestamp) ds
        (λ d _. finished-HasKey timestamp d);
  failed_kept = λ id next error timestamp max n r ds found.
      update-All HasKey (has_delivery_id id) (failed (failed_status max n) next error timestamp) ds
        (λ d _. failed-HasKey (failed_status max n) next error timestamp d);
  replayed_kept = λ id timestamp ds.
      update-All HasKey (is_dead id) (replayed timestamp) ds (λ d _. replayed-HasKey timestamp d);
  queued_kept = λ d ds free s k. All-append HasKey ds (d ∷ []) k (s.1, tt);
}
