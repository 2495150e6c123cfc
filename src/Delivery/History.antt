-- ===== src/Delivery/History.antt =====
-- What holds of the tables of packages/indexer/src/delivery.ts whatever its workers do, in any order.
use stellar_agentic.Base.{
  ◌≡◌, refl, sym, ap, ◌∙◌, Bool, true, false, ◌&&◌, List, [], ◌∷◌, All, Bool-cases, inl, inr,
  or-eq_false, arith,
}
use stellar_agentic.Base.Texts.{same_bytes, same_bytes-eq, same_bytes_refl}
use stellar_agentic.Delivery.Rows.{Distinct}
use stellar_agentic.Delivery.States.{HasKey}
use stellar_agentic.Delivery.Tables.{is_taken}
use stellar_agentic.Delivery.Calls.{Closed, operate_kept}
use stellar_agentic.Delivery.Operations.{Operation, operate, operate_all}
use stellar_agentic.Delivery.Invariant.{Inv, closed-Inv, closed-HasKey}
use stellar_agentic.Delivery.{Platform, DeliveryStore, ReportDelivery, destination_id}

-- A property that every change keeps outlasts any history.
history_kept :
    (P : List ReportDelivery → Type 0) (closed : Closed P) (p : Platform) (os : List Operation)
    (t : DeliveryStore)
    → P t.deliveries
    → P (operate_all p os t).deliveries
unfolding operate_all
history_kept P closed p [] t i = i
history_kept P closed p (o ∷ os) t i =
    history_kept P closed p os (operate p o t) (operate_kept P closed p o t i)

-- Both are of one run of one schedule, for one destination.
abbrev pub same_run : ReportDelivery → ReportDelivery → Bool
same_run d e =
    same_bytes d.schedule_id e.schedule_id
    && same_bytes d.run_key e.run_key
    && same_bytes (destination_id d.destination) (destination_id e.destination)

-- No two deliveries are of one run for one destination.
unfoldable pub OnePerRun : List ReportDelivery → Type 0
OnePerRun [] = Unit
OnePerRun (d ∷ ds) = All (λ e. same_run d e ≡ false) ds × OnePerRun ds

same_run-key :
    (d e : ReportDelivery)
    → HasKey d
    → HasKey e
    → same_run d e ≡ true
    → e.idempotency_key ≡ d.idempotency_key
unfolding HasKey
same_run-key d e h k r =
    let schedules = same_bytes-eq d.schedule_id e.schedule_id (ground (arith, r)) in
    let runs = same_bytes-eq d.run_key e.run_key (ground (arith, r)) in
    let to =
      same_bytes-eq (destination_id d.destination) (destination_id e.destination)
        (ground (arith, r)) in
    k ∙ rw (schedules, runs, to) refl ∙ sym h

untaken-same_run :
    (d e : ReportDelivery) → HasKey d → HasKey e → is_taken d e ≡ false → same_run d e ≡ false
untaken-same_run d e h k free = elim (Bool-cases (same_run d e)) [
  | inl r ↦
      let key = same_run-key d e h k r in
      let other = (or-eq_false (same_bytes e.delivery_id d.delivery_id) _ free).1 in
      let same = ap (λ i. same_bytes i d.idempotency_key) key ∙ same_bytes_refl d.idempotency_key in
      absurd cc
  | inr r ↦ r
]

others-same_run :
    (d : ReportDelivery) (ds : List ReportDelivery)
    → HasKey d
    → All HasKey ds
    → All (λ e. is_taken d e ≡ false) ds
    → All (λ e. same_run d e ≡ false) ds
others-same_run d [] h ks free = tt
others-same_run d (e ∷ es) h ks free =
    (untaken-same_run d e h ks.0 free.0, others-same_run d es h ks.1 free.1)

distinct-OnePerRun : (ds : List ReportDelivery) → All HasKey ds → Distinct ds → OnePerRun ds
unfolding OnePerRun Distinct
distinct-OnePerRun [] ks u = tt
distinct-OnePerRun (d ∷ ds) ks u =
    (others-same_run d ds ks.0 ks.1 u.0, distinct-OnePerRun ds ks.1 u.1)

-- Whatever calls of the store its workers make, in any order and with any arguments, refused ones
-- included, the columns of every delivery agree with its status: a pending one has no attempt, a
-- claimed one has a lease and an attempt, a delivered one the time of its delivery and no error, a
-- dead one its error, and no other has a lease or a time of delivery. The key of a delivery is made of
-- its schedule, its run and its destination, no two deliveries share an id or a key, and no two are of
-- one run of one schedule for destinations of one id, however often the run is enqueued. It is assumed
-- that the tables are so before the calls, as empty ones are.
pub operate_all-Inv :
    (p : Platform) (os : List Operation) (t : DeliveryStore)
    → Inv t.deliveries
    → All HasKey t.deliveries
    → Inv (operate_all p os t).deliveries
      × All HasKey (operate_all p os t).deliveries
      × OnePerRun (operate_all p os t).deliveries
operate_all-Inv p os t i k =
    let j = history_kept Inv closed-Inv p os t i in
    let l = history_kept (All HasKey) closed-HasKey p os t k in
    (j, l, distinct-OnePerRun _ l j.distinct)
