-- ===== src/Delivery/Tables.antt =====
-- The schedules and the artifacts of `ReportDeliveryStore` in packages/indexer/src/delivery.ts.
use stellar_agentic.Base.{
  Bool, true, false, not, ◌&&◌, ◌||◌, Option, none, some, List, [], ◌∷◌, ◌++◌, ◌==◌, keep, find,
  count, update, first_of, if◌then◌else◌, Result, ok, err, ◌>>=◌, throw_if,
}
use stellar_agentic.Base.Numbers.{Bytes}
use stellar_agentic.Base.Sorting.{sort}
use stellar_agentic.Base.Texts.{same_bytes, codes}
use stellar_agentic.Delivery.{
  Platform, ReportDestination, ReportScheduleInput, ReportSchedule, GeneratedReportArtifact,
  StoredReportArtifact, pending, ReportDelivery, DeliveryError, message, platform, DeliveryStore,
  text_le, destination_id, iso, validate_schedule,
}
use stellar_agentic.Statement.{StatementPeriod}

-- `input.enabled ?? true`
abbrev enabled_of : Option Bool → Bool
enabled_of none = true
enabled_of (some b) = b

abbrev new_schedule : ReportScheduleInput → Bytes → Bytes → ReportSchedule
new_schedule i next timestamp = record {
  schedule_id = i.schedule_id;
  subject = i.subject;
  cadence = i.cadence;
  format = i.format;
  destinations = i.destinations;
  next_run_at = next;
  enabled = enabled_of i.enabled;
  created_at = timestamp;
  updated_at = timestamp;
}

-- An insertion that updates the row of the same id, if there is one, all but its time of creation.
unfoldable pub upsert_schedule : ReportSchedule → List ReportSchedule → List ReportSchedule
upsert_schedule n [] = n ∷ []
upsert_schedule n (s ∷ ss) =
    let rest = upsert_schedule n ss in
    if same_bytes s.schedule_id n.schedule_id
    then record n { created_at = s.created_at } ∷ ss
    else s ∷ rest

unfoldable pub schedule_of : DeliveryStore → Bytes → Option ReportSchedule
schedule_of t id = find (λ s. same_bytes (ReportSchedule.schedule_id s) id) t.schedules

-- Of the saved row, what the caller gets is what `schedule` reads.
unfoldable pub save_schedule :
    Platform → ReportScheduleInput → Bytes → DeliveryStore → Result DeliveryError DeliveryStore
unfolding validate_schedule iso upsert_schedule
save_schedule p i now t = do
  _ ← validate_schedule p i
  timestamp ← iso p now (codes "now")
  next ← iso p i.next_run_at (codes "nextRunAt")
  ok (record t { schedules = upsert_schedule (new_schedule i next timestamp) t.schedules })

unfoldable pub schedules : DeliveryStore → List ReportSchedule
schedules t = sort (λ a b. text_le (ReportSchedule.schedule_id a) b.schedule_id) t.schedules

-- The order of two pairs of texts.
abbrev pub pair_le : Bytes → Bytes → Bytes → Bytes → Bool
pair_le a i b j = if same_bytes a b then text_le i j else text_le a b

unfoldable pub due_schedules :
    Platform → Bytes → DeliveryStore → Result DeliveryError (List ReportSchedule)
unfolding iso
due_schedules p now t = do
  timestamp ← iso p now (codes "now")
  ok (
      sort (λ a b. pair_le (ReportSchedule.next_run_at a) a.schedule_id b.next_run_at b.schedule_id)
        (keep (λ s. ReportSchedule.enabled s && text_le s.next_run_at timestamp) t.schedules))

abbrev is_expected : Bytes → Bytes → ReportSchedule → Bool
is_expected id expected s =
    same_bytes s.schedule_id id && same_bytes s.next_run_at expected && s.enabled

-- Whether a row was changed, and the tables behind it.
unfoldable pub advance_schedule :
    Platform
    → Bytes
    → Bytes
    → Bytes
    → Bytes
    → DeliveryStore
    → Result DeliveryError (DeliveryStore × Bool)
unfolding iso
advance_schedule p id expected_run_at next_run_at now t = do
  next ← iso p next_run_at (codes "nextRunAt")
  timestamp ← iso p now (codes "now")
  expected ← iso p expected_run_at (codes "expectedRunAt")
  let advanced =
      update (is_expected id expected)
        (λ s. record s { next_run_at = next; updated_at = timestamp }) t.schedules
  ok (record t { schedules = advanced }, count (is_expected id expected) t.schedules == 1)

unfoldable pub artifact_for_run : DeliveryStore → Bytes → Option StoredReportArtifact
artifact_for_run t run_key =
    find (λ a. same_bytes (StoredReportArtifact.run_key a) run_key) t.artifacts

abbrev exists {ℓ} : {A : Type ℓ} → Option A → Bool
exists none = false
exists (some _) = true

-- A foreign key: the schedule must be there.
abbrev pub has_schedule : DeliveryStore → Bytes → Bool
has_schedule t id = exists (schedule_of t id)

-- `INSERT OR IGNORE`: a row whose id or run is taken is left out.
abbrev pub artifact_beside :
    Option StoredReportArtifact
    → Bool
    → StoredReportArtifact
    → DeliveryStore
    → Result DeliveryError DeliveryStore
artifact_beside (some _) known a t = ok t
artifact_beside none true a t = ok (record t { artifacts = t.artifacts ++ a ∷ [] })
artifact_beside none false a t = err platform

abbrev takes_place : StoredReportArtifact → StoredReportArtifact → Bool
takes_place a b = same_bytes b.artifact_id a.artifact_id || same_bytes b.run_key a.run_key

unfoldable pub insert_artifact :
    StoredReportArtifact → DeliveryStore → Result DeliveryError DeliveryStore
unfolding schedule_of
insert_artifact a t =
    artifact_beside (find (takes_place a) t.artifacts) (has_schedule t a.schedule_id) a t

abbrev pub is_taken : ReportDelivery → ReportDelivery → Bool
is_taken d e =
    same_bytes e.delivery_id d.delivery_id || same_bytes e.idempotency_key d.idempotency_key

-- Likewise for a delivery, whose id and idempotency key are unique; whether its schedule is there is
-- an argument, and so is a row that has its id or its key.
abbrev pub insert_beside :
    Option ReportDelivery
    → Bool
    → ReportDelivery
    → List ReportDelivery
    → Result DeliveryError (List ReportDelivery)
insert_beside (some _) known d ds = ok ds
insert_beside none true d ds = ok (ds ++ d ∷ [])
insert_beside none false d ds = err platform

unfoldable pub insert_delivery :
    Bool → ReportDelivery → List ReportDelivery → Result DeliveryError (List ReportDelivery)
insert_delivery known d ds = insert_beside (find (is_taken d) ds) known d ds

module _ (p : Platform) where
  -- The key of a delivery and the delivery that is queued under it.
  abbrev pub key_of : Bytes → Bytes → ReportDestination → Bytes
  key_of id run_key d = id ++ codes ":" ++ run_key ++ codes ":" ++ destination_id d

  unfoldable pub queued :
      Bytes → Bytes → StoredReportArtifact → Bytes → ReportDestination → ReportDelivery
  queued id run_key a timestamp d = record {
    delivery_id = codes "delivery_" ++ first_of 32 (p.sha256 (key_of id run_key d));
    artifact_id = a.artifact_id;
    schedule_id = id;
    run_key = run_key;
    destination = d;
    idempotency_key = key_of id run_key d;
    status = pending;
    attempt_count = 0;
    next_attempt_at = timestamp;
    lease_until = none;
    last_error = none;
    delivered_at = none;
    created_at = timestamp;
    updated_at = timestamp;
  }

  -- The loop over the destinations.
  unfoldable pub queue_deliveries :
      Bool
      → Bytes
      → Bytes
      → StoredReportArtifact
      → Bytes
      → List ReportDestination
      → List ReportDelivery
      → Result DeliveryError (List ReportDelivery)
  unfolding queued insert_delivery
  queue_deliveries known id run_key a timestamp [] ds = ok ds
  queue_deliveries known id run_key a timestamp (d ∷ rest) ds =
      insert_delivery known (queued id run_key a timestamp d) ds
      >>= queue_deliveries known id run_key a timestamp rest

  unfoldable pub new_artifact :
      ReportSchedule
      → Bytes
      → StatementPeriod
      → GeneratedReportArtifact
      → Bytes
      → StoredReportArtifact
  new_artifact s run_key period generated timestamp = record {
    artifact_id = codes "artifact_" ++ first_of 32 (p.sha256 run_key);
    schedule_id = s.schedule_id;
    run_key = run_key;
    generated = generated;
    period = period;
    sha256 = p.sha256 generated.content;
    created_at = timestamp;
  }

  -- The deliveries of the artifact that stands under the run, if it is the one that was generated.
  unfoldable pub queue_existing :
      ReportSchedule
      → Bytes
      → Bytes
      → Bytes
      → DeliveryStore
      → Option StoredReportArtifact
      → Result DeliveryError DeliveryStore
  unfolding queue_deliveries
  queue_existing s run_key sha256 timestamp t none = err platform
  queue_existing s run_key sha256 timestamp t (some a) = do
    _ ←
        throw_if (not (same_bytes a.sha256 sha256))
          (message (codes "run " ++ run_key ++ codes " already has a different immutable artifact"))
    ds ←
        queue_deliveries (has_schedule t s.schedule_id) s.schedule_id run_key a timestamp
          s.destinations t.deliveries
    ok (record t { deliveries = ds })

  -- An error rolls the transaction back.
  unfoldable pub enqueue_artifact :
      ReportSchedule
      → Bytes
      → StatementPeriod
      → GeneratedReportArtifact
      → Bytes
      → DeliveryStore
      → Result DeliveryError DeliveryStore
  unfolding iso new_artifact insert_artifact artifact_for_run queue_existing
  enqueue_artifact s run_key period generated now t = do
    timestamp ← iso p now (codes "now")
    t' ← insert_artifact (new_artifact s run_key period generated timestamp) t
    queue_existing s run_key (p.sha256 generated.content) timestamp t' (artifact_for_run t' run_key)
